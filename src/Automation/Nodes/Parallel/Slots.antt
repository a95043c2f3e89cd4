-- ===== src/Automation/Nodes/Parallel/Slots.antt =====
-- What a step of a poll keeps of the slots of a map node (`pollMapNode` of
-- src/lib/automation/executor/job-executor.ts).
use provence.Prelude.{
  ℕ, zero, suc, ◌≤◌, ◌≡◌, refl, ap, String, true, false, Option, some, List, [], ◌∷◌, map, count_if,
  All, arith, Bool-cases, inl, inr,
}
use provence.Json.{Json}
use provence.Automation.Graph.{AutomationNode}
use provence.Automation.RunState.{NodeStates, is_subgraph_settled, subgraph_has_failure}
use provence.Automation.Tick.{TickState, TickResult}
use provence.Automation.Nodes.Loop.{nth, body_outputs}
use provence.Automation.Nodes.Parallel.{Slot, is_started, is_active, update, Progress, after_item}

-- A slot that is done has its result: what the nodes of its body put out, in states in which the body is
-- settled and has not failed.
abbrev pub HasResult : List AutomationNode → Slot → Type 0
HasResult nodes slot =
    slot.is_done ≡ true
    → (states : NodeStates) × (is_subgraph_settled nodes states ≡ true)
      × (subgraph_has_failure nodes states ≡ false)
      × (slot.result ≡ some (body_outputs nodes states))

abbrev pub StartedAt : List Slot → ℕ → Type 0
StartedAt slots i = (slot : Slot) × (nth i slots ≡ some slot) × (is_started slot ≡ true)

abbrev pub item_of : Slot → Json
item_of slot = slot.item

-- What the steps of a poll keep, for the nodes of the body.
pub record After (nodes : List AutomationNode) (old new : List Slot) : Type 0 where
  pub fewer : count_if is_active new ≤ count_if is_active old
  pub results : All (HasResult nodes) old → All (HasResult nodes) new
  pub items : map item_of new ≡ map item_of old
  pub started : (i : ℕ) → StartedAt old i → StartedAt new i

pub After-refl : (nodes : List AutomationNode) (slots : List Slot) → After nodes slots slots
After-refl nodes slots = record {
  fewer = omega arith;
  results = λ h. h;
  items = refl;
  started = λ i h. h;
}

pub After-trans :
    (nodes : List AutomationNode) (a b c : List Slot)
    → After nodes a b
    → After nodes b c
    → After nodes a c
After-trans nodes a b c h k =
    let f = h.fewer in
    let g = k.fewer in
    record {
      fewer = omega (arith, f, g);
      results = λ r. k.results (h.results r);
      items = rw k.items h.items;
      started = λ i s. k.started i (h.started i s);
    }

-- A slot in place of one that is started.
pub record Replaces (nodes : List AutomationNode) (old new : Slot) : Type 0 where
  pub active : is_active new ≡ true → is_active old ≡ true
  pub result : HasResult nodes old → HasResult nodes new
  pub item : new.item ≡ old.item
  pub started : is_started new ≡ true

same_slot :
    (nodes : List AutomationNode) (slot old new : Slot)
    → ◌≡◌ {A = Option Slot} (some slot) (some old)
    → Replaces nodes old new
    → Replaces nodes slot new
same_slot nodes slot old new e h = let same : slot ≡ old = cc in rw same h

fewer-update :
    (nodes : List AutomationNode) (i : ℕ) (old new : Slot) (slots : List Slot)
    → nth i slots ≡ some old
    → Replaces nodes old new
    → count_if is_active (update i new slots) ≤ count_if is_active slots
unfolding nth update
fewer-update nodes i old new [] e h = omega arith
fewer-update nodes zero old new (slot ∷ slots) e h =
    let a = (same_slot nodes slot old new e h).active in ground (arith, a)
fewer-update nodes (suc i) old new (slot ∷ slots) e h =
    ground (arith, fewer-update nodes i old new slots e h)

results-update :
    (nodes : List AutomationNode) (i : ℕ) (old new : Slot) (slots : List Slot)
    → nth i slots ≡ some old
    → Replaces nodes old new
    → All (HasResult nodes) slots
    → All (HasResult nodes) (update i new slots)
unfolding nth update
results-update nodes i old new [] e h r = tt
results-update nodes zero old new (slot ∷ slots) e h (r, rs) =
    ((same_slot nodes slot old new e h).result r, rs)
results-update nodes (suc i) old new (slot ∷ slots) e h (r, rs) =
    (r, results-update nodes i old new slots e h rs)

items-update :
    (nodes : List AutomationNode) (i : ℕ) (old new : Slot) (slots : List Slot)
    → nth i slots ≡ some old
    → Replaces nodes old new
    → map item_of (update i new slots) ≡ map item_of slots
unfolding nth update
items-update nodes i old new [] e h = refl
items-update nodes zero old new (slot ∷ slots) e h = rw (same_slot nodes slot old new e h).item refl
items-update nodes (suc i) old new (slot ∷ slots) e h =
    ap (λ items. slot.item ∷ items) (items-update nodes i old new slots e h)

started-update :
    (i j : ℕ) (new : Slot) (slots : List Slot)
    → is_started new ≡ true
    → StartedAt slots j
    → StartedAt (update i new slots) j
unfolding nth update
started-update i j new [] h s = s
started-update zero zero new (slot ∷ slots) h s = (new, refl, h)
started-update zero (suc j) new (slot ∷ slots) h s = s
started-update (suc i) zero new (slot ∷ slots) h s = s
started-update (suc i) (suc j) new (slot ∷ slots) h s = started-update i j new slots h s

update-After :
    (nodes : List AutomationNode) (i : ℕ) (old new : Slot) (slots : List Slot)
    → nth i slots ≡ some old
    → Replaces nodes old new
    → After nodes slots (update i new slots)
update-After nodes i old new slots e h = record {
  fewer = fewer-update nodes i old new slots e h;
  results = results-update nodes i old new slots e h;
  items = items-update nodes i old new slots e h;
  started = λ j s. started-update i j new slots h.started s;
}

-- The slot after the tick of its body, with or without a result.
ran-Replaces :
    (nodes : List AutomationNode) (slot : Slot) (states : NodeStates)
    → is_started slot ≡ true
    → Replaces nodes slot (record slot { sub = some states })
ran-Replaces nodes slot states h = record {
  active = λ a. ground (arith, a);
  result = λ r. r;
  item = refl;
  started = refl;
}

finished-Replaces :
    (nodes : List AutomationNode) (slot : Slot) (states : NodeStates)
    → is_subgraph_settled nodes states ≡ true
    → subgraph_has_failure nodes states ≡ false
    → Replaces nodes slot (record slot {
      sub = some states;
      is_done = true;
      result = some (body_outputs nodes states);
    })
finished-Replaces nodes slot states over fine = record {
  active = λ a. absurd (ground arith);
  result = λ r d. (states, over, fine, refl);
  item = refl;
  started = refl;
}

pub after_item-After :
    (text id : String) (index : ℕ) (nodes : List AutomationNode) (slot : Slot) (p : Progress)
    (ticked : TickState × TickResult)
    → nth index p.slots ≡ some slot
    → is_started slot ≡ true
    → After nodes p.slots (after_item text id index nodes slot p ticked).slots
unfolding after_item
after_item-After text id index nodes slot p ticked e h =
    let states = ticked.0.states in
    let ran = update-After nodes index slot _ p.slots e (ran-Replaces nodes slot states h) in
    elim (Bool-cases (is_subgraph_settled nodes states)) [
      | inr running ↦ rw running ran
      | inl over ↦ elim (Bool-cases (subgraph_has_failure nodes states)) [
        | inl failed ↦ rw (over, failed) ran
        | inr fine ↦
            rw (over, fine)
              (update-After nodes index slot _ p.slots e
                (finished-Replaces nodes slot states over fine))
      ]
    ]
