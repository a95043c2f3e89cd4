-- ===== src/Automation/Nodes/Parallel/Start.antt =====
-- The items that a poll of a map node starts (`pollMapNode` of
-- src/lib/automation/executor/job-executor.ts).
use provence.Prelude.{
  ℕ, zero, suc, ◌+◌, ◌≤◌, ◌≡◌, refl, ap, true, false, ◌||◌, some, List, [], ◌∷◌, map, length,
  count_if, All, arith, Bool-cases, inl, inr,
}
use provence.Automation.Graph.{AutomationNode}
use provence.Automation.Nodes.Loop.{nth}
use provence.Automation.Nodes.Parallel.{Slot, is_started, is_active, active_indices, start_items}
use provence.Automation.Nodes.Parallel.Slots.{HasResult, StartedAt, item_of}

-- Indices of active slots are indices of slots that are started.
shift :
    (slot : Slot) (slots : List Slot) (is : List ℕ)
    → All (StartedAt slots) is
    → All (StartedAt (slot ∷ slots)) (map suc is)
unfolding nth
shift slot slots [] h = tt
shift slot slots (i ∷ is) (h, hs) = (h, shift slot slots is hs)

pub active_indices-StartedAt : (slots : List Slot) → All (StartedAt slots) (active_indices slots)
unfolding active_indices nth
active_indices-StartedAt [] = tt
active_indices-StartedAt (slot ∷ slots) =
    let later = shift slot slots (active_indices slots) (active_indices-StartedAt slots) in
    elim (Bool-cases (is_active slot)) [
      | inl active ↦ rw active ((slot, refl, ground (arith, active)), later)
      | inr idle ↦ rw idle later
    ]

length-map : (is : List ℕ) → length (map suc is) ≡ length is
length-map [] = refl
length-map (i ∷ is) = ap suc (length-map is)

pub length-active_indices :
    (slots : List Slot) → length (active_indices slots) ≡ count_if is_active slots
unfolding active_indices
length-active_indices [] = refl
length-active_indices (slot ∷ slots) =
    ground (arith, length-active_indices slots, length-map (active_indices slots))

-- What starting items keeps and adds.
pub record Started (room : ℕ) (old : List Slot) (r : List Slot × List ℕ) : Type 0 where
  pub bounded : count_if is_active r.0 ≤ count_if is_active old + room
  pub results :
      (nodes : List AutomationNode) → All (HasResult nodes) old → All (HasResult nodes) r.0
  pub items : map item_of r.0 ≡ map item_of old
  pub kept : (i : ℕ) → StartedAt old i → StartedAt r.0 i
  pub chosen : All (StartedAt r.0) r.1

pub All-kept :
    (old new : List Slot) (indices : List ℕ)
    → ((i : ℕ) → StartedAt old i → StartedAt new i)
    → All (StartedAt old) indices
    → All (StartedAt new) indices
All-kept old new [] h s = tt
All-kept old new (i ∷ indices) h (s, rest) = (h i s, All-kept old new indices h rest)

kept-cons :
    (slot slot' : Slot) (old new : List Slot)
    → (is_started slot ≡ true → is_started slot' ≡ true)
    → ((i : ℕ) → StartedAt old i → StartedAt new i)
    → (i : ℕ) → StartedAt (slot ∷ old) i
    → StartedAt (slot' ∷ new) i
unfolding nth
kept-cons slot slot' old new h k zero (s, e, started) =
    let same : slot ≡ s = cc in (slot', refl, h (rw same started))
kept-cons slot slot' old new h k (suc i) s = k i s

skip-Started :
    (room : ℕ) (slot : Slot) (slots : List Slot) (r : List Slot × List ℕ)
    → Started room slots r
    → Started room (slot ∷ slots) (slot ∷ r.0, map suc r.1)
skip-Started room slot slots r h =
    let b = h.bounded in
    record {
      bounded = ground (arith, b);
      results = λ nodes (d, ds). (d, h.results nodes ds);
      items = rw h.items refl;
      kept = kept-cons slot slot slots r.0 (λ s. s) h.kept;
      chosen = shift slot r.0 r.1 h.chosen;
    }

start-Started :
    (room : ℕ) (slot : Slot) (slots : List Slot) (r : List Slot × List ℕ)
    → Started room slots r
    → slot.is_done ≡ false
    → Started (suc room) (slot ∷ slots) (record slot { sub = some [] } ∷ r.0, 0 ∷ map suc r.1)
unfolding nth
start-Started room slot slots r h waiting =
    let b = h.bounded in
    record {
      bounded = ground (arith, b);
      results = λ nodes (d, ds). (d, h.results nodes ds);
      items = rw h.items refl;
      kept = kept-cons slot _ slots r.0 (λ s. refl) h.kept;
      chosen = ((_, refl, refl), shift _ r.0 r.1 h.chosen);
    }

pub start_items-Started :
    (room : ℕ) (slots : List Slot) → Started room slots (start_items room slots)
unfolding start_items
start_items-Started zero slots = record {
  bounded = omega arith;
  results = λ nodes h. h;
  items = refl;
  kept = λ i h. h;
  chosen = tt;
}
start_items-Started (suc room) [] = record {
  bounded = omega arith;
  results = λ nodes h. h;
  items = refl;
  kept = λ i h. h;
  chosen = tt;
}
start_items-Started (suc room) (slot ∷ slots) =
    elim (Bool-cases (is_started slot || slot.is_done)) [
      | inl busy ↦ rw busy (
          skip-Started (suc room) slot slots (start_items (suc room) slots)
            (start_items-Started (suc room) slots))
      | inr free ↦ rw free (
          start-Started room slot slots (start_items room slots) (start_items-Started room slots)
            (ground (arith, free)))
    ]
