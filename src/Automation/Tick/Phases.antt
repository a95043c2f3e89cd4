-- ===== src/Automation/Tick/Phases.antt =====
-- What the two loops of a generation of src/lib/automation/executor/tick-graph.ts may change.
use provence.Prelude.{
  ℕ, String, ◌≡◌, refl, ◌∙◌, ◌≢◌, inl, inr, Bool, true, false, ◌||◌, Option, none, some, List, [],
  ◌∷◌, lookup, insert, lookup-insert_self, lookup-insert_ne, All, arith, str_eq, eq_iff, Bool-cases,
  Option-cases,
}
use provence.Json.{or_null}
use provence.Automation.Graph.{AutomationNode}
use provence.Automation.RunState.{NodeStatus, NodeState, NodeStates}
use provence.Automation.RunState.Ready.{IsPending, Distinct, OnlySkips}
use provence.Automation.RunState.Keeps.{is_final, Keeps, Keeps-trans}
use provence.Automation.Tick.{
  Settled, status_of, DispatchResult, in_flight, suspend, PollResult, Run, done, thrown, ◌>>=◌,
  Suspended, TickState, is_cons, settle, after_poll, is_running, poll_one, poll_nodes, state_in,
  after_dispatch, dispatch_nodes,
}

-- A write to a node whose state may change.
pub insert-Keeps :
    (id : String) (new old : NodeState) (states : NodeStates)
    → lookup id states ≡ some old
    → is_final old.status ≡ false
    → Keeps states (insert id new states)
insert-Keeps id new old states found open_state j s found' final = elim (Bool-cases (str_eq id j)) [
  | inl same ↦ absurd (clash (rw (← (eq_iff _ _).0 same) at found'))
  | inr other ↦ lookup-insert_ne id j new states (λ e. ne e other) ∙ found'
]
  where
    clash : lookup id states ≡ some s → ⊥
    clash f = ground (arith, f, found)

    ne : id ≡ j → str_eq id j ≡ false → ⊥
    ne e f = ground (arith, eq_iff id j)

pub OnlySkips-Keeps : (a b : NodeStates) → OnlySkips a b → Keeps a b
OnlySkips-Keeps a b h id s found final = elim (h id) [
  | inl e ↦ e ∙ found
  | inr (t, found', is, now) ↦ absurd (clash t found' is)
]
  where
    clash : (t : NodeState) → lookup id a ≡ some t → t.status ≡ NodeStatus.pending → ⊥
    clash t found' is = ground (arith, found, found')

-- A property of what a step returns; a throw has none to fulfil.
abbrev pub Ensures {ℓ} : {W A : Type 0} → (A → Type ℓ) → Run W A → Type ℓ
Ensures P (done a w) = P a
Ensures P (thrown message w) = Unit

pub Ensures-bind {ℓ κ} :
    {W A B : Type 0} (P : A → Type ℓ) (Q : B → Type κ) (m : Run W A) (f : A → W → Run W B)
    → Ensures P m
    → ((a : A) (w : W) → P a → Ensures Q (f a w))
    → Ensures Q (m >>= f)
Ensures-bind P Q (done a w) f h k = k a w h
Ensures-bind P Q (thrown message w) f h k = tt

pub Ensures-then {κ} :
    {W A B : Type 0} (Q : B → Type κ) (m : Run W A) (f : A → W → Run W B)
    → ((a : A) (w : W) → Ensures Q (f a w))
    → Ensures Q (m >>= f)
Ensures-then Q (done a w) f k = k a w
Ensures-then Q (thrown message w) f k = tt

pub Ensures-map {ℓ κ} :
    {W A : Type 0} (P : A → Type ℓ) (Q : A → Type κ) (m : Run W A)
    → Ensures P m
    → ((a : A) → P a → Q a)
    → Ensures Q m
Ensures-map P Q (done a w) h k = k a h
Ensures-map P Q (thrown message w) h k = tt

pub Ensures-both {ℓ κ} :
    {W A : Type 0} (P : A → Type ℓ) (Q : A → Type κ) (m : Run W A)
    → Ensures P m
    → Ensures Q m
    → Ensures (λ a. P a × Q a) m
Ensures-both P Q (done a w) h k = (h, k)
Ensures-both P Q (thrown message w) h k = tt

or-eq-false : (a b : Bool) → (a || b) ≡ false → (a ≡ false) × (b ≡ false)
or-eq-false a b h = ground arith

pub settle-states :
    (id : String) (s : Settled) (t : TickState)
    → (settle id s t).states
      ≡ insert id
          (record { status = status_of s.status; output = or_null s.output; error = s.error })
          t.states
settle-states id s t = ground arith

-- Polling keeps the final states, and changes nothing if it reports no progress.
abbrev pub PollPost : TickState → TickState × Bool → Type 0
PollPost t r = Keeps t.states r.0.states × (r.1 ≡ false → r.0 ≡ t)

PollPost-refl : (t : TickState) → PollPost t (t, false)
PollPost-refl t = (λ id s found final. found, λ e. refl)

after_poll-PollPost :
    (node : AutomationNode) (t : TickState) (polled : PollResult)
    → is_running (lookup node.id t.states) ≡ true
    → PollPost t (after_poll node t polled)
after_poll-PollPost node t (PollResult.pending progressed) h =
    (λ id s found final. found, λ e. refl)
after_poll-PollPost node t (PollResult.settled s) h =
    elim (Option-cases (lookup node.id t.states)) [
      | inl e ↦ absurd (let h' = rw e at h in cc)
      | inr (old, e) ↦ (
        rw settle-states (insert-Keeps node.id _ old t.states e (open_running old (rw e at h))),
        λ f. absurd (cc),
      )
    ]
  where
    open_running : (old : NodeState) → is_running (some old) ≡ true → is_final old.status ≡ false
    open_running old h = ground arith

-- Dispatching distinct pending nodes keeps the final states. A node that suspends ends it, and waits.
abbrev pub DispatchPost : List AutomationNode → TickState → TickState × Option Suspended → Type 0
DispatchPost nodes t r =
    Keeps t.states r.0.states
    × (is_cons nodes ≡ false → r.0 ≡ t)
    × ((s : Suspended)
        → r.1 ≡ some s
        → (n : NodeState) × (lookup s.node_id r.0.states ≡ some n)
          × (n.status ≡ NodeStatus.waiting))

after_dispatch-states :
    (node : AutomationNode) (t : TickState) (d : DispatchResult)
    → (new : NodeState) × ((after_dispatch node t d).0.states ≡ insert node.id new t.states)
after_dispatch-states node t (DispatchResult.settled s) = (_, settle-states node.id s t)
after_dispatch-states node t (in_flight output) = (_, refl)
after_dispatch-states node t (suspend resume_at) = (_, refl)

after_dispatch-Keeps :
    (node : AutomationNode) (t : TickState) (d : DispatchResult)
    → IsPending t.states node
    → Keeps t.states (after_dispatch node t d).0.states
after_dispatch-Keeps node t d (old, found, is) =
    let (new, e) = after_dispatch-states node t d in
    rw e (insert-Keeps node.id new old t.states found (rw is refl))

after_dispatch-IsPending :
    (node other : AutomationNode) (t : TickState) (d : DispatchResult)
    → node.id ≢ other.id
    → IsPending t.states other
    → IsPending (after_dispatch node t d).0.states other
after_dispatch-IsPending node other t d ne (old, found, is) =
    let (new, e) = after_dispatch-states node t d in
    (old, rw e (lookup-insert_ne node.id other.id new t.states ne ∙ found), is)

suspend_waits :
    (node : AutomationNode) (t : TickState) (resume_at : ℕ) (s : Suspended)
    → (after_dispatch node t (suspend resume_at)).1 ≡ some s
    → (n : NodeState) × (lookup s.node_id (after_dispatch node t (suspend resume_at)).0.states
        ≡ some n)
      × (n.status ≡ NodeStatus.waiting)
suspend_waits node t resume_at s e =
    let same : node.id ≡ s.node_id = cc in
    let new = state_in NodeStatus.waiting none in
    (new, rw (← same) (lookup-insert_self node.id new t.states), refl)

All-IsPending :
    (node : AutomationNode) (nodes : List AutomationNode) (t : TickState) (d : DispatchResult)
    → All (λ m. node.id ≢ m.id) nodes
    → All (IsPending t.states) nodes
    → All (IsPending (after_dispatch node t d).0.states) nodes
All-IsPending node [] t d a p = tt
All-IsPending node (m ∷ nodes) t d (ne, a) (first, p) =
    (after_dispatch-IsPending node m t d ne first, All-IsPending node nodes t d a p)

module _ {W : Type 0} (dispatch : AutomationNode → TickState → W → Run W DispatchResult)
    (poll : AutomationNode → TickState → W → Run W PollResult) where
  poll_one-PollPost :
      (node : AutomationNode) (t : TickState) (w : W)
      → Ensures (PollPost t) (poll_one dispatch poll node t w)
  unfolding poll_one
  poll_one-PollPost node t w = elim (Bool-cases (is_running (lookup node.id t.states))) [
    | inl is ↦
        rw (is, poll_one)
          (Ensures-then (PollPost t) (poll node t w) _
            (λ polled w'. after_poll-PollPost node t polled is))
    | inr not_running ↦ rw (not_running, poll_one) (PollPost-refl t)
  ]

  pub poll_nodes-PollPost :
      (nodes : List AutomationNode) (t : TickState) (w : W)
      → Ensures (PollPost t) (poll_nodes dispatch poll nodes t w)
  unfolding poll_nodes
  poll_nodes-PollPost [] t w = PollPost-refl t
  poll_nodes-PollPost (node ∷ nodes) t w =
      Ensures-bind (PollPost t) (PollPost t) (poll_one dispatch poll node t w) _
        (poll_one-PollPost node t w)
        (λ first w' (keeps, same).
          Ensures-bind (PollPost first.0) (PollPost t) (poll_nodes dispatch poll nodes first.0 w') _
            (poll_nodes-PollPost nodes first.0 w')
            (λ rest w'' (keeps', same'). (
              Keeps-trans t.states first.0.states rest.0.states keeps keeps',
              λ quiet. let (a, b) = or-eq-false first.1 rest.1 quiet in same' b ∙ same a,
            )))

  pub dispatch_nodes-DispatchPost :
      (nodes : List AutomationNode) (t : TickState) (w : W)
      → All (IsPending t.states) nodes
      → Distinct nodes
      → Ensures (DispatchPost nodes t) (dispatch_nodes dispatch poll nodes t w)
  unfolding dispatch_nodes
  dispatch_nodes-DispatchPost [] t w p d =
      (λ id s found final. found, λ e. refl, λ s e. absurd (cc))
  dispatch_nodes-DispatchPost (node ∷ nodes) t w (first, p) (fresh, d) =
      Ensures-then (DispatchPost (node ∷ nodes) t) (dispatch node t w) _ (λ dispatched w'.
        next dispatched w' (λ t' p'. dispatch_nodes-DispatchPost nodes t' w' p' d))
    where
      onwards :
          (dispatched : DispatchResult) (w' : W)
          → ((t' : TickState)
              → All (IsPending t'.states) nodes
              → Ensures (DispatchPost nodes t') (dispatch_nodes dispatch poll nodes t' w'))
          → let t' = (after_dispatch node t dispatched).0 in
            Ensures (DispatchPost (node ∷ nodes) t) (dispatch_nodes dispatch poll nodes t' w')
      onwards dispatched w' ih =
          let t' = (after_dispatch node t dispatched).0 in
          Ensures-map (DispatchPost nodes t') (DispatchPost (node ∷ nodes) t) _
            (ih t' (All-IsPending node nodes t dispatched fresh p))
            (λ r (keeps, _, waits). (
              Keeps-trans t.states t'.states r.0.states
                  (after_dispatch-Keeps node t dispatched first) keeps,
              λ e. absurd (cc),
              waits,
            ))

      next :
          (dispatched : DispatchResult) (w' : W)
          → ((t' : TickState)
              → All (IsPending t'.states) nodes
              → Ensures (DispatchPost nodes t') (dispatch_nodes dispatch poll nodes t' w'))
          → Ensures (DispatchPost (node ∷ nodes) t) (elim (after_dispatch node t dispatched).1 [
            | none ↦ dispatch_nodes dispatch poll nodes (after_dispatch node t dispatched).0 w'
            | some s ↦ done ((after_dispatch node t dispatched).0, some s) w'
          ])
      next (DispatchResult.settled s) w' ih = onwards (DispatchResult.settled s) w' ih
      next (in_flight output) w' ih = onwards (in_flight output) w' ih
      next (suspend resume_at) w' ih = (
        after_dispatch-Keeps node t (suspend resume_at) first,
        λ e. absurd (cc),
        suspend_waits node t resume_at,
      )
