-- ===== src/Automation/RunState/Ready.antt =====
-- What `computeReadyNodes` of src/lib/automation/executor/run-state.ts reads and writes.
use provence.Prelude.{
  String, ◌≡◌, refl, sym, ◌∙◌, ap, ◌≢◌, ◌⊎◌, inl, inr, Bool, true, false, ◌||◌, Option, none, some,
  List, [], ◌∷◌, lookup, lookup-insert, lookup-insert_ne, All, arith, str_eq, eq_iff, Bool-cases,
  Option-cases,
}
use provence.Automation.Graph.{AutomationNode, AutomationEdge}
use provence.Automation.RunState.{
  pending, NodeState, NodeStates, Readiness, ready, wait, skip, ◌>>=◌, is_node_ready, incoming_of,
  skipped_state, outcome_at, push_ready, is_skip, mark, compute_ready_nodes,
}

-- A node's state is there and pending.
abbrev pub IsPending : NodeStates → AutomationNode → Type 0
IsPending states node = (s : NodeState) × (lookup node.id states ≡ some s) × (s.status ≡ pending)

-- No two nodes have one identifier.
abbrev pub Distinct : List AutomationNode → Type 0
Distinct [] = Unit
Distinct (n ∷ nodes) = All (λ m. n.id ≢ m.id) nodes × Distinct nodes

-- How a state may change while the ready nodes are computed.
abbrev pub OnlySkips : NodeStates → NodeStates → Type 0
OnlySkips states states' =
    (id : String)
    → (lookup id states' ≡ lookup id states)
      ⊎ ((s : NodeState) × (lookup id states ≡ some s)
          × (s.status ≡ pending)
          × (lookup id states' ≡ some skipped_state))

abbrev pub Found : Type 0
Found = List AutomationNode × Bool × NodeStates

none-ne-some {ℓ} : {A : Type ℓ} {a : A} → none ≡ some a → ⊥
none-ne-some h = cc

module _ (edges : List AutomationEdge) where
  -- The rounds of the loop, one after another.
  abbrev pub Computed : List AutomationNode → NodeStates → Found → Type 0
  Computed [] states r = r ≡ ([], false, states)
  Computed (node ∷ nodes) states r' =
      (outcome : Option Readiness) × (r : Found) × (outcome_at node edges states
          (lookup node.id states)
        ≡ some outcome)
      × Computed nodes (mark outcome node states) r
      × (r' ≡ (push_ready outcome node r.0, is_skip outcome || r.1, r.2))

  pub computed :
      (nodes : List AutomationNode) (states : NodeStates) (r : Found)
      → compute_ready_nodes nodes edges states ≡ some r
      → Computed nodes states r
  unfolding compute_ready_nodes
  computed [] states r h = cc
  computed (node ∷ nodes) states r h =
      elim (Option-cases (outcome_at node edges states (lookup node.id states))) [
        | inl e ↦ absurd (none-ne-some (rw e at h))
        | inr (outcome, e) ↦
            elim (Option-cases (compute_ready_nodes nodes edges (mark outcome node states))) [
              | inl f ↦ absurd (none-ne-some (rw (e, f) at h))
              | inr (r', f) ↦ (
                outcome,
                r',
                e,
                computed nodes (mark outcome node states) r' f,
                last outcome r' (rw (e, f) at h),
              )
            ]
      ]
    where
      last :
          (outcome : Option Readiness) (r' : Found)
          → some (push_ready outcome node r'.0, is_skip outcome || r'.1, r'.2) ≡ some r
          → r ≡ (push_ready outcome node r'.0, is_skip outcome || r'.1, r'.2)
      last outcome r' same = cc

  -- What a node that is ready, waits or is skipped says of the states.
  pub outcome-IsPending :
      (node : AutomationNode) (states : NodeStates) (x : Readiness)
      → outcome_at node edges states (lookup node.id states) ≡ some (some x)
      → IsPending states node × (is_node_ready node (incoming_of node edges) states ≡ some x)
  outcome-IsPending node states x h = elim (Option-cases (lookup node.id states)) [
    | inl e ↦ let h' = rw e at h in cc
    | inr (s, e) ↦ ((s, e, (pending_of s (rw e at h)).0), (pending_of s (rw e at h)).1)
  ]
    where
      pending_of :
          (s : NodeState)
          → outcome_at node edges states (some s) ≡ some (some x)
          → (s.status ≡ pending) × (is_node_ready node (incoming_of node edges) states ≡ some x)
      pending_of s k = ground arith

  mark-OnlySkips :
      (node : AutomationNode) (states : NodeStates) (outcome : Option Readiness)
      → outcome_at node edges states (lookup node.id states) ≡ some outcome
      → OnlySkips states (mark outcome node states)
  mark-OnlySkips node states none h id = inl refl
  mark-OnlySkips node states (some ready) h id = inl refl
  mark-OnlySkips node states (some wait) h id = inl refl
  mark-OnlySkips node states (some skip) h id =
      let ((s, found, is), _) = outcome-IsPending node states skip h in
      elim (Bool-cases (str_eq node.id id)) [
        | inl same ↦ inr (s, rw (← (eq_iff _ _).0 same) found, is, rw (lookup-insert, same))
        | inr other ↦ inl (rw (lookup-insert, other))
      ]

  OnlySkips-trans : (a b c : NodeStates) → OnlySkips a b → OnlySkips b c → OnlySkips a c
  OnlySkips-trans a b c f g id = elim (f id) [
    | inl e ↦ elim (g id) [
      | inl e' ↦ inl (e' ∙ e)
      | inr (s, found, is, now) ↦ inr (s, sym e ∙ found, is, now)
    ]
    | inr (s, found, is, now) ↦ elim (g id) [
      | inl e' ↦ inr (s, found, is, e' ∙ now)
      | inr (t, found', is', now') ↦ absurd (skipped-ne-pending t (sym now ∙ found') is')
    ]
  ]
    where
      skipped-ne-pending : (t : NodeState) → some skipped_state ≡ some t → t.status ≡ pending → ⊥
      skipped-ne-pending t e is = ground arith

  pub Computed-OnlySkips :
      (nodes : List AutomationNode) (states : NodeStates) (r : Found)
      → Computed nodes states r
      → OnlySkips states r.2
  Computed-OnlySkips [] states r e id = inl (ap (λ r. lookup id r.2) e)
  Computed-OnlySkips (node ∷ nodes) states r' (outcome, r, visited, rest, e) id = rw e (
      OnlySkips-trans states (mark outcome node states) r.2
        (mark-OnlySkips node states outcome visited)
        (Computed-OnlySkips nodes (mark outcome node states) r rest) id)

  mark_frame :
      (node : AutomationNode) (states : NodeStates) (outcome : Option Readiness) (id : String)
      → node.id ≢ id
      → lookup id (mark outcome node states) ≡ lookup id states
  mark_frame node states none id ne = refl
  mark_frame node states (some ready) id ne = refl
  mark_frame node states (some wait) id ne = refl
  mark_frame node states (some skip) id ne = lookup-insert_ne node.id id skipped_state states ne

  -- The loop leaves the state of every other node alone.
  Computed-frame :
      (nodes : List AutomationNode) (states : NodeStates) (r : Found) (id : String)
      → Computed nodes states r
      → All (λ n. id ≢ n.id) nodes
      → lookup id r.2 ≡ lookup id states
  Computed-frame [] states r id e a = ap (λ r. lookup id r.2) e
  Computed-frame (node ∷ nodes) states r' id (outcome, r, visited, rest, e) (ne, a) = rw e (
      Computed-frame nodes (mark outcome node states) r id rest a
      ∙ mark_frame node states outcome id (λ same. ne (sym same)))

  -- What holds of every node holds of the ready ones.
  pub Computed-All :
      (P : AutomationNode → Type 0) (nodes : List AutomationNode) (states : NodeStates) (r : Found)
      → Computed nodes states r
      → All P nodes
      → All P r.0
  Computed-All P [] states r e a = rw e tt
  Computed-All P (node ∷ nodes) states r' (outcome, r, visited, rest, e) (p, a) =
      rw e (push outcome (Computed-All P nodes (mark outcome node states) r rest a))
    where
      push : (o : Option Readiness) → All P r.0 → All P (push_ready o node r.0)
      push none b = b
      push (some ready) b = (p, b)
      push (some wait) b = b
      push (some skip) b = b

  -- The ready nodes are distinct and still pending at the end.
  pub Computed-IsPending :
      (nodes : List AutomationNode) (states : NodeStates) (r : Found)
      → Computed nodes states r
      → Distinct nodes
      → All (IsPending r.2) r.0 × Distinct r.0
  Computed-IsPending [] states r e d = rw e (tt, tt)
  Computed-IsPending (node ∷ nodes) states r' (outcome, r, visited, rest, e) (fresh, d) =
      rw e
        (push outcome visited rest (Computed-IsPending nodes (mark outcome node states) r rest d))
    where
      push :
          (o : Option Readiness)
          → outcome_at node edges states (lookup node.id states) ≡ some o
          → Computed nodes (mark o node states) r
          → All (IsPending r.2) r.0 × Distinct r.0
          → All (IsPending r.2) (push_ready o node r.0) × Distinct (push_ready o node r.0)
      push none v c b = b
      push (some wait) v c b = b
      push (some skip) v c b = b
      push (some ready) v c (pend, dist) =
          let ((s, found, is), _) = outcome-IsPending node states ready v in
          (
            ((s, Computed-frame nodes states r node.id c fresh ∙ found, is), pend),
            (Computed-All (λ m. node.id ≢ m.id) nodes states r c fresh, dist),
          )

  -- A node that waits: not pending, or pending with `isNodeReady` answering "wait".
  abbrev pub IsSettledOrWaits : NodeStates → AutomationNode → Type 0
  IsSettledOrWaits states node =
      IsPending states node → is_node_ready node (incoming_of node edges) states ≡ some wait

  waits_of :
      (node : AutomationNode) (states : NodeStates) (x : Option Readiness)
      → outcome_at node edges states (lookup node.id states) ≡ some x
      → (x ≡ none) ⊎ (x ≡ some wait)
      → IsSettledOrWaits states node
  waits_of node states x v (inr e) (s, found, is) =
      (outcome-IsPending node states wait (rw (← e) v)).1
  waits_of node states x v (inl e) (s, found, is) =
      absurd (never (is_node_ready node (incoming_of node edges) states) (rw (found, is, e) at v))
    where
      never : (o : Option Readiness) → (o >>= λ r. some (some r)) ≡ some none → ⊥
      never none h = cc
      never (some y) h = cc

  -- If nothing is ready and nothing was skipped, no state has changed and every pending node waits.
  pub Computed-quiet :
      (nodes : List AutomationNode) (states : NodeStates) (r : Found)
      → Computed nodes states r
      → r.0 ≡ []
      → r.1 ≡ false
      → (r.2 ≡ states) × All (IsSettledOrWaits states) nodes
  Computed-quiet [] states r e none_found none_skipped = (ap (λ r. r.2) e, tt)
  Computed-quiet (node ∷ nodes) states r' (none, r, visited, rest, e) nf ns =
      let (same, waits) =
        Computed-quiet nodes states r rest (sym (ap (λ r. r.0) e) ∙ nf)
          (sym (ap (λ r. r.1) e) ∙ ns) in
      (ap (λ r. r.2) e ∙ same, (waits_of node states none visited (inl refl), waits))
  Computed-quiet (node ∷ nodes) states r' (some wait, r, visited, rest, e) nf ns =
      let (same, waits) =
        Computed-quiet nodes states r rest (sym (ap (λ r. r.0) e) ∙ nf)
          (sym (ap (λ r. r.1) e) ∙ ns) in
      (ap (λ r. r.2) e ∙ same, (waits_of node states (some wait) visited (inr refl), waits))
  Computed-quiet (node ∷ nodes) states r' (some ready, r, visited, rest, e) nf ns =
      let found : node ∷ r.0 ≡ [] = sym (ap (λ r. r.0) e) ∙ nf in absurd (cc)
  Computed-quiet (node ∷ nodes) states r' (some skip, r, visited, rest, e) nf ns =
      let skipped : true ≡ false = sym (ap (λ r. r.1) e) ∙ ns in absurd (cc)
