-- ===== src/Automation/RunState/Edges.antt =====
-- When `isNodeReady` of src/lib/automation/executor/run-state.ts lets a node run, against a
-- description by its incoming edges.
use provence.Prelude.{
  ◌≡◌, refl, sym, ◌∙◌, ap, ◌≢◌, ◌⊎◌, ◌↔◌, inl, inr, Bool, true, false, ◌&&◌, Option, none, some,
  List, [], ◌∷◌, lookup, All, arith, if◌then◌else◌, Bool-cases, Option-cases,
}
use provence.Automation.Graph.{AutomationNode, AutomationEdge, NodeData, JoinMode}
use provence.Automation.RunState.{
  NodeStatus, NodeState, NodeStates, is_terminal, ready, wait, skip, every_edge, some_edge,
  source_is_terminal, source_is_satisfied, edge_is_satisfied, ready_if, inner_ready, ready_by,
  is_node_ready,
}
use provence.Automation.RunState.Keeps.{is_final, Keeps}

-- The edge's source has a state that passes the test, or fails it.
abbrev pub Passes : (AutomationEdge → NodeState → Bool) → NodeStates → AutomationEdge → Type 0
Passes test states edge =
    (s : NodeState) × (lookup edge.source states ≡ some s) × (test edge s ≡ true)

abbrev pub Fails : (AutomationEdge → NodeState → Bool) → NodeStates → AutomationEdge → Type 0
Fails test states edge =
    (s : NodeState) × (lookup edge.source states ≡ some s) × (test edge s ≡ false)

abbrev pub IsKnown : NodeStates → AutomationEdge → Type 0
IsKnown states edge = (s : NodeState) × (lookup edge.source states ≡ some s)

-- Some element has the property.
abbrev pub Any {ℓ} : {A : Type ℓ} → (A → Type 0) → List A → Type 0
Any P [] = ⊥
Any P (x ∷ xs) = P x ⊎ Any P xs

module _ (test : AutomationEdge → NodeState → Bool) (states : NodeStates) where
  every_edge_to :
      (edges : List AutomationEdge)
      → every_edge test edges states ≡ some true
      → All (Passes test states) edges
  unfolding every_edge
  every_edge_to [] h = tt
  every_edge_to (edge ∷ edges) h = elim (Option-cases (lookup edge.source states)) [
    | inl e ↦ absurd (let h' = rw (e, every_edge) at h in cc)
    | inr (s, e) ↦ elim (Bool-cases (test edge s)) [
      | inl passed ↦ ((s, e, passed), every_edge_to edges (rw (e, passed, every_edge) at h))
      | inr failed ↦ absurd (let h' = rw (e, failed, every_edge) at h in cc)
    ]
  ]

  every_edge_from :
      (edges : List AutomationEdge)
      → All (Passes test states) edges
      → every_edge test edges states ≡ some true
  unfolding every_edge
  every_edge_from [] h = refl
  every_edge_from (edge ∷ edges) ((s, e, passed), h) =
      rw (e, passed, every_edge) (every_edge_from edges h)

  some_edge_to :
      (edges : List AutomationEdge)
      → some_edge test edges states ≡ some true
      → Any (Passes test states) edges
  unfolding some_edge
  some_edge_to [] h = absurd (let h' : some false ≡ some true = h in cc)
  some_edge_to (edge ∷ edges) h = elim (Option-cases (lookup edge.source states)) [
    | inl e ↦ absurd (let h' = rw (e, some_edge) at h in cc)
    | inr (s, e) ↦ elim (Bool-cases (test edge s)) [
      | inl passed ↦ inl (s, e, passed)
      | inr failed ↦ inr (some_edge_to edges (rw (e, failed, some_edge) at h))
    ]
  ]

  some_edge_from :
      (edges : List AutomationEdge)
      → All (IsKnown states) edges
      → Any (Passes test states) edges
      → some_edge test edges states ≡ some true
  unfolding some_edge
  some_edge_from [] k h = absurd h
  some_edge_from (edge ∷ edges) (_, k) (inl (s, e, passed)) = rw (e, passed, some_edge) refl
  some_edge_from (edge ∷ edges) ((s, e), k) (inr h) = elim (Bool-cases (test edge s)) [
    | inl passed ↦ rw (e, passed, some_edge) refl
    | inr failed ↦ rw (e, failed, some_edge) (some_edge_from edges k h)
  ]

  pub some_edge_none :
      (edges : List AutomationEdge)
      → All (Fails test states) edges
      → some_edge test edges states ≡ some false
  unfolding some_edge
  some_edge_none [] h = refl
  some_edge_none (edge ∷ edges) ((s, e, failed), h) =
      rw (e, failed, some_edge) (some_edge_none edges h)

  -- With a state for every source no `get(…)!` throws.
  pub every_edge_total :
      (edges : List AutomationEdge)
      → All (IsKnown states) edges
      → (b : Bool) × (every_edge test edges states ≡ some b)
  unfolding every_edge
  every_edge_total [] k = (true, refl)
  every_edge_total (edge ∷ edges) ((s, e), k) = elim (Bool-cases (test edge s)) [
    | inl passed ↦ let (b, h) = every_edge_total edges k in (b, rw (e, passed, every_edge) h)
    | inr failed ↦ (false, rw (e, failed, every_edge) refl)
  ]

  pub some_edge_total :
      (edges : List AutomationEdge)
      → All (IsKnown states) edges
      → (b : Bool) × (some_edge test edges states ≡ some b)
  unfolding some_edge
  some_edge_total [] k = (false, refl)
  some_edge_total (edge ∷ edges) ((s, e), k) = elim (Bool-cases (test edge s)) [
    | inl passed ↦ (true, rw (e, passed, some_edge) refl)
    | inr failed ↦ let (b, h) = some_edge_total edges k in (b, rw (e, failed, some_edge) h)
  ]

abbrev pub IsJoin : NodeData → Type 0
IsJoin (NodeData.join mode) = Unit
IsJoin _ = ⊥

-- What the source says of a node that is no join and has incoming edges: it may run when all its
-- sources are terminal and at least one edge is satisfied.
abbrev pub MayRun : List AutomationEdge → NodeStates → Type 0
MayRun incoming states =
    All (Passes source_is_terminal states) incoming × Any (Passes edge_is_satisfied states) incoming

inner_ready_iff :
    (incoming : List AutomationEdge) (states : NodeStates)
    → All (IsKnown states) incoming
    → (inner_ready incoming states ≡ some ready) ↔ MayRun incoming states
unfolding inner_ready
inner_ready_iff incoming states k = (to, from)
  where
    passed :
        (b c : Bool)
        → (if b then some (ready_if skip c) else some wait) ≡ some ready
        → (b ≡ true) × (c ≡ true)
    passed b c h = ground arith

    to : inner_ready incoming states ≡ some ready → MayRun incoming states
    to h =
        let (b, e) = every_edge_total source_is_terminal states incoming k in
        let (c, f) = some_edge_total edge_is_satisfied states incoming k in
        let both : (b ≡ true) × (c ≡ true) = passed b c (rw (e, f) at h) in
        (
          every_edge_to source_is_terminal states incoming (e ∙ ap some both.0),
          some_edge_to edge_is_satisfied states incoming (f ∙ ap some both.1),
        )

    from : MayRun incoming states → inner_ready incoming states ≡ some ready
    from (terminal, satisfied) =
        rw
          (
            every_edge_from source_is_terminal states incoming terminal,
            some_edge_from edge_is_satisfied states incoming k satisfied,
          )
          refl

-- When every source of its incoming edges has a state, a node that is no join is ready exactly when
-- it has no incoming edge, or all its sources are terminal and one of its incoming edges is
-- satisfied.
pub is_node_ready_iff :
    (node : AutomationNode) (incoming : List AutomationEdge) (states : NodeStates)
    → ¬ IsJoin node.data_of
    → All (IsKnown states) incoming
    → (is_node_ready node incoming states ≡ some ready) ↔ ((incoming ≡ []) ⊎ MayRun incoming states)
unfolding is_node_ready
is_node_ready_iff node [] states plain k = (λ _. inl refl, λ _. refl)
is_node_ready_iff node (edge ∷ incoming) states plain k =
    let inner = inner_ready_iff (edge ∷ incoming) states k in
    let same = inner_of node.data_of plain in
    (
      λ h. inr (inner.0 (sym same ∙ h)),
      λ h. elim h [ inl e ↦ absurd (cc) | inr may ↦ same ∙ inner.1 may ],
    )
  where
    inner_of :
        (d : NodeData)
        → ¬ IsJoin d
        → ready_by d (edge ∷ incoming) states ≡ inner_ready (edge ∷ incoming) states
    inner_of (NodeData.join mode) p = absurd (p tt)
    inner_of _ p = refl

-- All incoming edges come from terminal nodes, and none is satisfied.
abbrev pub IsDead : NodeStates → AutomationEdge → Type 0
IsDead states edge =
    (s : NodeState) × (lookup edge.source states ≡ some s)
    × (is_terminal s.status ≡ true)
    × (edge_is_satisfied edge s ≡ false)

dead-Fails :
    (states states' : NodeStates) (edges : List AutomationEdge)
    → Keeps states states'
    → All (IsDead states) edges
    → All (Fails source_is_satisfied states') edges
dead-Fails states states' [] keeps dead = tt
dead-Fails states states' (edge ∷ edges) keeps ((s, found, terminal, unsatisfied), dead) = (
  (s, keeps edge.source s found (final s.status terminal), both s.status terminal),
  dead-Fails states states' edges keeps dead,
)
  where
    final : (status : NodeStatus) → is_terminal status ≡ true → is_final status ≡ true
    final status h = ground arith

    both :
        (status : NodeStatus)
        → is_terminal status ≡ true
        → (is_terminal status && edge_is_satisfied edge s) ≡ false
    both status h = ground (arith, unsatisfied)

-- A join in mode "any" (the default) with at least one incoming edge, whose sources were all
-- terminal with no satisfied edge, answers "wait" in all states that keep the final ones: it is not
-- let run and not skipped.
pub join_any_stuck :
    (node : AutomationNode) (mode : Option JoinMode) (edge : AutomationEdge)
    (incoming : List AutomationEdge) (states states' : NodeStates)
    → node.data_of ≡ NodeData.join mode
    → mode ≢ some JoinMode.all
    → All (IsDead states) (edge ∷ incoming)
    → Keeps states states'
    → is_node_ready node (edge ∷ incoming) states' ≡ some wait
unfolding is_node_ready
join_any_stuck node mode edge incoming states states' is_join any dead keeps =
    rw is_join (waits mode any)
  where
    fails : some_edge source_is_satisfied (edge ∷ incoming) states' ≡ some false
    fails =
        some_edge_none source_is_satisfied states' (edge ∷ incoming)
          (dead-Fails states states' (edge ∷ incoming) keeps dead)

    waits :
        (mode : Option JoinMode)
        → mode ≢ some JoinMode.all
        → ready_by (NodeData.join mode) (edge ∷ incoming) states' ≡ some wait
    waits none ne = rw fails refl
    waits (some JoinMode.any) ne = rw fails refl
    waits (some JoinMode.all) ne = absurd (ne refl)
