-- ===== src/Automation/RunState/Waits.antt =====
-- Why `isNodeReady` of src/lib/automation/executor/run-state.ts makes a node wait.
use provence.Prelude.{
  ◌≡◌, refl, Bool, true, false, Option, none, some, List, [], ◌∷◌, lookup, All, inl, inr,
  Bool-cases, Option-cases, if◌then◌else◌,
}
use provence.Automation.Graph.{AutomationNode, AutomationEdge, NodeData, JoinMode}
use provence.Automation.RunState.{
  NodeState, NodeStates, ready, wait, skip, every_edge, some_edge, source_is_terminal,
  source_is_satisfied, ready_if, inner_ready, ready_by, is_node_ready, ◌>>=◌, incoming_of,
}
use provence.Automation.RunState.Edges.{Fails, Any}
use provence.Automation.RunState.Ready.{IsPending, IsSettledOrWaits}

-- Why a pending node is not let run: a source that is not terminal, or, for a join in mode "any", that
-- no incoming edge from a terminal source is satisfied.
abbrev pub Blocked : NodeData → List AutomationEdge → NodeStates → Type 0
Blocked (NodeData.join (some JoinMode.all)) incoming states =
    Any (Fails source_is_terminal states) incoming
Blocked (NodeData.join _) incoming states = All (Fails source_is_satisfied states) incoming
Blocked _ incoming states = Any (Fails source_is_terminal states) incoming

module _ (test : AutomationEdge → NodeState → Bool) (states : NodeStates) where
  every_edge-Fails :
      (edges : List AutomationEdge)
      → every_edge test edges states ≡ some false
      → Any (Fails test states) edges
  unfolding every_edge
  every_edge-Fails [] h = absurd (let h' : some true ≡ some false = h in cc)
  every_edge-Fails (edge ∷ edges) h = elim (Option-cases (lookup edge.source states)) [
    | inl e ↦ absurd (let h' = rw (e, every_edge) at h in cc)
    | inr (s, e) ↦ elim (Bool-cases (test edge s)) [
      | inl passed ↦ inr (every_edge-Fails edges (rw (e, passed, every_edge) at h))
      | inr failed ↦ inl (s, e, failed)
    ]
  ]

  some_edge-Fails :
      (edges : List AutomationEdge)
      → some_edge test edges states ≡ some false
      → All (Fails test states) edges
  unfolding some_edge
  some_edge-Fails [] h = tt
  some_edge-Fails (edge ∷ edges) h = elim (Option-cases (lookup edge.source states)) [
    | inl e ↦ absurd (let h' = rw (e, some_edge) at h in cc)
    | inr (s, e) ↦ elim (Bool-cases (test edge s)) [
      | inl passed ↦ absurd (let h' = rw (e, passed, some_edge) at h in cc)
      | inr failed ↦ ((s, e, failed), some_edge-Fails edges (rw (e, failed, some_edge) at h))
    ]
  ]

-- A test's answer by which a node waits.
waits_by : (o : Option Bool) → (o >>= λ b. some (ready_if wait b)) ≡ some wait → o ≡ some false
waits_by none h = absurd (cc)
waits_by (some true) h = absurd (let h' : some ready ≡ some wait = h in cc)
waits_by (some false) h = refl

inner_waits :
    (incoming : List AutomationEdge) (states : NodeStates)
    → inner_ready incoming states ≡ some wait
    → every_edge source_is_terminal incoming states ≡ some false
unfolding inner_ready
inner_waits incoming states h = go (every_edge source_is_terminal incoming states) _ h
  where
    go :
        (o satisfied : Option Bool)
        → (o >>= λ b. if b then (satisfied >>= λ c. some (ready_if skip c)) else some wait)
          ≡ some wait
        → o ≡ some false
    go none satisfied e = absurd (cc)
    go (some false) satisfied e = refl
    go (some true) none e = absurd (let h' : none ≡ some wait = e in cc)
    go (some true) (some true) e = absurd (let h' : some ready ≡ some wait = e in cc)
    go (some true) (some false) e = absurd (let h' : some skip ≡ some wait = e in cc)

-- A node that waits is blocked.
pub is_node_ready-Blocked :
    (node : AutomationNode) (incoming : List AutomationEdge) (states : NodeStates)
    → is_node_ready node incoming states ≡ some wait
    → Blocked node.data_of incoming states
unfolding is_node_ready
is_node_ready-Blocked node [] states h = absurd (let h' : some ready ≡ some wait = h in cc)
is_node_ready-Blocked node (edge ∷ incoming) states h = by_kind node.data_of h
  where
    inner :
        inner_ready (edge ∷ incoming) states ≡ some wait
        → Any (Fails source_is_terminal states) (edge ∷ incoming)
    inner e =
        every_edge-Fails source_is_terminal states (edge ∷ incoming)
          (inner_waits (edge ∷ incoming) states e)

    by_kind :
        (d : NodeData)
        → ready_by d (edge ∷ incoming) states ≡ some wait
        → Blocked d (edge ∷ incoming) states
    by_kind (NodeData.join (some JoinMode.all)) e =
        every_edge-Fails source_is_terminal states (edge ∷ incoming) (waits_by _ e)
    by_kind (NodeData.join (some JoinMode.any)) e =
        some_edge-Fails source_is_satisfied states (edge ∷ incoming) (waits_by _ e)
    by_kind (NodeData.join none) e =
        some_edge-Fails source_is_satisfied states (edge ∷ incoming) (waits_by _ e)
    by_kind (NodeData.trigger k f) e = inner e
    by_kind (NodeData.condition r) e = inner e
    by_kind (NodeData.switch c) e = inner e
    by_kind (NodeData.action d) e = inner e
    by_kind (NodeData.loop d) e = inner e
    by_kind (NodeData.map d) e = inner e
    by_kind (NodeData.wait d u) e = inner e
    by_kind (NodeData.subautomation k i) e = inner e
    by_kind NodeData.end e = inner e

module _ (edges : List AutomationEdge) (states : NodeStates) where
  -- A node that is not pending, or is blocked.
  abbrev pub IsSettledOrBlocked : AutomationNode → Type 0
  IsSettledOrBlocked node =
      IsPending states node → Blocked node.data_of (incoming_of node edges) states

  pub All-Blocked :
      (nodes : List AutomationNode)
      → All (IsSettledOrWaits edges states) nodes
      → All IsSettledOrBlocked nodes
  All-Blocked [] h = tt
  All-Blocked (node ∷ nodes) (h, hs) =
      (λ p. is_node_ready-Blocked node (incoming_of node edges) states (h p), All-Blocked nodes hs)
