-- ===== src/Automation/Validation/Laws.antt =====
-- What a graph with no structural issue (src/lib/automation/graph-validation.ts) is.
use provence.Prelude.{
  String, ◌≡◌, refl, ◌≢◌, ◌⊎◌, inl, inr, Bool, true, false, not, some, List, [], ◌∷◌, ◌++◌, Memᴰ,
  All, any, str_eq, eq_iff, arith, Bool-cases, Option-cases,
}
use provence.Automation.Graph.{AutomationNode, AutomationEdge, AutomationGraph, NodeData}
use provence.Automation.RunState.Ready.{Distinct}
use provence.Automation.Validation.{
  Issue, issue_if, has, issues_of, duplicate_issues, ids_of, is_trigger, is_end, edge_issues,
  has_branch, outgoing_of, body_issues, data_issues, structural_issues,
}

both-nil : {A : Type 0} (xs ys : List A) → xs ++ ys ≡ [] → (xs ≡ []) × (ys ≡ [])
both-nil [] ys h = (refl, h)
both-nil (x ∷ xs) ys h = cc

issue_if-nil : (b : Bool) (issue : Issue) → issue_if b issue ≡ [] → b ≡ false
issue_if-nil true issue h = cc
issue_if-nil false issue h = refl

issues_of-nil :
    {A : Type 0} (check : A → List Issue) (P : A → Type 0) (xs : List A)
    → ((x : A) → check x ≡ [] → P x)
    → issues_of check xs ≡ []
    → All P xs
issues_of-nil check P [] step h = tt
issues_of-nil check P (x ∷ xs) step h =
    let (first, later) = both-nil (check x) (issues_of check xs) h in
    (step x first, issues_of-nil check P xs step later)

any-Memᴰ :
    {A : Type 0} (p : A → Bool) (xs : List A) → any p xs ≡ true → (x : A) × Memᴰ x xs × (p x ≡ true)
any-Memᴰ p [] h = cc
any-Memᴰ p (x ∷ xs) h = elim (Bool-cases (p x)) [
  | inl e ↦ (x, Memᴰ.head refl, e)
  | inr e ↦ let (y, m, f) = any-Memᴰ p xs (ground (arith, e, h)) in (y, Memᴰ.tail m, f)
]

has-Memᴰ : (id : String) (ids : List String) → has id ids ≡ true → Memᴰ id ids
has-Memᴰ id ids h =
    let (other, m, same) = any-Memᴰ (λ other. str_eq other id) ids h in
    let e : other ≡ id = ground (arith, same, eq_iff other id) in rw (← e) m

-- No node has one of the identifiers.
abbrev Avoids : List String → AutomationNode → Type 0
Avoids ids node = has node.id ids ≡ false

duplicate_issues-Distinct :
    (nodes : List AutomationNode) (ids : List String)
    → duplicate_issues nodes ids ≡ []
    → Distinct nodes × All (Avoids ids) nodes
unfolding duplicate_issues
duplicate_issues-Distinct [] ids h = (tt, tt)
duplicate_issues-Distinct (node ∷ nodes) ids h =
    let (first, later) = both-nil _ (duplicate_issues nodes (node.id ∷ ids)) h in
    let (distinct, apart) = duplicate_issues-Distinct nodes (node.id ∷ ids) later in
    ((from_head nodes apart, distinct), (issue_if-nil _ _ first, from_tail nodes apart))
  where
    from_head :
        (others : List AutomationNode)
        → All (Avoids (node.id ∷ ids)) others
        → All (λ m. node.id ≢ m.id) others
    from_head [] a = tt
    from_head (m ∷ others) (a, rest) =
        (λ same. ground (arith, a, same, eq_iff node.id m.id), from_head others rest)

    from_tail :
        (others : List AutomationNode)
        → All (Avoids (node.id ∷ ids)) others
        → All (Avoids ids) others
    from_tail [] a = tt
    from_tail (m ∷ others) (a, rest) = (ground (arith, a), from_tail others rest)

-- An edge between two different nodes of the graph.
abbrev pub Connects : List String → AutomationEdge → Type 0
Connects ids edge = Memᴰ edge.source ids × Memᴰ edge.target ids × (edge.source ≢ edge.target)

-- A body of known nodes, without the node that it belongs to.
abbrev pub IsBody : String → List String → List String → Type 0
IsBody id ids body = (has id body ≡ false) × All (λ b. Memᴰ b ids) body

-- An edge that leaves the node with the branch.
abbrev pub Leaves : String → String → List AutomationEdge → Type 0
Leaves id branch edges =
    (edge : AutomationEdge) × Memᴰ edge edges × (edge.source ≡ id) × (edge.branch ≡ some branch)

abbrev pub IsComplete : String → List String → List AutomationEdge → NodeData → Type 0
IsComplete id ids edges (NodeData.condition rule) = Leaves id "true" edges ⊎ Leaves id "false" edges
IsComplete id ids edges (NodeData.switch cases) = All (λ c. Leaves id c.branch edges) cases
IsComplete id ids edges (NodeData.action d) = d.job_type ≢ ""
IsComplete id ids edges (NodeData.subautomation key input) = key ≢ ""
IsComplete id ids edges (NodeData.loop d) = IsBody id ids d.body_node_ids
IsComplete id ids edges (NodeData.map d) = IsBody id ids d.body_node_ids
IsComplete id ids edges _ = Unit

has_branch-eq :
    (branch : String) (edge : AutomationEdge)
    → has_branch branch edge ≡ true
    → edge.branch ≡ some branch
has_branch-eq branch edge f = elim (Option-cases edge.branch) [
  | inl absent ↦ ground (arith, absent, f)
  | inr (b, found) ↦
      let same : str_eq b branch ≡ true = rw found at f in
      let e : b ≡ branch = ground (arith, same, eq_iff b branch) in rw (found, e) refl
]

Leaves-tail :
    (id branch : String) (edge : AutomationEdge) (edges : List AutomationEdge)
    → Leaves id branch edges
    → Leaves id branch (edge ∷ edges)
Leaves-tail id branch edge edges (found, m, source, there) = (found, Memᴰ.tail m, source, there)

any-Leaves :
    (id branch : String) (edges : List AutomationEdge)
    → any (has_branch branch) (outgoing_of id edges) ≡ true
    → Leaves id branch edges
any-Leaves id branch [] h = cc
any-Leaves id branch (edge ∷ edges) h = elim (Bool-cases (str_eq edge.source id)) [
  | inl e ↦ elim (Bool-cases (has_branch branch edge)) [
    | inl f ↦ (
      edge,
      Memᴰ.head refl,
      ground (arith, e, eq_iff edge.source id),
      has_branch-eq branch edge f,
    )
    | inr f ↦ Leaves-tail id branch edge edges (any-Leaves id branch edges (rw (e, f) at h))
  ]
  | inr e ↦ Leaves-tail id branch edge edges (any-Leaves id branch edges (rw e at h))
]

body_issues-IsBody :
    (id : String) (ids body : List String) → body_issues id ids body ≡ [] → IsBody id ids body
body_issues-IsBody id ids body h =
    let (first, later) = both-nil _ (issues_of _ body) h in
    (
      issue_if-nil _ _ first,
      issues_of-nil _ (λ b. Memᴰ b ids) body
          (λ b e. has-Memᴰ b ids (ground (arith, issue_if-nil _ _ e))) later,
    )

data_issues-IsComplete :
    (id : String) (ids : List String) (edges : List AutomationEdge) (d : NodeData)
    → data_issues id ids edges d ≡ []
    → IsComplete id ids edges d
unfolding data_issues
data_issues-IsComplete id ids edges (NodeData.condition rule) h =
    let none_missing = issue_if-nil _ _ h in
    elim (Bool-cases (any (has_branch "true") (outgoing_of id edges))) [
      | inl e ↦ inl (any-Leaves id "true" edges e)
      | inr e ↦ inr (any-Leaves id "false" edges (ground (arith, none_missing, e)))
    ]
data_issues-IsComplete id ids edges (NodeData.switch cases) h =
    issues_of-nil _ (λ c. Leaves id c.branch edges) cases
      (λ c e. any-Leaves id c.branch edges (ground (arith, issue_if-nil _ _ e))) h
data_issues-IsComplete id ids edges (NodeData.action d) h =
    let e = issue_if-nil (str_eq d.job_type "") _ h in
    λ same. ground (arith, e, same, eq_iff d.job_type "")
data_issues-IsComplete id ids edges (NodeData.subautomation key input) h =
    let e = issue_if-nil (str_eq key "") _ h in λ same. ground (arith, e, same, eq_iff key "")
data_issues-IsComplete id ids edges (NodeData.loop d) h =
    body_issues-IsBody id ids d.body_node_ids h
data_issues-IsComplete id ids edges (NodeData.map d) h = body_issues-IsBody id ids d.body_node_ids h
data_issues-IsComplete id ids edges _ h = tt

edge_issues-Connects :
    (ids : List String) (edge : AutomationEdge) → edge_issues ids edge ≡ [] → Connects ids edge
unfolding edge_issues
edge_issues-Connects ids edge h =
    let (known, same) = both-nil _ (issue_if (str_eq edge.source edge.target) _) h in
    let (source, target) = both-nil _ (issue_if (not (has edge.target ids)) _) known in
    (
      has-Memᴰ edge.source ids (ground (arith, issue_if-nil _ _ source)),
      has-Memᴰ edge.target ids (ground (arith, issue_if-nil _ _ target)),
      λ e. ground (arith, e, issue_if-nil _ _ same, eq_iff edge.source edge.target),
    )

-- A graph with no structural issue is well formed: its nodes have distinct identifiers, it has a
-- trigger and an end, each edge connects two different nodes of the graph, and each node is complete.
-- A condition has an edge for one of its branches, a switch one for each case, an action its job type,
-- a subautomation its key, and the body of a loop or a map is made of known nodes, not itself.
pub structural_issues-nil :
    (graph : AutomationGraph)
    → structural_issues graph ≡ []
    → Distinct graph.nodes
      × (any is_trigger graph.nodes ≡ true)
      × (any is_end graph.nodes ≡ true)
      × All (Connects (ids_of graph.nodes)) graph.edges
      × All (λ node. IsComplete node.id (ids_of graph.nodes) graph.edges node.data_of) graph.nodes
unfolding structural_issues
structural_issues-nil graph h =
    let ids = ids_of graph.nodes in
    let (front, nodes) = both-nil _ (issues_of _ graph.nodes) h in
    let (heads, connections) = both-nil _ (issues_of (edge_issues ids) graph.edges) front in
    let (starts, ends) = both-nil _ (issue_if (not (any is_end graph.nodes)) _) heads in
    let (duplicates, triggers) =
      both-nil (duplicate_issues graph.nodes []) (issue_if (not (any is_trigger graph.nodes)) _)
        starts in
    (
      (duplicate_issues-Distinct graph.nodes [] duplicates).0,
      ground (arith, issue_if-nil _ _ triggers),
      ground (arith, issue_if-nil _ _ ends),
      issues_of-nil (edge_issues ids) (Connects ids) graph.edges (edge_issues-Connects ids)
          connections,
      issues_of-nil _ (λ node. IsComplete node.id ids graph.edges node.data_of) graph.nodes
          (λ node. data_issues-IsComplete node.id ids graph.edges node.data_of) nodes,
    )
