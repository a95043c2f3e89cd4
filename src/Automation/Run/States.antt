-- ===== src/Automation/Run/States.antt =====
-- The states with which an advance (`advanceAutomationRun` of
-- src/lib/automation/executor/job-executor.ts) starts its tick.
use provence.Prelude.{
  String, ◌≡◌, refl, sym, ◌∙◌, ◌≢◌, inl, inr, Bool, true, false, ◌&&◌, some, List, [], ◌∷◌, Memᴰ,
  All, lookup, insert, lookup-insert, lookup-insert_ne, lookup-insert_self, subst, select, str_eq,
  eq_iff, arith, Bool-cases, Option-cases,
}
use provence.Automation.Graph.{AutomationNode}
use provence.Automation.RunState.{NodeState, NodeStates, is_terminal}
use provence.Automation.RunState.Keeps.{is_final}
use provence.Automation.RunState.Ready.{Distinct}
use provence.Automation.Run.{pending_state, fill, resumed_state, is_wait, is_waiting, resume_waits}

-- The states of the nodes that are settled stay as they are.
abbrev pub KeepsSettled : NodeStates → NodeStates → Type 0
KeepsSettled states states' =
    (id : String) (s : NodeState)
    → lookup id states ≡ some s
    → is_terminal s.status ≡ true
    → lookup id states' ≡ some s

select-All :
    {A : Type 0} (P : A → Type 0) (p : A → Bool) (xs : List A) → All P xs → All P (select p xs)
select-All P p [] h = tt
select-All P p (x ∷ xs) (h, hs) = elim (Bool-cases (p x)) [
  | inl e ↦ rw e (h, select-All P p xs hs)
  | inr e ↦ rw e (select-All P p xs hs)
]

pub select-Distinct :
    (p : AutomationNode → Bool) (nodes : List AutomationNode)
    → Distinct nodes
    → Distinct (select p nodes)
select-Distinct p [] h = tt
select-Distinct p (node ∷ nodes) (h, hs) = elim (Bool-cases (p node)) [
  | inl e ↦ rw e (select-All (λ m. node.id ≢ m.id) p nodes h, select-Distinct p nodes hs)
  | inr e ↦ rw e (select-Distinct p nodes hs)
]

pub fill_keeps :
    (nodes : List AutomationNode) (states : NodeStates) (id : String) (s : NodeState)
    → lookup id states ≡ some s
    → lookup id (fill nodes states) ≡ some s
unfolding fill
fill_keeps [] states id s h = h
fill_keeps (node ∷ nodes) states id s h = elim (Option-cases (lookup node.id states)) [
  | inl e ↦
      let set = lookup-insert node.id id pending_state states in
      rw (e, fill)
        (fill_keeps nodes (insert node.id pending_state states) id s
          (ground (arith, set, h, e, eq_iff node.id id)))
  | inr (state, e) ↦ rw (e, fill) (fill_keeps nodes states id s h)
]

and_right : (a b : Bool) → (a && b) ≡ true → b ≡ true
and_right a b h = ground arith

waits_elsewhere :
    (i j : String) (states : NodeStates) (s : NodeState)
    → lookup j states ≡ some s
    → is_waiting (some s) ≡ false
    → is_waiting (lookup i states) ≡ true
    → i ≢ j
waits_elsewhere i j states s found other waits same =
    let there = subst (λ x. is_waiting (lookup x states) ≡ true) same waits in
    let here = subst (λ o. is_waiting o ≡ true) found there in
    let clash : true ≡ false = sym here ∙ other in cc

pub resume_waits_keeps :
    (nodes : List AutomationNode) (states : NodeStates) (id : String) (s : NodeState)
    → lookup id states ≡ some s
    → is_waiting (some s) ≡ false
    → lookup id (resume_waits nodes states) ≡ some s
unfolding resume_waits
resume_waits_keeps [] states id s h k = h
resume_waits_keeps (node ∷ nodes) states id s h k =
    elim (Bool-cases (is_wait node.data_of && is_waiting (lookup node.id states))) [
      | inl e ↦
          let waits = and_right (is_wait node.data_of) (is_waiting (lookup node.id states)) e in
          let apart = waits_elsewhere node.id id states s h k waits in
          rw e (
            resume_waits_keeps nodes (insert node.id resumed_state states) id s
              (lookup-insert_ne node.id id resumed_state states apart ∙ h) k)
      | inr e ↦ rw e (resume_waits_keeps nodes states id s h k)
    ]

pub not_waiting : (s : NodeState) → is_terminal s.status ≡ true → is_waiting (some s) ≡ false
not_waiting s h = ground arith

pub final : (s : NodeState) → is_terminal s.status ≡ true → is_final s.status ≡ true
final s h = ground arith

pub resume_waits_resumes :
    (node : AutomationNode) (nodes : List AutomationNode) (states : NodeStates)
    → Memᴰ node nodes
    → is_wait node.data_of ≡ true
    → is_waiting (lookup node.id states) ≡ true
    → lookup node.id (resume_waits nodes states) ≡ some resumed_state
unfolding resume_waits
resume_waits_resumes node [] states m wait waits = elim m [ ]
resume_waits_resumes node (other ∷ nodes) states (Memᴰ.head same) wait waits =
    let e : (is_wait other.data_of && is_waiting (lookup other.id states)) ≡ true =
      subst (λ n. (is_wait n.data_of && is_waiting (lookup n.id states)) ≡ true) same
        (rw (wait, waits) refl) in
    let set : lookup node.id (insert other.id resumed_state states) ≡ some resumed_state =
      rw same (lookup-insert_self other.id resumed_state states) in
    rw e (
      resume_waits_keeps nodes (insert other.id resumed_state states) node.id resumed_state set
        refl)
resume_waits_resumes node (other ∷ nodes) states (Memᴰ.tail m) wait waits =
    elim (Bool-cases (is_wait other.data_of && is_waiting (lookup other.id states))) [
      | inl e ↦ rw e (elim (Bool-cases (str_eq other.id node.id)) [
        | inl same ↦
            resume_waits_keeps nodes (insert other.id resumed_state states) node.id resumed_state
              (lookup-insert other.id node.id resumed_state states ∙ rw same refl) refl
        | inr apart ↦
            let kept : lookup node.id (insert other.id resumed_state states)
                ≡ lookup node.id states =
              lookup-insert other.id node.id resumed_state states ∙ rw apart refl in
            resume_waits_resumes node nodes (insert other.id resumed_state states) m wait
              (rw kept waits)
      ])
      | inr e ↦ rw e (resume_waits_resumes node nodes states m wait waits)
    ]
