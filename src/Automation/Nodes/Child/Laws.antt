-- ===== src/Automation/Nodes/Child/Laws.antt =====
-- Sub-automations and their runs (src/lib/automation/executor/job-executor.ts,
-- `dispatchSubautomationNode` and `pollSubautomationNode`).
use provence.Prelude.{
  ◌≡◌, refl, ap, String, Bool, true, false, ◌&&◌, Option, none, some, List, [], ◌∷◌, Memᴰ, lookup,
  lookup-insert_self, sym, ◌∙◌, if◌then◌else◌, arith, eq_iff, Bool-cases, Option-cases, inl, inr,
  str_eq,
}
use provence.Json.{Fields, str}
use provence.Workflow.VariableContext.{VariableContext}
use provence.Automation.Graph.{AutomationNode}
use provence.Automation.RunState.{NodeStatus, NodeStates}
use provence.Automation.Tick.{after_dispatch, TickState, DispatchResult, in_flight, done, state_in}
use provence.Automation.Tick.World.{Gives, Gives-at}
use provence.Automation.Run.{RunStatus, AutomationRun}
use provence.Automation.Nodes.{
  RunRef, AutomationStatus, Automation, Database, Environment, field_of, resolved_input,
}
use provence.Automation.Nodes.Action.{text_property-field_of, in_flight-state}
use provence.Automation.Nodes.Child.{
  child_of, is_text, is_active, queued_run, find_active, version_of, version_in, child_answer,
  poll_child, create_automation_run, dispatch_child,
}

-- The automation is in the workspace, has the key, and is active.
abbrev pub IsTarget : String → String → Automation → Type 0
IsTarget workspace_id key a =
    (a.workspace_id ≡ some workspace_id) × (a.key ≡ key) × (a.status ≡ AutomationStatus.active)

abbrev matches : String → String → Automation → Bool
matches workspace_id key a =
    is_text workspace_id a.workspace_id && str_eq a.key key && is_active a.status

is_text-some : (s : String) (o : Option String) → is_text s o ≡ true → o ≡ some s
is_text-some s none h = absurd (ground arith)
is_text-some s (some t) h = let same : t ≡ s = ground (arith, h, eq_iff t s) in ap some same

is_active-active :
    (status : AutomationStatus) → is_active status ≡ true → status ≡ AutomationStatus.active
is_active-active AutomationStatus.active h = refl
is_active-active AutomationStatus.draft h = absurd (ground arith)
is_active-active AutomationStatus.paused h = absurd (ground arith)
is_active-active AutomationStatus.archived h = absurd (ground arith)

matches-IsTarget :
    (workspace_id key : String) (a : Automation)
    → matches workspace_id key a ≡ true
    → IsTarget workspace_id key a
matches-IsTarget workspace_id key a h =
    let parts : (is_text workspace_id a.workspace_id ≡ true)
        × (str_eq a.key key ≡ true)
        × (is_active a.status ≡ true) =
      ground (arith, h) in
    (
      is_text-some workspace_id a.workspace_id parts.0,
      ground (arith, parts, eq_iff a.key key),
      is_active-active a.status parts.2,
    )

if-true : {A : Type 0} {b : Bool} {x : A} (y : A) → b ≡ true → (if b then x else y) ≡ x
if-true y h = rw h refl

if-false : {A : Type 0} {b : Bool} (x : A) {y : A} → b ≡ false → (if b then x else y) ≡ y
if-false x h = rw h refl

find_active-IsTarget :
    (workspace_id key : String) (automations : List Automation) (a : Automation)
    → find_active workspace_id key automations ≡ some a
    → Memᴰ a automations × IsTarget workspace_id key a
unfolding find_active
find_active-IsTarget workspace_id key [] a h = absurd (ground arith)
find_active-IsTarget workspace_id key (b ∷ automations) a h =
    elim (Bool-cases (matches workspace_id key b)) [
      | inl hit ↦
          let same : some b ≡ some a = sym (if-true _ hit) ∙ h in
          let mine : b ≡ a = cc in
          (Memᴰ.head (sym mine), rw (sym mine) (matches-IsTarget workspace_id key b hit))
      | inr miss ↦
          let (m, t) =
            find_active-IsTarget workspace_id key automations a (sym (if-false _ miss) ∙ h) in
          (Memᴰ.tail m, t)
    ]

version_in-some :
    (id : String) (o : Option String) (target : String × String)
    → version_in id o ≡ some target
    → (id ≡ target.0) × (o ≡ some target.1)
version_in-some id none target h = absurd (ground arith)
version_in-some id (some v) target h = elim (Bool-cases (str_eq v "")) [
  | inl empty ↦ let bad : none ≡ some target = sym (if-true _ empty) ∙ h in absurd (ground arith)
  | inr text ↦
      let e : some (id, v) ≡ some target = sym (if-false _ text) ∙ h in
      let same : (id, v) ≡ target = cc in (ap (λ p. p.0) same, ap (λ p. some p.1) same)
]

version_of-some :
    (o : Option Automation) (target : String × String)
    → version_of o ≡ some target
    → (a : Automation) × (o ≡ some a) × (a.id ≡ target.0) × (a.active_version_id ≡ some target.1)
version_of-some none target h = absurd (ground arith)
version_of-some (some a) target h =
    let (same, version) = version_in-some a.id a.active_version_id target h in
    (a, refl, same, version)

poll_child-state_in :
    (node_id id : String) (db : Database) (states : NodeStates) (child : AutomationRun)
    → str_eq id "" ≡ false
    → lookup node_id states
      ≡ some (state_in NodeStatus.running (some (field_of "childRunId" (str id))))
    → lookup id db.runs ≡ some child
    → poll_child node_id states db ≡ done (child_answer id child) db
unfolding poll_child
poll_child-state_in node_id id db states child h at row =
    rw (at, poll_child) (rw (text_property-field_of "childRunId" id h) (rw row refl))

-- The answer of a dispatch, which names the run that it has created.
abbrev pub NewChild :
    RunRef → String → List Automation → String → DispatchResult → Database → Type 0
NewChild run key automations id r db =
    (r ≡ in_flight (some (field_of "childRunId" (str id))))
    × ((child : AutomationRun) × (a : Automation) × (lookup id db.runs ≡ some child)
        × (child.status ≡ RunStatus.queued)
        × (child.parent_run_id ≡ some run.id)
        × Memᴰ a automations
        × IsTarget run.workspace_id key a
        × (child.automation_id ≡ a.id)
        × (some child.automation_version_id ≡ a.active_version_id))

module _ (e : Environment) where
  dispatch_child-NewChild :
      (run : RunRef) (key : String) (input : Option Fields) (ctx : VariableContext) (db : Database)
      → Gives
          (NewChild run key db.automations (e.fresh_id db.created))
          (dispatch_child e run key input ctx db)
  unfolding dispatch_child create_automation_run
  dispatch_child-NewChild run key input ctx db =
      elim (Option-cases (version_of (find_active run.workspace_id key db.automations))) [
        | inl missing ↦ rw (missing, dispatch_child) tt
        | inr (target, found) ↦ elim (Option-cases (e.run_refused run.organization_id db)) [
          | inr (message, refused) ↦
              rw (found, dispatch_child) (rw (refused, create_automation_run) tt)
          | inl allowed ↦
              let (a, is, same, version) =
                version_of-some (find_active run.workspace_id key db.automations) target found in
              let (member, targets) =
                find_active-IsTarget run.workspace_id key db.automations a is in
              let id = e.fresh_id db.created in
              let child = queued_run (child_of run target (resolved_input e input ctx)) id in
              rw (found, dispatch_child)
                (rw (allowed, create_automation_run)
                  (
                    refl,
                    (
                      child,
                      a,
                      lookup-insert_self id child db.runs,
                      refl,
                      refl,
                      member,
                      targets,
                      sym same,
                      sym version,
                    ),
                  ))
        ]
      ]

  -- The dispatch of a sub-automation that does not throw, under an identifier that is not empty, creates
  -- a queued run: a child of the node's run, of the active version of an automation of the workspace
  -- that is active and has the key. As long as the node's state is the one that the dispatch gives it, a
  -- poll with the child under its identifier, in whatever condition, answers by it.
  pub dispatch_child-poll_child :
      (run : RunRef) (node : AutomationNode) (key : String) (input : Option Fields) (t : TickState)
      (r : DispatchResult) (db db' later : Database) (states : NodeStates) (child : AutomationRun)
      → str_eq (e.fresh_id db.created) "" ≡ false
      → dispatch_child e run key input t.ctx db ≡ done r db'
      → lookup node.id states ≡ lookup node.id (after_dispatch node t r).0.states
      → lookup (e.fresh_id db.created) later.runs ≡ some child
      → NewChild run key db.automations (e.fresh_id db.created) r db'
        × (poll_child node.id states later
            ≡ done (child_answer (e.fresh_id db.created) child) later)
  dispatch_child-poll_child run node key input t r db db' later states child h given at row =
      let id = e.fresh_id db.created in
      let new =
        Gives-at (NewChild run key db.automations id) (dispatch_child e run key input t.ctx db) r
          db' (dispatch_child-NewChild run key input t.ctx db) given in
      (
        new,
        poll_child-state_in node.id id later states child h
            (at ∙ in_flight-state node t r (field_of "childRunId" (str id)) new.0) row,
      )
