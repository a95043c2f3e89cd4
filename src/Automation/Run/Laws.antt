-- ===== src/Automation/Run/Laws.antt =====
-- What an advance (`advanceAutomationRun` of src/lib/automation/executor/job-executor.ts) does to a
-- run: it keeps what is settled, its verdict is the states', and it ends every wait.
use provence.Prelude.{
  ℕ, ◌≡◌, refl, ap, sym, subst, ◌∙◌, inl, inr, Bool, true, false, Option, none, some, List, [], ◌∷◌,
  Memᴰ, All, lookup, subst, every, if◌then◌else◌, arith, Bool-cases, Option-cases,
}
use provence.Automation.Graph.{AutomationNode, AutomationGraph}
use provence.Automation.RunState.{NodeState, NodeStates, is_terminal}
use provence.Automation.RunState.Keeps.{Keeps}
use provence.Automation.RunState.Ready.{Distinct}
use provence.Automation.Tick.{DispatchResult, PollResult, Run, Suspended, TickState}
use provence.Automation.Tick.Phases.{Ensures, Ensures-bind, Ensures-map}
use provence.Automation.Tick.Laws.{tick_graph-Keeps}
use provence.Automation.Run.States.{
  KeepsSettled, select-Distinct, fill_keeps, resume_waits_keeps, resume_waits_resumes, not_waiting,
  final,
}
use provence.Automation.Run.{
  RunStatus, is_over, AutomationRun, top_nodes, top_edges, fill, resumed_state, is_wait, is_waiting,
  resume_waits, state_of, is_halting_failure, find, conclude, start, is_queued, progress,
  advance_automation_run,
}

conclude_states :
    (nodes : List AutomationNode) (now : ℕ) (run : AutomationRun) (t : TickState)
    (suspended : Option Suspended)
    → (conclude nodes now run t suspended).node_states ≡ t.states
unfolding conclude
conclude_states nodes now run t (some s) = refl
conclude_states nodes now run t none =
    elim (Option-cases (find (is_halting_failure t.states) nodes)) [
      | inl e ↦
          rw (e, conclude)
            (elim (Bool-cases (every (λ node. is_terminal (state_of node t.states).status) nodes)) [
              | inl f ↦ rw f refl
              | inr f ↦ rw f refl
            ])
      | inr (node, e) ↦ rw (e, conclude) refl
    ]

-- A run's status says what its top nodes' states are: a succeeded run has every one settled and none
-- failed, except into a branch of its own; a failed run has one that failed otherwise.
abbrev pub Verdict : RunStatus → List AutomationNode → NodeStates → Type 0
Verdict RunStatus.succeeded nodes states =
    All
      (λ node.
        (is_terminal (state_of node states).status ≡ true)
        × (is_halting_failure states node ≡ false))
      nodes
Verdict RunStatus.failed nodes states =
    (node : AutomationNode) × Memᴰ node nodes × (is_halting_failure states node ≡ true)
Verdict _ nodes states = Unit

every-All : {A : Type 0} (p : A → Bool) (xs : List A) → every p xs ≡ true → All (λ x. p x ≡ true) xs
every-All p [] h = tt
every-All p (x ∷ xs) h = (ground arith, every-All p xs (ground arith))

find-none :
    (p : AutomationNode → Bool) (nodes : List AutomationNode)
    → find p nodes ≡ none
    → All (λ node. p node ≡ false) nodes
unfolding find
find-none p [] h = tt
find-none p (node ∷ nodes) h = (ground arith, find-none p nodes (ground arith))

find-some :
    (p : AutomationNode → Bool) (nodes : List AutomationNode) (node : AutomationNode)
    → find p nodes ≡ some node
    → Memᴰ node nodes × (p node ≡ true)
unfolding find
find-some p [] node h = ground arith
find-some p (other ∷ nodes) node h = elim (Bool-cases (p other)) [
  | inl e ↦
      let same : other ≡ node = ground (arith, e, h) in (Memᴰ.head (sym same), rw (sym same) e)
  | inr e ↦ let (m, passes) = find-some p nodes node (ground (arith, e, h)) in (Memᴰ.tail m, passes)
]

All-both :
    {A : Type 0} (P Q : A → Type 0) (xs : List A) → All P xs → All Q xs → All (λ x. P x × Q x) xs
All-both P Q [] h k = tt
All-both P Q (x ∷ xs) (h, hs) (k, ks) = ((h, k), All-both P Q xs hs ks)

open-Verdict :
    (status : RunStatus) (nodes : List AutomationNode) (states : NodeStates)
    → is_over status ≡ false
    → Verdict status nodes states
open-Verdict RunStatus.succeeded nodes states h = ground arith
open-Verdict RunStatus.failed nodes states h = ground arith
open-Verdict _ nodes states h = tt

conclude-Verdict :
    (nodes : List AutomationNode) (now : ℕ) (run : AutomationRun) (t : TickState)
    (suspended : Option Suspended)
    → is_over run.status ≡ false
    → Verdict (conclude nodes now run t suspended).status nodes t.states
unfolding conclude
conclude-Verdict nodes now run t (some s) h = tt
conclude-Verdict nodes now run t none h =
    elim (Option-cases (find (is_halting_failure t.states) nodes)) [
      | inl e ↦
          rw (e, conclude)
            (elim (Bool-cases (every (λ node. is_terminal (state_of node t.states).status) nodes)) [
              | inl f ↦ rw f (
                  All-both _ _ nodes (every-All _ nodes f)
                    (find-none (is_halting_failure t.states) nodes e))
              | inr f ↦ rw f (open-Verdict run.status nodes t.states h)
            ])
      | inr (node, e) ↦
          rw (e, conclude)
            (let (m, fails) = find-some (is_halting_failure t.states) nodes node e in
              (node, m, fails))
    ]

module _ {W : Type 0} (dispatch : AutomationNode → TickState → W → Run W DispatchResult)
    (poll : AutomationNode → TickState → W → Run W PollResult) (save : AutomationRun → W → W)
    (graph : AutomationGraph) (now : ℕ) where
  abbrev nodes : List AutomationNode
  nodes = top_nodes graph

  abbrev states_of : NodeStates → NodeStates
  states_of states = resume_waits nodes (fill nodes states)

  -- The rows that an advance may leave.
  abbrev IsAfter : AutomationRun → AutomationRun → Type 0
  IsAfter run run' =
      (t : TickState) × (suspended : Option Suspended) × Keeps (states_of run.node_states) t.states
      × (run' ≡ conclude nodes now run t suspended)

  progress-IsAfter :
      (run : AutomationRun) (w : W)
      → Distinct graph.nodes
      → Ensures (IsAfter run) (progress dispatch poll save graph now run w)
  unfolding progress top_nodes
  progress-IsAfter run w d =
      Ensures-bind (λ r. Keeps (states_of run.node_states) r.0.states) (IsAfter run) _ _
        (tick_graph-Keeps dispatch poll nodes (top_edges graph) _ w
          (select-Distinct _ graph.nodes d))
        (λ r w' keeps. (r.0, r.1.suspended, keeps, refl))

  -- The row from which an advance ticks: a queued run is started first.
  abbrev begun : AutomationRun → AutomationRun
  begun run = if is_queued run.status then start now run else run

  advance-IsAfter :
      (run : AutomationRun) (w : W)
      → Distinct graph.nodes
      → is_over run.status ≡ false
      → Ensures (IsAfter (begun run)) (advance_automation_run dispatch poll save graph now run w)
  unfolding advance_automation_run
  advance-IsAfter run w d h = elim (Bool-cases (is_queued run.status)) [
    | inl e ↦ rw (h, e) (progress-IsAfter (start now run) (save (start now run) w) d)
    | inr e ↦ rw (h, e) (progress-IsAfter run w d)
  ]

  begun_states : (run : AutomationRun) → (begun run).node_states ≡ run.node_states
  begun_states run = ground arith

  begun_open :
      (run : AutomationRun) → is_over run.status ≡ false → is_over (begun run).status ≡ false
  begun_open run h = ground arith

  after_states :
      (run run' : AutomationRun)
      → IsAfter (begun run) run'
      → Keeps (states_of run.node_states) run'.node_states
  after_states run run' (t, suspended, keeps, e) =
      let last = ap (λ r. r.node_states) e ∙ conclude_states nodes now (begun run) t suspended in
      rw last (subst (λ states. Keeps (states_of states) t.states) (begun_states run) keeps)

  -- In a graph whose nodes have distinct identifiers, an advance of a run that is not over, which
  -- does not throw, leaves every settled node (succeeded, failed or skipped) as it was: its status,
  -- its output and its error.
  pub advance_automation_run-KeepsSettled :
      (run : AutomationRun) (w : W)
      → Distinct graph.nodes
      → is_over run.status ≡ false
      → Ensures
          (λ run'. KeepsSettled run.node_states run'.node_states)
          (advance_automation_run dispatch poll save graph now run w)
  advance_automation_run-KeepsSettled run w d h =
      Ensures-map (IsAfter (begun run)) _ _ (advance-IsAfter run w d h)
        (λ run' after id s found settled.
          after_states run run' after id s
            (resume_waits_keeps nodes (fill nodes run.node_states) id s
              (fill_keeps nodes run.node_states id s found) (not_waiting s settled))
            (final s settled))

  -- In a graph whose nodes have distinct identifiers, an advance of a run that is not over, which
  -- does not throw, sets the status by the states: a run is succeeded only when all its top nodes
  -- are settled and none failed other than into an alternative branch, and failed only when one
  -- did.
  pub advance_automation_run-Verdict :
      (run : AutomationRun) (w : W)
      → Distinct graph.nodes
      → is_over run.status ≡ false
      → Ensures
          (λ run'. Verdict run'.status nodes run'.node_states)
          (advance_automation_run dispatch poll save graph now run w)
  advance_automation_run-Verdict run w d h =
      Ensures-map (IsAfter (begun run)) _ _ (advance-IsAfter run w d h)
        (λ run' (t, suspended, keeps, e).
          let last = conclude_states nodes now (begun run) t suspended in
          rw e (rw last (conclude-Verdict nodes now (begun run) t suspended (begun_open run h))))

  -- An advance ends every wait, whatever the time: in a graph whose nodes have distinct
  -- identifiers, a top-level `wait` node that waits has succeeded after any advance of its run,
  -- which is not over, that does not throw, also one that comes before `resumeAt`.
  pub advance_ends_waits :
      (run : AutomationRun) (w : W) (node : AutomationNode)
      → Distinct graph.nodes
      → is_over run.status ≡ false
      → Memᴰ node nodes
      → is_wait node.data_of ≡ true
      → (s : NodeState) → lookup node.id run.node_states ≡ some s
      → is_waiting (some s) ≡ true
      → Ensures
          (λ run'. lookup node.id run'.node_states ≡ some resumed_state)
          (advance_automation_run dispatch poll save graph now run w)
  advance_ends_waits run w node d h m wait s found waits =
      Ensures-map (IsAfter (begun run)) _ _ (advance-IsAfter run w d h) (λ run' after.
        after_states run run' after node.id resumed_state
          (resume_waits_resumes node nodes (fill nodes run.node_states) m wait
            (rw (fill_keeps nodes run.node_states node.id s found) waits))
          refl)
