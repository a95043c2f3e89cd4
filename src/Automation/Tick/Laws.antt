-- ===== src/Automation/Tick/Laws.antt =====
-- What a call of `tickGraph` (src/lib/automation/executor/tick-graph.ts) guarantees.
use provence.Prelude.{
  ℕ, zero, suc, ◌<◌, ◌≡◌, refl, sym, ◌∙◌, ap, subst, inl, inr, Bool, true, false, ◌||◌, Option,
  none, some, List, [], ◌∷◌, lookup, All, arith, Bool-cases, Option-cases,
}
use provence.Automation.Graph.{AutomationNode, AutomationEdge}
use provence.Automation.RunState.{NodeStatus, NodeState, compute_ready_nodes}
use provence.Automation.RunState.Ready.{
  Distinct, Found, Computed, computed, Computed-OnlySkips, Computed-IsPending, Computed-quiet,
  IsSettledOrWaits,
}
use provence.Automation.RunState.Waits.{IsSettledOrBlocked, All-Blocked}
use provence.Automation.RunState.Keeps.{Keeps, Keeps-trans}
use provence.Automation.Tick.{
  DispatchResult, PollResult, Run, done, ◌>>=◌, Suspended, TickResult, TickState, is_cons,
  Generation, continue_with, poll_nodes, dispatch_nodes, generation, tick_from, tick_graph,
  max_tick_generations_per_call,
}
use provence.Automation.Tick.Phases.{
  OnlySkips-Keeps, Ensures, Ensures-bind, Ensures-then, Ensures-both, Ensures-map, PollPost,
  DispatchPost, poll_nodes-PollPost, dispatch_nodes-DispatchPost,
}

or₃-eq-false : (a b c : Bool) → (a || b || c) ≡ false → (a ≡ false) × (b ≡ false) × (c ≡ false)
or₃-eq-false a b c h = ground arith

eq-nil : (nodes : List AutomationNode) → is_cons nodes ≡ false → nodes ≡ []
eq-nil [] h = refl
eq-nil (node ∷ nodes) h = absurd (cc)

module _ {W : Type 0} (dispatch : AutomationNode → TickState → W → Run W DispatchResult)
    (poll : AutomationNode → TickState → W → Run W PollResult) (nodes : List AutomationNode)
    (edges : List AutomationEdge) where
  -- One generation: final states stay; a suspended node waits; without progress nothing has changed
  -- and `isNodeReady` makes every pending node wait.
  pub record GenerationPost (t : TickState) (g : Generation) : Type 0 where
    pub keeps : Keeps t.states g.after.states
    pub waits :
        (s : Suspended)
        → g.suspended ≡ some s
        → (n : NodeState) × (lookup s.node_id g.after.states ≡ some n)
          × (n.status ≡ NodeStatus.waiting)
    pub quiet :
        g.suspended ≡ none
        → g.progressed ≡ false
        → (g.after ≡ t) × All (IsSettledOrWaits edges t.states) nodes

  quiet_generation :
      {t t' : TickState} (polled : TickState × Bool) (found : Found)
      → Computed edges nodes polled.0.states found
      → polled.0 ≡ t
      → found.1 ≡ false
      → is_cons found.0 ≡ false
      → t' ≡ record polled.0 { states = found.2 }
      → (t' ≡ t) × All (IsSettledOrWaits edges t.states) nodes
  quiet_generation {t} {t'} polled found c same none_skipped none_ready e =
      let (unchanged, waits) =
        Computed-quiet edges nodes polled.0.states found c (eq-nil found.0 none_ready)
          none_skipped in
      (
        e ∙ (ap (λ s. record polled.0 { states = s }) unchanged ∙ same),
        subst (λ (u : TickState). All (IsSettledOrWaits edges u.states) nodes) same waits,
      )

  generation-GenerationPost :
      (t : TickState) (w : W)
      → Distinct nodes
      → Ensures (GenerationPost t) (generation dispatch poll nodes edges t w)
  unfolding generation
  generation-GenerationPost t w d =
      Ensures-bind (PollPost t) (GenerationPost t) (poll_nodes dispatch poll nodes t w) _
        (poll_nodes-PollPost dispatch poll nodes t w)
        (λ polled w' p. elim (Option-cases (compute_ready_nodes nodes edges polled.0.states)) [
          | inl e ↦ rw e tt
          | inr (found, e) ↦
              rw e (then_dispatch polled w' p found (computed edges nodes polled.0.states found e))
        ])
    where
      then_dispatch :
          (polled : TickState × Bool) (w' : W)
          → PollPost t polled
          → (found : Found) → Computed edges nodes polled.0.states found
          → Ensures (GenerationPost t) (
              dispatch_nodes dispatch poll found.0 (record polled.0 { states = found.2 }) w'
              >>= λ dispatched w''.
                  done
                    (record {
                      after = dispatched.0;
                      suspended = dispatched.1;
                      progressed = polled.1 || found.1 || is_cons found.0;
                    })
                    w'')
      then_dispatch polled w' (keeps, same) found c =
          let t' = record polled.0 { states = found.2 } in
          let (pend, dist) = Computed-IsPending edges nodes polled.0.states found c d in
          Ensures-bind (DispatchPost found.0 t') (GenerationPost t)
            (dispatch_nodes dispatch poll found.0 t' w') _
            (dispatch_nodes-DispatchPost dispatch poll found.0 t' w' pend dist)
            (λ dispatched w'' (keeps', still, waits). record {
              keeps = Keeps-trans t.states polled.0.states dispatched.0.states keeps (
                  Keeps-trans polled.0.states found.2 dispatched.0.states
                    (OnlySkips-Keeps polled.0.states found.2
                      (Computed-OnlySkips edges nodes polled.0.states found c))
                    keeps');
              waits = waits;
              quiet = λ alone no_progress.
                  let (a, b, none_ready) =
                    or₃-eq-false polled.1 found.1 (is_cons found.0) no_progress in
                  quiet_generation polled found c (same a) b none_ready (still none_ready);
            })

  -- The rest of the loop, with `left` generations.
  pub record TickPost (left : ℕ) (t : TickState) (r : TickState × TickResult) : Type 0 where
    pub keeps : Keeps t.states r.0.states
    pub waits :
        (s : Suspended)
        → r.1.suspended ≡ some s
        → (n : NodeState) × (lookup s.node_id r.0.states ≡ some n) × (n.status ≡ NodeStatus.waiting)
    pub quiet :
        r.1.suspended ≡ none
        → r.1.progressed ≡ false
        → 0 < left
        → (r.0 ≡ t) × All (IsSettledOrWaits edges t.states) nodes

  after_suspension :
      {left : ℕ} {t : TickState} (g : Generation) (s : Suspended)
      → GenerationPost t g
      → g.suspended ≡ some s
      → TickPost left t (g.after, record { suspended = some s; progressed = true })
  after_suspension g s p e = record {
    keeps = p.keeps;
    waits = λ s' e'. p.waits s' (e ∙ e');
    quiet = λ none_left. absurd (let h : some s ≡ none = none_left in cc);
  }

  after_quiet :
      {left : ℕ} {t : TickState} (ever : Bool) (g : Generation)
      → GenerationPost t g
      → g.suspended ≡ none
      → g.progressed ≡ false
      → TickPost left t (g.after, record { suspended = none; progressed = ever })
  after_quiet ever g p alone still = record {
    keeps = p.keeps;
    waits = λ s e. absurd (let h : none ≡ some s = e in cc);
    quiet = λ _ _ _. p.quiet alone still;
  }

  -- Once there was progress, the result says so.
  tick_from-progressed :
      (left : ℕ) (t : TickState) (w : W)
      → Ensures (λ r. r.1.progressed ≡ true) (tick_from dispatch poll nodes edges left true t w)
  unfolding tick_from
  tick_from-progressed zero t w = refl
  tick_from-progressed (suc left) t w =
      Ensures-then (λ r. r.1.progressed ≡ true) (generation dispatch poll nodes edges t w) _
        (λ g w'. go g.suspended g.progressed g.after w' (tick_from-progressed left g.after w'))
    where
      go :
          (o : Option Suspended) (b : Bool) (t' : TickState) (w' : W)
          → Ensures
              (λ r. r.1.progressed ≡ true)
              (tick_from dispatch poll nodes edges left true t' w')
          → Ensures
              (λ r. r.1.progressed ≡ true)
              (continue_with dispatch poll nodes edges
                (λ t'' w''. tick_from dispatch poll nodes edges left true t'' w'')
                true
                (record { after = t'; suspended = o; progressed = b })
                w')
      go (some s) b t' w' ih = refl
      go none true t' w' ih = ih
      go none false t' w' ih = refl

  tick_from-TickPost :
      (left : ℕ) (ever : Bool) (t : TickState) (w : W)
      → Distinct nodes
      → Ensures (TickPost left t) (tick_from dispatch poll nodes edges left ever t w)
  unfolding tick_from
  tick_from-TickPost zero ever t w d = record {
    keeps = λ id s found final. found;
    waits = λ s e. absurd (let h : none ≡ some s = e in cc);
    quiet = λ _ _ lt. absurd (omega arith);
  }
  tick_from-TickPost (suc left) ever t w d =
      Ensures-bind (GenerationPost t) (TickPost (suc left) t)
        (generation dispatch poll nodes edges t w) _ (generation-GenerationPost t w d)
        (λ g w' p. next g w' p (
          Ensures-both _ _ _ (tick_from-progressed left g.after w')
            (tick_from-TickPost left true g.after w' d)))
    where
      onwards :
          (g : Generation) (w' : W)
          → GenerationPost t g
          → Ensures
              (λ r. (r.1.progressed ≡ true) × TickPost left g.after r)
              (tick_from dispatch poll nodes edges left true g.after w')
          → Ensures
              (TickPost (suc left) t)
              (tick_from dispatch poll nodes edges left true g.after w')
      onwards g w' p ih = Ensures-map _ (TickPost (suc left) t) _ ih (λ r (moved, q). record {
        keeps = Keeps-trans t.states g.after.states r.0.states p.keeps q.keeps;
        waits = q.waits;
        quiet = λ _ still. absurd (let h : true ≡ false = sym moved ∙ still in cc);
      })

      next :
          (g : Generation) (w' : W)
          → GenerationPost t g
          → Ensures
              (λ r. (r.1.progressed ≡ true) × TickPost left g.after r)
              (tick_from dispatch poll nodes edges left true g.after w')
          → Ensures (TickPost (suc left) t) (
              continue_with dispatch poll nodes edges
                (λ t' w''. tick_from dispatch poll nodes edges left true t' w'')
                ever
                g
                w')
      next g w' p ih = elim (Option-cases g.suspended) [
        | inr (s, e) ↦ rw e (after_suspension g s p e)
        | inl e ↦ elim (Bool-cases g.progressed) [
          | inl moved ↦ rw (e, moved) (onwards g w' p ih)
          | inr still ↦ rw (e, still) (after_quiet ever g p e still)
        ]
      ]

  -- In a graph whose nodes have distinct identifiers, a call of `tickGraph` that does not throw
  -- leaves every node that was settled or waiting as it was: its status, its output and its error.
  pub tick_graph-Keeps :
      (t : TickState) (w : W)
      → Distinct nodes
      → Ensures (λ r. Keeps t.states r.0.states) (tick_graph dispatch poll nodes edges t w)
  unfolding tick_graph
  tick_graph-Keeps t w d =
      Ensures-map (TickPost max_tick_generations_per_call t) _ _
        (tick_from-TickPost max_tick_generations_per_call false t w d) (λ r p. p.keeps)

  -- In a graph whose nodes have distinct identifiers, a call of `tickGraph` that does not throw and
  -- reports a suspension has left the node that it names waiting.
  pub tick_graph_suspended :
      (t : TickState) (w : W)
      → Distinct nodes
      → Ensures
          (λ r.
            (s : Suspended)
            → r.1.suspended ≡ some s
            → (n : NodeState) × (lookup s.node_id r.0.states ≡ some n)
              × (n.status ≡ NodeStatus.waiting))
          (tick_graph dispatch poll nodes edges t w)
  unfolding tick_graph
  tick_graph_suspended t w d =
      Ensures-map (TickPost max_tick_generations_per_call t) _ _
        (tick_from-TickPost max_tick_generations_per_call false t w d) (λ r p. p.waits)

  -- In a graph whose nodes have distinct identifiers, a call of `tickGraph` that does not throw and
  -- reports neither a suspension nor progress has changed no state and no result, and every pending
  -- node was blocked: one of its sources is not terminal, or it is a join in mode "any" (the default)
  -- none of whose incoming edges is a satisfied one from a terminal source.
  pub tick_graph_quiet :
      (t : TickState) (w : W)
      → Distinct nodes
      → Ensures
          (λ r.
            r.1.suspended ≡ none
            → r.1.progressed ≡ false
            → (r.0 ≡ t) × All (IsSettledOrBlocked edges t.states) nodes)
          (tick_graph dispatch poll nodes edges t w)
  unfolding tick_graph
  tick_graph_quiet t w d =
      Ensures-map (TickPost max_tick_generations_per_call t) _ _
        (tick_from-TickPost max_tick_generations_per_call false t w d)
        (λ r p alone still.
          let (same, waits) = p.quiet alone still (omega arith) in
          (same, All-Blocked edges t.states nodes waits))
