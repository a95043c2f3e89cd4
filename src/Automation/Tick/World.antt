-- ===== src/Automation/Tick/World.antt =====
-- Invariants of the world that callbacks act on (src/lib/automation/executor/tick-graph.ts): what
-- `dispatch` and `poll` keep, a call of `tickGraph` keeps.
use provence.Prelude.{
  ◌≡◌, subst, ℕ, zero, suc, All, Bool, true, false, List, [], ◌∷◌, lookup, Bool-cases, Option-cases,
  inl, inr,
}
use provence.Automation.Graph.{AutomationNode, AutomationEdge}
use provence.Automation.RunState.{compute_ready_nodes}
use provence.Automation.RunState.Ready.{Computed-All, computed}
use provence.Automation.Tick.{
  DispatchResult, PollResult, Run, done, thrown, ◌>>=◌, TickState, after_dispatch, is_running,
  poll_one, poll_nodes, dispatch_nodes, generation, tick_from, tick_graph,
  max_tick_generations_per_call,
}

-- The world that a step leaves, with or without an exception.
abbrev pub Leaves {ℓ} : {W A : Type 0} → (W → Type ℓ) → Run W A → Type ℓ
Leaves P (done a w) = P w
Leaves P (thrown message w) = P w

pub Leaves-bind {ℓ} :
    {W A B : Type 0} (P : W → Type ℓ) (m : Run W A) (f : A → W → Run W B)
    → Leaves P m
    → ((a : A) (w : W) → P w → Leaves P (f a w))
    → Leaves P (m >>= f)
Leaves-bind P (done a w) f h k = k a w h
Leaves-bind P (thrown message w) f h k = h

-- What a step returns, with the world that it leaves.
abbrev pub Gives {ℓ} : {W A : Type 0} → (A → W → Type ℓ) → Run W A → Type ℓ
Gives P (done a w) = P a w
Gives P (thrown message w) = Unit

pub Gives-at {ℓ} :
    {W A : Type 0} (P : A → W → Type ℓ) (m : Run W A) (a : A) (w : W)
    → Gives P m
    → m ≡ done a w
    → P a w
Gives-at P m a w g e = subst (λ n. Gives P n) e g

module _ {ℓ} {W : Type 0} (P : W → Type ℓ) (Q : AutomationNode → Type 0)
    (dispatch : AutomationNode → TickState → W → Run W DispatchResult)
    (poll : AutomationNode → TickState → W → Run W PollResult)
    (dispatch_keeps : (node : AutomationNode) (t : TickState) (w : W)
      → Q node
      → P w
      → Leaves P (dispatch node t w))
    (poll_keeps : (node : AutomationNode) (t : TickState) (w : W)
      → Q node
      → P w
      → Leaves P (poll node t w)) where
  poll_one-Leaves :
      (node : AutomationNode) (t : TickState) (w : W)
      → Q node
      → P w
      → Leaves P (poll_one dispatch poll node t w)
  unfolding poll_one
  poll_one-Leaves node t w q h = elim (Bool-cases (is_running (lookup node.id t.states))) [
    | inl on ↦
        rw (on, poll_one)
          (Leaves-bind P (poll node t w) _ (poll_keeps node t w q h) (λ polled w' k. k))
    | inr off ↦ rw (off, poll_one) h
  ]

  poll_nodes-Leaves :
      (nodes : List AutomationNode) (t : TickState) (w : W)
      → All Q nodes
      → P w
      → Leaves P (poll_nodes dispatch poll nodes t w)
  unfolding poll_nodes
  poll_nodes-Leaves [] t w qs h = h
  poll_nodes-Leaves (node ∷ nodes) t w (q, qs) h =
      Leaves-bind P (poll_one dispatch poll node t w) _ (poll_one-Leaves node t w q h)
        (λ first w' k.
          Leaves-bind P (poll_nodes dispatch poll nodes first.0 w') _
            (poll_nodes-Leaves nodes first.0 w' qs k) (λ rest w'' l. l))

  dispatch_nodes-Leaves :
      (nodes : List AutomationNode) (t : TickState) (w : W)
      → All Q nodes
      → P w
      → Leaves P (dispatch_nodes dispatch poll nodes t w)
  unfolding dispatch_nodes
  dispatch_nodes-Leaves [] t w qs h = h
  dispatch_nodes-Leaves (node ∷ nodes) t w (q, qs) h =
      Leaves-bind P (dispatch node t w) _ (dispatch_keeps node t w q h) (λ dispatched w' k.
        elim (Option-cases (after_dispatch node t dispatched).1) [
          | inl e ↦ rw e (dispatch_nodes-Leaves nodes (after_dispatch node t dispatched).0 w' qs k)
          | inr (s, e) ↦ rw e k
        ])

  module _ (nodes : List AutomationNode) (edges : List AutomationEdge) (all_q : All Q nodes) where
    generation-Leaves :
        (t : TickState) (w : W) → P w → Leaves P (generation dispatch poll nodes edges t w)
    unfolding generation
    generation-Leaves t w h =
        Leaves-bind P (poll_nodes dispatch poll nodes t w) _ (poll_nodes-Leaves nodes t w all_q h)
          (λ polled w' k. elim (Option-cases (compute_ready_nodes nodes edges polled.0.states)) [
            | inl e ↦ rw e k
            | inr (found, e) ↦ rw e (
                Leaves-bind P
                  (dispatch_nodes dispatch poll found.0 (record polled.0 { states = found.2 }) w') _
                  (dispatch_nodes-Leaves found.0 (record polled.0 { states = found.2 }) w'
                    (Computed-All edges Q nodes polled.0.states found
                      (computed edges nodes polled.0.states found e) all_q)
                    k)
                  (λ dispatched w'' l. l))
          ])

    tick_from-Leaves :
        (left : ℕ) (ever : Bool) (t : TickState) (w : W)
        → P w
        → Leaves P (tick_from dispatch poll nodes edges left ever t w)
    unfolding tick_from
    tick_from-Leaves zero ever t w h = h
    tick_from-Leaves (suc left) ever t w h =
        Leaves-bind P (generation dispatch poll nodes edges t w) _ (generation-Leaves t w h)
          (λ g w' k. elim (Option-cases g.suspended) [
            | inr (s, e) ↦ rw e k
            | inl e ↦ elim (Bool-cases g.progressed) [
              | inl moved ↦ rw (e, moved) (tick_from-Leaves left true g.after w' k)
              | inr still ↦ rw (e, still) k
            ]
          ])

    -- What the callbacks keep of the world at nodes with a property, a call of `tickGraph` on such nodes keeps, whether it throws or not.
    pub tick_graph-Leaves :
        (t : TickState) (w : W) → P w → Leaves P (tick_graph dispatch poll nodes edges t w)
    unfolding tick_graph
    tick_graph-Leaves t w h = tick_from-Leaves max_tick_generations_per_call false t w h
