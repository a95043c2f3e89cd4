-- ===== src/Automation/RunState/Keeps.antt =====
-- The states that stay as they are while a graph runs (src/lib/automation/executor).
use provence.Prelude.{String, ◌≡◌, Bool, true, false, some, lookup}
use provence.Automation.RunState.{NodeStatus, NodeState, NodeStates}

-- A state that no tick may change: neither pending nor running.
abbrev pub is_final : NodeStatus → Bool
is_final NodeStatus.pending = false
is_final NodeStatus.running = false
is_final _ = true

abbrev pub Keeps : NodeStates → NodeStates → Type 0
Keeps states states' =
    (id : String) (s : NodeState)
    → lookup id states ≡ some s
    → is_final s.status ≡ true
    → lookup id states' ≡ some s

pub Keeps-trans : (a b c : NodeStates) → Keeps a b → Keeps b c → Keeps a c
Keeps-trans a b c f g id s found final = g id s (f id s found final) final
