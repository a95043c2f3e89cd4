-- ===== src/Automation/Graph.antt =====
-- The graph of an automation: src/lib/automation/graph-types.ts. `position` and `label`, which only
-- the editor reads, are left out. A node's type and its data are one value.
use provence.Prelude.{ℕ, String, Option, List, Bool}
use provence.Prelude.Int.{ℤ}
use provence.Json.{Fields}
use provence.Workflow.Rule.{Expr, Rule}

pub data ErrorPolicy : Type 0 where
  stop retry ignore alternative_branch notify escalate_director : ErrorPolicy

-- `policy.kind`, the text that a run's state stores.
unfoldable pub kind_of : ErrorPolicy → String
kind_of stop = "stop"
kind_of retry = "retry"
kind_of ignore = "ignore"
kind_of alternative_branch = "alternative_branch"
kind_of notify = "notify"
kind_of escalate_director = "escalate_director"

pub data BackoffStrategy : Type 0 where
  exponential linear immediate manual conditional infinite limited : BackoffStrategy

pub record RetryPolicy : Type 0 where
  pub strategy : BackoffStrategy
  pub max_attempts : Option ℕ
  pub base_delay_ms : Option ℕ
  pub max_delay_ms : Option ℕ
  pub jitter : Option Bool
  pub condition_rule : Option Rule
  pub max_duration_ms : Option ℕ

pub record ActionNodeData : Type 0 where
  pub job_type : String
  pub input : Option Fields
  pub timeout_ms : Option ℕ
  pub priority : Option ℤ
  pub retry_policy : Option RetryPolicy
  pub lock_key : Option String
  pub concurrency_key : Option String
  pub concurrency_limit : Option ℕ
  pub rate_limit_key : Option String
  pub on_error : Option ErrorPolicy
  pub compensate_job_type : Option String

pub record LoopNodeData : Type 0 where
  pub collection_expr : Expr
  pub item_var : String
  pub body_node_ids : List String
  pub max_iterations : Option ℕ

pub record MapNodeData : Type 0 where
  pub collection_expr : Expr
  pub item_var : String
  pub body_node_ids : List String
  pub concurrency_limit : Option ℕ
  pub max_items : Option ℕ

pub data JoinMode : Type 0 where
  all any : JoinMode

pub record SwitchCase : Type 0 where
  pub rule : Rule
  pub branch : String

pub data NodeData : Type 0 where
  trigger : String → Option Fields → NodeData
  condition : Rule → NodeData
  switch : List SwitchCase → NodeData
  action : ActionNodeData → NodeData
  loop : LoopNodeData → NodeData
  map : MapNodeData → NodeData
  wait : Option ℕ → Option Expr → NodeData
  join : Option JoinMode → NodeData
  subautomation : String → Option Fields → NodeData
  end : NodeData

pub record AutomationNode : Type 0 where
  pub id : String
  pub data_of : NodeData

pub record AutomationEdge : Type 0 where
  pub id : String
  pub source : String
  pub target : String
  pub branch : Option String

pub record AutomationGraph : Type 0 where
  pub nodes : List AutomationNode
  pub edges : List AutomationEdge
