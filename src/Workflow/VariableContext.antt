-- ===== src/Workflow/VariableContext.antt =====
-- src/lib/workflows/expressions/variable-context.ts: the scopes that expressions read.
use provence.Prelude.{String, Option, none, some, List, [], ◌∷◌, Map}
use provence.Json.{Json, str}

-- A `Record<string, unknown>`.
abbrev pub Scope : Type 0
Scope = Map (Option Json)

pub record VariableContext : Type 0 where
  pub workflow : Scope
  pub context : Scope
  pub user : Option Scope
  pub organization : Scope
  pub workspace : Scope
  pub agents : Scope
  pub results : Scope
  pub api : Scope
  pub form : Scope
  pub permissions : List String

unfoldable pub create_empty_variable_context :
    String → String → Option (List String) → VariableContext
create_empty_variable_context organization_id workspace_id permissions = record {
  workflow = [];
  context = [];
  user = none;
  organization = ("id", some (str organization_id)) ∷ [];
  workspace = ("id", some (str workspace_id)) ∷ [];
  agents = [];
  results = [];
  api = [];
  form = [];
  permissions = elim permissions [ none ↦ [] | some given ↦ given ];
}
