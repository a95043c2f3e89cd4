-- ===== src/Workflow/Rule.antt =====
-- The expressions and rules of src/lib/workflows/graph-types.ts.
use provence.Prelude.{String, Option, List}
use provence.Json.{Json}

pub data Expr : Type 0 where
  literal : Option Json → Expr
  var : String → Expr

mutual
  pub data Rule : Type 0 where
    always : Rule
    eq : Expr → Expr → Rule
    neq : Expr → Expr → Rule
    gt : Expr → Expr → Rule
    gte : Expr → Expr → Rule
    lt : Expr → Expr → Rule
    lte : Expr → Expr → Rule
    and : Rules → Rule
    or : Rules → Rule
    not : Rule → Rule
    regex : Expr → String → Option String → Rule
    exists : Expr → Rule
    in_list : Expr → List Expr → Rule
    date_before : Expr → Expr → Rule
    date_after : Expr → Expr → Rule
    permission : String → Rule
    custom : String → List Expr → Rule

  pub data Rules : Type 0 where
    nil : Rules
    cons : Rule → Rules → Rules
