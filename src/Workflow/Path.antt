-- ===== src/Workflow/Path.antt =====
-- `getPath` of src/lib/workflows/expressions/variable-context.ts: a value at a path such as
-- "context.items[0].id".
use Prim.Native.Char.{Char, code}
use provence.Prelude.{
  ℕ, ◌+◌, ◌-◌, ◌*◌, String, Bool, true, false, ◌&&◌, ◌||◌, Option, none, some, List, [], ◌∷◌, leb,
  ◌==◌, str_eq, if◌then◌else◌,
}
use provence.Json.{
  Json, Items, Fields, null, arr, obj, str, nil, cons, end, field, get_field, get_item,
}
use provence.Workflow.VariableContext.{Scope, VariableContext}

-- What JavaScript gives for a property that is no own property of an object of the model: of a text,
-- a number, a Boolean or an array (`length`, …), or inherited (`constructor`, …).
abbrev pub BuiltinProperty : Type 0
BuiltinProperty = String → Json → Option Json

-- The record as a value. An entry that is `undefined` reads as one that is missing.
abbrev pub scope_fields : Scope → Fields
scope_fields [] = end
scope_fields ((k, none) ∷ scope) = scope_fields scope
scope_fields ((k, some v) ∷ scope) = field k v (scope_fields scope)

abbrev pub text_items : List String → Items
text_items [] = nil
text_items (s ∷ texts) = cons (str s) (text_items texts)

abbrev pub nullable_scope : Option Scope → Json
nullable_scope none = null
nullable_scope (some scope) = obj (scope_fields scope)

-- The context as the object whose properties are the scopes.
unfoldable pub context_json : VariableContext → Json
context_json ctx = obj (
    field "workflow" (obj (scope_fields ctx.workflow)) (
      field "context" (obj (scope_fields ctx.context)) (
        field "user" (nullable_scope ctx.user) (
          field "organization" (obj (scope_fields ctx.organization)) (
            field "workspace" (obj (scope_fields ctx.workspace)) (
              field "agents" (obj (scope_fields ctx.agents)) (
                field "results" (obj (scope_fields ctx.results)) (
                  field "api" (obj (scope_fields ctx.api)) (
                    field "form" (obj (scope_fields ctx.form))
                      (field "permissions" (arr (text_items ctx.permissions)) end))))))))))

abbrev push_head : Char → List String → List String
push_head c [] = (String.◌∷◌ c "") ∷ []
push_head c (part ∷ parts) = (String.◌∷◌ c part) ∷ parts

-- `text.split(separator)`, for a separator of one character.
unfoldable pub split : ℕ → String → List String
split separator String.[] = "" ∷ []
split separator (String.◌∷◌ c s) =
    let parts = split separator s in if code c == separator then "" ∷ parts else push_head c parts

-- The rest of a part behind its last "[": digits, at least one, and the closing "]".
abbrev pub is_digit : ℕ → Bool
is_digit c = leb b'0' c && leb c b'9'

unfoldable pub digits_of : ℕ → Bool → String → Option ℕ
digits_of n seen String.[] = none
digits_of n seen (String.◌∷◌ c s) =
    let more = digits_of (10 * n + (code c - b'0')) true s in
    if is_digit (code c)
    then more
    else if seen && code c == b']' && str_eq s ""
    then some n
    else none

-- A character that `.` of a regular expression does not match.
abbrev is_line_end : ℕ → Bool
is_line_end c = c == 10 || c == 13 || c == 0x2028 || c == 0x2029

abbrev with_head : Char → Option (String × ℕ) → Option (String × ℕ) → Option (String × ℕ)
with_head c none here = here
with_head c (some (key, i)) here = if is_line_end (code c) then none else some (String.◌∷◌ c key, i)

abbrev index_here : Option ℕ → Option (String × ℕ)
index_here none = none
index_here (some i) = some ("", i)

-- `part.match(/^(.*)\[(\d+)\]$/)`: the key before the index, and the index.
unfoldable pub index_match : String → Option (String × ℕ)
unfolding digits_of
index_match String.[] = none
index_match (String.◌∷◌ c s) =
    let later = index_match s in
    with_head c later (if code c == b'[' then index_here (digits_of 0 false s) else none)

module _ (builtin : BuiltinProperty) where
  -- `current[part]`
  abbrev own_or : Option Json → Option Json → Option Json
  own_or (some v) other = some v
  own_or none other = other

  unfoldable pub property : String → Json → Option Json
  unfolding get_field
  property part (obj fs) = own_or (get_field part fs) (builtin part (obj fs))
  property part v = builtin part v

  abbrev item_of : ℕ → Option Json → Option Json
  item_of i (some (arr vs)) = get_item i vs
  item_of i v = none

  abbrev container : String → Json → Option Json
  container key current = if str_eq key "" then some current else property key current

  abbrev part_of : Option (String × ℕ) → String → Json → Option Json
  part_of none part current = property part current
  part_of (some (key, i)) part current = item_of i (container key current)

  -- One round of the loop, for a value that is there.
  unfoldable pub step : String → Json → Option Json
  unfolding property index_match get_item
  step part current = part_of (index_match part) part current

  -- `null` and `undefined` end the loop.
  unfoldable pub walk : List String → Option Json → Option Json
  unfolding step
  walk [] current = current
  walk (part ∷ parts) none = none
  walk (part ∷ parts) (some null) = none
  walk (part ∷ parts) (some v) = walk parts (step part v)

  unfoldable pub get_path : Option Json → String → Option Json
  unfolding walk split
  get_path root path = if str_eq path "" then root else walk (split b'.' path) root
