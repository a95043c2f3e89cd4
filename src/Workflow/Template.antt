-- ===== src/Workflow/Template.antt =====
-- `resolveActionInput` of src/lib/workflows/expressions/evaluator.ts: the references "{{ path }}" in
-- the configured input of an action. In the result, an element that is undefined is `null` and a
-- property that is undefined is absent, as the database stores them.
pub mod Laws
use Prim.Native.Char.{Char, code}
use Prim.Native.String.{◌++◌, count}
use provence.Prelude.{
  ℕ, zero, suc, ◌-◌, String, Bool, true, false, ◌&&◌, ◌||◌, Option, none, some, leb, ◌==◌,
  if◌then◌else◌,
}
use provence.Json.{
  Json, Items, Fields, null, bool, num, str, arr, obj, nil, cons, end, field, or_null,
}
use provence.Workflow.VariableContext.{VariableContext}
use provence.Workflow.Path.{context_json, get_path}
use provence.Workflow.Evaluator.{Host}

-- White space: what `\s` matches and `trim` removes.
abbrev pub is_space : ℕ → Bool
is_space c =
    (leb 9 c && leb c 13)
    || c == 32
    || c == 160
    || c == 0x1680
    || (leb 0x2000 c && leb c 0x200a)
    || c == 0x2028
    || c == 0x2029
    || c == 0x202f
    || c == 0x205f
    || c == 0x3000
    || c == 0xfeff

-- `[a-zA-Z0-9_.[\]]`
abbrev pub is_path_char : ℕ → Bool
is_path_char c =
    (leb b'a' c && leb c b'z')
    || (leb b'A' c && leb c b'Z')
    || (leb b'0' c && leb c b'9')
    || c == b'_'
    || c == b'.'
    || c == b'['
    || c == b']'

abbrev pub is_empty : String → Bool
is_empty String.[] = true
is_empty (String.◌∷◌ c s) = false

unfoldable pub trim_start : String → String
trim_start String.[] = ""
trim_start (String.◌∷◌ c s) =
    let rest = trim_start s in if is_space (code c) then rest else String.◌∷◌ c s

unfoldable pub trim_end : String → String
trim_end String.[] = ""
trim_end (String.◌∷◌ c s) =
    let rest = trim_end s in if is_space (code c) && is_empty rest then "" else String.◌∷◌ c rest

-- The longest run of path characters, and what follows it.
unfoldable pub span_path : String → String × String
span_path String.[] = ("", "")
span_path (String.◌∷◌ c s) =
    let (path, rest) = span_path s in
    if is_path_char (code c) then (String.◌∷◌ c path, rest) else ("", String.◌∷◌ c s)

-- What follows the character, which the text must begin with.
abbrev pub after : ℕ → String → Option String
after b String.[] = none
after b (String.◌∷◌ c s) = if code c == b then some s else none

infixl 5 ◌>>=◌
abbrev pub ◌>>=◌ {ℓ κ} : {A : Type ℓ} {B : Type κ} → Option A → (A → Option B) → Option B
none >>= f = none
some a >>= f = f a

-- `\{\{\s*([a-zA-Z0-9_.[\]]+)\s*\}\}` at the beginning of the text: the path, and what follows.
unfoldable pub reference_at : String → Option (String × String)
unfolding trim_start span_path
reference_at s = after b'{' s >>= λ s₁. after b'{' s₁ >>= λ s₂.
    let (path, rest) = span_path (trim_start s₂) in
    after b'}' (trim_start rest) >>= λ s₃.
    after b'}' s₃ >>= λ s₄. if is_empty path then none else some (path, s₄)

-- The whole trimmed text is one reference.
unfoldable pub exact_reference : String → Option String
unfolding trim_start trim_end reference_at
exact_reference s = reference_at (trim_end (trim_start s)) >>= λ found.
    if is_empty found.1 then some found.0 else none

-- A property that is absent where the value is undefined.
abbrev pub with_field : String → Option Json → Fields → Fields
with_field key none fields = fields
with_field key (some v) fields = field key v fields

module _ (host : Host) (ctx : VariableContext) where
  abbrev pub text_of : Option Json → String
  text_of none = ""
  text_of (some null) = ""
  text_of (some (str s)) = s
  text_of (some v) = host.text_of v

  unfoldable pub value_at : String → Option Json
  unfolding get_path context_json
  value_at path = get_path host.builtin (some (context_json ctx)) path

  -- `template.replace(…)`, with the number of characters that belong to the last reference.
  unfoldable pub interpolate_from : ℕ → String → String
  unfolding reference_at value_at
  interpolate_from skip String.[] = ""
  interpolate_from (suc skip) (String.◌∷◌ c s) = interpolate_from skip s
  interpolate_from zero (String.◌∷◌ c s) = elim (reference_at (String.◌∷◌ c s)) [
    | none ↦ String.◌∷◌ c (interpolate_from zero s)
    | some found ↦ text_of (value_at found.0) ++ interpolate_from (count s - count found.1) s
  ]

  unfoldable pub resolve_text : String → Option Json
  unfolding exact_reference interpolate_from value_at
  resolve_text s = elim (exact_reference s) [
    | none ↦ some (str (interpolate_from zero s))
    | some path ↦ value_at path
  ]

  unfoldable mutual
    unfolding resolve_text

    pub resolve_action_input : Json → Option Json
    resolve_action_input null = some null
    resolve_action_input (bool b) = some (bool b)
    resolve_action_input (num n) = some (num n)
    resolve_action_input (str s) = resolve_text s
    resolve_action_input (arr items) = some (arr (resolve_items items))
    resolve_action_input (obj fields) = some (obj (resolve_fields fields))

    pub resolve_items : Items → Items
    resolve_items nil = nil
    resolve_items (cons v vs) = cons (or_null (resolve_action_input v)) (resolve_items vs)

    pub resolve_fields : Fields → Fields
    resolve_fields end = end
    resolve_fields (field key v fields) =
        with_field key (resolve_action_input v) (resolve_fields fields)
