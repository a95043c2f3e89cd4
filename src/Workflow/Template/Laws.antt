-- ===== src/Workflow/Template/Laws.antt =====
-- What `resolveActionInput` of src/lib/workflows/expressions/evaluator.ts makes of references and of
-- texts that hold none.
use Prim.Native.Char.{Char, code}
use Prim.Native.String.{◌++◌}
use text.Mathlib.TextLemmas.{nil-append, cons-append, append_assoc}
use provence.Prelude.{
  ℕ, zero, String, ◌≡◌, refl, sym, ap, ◌∙◌, ◌≢◌, true, false, ◌&&◌, none, some, arith, ◌==◌,
  Bool-cases, inl, inr,
}
use provence.Json.{Json, Items, Fields, null, bool, num, str, arr, obj, nil, cons, end, field}
use provence.Workflow.VariableContext.{VariableContext}
use provence.Workflow.Evaluator.{Host}
use provence.Workflow.Template.{
  is_space, is_path_char, trim_start, trim_end, is_empty, span_path, reference_at, exact_reference,
  value_at, interpolate_from, resolve_text, resolve_action_input, resolve_items, resolve_fields,
}

-- Every character can stand in a path.
abbrev pub IsPath : String → Type 0
IsPath String.[] = Unit
IsPath (String.◌∷◌ c s) = (is_path_char (code c) ≡ true) × IsPath s

-- No character is an opening brace.
abbrev pub HasNoBrace : String → Type 0
HasNoBrace String.[] = Unit
HasNoBrace (String.◌∷◌ c s) = ((code c == b'{') ≡ false) × HasNoBrace s

path_not_space : (c : ℕ) → is_path_char c ≡ true → is_space c ≡ false
path_not_space c h = ground arith

span_path-append :
    (path rest : String)
    → IsPath path
    → span_path rest ≡ ("", rest)
    → span_path (path ++ rest) ≡ (path, rest)
unfolding span_path
span_path-append String.[] rest h e = rw nil-append e
span_path-append (String.◌∷◌ c path) rest (h, hs) e =
    rw cons-append (rw (span_path-append path rest hs e) (rw h refl))

-- A text that ends with the closing braces is not empty and ends with no space.
closed_ne : (s : String) → is_empty (s ++ "}}") ≡ false
closed_ne String.[] = refl
closed_ne (String.◌∷◌ c s) = rw cons-append refl

trim_end-closed : (s : String) → trim_end (s ++ "}}") ≡ s ++ "}}"
unfolding trim_end
trim_end-closed String.[] = rw nil-append refl
trim_end-closed (String.◌∷◌ c s) =
    rw cons-append (rw (trim_end-closed s) (rw (closed_ne s) (ground arith)))

trim_start-path :
    (path rest : String)
    → IsPath path
    → trim_start rest ≡ rest
    → trim_start (path ++ rest) ≡ path ++ rest
unfolding trim_start
trim_start-path String.[] rest h e = rw nil-append e
trim_start-path (String.◌∷◌ c path) rest (h, hs) e =
    rw cons-append (rw (path_not_space (code c) h) refl)

not_empty : (s : String) → s ≢ "" → is_empty s ≡ false
not_empty String.[] h = absurd (h refl)
not_empty (String.◌∷◌ c s) h = refl

abbrev pub reference_to : String → String
reference_to path = "{{" ++ path ++ "}}"

reference_at-reference_to :
    (path : String)
    → IsPath path
    → is_empty path ≡ false
    → reference_at (reference_to path) ≡ some (path, "")
unfolding reference_at trim_start span_path
reference_at-reference_to path h ne = rw cons-append (
    rw cons-append (
      rw nil-append (
        rw (trim_start-path path "}}" h refl)
          (rw (span_path-append path "}}" h refl) (rw ne refl)))))

trim_start_brace : (path : String) → trim_start (reference_to path) ≡ reference_to path
unfolding trim_start
trim_start_brace path = rw cons-append refl

trimmed_reference : (path : String) → trim_end (trim_start (reference_to path)) ≡ reference_to path
trimmed_reference path =
    ap trim_end (trim_start_brace path ∙ sym (append_assoc "{{" path "}}"))
    ∙ trim_end-closed ("{{" ++ path)
    ∙ append_assoc "{{" path "}}"

exact_reference-reference_to :
    (path : String)
    → IsPath path
    → is_empty path ≡ false
    → exact_reference (reference_to path) ≡ some path
unfolding exact_reference trim_start
exact_reference-reference_to path h ne =
    rw (trimmed_reference path, reference_at-reference_to path h ne) refl

no_reference :
    (c : Char) (s : String) → (code c == b'{') ≡ false → reference_at (String.◌∷◌ c s) ≡ none
unfolding reference_at
no_reference c s h = rw h refl

-- The first character, if any, is no opening brace.
abbrev StartsPlain : String → Type 0
StartsPlain String.[] = Unit
StartsPlain (String.◌∷◌ c s) = (code c == b'{') ≡ false

trim_start-HasNoBrace : (s : String) → HasNoBrace s → HasNoBrace (trim_start s)
unfolding trim_start
trim_start-HasNoBrace String.[] h = tt
trim_start-HasNoBrace (String.◌∷◌ c s) (h, hs) = elim (Bool-cases (is_space (code c))) [
  | inl e ↦ rw e (trim_start-HasNoBrace s hs)
  | inr e ↦ rw e (h, hs)
]

trim_end-StartsPlain : (s : String) → HasNoBrace s → StartsPlain (trim_end s)
unfolding trim_end
trim_end-StartsPlain String.[] h = tt
trim_end-StartsPlain (String.◌∷◌ c s) (h, hs) =
    elim (Bool-cases (is_space (code c) && is_empty (trim_end s))) [
      | inl e ↦ rw e tt
      | inr e ↦ rw e h
    ]

starts_no_reference : (s : String) → StartsPlain s → reference_at s ≡ none
unfolding reference_at
starts_no_reference String.[] h = refl
starts_no_reference (String.◌∷◌ c s) h = rw h refl

-- A value without references: no text in it has an opening brace.
unfoldable mutual
  pub IsPlain : Json → Type 0
  IsPlain (str s) = HasNoBrace s
  IsPlain (arr items) = ArePlain items
  IsPlain (obj fields) = HasPlain fields
  IsPlain _ = Unit

  pub ArePlain : Items → Type 0
  ArePlain nil = Unit
  ArePlain (cons v vs) = IsPlain v × ArePlain vs

  pub HasPlain : Fields → Type 0
  HasPlain end = Unit
  HasPlain (field key v fields) = IsPlain v × HasPlain fields

module _ (host : Host) (ctx : VariableContext) where
  -- An input that is exactly one reference, "{{path}}" with a path that is not empty and has path
  -- characters only, resolves to the value at the path itself, whatever its type.
  pub resolve_action_input-reference_to :
      (path : String)
      → IsPath path
      → path ≢ ""
      → resolve_action_input host ctx (str (reference_to path)) ≡ value_at host ctx path
  unfolding resolve_action_input resolve_text
  resolve_action_input-reference_to path h ne =
      rw (exact_reference-reference_to path h (not_empty path ne), resolve_text) refl

  interpolate_plain : (s : String) → HasNoBrace s → interpolate_from host ctx zero s ≡ s
  unfolding interpolate_from
  interpolate_plain String.[] h = refl
  interpolate_plain (String.◌∷◌ c s) (h, hs) =
      rw (no_reference c s h, interpolate_from)
        (ap (λ rest. String.◌∷◌ c rest) (interpolate_plain s hs))

  resolve_text_plain : (s : String) → HasNoBrace s → resolve_text host ctx s ≡ some (str s)
  unfolding resolve_text exact_reference
  resolve_text_plain s h =
      let none_there =
        starts_no_reference (trim_end (trim_start s))
          (trim_end-StartsPlain (trim_start s) (trim_start-HasNoBrace s h)) in
      rw (none_there, resolve_text) (rw (interpolate_plain s h) refl)

  mutual
    unfolding resolve_action_input resolve_items resolve_fields IsPlain ArePlain HasPlain

    resolves_plain : (v : Json) → IsPlain v → resolve_action_input host ctx v ≡ some v
    resolves_plain null h = refl
    resolves_plain (bool b) h = refl
    resolves_plain (num n) h = refl
    resolves_plain (str s) h = resolve_text_plain s h
    resolves_plain (arr items) h = ap (λ vs. some (arr vs)) (resolves_items items h)
    resolves_plain (obj fields) h = ap (λ fs. some (obj fs)) (resolves_fields fields h)

    resolves_items : (vs : Items) → ArePlain vs → resolve_items host ctx vs ≡ vs
    resolves_items nil h = refl
    resolves_items (cons v vs) (h, hs) = rw (resolves_plain v h, resolves_items vs hs) refl

    resolves_fields : (fs : Fields) → HasPlain fs → resolve_fields host ctx fs ≡ fs
    resolves_fields end h = refl
    resolves_fields (field key v fs) (h, hs) = rw (resolves_plain v h, resolves_fields fs hs) refl

  -- An input with no opening brace in any of its texts, at any depth, resolves to itself.
  pub resolve_action_input_plain : (v : Json) → IsPlain v → resolve_action_input host ctx v ≡ some v
  resolve_action_input_plain v h = resolves_plain v h
