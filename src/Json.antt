-- ===== src/Json.antt =====
-- The values that the engines store and exchange (`unknown` in the source, JSON in the database).
-- `undefined` is no value of this type: where it can stand, the type is `Option Json`, with `none` for
-- it. Numbers are integers.
use provence.Prelude.{
  ℕ, zero, suc, String, Bool, true, false, not, Option, none, some, ◌&&◌, ◌==◌, str_eq,
  if◌then◌else◌,
}
use provence.Prelude.Int.{ℤ, pos, negsuc}

mutual
  pub data Json : Type 0 where
    null : Json
    bool : Bool → Json
    num : ℤ → Json
    str : String → Json
    arr : Items → Json
    obj : Fields → Json

  pub data Items : Type 0 where
    nil : Items
    cons : Json → Items → Items

  pub data Fields : Type 0 where
    end : Fields
    field : String → Json → Fields → Fields

-- A property of an object; `none` is `undefined`.
unfoldable pub get_field : String → Fields → Option Json
get_field k end = none
get_field k (field j v fs) = if str_eq j k then some v else get_field k fs

-- `value?.key`, for a key that no text, number or array has.
unfoldable pub get_property : String → Option Json → Option Json
unfolding get_field
get_property k (some (obj fs)) = get_field k fs
get_property k v = none

-- `value ?? null`.
abbrev pub or_null : Option Json → Json
or_null none = null
or_null (some v) = v

-- `array[index]`.
unfoldable pub get_item : ℕ → Items → Option Json
get_item i nil = none
get_item zero (cons v vs) = some v
get_item (suc i) (cons v vs) = get_item i vs

abbrev pub same_bool : Bool → Bool → Bool
same_bool true b = b
same_bool false b = not b

abbrev pub same_int : ℤ → ℤ → Bool
same_int (pos m) (pos n) = m == n
same_int (negsuc m) (negsuc n) = m == n
same_int _ _ = false

-- `JSON.stringify(a) === JSON.stringify(b)`: the same structure, with the keys in the same order.
unfoldable mutual
  pub same_json : Json → Json → Bool
  same_json null null = true
  same_json (bool a) (bool b) = same_bool a b
  same_json (num m) (num n) = same_int m n
  same_json (str s) (str t) = str_eq s t
  same_json (arr vs) (arr ws) = same_items vs ws
  same_json (obj fs) (obj gs) = same_fields fs gs
  same_json _ _ = false

  pub same_items : Items → Items → Bool
  same_items nil nil = true
  same_items (cons v vs) (cons w ws) = same_json v w && same_items vs ws
  same_items _ _ = false

  pub same_fields : Fields → Fields → Bool
  same_fields end end = true
  same_fields (field j v fs) (field k w gs) = str_eq j k && same_json v w && same_fields fs gs
  same_fields _ _ = false
