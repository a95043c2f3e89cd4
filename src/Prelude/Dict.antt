-- ===== src/Prelude/Dict.antt =====
-- A JavaScript `Map` with text keys: an association list. A write to a known key keeps its place.
use Prim.Native.String.{String}
use mathlib.Core.Path.{◌≡◌, refl}
use mathlib.Core.Logic.{◌≢◌}
use mathlib.Core.Option.{Option, none, some}
use mathlib.Core.List.{List, [], ◌∷◌}
use text.Mathlib.Text.{◌==◌}
use text.Mathlib.TextEquality.{eq_iff}
use text.Mathlib.TextPositions.{eq_refl}
use native.Mathlib.Omega.{arith}
use provence.Prelude.Tests.{if◌then◌else◌}

abbrev pub Map {ℓ} : Type ℓ → Type ℓ
Map V = List (String × V)

module _ {ℓ} {V : Type ℓ} where
  -- `map.get(key)`
  unfoldable pub lookup : String → Map V → Option V
  lookup key [] = none
  lookup key (entry ∷ rest) =
      let later = lookup key rest in if entry.0 == key then some entry.1 else later

  -- `map.set(key, value)`
  unfoldable pub insert : String → V → Map V → Map V
  insert key value [] = (key, value) ∷ []
  insert key value (entry ∷ rest) =
      let later = insert key value rest in
      if entry.0 == key then (key, value) ∷ rest else entry ∷ later

  -- `map.delete(key)`
  unfoldable pub erase : String → Map V → Map V
  erase key [] = []
  erase key (entry ∷ rest) =
      let later = erase key rest in if entry.0 == key then later else entry ∷ later

  pub lookup-erase :
      (erased key : String) (map : Map V)
      → lookup key (erase erased map) ≡ (if erased == key then none else lookup key map)
  unfolding lookup erase
  lookup-erase erased key [] = ground arith
  lookup-erase erased key ((other, value) ∷ rest) = ground (
    arith,
    lookup-erase erased key rest,
    eq_iff other erased,
    eq_iff other key,
    eq_iff erased key,
  )

  pub lookup-insert :
      (written key : String) (value : V) (map : Map V)
      → lookup key (insert written value map)
        ≡ (if written == key then some value else lookup key map)
  unfolding insert lookup
  lookup-insert written key value [] = refl
  lookup-insert written key value ((other, old) ∷ rest) = ground (
    arith,
    lookup-insert written key value rest,
    eq_iff other written,
    eq_iff other key,
    eq_iff written key,
  )

  pub lookup-insert_self :
      (key : String) (value : V) (map : Map V) → lookup key (insert key value map) ≡ some value
  lookup-insert_self key value map = ground (arith, lookup-insert key key value map, eq_refl key)

  pub lookup-insert_ne :
      (written key : String) (value : V) (map : Map V)
      → written ≢ key
      → lookup key (insert written value map) ≡ lookup key map
  lookup-insert_ne written key value map apart =
      ground (arith, lookup-insert written key value map, eq_iff written key)
