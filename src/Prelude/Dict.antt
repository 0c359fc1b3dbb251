-- ===== src/Prelude/Dict.antt =====
-- A JavaScript object used as a dictionary from texts, in insertion order.
use Prim.Native.String.{String}
use mathlib.Core.Path.{◌≡◌, refl}
use mathlib.Core.Option.{Option, none, some}
use mathlib.Core.List.{List, [], ◌∷◌}
use native.Mathlib.Omega.{arith}
use text.Mathlib.Text.{◌==◌}
use text.Mathlib.TextEquality.{eq_iff}
use text.Mathlib.TextPositions.{eq_refl}
use paystream_contracts.Prelude.Tests.{if◌then◌else◌}

module _ {ℓ} {V : Type ℓ} where
  -- `obj[key]`, where `none` is `undefined`
  unfoldable pub lookup : String → List (String × V) → Option V
  lookup key [] = none
  lookup key (entry ∷ rest) = if entry.0 == key then some entry.1 else lookup key rest

  -- `{ ...obj, [key]: new }`
  unfoldable pub insert : String → V → List (String × V) → List (String × V)
  insert key new [] = (key, new) ∷ []
  insert key new (entry ∷ rest) =
      let later = insert key new rest in
      if entry.0 == key then (entry.0, new) ∷ rest else entry ∷ later

  -- `delete obj[key]`
  unfoldable pub remove : String → List (String × V) → List (String × V)
  remove key [] = []
  remove key (entry ∷ rest) =
      let later = remove key rest in if entry.0 == key then later else entry ∷ later

  pub lookup-insert :
      (key other : String) (new : V) (obj : List (String × V))
      → lookup other (insert key new obj) ≡ (if key == other then some new else lookup other obj)
  unfolding lookup insert
  lookup-insert key other new [] = refl
  lookup-insert key other new (entry ∷ rest) = ground (
    arith,
    lookup-insert key other new rest,
    eq_iff entry.0 key,
    eq_iff entry.0 other,
    eq_iff key other,
  )

  pub lookup-remove :
      (key other : String) (obj : List (String × V))
      → lookup other (remove key obj) ≡ (if key == other then none else lookup other obj)
  unfolding lookup remove
  lookup-remove key other [] = ground arith
  lookup-remove key other (entry ∷ rest) = ground (
    arith,
    lookup-remove key other rest,
    eq_iff entry.0 key,
    eq_iff entry.0 other,
    eq_iff key other,
  )

  pub lookup-insert_self :
      (key : String) (new : V) (obj : List (String × V))
      → lookup key (insert key new obj) ≡ some new
  lookup-insert_self key new obj = simp (eq_refl, lookup-insert)
