-- ===== src/Shared/Dict.antt =====
-- A `Map` with string keys, as its entries in insertion order.
use Prim.Native.String.{String}
use mathlib.Core.Path.{◌≡◌, refl}
use mathlib.Core.Option.{Option, none, some}
use mathlib.Core.List.{List, [], ◌∷◌}
use native.Mathlib.Omega.{arith}
use text.Mathlib.Text.{◌==◌}
use text.Mathlib.TextEquality.{eq_iff}
use verifier_core.Shared.Tests.{if◌then◌else◌}

-- The entries of a map, the first one inserted first.
abbrev Entries {ℓ} : Type ℓ → Type ℓ
Entries V = List (String × V)

module _ {ℓ} {V : Type ℓ} where
  -- `map.delete(key)`
  pub delete : String → Entries V → Entries V
  delete key [] = []
  delete key ((name, value) ∷ entries) =
      let rest = delete key entries in if name == key then rest else (name, value) ∷ rest

  -- `map.set(key, value)`: a key that is there keeps its place.
  pub insert : String → V → Entries V → Entries V
  insert key value [] = (key, value) ∷ []
  insert key value ((name, old) ∷ entries) =
      let after = insert key value entries in
      if name == key then (name, value) ∷ entries else (name, old) ∷ after

  -- `map.get(key)`
  unfoldable pub lookup : String → Entries V → Option V
  lookup key [] = none
  lookup key ((name, value) ∷ entries) =
      let later = lookup key entries in if name == key then some value else later

  pub lookup-delete :
      (key other : String) (entries : Entries V)
      → lookup other (delete key entries) ≡ (if key == other then none else lookup other entries)
  unfolding delete lookup
  lookup-delete key other [] = ground arith
  lookup-delete key other ((name, value) ∷ entries) =
      ground (
        arith,
        lookup-delete key other entries,
        eq_iff key other,
        eq_iff name other,
        eq_iff name key,
      )

  pub lookup-insert :
      (key other : String) (value : V) (entries : Entries V)
      → lookup other (insert key value entries)
        ≡ (if key == other then some value else lookup other entries)
  unfolding insert lookup
  lookup-insert key other value [] = refl
  lookup-insert key other value ((name, old) ∷ entries) = ground (
    lookup-insert key other value entries,
    eq_iff name other,
    eq_iff name key,
    eq_iff key other,
    arith,
  )
