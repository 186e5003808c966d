-- ===== src/Base/Assoc.antt =====
-- Go's `map[string]V`. The program never ranges over one in a way that shows the order of its
-- entries, so a map is an association list, of which the first entry of a key counts.
use Prim.Native.String.{String}
use mathlib.Core.Path.{◌≡◌, refl}
use mathlib.Core.Option.{Option, none, some}
use mathlib.Core.List.{List, [], ◌∷◌}
use native.Mathlib.Omega.{arith}
use text.Mathlib.Text.{◌==◌}
use text.Mathlib.TextEquality.{eq_iff}
use text.Mathlib.TextPositions.{eq_refl}
use gardener_extension_shoot.Base.Tests.{if◌then◌else◌}

abbrev pub Map {ℓ} : Type ℓ → Type ℓ
Map V = List (String × V)

module _ {ℓ} {V : Type ℓ} where
  unfoldable pub lookup : String → Map V → Option V
  lookup key [] = none
  lookup key ((first, value) ∷ rest) = if first == key then some value else lookup key rest

  -- `m[key] = value`
  unfoldable pub insert : String → V → Map V → Map V
  insert key value [] = (key, value) ∷ []
  insert key value ((first, old) ∷ rest) =
      if first == key then (key, value) ∷ rest else (first, old) ∷ insert key value rest

  -- `maps.Copy(dst, src)`
  unfoldable pub copy : Map V → Map V → Map V
  copy dst [] = dst
  copy dst ((key, value) ∷ src) = insert key value (copy dst src)

  pub lookup-insert :
      (key other : String) (value : V) (m : Map V)
      → lookup other (insert key value m) ≡ (if key == other then some value else lookup other m)
  unfolding lookup insert
  lookup-insert key other value [] = refl
  lookup-insert key other value ((first, old) ∷ rest) = ground (
    arith,
    lookup-insert key other value rest,
    eq_iff first key,
    eq_iff first other,
    eq_iff key other,
  )

  pub lookup-insert_self :
      (key : String) (value : V) (m : Map V) → lookup key (insert key value m) ≡ some value
  lookup-insert_self key value m = rw lookup-insert (rw eq_refl)

  abbrev pub or_else : Option V → Option V → Option V
  or_else (some v) o = some v
  or_else none o = o

  -- A copied key has the value of the source, any other that of the destination.
  pub lookup-copy :
      (other : String) (dst src : Map V)
      → lookup other (copy dst src) ≡ or_else (lookup other src) (lookup other dst)
  unfolding lookup copy
  lookup-copy other dst [] = refl
  lookup-copy other dst ((key, value) ∷ src) =
      ground (arith, lookup-insert key other value (copy dst src), lookup-copy other dst src)
