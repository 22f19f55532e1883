-- ===== src/Base/StrMap.antt =====
-- A hash table keyed by text, as an association list in which an insertion overwrites.
use Prim.Native.String.{String}
use mathlib.Core.Path.{◌≡◌, refl}
use mathlib.Core.List.{List, [], ◌∷◌}
use mathlib.Core.Option.{Option, none, some}
use native.Mathlib.Omega.{arith}
use text.Mathlib.Text.{◌==◌ as str_eq}
use text.Mathlib.TextEquality.{eq_iff as str_eq_iff}
use spn.Base.Tests.{if◌then◌else◌}

module _ {ℓ} {V : Type ℓ} where
  unfoldable pub lookup : String → List (String × V) → Option V
  lookup key [] = none
  lookup key ((first, value) ∷ entries) =
      if str_eq first key then some value else lookup key entries

  unfoldable pub insert : String → V → List (String × V) → List (String × V)
  insert key value [] = (key, value) ∷ []
  insert key value (entry ∷ entries) =
      if str_eq entry.0 key then (key, value) ∷ entries else entry ∷ insert key value entries

  -- After an insertion the key has its value, and every other key has what it had.
  pub lookup-insert :
      (key other : String) (value : V) (entries : List (String × V))
      → lookup other (insert key value entries)
        ≡ (if str_eq key other then some value else lookup other entries)
  unfolding lookup insert
  lookup-insert key other value [] = refl
  lookup-insert key other value ((first, old) ∷ entries) = ground (
    arith,
    lookup-insert key other value entries,
    str_eq_iff first other,
    str_eq_iff first key,
    str_eq_iff key other,
  )
