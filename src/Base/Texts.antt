-- ===== src/Base/Texts.antt =====
-- Texts as lists of bytes: equality, prefixes, and the search for a byte.
use Prim.Native.Nat.{ℕ}
use mathlib.Core.Path.{◌≡◌}
use mathlib.Core.Logic.{◌↔◌}
use mathlib.Core.Bool.{Bool, true, false, ◌&&◌}
use mathlib.Core.List.{List, [], ◌∷◌, ◌++◌}
use mathlib.Core.Option.{Option, none, some}
use native.Mathlib.Omega.{arith}
use spn.Base.Tests.{◌==◌, if◌then◌else◌}

abbrev pub Bytes : Type 0
Bytes = List ℕ

abbrev pub is_empty {ℓ} : {A : Type ℓ} → List A → Bool
is_empty [] = true
is_empty (x ∷ xs) = false

-- `sp_str_equal`: the same bytes.
unfoldable pub text_eq : Bytes → Bytes → Bool
text_eq [] [] = true
text_eq (a ∷ s) (b ∷ t) = a == b && text_eq s t
text_eq _ _ = false

pub text_eq_iff : (s t : Bytes) → (text_eq s t ≡ true) ↔ (s ≡ t)
unfolding text_eq
text_eq_iff [] [] = ground arith
text_eq_iff [] (b ∷ t) = ground arith
text_eq_iff (a ∷ s) [] = ground arith
text_eq_iff (a ∷ s) (b ∷ t) = ground (arith, text_eq_iff s t)

-- What is left of a text after a prefix, if it has that prefix.
unfoldable pub strip_prefix : Bytes → Bytes → Option Bytes
strip_prefix [] s = some s
strip_prefix (a ∷ p) [] = none
strip_prefix (a ∷ p) (b ∷ s) = if a == b then strip_prefix p s else none

pub strip_prefix_iff : (p s rest : Bytes) → (strip_prefix p s ≡ some rest) ↔ (s ≡ p ++ rest)
unfolding strip_prefix
strip_prefix_iff [] s rest = ground arith
strip_prefix_iff (a ∷ p) [] rest = ground arith
strip_prefix_iff (a ∷ p) (b ∷ s) rest = ground (arith, strip_prefix_iff p s rest)

-- `sp_str_find_c8`, as a test.
unfoldable pub has_byte : ℕ → Bytes → Bool
has_byte c [] = false
has_byte c (b ∷ s) = if b == c then true else has_byte c s
