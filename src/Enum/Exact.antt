-- ===== src/Enum/Exact.antt =====
-- What it means that an enumeration's names are read back exactly.
use mathlib.Core.Path.{subst}
use mathlib.Core.Option.{some-injective}
use spn.Base.{String, Option, some, ◌≡◌, ◌⊎◌}

-- Every name that is written reads as its value, and no other text reads as a value that is not
-- the reader's fallback.
pub record IsExact {A : Type 0} (to_str : A → Option String) (from_str : String → Option A)
    (IsFallback : A → Type 0) : Type 0 where
  pub back : (a : A) (t : String) → to_str a ≡ some t → from_str t ≡ some a
  pub only : (s : String) (a : A) → from_str s ≡ some a → IsFallback a ⊎ (to_str a ≡ some s)

-- To read a name it is enough to read the literal that it equals.
pub read_literal :
    {A : Type 0} (from_str : String → Option A) (u t : String) (a : A)
    → from_str u ≡ some a
    → some u ≡ some t
    → from_str t ≡ some a
read_literal from_str u t a read e = subst (λ s. from_str s ≡ some a) (some-injective u t e) read
