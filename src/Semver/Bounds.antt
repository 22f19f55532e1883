-- ===== src/Semver/Bounds.antt =====
-- What the ranges of source/core/semver/convert.c contain.
use spn.Base.{◌≤◌, ◌<◌, ◌≡◌, ◌↔◌, ◌⊎◌, true, false, ◌||◌, arith}
use spn.Semver.{Semver, SemverOp, SemverParsed, op_lt}
use spn.Semver.Compare.{semver_in_range}
use spn.Semver.Order.{Before, Meets}
use spn.Semver.Convert.{
  u32_max, caret_to_range, tilde_to_range, wildcard_to_range, comparison_to_range,
}

-- Every component is a u32.
pub record IsU32 (v : Semver) : Type 0 where
  pub major_fits : v.major ≤ u32_max
  pub minor_fits : v.minor ≤ u32_max
  pub patch_fits : v.patch ≤ u32_max

-- The component that `+ 1` is applied to is not the largest u32.
pub record HasRoom (v : Semver) : Type 0 where
  pub major_room : v.major < u32_max
  pub minor_room : v.minor < u32_max
  pub patch_room : v.patch < u32_max

-- The versions agree up to the first component of the base that is not zero.
abbrev pub SameLeading : Semver → Semver → Type 0
SameLeading base v =
    ((0 < base.major) × (v.major ≡ base.major))
    ⊎ ((base.major ≡ 0) × (v.major ≡ 0) × (0 < base.minor) × (v.minor ≡ base.minor))
    ⊎ ((base.major ≡ 0) × (v.major ≡ 0) × (base.minor ≡ 0) × (v.minor ≡ 0) × (v.patch ≡ base.patch))

-- At or after the base.
abbrev pub NotBefore : Semver → Semver → Type 0
NotBefore base v = Before base v ⊎ (v ≡ base)

-- What a tilde keeps fixed: the major and, if the text gave one, the minor component.
abbrev pub TildeAgrees : SemverParsed → Semver → Type 0
TildeAgrees p v =
    (v.major ≡ p.version.major)
    × ((p.components.has_minor || p.components.has_patch) ≡ true → v.minor ≡ p.version.minor)

-- The components before the `*` agree; the bare `*` leaves out the largest version alone.
abbrev pub WildcardMatches : SemverParsed → Semver → Type 0
WildcardMatches p v =
    ((p.components.has_major ≡ true)
      × (v.major ≡ p.version.major)
      × (p.components.has_minor ≡ true → v.minor ≡ p.version.minor))
    ⊎ ((p.components.has_major ≡ false)
        × ((v.major < u32_max) ⊎ (v.minor < u32_max) ⊎ (v.patch < u32_max)))

-- If no component of the base is the largest u32, the caret range contains exactly the versions at or
-- after the base that agree with it up to its first component that is not zero.
pub caret_to_range_lem :
    (p : SemverParsed) (v : Semver)
    → HasRoom p.version
    → (semver_in_range v (caret_to_range p) ≡ true)
      ↔ (NotBefore p.version v × SameLeading p.version v)
unfolding semver_in_range caret_to_range
caret_to_range_lem p v room = ground arith

-- If the base's major component is the largest u32, the caret range is empty.
pub caret_to_range_wraps :
    (p : SemverParsed) (v : Semver)
    → p.version.major ≡ u32_max
    → semver_in_range v (caret_to_range p) ≡ false
unfolding semver_in_range caret_to_range
caret_to_range_wraps p v h = ground arith

-- If no component of the base is the largest u32, the tilde range contains exactly the versions at or
-- after the base that have its major component and, if its text gave one, its minor component.
pub tilde_to_range_lem :
    (p : SemverParsed) (v : Semver)
    → HasRoom p.version
    → (semver_in_range v (tilde_to_range p) ≡ true) ↔ (NotBefore p.version v × TildeAgrees p v)
unfolding semver_in_range tilde_to_range
tilde_to_range_lem p v room = ground arith

-- If no component of the base is the largest u32, the wildcard range contains, of the versions with
-- u32 components, exactly those that have the components before the `*`; a bare `*` contains all of
-- them but the largest.
pub wildcard_to_range_lem :
    (p : SemverParsed) (v : Semver)
    → HasRoom p.version
    → IsU32 v
    → (semver_in_range v (wildcard_to_range p) ≡ true) ↔ WildcardMatches p v
unfolding semver_in_range wildcard_to_range
wildcard_to_range_lem p v room fits = ground arith

-- The range of a comparison contains, of the versions with u32 components, exactly those that meet
-- the comparison.
pub comparison_to_range_lem :
    (op : SemverOp) (b v : Semver)
    → IsU32 v
    → (semver_in_range v (comparison_to_range op b) ≡ true) ↔ Meets op v b
unfolding semver_in_range comparison_to_range
comparison_to_range_lem op_lt b v fits = ground arith
comparison_to_range_lem op b v fits = ground arith
