-- ===== src/Semver/Order.antt =====
-- The comparisons of source/core/semver/compare.c against the lexicographic order.
use spn.Base.{◌<◌, ◌≡◌, ◌↔◌, ◌⊎◌, true, arith}
use spn.Semver.{Semver, SemverOp, op_lt, op_leq, op_gt, op_geq, op_eq}
use spn.Semver.Compare.{a_first, equal, b_first, semver_cmp, semver_satisfies}

-- `a` comes before `b` in the lexicographic order of the components.
abbrev pub Before : Semver → Semver → Type 0
Before a b =
    (a.major < b.major)
    ⊎ ((a.major ≡ b.major) × ((a.minor < b.minor) ⊎ ((a.minor ≡ b.minor) × (a.patch < b.patch))))

-- The comparison of two versions says which comes first in the lexicographic order, and says
-- "equal" exactly for equal versions.
pub semver_cmp_lem :
    (a b : Semver)
    → ((semver_cmp a b ≡ a_first) ↔ Before a b)
      × ((semver_cmp a b ≡ equal) ↔ (a ≡ b))
      × ((semver_cmp a b ≡ b_first) ↔ Before b a)
unfolding semver_cmp
semver_cmp_lem a b = (ground arith, ground arith, ground arith)

-- What an operator asks of a version, in terms of the order.
abbrev pub Meets : SemverOp → Semver → Semver → Type 0
Meets op_lt v b = Before v b
Meets op_leq v b = Before v b ⊎ (v ≡ b)
Meets op_gt v b = Before b v
Meets op_geq v b = Before b v ⊎ (v ≡ b)
Meets op_eq v b = v ≡ b

-- A version satisfies an operator and a bound exactly when it stands to the bound in the lexicographic
-- order as the operator says.
pub semver_satisfies_lem :
    (v b : Semver) (op : SemverOp) → (semver_satisfies v b op ≡ true) ↔ Meets op v b
unfolding semver_satisfies
semver_satisfies_lem v b op_lt = ground arith
semver_satisfies_lem v b op = ground arith
