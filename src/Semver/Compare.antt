-- ===== src/Semver/Compare.antt =====
-- source/core/semver/compare.c.
use spn.Base.{Bool, not, ◌&&◌, ltb, leb, ◌==◌, if◌then◌else◌}
use spn.Semver.{Semver, SemverOp, SemverRange, op_lt, op_leq, op_gt, op_geq, op_eq}

-- The three results of a comparison, SP_QSORT_A_FIRST, SP_QSORT_EQUAL and SP_QSORT_B_FIRST.
pub data SortOrder : Type 0 where
  a_first equal b_first : SortOrder

unfoldable pub semver_eq : Semver → Semver → Bool
semver_eq lhs rhs = lhs.major == rhs.major && (lhs.minor == rhs.minor && lhs.patch == rhs.patch)

unfoldable pub semver_geq : Semver → Semver → Bool
semver_geq lhs rhs =
    if not (lhs.major == rhs.major)
    then ltb rhs.major lhs.major
    else if not (lhs.minor == rhs.minor)
    then ltb rhs.minor lhs.minor
    else leb rhs.patch lhs.patch

unfoldable pub semver_ge : Semver → Semver → Bool
semver_ge lhs rhs =
    if not (lhs.major == rhs.major)
    then ltb rhs.major lhs.major
    else if not (lhs.minor == rhs.minor)
    then ltb rhs.minor lhs.minor
    else ltb rhs.patch lhs.patch

unfoldable pub semver_leq : Semver → Semver → Bool
semver_leq lhs rhs =
    if not (lhs.major == rhs.major)
    then ltb lhs.major rhs.major
    else if not (lhs.minor == rhs.minor)
    then ltb lhs.minor rhs.minor
    else leb lhs.patch rhs.patch

unfoldable pub semver_le : Semver → Semver → Bool
semver_le lhs rhs =
    if not (lhs.major == rhs.major)
    then ltb lhs.major rhs.major
    else if not (lhs.minor == rhs.minor)
    then ltb lhs.minor rhs.minor
    else ltb lhs.patch rhs.patch

unfoldable pub semver_cmp : Semver → Semver → SortOrder
unfolding semver_eq semver_leq
semver_cmp lhs rhs =
    if semver_eq lhs rhs then equal else if semver_leq lhs rhs then a_first else b_first

unfoldable pub semver_satisfies : Semver → Semver → SemverOp → Bool
unfolding semver_eq semver_le semver_leq semver_ge semver_geq
semver_satisfies version bound op_eq = semver_eq version bound
semver_satisfies version bound op_lt = semver_le version bound
semver_satisfies version bound op_leq = semver_leq version bound
semver_satisfies version bound op_gt = semver_ge version bound
semver_satisfies version bound op_geq = semver_geq version bound

unfoldable pub semver_in_range : Semver → SemverRange → Bool
unfolding semver_satisfies
semver_in_range version range =
    semver_satisfies version range.low.version range.low.op
    && semver_satisfies version range.high.version range.high.op

unfoldable pub semver_is_empty : Semver → Bool
semver_is_empty version = version.major == 0 && (version.minor == 0 && version.patch == 0)
