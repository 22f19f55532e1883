-- ===== src/Semver/Convert.antt =====
-- source/core/semver/convert.c: the ranges that the surface forms stand for. u32 additions wrap.
use spn.Base.{ℕ, ◌+◌, not, ltb, if◌then◌else◌, u32}
use spn.Semver.{
  Semver, SemverOp, SemverBound, SemverRange, SemverMod, SemverParsed, op_lt, op_leq, op_gt, op_geq,
  op_eq, mod_caret, mod_tilde, mod_wildcard, mod_cmp,
}

abbrev pub semver_lit : ℕ → ℕ → ℕ → Semver
semver_lit major minor patch = record { major = major; minor = minor; patch = patch }

-- SP_LIMIT_U32_MAX and 0xFFFFFFFF.
abbrev pub u32_max : ℕ
u32_max = 4294967295

abbrev pub bound : SemverOp → Semver → SemverBound
bound op version = record { version = version; op = op }

abbrev pub range_of : SemverMod → SemverBound → SemverBound → SemverRange
range_of mod_kind low high = record { low = low; high = high; mod_kind = mod_kind }

unfoldable pub caret_to_range : SemverParsed → SemverRange
caret_to_range parsed =
    let v = parsed.version in
    if ltb 0 v.major
    then range_of mod_caret (bound op_geq v) (bound op_lt (semver_lit (u32 (v.major + 1)) 0 0))
    else if ltb 0 v.minor
    then range_of mod_caret (bound op_geq v)
        (bound op_lt (semver_lit v.major (u32 (v.minor + 1)) 0))
    else range_of mod_caret (bound op_geq v)
        (bound op_lt (semver_lit v.major v.minor (u32 (v.patch + 1))))

unfoldable pub tilde_to_range : SemverParsed → SemverRange
tilde_to_range parsed =
    let v = parsed.version in
    if parsed.components.has_patch
    then range_of mod_tilde (bound op_geq v)
        (bound op_lt (semver_lit v.major (u32 (v.minor + 1)) 0))
    else if parsed.components.has_minor
    then range_of mod_tilde (bound op_geq v)
        (bound op_lt (semver_lit v.major (u32 (v.minor + 1)) 0))
    else range_of mod_tilde (bound op_geq v) (bound op_lt (semver_lit (u32 (v.major + 1)) 0 0))

unfoldable pub wildcard_to_range : SemverParsed → SemverRange
wildcard_to_range parsed =
    let v = parsed.version in
    if not parsed.components.has_major
    then range_of mod_wildcard (bound op_geq (semver_lit 0 0 0))
        (bound op_lt (semver_lit u32_max u32_max u32_max))
    else if not parsed.components.has_minor
    then range_of mod_wildcard (bound op_geq (semver_lit v.major 0 0))
        (bound op_lt (semver_lit (u32 (v.major + 1)) 0 0))
    else range_of mod_wildcard (bound op_geq (semver_lit v.major v.minor 0))
        (bound op_lt (semver_lit v.major (u32 (v.minor + 1)) 0))

unfoldable pub comparison_to_range : SemverOp → Semver → SemverRange
comparison_to_range op_eq v = range_of mod_cmp (bound op_geq v) (bound op_leq v)
comparison_to_range op_geq v =
    range_of mod_cmp (bound op_geq v) (bound op_leq (semver_lit u32_max u32_max u32_max))
comparison_to_range op_gt v =
    range_of mod_cmp (bound op_gt v) (bound op_leq (semver_lit u32_max u32_max u32_max))
comparison_to_range op_leq v = range_of mod_cmp (bound op_geq (semver_lit 0 0 0)) (bound op_leq v)
comparison_to_range op_lt v = range_of mod_cmp (bound op_geq (semver_lit 0 0 0)) (bound op_lt v)
