-- ===== src/Semver/Reread.antt =====
-- Every range that `spn_semver_parse_range` accepts, printed and read back.
use spn.Base.{ℕ, ◌≡◌, ◌≢◌, ◌↔◌, sym, ◌∙◌, refl, false, ◌++◌, some, arith, Bool-cases, inl, inr}
use spn.Semver.{Semver, SemverOp, SemverRange, op_lt, op_leq, op_gt, op_geq, op_eq}
use spn.Semver.Bounds.{IsU32}
use spn.Semver.Convert.{comparison_to_range}
use spn.Semver.Parser.{peek, eat_whitespace, Text, spn_ok, parse_range}
use spn.Semver.Print.{
  IsDecimal, op_to_str, semver_to_str, semver_version_eq, range_to_str, zero_version, max_version,
}
use mathlib.Core.Path.{subst, ap}
use spn.Semver.RoundTrip.{
  caret-ReadsBack, tilde-ReadsBack, wildcard-ReadsBack, star-ReadsBack, ReadsBack,
  eat_whitespace-to_str, parse_version-to_str,
}
use spn.Semver.Written.{Written, caret, tilde, wildcard, star, comparison, parse_form-Written}

-- Not one of the two ranges that printing loses.
abbrev pub Keeps : SemverRange → Type 0
Keeps r = (r ≢ comparison_to_range op_lt zero_version) × (r ≢ comparison_to_range op_gt max_version)

module _ {fmt_u32 : ℕ → Text} (spec : IsDecimal fmt_u32) where
  parse_range-op_to_str :
      (op : SemverOp) (v : Semver)
      → IsU32 v
      → parse_range (op_to_str op ++ semver_to_str fmt_u32 v)
        ≡ (spn_ok, some (comparison_to_range op v))
  unfolding parse_range op_to_str
  parse_range-op_to_str op_eq v fits =
      ground (arith, eat_whitespace-to_str spec v fits, parse_version-to_str spec v false fits)
  parse_range-op_to_str op v fits =
      ground (arith, eat_whitespace-to_str spec v fits, parse_version-to_str spec v false fits)

  -- The two comparisons that printing does not keep: `<0.0.0` and `>` the largest version.
  abbrev pub IsKept : SemverOp → Semver → Type 0
  IsKept op_lt v = v ≢ zero_version
  IsKept op_gt v = v ≢ max_version
  IsKept _ v = Unit

  -- The comparison whose text is printed.
  abbrev Shown : SemverRange → Type 0
  Shown r =
      (op : SemverOp) × (v : Semver) × IsU32 v
      × (range_to_str fmt_u32 r ≡ op_to_str op ++ semver_to_str fmt_u32 v)
      × (comparison_to_range op v ≡ r)

  comparison-Shown :
      (op : SemverOp) (v : Semver) → IsU32 v → IsKept op v → Shown (comparison_to_range op v)
  unfolding range_to_str comparison_to_range
  comparison-Shown op_eq v fits kept = (op_eq, v, fits, ground arith, refl)
  comparison-Shown op_geq v fits kept = elim (Bool-cases (semver_version_eq v max_version)) [
    | inl e ↦ (op_eq, v, fits, ground arith, ground arith)
    | inr e ↦ elim (Bool-cases (semver_version_eq v zero_version)) [
      | inl e' ↦ (op_leq, max_version, omega arith, ground arith, ground arith)
      | inr e' ↦ (op_geq, v, fits, ground arith, refl)
    ]
  ]
  comparison-Shown op_gt v fits kept = (op_gt, v, fits, ground arith, refl)
  comparison-Shown op_leq v fits kept = elim (Bool-cases (semver_version_eq v zero_version)) [
    | inl e ↦ (op_eq, zero_version, omega arith, ground arith, ground arith)
    | inr e ↦ (op_leq, v, fits, ground arith, refl)
  ]
  comparison-Shown op_lt v fits kept = (op_lt, v, fits, ground arith, refl)

  Shown-ReadsBack : {r : SemverRange} → Shown r → ReadsBack spec r
  Shown-ReadsBack (op, v, fits, shown, same) =
      rw shown (rw same at (parse_range-op_to_str op v fits))

  Keeps-IsKept : (op : SemverOp) (v : Semver) → Keeps (comparison_to_range op v) → IsKept op v
  Keeps-IsKept op_lt v k = λ e. k.0 (ap (comparison_to_range op_lt) e)
  Keeps-IsKept op_gt v k = λ e. k.1 (ap (comparison_to_range op_gt) e)
  Keeps-IsKept op v k = tt

  Written-ReadsBack : {r : SemverRange} → Written r → Keeps r → ReadsBack spec r
  Written-ReadsBack (caret p h) k = caret-ReadsBack spec p h.fits
  Written-ReadsBack (tilde p h) k = tilde-ReadsBack spec p h
  Written-ReadsBack (wildcard p h) k = wildcard-ReadsBack spec p h
  Written-ReadsBack star k = star-ReadsBack spec
  Written-ReadsBack (comparison op v fits) k =
      Shown-ReadsBack (comparison-Shown op v fits (Keeps-IsKept op v k))

  lost_below : ¬ ReadsBack spec (comparison_to_range op_lt zero_version)
  unfolding range_to_str comparison_to_range op_to_str
  lost_below h =
      let shown = parse_range-op_to_str op_eq zero_version (omega arith) in cc (sym shown ∙ h)

  lost_above : ¬ ReadsBack spec (comparison_to_range op_gt max_version)
  unfolding range_to_str comparison_to_range op_to_str
  lost_above h =
      let shown = parse_range-op_to_str op_eq max_version (omega arith) in cc (sym shown ∙ h)

  -- If the formatter writes decimal digits, a range that the parser accepted from some text is printed
  -- as a text that the parser accepts as that same range, exactly when the range is not that of
  -- `<0.0.0` or of `>` the largest version.
  pub parse_range-range_to_str :
      (s : Text) (r : SemverRange)
      → parse_range s ≡ (spn_ok, some r)
      → (parse_range (range_to_str fmt_u32 r) ≡ (spn_ok, some r)) ↔ Keeps r
  unfolding parse_range
  parse_range-range_to_str s r h = (
    λ back. (
      λ e. lost_below (subst (ReadsBack spec) e back),
      λ e. lost_above (subst (ReadsBack spec) e back),
    ),
    Written-ReadsBack (parse_form-Written (peek (eat_whitespace s)) (eat_whitespace s) h),
  )
