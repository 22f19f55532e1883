-- ===== src/Semver/Canonical.antt =====
-- `spn_semver_parse` of source/core/semver/parser.c against the printed form.
use spn.Base.{ℕ, ◌≡◌, ◌↔◌, refl, false, arith}
use spn.Semver.{Semver}
use spn.Semver.Bounds.{IsU32}
use spn.Semver.Parser.{Text, spn_ok, semver_from_str, parse_number, is_done, eat}
use spn.Base.Texts.{text_eq_iff}
use spn.Semver.Print.{IsDecimal, semver_to_str, semver_parse}
use spn.Semver.Number.{parse_number_fits, semver_from_str-to_str, fmt-eq_cons}

-- Whatever the text, the version read has u32 components.
pub semver_from_str-IsU32 : (s : Text) → IsU32 (semver_from_str s)
unfolding semver_from_str
semver_from_str-IsU32 s =
    let first = parse_number 0 s in
    let second = parse_number 0 (eat first.1) in
    ground (
      arith,
      parse_number_fits 0 s,
      parse_number_fits 0 (eat first.1),
      parse_number_fits 0 (eat second.1),
    )

module _ {fmt_u32 : ℕ → Text} (spec : IsDecimal fmt_u32) where
  is_done-to_str : (v : Semver) → IsU32 v → is_done (semver_to_str fmt_u32 v) ≡ false
  unfolding semver_to_str
  is_done-to_str v fits = let (c, s, e, h) = fmt-eq_cons spec v.major fits.major_fits in rw e

  -- If the formatter writes decimal digits, a text is accepted as a version exactly when the version
  -- has u32 components and the text is its printed form.
  pub semver_parse_iff :
      (s : Text) (v : Semver)
      → (semver_parse fmt_u32 s ≡ (spn_ok, v)) ↔ (IsU32 v × (s ≡ semver_to_str fmt_u32 v))
  unfolding semver_parse
  semver_parse_iff s v = (accepted, printed)
    where
      accepted : semver_parse fmt_u32 s ≡ (spn_ok, v) → IsU32 v × (s ≡ semver_to_str fmt_u32 v)
      accepted h = ground (
        arith,
        semver_from_str-IsU32 s,
        text_eq_iff s (semver_to_str fmt_u32 (semver_from_str s)),
      )

      printed : IsU32 v × (s ≡ semver_to_str fmt_u32 v) → semver_parse fmt_u32 s ≡ (spn_ok, v)
      printed (fits, e) = rw (
        e,
        semver_from_str-to_str spec v fits,
        is_done-to_str v fits,
        (text_eq_iff (semver_to_str fmt_u32 v) (semver_to_str fmt_u32 v)).1 refl,
      )
