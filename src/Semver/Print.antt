-- ===== src/Semver/Print.antt =====
-- The printing half of source/core/semver/convert.c, and `spn_semver_parse` of parser.c. How a u32
-- is written is the formatter's, which is not part of the repository: `fmt_u32` is a parameter.
use spn.Base.{
  ℕ, ◌+◌, ◌-◌, ◌*◌, ◌≤◌, ◌≡◌, ◌≢◌, Bool, true, false, ◌&&◌, [], ◌∷◌, ◌++◌, ◌==◌, if◌then◌else◌, u32,
  All,
}
use spn.Base.Texts.{text_eq}
use spn.Semver.{
  Semver, SemverOp, SemverMod, SemverRange, op_lt, op_leq, op_gt, op_geq, op_eq, mod_none,
  mod_caret, mod_tilde, mod_wildcard, mod_cmp,
}
use spn.Semver.Convert.{semver_lit, u32_max}
use spn.Semver.Parser.{Text, Status, spn_ok, spn_error, is_digit, semver_from_str, is_done}

-- The number that a text of digits stands for, read on from `acc`.
abbrev pub decimal : ℕ → Text → ℕ
decimal acc [] = acc
decimal acc (c ∷ s) = decimal (acc * 10 + (c - b'0')) s

-- `{}` of `sp_fmt` writes a u32 as its decimal digits.
pub record IsDecimal (fmt_u32 : ℕ → Text) : Type 0 where
  pub digits : (n : ℕ) → n ≤ u32_max → All (λ c. is_digit c ≡ true) (fmt_u32 n)
  pub not_empty : (n : ℕ) → n ≤ u32_max → fmt_u32 n ≢ []
  pub value : (n : ℕ) → n ≤ u32_max → decimal 0 (fmt_u32 n) ≡ n

unfoldable pub op_to_str : SemverOp → Text
op_to_str op_eq = b'=' ∷ []
op_to_str op_geq = b'>' ∷ b'=' ∷ []
op_to_str op_gt = b'>' ∷ []
op_to_str op_leq = b'<' ∷ b'=' ∷ []
op_to_str op_lt = b'<' ∷ []

unfoldable pub mod_to_str : SemverMod → SemverOp → Text
unfolding op_to_str
mod_to_str mod_tilde op = b'~' ∷ []
mod_to_str mod_caret op = b'^' ∷ []
mod_to_str mod_wildcard op = b'*' ∷ []
mod_to_str mod_cmp op = op_to_str op
mod_to_str mod_none op = []

-- The static copy of `spn_semver_eq` in convert.c.
unfoldable pub semver_version_eq : Semver → Semver → Bool
semver_version_eq a b = a.major == b.major && (a.minor == b.minor && a.patch == b.patch)

abbrev pub zero_version : Semver
zero_version = semver_lit 0 0 0

abbrev pub max_version : Semver
max_version = semver_lit u32_max u32_max u32_max

unfoldable pub is_geq : SemverOp → Bool
is_geq op_geq = true
is_geq _ = false

-- `semver.minor == 0 && patch == 0` of the low bound, with a high bound one major further on.
unfoldable pub spans_major : SemverRange → Bool
spans_major range =
    range.low.version.minor == 0
    && (range.low.version.patch == 0
        && range.high.version.major == u32 (range.low.version.major + 1))

module _ (fmt_u32 : ℕ → Text) where
  unfoldable pub semver_to_str : Semver → Text
  semver_to_str v = fmt_u32 v.major ++ (b'.' ∷ (fmt_u32 v.minor ++ (b'.' ∷ fmt_u32 v.patch)))

  -- The last line of `spn_semver_range_to_str`.
  unfoldable pub plain_to_str : SemverRange → Text
  unfolding mod_to_str semver_to_str
  plain_to_str range = mod_to_str range.mod_kind range.low.op ++ semver_to_str range.low.version

  unfoldable pub cmp_to_str : SemverRange → Text
  unfolding op_to_str semver_to_str semver_version_eq is_geq
  cmp_to_str range =
      if semver_version_eq range.low.version range.high.version
      then b'=' ∷ semver_to_str range.low.version
      else if semver_version_eq range.low.version zero_version && is_geq range.low.op
      then op_to_str range.high.op ++ semver_to_str range.high.version
      else op_to_str range.low.op ++ semver_to_str range.low.version

  unfoldable pub wildcard_to_str : SemverRange → Text
  unfolding semver_version_eq spans_major
  wildcard_to_str range =
      if semver_version_eq range.low.version zero_version
        && semver_version_eq range.high.version max_version
      then b'*' ∷ []
      else if spans_major range
      then fmt_u32 range.low.version.major ++ (b'.' ∷ b'*' ∷ [])
      else fmt_u32 range.low.version.major
        ++ (b'.' ∷ (fmt_u32 range.low.version.minor ++ (b'.' ∷ b'*' ∷ [])))

  unfoldable pub tilde_to_str : SemverRange → Text
  unfolding plain_to_str spans_major
  tilde_to_str range =
      if spans_major range then b'~' ∷ fmt_u32 range.low.version.major else plain_to_str range

  -- The switch of `spn_semver_range_to_str` on the form that the range was written in.
  unfoldable pub render : SemverMod → SemverRange → Text
  unfolding cmp_to_str wildcard_to_str tilde_to_str plain_to_str
  render mod_cmp range = cmp_to_str range
  render mod_wildcard range = wildcard_to_str range
  render mod_tilde range = tilde_to_str range
  render mod_caret range = plain_to_str range
  render mod_none range = plain_to_str range

  unfoldable pub range_to_str : SemverRange → Text
  unfolding render
  range_to_str range = render range.mod_kind range

  -- The status, and the version that was written in any case.
  unfoldable pub semver_parse : Text → Status × Semver
  unfolding semver_from_str semver_to_str text_eq
  semver_parse str =
      let version = semver_from_str str in
      if is_done str
      then (spn_error, version)
      else if text_eq str (semver_to_str version)
      then (spn_ok, version)
      else (spn_error, version)
