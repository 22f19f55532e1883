-- ===== src/Semver/Number.antt =====
-- Reading back a printed number, and the versions made of three of them.
use spn.Base.{
  ℕ, ◌+◌, ◌-◌, ◌*◌, ◌≤◌, ◌<◌, ◌≡◌, refl, true, false, [], ◌∷◌, ◌++◌, append-nil, u32, All, arith,
  length, length-append, some, inl, inr, List-cases,
}
use spn.Semver.{Semver}
use spn.Semver.Bounds.{IsU32}
use spn.Semver.Convert.{u32_max}
use spn.Semver.Parser.{Text, peek, is_digit, parse_number, semver_from_str, parse_component}
use spn.Semver.Print.{decimal, IsDecimal, semver_to_str}

decimal-le : (acc : ℕ) (s : Text) → acc ≤ decimal acc s
decimal-le acc [] = omega arith
decimal-le acc (c ∷ s) = omega (arith, decimal-le (acc * 10 + (c - b'0')) s)

-- The digits are read, and the wrapping arithmetic never wraps while the value is a u32.
parse_number-append :
    (acc : ℕ) (s rest : Text)
    → All (λ c. is_digit c ≡ true) s
    → is_digit (peek rest) ≡ false
    → decimal acc s ≤ u32_max
    → parse_number acc (s ++ rest) ≡ (decimal acc s, rest)
unfolding parse_number
parse_number-append acc [] [] h stop fits = refl
parse_number-append acc [] (c ∷ rest) h stop fits = rw stop refl
parse_number-append acc (c ∷ s) rest h stop fits =
    let next = acc * 10 + (c - b'0') in
    let small : u32 next ≡ next = omega (arith, decimal-le next s) in
    rw (h.0, small) (parse_number-append next s rest h.1 stop fits)

-- What is left of the text never grows, so a component reports failure exactly when it read nothing.
pub parse_number-le : (acc : ℕ) (s : Text) → length (parse_number acc s).1 ≤ length s
unfolding parse_number
parse_number-le acc [] = omega arith
parse_number-le acc (c ∷ s) = ground (arith, parse_number-le (u32 (acc * 10 + (c - b'0'))) s)

-- The value read is a u32.
pub parse_number_fits : (acc : ℕ) (s : Text) → acc ≤ u32_max → (parse_number acc s).0 ≤ u32_max
unfolding parse_number
parse_number_fits acc [] h = h
parse_number_fits acc (c ∷ s) h =
    ground (arith, parse_number_fits (u32 (acc * 10 + (c - b'0'))) s (omega arith))

module _ {fmt_u32 : ℕ → Text} (spec : IsDecimal fmt_u32) where
  -- A printed number begins with a digit.
  pub fmt-eq_cons :
      (n : ℕ) → n ≤ u32_max → (c : ℕ) × (s : Text) × (fmt_u32 n ≡ c ∷ s) × (is_digit c ≡ true)
  fmt-eq_cons n fits = elim (List-cases (fmt_u32 n)) [
    | inl e ↦ absurd (spec.not_empty n fits e)
    | inr (c, s, e) ↦ (c, s, e, (rw e at (spec.digits n fits)).0)
  ]

  pub peek-fmt : (n : ℕ) (rest : Text) → n ≤ u32_max → is_digit (peek (fmt_u32 n ++ rest)) ≡ true
  peek-fmt n rest fits = let (c, s, e, h) = fmt-eq_cons n fits in rw e h

  length-fmt_pos : (n : ℕ) → n ≤ u32_max → 0 < length (fmt_u32 n)
  length-fmt_pos n fits = let (c, s, e, h) = fmt-eq_cons n fits in rw e (omega arith)

  pub parse_number-fmt :
      (n : ℕ) (rest : Text)
      → n ≤ u32_max
      → is_digit (peek rest) ≡ false
      → parse_number 0 (fmt_u32 n ++ rest) ≡ (n, rest)
  parse_number-fmt n rest fits stop =
      let value = spec.value n fits in
      rw value at (parse_number-append 0 (fmt_u32 n) rest (spec.digits n fits) stop (omega arith))

  pub parse_number-fmt_end : (n : ℕ) → n ≤ u32_max → parse_number 0 (fmt_u32 n) ≡ (n, [])
  unfolding is_digit
  parse_number-fmt_end n fits = rw (append-nil (fmt_u32 n)) at (parse_number-fmt n [] fits refl)

  pub parse_component-fmt :
      (n : ℕ) (rest : Text)
      → n ≤ u32_max
      → is_digit (peek rest) ≡ false
      → parse_component (fmt_u32 n ++ rest) ≡ some (n, rest)
  unfolding parse_component
  parse_component-fmt n rest fits stop =
      rw (parse_number-fmt n rest fits stop)
        (ground (arith, length-append (fmt_u32 n) rest, length-fmt_pos n fits))

  pub parse_component-fmt_end : (n : ℕ) → n ≤ u32_max → parse_component (fmt_u32 n) ≡ some (n, [])
  unfolding is_digit
  parse_component-fmt_end n fits =
      rw (append-nil (fmt_u32 n)) at (parse_component-fmt n [] fits refl)

  -- If the formatter writes decimal digits, reading a printed version with u32 components gives the
  -- version.
  pub semver_from_str-to_str :
      (v : Semver) → IsU32 v → semver_from_str (semver_to_str fmt_u32 v) ≡ v
  unfolding semver_from_str semver_to_str is_digit
  semver_from_str-to_str v fits =
      let minor_text = b'.' ∷ (fmt_u32 v.minor ++ (b'.' ∷ fmt_u32 v.patch)) in
      ground (
        arith,
        parse_number-fmt v.major minor_text fits.major_fits refl,
        parse_number-fmt v.minor (b'.' ∷ fmt_u32 v.patch) fits.minor_fits refl,
        parse_number-fmt_end v.patch fits.patch_fits,
      )
