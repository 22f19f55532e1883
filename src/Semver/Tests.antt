-- ===== src/Semver/Tests.antt =====
-- Runs of the semver code on concrete texts, and the semver theorems at concrete inputs.
use spn.Base.{
  ℕ, zero, suc, ◌+◌, ◌-◌, ◌*◌, ◌/◌, ◌%◌, ◌<◌, ◌≡◌, ◌≢◌, ◌↔◌, refl, true, false, [], ◌∷◌, ◌++◌, some,
  if◌then◌else◌, ltb, All, arith, Bool-cases, inl, inr,
}
use spn.Semver.{Semver, op_lt, op_gt}
use spn.Semver.Order.{Before, semver_cmp_lem, semver_satisfies_lem, Meets}
use spn.Semver.Compare.{semver_in_range, semver_satisfies, semver_cmp, a_first, equal, b_first}
use spn.Semver.Convert.{
  semver_lit, u32_max, caret_to_range, tilde_to_range, wildcard_to_range, comparison_to_range,
}
use spn.Semver.Bounds.{
  NotBefore, SameLeading, TildeAgrees, WildcardMatches, IsU32, caret_to_range_lem,
  caret_to_range_wraps, tilde_to_range_lem, wildcard_to_range_lem, comparison_to_range_lem,
}
use spn.Semver.Parser.{Text, spn_ok, spn_error, parse_range, parsed_of, is_digit, semver_from_str}
use spn.Semver.Number.{semver_from_str-to_str}
use spn.Semver.Print.{IsDecimal, decimal, semver_to_str, semver_parse, range_to_str, zero_version}
use spn.Semver.Canonical.{semver_parse_iff}
use spn.Semver.Reread.{parse_range-range_to_str, Keeps}

-- A formatter that meets `IsDecimal`: the last digit is `n % 10`, those before it print `n / 10`.
print_digits : ℕ → ℕ → Text
print_digits zero n = (b'0' + n % 10) ∷ []
print_digits (suc f) n =
    let more = print_digits f (n / 10) in
    if ltb n 10 then (b'0' + n) ∷ [] else more ++ ((b'0' + n % 10) ∷ [])

abbrev print_u32 : ℕ → Text
print_u32 n = print_digits 10 n

decimal-append :
    (acc : ℕ) (s : Text) (c : ℕ) → decimal acc (s ++ c ∷ []) ≡ decimal acc s * 10 + (c - b'0')
decimal-append acc [] c = refl
decimal-append acc (d ∷ s) c = decimal-append (acc * 10 + (d - b'0')) s c

All-append :
    (s : Text) (c : ℕ)
    → All (λ c. is_digit c ≡ true) s
    → is_digit c ≡ true
    → All (λ c. is_digit c ≡ true) (s ++ c ∷ [])
All-append [] c h k = (k, tt)
All-append (d ∷ s) c h k = (h.0, All-append s c h.1 k)

append-ne-nil : (s : Text) (c : ℕ) → s ++ c ∷ [] ≢ []
append-ne-nil [] c = cc
append-ne-nil (d ∷ s) c = cc

print_digits-digits : (f n : ℕ) → All (λ c. is_digit c ≡ true) (print_digits f n)
unfolding print_digits is_digit
print_digits-digits zero n = (ground arith, tt)
print_digits-digits (suc f) n = elim (Bool-cases (ltb n 10)) [
  | inl e ↦ rw e (ground arith, tt)
  | inr e ↦ rw e (All-append _ _ (print_digits-digits f (n / 10)) (ground arith))
]

-- The numbers of at most `f + 1` digits lie below.
abbrev capacity : ℕ → ℕ
capacity zero = 10
capacity (suc f) = capacity f * 10

print_digits_value : (f n : ℕ) → n < capacity f → decimal 0 (print_digits f n) ≡ n
unfolding print_digits
print_digits_value zero n h = omega arith
print_digits_value (suc f) n h = elim (Bool-cases (ltb n 10)) [
  | inl e ↦ rw e (omega arith)
  | inr e ↦
      rw
        (
          e,
          decimal-append 0 (print_digits f (n / 10)) (b'0' + n % 10),
          print_digits_value f (n / 10) (omega arith),
        )
        (omega arith)
]

print_digits-ne-nil : (f n : ℕ) → print_digits f n ≢ []
unfolding print_digits
print_digits-ne-nil zero n = cc
print_digits-ne-nil (suc f) n = elim (Bool-cases (ltb n 10)) [
  | inl e ↦ rw e (cc)
  | inr e ↦ rw e (append-ne-nil (print_digits f (n / 10)) (b'0' + n % 10))
]

print_u32-IsDecimal : IsDecimal print_u32
print_u32-IsDecimal = record {
  digits = λ n h. print_digits-digits 10 n;
  not_empty = λ n h. print_digits-ne-nil 10 n;
  value = λ n h. print_digits_value 10 n (omega arith);
}

-- 1.20.3
abbrev sample : Semver
sample = semver_lit 1 20 3

abbrev sample_text : Text
sample_text = b'1' ∷ b'.' ∷ b'2' ∷ b'0' ∷ b'.' ∷ b'3' ∷ []

sample_printed : semver_to_str print_u32 sample ≡ sample_text
unfolding semver_to_str print_digits
sample_printed = refl

semver_cmp_lem_example :
    ((semver_cmp sample zero_version ≡ a_first) ↔ Before sample zero_version)
    × ((semver_cmp sample zero_version ≡ equal) ↔ (sample ≡ zero_version))
    × ((semver_cmp sample zero_version ≡ b_first) ↔ Before zero_version sample)
semver_cmp_lem_example = semver_cmp_lem sample zero_version

semver_satisfies_lem_example :
    (semver_satisfies sample zero_version op_gt ≡ true) ↔ Meets op_gt sample zero_version
semver_satisfies_lem_example = semver_satisfies_lem sample zero_version op_gt

semver_from_str-to_str_example : semver_from_str (semver_to_str print_u32 sample) ≡ sample
semver_from_str-to_str_example = semver_from_str-to_str print_u32-IsDecimal sample (omega arith)

caret_to_range_lem_example :
    (semver_in_range (semver_lit 1 99 0) (caret_to_range (parsed_of 1 20 3 true true true)) ≡ true)
    ↔ (NotBefore sample (semver_lit 1 99 0) × SameLeading sample (semver_lit 1 99 0))
caret_to_range_lem_example =
    caret_to_range_lem (parsed_of 1 20 3 true true true) (semver_lit 1 99 0) (omega arith)

caret_to_range_wraps_example :
    semver_in_range (semver_lit u32_max 5 0) (caret_to_range (parsed_of u32_max 0 0 true true true))
    ≡ false
caret_to_range_wraps_example =
    caret_to_range_wraps (parsed_of u32_max 0 0 true true true) (semver_lit u32_max 5 0) refl

tilde_to_range_lem_example :
    (semver_in_range (semver_lit 1 20 9) (tilde_to_range (parsed_of 1 20 3 true true true)) ≡ true)
    ↔ (NotBefore sample (semver_lit 1 20 9)
        × TildeAgrees (parsed_of 1 20 3 true true true) (semver_lit 1 20 9))
tilde_to_range_lem_example =
    tilde_to_range_lem (parsed_of 1 20 3 true true true) (semver_lit 1 20 9) (omega arith)

wildcard_to_range_lem_example :
    (semver_in_range sample (wildcard_to_range (parsed_of 1 0 0 true false false)) ≡ true)
    ↔ WildcardMatches (parsed_of 1 0 0 true false false) sample
wildcard_to_range_lem_example =
    wildcard_to_range_lem (parsed_of 1 0 0 true false false) sample (omega arith) (omega arith)

comparison_to_range_lem_example :
    (semver_in_range sample (comparison_to_range op_gt zero_version) ≡ true)
    ↔ Meets op_gt sample zero_version
comparison_to_range_lem_example = comparison_to_range_lem op_gt zero_version sample (omega arith)

semver_parse_iff_example :
    (semver_parse print_u32 sample_text ≡ (spn_ok, sample))
    ↔ (IsU32 sample × (sample_text ≡ semver_to_str print_u32 sample))
semver_parse_iff_example = semver_parse_iff print_u32-IsDecimal sample_text sample

-- ^1.20.3
abbrev caret_text : Text
caret_text = b'^' ∷ sample_text

caret_read :
    parse_range caret_text ≡ (spn_ok, some (caret_to_range (parsed_of 1 20 3 true true true)))
unfolding parse_range
caret_read = refl

parse_range-range_to_str_example :
    (parse_range (range_to_str print_u32 (caret_to_range (parsed_of 1 20 3 true true true)))
      ≡ (spn_ok, some (caret_to_range (parsed_of 1 20 3 true true true))))
    ↔ Keeps (caret_to_range (parsed_of 1 20 3 true true true))
parse_range-range_to_str_example =
    parse_range-range_to_str print_u32-IsDecimal caret_text
      (caret_to_range (parsed_of 1 20 3 true true true)) caret_read

-- A trailing character is an error, after the range was written.
trailing_read :
    parse_range (b'1' ∷ b'x' ∷ [])
    ≡ (spn_error, some (caret_to_range (parsed_of 1 0 0 true false false)))
unfolding parse_range
trailing_read = refl

-- `<0.0.0` is printed as `=0.0.0`.
below_zero_printed :
    range_to_str print_u32 (comparison_to_range op_lt zero_version)
    ≡ b'=' ∷ b'0' ∷ b'.' ∷ b'0' ∷ b'.' ∷ b'0' ∷ []
unfolding range_to_str comparison_to_range print_digits
below_zero_printed = refl
