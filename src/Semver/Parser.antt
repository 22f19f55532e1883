-- ===== src/Semver/Parser.antt =====
-- source/core/semver/parser.c. The parser's `str` and `it` are the text that is left, `str` from
-- `it` on; an out parameter is part of the result.
use spn.Base.{
  ℕ, ◌+◌, ◌-◌, ◌*◌, Bool, true, false, not, ◌&&◌, ◌||◌, List, [], ◌∷◌, Option, none, some, leb,
  ◌==◌, if◌then◌else◌, u32, length,
}
use spn.Semver.{Semver, SemverOp, SemverParsed, SemverRange, op_lt, op_leq, op_gt, op_geq, op_eq}
use spn.Semver.Convert.{
  semver_lit, caret_to_range, tilde_to_range, wildcard_to_range, comparison_to_range,
}

abbrev pub Text : Type 0
Text = List ℕ

-- SPN_OK and SPN_ERROR.
pub data Status : Type 0 where
  spn_ok spn_error : Status

abbrev pub peek : Text → ℕ
peek [] = 0
peek (c ∷ s) = c

-- The cursor is not past the end where the code calls this; there the text stays empty.
abbrev pub eat : Text → Text
eat [] = []
eat (c ∷ s) = s

abbrev pub is_done : Text → Bool
is_done [] = true
is_done (c ∷ s) = false

unfoldable pub is_digit : ℕ → Bool
is_digit c = leb b'0' c && leb c b'9'

unfoldable pub is_whitespace : ℕ → Bool
is_whitespace c = c == b' ' || (c == 9 || c == 10)

unfoldable pub eat_whitespace : Text → Text
unfolding is_whitespace
eat_whitespace [] = []
eat_whitespace (c ∷ s) = if is_whitespace c then eat_whitespace s else c ∷ s

-- The loop of `spn_semver_parser_parse_number` with its variable `result`.
unfoldable pub parse_number : ℕ → Text → ℕ × Text
unfolding is_digit
parse_number result [] = (result, [])
parse_number result (c ∷ s) =
    if is_digit c then parse_number (u32 (result * 10 + (c - b'0'))) s else (result, c ∷ s)

abbrev pub parsed_of : ℕ → ℕ → ℕ → Bool → Bool → Bool → SemverParsed
parsed_of major minor patch has_major has_minor has_patch = record {
  version = semver_lit major minor patch;
  components = record { has_major = has_major; has_minor = has_minor; has_patch = has_patch };
}

-- sp_zero.
abbrev pub parsed_zero : SemverParsed
parsed_zero = parsed_of 0 0 0 false false false

unfoldable pub parser_parse : Text → SemverParsed
unfolding parse_number
parser_parse s =
    let (major, s₁) = parse_number 0 s in
    if is_done s₁ || not (peek s₁ == b'.')
    then parsed_of major 0 0 true false false
    else let (minor, s₂) = parse_number 0 (eat s₁) in
      if is_done s₂ || not (peek s₂ == b'.')
      then parsed_of major minor 0 true true false
      else let (patch, s₃) = parse_number 0 (eat s₂) in parsed_of major minor patch true true true

-- `spn_semver_from_str` of convert.c.
unfoldable pub semver_from_str : Text → Semver
unfolding parser_parse
semver_from_str s = (parser_parse s).version

-- `none` is the result false: no character was read.
unfoldable pub parse_component : Text → Option (ℕ × Text)
unfolding parse_number
parse_component s =
    let (value, rest) = parse_number 0 s in
    if length rest == length s then none else some (value, rest)

-- What `spn_semver_parse_version` leaves behind when it returns true.
pub record VersionText : Type 0 where
  pub parsed : SemverParsed
  pub wildcard : Bool
  pub rest : Text

abbrev pub version_text : SemverParsed → Bool → Text → VersionText
version_text parsed wildcard rest = record { parsed = parsed; wildcard = wildcard; rest = rest }

-- The part of `spn_semver_parse_version` from the second dot on.
unfoldable pub parse_version_patch : ℕ → ℕ → Text → Bool → Option VersionText
unfolding parse_component
parse_version_patch major minor s allow =
    if not (peek s == b'.')
    then some (version_text (parsed_of major minor 0 true true false) false s)
    else if allow && peek (eat s) == b'*'
    then some (version_text (parsed_of major minor 0 true true false) true (eat (eat s)))
    else elim (parse_component (eat s)) [
      | none ↦ none
      | some (patch, rest) ↦
          some (version_text (parsed_of major minor patch true true true) false rest)
    ]

-- The part from the first dot on.
unfoldable pub parse_version_minor : ℕ → Text → Bool → Option VersionText
unfolding parse_component parse_version_patch
parse_version_minor major s allow =
    if not (peek s == b'.')
    then some (version_text (parsed_of major 0 0 true false false) false s)
    else if allow && peek (eat s) == b'*'
    then some (version_text (parsed_of major 0 0 true false false) true (eat (eat s)))
    else elim (parse_component (eat s)) [
      | none ↦ none
      | some (minor, rest) ↦ parse_version_patch major minor rest allow
    ]

unfoldable pub parse_version : Text → Bool → Option VersionText
unfolding parse_component parse_version_minor
parse_version s allow = elim (parse_component s) [
  | none ↦ none
  | some (major, rest) ↦ parse_version_minor major rest allow
]

-- The status, and the value that was written to `*range` (`none`: it was left alone).
abbrev pub RangeResult : Type 0
RangeResult = Status × Option SemverRange

-- The last two lines of `spn_semver_parse_range`.
unfoldable pub finish_range : SemverRange → Text → RangeResult
unfolding eat_whitespace
finish_range range s = (if is_done (eat_whitespace s) then spn_ok else spn_error, some range)

-- `=`, `>`, `>=`, `<` or `<=` at the front of the text, and what follows it.
unfoldable pub parse_operator : ℕ → Text → SemverOp × Text
parse_operator c s =
    if c == b'>'
    then if peek s == b'=' then (op_geq, eat s) else (op_gt, s)
    else if c == b'<'
    then if peek s == b'=' then (op_leq, eat s) else (op_lt, s)
    else (op_eq, s)

-- What follows a version in each form: an error if there was none.
unfoldable pub range_from : (VersionText → SemverRange) → Option VersionText → RangeResult
unfolding finish_range
range_from make none = (spn_error, none)
range_from make (some t) = finish_range (make t) t.rest

-- The form that begins with an operator, `c` its first character.
unfoldable pub parse_comparison : ℕ → Text → RangeResult
unfolding eat_whitespace parse_version range_from parse_operator comparison_to_range
parse_comparison c s =
    let (op, rest) = parse_operator c s in
    range_from (λ t. comparison_to_range op t.parsed.version)
      (parse_version (eat_whitespace rest) false)

-- The range of a version without an operator.
abbrev pub plain_range : VersionText → SemverRange
plain_range t = if t.wildcard then wildcard_to_range t.parsed else caret_to_range t.parsed

-- The chain of tests on `c`, the first character of the text `s`.
unfoldable pub parse_form : ℕ → Text → RangeResult
unfolding eat_whitespace parse_version finish_range range_from parse_comparison caret_to_range
    tilde_to_range wildcard_to_range is_digit
parse_form c s =
    if c == b'*'
    then finish_range (wildcard_to_range parsed_zero) (eat s)
    else if c == b'^' || c == b'~'
    then range_from (λ t. if c == b'^' then caret_to_range t.parsed else tilde_to_range t.parsed)
        (parse_version (eat_whitespace (eat s)) false)
    else if c == b'>' || (c == b'<' || c == b'=')
    then parse_comparison c (eat s)
    else if is_digit c
    then range_from plain_range (parse_version s true)
    else (spn_error, none)

unfoldable pub parse_range : Text → RangeResult
unfolding eat_whitespace parse_form
parse_range str = let s = eat_whitespace str in parse_form (peek s) s
