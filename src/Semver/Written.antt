-- ===== src/Semver/Written.antt =====
-- Which ranges `spn_semver_parse_range` accepts: those that the surface forms stand for.
use spn.Base.{
  ℕ, ◌≤◌, ◌≡◌, refl, Bool, true, false, ◌==◌, none, some, arith, Bool-cases, inl, inr, Option,
  Option-cases, ◌||◌, if◌then◌else◌,
}
use spn.Semver.{Semver, SemverOp, SemverParsed, SemverRange}
use spn.Semver.Bounds.{IsU32}
use spn.Semver.Convert.{
  u32_max, caret_to_range, tilde_to_range, wildcard_to_range, comparison_to_range,
}
use spn.Semver.Parser.{
  parse_version_patch, parse_version_minor, eat_whitespace, eat, Text, VersionText, spn_ok,
  parse_version, parse_component, parse_operator, parse_form, plain_range, range_from, finish_range,
  is_digit, parse_comparison, parsed_zero,
}
use spn.Semver.Number.{parse_number_fits}
use mathlib.Core.Path.{subst}
use spn.Semver.RoundTrip.{IsParsed}

parse_component_fits :
    (s : Text) (n : ℕ) (rest : Text) → parse_component s ≡ some (n, rest) → n ≤ u32_max
unfolding parse_component
parse_component_fits s n rest h = ground (arith, parse_number_fits 0 s (omega arith))

parse_version_patch-IsParsed :
    (major minor : ℕ) (s : Text) (allow : Bool) (t : VersionText)
    → major ≤ u32_max
    → minor ≤ u32_max
    → parse_version_patch major minor s allow ≡ some t
    → IsParsed t.parsed
unfolding parse_version_patch
parse_version_patch-IsParsed major minor s allow t fits fits' h =
    elim (Option-cases (parse_component (eat s))) [
      | inl e ↦ ground arith
      | inr (n, e) ↦ ground (arith, parse_component_fits (eat s) n.0 n.1)
    ]

parse_version_minor-IsParsed :
    (major : ℕ) (s : Text) (allow : Bool) (t : VersionText)
    → major ≤ u32_max
    → parse_version_minor major s allow ≡ some t
    → IsParsed t.parsed
unfolding parse_version_minor
parse_version_minor-IsParsed major s allow t fits h =
    elim (Option-cases (parse_component (eat s))) [
      | inl e ↦ ground arith
      | inr (n, e) ↦ ground (
        arith,
        parse_component_fits (eat s) n.0 n.1,
        parse_version_patch-IsParsed major n.0 n.1 allow t,
      )
    ]

-- What `spn_semver_parse_version` leaves behind is a version text.
parse_version-IsParsed :
    (s : Text) (allow : Bool) (t : VersionText) → parse_version s allow ≡ some t → IsParsed t.parsed
unfolding parse_version
parse_version-IsParsed s allow t h = elim (Option-cases (parse_component s)) [
  | inl e ↦ ground arith
  | inr (n, e) ↦
      parse_version_minor-IsParsed n.0 n.1 allow t (parse_component_fits s n.0 n.1 e)
        (rw (e, parse_version) at h)
]

-- The ranges that the surface forms stand for.
pub data Written : SemverRange → Type 0 where
  caret : (p : SemverParsed) → IsParsed p → Written (caret_to_range p)
  tilde : (p : SemverParsed) → IsParsed p → Written (tilde_to_range p)
  wildcard : (p : SemverParsed) → IsParsed p → Written (wildcard_to_range p)
  star : Written (wildcard_to_range parsed_zero)
  comparison : (op : SemverOp) (v : Semver) → IsU32 v → Written (comparison_to_range op v)

range_from-eq_ok :
    (make : VersionText → SemverRange) (m : Option VersionText) {r : SemverRange}
    → range_from make m ≡ (spn_ok, some r)
    → (t : VersionText) × (m ≡ some t) × (make t ≡ r)
unfolding range_from
range_from-eq_ok make none h = cc
range_from-eq_ok make (some t) h = (t, refl, ground arith)

range_from-Written :
    (make : VersionText → SemverRange) (s : Text) (allow : Bool) {r : SemverRange}
    → ((t : VersionText) → IsParsed t.parsed → Written (make t))
    → range_from make (parse_version s allow) ≡ (spn_ok, some r)
    → Written r
range_from-Written make s allow w h =
    let (t, e, made) = range_from-eq_ok make (parse_version s allow) h in
    subst Written made (w t (parse_version-IsParsed s allow t e))

parse_comparison-Written :
    (c : ℕ) (s : Text) {r : SemverRange} → parse_comparison c s ≡ (spn_ok, some r) → Written r
unfolding parse_comparison
parse_comparison-Written c s h =
    range_from-Written _ (eat_whitespace (parse_operator c s).1) false
      (λ t p. comparison (parse_operator c s).0 t.parsed.version p.fits) h

plain_range-Written : (t : VersionText) → IsParsed t.parsed → Written (plain_range t)
plain_range-Written t p = elim (Bool-cases t.wildcard) [
  | inl e ↦ rw e (wildcard t.parsed p)
  | inr e ↦ rw e (caret t.parsed p)
]

prefix_range-Written :
    (b : Bool) (t : VersionText)
    → IsParsed t.parsed
    → Written (if b then caret_to_range t.parsed else tilde_to_range t.parsed)
prefix_range-Written true t p = caret t.parsed p
prefix_range-Written false t p = tilde t.parsed p

finish_range-Written :
    (r' r : SemverRange) (s : Text) → Written r' → finish_range r' s ≡ (spn_ok, some r) → Written r
unfolding finish_range
finish_range-Written r' r s w h = subst Written (ground arith) w

pub parse_form-Written :
    (c : ℕ) (s : Text) {r : SemverRange} → parse_form c s ≡ (spn_ok, some r) → Written r
unfolding parse_form
parse_form-Written c s {r} h = elim (Bool-cases (c == b'*')) [
  | inl e ↦ finish_range-Written _ r (eat s) star (rw (e, parse_form) at h)
  | inr e₁ ↦ elim (Bool-cases (c == b'^' || c == b'~')) [
    | inl e ↦
        range_from-Written _ (eat_whitespace (eat s)) false
          (λ t p. prefix_range-Written (c == b'^') t p) (rw (e₁, e, parse_form) at h)
    | inr e₂ ↦ elim (Bool-cases (c == b'>' || (c == b'<' || c == b'='))) [
      | inl e ↦ parse_comparison-Written c (eat s) (rw (e₁, e₂, e, parse_form) at h)
      | inr e₃ ↦ elim (Bool-cases (is_digit c)) [
        | inl e ↦
            range_from-Written _ s true plain_range-Written (rw (e₁, e₂, e₃, e, parse_form) at h)
        | inr e ↦ cc (rw (e₁, e₂, e₃, e, parse_form) at h)
      ]
    ]
  ]
]
