-- ===== src/Semver/RoundTrip.antt =====
-- Ranges printed by `spn_semver_range_to_str` and read back by `spn_semver_parse_range`.
use spn.Base.{
  ℕ, ◌≤◌, ◌≡◌, ◌≢◌, refl, Bool, true, false, [], ◌∷◌, ◌++◌, some, arith, Bool-cases, append-nil, ap,
  ◌∙◌, if◌then◌else◌, inl, inr,
}
use spn.Semver.{Semver, SemverParsed, SemverRange}
use spn.Semver.Bounds.{IsU32}
use spn.Semver.Convert.{u32_max, caret_to_range, tilde_to_range, wildcard_to_range}
use spn.Semver.Parser.{
  Text, VersionText, spn_ok, peek, is_digit, eat_whitespace, parsed_of, version_text, parse_version,
  range_from, finish_range, parse_range, parse_form, plain_range, parsed_zero,
}
use spn.Semver.Print.{IsDecimal, semver_to_str, range_to_str}
use spn.Semver.Number.{fmt-eq_cons, peek-fmt, parse_component-fmt, parse_component-fmt_end}

-- What a version text gives: u32 components, and those that it leaves out are 0.
pub record IsParsed (p : SemverParsed) : Type 0 where
  pub fits : IsU32 p.version
  pub major_given : p.components.has_major ≡ true
  pub minor_absent : p.components.has_minor ≡ false → p.version.minor ≡ 0
  pub patch_absent : p.components.has_patch ≡ false → p.version.patch ≡ 0
  pub in_order : p.components.has_patch ≡ true → p.components.has_minor ≡ true

eat_whitespace-digit : (s : Text) → is_digit (peek s) ≡ true → eat_whitespace s ≡ s
unfolding eat_whitespace is_digit
eat_whitespace-digit [] h = refl
eat_whitespace-digit (c ∷ s) h = ground arith

range_from-some :
    (t : VersionText) → range_from plain_range (some t) ≡ finish_range (plain_range t) t.rest
unfolding range_from
range_from-some t = refl

parse_form-digit :
    (c : ℕ) (s : Text)
    → is_digit c ≡ true
    → parse_form c s ≡ range_from plain_range (parse_version s true)
unfolding is_digit
parse_form-digit c s h =
    let code : (c ≢ b'*') × (c ≢ b'^') × (c ≢ b'~') = (ground arith, ground arith, ground arith) in
    let op : (c ≢ b'>') × (c ≢ b'<') × (c ≢ b'=') = (ground arith, ground arith, ground arith) in
    unfold parse_form in ground arith

parse_range_lem :
    (s : Text) → parse_range s ≡ parse_form (peek (eat_whitespace s)) (eat_whitespace s)
unfolding parse_range
parse_range_lem s = refl

parse_range-digit :
    (s : Text)
    → is_digit (peek s) ≡ true
    → parse_range s ≡ range_from plain_range (parse_version s true)
parse_range-digit s h =
    rw (parse_range_lem s, eat_whitespace-digit s h) (parse_form-digit (peek s) s h)

module _ {fmt_u32 : ℕ → Text} (spec : IsDecimal fmt_u32) where
  eat_whitespace-fmt :
      (n : ℕ) (rest : Text) → n ≤ u32_max → eat_whitespace (fmt_u32 n ++ rest) ≡ fmt_u32 n ++ rest
  eat_whitespace-fmt n rest fits = eat_whitespace-digit _ (peek-fmt spec n rest fits)

  -- A printed version is read back whole, with all three components.
  pub parse_version-to_str :
      (v : Semver) (allow : Bool)
      → IsU32 v
      → parse_version (semver_to_str fmt_u32 v) allow
        ≡ some (version_text (parsed_of v.major v.minor v.patch true true true) false [])
  unfolding parse_version semver_to_str is_digit
  parse_version-to_str v allow fits =
      let minor_text = b'.' ∷ (fmt_u32 v.minor ++ (b'.' ∷ fmt_u32 v.patch)) in
      ground (
        arith,
        parse_component-fmt spec v.major minor_text fits.major_fits refl,
        parse_component-fmt spec v.minor (b'.' ∷ fmt_u32 v.patch) fits.minor_fits refl,
        parse_component-fmt_end spec v.patch fits.patch_fits,
        peek-fmt spec v.minor (b'.' ∷ fmt_u32 v.patch) fits.minor_fits,
        fmt-eq_cons spec v.patch fits.patch_fits,
      )

  -- The print of a version begins with a digit and is read whole.
  pub eat_whitespace-to_str :
      (v : Semver) → IsU32 v → eat_whitespace (semver_to_str fmt_u32 v) ≡ semver_to_str fmt_u32 v
  unfolding semver_to_str
  eat_whitespace-to_str v fits = eat_whitespace-fmt v.major _ fits.major_fits

  abbrev pub ReadsBack : SemverRange → Type 0
  ReadsBack range = parse_range (range_to_str fmt_u32 range) ≡ (spn_ok, some range)

  range_to_str-caret :
      (p : SemverParsed)
      → range_to_str fmt_u32 (caret_to_range p) ≡ b'^' ∷ semver_to_str fmt_u32 p.version
  unfolding range_to_str caret_to_range
  range_to_str-caret p = ground arith

  pub caret-ReadsBack : (p : SemverParsed) → IsU32 p.version → ReadsBack (caret_to_range p)
  unfolding parse_range
  caret-ReadsBack p fits = rw (range_to_str-caret p) (
      ground
        (arith, eat_whitespace-to_str p.version fits, parse_version-to_str p.version false fits))

  -- `~N` is printed without the components that it does not fix.
  range_to_str-tilde_major :
      (p : SemverParsed)
      → IsParsed p
      → p.components.has_minor ≡ false
      → range_to_str fmt_u32 (tilde_to_range p) ≡ b'~' ∷ fmt_u32 p.version.major
  unfolding range_to_str tilde_to_range
  range_to_str-tilde_major p h e = ground arith

  range_to_str-tilde_minor :
      (p : SemverParsed)
      → p.components.has_minor ≡ true
      → range_to_str fmt_u32 (tilde_to_range p) ≡ b'~' ∷ semver_to_str fmt_u32 p.version
  unfolding range_to_str tilde_to_range
  range_to_str-tilde_minor p e = ground arith

  parse_version-fmt :
      (n : ℕ)
      → n ≤ u32_max
      → parse_version (fmt_u32 n) false
        ≡ some (version_text (parsed_of n 0 0 true false false) false [])
  unfolding parse_version
  parse_version-fmt n fits = rw (parse_component-fmt_end spec n fits, parse_version) refl

  tilde_major-ReadsBack :
      (p : SemverParsed)
      → IsParsed p
      → p.components.has_minor ≡ false
      → ReadsBack (tilde_to_range p)
  unfolding parse_range tilde_to_range
  tilde_major-ReadsBack p h e =
      let clean = eat_whitespace-fmt p.version.major [] h.fits.major_fits in
      rw (range_to_str-tilde_major p h e) (
        ground (
          arith,
          rw (append-nil (fmt_u32 p.version.major)) at clean,
          parse_version-fmt p.version.major h.fits.major_fits,
        ))

  tilde_minor-ReadsBack :
      (p : SemverParsed) → IsParsed p → p.components.has_minor ≡ true → ReadsBack (tilde_to_range p)
  unfolding parse_range tilde_to_range
  tilde_minor-ReadsBack p h e = rw (range_to_str-tilde_minor p e) (
      ground (
        arith,
        eat_whitespace-to_str p.version h.fits,
        parse_version-to_str p.version false h.fits,
      ))

  pub tilde-ReadsBack : (p : SemverParsed) → IsParsed p → ReadsBack (tilde_to_range p)
  tilde-ReadsBack p h = elim (Bool-cases p.components.has_minor) [
    | inl e ↦ tilde_minor-ReadsBack p h e
    | inr e ↦ tilde_major-ReadsBack p h e
  ]

  pub star-ReadsBack : ReadsBack (wildcard_to_range parsed_zero)
  unfolding parse_range range_to_str wildcard_to_range
  star-ReadsBack = refl

  range_to_str-wildcard_major :
      (p : SemverParsed)
      → IsParsed p
      → p.components.has_minor ≡ false
      → range_to_str fmt_u32 (wildcard_to_range p) ≡ fmt_u32 p.version.major ++ (b'.' ∷ b'*' ∷ [])
  unfolding range_to_str wildcard_to_range
  range_to_str-wildcard_major p h e = ground arith

  range_to_str-wildcard_minor :
      (p : SemverParsed)
      → IsParsed p
      → p.components.has_minor ≡ true
      → range_to_str fmt_u32 (wildcard_to_range p)
        ≡ fmt_u32 p.version.major ++ (b'.' ∷ (fmt_u32 p.version.minor ++ (b'.' ∷ b'*' ∷ [])))
  unfolding range_to_str wildcard_to_range
  range_to_str-wildcard_minor p h e = ground arith

  -- A text that begins with a digit is read as a version that may end in `*`.
  parse_range-fmt :
      (n : ℕ) (rest : Text) (t : VersionText)
      → n ≤ u32_max
      → parse_version (fmt_u32 n ++ rest) true ≡ some t
      → parse_range (fmt_u32 n ++ rest)
        ≡ finish_range
            (if t.wildcard then wildcard_to_range t.parsed else caret_to_range t.parsed)
            t.rest
  parse_range-fmt n rest t fits e =
      parse_range-digit (fmt_u32 n ++ rest) (peek-fmt spec n rest fits)
      ∙ ap (range_from plain_range) e
      ∙ range_from-some t

  parse_version-wildcard_major :
      (n : ℕ)
      → n ≤ u32_max
      → parse_version (fmt_u32 n ++ (b'.' ∷ b'*' ∷ [])) true
        ≡ some (version_text (parsed_of n 0 0 true false false) true [])
  unfolding parse_version is_digit
  parse_version-wildcard_major n fits =
      rw (parse_component-fmt spec n (b'.' ∷ b'*' ∷ []) fits refl, parse_version) refl

  parse_version-wildcard_minor :
      (n m : ℕ)
      → n ≤ u32_max
      → m ≤ u32_max
      → parse_version (fmt_u32 n ++ (b'.' ∷ (fmt_u32 m ++ (b'.' ∷ b'*' ∷ [])))) true
        ≡ some (version_text (parsed_of n m 0 true true false) true [])
  unfolding parse_version is_digit
  parse_version-wildcard_minor n m fits fits' = ground (
    arith,
    parse_component-fmt spec n (b'.' ∷ (fmt_u32 m ++ (b'.' ∷ b'*' ∷ []))) fits refl,
    parse_component-fmt spec m (b'.' ∷ b'*' ∷ []) fits' refl,
    peek-fmt spec m (b'.' ∷ b'*' ∷ []) fits',
  )

  pub wildcard-ReadsBack : (p : SemverParsed) → IsParsed p → ReadsBack (wildcard_to_range p)
  unfolding finish_range wildcard_to_range
  wildcard-ReadsBack p h = elim (Bool-cases p.components.has_minor) [
    | inl e ↦
        rw
          (
            range_to_str-wildcard_minor p h e,
            parse_range-fmt p.version.major _ _ h.fits.major_fits (
                parse_version-wildcard_minor p.version.major p.version.minor h.fits.major_fits
                  h.fits.minor_fits),
          )
          (ground arith)
    | inr e ↦
        rw
          (
            range_to_str-wildcard_major p h e,
            parse_range-fmt p.version.major _ _ h.fits.major_fits
                (parse_version-wildcard_major p.version.major h.fits.major_fits),
          )
          (ground arith)
  ]
