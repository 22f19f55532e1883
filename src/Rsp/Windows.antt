-- ===== src/Rsp/Windows.antt =====
-- A Windows response file of source/core/compiler/rsp.c, read again.
use spn.Base.{
  ℕ, zero, suc, ◌+◌, ◌*◌, ◌/◌, ◌%◌, ◌<◌, ◌^◌, ◌≡◌, refl, sym, ◌∙◌, false, [], ◌∷◌, ◌++◌,
  append_assoc, append-nil, ◌==◌, arith, Bool-cases, inl, inr, ap, length, u32,
}
use spn.Rsp.{
  Text, style_windows, is_space, has_special, needs_quotes, quoted_windows, write_quoted_windows,
  write_arg, backslashes,
}
use spn.Rsp.Readers.{windows_between, windows_word, windows_quoted, read_windows}

backslashes-read :
    (arg : Text) (n k : ℕ) (rest : Text)
    → read_windows (windows_quoted arg n) (backslashes k ++ rest)
      ≡ read_windows (windows_quoted arg (n + k)) rest
unfolding read_windows
backslashes-read arg n zero rest = ground arith
backslashes-read arg n (suc k) rest = ground (arith, backslashes-read arg (n + 1) k rest)

held-read :
    (arg : Text) (k : ℕ) (rest : Text)
    → read_windows (windows_quoted arg 0) (backslashes k ++ rest)
      ≡ read_windows (windows_quoted arg k) rest
held-read arg k rest =
    let whole : 0 + k ≡ k = omega arith in rw whole at (backslashes-read arg 0 k rest)

backslashes_suc : (k : ℕ) (s : Text) → backslashes (k + 1) ++ s ≡ backslashes k ++ b'\\' ∷ s
backslashes_suc zero s = refl
backslashes_suc (suc k) s = ground (arith, backslashes_suc k s)

-- A quote after an even and after an odd number of backslashes.
even_quote :
    (arg : Text) (k : ℕ) (rest : Text)
    → read_windows (windows_quoted arg (k * 2)) (b'"' ∷ rest)
      ≡ read_windows (windows_word (arg ++ backslashes k) 0) rest
unfolding read_windows
even_quote arg k rest =
    let even : k * 2 % 2 ≡ 0 = omega arith in
    let half : k * 2 / 2 ≡ k = omega arith in rw (even, half) refl

odd_quote :
    (arg : Text) (k : ℕ) (rest : Text)
    → read_windows (windows_quoted arg (k * 2 + 1)) (b'"' ∷ rest)
      ≡ read_windows (windows_quoted (arg ++ backslashes k ++ b'"' ∷ []) 0) rest
unfolding read_windows
odd_quote arg k rest =
    let odd : (k * 2 + 1) % 2 ≡ 1 = omega arith in
    let half : (k * 2 + 1) / 2 ≡ k = omega arith in rw (odd, half) refl

other_char :
    (arg : Text) (k c : ℕ) (rest : Text)
    → (c == b'\\') ≡ false
    → (c == b'"') ≡ false
    → read_windows (windows_quoted arg k) (c ∷ rest)
      ≡ read_windows (windows_quoted (arg ++ backslashes k ++ c ∷ []) 0) rest
unfolding read_windows
other_char arg k c rest e p = rw (e, p) refl

regroup_held :
    (arg : Text) (k : ℕ) (s : Text)
    → arg ++ backslashes (k + 1) ++ s ≡ arg ++ backslashes k ++ b'\\' ∷ s
regroup_held arg k s = simp (append_assoc, backslashes_suc)

regroup :
    (arg : Text) (k c : ℕ) (s : Text)
    → arg ++ backslashes k ++ c ∷ [] ++ backslashes 0 ++ s ≡ arg ++ backslashes k ++ c ∷ s
regroup arg k c s = simp (append_assoc, append-nil)

-- A part that was written in quotes, with `held` backslashes held back.
read-quoted_windows :
    (arg : Text) (held : ℕ) (s rest : Text)
    → held + length s < 2 ^ 31
    → read_windows (windows_quoted arg 0) (quoted_windows held s ++ rest)
      ≡ read_windows (windows_word (arg ++ backslashes held ++ s) 0) rest
unfolding read_windows quoted_windows
read-quoted_windows arg held [] rest fits =
    let whole : u32 (held * 2) ≡ held * 2 = omega (arith, fits) in
    rw
      (
        whole,
        append_assoc (backslashes (held * 2)) (b'"' ∷ []) rest,
        append-nil (arg ++ backslashes held),
      )
      (held-read arg (held * 2) (b'"' ∷ rest) ∙ even_quote arg held rest)
read-quoted_windows arg held (c ∷ s) rest fits = elim (Bool-cases (c == b'\\')) [
  | inl e ↦
      let whole : u32 (held + 1) ≡ held + 1 = omega (arith, fits) in
      let same : c ≡ b'\\' = ground arith in
      rw (same, whole, sym (regroup_held arg held s))
        (read-quoted_windows arg (held + 1) s rest (omega (arith, fits)))
  | inr e ↦ elim (Bool-cases (c == b'"')) [
    | inl q ↦
        let whole : u32 (held * 2 + 1) ≡ held * 2 + 1 = omega (arith, fits) in
        let same : c ≡ b'"' = ground arith in
        rw (same, whole, append_assoc (backslashes (held * 2 + 1)) (b'"' ∷ quoted_windows 0 s) rest)
          (held-read arg (held * 2 + 1) (b'"' ∷ (quoted_windows 0 s ++ rest))
            ∙ odd_quote arg held (quoted_windows 0 s ++ rest)
            ∙ read-quoted_windows (arg ++ backslashes held ++ b'"' ∷ []) 0 s rest
                (omega (arith, fits))
            ∙ ap (λ l. read_windows (windows_word l 0) rest) (regroup arg held b'"' s))
    | inr p ↦
        rw (e, p, append_assoc (backslashes held) (c ∷ quoted_windows 0 s) rest)
          (held-read arg held (c ∷ (quoted_windows 0 s ++ rest))
            ∙ other_char arg held c (quoted_windows 0 s ++ rest) e p
            ∙ read-quoted_windows (arg ++ backslashes held ++ c ∷ []) 0 s rest (omega (arith, fits))
            ∙ ap (λ l. read_windows (windows_word l 0) rest) (regroup arg held c s))
  ]
]

has_special-cons :
    (c : ℕ) (s : Text)
    → has_special style_windows (c ∷ s) ≡ false
    → (is_space c ≡ false) × ((c == b'"') ≡ false) × (has_special style_windows s ≡ false)
unfolding has_special
has_special-cons c s h = (ground arith, ground arith, ground arith)

has_special-needs :
    (c : ℕ) (s : Text)
    → needs_quotes style_windows (c ∷ s) ≡ false
    → has_special style_windows (c ∷ s) ≡ false
unfolding needs_quotes
has_special-needs c s h = ground arith

-- A part that needs no quotes, up to the end of the line.
read-bare_windows :
    (arg : Text) (held : ℕ) (s rest : Text)
    → has_special style_windows s ≡ false
    → read_windows (windows_word arg held) (s ++ 10 ∷ rest)
      ≡ (arg ++ backslashes held ++ s) ∷ read_windows windows_between rest
unfolding read_windows has_special
read-bare_windows arg held [] rest plain = rw (append-nil (arg ++ backslashes held)) refl
read-bare_windows arg held (c ∷ s) rest plain = elim (Bool-cases (c == b'\\')) [
  | inl e ↦
      let same : c ≡ b'\\' = ground arith in
      rw (same, sym (regroup_held arg held s))
        (read-bare_windows arg (held + 1) s rest (ground arith))
  | inr e ↦
      let (word, quote, more) = has_special-cons c s plain in
      rw (word, e, quote)
        (read-bare_windows (arg ++ backslashes held ++ c ∷ []) 0 s rest more
          ∙ ap (λ l. l ∷ read_windows windows_between rest) (regroup arg held c s))
]

pub read-write_arg_windows :
    (arg rest : Text)
    → length arg < 2 ^ 31
    → read_windows windows_between (write_arg style_windows arg ++ 10 ∷ rest)
      ≡ arg ∷ read_windows windows_between rest
unfolding read_windows write_arg write_quoted_windows has_special
read-write_arg_windows [] rest fits = refl
read-write_arg_windows (c ∷ s) rest fits = elim (Bool-cases (needs_quotes style_windows (c ∷ s))) [
  | inl e ↦ rw e (
      read-quoted_windows [] 0 (c ∷ s) (10 ∷ rest) (omega (arith, fits))
      ∙ ap (λ l. l ∷ read_windows windows_between rest) (append-nil (c ∷ s)))
  | inr e ↦
      let plain = has_special-needs c s e in
      let (word, quote, more) = has_special-cons c s plain in
      elim (Bool-cases (c == b'\\')) [
        | inl b ↦
            let same : c ≡ b'\\' = ground arith in rw (e, same) (read-bare_windows [] 1 s rest more)
        | inr o ↦ rw (e, word, o, quote) (read-bare_windows (c ∷ []) 0 s rest more)
      ]
]
