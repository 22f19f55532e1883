-- ===== src/Rsp/Gnu.antt =====
-- A GNU response file of source/core/compiler/rsp.c, read again.
use spn.Base.{
  ◌≡◌, refl, sym, false, [], ◌∷◌, ◌++◌, append_assoc, append-nil, ◌==◌, arith, Bool-cases, inl, inr,
  ◌||◌,
}
use spn.Rsp.{Text, style_gnu, has_special, needs_quotes, quoted_gnu, write_arg}
use spn.Rsp.Readers.{gnu_between, gnu_word, gnu_quoted, read_gnu}

-- A part that was written in quotes.
read-quoted_gnu :
    (arg s rest : Text)
    → read_gnu (gnu_quoted arg) (quoted_gnu s ++ rest) ≡ read_gnu (gnu_word (arg ++ s)) rest
unfolding read_gnu quoted_gnu
read-quoted_gnu arg [] rest = rw (append-nil arg) refl
read-quoted_gnu arg (c ∷ s) rest = elim (Bool-cases (c == b'\\' || c == b'"')) [
  | inl e ↦ rw (e, sym (append_assoc arg (c ∷ []) s)) (read-quoted_gnu (arg ++ c ∷ []) s rest)
  | inr e ↦ ground (arith, read-quoted_gnu (arg ++ c ∷ []) s rest, append_assoc arg (c ∷ []) s)
]

-- A part that needs no quotes, up to the end of the line.
read-bare_gnu :
    (arg s rest : Text)
    → has_special style_gnu s ≡ false
    → read_gnu (gnu_word arg) (s ++ 10 ∷ rest) ≡ (arg ++ s) ∷ read_gnu gnu_between rest
unfolding read_gnu has_special
read-bare_gnu arg [] rest plain = rw (append-nil arg) refl
read-bare_gnu arg (c ∷ s) rest plain =
    ground (arith, read-bare_gnu (arg ++ c ∷ []) s rest, append_assoc arg (c ∷ []) s)

pub read-write_arg_gnu :
    (arg rest : Text)
    → read_gnu gnu_between (write_arg style_gnu arg ++ 10 ∷ rest) ≡ arg ∷ read_gnu gnu_between rest
unfolding read_gnu write_arg has_special
read-write_arg_gnu [] rest = refl
read-write_arg_gnu (c ∷ s) rest = elim (Bool-cases (needs_quotes style_gnu (c ∷ s))) [
  | inl e ↦ rw e (read-quoted_gnu [] (c ∷ s) (10 ∷ rest))
  | inr e ↦ ground (arith, read-bare_gnu (c ∷ []) s rest)
]
