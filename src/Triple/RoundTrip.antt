-- ===== src/Triple/RoundTrip.antt =====
-- Exactly the texts that a triple is written as are read, in source/core/triple/triple.c.
use Prim.Native.Char.{Char, code}
use Prim.Native.String.append
use Prim.Native.String.{◌++◌ as append}
use mathlib.Core.Path.{subst}
use mathlib.Core.Option.{some-injective}
use text.Mathlib.TextEquality.{Char-path}
use spn.Base.{
  ℕ, zero, suc, ◌≤◌, length, String, Bool, true, false, not, ◌&&◌, ◌||◌, List, [], ◌∷◌, Option,
  none, some, ◌≡◌, ◌≢◌, ◌↔◌, inl, inr, refl, sym, ap, ◌∙◌, arith, ◌==◌, ==_iff, Bool-cases,
  Option-cases,
}
use spn.Enum.Platform.{
  arch_none, arch_to_str, arch_from_str, os_none, os_to_str, os_from_str, abi_none, abi_to_str,
  abi_from_str,
}
use spn.Enum.PlatformNames.{Arch-IsExact, Os-IsExact, Abi-IsExact}
use spn.Triple.{Triple, arch_eq, os_eq, abi_eq, triple_equal}
use spn.Triple.Listed.{
  arch_eq_iff, os_eq_iff, abi_eq_iff, triple_equal_iff, all_triples, all_triples_sound,
}
use spn.Triple.Parse.{str_empty, cut, segments, parse_arch, triple_parse, dash, triple_to_str}

-- The triples that are written in full up to their last part: a machine, and a system if there is
-- an ABI.
pub record IsWritten (t : Triple) : Type 0 where
  pub machine : t.arch ≢ arch_none
  pub system : t.os ≡ os_none → t.abi ≡ abi_none

-- The text of some segments.
join : List String → String
join [] = ""
join (s ∷ []) = s
join (s ∷ t ∷ rest) = dash s (join (t ∷ rest))

join_with : String → Option String → String
join_with s none = s
join_with s (some rest) = dash s rest

-- A character before the cut stands before the whole.
join_with-cons :
    (c : Char) (s : String) (rest : Option String)
    → join_with (String.◌∷◌ c s) rest ≡ String.◌∷◌ c (join_with s rest)
unfolding join_with
join_with-cons c s none = refl
join_with-cons c s (some rest) = append.cons c s (append "-" rest)

join_with_dash :
    (c : Char) (s : String) → (code c == b'-') ≡ true → join_with "" (some s) ≡ String.◌∷◌ c s
unfolding join_with
join_with_dash c s e =
    append.nil (append "-" s)
    ∙ append.cons "-" "" s
    ∙ ap (λ t. String.◌∷◌ "-" t) (append.nil s)
    ∙ ap (λ (d : Char). String.◌∷◌ d s) (Char-path "-" c (sym ((==_iff (code c) b'-').0 e)))

-- A text is its first segment with what follows it.
join_with-cut : (s : String) → join_with (cut s).0 (cut s).1 ≡ s
unfolding cut
join_with-cut String.[] = unfold join_with in refl
join_with-cut (String.◌∷◌ c s) = elim (Bool-cases (code c == b'-')) [
  | inl e ↦ rw e (join_with_dash c s e)
  | inr e ↦ rw e (join_with-cons c (cut s).0 (cut s).1 ∙ ap (λ t. String.◌∷◌ c t) (join_with-cut s))
]

-- The text is `found` joined; `found` has a part and at most `room`.
record Joins (room : ℕ) (s : String) (found : List String) : Type 0 where
  joined : join found ≡ s
  some_part : found ≢ []
  within : length found ≤ room

join-cons : (s : String) (found : List String) → found ≢ [] → join (s ∷ found) ≡ dash s (join found)
unfolding join
join-cons s [] some_part = absurd (some_part refl)
join-cons s (t ∷ rest) some_part = refl

Joins-last : (room : ℕ) (s : String) → (cut s).1 ≡ none → Joins (suc room) s ((cut s).0 ∷ [])
unfolding join join_with
Joins-last room s last = record {
  joined = (rw last at (join_with-cut s));
  some_part = λ h. cc;
  within = omega arith;
}

Joins-more :
    (room : ℕ) (s rest : String) (others : List String)
    → (cut s).1 ≡ some rest
    → Joins room rest others
    → Joins (suc room) s ((cut s).0 ∷ others)
unfolding join_with
Joins-more room s rest others more j = record {
  joined =
      join-cons (cut s).0 others j.some_part
      ∙ ap (λ t. dash (cut s).0 t) j.joined
      ∙ (rw more at (join_with-cut s));
  some_part = λ h. cc;
  within = omega (arith, j.within);
}

-- What the loop reads is joined to the text again.
Joins-segments :
    (room : ℕ) (s : String) (found : List String)
    → segments room s ≡ some found
    → Joins room s found
unfolding segments
Joins-segments zero s found h = cc
Joins-segments (suc room) s found h = elim (Bool-cases (str_empty (cut s).0)) [
  | inl e ↦ cc (rw e at h)
  | inr e ↦ elim (Option-cases (cut s).1) [
    | inl last ↦
        subst (λ l. Joins (suc room) s l) (some-injective _ _ (rw (e, last) at h))
          (Joins-last room s last)
    | inr (rest, more) ↦ elim (Option-cases (segments room rest)) [
      | inl bad ↦ cc (rw (e, more, bad) at h)
      | inr (others, good) ↦
          subst (λ l. Joins (suc room) s l) (some-injective _ _ (rw (e, more, good) at h))
            (Joins-more room s rest others more (Joins-segments room rest others good))
    ]
  ]
]

-- A name that is read is written as it was.
arch_exact : (s : String) → arch_from_str s ≢ arch_none → arch_to_str (arch_from_str s) ≡ s
arch_exact s known = elim (Arch-IsExact.only s (arch_from_str s) refl) [
  | inl unknown ↦ absurd (known unknown)
  | inr e ↦ some-injective _ _ e
]

os_exact : (s : String) → os_from_str s ≢ os_none → os_to_str (os_from_str s) ≡ s
os_exact s known = elim (Os-IsExact.only s (os_from_str s) refl) [
  | inl unknown ↦ absurd (known unknown)
  | inr e ↦ some-injective _ _ e
]

abi_exact : (s : String) → abi_from_str s ≢ abi_none → abi_to_str (abi_from_str s) ≡ s
abi_exact s known = elim (Abi-IsExact.only s (abi_from_str s) refl) [
  | inl unknown ↦ absurd (known unknown)
  | inr e ↦ some-injective _ _ e
]

-- The segments of a triple that is read are its parts.
parse_arch_lem :
    (found : List String) (t : Triple)
    → parse_arch found ≡ some t
    → length found ≤ 3
    → IsWritten t × (triple_to_str t ≡ join found)
unfolding parse_arch triple_to_str join
parse_arch_lem [] t h few = cc
parse_arch_lem (a ∷ []) t h few = ground (
  arith,
  arch_exact a,
  arch_eq_iff (arch_from_str a) arch_none,
  os_eq_iff os_none os_none,
  abi_eq_iff abi_none abi_none,
)
parse_arch_lem (a ∷ o ∷ []) t h few = ground (
  arith,
  arch_exact a,
  os_exact o,
  arch_eq_iff (arch_from_str a) arch_none,
  os_eq_iff (os_from_str o) os_none,
  abi_eq_iff abi_none abi_none,
)
parse_arch_lem (a ∷ o ∷ b ∷ []) t h few = ground (
  arith,
  arch_exact a,
  os_exact o,
  abi_exact b,
  arch_eq_iff (arch_from_str a) arch_none,
  os_eq_iff (os_from_str o) os_none,
  abi_eq_iff (abi_from_str b) abi_none,
)
parse_arch_lem (a ∷ o ∷ b ∷ c ∷ rest) t h few = absurd (omega arith)

agrees : Option Triple → Triple → Bool
agrees none t = false
agrees (some u) t = triple_equal u t

is_written : Triple → Bool
is_written t = not (arch_eq t.arch arch_none) && (not (os_eq t.os os_none) || abi_eq t.abi abi_none)

is_written_iff : (t : Triple) → (is_written t ≡ true) ↔ IsWritten t
unfolding is_written
is_written_iff t =
    ground (arith, arch_eq_iff t.arch arch_none, os_eq_iff t.os os_none, abi_eq_iff t.abi abi_none)

every_text :
    all_triples (λ t. not (is_written t) || agrees (triple_parse (triple_to_str t)) t) ≡ true
unfolding is_written agrees triple_parse triple_to_str triple_equal segments arch_to_str os_to_str
    abi_to_str arch_from_str os_from_str abi_from_str arch_eq os_eq abi_eq
every_text = refl

agrees_sound : (o : Option Triple) (t : Triple) → agrees o t ≡ true → o ≡ some t
unfolding agrees
agrees_sound none t h = cc
agrees_sound (some u) t h = ap some ((triple_equal_iff u t).0 h)

triple_parse-to_str : (t : Triple) → IsWritten t → triple_parse (triple_to_str t) ≡ some t
triple_parse-to_str t w = agrees_sound (triple_parse (triple_to_str t)) t (
    rw ((is_written_iff t).1 w) at (
      all_triples_sound (λ t. not (is_written t) || agrees (triple_parse (triple_to_str t)) t) t
        every_text))

triple_parse-IsWritten :
    (s : String) (t : Triple) → triple_parse s ≡ some t → IsWritten t × (triple_to_str t ≡ s)
unfolding triple_parse
triple_parse-IsWritten s t h = elim (Option-cases (segments 3 s)) [
  | inl bad ↦ cc (rw (bad, triple_parse) at h)
  | inr (found, good) ↦
      let j = Joins-segments 3 s found good in
      let (w, e) = parse_arch_lem found t (rw (good, triple_parse) at h) j.within in
      (w, e ∙ j.joined)
]

-- A text is read as a triple exactly if the triple is written as that text, names a machine, and
-- names a system if it names an ABI.
pub triple_parse_iff :
    (s : String) (t : Triple) → (triple_parse s ≡ some t) ↔ (IsWritten t × (triple_to_str t ≡ s))
triple_parse_iff s t = (
  triple_parse-IsWritten s t,
  λ (w, e). subst (λ u. triple_parse u ≡ some t) e (triple_parse-to_str t w),
)
