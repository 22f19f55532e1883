-- ===== src/Paths/Normal.antt =====
-- What `spn_path_normal` of source/core/paths/paths.c accepts.
use mathlib.Core.Path.{subst}
use spn.Base.{
  ℕ, ◌≡◌, ◌≢◌, ◌↔◌, ◌⊎◌, inl, inr, refl, sym, ap, true, List, [], ◌∷◌, ◌++◌, ◌==◌, if◌then◌else◌,
  arith, Bool-cases, All, append_assoc, append-nil,
}
use spn.Base.Texts.{Bytes}
use spn.Paths.{seg_normal, normal_from, path_normal}

-- The byte put in front of the first part.
abbrev pub onto_first : Bytes → List Bytes → List Bytes
onto_first front [] = front ∷ []
onto_first front (part ∷ parts) = (front ++ part) ∷ parts

-- The parts of a text between its slashes.
unfoldable pub slash_parts : Bytes → List Bytes
slash_parts [] = [] ∷ []
slash_parts (c ∷ s) = if c == b'/' then [] ∷ slash_parts s else onto_first (c ∷ []) (slash_parts s)

-- Neither empty, nor `.`, nor `..`.
abbrev pub IsEntry : Bytes → Type 0
IsEntry part = (part ≢ []) × (part ≢ b'.' ∷ []) × (part ≢ b'.' ∷ b'.' ∷ [])

-- A path without the slash that it may begin with.
unfoldable pub relative : Bytes → Bytes
relative [] = []
relative (c ∷ s) = if c == b'/' then s else c ∷ s

seg_normal_iff : (seg : Bytes) → (seg_normal seg ≡ true) ↔ IsEntry seg
unfolding seg_normal
seg_normal_iff [] = ground arith
seg_normal_iff (a ∷ []) = ground arith
seg_normal_iff (a ∷ b ∷ []) = ground arith
seg_normal_iff (a ∷ b ∷ c ∷ rest) = ground arith

onto_first-nil : (s : Bytes) → onto_first [] (slash_parts s) ≡ slash_parts s
unfolding slash_parts
onto_first-nil [] = refl
onto_first-nil (c ∷ s) = elim (Bool-cases (c == b'/')) [
  | inl e ↦ rw e
  | inr e ↦ rw e (front (c ∷ []) (slash_parts s))
]
  where
    front :
        (a : Bytes) (parts : List Bytes) → onto_first [] (onto_first a parts) ≡ onto_first a parts
    front a [] = refl
    front a (part ∷ parts) = refl

onto_first-append :
    (seg : Bytes) (c : ℕ) (parts : List Bytes)
    → onto_first seg (onto_first (c ∷ []) parts) ≡ onto_first (seg ++ c ∷ []) parts
onto_first-append seg c [] = refl
onto_first-append seg c (part ∷ parts) = ap (λ p. p ∷ parts) (sym (append_assoc seg (c ∷ []) part))

-- The loop with the segment so far.
normal_from_iff :
    (seg path : Bytes)
    → (normal_from seg path ≡ true) ↔ All IsEntry (onto_first seg (slash_parts path))
unfolding normal_from slash_parts
normal_from_iff seg [] = rw (append-nil seg) (ground (arith, seg_normal_iff seg))
normal_from_iff seg (c ∷ path) = elim (Bool-cases (c == b'/')) [
  | inl e ↦
      rw (e, normal_from, append-nil seg)
        (ground (arith, seg_normal_iff seg, normal_from_iff [] path, onto_first-nil path))
  | inr e ↦
      rw (e, normal_from, onto_first-append seg c (slash_parts path))
        (normal_from_iff (seg ++ c ∷ []) path)
]

normal_whole : (path : Bytes) → (normal_from [] path ≡ true) ↔ All IsEntry (slash_parts path)
normal_whole path =
    subst (λ parts. (normal_from [] path ≡ true) ↔ All IsEntry parts) (onto_first-nil path)
      (normal_from_iff [] path)

-- A path is normal exactly if it is empty or the root, or each part between its slashes, after the
-- one that it may begin with, is neither empty nor `.` nor `..`.
pub path_normal_iff :
    (path : Bytes)
    → (path_normal path ≡ true)
      ↔ ((path ≡ []) ⊎ (path ≡ b'/' ∷ []) ⊎ All IsEntry (slash_parts (relative path)))
unfolding path_normal relative
path_normal_iff [] = ground arith
path_normal_iff (c ∷ []) = ground (arith, normal_whole (c ∷ []))
path_normal_iff (c ∷ d ∷ path) =
    ground (arith, normal_whole (d ∷ path), normal_whole (c ∷ d ∷ path))
