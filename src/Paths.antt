-- ===== src/Paths.antt =====
-- source/core/paths/paths.c: paths under a named root. A text is a list of bytes. What opens,
-- canonicalises or joins directories on disk is not modelled.
pub mod Within
pub mod Normal
pub mod Longest
mod Tests
use spn.Base.{
  ℕ, zero, suc, ◌+◌, ◌≤◌, ◌^◌, Bool, true, false, not, ◌&&◌, ◌||◌, List, [], ◌∷◌, ◌++◌, ◌==◌,
  length, ltb, leb, if◌then◌else◌, Option, none, some, u32,
}
use spn.Base.Texts.{Bytes, is_empty, text_eq, strip_prefix}

-- `spn_path_root_t`: its number, where `root_none` is the root of an absolute path.
abbrev pub Root : Type 0
Root = ℕ

abbrev pub root_none : Root
root_none = 0

abbrev pub root_count : ℕ
root_count = 10

pub record FilePath : Type 0 where
  pub root : Root
  pub sub : Bytes

unfoldable pub path_empty : FilePath → Bool
path_empty path = path.root == root_none && is_empty path.sub

unfoldable pub path_equal : FilePath → FilePath → Bool
path_equal a b = a.root == b.root && text_eq a.sub b.sub

-- `spn_path_rel_t`, which is zero where the path does not lie within the base.
pub record PathRel : Type 0 where
  pub within : Bool
  pub sub : Bytes

abbrev pub outside : PathRel
outside = record { within = false; sub = [] }

-- What follows the base's text in the path's.
unfoldable pub within_after : Bytes → PathRel
within_after [] = record { within = true; sub = [] }
within_after (c ∷ rest) = if not (c == b'/') then outside else record { within = true; sub = rest }

abbrev pub within_rest : Option Bytes → PathRel
unfolding within_after
within_rest none = outside
within_rest (some rest) = within_after rest

unfoldable pub path_within : FilePath → FilePath → PathRel
unfolding within_after
path_within base path =
    if not (base.root == path.root)
    then outside
    else if is_empty base.sub
    then record { within = not (base.root == root_none); sub = path.sub }
    else within_rest (strip_prefix base.sub path.sub)

-- A directory that is the path or stands above it.
unfoldable pub root_match : Bytes → Bytes → Bool
root_match dir path = elim (strip_prefix dir path) [
  | none ↦ false
  | some [] ↦ true
  | some (c ∷ rest) ↦ c == b'/'
]

-- The loop of `root_longest` from the root `it` on, with the best root and its length so far.
unfoldable pub longest_from : Bytes → Root → List Bytes → Root → ℕ → Root
longest_from str it [] best longest = best
longest_from str it (dir ∷ dirs) best longest =
    elim (ltb longest (length dir) && root_match dir str) [
      | true ↦ longest_from str (it + 1) dirs it (length dir)
      | false ↦ longest_from str (it + 1) dirs best longest
    ]

unfoldable pub root_longest : List Bytes → Bytes → Root
unfolding longest_from
root_longest dirs str = longest_from str 0 dirs root_none 0

-- The loop of `spn_path_roots_intersect`, which starts after the first root.
unfoldable pub any_below : List Bytes → Bytes → Bool
any_below [] dir = false
any_below (root ∷ dirs) dir =
    if not (is_empty root) && root_match dir root then true else any_below dirs dir

unfoldable pub roots_intersect : List Bytes → Bytes → Bool
unfolding any_below
roots_intersect [] dir = false
roots_intersect (none_dir ∷ dirs) dir = any_below dirs dir

-- A segment is neither empty nor one of `.` and `..`.
unfoldable pub seg_normal : Bytes → Bool
seg_normal [] = false
seg_normal (a ∷ []) = not (a == b'.')
seg_normal (a ∷ b ∷ []) = not (a == b'.' && b == b'.')
seg_normal (a ∷ b ∷ c ∷ rest) = true

-- The loop of `spn_path_normal`, with the bytes since `start`.
unfoldable pub normal_from : Bytes → Bytes → Bool
normal_from seg [] = seg_normal seg
normal_from seg (c ∷ rest) = elim (not (c == b'/')) [
  | true ↦ normal_from (seg ++ c ∷ []) rest
  | false ↦ if not (seg_normal seg) then false else normal_from [] rest
]

unfoldable pub path_normal : Bytes → Bool
unfolding normal_from
path_normal [] = true
path_normal (c ∷ rest) =
    if c == b'/'
    then (if is_empty rest then true else normal_from [] rest)
    else normal_from [] (c ∷ rest)
