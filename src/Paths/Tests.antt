-- ===== src/Paths/Tests.antt =====
-- Paths within one another, normal paths and the longest root, at concrete texts.
use spn.Base.{◌≡◌, ◌↔◌, ◌⊎◌, ◌∷◌, ◌++◌, [], List, true, refl}
use spn.Base.Texts.{Bytes}
use spn.Base.{All}
use spn.Paths.{FilePath, root_none, path_within, path_normal, root_longest, roots_intersect}
use spn.Paths.Normal.{IsEntry, slash_parts, relative, path_normal_iff}
use spn.Paths.Longest.{NoLonger, Chosen, root_longest_lem}
use spn.Paths.Within.{Leads, path_within_iff}

abbrev a_b : Bytes
a_b = b'a' ∷ b'/' ∷ b'b' ∷ []

abbrev base : FilePath
base = record { root = 3; sub = b'a' ∷ [] }

abbrev below : FilePath
below = record { root = 3; sub = a_b }

abbrev dirs : List Bytes
dirs = [] ∷ (b'a' ∷ []) ∷ a_b ∷ []

abbrev a_b_c : Bytes
a_b_c = a_b ++ b'/' ∷ b'c' ∷ []

longest_root : root_longest dirs a_b_c ≡ 2
unfolding root_longest spn.Base.Texts.strip_prefix spn.Paths.root_match
longest_root = refl

path_within_iff_example :
    (path_within base below ≡ record { within = true; sub = b'b' ∷ [] })
    ↔ ((base.root ≡ below.root) × Leads 3 (b'a' ∷ []) a_b (b'b' ∷ []))
path_within_iff_example = path_within_iff base below (b'b' ∷ [])

path_normal_iff_example :
    (path_normal a_b ≡ true)
    ↔ ((a_b ≡ []) ⊎ (a_b ≡ b'/' ∷ []) ⊎ All IsEntry (slash_parts (relative a_b)))
path_normal_iff_example = path_normal_iff a_b

root_longest_lem_example :
    ((root_longest dirs a_b_c ≡ root_none) × All (NoLonger a_b_c 0) dirs)
    ⊎ Chosen a_b_c 0 dirs 0 (root_longest dirs a_b_c)
root_longest_lem_example = root_longest_lem dirs a_b_c
