-- ===== src/Paths/Longest.antt =====
-- What `root_match` and `root_longest` of source/core/paths/paths.c choose.
use spn.Base.{
  ℕ, ◌+◌, ◌≤◌, ◌<◌, ◌≡◌, ◌↔◌, ◌⊎◌, inl, inr, true, false, List, [], ◌∷◌, ◌++◌, length, ltb, ◌&&◌,
  arith, All, Bool-cases, Option-cases, append-nil, refl, ap,
}
use spn.Base.Texts.{Bytes, strip_prefix, strip_prefix_iff}
use spn.Paths.{Root, root_none, root_match, longest_from, root_longest}

-- The directory is the path, or the path goes on with a slash.
abbrev pub IsAbove : Bytes → Bytes → Type 0
IsAbove dir path = (path ≡ dir) ⊎ ((rest : Bytes) × (path ≡ dir ++ b'/' ∷ rest))

root_match_iff : (dir path : Bytes) → (root_match dir path ≡ true) ↔ IsAbove dir path
unfolding root_match
root_match_iff dir path = elim (Option-cases (strip_prefix dir path)) [
  | inl e ↦
      rw (e, root_match)
        ((
          λ wrong. ground arith,
          λ above. elim above [
            | inl p ↦ ground (arith, append-nil dir, strip_prefix_iff dir path [])
            | inr (rest, p) ↦ ground (arith, strip_prefix_iff dir path (b'/' ∷ rest))
          ],
        ))
  | inr ([], e) ↦ rw (e, root_match) (ground (arith, append-nil dir, strip_prefix_iff dir path []))
  | inr (c ∷ rest, e) ↦
      rw (e, root_match)
        ((
          λ same. inr (rest, ground (arith, strip_prefix_iff dir path (c ∷ rest))),
          λ above. elim above [
            | inl p ↦ ground (arith, append-nil dir, strip_prefix_iff dir path [])
            | inr (other, p) ↦ ground (arith, strip_prefix_iff dir path (b'/' ∷ other))
          ],
        ))
]

-- A directory above the path is no longer than `n`.
abbrev pub NoLonger : Bytes → ℕ → Bytes → Type 0
NoLonger path n dir = IsAbove dir path → length dir ≤ n

abbrev pub Shorter : Bytes → ℕ → Bytes → Type 0
Shorter path n dir = IsAbove dir path → length dir < n

-- The directory that takes the place of the best, and its root, counted from `it`.
pub record Chosen (path : Bytes) (it : Root) (dirs : List Bytes) (longest : ℕ) (r : Root)
    : Type 0 where
  pub dir : Bytes
  pub before : List Bytes
  pub after : List Bytes
  pub split : dirs ≡ before ++ dir ∷ after
  pub root : r ≡ it + length before
  pub above : IsAbove dir path
  pub longer : longest < length dir
  pub earlier : All (Shorter path (length dir)) before
  pub later : All (NoLonger path (length dir)) after

-- What the loop gives: the best so far, where no directory above the path is longer, or a directory.
abbrev Outcome : Bytes → Root → List Bytes → Root → ℕ → Root → Type 0
Outcome path it dirs best longest r =
    ((r ≡ best) × All (NoLonger path longest) dirs) ⊎ Chosen path it dirs longest r

Outcome-taken :
    (path : Bytes) (it : Root) (dir : Bytes) (dirs : List Bytes) (best : Root) (longest : ℕ)
    (r : Root)
    → ltb longest (length dir) && root_match dir path ≡ true
    → Outcome path (it + 1) dirs it (length dir) r
    → Outcome path it (dir ∷ dirs) best longest r
Outcome-taken path it dir dirs best longest r taken (inl (same, none_longer)) = inr (record {
  dir = dir;
  before = [];
  after = dirs;
  split = refl;
  root = ground arith;
  above = (root_match_iff dir path).0 (ground arith);
  longer = ground arith;
  earlier = tt;
  later = none_longer;
})
Outcome-taken path it dir dirs best longest r taken (inr chosen) = inr (record {
  dir = chosen.dir;
  before = dir ∷ chosen.before;
  after = chosen.after;
  split = ap (λ rest. dir ∷ rest) chosen.split;
  root = ground (arith, chosen.root);
  above = chosen.above;
  longer = ground (arith, chosen.longer);
  earlier = (λ above. chosen.longer, chosen.earlier);
  later = chosen.later;
})

passed_over :
    (path dir : Bytes) (longest : ℕ)
    → ltb longest (length dir) && root_match dir path ≡ false
    → NoLonger path longest dir
passed_over path dir longest passed above = ground (arith, (root_match_iff dir path).1 above)

Outcome-passed :
    (path : Bytes) (it : Root) (dir : Bytes) (dirs : List Bytes) (best : Root) (longest : ℕ)
    (r : Root)
    → NoLonger path longest dir
    → Outcome path (it + 1) dirs best longest r
    → Outcome path it (dir ∷ dirs) best longest r
Outcome-passed path it dir dirs best longest r passed (inl (same, none_longer)) =
    inl (same, (passed, none_longer))
Outcome-passed path it dir dirs best longest r passed (inr chosen) = inr (record {
  dir = chosen.dir;
  before = dir ∷ chosen.before;
  after = chosen.after;
  split = ap (λ rest. dir ∷ rest) chosen.split;
  root = ground (arith, chosen.root);
  above = chosen.above;
  longer = chosen.longer;
  earlier = (λ above. ground (arith, passed above, chosen.longer), chosen.earlier);
  later = chosen.later;
})

longest_from-Outcome :
    (path : Bytes) (it : Root) (dirs : List Bytes) (best : Root) (longest : ℕ)
    → Outcome path it dirs best longest (longest_from path it dirs best longest)
unfolding longest_from
longest_from-Outcome path it [] best longest = inl (refl, tt)
longest_from-Outcome path it (dir ∷ dirs) best longest =
    elim (Bool-cases (ltb longest (length dir) && root_match dir path)) [
      | inl e ↦
          rw (e, longest_from)
            (Outcome-taken path it dir dirs best longest
              (longest_from path (it + 1) dirs it (length dir)) e
              (longest_from-Outcome path (it + 1) dirs it (length dir)))
      | inr e ↦
          rw (e, longest_from)
            (Outcome-passed path it dir dirs best longest
              (longest_from path (it + 1) dirs best longest) (passed_over path dir longest e)
              (longest_from-Outcome path (it + 1) dirs best longest))
    ]

-- The root chosen for a path is the absolute root if no directory with a text stands above the
-- path; otherwise its directory stands above the path, those before it that do are shorter, and those
-- after it that do are no longer.
pub root_longest_lem :
    (dirs : List Bytes) (path : Bytes)
    → ((root_longest dirs path ≡ root_none) × All (NoLonger path 0) dirs)
      ⊎ Chosen path 0 dirs 0 (root_longest dirs path)
unfolding root_longest
root_longest_lem dirs path = longest_from-Outcome path 0 dirs root_none 0
