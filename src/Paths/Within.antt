-- ===== src/Paths/Within.antt =====
-- What `spn_path_within` and `root_match` of source/core/paths/paths.c mean.
use spn.Base.{◌≡◌, ◌≢◌, ◌↔◌, ◌⊎◌, inl, inr, true, [], ◌∷◌, ◌++◌, append-nil, arith, Option-cases}
use spn.Base.Texts.{Bytes, strip_prefix, strip_prefix_iff}
use spn.Paths.{FilePath, Root, root_none, within_after, within_rest, path_within}

-- `sub` leads from the base to the path: the paths are equal, or a slash stands between. A root with
-- no text contains all that stands under it.
abbrev pub Leads : Root → Bytes → Bytes → Bytes → Type 0
Leads root [] path sub = (root ≢ root_none) × (path ≡ sub)
Leads root (c ∷ base) path sub = ((path ≡ c ∷ base) × (sub ≡ [])) ⊎ (path ≡ c ∷ base ++ b'/' ∷ sub)

within_after_iff :
    (rest sub : Bytes)
    → (within_after rest ≡ record { within = true; sub = sub })
      ↔ (((rest ≡ []) × (sub ≡ [])) ⊎ (rest ≡ b'/' ∷ sub))
unfolding within_after
within_after_iff [] sub = ground arith
within_after_iff (c ∷ rest) sub = ground arith

within_rest_iff :
    (base path sub : Bytes)
    → (within_rest (strip_prefix base path) ≡ record { within = true; sub = sub })
      ↔ (((path ≡ base) × (sub ≡ [])) ⊎ (path ≡ base ++ b'/' ∷ sub))
unfolding within_after
within_rest_iff base path sub = elim (Option-cases (strip_prefix base path)) [
  | inl e ↦ rw e (
      ground (
        arith,
        strip_prefix_iff base path [],
        strip_prefix_iff base path (b'/' ∷ sub),
        append-nil base,
      ))
  | inr (rest, e) ↦ rw e (
      ground (
        arith,
        within_after_iff rest sub,
        strip_prefix_iff base path rest,
        strip_prefix_iff base path [],
        strip_prefix_iff base path (b'/' ∷ sub),
        append-nil base,
      ))
]

path_within-lit :
    (base_root path_root : Root) (base path sub : Bytes)
    → (path_within
          (record { root = base_root; sub = base })
          (record { root = path_root; sub = path })
        ≡ record { within = true; sub = sub })
      ↔ ((base_root ≡ path_root) × Leads base_root base path sub)
unfolding path_within
path_within-lit base_root path_root [] path sub = ground arith
path_within-lit base_root path_root (c ∷ base) path sub =
    ground (arith, within_rest_iff (c ∷ base) path sub)

-- The path lies within the base, and the rest is `sub`, exactly if both have one root and `sub` leads
-- from the base to the path.
pub path_within_iff :
    (base path : FilePath) (sub : Bytes)
    → (path_within base path ≡ record { within = true; sub = sub })
      ↔ ((base.root ≡ path.root) × Leads base.root base.sub path.sub sub)
path_within_iff base path sub = path_within-lit base.root path.root base.sub path.sub sub
