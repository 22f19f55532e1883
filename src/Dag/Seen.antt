-- ===== src/Dag/Seen.antt =====
-- The rows of observations in the strong key of source/core/dag/dag.c.
use mathlib.Core.List.{append_assoc}
use spn.Base.{◌^◌, ◌<◌, ◌≡◌, sym, ◌∙◌, List, [], ◌++◌, append-nil, length, All, arith}
use spn.Base.Texts.{Bytes}
use spn.Dag.{Digest}
use spn.Dag.Key.{
  hash_u8, hash_str, ObsKind, obs_file, obs_absent, obs_enumeration, obs_number, Obs, hash_obs_row,
  hash_seen, strong_tag, strong_bytes,
}
use spn.Dag.Framing.{Frames, Frames-hash_u8, Frames-digest, Frames-hash_str, Frames-hash_list}

-- Sizes that the program's types allow.
pub record IsRow (row : Obs × Digest) : Type 0 where
  pub root_fits : row.0.path.root < 256
  pub sub_fits : length row.0.path.sub < 2 ^ 64
  pub filter_fits : length row.0.filter < 2 ^ 64
  pub digest_fits : length row.1 ≡ 32

obs_number_inj : (a b : ObsKind) → obs_number a ≡ obs_number b → a ≡ b
unfolding obs_number
obs_number_inj a b e = ground arith

obs_number-lt : (a : ObsKind) → obs_number a < 256
unfolding obs_number
obs_number-lt obs_file = omega arith
obs_number-lt obs_absent = omega arith
obs_number-lt obs_enumeration = omega arith

-- The bytes of a row, bracketed to the right.
row_bytes :
    (x : Obs × Digest) (s : Bytes)
    → hash_seen x ++ s
      ≡ hash_u8 (obs_number x.0.kind)
        ++ (hash_u8 x.0.path.root ++ (hash_str x.0.path.sub ++ (hash_str x.0.filter ++ (x.1 ++ s))))
unfolding hash_seen hash_obs_row
row_bytes (obs, digest) s = simp append_assoc

Frames-hash_seen : Frames hash_seen IsRow
Frames-hash_seen x y s t ok_x ok_y e =
    let (same_kind, after_kind) =
      Frames-hash_u8 (obs_number x.0.kind) (obs_number y.0.kind) _ _ (obs_number-lt x.0.kind)
        (obs_number-lt y.0.kind) (sym (row_bytes x s) ∙ e ∙ row_bytes y t) in
    let (same_root, after_root) =
      Frames-hash_u8 x.0.path.root y.0.path.root _ _ ok_x.root_fits ok_y.root_fits after_kind in
    let (same_sub, after_sub) =
      Frames-hash_str x.0.path.sub y.0.path.sub _ _ ok_x.sub_fits ok_y.sub_fits after_root in
    let (same_filter, after_filter) =
      Frames-hash_str x.0.filter y.0.filter _ _ ok_x.filter_fits ok_y.filter_fits after_sub in
    let (same_digest, rest) =
      Frames-digest x.1 y.1 s t ok_x.digest_fits ok_y.digest_fits after_filter in
    (
      λ i. (
        record {
          kind = obs_number_inj x.0.kind y.0.kind same_kind i;
          path = record { root = same_root i; sub = same_sub i };
          filter = same_filter i;
        },
        same_digest i,
      ),
      rest,
    )

-- The bytes of a strong key say the weak key, the digest of the pinned rows, and each row with its
-- digest, in order, where these have the sizes of the program's types.
pub strong_bytes_inj :
    (weak weak' pinned pinned' : Digest) (seen seen' : List (Obs × Digest))
    → (length weak ≡ 32) × (length weak' ≡ 32)
    → (length pinned ≡ 32) × (length pinned' ≡ 32)
    → (length seen < 2 ^ 64) × All IsRow seen
    → (length seen' < 2 ^ 64) × All IsRow seen'
    → strong_bytes weak pinned seen ≡ strong_bytes weak' pinned' seen'
    → (weak ≡ weak') × (pinned ≡ pinned') × (seen ≡ seen')
unfolding strong_bytes
strong_bytes_inj weak weak' pinned pinned' seen seen' ok_weak ok_pinned ok_seen ok_seen' e =
    let (_, after_tag) = Frames-hash_str strong_tag strong_tag _ _ (omega arith) (omega arith) e in
    let (same_weak, after_weak) = Frames-digest weak weak' _ _ ok_weak.0 ok_weak.1 after_tag in
    let (same_pinned, after_pinned) =
      Frames-digest pinned pinned' _ _ ok_pinned.0 ok_pinned.1 after_weak in
    let (same_seen, _) =
      Frames-hash_list hash_seen IsRow Frames-hash_seen seen seen' [] [] ok_seen ok_seen'
        (append-nil _ ∙ after_pinned ∙ sym (append-nil _)) in
    (same_weak, same_pinned, same_seen)
