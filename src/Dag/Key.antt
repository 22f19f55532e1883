-- ===== src/Dag/Key.antt =====
-- The bytes that the cache keys of source/core/dag/dag.c are hashed from. A hash context is the bytes
-- that it was updated with, in order; a number is hashed as it lies in memory, least byte first. The
-- hash function, blake3, is a library's and is applied by the caller.
use spn.Base.{
  ℕ, zero, suc, ◌/◌, ◌%◌, Bool, true, false, not, List, [], ◌∷◌, ◌++◌, ◌==◌, length, get_elem?,
  if◌then◌else◌, Option, none, some,
}
use spn.Base.Texts.{Bytes}
use spn.Paths.{FilePath}
use spn.Dag.{Dag, Artifact, ArtifactKind, kind_value, kind_file, kind_tree, Digest, in_roots}

unfoldable pub le_bytes : ℕ → ℕ → Bytes
le_bytes zero n = []
le_bytes (suc k) n = n % 256 ∷ le_bytes k (n / 256)

unfoldable pub hash_u8 : ℕ → Bytes
unfolding le_bytes
hash_u8 value = le_bytes 1 value

unfoldable pub hash_u64 : ℕ → Bytes
unfolding le_bytes
hash_u64 value = le_bytes 8 value

unfoldable pub hash_str : Bytes → Bytes
hash_str str = hash_u64 (length str) ++ str

unfoldable pub hash_path : FilePath → Bytes
hash_path path = hash_u8 path.root ++ hash_str path.sub

-- The loops: a count, then what each element is hashed as.
unfoldable pub hash_each {ℓ} : {A : Type ℓ} → (A → Bytes) → List A → Bytes
hash_each hash [] = []
hash_each hash (x ∷ xs) = hash x ++ hash_each hash xs

unfoldable pub hash_list {ℓ} : {A : Type ℓ} → (A → Bytes) → List A → Bytes
hash_list hash xs = hash_u64 (length xs) ++ hash_each hash xs

unfoldable pub hash_paths : List FilePath → Bytes
unfolding hash_list
hash_paths paths = hash_list hash_path paths

unfoldable pub hash_strs : List Bytes → Bytes
unfolding hash_list
hash_strs strs = hash_list hash_str strs

-- `spn_arg_t`.
pub record Arg : Type 0 where
  pub prefix : Bytes
  pub path : FilePath

unfoldable pub hash_arg : Arg → Bytes
hash_arg arg = hash_str arg.prefix ++ hash_path arg.path

unfoldable pub hash_args : List Arg → Bytes
unfolding hash_list
hash_args args = hash_list hash_arg args

-- The number of an artifact's kind.
unfoldable pub kind_number : ArtifactKind → ℕ
kind_number kind_value = 0
kind_number kind_file = 1
kind_number kind_tree = 2

-- What the two loops of `spn_dag_weak_key` hash of an artifact.
unfoldable pub hash_input : Artifact → Bytes
hash_input artifact = hash_u8 (kind_number artifact.kind) ++ artifact.digest

unfoldable pub hash_output : Artifact → Bytes
hash_output artifact = hash_u8 (kind_number artifact.kind) ++ hash_str artifact.name

-- "spn.dag.action.v4"
abbrev pub action_tag : Bytes
action_tag =
    b's' ∷ b'p' ∷ b'n' ∷ b'.' ∷ b'd' ∷ b'a' ∷ b'g' ∷ b'.' ∷ b'a' ∷ b'c' ∷ b't' ∷ b'i' ∷ b'o' ∷ b'n'
    ∷ b'.' ∷ b'v' ∷ b'4' ∷ []

-- `spn_dag_digest_valid`: some byte is not zero.
unfoldable pub digest_valid : Digest → Bool
digest_valid [] = false
digest_valid (b ∷ digest) = if not (b == 0) then true else digest_valid digest

-- The artifacts of some ids, each found and passing the assertion of the loop.
unfoldable pub gather : (Artifact → Bool) → List Artifact → List ℕ → Option (List Artifact)
gather check artifacts [] = some []
gather check artifacts (id ∷ ids) = elim (get_elem? artifacts id) [
  | none ↦ none
  | some artifact ↦ elim (gather check artifacts ids) [
    | none ↦ none
    | some others ↦ if check artifact then some (artifact ∷ others) else none
  ]
]

-- What `spn_dag_weak_key` hashes, once the artifacts are found.
unfoldable pub weak_bytes : ℕ → Digest → List Artifact → List Artifact → Bytes
weak_bytes pinned identity inputs outputs =
    hash_str action_tag
    ++ (hash_u64 pinned
        ++ (identity ++ (hash_list hash_input inputs ++ hash_list hash_output outputs)))

-- `none` is a failed assertion.
unfoldable pub weak_key : (Bytes → Digest) → Dag → ℕ → Option Digest
unfolding gather weak_bytes
weak_key blake3 g action_id = elim (get_elem? g.actions action_id) [
  | none ↦ none
  | some action ↦ elim (gather (λ x. digest_valid x.digest) g.artifacts action.consumes) [
    | none ↦ none
    | some inputs ↦ elim (gather (λ x. true) g.artifacts action.produces) [
      | none ↦ none
      | some outputs ↦ some (blake3 (weak_bytes g.pinned action.identity inputs outputs))
    ]
  ]
]

-- `spn_dag_obs_kind_t`, and a row of what an action was seen to read.
pub data ObsKind : Type 0 where
  obs_file obs_absent obs_enumeration : ObsKind

unfoldable pub obs_number : ObsKind → ℕ
obs_number obs_file = 0
obs_number obs_absent = 1
obs_number obs_enumeration = 2

pub record Obs : Type 0 where
  pub kind : ObsKind
  pub path : FilePath
  pub filter : Bytes

unfoldable pub hash_obs_row : Obs → Bytes
hash_obs_row obs =
    hash_u8 (obs_number obs.kind)
    ++ (hash_u8 obs.path.root ++ (hash_str obs.path.sub ++ hash_str obs.filter))

-- A row of the loop of `spn_dag_strong_key`.
unfoldable pub hash_seen : Obs × Digest → Bytes
hash_seen (obs, digest) = hash_obs_row obs ++ digest

-- "spn.dag.strong.v8"
abbrev pub strong_tag : Bytes
strong_tag =
    b's' ∷ b'p' ∷ b'n' ∷ b'.' ∷ b'd' ∷ b'a' ∷ b'g' ∷ b'.' ∷ b's' ∷ b't' ∷ b'r' ∷ b'o' ∷ b'n' ∷ b'g'
    ∷ b'.' ∷ b'v' ∷ b'8' ∷ []

unfoldable pub strong_bytes : Digest → Digest → List (Obs × Digest) → Bytes
strong_bytes weak pinned seen =
    hash_str strong_tag ++ (weak ++ (pinned ++ hash_list hash_seen seen))

unfoldable pub strong_key : (Bytes → Digest) → Digest → Digest → List (Obs × Digest) → Digest
unfolding strong_bytes
strong_key blake3 weak pinned seen = blake3 (strong_bytes weak pinned seen)

-- "spn.dag.pinned.v1"
abbrev pub pinned_tag : Bytes
pinned_tag =
    b's' ∷ b'p' ∷ b'n' ∷ b'.' ∷ b'd' ∷ b'a' ∷ b'g' ∷ b'.' ∷ b'p' ∷ b'i' ∷ b'n' ∷ b'n' ∷ b'e' ∷ b'd'
    ∷ b'.' ∷ b'v' ∷ b'1' ∷ []

-- The rows under a pinned root, which `spn_dag_pinned_digest` counts and then hashes.
unfoldable pub pinned_rows : ℕ → List Obs → List Obs
pinned_rows pinned [] = []
pinned_rows pinned (row ∷ obs) =
    if in_roots pinned row.path.root then row ∷ pinned_rows pinned obs else pinned_rows pinned obs

unfoldable pub pinned_bytes : ℕ → List Obs → Bytes
unfolding pinned_rows
pinned_bytes pinned obs = hash_str pinned_tag ++ hash_list hash_obs_row (pinned_rows pinned obs)
