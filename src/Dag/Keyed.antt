-- ===== src/Dag/Keyed.antt =====
-- Two cache keys of source/core/dag/dag.c are hashed from the same bytes only if the same things went
-- into them.
use spn.Base.{
  ℕ, ◌^◌, ◌<◌, ◌≡◌, refl, sym, ap, ◌∙◌, List, [], ◌∷◌, ◌++◌, append-nil, map, length, All, arith,
}
use spn.Base.Texts.{Bytes}
use spn.Dag.{Artifact, ArtifactKind, kind_value, kind_file, kind_tree, Digest}
use spn.Dag.Key.{
  hash_u8, hash_str, hash_each, hash_list, kind_number, hash_input, hash_output, action_tag,
  weak_bytes,
}
use spn.Dag.Framing.{
  Frames, Frames-hash_u64, Frames-hash_u8, Frames-digest, Frames_pair, Frames-hash_str,
  Frames-hash_list,
}

-- What a key takes from an input, and from an output.
abbrev pub input_part : Artifact → ArtifactKind × Digest
input_part x = (x.kind, x.digest)

abbrev pub output_part : Artifact → ArtifactKind × Bytes
output_part x = (x.kind, x.name)

hash_kind : ArtifactKind → Bytes
hash_kind kind = hash_u8 (kind_number kind)

kind_number_inj : (a b : ArtifactKind) → kind_number a ≡ kind_number b → a ≡ b
unfolding kind_number
kind_number_inj a b e = ground arith

kind_number-lt : (a : ArtifactKind) → kind_number a < 256
unfolding kind_number
kind_number-lt kind_value = omega arith
kind_number-lt kind_file = omega arith
kind_number-lt kind_tree = omega arith

Frames-hash_kind : Frames hash_kind (λ k. Unit {0})
unfolding hash_kind
Frames-hash_kind x y s t ok_x ok_y e =
    let (same, rest) =
      Frames-hash_u8 (kind_number x) (kind_number y) s t (kind_number-lt x) (kind_number-lt y) e in
    (kind_number_inj x y same, rest)

-- A list hashed by what is read from its elements is the list of that.
hash_each-map {ℓ κ} :
    {A : Type ℓ} {B : Type κ} (f : B → Bytes) (view : A → B) (xs : List A)
    → hash_each (λ x. f (view x)) xs ≡ hash_each f (map view xs)
unfolding hash_each
hash_each-map f view [] = refl
hash_each-map f view (x ∷ xs) = ap (λ s. f (view x) ++ s) (hash_each-map f view xs)

length-map {ℓ κ} :
    {A : Type ℓ} {B : Type κ} (view : A → B) (xs : List A) → length (map view xs) ≡ length xs
length-map view [] = refl
length-map view (x ∷ xs) = omega (arith, length-map view xs)

hash_list-map {ℓ κ} :
    {A : Type ℓ} {B : Type κ} (f : B → Bytes) (view : A → B) (xs : List A)
    → hash_list (λ x. f (view x)) xs ≡ hash_list f (map view xs)
unfolding hash_list
hash_list-map f view xs = rw (length-map view xs, hash_each-map f view xs) refl

All-map {ℓ κ} :
    {A : Type ℓ} {B : Type κ} (P : B → Type 0) (view : A → B) (xs : List A)
    → All (λ x. P (view x)) xs
    → All P (map view xs)
All-map P view [] h = tt
All-map P view (x ∷ xs) h = (h.0, All-map P view xs h.1)

-- Sizes that the program's types allow.
pub record IsSized (pinned : ℕ) (identity : Digest) (inputs outputs : List Artifact) : Type 0 where
  pub pinned_fits : pinned < 2 ^ 32
  pub identity_fits : length identity ≡ 32
  pub inputs_fit : (length inputs < 2 ^ 64) × All (λ x. length x.digest ≡ 32) inputs
  pub outputs_fit : (length outputs < 2 ^ 64) × All (λ x. length x.name < 2 ^ 64) outputs

hash_part : ArtifactKind × Digest → Bytes
hash_part p = hash_kind p.0 ++ p.1

hash_named : ArtifactKind × Bytes → Bytes
hash_named p = hash_kind p.0 ++ hash_str p.1

Frames-hash_part : Frames hash_part (λ p. length p.1 ≡ 32)
unfolding hash_part
Frames-hash_part x y s t ok_x ok_y =
    Frames_pair hash_kind (λ (d : Digest). d) (λ k. Unit {0}) (λ d. length d ≡ 32) Frames-hash_kind
      Frames-digest x y s t (tt, ok_x) (tt, ok_y)

Frames-hash_named : Frames hash_named (λ p. length p.1 < 2 ^ 64)
unfolding hash_named
Frames-hash_named x y s t ok_x ok_y =
    Frames_pair hash_kind hash_str (λ k. Unit {0}) (λ s. length s < 2 ^ 64) Frames-hash_kind
      Frames-hash_str x y s t (tt, ok_x) (tt, ok_y)

-- Lists that are hashed by what is read from their elements.
Frames_view {ℓ κ} :
    {A : Type ℓ} {B : Type κ} (f : B → Bytes) (view : A → B) (P : B → Type 0)
    → Frames f P
    → (xs ys : List A) (s t : Bytes) → (length xs < 2 ^ 64) × All (λ x. P (view x)) xs
    → (length ys < 2 ^ 64) × All (λ x. P (view x)) ys
    → hash_list (λ x. f (view x)) xs ++ s ≡ hash_list (λ x. f (view x)) ys ++ t
    → (map view xs ≡ map view ys) × (s ≡ t)
Frames_view f view P frames xs ys s t ok_xs ok_ys e =
    Frames-hash_list f P frames (map view xs) (map view ys) s t
      (rw (length-map view xs) ok_xs.0, All-map P view xs ok_xs.1)
      (rw (length-map view ys) ok_ys.0, All-map P view ys ok_ys.1)
      (ap (λ b. b ++ s) (sym (hash_list-map f view xs))
        ∙ e
        ∙ ap (λ b. b ++ t) (hash_list-map f view ys))

-- The bytes of a weak key say the pinned roots, the action's identity, the kind and digest of each
-- input and the kind and name of each output, in order, where these have the sizes of the program's
-- types.
pub weak_bytes_inj :
    (pinned pinned' : ℕ) (identity identity' : Digest)
    (inputs inputs' outputs outputs' : List Artifact)
    → IsSized pinned identity inputs outputs
    → IsSized pinned' identity' inputs' outputs'
    → weak_bytes pinned identity inputs outputs ≡ weak_bytes pinned' identity' inputs' outputs'
    → (pinned ≡ pinned')
      × (identity ≡ identity')
      × (map input_part inputs ≡ map input_part inputs')
      × (map output_part outputs ≡ map output_part outputs')
unfolding weak_bytes hash_input hash_output hash_part hash_named hash_kind
weak_bytes_inj pinned pinned' identity identity' inputs inputs' outputs outputs' ok ok' e =
    let (_, after_tag) = Frames-hash_str action_tag action_tag _ _ (omega arith) (omega arith) e in
    let (same_pinned, after_pinned) =
      Frames-hash_u64 pinned pinned' _ _ (omega (arith, ok.pinned_fits))
        (omega (arith, ok'.pinned_fits)) after_tag in
    let (same_identity, after_identity) =
      Frames-digest identity identity' _ _ ok.identity_fits ok'.identity_fits after_pinned in
    let (same_inputs, after_inputs) =
      Frames_view hash_part input_part (λ p. length p.1 ≡ 32) Frames-hash_part inputs inputs' _ _
        ok.inputs_fit ok'.inputs_fit after_identity in
    let (same_outputs, _) =
      Frames_view hash_named output_part (λ p. length p.1 < 2 ^ 64) Frames-hash_named outputs
        outputs' [] [] ok.outputs_fit ok'.outputs_fit
        (append-nil _ ∙ after_inputs ∙ sym (append-nil _)) in
    (same_pinned, same_identity, same_inputs, same_outputs)
