-- ===== src/Dag/Framing.antt =====
-- The bytes that a cache key of source/core/dag/dag.c is hashed from say what went into the key.
use mathlib.Core.List.{append_assoc}
use spn.Base.{
  ℕ, zero, suc, ◌/◌, ◌^◌, ◌<◌, ◌≡◌, refl, sym, ◌∙◌, List, [], ◌∷◌, ◌++◌, length, All, arith,
}
use spn.Base.Texts.{Bytes}
use spn.Dag.{Digest}
use spn.Dag.Key.{le_bytes, hash_u8, hash_u64, hash_str, hash_each, hash_list}

-- A value of the allowed kind is told by the bytes that it is hashed as, whatever follows them.
abbrev pub Frames {ℓ} : {A : Type ℓ} → (A → Bytes) → (A → Type 0) → Type ℓ
Frames {A = A} hash Ok =
    (x y : A) (s t : Bytes) → Ok x → Ok y → hash x ++ s ≡ hash y ++ t → (x ≡ y) × (s ≡ t)

length-le_bytes : (k n : ℕ) → length (le_bytes k n) ≡ k
unfolding le_bytes
length-le_bytes zero n = refl
length-le_bytes (suc k) n = omega (arith, length-le_bytes k (n / 256))

-- Texts of one length.
split_same : (x y s t : Bytes) → length x ≡ length y → x ++ s ≡ y ++ t → (x ≡ y) × (s ≡ t)
split_same [] [] s t same e = (refl, e)
split_same [] (b ∷ y) s t same e = absurd (omega arith)
split_same (a ∷ x) [] s t same e = absurd (omega arith)
split_same (a ∷ x) (b ∷ y) s t same e = ground (arith, split_same x y s t)

-- A number of at most `k` bytes.
abbrev Fits : ℕ → ℕ → Type 0
Fits zero n = n ≡ 0
Fits (suc k) n = Fits k (n / 256)

le_bytes_inj : (k n m : ℕ) → Fits k n → Fits k m → le_bytes k n ≡ le_bytes k m → n ≡ m
unfolding le_bytes
le_bytes_inj zero n m f g e = omega arith
le_bytes_inj (suc k) n m f g e = ground (arith, le_bytes_inj k (n / 256) (m / 256))

Frames-le_bytes : (k : ℕ) → Frames (le_bytes k) (Fits k)
Frames-le_bytes k x y s t ok_x ok_y e =
    let (same, rest) =
      split_same (le_bytes k x) (le_bytes k y) s t (length-le_bytes k x ∙ sym (length-le_bytes k y))
        e in
    (le_bytes_inj k x y ok_x ok_y same, rest)

Fits-u64 : (n : ℕ) → n < 2 ^ 64 → Fits 8 n
Fits-u64 n h = omega arith

pub Frames-hash_u64 : Frames hash_u64 (λ n. n < 2 ^ 64)
unfolding hash_u64
Frames-hash_u64 x y s t ok_x ok_y = Frames-le_bytes 8 x y s t (Fits-u64 x ok_x) (Fits-u64 y ok_y)

pub Frames-hash_u8 : Frames hash_u8 (λ n. n < 256)
unfolding hash_u8
Frames-hash_u8 x y s t ok_x ok_y = Frames-le_bytes 1 x y s t (omega arith) (omega arith)

pub Frames-digest : Frames (λ (d : Digest). d) (λ d. length d ≡ 32)
Frames-digest x y s t ok_x ok_y e = split_same x y s t (ok_x ∙ sym ok_y) e

-- One thing hashed after another.
pub Frames_pair {ℓ κ} :
    {A : Type ℓ} {B : Type κ} (f : A → Bytes) (g : B → Bytes) (P : A → Type 0) (Q : B → Type 0)
    → Frames f P
    → Frames g Q
    → Frames (λ (p : A × B). f p.0 ++ g p.1) (λ p. P p.0 × Q p.1)
Frames_pair f g P Q frames_f frames_g x y s t ok_x ok_y e =
    let (first, rest) =
      frames_f x.0 y.0 (g x.1 ++ s) (g y.1 ++ t) ok_x.0 ok_y.0
        (sym (append_assoc (f x.0) (g x.1) s) ∙ e ∙ append_assoc (f y.0) (g y.1) t) in
    let (second, last) = frames_g x.1 y.1 s t ok_x.1 ok_y.1 rest in (λ i. (first i, second i), last)

pub Frames-hash_str : Frames hash_str (λ s. length s < 2 ^ 64)
unfolding hash_str
Frames-hash_str x y s t ok_x ok_y e =
    let (same, rest) =
      Frames-hash_u64 (length x) (length y) (x ++ s) (y ++ t) ok_x ok_y (
        sym (append_assoc (hash_u64 (length x)) x s)
        ∙ e
        ∙ append_assoc (hash_u64 (length y)) y t) in
    split_same x y s t same rest

-- As many elements, hashed one after the other.
Frames_each {ℓ} :
    {A : Type ℓ} (hash : A → Bytes) (Ok : A → Type 0)
    → Frames hash Ok
    → (xs ys : List A) (s t : Bytes) → All Ok xs
    → All Ok ys
    → length xs ≡ length ys
    → hash_each hash xs ++ s ≡ hash_each hash ys ++ t
    → (xs ≡ ys) × (s ≡ t)
unfolding hash_each
Frames_each hash Ok frames [] [] s t ok_xs ok_ys same e = (refl, e)
Frames_each hash Ok frames [] (y ∷ ys) s t ok_xs ok_ys same e = absurd (omega arith)
Frames_each hash Ok frames (x ∷ xs) [] s t ok_xs ok_ys same e = absurd (omega arith)
Frames_each hash Ok frames (x ∷ xs) (y ∷ ys) s t ok_xs ok_ys same e =
    let (first, rest) =
      frames x y (hash_each hash xs ++ s) (hash_each hash ys ++ t) ok_xs.0 ok_ys.0 (
        sym (append_assoc (hash x) (hash_each hash xs) s)
        ∙ e
        ∙ append_assoc (hash y) (hash_each hash ys) t) in
    let (others, last) = Frames_each hash Ok frames xs ys s t ok_xs.1 ok_ys.1 (omega arith) rest in
    (λ i. first i ∷ others i, last)

pub Frames-hash_list {ℓ} :
    {A : Type ℓ} (hash : A → Bytes) (Ok : A → Type 0)
    → Frames hash Ok
    → Frames (hash_list hash) (λ xs. (length xs < 2 ^ 64) × All Ok xs)
unfolding hash_list
Frames-hash_list hash Ok frames xs ys s t ok_xs ok_ys e =
    let (same, rest) =
      Frames-hash_u64 (length xs) (length ys) (hash_each hash xs ++ s) (hash_each hash ys ++ t)
        ok_xs.0 ok_ys.0
        (sym (append_assoc (hash_u64 (length xs)) (hash_each hash xs) s)
          ∙ e
          ∙ append_assoc (hash_u64 (length ys)) (hash_each hash ys) t) in
    Frames_each hash Ok frames xs ys s t ok_xs.1 ok_ys.1 same rest
