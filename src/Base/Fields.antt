-- ===== src/Base/Fields.antt =====
-- Reading one field of a list's elements by index, after a write and after a push.
use Prim.Native.Nat.{ℕ, zero, suc}
use mathlib.Core.Path.{◌≡◌, refl}
use mathlib.Core.Logic.{◌↔◌, ◌⊎◌, inl, inr}
use mathlib.Core.List.{List, [], ◌∷◌, ◌++◌}
use mathlib.Core.Option.{none, some}
use native.Mathlib.Omega.{arith}
use spn.Base.Tests.{◌==◌, if◌then◌else◌}
use spn.Base.Lists.{get_elem?, set, In}

module _ {ℓ} {A B : Type ℓ} where
  -- A field of the element at an index, or a value where there is none.
  unfoldable pub field_at : (A → B) → B → List A → ℕ → B
  field_at f d [] i = d
  field_at f d (x ∷ xs) zero = f x
  field_at f d (x ∷ xs) (suc i) = field_at f d xs i

  pub field_at-eq :
      (f : A → B) (d : B) (xs : List A) (i : ℕ) (x : A)
      → get_elem? xs i ≡ some x
      → field_at f d xs i ≡ f x
  unfolding field_at
  field_at-eq f d [] i x h = cc
  field_at-eq f d (y ∷ xs) zero x h = ground arith
  field_at-eq f d (y ∷ xs) (suc i) x h = field_at-eq f d xs i x h

  pub field_at-set :
      (f : A → B) (d : B) (xs : List A) (i j : ℕ) (old v : A)
      → get_elem? xs i ≡ some old
      → field_at f d (set xs i v) j ≡ (if i == j then f v else field_at f d xs j)
  unfolding field_at
  field_at-set f d [] i j old v h = cc
  field_at-set f d (y ∷ xs) zero zero old v h = refl
  field_at-set f d (y ∷ xs) zero (suc j) old v h = ground arith
  field_at-set f d (y ∷ xs) (suc i) zero old v h = ground arith
  field_at-set f d (y ∷ xs) (suc i) (suc j) old v h =
      ground (arith, field_at-set f d xs i j old v h)

  -- A write that keeps the field.
  pub field_at-set_same :
      (f : A → B) (d : B) (xs : List A) (i j : ℕ) (old v : A)
      → get_elem? xs i ≡ some old
      → f v ≡ f old
      → field_at f d (set xs i v) j ≡ field_at f d xs j
  field_at-set_same f d xs i j old v h same =
      ground (arith, field_at-set f d xs i j old v, field_at-eq f d xs i old)

  -- A push changes nothing at the indices before it.
  pub field_at-push_before :
      (f : A → B) (d : B) (xs : List A) (j : ℕ) (v x : A)
      → get_elem? xs j ≡ some x
      → field_at f d (xs ++ v ∷ []) j ≡ field_at f d xs j
  unfolding field_at
  field_at-push_before f d [] j v x h = cc
  field_at-push_before f d (y ∷ xs) zero v x h = refl
  field_at-push_before f d (y ∷ xs) (suc j) v x h = field_at-push_before f d xs j v x h

  -- A pushed element whose field is the value changes nothing.
  pub field_at-push :
      (f : A → B) (d : B) (xs : List A) (j : ℕ) (v : A)
      → f v ≡ d
      → field_at f d (xs ++ v ∷ []) j ≡ field_at f d xs j
  unfolding field_at
  field_at-push f d [] zero v h = h
  field_at-push f d [] (suc j) v h = refl
  field_at-push f d (x ∷ xs) zero v h = refl
  field_at-push f d (x ∷ xs) (suc j) v h = field_at-push f d xs j v h

  pub field_at_beyond :
      (f : A → B) (d : B) (xs : List A) (j : ℕ) → get_elem? xs j ≡ none → field_at f d xs j ≡ d
  unfolding field_at
  field_at_beyond f d [] j h = refl
  field_at_beyond f d (x ∷ xs) zero h = cc
  field_at_beyond f d (x ∷ xs) (suc j) h = field_at_beyond f d xs j h

module _ {ℓ} {A : Type ℓ} where
  pub In-push : (x y : A) (xs : List A) → In x (xs ++ y ∷ []) ↔ (In x xs ⊎ (x ≡ y))
  In-push x y [] = (
    λ h. elim h [ inl e ↦ inr e | inr n ↦ elim n [ ] ],
    λ h. elim h [ inl n ↦ elim n [ ] | inr e ↦ inl e ],
  )
  In-push x y (z ∷ xs) = ground (arith, In-push x y xs)
