-- ===== src/Resolve/Spread.antt =====
-- How a round of `compute_processes` of source/core/resolve/resolve.c spreads processes.
use mathlib.Core.Path.{subst}
use spn.Base.{
  ℕ, zero, suc, ◌+◌, ◌*◌, ◌≤◌, ◌<◌, Bool, true, false, ◌&&◌, List, [], ◌∷◌, ◌++◌, ◌==◌, ==_iff,
  length, if◌then◌else◌, ◌≡◌, ◌⊎◌, inl, inr, refl, sym, ap, ◌∙◌, arith, Bool-cases, ltb,
}
use spn.Base.Fields.{field_at}
use spn.Resolve.Boundaries.{Scope}
use spn.Resolve.Processes.{scope_has_process, scope_add_process, add_process_at, processes_of}

-- The scope with an index is in a process.
abbrev pub has : List Scope → ℕ → ℕ → Bool
has scopes i process = scope_has_process (processes_of scopes i) process

has_process-push :
    (processes : List ℕ) (p q : ℕ)
    → scope_has_process (processes ++ p ∷ []) q
      ≡ (if p == q then true else scope_has_process processes q)
unfolding scope_has_process
has_process-push [] p q = refl
has_process-push (x ∷ processes) p q = ground (arith, has_process-push processes p q)

has_process-add :
    (scope : Scope) (p q : ℕ)
    → scope_has_process (scope_add_process scope p).processes q
      ≡ (if p == q then true else scope_has_process scope.processes q)
unfolding scope_add_process
has_process-add scope p q = ground (arith, has_process-push scope.processes p q)

pub length-add_process_at :
    (i p : ℕ) (scopes : List Scope) → length (add_process_at i p scopes) ≡ length scopes
unfolding add_process_at
length-add_process_at i p [] = refl
length-add_process_at zero p (s ∷ scopes) = refl
length-add_process_at (suc i) p (s ∷ scopes) = omega (arith, length-add_process_at i p scopes)

pub has-add_process_at :
    (i p : ℕ) (scopes : List Scope) (j q : ℕ)
    → i < length scopes
    → has (add_process_at i p scopes) j q ≡ (if i == j && p == q then true else has scopes j q)
unfolding add_process_at field_at
has-add_process_at i p [] j q lt = absurd (omega arith)
has-add_process_at zero p (s ∷ scopes) zero q lt = has_process-add s p q
has-add_process_at zero p (s ∷ scopes) (suc j) q lt = ground arith
has-add_process_at (suc i) p (s ∷ scopes) zero q lt = ground arith
has-add_process_at (suc i) p (s ∷ scopes) (suc j) q lt =
    ground (arith, has-add_process_at i p scopes j q)

-- How many of the numbers below `n` fail a test.
pub row : (ℕ → Bool) → ℕ → ℕ
row f zero = 0
row f (suc n) = row f n + (if f n then 0 else 1)

row-flip :
    (f g : ℕ → Bool) (q n : ℕ)
    → ((x : ℕ) → g x ≡ (if q == x then true else f x))
    → f q ≡ false
    → (row g n + (if ltb q n then 1 else 0)) ≡ row f n
unfolding row
row-flip f g q zero h fails = ground arith
row-flip f g q (suc n) h fails = ground (arith, row-flip f g q n h fails, h n)

row-same : (f g : ℕ → Bool) (n : ℕ) → ((x : ℕ) → g x ≡ f x) → row g n ≡ row f n
unfolding row
row-same f g zero h = refl
row-same f g (suc n) h = ground (arith, row-same f g n h, h n)

-- The pairs below `m` and `n` that fail a test.
pub missing : (ℕ → ℕ → Bool) → ℕ → ℕ → ℕ
missing f n zero = 0
missing f n (suc m) = missing f n m + row (f m) n

missing-flip :
    (f g : ℕ → ℕ → Bool) (i q n m : ℕ)
    → ((j x : ℕ) → g j x ≡ (if i == j && q == x then true else f j x))
    → f i q ≡ false
    → q < n
    → (missing g n m + (if ltb i m then 1 else 0)) ≡ missing f n m
unfolding missing
missing-flip f g i q n zero h fails lt = ground arith
missing-flip f g i q n (suc m) h fails lt = elim (Bool-cases (i == m)) [
  | inl same ↦
      let e : i ≡ m = (==_iff i m).0 same in
      let here =
        row-flip (f m) (g m) q n (λ x. ground (arith, h m x))
          (sym (ap (λ (k : ℕ). f k q) e) ∙ fails) in
      ground (arith, missing-flip f g i q n m h fails lt, here)
  | inr other ↦
      let here = row-same (f m) (g m) n (λ x. ground (arith, h m x)) in
      ground (arith, missing-flip f g i q n m h fails lt, here)
]

row-le : (f : ℕ → Bool) (n : ℕ) → row f n ≤ n
unfolding row
row-le f zero = omega arith
row-le f (suc n) = ground (arith, row-le f n)

pub missing-le : (f : ℕ → ℕ → Bool) (n m : ℕ) → missing f n m ≤ m * n
unfolding missing
missing-le f n zero = omega arith
missing-le f n (suc m) = grind (arith, missing-le f n m, row-le (f m) n)

-- What is passed on, and what that changes: `good` tells the processes that a scope may be in.
pub record Round (good : ℕ → ℕ → Type 0) (n : ℕ) (scopes : List Scope) (changed : Bool)
    (scopes' : List Scope) (changed' : Bool) : Type 0 where
  pub sized : length scopes' ≡ length scopes
  pub grows : (j q : ℕ) → has scopes j q ≡ true → has scopes' j q ≡ true
  pub sound : (j q : ℕ) → has scopes' j q ≡ true → good j q
  pub less : missing (has scopes') n n ≤ missing (has scopes) n n
  pub marks :
      changed' ≡ true → (changed ≡ true) ⊎ (missing (has scopes') n n < missing (has scopes) n n)

module _ (good : ℕ → ℕ → Type 0) (n : ℕ) (small : (j q : ℕ) → good j q → q < n) where
  pub still :
      (scopes : List Scope) (changed : Bool)
      → ((j q : ℕ) → has scopes j q ≡ true → good j q)
      → Round good n scopes changed scopes changed
  still scopes changed fine = record {
    sized = refl;
    grows = λ j q h. h;
    sound = fine;
    less = omega arith;
    marks = λ h. inl h;
  }

  pub then-Round :
      (a b c : List Scope) (x y z : Bool)
      → Round good n a x b y
      → Round good n b y c z
      → Round good n a x c z
  then-Round a b c x y z first second = record {
    sized = second.sized ∙ first.sized;
    grows = λ j q h. second.grows j q (first.grows j q h);
    sound = second.sound;
    less = omega (arith, first.less, second.less);
    marks = λ h. elim (second.marks h) [
      | inl before ↦ elim (first.marks before) [
        | inl earlier ↦ inl earlier
        | inr fewer ↦ inr (omega (arith, fewer, second.less))
      ]
      | inr fewer ↦ inr (omega (arith, fewer, first.less))
    ];
  }

  -- One process more for one scope.
  pub add-Round :
      (to p : ℕ) (scopes : List Scope) (changed : Bool)
      → length scopes ≡ n
      → to < n
      → good to p
      → has scopes to p ≡ false
      → ((j q : ℕ) → has scopes j q ≡ true → good j q)
      → Round good n scopes changed (add_process_at to p scopes) true
  add-Round to p scopes changed sized lt may fails fine =
      let law = λ (j q : ℕ). has-add_process_at to p scopes j q (omega (arith, sized)) in
      let flip =
        missing-flip (has scopes) (has (add_process_at to p scopes)) to p n n law fails
          (small to p may) in
      let fewer : missing (has (add_process_at to p scopes)) n n + 1 ≡ missing (has scopes) n n =
        ground (arith, flip) in
      record {
        sized = length-add_process_at to p scopes;
        grows = λ j q h. ground (arith, law j q);
        sound = λ j q h. added j q h law;
        less = omega (arith, fewer);
        marks = λ h. inr (omega (arith, fewer));
      }
    where
      added :
          (j q : ℕ)
          → has (add_process_at to p scopes) j q ≡ true
          → ((j q : ℕ)
              → has (add_process_at to p scopes) j q
                ≡ (if to == j && p == q then true else has scopes j q))
          → good j q
      added j q h law = elim (Bool-cases (to == j && p == q)) [
        | inl here ↦
            let at_j : to ≡ j = ground arith in
            let is_q : p ≡ q = ground arith in
            subst (λ (x : ℕ). good j x) is_q (subst (λ (x : ℕ). good x p) at_j may)
        | inr elsewhere ↦ fine j q (rw elsewhere at (sym (law j q) ∙ h))
      ]
