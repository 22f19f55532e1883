-- ===== src/Resolve/Depth.antt =====
-- How deep the search of source/core/resolve/resolve.c can go: the budget and the local packages.
use spn.Base.{
  ℕ, ◌+◌, ◌≤◌, ◌<◌, ◌≡◌, ◌≢◌, refl, true, false, List, [], ◌∷◌, some, inl, inr, arith, ◌==◌, ==_iff,
  if◌then◌else◌, Bool-cases, length,
}
use spn.Resolve.Types.{Request, LocalPkg, Run, Resolver, ResolveError, Outcome, out_of_fuel}
use spn.Resolve.Table.{contains, find, put, find-put}
use spn.Resolve.Solver.{fail}

-- The number of names on the list that are not in progress.
unfoldable pub unvisited : List ℕ → List ℕ → ℕ
unvisited [] visited = 0
unvisited (name ∷ names) visited =
    if contains visited name then unvisited names visited else unvisited names visited + 1

pub unvisited-cons :
    (names visited : List ℕ) (k : ℕ) → unvisited names (k ∷ visited) ≤ unvisited names visited
unfolding unvisited contains
unvisited-cons [] visited k = omega arith
unvisited-cons (name ∷ names) visited k = ground (arith, unvisited-cons names visited k)

pub unvisited-cons_fresh :
    (names visited : List ℕ) (k : ℕ)
    → contains names k ≡ true
    → contains visited k ≡ false
    → unvisited names (k ∷ visited) < unvisited names visited
unfolding unvisited contains
unvisited-cons_fresh [] visited k listed fresh = cc
unvisited-cons_fresh (name ∷ names) visited k listed fresh = elim (Bool-cases (name == k)) [
  | inl hit ↦ ground (arith, ==_iff name k, unvisited-cons names visited k)
  | inr miss ↦ ground (arith, ==_iff name k, unvisited-cons_fresh names visited k)
]

pub unvisited-nil : (names : List ℕ) → unvisited names [] ≡ length names
unfolding unvisited contains
unvisited-nil [] = refl
unvisited-nil (name ∷ names) = ground (arith, unvisited-nil names)

-- Every manifest that the loader reads, under the name that was asked for, is a listed package.
abbrev pub LoaderIn : List ℕ → Resolver → Type 0
LoaderIn locals r =
    (request : Request) (pkg : LocalPkg)
    → r.load_pkg request ≡ some pkg
    → pkg.qualified ≡ request.qualified
    → contains locals request.qualified ≡ true

module _ (locals : List ℕ) where
  -- Every registered package is a listed one.
  abbrev pub RegistryIn : Run → Type 0
  RegistryIn run =
      (k : ℕ) (pkg : LocalPkg) → find k run.registry ≡ some pkg → contains locals k ≡ true

  -- How much deeper the search can go.
  abbrev pub depth : Run → ℕ
  depth run = run.budget + unvisited locals run.visited

  -- The call does not return the error of missing fuel.
  pub record IsDone (o : Outcome) : Type 0 where
    pub registry_in : RegistryIn o.0
    pub returned : o.1 ≢ some out_of_fuel

  pub fail-IsDone :
      (run : Run) (e : ResolveError) → e ≢ out_of_fuel → RegistryIn run → IsDone (fail run e)
  fail-IsDone run e other inside = record { registry_in = inside; returned = λ h. other (cc) }

  pub RegistryIn-put :
      (run : Run) (name : ℕ) (pkg : LocalPkg)
      → contains locals name ≡ true
      → RegistryIn run
      → RegistryIn (record run { registry = put name pkg run.registry })
  RegistryIn-put run name pkg listed inside k p h =
      ground (arith, find-put name k pkg run.registry, inside k p, ==_iff name k)
