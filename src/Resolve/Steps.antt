-- ===== src/Resolve/Steps.antt =====
-- Small steps of the search in source/core/resolve/resolve.c, and when a name may be solved.
use spn.Base.{
  ℕ, ◌-◌, ◌≡◌, refl, sym, true, false, List, [], ◌∷◌, ◌++◌, append-nil, none, some, inl, inr, arith,
  All, Bool-cases, reverse,
}
use mathlib.Core.Path.{subst}
use mathlib.Core.List.{reverse-append}
use mathlib.Core.Option.{some-injective}
use spn.Semver.{Semver}
use spn.Semver.Compare.{semver_eq}
use spn.Resolve.Types.{Release, LocalPkg, Boundary, index_found, Run, Resolver}
use spn.Resolve.Table.{contains, find, put, find-put}
use spn.Resolve.Solver.{find_version}
use spn.Resolve.Frame.{RegistryOk, Grows, Unchanged}

-- The index answers a name with releases of that name.
abbrev pub IndexOk : Resolver → Type 0
IndexOk r =
    (name : ℕ) (releases : List Release)
    → r.get_package name ≡ index_found releases
    → All (λ release. release.id ≡ name) releases

-- A name that may be solved now: it is not in progress and has no node yet.
pub record IsFree (name : ℕ) (run : Run) : Type 0 where
  pub fresh : contains run.visited name ≡ false
  pub absent : find name run.named ≡ none

pub IsFree-Unchanged :
    {name : ℕ} {s t : Run} → IsFree name s → Grows s t → Unchanged s t → IsFree name t
IsFree-Unchanged {name} {s} {t} f g u = record {
  fresh = rw g.visited_same f.fresh;
  absent = rw u.named_same f.absent;
}

-- Steps that leave nodes, boundaries and the names in progress alone.
pub Grows-fatal : (s : Run) → Grows s (record s { fatal = true })
Grows-fatal s = record {
  visited_same = refl;
  added = [];
  named_grows = sym (append-nil s.named);
  added_new = tt;
  extra = [];
  boundaries_grow = sym (append-nil s.boundaries);
  budget_le = omega arith;
  registry_ok = λ h. h;
}

pub Grows-budget : (s : Run) → Grows s (record s { budget = s.budget - 1 })
Grows-budget s = record {
  visited_same = refl;
  added = [];
  named_grows = sym (append-nil s.named);
  added_new = tt;
  extra = [];
  boundaries_grow = sym (append-nil s.boundaries);
  budget_le = omega arith;
  registry_ok = λ h. h;
}

RegistryOk-put :
    (s : Run) (name : ℕ) (pkg : LocalPkg)
    → pkg.qualified ≡ name
    → RegistryOk s
    → RegistryOk (record s { registry = put name pkg s.registry })
RegistryOk-put s name pkg same ready k p h =
    ground (arith, find-put name k pkg s.registry, ready k p)

pub Grows-registry :
    (s : Run) (name : ℕ) (pkg : LocalPkg)
    → pkg.qualified ≡ name
    → Grows s (record s { registry = put name pkg s.registry })
Grows-registry s name pkg same = record {
  visited_same = refl;
  added = [];
  named_grows = sym (append-nil s.named);
  added_new = tt;
  extra = [];
  boundaries_grow = sym (append-nil s.boundaries);
  budget_le = omega arith;
  registry_ok = RegistryOk-put s name pkg same;
}

pub Grows-boundary :
    (s : Run) (b : Boundary) → Grows s (record s { boundaries = s.boundaries ++ b ∷ [] })
Grows-boundary s b = record {
  visited_same = refl;
  added = [];
  named_grows = sym (append-nil s.named);
  added_new = tt;
  extra = b ∷ [];
  boundaries_grow = refl;
  budget_le = omega arith;
  registry_ok = λ h. h;
}

All-append {ℓ} :
    {A : Type ℓ} (P : A → Type 0) (xs ys : List A) → All P xs → All P ys → All P (xs ++ ys)
All-append P [] ys h k = k
All-append P (x ∷ xs) ys h k = (h.0, All-append P xs ys h.1 k)

pub All-reverse {ℓ} : {A : Type ℓ} (P : A → Type 0) (xs : List A) → All P xs → All P (reverse xs)
All-reverse P [] h = tt
All-reverse P (x ∷ xs) h =
    rw (reverse-append (x ∷ []) xs)
      (All-append P (reverse xs) (x ∷ []) (All-reverse P xs h.1) (h.0, tt))

pub find_version-All :
    (P : Release → Type 0) (version : Semver) (releases : List Release) (release : Release)
    → All P releases
    → find_version version releases ≡ some release
    → P release
unfolding find_version
find_version-All P version [] release h e = cc
find_version-All P version (first ∷ rest) release h e =
    elim (Bool-cases (semver_eq first.version version)) [
      | inl hit ↦ subst P (some-injective first release (rw (hit, find_version) at e)) h.0
      | inr miss ↦ find_version-All P version rest release h.1 (rw (miss, find_version) at e)
    ]
