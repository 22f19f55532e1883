-- ===== src/Resolve/Shared.antt =====
-- What `compute_processes` of source/core/resolve/resolve.c computes: the scopes that private edges
-- lead to from the start of each process.
use mathlib.Core.Path.{subst}
use spn.Base.{
  ℕ, zero, suc, ◌*◌, ◌<◌, true, false, ◌&&◌, List, [], ◌∷◌, ◌==◌, length, some, ◌≡◌, ◌↔◌, ◌⊎◌, inl,
  inr, refl, sym, ◌∙◌, arith, Bool-cases, All, In,
}
use spn.Resolve.Boundaries.{Scope, ScopeEdge}
use spn.Resolve.Processes.{
  add_process_at, start_processes, pass_edges, settle_processes, compute_processes,
}
use spn.Resolve.Spread.{has, has-add_process_at, length-add_process_at, missing, missing-le}
use spn.Resolve.Passes.{Closed, Passes, pass_edges-Round}

-- Scope 0 and the scopes that are entered by an edge that is not private start a process.
abbrev pub IsStart : List ScopeEdge → ℕ → Type 0
IsStart edges p =
    (p ≡ 0) ⊎ ((edge : ScopeEdge) × In edge edges × (edge.private ≡ false) × (edge.to ≡ p))

-- The scope is in the process `p`.
pub data InProcess (edges : List ScopeEdge) (p : ℕ) : ℕ → Type 0 where
  own : {i : ℕ} → IsStart edges p → p ≡ i → InProcess edges p i
  passed :
      {i : ℕ} (edge : ScopeEdge)
      → In edge edges
      → edge.private ≡ true
      → InProcess edges p edge.from
      → edge.to ≡ i
      → InProcess edges p i

All-In {κ} : {A : Type 0} (P : A → Type κ) (xs : List A) → ((x : A) → In x xs → P x) → All P xs
All-In P [] h = tt
All-In P (x ∷ xs) h = (h x (inl refl), All-In P xs (λ y m. h y (inr m)))

In-All {κ} : {A : Type 0} (P : A → Type κ) (xs : List A) (x : A) → All P xs → In x xs → P x
In-All P [] x all m = elim m [ ]
In-All P (y ∷ xs) x all (inl e) = subst P (sym e) all.0
In-All P (y ∷ xs) x all (inr m) = In-All P xs x all.1 m

-- What the first loop does.
record Starts (good : ℕ → ℕ → Type 0) (edges : List ScopeEdge) (scopes scopes' : List Scope)
    : Type 0 where
  sized : length scopes' ≡ length scopes
  grows : (j q : ℕ) → has scopes j q ≡ true → has scopes' j q ≡ true
  sound : (j q : ℕ) → has scopes' j q ≡ true → good j q
  begun : (e : ScopeEdge) → In e edges → e.private ≡ false → has scopes' e.to e.to ≡ true

-- A process more, which is good.
has-add_process_at_good :
    (good : ℕ → ℕ → Type 0) (i p : ℕ) (scopes : List Scope)
    → i < length scopes
    → good i p
    → ((j q : ℕ) → has scopes j q ≡ true → good j q)
    → (j q : ℕ) → has (add_process_at i p scopes) j q ≡ true
    → good j q
has-add_process_at_good good i p scopes lt may fine j q h = elim (Bool-cases (i == j && p == q)) [
  | inl here ↦
      let at_j : i ≡ j = ground arith in
      let is_q : p ≡ q = ground arith in
      subst (λ (x : ℕ). good j x) is_q (subst (λ (x : ℕ). good x p) at_j may)
  | inr elsewhere ↦ fine j q (rw elsewhere at (sym (has-add_process_at i p scopes j q lt) ∙ h))
]

start_processes-Starts :
    (good : ℕ → ℕ → Type 0) (edges : List ScopeEdge) (scopes : List Scope)
    → ((e : ScopeEdge) → In e edges → e.to < length scopes)
    → ((e : ScopeEdge) → In e edges → e.private ≡ false → good e.to e.to)
    → ((j q : ℕ) → has scopes j q ≡ true → good j q)
    → Starts good edges scopes (start_processes edges scopes)
unfolding start_processes
start_processes-Starts good [] scopes lt may fine = record {
  sized = refl;
  grows = λ j q h. h;
  sound = fine;
  begun = λ e m. elim m [ ];
}
start_processes-Starts good (edge ∷ edges) scopes lt may fine = elim (Bool-cases edge.private) [
  | inl private_edge ↦
      let rest =
        start_processes-Starts good edges scopes (λ e m. lt e (inr m)) (λ e m. may e (inr m))
          fine in
      rw (private_edge, start_processes)
        (record {
          sized = rest.sized;
          grows = rest.grows;
          sound = rest.sound;
          begun = λ e m open_e. elim m [ inl same ↦ cc | inr later ↦ rest.begun e later open_e ];
        })
  | inr open_edge ↦
      let law = has-add_process_at edge.to edge.to scopes in
      let there = lt edge (inl refl) in
      let rest =
        start_processes-Starts good edges (add_process_at edge.to edge.to scopes)
          (λ e m. omega (arith, lt e (inr m), length-add_process_at edge.to edge.to scopes))
          (λ e m. may e (inr m))
          (has-add_process_at_good good edge.to edge.to scopes there (may edge (inl refl) open_edge)
            fine) in
      rw (open_edge, start_processes)
        (record {
          sized = rest.sized ∙ length-add_process_at edge.to edge.to scopes;
          grows = λ j q h. rest.grows j q (ground (arith, law j q there));
          sound = rest.sound;
          begun = λ e m open_e. elim m [
            | inl same ↦ rest.grows e.to e.to (ground (arith, law e.to e.to there))
            | inr later ↦ rest.begun e later open_e
          ];
        })
]

-- What the second loop ends with.
record Settles (good : ℕ → ℕ → Type 0) (edges : List ScopeEdge) (scopes scopes' : List Scope)
    : Type 0 where
  sized : length scopes' ≡ length scopes
  grows : (j q : ℕ) → has scopes j q ≡ true → has scopes' j q ≡ true
  sound : (j q : ℕ) → has scopes' j q ≡ true → good j q
  closed : All (Closed scopes') edges

settle_processes-Settles :
    (good : ℕ → ℕ → Type 0) (n fuel : ℕ) (edges : List ScopeEdge) (scopes : List Scope)
    (small : (j q : ℕ) → good j q → q < n)
    → length scopes ≡ n
    → All (Passes good n small) edges
    → ((j q : ℕ) → has scopes j q ≡ true → good j q)
    → missing (has scopes) n n < fuel
    → (scopes' : List Scope) × (settle_processes fuel edges scopes ≡ some scopes')
      × Settles good edges scopes scopes'
unfolding settle_processes
settle_processes-Settles good n zero edges scopes small sized passes fine lt = absurd (omega arith)
settle_processes-Settles good n (suc fuel) edges scopes small sized passes fine lt =
    let (round, quiet) = pass_edges-Round good n small edges scopes false sized passes fine in
    elim (Bool-cases (pass_edges edges scopes false).1) [
      | inr unchanged ↦
          let (_, same, closed) = quiet unchanged in
          (
            (pass_edges edges scopes false).0,
            rw (unchanged, settle_processes),
            record {
              sized = round.sized;
              grows = round.grows;
              sound = round.sound;
              closed = subst (λ (x : List Scope). All (Closed x) edges) (sym same) closed;
            },
          )
      | inl changed ↦
          let fewer : missing (has (pass_edges edges scopes false).0) n n < fuel =
            elim (round.marks changed) [
              | inl no_change ↦ cc
              | inr less ↦ omega (arith, less, lt)
            ] in
          let (r, e, rest) =
            settle_processes-Settles good n fuel edges (pass_edges edges scopes false).0 small
              (round.sized ∙ sized) passes round.sound fewer in
          (
            r,
            rw (changed, settle_processes) e,
            record {
              sized = rest.sized ∙ round.sized;
              grows = λ j q h. rest.grows j q (round.grows j q h);
              sound = rest.sound;
              closed = rest.closed;
            },
          )
    ]

-- A scope that may be in a process, which is one of the scopes.
abbrev MayShare : List ScopeEdge → ℕ → ℕ → ℕ → Type 0
MayShare edges n j q = InProcess edges q j × (q < n)

-- Where the processes have begun and no private edge has more to pass on, every scope is in the
-- processes that it should be in.
Closed-complete :
    (edges : List ScopeEdge) (scopes : List Scope)
    → has scopes 0 0 ≡ true
    → ((e : ScopeEdge) → In e edges → e.private ≡ false → has scopes e.to e.to ≡ true)
    → All (Closed scopes) edges
    → (p i : ℕ) → InProcess edges p i
    → has scopes i p ≡ true
Closed-complete edges scopes at_zero begun closed p i (own (inl zero_p) same) =
    subst (λ (x : ℕ). has scopes x p ≡ true) same
      (subst (λ (x : ℕ). has scopes x x ≡ true) (sym zero_p) at_zero)
Closed-complete edges scopes at_zero begun closed p i (own (inr (e, m, open_e, to_p)) same) =
    subst (λ (x : ℕ). has scopes x p ≡ true) same
      (subst (λ (x : ℕ). has scopes x x ≡ true) to_p (begun e m open_e))
Closed-complete edges scopes at_zero begun closed p i (passed edge m private from to_i) =
    subst (λ (x : ℕ). has scopes x p ≡ true) to_i
      (In-All (Closed scopes) edges edge closed m private p
        (Closed-complete edges scopes at_zero begun closed p edge.from from))

-- For scopes that are in no process yet, the first of which is there, and edges between them, more
-- fuel than the square of the number of scopes is enough; then a scope is in a process exactly if it is
-- the scope that starts it, or private edges lead to it from there.
pub compute_processes_iff :
    (fuel : ℕ) (edges : List ScopeEdge) (scopes : List Scope)
    → ((j q : ℕ) → has scopes j q ≡ false)
    → 0 < length scopes
    → ((e : ScopeEdge) → In e edges → (e.from < length scopes) × (e.to < length scopes))
    → length scopes * length scopes < fuel
    → (scopes' : List Scope) × (compute_processes fuel edges scopes ≡ some scopes')
      × ((i p : ℕ) → (has scopes' i p ≡ true) ↔ InProcess edges p i)
unfolding compute_processes
compute_processes_iff fuel edges scopes new positive valid enough =
    let n = length scopes in
    let first = add_process_at 0 0 scopes in
    let first_sized : length first ≡ length scopes = length-add_process_at 0 0 scopes in
    let starts =
      start_processes-Starts (MayShare edges n) edges first
        (λ e m. omega (arith, (valid e m).1, first_sized))
        (λ e m open_e. (own (inr (e, m, open_e, refl)) refl, (valid e m).1))
        (has-add_process_at_good (MayShare edges n) 0 0 scopes positive
          (own (inl refl) refl, positive) (λ j q h. cc (new j q))) in
    let begun = start_processes edges first in
    let sized : length begun ≡ n = starts.sized ∙ first_sized in
    let zero_there : has begun 0 0 ≡ true =
      starts.grows 0 0 (ground (arith, has-add_process_at 0 0 scopes 0 0 positive)) in
    let (last, e, done) =
      settle_processes-Settles (MayShare edges n) n fuel edges begun (λ j q m. m.1) sized
        (All-In (Passes (MayShare edges n) n (λ j q m. m.1)) edges (λ edge m. (
          (valid edge m).0,
          (valid edge m).1,
          λ private q from. (passed edge m private from.0 refl, from.1),
        )))
        starts.sound (omega (arith, missing-le (has begun) n n, enough)) in
    (
      last,
      e,
      λ i p. (
        λ h. (done.sound i p h).0,
        λ h.
            Closed-complete edges last (done.grows 0 0 zero_there)
              (λ edge m open_e. done.grows edge.to edge.to (starts.begun edge m open_e)) done.closed
              p i h,
      ),
    )
