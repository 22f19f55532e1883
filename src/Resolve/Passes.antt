-- ===== src/Resolve/Passes.antt =====
-- The rounds of `compute_processes` of source/core/resolve/resolve.c, and when one changes nothing.
use mathlib.Core.Path.{subst}
use spn.Base.{
  ℕ, ◌<◌, Bool, true, false, List, [], ◌∷◌, ◌==◌, ==_iff, length, ◌≡◌, inl, inr, refl, sym, ◌∙◌,
  arith, Bool-cases, All,
}
use spn.Resolve.Boundaries.{Scope, ScopeEdge}
use spn.Resolve.Processes.{scope_has_process, add_process_at, processes_of, pass_on, pass_edges}
use spn.Resolve.Spread.{has, Round, still, then-Round, add-Round}

All-has :
    (P : ℕ → Type 0) (processes : List ℕ)
    → ((q : ℕ) → scope_has_process processes q ≡ true → P q)
    → All P processes
unfolding scope_has_process
All-has P [] h = tt
All-has P (p ∷ processes) h =
    (h p (ground (arith, ==_iff p p)), All-has P processes (λ q m. h q (ground arith)))

has-All :
    (P : ℕ → Type 0) (processes : List ℕ) (q : ℕ)
    → All P processes
    → scope_has_process processes q ≡ true
    → P q
unfolding scope_has_process
has-All P [] q all h = cc
has-All P (p ∷ processes) q all h = elim (Bool-cases (p == q)) [
  | inl same ↦ subst P ((==_iff p q).0 same) all.0
  | inr other ↦ has-All P processes q all.1 (rw (other, scope_has_process) at h)
]

-- Each private edge leads to a scope with the processes of its source.
abbrev pub Closed : List Scope → ScopeEdge → Type 0
Closed scopes edge =
    edge.private ≡ true → (q : ℕ) → has scopes edge.from q ≡ true → has scopes edge.to q ≡ true

pass_on-there :
    (p : ℕ) (processes : List ℕ) (to : ℕ) (scopes : List Scope) (changed : Bool)
    → has scopes to p ≡ true
    → pass_on (p ∷ processes) to scopes changed ≡ pass_on processes to scopes changed
unfolding pass_on
pass_on-there p processes to scopes changed e = rw (e, pass_on)

pass_on-new :
    (p : ℕ) (processes : List ℕ) (to : ℕ) (scopes : List Scope) (changed : Bool)
    → has scopes to p ≡ false
    → pass_on (p ∷ processes) to scopes changed
      ≡ pass_on processes to (add_process_at to p scopes) true
unfolding pass_on
pass_on-new p processes to scopes changed e = rw (e, pass_on)

pass_edges-open :
    (edge : ScopeEdge) (edges : List ScopeEdge) (scopes : List Scope) (changed : Bool)
    → edge.private ≡ false
    → pass_edges (edge ∷ edges) scopes changed ≡ pass_edges edges scopes changed
unfolding pass_edges
pass_edges-open edge edges scopes changed e = rw (e, pass_edges)

pass_edges-private :
    (edge : ScopeEdge) (edges : List ScopeEdge) (scopes : List Scope) (changed : Bool)
    → edge.private ≡ true
    → pass_edges (edge ∷ edges) scopes changed
      ≡ pass_edges edges
          (pass_on (processes_of scopes edge.from) edge.to scopes changed).0
          (pass_on (processes_of scopes edge.from) edge.to scopes changed).1
unfolding pass_edges
pass_edges-private edge edges scopes changed e = rw (e, pass_edges)

module _ (good : ℕ → ℕ → Type 0) (n : ℕ) (small : (j q : ℕ) → good j q → q < n) where
  -- A round, and what holds where it changed nothing.
  abbrev pub Outcome : List Scope → Bool → Type 0 → List Scope × Bool → Type 0
  Outcome scopes changed settled r =
      Round good n scopes changed r.0 r.1
      × (r.1 ≡ false → (changed ≡ false) × (r.0 ≡ scopes) × settled)

  pass_on-Round :
      (processes : List ℕ) (to : ℕ) (scopes : List Scope) (changed : Bool)
      → length scopes ≡ n
      → to < n
      → All (λ p. good to p) processes
      → ((j q : ℕ) → has scopes j q ≡ true → good j q)
      → Outcome scopes changed
          (All (λ p. has scopes to p ≡ true) processes)
          (pass_on processes to scopes changed)
  pass_on-Round [] to scopes changed sized lt may fine =
      unfold pass_on in (still good n small scopes changed fine, λ h. (h, refl, tt))
  pass_on-Round (p ∷ processes) to scopes changed sized lt may fine =
      elim (Bool-cases (has scopes to p)) [
        | inl there ↦
            let (round, same) = pass_on-Round processes to scopes changed sized lt may.1 fine in
            subst (Outcome scopes changed (All (λ p. has scopes to p ≡ true) (p ∷ processes)))
              (sym (pass_on-there p processes to scopes changed there))
              (round, λ h. let (a, b, c) = same h in (a, b, (there, c)))
        | inr absent ↦
            let added = add-Round good n small to p scopes changed sized lt may.0 absent fine in
            let (round, same) =
              pass_on-Round processes to (add_process_at to p scopes) true (added.sized ∙ sized) lt
                may.1 added.sound in
            subst (Outcome scopes changed (All (λ p. has scopes to p ≡ true) (p ∷ processes)))
              (sym (pass_on-new p processes to scopes changed absent))
              (
                then-Round good n small scopes (add_process_at to p scopes) _ changed true _ added
                    round,
                λ h. cc ((same h).0),
              )
      ]

  -- An edge between scopes that there are, which passes on what is good.
  abbrev pub Passes : ScopeEdge → Type 0
  Passes edge =
      (edge.from < n)
      × (edge.to < n)
      × (edge.private ≡ true → (q : ℕ) → good edge.from q → good edge.to q)

  pub pass_edges-Round :
      (edges : List ScopeEdge) (scopes : List Scope) (changed : Bool)
      → length scopes ≡ n
      → All Passes edges
      → ((j q : ℕ) → has scopes j q ≡ true → good j q)
      → Outcome scopes changed (All (Closed scopes) edges) (pass_edges edges scopes changed)
  pass_edges-Round [] scopes changed sized passes fine =
      unfold pass_edges in (still good n small scopes changed fine, λ h. (h, refl, tt))
  pass_edges-Round (edge ∷ edges) scopes changed sized passes fine =
      elim (Bool-cases edge.private) [
        | inr open_edge ↦
            let (round, same) = pass_edges-Round edges scopes changed sized passes.1 fine in
            subst (Outcome scopes changed (All (Closed scopes) (edge ∷ edges)))
              (sym (pass_edges-open edge edges scopes changed open_edge))
              (round, λ h. let (a, b, c) = same h in (a, b, (λ private. cc, c)))
        | inl private_edge ↦
            let sent = pass_on (processes_of scopes edge.from) edge.to scopes changed in
            let may =
              All-has (λ p. good edge.to p) (processes_of scopes edge.from)
                (λ q m. passes.0.2 private_edge q (fine edge.from q m)) in
            let (first, kept) =
              pass_on-Round (processes_of scopes edge.from) edge.to scopes changed sized passes.0.1
                may fine in
            let (round, same) =
              pass_edges-Round edges sent.0 sent.1 (first.sized ∙ sized) passes.1 first.sound in
            subst (Outcome scopes changed (All (Closed scopes) (edge ∷ edges)))
              (sym (pass_edges-private edge edges scopes changed private_edge))
              (
                then-Round good n small scopes sent.0 _ changed sent.1 _ first round,
                λ h. nothing_new edge edges scopes changed sent kept (same h),
              )
      ]
    where
      nothing_new :
          (edge : ScopeEdge) (edges : List ScopeEdge) (scopes : List Scope) (changed : Bool)
          (sent : List Scope × Bool)
          → (sent.1 ≡ false
              → (changed ≡ false)
                × (sent.0 ≡ scopes)
                × All (λ p. has scopes edge.to p ≡ true) (processes_of scopes edge.from))
          → {last : List Scope} → (sent.1 ≡ false) × (last ≡ sent.0) × All (Closed sent.0) edges
          → (changed ≡ false) × (last ≡ scopes) × (Closed scopes edge × All (Closed scopes) edges)
      nothing_new edge edges scopes changed sent kept (quiet, kept_last, closed) =
          let (before, same, all) = kept quiet in
          (
            before,
            kept_last ∙ same,
            (
              λ private q h.
                  has-All (λ p. has scopes edge.to p ≡ true) (processes_of scopes edge.from) q all
                    h,
              subst (λ (x : List Scope). All (Closed x) edges) same closed,
            ),
          )
