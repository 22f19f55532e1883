-- ===== src/Resolve/SameChoice.antt =====
-- The choice of a candidate in source/core/resolve/resolve.c gives one result for all recursive calls
-- that agree on what it asks of them.
use spn.Base.{
  ℕ, ◌+◌, ◌-◌, ◌<◌, ◌≡◌, refl, sym, ap, ◌∙◌, not, ◌||◌, ◌==◌, List, [], ◌∷◌, Option, none, some,
  inl, inr, All, Option-cases, Bool-cases, reverse, arith, if◌then◌else◌,
}
use mathlib.Core.Path.{subst}
use spn.Semver.{Semver}
use spn.Semver.Compare.{semver_in_range}
use spn.Resolve.Types.{Request, Release, Node, ResolveError, Run, Resolver, Outcome}
use spn.Resolve.Table.{put, erase}
use spn.Resolve.Solver.{
  undo, and_then, resolve_each, resolve_deps, solve_node, Rec, Held, not_held, held, contradiction,
  find_version, first_error,
}
use spn.Resolve.Frame.{RegistryOk, RecAtomic}
use spn.Resolve.Search.{find_held, node_of_release, try_candidate, pick_pinned, pick_free, pick}
use spn.Resolve.Steps.{IsFree, IsFree-Unchanged, All-reverse}
use spn.Resolve.Atomic.{try_candidate-IsAtomic}
use spn.Resolve.Depth.{unvisited, unvisited-cons, RegistryIn, depth}
use spn.Resolve.Returns.{RecDone, try_candidate-IsDone}

-- The two calls agree wherever the search can come to with less than `fuel` steps left.
abbrev pub RecSame : List ℕ → ℕ → Rec → Rec → Type 0
RecSame locals fuel rec other =
    (node : Node) (dep : Request) (run : Run)
    → RegistryOk run
    → RegistryIn locals run
    → depth locals run < fuel
    → other node dep run ≡ rec node dep run

and_then_same :
    (o : Outcome) (k other : Run → Outcome)
    → (o.1 ≡ none → other o.0 ≡ k o.0)
    → and_then o other ≡ and_then o k
and_then_same (run, none) k other h = h refl
and_then_same (run, some e) k other h = refl

-- What `pick_free` does with the outcome of a candidate.
abbrev after_try : Outcome → (ResolveError → Run → Outcome) → Outcome
after_try o next = elim o.1 [ none ↦ o | some e ↦ if o.0.fatal then o else next e o.0 ]

after_try_same :
    (o : Outcome) (next other : ResolveError → Run → Outcome)
    → ((e : ResolveError) → o.1 ≡ some e → other e o.0 ≡ next e o.0)
    → after_try o other ≡ after_try o next
after_try_same (run, none) next other h = refl
after_try_same (run, some e) next other h =
    ap (λ o. if run.fatal then (run, some e) else o) (h e refl)

module _ (r : Resolver) (locals : List ℕ) (fuel : ℕ) {rec other : Rec} (atomic : RecAtomic rec)
    (enough : RecDone locals fuel rec) (same : RecSame locals fuel rec other) where
  pub resolve_each_same :
      (node : Node) (deps : List Request) (run : Run)
      → RegistryOk run
      → RegistryIn locals run
      → depth locals run < fuel
      → resolve_each other node deps run ≡ resolve_each rec node deps run
  unfolding resolve_each
  resolve_each_same node [] run ready inside deep = refl
  resolve_each_same node (dep ∷ deps) run ready inside deep =
      let first = enough node dep run ready inside deep in
      let grown = (atomic node dep run ready).grows in
      let run' = (rec node dep run).0 in
      let deep' : depth locals run' < fuel =
        rw grown.visited_same (omega (arith, grown.budget_le, deep)) in
      ap (λ o. and_then o (resolve_each other node deps)) (same node dep run ready inside deep)
      ∙ and_then_same (rec node dep run) (resolve_each rec node deps) (resolve_each other node deps)
          (λ _. resolve_each_same node deps run' (grown.registry_ok ready) first.registry_in deep')

  pub solve_node_same :
      (name : ℕ) (node : Node) (run : Run)
      → RegistryOk run
      → RegistryIn locals run
      → run.budget + unvisited locals (node.qualified ∷ run.visited) < fuel
      → solve_node other name node run ≡ solve_node rec name node run
  unfolding solve_node resolve_deps
  solve_node_same name node run ready inside deep =
      let node' = record node { priority = run.picks } in
      ap
        (λ (o : Outcome). undo run (record o.0 { visited = erase o.0.visited node.qualified }, o.1))
        (resolve_each_same node' node.deps
          (record run {
            picks = run.picks + 1;
            named = put name node' run.named;
            visited = node.qualified ∷ run.visited;
          })
          ready inside deep)

  try_candidate_same :
      (release : Release) (run : Run)
      → RegistryOk run
      → RegistryIn locals run
      → depth locals run < fuel + 1
      → try_candidate r other release run ≡ try_candidate r rec release run
  unfolding try_candidate node_of_release
  try_candidate_same release run ready inside deep =
      elim (Bool-cases (run.fatal || run.budget == 0)) [
        | inl e ↦ rw (e, try_candidate) refl
        | inr e ↦
            let spent = record run { budget = run.budget - 1 } in
            let left : 0 < run.budget = ground arith in
            let deep' : spent.budget + unvisited locals (release.id ∷ run.visited) < fuel =
              omega (arith, unvisited-cons locals run.visited release.id, left, deep) in
            rw (e, try_candidate)
              (solve_node_same release.id (node_of_release r release) spent ready inside deep')
      ]

  pick_pinned_same :
      (request : Request) (releases : List Release) (pinned : Semver) (run : Run)
      → RegistryOk run
      → RegistryIn locals run
      → depth locals run < fuel + 1
      → pick_pinned r other request releases pinned run
        ≡ pick_pinned r rec request releases pinned run
  unfolding pick_pinned
  pick_pinned_same request releases pinned run ready inside deep =
      elim (Bool-cases (semver_in_range pinned request.range)) [
        | inr e ↦ rw (e, pick_pinned) refl
        | inl e ↦ elim (Option-cases (find_version pinned releases)) [
          | inl none_found ↦ rw (e, none_found, pick_pinned) refl
          | inr (release, found) ↦
              rw (e, found, pick_pinned) (try_candidate_same release run ready inside deep)
        ]
      ]

  pick_free_same :
      (request : Request) (releases : List Release) (first : Option ResolveError) (run : Run)
      → RegistryOk run
      → RegistryIn locals run
      → IsFree request.qualified run
      → All (λ release. release.id ≡ request.qualified) releases
      → depth locals run < fuel + 1
      → pick_free r other request releases first run ≡ pick_free r rec request releases first run
  unfolding pick_free
  pick_free_same request [] none run ready inside free own deep = refl
  pick_free_same request [] (some e) run ready inside free own deep = refl
  pick_free_same request (release ∷ rest) first run ready inside free own deep =
      elim (Bool-cases (release.yanked || not (semver_in_range release.version request.range))) [
        | inl e ↦
            rw (e, pick_free) (pick_free_same request rest first run ready inside free own.1 deep)
        | inr e ↦
            let attempt = try_candidate r rec release run in
            let agree = try_candidate_same release run ready inside deep in
            let tried =
              try_candidate-IsAtomic r atomic release run ready
                (subst (λ k. IsFree k run) (sym own.0) free) in
            let done =
              try_candidate-IsDone r locals fuel atomic enough release run ready inside deep in
            let deep' : depth locals attempt.0 < fuel + 1 =
              rw tried.grows.visited_same (omega (arith, tried.grows.budget_le, deep)) in
            let skip : Rec → ResolveError → Run → Outcome =
              λ c err. pick_free r c request rest (first_error first err) in
            rw (e, pick_free)
              (ap (λ o. after_try o (skip other)) agree
                ∙ after_try_same attempt (skip rec) (skip other) (λ err failed.
                  pick_free_same request rest (first_error first err) attempt.0
                    (tried.grows.registry_ok ready) done.registry_in
                    (IsFree-Unchanged free tried.grows (tried.failed_unchanged err failed)) own.1
                    deep'))
      ]

  pub pick_same :
      (request : Request) (releases : List Release) (run : Run)
      → RegistryOk run
      → RegistryIn locals run
      → IsFree request.qualified run
      → All (λ release. release.id ≡ request.qualified) releases
      → depth locals run < fuel + 1
      → pick r other request releases run ≡ pick r rec request releases run
  unfolding pick
  pick_same request releases run ready inside free own deep =
      go (find_held r request.qualified) refl
    where
      go :
          (h : Held)
          → find_held r request.qualified ≡ h
          → pick r other request releases run ≡ pick r rec request releases run
      go not_held e =
          rw (e, pick)
            (pick_free_same request (reverse releases) none run ready inside free
              (All-reverse _ releases own) deep)
      go (held pinned) e =
          rw (e, pick) (pick_pinned_same request releases pinned run ready inside deep)
      go (contradiction pinned) e = rw (e, pick) refl
