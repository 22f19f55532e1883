-- ===== src/Resolve/Returns.antt =====
-- The choice of a candidate in source/core/resolve/resolve.c does not return the error of
-- missing fuel.
use spn.Base.{
  ℕ, ◌+◌, ◌-◌, ◌<◌, ◌≡◌, ◌≢◌, refl, sym, true, not, ◌||◌, ◌==◌, List, [], ◌∷◌, Option, none, some,
  inl, inr, All, Option-cases, Bool-cases, reverse, arith,
}
use mathlib.Core.Path.{subst}
use spn.Semver.{Semver}
use spn.Semver.Compare.{semver_in_range}
use spn.Resolve.Types.{
  Request, Release, Node, ResolveError, Run, Resolver, Outcome, err_pkg_conflict, err_too_complex,
  err_pkg_no_match, out_of_fuel,
}
use spn.Resolve.Table.{put}
use spn.Resolve.Solver.{
  undo, resolve_each, resolve_deps, solve_node, Rec, Held, not_held, held, contradiction,
  find_version, first_error,
}
use spn.Resolve.Frame.{RegistryOk, RecAtomic, and_then-cases}
use spn.Resolve.Search.{find_held, node_of_release, try_candidate, pick_pinned, pick_free, pick}
use spn.Resolve.Steps.{IsFree, IsFree-Unchanged, All-reverse}
use spn.Resolve.Atomic.{try_candidate-IsAtomic}
use spn.Resolve.Depth.{unvisited, unvisited-cons, RegistryIn, depth, IsDone, fail-IsDone}

first_error-returned :
    (first : Option ResolveError) (e : ResolveError)
    → first ≢ some out_of_fuel
    → some e ≢ some out_of_fuel
    → first_error first e ≢ some out_of_fuel
first_error-returned none e h k = k
first_error-returned (some f) e h k = h

-- What the search assumes of the calls at less fuel.
abbrev pub RecDone : List ℕ → ℕ → Rec → Type 0
RecDone locals fuel rec =
    (node : Node) (dep : Request) (run : Run)
    → RegistryOk run
    → RegistryIn locals run
    → depth locals run < fuel
    → IsDone locals (rec node dep run)

module _ (r : Resolver) (locals : List ℕ) (fuel : ℕ) {rec : Rec} (atomic : RecAtomic rec)
    (enough : RecDone locals fuel rec) where
  pub resolve_each-IsDone :
      (node : Node) (deps : List Request) (run : Run)
      → RegistryOk run
      → RegistryIn locals run
      → depth locals run < fuel
      → IsDone locals (resolve_each rec node deps run)
  unfolding resolve_each
  resolve_each-IsDone node [] run ready inside deep = record {
    registry_in = inside;
    returned = λ h. cc;
  }
  resolve_each-IsDone node (dep ∷ deps) run ready inside deep =
      let first = enough node dep run ready inside deep in
      let grown = (atomic node dep run ready).grows in
      let run' = (rec node dep run).0 in
      let deep' : depth locals run' < fuel =
        rw grown.visited_same (omega (arith, grown.budget_le, deep)) in
      elim (and_then-cases (rec node dep run) (resolve_each rec node deps)) [
        | inl (done, e) ↦
            rw e
              (resolve_each-IsDone node deps run' (grown.registry_ok ready) first.registry_in deep')
        | inr (err, failed, e) ↦ rw e first
      ]

  undo-IsDone : (before : Run) (o : Outcome) → IsDone locals o → IsDone locals (undo before o)
  unfolding undo
  undo-IsDone before (run, none) h = h
  undo-IsDone before (run, some e) h = record { registry_in = h.registry_in; returned = h.returned }

  pub solve_node-IsDone :
      (name : ℕ) (node : Node) (run : Run)
      → RegistryOk run
      → RegistryIn locals run
      → run.budget + unvisited locals (node.qualified ∷ run.visited) < fuel
      → IsDone locals (solve_node rec name node run)
  unfolding solve_node resolve_deps
  solve_node-IsDone name node run ready inside deep =
      let node' = record node { priority = run.picks } in
      let start = record run {
        picks = run.picks + 1;
        named = put name node' run.named;
        visited = node.qualified ∷ run.visited;
      } in
      let each = resolve_each-IsDone node' node.deps start ready inside deep in
      undo-IsDone run
        (resolve_deps rec node'
          (record run { picks = run.picks + 1; named = put name node' run.named }))
        (record { registry_in = each.registry_in; returned = each.returned })

  pub try_candidate-IsDone :
      (release : Release) (run : Run)
      → RegistryOk run
      → RegistryIn locals run
      → depth locals run < fuel + 1
      → IsDone locals (try_candidate r rec release run)
  unfolding try_candidate node_of_release
  try_candidate-IsDone release run ready inside deep =
      elim (Bool-cases (run.fatal || run.budget == 0)) [
        | inl e ↦
            rw (e, try_candidate)
              (fail-IsDone locals (record run { fatal = true }) err_too_complex (cc) inside)
        | inr e ↦
            let spent = record run { budget = run.budget - 1 } in
            let left : 0 < run.budget = ground arith in
            let deep' : spent.budget + unvisited locals (release.id ∷ run.visited) < fuel =
              omega (arith, unvisited-cons locals run.visited release.id, left, deep) in
            rw (e, try_candidate)
              (solve_node-IsDone release.id (node_of_release r release) spent ready inside deep')
      ]

  pick_pinned-IsDone :
      (request : Request) (releases : List Release) (pinned : Semver) (run : Run)
      → RegistryOk run
      → RegistryIn locals run
      → depth locals run < fuel + 1
      → IsDone locals (pick_pinned r rec request releases pinned run)
  unfolding pick_pinned
  pick_pinned-IsDone request releases pinned run ready inside deep =
      elim (Bool-cases (semver_in_range pinned request.range)) [
        | inr e ↦ rw (e, pick_pinned) (fail-IsDone locals run err_pkg_conflict (cc) inside)
        | inl e ↦ elim (Option-cases (find_version pinned releases)) [
          | inl none_found ↦
              rw (e, none_found, pick_pinned) (fail-IsDone locals run err_pkg_conflict (cc) inside)
          | inr (release, found) ↦
              rw (e, found, pick_pinned) (try_candidate-IsDone release run ready inside deep)
        ]
      ]

  pick_free-IsDone :
      (request : Request) (releases : List Release) (first : Option ResolveError) (run : Run)
      → first ≢ some out_of_fuel
      → RegistryOk run
      → RegistryIn locals run
      → IsFree request.qualified run
      → All (λ release. release.id ≡ request.qualified) releases
      → depth locals run < fuel + 1
      → IsDone locals (pick_free r rec request releases first run)
  unfolding pick_free
  pick_free-IsDone request [] none run other ready inside free own deep =
      fail-IsDone locals run err_pkg_no_match (cc) inside
  pick_free-IsDone request [] (some e) run other ready inside free own deep = record {
    registry_in = inside;
    returned = other;
  }
  pick_free-IsDone request (release ∷ rest) first run other ready inside free own deep =
      elim (Bool-cases (release.yanked || not (semver_in_range release.version request.range))) [
        | inl e ↦
            rw (e, pick_free)
              (pick_free-IsDone request rest first run other ready inside free own.1 deep)
        | inr e ↦
            let attempt = try_candidate r rec release run in
            let tried =
              try_candidate-IsAtomic r atomic release run ready
                (subst (λ k. IsFree k run) (sym own.0) free) in
            let done = try_candidate-IsDone release run ready inside deep in
            let deep' : depth locals attempt.0 < fuel + 1 =
              rw tried.grows.visited_same (omega (arith, tried.grows.budget_le, deep)) in
            elim (Option-cases attempt.1) [
              | inl found ↦ rw (e, found, pick_free) done
              | inr (err, failed) ↦ elim (Bool-cases attempt.0.fatal) [
                | inl stop ↦ rw (e, failed, stop, pick_free) done
                | inr more ↦
                    rw (e, failed, more, pick_free)
                      (pick_free-IsDone request rest (first_error first err) attempt.0
                        (first_error-returned first err other (rw failed at done.returned))
                        (tried.grows.registry_ok ready) done.registry_in
                        (IsFree-Unchanged free tried.grows (tried.failed_unchanged err failed))
                        own.1 deep')
              ]
            ]
      ]

  pub pick-IsDone :
      (request : Request) (releases : List Release) (run : Run)
      → RegistryOk run
      → RegistryIn locals run
      → IsFree request.qualified run
      → All (λ release. release.id ≡ request.qualified) releases
      → depth locals run < fuel + 1
      → IsDone locals (pick r rec request releases run)
  unfolding pick
  pick-IsDone request releases run ready inside free own deep =
      go (find_held r request.qualified) refl
    where
      go :
          (h : Held)
          → find_held r request.qualified ≡ h
          → IsDone locals (pick r rec request releases run)
      go not_held e =
          rw (e, pick)
            (pick_free-IsDone request (reverse releases) none run (cc) ready inside free
              (All-reverse _ releases own) deep)
      go (held pinned) e =
          rw (e, pick) (pick_pinned-IsDone request releases pinned run ready inside deep)
      go (contradiction pinned) e =
          rw (e, pick) (fail-IsDone locals run err_pkg_conflict (cc) inside)
