-- ===== src/Resolve/Atomic.antt =====
-- Backtracking in source/core/resolve/resolve.c: the choice of a candidate is undone when it fails.
use spn.Base.{
  ◌-◌, ◌≡◌, refl, sym, true, not, ◌||◌, ◌==◌, List, [], ◌∷◌, Option, none, some, inl, inr, All,
  Option-cases, Bool-cases, reverse,
}
use mathlib.Core.Path.{subst}
use spn.Semver.{Semver}
use spn.Semver.Compare.{semver_in_range}
use spn.Resolve.Types.{
  Request, Release, ResolveError, Run, Resolver, err_pkg_conflict, err_too_complex,
  err_pkg_no_match,
}
use spn.Resolve.Solver.{Rec, Held, not_held, held, contradiction, find_version, first_error}
use spn.Resolve.Frame.{
  RegistryOk, IsAtomic, fail-IsAtomic, IsAtomic-after, RecAtomic, solve_node-IsAtomic,
}
use spn.Resolve.Search.{find_held, node_of_release, try_candidate, pick_pinned, pick_free, pick}
use spn.Resolve.Steps.{
  IsFree, IsFree-Unchanged, Grows-fatal, Grows-budget, All-reverse, find_version-All,
}

module _ (r : Resolver) {rec : Rec} (atomic : RecAtomic rec) where
  pub try_candidate-IsAtomic :
      (release : Release) (run : Run)
      → RegistryOk run
      → IsFree release.id run
      → IsAtomic run (try_candidate r rec release run)
  unfolding try_candidate node_of_release
  try_candidate-IsAtomic release run ready free = elim (Bool-cases (run.fatal || run.budget == 0)) [
    | inl e ↦
        rw (e, try_candidate)
          (IsAtomic-after (Grows-fatal run) (record { named_same = refl; boundaries_same = refl })
            (fail-IsAtomic (record run { fatal = true }) err_too_complex))
    | inr e ↦
        let spent = record run { budget = run.budget - 1 } in
        rw (e, try_candidate)
          (IsAtomic-after (Grows-budget run) (record { named_same = refl; boundaries_same = refl })
            (solve_node-IsAtomic atomic release.id (node_of_release r release) spent ready refl
              free.fresh free.absent))
  ]

  pick_pinned-IsAtomic :
      (request : Request) (releases : List Release) (pinned : Semver) (run : Run)
      → RegistryOk run
      → IsFree request.qualified run
      → All (λ release. release.id ≡ request.qualified) releases
      → IsAtomic run (pick_pinned r rec request releases pinned run)
  unfolding pick_pinned
  pick_pinned-IsAtomic request releases pinned run ready free own =
      elim (Bool-cases (semver_in_range pinned request.range)) [
        | inr e ↦ rw (e, pick_pinned) (fail-IsAtomic run err_pkg_conflict)
        | inl e ↦ elim (Option-cases (find_version pinned releases)) [
          | inl none_found ↦ rw (e, none_found, pick_pinned) (fail-IsAtomic run err_pkg_conflict)
          | inr (release, found) ↦
              let named =
                find_version-All (λ q. q.id ≡ request.qualified) pinned releases release own
                  found in
              rw (e, found, pick_pinned)
                (try_candidate-IsAtomic release run ready
                  (subst (λ k. IsFree k run) (sym named) free))
        ]
      ]

  pick_free-IsAtomic :
      (request : Request) (releases : List Release) (first : Option ResolveError) (run : Run)
      → RegistryOk run
      → IsFree request.qualified run
      → All (λ release. release.id ≡ request.qualified) releases
      → IsAtomic run (pick_free r rec request releases first run)
  unfolding pick_free
  pick_free-IsAtomic request [] none run ready free own = fail-IsAtomic run err_pkg_no_match
  pick_free-IsAtomic request [] (some e) run ready free own = fail-IsAtomic run e
  pick_free-IsAtomic request (release ∷ rest) first run ready free own =
      elim (Bool-cases (release.yanked || not (semver_in_range release.version request.range))) [
        | inl e ↦ rw (e, pick_free) (pick_free-IsAtomic request rest first run ready free own.1)
        | inr e ↦
            let attempt = try_candidate r rec release run in
            let tried =
              try_candidate-IsAtomic release run ready
                (subst (λ k. IsFree k run) (sym own.0) free) in
            elim (Option-cases attempt.1) [
              | inl done ↦ rw (e, done, pick_free) tried
              | inr (err, failed) ↦
                  let same = tried.failed_unchanged err failed in
                  elim (Bool-cases attempt.0.fatal) [
                    | inl stop ↦ rw (e, failed, stop, pick_free) tried
                    | inr more ↦
                        rw (e, failed, more, pick_free)
                          (IsAtomic-after tried.grows same (
                            pick_free-IsAtomic request rest (first_error first err) attempt.0
                              (tried.grows.registry_ok ready)
                              (IsFree-Unchanged free tried.grows same) own.1))
                  ]
            ]
      ]

  pub pick-IsAtomic :
      (request : Request) (releases : List Release) (run : Run)
      → RegistryOk run
      → IsFree request.qualified run
      → All (λ release. release.id ≡ request.qualified) releases
      → IsAtomic run (pick r rec request releases run)
  unfolding pick
  pick-IsAtomic request releases run ready free own = go (find_held r request.qualified) refl
    where
      go :
          (h : Held)
          → find_held r request.qualified ≡ h
          → IsAtomic run (pick r rec request releases run)
      go not_held e =
          rw (e, pick)
            (pick_free-IsAtomic request (reverse releases) none run ready free
              (All-reverse _ releases own))
      go (held pinned) e =
          rw (e, pick) (pick_pinned-IsAtomic request releases pinned run ready free own)
      go (contradiction pinned) e = rw (e, pick) (fail-IsAtomic run err_pkg_conflict)
