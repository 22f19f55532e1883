-- ===== src/Resolve/Picked.antt =====
-- The candidate that source/core/resolve/resolve.c picks: its version fits the request and the pins.
use spn.Base.{
  ℕ, ◌-◌, ◌≡◌, refl, sym, true, not, ◌||◌, ◌==◌, List, [], ◌∷◌, Option, none, some, inl, inr, All,
  Option-cases, Bool-cases, reverse, arith,
}
use mathlib.Core.Path.{subst}
use spn.Semver.{Semver}
use spn.Semver.Compare.{semver_eq, semver_in_range}
use spn.Resolve.Types.{
  Request, Release, Node, ResolveError, Run, Resolver, err_pkg_conflict, err_too_complex,
  err_pkg_no_match,
}
use spn.Resolve.Table.{find}
use spn.Resolve.Solver.{Rec, Held, not_held, held, contradiction, find_version, first_error}
use spn.Resolve.Frame.{RegistryOk, RecAtomic}
use spn.Resolve.Search.{find_held, node_of_release, try_candidate, pick_pinned, pick_free, pick}
use spn.Resolve.Steps.{IsFree, IsFree-Unchanged, All-reverse, find_version-All}
use spn.Resolve.Atomic.{try_candidate-IsAtomic}
use spn.Resolve.Pins.{MeetsPins, held-MeetsPins, not_held-MeetsPins, semver_eq-same}
use spn.Resolve.Valid.{Nodes, Chosen, Inv, IsSound, IsSound-map, fail-IsSound}
use spn.Resolve.Settle.{RecSound, HasNode, solve_node-IsSound}

-- There is a node of that name whose version is in the range of the request.
abbrev pub HasVersion : Request → Nodes → Type 0
HasVersion request named =
    (node : Node) × (find request.qualified named ≡ some node)
    × (semver_in_range node.version request.range ≡ true)

find_version-same :
    (version : Semver) (releases : List Release) (release : Release)
    → find_version version releases ≡ some release
    → release.version ≡ version
unfolding find_version semver_eq
find_version-same version [] release h = cc
find_version-same version (first ∷ rest) release h =
    elim (Bool-cases (semver_eq first.version version)) [
      | inl hit ↦
          let same : first ≡ release = ground (arith, hit, h) in
          rw same at (semver_eq-same first.version version hit)
      | inr miss ↦ find_version-same version rest release (rw (miss, find_version) at h)
    ]

-- A node in the range of the request serves it.
HasNode-HasVersion :
    (request : Request) (name : ℕ) (node : Node)
    → name ≡ request.qualified
    → semver_in_range node.version request.range ≡ true
    → (named : Nodes) → HasNode name node named
    → HasVersion request named
HasNode-HasVersion request name node own fits named (n, found, version) =
    (n, rw own at found, rw version fits)

module _ (r : Resolver) {rec : Rec} (atomic : RecAtomic rec) (sound : RecSound r rec) where
  try_candidate-IsSound :
      (request : Request) (release : Release) (run : Run)
      → RegistryOk run
      → Inv r run
      → release.id ≡ request.qualified
      → MeetsPins r request.qualified release.version
      → semver_in_range release.version request.range ≡ true
      → IsFree request.qualified run
      → IsSound r (try_candidate r rec release run) (HasVersion request)
  unfolding try_candidate node_of_release
  try_candidate-IsSound request release run ready inv own pins fits free =
      elim (Bool-cases (run.fatal || run.budget == 0)) [
        | inl e ↦
            rw (e, try_candidate)
              (fail-IsSound r (record run { fatal = true }) err_too_complex (HasVersion request)
                inv)
        | inr e ↦
            let spent = record run { budget = run.budget - 1 } in
            let free' = subst (λ k. IsFree k run) (sym own) free in
            let chosen : Chosen r release.id (node_of_release r release) = record {
              own_name = refl;
              meets_pins = subst (λ k. MeetsPins r k release.version) (sym own) pins;
            } in
            rw (e, try_candidate)
              (IsSound-map r
                (HasNode-HasVersion request release.id (node_of_release r release) own fits)
                (solve_node-IsSound r atomic sound release.id (node_of_release r release) spent
                  ready inv chosen free'.fresh free'.absent))
      ]

  pick_pinned-IsSound :
      (request : Request) (releases : List Release) (pinned : Semver) (run : Run)
      → RegistryOk run
      → Inv r run
      → find_held r request.qualified ≡ held pinned
      → IsFree request.qualified run
      → All (λ release. release.id ≡ request.qualified) releases
      → IsSound r (pick_pinned r rec request releases pinned run) (HasVersion request)
  unfolding pick_pinned
  pick_pinned-IsSound request releases pinned run ready inv pin free own =
      elim (Bool-cases (semver_in_range pinned request.range)) [
        | inr e ↦ rw (e, pick_pinned) (fail-IsSound r run err_pkg_conflict (HasVersion request) inv)
        | inl e ↦ elim (Option-cases (find_version pinned releases)) [
          | inl none_found ↦
              rw (e, none_found, pick_pinned)
                (fail-IsSound r run err_pkg_conflict (HasVersion request) inv)
          | inr (release, found) ↦
              let named =
                find_version-All (λ q. q.id ≡ request.qualified) pinned releases release own
                  found in
              let version = find_version-same pinned releases release found in
              let pins =
                subst (λ v. MeetsPins r request.qualified v) (sym version)
                  (held-MeetsPins r request.qualified pinned pin) in
              rw (e, found, pick_pinned)
                (try_candidate-IsSound request release run ready inv named pins (rw version e) free)
        ]
      ]

  pick_free-IsSound :
      (request : Request) (releases : List Release) (first : Option ResolveError) (run : Run)
      → RegistryOk run
      → Inv r run
      → find_held r request.qualified ≡ not_held
      → IsFree request.qualified run
      → All (λ release. release.id ≡ request.qualified) releases
      → IsSound r (pick_free r rec request releases first run) (HasVersion request)
  unfolding pick_free
  pick_free-IsSound request [] none run ready inv pin free own =
      fail-IsSound r run err_pkg_no_match (HasVersion request) inv
  pick_free-IsSound request [] (some e) run ready inv pin free own =
      fail-IsSound r run e (HasVersion request) inv
  pick_free-IsSound request (release ∷ rest) first run ready inv pin free own =
      elim (Bool-cases (release.yanked || not (semver_in_range release.version request.range))) [
        | inl e ↦
            rw (e, pick_free) (pick_free-IsSound request rest first run ready inv pin free own.1)
        | inr e ↦
            let attempt = try_candidate r rec release run in
            let tried =
              try_candidate-IsAtomic r atomic release run ready
                (subst (λ k. IsFree k run) (sym own.0) free) in
            let pins = not_held-MeetsPins r request.qualified release.version pin in
            let solved =
              try_candidate-IsSound request release run ready inv own.0 pins (ground arith) free in
            elim (Option-cases attempt.1) [
              | inl done ↦ rw (e, done, pick_free) solved
              | inr (err, failed) ↦ elim (Bool-cases attempt.0.fatal) [
                | inl stop ↦ rw (e, failed, stop, pick_free) solved
                | inr more ↦
                    rw (e, failed, more, pick_free)
                      (pick_free-IsSound request rest (first_error first err) attempt.0
                        (tried.grows.registry_ok ready) solved.kept pin
                        (IsFree-Unchanged free tried.grows (tried.failed_unchanged err failed))
                        own.1)
              ]
            ]
      ]

  pub pick-IsSound :
      (request : Request) (releases : List Release) (run : Run)
      → RegistryOk run
      → Inv r run
      → IsFree request.qualified run
      → All (λ release. release.id ≡ request.qualified) releases
      → IsSound r (pick r rec request releases run) (HasVersion request)
  unfolding pick
  pick-IsSound request releases run ready inv free own = go (find_held r request.qualified) refl
    where
      go :
          (h : Held)
          → find_held r request.qualified ≡ h
          → IsSound r (pick r rec request releases run) (HasVersion request)
      go not_held e =
          rw (e, pick)
            (pick_free-IsSound request (reverse releases) none run ready inv e free
              (All-reverse _ releases own))
      go (held pinned) e =
          rw (e, pick) (pick_pinned-IsSound request releases pinned run ready inv e free own)
      go (contradiction pinned) e =
          rw (e, pick) (fail-IsSound r run err_pkg_conflict (HasVersion request) inv)
