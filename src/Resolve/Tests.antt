-- ===== src/Resolve/Tests.antt =====
-- Searches that have to go back, that a pin is forced on or that lack fuel, at concrete requests.
use spn.Base.{◌≢◌, All, arith, ℕ, ◌≡◌, [], ◌∷◌, none, some, refl, ◌==◌, if◌then◌else◌, map}
use spn.When.{when_eval}
use spn.Semver.{Semver}
use spn.Semver.Convert.{semver_lit, caret_to_range}
use spn.Resolve.Types.{Pin, out_of_fuel, Resolver, index_found, err_pkg_conflict}
use spn.Resolve.Solver.{root_node}
use spn.Resolve.Table.{contains, find, put, erase, keys, keep_keys}
use spn.Semver.Compare.{semver_in_range, semver_eq}
use spn.Resolve.Frame.{IsAtomic}
use spn.Resolve.Search.{resolve_dep, solve_reqs}
use spn.Resolve.Valid.{Complete, Served}
use spn.Resolve.Complete.{solve_reqs-Complete}
use spn.Resolve.Enough.{solve_reqs-returns}
use spn.Resolve.Backtrack.{resolve_dep-IsAtomic}
use spn.Resolve.Samples.{
  index_dep, release, get_package, resolver, start, request, picked, index_ok, start_ok, loader_in,
  start_in,
}

-- The newest release of 1 needs 2, the older one nothing.
abbrev short : Resolver
short = record resolver {
  get_package = λ name.
      if name == 1
      then index_found
          (release 1 (semver_lit 1 4 0) [] ∷ release 1 (semver_lit 1 5 0) (index_dep 2 2 ∷ []) ∷ [])
      else get_package name;
}

-- The newer release is given up, with the node of 2 that it had brought in.
goes_back :
    map picked (solve_reqs resolver 5 (request 1 1 ∷ []) start).0.named
    ≡ (1, semver_lit 1 4 0) ∷ (2, semver_lit 2 0 0) ∷ []
unfolding solve_reqs contains find put erase keys keep_keys semver_in_range caret_to_range semver_eq
    when_eval
goes_back = refl

abbrev pin : ℕ → Semver → Pin
pin name version = record { name = name; version = version }

abbrev forcing : Resolver
forcing = record resolver {
  forced = some (pin 1 (semver_lit 1 4 0));
  pins = pin 1 (semver_lit 1 5 0) ∷ pin 1 (semver_lit 1 6 0) ∷ [];
}

-- The forced pin hides the pins of its name, though they contradict each other.
forced_first :
    map picked (solve_reqs forcing 21 (request 1 1 ∷ []) start).0.named
    ≡ (1, semver_lit 1 4 0) ∷ (2, semver_lit 2 0 0) ∷ []
unfolding solve_reqs contains find put erase keys keep_keys semver_in_range caret_to_range semver_eq
    when_eval
forced_first = refl

-- With too little fuel the newest release is given up without an error: here 2 needs a call more.
short_of_fuel :
    map picked (solve_reqs short 1 (request 1 1 ∷ []) start).0.named ≡ (1, semver_lit 1 4 0) ∷ []
unfolding solve_reqs contains find put erase keys keep_keys semver_in_range caret_to_range semver_eq
    when_eval
short_of_fuel = refl

enough_fuel :
    map picked (solve_reqs short 2 (request 1 1 ∷ []) start).0.named
    ≡ (1, semver_lit 1 5 0) ∷ (2, semver_lit 2 0 0) ∷ []
unfolding solve_reqs contains find put erase keys keep_keys semver_in_range caret_to_range semver_eq
    when_eval
enough_fuel = refl

-- Two requests that no release meets together.
gives_up : (solve_reqs resolver 5 (request 2 1 ∷ request 2 2 ∷ []) start).1 ≡ some err_pkg_conflict
unfolding solve_reqs contains find put erase keys keep_keys semver_in_range caret_to_range semver_eq
    when_eval
gives_up = refl

resolve_dep-IsAtomic_example : IsAtomic start (resolve_dep resolver 5 root_node (request 1 1) start)
resolve_dep-IsAtomic_example =
    resolve_dep-IsAtomic resolver 5 root_node (request 1 1) start index_ok start_ok

goes_back_done : (solve_reqs resolver 21 (request 1 1 ∷ []) start).1 ≡ none
unfolding solve_reqs contains find put erase keys keep_keys semver_in_range caret_to_range semver_eq
    when_eval
goes_back_done = refl

start-Complete : Complete resolver start.named
unfolding find
start-Complete k node h = cc

solve_reqs-Complete_example :
    Complete resolver (solve_reqs resolver 21 (request 1 1 ∷ []) start).0.named
    × All
        (Served resolver (solve_reqs resolver 21 (request 1 1 ∷ []) start).0.named root_node)
        (request 1 1 ∷ [])
solve_reqs-Complete_example =
    solve_reqs-Complete resolver 21 (request 1 1 ∷ []) start index_ok start_ok refl start-Complete
      goes_back_done

solve_reqs-returns_example :
    ((solve_reqs resolver 21 (request 2 1 ∷ request 2 2 ∷ []) start).1 ≢ some out_of_fuel)
    × (solve_reqs resolver 30 (request 2 1 ∷ request 2 2 ∷ []) start
        ≡ solve_reqs resolver 21 (request 2 1 ∷ request 2 2 ∷ []) start)
solve_reqs-returns_example =
    solve_reqs-returns resolver [] 21 30 (request 2 1 ∷ request 2 2 ∷ []) start loader_in index_ok
      start_ok start_in refl (omega arith) (omega arith)
