-- ===== src/Resolve/Enough.antt =====
-- How much fuel the search of source/core/resolve/resolve.c needs.
use spn.Base.{ℕ, ◌+◌, ◌<◌, ◌≤◌, ◌≡◌, ◌≢◌, List, [], some, arith, length}
use spn.Resolve.Types.{Request, Run, Resolver, out_of_fuel}
use spn.Resolve.Solver.{root_node}
use spn.Resolve.Frame.{RegistryOk, RecAtomic}
use spn.Resolve.Search.{resolve_dep, solve_reqs}
use spn.Resolve.Steps.{IndexOk}
use spn.Resolve.Backtrack.{resolve_dep-IsAtomic}
use spn.Resolve.Depth.{unvisited-nil, LoaderIn, RegistryIn, depth}
use spn.Resolve.Returns.{RecDone, resolve_each-IsDone}
use spn.Resolve.Fuel.{resolve_dep-IsDone}
use spn.Resolve.SameChoice.{resolve_each_same}
use spn.Resolve.SameSearch.{resolve_dep_same}

-- With more fuel than the budget and the number of local packages together, the search of a scope's
-- requests that starts with no name in progress does not return the error of missing fuel, and its
-- outcome, the run and the error, is the same at every larger fuel. The local packages are a list
-- that has every registered name and every name whose manifest the loader reads. The index must
-- answer a name with releases of that name, and the registry be filed by name.
pub solve_reqs-returns :
    (r : Resolver) (locals : List ℕ) (fuel big : ℕ) (requests : List Request) (run : Run)
    → LoaderIn locals r
    → IndexOk r
    → RegistryOk run
    → RegistryIn locals run
    → run.visited ≡ []
    → run.budget + length locals < fuel
    → fuel ≤ big
    → ((solve_reqs r fuel requests run).1 ≢ some out_of_fuel)
      × (solve_reqs r big requests run ≡ solve_reqs r fuel requests run)
unfolding solve_reqs
solve_reqs-returns r locals fuel big requests run loader index ready inside idle low le = (
  (resolve_each-IsDone r locals fuel atomic done root_node requests run ready inside deep).returned,
  resolve_each_same r locals fuel atomic done (resolve_dep_same r locals fuel big loader index le)
      root_node requests run ready inside deep,
)
  where
    deep : depth locals run < fuel
    deep = rw idle (omega (arith, unvisited-nil locals, low))

    atomic : RecAtomic (resolve_dep r fuel)
    atomic n d s ok_s = resolve_dep-IsAtomic r fuel n d s index ok_s

    done : RecDone locals fuel (resolve_dep r fuel)
    done = resolve_dep-IsDone r locals fuel loader index
