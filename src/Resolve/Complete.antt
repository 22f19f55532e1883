-- ===== src/Resolve/Complete.antt =====
-- The whole search of a scope in source/core/resolve/resolve.c: what its nodes satisfy.
use spn.Base.{ℕ, zero, suc, ◌≡◌, ◌∙◌, List, [], none, inl, inr, All}
use spn.Resolve.Types.{Request, Run, Resolver, out_of_fuel}
use spn.Resolve.Table.{contains}
use spn.Resolve.Solver.{root_node}
use spn.Resolve.Frame.{RegistryOk, RecAtomic, resolve_each-Grows}
use spn.Resolve.Search.{resolve_dep, classify_dep, solve_reqs}
use spn.Resolve.Steps.{IndexOk}
use spn.Resolve.Valid.{Served, Complete, Inv, IsSound, fail-IsSound}
use spn.Resolve.Settle.{RecSound, resolve_each-IsSound}
use spn.Resolve.Backtrack.{resolve_dep-IsAtomic}
use spn.Resolve.Sound.{resolve_edge-IsSound}

resolve_dep-IsSound :
    (r : Resolver) (fuel : ℕ) (index : IndexOk r) → RecSound r (resolve_dep r fuel)
unfolding resolve_dep
resolve_dep-IsSound r zero index node dep run ready inv =
    fail-IsSound r run out_of_fuel (λ named. Served r named node dep) inv
resolve_dep-IsSound r (suc fuel) index node dep run ready inv =
    resolve_edge-IsSound r (λ n d s ok_s. resolve_dep-IsAtomic r fuel n d s index ok_s)
      (resolve_dep-IsSound r fuel index) (classify_dep r node dep) node dep run index ready inv

-- If the search of a scope's requests succeeds, started with no name in progress and with nodes that
-- are chosen well and whose requests are served, then the nodes that it ends with are so too, and
-- every request that stays in the scope has its node: one asked of the index a node of a version in
-- the request's range. A node is chosen well if it stands under its own name and its version is that
-- of the forced pin, where the forced pin is of that name, and otherwise that of every pin of the
-- scope that is of that name. The index must answer a name with releases of that name, and the
-- registry be filed by name.
pub solve_reqs-Complete :
    (r : Resolver) (fuel : ℕ) (requests : List Request) (run : Run)
    → IndexOk r
    → RegistryOk run
    → run.visited ≡ []
    → Complete r run.named
    → (solve_reqs r fuel requests run).1 ≡ none
    → Complete r (solve_reqs r fuel requests run).0.named
      × All (Served r (solve_reqs r fuel requests run).0.named root_node) requests
unfolding solve_reqs contains
solve_reqs-Complete r fuel requests run index ready idle complete done = (
  λ k n e.
      let (good, state) = sound.kept k n e in
      (good, elim state [ inl busy ↦ cc (rw finished at busy) | inr settled ↦ settled ]),
  sound.reached done,
)
  where
    atomic : RecAtomic (resolve_dep r fuel)
    atomic n d s ok_s = resolve_dep-IsAtomic r fuel n d s index ok_s

    started : Inv r run
    started k n e = let (good, settled) = complete k n e in (good, inr settled)

    sound :
        IsSound r
          (solve_reqs r fuel requests run)
          (λ named. All (Served r named root_node) requests)
    sound =
        resolve_each-IsSound r atomic (resolve_dep-IsSound r fuel index) root_node requests run
          ready started

    finished : (solve_reqs r fuel requests run).0.visited ≡ []
    finished = (resolve_each-Grows atomic root_node requests run ready).visited_same ∙ idle
