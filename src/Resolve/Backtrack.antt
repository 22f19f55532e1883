-- ===== src/Resolve/Backtrack.antt =====
-- Backtracking in source/core/resolve/resolve.c: a failed request leaves no trace.
use spn.Base.{
  ℕ, zero, suc, ◌≡◌, refl, ◌==◌, [], ◌∷◌, ◌++◌, inl, inr, Option-cases, Bool-cases, ==_iff,
}
use spn.Enum.Package.{
  PkgSource, source_root, source_file, source_index, DepEdge, edge_scope, edge_process,
  edge_private, edge_pruned,
}
use spn.Semver.Compare.{semver_eq, semver_in_range}
use spn.Resolve.Types.{
  Request, LocalPkg, Node, Boundary, IndexAnswer, index_failed, index_missing, index_found, Run,
  Resolver, err_dep_cycle, err_pkg_unknown, err_pkg_conflict, err_index, err_load, err_mismatch,
  err_pkg_conflict_exact, out_of_fuel,
}
use spn.Resolve.Table.{contains, find, put}
use spn.Resolve.Solver.{
  ok, fail, Rec, Held, not_held, held, contradiction, solve_node, is_file, boundary_of,
}
use spn.Resolve.Frame.{
  RegistryOk, IsAtomic, ok-IsAtomic, fail-IsAtomic, IsAtomic-after, RecAtomic, solve_node-IsAtomic,
}
use spn.Resolve.Search.{
  find_held, node_of_local, pick, resolve_index_package, solve_local, load_local,
  resolve_local_package, resolve_source, resolve_edge, resolve_dep, classify_dep,
}
use spn.Resolve.Steps.{IndexOk, IsFree, Grows-registry, Grows-boundary}
use spn.Resolve.Atomic.{pick-IsAtomic}

module _ (r : Resolver) {rec : Rec} (atomic : RecAtomic rec) where
  resolve_index_package-IsAtomic :
      (request : Request) (run : Run)
      → IndexOk r
      → RegistryOk run
      → IsAtomic run (resolve_index_package r rec request run)
  unfolding resolve_index_package
  resolve_index_package-IsAtomic request run index ready =
      elim (Bool-cases (contains run.visited request.qualified)) [
        | inl e ↦ rw (e, resolve_index_package) (fail-IsAtomic run err_dep_cycle)
        | inr fresh ↦ elim (Option-cases (find request.qualified run.named)) [
          | inr (existing, e) ↦ elim (Bool-cases (semver_in_range existing.version request.range)) [
            | inl fits ↦ rw (fresh, e, fits, resolve_index_package) (ok-IsAtomic run)
            | inr off ↦
                rw (fresh, e, off, resolve_index_package) (fail-IsAtomic run err_pkg_conflict)
          ]
          | inl absent ↦
              rw (fresh, absent, resolve_index_package)
                (go (r.get_package request.qualified) refl
                  (record { fresh = fresh; absent = absent }))
        ]
      ]
    where
      go :
          (a : IndexAnswer)
          → r.get_package request.qualified ≡ a
          → IsFree request.qualified run
          → IsAtomic run (elim a [
            | index_failed ↦ fail run err_index
            | index_missing ↦ fail run err_pkg_unknown
            | index_found releases ↦ pick r rec request releases run
          ])
      go index_failed e free = fail-IsAtomic run err_index
      go index_missing e free = fail-IsAtomic run err_pkg_unknown
      go (index_found releases) e free =
          pick-IsAtomic r atomic request releases run ready free
            (index request.qualified releases e)

  solve_local-IsAtomic :
      (name : ℕ) (pkg : LocalPkg) (run : Run)
      → RegistryOk run
      → IsFree name run
      → pkg.qualified ≡ name
      → IsAtomic run (solve_local r rec name pkg run)
  unfolding solve_local node_of_local
  solve_local-IsAtomic name pkg run ready free same = go (find_held r name) refl
    where
      solved : IsAtomic run (solve_node rec name (node_of_local r pkg) run)
      solved =
          solve_node-IsAtomic atomic name (node_of_local r pkg) run ready same free.fresh
            free.absent

      go : (h : Held) → find_held r name ≡ h → IsAtomic run (solve_local r rec name pkg run)
      go not_held e = rw (e, solve_local) solved
      go (held pinned) e = elim (Bool-cases (semver_eq pkg.version pinned)) [
        | inl hit ↦ rw (e, hit, solve_local) solved
        | inr miss ↦ rw (e, miss, solve_local) (fail-IsAtomic run err_pkg_conflict_exact)
      ]
      go (contradiction pinned) e = rw (e, solve_local) (fail-IsAtomic run err_pkg_conflict_exact)

  load_local-IsAtomic :
      (request : Request) (run : Run)
      → RegistryOk run
      → IsFree request.qualified run
      → IsAtomic run (load_local r rec request run)
  unfolding load_local
  load_local-IsAtomic request run ready free = elim (Option-cases (r.load_pkg request)) [
    | inl e ↦ rw (e, load_local) (fail-IsAtomic run err_load)
    | inr (pkg, e) ↦ elim (Bool-cases (pkg.qualified == request.qualified)) [
      | inr off ↦ rw (e, off, load_local) (fail-IsAtomic run err_mismatch)
      | inl own ↦
          let same = (==_iff pkg.qualified request.qualified).0 own in
          let loaded = record run { registry = put request.qualified pkg run.registry } in
          let grown = Grows-registry run request.qualified pkg same in
          rw (e, own, load_local)
            (IsAtomic-after grown (record { named_same = refl; boundaries_same = refl })
              (solve_local-IsAtomic request.qualified pkg loaded (grown.registry_ok ready)
                (record { fresh = free.fresh; absent = free.absent }) same))
    ]
  ]

  resolve_local_package-IsAtomic :
      (request : Request) (run : Run)
      → RegistryOk run
      → IsAtomic run (resolve_local_package r rec request run)
  unfolding resolve_local_package
  resolve_local_package-IsAtomic request run ready =
      elim (Bool-cases (contains run.visited request.qualified)) [
        | inl e ↦ rw (e, resolve_local_package) (fail-IsAtomic run err_dep_cycle)
        | inr fresh ↦ elim (Option-cases (find request.qualified run.named)) [
          | inr (existing, e) ↦ rw (fresh, e, resolve_local_package) (ok-IsAtomic run)
          | inl absent ↦
              let free : IsFree request.qualified run = record { fresh = fresh; absent = absent } in
              elim (Option-cases (find request.qualified run.registry)) [
                | inr (pkg, found) ↦
                    rw (fresh, absent, found, resolve_local_package)
                      (solve_local-IsAtomic request.qualified pkg run ready free
                        (ready request.qualified pkg found))
                | inl missing ↦ elim (Bool-cases (is_file request.source)) [
                  | inl file ↦
                      rw (fresh, absent, missing, file, resolve_local_package)
                        (load_local-IsAtomic request run ready free)
                  | inr other ↦
                      rw (fresh, absent, missing, other, resolve_local_package)
                        (fail-IsAtomic run err_pkg_unknown)
                ]
              ]
        ]
      ]

  resolve_source-IsAtomic :
      (source : PkgSource) (request : Request) (run : Run)
      → IndexOk r
      → RegistryOk run
      → IsAtomic run (resolve_source r rec source request run)
  unfolding resolve_source
  resolve_source-IsAtomic source_index request run index ready =
      resolve_index_package-IsAtomic request run index ready
  resolve_source-IsAtomic source_root request run index ready =
      resolve_local_package-IsAtomic request run ready
  resolve_source-IsAtomic source_file request run index ready =
      resolve_local_package-IsAtomic request run ready

  boundary-IsAtomic :
      (b : Boundary) (run : Run)
      → IsAtomic run (ok (record run { boundaries = run.boundaries ++ b ∷ [] }))
  boundary-IsAtomic b run = record { grows = Grows-boundary run b; failed_unchanged = λ e h. cc }

  resolve_edge-IsAtomic :
      (edge : DepEdge) (node : Node) (dep : Request) (run : Run)
      → IndexOk r
      → RegistryOk run
      → IsAtomic run (resolve_edge r rec edge node dep run)
  unfolding resolve_edge
  resolve_edge-IsAtomic edge_pruned node dep run index ready = ok-IsAtomic run
  resolve_edge-IsAtomic edge_process node dep run index ready =
      boundary-IsAtomic (boundary_of node edge_process dep) run
  resolve_edge-IsAtomic edge_private node dep run index ready =
      boundary-IsAtomic (boundary_of node edge_private dep) run
  resolve_edge-IsAtomic edge_scope node dep run index ready =
      resolve_source-IsAtomic dep.source dep run index ready

-- A request that the search resolves or gives up on, at any fuel, leaves the run grown: the nodes
-- and boundaries that were there stay, in their places, new nodes have new names, the names in
-- progress are the same, the budget is not larger, and the registry still files packages under
-- their own names. If the request fails, nodes and boundaries are exactly those before the call. The
-- index must answer a name with releases of that name, and the registry be filed by name.
pub resolve_dep-IsAtomic :
    (r : Resolver) (fuel : ℕ) (node : Node) (dep : Request) (run : Run)
    → IndexOk r
    → RegistryOk run
    → IsAtomic run (resolve_dep r fuel node dep run)
unfolding resolve_dep
resolve_dep-IsAtomic r zero node dep run index ready = fail-IsAtomic run out_of_fuel
resolve_dep-IsAtomic r (suc fuel) node dep run index ready =
    resolve_edge-IsAtomic r (λ n d s ok_s. resolve_dep-IsAtomic r fuel n d s index ok_s)
      (classify_dep r node dep) node dep run index ready
