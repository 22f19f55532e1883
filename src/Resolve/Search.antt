-- ===== src/Resolve/Search.antt =====
-- The choice of a candidate in source/core/resolve/resolve.c, and the recursion of `resolve_dep`,
-- which runs on fuel; `rec` is the call at the fuel that is left.
use spn.Base.{
  ℕ, zero, suc, ◌-◌, true, not, ◌&&◌, ◌||◌, List, [], ◌∷◌, ◌++◌, Option, none, some, ◌==◌,
  if◌then◌else◌, map, reverse,
}
use spn.Semver.{Semver}
use spn.Semver.Compare.{semver_eq, semver_in_range}
use spn.Enum.Package.{
  PkgSource, source_root, source_file, source_index, DepKind, dep_package, dep_build, dep_test,
  DepEdge, edge_scope, edge_process, edge_private, edge_pruned,
}
use spn.Resolve.Types.{
  Request, Release, LocalPkg, Node, ResolveError, Run, Resolver, Outcome, err_dep_cycle,
  err_pkg_unknown, err_pkg_conflict, err_pkg_conflict_exact, err_pkg_no_match, err_too_complex,
  err_index, err_load, err_mismatch, out_of_fuel, index_failed, index_missing, index_found,
}
use spn.Resolve.Table.{contains, find, put}
use spn.Resolve.Solver.{
  ok, fail, Rec, Held, not_held, held, contradiction, is_root, find_forced, find_pin, open_requests,
  resolve_each, solve_node, request_of_index, bare_release, bare_local, find_version, first_error,
  is_file, boundary_of, root_node,
}

module _ (r : Resolver) where
  -- `find_forced(…) || find_pin(…)`.
  unfoldable pub find_held : ℕ → Held
  unfolding find_forced find_pin
  find_held name = elim (find_forced r.forced name) [
    | some version ↦ held version
    | none ↦ find_pin r.pins name none
  ]

  unfoldable pub classify_kind : DepKind → Node → Request → DepEdge
  classify_kind dep_build node dep = edge_process
  classify_kind dep_test node dep = if is_root node.source then edge_process else edge_pruned
  classify_kind dep_package node dep =
      if dep.private && r.is_shared node then edge_private else edge_scope

  unfoldable pub classify_dep : Node → Request → DepEdge
  unfolding classify_kind
  classify_dep node dep = classify_kind dep.kind node dep

  -- The node of a release, with the requests that its options leave open.
  unfoldable pub node_of_release : Release → Node
  unfolding open_requests request_of_index
  node_of_release release =
      let bare = bare_release release in
      record bare {
        deps =
            r.sort_requests
              (open_requests (r.options_env bare) (map request_of_index release.deps));
      }

  unfoldable pub node_of_local : LocalPkg → Node
  unfolding open_requests
  node_of_local pkg =
      let bare = bare_local pkg in
      record bare { deps = r.sort_requests (open_requests (r.options_env bare) pkg.deps) }

  unfoldable pub try_candidate : Rec → Release → Run → Outcome
  unfolding solve_node node_of_release
  try_candidate rec release run =
      if run.fatal || run.budget == 0
      then fail (record run { fatal = true }) err_too_complex
      else solve_node rec release.id (node_of_release release)
          (record run { budget = run.budget - 1 })

  unfoldable pub pick_pinned : Rec → Request → List Release → Semver → Run → Outcome
  unfolding try_candidate find_version
  pick_pinned rec request releases pinned run =
      if not (semver_in_range pinned request.range)
      then fail run err_pkg_conflict
      else elim (find_version pinned releases) [
        | none ↦ fail run err_pkg_conflict
        | some release ↦ try_candidate rec release run
      ]

  -- The loop over the releases, newest first. `first` is the first error.
  unfoldable pub pick_free : Rec → Request → List Release → Option ResolveError → Run → Outcome
  unfolding try_candidate
  pick_free rec request [] none run = fail run err_pkg_no_match
  pick_free rec request [] (some first) run = fail run first
  pick_free rec request (release ∷ rest) first run =
      let attempt = try_candidate rec release run in
      let skipped = pick_free rec request rest first run in
      if release.yanked || not (semver_in_range release.version request.range)
      then skipped
      else elim attempt.1 [
        | none ↦ attempt
        | some e ↦
            let next = pick_free rec request rest (first_error first e) attempt.0 in
            if attempt.0.fatal then attempt else next
      ]

  unfoldable pub pick : Rec → Request → List Release → Run → Outcome
  unfolding find_held pick_pinned pick_free
  pick rec request releases run = elim (find_held request.qualified) [
    | not_held ↦ pick_free rec request (reverse releases) none run
    | held pinned ↦ pick_pinned rec request releases pinned run
    | contradiction pinned ↦ fail run err_pkg_conflict
  ]

  unfoldable pub resolve_index_package : Rec → Request → Run → Outcome
  unfolding pick
  resolve_index_package rec request run =
      let name = request.qualified in
      if contains run.visited name then fail run err_dep_cycle else elim (find name run.named) [
        | some existing ↦
            if semver_in_range existing.version request.range
            then ok run
            else fail run err_pkg_conflict
        | none ↦ elim (r.get_package name) [
          | index_failed ↦ fail run err_index
          | index_missing ↦ fail run err_pkg_unknown
          | index_found releases ↦ pick rec request releases run
        ]
      ]

  -- The pin test and the rest of `resolve_local_package`, for the package found.
  unfoldable pub solve_local : Rec → ℕ → LocalPkg → Run → Outcome
  unfolding find_held solve_node node_of_local
  solve_local rec name pkg run = elim (find_held name) [
    | not_held ↦ solve_node rec name (node_of_local pkg) run
    | held pinned ↦
        if not (semver_eq pkg.version pinned)
        then fail run err_pkg_conflict_exact
        else solve_node rec name (node_of_local pkg) run
    | contradiction pinned ↦ fail run err_pkg_conflict_exact
  ]

  -- `load_file_pkg` for a package that is not registered yet: a loaded manifest is registered.
  unfoldable pub load_local : Rec → Request → Run → Outcome
  unfolding solve_local
  load_local rec request run = elim (r.load_pkg request) [
    | none ↦ fail run err_load
    | some pkg ↦
        if not (pkg.qualified == request.qualified)
        then fail run err_mismatch
        else solve_local rec request.qualified pkg
            (record run { registry = put request.qualified pkg run.registry })
  ]

  unfoldable pub resolve_local_package : Rec → Request → Run → Outcome
  unfolding solve_local load_local
  resolve_local_package rec request run =
      let name = request.qualified in
      if contains run.visited name then fail run err_dep_cycle else elim (find name run.named) [
        | some existing ↦ ok run
        | none ↦ elim (find name run.registry) [
          | some pkg ↦ solve_local rec name pkg run
          | none ↦
              if is_file request.source
              then load_local rec request run
              else fail run err_pkg_unknown
        ]
      ]

  unfoldable pub resolve_source : Rec → PkgSource → Request → Run → Outcome
  unfolding resolve_index_package resolve_local_package
  resolve_source rec source_index request run = resolve_index_package rec request run
  resolve_source rec source_root request run = resolve_local_package rec request run
  resolve_source rec source_file request run = resolve_local_package rec request run

  unfoldable pub resolve_edge : Rec → DepEdge → Node → Request → Run → Outcome
  unfolding resolve_source
  resolve_edge rec edge_pruned node dep run = ok run
  resolve_edge rec edge_process node dep run =
      ok (record run { boundaries = run.boundaries ++ boundary_of node edge_process dep ∷ [] })
  resolve_edge rec edge_private node dep run =
      ok (record run { boundaries = run.boundaries ++ boundary_of node edge_private dep ∷ [] })
  resolve_edge rec edge_scope node dep run = resolve_source rec dep.source dep run

  unfoldable pub resolve_dep : ℕ → Rec
  unfolding classify_dep resolve_edge
  resolve_dep zero node dep run = fail run out_of_fuel
  resolve_dep (suc fuel) node dep run =
      resolve_edge (resolve_dep fuel) (classify_dep node dep) node dep run

  unfoldable pub solve_reqs : ℕ → List Request → Run → Outcome
  unfolding resolve_dep resolve_each
  solve_reqs fuel requests run = resolve_each (resolve_dep fuel) root_node requests run
