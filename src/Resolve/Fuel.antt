-- ===== src/Resolve/Fuel.antt =====
-- The recursion of source/core/resolve/resolve.c does not return the error of missing fuel.
use spn.Base.{
  ℕ, zero, suc, ◌+◌, ◌<◌, ◌≡◌, refl, true, false, ◌==◌, List, ◌∷◌, inl, inr, Option-cases,
  Bool-cases, arith, ==_iff,
}
use spn.Semver.Compare.{semver_eq, semver_in_range}
use spn.Enum.Package.{
  PkgSource, source_root, source_file, source_index, DepEdge, edge_scope, edge_process,
  edge_private, edge_pruned,
}
use spn.Resolve.Types.{
  Request, LocalPkg, Node, Run, Resolver, IndexAnswer, index_failed, index_missing, index_found,
  err_pkg_conflict, err_dep_cycle, err_pkg_unknown, err_index, err_load, err_mismatch,
  err_pkg_conflict_exact,
}
use spn.Resolve.Table.{contains, find, put}
use spn.Resolve.Solver.{fail, solve_node, Rec, Held, not_held, held, contradiction, is_file}
use spn.Resolve.Frame.{RegistryOk, RecAtomic}
use spn.Resolve.Search.{
  find_held, node_of_local, pick, resolve_index_package, solve_local, load_local,
  resolve_local_package, resolve_source, resolve_edge, resolve_dep, classify_dep,
}
use spn.Resolve.Steps.{IndexOk, IsFree, Grows-registry}
use spn.Resolve.Depth.{
  unvisited, unvisited-cons_fresh, LoaderIn, RegistryIn, depth, IsDone, fail-IsDone, RegistryIn-put,
}
use spn.Resolve.Returns.{RecDone, solve_node-IsDone, pick-IsDone}
use spn.Resolve.Backtrack.{resolve_dep-IsAtomic}

module _ (r : Resolver) (locals : List ℕ) (loader : LoaderIn locals r) (fuel : ℕ) {rec : Rec}
    (atomic : RecAtomic rec) (enough : RecDone locals fuel rec) where
  resolve_index_package-IsDone :
      (request : Request) (run : Run)
      → IndexOk r
      → RegistryOk run
      → RegistryIn locals run
      → depth locals run < fuel + 1
      → IsDone locals (resolve_index_package r rec request run)
  unfolding resolve_index_package
  resolve_index_package-IsDone request run index ready inside deep =
      elim (Bool-cases (contains run.visited request.qualified)) [
        | inl e ↦ rw (e, resolve_index_package) (fail-IsDone locals run err_dep_cycle (cc) inside)
        | inr fresh ↦ elim (Option-cases (find request.qualified run.named)) [
          | inr (existing, e) ↦ elim (Bool-cases (semver_in_range existing.version request.range)) [
            | inl fits ↦
                rw (fresh, e, fits, resolve_index_package)
                  (record { registry_in = inside; returned = λ h. cc })
            | inr off ↦
                rw (fresh, e, off, resolve_index_package)
                  (fail-IsDone locals run err_pkg_conflict (cc) inside)
          ]
          | inl absent ↦
              rw (fresh, absent, resolve_index_package)
                (go (r.get_package request.qualified) refl
                  (record { fresh = fresh; absent = absent }))
        ]
      ]
    where
      go :
          (a : IndexAnswer)
          → r.get_package request.qualified ≡ a
          → IsFree request.qualified run
          → IsDone locals (elim a [
            | index_failed ↦ fail run err_index
            | index_missing ↦ fail run err_pkg_unknown
            | index_found releases ↦ pick r rec request releases run
          ])
      go index_failed e free = fail-IsDone locals run err_index (cc) inside
      go index_missing e free = fail-IsDone locals run err_pkg_unknown (cc) inside
      go (index_found releases) e free =
          pick-IsDone r locals fuel atomic enough request releases run ready inside free
            (index request.qualified releases e) deep

  solve_local-IsDone :
      (name : ℕ) (pkg : LocalPkg) (run : Run)
      → RegistryOk run
      → RegistryIn locals run
      → contains run.visited name ≡ false
      → contains locals name ≡ true
      → pkg.qualified ≡ name
      → depth locals run < fuel + 1
      → IsDone locals (solve_local r rec name pkg run)
  unfolding solve_local node_of_local
  solve_local-IsDone name pkg run ready inside fresh listed same deep = go (find_held r name) refl
    where
      deep' : run.budget + unvisited locals (pkg.qualified ∷ run.visited) < fuel
      deep' =
          rw same (omega (arith, unvisited-cons_fresh locals run.visited name listed fresh, deep))

      solved : IsDone locals (solve_node rec name (node_of_local r pkg) run)
      solved =
          solve_node-IsDone r locals fuel atomic enough name (node_of_local r pkg) run ready inside
            deep'

      go : (h : Held) → find_held r name ≡ h → IsDone locals (solve_local r rec name pkg run)
      go not_held e = rw (e, solve_local) solved
      go (held pinned) e = elim (Bool-cases (semver_eq pkg.version pinned)) [
        | inl hit ↦ rw (e, hit, solve_local) solved
        | inr miss ↦
            rw (e, miss, solve_local) (fail-IsDone locals run err_pkg_conflict_exact (cc) inside)
      ]
      go (contradiction pinned) e =
          rw (e, solve_local) (fail-IsDone locals run err_pkg_conflict_exact (cc) inside)

  load_local-IsDone :
      (request : Request) (run : Run)
      → RegistryOk run
      → RegistryIn locals run
      → contains run.visited request.qualified ≡ false
      → depth locals run < fuel + 1
      → IsDone locals (load_local r rec request run)
  unfolding load_local
  load_local-IsDone request run ready inside fresh deep = elim (Option-cases (r.load_pkg request)) [
    | inl e ↦ rw (e, load_local) (fail-IsDone locals run err_load (cc) inside)
    | inr (pkg, e) ↦ elim (Bool-cases (pkg.qualified == request.qualified)) [
      | inr off ↦ rw (e, off, load_local) (fail-IsDone locals run err_mismatch (cc) inside)
      | inl own ↦
          let same = (==_iff pkg.qualified request.qualified).0 own in
          let listed = loader request pkg e same in
          let loaded = record run { registry = put request.qualified pkg run.registry } in
          let grown = Grows-registry run request.qualified pkg same in
          rw (e, own, load_local)
            (solve_local-IsDone request.qualified pkg loaded (grown.registry_ok ready)
              (RegistryIn-put locals run request.qualified pkg listed inside) fresh listed same
              deep)
    ]
  ]

  resolve_local_package-IsDone :
      (request : Request) (run : Run)
      → RegistryOk run
      → RegistryIn locals run
      → depth locals run < fuel + 1
      → IsDone locals (resolve_local_package r rec request run)
  unfolding resolve_local_package
  resolve_local_package-IsDone request run ready inside deep =
      elim (Bool-cases (contains run.visited request.qualified)) [
        | inl e ↦ rw (e, resolve_local_package) (fail-IsDone locals run err_dep_cycle (cc) inside)
        | inr fresh ↦ elim (Option-cases (find request.qualified run.named)) [
          | inr (existing, e) ↦
              rw (fresh, e, resolve_local_package)
                (record { registry_in = inside; returned = λ h. cc })
          | inl absent ↦ elim (Option-cases (find request.qualified run.registry)) [
            | inr (pkg, found) ↦
                rw (fresh, absent, found, resolve_local_package)
                  (solve_local-IsDone request.qualified pkg run ready inside fresh
                    (inside request.qualified pkg found) (ready request.qualified pkg found) deep)
            | inl missing ↦ elim (Bool-cases (is_file request.source)) [
              | inl file ↦
                  rw (fresh, absent, missing, file, resolve_local_package)
                    (load_local-IsDone request run ready inside fresh deep)
              | inr other ↦
                  rw (fresh, absent, missing, other, resolve_local_package)
                    (fail-IsDone locals run err_pkg_unknown (cc) inside)
            ]
          ]
        ]
      ]

  resolve_source-IsDone :
      (source : PkgSource) (request : Request) (run : Run)
      → IndexOk r
      → RegistryOk run
      → RegistryIn locals run
      → depth locals run < fuel + 1
      → IsDone locals (resolve_source r rec source request run)
  unfolding resolve_source
  resolve_source-IsDone source_index request run index =
      resolve_index_package-IsDone request run index
  resolve_source-IsDone source_root request run index = resolve_local_package-IsDone request run
  resolve_source-IsDone source_file request run index = resolve_local_package-IsDone request run

  resolve_edge-IsDone :
      (edge : DepEdge) (node : Node) (dep : Request) (run : Run)
      → IndexOk r
      → RegistryOk run
      → RegistryIn locals run
      → depth locals run < fuel + 1
      → IsDone locals (resolve_edge r rec edge node dep run)
  unfolding resolve_edge
  resolve_edge-IsDone edge_pruned node dep run index ready inside deep = record {
    registry_in = inside;
    returned = λ h. cc;
  }
  resolve_edge-IsDone edge_process node dep run index ready inside deep = record {
    registry_in = inside;
    returned = λ h. cc;
  }
  resolve_edge-IsDone edge_private node dep run index ready inside deep = record {
    registry_in = inside;
    returned = λ h. cc;
  }
  resolve_edge-IsDone edge_scope node dep run index ready inside deep =
      resolve_source-IsDone dep.source dep run index ready inside deep

pub resolve_dep-IsDone :
    (r : Resolver) (locals : List ℕ) (fuel : ℕ)
    → LoaderIn locals r
    → IndexOk r
    → RecDone locals fuel (resolve_dep r fuel)
unfolding resolve_dep
resolve_dep-IsDone r locals zero loader index node dep run ready inside deep =
    absurd (omega (arith, deep))
resolve_dep-IsDone r locals (suc fuel) loader index node dep run ready inside deep =
    resolve_edge-IsDone r locals loader fuel
      (λ n d s ok_s. resolve_dep-IsAtomic r fuel n d s index ok_s)
      (resolve_dep-IsDone r locals fuel loader index) (classify_dep r node dep) node dep run index
      ready inside (omega (arith, deep))
