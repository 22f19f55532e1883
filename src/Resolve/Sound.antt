-- ===== src/Resolve/Sound.antt =====
-- The search of source/core/resolve/resolve.c: a success serves the request.
use spn.Base.{ℕ, ◌≡◌, refl, sym, ◌==◌, some, inl, inr, Option-cases, Bool-cases, ==_iff}
use mathlib.Core.Path.{subst}
use spn.Semver.Compare.{semver_eq, semver_in_range}
use spn.Enum.Package.{
  PkgSource, source_root, source_file, source_index, DepEdge, edge_scope, edge_process,
  edge_private, edge_pruned,
}
use spn.Resolve.Types.{
  Request, LocalPkg, Node, Run, Resolver, IndexAnswer, index_failed, index_missing, index_found,
  err_pkg_conflict, err_dep_cycle, err_pkg_unknown, err_index, err_load, err_mismatch,
  err_pkg_conflict_exact,
}
use spn.Resolve.Table.{contains, find, put}
use spn.Resolve.Solver.{fail, Rec, Held, not_held, held, contradiction, is_file, solve_node}
use spn.Resolve.Frame.{RegistryOk, RecAtomic}
use spn.Resolve.Search.{
  find_held, node_of_local, pick, resolve_index_package, solve_local, load_local,
  resolve_local_package, resolve_source, resolve_edge,
}
use spn.Resolve.Steps.{IndexOk, IsFree, Grows-registry}
use spn.Resolve.Valid.{Nodes, Fits, Inv, IsSound, IsSound-map, fail-IsSound}
use spn.Resolve.Settle.{RecSound, solve_node-IsSound}
use spn.Resolve.Picked.{HasVersion, pick-IsSound}
use spn.Resolve.Pins.{MeetsPins, held-MeetsPins, not_held-MeetsPins, semver_eq-same}

-- There is a node of that name.
abbrev HasName : ℕ → Nodes → Type 0
HasName name named = (node : Node) × (find name named ≡ some node)

module _ (r : Resolver) {rec : Rec} (atomic : RecAtomic rec) (sound : RecSound r rec) where
  resolve_index_package-IsSound :
      (request : Request) (run : Run)
      → IndexOk r
      → RegistryOk run
      → Inv r run
      → IsSound r (resolve_index_package r rec request run) (HasVersion request)
  unfolding resolve_index_package
  resolve_index_package-IsSound request run index ready inv =
      elim (Bool-cases (contains run.visited request.qualified)) [
        | inl e ↦
            rw (e, resolve_index_package)
              (fail-IsSound r run err_dep_cycle (HasVersion request) inv)
        | inr fresh ↦ elim (Option-cases (find request.qualified run.named)) [
          | inr (existing, e) ↦ elim (Bool-cases (semver_in_range existing.version request.range)) [
            | inl fits ↦
                rw (fresh, e, fits, resolve_index_package)
                  (record { kept = inv; reached = λ h. (existing, e, fits) })
            | inr off ↦
                rw (fresh, e, off, resolve_index_package)
                  (fail-IsSound r run err_pkg_conflict (HasVersion request) inv)
          ]
          | inl absent ↦
              rw (fresh, absent, resolve_index_package)
                (go (r.get_package request.qualified) refl
                  (record { fresh = fresh; absent = absent }))
        ]
      ]
    where
      go :
          (a : IndexAnswer)
          → r.get_package request.qualified ≡ a
          → IsFree request.qualified run
          → IsSound r
              (elim a [
                | index_failed ↦ fail run err_index
                | index_missing ↦ fail run err_pkg_unknown
                | index_found releases ↦ pick r rec request releases run
              ])
              (HasVersion request)
      go index_failed e free = fail-IsSound r run err_index (HasVersion request) inv
      go index_missing e free = fail-IsSound r run err_pkg_unknown (HasVersion request) inv
      go (index_found releases) e free =
          pick-IsSound r atomic sound request releases run ready inv free
            (index request.qualified releases e)

  solve_local-IsSound :
      (name : ℕ) (pkg : LocalPkg) (run : Run)
      → RegistryOk run
      → Inv r run
      → IsFree name run
      → pkg.qualified ≡ name
      → IsSound r (solve_local r rec name pkg run) (HasName name)
  unfolding solve_local node_of_local
  solve_local-IsSound name pkg run ready inv free same = go (find_held r name) refl
    where
      solved :
          MeetsPins r name pkg.version
          → IsSound r (solve_node rec name (node_of_local r pkg) run) (HasName name)
      solved pins =
          IsSound-map r (λ named (n, found, _). (n, found))
            (solve_node-IsSound r atomic sound name (node_of_local r pkg) run ready inv
              (record { own_name = same; meets_pins = pins }) free.fresh free.absent)

      go :
          (h : Held)
          → find_held r name ≡ h
          → IsSound r (solve_local r rec name pkg run) (HasName name)
      go not_held e = rw (e, solve_local) (solved (not_held-MeetsPins r name pkg.version e))
      go (held pinned) e = elim (Bool-cases (semver_eq pkg.version pinned)) [
        | inl hit ↦
            let pins =
              subst (λ v. MeetsPins r name v) (sym (semver_eq-same pkg.version pinned hit))
                (held-MeetsPins r name pinned e) in
            rw (e, hit, solve_local) (solved pins)
        | inr miss ↦
            rw (e, miss, solve_local) (fail-IsSound r run err_pkg_conflict_exact (HasName name) inv)
      ]
      go (contradiction pinned) e =
          rw (e, solve_local) (fail-IsSound r run err_pkg_conflict_exact (HasName name) inv)

  load_local-IsSound :
      (request : Request) (run : Run)
      → RegistryOk run
      → Inv r run
      → IsFree request.qualified run
      → IsSound r (load_local r rec request run) (HasName request.qualified)
  unfolding load_local
  load_local-IsSound request run ready inv free = elim (Option-cases (r.load_pkg request)) [
    | inl e ↦ rw (e, load_local) (fail-IsSound r run err_load (HasName request.qualified) inv)
    | inr (pkg, e) ↦ elim (Bool-cases (pkg.qualified == request.qualified)) [
      | inr off ↦
          rw (e, off, load_local) (fail-IsSound r run err_mismatch (HasName request.qualified) inv)
      | inl own ↦
          let same = (==_iff pkg.qualified request.qualified).0 own in
          let loaded = record run { registry = put request.qualified pkg run.registry } in
          let grown = Grows-registry run request.qualified pkg same in
          rw (e, own, load_local)
            (solve_local-IsSound request.qualified pkg loaded (grown.registry_ok ready) inv
              (record { fresh = free.fresh; absent = free.absent }) same)
    ]
  ]

  resolve_local_package-IsSound :
      (request : Request) (run : Run)
      → RegistryOk run
      → Inv r run
      → IsSound r (resolve_local_package r rec request run) (HasName request.qualified)
  unfolding resolve_local_package
  resolve_local_package-IsSound request run ready inv =
      elim (Bool-cases (contains run.visited request.qualified)) [
        | inl e ↦
            rw (e, resolve_local_package)
              (fail-IsSound r run err_dep_cycle (HasName request.qualified) inv)
        | inr fresh ↦ elim (Option-cases (find request.qualified run.named)) [
          | inr (existing, e) ↦
              rw (fresh, e, resolve_local_package)
                (record { kept = inv; reached = λ h. (existing, e) })
          | inl absent ↦
              let free : IsFree request.qualified run = record { fresh = fresh; absent = absent } in
              elim (Option-cases (find request.qualified run.registry)) [
                | inr (pkg, found) ↦
                    rw (fresh, absent, found, resolve_local_package)
                      (solve_local-IsSound request.qualified pkg run ready inv free
                        (ready request.qualified pkg found))
                | inl missing ↦ elim (Bool-cases (is_file request.source)) [
                  | inl file ↦
                      rw (fresh, absent, missing, file, resolve_local_package)
                        (load_local-IsSound request run ready inv free)
                  | inr other ↦
                      rw (fresh, absent, missing, other, resolve_local_package)
                        (fail-IsSound r run err_pkg_unknown (HasName request.qualified) inv)
                ]
              ]
        ]
      ]

  resolve_source-IsSound :
      (source : PkgSource) (request : Request) (run : Run)
      → IndexOk r
      → RegistryOk run
      → Inv r run
      → IsSound r (resolve_source r rec source request run) (Fits source request)
  unfolding resolve_source
  resolve_source-IsSound source_index request run index ready inv =
      resolve_index_package-IsSound request run index ready inv
  resolve_source-IsSound source_root request run index ready inv =
      resolve_local_package-IsSound request run ready inv
  resolve_source-IsSound source_file request run index ready inv =
      resolve_local_package-IsSound request run ready inv

  pub resolve_edge-IsSound :
      (edge : DepEdge) (node : Node) (dep : Request) (run : Run)
      → IndexOk r
      → RegistryOk run
      → Inv r run
      → IsSound r
          (resolve_edge r rec edge node dep run)
          (λ named. edge ≡ edge_scope → Fits dep.source dep named)
  unfolding resolve_edge
  resolve_edge-IsSound edge_pruned node dep run index ready inv = record {
    kept = inv;
    reached = λ h e. cc;
  }
  resolve_edge-IsSound edge_process node dep run index ready inv = record {
    kept = inv;
    reached = λ h e. cc;
  }
  resolve_edge-IsSound edge_private node dep run index ready inv = record {
    kept = inv;
    reached = λ h e. cc;
  }
  resolve_edge-IsSound edge_scope node dep run index ready inv =
      IsSound-map r (λ named fits _. fits)
        (resolve_source-IsSound dep.source dep run index ready inv)
