-- ===== src/Resolve/SameSearch.antt =====
-- The search of source/core/resolve/resolve.c gives one result for every fuel that is enough.
use spn.Base.{
  ℕ, zero, suc, ◌+◌, ◌<◌, ◌≤◌, ◌≡◌, refl, false, true, ◌==◌, List, ◌∷◌, inl, inr, Option-cases,
  Bool-cases, arith, ==_iff,
}
use spn.Semver.Compare.{semver_eq}
use spn.Enum.Package.{
  PkgSource, source_root, source_file, source_index, DepEdge, edge_scope, edge_process,
  edge_private, edge_pruned,
}
use spn.Resolve.Types.{
  Request, LocalPkg, Node, Run, Resolver, IndexAnswer, index_failed, index_missing, index_found,
  err_pkg_unknown, err_index,
}
use spn.Resolve.Table.{contains, find, put}
use spn.Resolve.Solver.{fail, solve_node, Rec, Held, not_held, held, contradiction, is_file}
use spn.Resolve.Frame.{RegistryOk, RecAtomic}
use spn.Resolve.Search.{
  find_held, node_of_local, pick, resolve_index_package, solve_local, load_local,
  resolve_local_package, resolve_source, resolve_edge, resolve_dep, classify_dep,
}
use spn.Resolve.Steps.{IndexOk, IsFree, Grows-registry}
use spn.Resolve.Depth.{unvisited, unvisited-cons_fresh, LoaderIn, RegistryIn, depth, RegistryIn-put}
use spn.Resolve.Returns.{RecDone}
use spn.Resolve.Fuel.{resolve_dep-IsDone}
use spn.Resolve.Backtrack.{resolve_dep-IsAtomic}
use spn.Resolve.SameChoice.{RecSame, solve_node_same, pick_same}

module _ (r : Resolver) (locals : List ℕ) (loader : LoaderIn locals r) (index : IndexOk r)
    (fuel : ℕ) {rec other : Rec} (atomic : RecAtomic rec) (enough : RecDone locals fuel rec)
    (same : RecSame locals fuel rec other) where
  resolve_index_package_same :
      (request : Request) (run : Run)
      → RegistryOk run
      → RegistryIn locals run
      → depth locals run < fuel + 1
      → resolve_index_package r other request run ≡ resolve_index_package r rec request run
  unfolding resolve_index_package
  resolve_index_package_same request run ready inside deep =
      elim (Bool-cases (contains run.visited request.qualified)) [
        | inl e ↦ rw (e, resolve_index_package) refl
        | inr fresh ↦ elim (Option-cases (find request.qualified run.named)) [
          | inr (existing, e) ↦ rw (fresh, e, resolve_index_package) refl
          | inl absent ↦
              rw (fresh, absent, resolve_index_package)
                (go (r.get_package request.qualified) refl
                  (record { fresh = fresh; absent = absent }))
        ]
      ]
    where
      go :
          (a : IndexAnswer)
          → r.get_package request.qualified ≡ a
          → IsFree request.qualified run
          → elim a [
            | index_failed ↦ fail run err_index
            | index_missing ↦ fail run err_pkg_unknown
            | index_found releases ↦ pick r other request releases run
          ]
            ≡ elim a [
              | index_failed ↦ fail run err_index
              | index_missing ↦ fail run err_pkg_unknown
              | index_found releases ↦ pick r rec request releases run
            ]
      go index_failed e free = refl
      go index_missing e free = refl
      go (index_found releases) e free =
          pick_same r locals fuel atomic enough same request releases run ready inside free
            (index request.qualified releases e) deep

  solve_local_same :
      (name : ℕ) (pkg : LocalPkg) (run : Run)
      → RegistryOk run
      → RegistryIn locals run
      → contains run.visited name ≡ false
      → contains locals name ≡ true
      → pkg.qualified ≡ name
      → depth locals run < fuel + 1
      → solve_local r other name pkg run ≡ solve_local r rec name pkg run
  unfolding solve_local node_of_local
  solve_local_same name pkg run ready inside fresh listed own deep = go (find_held r name) refl
    where
      deep' : run.budget + unvisited locals (pkg.qualified ∷ run.visited) < fuel
      deep' =
          rw own (omega (arith, unvisited-cons_fresh locals run.visited name listed fresh, deep))

      solved :
          solve_node other name (node_of_local r pkg) run
          ≡ solve_node rec name (node_of_local r pkg) run
      solved =
          solve_node_same r locals fuel atomic enough same name (node_of_local r pkg) run ready
            inside deep'

      go :
          (h : Held)
          → find_held r name ≡ h
          → solve_local r other name pkg run ≡ solve_local r rec name pkg run
      go not_held e = rw (e, solve_local) solved
      go (held pinned) e = elim (Bool-cases (semver_eq pkg.version pinned)) [
        | inl hit ↦ rw (e, hit, solve_local) solved
        | inr miss ↦ rw (e, miss, solve_local) refl
      ]
      go (contradiction pinned) e = rw (e, solve_local) refl

  load_local_same :
      (request : Request) (run : Run)
      → RegistryOk run
      → RegistryIn locals run
      → contains run.visited request.qualified ≡ false
      → depth locals run < fuel + 1
      → load_local r other request run ≡ load_local r rec request run
  unfolding load_local
  load_local_same request run ready inside fresh deep = elim (Option-cases (r.load_pkg request)) [
    | inl e ↦ rw (e, load_local) refl
    | inr (pkg, e) ↦ elim (Bool-cases (pkg.qualified == request.qualified)) [
      | inr off ↦ rw (e, off, load_local) refl
      | inl hit ↦
          let own = (==_iff pkg.qualified request.qualified).0 hit in
          let listed = loader request pkg e own in
          let loaded = record run { registry = put request.qualified pkg run.registry } in
          let grown = Grows-registry run request.qualified pkg own in
          rw (e, hit, load_local)
            (solve_local_same request.qualified pkg loaded (grown.registry_ok ready)
              (RegistryIn-put locals run request.qualified pkg listed inside) fresh listed own deep)
    ]
  ]

  resolve_local_package_same :
      (request : Request) (run : Run)
      → RegistryOk run
      → RegistryIn locals run
      → depth locals run < fuel + 1
      → resolve_local_package r other request run ≡ resolve_local_package r rec request run
  unfolding resolve_local_package
  resolve_local_package_same request run ready inside deep =
      elim (Bool-cases (contains run.visited request.qualified)) [
        | inl e ↦ rw (e, resolve_local_package) refl
        | inr fresh ↦ elim (Option-cases (find request.qualified run.named)) [
          | inr (existing, e) ↦ rw (fresh, e, resolve_local_package) refl
          | inl absent ↦ elim (Option-cases (find request.qualified run.registry)) [
            | inr (pkg, found) ↦
                rw (fresh, absent, found, resolve_local_package)
                  (solve_local_same request.qualified pkg run ready inside fresh
                    (inside request.qualified pkg found) (ready request.qualified pkg found) deep)
            | inl missing ↦ elim (Bool-cases (is_file request.source)) [
              | inl file ↦
                  rw (fresh, absent, missing, file, resolve_local_package)
                    (load_local_same request run ready inside fresh deep)
              | inr past ↦ rw (fresh, absent, missing, past, resolve_local_package) refl
            ]
          ]
        ]
      ]

  resolve_source_same :
      (source : PkgSource) (request : Request) (run : Run)
      → RegistryOk run
      → RegistryIn locals run
      → depth locals run < fuel + 1
      → resolve_source r other source request run ≡ resolve_source r rec source request run
  unfolding resolve_source
  resolve_source_same source_index request run = resolve_index_package_same request run
  resolve_source_same source_root request run = resolve_local_package_same request run
  resolve_source_same source_file request run = resolve_local_package_same request run

  resolve_edge_same :
      (edge : DepEdge) (node : Node) (dep : Request) (run : Run)
      → RegistryOk run
      → RegistryIn locals run
      → depth locals run < fuel + 1
      → resolve_edge r other edge node dep run ≡ resolve_edge r rec edge node dep run
  unfolding resolve_edge
  resolve_edge_same edge_pruned node dep run ready inside deep = refl
  resolve_edge_same edge_process node dep run ready inside deep = refl
  resolve_edge_same edge_private node dep run ready inside deep = refl
  resolve_edge_same edge_scope node dep run ready inside deep =
      resolve_source_same dep.source dep run ready inside deep

-- More fuel than is enough changes nothing.
pub resolve_dep_same :
    (r : Resolver) (locals : List ℕ) (fuel big : ℕ)
    → LoaderIn locals r
    → IndexOk r
    → fuel ≤ big
    → RecSame locals fuel (resolve_dep r fuel) (resolve_dep r big)
unfolding resolve_dep
resolve_dep_same r locals zero big loader index le node dep run ready inside deep =
    absurd (omega (arith, deep))
resolve_dep_same r locals (suc fuel) zero loader index le node dep run ready inside deep =
    absurd (omega (arith, le))
resolve_dep_same r locals (suc fuel) (suc big) loader index le node dep run ready inside deep =
    resolve_edge_same r locals loader index fuel
      (λ n d s ok_s. resolve_dep-IsAtomic r fuel n d s index ok_s)
      (resolve_dep-IsDone r locals fuel loader index)
      (resolve_dep_same r locals fuel big loader index (omega (arith, le)))
      (classify_dep r node dep) node dep run ready inside (omega (arith, deep))
