-- ===== src/Enum/PackageNames.antt =====
-- The names of Enum/Package.antt are read back exactly.
use spn.Base.{String, ◌≡◌, ◌⊎◌, refl, some, arith, str_eq_iff}
use spn.Enum.Exact.{IsExact, read_literal}
use spn.Enum.Package.{
  PkgSource, source_root, source_file, source_index, pkg_source_to_str, pkg_source_from_str,
  PkgRootKind, root_none, root_local, root_git, pkg_root_kind_to_str, pkg_root_kind_from_str,
  DepKind, dep_package, dep_build, dep_test, dep_kind_to_str, dep_kind_from_str, DepEdge,
  edge_scope, edge_process, edge_private, edge_pruned, dep_edge_to_str, dep_edge_from_str,
  IndexKind, index_workspace, index_builtin, index_user, index_kind_to_str, index_kind_from_str,
  IndexDepKind, index_dep_normal, index_dep_build, index_dep_test, index_dep_kind_to_str,
  index_dep_kind_from_str, IndexProtocol, protocol_git, protocol_http, protocol_dir,
  index_protocol_to_str, index_protocol_from_str,
}

pkg_source_back :
    (a : PkgSource) (t : String)
    → some (pkg_source_to_str a) ≡ some t
    → pkg_source_from_str t ≡ some a
unfolding pkg_source_to_str pkg_source_from_str
pkg_source_back source_root t e = read_literal pkg_source_from_str "root" t source_root refl e
pkg_source_back source_file t e = read_literal pkg_source_from_str "file" t source_file refl e
pkg_source_back source_index t e = read_literal pkg_source_from_str "index" t source_index refl e

pkg_source_only :
    (s : String) (a : PkgSource)
    → pkg_source_from_str s ≡ some a
    → ⊥ ⊎ (some (pkg_source_to_str a) ≡ some s)
unfolding pkg_source_to_str pkg_source_from_str
pkg_source_only s a e =
    ground (arith, str_eq_iff s "root", str_eq_iff s "file", str_eq_iff s "index")

pub PkgSource-IsExact :
    IsExact {A = PkgSource} (λ a. some (pkg_source_to_str a)) pkg_source_from_str (λ _. ⊥)
PkgSource-IsExact = record { back = pkg_source_back; only = pkg_source_only }

pkg_root_kind_back :
    (a : PkgRootKind) (t : String)
    → some (pkg_root_kind_to_str a) ≡ some t
    → pkg_root_kind_from_str t ≡ some a
unfolding pkg_root_kind_to_str pkg_root_kind_from_str
pkg_root_kind_back root_none t e = read_literal pkg_root_kind_from_str "none" t root_none refl e
pkg_root_kind_back root_local t e = read_literal pkg_root_kind_from_str "local" t root_local refl e
pkg_root_kind_back root_git t e = read_literal pkg_root_kind_from_str "git" t root_git refl e

pkg_root_kind_only :
    (s : String) (a : PkgRootKind)
    → pkg_root_kind_from_str s ≡ some a
    → ⊥ ⊎ (some (pkg_root_kind_to_str a) ≡ some s)
unfolding pkg_root_kind_to_str pkg_root_kind_from_str
pkg_root_kind_only s a e =
    ground (arith, str_eq_iff s "none", str_eq_iff s "local", str_eq_iff s "git")

pub PkgRootKind-IsExact :
    IsExact {A = PkgRootKind} (λ a. some (pkg_root_kind_to_str a)) pkg_root_kind_from_str (λ _. ⊥)
PkgRootKind-IsExact = record { back = pkg_root_kind_back; only = pkg_root_kind_only }

dep_kind_back :
    (a : DepKind) (t : String)
    → some (dep_kind_to_str a) ≡ some t
    → some (dep_kind_from_str t) ≡ some a
unfolding dep_kind_to_str dep_kind_from_str
dep_kind_back dep_package t e =
    read_literal (λ s. some (dep_kind_from_str s)) "package" t dep_package refl e
dep_kind_back dep_build t e =
    read_literal (λ s. some (dep_kind_from_str s)) "build" t dep_build refl e
dep_kind_back dep_test t e = read_literal (λ s. some (dep_kind_from_str s)) "test" t dep_test refl e

dep_kind_only :
    (s : String) (a : DepKind)
    → some (dep_kind_from_str s) ≡ some a
    → (a ≡ dep_package) ⊎ (some (dep_kind_to_str a) ≡ some s)
unfolding dep_kind_to_str dep_kind_from_str
dep_kind_only s a e =
    ground (arith, str_eq_iff s "package", str_eq_iff s "build", str_eq_iff s "test")

pub DepKind-IsExact :
    IsExact {A = DepKind}
      (λ a. some (dep_kind_to_str a))
      (λ s. some (dep_kind_from_str s))
      (λ a. a ≡ dep_package)
DepKind-IsExact = record { back = dep_kind_back; only = dep_kind_only }

dep_edge_back :
    (a : DepEdge) (t : String)
    → some (dep_edge_to_str a) ≡ some t
    → some (dep_edge_from_str t) ≡ some a
unfolding dep_edge_to_str dep_edge_from_str
dep_edge_back edge_scope t e =
    read_literal (λ s. some (dep_edge_from_str s)) "scope" t edge_scope refl e
dep_edge_back edge_process t e =
    read_literal (λ s. some (dep_edge_from_str s)) "process" t edge_process refl e
dep_edge_back edge_private t e =
    read_literal (λ s. some (dep_edge_from_str s)) "private" t edge_private refl e
dep_edge_back edge_pruned t e =
    read_literal (λ s. some (dep_edge_from_str s)) "pruned" t edge_pruned refl e

dep_edge_only :
    (s : String) (a : DepEdge)
    → some (dep_edge_from_str s) ≡ some a
    → (a ≡ edge_scope) ⊎ (some (dep_edge_to_str a) ≡ some s)
unfolding dep_edge_to_str dep_edge_from_str
dep_edge_only s a e = ground (
  arith,
  str_eq_iff s "scope",
  str_eq_iff s "process",
  str_eq_iff s "private",
  str_eq_iff s "pruned",
)

pub DepEdge-IsExact :
    IsExact {A = DepEdge}
      (λ a. some (dep_edge_to_str a))
      (λ s. some (dep_edge_from_str s))
      (λ a. a ≡ edge_scope)
DepEdge-IsExact = record { back = dep_edge_back; only = dep_edge_only }

index_kind_back :
    (a : IndexKind) (t : String)
    → some (index_kind_to_str a) ≡ some t
    → index_kind_from_str t ≡ some a
unfolding index_kind_to_str index_kind_from_str
index_kind_back index_workspace t e =
    read_literal index_kind_from_str "workspace" t index_workspace refl e
index_kind_back index_builtin t e =
    read_literal index_kind_from_str "builtin" t index_builtin refl e
index_kind_back index_user t e = read_literal index_kind_from_str "user" t index_user refl e

index_kind_only :
    (s : String) (a : IndexKind)
    → index_kind_from_str s ≡ some a
    → ⊥ ⊎ (some (index_kind_to_str a) ≡ some s)
unfolding index_kind_to_str index_kind_from_str
index_kind_only s a e =
    ground (arith, str_eq_iff s "workspace", str_eq_iff s "builtin", str_eq_iff s "user")

pub IndexKind-IsExact :
    IsExact {A = IndexKind} (λ a. some (index_kind_to_str a)) index_kind_from_str (λ _. ⊥)
IndexKind-IsExact = record { back = index_kind_back; only = index_kind_only }

index_dep_kind_back :
    (a : IndexDepKind) (t : String)
    → some (index_dep_kind_to_str a) ≡ some t
    → some (index_dep_kind_from_str t) ≡ some a
unfolding index_dep_kind_to_str index_dep_kind_from_str
index_dep_kind_back index_dep_normal t e =
    read_literal (λ s. some (index_dep_kind_from_str s)) "normal" t index_dep_normal refl e
index_dep_kind_back index_dep_build t e =
    read_literal (λ s. some (index_dep_kind_from_str s)) "build" t index_dep_build refl e
index_dep_kind_back index_dep_test t e =
    read_literal (λ s. some (index_dep_kind_from_str s)) "test" t index_dep_test refl e

index_dep_kind_only :
    (s : String) (a : IndexDepKind)
    → some (index_dep_kind_from_str s) ≡ some a
    → (a ≡ index_dep_normal) ⊎ (some (index_dep_kind_to_str a) ≡ some s)
unfolding index_dep_kind_to_str index_dep_kind_from_str
index_dep_kind_only s a e =
    ground (arith, str_eq_iff s "normal", str_eq_iff s "build", str_eq_iff s "test")

pub IndexDepKind-IsExact :
    IsExact {A = IndexDepKind}
      (λ a. some (index_dep_kind_to_str a))
      (λ s. some (index_dep_kind_from_str s))
      (λ a. a ≡ index_dep_normal)
IndexDepKind-IsExact = record { back = index_dep_kind_back; only = index_dep_kind_only }

index_protocol_back :
    (a : IndexProtocol) (t : String)
    → some (index_protocol_to_str a) ≡ some t
    → index_protocol_from_str t ≡ some a
unfolding index_protocol_to_str index_protocol_from_str
index_protocol_back protocol_git t e =
    read_literal index_protocol_from_str "git" t protocol_git refl e
index_protocol_back protocol_http t e =
    read_literal index_protocol_from_str "http" t protocol_http refl e
index_protocol_back protocol_dir t e =
    read_literal index_protocol_from_str "dir" t protocol_dir refl e

index_protocol_only :
    (s : String) (a : IndexProtocol)
    → index_protocol_from_str s ≡ some a
    → ⊥ ⊎ (some (index_protocol_to_str a) ≡ some s)
unfolding index_protocol_to_str index_protocol_from_str
index_protocol_only s a e =
    ground (arith, str_eq_iff s "git", str_eq_iff s "http", str_eq_iff s "dir")

pub IndexProtocol-IsExact :
    IsExact {A = IndexProtocol}
      (λ a. some (index_protocol_to_str a))
      index_protocol_from_str
      (λ _. ⊥)
IndexProtocol-IsExact = record { back = index_protocol_back; only = index_protocol_only }

-- For each enumeration, the reader and the writer are inverse to each other.
abbrev pub ArePackageNames : Type 0
ArePackageNames =
    IsExact {A = PkgSource} (λ a. some (pkg_source_to_str a)) pkg_source_from_str (λ _. ⊥)
    × IsExact {A = PkgRootKind} (λ a. some (pkg_root_kind_to_str a)) pkg_root_kind_from_str (λ _. ⊥)
    × IsExact {A = DepKind} (λ a. some (dep_kind_to_str a)) (λ s. some (dep_kind_from_str s))
        (λ a. a ≡ dep_package)
    × IsExact {A = DepEdge} (λ a. some (dep_edge_to_str a)) (λ s. some (dep_edge_from_str s))
        (λ a. a ≡ edge_scope)
    × IsExact {A = IndexKind} (λ a. some (index_kind_to_str a)) index_kind_from_str (λ _. ⊥)
    × IsExact {A = IndexDepKind} (λ a. some (index_dep_kind_to_str a))
        (λ s. some (index_dep_kind_from_str s)) (λ a. a ≡ index_dep_normal)
    × IsExact {A = IndexProtocol} (λ a. some (index_protocol_to_str a)) index_protocol_from_str
        (λ _. ⊥)

pub package_names : ArePackageNames
package_names = (
  PkgSource-IsExact, PkgRootKind-IsExact, DepKind-IsExact, DepEdge-IsExact, IndexKind-IsExact,
  IndexDepKind-IsExact, IndexProtocol-IsExact,
)
