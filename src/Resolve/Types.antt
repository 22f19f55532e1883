-- ===== src/Resolve/Types.antt =====
-- The types of source/core/resolve/types.h, pkg/types.h and index/types.h that the search reads.
-- A qualified name is its intern id; a union is a record of its cases, told apart by its tag.
use spn.Base.{ℕ, Bool, String, List, Option}
use spn.Semver.{Semver, SemverRange}
use spn.When.{When, WhenEnv}
use spn.Enum.Package.{PkgSource, DepKind, DepEdge, IndexDepKind}

-- `spn_requested_dep_t`.
pub record Request : Type 0 where
  pub qualified : ℕ
  pub source : PkgSource
  pub kind : DepKind
  pub private : Bool
  pub gate : When
  pub options : When
  pub range : SemverRange
  pub path : String

-- `spn_index_dep_t`.
pub record IndexDep : Type 0 where
  pub kind : IndexDepKind
  pub private : Bool
  pub id : ℕ
  pub range : SemverRange
  pub gate : When
  pub options : When

-- `spn_index_release_t`; `id` is the intern id of the qualified name.
pub record Release : Type 0 where
  pub id : ℕ
  pub version : Semver
  pub yanked : Bool
  pub deps : List IndexDep

-- The registered package, `spn_registry_pkg_t` with the fields of its info that are read.
pub record LocalPkg : Type 0 where
  pub qualified : ℕ
  pub version : Semver
  pub source : PkgSource
  pub deps : List Request

-- `spn_resolved_pkg_t`.
pub record Node : Type 0 where
  pub qualified : ℕ
  pub version : Semver
  pub source : PkgSource
  pub priority : ℕ
  pub deps : List Request
  pub release : Option Release

-- `spn_scope_boundary_t`.
pub record Boundary : Type 0 where
  pub from : ℕ
  pub from_version : Semver
  pub edge : DepEdge
  pub req : Request

-- `spn_pin_t`.
pub record Pin : Type 0 where
  pub name : ℕ
  pub version : Semver

-- The kinds of errors. `out_of_fuel` has no counterpart in the program.
pub data ResolveError : Type 0 where
  err_dep_cycle err_pkg_unknown err_pkg_conflict err_pkg_conflict_exact : ResolveError
  err_pkg_no_match err_too_complex err_index err_load err_mismatch out_of_fuel : ResolveError

-- What `spn_index_cache_get_package` answers: an error, no package, or a package's releases.
pub data IndexAnswer : Type 0 where
  index_failed index_missing : IndexAnswer
  index_found : List Release → IndexAnswer

-- The parts of `spn_resolve_run_t`, of its current scope and of the resolver that the search
-- changes. `named` and `registry` are hash tables, `visited` is a hash set.
pub record Run : Type 0 where
  pub named : List (ℕ × Node)
  pub boundaries : List Boundary
  pub visited : List ℕ
  pub registry : List (ℕ × LocalPkg)
  pub picks : ℕ
  pub budget : ℕ
  pub fatal : Bool

-- What stays fixed while a scope is searched: the pins, the forced pin, and what other parts of the
-- program answer (the index, a manifest on disk, an option environment, the linkage of a node).
-- `sort_requests` is the library's sort by the canonical order.
pub record Resolver : Type 0 where
  pub pins : List Pin
  pub forced : Option Pin
  pub get_package : ℕ → IndexAnswer
  pub load_pkg : Request → Option LocalPkg
  pub options_env : Node → WhenEnv
  pub is_shared : Node → Bool
  pub sort_requests : List Request → List Request

-- The run after a call, and its error if it failed.
abbrev pub Outcome : Type 0
Outcome = Run × Option ResolveError
