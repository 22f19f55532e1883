-- ===== src/Resolve/Solver.antt =====
-- The frame of the search of source/core/resolve/resolve.c within one scope: pins, the loop over a
-- node's requests, and the undo when it fails. `rec` is the call of `resolve_dep`.
use spn.Base.{
  ℕ, ◌+◌, Bool, true, false, not, List, [], ◌∷◌, Option, none, some, ◌==◌, if◌then◌else◌, length,
  take,
}
use spn.Semver.{Semver}
use spn.Semver.Compare.{semver_eq}
use spn.When.{WhenEnv, when_eval}
use spn.Enum.Package.{
  PkgSource, source_root, source_file, source_index, DepKind, dep_package, dep_build, dep_test,
  DepEdge, IndexDepKind, index_dep_normal, index_dep_build, index_dep_test,
}
use spn.Resolve.Types.{
  Request, IndexDep, Release, LocalPkg, Node, Boundary, Pin, ResolveError, Run, Outcome,
}
use spn.Resolve.Table.{erase, put, keys, keep_keys}

abbrev pub ok : Run → Outcome
ok run = (run, none)

abbrev pub fail : Run → ResolveError → Outcome
fail run e = (run, some e)

-- The call of `resolve_dep` for a node and one of its requests.
abbrev pub Rec : Type 0
Rec = Node → Request → Run → Outcome

unfoldable pub dep_kind_from_index : IndexDepKind → DepKind
dep_kind_from_index index_dep_normal = dep_package
dep_kind_from_index index_dep_build = dep_build
dep_kind_from_index index_dep_test = dep_test

abbrev pub is_root : PkgSource → Bool
is_root source_root = true
is_root _ = false

-- Whether a name is pinned: not at all, to a version, or to two different versions.
pub data Held : Type 0 where
  not_held : Held
  held contradiction : Semver → Held

unfoldable pub find_forced : Option Pin → ℕ → Option Semver
find_forced none name = none
find_forced (some pin) name = if pin.name == name then some pin.version else none

-- The loop of `find_pin`, with the version found so far.
unfoldable pub find_pin : List Pin → ℕ → Option Semver → Held
find_pin [] name none = not_held
find_pin [] name (some version) = held version
find_pin (pin ∷ pins) name found =
    let skipped = find_pin pins name found in
    let next = find_pin pins name (some pin.version) in
    if not (pin.name == name) then skipped else elim found [
      | none ↦ next
      | some version ↦ if semver_eq version pin.version then next else contradiction version
    ]

-- `try_union`: go on, or return the error.
abbrev pub and_then : Outcome → (Run → Outcome) → Outcome
and_then (run, none) k = k run
and_then (run, some e) k = (run, some e)

-- The requests whose gate holds.
unfoldable pub open_requests : WhenEnv → List Request → List Request
open_requests env [] = []
open_requests env (dep ∷ deps) =
    if when_eval (some dep.gate) env then dep ∷ open_requests env deps else open_requests env deps

-- The loop of `resolve_deps`: it stops at the first error.
unfoldable pub resolve_each : Rec → Node → List Request → Run → Outcome
resolve_each rec node [] run = ok run
resolve_each rec node (dep ∷ deps) run = and_then (rec node dep run) (resolve_each rec node deps)

unfoldable pub resolve_deps : Rec → Node → Run → Outcome
unfolding resolve_each
resolve_deps rec node run =
    let (run', e) =
      resolve_each rec node node.deps (record run { visited = node.qualified ∷ run.visited }) in
    (record run' { visited = erase run'.visited node.qualified }, e)

-- The undo at the end of `solve_node`: `restore_named`, and the boundaries cut back.
unfoldable pub undo : Run → Outcome → Outcome
undo before (run, none) = (run, none)
undo before (run, some e) = (
  record run {
    named = keep_keys (keys before.named) run.named;
    boundaries = take (length before.boundaries) run.boundaries;
  },
  some e,
)

unfoldable pub solve_node : Rec → ℕ → Node → Run → Outcome
unfolding resolve_deps undo
solve_node rec name node run =
    let node' = record node { priority = run.picks } in
    undo run (
      resolve_deps rec node'
        (record run { picks = run.picks + 1; named = put name node' run.named }))

unfoldable pub request_of_index : IndexDep → Request
unfolding dep_kind_from_index
request_of_index dep = record {
  qualified = dep.id;
  source = source_index;
  kind = dep_kind_from_index dep.kind;
  private = dep.private;
  gate = dep.gate;
  options = dep.options;
  range = dep.range;
  path = "";
}

abbrev pub bare_release : Release → Node
bare_release release = record {
  qualified = release.id;
  version = release.version;
  source = source_index;
  priority = 0;
  deps = [];
  release = some release;
}

abbrev pub bare_local : LocalPkg → Node
bare_local pkg = record {
  qualified = pkg.qualified;
  version = pkg.version;
  source = pkg.source;
  priority = 0;
  deps = [];
  release = none;
}

-- The first release of the pinned version.
unfoldable pub find_version : Semver → List Release → Option Release
find_version version [] = none
find_version version (release ∷ rest) =
    if semver_eq release.version version then some release else find_version version rest

-- The error that is kept: the first.
abbrev pub first_error : Option ResolveError → ResolveError → Option ResolveError
first_error none e = some e
first_error (some e) _ = some e

abbrev pub is_file : PkgSource → Bool
is_file source_file = true
is_file _ = false

-- A request that crosses into another scope is put aside.
abbrev pub boundary_of : Node → DepEdge → Request → Boundary
boundary_of node edge dep = record {
  from = node.qualified;
  from_version = node.version;
  edge = edge;
  req = dep;
}

-- `solve_reqs` on the scope's requests, for the pseudo node of the root.
abbrev pub root_node : Node
root_node = record {
  qualified = 0;
  version = record { major = 0; minor = 0; patch = 0 };
  source = source_root;
  priority = 0;
  deps = [];
  release = none;
}
