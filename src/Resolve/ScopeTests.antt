-- ===== src/Resolve/ScopeTests.antt =====
-- The scopes of a result at concrete requests: their pins, boundaries and processes.
use spn.Base.{true, ◌≢◌, arith, ℕ, ◌≡◌, true, false, List, [], ◌∷◌, none, some, refl}
use spn.When.{when_eval}
use spn.Semver.{Semver}
use spn.Semver.Convert.{semver_lit, caret_to_range}
use spn.Enum.Package.{DepEdge, edge_process, edge_private, source_index}
use spn.Resolve.Types.{Boundary, Outcome, Pin, out_of_fuel, Node}
use spn.Resolve.Table.{contains, find, put, erase, keys, keep_keys}
use spn.Semver.Compare.{semver_in_range, semver_eq}
use spn.Resolve.Scope.{resolve_scope, restore}
use spn.Resolve.Kept.{Solves, IsNew, resolve_scope-Solves}
use spn.Resolve.ScopeEnough.{resolve_scope-returns}
use spn.Base.{zero, suc, ◌<◌, ◌↔◌, inl, inr, length, In}
use spn.Base.Fields.{field_at}
use spn.Resolve.Boundaries.{Scope, ScopeEdge, process_boundaries}
use spn.Resolve.Processes.{scope_has_process, compute_processes}
use spn.Resolve.Spread.{has}
use spn.Resolve.Shared.{InProcess, compute_processes_iff}
use spn.Resolve.Filing.{IsProcessed, process_boundaries-IsProcessed}
use spn.Resolve.Samples.{resolver, start, request, index_ok, start_ok, loader_in, start_in}

-- What another scope has picked: a release of 1 that cannot be had here, and one of 2 that can.
abbrev pick : ℕ → Semver → Node
pick name version = record {
  qualified = name;
  version = version;
  source = source_index;
  priority = 0;
  deps = [];
  release = none;
}

abbrev picks : List Node
picks = pick 1 (semver_lit 1 5 0) ∷ pick 2 (semver_lit 2 0 0) ∷ []

abbrev scope_of_one : Outcome × List Pin
scope_of_one = resolve_scope resolver 21 20 false (request 1 1 ∷ []) [] picks start

scope_keeps : scope_of_one.1 ≡ record { name = 2; version = semver_lit 2 0 0 } ∷ []
unfolding resolve_scope contains find put erase keys keep_keys semver_in_range caret_to_range
    semver_eq when_eval restore
scope_keeps = refl

scope_done : scope_of_one.0.1 ≡ none
unfolding resolve_scope contains find put erase keys keep_keys semver_in_range caret_to_range
    semver_eq when_eval restore
scope_done = refl

start-IsNew : IsNew start
start-IsNew = record { registry_ok = start_ok; no_names = refl; no_nodes = refl }

resolve_scope-Solves_example :
    Solves resolver (request 1 1 ∷ []) scope_of_one.1 scope_of_one.0.0.named
resolve_scope-Solves_example =
    resolve_scope-Solves resolver 21 20 (request 1 1 ∷ []) [] picks start index_ok start-IsNew
      scope_done

resolve_scope-returns_example :
    (scope_of_one.0.1 ≢ some out_of_fuel)
    × (resolve_scope resolver 30 20 false (request 1 1 ∷ []) [] picks start ≡ scope_of_one)
resolve_scope-returns_example =
    resolve_scope-returns resolver [] 21 30 20 false (request 1 1 ∷ []) [] picks start loader_in
      index_ok
      (record {
        registry_ok = start_ok;
        registry_in = start_in;
        no_names = refl;
        low = omega arith;
      })
      (omega arith)

-- Two build requests for 7, from the same package, and a private one.
abbrev aside : DepEdge → Boundary
aside edge = record { from = 1; from_version = semver_lit 1 4 0; edge = edge; req = request 7 1 }

abbrev all_aside : List Boundary
all_aside = aside edge_process ∷ aside edge_private ∷ aside edge_process ∷ []

-- The two go to one scope, the private one to another.
aside_edges :
    (process_boundaries 0 all_aside [] []).1
    ≡ record { from = 0; to = 0; private = false }
      ∷ record { from = 0; to = 1; private = true }
      ∷ record { from = 0; to = 0; private = false }
      ∷ []
unfolding process_boundaries semver_eq
aside_edges = refl

process_boundaries-IsProcessed_example :
    IsProcessed 0 all_aside [] [] (process_boundaries 0 all_aside [] [])
process_boundaries-IsProcessed_example = process_boundaries-IsProcessed 0 all_aside [] [] tt

abbrev bare_scope : Scope
bare_scope = record {
  root = 0;
  from = 0;
  from_version = semver_lit 0 0 0;
  reqs = [];
  cursor = 0;
  named = [];
  pins = [];
  processes = [];
}

abbrev three_scopes : List Scope
three_scopes = bare_scope ∷ bare_scope ∷ bare_scope ∷ []

-- The second scope is entered by a process edge, and the third privately from there.
abbrev scope_edges : List ScopeEdge
scope_edges =
    record { from = 1; to = 2; private = true } ∷ record { from = 0; to = 1; private = false } ∷ []

scopes_shared :
    compute_processes 10 scope_edges three_scopes
    ≡ some (
        record bare_scope { processes = 0 ∷ [] }
        ∷ record bare_scope { processes = 1 ∷ [] }
        ∷ record bare_scope { processes = 1 ∷ [] }
        ∷ [])
unfolding compute_processes spn.Resolve.Processes.settle_processes spn.Resolve.Processes.pass_edges
    spn.Resolve.Processes.pass_on spn.Resolve.Processes.start_processes
    spn.Resolve.Processes.add_process_at spn.Resolve.Processes.scope_add_process field_at
    scope_has_process
scopes_shared = refl

three_scopes_new : (j q : ℕ) → has three_scopes j q ≡ false
unfolding field_at scope_has_process
three_scopes_new zero q = refl
three_scopes_new (suc zero) q = refl
three_scopes_new (suc (suc zero)) q = refl
three_scopes_new (suc (suc (suc j))) q = refl

scope_edges_valid :
    (e : ScopeEdge)
    → In e scope_edges
    → (e.from < length three_scopes) × (e.to < length three_scopes)
scope_edges_valid e (inl same) = ground arith
scope_edges_valid e (inr (inl same)) = ground arith
scope_edges_valid e (inr (inr m)) = elim m [ ]

compute_processes_iff_example :
    (scopes' : List Scope) × (compute_processes 10 scope_edges three_scopes ≡ some scopes')
    × ((i p : ℕ) → (has scopes' i p ≡ true) ↔ InProcess scope_edges p i)
compute_processes_iff_example =
    compute_processes_iff 10 scope_edges three_scopes three_scopes_new (omega arith)
      scope_edges_valid (omega arith)
