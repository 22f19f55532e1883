-- ===== src/Resolve/Processes.antt =====
-- `compute_processes` of source/core/resolve/resolve.c: the scopes that end up in one process. Scope 0
-- and each scope that is not entered privately start a process; private edges pass processes on. The
-- loop runs on fuel.
use spn.Base.{
  ℕ, zero, suc, Bool, true, false, not, List, [], ◌∷◌, ◌++◌, ◌==◌, if◌then◌else◌, Option, none,
  some,
}
use spn.Base.Fields.{field_at}
use spn.Resolve.Boundaries.{Scope, ScopeEdge}

-- `scope_has_process` and `scope_add_process`, on the processes of a scope.
unfoldable pub scope_has_process : List ℕ → ℕ → Bool
scope_has_process [] process = false
scope_has_process (p ∷ processes) process =
    if p == process then true else scope_has_process processes process

unfoldable pub scope_add_process : Scope → ℕ → Scope
scope_add_process scope process =
    if scope_has_process scope.processes process
    then scope
    else record scope { processes = scope.processes ++ process ∷ [] }

unfoldable pub add_process_at : ℕ → ℕ → List Scope → List Scope
add_process_at i process [] = []
add_process_at zero process (scope ∷ scopes) = scope_add_process scope process ∷ scopes
add_process_at (suc i) process (scope ∷ scopes) = scope ∷ add_process_at i process scopes

abbrev pub processes_of : List Scope → ℕ → List ℕ
processes_of scopes i = field_at (λ (scope : Scope). scope.processes) [] scopes i

-- The first loop over the edges.
unfoldable pub start_processes : List ScopeEdge → List Scope → List Scope
start_processes [] scopes = scopes
start_processes (edge ∷ edges) scopes =
    start_processes edges
      (if not edge.private then add_process_at edge.to edge.to scopes else scopes)

-- The loop over the processes of an edge's source. They do not change under way: if the edge leads to
-- its own source, nothing is added.
unfoldable pub pass_on : List ℕ → ℕ → List Scope → Bool → List Scope × Bool
pass_on [] to scopes changed = (scopes, changed)
pass_on (process ∷ processes) to scopes changed =
    elim (scope_has_process (processes_of scopes to) process) [
      | true ↦ pass_on processes to scopes changed
      | false ↦ pass_on processes to (add_process_at to process scopes) true
    ]

-- One round of the second loop.
unfoldable pub pass_edges : List ScopeEdge → List Scope → Bool → List Scope × Bool
pass_edges [] scopes changed = (scopes, changed)
pass_edges (edge ∷ edges) scopes changed = elim edge.private [
  | false ↦ pass_edges edges scopes changed
  | true ↦
      let (scopes', changed') = pass_on (processes_of scopes edge.from) edge.to scopes changed in
      pass_edges edges scopes' changed'
]

unfoldable pub settle_processes : ℕ → List ScopeEdge → List Scope → Option (List Scope)
settle_processes zero edges scopes = none
settle_processes (suc fuel) edges scopes =
    let (scopes', changed) = pass_edges edges scopes false in
    elim changed [ true ↦ settle_processes fuel edges scopes' | false ↦ some scopes' ]

unfoldable pub compute_processes : ℕ → List ScopeEdge → List Scope → Option (List Scope)
compute_processes fuel edges scopes =
    settle_processes fuel edges (start_processes edges (add_process_at 0 0 scopes))
