-- ===== src/Resolve/Boundaries.antt =====
-- `process_boundaries` of source/core/resolve/resolve.c: the requests that were put aside go to other
-- scopes, which are found by their root and by the package that asked, or are made.
use spn.Base.{ℕ, zero, suc, Bool, true, false, ◌&&◌, List, [], ◌∷◌, ◌++◌, ◌==◌, if◌then◌else◌}
use spn.Semver.{Semver}
use spn.Semver.Compare.{semver_eq}
use spn.Enum.Package.{DepEdge, edge_private, dep_package}
use spn.Resolve.Types.{Request, Node, Boundary, Pin}

-- `spn_scope_t`; `from` and `from_version` are the package id.
pub record Scope : Type 0 where
  pub root : ℕ
  pub from : ℕ
  pub from_version : Semver
  pub reqs : List Request
  pub cursor : ℕ
  pub named : List (ℕ × Node)
  pub pins : List Pin
  pub processes : List ℕ

pub record ScopeEdge : Type 0 where
  pub from : ℕ
  pub to : ℕ
  pub private : Bool

abbrev pub is_private : DepEdge → Bool
is_private edge_private = true
is_private _ = false

-- A private boundary leads to a scope of the package that asked, any other to one of the package
-- that is asked for.
abbrev pub root_of : Boundary → ℕ
root_of b = if is_private b.edge then b.from else b.req.qualified

-- The test of the scopes' loop.
unfoldable pub is_scope_of : Boundary → Scope → Bool
is_scope_of b scope =
    scope.root == root_of b && (scope.from == b.from && semver_eq scope.from_version b.from_version)

abbrev pub new_scope : Boundary → Scope
new_scope b = record {
  root = root_of b;
  from = b.from;
  from_version = b.from_version;
  reqs = [];
  cursor = 0;
  named = [];
  pins = [];
  processes = [];
}

-- The request as the other scope sees it.
abbrev pub as_package : Request → Request
as_package req = record req { kind = dep_package; private = false }

abbrev pub push_req : Boundary → Scope → Scope
push_req b scope = record scope { reqs = scope.reqs ++ as_package b.req ∷ [] }

-- `find_or_create_scope`: the scope's index, and the scopes after.
unfoldable pub find_or_create_scope : Boundary → List Scope → ℕ × List Scope
unfolding is_scope_of
find_or_create_scope b [] = (0, new_scope b ∷ [])
find_or_create_scope b (scope ∷ scopes) =
    let (target, scopes') = find_or_create_scope b scopes in
    if is_scope_of b scope then (0, scope ∷ scopes) else (suc target, scope ∷ scopes')

-- The push of the request to the scope with an index.
unfoldable pub push_at : ℕ → Boundary → List Scope → List Scope
push_at i b [] = []
push_at zero b (scope ∷ scopes) = push_req b scope ∷ scopes
push_at (suc i) b (scope ∷ scopes) = scope ∷ push_at i b scopes

-- The loop over the boundaries, for the scope with index `from`.
unfoldable pub process_boundaries :
    ℕ → List Boundary → List Scope → List ScopeEdge → List Scope × List ScopeEdge
unfolding find_or_create_scope push_at
process_boundaries from [] scopes edges = (scopes, edges)
process_boundaries from (b ∷ bs) scopes edges =
    let (target, scopes') = find_or_create_scope b scopes in
    process_boundaries from bs (push_at target b scopes')
      (edges ++ record { from = from; to = target; private = is_private b.edge } ∷ [])
