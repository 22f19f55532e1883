-- ===== src/Resolve/Filing.antt =====
-- `process_boundaries` of source/core/resolve/resolve.c files every request in its scope.
use spn.Base.{
  ℕ, ◌≡◌, refl, sym, ◌∙◌, Bool, true, false, List, [], ◌∷◌, ◌++◌, append_assoc, append-nil, some,
  inl, inr, Bool-cases, In, get_elem?, arith, All,
}
use spn.Semver.Compare.{semver_eq}
use spn.Resolve.Types.{Boundary}
use spn.Resolve.Boundaries.{
  Scope, ScopeEdge, is_private, is_scope_of, new_scope, as_package, push_req, find_or_create_scope,
  push_at, process_boundaries,
}
use spn.Resolve.Filed.{
  IsFor, Longer, Extends, SameKey, Apart, Filed, AllFiled, Extends-refl, Extends-trans, Filed-later,
  Longer-refl, In-last,
}

is_scope_of-IsFor : (b : Boundary) (scope : Scope) → is_scope_of b scope ≡ true → IsFor b scope
unfolding is_scope_of semver_eq
is_scope_of-IsFor b scope h = record {
  root_same = ground arith;
  from_same = ground arith;
  version_same = ground arith;
}

-- The index found, with the request pushed there.
filed_in : Boundary → List Scope → List Scope
filed_in b scopes = push_at (find_or_create_scope b scopes).0 b (find_or_create_scope b scopes).1

-- What finding a scope and pushing the request does.
record IsStep (b : Boundary) (scopes : List Scope) : Type 0 where
  scope : Scope
  found : get_elem? (filed_in b scopes) (find_or_create_scope b scopes).0 ≡ some scope
  is_for : IsFor b scope
  has_request : In (as_package b.req) scope.reqs
  extends : Extends scopes (filed_in b scopes)

push_req-Longer : (b : Boundary) (scope : Scope) → Longer scope (push_req b scope)
push_req-Longer b scope = record { same = refl; extra = as_package b.req ∷ []; more = refl }

file-IsStep : (b : Boundary) (scopes : List Scope) → IsStep b scopes
unfolding filed_in find_or_create_scope push_at
file-IsStep b [] = record {
  scope = push_req b (new_scope b);
  found = refl;
  is_for = record { root_same = refl; from_same = refl; version_same = refl };
  has_request = inl refl;
  extends = tt;
}
file-IsStep b (scope ∷ scopes) = go (is_scope_of b scope) refl (file-IsStep b scopes)
  where
    go : (hit : Bool) → is_scope_of b scope ≡ hit → IsStep b scopes → IsStep b (scope ∷ scopes)
    go true e rest =
        let for_b = is_scope_of-IsFor b scope e in
        record {
          scope = push_req b scope;
          found = rw e refl;
          is_for = record {
            root_same = for_b.root_same;
            from_same = for_b.from_same;
            version_same = for_b.version_same;
          };
          has_request = In-last (as_package b.req) scope.reqs;
          extends = rw e (push_req-Longer b scope, Extends-refl scopes);
        }
    go false e rest = record {
      scope = rest.scope;
      found = rw e rest.found;
      is_for = rest.is_for;
      has_request = rest.has_request;
      extends = rw e (Longer-refl scope, rest.extends);
    }

-- What holds of every scope, and does not read the requests, holds after the step.
file-All :
    (P : Scope → Type 0) (b : Boundary) (scopes : List Scope)
    → ((scope : Scope) → P scope → P (push_req b scope))
    → P (push_req b (new_scope b))
    → All P scopes
    → All P (filed_in b scopes)
unfolding filed_in find_or_create_scope push_at
file-All P b [] keeps new h = (new, tt)
file-All P b (scope ∷ scopes) keeps new h = elim (Bool-cases (is_scope_of b scope)) [
  | inl e ↦ rw e (keeps scope h.0, h.1)
  | inr e ↦ rw e (h.0, file-All P b scopes keeps new h.1)
]

miss-SameKey :
    (b : Boundary) (scope : Scope)
    → is_scope_of b scope ≡ false
    → ¬ SameKey scope (push_req b (new_scope b))
unfolding is_scope_of semver_eq
miss-SameKey b scope h k = ground arith

All-SameKey :
    (b : Boundary) (s : Scope) (scopes : List Scope)
    → All (λ t. ¬ SameKey s t) scopes
    → All (λ t. ¬ SameKey (push_req b s) t) scopes
All-SameKey b s [] h = tt
All-SameKey b s (t ∷ scopes) h = (h.0, All-SameKey b s scopes h.1)

file-Apart : (b : Boundary) (scopes : List Scope) → Apart scopes → Apart (filed_in b scopes)
unfolding filed_in find_or_create_scope push_at
file-Apart b [] h = (tt, tt)
file-Apart b (scope ∷ scopes) h = elim (Bool-cases (is_scope_of b scope)) [
  | inl e ↦ rw e (All-SameKey b scope scopes h.0, h.1)
  | inr e ↦ rw e (
    file-All (λ t. ¬ SameKey scope t) b scopes (λ t k. k) (miss-SameKey b scope e) h.0,
    file-Apart b scopes h.1,
  )
]

-- What processing the boundaries of a scope gives: the scopes stay where they are and keep their
-- requests, no two are for the same root and package, and one edge is added for each boundary, which
-- leads to the boundary's scope, where its request is.
pub record IsProcessed (from : ℕ) (bs : List Boundary) (scopes : List Scope)
    (edges : List ScopeEdge) (result : List Scope × List ScopeEdge) : Type 0 where
  pub extends : Extends scopes result.0
  pub apart : Apart result.0
  pub new : List ScopeEdge
  pub edges_grow : result.1 ≡ edges ++ new
  pub all_filed : AllFiled from result.0 bs new

-- If no two scopes are for the same root and package, then after the boundaries of a scope are
-- processed the same holds; the scopes that were there stay in their places with their fields, and
-- their requests at the front; and behind the old edges there is one for each boundary, in order,
-- from the scope that is processed to a scope for the boundary's root and package, which has the
-- boundary's request as a public one for a package.
pub process_boundaries-IsProcessed :
    (from : ℕ) (bs : List Boundary) (scopes : List Scope) (edges : List ScopeEdge)
    → Apart scopes
    → IsProcessed from bs scopes edges (process_boundaries from bs scopes edges)
unfolding process_boundaries filed_in
process_boundaries-IsProcessed from [] scopes edges apart = record {
  extends = Extends-refl scopes;
  apart = apart;
  new = [];
  edges_grow = sym (append-nil edges);
  all_filed = tt;
}
process_boundaries-IsProcessed from (b ∷ bs) scopes edges apart =
    let step = file-IsStep b scopes in
    let next = filed_in b scopes in
    let edge : ScopeEdge = record {
      from = from;
      to = (find_or_create_scope b scopes).0;
      private = is_private b.edge;
    } in
    let rest =
      process_boundaries-IsProcessed from bs next (edges ++ edge ∷ [])
        (file-Apart b scopes apart) in
    let result = process_boundaries from bs next (edges ++ edge ∷ []) in
    let filed : Filed from next b edge = record {
      edge_from = refl;
      edge_private = refl;
      scope = step.scope;
      found = step.found;
      is_for = step.is_for;
      has_request = step.has_request;
    } in
    record {
      extends = Extends-trans scopes next result.0 step.extends rest.extends;
      apart = rest.apart;
      new = edge ∷ rest.new;
      edges_grow = rest.edges_grow ∙ append_assoc edges (edge ∷ []) rest.new;
      all_filed = (Filed-later from next result.0 b edge rest.extends filed, rest.all_filed);
    }
