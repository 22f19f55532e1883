-- ===== src/Resolve/Filed.antt =====
-- Where `process_boundaries` of source/core/resolve/resolve.c files the requests.
use spn.Base.{
  ℕ, zero, suc, ◌≡◌, refl, sym, ◌∙◌, List, [], ◌∷◌, ◌++◌, append_assoc, append-nil, some, inl, inr,
  In, get_elem?, ap, All,
}
use mathlib.Core.Path.{subst}
use mathlib.Core.Option.{some-injective}
use spn.Resolve.Types.{Request, Boundary}
use spn.Resolve.Boundaries.{Scope, ScopeEdge, is_private, root_of, as_package}

-- The scope is the one for the boundary.
pub record IsFor (b : Boundary) (scope : Scope) : Type 0 where
  pub root_same : scope.root ≡ root_of b
  pub from_same : scope.from ≡ b.from
  pub version_same : scope.from_version ≡ b.from_version

abbrev with_reqs : List Request → Scope → Scope
with_reqs reqs scope = record scope { reqs = reqs }

-- The scope is the same, with more requests behind those it had.
pub record Longer (s t : Scope) : Type 0 where
  pub same : t ≡ record s { reqs = t.reqs }
  pub extra : List Request
  pub more : t.reqs ≡ s.reqs ++ extra

-- Every scope is where it was, and new ones are behind.
abbrev pub Extends : List Scope → List Scope → Type 0
Extends [] ts = Unit
Extends (s ∷ ss) [] = ⊥
Extends (s ∷ ss) (t ∷ ts) = Longer s t × Extends ss ts

-- The scopes are for the same root and package.
abbrev pub SameKey : Scope → Scope → Type 0
SameKey s t = (s.root ≡ t.root) × (s.from ≡ t.from) × (s.from_version ≡ t.from_version)

-- No two scopes are for the same root and package.
abbrev pub Apart : List Scope → Type 0
Apart [] = Unit
Apart (s ∷ ss) = All (λ t. ¬ SameKey s t) ss × Apart ss

-- The edge leads to the scope for the boundary, which has the boundary's request.
pub record Filed (from : ℕ) (scopes : List Scope) (b : Boundary) (edge : ScopeEdge) : Type 0 where
  pub edge_from : edge.from ≡ from
  pub edge_private : edge.private ≡ is_private b.edge
  pub scope : Scope
  pub found : get_elem? scopes edge.to ≡ some scope
  pub is_for : IsFor b scope
  pub has_request : In (as_package b.req) scope.reqs

-- One edge for each boundary, in their order.
abbrev pub AllFiled : ℕ → List Scope → List Boundary → List ScopeEdge → Type 0
AllFiled from scopes [] [] = Unit
AllFiled from scopes [] (edge ∷ edges) = ⊥
AllFiled from scopes (b ∷ bs) [] = ⊥
AllFiled from scopes (b ∷ bs) (edge ∷ edges) =
    Filed from scopes b edge × AllFiled from scopes bs edges

pub Longer-refl : (s : Scope) → Longer s s
Longer-refl s = record { same = refl; extra = []; more = sym (append-nil s.reqs) }

pub Extends-refl : (ss : List Scope) → Extends ss ss
Extends-refl [] = tt
Extends-refl (s ∷ ss) = (Longer-refl s, Extends-refl ss)

Longer-trans : {s t u : Scope} → Longer s t → Longer t u → Longer s u
Longer-trans {s} {t} {u} a b = record {
  same = b.same ∙ ap (with_reqs u.reqs) a.same;
  extra = a.extra ++ b.extra;
  more = b.more ∙ ap (λ l. l ++ b.extra) a.more ∙ append_assoc s.reqs a.extra b.extra;
}

pub Extends-trans : (ss ts us : List Scope) → Extends ss ts → Extends ts us → Extends ss us
Extends-trans [] ts us a b = tt
Extends-trans (s ∷ ss) (t ∷ ts) (u ∷ us) a b =
    (Longer-trans a.0 b.0, Extends-trans ss ts us a.1 b.1)
Extends-trans (s ∷ ss) (t ∷ ts) [] a b = b
Extends-trans (s ∷ ss) [] us a b = absurd a

Extends-get :
    (ss ts : List Scope) (i : ℕ) (s : Scope)
    → Extends ss ts
    → get_elem? ss i ≡ some s
    → (t : Scope) × (get_elem? ts i ≡ some t) × Longer s t
Extends-get [] ts i s a e = cc
Extends-get (r ∷ ss) [] i s a e = absurd a
Extends-get (r ∷ ss) (t ∷ ts) zero s a e =
    (t, refl, subst (λ x. Longer x t) (some-injective r s e) a.0)
Extends-get (r ∷ ss) (t ∷ ts) (suc i) s a e = Extends-get ss ts i s a.1 e

In-append : {A : Type 0} (x : A) (xs ys : List A) → In x xs → In x (xs ++ ys)
In-append x [] ys h = elim h [ ]
In-append x (y ∷ xs) ys (inl e) = inl e
In-append x (y ∷ xs) ys (inr h) = inr (In-append x xs ys h)

pub In-last : {A : Type 0} (x : A) (xs : List A) → In x (xs ++ x ∷ [])
In-last x [] = inl refl
In-last x (y ∷ xs) = inr (In-last x xs)

pub Filed-later :
    (from : ℕ) (ss ts : List Scope) (b : Boundary) (edge : ScopeEdge)
    → Extends ss ts
    → Filed from ss b edge
    → Filed from ts b edge
Filed-later from ss ts b edge a f =
    let (t, found, longer) = Extends-get ss ts edge.to f.scope a f.found in
    record {
      edge_from = f.edge_from;
      edge_private = f.edge_private;
      scope = t;
      found = found;
      is_for = record {
        root_same = ap (λ v. v.root) longer.same ∙ f.is_for.root_same;
        from_same = ap (λ v. v.from) longer.same ∙ f.is_for.from_same;
        version_same = ap (λ v. v.from_version) longer.same ∙ f.is_for.version_same;
      };
      has_request =
          subst (In (as_package b.req)) (sym longer.more)
            (In-append (as_package b.req) f.scope.reqs longer.extra f.has_request);
    }
