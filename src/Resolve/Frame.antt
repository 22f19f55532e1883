-- ===== src/Resolve/Frame.antt =====
-- What a call of the search in source/core/resolve/resolve.c leaves of the run.
use spn.Base.{
  ℕ, ◌+◌, ◌≤◌, ◌≡◌, refl, sym, ◌∙◌, false, List, [], ◌∷◌, ◌++◌, append_assoc, append-nil, none,
  some, ◌⊎◌, inl, inr, arith, take, length, take-append,
}
use mathlib.Core.Path.{subst}
use spn.Resolve.Types.{Request, LocalPkg, Node, Boundary, ResolveError, Run, Outcome}
use spn.Resolve.Table.{
  contains, find, put, keys, keep_keys, Fresh, Fresh-New, Fresh-append, keep_keys_undo, put_absent,
  erase-cons_self,
}
use spn.Resolve.Solver.{ok, fail, Rec, and_then, resolve_each, resolve_deps, undo, solve_node}

-- Every registered package stands under its own name.
abbrev pub RegistryOk : Run → Type 0
RegistryOk run = (k : ℕ) (pkg : LocalPkg) → find k run.registry ≡ some pkg → pkg.qualified ≡ k

-- The run has only grown: nodes and boundaries were added behind those that were there, the set of
-- the names in progress is the same, and the budget is not larger.
pub record Grows (s t : Run) : Type 0 where
  pub visited_same : t.visited ≡ s.visited
  pub added : List (ℕ × Node)
  pub named_grows : t.named ≡ s.named ++ added
  pub added_new : Fresh s.named added
  pub extra : List Boundary
  pub boundaries_grow : t.boundaries ≡ s.boundaries ++ extra
  pub budget_le : t.budget ≤ s.budget
  pub registry_ok : RegistryOk s → RegistryOk t

-- Neither nodes nor boundaries have changed.
pub record Unchanged (s t : Run) : Type 0 where
  pub named_same : t.named ≡ s.named
  pub boundaries_same : t.boundaries ≡ s.boundaries

-- A call grows the run, and if it fails it leaves nodes and boundaries as they were.
pub record IsAtomic (s : Run) (o : Outcome) : Type 0 where
  pub grows : Grows s o.0
  pub failed_unchanged : (e : ResolveError) → o.1 ≡ some e → Unchanged s o.0

pub Grows-refl : (s : Run) → Grows s s
Grows-refl s = record {
  visited_same = refl;
  added = [];
  named_grows = sym (append-nil s.named);
  added_new = tt;
  extra = [];
  boundaries_grow = sym (append-nil s.boundaries);
  budget_le = omega arith;
  registry_ok = λ h. h;
}

pub Grows-trans : {s t u : Run} → Grows s t → Grows t u → Grows s u
Grows-trans {s} {t} {u} g h = record {
  visited_same = h.visited_same ∙ g.visited_same;
  added = g.added ++ h.added;
  named_grows = simp (h.named_grows, g.named_grows, append_assoc);
  added_new =
      Fresh-append s.named g.added h.added g.added_new
        (subst (λ m. Fresh m h.added) g.named_grows h.added_new);
  extra = g.extra ++ h.extra;
  boundaries_grow = simp (h.boundaries_grow, g.boundaries_grow, append_assoc);
  budget_le = omega (arith, g.budget_le, h.budget_le);
  registry_ok = λ r. h.registry_ok (g.registry_ok r);
}

pub ok-IsAtomic : (s : Run) → IsAtomic s (ok s)
ok-IsAtomic s = record { grows = Grows-refl s; failed_unchanged = λ e h. cc }

pub fail-IsAtomic : (s : Run) (e : ResolveError) → IsAtomic s (fail s e)
fail-IsAtomic s e = record {
  grows = Grows-refl s;
  failed_unchanged = λ f h. record { named_same = refl; boundaries_same = refl };
}

-- After a step that changed neither nodes nor boundaries.
pub IsAtomic-after :
    {s t : Run} {o : Outcome} → Grows s t → Unchanged s t → IsAtomic t o → IsAtomic s o
IsAtomic-after g u a = record {
  grows = Grows-trans g a.grows;
  failed_unchanged = λ e h.
      let v = a.failed_unchanged e h in
      record {
        named_same = v.named_same ∙ u.named_same;
        boundaries_same = v.boundaries_same ∙ u.boundaries_same;
      };
}

pub and_then-cases :
    (o : Outcome) (k : Run → Outcome)
    → ((o.1 ≡ none) × (and_then o k ≡ k o.0))
      ⊎ ((e : ResolveError) × (o.1 ≡ some e) × (and_then o k ≡ o))
and_then-cases (run, none) k = inl (refl, refl)
and_then-cases (run, some e) k = inr (e, refl, refl)

-- The undo brings back what was there before the growth, and keeps a success.
undo-IsAtomic : (s : Run) (o : Outcome) → Grows s o.0 → IsAtomic s (undo s o)
unfolding undo
undo-IsAtomic s (run, none) g = record { grows = g; failed_unchanged = λ e h. cc }
undo-IsAtomic s (run, some e) g =
    let nodes : keep_keys (keys s.named) run.named ≡ s.named =
      rw g.named_grows (keep_keys_undo s.named g.added (Fresh-New s.named g.added g.added_new)) in
    let cut : take (length s.boundaries) run.boundaries ≡ s.boundaries =
      rw g.boundaries_grow (take-append s.boundaries g.extra) in
    record {
      grows = record {
        visited_same = g.visited_same;
        added = [];
        named_grows = nodes ∙ sym (append-nil s.named);
        added_new = tt;
        extra = [];
        boundaries_grow = cut ∙ sym (append-nil s.boundaries);
        budget_le = g.budget_le;
        registry_ok = g.registry_ok;
      };
      failed_unchanged = λ f h. record { named_same = nodes; boundaries_same = cut };
    }

-- What the search assumes of the calls at less fuel.
abbrev pub RecAtomic : Rec → Type 0
RecAtomic rec =
    (node : Node) (dep : Request) (run : Run) → RegistryOk run → IsAtomic run (rec node dep run)

module _ {rec : Rec} (atomic : RecAtomic rec) where
  pub resolve_each-Grows :
      (node : Node) (deps : List Request) (run : Run)
      → RegistryOk run
      → Grows run (resolve_each rec node deps run).0
  unfolding resolve_each
  resolve_each-Grows node [] run ready = Grows-refl run
  resolve_each-Grows node (dep ∷ deps) run ready =
      let first = (atomic node dep run ready).grows in
      elim (and_then-cases (rec node dep run) (resolve_each rec node deps)) [
        | inl (done, e) ↦ rw e (
            Grows-trans first
              (resolve_each-Grows node deps (rec node dep run).0 (first.registry_ok ready)))
        | inr (err, failed, e) ↦ rw e first
      ]

  pub resolve_deps-Grows :
      (node : Node) (run : Run)
      → RegistryOk run
      → contains run.visited node.qualified ≡ false
      → Grows run (resolve_deps rec node run).0
  unfolding resolve_deps
  resolve_deps-Grows node run ready fresh =
      let start = record run { visited = node.qualified ∷ run.visited } in
      let g = resolve_each-Grows node node.deps start ready in
      record {
        visited_same = rw g.visited_same (erase-cons_self run.visited node.qualified fresh);
        added = g.added;
        named_grows = g.named_grows;
        added_new = g.added_new;
        extra = g.extra;
        boundaries_grow = g.boundaries_grow;
        budget_le = g.budget_le;
        registry_ok = g.registry_ok;
      }

  pub solve_node-IsAtomic :
      (name : ℕ) (node : Node) (run : Run)
      → RegistryOk run
      → node.qualified ≡ name
      → contains run.visited name ≡ false
      → find name run.named ≡ none
      → IsAtomic run (solve_node rec name node run)
  unfolding solve_node
  solve_node-IsAtomic name node run ready same fresh absent =
      let node' = record node { priority = run.picks } in
      let start = record run { picks = run.picks + 1; named = put name node' run.named } in
      let started : Grows run start = record {
        visited_same = refl;
        added = (name, node') ∷ [];
        named_grows = put_absent name node' run.named absent;
        added_new = (absent, tt);
        extra = [];
        boundaries_grow = sym (append-nil run.boundaries);
        budget_le = omega arith;
        registry_ok = λ r. r;
      } in
      undo-IsAtomic run (resolve_deps rec node' start)
        (Grows-trans started (resolve_deps-Grows node' start ready (rw same fresh)))
