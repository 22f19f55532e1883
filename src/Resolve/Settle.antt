-- ===== src/Resolve/Settle.antt =====
-- A node's requests in source/core/resolve/resolve.c: once they are resolved, they are served.
use spn.Base.{ℕ, ◌+◌, ◌≡◌, refl, sym, ◌∙◌, false, List, [], ◌∷◌, Option, none, some, inl, inr, All}
use mathlib.Core.Path.{subst, ap}
use spn.Resolve.Types.{Request, Node, Run, Resolver, ResolveError, Outcome}
use spn.Resolve.Table.{contains, find, put, find-append, find-put_self, erase, erase-cons_self}
use spn.Resolve.Solver.{Rec, resolve_each, resolve_deps, undo, solve_node}
use spn.Resolve.Frame.{
  RegistryOk, Grows, IsAtomic, RecAtomic, and_then-cases, resolve_each-Grows, solve_node-IsAtomic,
}
use spn.Resolve.Valid.{
  Nodes, Fits, Served, Chosen, Inv, IsSound, Inv-same, Inv-start, Inv-finish, Fits-append,
}

-- What the search assumes of the calls at less fuel.
abbrev pub RecSound : Resolver → Rec → Type 0
RecSound r rec =
    (node : Node) (dep : Request) (run : Run)
    → RegistryOk run
    → Inv r run
    → IsSound r (rec node dep run) (λ named. Served r named node dep)

-- There is a node of that name and version.
abbrev pub HasNode : ℕ → Node → Nodes → Type 0
HasNode name node named = (n : Node) × (find name named ≡ some n) × (n.version ≡ node.version)

module _ (r : Resolver) {rec : Rec} (atomic : RecAtomic rec) (sound : RecSound r rec) where
  pub resolve_each-IsSound :
      (node : Node) (deps : List Request) (run : Run)
      → RegistryOk run
      → Inv r run
      → IsSound r (resolve_each rec node deps run) (λ named. All (Served r named node) deps)
  unfolding resolve_each
  resolve_each-IsSound node [] run ready inv = record { kept = inv; reached = λ h. tt }
  resolve_each-IsSound node (dep ∷ deps) run ready inv =
      let first = sound node dep run ready inv in
      let ready' = (atomic node dep run ready).grows.registry_ok ready in
      let run' = (rec node dep run).0 in
      elim (and_then-cases (rec node dep run) (resolve_each rec node deps)) [
        | inl (done, e) ↦
            let rest = resolve_each-IsSound node deps run' ready' first.kept in
            let grown = resolve_each-Grows atomic node deps run' ready' in
            rw e (record {
              kept = rest.kept;
              reached = λ h. (
                λ edge.
                    subst (λ m. Fits dep.source dep m) (sym grown.named_grows)
                      (Fits-append r dep.source dep run'.named grown.added
                        (first.reached done edge)),
                rest.reached h,
              );
            })
        | inr (err, failed, e) ↦ rw e (record { kept = first.kept; reached = λ h. cc })
      ]

  pub solve_node-IsSound :
      (name : ℕ) (node : Node) (run : Run)
      → RegistryOk run
      → Inv r run
      → Chosen r name node
      → contains run.visited name ≡ false
      → find name run.named ≡ none
      → IsSound r (solve_node rec name node run) (HasNode name node)
  unfolding solve_node resolve_deps undo
  solve_node-IsSound name node run ready inv chosen fresh absent =
      go each.1 refl (solve_node-IsAtomic atomic name node run ready chosen.own_name fresh absent)
    where
      node' : Node
      node' = record node { priority = run.picks }

      start : Run
      start = record run {
        picks = run.picks + 1;
        named = put name node' run.named;
        visited = node.qualified ∷ run.visited;
      }

      each : Outcome
      each = resolve_each rec node' node.deps start

      closed : Run
      closed = record each.0 { visited = erase each.0.visited node.qualified }

      started : Inv r start
      started =
          subst (λ k. Inv r (record start { visited = k ∷ run.visited })) (sym chosen.own_name)
            (Inv-start r run name node' inv
              (record { own_name = chosen.own_name; meets_pins = chosen.meets_pins }) absent)

      solved : IsSound r each (λ named. All (Served r named node') node.deps)
      solved = resolve_each-IsSound node' node.deps start ready started

      grown : Grows start each.0
      grown = resolve_each-Grows atomic node' node.deps start ready

      found : find name each.0.named ≡ some node'
      found =
          rw grown.named_grows
            (find-append name start.named grown.added node' (find-put_self name node' run.named))

      reopened : closed.visited ≡ run.visited
      reopened =
          rw grown.visited_same
            (erase-cons_self run.visited node.qualified (rw chosen.own_name fresh))

      done : each.1 ≡ none → Inv r closed
      done e =
          subst (λ v. Inv r (record each.0 { visited = v })) (sym reopened)
            (Inv-finish r each.0 name node' run.visited solved.kept
              (grown.visited_same ∙ ap (λ k. k ∷ run.visited) chosen.own_name) found
              (solved.reached e))

      go :
          (e : Option ResolveError)
          → each.1 ≡ e
          → IsAtomic run (undo run (closed, e))
          → IsSound r (undo run (closed, e)) (HasNode name node)
      go none e atomic' = record { kept = done e; reached = λ h. (node', found, refl) }
      go (some err) e atomic' =
          let same = atomic'.failed_unchanged err refl in
          record {
            kept =
                Inv-same r run (undo run (closed, some err)).0 same.named_same
                  atomic'.grows.visited_same inv;
            reached = λ h. cc;
          }
