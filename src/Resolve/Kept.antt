-- ===== src/Resolve/Kept.antt =====
-- The pins that `resolve_scope` of source/core/resolve/resolve.c keeps are met by the scope's nodes.
use spn.Base.{
  ℕ, ◌≡◌, refl, sym, ◌∙◌, Bool, if◌then◌else◌, true, false, ◌||◌, List, [], ◌∷◌, ◌++◌, Option, none,
  some, inl, inr, All, Option-cases, Bool-cases, map,
}
use mathlib.Core.Path.{subst, ap}
use spn.Resolve.Types.{Request, Node, Pin, ResolveError, Run, Resolver, Outcome}
use spn.Resolve.Table.{
  find, keys, keep_keys, drop_keys, keep_keys_undo, drop_keys_added, Fresh, Fresh-New, put_all,
  put_all-Fresh,
}
use spn.Resolve.Solver.{undo, root_node}
use spn.Resolve.Frame.{RegistryOk, Grows, resolve_each-Grows}
use spn.Resolve.Steps.{IndexOk}
use spn.Resolve.Search.{solve_reqs}
use spn.Resolve.Backtrack.{resolve_dep-IsAtomic}
use spn.Resolve.Valid.{Nodes, Served, Complete}
use spn.Resolve.Complete.{solve_reqs-Complete}
use spn.Resolve.Scope.{
  Witness, capture_witness, restore, under, attempt_keep, attempt_probe, Pinned, keep_pins,
  finish_scope, resolve_pinned, resolve_scope, pin_of, is_empty,
}

-- No search is going on, and the scope has no nodes yet.
pub record IsNew (run : Run) : Type 0 where
  pub registry_ok : RegistryOk run
  pub no_names : run.visited ≡ []
  pub no_nodes : run.named ≡ []

-- The nodes serve the requests, and have the versions that the forced pin and the pins leave to them.
abbrev pub Solves : Resolver → List Request → List Pin → Nodes → Type 0
Solves r requests pins named =
    Complete (under r pins) named × All (Served (under r pins) named root_node) requests

module _ (r : Resolver) (index : IndexOk r) (fuel : ℕ) (requests : List Request) where
  grown :
      (pins : List Pin) (run : Run)
      → IsNew run
      → Grows run (solve_reqs (under r pins) fuel requests run).0
  unfolding solve_reqs
  grown pins run new =
      resolve_each-Grows (λ n d s ok_s. resolve_dep-IsAtomic (under r pins) fuel n d s index ok_s)
        root_node requests run new.registry_ok

  pub solved :
      (pins : List Pin) (run : Run)
      → IsNew run
      → (solve_reqs (under r pins) fuel requests run).1 ≡ none
      → Solves r requests pins (solve_reqs (under r pins) fuel requests run).0.named
  unfolding find
  solved pins run new done =
      solve_reqs-Complete (under r pins) fuel requests run index new.registry_ok new.no_names
        (λ k node h. cc (rw new.no_nodes at h)) done

  restored :
      (pins : List Pin) (run : Run)
      → IsNew run
      → IsNew (restore run (solve_reqs (under r pins) fuel requests run).0)
  unfolding restore
  restored pins run new =
      let g = grown pins run new in
      record {
        registry_ok = g.registry_ok new.registry_ok;
        no_names = g.visited_same ∙ new.no_names;
        no_nodes =
            ap (keep_keys (keys run.named)) g.named_grows
            ∙ keep_keys_undo run.named g.added (Fresh-New run.named g.added g.added_new)
            ∙ new.no_nodes;
      }

  -- A witness is a solution under the pins that are kept.
  abbrev WitnessOk : List Pin → Option Witness → Type 0
  WitnessOk pins none = Unit
  WitnessOk pins (some w) = Fresh [] w.nodes × Solves r requests pins w.nodes

  captured :
      (pins : List Pin) (run : Run)
      → IsNew run
      → (solve_reqs (under r pins) fuel requests run).1 ≡ none
      → WitnessOk pins (some (capture_witness run (solve_reqs (under r pins) fuel requests run).0))
  unfolding capture_witness
  captured pins run new done =
      let g = grown pins run new in
      let after = (solve_reqs (under r pins) fuel requests run).0 in
      let all : after.named ≡ g.added = g.named_grows ∙ ap (λ m. m ++ g.added) new.no_nodes in
      let same : drop_keys (keys run.named) after.named ≡ g.added =
        ap (drop_keys (keys run.named)) g.named_grows
        ∙ drop_keys_added run.named g.added (Fresh-New run.named g.added g.added_new) in
      (
        subst (λ m. Fresh [] m) (sym same) (subst (λ m. Fresh m g.added) new.no_nodes g.added_new),
        subst (Solves r requests pins) (all ∙ sym same) (solved pins run new done),
      )

  probed :
      (pins : List Pin) (run : Run)
      → IsNew run
      → IsNew (attempt_probe (under r pins) fuel requests run).0.0
        × ((attempt_probe (under r pins) fuel requests run).0.1 ≡ none
            → WitnessOk pins (attempt_probe (under r pins) fuel requests run).1)
  unfolding attempt_probe
  probed pins run new = (restored pins run new, go o.1 refl)
    where
      o : Outcome
      o = solve_reqs (under r pins) fuel requests run

      go :
          (e : Option ResolveError)
          → o.1 ≡ e
          → e ≡ none
          → WitnessOk pins (elim e [ none ↦ some (capture_witness run o.0) | some _ ↦ none ])
      go none done h = captured pins run new done
      go (some err) failed h = cc

  attempted :
      (pins : List Pin) (run : Run)
      → IsNew run
      → ((attempt_keep (under r pins) fuel requests run).1 ≡ none
          → Solves r requests pins (attempt_keep (under r pins) fuel requests run).0.named)
        × ((err : ResolveError)
            → (attempt_keep (under r pins) fuel requests run).1 ≡ some err
            → IsNew (attempt_keep (under r pins) fuel requests run).0)
  unfolding attempt_keep undo restore
  attempted pins run new = go o.1 refl
    where
      o : Outcome
      o = solve_reqs (under r pins) fuel requests run

      go :
          (e : Option ResolveError)
          → o.1 ≡ e
          → ((undo run (o.0, e)).1 ≡ none → Solves r requests pins (undo run (o.0, e)).0.named)
            × ((err : ResolveError)
                → (undo run (o.0, e)).1 ≡ some err
                → IsNew (undo run (o.0, e)).0)
      go none done = (λ h. solved pins run new done, λ err h. cc)
      go (some e) failed = (λ h. cc, λ err h. restored pins run new)

  KeptOk : Pinned → Type 0
  KeptOk p = p.failed ≡ none → IsNew p.run × WitnessOk p.kept p.witness

  KeptOk-if : (p q : Pinned) (b : Bool) → KeptOk p → KeptOk q → KeptOk (if b then p else q)
  KeptOk-if p q true h k = h
  KeptOk-if p q false h k = k

  keep_pins-KeptOk :
      (pins : List Pin) (run : Run) (kept : List Pin) (witness : Option Witness)
      → IsNew run
      → WitnessOk kept witness
      → KeptOk (keep_pins r fuel requests pins run kept witness)
  unfolding keep_pins KeptOk
  keep_pins-KeptOk [] run kept witness new ok_w = λ h. (new, ok_w)
  keep_pins-KeptOk (pin ∷ pins) run kept witness new ok_w =
      let now = kept ++ pin ∷ [] in
      let a = attempt_probe (under r now) fuel requests run in
      let (new', found) = probed now run new in
      elim (Option-cases a.0.1) [
        | inl done ↦ rw (done, keep_pins) (keep_pins-KeptOk pins a.0.0 now a.1 new' (found done))
        | inr (err, failed) ↦
            rw (failed, keep_pins)
              (KeptOk-if _ _ a.0.0.fatal (λ h. cc)
                (keep_pins-KeptOk pins a.0.0 kept witness new' ok_w))
      ]

  -- A search that succeeds solves the requests under the pins it ends with.
  abbrev pub Ends : Outcome × List Pin → Type 0
  Ends (o, pins) = o.1 ≡ none → Solves r requests pins o.0.named

  finish_scope-Ends : (p : Pinned) → KeptOk p → Ends (finish_scope r fuel requests p)
  unfolding finish_scope KeptOk
  finish_scope-Ends p h = elim (Option-cases p.failed) [
    | inr (err, failed) ↦ rw (failed, finish_scope) (λ done. cc)
    | inl going ↦
        let (new, ok_w) = h going in
        elim (Option-cases p.witness) [
          | inl e ↦ rw (going, e, finish_scope) (solved p.kept p.run new)
          | inr (w, e) ↦
              let (fresh, solves) = rw e at ok_w in
              let same : put_all p.run.named w.nodes ≡ w.nodes =
                ap (λ m. put_all m w.nodes) new.no_nodes ∙ put_all-Fresh [] w.nodes fresh in
              rw (going, e, finish_scope)
                (λ done. subst (Solves r requests p.kept) (sym same) solves)
        ]
  ]

  pub resolve_pinned-Ends :
      (scope_pins picks : List Pin) (run : Run)
      → IsNew run
      → Ends (resolve_pinned r fuel requests scope_pins picks run)
  unfolding resolve_pinned
  resolve_pinned-Ends scope_pins picks run new =
      let pins = scope_pins ++ picks in
      let a = attempt_keep (under r pins) fuel requests run in
      let (solves, again) = attempted pins run new in
      elim (Option-cases a.1) [
        | inl done ↦ rw (done, resolve_pinned) (λ h. solves done)
        | inr (err, failed) ↦ elim (Bool-cases a.0.fatal) [
          | inl stop ↦ rw (failed, stop, resolve_pinned) (λ h. cc)
          | inr go ↦
              rw (failed, go, resolve_pinned)
                (finish_scope-Ends (keep_pins r fuel requests picks a.0 [] none)
                  (keep_pins-KeptOk picks a.0 [] none (again err failed) tt))
        ]
      ]

-- If the search of a new scope succeeds, whichever of its attempts does, a node of the scope has the
-- version of the forced pin, where the forced pin is of the node's name, and otherwise that of every
-- pin of the name among the pins that the search ends with; the nodes serve each other's requests,
-- and every request of the scope is served: one that stays in the scope has its node, one asked of
-- the index a node of a version in the request's range. A new scope has no nodes, and no name is in
-- progress. The index must answer a name with releases of that name, and the registry be filed by
-- name.
pub resolve_scope-Solves :
    (r : Resolver) (fuel budget : ℕ) (requests : List Request) (scope_pins : List Pin)
    (picks : List Node) (run : Run)
    → IndexOk r
    → IsNew run
    → (resolve_scope r fuel budget false requests scope_pins picks run).0.1 ≡ none
    → Solves r
        (r.sort_requests requests)
        (resolve_scope r fuel budget false requests scope_pins picks run).1
        (resolve_scope r fuel budget false requests scope_pins picks run).0.0.named
unfolding resolve_scope
resolve_scope-Solves r fuel budget requests scope_pins picks run index new done =
    go (false || is_empty picks) refl done
  where
    start : Run
    start = record run { budget = budget }

    new' : IsNew start
    new' = record {
      registry_ok = new.registry_ok;
      no_names = new.no_names;
      no_nodes = new.no_nodes;
    }

    go :
        (empty : Bool)
        → (false || is_empty picks) ≡ empty
        → Ends r index fuel (r.sort_requests requests) (
            if empty
            then (solve_reqs (under r scope_pins) fuel (r.sort_requests requests) start, scope_pins)
            else resolve_pinned r fuel
                (r.sort_requests requests)
                scope_pins
                (map pin_of picks)
                start)
    go true e = solved r index fuel (r.sort_requests requests) scope_pins start new'
    go false e =
        resolve_pinned-Ends r index fuel (r.sort_requests requests) scope_pins (map pin_of picks)
          start new'
