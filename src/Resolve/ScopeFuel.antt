-- ===== src/Resolve/ScopeFuel.antt =====
-- The attempts of `resolve_scope` of source/core/resolve/resolve.c do not return the error of missing
-- fuel.
use spn.Base.{
  ℕ, Bool-cases, ◌+◌, ◌<◌, ◌≡◌, ◌≢◌, refl, ◌∙◌, Bool, true, false, if◌then◌else◌, List, [], ◌∷◌,
  ◌++◌, Option, none, some, inl, inr, Option-cases, arith, length,
}
use spn.Resolve.Types.{Request, Pin, ResolveError, Run, Resolver, Outcome, out_of_fuel}
use spn.Resolve.Solver.{undo, root_node}
use spn.Resolve.Frame.{RegistryOk, resolve_each-Grows}
use spn.Resolve.Steps.{IndexOk}
use spn.Resolve.Search.{solve_reqs}
use spn.Resolve.Backtrack.{resolve_dep-IsAtomic}
use spn.Resolve.Depth.{unvisited-nil, LoaderIn, RegistryIn, depth, IsDone}
use spn.Resolve.Returns.{resolve_each-IsDone}
use spn.Resolve.Fuel.{resolve_dep-IsDone}
use spn.Resolve.Scope.{
  Witness, restore, under, attempt_keep, attempt_probe, Pinned, keep_pins, finish_scope,
  resolve_pinned,
}

-- No search is going on, and the fuel is above the budget and the number of local packages.
pub record IsReady (locals : List ℕ) (fuel : ℕ) (run : Run) : Type 0 where
  pub registry_ok : RegistryOk run
  pub registry_in : RegistryIn locals run
  pub no_names : run.visited ≡ []
  pub low : run.budget + length locals < fuel

module _ (r : Resolver) (locals : List ℕ) (loader : LoaderIn locals r) (index : IndexOk r)
    (fuel : ℕ) (requests : List Request) where
  pub done :
      (pins : List Pin) (run : Run)
      → IsReady locals fuel run
      → IsDone locals (solve_reqs (under r pins) fuel requests run)
  unfolding solve_reqs
  done pins run ready =
      let deep : depth locals run < fuel =
        rw ready.no_names (omega (arith, unvisited-nil locals, ready.low)) in
      resolve_each-IsDone (under r pins) locals fuel
        (λ n d s ok_s. resolve_dep-IsAtomic (under r pins) fuel n d s index ok_s)
        (resolve_dep-IsDone (under r pins) locals fuel loader index) root_node requests run
        ready.registry_ok ready.registry_in deep

  pub again :
      (pins : List Pin) (run : Run)
      → IsReady locals fuel run
      → IsReady locals fuel (restore run (solve_reqs (under r pins) fuel requests run).0)
  unfolding restore solve_reqs
  again pins run ready =
      let g =
        resolve_each-Grows (λ n d s ok_s. resolve_dep-IsAtomic (under r pins) fuel n d s index ok_s)
          root_node requests run ready.registry_ok in
      record {
        registry_ok = g.registry_ok ready.registry_ok;
        registry_in = (done pins run ready).registry_in;
        no_names = g.visited_same ∙ ready.no_names;
        low = omega (arith, g.budget_le, ready.low);
      }

  -- What an attempt leaves, whether it keeps what it finds or not.
  pub probed :
      (pins : List Pin) (run : Run)
      → IsReady locals fuel run
      → IsReady locals fuel (attempt_probe (under r pins) fuel requests run).0.0
        × ((attempt_probe (under r pins) fuel requests run).0.1 ≢ some out_of_fuel)
  unfolding attempt_probe
  probed pins run ready = (again pins run ready, (done pins run ready).returned)

  pub attempted :
      (pins : List Pin) (run : Run)
      → IsReady locals fuel run
      → ((attempt_keep (under r pins) fuel requests run).1 ≢ some out_of_fuel)
        × ((err : ResolveError)
            → (attempt_keep (under r pins) fuel requests run).1 ≡ some err
            → IsReady locals fuel (attempt_keep (under r pins) fuel requests run).0)
  unfolding attempt_keep undo restore
  attempted pins run ready = go o.1 refl
    where
      o : Outcome
      o = solve_reqs (under r pins) fuel requests run

      go :
          (e : Option ResolveError)
          → o.1 ≡ e
          → ((undo run (o.0, e)).1 ≢ some out_of_fuel)
            × ((err : ResolveError)
                → (undo run (o.0, e)).1 ≡ some err
                → IsReady locals fuel (undo run (o.0, e)).0)
      go none e = (λ h. cc, λ err h. cc)
      go (some err) e =
          (λ h. (done pins run ready).returned (e ∙ h), λ err' h. again pins run ready)

  abbrev pub EndsWell : Pinned → Type 0
  EndsWell p = IsReady locals fuel p.run × (p.failed ≢ some out_of_fuel)

  EndsWell-if : (p q : Pinned) (b : Bool) → EndsWell p → EndsWell q → EndsWell (if b then p else q)
  EndsWell-if p q true h k = h
  EndsWell-if p q false h k = k

  pub keep_pins-EndsWell :
      (pins : List Pin) (run : Run) (kept : List Pin) (witness : Option Witness)
      → IsReady locals fuel run
      → EndsWell (keep_pins r fuel requests pins run kept witness)
  unfolding keep_pins
  keep_pins-EndsWell [] run kept witness ready = (ready, λ h. cc)
  keep_pins-EndsWell (pin ∷ pins) run kept witness ready =
      let now = kept ++ pin ∷ [] in
      let a = attempt_probe (under r now) fuel requests run in
      let (ready', other) = probed now run ready in
      elim (Option-cases a.0.1) [
        | inl found ↦ rw (found, keep_pins) (keep_pins-EndsWell pins a.0.0 now a.1 ready')
        | inr (err, failed) ↦
            rw (failed, keep_pins)
              (EndsWell-if _ _ a.0.0.fatal (ready', rw failed at other)
                (keep_pins-EndsWell pins a.0.0 kept witness ready'))
      ]

  pub finish_scope-returns :
      (p : Pinned) → EndsWell p → (finish_scope r fuel requests p).0.1 ≢ some out_of_fuel
  unfolding finish_scope
  finish_scope-returns p (ready, other) = elim (Option-cases p.failed) [
    | inr (err, failed) ↦ rw (failed, finish_scope) (rw failed at other)
    | inl going ↦ elim (Option-cases p.witness) [
      | inl e ↦ rw (going, e, finish_scope) (done p.kept p.run ready).returned
      | inr (w, e) ↦ rw (going, e, finish_scope) (λ h. cc)
    ]
  ]

  pub resolve_pinned-returns :
      (scope_pins picks : List Pin) (run : Run)
      → IsReady locals fuel run
      → (resolve_pinned r fuel requests scope_pins picks run).0.1 ≢ some out_of_fuel
  unfolding resolve_pinned
  resolve_pinned-returns scope_pins picks run ready =
      let pins = scope_pins ++ picks in
      let a = attempt_keep (under r pins) fuel requests run in
      let (other, next) = attempted pins run ready in
      elim (Option-cases a.1) [
        | inl found ↦ rw (found, resolve_pinned) (λ h. cc)
        | inr (err, failed) ↦
            let slow = keep_pins-EndsWell picks a.0 [] none (next err failed) in
            elim (Bool-cases a.0.fatal) [
              | inl stop ↦ rw (failed, stop, resolve_pinned) (rw failed at other)
              | inr more ↦
                  rw (failed, more, resolve_pinned)
                    (finish_scope-returns (keep_pins r fuel requests picks a.0 [] none) slow)
            ]
      ]
