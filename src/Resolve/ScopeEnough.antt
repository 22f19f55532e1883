-- ===== src/Resolve/ScopeEnough.antt =====
-- How much fuel `resolve_scope` of source/core/resolve/resolve.c needs.
use spn.Base.{
  ℕ, ◌≤◌, ◌≡◌, ◌≢◌, refl, ap, ◌∙◌, Bool, true, false, ◌||◌, if◌then◌else◌, List, [], ◌∷◌, ◌++◌,
  Option, none, some, inl, inr, Option-cases, map,
}
use spn.Resolve.Types.{Request, Node, Pin, ResolveError, Run, Resolver, Outcome, out_of_fuel}
use spn.Resolve.Solver.{undo}
use spn.Resolve.Steps.{IndexOk}
use spn.Resolve.Search.{solve_reqs}
use spn.Resolve.Depth.{LoaderIn}
use spn.Resolve.Enough.{solve_reqs-returns}
use spn.Resolve.ScopeFuel.{
  IsReady, done, probed, attempted, keep_pins-EndsWell, resolve_pinned-returns,
}
use spn.Resolve.Scope.{
  Witness, capture_witness, restore, under, attempt_keep, attempt_probe, Pinned, pinned, keep_pins,
  finish_scope, resolve_pinned, resolve_scope, pin_of, is_empty,
}

-- What `keep_pins` does with the outcome of a search under the pins `now`.
abbrev after_probe :
    List Pin
    → List Pin
    → Option Witness
    → Outcome × Option Witness
    → (Run → List Pin → Option Witness → Pinned)
    → Pinned
after_probe now kept witness a next = elim a.0.1 [
  | none ↦ next a.0.0 now a.1
  | some err ↦ if a.0.0.fatal then pinned a.0.0 now witness (some err) else next a.0.0 kept witness
]

after_probe_same :
    (now kept : List Pin) (witness : Option Witness) (a : Outcome × Option Witness)
    (next other : Run → List Pin → Option Witness → Pinned)
    → ((pins : List Pin) (found : Option Witness) → other a.0.0 pins found ≡ next a.0.0 pins found)
    → after_probe now kept witness a other ≡ after_probe now kept witness a next
after_probe_same now kept witness ((run, none), found) next other h = h now found
after_probe_same now kept witness ((run, some e), found) next other h =
    ap (λ p. if run.fatal then pinned run now witness (some e) else p) (h kept witness)

-- What `resolve_pinned` does with the outcome of the search under all pins.
abbrev after_all : List Pin → Outcome → (Run → Outcome × List Pin) → Outcome × List Pin
after_all pins o slow = elim o.1 [
  | none ↦ ((o.0, none), pins)
  | some err ↦ if o.0.fatal then ((o.0, some err), pins) else slow o.0
]

after_all_same :
    (pins : List Pin) (o : Outcome) (slow other : Run → Outcome × List Pin)
    → ((e : ResolveError) → o.1 ≡ some e → other o.0 ≡ slow o.0)
    → after_all pins o other ≡ after_all pins o slow
after_all_same pins (run, none) slow other h = refl
after_all_same pins (run, some e) slow other h =
    ap (λ p. if run.fatal then ((run, some e), pins) else p) (h e refl)

module _ (r : Resolver) (locals : List ℕ) (loader : LoaderIn locals r) (index : IndexOk r)
    (fuel big : ℕ) (le : fuel ≤ big) (requests : List Request) where
  solve_reqs_same :
      (pins : List Pin) (run : Run)
      → IsReady locals fuel run
      → solve_reqs (under r pins) big requests run ≡ solve_reqs (under r pins) fuel requests run
  solve_reqs_same pins run ready =
      (solve_reqs-returns (under r pins) locals fuel big requests run loader index ready.registry_ok
        ready.registry_in ready.no_names ready.low le).1

  attempt_keep_same :
      (pins : List Pin) (run : Run)
      → IsReady locals fuel run
      → attempt_keep (under r pins) big requests run ≡ attempt_keep (under r pins) fuel requests run
  unfolding attempt_keep
  attempt_keep_same pins run ready = ap (undo run) (solve_reqs_same pins run ready)

  attempt_probe_same :
      (pins : List Pin) (run : Run)
      → IsReady locals fuel run
      → attempt_probe (under r pins) big requests run
        ≡ attempt_probe (under r pins) fuel requests run
  unfolding attempt_probe
  attempt_probe_same pins run ready =
      ap
        (λ (o : Outcome). (
          (restore run o.0, o.1),
          elim o.1 [ none ↦ some (capture_witness run o.0) | some _ ↦ none ],
        ))
        (solve_reqs_same pins run ready)

  keep_pins_same :
      (pins : List Pin) (run : Run) (kept : List Pin) (witness : Option Witness)
      → IsReady locals fuel run
      → keep_pins r big requests pins run kept witness
        ≡ keep_pins r fuel requests pins run kept witness
  unfolding keep_pins
  keep_pins_same [] run kept witness ready = refl
  keep_pins_same (pin ∷ pins) run kept witness ready =
      let now = kept ++ pin ∷ [] in
      let (ready', _) = probed r locals loader index fuel requests now run ready in
      ap (λ a. after_probe now kept witness a (keep_pins r big requests pins))
        (attempt_probe_same now run ready)
      ∙ after_probe_same now kept witness (attempt_probe (under r now) fuel requests run)
          (keep_pins r fuel requests pins) (keep_pins r big requests pins)
          (λ held found. keep_pins_same pins _ held found ready')

  finish_scope_same :
      (p : Pinned)
      → IsReady locals fuel p.run
      → finish_scope r big requests p ≡ finish_scope r fuel requests p
  unfolding finish_scope
  finish_scope_same p ready = elim (Option-cases p.failed) [
    | inr (err, failed) ↦ rw (failed, finish_scope) refl
    | inl going ↦ elim (Option-cases p.witness) [
      | inl e ↦
          rw (going, e, finish_scope) (ap (λ o. (o, p.kept)) (solve_reqs_same p.kept p.run ready))
      | inr (w, e) ↦ rw (going, e, finish_scope) refl
    ]
  ]

  resolve_pinned_same :
      (scope_pins picks : List Pin) (run : Run)
      → IsReady locals fuel run
      → resolve_pinned r big requests scope_pins picks run
        ≡ resolve_pinned r fuel requests scope_pins picks run
  unfolding resolve_pinned
  resolve_pinned_same scope_pins picks run ready =
      let pins = scope_pins ++ picks in
      let o = attempt_keep (under r pins) fuel requests run in
      let (_, next) = attempted r locals loader index fuel requests pins run ready in
      let slow : ℕ → Run → Outcome × List Pin =
        λ n s. finish_scope r n requests (keep_pins r n requests picks s [] none) in
      ap (λ a. after_all pins a (slow big)) (attempt_keep_same pins run ready)
      ∙ after_all_same pins o (slow fuel) (slow big) (λ err failed.
        let ready' = next err failed in
        let kept =
          keep_pins-EndsWell r locals loader index fuel requests picks o.0 [] none ready' in
        ap (finish_scope r big requests) (keep_pins_same picks o.0 [] none ready')
        ∙ finish_scope_same (keep_pins r fuel requests picks o.0 [] none) kept.0)

-- With more fuel than the budget and the number of local packages together, the search of a scope
-- that starts with no name in progress, whether or not the scope is new, does not return the error
-- of missing fuel, and its result, the run, the error and the pins, is the same at every larger fuel.
-- The local packages are a list that has every registered name and every name whose manifest the
-- loader reads. The index must answer a name with releases of that name, and the registry be filed by
-- name.
pub resolve_scope-returns :
    (r : Resolver) (locals : List ℕ) (fuel big budget : ℕ) (entered : Bool)
    (requests : List Request) (scope_pins : List Pin) (picks : List Node) (run : Run)
    → LoaderIn locals r
    → IndexOk r
    → IsReady locals fuel (record run { budget = budget })
    → fuel ≤ big
    → ((resolve_scope r fuel budget entered requests scope_pins picks run).0.1 ≢ some out_of_fuel)
      × (resolve_scope r big budget entered requests scope_pins picks run
          ≡ resolve_scope r fuel budget entered requests scope_pins picks run)
unfolding resolve_scope
resolve_scope-returns r locals fuel big budget entered requests scope_pins picks run loader index
      ready le =
    go (entered || is_empty picks)
  where
    sorted : List Request
    sorted = r.sort_requests requests

    start : Run
    start = record run { budget = budget }

    at : ℕ → Bool → Outcome × List Pin
    at n b =
        if b
        then (solve_reqs (under r scope_pins) n sorted start, scope_pins)
        else resolve_pinned r n sorted scope_pins (map pin_of picks) start

    go : (b : Bool) → ((at fuel b).0.1 ≢ some out_of_fuel) × (at big b ≡ at fuel b)
    go true = (
      (done r locals loader index fuel sorted scope_pins start ready).returned,
      ap (λ o. (o, scope_pins))
          (solve_reqs_same r locals loader index fuel big le sorted scope_pins start ready),
    )
    go false = (
      resolve_pinned-returns r locals loader index fuel sorted scope_pins (map pin_of picks) start
          ready,
      resolve_pinned_same r locals loader index fuel big le sorted scope_pins (map pin_of picks)
          start ready,
    )
