-- ===== src/Resolve/Scope.antt =====
-- `attempt_reqs` and `resolve_scope` of source/core/resolve/resolve.c: which pins a scope keeps.
use spn.Base.{
  ℕ, zero, suc, ◌||◌, true, false, Bool, List, [], ◌∷◌, ◌++◌, Option, none, some, if◌then◌else◌,
  length, take, map,
}
use spn.Resolve.Types.{Request, Node, Boundary, Pin, ResolveError, Run, Resolver, Outcome}
use spn.Resolve.Table.{keys, keep_keys, put_all, drop_keys}
use spn.Resolve.Solver.{undo}
use spn.Resolve.Search.{solve_reqs}

-- What a search added: `spn_witness_t`.
pub record Witness : Type 0 where
  pub nodes : List (ℕ × Node)
  pub boundaries : List Boundary

abbrev pub drop_first : ℕ → List Boundary → List Boundary
drop_first zero bs = bs
drop_first (suc n) [] = []
drop_first (suc n) (b ∷ bs) = drop_first n bs

-- `capture_witness`: the nodes and boundaries that the snapshot does not have.
unfoldable pub capture_witness : Run → Run → Witness
capture_witness before after = record {
  nodes = drop_keys (keys before.named) after.named;
  boundaries = drop_first (length before.boundaries) after.boundaries;
}

-- `restore_named` and the boundaries cut back, whatever the error.
unfoldable pub restore : Run → Run → Run
restore before run = record run {
  named = keep_keys (keys before.named) run.named;
  boundaries = take (length before.boundaries) run.boundaries;
}

-- A search under some pins.
abbrev pub under : Resolver → List Pin → Resolver
under r pins = record r { pins = pins }

-- `attempt_reqs` that keeps what it finds, and takes no witness.
unfoldable pub attempt_keep : Resolver → ℕ → List Request → Run → Outcome
unfolding solve_reqs undo
attempt_keep r fuel requests run = undo run (solve_reqs r fuel requests run)

-- `attempt_reqs` that keeps nothing, with the witness of a success.
unfoldable pub attempt_probe : Resolver → ℕ → List Request → Run → Outcome × Option Witness
unfolding solve_reqs capture_witness
attempt_probe r fuel requests run =
    let (run', e) = solve_reqs r fuel requests run in
    ((restore run run', e), elim e [ none ↦ some (capture_witness run run') | some _ ↦ none ])

-- The loop over the pins of the other scopes: `kept` are the scope's pins so far. A fatal error
-- ends it.
pub record Pinned : Type 0 where
  pub run : Run
  pub kept : List Pin
  pub witness : Option Witness
  pub failed : Option ResolveError

abbrev pub pinned : Run → List Pin → Option Witness → Option ResolveError → Pinned
pinned run kept witness failed = record {
  run = run;
  kept = kept;
  witness = witness;
  failed = failed;
}

unfoldable pub keep_pins :
    Resolver → ℕ → List Request → List Pin → Run → List Pin → Option Witness → Pinned
unfolding attempt_probe
keep_pins r fuel requests [] run kept witness = pinned run kept witness none
keep_pins r fuel requests (pin ∷ pins) run kept witness =
    let ((run', e), found) = attempt_probe (under r (kept ++ pin ∷ [])) fuel requests run in
    let held = keep_pins r fuel requests pins run' (kept ++ pin ∷ []) found in
    let dropped = keep_pins r fuel requests pins run' kept witness in
    elim e [
      | none ↦ held
      | some err ↦ if run'.fatal then pinned run' (kept ++ pin ∷ []) witness (some err) else dropped
    ]

-- The end of `resolve_scope`: take over the witness, or search under the pins that are left.
unfoldable pub finish_scope : Resolver → ℕ → List Request → Pinned → Outcome × List Pin
unfolding solve_reqs put_all
finish_scope r fuel requests p = elim p.failed [
  | some err ↦ ((p.run, some err), p.kept)
  | none ↦ elim p.witness [
    | none ↦ (solve_reqs (under r p.kept) fuel requests p.run, p.kept)
    | some w ↦ (
      (
        record p.run {
          named = put_all p.run.named w.nodes;
          boundaries = p.run.boundaries ++ w.boundaries;
        },
        none,
      ),
      p.kept,
    )
  ]
]

-- The part of `resolve_scope` for a scope that is new, when picks of other scopes are there.
-- `kept` are the scope's pins before; `picks` are the pins of the picks, sorted by priority.
unfoldable pub resolve_pinned :
    Resolver → ℕ → List Request → List Pin → List Pin → Run → Outcome × List Pin
unfolding attempt_keep keep_pins finish_scope
resolve_pinned r fuel requests scope_pins picks run =
    let (run', e) = attempt_keep (under r (scope_pins ++ picks)) fuel requests run in
    let slow = finish_scope r fuel requests (keep_pins r fuel requests picks run' [] none) in
    elim e [
      | none ↦ ((run', none), scope_pins ++ picks)
      | some err ↦ if run'.fatal then ((run', some err), scope_pins ++ picks) else slow
    ]

-- The pins of the picks.
abbrev pub pin_of : Node → Pin
pin_of node = record { name = node.qualified; version = node.version }

abbrev pub is_empty : List Node → Bool
is_empty [] = true
is_empty (node ∷ nodes) = false

-- `resolve_scope` on the scope's requests from its cursor on: `entered` says that the cursor has
-- moved before. `picks` are the nodes of the result sorted by priority.
unfoldable pub resolve_scope :
    Resolver → ℕ → ℕ → Bool → List Request → List Pin → List Node → Run → Outcome × List Pin
unfolding resolve_pinned solve_reqs
resolve_scope r fuel budget entered requests scope_pins picks run =
    let sorted = r.sort_requests requests in
    let run' = record run { budget = budget } in
    if entered || is_empty picks
    then (solve_reqs (under r scope_pins) fuel sorted run', scope_pins)
    else resolve_pinned r fuel sorted scope_pins (map pin_of picks) run'
