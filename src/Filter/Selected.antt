-- ===== src/Filter/Selected.antt =====
-- What the filter of source/core/filter/filter.c lets through.
use spn.Base.{
  String, true, List, [], ◌∷◌, ◌≡◌, ◌↔◌, ◌⊎◌, refl, inl, inr, In, arith, str_eq_iff, Bool-cases,
}
use spn.Filter.{
  TargetKind, kind_lib, kind_exe, kind_script, kind_test, kind_example, kind_configure, kind_build,
  TargetRule, rule_none, rule_all, rule_named, TargetSelection, TargetInfo, any_equal,
  target_rule_pass, is_default, default_pass, kind_pass, target_selection_pass,
}

-- The rule asks for a name.
abbrev pub Asks : TargetRule → String → Type 0
Asks rule_none name = ⊥
Asks rule_all name = Unit
Asks (rule_named names) name = In name names

-- The rule for the target's kind asks for it; nothing asks for a build program.
abbrev pub Wanted : TargetSelection → TargetKind → String → Type 0
Wanted selection kind_exe name = Asks selection.bin name
Wanted selection kind_lib name = Asks selection.lib name
Wanted selection kind_test name = Asks selection.test name
Wanted selection kind_script name = Asks selection.script name
Wanted selection kind_example name = Asks selection.example name
Wanted selection kind_configure name = ⊥
Wanted selection kind_build name = ⊥

-- Nothing was selected.
pub record Unselective (selection : TargetSelection) : Type 0 where
  pub no_bin : selection.bin ≡ rule_none
  pub no_lib : selection.lib ≡ rule_none
  pub no_test : selection.test ≡ rule_none
  pub no_script : selection.script ≡ rule_none
  pub no_example : selection.example ≡ rule_none

-- A script and a build program are built only where something needs them.
abbrev pub IsOrdinary : TargetKind → Type 0
IsOrdinary kind =
    (kind ≡ kind_lib) ⊎ ((kind ≡ kind_test) ⊎ ((kind ≡ kind_exe) ⊎ (kind ≡ kind_example)))

any_equal_iff :
    (items : List String) (name : String) → (any_equal items name ≡ true) ↔ In name items
unfolding any_equal
any_equal_iff [] name = (λ h. cc, λ h. elim h [ ])
any_equal_iff (item ∷ items) name = ground (arith, str_eq_iff item name, any_equal_iff items name)

target_rule_pass_iff :
    (rule : TargetRule) (target : TargetInfo)
    → (target_rule_pass rule target ≡ true) ↔ Asks rule target.name
unfolding target_rule_pass
target_rule_pass_iff rule_none target = (λ h. cc, λ h. absurd h)
target_rule_pass_iff rule_all target = (λ h. tt, λ h. refl)
target_rule_pass_iff (rule_named names) target = any_equal_iff names target.name

kind_pass_iff :
    (kind : TargetKind) (selection : TargetSelection) (target : TargetInfo)
    → (kind_pass kind selection target ≡ true) ↔ Wanted selection kind target.name
unfolding kind_pass
kind_pass_iff kind_exe selection target = target_rule_pass_iff selection.bin target
kind_pass_iff kind_lib selection target = target_rule_pass_iff selection.lib target
kind_pass_iff kind_test selection target = target_rule_pass_iff selection.test target
kind_pass_iff kind_script selection target = target_rule_pass_iff selection.script target
kind_pass_iff kind_example selection target = target_rule_pass_iff selection.example target
kind_pass_iff kind_configure selection target = (λ h. cc, λ h. absurd h)
kind_pass_iff kind_build selection target = (λ h. cc, λ h. absurd h)

default_pass_iff : (kind : TargetKind) → (default_pass kind ≡ true) ↔ IsOrdinary kind
unfolding default_pass
default_pass_iff kind = ground arith

is_default_iff :
    (selection : TargetSelection) → (is_default selection ≡ true) ↔ Unselective selection
unfolding is_default
is_default_iff selection = ground arith

-- A rule that is absent asks for nothing.
Unselective-Wanted :
    (selection : TargetSelection) (kind : TargetKind) (name : String)
    → Unselective selection
    → ¬ Wanted selection kind name
Unselective-Wanted selection kind_exe name u = rw u.no_bin (λ h. h)
Unselective-Wanted selection kind_lib name u = rw u.no_lib (λ h. h)
Unselective-Wanted selection kind_test name u = rw u.no_test (λ h. h)
Unselective-Wanted selection kind_script name u = rw u.no_script (λ h. h)
Unselective-Wanted selection kind_example name u = rw u.no_example (λ h. h)
Unselective-Wanted selection kind_configure name u = λ h. h
Unselective-Wanted selection kind_build name u = λ h. h

-- A target passes exactly if nothing was selected and it is a library, a test, an executable or an
-- example, or if the rule for its kind asks for all targets or for its name.
pub target_selection_pass_iff :
    (selection : TargetSelection) (target : TargetInfo)
    → (target_selection_pass selection target ≡ true) ↔ (
        (Unselective selection × IsOrdinary target.kind) ⊎ Wanted selection target.kind target.name)
unfolding target_selection_pass
target_selection_pass_iff selection target = elim (Bool-cases (is_default selection)) [
  | inl e ↦
      let u = (is_default_iff selection).0 e in
      (
        λ h. inl (u, (default_pass_iff target.kind).0 (rw (e, target_selection_pass) at h)),
        λ h. elim h [
          | inl (_, ordinary) ↦
              rw (e, target_selection_pass) ((default_pass_iff target.kind).1 ordinary)
          | inr wanted ↦ absurd (Unselective-Wanted selection target.kind target.name u wanted)
        ],
      )
  | inr e ↦ (
    λ h. inr ((kind_pass_iff target.kind selection target).0 (rw (e, target_selection_pass) at h)),
    λ h. elim h [
      | inl (u, _) ↦ cc ((is_default_iff selection).1 u)
      | inr wanted ↦
          rw (e, target_selection_pass) ((kind_pass_iff target.kind selection target).1 wanted)
    ],
  )
]
