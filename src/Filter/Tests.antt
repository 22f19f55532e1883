-- ===== src/Filter/Tests.antt =====
-- The filter on a concrete selection.
use spn.Base.{◌≡◌, ◌↔◌, ◌⊎◌, true, [], ◌∷◌}
use spn.Filter.{kind_exe, rule_none, rule_named, TargetSelection, TargetInfo, target_selection_pass}
use spn.Filter.Selected.{Unselective, IsOrdinary, Wanted, target_selection_pass_iff}

abbrev selection : TargetSelection
selection = record {
  bin = rule_named ("spn" ∷ []);
  lib = rule_none;
  test = rule_none;
  script = rule_none;
  example = rule_none;
}

abbrev target : TargetInfo
target = record { name = "spn"; kind = kind_exe }

target_selection_pass_iff_example :
    (target_selection_pass selection target ≡ true)
    ↔ ((Unselective selection × IsOrdinary kind_exe) ⊎ Wanted selection kind_exe "spn")
target_selection_pass_iff_example = target_selection_pass_iff selection target
