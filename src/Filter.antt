-- ===== src/Filter.antt =====
-- source/core/filter/filter.c: which targets a build asks for.
pub mod Selected
mod Tests
use spn.Base.{String, Bool, true, false, ◌&&◌, List, [], ◌∷◌, str_eq, if◌then◌else◌}

-- `spn_target_kind_t`.
pub data TargetKind : Type 0 where
  kind_lib kind_exe kind_script kind_test kind_example kind_configure kind_build : TargetKind

-- `spn_target_rule_t`, its kind with the names that only one kind reads.
pub data TargetRule : Type 0 where
  rule_none rule_all : TargetRule
  rule_named : List String → TargetRule

pub record TargetSelection : Type 0 where
  pub bin : TargetRule
  pub lib : TargetRule
  pub test : TargetRule
  pub script : TargetRule
  pub example : TargetRule

-- The parts of `spn_target_info_t` that the filter reads.
pub record TargetInfo : Type 0 where
  pub name : String
  pub kind : TargetKind

unfoldable pub any_equal : List String → String → Bool
any_equal [] name = false
any_equal (item ∷ items) name = if str_eq item name then true else any_equal items name

unfoldable pub target_rule_pass : TargetRule → TargetInfo → Bool
unfolding any_equal
target_rule_pass rule_none target = false
target_rule_pass rule_all target = true
target_rule_pass (rule_named names) target = any_equal names target.name

abbrev pub is_none : TargetRule → Bool
is_none rule_none = true
is_none _ = false

unfoldable pub is_default : TargetSelection → Bool
is_default selection =
    is_none selection.bin
    && (is_none selection.lib
        && (is_none selection.test && (is_none selection.script && is_none selection.example)))

-- The switch on the kind of target when nothing is selected.
unfoldable pub default_pass : TargetKind → Bool
default_pass kind_build = false
default_pass kind_configure = false
default_pass kind_script = false
default_pass kind_lib = true
default_pass kind_test = true
default_pass kind_exe = true
default_pass kind_example = true

-- The switch when something is.
unfoldable pub kind_pass : TargetKind → TargetSelection → TargetInfo → Bool
unfolding target_rule_pass
kind_pass kind_exe selection target = target_rule_pass selection.bin target
kind_pass kind_lib selection target = target_rule_pass selection.lib target
kind_pass kind_test selection target = target_rule_pass selection.test target
kind_pass kind_script selection target = target_rule_pass selection.script target
kind_pass kind_example selection target = target_rule_pass selection.example target
kind_pass kind_configure selection target = false
kind_pass kind_build selection target = false

unfoldable pub target_selection_pass : TargetSelection → TargetInfo → Bool
unfolding is_default default_pass kind_pass
target_selection_pass selection target =
    if is_default selection
    then default_pass target.kind
    else kind_pass target.kind selection target
