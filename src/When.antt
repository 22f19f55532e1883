-- ===== src/When.antt =====
-- source/core/when: option values, the conditions on them, and the options' defaults.
-- A hash table is an association list; `&&` on a sanitizer bit is a test of that bit.
pub mod Eval
pub mod Facts
mod Tests
use spn.Base.{
  ℕ, ◌/◌, ◌%◌, ◌^◌, String, Bool, true, false, not, List, [], ◌∷◌, ◌++◌, Option, none, some, str_eq,
  ◌==◌, if◌then◌else◌,
}
use spn.Base.StrMap
use spn.Enum.Platform.{
  Arch, Os, CcDriver, LdFamily, Abi, os_to_str, arch_to_str, abi_to_str, cc_driver_to_str,
  ld_family_to_str,
}
use spn.Enum.Build.{BuildMode, OptLevel, mode_to_str, opt_level_to_str}
use spn.Enum.Target.{OptionType, type_none, type_bool, type_enum}

pub data OptionValue : Type 0 where
  value_none : OptionValue
  value_bool : Bool → OptionValue
  value_str : String → OptionValue

pub record WhenClause : Type 0 where
  pub key : String
  pub negated : Bool
  pub value : OptionValue

abbrev pub When : Type 0
When = List WhenClause

abbrev pub WhenEnv : Type 0
WhenEnv = List (String × OptionValue)

pub record WhenFacts : Type 0 where
  pub os : Os
  pub arch : Arch
  pub abi : Abi
  pub driver : CcDriver
  pub linker : LdFamily
  pub build_mode : BuildMode
  pub opt : OptLevel
  pub sanitizers : ℕ

pub record OptionDefault : Type 0 where
  pub gate : When
  pub value : OptionValue

pub record OptionInfo : Type 0 where
  pub name : String
  pub type : OptionType
  pub additive : Bool
  pub public : Bool
  pub define : String
  pub values : List String
  pub defaults : List OptionDefault

abbrev pub bool_eq : Bool → Bool → Bool
bool_eq true b = b
bool_eq false b = not b

-- `spn_option_value_equal`.
unfoldable pub option_value_equal : OptionValue → OptionValue → Bool
option_value_equal value_none value_none = true
option_value_equal (value_bool a) (value_bool b) = bool_eq a b
option_value_equal (value_str a) (value_str b) = str_eq a b
option_value_equal _ _ = false

-- `spn_when_env_set`.
unfoldable pub when_env_set : WhenEnv → String → OptionValue → WhenEnv
when_env_set env key value = StrMap.insert key value env

-- The test of one clause; a key that is not set fails it, negated or not.
unfoldable pub clause_holds : WhenEnv → WhenClause → Bool
unfolding option_value_equal
clause_holds env clause = elim (StrMap.lookup clause.key env) [
  | none ↦ false
  | some current ↦ not (bool_eq (option_value_equal current clause.value) clause.negated)
]

-- The loop of `spn_when_eval` over the clauses.
unfoldable pub when_eval_clauses : When → WhenEnv → Bool
unfolding clause_holds
when_eval_clauses [] env = true
when_eval_clauses (clause ∷ rest) env =
    if clause_holds env clause then when_eval_clauses rest env else false

-- `spn_when_eval`; `none` is the null pointer.
unfoldable pub when_eval : Option When → WhenEnv → Bool
unfolding when_eval_clauses
when_eval none env = true
when_eval (some clauses) env = when_eval_clauses clauses env

unfoldable pub str_in : String → List String → Bool
str_in s [] = false
str_in s (v ∷ values) = if str_eq v s then true else str_in s values

-- `spn_option_value_ok`, by the option's type.
unfoldable pub value_fits : OptionType → List String → OptionValue → Bool
unfolding str_in
value_fits type_none values value = false
value_fits type_bool values (value_bool b) = true
value_fits type_bool values _ = false
value_fits type_enum values (value_str s) = str_in s values
value_fits type_enum values _ = false

unfoldable pub option_value_ok : OptionInfo → OptionValue → Bool
unfolding value_fits
option_value_ok option value = value_fits option.type option.values value

-- The loop of `spn_option_resolve` over the defaults.
unfoldable pub first_default : List OptionDefault → WhenEnv → OptionValue
unfolding when_eval
first_default [] env = value_none
first_default (d ∷ rest) env =
    if when_eval (some d.gate) env then d.value else first_default rest env

unfoldable pub option_resolve : OptionInfo → WhenEnv → OptionValue
unfolding first_default
option_resolve option env = first_default option.defaults env

-- `set & bit`, as a truth value, for the bit of weight `2 ^ k`.
abbrev pub has_bit : ℕ → ℕ → Bool
has_bit bits k = not (bits / 2 ^ k % 2 == 0)

unfoldable pub when_env_set_platform : WhenEnv → Os → Arch → WhenEnv
unfolding when_env_set
when_env_set_platform env os arch =
    when_env_set (when_env_set env "os" (value_str (os_to_str os))) "arch"
      (value_str (arch_to_str arch))

unfoldable pub when_env_set_facts : WhenEnv → WhenFacts → WhenEnv
unfolding when_env_set_platform when_env_set
when_env_set_facts env facts =
    let env₁ = when_env_set_platform env facts.os facts.arch in
    let env₂ = when_env_set env₁ "abi" (value_str (abi_to_str facts.abi)) in
    let env₃ = when_env_set env₂ "driver" (value_str (cc_driver_to_str facts.driver)) in
    let env₄ = when_env_set env₃ "linker" (value_str (ld_family_to_str facts.linker)) in
    let env₅ = when_env_set env₄ "mode" (value_str (mode_to_str facts.build_mode)) in
    let env₆ = when_env_set env₅ "opt" (value_str (opt_level_to_str facts.opt)) in
    let env₇ = when_env_set env₆ "sanitize_address" (value_bool (has_bit facts.sanitizers 0)) in
    let env₈ = when_env_set env₇ "sanitize_thread" (value_bool (has_bit facts.sanitizers 1)) in
    let env₉ = when_env_set env₈ "sanitize_undefined" (value_bool (has_bit facts.sanitizers 2)) in
    let env' = when_env_set env₉ "sanitize_memory" (value_bool (has_bit facts.sanitizers 3)) in
    when_env_set env' "sanitize_leak" (value_bool (has_bit facts.sanitizers 4))
