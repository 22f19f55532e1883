-- ===== src/When/Facts.antt =====
-- The facts of a build that source/core/when/when.c puts into an environment.
use spn.Base.{
  String, true, false, [], ◌∷◌, Option, some, ◌≡◌, ◌↔◌, refl, str_eq, if◌then◌else◌, ap, sym, ◌∙◌,
}
use mathlib.Core.Option.{some-injective}
use spn.Base.StrMap
use spn.Base.StrMap.{lookup-insert}
use spn.Enum.Platform.{Os, os_to_str, arch_to_str, abi_to_str, cc_driver_to_str, ld_family_to_str}
use spn.Enum.Build.{mode_to_str, opt_level_to_str}
use spn.Enum.PlatformNames.{Os-IsExact}
use spn.When.{
  OptionValue, value_bool, value_str, WhenClause, WhenEnv, WhenFacts, when_eval, when_env_set_facts,
  has_bit,
}
use spn.When.Eval.{when_eval_iff}

-- The table of the keys, and what each is set to.
abbrev pub fact_or : WhenFacts → String → Option OptionValue → Option OptionValue
fact_or facts k other =
    if str_eq "sanitize_leak" k
    then some (value_bool (has_bit facts.sanitizers 4))
    else if str_eq "sanitize_memory" k
    then some (value_bool (has_bit facts.sanitizers 3))
    else if str_eq "sanitize_undefined" k
    then some (value_bool (has_bit facts.sanitizers 2))
    else if str_eq "sanitize_thread" k
    then some (value_bool (has_bit facts.sanitizers 1))
    else if str_eq "sanitize_address" k
    then some (value_bool (has_bit facts.sanitizers 0))
    else if str_eq "opt" k
    then some (value_str (opt_level_to_str facts.opt))
    else if str_eq "mode" k
    then some (value_str (mode_to_str facts.build_mode))
    else if str_eq "linker" k
    then some (value_str (ld_family_to_str facts.linker))
    else if str_eq "driver" k
    then some (value_str (cc_driver_to_str facts.driver))
    else if str_eq "abi" k
    then some (value_str (abi_to_str facts.abi))
    else if str_eq "arch" k
    then some (value_str (arch_to_str facts.arch))
    else if str_eq "os" k
    then some (value_str (os_to_str facts.os))
    else other

-- After the facts are set, each of the twelve keys has its fact, whatever it had before, and every
-- other key has what it had.
pub when_env_set_facts_lem :
    (env : WhenEnv) (facts : WhenFacts) (k : String)
    → StrMap.lookup k (when_env_set_facts env facts) ≡ fact_or facts k (StrMap.lookup k env)
unfolding when_env_set_facts
when_env_set_facts_lem env facts k = simp lookup-insert

os_to_str-injective : (a b : Os) → os_to_str a ≡ os_to_str b → a ≡ b
os_to_str-injective a b e =
    some-injective a b
      (sym (Os-IsExact.back a (os_to_str b) (ap some e)) ∙ Os-IsExact.back b (os_to_str b) refl)

abbrev pub os_is : Os → WhenClause
os_is os = record { key = "os"; negated = false; value = value_str (os_to_str os) }

-- A gate on the operating system, under the facts of a build, holds exactly on that system.
pub os_gate_iff :
    (env : WhenEnv) (facts : WhenFacts) (os : Os)
    → (when_eval (some (os_is os ∷ [])) (when_env_set_facts env facts) ≡ true) ↔ (facts.os ≡ os)
os_gate_iff env facts os =
    let found = when_env_set_facts_lem env facts "os" in
    let gate = when_eval_iff (os_is os ∷ []) (when_env_set_facts env facts) in
    (
      λ h.
          let (current, set, plain, _) = (gate.0 h).0 in
          let same = plain refl in os_to_str-injective facts.os os (cc),
      λ e. gate.1 (
        (value_str (os_to_str facts.os), found, λ _. ap (λ o. value_str (os_to_str o)) e, λ f. cc),
        tt,
      ),
    )
