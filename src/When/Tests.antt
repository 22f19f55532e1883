-- ===== src/When/Tests.antt =====
-- The theorems on conditions and options at concrete inputs.
use spn.Base.{◌≡◌, ◌↔◌, ◌⊎◌, Bool, true, false, some, List, [], ◌∷◌, ◌++◌, String, All, refl}
use spn.Base.StrMap
use spn.Enum.Platform.{os_linux, arch_x64, abi_gnu, driver_gcc, ld_gnu}
use spn.Enum.Build.{mode_debug, opt_0}
use spn.Enum.Target.{type_enum}
use spn.When.{
  WhenEnv, WhenFacts, WhenClause, OptionInfo, OptionDefault, When, OptionValue, value_none,
  value_bool, value_str, when_eval, option_resolve, option_value_ok, when_env_set_facts,
}
use spn.When.Eval.{Holds, Fails, Accepts, when_eval_iff, option_resolve_lem, option_value_ok_iff}
use spn.When.Facts.{fact_or, os_is, when_env_set_facts_lem, os_gate_iff}

abbrev env : WhenEnv
env = ("os", value_str "linux") ∷ ("tls", value_bool true) ∷ []

abbrev clause : String → Bool → OptionValue → WhenClause
clause key negated value = record { key = key; negated = negated; value = value }

-- Built on Linux, and not with TLS turned off.
abbrev gate : When
gate = clause "os" false (value_str "linux") ∷ clause "tls" true (value_bool false) ∷ []

gate_opens : when_eval (some gate) env ≡ true
unfolding when_eval StrMap.lookup
gate_opens = refl

-- A negated clause on a key that is not set does not hold.
unset_stays_shut : when_eval (some (clause "mode" true (value_str "debug") ∷ [])) env ≡ false
unfolding when_eval StrMap.lookup
unset_stays_shut = refl

when_eval_iff_example : (when_eval (some gate) env ≡ true) ↔ All (Holds env) gate
when_eval_iff_example = when_eval_iff gate env

abbrev on_windows : OptionDefault
on_windows = record {
  gate = clause "os" false (value_str "windows") ∷ [];
  value = value_str "schannel";
}

abbrev elsewhere : OptionDefault
elsewhere = record { gate = []; value = value_str "openssl" }

abbrev backend : OptionInfo
backend = record {
  name = "backend";
  type = type_enum;
  additive = false;
  public = false;
  define = "";
  values = "openssl" ∷ "schannel" ∷ [];
  defaults = on_windows ∷ elsewhere ∷ [];
}

backend_on_linux : option_resolve backend env ≡ value_str "openssl"
unfolding option_resolve StrMap.lookup
backend_on_linux = refl

option_resolve_lem_example :
    ((option_resolve backend env ≡ value_none) × All (Fails env) backend.defaults)
    ⊎ ((before : List OptionDefault) × (d : OptionDefault) × (after : List OptionDefault)
        × (backend.defaults ≡ before ++ d ∷ after)
        × All (Fails env) before
        × All (Holds env) d.gate
        × (option_resolve backend env ≡ d.value))
option_resolve_lem_example = option_resolve_lem backend env

option_value_ok_iff_example :
    (option_value_ok backend (value_str "openssl") ≡ true)
    ↔ Accepts type_enum backend.values (value_str "openssl")
option_value_ok_iff_example = option_value_ok_iff backend (value_str "openssl")

abbrev facts : WhenFacts
facts = record {
  os = os_linux;
  arch = arch_x64;
  abi = abi_gnu;
  driver = driver_gcc;
  linker = ld_gnu;
  build_mode = mode_debug;
  opt = opt_0;
  sanitizers = 5;
}

when_env_set_facts_lem_example :
    StrMap.lookup "sanitize_undefined" (when_env_set_facts env facts)
    ≡ fact_or facts "sanitize_undefined" (StrMap.lookup "sanitize_undefined" env)
when_env_set_facts_lem_example = when_env_set_facts_lem env facts "sanitize_undefined"

os_gate_iff_example :
    (when_eval (some (os_is os_linux ∷ [])) (when_env_set_facts [] facts) ≡ true)
    ↔ (os_linux ≡ os_linux)
os_gate_iff_example = os_gate_iff [] facts os_linux
