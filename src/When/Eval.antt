-- ===== src/When/Eval.antt =====
-- What the conditions of source/core/when/when.c ask of an environment.
use spn.Base.{
  String, Bool, true, false, List, [], ◌∷◌, ◌++◌, some, ◌≡◌, ◌≢◌, ◌↔◌, ◌⊎◌, refl, arith, All,
  str_eq_iff, inl, inr, Bool-cases, Option-cases, In, ap,
}
use spn.Base.StrMap
use spn.Enum.Target.{OptionType, type_none, type_bool, type_enum}
use spn.When.{
  OptionValue, value_none, value_bool, value_str, WhenClause, When, WhenEnv, OptionDefault,
  OptionInfo, option_value_equal, clause_holds, when_eval, first_default, option_resolve,
  option_value_ok, value_fits, str_in,
}

pub option_value_equal_iff : (a b : OptionValue) → (option_value_equal a b ≡ true) ↔ (a ≡ b)
unfolding option_value_equal
option_value_equal_iff value_none value_none = ground arith
option_value_equal_iff value_none (value_bool b) = ground arith
option_value_equal_iff value_none (value_str b) = ground arith
option_value_equal_iff (value_bool a) value_none = ground arith
option_value_equal_iff (value_bool a) (value_bool b) = ground arith
option_value_equal_iff (value_bool a) (value_str b) = ground arith
option_value_equal_iff (value_str a) value_none = ground arith
option_value_equal_iff (value_str a) (value_bool b) = ground arith
option_value_equal_iff (value_str a) (value_str b) = ground (arith, str_eq_iff a b)

-- The clause's key is set, to the clause's value, or to another value if the clause is negated.
abbrev pub Holds : WhenEnv → WhenClause → Type 0
Holds env clause =
    (current : OptionValue) × (StrMap.lookup clause.key env ≡ some current)
    × (clause.negated ≡ false → current ≡ clause.value)
    × (clause.negated ≡ true → current ≢ clause.value)

clause_holds_iff :
    (env : WhenEnv) (clause : WhenClause) → (clause_holds env clause ≡ true) ↔ Holds env clause
unfolding clause_holds
clause_holds_iff env clause = elim (Option-cases (StrMap.lookup clause.key env)) [
  | inl e ↦ (λ h. cc, λ (v, found, _, _). cc)
  | inr (current, e) ↦ (
    λ h. (
      current,
      e,
      ground (arith, option_value_equal_iff current clause.value),
      ground (arith, option_value_equal_iff current clause.value),
    ),
    λ (v, found, plain, opposite).
        let same : v ≡ current = ground arith in
        ground (arith, option_value_equal_iff current clause.value),
  )
]

-- A gate opens exactly when every clause holds: its key is set, to the clause's value, or for a
-- negated clause to another value.
pub when_eval_iff :
    (clauses : When) (env : WhenEnv)
    → (when_eval (some clauses) env ≡ true) ↔ All (Holds env) clauses
unfolding when_eval
when_eval_iff [] env = (λ _. tt, λ _. refl)
when_eval_iff (clause ∷ rest) env =
    ground (arith, clause_holds_iff env clause, when_eval_iff rest env)

-- The defaults before the one that is taken all have gates that fail.
abbrev pub Fails : WhenEnv → OptionDefault → Type 0
Fails env d = ¬ All (Holds env) d.gate

-- The value of an option is that of the first default whose gate holds, and none if no
-- gate holds.
pub option_resolve_lem :
    (option : OptionInfo) (env : WhenEnv)
    → ((option_resolve option env ≡ value_none) × All (Fails env) option.defaults)
      ⊎ ((before : List OptionDefault) × (d : OptionDefault) × (after : List OptionDefault)
          × (option.defaults ≡ before ++ d ∷ after)
          × All (Fails env) before
          × All (Holds env) d.gate
          × (option_resolve option env ≡ d.value))
unfolding option_resolve
option_resolve_lem option env = go option.defaults
  where
    go :
        (ds : List OptionDefault)
        → ((first_default ds env ≡ value_none) × All (Fails env) ds)
          ⊎ ((before : List OptionDefault) × (d : OptionDefault) × (after : List OptionDefault)
              × (ds ≡ before ++ d ∷ after)
              × All (Fails env) before
              × All (Holds env) d.gate
              × (first_default ds env ≡ d.value))
    go [] = inl (refl, tt)
    go (d ∷ ds) = elim (Bool-cases (when_eval (some d.gate) env)) [
      | inl e ↦ inr ([], d, ds, refl, tt, (when_eval_iff d.gate env).0 e, rw (e, first_default))
      | inr e ↦ elim (go ds) [
        | inl (none_taken, fail) ↦
            inl (rw (e, first_default) none_taken, (λ h. cc ((when_eval_iff d.gate env).1 h), fail))
        | inr (before, d', after, split, fail, holds, taken) ↦ inr (
          d ∷ before,
          d',
          after,
          ap (λ r. d ∷ r) split,
          (λ h. cc ((when_eval_iff d.gate env).1 h), fail),
          holds,
          rw (e, first_default) taken,
        )
      ]
    ]

-- Which values an option accepts.
abbrev pub Accepts : OptionType → List String → OptionValue → Type 0
Accepts type_none values value = ⊥
Accepts type_bool values value = (b : Bool) × (value ≡ value_bool b)
Accepts type_enum values value = (s : String) × (value ≡ value_str s) × In s values

str_in_iff : (s : String) (values : List String) → (str_in s values ≡ true) ↔ In s values
unfolding str_in
str_in_iff s [] = (λ h. cc, λ h. elim h [ ])
str_in_iff s (v ∷ values) = ground (arith, str_eq_iff v s, str_in_iff s values)

-- An option accepts the Booleans if it is a Boolean option, the texts on its list if it is an
-- enumeration, and nothing if it has no type.
pub option_value_ok_iff :
    (option : OptionInfo) (value : OptionValue)
    → (option_value_ok option value ≡ true) ↔ Accepts option.type option.values value
unfolding option_value_ok
option_value_ok_iff option value = go option.type value
  where
    go :
        (type : OptionType) (value : OptionValue)
        → (value_fits type option.values value ≡ true) ↔ Accepts type option.values value
    go type_none value = (λ h. cc, λ h. absurd h)
    go type_bool value_none = (λ h. cc, λ (b, e). cc)
    go type_bool (value_bool b) = (λ h. (b, refl), λ _. refl)
    go type_bool (value_str s) = (λ h. cc, λ (b, e). cc)
    go type_enum value_none = (λ h. cc, λ (s, e, m). cc)
    go type_enum (value_bool b) = (λ h. cc, λ (s, e, m). cc)
    go type_enum (value_str s) = (
      λ h. (s, refl, (str_in_iff s option.values).0 h),
      λ (t, e, m). let same : s ≡ t = ground arith in rw same ((str_in_iff t option.values).1 m),
    )
