-- ===== src/Resolve/Pins.antt =====
-- Which version the pins of source/core/resolve/resolve.c leave to a name: `find_forced` and
-- `find_pin` mean what the pins say.
use spn.Base.{
  ℕ, ◌≡◌, ◌≢◌, refl, true, sym, ◌∙◌, List, [], ◌∷◌, Option, none, some, inl, inr, All, arith,
  Bool-cases, Option-cases, ◌==◌, ==_iff,
}
use mathlib.Core.Option.{some-injective}
use spn.Semver.{Semver}
use spn.Semver.Compare.{semver_eq}
use spn.Resolve.Types.{Pin, Resolver}
use spn.Resolve.Solver.{not_held, held, find_forced, find_pin}
use spn.Resolve.Search.{find_held}

-- All the pins of the name are to this version.
abbrev pub AllPin : ℕ → Semver → List Pin → Type 0
AllPin name version = All (λ pin. pin.name ≡ name → version ≡ pin.version)

-- The version of a name is the forced pin's, where that pin is of the name: it hides the pins of the
-- scope. Otherwise it is the version of every pin of the scope that is of the name.
pub record MeetsPins (r : Resolver) (name : ℕ) (version : Semver) : Type 0 where
  pub forced : (pin : Pin) → r.forced ≡ some pin → pin.name ≡ name → version ≡ pin.version
  pub pinned : ((pin : Pin) → r.forced ≡ some pin → pin.name ≢ name) → AllPin name version r.pins

pub semver_eq-same : (a b : Semver) → semver_eq a b ≡ true → a ≡ b
unfolding semver_eq
semver_eq-same a b h = ground arith

held-injective : (a b : Semver) → held a ≡ held b → a ≡ b
held-injective a b e = ground arith

find_forced-hit :
    (forced : Option Pin) (name : ℕ) (pin : Pin)
    → forced ≡ some pin
    → pin.name ≡ name
    → find_forced forced name ≡ some pin.version
unfolding find_forced
find_forced-hit none name pin e own = cc
find_forced-hit (some p) name pin e own = ground (arith, ==_iff p.name name)

find_forced-some :
    (forced : Option Pin) (name : ℕ) (version : Semver)
    → find_forced forced name ≡ some version
    → (pin : Pin) × (forced ≡ some pin) × (pin.name ≡ name)
unfolding find_forced
find_forced-some none name version h = cc
find_forced-some (some p) name version h = (p, refl, ground (arith, ==_iff p.name name))

-- Once a version is found, a pin of the name is either of it or a contradiction.
find_pin-found : (pins : List Pin) (name : ℕ) (v : Semver) → find_pin pins name (some v) ≢ not_held
unfolding find_pin
find_pin-found [] name v h = cc
find_pin-found (pin ∷ pins) name v h =
    ground (arith, find_pin-found pins name v, find_pin-found pins name pin.version)

find_pin-not_held :
    (pins : List Pin) (name : ℕ) (version : Semver)
    → find_pin pins name none ≡ not_held
    → AllPin name version pins
unfolding find_pin
find_pin-not_held [] name version h = tt
find_pin-not_held (pin ∷ pins) name version h = elim (Bool-cases (pin.name == name)) [
  | inl hit ↦ absurd (find_pin-found pins name pin.version (rw (hit, find_pin) at h))
  | inr miss ↦ (
    λ own. absurd (ground (arith, ==_iff pin.name name)),
    find_pin-not_held pins name version (rw (miss, find_pin) at h),
  )
]

find_pin-held :
    (pins : List Pin) (name : ℕ) (found : Option Semver) (version : Semver)
    → find_pin pins name found ≡ held version
    → AllPin name version pins × ((v : Semver) → found ≡ some v → version ≡ v)
unfolding find_pin
find_pin-held [] name none version h = cc
find_pin-held [] name (some v) version h = (tt, λ w e. ground arith)
find_pin-held (pin ∷ pins) name none version h = elim (Bool-cases (pin.name == name)) [
  | inl hit ↦
      let (rest, same) =
        find_pin-held pins name (some pin.version) version (rw (hit, find_pin) at h) in
      ((λ _. same pin.version refl, rest), λ w e. cc)
  | inr miss ↦
      let (rest, _) = find_pin-held pins name none version (rw (miss, find_pin) at h) in
      ((λ own. absurd (ground (arith, ==_iff pin.name name)), rest), λ w e. cc)
]
find_pin-held (pin ∷ pins) name (some v) version h = elim (Bool-cases (pin.name == name)) [
  | inl hit ↦ elim (Bool-cases (semver_eq v pin.version)) [
    | inl agree ↦
        let (rest, same) =
          find_pin-held pins name (some pin.version) version (rw (hit, agree, find_pin) at h) in
        (
          (λ _. same pin.version refl, rest),
          λ w e.
              same pin.version refl
              ∙ sym (semver_eq-same v pin.version agree)
              ∙ some-injective v w e,
        )
    | inr differ ↦ cc (rw (hit, differ, find_pin) at h)
  ]
  | inr miss ↦
      let (rest, same) = find_pin-held pins name (some v) version (rw (miss, find_pin) at h) in
      ((λ own. absurd (ground (arith, ==_iff pin.name name)), rest), same)
]

module _ (r : Resolver) (name : ℕ) where
  pub held-MeetsPins :
      (version : Semver) → find_held r name ≡ held version → MeetsPins r name version
  unfolding find_held
  held-MeetsPins version h = elim (Option-cases (find_forced r.forced name)) [
    | inr (v, e) ↦
        let (pin, is, own) = find_forced-some r.forced name v e in
        let same = held-injective v version (rw (e, find_held) at h) in
        record {
          forced = λ p is' own'.
              sym same
              ∙ some-injective v p.version (sym e ∙ find_forced-hit r.forced name p is' own');
          pinned = λ none_forced. absurd (none_forced pin is own);
        }
    | inl e ↦ record {
      forced = λ p is own. cc (find_forced-hit r.forced name p is own);
      pinned = λ _. (find_pin-held r.pins name none version (rw (e, find_held) at h)).0;
    }
  ]

  pub not_held-MeetsPins :
      (version : Semver) → find_held r name ≡ not_held → MeetsPins r name version
  unfolding find_held
  not_held-MeetsPins version h = elim (Option-cases (find_forced r.forced name)) [
    | inr (v, e) ↦ cc (rw (e, find_held) at h)
    | inl e ↦ record {
      forced = λ p is own. cc (find_forced-hit r.forced name p is own);
      pinned = λ _. find_pin-not_held r.pins name version (rw (e, find_held) at h);
    }
  ]
