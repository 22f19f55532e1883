-- ===== src/Intern/Probe.antt =====
-- Probing the slots of source/core/intern/intern.c: where a probe goes, and that it ends.
use native.Mathlib.Nat.{mod-eq_of_lt, mod_self}
use spn.Base.{
  ℕ, zero, suc, ◌+◌, ◌%◌, ◌≤◌, ◌<◌, true, false, List, ◌≡◌, ◌⊎◌, inl, inr, refl, ap, ◌∙◌, get_elem?,
  set, Option, none, some, arith, ltb, ltb→lt, Option-cases, Bool-cases,
}
use spn.Base.Fields.{field_at-eq, field_at-set}
use spn.Base.Texts.{Bytes}
use spn.Intern.{Slot, Index, slot_at, matches, find_from, empty_from}

-- From the slot `s`, after `k` slots that are taken, the probe is at `i`.
abbrev pub RunTo : List (Option Slot) → ℕ → ℕ → ℕ → ℕ → Type 0
RunTo slots capacity s zero i = s ≡ i
RunTo slots capacity s (suc k) i =
    (e : Slot) × (slot_at slots s ≡ some e) × RunTo slots capacity ((s + 1) % capacity) k i

-- A slot that is written leaves the runs to where they led, if it was empty.
pub RunTo-set :
    (slots : List (Option Slot)) (capacity s k i j : ℕ) (v : Slot)
    → get_elem? slots j ≡ some none
    → RunTo slots capacity s k i
    → RunTo (set slots j (some v)) capacity s k i
RunTo-set slots capacity s zero i j v h run = run
RunTo-set slots capacity s (suc k) i j v h (e, taken, run) =
    let moved = field_at-set (λ (x : Option Slot). x) none slots j s none (some v) h in
    let old = field_at-eq (λ (x : Option Slot). x) none slots j none h in
    (e, ground arith, RunTo-set slots capacity ((s + 1) % capacity) k i j v h run)

-- The first empty slot is found.
pub empty_from-RunTo :
    (index : Index) (fuel s k i : ℕ)
    → k < fuel
    → RunTo index.slots index.capacity s k i
    → slot_at index.slots i ≡ none
    → empty_from index fuel s ≡ some i
unfolding empty_from
empty_from-RunTo index zero s k i lt run free = absurd (omega arith)
empty_from-RunTo index (suc fuel) s zero i lt run free = ground arith
empty_from-RunTo index (suc fuel) s (suc k) i lt (e, taken, run) free =
    rw (taken, empty_from)
      (empty_from-RunTo index fuel ((s + 1) % index.capacity) k i (omega arith) run free)

-- A text that stands nowhere is looked for up to the first empty slot.
pub find_from-absent :
    (index : Index) (str : Bytes) (hash fuel s k i : ℕ)
    → ((j : ℕ) (e : Slot) → slot_at index.slots j ≡ some e → matches e str hash ≡ false)
    → k < fuel
    → RunTo index.slots index.capacity s k i
    → slot_at index.slots i ≡ none
    → find_from index str hash fuel s ≡ some i
unfolding find_from
find_from-absent index str hash zero s k i apart lt run free = absurd (omega arith)
find_from-absent index str hash (suc fuel) s zero i apart lt run free = ground arith
find_from-absent index str hash (suc fuel) s (suc k) i apart lt (e, taken, run) free =
    rw (taken, find_from, apart s e taken)
      (find_from-absent index str hash fuel ((s + 1) % index.capacity) k i apart (omega arith) run
        free)

-- A text that stands at the end of a run is found, there or before.
pub find_from-present :
    (index : Index) (str : Bytes) (hash fuel s k i : ℕ) (e : Slot)
    → k < fuel
    → RunTo index.slots index.capacity s k i
    → slot_at index.slots i ≡ some e
    → matches e str hash ≡ true
    → (j : ℕ) × (found : Slot) × (find_from index str hash fuel s ≡ some j)
      × (slot_at index.slots j ≡ some found)
      × (matches found str hash ≡ true)
unfolding find_from
find_from-present index str hash zero s k i e lt run there same = absurd (omega arith)
find_from-present index str hash (suc fuel) s zero i e lt run there same =
    let here : slot_at index.slots s ≡ some e = ap (slot_at index.slots) run ∙ there in
    (s, e, rw (here, find_from, same), here, same)
find_from-present index str hash (suc fuel) s (suc k) i e lt (first, taken, run) there same =
    elim (Bool-cases (matches first str hash)) [
      | inl yes_first ↦ (s, first, rw (taken, find_from, yes_first), taken, yes_first)
      | inr not_first ↦
          let (j, found, e', at_j, is) =
            find_from-present index str hash fuel ((s + 1) % index.capacity) k i e (omega arith) run
              there same in
          (j, found, rw (taken, find_from, not_first) e', at_j, is)
    ]

next_slot :
    (capacity s : ℕ)
    → s < capacity
    → ((s + 1 < capacity) × ((s + 1) % capacity ≡ s + 1))
      ⊎ ((s + 1 ≡ capacity) × ((s + 1) % capacity ≡ 0))
next_slot capacity s lt = elim (Bool-cases (ltb (s + 1) capacity)) [
  | inl below ↦ let h = ltb→lt (s + 1) capacity below in inl (h, mod-eq_of_lt h)
  | inr at_end ↦
      let e : s + 1 ≡ capacity = ground arith in
      inr (e, ap (λ (n : ℕ). n % capacity) e ∙ mod_self capacity)
]

-- Nearer by a step to a slot that is `d` steps on.
abbrev pub Ahead : ℕ → ℕ → ℕ → ℕ → Type 0
Ahead capacity s d j = (s + d ≡ j) ⊎ (s + d ≡ j + capacity)

step-Ahead :
    (capacity s d j : ℕ)
    → s < capacity
    → j < capacity
    → Ahead capacity s (suc d) j
    → ((s + 1) % capacity < capacity) × Ahead capacity ((s + 1) % capacity) d j
step-Ahead capacity s d j s_lt j_lt ahead = elim (next_slot capacity s s_lt) [
  | inl (below, e) ↦ rw e (below, ground arith)
  | inr (at_end, e) ↦ rw e (omega arith, inl (ground arith))
]

-- Around the circle an empty slot is reached, in at most the steps to one that is known.
pub reach_empty :
    (slots : List (Option Slot)) (capacity d s j : ℕ)
    → s < capacity
    → j < capacity
    → Ahead capacity s d j
    → slot_at slots j ≡ none
    → (k : ℕ) × (i : ℕ) × (k ≤ d)
      × (i < capacity)
      × RunTo slots capacity s k i
      × (slot_at slots i ≡ none)
reach_empty slots capacity zero s j s_lt j_lt ahead free =
    let e : s ≡ j = ground arith in (0, s, omega arith, s_lt, refl, ap (slot_at slots) e ∙ free)
reach_empty slots capacity (suc d) s j s_lt j_lt ahead free =
    elim (Option-cases (slot_at slots s)) [
      | inl here ↦ (0, s, omega arith, s_lt, refl, here)
      | inr (e, taken) ↦
          let (next_lt, nearer) = step-Ahead capacity s d j s_lt j_lt ahead in
          let (k, i, k_le, i_lt, run, empty) =
            reach_empty slots capacity d ((s + 1) % capacity) j next_lt j_lt nearer free in
          (suc k, i, omega arith, i_lt, (e, taken, run), empty)
    ]
