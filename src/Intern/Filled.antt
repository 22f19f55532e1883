-- ===== src/Intern/Filled.antt =====
-- The slots of source/core/intern/intern.c as a set of entries: each entry is reached from its home
-- slot, and there is always an empty one.
use native.Mathlib.Nat.{mod-lt}
use mathlib.Core.Path.{subst}
use mathlib.Core.Option.{some-injective}
use spn.Base.{
  ℕ, zero, suc, ◌+◌, ◌-◌, ◌%◌, ◌^◌, ◌≤◌, ◌<◌, List, [], ◌∷◌, ◌≡◌, ◌↔◌, ◌⊎◌, inl, inr, refl, sym, ap,
  ◌∙◌, length, get_elem?, set, Option, none, some, arith, ◌==◌, ==_iff, Bool-cases, ltb, ltb→lt,
}
use spn.Base.Fields.{field_at, field_at-eq, field_at-set}
use spn.Intern.{Slot, Index, slot_at, write_slot, index_insert, no_slots, fresh}
use spn.Intern.Probe.{RunTo, RunTo-set, empty_from-RunTo, reach_empty, Ahead}

-- How many slots are taken.
unfoldable pub taken : List (Option Slot) → ℕ
taken [] = 0
taken (none ∷ slots) = taken slots
taken (some e ∷ slots) = suc (taken slots)

abbrev pub Holds : List (Option Slot) → Slot → Type 0
Holds slots e = (i : ℕ) × (slot_at slots i ≡ some e)

abbrev pub Placed : List (Option Slot) → ℕ → Type 0
Placed slots capacity =
    (i : ℕ) (e : Slot)
    → slot_at slots i ≡ some e
    → (k : ℕ) × (k < capacity) × RunTo slots capacity (e.hash % capacity) k i

pub record IsFilled (index : Index) : Type 0 where
  pub sized : length index.slots ≡ index.capacity
  pub counted : index.count ≡ taken index.slots
  pub placed : Placed index.slots index.capacity
  pub room : taken index.slots < index.capacity
  pub small : index.capacity ≤ 2 ^ 30

length-set :
    (slots : List (Option Slot)) (i : ℕ) (v : Option Slot) → length (set slots i v) ≡ length slots
length-set [] i v = refl
length-set (x ∷ slots) zero v = refl
length-set (x ∷ slots) (suc i) v = omega (arith, length-set slots i v)

taken-set :
    (slots : List (Option Slot)) (i : ℕ) (v : Slot)
    → get_elem? slots i ≡ some none
    → taken (set slots i (some v)) ≡ suc (taken slots)
unfolding taken
taken-set [] i v h = cc
taken-set (none ∷ slots) zero v h = refl
taken-set (some e ∷ slots) zero v h = cc
taken-set (none ∷ slots) (suc i) v h = taken-set slots i v h
taken-set (some e ∷ slots) (suc i) v h = omega (arith, taken-set slots i v h)

in_range :
    (slots : List (Option Slot)) (i : ℕ)
    → i < length slots
    → slot_at slots i ≡ none
    → get_elem? slots i ≡ some none
unfolding field_at
in_range [] i lt h = absurd (omega arith)
in_range (x ∷ slots) zero lt h = ap some h
in_range (x ∷ slots) (suc i) lt h = in_range slots i (omega arith) h

some_empty :
    (slots : List (Option Slot))
    → taken slots < length slots
    → (j : ℕ) × (j < length slots) × (slot_at slots j ≡ none)
unfolding taken field_at
some_empty [] lt = absurd (omega arith)
some_empty (none ∷ slots) lt = (0, omega arith, refl)
some_empty (some e ∷ slots) lt =
    let (j, j_lt, h) = some_empty slots (omega arith) in (suc j, omega arith, h)

-- The steps from one slot to another around the circle.
distance :
    (capacity s j : ℕ)
    → s < capacity
    → j < capacity
    → (d : ℕ) × (d < capacity) × Ahead capacity s d j
distance capacity s j s_lt j_lt = elim (Bool-cases (ltb j s)) [
  | inl around ↦ let h = ltb→lt j s around in (j + capacity - s, omega arith, inr (omega arith))
  | inr onwards ↦ (j - s, omega arith, inl (ground arith))
]

-- From any slot the probe comes to an empty one.
pub finds_room :
    (index : Index) (s : ℕ)
    → IsFilled index
    → s < index.capacity
    → (k : ℕ) × (i : ℕ) × (k < index.capacity)
      × (i < index.capacity)
      × RunTo index.slots index.capacity s k i
      × (slot_at index.slots i ≡ none)
finds_room index s f lt =
    let (j, j_lt, free) = some_empty index.slots (omega (arith, f.room, f.sized)) in
    let (d, d_lt, ahead) = distance index.capacity s j lt (omega (arith, f.sized)) in
    let (k, i, k_le, i_lt, run, empty) =
      reach_empty index.slots index.capacity d s j lt (omega (arith, f.sized)) ahead free in
    (k, i, omega arith, i_lt, run, empty)

pub home_lt : (index : Index) (hash : ℕ) → IsFilled index → hash % index.capacity < index.capacity
home_lt index hash f = mod-lt hash (omega (arith, f.room))

pub Holds-set :
    (slots : List (Option Slot)) (i : ℕ) (v e : Slot)
    → get_elem? slots i ≡ some none
    → Holds (set slots i (some v)) e ↔ (Holds slots e ⊎ (e ≡ v))
Holds-set slots i v e h = (
  λ (j, at_j). elim (Bool-cases (i == j)) [
    | inl same ↦ inr (
        some-injective _ _ (
          sym at_j
          ∙ field_at-set (λ (x : Option Slot). x) none slots i j none (some v) h
          ∙ rw same))
    | inr differs ↦ inl (
      j,
      sym (rw differs at (field_at-set (λ (x : Option Slot). x) none slots i j none (some v) h))
          ∙ at_j,
    )
  ],
  λ m. elim m [
    | inl (j, at_j) ↦ (
      j,
      ground (
        arith,
        field_at-set (λ (x : Option Slot). x) none slots i j none (some v) h,
        field_at-eq (λ (x : Option Slot). x) none slots i none h,
      ),
    )
    | inr same ↦
        (i, ground (arith, field_at-set (λ (x : Option Slot). x) none slots i i none (some v) h))
  ],
)

Placed-set :
    (slots : List (Option Slot)) (capacity k i : ℕ) (v : Slot)
    → get_elem? slots i ≡ some none
    → k < capacity
    → RunTo slots capacity (v.hash % capacity) k i
    → Placed slots capacity
    → Placed (set slots i (some v)) capacity
Placed-set slots capacity k i v h k_lt run placed j e at_j = elim (Bool-cases (i == j)) [
  | inl same ↦
      let is_v : v ≡ e = some-injective _ _ (
        sym (field_at-set (λ (x : Option Slot). x) none slots i j none (some v) h ∙ rw same)
        ∙ at_j) in
      let here : i ≡ j = (==_iff i j).0 same in
      let moved = RunTo-set slots capacity (v.hash % capacity) k i i v h run in
      (
        k,
        k_lt,
        subst (λ (x : ℕ). RunTo (set slots i (some v)) capacity (e.hash % capacity) k x) here
            (subst (λ (x : Slot). RunTo (set slots i (some v)) capacity (x.hash % capacity) k i)
              is_v moved),
      )
  | inr differs ↦
      let old =
        sym (rw differs at (field_at-set (λ (x : Option Slot). x) none slots i j none (some v) h))
        ∙ at_j in
      let (k', k'_lt, run') = placed j e old in
      (k', k'_lt, RunTo-set slots capacity (e.hash % capacity) k' j i v h run')
]

-- A write to the empty slot that a probe from the entry's home came to.
pub write_slot-IsFilled :
    (index : Index) (k i : ℕ) (v : Slot)
    → IsFilled index
    → suc (taken index.slots) < index.capacity
    → i < index.capacity
    → k < index.capacity
    → RunTo index.slots index.capacity (v.hash % index.capacity) k i
    → slot_at index.slots i ≡ none
    → IsFilled (write_slot index i v)
      × ((e : Slot) → Holds (write_slot index i v).slots e ↔ (Holds index.slots e ⊎ (e ≡ v)))
      × (taken (write_slot index i v).slots ≡ suc (taken index.slots))
unfolding write_slot
write_slot-IsFilled index k i v f room i_lt k_lt run free =
    let h = in_range index.slots i (omega (arith, f.sized)) free in
    let more = taken-set index.slots i v h in
    (
      record {
        sized = length-set index.slots i (some v) ∙ f.sized;
        counted = omega (arith, f.counted, f.small, f.room, more);
        placed = Placed-set index.slots index.capacity k i v h k_lt run f.placed;
        room = omega (arith, more);
        small = f.small;
      },
      λ e. Holds-set index.slots i v e h,
      more,
    )

-- What inserting an entry does.
pub record Inserts (index index' : Index) (v : Slot) : Type 0 where
  pub filled : IsFilled index'
  pub kept : index'.capacity ≡ index.capacity
  pub holds : (e : Slot) → Holds index'.slots e ↔ (Holds index.slots e ⊎ (e ≡ v))
  pub more : taken index'.slots ≡ suc (taken index.slots)

pub index_insert-Inserts :
    (index : Index) (v : Slot)
    → IsFilled index
    → suc (taken index.slots) < index.capacity
    → (index' : Index) × (index_insert index v ≡ some index') × Inserts index index' v
unfolding index_insert
index_insert-Inserts index v f room =
    let (k, i, k_lt, i_lt, run, free) =
      finds_room index (v.hash % index.capacity) f (home_lt index v.hash f) in
    let found = empty_from-RunTo index index.capacity (v.hash % index.capacity) k i k_lt run free in
    let (filled, holds, more) = write_slot-IsFilled index k i v f room i_lt k_lt run free in
    (
      write_slot index i v,
      rw (found, index_insert),
      record { filled = filled; kept = unfold write_slot in refl; holds = holds; more = more },
    )

-- A new table holds nothing.
length-no_slots : (n : ℕ) → length (no_slots n) ≡ n
unfolding no_slots
length-no_slots zero = refl
length-no_slots (suc n) = omega (arith, length-no_slots n)

pub taken-no_slots : (n : ℕ) → taken (no_slots n) ≡ 0
unfolding no_slots taken
taken-no_slots zero = refl
taken-no_slots (suc n) = taken-no_slots n

pub no_slots-empty : (n i : ℕ) → slot_at (no_slots n) i ≡ none
unfolding no_slots field_at
no_slots-empty zero i = refl
no_slots-empty (suc n) zero = refl
no_slots-empty (suc n) (suc i) = no_slots-empty n i

pub fresh-IsFilled : (capacity : ℕ) → 0 < capacity → capacity ≤ 2 ^ 30 → IsFilled (fresh capacity)
fresh-IsFilled capacity positive small = record {
  sized = length-no_slots capacity;
  counted = sym (taken-no_slots capacity);
  placed = λ i e h. cc (no_slots-empty capacity i);
  room = omega (arith, taken-no_slots capacity);
  small = small;
}
