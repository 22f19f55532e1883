-- ===== src/Intern/Grow.antt =====
-- The table of source/core/intern/intern.c grows without losing an entry.
use mathlib.Core.Option.{some-injective}
use spn.Base.{
  ℕ, zero, suc, ◌+◌, ◌*◌, ◌^◌, ◌≤◌, ◌<◌, false, List, [], ◌∷◌, ◌≡◌, ◌↔◌, ◌⊎◌, inl, inr, refl, sym,
  ap, ◌∙◌, Option, none, some, arith, ◌%◌, ltb, Bool-cases, u32,
}
use spn.Base.Fields.{field_at}
use spn.Intern.{Slot, Index, slot_at, write_slot, reinsert, fresh, index_grow, index_put}
use spn.Intern.Filled.{
  taken, Holds, IsFilled, index_insert-Inserts, write_slot-IsFilled, no_slots-empty, fresh-IsFilled,
  taken-no_slots,
}
use spn.Intern.Probe.{RunTo}

-- What putting the entries of some slots into a table does.
record Reinserts (index : Index) (old : List (Option Slot)) (index' : Index) : Type 0 where
  filled : IsFilled index'
  kept : index'.capacity ≡ index.capacity
  holds : (e : Slot) → Holds index'.slots e ↔ (Holds index.slots e ⊎ Holds old e)
  more : taken index'.slots ≡ taken index.slots + taken old

Holds-nil : (e : Slot) → ¬ Holds [] e
unfolding field_at
Holds-nil e (i, h) = cc

Holds-none : (slots : List (Option Slot)) (e : Slot) → Holds (none ∷ slots) e ↔ Holds slots e
unfolding field_at
Holds-none slots e = (λ (i, h). below i h, λ (i, h). (suc i, h))
  where
    below : (i : ℕ) → slot_at (none ∷ slots) i ≡ some e → Holds slots e
    below zero h = cc
    below (suc i) h = (i, h)

Holds-some :
    (v : Slot) (slots : List (Option Slot)) (e : Slot)
    → Holds (some v ∷ slots) e ↔ ((e ≡ v) ⊎ Holds slots e)
unfolding field_at
Holds-some v slots e = (
  λ (i, h). below i h,
  λ m. elim m [ inl same ↦ (0, ap some (sym same)) | inr (i, h) ↦ (suc i, h) ],
)
  where
    below : (i : ℕ) → slot_at (some v ∷ slots) i ≡ some e → (e ≡ v) ⊎ Holds slots e
    below zero h = inl (sym (some-injective v e h))
    below (suc i) h = inr (i, h)

reinsert-Reinserts :
    (old : List (Option Slot)) (index : Index)
    → IsFilled index
    → taken index.slots + taken old < index.capacity
    → (index' : Index) × (reinsert old index ≡ some index') × Reinserts index old index'
unfolding reinsert taken
reinsert-Reinserts [] index f room = (
  index,
  refl,
  record {
    filled = f;
    kept = refl;
    holds = λ e. (λ h. inl h, λ m. elim m [ inl h ↦ h | inr h ↦ absurd (Holds-nil e h) ]);
    more = omega arith;
  },
)
reinsert-Reinserts (none ∷ old) index f room =
    let (index', e, r) = reinsert-Reinserts old index f room in
    (
      index',
      e,
      record {
        filled = r.filled;
        kept = r.kept;
        holds = λ v. ground (arith, r.holds v, Holds-none old v);
        more = r.more;
      },
    )
reinsert-Reinserts (some v ∷ old) index f room =
    let (one, e, i) = index_insert-Inserts index v f (omega arith) in
    let (all, e', r) = reinsert-Reinserts old one i.filled (omega (arith, i.more, i.kept)) in
    (
      all,
      rw (e, reinsert) e',
      record {
        filled = r.filled;
        kept = r.kept ∙ i.kept;
        holds = λ w. ground (arith, r.holds w, i.holds w, Holds-some v old w);
        more = omega (arith, r.more, i.more);
      },
    )

-- The grown table has twice the slots and the same entries.
record Grows (index index' : Index) : Type 0 where
  filled : IsFilled index'
  doubled : index'.capacity ≡ index.capacity * 2
  holds : (e : Slot) → Holds index'.slots e ↔ Holds index.slots e
  same : taken index'.slots ≡ taken index.slots

index_grow-doubled :
    (index : Index)
    → index.capacity ≤ 2 ^ 29
    → index_grow index ≡ reinsert index.slots (fresh (index.capacity * 2))
unfolding index_grow
index_grow-doubled index small = ap (λ (n : ℕ). reinsert index.slots (fresh n)) (omega arith)

index_grow-Grows :
    (index : Index)
    → IsFilled index
    → index.capacity ≤ 2 ^ 29
    → (index' : Index) × (index_grow index ≡ some index') × Grows index index'
index_grow-Grows index f small =
    let new = fresh-IsFilled (index.capacity * 2) (omega (arith, f.room)) (omega arith) in
    let (index', e, r) =
      reinsert-Reinserts index.slots (fresh (index.capacity * 2)) new
        (omega (arith, f.room, taken-no_slots (index.capacity * 2))) in
    (
      index',
      index_grow-doubled index small ∙ e,
      record {
        filled = r.filled;
        doubled = r.kept;
        holds = λ v. (
          λ h. elim ((r.holds v).0 h) [
            | inl (i, at_i) ↦ cc (no_slots-empty (index.capacity * 2) i)
            | inr old ↦ old
          ],
          λ h. (r.holds v).1 (inr h),
        );
        same = omega (arith, r.more, taken-no_slots (index.capacity * 2));
      },
    )

-- At most three slots in four are taken.
pub record IsRoomy (index : Index) : Type 0 where
  pub quarter : taken index.slots * 4 ≤ index.capacity * 3
  pub least : 16 ≤ index.capacity

-- What putting a new entry does, whether the table grows or not.
pub record Puts (index index' : Index) (v : Slot) : Type 0 where
  pub filled : IsFilled index'
  pub roomy : IsRoomy index'
  pub holds : (e : Slot) → Holds index'.slots e ↔ (Holds index.slots e ⊎ (e ≡ v))
  pub more : taken index'.slots ≡ suc (taken index.slots)

below_quarter :
    (index : Index)
    → IsFilled index
    → index.capacity ≤ 2 ^ 29
    → ltb (u32 (index.capacity * 3)) (u32 (u32 (index.count + 1) * 4)) ≡ false
    → (taken index.slots + 1) * 4 ≤ index.capacity * 3
below_quarter index f small fits =
    let counted = f.counted in
    let room = f.room in
    let left : u32 (index.capacity * 3) ≡ index.capacity * 3 = omega arith in
    let right : u32 (u32 (index.count + 1) * 4) ≡ (taken index.slots + 1) * 4 = omega arith in
    ground (arith, left, right)

pub index_put-Puts :
    (index : Index) (v : Slot) (k i : ℕ)
    → IsFilled index
    → IsRoomy index
    → index.capacity ≤ 2 ^ 29
    → i < index.capacity
    → k < index.capacity
    → RunTo index.slots index.capacity (v.hash % index.capacity) k i
    → slot_at index.slots i ≡ none
    → (index' : Index) × (index_put index v i ≡ some index') × Puts index index' v
unfolding index_put
index_put-Puts index v k i f r small i_lt k_lt run free =
    elim (Bool-cases (ltb (u32 (index.capacity * 3)) (u32 (u32 (index.count + 1) * 4)))) [
      | inl full ↦
          let (grown, e, g) = index_grow-Grows index f small in
          let (index', e', ins) =
            index_insert-Inserts grown v g.filled
              (omega (arith, g.same, g.doubled, f.room, r.least)) in
          (
            index',
            rw (full, index_put, e) e',
            record {
              filled = ins.filled;
              roomy = record {
                quarter = omega (arith, ins.more, ins.kept, g.same, g.doubled, r.quarter, r.least);
                least = omega (arith, ins.kept, g.doubled, r.least);
              };
              holds = λ w. ground (arith, ins.holds w, g.holds w);
              more = omega (arith, ins.more, g.same);
            },
          )
      | inr fits ↦
          let below : (taken index.slots + 1) * 4 ≤ index.capacity * 3 =
            below_quarter index f small fits in
          let (filled, holds, more) =
            write_slot-IsFilled index k i v f (omega (arith, r.least, below)) i_lt k_lt run free in
          (
            write_slot index i v,
            rw (fits, index_put),
            record {
              filled = filled;
              roomy = record {
                quarter = unfold write_slot in omega (arith, more, below);
                least = unfold write_slot in r.least;
              };
              holds = holds;
              more = more;
            },
          )
    ]
