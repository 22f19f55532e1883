-- ===== src/Intern/Start.antt =====
-- The table that `sp_intern_init_ex` of source/core/intern/intern.c makes.
use mathlib.Core.Path.{subst}
use mathlib.Core.Option.{some-injective}
use spn.Base.{ℕ, zero, suc, [], ◌∷◌, ◌≡◌, inl, inr, refl, sym, ◌∙◌, get_elem?, some, arith}
use spn.Base.Texts.{Bytes}
use spn.Intern.{Slot, Intern, fresh, entry_of, intern_init}
use spn.Intern.Filled.{no_slots-empty, taken-no_slots, fresh-IsFilled, index_insert-Inserts}
use spn.Intern.Valid.{IsValid}

only_text : (i : ℕ) (s : Bytes) → get_elem? ([] ∷ []) i ≡ some s → (i ≡ 0) × (s ≡ [])
only_text zero s h = (refl, sym (some-injective [] s h))
only_text (suc i) s h = cc

-- The new table is valid, has sixteen slots, and stands for the empty text alone.
pub intern_init-IsValid :
    (hash : Bytes → ℕ)
    → (t : Intern) × (intern_init hash ≡ some t)
      × IsValid hash t
      × (t.index.capacity ≡ 16)
      × (t.by_id ≡ [] ∷ [])
unfolding intern_init
intern_init-IsValid hash =
    let empty = taken-no_slots 16 in
    let (index, e, ins) =
      index_insert-Inserts (fresh 16) (entry_of hash 0 [])
        (fresh-IsFilled 16 (omega arith) (omega arith)) (omega (arith, empty)) in
    (
      record { index = index; by_id = [] ∷ []; next_id = 1 },
      rw (e, intern_init),
      record {
        filled = ins.filled;
        roomy = record {
          quarter = omega (arith, ins.more, ins.kept, empty);
          least = omega (arith, ins.kept);
        };
        stored = λ v h. elim ((ins.holds v).0 h) [
          | inl (i, at_i) ↦ cc (no_slots-empty 16 i)
          | inr same ↦
              subst
                (λ (x : Slot).
                  (get_elem? {A = Bytes} ([] ∷ []) x.id ≡ some x.text)
                  × (x ≡ entry_of hash x.id x.text))
                (sym same) (refl, refl)
        ];
        found = λ i s h.
            let (at, text) = only_text i s h in
            (ins.holds (entry_of hash i s)).1 (inr (λ k. entry_of hash (at k) (text k)));
        apart = λ i j s h k. (only_text i s h).0 ∙ sym (only_text j s k).0;
        numbered = omega (arith, ins.more, empty);
        next = refl;
        first = refl;
      },
      ins.kept,
      refl,
    )
