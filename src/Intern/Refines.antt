-- ===== src/Intern/Refines.antt =====
-- `sp_intern_get_or_insert` of source/core/intern/intern.c implements interning in a list of texts.
use mathlib.Core.Path.{subst}
use spn.Base.{
  ℕ, ◌+◌, ◌%◌, ◌^◌, ◌≤◌, ◌<◌, false, List, [], ◌∷◌, ◌++◌, ◌≡◌, ◌≢◌, ◌⊎◌, inl, inr, refl, sym, ap,
  ◌∙◌, length, length-append, get_elem?, Option, none, some, arith, Bool-cases, u32,
}
use spn.Base.Texts.{Bytes, is_empty}
use spn.Intern.{
  Slot, Index, Intern, slot_at, entry_of, matches, index_find, get_or_insert, intern_get,
  str_from_id,
}
use spn.Intern.Filled.{finds_room, home_lt}
use spn.Intern.Grow.{Puts, index_put-Puts}
use spn.Intern.Probe.{RunTo, find_from-absent, find_from-present}
use spn.Intern.Valid.{
  IsValid, position, intern_text, position-cases, get_elem?-push, get_elem?-push_last,
  get_elem?-push_inv, matches-text, matches-entry_of, intern_text-old, intern_text-new,
  get_elem?-intern_text,
}

-- The call's result, in the table and in the list that it stands for.
pub record Refines (hash : Bytes → ℕ) (t : Intern) (s : Bytes) (r : Intern × ℕ) : Type 0 where
  pub valid : IsValid hash r.0
  pub texts : r.0.by_id ≡ (intern_text t.by_id s).0
  pub id : r.1 ≡ (intern_text t.by_id s).1

module _ (hash : Bytes → ℕ) (t : Intern) (v : IsValid hash t) (s : Bytes) where
  -- A text that is there is found, with its id.
  present :
      (p : ℕ)
      → length s < 2 ^ 32
      → get_elem? t.by_id p ≡ some s
      → (j : ℕ) × (e : Slot) × (index_find t.index s (hash s) ≡ some j)
        × (slot_at t.index.slots j ≡ some e)
        × (e.id ≡ p)
  unfolding index_find
  present p short there =
      let (i, at_i) = v.found p s there in
      let (k, k_lt, run) = v.filled.placed i (entry_of hash p s) at_i in
      let (j, e, found, at_j, same) =
        find_from-present t.index s (hash s) t.index.capacity (hash s % t.index.capacity) k i
          (entry_of hash p s) k_lt run at_i (matches-entry_of hash p s short) in
      let text = matches-text e s (hash s) same in
      (j, e, found, at_j, v.apart e.id p s ((v.stored e (j, at_j)).0 ∙ ap some text) there)

  -- A text that is not there leads to an empty slot on the way from its home.
  absent :
      ((i : ℕ) → get_elem? t.by_id i ≢ some s)
      → (k : ℕ) × (i : ℕ) × (k < t.index.capacity)
        × (i < t.index.capacity)
        × RunTo t.index.slots t.index.capacity (hash s % t.index.capacity) k i
        × (slot_at t.index.slots i ≡ none)
        × (index_find t.index s (hash s) ≡ some i)
  unfolding index_find
  absent nowhere =
      let (k, i, k_lt, i_lt, run, free) =
        finds_room t.index (hash s % t.index.capacity) v.filled
          (home_lt t.index (hash s) v.filled) in
      (
        k,
        i,
        k_lt,
        i_lt,
        run,
        free,
        find_from-absent t.index s (hash s) t.index.capacity (hash s % t.index.capacity) k i
            (λ j e at_j. apart_from j e at_j nowhere) k_lt run free,
      )
    where
      apart_from :
          (j : ℕ) (e : Slot)
          → slot_at t.index.slots j ≡ some e
          → ((i : ℕ) → get_elem? t.by_id i ≢ some s)
          → matches e s (hash s) ≡ false
      apart_from j e at_j nowhere = elim (Bool-cases (matches e s (hash s))) [
        | inr differs ↦ differs
        | inl same ↦
            absurd
              (nowhere e.id ((v.stored e (j, at_j)).0 ∙ ap some (matches-text e s (hash s) same)))
      ]

  -- With the new entry in the slots and the new text at the end, the table is valid again.
  pushed-IsValid :
      (index : Index)
      → Puts t.index index (entry_of hash t.next_id s)
      → ((i : ℕ) → get_elem? t.by_id i ≢ some s)
      → t.index.capacity ≤ 2 ^ 29
      → IsValid hash
          (record { index = index; by_id = t.by_id ++ s ∷ []; next_id = u32 (t.next_id + 1) })
  pushed-IsValid index puts nowhere small = record {
    filled = puts.filled;
    roomy = puts.roomy;
    stored = λ e h. elim ((puts.holds e).0 h) [
      | inl old ↦ let (at, is) = v.stored e old in (get_elem?-push t.by_id e.id s e.text at, is)
      | inr new ↦
          subst
            (λ (x : Slot).
              (get_elem? (t.by_id ++ s ∷ []) x.id ≡ some x.text) × (x ≡ entry_of hash x.id x.text))
            (sym new)
            (
              ap (λ (i : ℕ). get_elem? (t.by_id ++ s ∷ []) i) v.next
                  ∙ get_elem?-push_last t.by_id s,
              refl,
            )
    ];
    found = λ i x h. elim (get_elem?-push_inv t.by_id i s x h) [
      | inl old ↦ (puts.holds (entry_of hash i x)).1 (inl (v.found i x old))
      | inr (e, same) ↦
          (puts.holds (entry_of hash i x)).1 (inr (ap_entry i x (e ∙ sym v.next) same))
    ];
    apart = λ i j x h k.
        both_ends i j x (get_elem?-push_inv t.by_id i s x h) (get_elem?-push_inv t.by_id j s x k)
          nowhere;
    numbered = omega (arith, puts.more, v.numbered, length-append {0} t.by_id (s ∷ []));
    next =
        omega (arith, v.next, v.numbered, v.filled.room, small, length-append {0} t.by_id (s ∷ []));
    first = get_elem?-push t.by_id 0 s [] v.first;
  }
    where
      ap_entry :
          (i : ℕ) (x : Bytes)
          → i ≡ t.next_id
          → x ≡ s
          → entry_of hash i x ≡ entry_of hash t.next_id s
      ap_entry i x e same = λ k. entry_of hash (e k) (same k)

      both_ends :
          (i j : ℕ) (x : Bytes)
          → (get_elem? t.by_id i ≡ some x) ⊎ ((i ≡ length t.by_id) × (x ≡ s))
          → (get_elem? t.by_id j ≡ some x) ⊎ ((j ≡ length t.by_id) × (x ≡ s))
          → ((k : ℕ) → get_elem? t.by_id k ≢ some s)
          → i ≡ j
      both_ends i j x (inl a) (inl b) nowhere = v.apart i j x a b
      both_ends i j x (inl a) (inr (e, same)) nowhere = absurd (nowhere i (a ∙ ap some same))
      both_ends i j x (inr (e, same)) (inl b) nowhere = absurd (nowhere j (b ∙ ap some same))
      both_ends i j x (inr (e, _)) (inr (f, _)) nowhere = e ∙ sym f

-- The empty text stands first.
empty-Refines : (hash : Bytes → ℕ) (t : Intern) → IsValid hash t → Refines hash t [] (t, 0)
empty-Refines hash t v = elim (position-cases [] t.by_id) [
  | inl (p, e, there) ↦ record {
    valid = v;
    texts = sym (ap (λ (x : List Bytes × ℕ). x.0) (intern_text-old t.by_id [] p e));
    id =
        v.apart 0 p [] v.first there
        ∙ sym (ap (λ (x : List Bytes × ℕ). x.1) (intern_text-old t.by_id [] p e));
  }
  | inr (e, nowhere) ↦ absurd (nowhere 0 v.first)
]

full-Refines :
    (hash : Bytes → ℕ) (t : Intern) (s : Bytes)
    → IsValid hash t
    → is_empty s ≡ false
    → length s < 2 ^ 32
    → t.index.capacity ≤ 2 ^ 29
    → (r : Intern × ℕ) × (get_or_insert hash t s ≡ some r) × Refines hash t s r
unfolding get_or_insert
full-Refines hash t s v full short small = elim (position-cases s t.by_id) [
  | inl (p, e, there) ↦
      let (j, entry, found, at_j, id) = present hash t v s p short there in
      (
        (t, entry.id),
        rw (full, get_or_insert, found, at_j),
        record {
          valid = v;
          texts = sym (ap (λ (x : List Bytes × ℕ). x.0) (intern_text-old t.by_id s p e));
          id = id ∙ sym (ap (λ (x : List Bytes × ℕ). x.1) (intern_text-old t.by_id s p e));
        },
      )
  | inr (e, nowhere) ↦
      let (k, i, k_lt, i_lt, run, free, found) = absent hash t v s nowhere in
      let (index, put, puts) =
        index_put-Puts t.index (entry_of hash t.next_id s) k i v.filled v.roomy small i_lt k_lt run
          free in
      (
        (
          record { index = index; by_id = t.by_id ++ s ∷ []; next_id = u32 (t.next_id + 1) },
          t.next_id,
        ),
        rw (full, get_or_insert, found, free, put),
        record {
          valid = pushed-IsValid hash t v s index puts nowhere small;
          texts = sym (ap (λ (x : List Bytes × ℕ). x.0) (intern_text-new t.by_id s e));
          id = v.next ∙ sym (ap (λ (x : List Bytes × ℕ). x.1) (intern_text-new t.by_id s e));
        },
      )
]

-- On a valid table of at most 2 ^ 29 slots, and for a text shorter than 2 ^ 32 bytes, the call comes to
-- an end; the table is valid afterwards, the list of texts that it stands for is the one that interning
-- gives, and so is the id: the place of a text that was there, or else the first free one.
pub get_or_insert-Refines :
    (hash : Bytes → ℕ) (t : Intern) (s : Bytes)
    → IsValid hash t
    → length s < 2 ^ 32
    → t.index.capacity ≤ 2 ^ 29
    → (r : Intern × ℕ) × (get_or_insert hash t s ≡ some r) × Refines hash t s r
unfolding get_or_insert
get_or_insert-Refines hash t [] v short small = ((t, 0), refl, empty-Refines hash t v)
get_or_insert-Refines hash t (c ∷ s) v short small = full-Refines hash t (c ∷ s) v refl short small

str_from_id-eq :
    (t : Intern) (id : ℕ) (s : Bytes) → get_elem? t.by_id id ≡ some s → str_from_id t id ≡ s
unfolding str_from_id
str_from_id-eq t id s e = rw (e, str_from_id)

-- On a valid table of at most 2 ^ 29 slots, and for a text shorter than 2 ^ 32 bytes, the call comes to
-- an end, and the text of the id that it gives is the text that it was called with.
pub str_from_id-get_or_insert :
    (hash : Bytes → ℕ) (t : Intern) (s : Bytes)
    → IsValid hash t
    → length s < 2 ^ 32
    → t.index.capacity ≤ 2 ^ 29
    → (r : Intern × ℕ) × (get_or_insert hash t s ≡ some r) × (str_from_id r.0 r.1 ≡ s)
str_from_id-get_or_insert hash t s v short small =
    let (r, e, refines) = get_or_insert-Refines hash t s v short small in
    (
      r,
      e,
      str_from_id-eq r.0 r.1 s
          ((λ i. get_elem? (refines.texts i) (refines.id i)) ∙ get_elem?-intern_text t.by_id s),
    )

abbrev pub place_or_zero : Option ℕ → ℕ
place_or_zero none = 0
place_or_zero (some i) = i

-- On a valid table, looking a text of less than 2 ^ 32 bytes up comes to an end, with the place of the
-- text in the list that the table stands for, or 0 if it is not there.
pub intern_get_lem :
    (hash : Bytes → ℕ) (t : Intern) (s : Bytes)
    → IsValid hash t
    → length s < 2 ^ 32
    → intern_get hash t s ≡ some (place_or_zero (position s t.by_id))
unfolding intern_get
intern_get_lem hash t [] v short = elim (position-cases [] t.by_id) [
  | inl (p, e, there) ↦
      ap some (v.apart 0 p [] v.first there) ∙ ap (λ o. some (place_or_zero o)) (sym e)
  | inr (e, nowhere) ↦ absurd (nowhere 0 v.first)
]
intern_get_lem hash t (c ∷ s) v short = elim (position-cases (c ∷ s) t.by_id) [
  | inl (p, e, there) ↦
      let (j, entry, found, at_j, id) = present hash t v (c ∷ s) p short there in
      rw (e, intern_get, found, at_j) (ap some id)
  | inr (e, nowhere) ↦
      let (k, i, k_lt, i_lt, run, free, found) = absent hash t v (c ∷ s) nowhere in
      rw (e, intern_get, found, free) refl
]
