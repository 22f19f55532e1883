-- ===== src/Intern/Valid.antt =====
-- The invariant of the table of source/core/intern/intern.c, and the list of texts that it stands for.
use mathlib.Core.Option.{some-injective}
use spn.Base.{
  ℕ, zero, suc, ◌^◌, ◌<◌, true, false, List, [], ◌∷◌, ◌++◌, ◌≡◌, ◌≢◌, ◌⊎◌, inl, inr, refl, sym, ap,
  length, get_elem?, Option, none, some, arith, if◌then◌else◌, Bool-cases, u32,
}
use spn.Base.Texts.{Bytes, text_eq, text_eq_iff}
use spn.Intern.{Slot, Intern, entry_of, matches}
use spn.Intern.Filled.{taken, Holds, IsFilled}
use spn.Intern.Grow.{IsRoomy}

pub record IsValid (hash : Bytes → ℕ) (t : Intern) : Type 0 where
  pub filled : IsFilled t.index
  pub roomy : IsRoomy t.index
  -- Each entry is that of the text of its id, and each text has its entry.
  pub stored :
      (e : Slot)
      → Holds t.index.slots e
      → (get_elem? t.by_id e.id ≡ some e.text) × (e ≡ entry_of hash e.id e.text)
  pub found :
      (i : ℕ) (s : Bytes) → get_elem? t.by_id i ≡ some s → Holds t.index.slots (entry_of hash i s)
  pub apart :
      (i j : ℕ) (s : Bytes) → get_elem? t.by_id i ≡ some s → get_elem? t.by_id j ≡ some s → i ≡ j
  pub numbered : taken t.index.slots ≡ length t.by_id
  pub next : t.next_id ≡ length t.by_id
  pub first : get_elem? t.by_id 0 ≡ some []

-- Where a text stands in a list of texts.
unfoldable pub position : Bytes → List Bytes → Option ℕ
position s [] = none
position s (t ∷ texts) =
    if text_eq t s then some 0 else elim (position s texts) [ none ↦ none | some i ↦ some (suc i) ]

-- What interning means: a text that is there keeps its place, and a new one is put at the end.
unfoldable pub intern_text : List Bytes → Bytes → List Bytes × ℕ
unfolding position
intern_text texts s = elim (position s texts) [
  | some i ↦ (texts, i)
  | none ↦ (texts ++ s ∷ [], length texts)
]

pub position-cases :
    (s : Bytes) (texts : List Bytes)
    → ((i : ℕ) × (position s texts ≡ some i) × (get_elem? texts i ≡ some s))
      ⊎ ((position s texts ≡ none) × ((i : ℕ) → get_elem? texts i ≢ some s))
unfolding position
position-cases s [] = inr (refl, λ i h. cc)
position-cases s (t ∷ texts) = elim (Bool-cases (text_eq t s)) [
  | inl same ↦ inl (0, rw same, ap some ((text_eq_iff t s).0 same))
  | inr differs ↦ elim (position-cases s texts) [
    | inl (i, e, there) ↦ inl (suc i, rw (differs, position, e), there)
    | inr (e, absent) ↦ inr (rw (differs, position, e), λ i h. nowhere i h differs absent)
  ]
]
  where
    nowhere :
        (i : ℕ)
        → get_elem? (t ∷ texts) i ≡ some s
        → text_eq t s ≡ false
        → ((j : ℕ) → get_elem? texts j ≢ some s)
        → ⊥
    nowhere zero h differs absent = cc ((text_eq_iff t s).1 (some-injective t s h))
    nowhere (suc i) h differs absent = absent i h

module _ {ℓ} {A : Type ℓ} where
  pub get_elem?-push :
      (xs : List A) (i : ℕ) (v x : A)
      → get_elem? xs i ≡ some x
      → get_elem? (xs ++ v ∷ []) i ≡ some x
  get_elem?-push [] i v x h = cc
  get_elem?-push (y ∷ xs) zero v x h = h
  get_elem?-push (y ∷ xs) (suc i) v x h = get_elem?-push xs i v x h

  pub get_elem?-push_last : (xs : List A) (v : A) → get_elem? (xs ++ v ∷ []) (length xs) ≡ some v
  get_elem?-push_last [] v = refl
  get_elem?-push_last (y ∷ xs) v = get_elem?-push_last xs v

  pub get_elem?-push_inv :
      (xs : List A) (i : ℕ) (v x : A)
      → get_elem? (xs ++ v ∷ []) i ≡ some x
      → (get_elem? xs i ≡ some x) ⊎ ((i ≡ length xs) × (x ≡ v))
  get_elem?-push_inv [] zero v x h = inr (refl, sym (some-injective v x h))
  get_elem?-push_inv [] (suc i) v x h = cc
  get_elem?-push_inv (y ∷ xs) zero v x h = inl h
  get_elem?-push_inv (y ∷ xs) (suc i) v x h = elim (get_elem?-push_inv xs i v x h) [
    | inl old ↦ inl old
    | inr (e, same) ↦ inr (omega (arith, e), same)
  ]

-- An entry that matches a text has that text, and a text's own entry matches it.
pub matches-text : (e : Slot) (s : Bytes) (h : ℕ) → matches e s h ≡ true → e.text ≡ s
unfolding matches
matches-text e s h m = ground (arith, text_eq_iff e.text s)

pub matches-entry_of :
    (hash : Bytes → ℕ) (i : ℕ) (s : Bytes)
    → length s < 2 ^ 32
    → matches (entry_of hash i s) s (hash s) ≡ true
unfolding matches
matches-entry_of hash i s short =
    let len : u32 (length s) ≡ length s = omega arith in ground (arith, len, text_eq_iff s s)

pub intern_text-old :
    (texts : List Bytes) (s : Bytes) (i : ℕ)
    → position s texts ≡ some i
    → intern_text texts s ≡ (texts, i)
unfolding intern_text
intern_text-old texts s i e = rw (e, intern_text)

pub intern_text-new :
    (texts : List Bytes) (s : Bytes)
    → position s texts ≡ none
    → intern_text texts s ≡ (texts ++ s ∷ [], length texts)
unfolding intern_text
intern_text-new texts s e = rw (e, intern_text)

-- In the list that interning gives, the text stands at the id.
pub get_elem?-intern_text :
    (texts : List Bytes) (s : Bytes)
    → get_elem? (intern_text texts s).0 (intern_text texts s).1 ≡ some s
get_elem?-intern_text texts s = elim (position-cases s texts) [
  | inl (i, e, there) ↦ rw (intern_text-old texts s i e) there
  | inr (e, _) ↦ rw (intern_text-new texts s e) (get_elem?-push_last texts s)
]
