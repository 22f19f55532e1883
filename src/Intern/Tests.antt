-- ===== src/Intern/Tests.antt =====
-- Texts interned in a new table, with a hash that puts them all into one slot.
use spn.Base.{ℕ, ◌≡◌, refl, List, [], ◌∷◌, none, some, Option, arith}
use spn.Base.Texts.{Bytes}
use spn.Intern.{Intern, intern_init, get_or_insert, intern_get, str_from_id}
use spn.Intern.Refines.{
  Refines, place_or_zero, intern_get_lem, get_or_insert-Refines, str_from_id-get_or_insert,
}
use spn.Intern.Start.{intern_init-IsValid}
use spn.Intern.Valid.{position}

abbrev one_slot : Bytes → ℕ
one_slot s = 15

abbrev new : Intern
new = (intern_init-IsValid one_slot).0

abbrev spn_text : Bytes
spn_text = b's' ∷ b'p' ∷ b'n' ∷ []

-- The ids of some texts, interned one after the other.
abbrev ids : Option Intern → List Bytes → List ℕ
ids none texts = []
ids (some t) [] = []
ids (some t) (s ∷ texts) = elim (get_or_insert one_slot t s) [
  | none ↦ []
  | some (t', id) ↦ id ∷ ids (some t') texts
]

-- The second text is probed for around the end of the slots.
ids_collide :
    ids (intern_init one_slot) (spn_text ∷ (b's' ∷ []) ∷ spn_text ∷ [] ∷ []) ≡ 1 ∷ 2 ∷ 1 ∷ 0 ∷ []
unfolding intern_init get_or_insert spn.Intern.index_insert spn.Intern.empty_from
    spn.Intern.write_slot spn.Intern.index_find spn.Intern.find_from spn.Intern.matches
    spn.Intern.index_put spn.Intern.no_slots spn.Base.Fields.field_at spn.Base.Texts.text_eq
ids_collide = refl

intern_get_lem_example :
    intern_get one_slot new spn_text ≡ some (place_or_zero (position spn_text new.by_id))
intern_get_lem_example =
    intern_get_lem one_slot new spn_text (intern_init-IsValid one_slot).2 (omega arith)

get_or_insert-Refines_example :
    (r : Intern × ℕ) × (get_or_insert one_slot new spn_text ≡ some r)
    × Refines one_slot new spn_text r
get_or_insert-Refines_example =
    get_or_insert-Refines one_slot new spn_text (intern_init-IsValid one_slot).2 (omega arith)
      (omega (arith, (intern_init-IsValid one_slot).3))

str_from_id-get_or_insert_example :
    (r : Intern × ℕ) × (get_or_insert one_slot new spn_text ≡ some r)
    × (str_from_id r.0 r.1 ≡ spn_text)
str_from_id-get_or_insert_example =
    str_from_id-get_or_insert one_slot new spn_text (intern_init-IsValid one_slot).2 (omega arith)
      (omega (arith, (intern_init-IsValid one_slot).3))
