-- ===== src/Intern.antt =====
-- source/core/intern/intern.c: the table that gives each text one id and one address. A call holds the
-- table's mutex from its first read to its last write, so calls follow one another. A capacity is a
-- power of two, and `& mask` is the remainder by it. Loops over the slots run on fuel: the capacity.
pub mod Probe
pub mod Filled
pub mod Valid
pub mod Grow
pub mod Refines
pub mod Start
mod Tests
use spn.Base.{
  ℕ, zero, suc, ◌+◌, ◌*◌, ◌%◌, Bool, true, false, ◌&&◌, List, [], ◌∷◌, ◌++◌, ◌==◌, ltb, length,
  get_elem?, set, if◌then◌else◌, Option, none, some, u32,
}
use spn.Base.Fields.{field_at}
use spn.Base.Texts.{Bytes, is_empty, text_eq}

-- `sp_intern_slot_t`, with the text in place of its address; a slot is empty where the address is null.
pub record Slot : Type 0 where
  pub hash : ℕ
  pub len : ℕ
  pub id : ℕ
  pub text : Bytes

pub record Index : Type 0 where
  pub slots : List (Option Slot)
  pub count : ℕ
  pub capacity : ℕ

pub record Intern : Type 0 where
  pub index : Index
  pub by_id : List Bytes
  pub next_id : ℕ

abbrev pub slot_at : List (Option Slot) → ℕ → Option Slot
slot_at slots i = field_at (λ s. s) none slots i

unfoldable pub matches : Slot → Bytes → ℕ → Bool
matches entry str hash = entry.hash == hash && (entry.len == length str && text_eq entry.text str)

-- The loop of `sp_intern_index_find`; `none` means that the fuel ran out.
unfoldable pub find_from : Index → Bytes → ℕ → ℕ → ℕ → Option ℕ
find_from index str hash zero slot = none
find_from index str hash (suc fuel) slot = elim (slot_at index.slots slot) [
  | none ↦ some slot
  | some entry ↦ elim (matches entry str hash) [
    | true ↦ some slot
    | false ↦ find_from index str hash fuel ((slot + 1) % index.capacity)
  ]
]

unfoldable pub index_find : Index → Bytes → ℕ → Option ℕ
index_find index str hash = find_from index str hash index.capacity (hash % index.capacity)

-- The loop of `sp_intern_index_insert`.
unfoldable pub empty_from : Index → ℕ → ℕ → Option ℕ
empty_from index zero slot = none
empty_from index (suc fuel) slot = elim (slot_at index.slots slot) [
  | none ↦ some slot
  | some entry ↦ empty_from index fuel ((slot + 1) % index.capacity)
]

unfoldable pub write_slot : Index → ℕ → Slot → Index
write_slot index slot entry = record index {
  slots = set index.slots slot (some entry);
  count = u32 (index.count + 1);
}

unfoldable pub index_insert : Index → Slot → Option Index
index_insert index entry = elim (empty_from index index.capacity (entry.hash % index.capacity)) [
  | none ↦ none
  | some slot ↦ some (write_slot index slot entry)
]

-- The loop of `sp_intern_index_grow` over the old slots.
unfoldable pub reinsert : List (Option Slot) → Index → Option Index
reinsert [] index = some index
reinsert (none ∷ slots) index = reinsert slots index
reinsert (some entry ∷ slots) index = elim (index_insert index entry) [
  | none ↦ none
  | some index' ↦ reinsert slots index'
]

unfoldable pub no_slots : ℕ → List (Option Slot)
no_slots zero = []
no_slots (suc n) = none ∷ no_slots n

abbrev pub fresh : ℕ → Index
fresh capacity = record { slots = no_slots capacity; count = 0; capacity = capacity }

unfoldable pub index_grow : Index → Option Index
index_grow index = reinsert index.slots (fresh (u32 (index.capacity * 2)))

unfoldable pub index_put : Index → Slot → ℕ → Option Index
index_put index entry slot =
    if ltb (u32 (index.capacity * 3)) (u32 (u32 (index.count + 1) * 4))
    then elim (index_grow index) [ none ↦ none | some grown ↦ index_insert grown entry ]
    else some (write_slot index slot entry)

-- The empty text has the invalid id, 0.
abbrev pub entry_of : (Bytes → ℕ) → ℕ → Bytes → Slot
entry_of hash id str = record { hash = hash str; len = u32 (length str); id = id; text = str }

unfoldable pub intern_init : (Bytes → ℕ) → Option Intern
intern_init hash = elim (index_insert (fresh 16) (entry_of hash 0 [])) [
  | none ↦ none
  | some index ↦ some (record { index = index; by_id = [] ∷ []; next_id = 1 })
]

-- The new table and the id; `none` means that a loop ran out of fuel.
unfoldable pub get_or_insert : (Bytes → ℕ) → Intern → Bytes → Option (Intern × ℕ)
get_or_insert hash intern str =
    if is_empty str then some (intern, 0) else elim (index_find intern.index str (hash str)) [
      | none ↦ none
      | some slot ↦ elim (slot_at intern.index.slots slot) [
        | some entry ↦ some (intern, entry.id)
        | none ↦ elim (index_put intern.index (entry_of hash intern.next_id str) slot) [
          | none ↦ none
          | some index ↦ some (
            record {
              index = index;
              by_id = intern.by_id ++ str ∷ [];
              next_id = u32 (intern.next_id + 1);
            },
            intern.next_id,
          )
        ]
      ]
    ]

-- `sp_intern_get`: an empty slot holds the id 0.
unfoldable pub intern_get : (Bytes → ℕ) → Intern → Bytes → Option ℕ
intern_get hash intern str =
    if is_empty str then some 0 else elim (index_find intern.index str (hash str)) [
      | none ↦ none
      | some slot ↦ elim (slot_at intern.index.slots slot) [
        | none ↦ some 0
        | some entry ↦ some entry.id
      ]
    ]

-- `sp_intern_str_from_id`: an id that was not given out has the empty text.
unfoldable pub str_from_id : Intern → ℕ → Bytes
str_from_id intern id = elim (get_elem? intern.by_id id) [ none ↦ [] | some str ↦ str ]
