-- ===== src/Resolve/Table.antt =====
-- Hash tables and sets keyed by an intern id, as lists in the order of insertion.
use mathlib.Core.Path.{ap₂, subst}
use spn.Base.{
  ℕ, ◌≡◌, refl, sym, append_assoc, Bool, true, false, List, [], ◌∷◌, ◌++◌, Option, none, some,
  arith, ◌==◌, if◌then◌else◌, append-nil, ◌∙◌, All,
}

unfoldable pub contains : List ℕ → ℕ → Bool
contains [] k = false
contains (j ∷ s) k = if j == k then true else contains s k

-- `sp_ht_erase` of a set.
unfoldable pub erase : List ℕ → ℕ → List ℕ
erase [] k = []
erase (j ∷ s) k = if j == k then erase s k else j ∷ erase s k

pub erase_absent : (s : List ℕ) (k : ℕ) → contains s k ≡ false → erase s k ≡ s
unfolding contains erase
erase_absent [] k h = refl
erase_absent (j ∷ s) k h = ground (arith, erase_absent s k)

pub erase-cons_self : (s : List ℕ) (k : ℕ) → contains s k ≡ false → erase (k ∷ s) k ≡ s
unfolding erase
erase-cons_self s k h = ground (arith, erase_absent s k)

module _ {ℓ} {V : Type ℓ} where
  unfoldable pub find : ℕ → List (ℕ × V) → Option V
  find k [] = none
  find k ((j, v) ∷ m) = if j == k then some v else find k m

  -- `sp_ht_insert`: a new key is added, an old one overwritten.
  unfoldable pub put : ℕ → V → List (ℕ × V) → List (ℕ × V)
  put k v [] = (k, v) ∷ []
  put k v ((j, w) ∷ m) = if j == k then (k, v) ∷ m else (j, w) ∷ put k v m

  unfoldable pub keys : List (ℕ × V) → List ℕ
  keys [] = []
  keys ((k, v) ∷ m) = k ∷ keys m

  -- Erase every key that is not on the list.
  unfoldable pub keep_keys : List ℕ → List (ℕ × V) → List (ℕ × V)
  keep_keys s [] = []
  keep_keys s ((k, v) ∷ m) = if contains s k then (k, v) ∷ keep_keys s m else keep_keys s m

  pub put_absent :
      (k : ℕ) (v : V) (m : List (ℕ × V)) → find k m ≡ none → put k v m ≡ m ++ (k, v) ∷ []
  unfolding find put
  put_absent k v [] h = refl
  put_absent k v ((j, w) ∷ m) h = ground (arith, put_absent k v m)

  pub find-append :
      (k : ℕ) (m x : List (ℕ × V)) (v : V) → find k m ≡ some v → find k (m ++ x) ≡ some v
  unfolding find
  find-append k [] x v h = cc
  find-append k ((j, w) ∷ m) x v h = ground (arith, find-append k m x v)

  pub find-append_absent :
      (k : ℕ) (m x : List (ℕ × V)) → find k m ≡ none → find k (m ++ x) ≡ find k x
  unfolding find
  find-append_absent k [] x h = refl
  find-append_absent k ((j, w) ∷ m) x h = ground (arith, find-append_absent k m x)

  pub contains-keys : (k : ℕ) (m : List (ℕ × V)) → find k m ≡ none → contains (keys m) k ≡ false
  unfolding find contains keys
  contains-keys k [] h = refl
  contains-keys k ((j, v) ∷ m) h = ground (arith, contains-keys k m)

  -- The added entries have new keys.
  abbrev pub New : List (ℕ × V) → List (ℕ × V) → Type ℓ
  New m x = All (λ e. find e.0 m ≡ none) x

  pub find-append_none : (k : ℕ) (m x : List (ℕ × V)) → find k (m ++ x) ≡ none → find k m ≡ none
  unfolding find
  find-append_none k [] x h = refl
  find-append_none k ((j, w) ∷ m) x h = ground (arith, find-append_none k m x)

  -- Each entry that is added has a key that is new when it is added.
  abbrev pub Fresh : List (ℕ × V) → List (ℕ × V) → Type ℓ
  Fresh m [] = Unit
  Fresh m (e ∷ x) = (find e.0 m ≡ none) × Fresh (m ++ e ∷ []) x

  New-append_left : (m y x : List (ℕ × V)) → New (m ++ y) x → New m x
  New-append_left m y [] h = tt
  New-append_left m y (e ∷ x) h = (find-append_none e.0 m y h.0, New-append_left m y x h.1)

  pub Fresh-New : (m x : List (ℕ × V)) → Fresh m x → New m x
  Fresh-New m [] h = tt
  Fresh-New m (e ∷ x) h = (h.0, New-append_left m (e ∷ []) x (Fresh-New (m ++ e ∷ []) x h.1))

  pub Fresh-append : (m x y : List (ℕ × V)) → Fresh m x → Fresh (m ++ x) y → Fresh m (x ++ y)
  Fresh-append m [] y h k = subst (λ l. Fresh l y) (append-nil m) k
  Fresh-append m (e ∷ x) y h k = (
    h.0,
    Fresh-append (m ++ e ∷ []) x y h.1 (subst (λ l. Fresh l y) (sym (append_assoc m (e ∷ []) x)) k),
  )

  -- Insert entries one after the other.
  unfoldable pub put_all : List (ℕ × V) → List (ℕ × V) → List (ℕ × V)
  unfolding put
  put_all m [] = m
  put_all m ((k, v) ∷ x) = put_all (put k v m) x

  pub put_all-Fresh : (m x : List (ℕ × V)) → Fresh m x → put_all m x ≡ m ++ x
  unfolding put_all
  put_all-Fresh m [] h = sym (append-nil m)
  put_all-Fresh m ((k, v) ∷ x) h =
      rw (put_absent k v m h.0)
        (put_all-Fresh (m ++ (k, v) ∷ []) x h.1 ∙ append_assoc m ((k, v) ∷ []) x)

  -- The entries whose keys are not on the list.
  unfoldable pub drop_keys : List ℕ → List (ℕ × V) → List (ℕ × V)
  drop_keys s [] = []
  drop_keys s ((k, v) ∷ m) = if contains s k then drop_keys s m else (k, v) ∷ drop_keys s m

  keep_keys-append :
      (s : List ℕ) (m x : List (ℕ × V)) → keep_keys s (m ++ x) ≡ keep_keys s m ++ keep_keys s x
  unfolding keep_keys
  keep_keys-append s [] x = refl
  keep_keys-append s ((k, v) ∷ m) x = ground (arith, keep_keys-append s m x)

  keep_keys-New : (m x : List (ℕ × V)) → New m x → keep_keys (keys m) x ≡ []
  unfolding keep_keys
  keep_keys-New m [] h = refl
  keep_keys-New m ((k, v) ∷ x) h = ground (arith, contains-keys k m, keep_keys-New m x)

  -- All the keys of `m` are on the list.
  keep_keys_weaken :
      (s : List ℕ) (m : List (ℕ × V))
      → ((k : ℕ) → contains (keys m) k ≡ true → contains s k ≡ true)
      → keep_keys s m ≡ m
  unfolding keep_keys keys contains
  keep_keys_weaken s [] h = refl
  keep_keys_weaken s ((k, v) ∷ m) h =
      ground (arith, h k, keep_keys_weaken s m (λ j q. h j (ground arith)))

  drop_keys-append :
      (s : List ℕ) (m x : List (ℕ × V)) → drop_keys s (m ++ x) ≡ drop_keys s m ++ drop_keys s x
  unfolding drop_keys
  drop_keys-append s [] x = refl
  drop_keys-append s ((k, v) ∷ m) x = ground (arith, drop_keys-append s m x)

  drop_keys-New : (m x : List (ℕ × V)) → New m x → drop_keys (keys m) x ≡ x
  unfolding drop_keys
  drop_keys-New m [] h = refl
  drop_keys-New m ((k, v) ∷ x) h = ground (arith, contains-keys k m, drop_keys-New m x)

  drop_keys_all :
      (s : List ℕ) (m : List (ℕ × V))
      → ((k : ℕ) → contains (keys m) k ≡ true → contains s k ≡ true)
      → drop_keys s m ≡ []
  unfolding drop_keys keys contains
  drop_keys_all s [] h = refl
  drop_keys_all s ((k, v) ∷ m) h =
      ground (arith, h k, drop_keys_all s m (λ j q. h j (ground arith)))

  -- What was added is what the snapshot does not have.
  pub drop_keys_added : (m x : List (ℕ × V)) → New m x → drop_keys (keys m) (m ++ x) ≡ x
  drop_keys_added m x h =
      drop_keys-append (keys m) m x
      ∙ ap₂ ◌++◌ (drop_keys_all (keys m) m (λ k q. q)) (drop_keys-New m x h)

  -- Erasing the keys that were added gives the table back.
  pub keep_keys_undo : (m x : List (ℕ × V)) → New m x → keep_keys (keys m) (m ++ x) ≡ m
  keep_keys_undo m x h =
      keep_keys-append (keys m) m x
      ∙ ap₂ ◌++◌ (keep_keys_weaken (keys m) m (λ k q. q)) (keep_keys-New m x h)
      ∙ append-nil m

  pub find-put :
      (k j : ℕ) (v : V) (m : List (ℕ × V))
      → find j (put k v m) ≡ (if k == j then some v else find j m)
  unfolding find put
  find-put k j v [] = refl
  find-put k j v ((i, w) ∷ m) = ground (arith, find-put k j v m)

  pub find-put_self : (k : ℕ) (v : V) (m : List (ℕ × V)) → find k (put k v m) ≡ some v
  find-put_self k v m = ground (arith, find-put k k v m)
