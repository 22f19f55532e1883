-- ===== src/Dag/OutputLaw.antt =====
-- What `spn_dag_action_add_output` of source/core/dag/dag.c should do to a graph, and the loop that looks
-- for an output's name.
use spn.Base.{
  ℕ, zero, suc, ◌/◌, ◌%◌, ◌^◌, ◌≡◌, ◌≢◌, ◌↔◌, ◌⊎◌, inl, inr, refl, ◌∙◌, true, false, List, [], ◌∷◌,
  Option, none, some, In, get_elem?, set, arith, Bool-cases,
}
use spn.Base.Texts.{Bytes, is_empty, text_eq, text_eq_iff, has_byte}
use spn.Paths.{FilePath, root_none, path_empty}
use spn.Dag.{Artifact, Dag, DagError, name_taken, is_pinned, named}
use spn.Base.Fields.{field_at, field_at-eq}
use spn.Dag.Links.{producer_of, name_of, produces_of, IsLinked}

pub is_empty_iff : (s : Bytes) → (is_empty s ≡ true) ↔ (s ≡ [])
is_empty_iff [] = ground arith
is_empty_iff (c ∷ s) = ground arith

-- There is no path, or the bit of its root is not among those of the pinned roots.
abbrev pub IsOpen : ℕ → FilePath → Type 0
IsOpen pinned path =
    ((path.root ≡ root_none) × (path.sub ≡ [])) ⊎ ((pinned / 2 ^ path.root) % 2 ≢ 1)

pub is_pinned_iff :
    (pinned : ℕ) (path : FilePath) → (is_pinned pinned path ≡ false) ↔ IsOpen pinned path
unfolding is_pinned path_empty
is_pinned_iff pinned path = ground (arith, is_empty_iff path.sub)

-- What a call should do to a graph: `r` is the new graph and the error.
pub record OutputLaw (g : Dag) (a j : ℕ) (artifact : Artifact) (name : Bytes)
    (r : Dag × Option DagError) : Type 0 where
  -- The links of the new graph agree, whatever happened.
  pub keeps : IsLinked r.0
  -- There is no error exactly if no action makes the artifact, it lies in no pinned root, and its
  -- name is a file name that no output of the action has.
  pub succeeds : (r.1 ≡ none) ↔ (
      (artifact.producer ≡ none)
      × IsOpen g.pinned artifact.path
      × (name ≢ [])
      × (has_byte b'/' name ≡ false)
      × ((i : ℕ) → In i (produces_of g a) → name_of g i ≢ name))
  -- Without an error the action makes the artifact.
  pub makes : r.1 ≡ none → producer_of r.0 j ≡ some a
  -- With one, every artifact is made by what made it before.
  pub fails : (error : DagError) → r.1 ≡ some error → (i : ℕ) → producer_of r.0 i ≡ producer_of g i

pub get_elem?-set {ℓ} :
    {A : Type ℓ} (xs : List A) (j : ℕ) (old v : A)
    → get_elem? xs j ≡ some old
    → get_elem? (set xs j v) j ≡ some v
get_elem?-set [] j old v h = cc
get_elem?-set (x ∷ xs) zero old v h = refl
get_elem?-set (x ∷ xs) (suc j) old v h = get_elem?-set xs j old v h

-- The loop ends with an answer where the outputs are there, and finds the one that has the name.
pub name_taken-cases :
    (artifacts : List Artifact) (produces : List ℕ) (name : Bytes)
    → ((i : ℕ) → In i produces → (x : Artifact) × (get_elem? artifacts i ≡ some x))
    → ((name_taken artifacts produces name ≡ some true)
        × (i : ℕ) × In i produces
        × (field_at (λ (x : Artifact). x.name) [] artifacts i ≡ name))
      ⊎ (name_taken artifacts produces name ≡ some false)
unfolding name_taken
name_taken-cases artifacts [] name there = inr refl
name_taken-cases artifacts (id ∷ produces) name there =
    let (other, e) = there id (inl refl) in
    elim (Bool-cases (text_eq other.name name)) [
      | inl same ↦ inl (
        rw (e, name_taken, same),
        id,
        inl refl,
        field_at-eq (λ (x : Artifact). x.name) [] artifacts id other e
            ∙ (text_eq_iff other.name name).0 same,
      )
      | inr differs ↦ elim (name_taken-cases artifacts produces name (λ i m. there i (inr m))) [
        | inl (taken, i, m, named) ↦ inl (rw (e, name_taken, differs) taken, i, inr m, named)
        | inr free ↦ inr (rw (e, name_taken, differs) free)
      ]
    ]

-- The conditions under which the call links.
abbrev pub Free : Dag → ℕ → Artifact → Bytes → Type 0
Free g a artifact name =
    (artifact.producer ≡ none)
    × IsOpen g.pinned artifact.path
    × (name ≢ [])
    × (has_byte b'/' name ≡ false)
    × ((i : ℕ) → In i (produces_of g a) → name_of g i ≢ name)

pub error_law :
    (g g' : Dag) (a j : ℕ) (artifact : Artifact) (name : Bytes) (error : DagError)
    → IsLinked g'
    → ((i : ℕ) → producer_of g' i ≡ producer_of g i)
    → ¬ Free g a artifact name
    → OutputLaw g a j artifact name (g', some error)
error_law g g' a j artifact name error l same barred = record {
  keeps = l;
  succeeds = (λ h. cc, λ free. absurd (barred free));
  makes = λ h. cc;
  fails = λ e h. same;
}
