-- ===== src/Dag/LinkOutput.antt =====
-- A link from an action to its output, made by source/core/dag/dag.c after its checks, keeps the links.
use spn.Base.{
  ℕ, ◌≡◌, ◌≢◌, ◌⊎◌, inl, inr, refl, sym, ap, ◌∙◌, false, List, [], ◌∷◌, ◌++◌, none, some, In,
  get_elem?, arith, Option-cases,
}
use spn.Base.Texts.{Bytes, is_empty, text_eq_iff, has_byte}
use spn.Dag.{Artifact, Action, Dag, link_output, name_taken}
use spn.Base.Fields.{field_at, field_at-eq, field_at-set, field_at-set_same, In-push}
use spn.Dag.Links.{consumers_of, name_of, produces_of, consumes_of, IsLinked}

-- A name that is not taken is no output's.
pub name_not_taken :
    (artifacts : List Artifact) (produces : List ℕ) (name : Bytes) (i : ℕ)
    → name_taken artifacts produces name ≡ some false
    → In i produces
    → field_at (λ (x : Artifact). x.name) [] artifacts i ≢ name
unfolding name_taken
name_not_taken artifacts [] name i h m = elim m [ ]
name_not_taken artifacts (id ∷ produces) name i h m = elim (Option-cases (get_elem? artifacts id)) [
  | inl gone ↦ cc (rw (gone, name_taken) at h)
  | inr (other, there) ↦
      let here = field_at-eq (λ (x : Artifact). x.name) [] artifacts id other there in
      ground (arith, text_eq_iff other.name name, name_not_taken artifacts produces name i)
]

module _ (g : Dag) (l : IsLinked g) (a j : ℕ) (action : Action) (artifact : Artifact)
    (at_a : get_elem? g.actions a ≡ some action) (at_j : get_elem? g.artifacts j ≡ some artifact)
    (unmade : artifact.producer ≡ none) (not_empty : is_empty artifact.name ≡ false)
    (no_slash : has_byte b'/' artifact.name ≡ false)
    (free : name_taken g.artifacts action.produces artifact.name ≡ some false) where
  not_nil : artifact.name ≢ []
  not_nil e = cc (ap is_empty e)

  -- No output of the action has the name yet.
  new_name : (i : ℕ) → In i (produces_of g a) → name_of g i ≢ artifact.name
  new_name i m =
      name_not_taken g.artifacts action.produces artifact.name i free
        (rw (field_at-eq (λ (x : Action). x.produces) [] g.actions a action at_a) at m)

  -- What each action makes afterwards.
  In-link :
      (b i : ℕ)
      → In i (produces_of (link_output g a action j artifact) b)
      → In i (produces_of g b) ⊎ ((i ≡ j) × (a ≡ b))
  unfolding link_output
  In-link b i m = ground (
    arith,
    field_at-eq (λ (x : Action). x.produces) [] g.actions a action at_a,
    field_at-set (λ (x : Action). x.produces) [] g.actions a b action
        (record action { produces = action.produces ++ j ∷ [] }) at_a,
    In-push i j action.produces,
  )

  same_name : (i : ℕ) → name_of (link_output g a action j artifact) i ≡ name_of g i
  unfolding link_output
  same_name i = field_at-set_same (λ (x : Artifact). x.name) [] g.artifacts j i artifact _ at_j refl

  own_name : name_of g j ≡ artifact.name
  own_name = field_at-eq (λ (x : Artifact). x.name) [] g.artifacts j artifact at_j

  output_proper :
      (b i : ℕ)
      → In i (produces_of g b) ⊎ ((i ≡ j) × (a ≡ b))
      → (name_of (link_output g a action j artifact) i ≢ [])
        × (has_byte b'/' (name_of (link_output g a action j artifact) i) ≡ false)
  output_proper b i (inl m) = rw (same_name i) (l.proper b i m)
  output_proper b i (inr (e, _)) = rw (same_name i, e, own_name) (not_nil, no_slash)

  output_apart :
      (b i k : ℕ)
      → In i (produces_of g b) ⊎ ((i ≡ j) × (a ≡ b))
      → In k (produces_of g b) ⊎ ((k ≡ j) × (a ≡ b))
      → name_of g i ≡ name_of g k
      → i ≡ k
  output_apart b i k (inl m) (inl n) e = l.told_apart b i k m n e
  output_apart b i k (inl m) (inr (ek, eb)) e =
      absurd (new_name i (rw (← eb) at m) (e ∙ ap (name_of g) ek ∙ own_name))
  output_apart b i k (inr (ei, eb)) (inl n) e =
      absurd (new_name k (rw (← eb) at n) (sym e ∙ ap (name_of g) ei ∙ own_name))
  output_apart b i k (inr (ei, _)) (inr (ek, _)) e = cc

  pub link_output-IsLinked : IsLinked (link_output g a action j artifact)
  unfolding link_output
  link_output-IsLinked = record {
    made = λ b i. ground (
      arith,
      l.made b i,
      field_at-eq (λ (x : Action). x.produces) [] g.actions a action at_a,
      field_at-eq (λ (x : Artifact). x.producer) none g.artifacts j artifact at_j,
      field_at-set (λ (x : Action). x.produces) [] g.actions a b action
          (record action { produces = action.produces ++ j ∷ [] }) at_a,
      field_at-set (λ (x : Artifact). x.producer) none g.artifacts j i artifact
          (record artifact { producer = some a }) at_j,
      In-push i j action.produces,
    );
    used = λ b i.
        let consumes : consumes_of (link_output g a action j artifact) b ≡ consumes_of g b =
          field_at-set_same (λ (x : Action). x.consumes) [] g.actions a b action _ at_a refl in
        let consumers : consumers_of (link_output g a action j artifact) i ≡ consumers_of g i =
          field_at-set_same (λ (x : Artifact). x.consumers) [] g.artifacts j i artifact _ at_j
            refl in
        rw (consumes, consumers) (l.used b i);
    proper = λ b i m. output_proper b i (In-link b i m);
    told_apart = λ b i k m n e.
        output_apart b i k (In-link b i m) (In-link b k n) (rw (same_name i, same_name k) at e);
  }
