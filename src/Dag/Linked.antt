-- ===== src/Dag/Linked.antt =====
-- The operations of source/core/dag/dag.c keep the links of the graph.
use spn.Base.{
  ℕ, ◌≡◌, ◌↔◌, inl, inr, refl, sym, ◌∙◌, List, [], ◌∷◌, ◌++◌, none, some, In, get_elem?, set, arith,
  Option-cases,
}
use spn.Paths.{FilePath}
use spn.Dag.{Artifact, Action, Dag, Digest, ActionKind, add_action, link_input}
use spn.Base.Fields.{
  field_at, field_at-eq, field_at-set, field_at-set_same, field_at-push, field_at-push_before,
  field_at_beyond, In-push,
}
use spn.Dag.Links.{producer_of, consumers_of, name_of, produces_of, consumes_of, IsLinked}

-- What of a graph concerns its outputs, and does not change: names count where an action makes the
-- artifact.
record SameOutputs (g g' : Dag) : Type 0 where
  producer : (j : ℕ) → producer_of g' j ≡ producer_of g j
  produces : (a : ℕ) → produces_of g' a ≡ produces_of g a
  name : (a j : ℕ) → producer_of g j ≡ some a → name_of g' j ≡ name_of g j

IsLinked-outputs :
    (g g' : Dag)
    → SameOutputs g g'
    → ((a j : ℕ) → In j (consumes_of g' a) ↔ In a (consumers_of g' j))
    → IsLinked g
    → IsLinked g'
IsLinked-outputs g g' s used l = record {
  made = λ a j. rw (s.producer j, s.produces a) (l.made a j);
  used = used;
  proper = λ a j m.
      let m' = rw (s.produces a) at m in rw (s.name a j ((l.made a j).0 m')) (l.proper a j m');
  told_apart = λ a i j m n e.
      let m' = rw (s.produces a) at m in
      let n' = rw (s.produces a) at n in
      l.told_apart a i j m' n'
        (sym (s.name a i ((l.made a i).0 m')) ∙ e ∙ s.name a j ((l.made a j).0 n'));
}

-- The artifact of a link is there.
pub made_is_there :
    (artifacts : List Artifact) (a j : ℕ)
    → field_at (λ (x : Artifact). x.producer) none artifacts j ≡ some a
    → (artifact : Artifact) × (get_elem? artifacts j ≡ some artifact)
made_is_there artifacts a j h = elim (Option-cases (get_elem? artifacts j)) [
  | inl gone ↦ cc (field_at_beyond (λ (x : Artifact). x.producer) none artifacts j gone)
  | inr found ↦ found
]

module _ (g : Dag) (l : IsLinked g) where
  pub add_action-IsLinked :
      (kind : ActionKind) (identity : Digest) → IsLinked (add_action g kind identity).0
  unfolding add_action
  add_action-IsLinked kind identity =
      IsLinked-outputs g (add_action g kind identity).0
        (record {
          producer = λ j. refl;
          produces = λ a. field_at-push (λ (x : Action). x.produces) [] g.actions a _ refl;
          name = λ a j h. refl;
        })
        (λ a j.
          let same : consumes_of (add_action g kind identity).0 a ≡ consumes_of g a =
            field_at-push (λ (x : Action). x.consumes) [] g.actions a _ refl in
          rw same (l.used a j))
        l

  -- A new artifact is in no link, whatever its name.
  pub push-IsLinked :
      (v : Artifact) (paths : List (FilePath × ℕ))
      → v.producer ≡ none
      → v.consumers ≡ []
      → IsLinked (record g { artifacts = g.artifacts ++ v ∷ []; paths = paths })
  push-IsLinked v paths unmade unused =
      IsLinked-outputs g (record g { artifacts = g.artifacts ++ v ∷ []; paths = paths })
        (record {
          producer = λ j. field_at-push (λ (x : Artifact). x.producer) none g.artifacts j v unmade;
          produces = λ a. refl;
          name = λ a j h.
              let (artifact, there) = made_is_there g.artifacts a j h in
              field_at-push_before (λ (x : Artifact). x.name) [] g.artifacts j v artifact there;
        })
        (λ a j.
          rw (field_at-push (λ (x : Artifact). x.consumers) [] g.artifacts j v unused) (l.used a j))
        l

  module _ (a j : ℕ) (action : Action) (artifact : Artifact)
      (at_a : get_elem? g.actions a ≡ some action)
      (at_j : get_elem? g.artifacts j ≡ some artifact) where
    pub link_input-IsLinked : IsLinked (link_input g a action j artifact)
    unfolding link_input
    link_input-IsLinked =
        IsLinked-outputs g (link_input g a action j artifact)
          (record {
            producer = λ i.
                field_at-set_same (λ (x : Artifact). x.producer) none g.artifacts j i artifact _
                  at_j refl;
            produces = λ b.
                field_at-set_same (λ (x : Action). x.produces) [] g.actions a b action _ at_a refl;
            name = λ b i h.
                field_at-set_same (λ (x : Artifact). x.name) [] g.artifacts j i artifact _ at_j
                  refl;
          })
          (λ b i. ground (
            arith,
            l.used b i,
            field_at-eq (λ (x : Action). x.consumes) [] g.actions a action at_a,
            field_at-eq (λ (x : Artifact). x.consumers) [] g.artifacts j artifact at_j,
            field_at-set (λ (x : Action). x.consumes) [] g.actions a b action
                (record action { consumes = action.consumes ++ j ∷ [] }) at_a,
            field_at-set (λ (x : Artifact). x.consumers) [] g.artifacts j i artifact
                (record artifact { consumers = artifact.consumers ++ a ∷ [] }) at_j,
            In-push i j action.consumes,
            In-push b a artifact.consumers,
          ))
          l

    -- A name for an artifact that no action makes.
    pub rename-IsLinked :
        (v : Artifact)
        → artifact.producer ≡ none
        → v.producer ≡ none
        → v.consumers ≡ artifact.consumers
        → IsLinked (record g { artifacts = set g.artifacts j v })
    rename-IsLinked v unmade still same =
        IsLinked-outputs g (record g { artifacts = set g.artifacts j v })
          (record {
            producer = λ i.
                field_at-set_same (λ (x : Artifact). x.producer) none g.artifacts j i artifact v
                  at_j (still ∙ sym unmade);
            produces = λ b. refl;
            name = λ b i h. ground (
              arith,
              field_at-set (λ (x : Artifact). x.name) [] g.artifacts j i artifact v at_j,
              field_at-eq (λ (x : Artifact). x.producer) none g.artifacts j artifact at_j,
            );
          })
          (λ b i.
            rw
              (field_at-set_same (λ (x : Artifact). x.consumers) [] g.artifacts j i artifact v at_j
                same)
              (l.used b i))
          l
