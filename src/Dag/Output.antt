-- ===== src/Dag/Output.antt =====
-- `spn_dag_action_add_output` of source/core/dag/dag.c: when it links, what it reports otherwise, and
-- what it leaves alone.
use spn.Base.{
  ℕ, ◌≡◌, ◌≢◌, ◌⊎◌, inl, inr, refl, sym, ap, ◌∙◌, true, false, not, ◌&&◌, [], ◌==◌, Option, none,
  some, In, get_elem?, set, arith, Bool-cases, Option-cases,
}
use spn.Base.Texts.{Bytes, is_empty, has_byte}
use spn.Paths.{FilePath, root_none, path_empty}
use spn.Dag.{
  Artifact, Action, Dag, DagError, duplicate_output, pinned_output, output_name, link_output,
  name_taken, is_pinned, named, output_checked, output_unproduced, add_output,
}
use spn.Base.Fields.{field_at-eq, field_at-set, field_at-set_same}
use spn.Dag.Links.{producer_of, name_of, produces_of, IsLinked}
use spn.Dag.Linked.{rename-IsLinked, made_is_there}
use spn.Dag.LinkOutput.{link_output-IsLinked, name_not_taken}
use spn.Dag.OutputLaw.{
  OutputLaw, get_elem?-set, name_taken-cases, error_law, is_empty_iff, is_pinned_iff,
}

module _ (get_name : Bytes → Bytes) (g : Dag) (l : IsLinked g) (a j : ℕ) (action : Action)
    (artifact : Artifact) (at_a : get_elem? g.actions a ≡ some action)
    (at_j : get_elem? g.artifacts j ≡ some artifact) where
  -- The graph in which the artifact has its name.
  abbrev renamed : Dag
  renamed = record g { artifacts = set g.artifacts j (named get_name artifact) }

  renamed_producer : (i : ℕ) → producer_of renamed i ≡ producer_of g i
  unfolding named
  renamed_producer i =
      field_at-set_same (λ (x : Artifact). x.producer) none g.artifacts j i artifact _ at_j refl

  module _ (unmade : artifact.producer ≡ none) where
    renamed-IsLinked : IsLinked renamed
    unfolding named
    renamed-IsLinked =
        rename-IsLinked g l a j action artifact at_a at_j (named get_name artifact) unmade unmade
          refl

    -- The outputs of the action are other artifacts, and keep their names.
    renamed_name : (i : ℕ) → In i (produces_of g a) → name_of renamed i ≡ name_of g i
    renamed_name i m = ground (
      arith,
      l.made a i,
      field_at-set (λ (x : Artifact). x.name) [] g.artifacts j i artifact (named get_name artifact)
          at_j,
      field_at-eq (λ (x : Artifact). x.producer) none g.artifacts j artifact at_j,
    )

    outputs_there :
        (i : ℕ) → In i action.produces → (x : Artifact) × (get_elem? renamed.artifacts i ≡ some x)
    outputs_there i m = made_is_there renamed.artifacts a i (
        (renamed-IsLinked.made a i).0
          (rw (field_at-eq (λ (x : Action). x.produces) [] g.actions a action at_a) m))

    made_of : (i : ℕ) → In i (produces_of g a) → In i action.produces
    made_of i m = rw (field_at-eq (λ (x : Action). x.produces) [] g.actions a action at_a) at m

    of_made : (i : ℕ) → In i action.produces → In i (produces_of g a)
    of_made i m = rw (field_at-eq (λ (x : Action). x.produces) [] g.actions a action at_a) m

    -- In the graph in which the artifact is named, the link is made.
    linked_law :
        (unpinned : is_pinned g.pinned artifact.path ≡ false)
        → is_empty (named get_name artifact).name ≡ false
        → has_byte b'/' (named get_name artifact).name ≡ false
        → name_taken renamed.artifacts action.produces (named get_name artifact).name ≡ some false
        → OutputLaw g a j artifact
            (named get_name artifact).name
            (link_output renamed a action j (named get_name artifact), none)
    unfolding named link_output
    linked_law unpinned not_empty no_slash free = record {
      keeps =
          link_output-IsLinked renamed renamed-IsLinked a j action (named get_name artifact) at_a
            (get_elem?-set g.artifacts j artifact (named get_name artifact) at_j) unmade not_empty
            no_slash free;
      succeeds = (
        λ h. (
          unmade,
          (is_pinned_iff g.pinned artifact.path).0 unpinned,
          λ e. cc (ap is_empty e),
          no_slash,
          λ i m e.
              name_not_taken renamed.artifacts action.produces (named get_name artifact).name i free
                (made_of i m) (renamed_name i m ∙ e),
        ),
        λ h. refl,
      );
      makes = λ h.
          field_at-eq (λ (x : Artifact). x.producer) none
            (link_output renamed a action j (named get_name artifact)).artifacts j
            (record (named get_name artifact) { producer = some a })
            (get_elem?-set renamed.artifacts j (named get_name artifact) _
              (get_elem?-set g.artifacts j artifact (named get_name artifact) at_j));
      fails = λ error h. cc;
    }

    -- The checks of the name come to an end, and do what they should.
    checked_law :
        is_pinned g.pinned artifact.path ≡ false
        → (r : Dag × Option DagError) × (output_checked renamed a action j (named get_name artifact)
            ≡ some r)
          × OutputLaw g a j artifact (named get_name artifact).name r
    unfolding output_checked
    checked_law unpinned = elim (Bool-cases (is_empty (named get_name artifact).name)) [
      | inl empty ↦ (
        (renamed, some output_name),
        rw empty,
        error_law g renamed a j artifact _ output_name renamed-IsLinked renamed_producer
            (λ free. free.2 ((is_empty_iff (named get_name artifact).name).0 empty)),
      )
      | inr full ↦ elim (Bool-cases (has_byte b'/' (named get_name artifact).name)) [
        | inl slash ↦ (
          (renamed, some output_name),
          rw (full, slash),
          error_law g renamed a j artifact _ output_name renamed-IsLinked renamed_producer
              (λ free. cc (free.3)),
        )
        | inr clean ↦
            elim (name_taken-cases renamed.artifacts action.produces (named get_name artifact).name
              outputs_there) [
                | inl (taken, i, m, same) ↦ (
                  (renamed, some duplicate_output),
                  rw (full, clean, taken),
                  error_law g renamed a j artifact _ duplicate_output renamed-IsLinked
                      renamed_producer
                      (λ free. free.4 i (of_made i m) (sym (renamed_name i (of_made i m)) ∙ same)),
                )
                | inr free ↦ (
                  (link_output renamed a action j (named get_name artifact), none),
                  rw (full, clean, free),
                  linked_law unpinned full clean free,
                )
              ]
      ]
    ]

-- The call past its first checks.
pub add_output_unmade :
    (get_name : Bytes → Bytes) (g : Dag) (a j : ℕ) (action : Action) (artifact : Artifact)
    → get_elem? g.actions a ≡ some action
    → get_elem? g.artifacts j ≡ some artifact
    → artifact.producer ≡ none
    → add_output get_name g a j ≡ output_unproduced get_name g a action j artifact
unfolding add_output
add_output_unmade get_name g a j action artifact at_a at_j unmade = ground arith

unrooted_lem :
    (path : FilePath)
    → (path_empty path ≡ true) ⊎ (path.root ≢ root_none)
    → (not (path_empty path) && path.root == root_none) ≡ false
unrooted_lem path h = ground arith

-- On an action and an artifact of a graph whose links agree, the call comes to an end, and it does
-- what the law says, if a path that the artifact has is under a root.
pub add_output_lem :
    (get_name : Bytes → Bytes) (g : Dag) (a j : ℕ) (action : Action) (artifact : Artifact)
    → IsLinked g
    → get_elem? g.actions a ≡ some action
    → get_elem? g.artifacts j ≡ some artifact
    → (path_empty artifact.path ≡ true) ⊎ (artifact.path.root ≢ root_none)
    → (r : Dag × Option DagError) × (add_output get_name g a j ≡ some r)
      × OutputLaw g a j artifact (named get_name artifact).name r
unfolding add_output output_unproduced
add_output_lem get_name g a j action artifact l at_a at_j rooted =
    elim (Option-cases artifact.producer) [
      | inr (b, made) ↦ (
        (g, some duplicate_output),
        rw (at_a, add_output, at_j, made),
        error_law g g a j artifact _ duplicate_output l (λ i. refl) (λ free. cc (free.0)),
      )
      | inl unmade ↦ elim (Bool-cases (is_pinned g.pinned artifact.path)) [
        | inl pinned ↦ (
          (g, some pinned_output),
          add_output_unmade get_name g a j action artifact at_a at_j unmade
              ∙ rw (unrooted_lem artifact.path rooted, output_unproduced, pinned),
          error_law g g a j artifact _ pinned_output l (λ i. refl)
              (λ free. cc ((is_pinned_iff g.pinned artifact.path).1 free.1)),
        )
        | inr unpinned ↦
            let (r, e, law) =
              checked_law get_name g l a j action artifact at_a at_j unmade unpinned in
            (
              r,
              add_output_unmade get_name g a j action artifact at_a at_j unmade
                  ∙ rw (unrooted_lem artifact.path rooted, output_unproduced, unpinned) e,
              law,
            )
      ]
    ]
