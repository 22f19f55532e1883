-- ===== src/Dag/Build.antt =====
-- Graphs as they are built: calls of the operations of source/core/dag/dag.c one after the other.
use mathlib.Core.Path.{subst}
use mathlib.Core.Option.{some-injective}
use spn.Base.{
  ℕ, ◌≡◌, ◌≢◌, ◌⊎◌, inl, inr, refl, sym, ap, ◌∙◌, ◌==◌, not, ◌&&◌, Bool, true, false, [], Option,
  none, some, get_elem?, arith, Bool-cases, Option-cases,
}
use spn.Base.Texts.{Bytes}
use spn.Paths.{FilePath, root_none, path_empty}
use spn.Dag.{
  Artifact, Action, Dag, DagError, Digest, ArtifactKind, ActionKind, kind_eq, find_path,
  add_new_path, add_path, add_value, add_named, add_action, add_input, add_output,
  output_unproduced,
}
use spn.Base.Fields.{field_at}
use spn.Dag.Links.{IsLinked}
use spn.Dag.Linked.{add_action-IsLinked, push-IsLinked, link_input-IsLinked}
use spn.Dag.Output.{add_output_lem, add_output_unmade}

-- One call of the program that builds a graph, with the ids that it was given before.
pub data Call : Type 0 where
  call_path : FilePath → ArtifactKind → Call
  call_value : Digest → Call
  call_named : Bytes → Call
  call_action : ActionKind → Digest → Call
  call_input call_output : ℕ → ℕ → Call

abbrev first_of {ℓ κ} : {A : Type ℓ} {B : Type κ} → Option (A × B) → Option A
first_of none = none
first_of (some (a, b)) = some a

first_of_lem {ℓ κ} :
    {A : Type ℓ} {B : Type κ} (r : A × B) {a : A} → first_of (some r) ≡ some a → r.0 ≡ a
first_of_lem (x, y) h = some-injective _ _ h

-- `none` is a failed assertion; errors leave a graph behind.
abbrev pub call : (Bytes → Bytes) → Dag → Call → Option Dag
call get_name g (call_path path kind) = first_of (add_path g path kind)
call get_name g (call_value digest) = some (add_value g digest).0
call get_name g (call_named name) = some (add_named g name).0
call get_name g (call_action kind identity) = some (add_action g kind identity).0
call get_name g (call_input a j) = add_input g a j
call get_name g (call_output a j) = first_of (add_output get_name g a j)

-- The graphs that calls build from the empty one, in any order, with any errors between.
pub data Built (get_name : Bytes → Bytes) (pinned : ℕ) : Dag → Type 0 where
  start :
      Built get_name pinned (record { artifacts = []; actions = []; paths = []; pinned = pinned })
  next :
      (g g' : Dag) (c : Call)
      → Built get_name pinned g
      → call get_name g c ≡ some g'
      → Built get_name pinned g'

-- A call that passes the assertion on the root, or returns the graph before it comes to that.
rooted_or_fault :
    (get_name : Bytes → Bytes) (g : Dag) (a j : ℕ) (action : Action) (artifact : Artifact)
    (r : Dag × Option DagError)
    → get_elem? g.actions a ≡ some action
    → get_elem? g.artifacts j ≡ some artifact
    → add_output get_name g a j ≡ some r
    → (r.0 ≡ g) ⊎ ((path_empty artifact.path ≡ true) ⊎ (artifact.path.root ≢ root_none))
unfolding add_output output_unproduced
rooted_or_fault get_name g a j action artifact r at_a at_j h =
    elim (Bool-cases (not (path_empty artifact.path) && artifact.path.root == root_none)) [
      | inr fine ↦ inr (ground arith)
      | inl fault ↦ elim (Option-cases artifact.producer) [
        | inl unmade ↦ cc (
            rw (fault, output_unproduced) at
              (sym (add_output_unmade get_name g a j action artifact at_a at_j unmade) ∙ h))
        | inr (b, made) ↦ inl (
            sym (
              ap (λ (x : Dag × Option DagError). x.0)
                (some-injective _ _ (rw (at_a, add_output, at_j, made) at h))))
      ]
    ]

add_output-IsLinked :
    (get_name : Bytes → Bytes) (g : Dag) (a j : ℕ) (r : Dag × Option DagError)
    → IsLinked g
    → add_output get_name g a j ≡ some r
    → IsLinked r.0
unfolding add_output
add_output-IsLinked get_name g a j r l h = elim (Option-cases (get_elem? g.actions a)) [
  | inl gone ↦ cc (rw (gone, add_output) at h)
  | inr (action, at_a) ↦ elim (Option-cases (get_elem? g.artifacts j)) [
    | inl gone ↦ cc (rw (at_a, add_output, gone) at h)
    | inr (artifact, at_j) ↦ elim (rooted_or_fault get_name g a j action artifact r at_a at_j h) [
      | inl same ↦ rw same l
      | inr rooted ↦
          let (r', e, law) = add_output_lem get_name g a j action artifact l at_a at_j rooted in
          let same : r' ≡ r = some-injective _ _ (sym e ∙ h) in
          subst (λ (x : Dag × Option DagError). IsLinked x.0) same law.keeps
    ]
  ]
]

add_new_path-IsLinked :
    (g : Dag) (path : FilePath) (kind : ArtifactKind) (file : Bool)
    → IsLinked g
    → IsLinked (add_new_path g path kind file).0
unfolding add_new_path
add_new_path-IsLinked g path kind true l = push-IsLinked g l _ _ refl refl
add_new_path-IsLinked g path kind false l = push-IsLinked g l _ g.paths refl refl

add_path-IsLinked :
    (g g' : Dag) (path : FilePath) (kind : ArtifactKind)
    → IsLinked g
    → first_of (add_path g path kind) ≡ some g'
    → IsLinked g'
unfolding add_path
add_path-IsLinked g g' path kind l h = elim (Bool-cases (path_empty path)) [
  | inl empty ↦ cc (rw (empty, add_path) at h)
  | inr there ↦ elim (Option-cases (find_path path g.paths)) [
    | inl fresh ↦
        subst IsLinked (some-injective _ _ (rw (there, add_path, fresh) at h))
          (add_new_path-IsLinked g path kind true l)
    | inr (id, known) ↦ elim (Option-cases (get_elem? g.artifacts id)) [
      | inl gone ↦ cc (rw (there, add_path, known, gone) at h)
      | inr (artifact, at_id) ↦ elim (Bool-cases (kind_eq artifact.kind kind)) [
        | inl same ↦
            subst IsLinked (some-injective _ _ (rw (there, add_path, known, at_id, same) at h)) l
        | inr differs ↦
            subst IsLinked (some-injective _ _ (rw (there, add_path, known, at_id, differs) at h))
              (add_new_path-IsLinked g path kind false l)
      ]
    ]
  ]
]

call-IsLinked :
    (get_name : Bytes → Bytes) (g g' : Dag) (c : Call)
    → IsLinked g
    → call get_name g c ≡ some g'
    → IsLinked g'
unfolding add_value add_named add_input
call-IsLinked get_name g g' (call_path path kind) l h = add_path-IsLinked g g' path kind l h
call-IsLinked get_name g g' (call_value digest) l h =
    subst IsLinked (some-injective _ _ h) (push-IsLinked g l _ g.paths refl refl)
call-IsLinked get_name g g' (call_named name) l h =
    subst IsLinked (some-injective _ _ h) (push-IsLinked g l _ g.paths refl refl)
call-IsLinked get_name g g' (call_action kind identity) l h =
    subst IsLinked (some-injective _ _ h) (add_action-IsLinked g l kind identity)
call-IsLinked get_name g g' (call_input a j) l h = elim (Option-cases (get_elem? g.actions a)) [
  | inl gone ↦ cc (rw (gone, add_input) at h)
  | inr (action, at_a) ↦ elim (Option-cases (get_elem? g.artifacts j)) [
    | inl gone ↦ cc (rw (at_a, add_input, gone) at h)
    | inr (artifact, at_j) ↦
        subst IsLinked (some-injective _ _ (rw (at_a, add_input, at_j) at h))
          (link_input-IsLinked g l a j action artifact at_a at_j)
  ]
]
call-IsLinked get_name g g' (call_output a j) l h =
    elim (Option-cases (add_output get_name g a j)) [
      | inl fault ↦ cc (rw fault at h)
      | inr (r, e) ↦
          subst IsLinked (first_of_lem r (rw e at h)) (add_output-IsLinked get_name g a j r l e)
    ]

-- Whatever the calls were, the links of the graph agree.
pub Built-IsLinked :
    (get_name : Bytes → Bytes) (pinned : ℕ) {g : Dag} → Built get_name pinned g → IsLinked g
unfolding field_at
Built-IsLinked get_name pinned start = record {
  made = λ a j. (λ m. elim m [ ], λ e. cc);
  used = λ a j. (λ m. elim m [ ], λ m. elim m [ ]);
  proper = λ a j m. elim m [ ];
  told_apart = λ a i j m. elim m [ ];
}
Built-IsLinked get_name pinned (next g g' c built h) =
    call-IsLinked get_name g g' c (Built-IsLinked get_name pinned built) h
