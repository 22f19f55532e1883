-- ===== src/Dag.antt =====
-- source/core/dag/dag.c: the build graph, of actions and of the artifacts that they consume and
-- produce. An id is an index: the assertions that it belongs to the graph are on its range. What an
-- action executes is a callback of the caller and is left out.
pub mod Links
pub mod Linked
pub mod LinkOutput
pub mod OutputLaw
pub mod Output
pub mod Build
pub mod Key
pub mod Framing
pub mod Keyed
pub mod Seen
mod Tests
use spn.Base.{
  ℕ, suc, ◌+◌, ◌/◌, ◌%◌, ◌^◌, Bool, true, false, not, ◌&&◌, List, [], ◌∷◌, ◌++◌, ◌==◌, length,
  get_elem?, set, if◌then◌else◌, Option, none, some,
}
use spn.Base.Texts.{Bytes, is_empty, text_eq, has_byte}
use spn.Paths.{FilePath, Root, root_none, path_empty, path_equal}

pub data ArtifactKind : Type 0 where
  kind_value kind_file kind_tree : ArtifactKind

pub data ActionKind : Type 0 where
  action_static action_discovered action_uncacheable : ActionKind

-- The errors of `spn_dag_action_add_output`.
pub data DagError : Type 0 where
  duplicate_output pinned_output output_name : DagError

abbrev pub Digest : Type 0
Digest = Bytes

pub record Artifact : Type 0 where
  pub kind : ArtifactKind
  pub name : Bytes
  pub path : FilePath
  pub digest : Digest
  pub producer : Option ℕ
  pub consumers : List ℕ

pub record Action : Type 0 where
  pub kind : ActionKind
  pub identity : Digest
  pub consumes : List ℕ
  pub produces : List ℕ

-- `pinned` is the root set of `g->roots`.
pub record Dag : Type 0 where
  pub artifacts : List Artifact
  pub actions : List Action
  pub paths : List (FilePath × ℕ)
  pub pinned : ℕ

unfoldable pub kind_eq : ArtifactKind → ArtifactKind → Bool
kind_eq kind_value kind_value = true
kind_eq kind_file kind_file = true
kind_eq kind_tree kind_tree = true
kind_eq _ _ = false

-- `sp_ht_getp(g->paths, path)`.
unfoldable pub find_path : FilePath → List (FilePath × ℕ) → Option ℕ
find_path path [] = none
find_path path ((key, id) ∷ paths) = if path_equal key path then some id else find_path path paths

-- `pinned & (1u << root)`.
unfoldable pub in_roots : ℕ → Root → Bool
in_roots set root = (set / 2 ^ root) % 2 == 1

abbrev pub no_path : FilePath
no_path = record { root = root_none; sub = [] }

-- The new artifact's id is the number of those before it. A digest that is not known yet is empty.
unfoldable pub add_artifact : Dag → ArtifactKind → Bytes → FilePath → Digest → Dag × ℕ
add_artifact g kind name path digest = (
  record g {
    artifacts =
        g.artifacts
        ++ record {
          kind = kind;
          name = name;
          path = path;
          digest = digest;
          producer = none;
          consumers = [];
        }
          ∷ [];
  },
  length g.artifacts,
)

-- A new artifact for a path, which is filed unless another has the path already.
unfoldable pub add_new_path : Dag → FilePath → ArtifactKind → Bool → Dag × ℕ
unfolding add_artifact
add_new_path g path kind file =
    let (g', id) = add_artifact g kind [] path [] in
    (if file then record g' { paths = g'.paths ++ (path, id) ∷ [] } else g', id)

-- An artifact of the path is used again if it is of the same kind. `none` is a failed assertion.
unfoldable pub add_path : Dag → FilePath → ArtifactKind → Option (Dag × ℕ)
unfolding find_path kind_eq add_new_path
add_path g path kind = if path_empty path then none else elim (find_path path g.paths) [
  | none ↦ some (add_new_path g path kind true)
  | some id ↦ elim (get_elem? g.artifacts id) [
    | none ↦ none
    | some artifact ↦
        if kind_eq artifact.kind kind then some (g, id) else some (add_new_path g path kind false)
  ]
]

unfoldable pub add_value : Dag → Digest → Dag × ℕ
unfolding add_artifact
add_value g digest = add_artifact g kind_value [] no_path digest

-- `spn_dag_add_output`.
unfoldable pub add_named : Dag → Bytes → Dag × ℕ
unfolding add_artifact
add_named g name = add_artifact g kind_file name no_path []

unfoldable pub add_action : Dag → ActionKind → Digest → Dag × ℕ
add_action g kind identity = (
  record g {
    actions =
        g.actions ++ record { kind = kind; identity = identity; consumes = []; produces = [] } ∷ [];
  },
  length g.actions,
)

unfoldable pub link_input : Dag → ℕ → Action → ℕ → Artifact → Dag
link_input g action_id action artifact_id artifact = record g {
  actions =
      set g.actions action_id (record action { consumes = action.consumes ++ artifact_id ∷ [] });
  artifacts =
      set g.artifacts artifact_id
        (record artifact { consumers = artifact.consumers ++ action_id ∷ [] });
}

unfoldable pub add_input : Dag → ℕ → ℕ → Option Dag
unfolding link_input
add_input g action_id artifact_id = elim (get_elem? g.actions action_id) [
  | none ↦ none
  | some action ↦ elim (get_elem? g.artifacts artifact_id) [
    | none ↦ none
    | some artifact ↦ some (link_input g action_id action artifact_id artifact)
  ]
]

-- One of the action's outputs has the name.
unfoldable pub name_taken : List Artifact → List ℕ → Bytes → Option Bool
name_taken artifacts [] name = some false
name_taken artifacts (id ∷ produces) name = elim (get_elem? artifacts id) [
  | none ↦ none
  | some other ↦ if text_eq other.name name then some true else name_taken artifacts produces name
]

unfoldable pub link_output : Dag → ℕ → Action → ℕ → Artifact → Dag
link_output g action_id action artifact_id artifact = record g {
  artifacts = set g.artifacts artifact_id (record artifact { producer = some action_id });
  actions =
      set g.actions action_id (record action { produces = action.produces ++ artifact_id ∷ [] });
}

unfoldable pub is_pinned : ℕ → FilePath → Bool
unfolding in_roots
is_pinned pinned path = not (path_empty path) && in_roots pinned path.root

-- The name that the artifact is given if it has none. `get_name` is the sp library's
-- `sp_fs_get_name`.
unfoldable pub named : (Bytes → Bytes) → Artifact → Artifact
named get_name artifact = record artifact {
  name = if is_empty artifact.name then get_name artifact.path.sub else artifact.name;
}

-- The checks of the name, in a graph in which the artifact has it.
unfoldable pub output_checked : Dag → ℕ → Action → ℕ → Artifact → Option (Dag × Option DagError)
unfolding name_taken link_output
output_checked g action_id action artifact_id artifact =
    if is_empty artifact.name
    then some (g, some output_name)
    else if has_byte b'/' artifact.name
    then some (g, some output_name)
    else elim (name_taken g.artifacts action.produces artifact.name) [
      | none ↦ none
      | some true ↦ some (g, some duplicate_output)
      | some false ↦ some (link_output g action_id action artifact_id artifact, none)
    ]

unfoldable pub output_unproduced :
    (Bytes → Bytes) → Dag → ℕ → Action → ℕ → Artifact → Option (Dag × Option DagError)
unfolding is_pinned named output_checked
output_unproduced get_name g action_id action artifact_id artifact =
    if not (path_empty artifact.path) && artifact.path.root == root_none
    then none
    else if is_pinned g.pinned artifact.path
    then some (g, some pinned_output)
    else output_checked
        (record g { artifacts = set g.artifacts artifact_id (named get_name artifact) }) action_id
        action artifact_id (named get_name artifact)

-- The new graph and the error; `none` is a failed assertion.
unfoldable pub add_output : (Bytes → Bytes) → Dag → ℕ → ℕ → Option (Dag × Option DagError)
add_output get_name g action_id artifact_id = elim (get_elem? g.actions action_id) [
  | none ↦ none
  | some action ↦ elim (get_elem? g.artifacts artifact_id) [
    | none ↦ none
    | some artifact ↦ elim artifact.producer [
      | some _ ↦ some (g, some duplicate_output)
      | none ↦ output_unproduced get_name g action_id action artifact_id artifact
    ]
  ]
]
