-- ===== src/Dag/Tests.antt =====
-- A graph of two calls, and keys of its action.
use spn.Base.{ℕ, ◌≡◌, refl, inl, List, [], ◌∷◌, Option, none, some, map, arith}
use spn.Base.Texts.{Bytes}
use spn.Paths.{path_empty}
use spn.Dag.{
  Artifact, Action, Dag, DagError, action_static, kind_file, no_path, add_output, named, Digest,
}
use spn.Dag.Build.{Built, start, next, call_named, call_action, Built-IsLinked}
use spn.Dag.Key.{Obs, obs_file}
use spn.Dag.Keyed.{IsSized, input_part, output_part, weak_bytes_inj}
use spn.Dag.Links.{IsLinked}
use spn.Dag.Output.{add_output_lem}
use spn.Dag.OutputLaw.{OutputLaw}
use spn.Dag.Seen.{strong_bytes_inj}

abbrev last_name : Bytes → Bytes
last_name path = path

abbrev zeros : Digest
zeros =
    0 ∷ 0 ∷ 0 ∷ 0 ∷ 0 ∷ 0 ∷ 0 ∷ 0 ∷ 0 ∷ 0 ∷ 0 ∷ 0 ∷ 0 ∷ 0 ∷ 0 ∷ 0 ∷ 0 ∷ 0 ∷ 0 ∷ 0 ∷ 0 ∷ 0 ∷ 0 ∷ 0
    ∷ 0 ∷ 0 ∷ 0 ∷ 0 ∷ 0 ∷ 0 ∷ 0 ∷ 0 ∷ []

abbrev object : Artifact
object = record {
  kind = kind_file;
  name = b'o' ∷ [];
  path = no_path;
  digest = [];
  producer = none;
  consumers = [];
}

abbrev compile : Action
compile = record { kind = action_static; identity = zeros; consumes = []; produces = [] }

abbrev empty : Dag
empty = record { artifacts = []; actions = []; paths = []; pinned = 0 }

abbrev with_object : Dag
with_object = record empty { artifacts = object ∷ [] }

abbrev graph : Dag
graph = record with_object { actions = compile ∷ [] }

graph-Built : Built last_name 0 graph
unfolding spn.Dag.add_named spn.Dag.add_action
graph-Built =
    next with_object graph (call_action action_static zeros)
      (next empty with_object (call_named (b'o' ∷ [])) start refl) refl

Built-IsLinked_example : IsLinked graph
Built-IsLinked_example = Built-IsLinked last_name 0 graph-Built

add_output_lem_example :
    (r : Dag × Option DagError) × (add_output last_name graph 0 0 ≡ some r)
    × OutputLaw graph 0 0 object (named last_name object).name r
add_output_lem_example =
    add_output_lem last_name graph 0 0 compile object (Built-IsLinked last_name 0 graph-Built) refl
      refl (inl (unfold path_empty in refl))

graph-IsSized : IsSized 0 zeros [] (object ∷ [])
graph-IsSized = record {
  pinned_fits = omega arith;
  identity_fits = refl;
  inputs_fit = (omega arith, tt);
  outputs_fit = (omega arith, (omega arith, tt));
}

weak_bytes_inj_example :
    (◌≡◌ {A = ℕ} 0 0)
    × (zeros ≡ zeros)
    × (map input_part [] ≡ map input_part [])
    × (map output_part (object ∷ []) ≡ map output_part (object ∷ []))
weak_bytes_inj_example =
    weak_bytes_inj 0 0 zeros zeros [] [] (object ∷ []) (object ∷ []) graph-IsSized graph-IsSized
      refl

abbrev read : Obs
read = record { kind = obs_file; path = record { root = 1; sub = b'o' ∷ [] }; filter = [] }

abbrev seen : List (Obs × Digest)
seen = (read, zeros) ∷ []

strong_bytes_inj_example : (zeros ≡ zeros) × (zeros ≡ zeros) × (seen ≡ seen)
strong_bytes_inj_example =
    strong_bytes_inj zeros zeros zeros zeros seen seen (refl, refl) (refl, refl) (omega arith)
      (omega arith) refl
