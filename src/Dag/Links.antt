-- ===== src/Dag/Links.antt =====
-- What the links of source/core/dag/dag.c are: the invariant of the graph, and the fields that it
-- is about.
use spn.Base.{ℕ, ◌≡◌, ◌≢◌, ◌↔◌, false, List, [], Option, none, some, In}
use spn.Base.Texts.{Bytes, has_byte}
use spn.Dag.{Artifact, Action, Dag}
use spn.Base.Fields.{field_at}

abbrev pub producer_of : Dag → ℕ → Option ℕ
producer_of g j = field_at (λ (x : Artifact). x.producer) none g.artifacts j

abbrev pub consumers_of : Dag → ℕ → List ℕ
consumers_of g j = field_at (λ (x : Artifact). x.consumers) [] g.artifacts j

abbrev pub name_of : Dag → ℕ → Bytes
name_of g j = field_at (λ (x : Artifact). x.name) [] g.artifacts j

abbrev pub produces_of : Dag → ℕ → List ℕ
produces_of g a = field_at (λ (x : Action). x.produces) [] g.actions a

abbrev pub consumes_of : Dag → ℕ → List ℕ
consumes_of g a = field_at (λ (x : Action). x.consumes) [] g.actions a

-- The two ends of each link agree, and an action's outputs have proper names that tell them apart.
pub record IsLinked (g : Dag) : Type 0 where
  pub made : (a j : ℕ) → In j (produces_of g a) ↔ (producer_of g j ≡ some a)
  pub used : (a j : ℕ) → In j (consumes_of g a) ↔ In a (consumers_of g j)
  pub proper :
      (a j : ℕ)
      → In j (produces_of g a)
      → (name_of g j ≢ []) × (has_byte b'/' (name_of g j) ≡ false)
  pub told_apart :
      (a i j : ℕ)
      → In i (produces_of g a)
      → In j (produces_of g a)
      → name_of g i ≡ name_of g j
      → i ≡ j
