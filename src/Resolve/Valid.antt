-- ===== src/Resolve/Valid.antt =====
-- What the search of source/core/resolve/resolve.c must establish for the nodes of a scope.
use spn.Base.{
  ℕ, ◌+◌, ◌≡◌, refl, sym, true, List, [], ◌∷◌, ◌++◌, none, some, ◌⊎◌, inl, inr, arith, All,
  Bool-cases, ◌==◌, ==_iff,
}
use mathlib.Core.Path.{subst}
use spn.Semver.Compare.{semver_in_range}
use spn.Enum.Package.{PkgSource, source_root, source_file, source_index, edge_scope}
use spn.Resolve.Types.{Request, Node, Run, Resolver, ResolveError, Outcome}
use spn.Resolve.Table.{contains, find, put, find-append, find-put, put_absent}
use spn.Resolve.Solver.{fail}
use spn.Resolve.Search.{classify_dep}
use spn.Resolve.Pins.{MeetsPins}

-- The nodes of a scope.
abbrev pub Nodes : Type 0
Nodes = List (ℕ × Node)

-- There is a node for a request: for a package of the index, of a version in the request's range.
abbrev pub Fits : PkgSource → Request → Nodes → Type 0
Fits source_index dep named =
    (node : Node) × (find dep.qualified named ≡ some node)
    × (semver_in_range node.version dep.range ≡ true)
Fits _ dep named = (node : Node) × (find dep.qualified named ≡ some node)

module _ (r : Resolver) where
  -- What a node's request asks of the scope: one that stays in the scope has its node.
  abbrev pub Served : Nodes → Node → Request → Type 0
  Served named node dep = classify_dep r node dep ≡ edge_scope → Fits dep.source dep named

  abbrev pub Settled : Nodes → Node → Type 0
  Settled named node = All (Served named node) node.deps

  -- A node stands under its own name and has the version that the pins leave to it.
  pub record Chosen (name : ℕ) (node : Node) : Type 0 where
    pub own_name : node.qualified ≡ name
    pub meets_pins : MeetsPins r name node.version

  -- Every node is chosen well, and all its requests are served.
  abbrev pub Complete : Nodes → Type 0
  Complete named =
      (name : ℕ) (node : Node) → find name named ≡ some node → Chosen name node × Settled named node

  -- While the search runs, the nodes in progress may have requests that are not served yet.
  abbrev pub Inv : Run → Type 0
  Inv run =
      (name : ℕ) (node : Node)
      → find name run.named ≡ some node
      → Chosen name node × ((contains run.visited name ≡ true) ⊎ Settled run.named node)

  -- After a call: the invariant holds, and if the call succeeded its goal is reached.
  pub record IsSound (o : Outcome) (Goal : Nodes → Type 0) : Type 0 where
    pub kept : Inv o.0
    pub reached : o.1 ≡ none → Goal o.0.named

  pub fail-IsSound :
      (run : Run) (e : ResolveError) (Goal : Nodes → Type 0) → Inv run → IsSound (fail run e) Goal
  fail-IsSound run e Goal inv = record { kept = inv; reached = λ h. cc }

  pub IsSound-map :
      {o : Outcome} {Goal Goal' : Nodes → Type 0}
      → ((named : Nodes) → Goal named → Goal' named)
      → IsSound o Goal
      → IsSound o Goal'
  IsSound-map {o} f s = record { kept = s.kept; reached = λ h. f o.0.named (s.reached h) }

  pub Fits-append :
      (source : PkgSource) (dep : Request) (named added : Nodes)
      → Fits source dep named
      → Fits source dep (named ++ added)
  Fits-append source_index dep named added (node, e, fits) =
      (node, find-append dep.qualified named added node e, fits)
  Fits-append source_root dep named added (node, e) =
      (node, find-append dep.qualified named added node e)
  Fits-append source_file dep named added (node, e) =
      (node, find-append dep.qualified named added node e)

  pub Served-append :
      (node : Node) (deps : List Request) (named added : Nodes)
      → All (Served named node) deps
      → All (Served (named ++ added) node) deps
  Served-append node [] named added h = tt
  Served-append node (dep ∷ deps) named added h = (
    λ edge. Fits-append dep.source dep named added (h.0 edge),
    Served-append node deps named added h.1,
  )

  pub Inv-same : (s t : Run) → t.named ≡ s.named → t.visited ≡ s.visited → Inv s → Inv t
  Inv-same s t named visited inv k n e =
      let (good, state) = inv k n (rw named at e) in
      (
        good,
        elim state [
          | inl busy ↦ inl (rw visited busy)
          | inr settled ↦ inr (subst (λ m. Settled m n) (sym named) settled)
        ],
      )

  -- A new node that is in progress keeps the invariant.
  pub Inv-start :
      (run : Run) (name : ℕ) (node : Node)
      → Inv run
      → Chosen name node
      → find name run.named ≡ none
      → Inv (record run {
        picks = run.picks + 1;
        named = put name node run.named;
        visited = name ∷ run.visited;
      })
  unfolding contains
  Inv-start run name node inv chosen absent k n e = elim (Bool-cases (name == k)) [
    | inl hit ↦
        let same : name ≡ k = (==_iff name k).0 hit in
        let node_same : node ≡ n = ground (arith, find-put name k node run.named) in
        (
          subst (λ m. Chosen k m) node_same (subst (λ j. Chosen j node) same chosen),
          inl (rw hit refl),
        )
    | inr miss ↦
        let old : find k run.named ≡ some n = ground (arith, find-put name k node run.named) in
        let (good, state) = inv k n old in
        (
          good,
          elim state [
            | inl busy ↦ inl (rw miss busy)
            | inr settled ↦ inr (
                rw (put_absent name node run.named absent)
                  (Served-append n n.deps run.named ((name, node) ∷ []) settled))
          ],
        )
  ]

  -- When a node's requests are all served, it is no longer in progress.
  pub Inv-finish :
      (run : Run) (name : ℕ) (node : Node) (visited : List ℕ)
      → Inv run
      → run.visited ≡ name ∷ visited
      → find name run.named ≡ some node
      → Settled run.named node
      → Inv (record run { visited = visited })
  unfolding contains
  Inv-finish run name node visited inv same found settled k n e =
      let (good, state) = inv k n e in
      (
        good,
        elim (Bool-cases (name == k)) [
          | inl hit ↦
              let node_same : node ≡ n = ground (arith, (==_iff name k).0 hit) in
              inr (subst (λ m. Settled run.named m) node_same settled)
          | inr miss ↦ elim state [
            | inl busy ↦ inl (rw miss at (rw same at busy))
            | inr done ↦ inr done
          ]
        ],
      )
