-- ===== src/Release/Select/Upgrade.antt =====
-- What `shortestPathNodes` (pkg/mirror/release/release.go) gives for two versions of a graph.
use oc_mirror_operator.Base.{
  ℕ, suc, ◌≤◌, String, ◌≡◌, ◌≢◌, ◌⊎◌, refl, Option, none, some, List, [], ◌∷◌, arith, eq_iff,
  Option-cases, inl, inr, sym, ◌∙◌, length, get_elem?, get_elem?-none, get_elem?-lt, ap,
}
use mathlib.Core.List.{Memᴰ}
use mathlib.Core.List.Memᴰ
use oc_mirror_operator.Base.Dict.{Dict, lookup, insert, lookup-insert, lookup-nil}
use oc_mirror_operator.Release.{Node, Graph}
use oc_mirror_operator.Release.Path.{
  version_index, path_between, PathResult, path_nodes, no_path, stuck,
}
use oc_mirror_operator.Release.Path.Walk.{Edge, Reach, IsWalk}
use oc_mirror_operator.Release.Path.Walk.Rounds.{Edge-lt}
use oc_mirror_operator.Release.Path.Walk.Result.{IsShortest, path_between-IsShortest, last}
use oc_mirror_operator.Release.Select.{
  nodes_at, nodes_of_path, nodes_of_indexes, shortest_path_nodes, Resolved, resolved, refused,
  version_not_in_graph, no_upgrade_path,
}
use oc_mirror_operator.Release.Select.Bounds.{version_index-get}

-- the last node of a selection that starts with `node`
abbrev pub last_node : Node → List Node → Node
last_node node [] = node
last_node node (next ∷ nodes) = last_node next nodes

-- no node of the list has the version
abbrev pub Lacks : String → List Node → Type 0
Lacks version nodes = (node : Node) → Memᴰ node nodes → node.version ≢ version

version_index-Lacks :
    (before : ℕ) (nodes : List Node) (index : Dict ℕ) (version : String)
    → lookup version (version_index before nodes index) ≡ none
    → (lookup version index ≡ none) × Lacks version nodes
unfolding version_index
version_index-Lacks before [] index version h = (h, λ node m. absurd (Memᴰ.not-nil m))
version_index-Lacks before (x ∷ nodes) index version h =
    let rest = version_index-Lacks (suc before) nodes (insert x.version before index) version h in
    let law = lookup-insert x.version version before index in
    (
      ground (arith, rest.0, law),
      λ node m e. elim (Memᴰ.cases_cons m) [
        | inl same ↦
            let e' : x.version ≡ version = ap (λ y. y.version) (sym same) ∙ e in
            ground (arith, rest.0, law, (eq_iff x.version version).1 e')
        | inr later ↦ rest.1 node later e
      ],
    )

module _ (graph : Graph) where
  abbrev size : ℕ
  size = length graph.nodes

  -- some edge of the graph leads from a node like `a` to a node like `b`
  abbrev pub IsStep : Node → Node → Type 0
  IsStep a b =
      (i : ℕ) × (j : ℕ) × (get_elem? graph.nodes i ≡ some a)
      × (get_elem? graph.nodes j ≡ some b)
      × Edge size graph.edges i j

  abbrev pub AreSteps : Node → List Node → Type 0
  AreSteps node [] = Unit
  AreSteps node (next ∷ nodes) = IsStep node next × AreSteps next nodes

  -- an index of a node with the version
  abbrev pub HasVersion : ℕ → String → Type 0
  HasVersion i version =
      (node : Node) × (get_elem? graph.nodes i ≡ some node) × (node.version ≡ version)

  -- what a selection for two versions is
  abbrev pub IsUpgrade : String → String → Resolved → Type 0
  IsUpgrade from_version to_version (resolved []) = ⊥
  IsUpgrade from_version to_version (resolved (node ∷ nodes)) =
      (node.version ≡ from_version)
      × ((last_node node nodes).version ≡ to_version)
      × AreSteps node nodes
      × (i : ℕ) × (j : ℕ) × HasVersion i from_version
      × HasVersion j to_version
      × ((k : ℕ) → Reach size graph.edges i k j → length nodes ≤ k)
  IsUpgrade from_version to_version (refused (version_not_in_graph version)) =
      ((version ≡ from_version) ⊎ (version ≡ to_version)) × Lacks version graph.nodes
  IsUpgrade from_version to_version (refused no_upgrade_path) =
      (i : ℕ) × (j : ℕ) × HasVersion i from_version
      × HasVersion j to_version
      × ((k : ℕ) → ¬ Reach size graph.edges i k j)
  IsUpgrade from_version to_version (refused err) = ⊥

  nodes_at-cons :
      (u : ℕ) (path : List ℕ) (node : Node)
      → get_elem? graph.nodes u ≡ some node
      → nodes_at graph.nodes (u ∷ path) ≡ node ∷ nodes_at graph.nodes path
  unfolding nodes_at
  nodes_at-cons u path node e = ground (arith, e)

  -- the nodes at the indexes of a walk
  record Picked (u : ℕ) (path : List ℕ) (node : Node) : Type 0 where
    rest : List Node
    here_is : nodes_at graph.nodes (u ∷ path) ≡ node ∷ rest
    steps : AreSteps node rest
    end_is : get_elem? graph.nodes (last u path) ≡ some (last_node node rest)
    size_is : length rest ≡ length path

  walk-Picked :
      (u : ℕ) (path : List ℕ) (node : Node)
      → get_elem? graph.nodes u ≡ some node
      → IsWalk size graph.edges (u ∷ path)
      → Picked u path node
  unfolding nodes_at
  walk-Picked u [] node e w = record {
    rest = [];
    here_is = ground (arith, e);
    steps = _;
    end_is = e;
    size_is = refl;
  }
  walk-Picked u (v ∷ path) node e (edge, w) = elim (Option-cases (get_elem? graph.nodes v)) [
    | inl out ↦
        absurd (omega (arith, get_elem?-none graph.nodes v out, Edge-lt size graph.edges u v edge))
    | inr (next, e') ↦
        let p = walk-Picked v path next e' w in
        record {
          rest = next ∷ p.rest;
          here_is = nodes_at-cons u (v ∷ path) node e ∙ ap (λ x. node ∷ x) p.here_is;
          steps = ((u, v, e, e', edge), p.steps);
          end_is = p.end_is;
          size_is = ap suc p.size_is;
        }
  ]

  found_version :
      (version : String) (i : ℕ)
      → lookup version (version_index 0 graph.nodes []) ≡ some i
      → HasVersion i version
  found_version version i h =
      version_index-get 0 (get_elem? graph.nodes) graph.nodes [] version i
        (λ k. ap (get_elem? graph.nodes) (omega arith))
        (λ j e. ground (arith, e, lookup-nil {V = ℕ} version)) h

  result-IsUpgrade :
      (from_version to_version : String) (i j : ℕ)
      → HasVersion i from_version
      → HasVersion j to_version
      → (result : PathResult) → IsShortest size graph.edges i j result
      → IsUpgrade from_version to_version (nodes_of_path graph.nodes result)
  result-IsUpgrade from_version to_version i j a b stuck s = absurd s
  result-IsUpgrade from_version to_version i j a b no_path s = (i, j, a, b, s)
  result-IsUpgrade from_version to_version i j a b (path_nodes []) s = absurd s
  result-IsUpgrade from_version to_version i j a b (path_nodes (u ∷ path))
        (start, walk, ends, least) =
      let p = walk-Picked u path a.0 (ap (get_elem? graph.nodes) start ∙ a.1) walk in
      let same : some (last_node a.0 p.rest) ≡ some b.0 =
        sym p.end_is ∙ ap (get_elem? graph.nodes) ends ∙ b.1 in
      let at_end : last_node a.0 p.rest ≡ b.0 = ground (arith, same) in
      rw p.here_is (
        a.2,
        ap (λ x. x.version) at_end ∙ b.2,
        p.steps,
        i,
        j,
        a,
        b,
        λ k r. omega (arith, p.size_is, least k r),
      )

  indexes-IsUpgrade :
      (from_version to_version : String) (from_idx to_idx : Option ℕ)
      → lookup from_version (version_index 0 graph.nodes []) ≡ from_idx
      → lookup to_version (version_index 0 graph.nodes []) ≡ to_idx
      → IsUpgrade from_version to_version
          (nodes_of_indexes graph from_version to_version from_idx to_idx)
  indexes-IsUpgrade from_version to_version none to_idx h h' =
      (inl refl, (version_index-Lacks 0 graph.nodes [] from_version h).1)
  indexes-IsUpgrade from_version to_version (some i) none h h' =
      (inr refl, (version_index-Lacks 0 graph.nodes [] to_version h').1)
  indexes-IsUpgrade from_version to_version (some i) (some j) h h' =
      let a = found_version from_version i h in
      result-IsUpgrade from_version to_version i j a (found_version to_version j h')
        (path_between size graph.edges i j)
        (path_between-IsShortest size graph.edges i j (get_elem?-lt graph.nodes i a.0 a.1))

  -- For two versions the selection is a chain of edges from a node with the first to a node with
  -- the second, with no more nodes than any walk between these two; or a version that no node has
  -- is reported, or the two are not joined by any walk. The search never stops early.
  pub shortest_path_nodes-IsUpgrade :
      (from_version to_version : String)
      → IsUpgrade from_version to_version (shortest_path_nodes graph from_version to_version)
  unfolding shortest_path_nodes
  shortest_path_nodes-IsUpgrade from_version to_version =
      indexes-IsUpgrade from_version to_version
        (lookup from_version (version_index 0 graph.nodes []))
        (lookup to_version (version_index 0 graph.nodes [])) refl refl
