-- ===== src/Release/Select.antt =====
-- `ResolveReleaseNodes`, `ResolveLatestVersion` and `latestNode` (pkg/mirror/release/release.go)
-- on a graph that was fetched. The error texts are values.
pub mod Bounds
pub mod Latest
pub mod Upgrade
use oc_mirror_operator.Base.{
  ℕ, String, Bool, true, false, Option, none, some, List, [], ◌∷◌, not, ◌==◌, ◌&&◌, if◌then◌else◌,
  length, get_elem?, map,
}
use oc_mirror_operator.Base.Dict.{lookup}
use oc_mirror_operator.Release.{Node, Graph}
use oc_mirror_operator.Release.Path.{
  version_index, path_between, PathResult, path_nodes, no_path, stuck,
}

pub data ResolveError : Type 0 where
  version_not_in_channel version_not_in_graph : String → ResolveError
  unparsable_min unparsable_max : String → ResolveError
  no_upgrade_path no_nodes loop_stuck : ResolveError

pub data Resolved : Type 0 where
  resolved : List Node → Resolved
  refused : ResolveError → Resolved

-- `graph.Nodes[idx]` for each index of a path
unfoldable pub nodes_at : List Node → List ℕ → List Node
nodes_at nodes [] = []
nodes_at nodes (i ∷ path) =
    let rest = nodes_at nodes path in
    elim (get_elem? nodes i) [ none ↦ rest | some node ↦ node ∷ rest ]

abbrev pub nodes_of_path : List Node → PathResult → Resolved
nodes_of_path nodes (path_nodes path) = resolved (nodes_at nodes path)
nodes_of_path nodes no_path = refused no_upgrade_path
nodes_of_path nodes stuck = refused loop_stuck

-- the path between the indexes of the two versions, where both are in the graph
abbrev pub nodes_of_indexes : Graph → String → String → Option ℕ → Option ℕ → Resolved
nodes_of_indexes graph from_version to_version none to_idx =
    refused (version_not_in_graph from_version)
nodes_of_indexes graph from_version to_version (some from_idx) none =
    refused (version_not_in_graph to_version)
nodes_of_indexes graph from_version to_version (some from_idx) (some to_idx) =
    nodes_of_path graph.nodes (path_between (length graph.nodes) graph.edges from_idx to_idx)

unfoldable pub shortest_path_nodes : Graph → String → String → Resolved
shortest_path_nodes graph from_version to_version =
    let index = version_index 0 graph.nodes [] in
    nodes_of_indexes graph from_version to_version (lookup from_version index)
      (lookup to_version index)

-- the first node with the version
unfoldable pub find_version : String → List Node → Option Node
find_version version [] = none
find_version version (node ∷ nodes) =
    if node.version == version then some node else find_version version nodes

module _ {V : Type 0} (parse_tolerant : String → Option V) (gte gt : V → V → Bool) where
  -- the nodes whose version parses and passes the test
  abbrev pub passes : (V → Bool) → Option V → Bool
  passes test none = false
  passes test (some sv) = test sv

  unfoldable pub nodes_where : (V → Bool) → List Node → List Node
  nodes_where test [] = []
  nodes_where test (node ∷ nodes) =
      let rest = nodes_where test nodes in
      if passes test (parse_tolerant node.version) then node ∷ rest else rest

  -- `sv.LTE(max)` is `max.GTE(sv)`
  unfoldable pub nodes_between : String → String → List Node → Resolved
  nodes_between min_version max_version nodes = elim (parse_tolerant min_version) [
    | none ↦ refused (unparsable_min min_version)
    | some min_sv ↦ elim (parse_tolerant max_version) [
      | none ↦ refused (unparsable_max max_version)
      | some max_sv ↦ resolved (nodes_where (λ sv. gte sv min_sv && gte max_sv sv) nodes)
    ]
  ]

  unfoldable pub nodes_from : String → List Node → Resolved
  nodes_from min_version nodes = elim (parse_tolerant min_version) [
    | none ↦ refused (unparsable_min min_version)
    | some min_sv ↦ resolved (nodes_where (λ sv. gte sv min_sv) nodes)
  ]

  -- one step of the loop of `latestNode`
  abbrev pub better : Node → Node → Option V → Option V → Node
  better best node none best_sv = best
  better best node (some sv) none = node
  better best node (some sv) (some best_sv) = if gt sv best_sv then node else best

  unfoldable pub latest_of : Node → List Node → Node
  latest_of best [] = best
  latest_of best (node ∷ nodes) =
      latest_of (better best node (parse_tolerant node.version) (parse_tolerant best.version)) nodes

  unfoldable pub latest_node : List Node → Option Node
  latest_node [] = none
  latest_node (node ∷ nodes) = some (latest_of node nodes)

  abbrev pub only : ResolveError → Option Node → Resolved
  only err none = refused err
  only err (some node) = resolved (node ∷ [])

  unfoldable pub resolve_release_nodes : Graph → String → String → Bool → Bool → Resolved
  unfolding latest_node nodes_between nodes_from
  resolve_release_nodes graph min_version max_version full shortest_path =
      if full
      then resolved graph.nodes
      else if min_version == "" && not (max_version == "")
      then only (version_not_in_channel max_version) (find_version max_version graph.nodes)
      else if not (min_version == "") && not (max_version == "")
      then if shortest_path
        then shortest_path_nodes graph min_version max_version
        else nodes_between min_version max_version graph.nodes
      else if not (min_version == "")
      then nodes_from min_version graph.nodes
      else only no_nodes (latest_node graph.nodes)

-- `NodeImages`
abbrev pub node_images : List Node → List String
node_images nodes = map (λ node. node.image) nodes

-- `ResolveRelease`
unfoldable pub release_images : Resolved → Option (List String)
release_images (resolved nodes) = some (node_images nodes)
release_images (refused err) = none
