-- ===== src/Tests/Releases.antt =====
-- A release channel on concrete inputs. A version is read by its length.
use oc_mirror_operator.Base.{
  ℕ, String, Bool, ◌≡◌, ◌⊎◌, Option, false, none, some, List, [], ◌∷◌, arith, ltb, not, get_elem?,
  if◌then◌else◌, ◌==◌, eq_iff, set, replicate,
}
use oc_mirror_operator.Base.Dict.{insert, lookup}
use mathlib.Core.List.{Memᴰ}
use oc_mirror_operator.Release.{Node, Graph, pos, negsuc}
use oc_mirror_operator.Release.Path.{
  path_between, path_nodes, search_loop, offer_all, adj, offer, visit, walk_back, version_index,
}
use oc_mirror_operator.Release.Path.Walk.Result.{IsShortest, path_between-IsShortest}
use oc_mirror_operator.Release.Select.{
  shortest_path_nodes, latest_node, nodes_at, resolved, refused, unparsable_min, unparsable_max,
  resolve_release_nodes,
}
use oc_mirror_operator.Release.Select.Upgrade.{IsUpgrade, shortest_path_nodes-IsUpgrade}
use oc_mirror_operator.Release.Select.Latest.{IsVersionOrder, latest_node-NotAbove, NotAbove}
use oc_mirror_operator.Release.Select.Bounds.{IsRange, resolve_release_nodes-IsRange}

abbrev r1 : Node
r1 = record { version = "1"; image = "image-1" }

abbrev r2 : Node
r2 = record { version = "2"; image = "image-2" }

abbrev r3 : Node
r3 = record { version = "3"; image = "image-3" }

-- from 1 to 2 to 3, from 1 to 3, and edges that are skipped
abbrev channel : Graph
channel = record {
  nodes = r1 ∷ r2 ∷ r3 ∷ [];
  edges =
      (pos 0 ∷ pos 1 ∷ [])
      ∷ (pos 1 ∷ pos 2 ∷ [])
      ∷ (pos 0 ∷ pos 2 ∷ [])
      ∷ (pos 2 ∷ [])
      ∷ (negsuc 0 ∷ pos 1 ∷ [])
      ∷ [];
}

abbrev parse : String → Option ℕ
parse version =
    if version == "1"
    then some 1
    else if version == "2"
    then some 2
    else if version == "3"
    then some 3
    else none

abbrev gt : ℕ → ℕ → Bool
gt a b = ltb b a

abbrev gte : ℕ → ℕ → Bool
gte a b = not (ltb a b)

gt-IsVersionOrder : IsVersionOrder gt
gt-IsVersionOrder = record {
  irreflexive = λ a. ground arith;
  cotransitive = λ a b c h k. ground (arith, h, k);
  asymmetric = λ a b h. ground (arith, h);
}

path_between-IsShortest_example : IsShortest 3 channel.edges 0 2 (path_nodes (0 ∷ 2 ∷ []))
unfolding path_between search_loop offer_all adj offer set replicate get_elem? visit walk_back
path_between-IsShortest_example = path_between-IsShortest 3 channel.edges 0 2 (omega arith)

shortest_path_nodes-IsUpgrade_example : IsUpgrade channel "1" "3" (resolved (r1 ∷ r3 ∷ []))
unfolding path_between search_loop offer_all adj offer set replicate get_elem? visit walk_back
    shortest_path_nodes version_index insert lookup nodes_at
shortest_path_nodes-IsUpgrade_example = shortest_path_nodes-IsUpgrade channel "1" "3"

latest_node-NotAbove_example :
    (latest : Node) × (latest_node parse gte gt (r2 ∷ r3 ∷ r1 ∷ []) ≡ some latest)
    × Memᴰ latest (r2 ∷ r3 ∷ r1 ∷ [])
    × ((node : Node)
        → Memᴰ node (r2 ∷ r3 ∷ r1 ∷ [])
        → NotAbove parse gte gt gt-IsVersionOrder (parse node.version) (parse latest.version))
latest_node-NotAbove_example = latest_node-NotAbove parse gte gt gt-IsVersionOrder r2 (r3 ∷ r1 ∷ [])

resolve_release_nodes-IsRange_example :
    ((min_sv : ℕ) × (max_sv : ℕ) × (nodes : List Node) × (parse "2" ≡ some min_sv)
      × (parse "3" ≡ some max_sv)
      × (resolve_release_nodes parse gte gt channel "2" "3" false false ≡ resolved nodes)
      × IsRange parse gte min_sv max_sv channel.nodes nodes)
    ⊎ (((parse "2" ≡ none)
          × (resolve_release_nodes parse gte gt channel "2" "3" false false
              ≡ refused (unparsable_min "2")))
        ⊎ ((min_sv : ℕ) × (parse "2" ≡ some min_sv)
            × (parse "3" ≡ none)
            × (resolve_release_nodes parse gte gt channel "2" "3" false false
                ≡ refused (unparsable_max "3"))))
resolve_release_nodes-IsRange_example =
    resolve_release_nodes-IsRange parse gte gt channel "2" "3"
      (λ e. ground (arith, (eq_iff "2" "").1 e)) (λ e. ground (arith, (eq_iff "3" "").1 e))
