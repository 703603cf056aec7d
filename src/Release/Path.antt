-- ===== src/Release/Path.antt =====
-- `shortestPathNodes` (pkg/mirror/release/release.go): a breadth-first search in the update graph
-- and the path that its predecessor array gives. `none` in that array is the source's -1.
pub mod Walk
use oc_mirror_operator.Base.{
  ℕ, zero, suc, ◌+◌, String, Bool, true, false, Option, none, some, List, [], ◌∷◌, ◌++◌, not, ◌&&◌,
  if◌then◌else◌, ltb, eqb, length, get_elem?, set, replicate,
}
use oc_mirror_operator.Base.Dict.{Dict, lookup, insert}
use oc_mirror_operator.Release.{Node, Graph, ℤ, pos, negsuc}

-- the last node with a version has its index
unfoldable pub version_index : ℕ → List Node → Dict ℕ → Dict ℕ
version_index i [] index = index
version_index i (node ∷ nodes) index = version_index (suc i) nodes (insert node.version i index)

-- an edge with two ends, both of them indices of nodes
abbrev pub in_range : ℕ → ℤ → Option ℕ
in_range n (pos i) = if ltb i n then some i else none
in_range n (negsuc i) = none

abbrev pub both : Option ℕ → Option ℕ → Option (ℕ × ℕ)
both none y = none
both (some x) none = none
both (some x) (some y) = some (x, y)

abbrev pub edge_ends : ℕ → List ℤ → Option (ℕ × ℕ)
edge_ends n [] = none
edge_ends n (x ∷ []) = none
edge_ends n (x ∷ y ∷ []) = both (in_range n x) (in_range n y)
edge_ends n (x ∷ y ∷ z ∷ edge) = none

abbrev pub add_target : ℕ → Option (ℕ × ℕ) → List ℕ → List ℕ
add_target u none targets = targets
add_target u (some (x, y)) targets = if eqb x u then y ∷ targets else targets

-- `adj[u]`: the targets of the edges from `u`, in their order
unfoldable pub adj : ℕ → List (List ℤ) → ℕ → List ℕ
adj n [] u = []
adj n (edge ∷ edges) u = add_target u (edge_ends n edge) (adj n edges u)

pub record Search : Type 0 where
  pub visited : List Bool
  pub prev : List (Option ℕ)
  pub queue : List ℕ

abbrev pub is_true : Option Bool → Bool
is_true none = false
is_true (some b) = b

abbrev pub marked : Search → ℕ → Bool
marked s v = is_true (get_elem? s.visited v)

unfoldable pub visit : ℕ → Search → ℕ → Search
visit curr s next = record {
  visited = set s.visited next true;
  prev = set s.prev next (some curr);
  queue = s.queue ++ next ∷ [];
}

unfoldable pub offer : ℕ → Search → ℕ → Search
offer curr s next =
    if not (ltb next (length s.visited)) then s else if marked s next then s else visit curr s next

unfoldable pub offer_all : ℕ → Search → List ℕ → Search
offer_all curr s [] = s
offer_all curr s (next ∷ targets) = offer_all curr (offer curr s next) targets

pub data Outcome : Type 0 where
  found exhausted : Search → Outcome
  out_of_fuel : Outcome

module _ (n : ℕ) (edges : List (List ℤ)) (to_idx : ℕ) where
  abbrev pub expand : Search → ℕ → List ℕ → Search
  expand s curr rest = offer_all curr (record s { queue = rest }) (adj n edges curr)

  unfoldable pub search_loop : ℕ → Search → Outcome
  search_loop zero s = elim s.queue [ [] ↦ exhausted s | _ ∷ _ ↦ out_of_fuel ]
  search_loop (suc fuel) s = elim s.queue [
    | [] ↦ exhausted s
    | curr ∷ rest ↦ elim (eqb curr to_idx) [
      | true ↦ found s
      | false ↦ search_loop fuel (expand s curr rest)
    ]
  ]

abbrev pub initial : ℕ → ℕ → Search
initial n from_idx = record {
  visited = set (replicate n false) from_idx true;
  prev = replicate n none;
  queue = from_idx ∷ [];
}

-- the loop over `prev`; `none` when it reads -1 or out of range, or the rounds are used up
unfoldable pub walk_back : ℕ → List (Option ℕ) → ℕ → ℕ → List ℕ → Option (List ℕ)
walk_back zero prev from_idx curr path = none
walk_back (suc fuel) prev from_idx curr path = elim (eqb curr from_idx) [
  | true ↦ some (from_idx ∷ path)
  | false ↦ elim (get_elem? prev curr) [
    | none ↦ none
    | some none ↦ none
    | some (some before) ↦ walk_back fuel prev from_idx before (curr ∷ path)
  ]
]

pub data PathResult : Type 0 where
  path_nodes : List ℕ → PathResult
  no_path : PathResult
  stuck : PathResult

-- the search from one index to another, each loop with a round for every node
unfoldable pub path_between : ℕ → List (List ℤ) → ℕ → ℕ → PathResult
path_between n edges from_idx to_idx = elim (search_loop n edges to_idx n (initial n from_idx)) [
  | out_of_fuel ↦ stuck
  | exhausted s ↦ no_path
  | found s ↦ elim (walk_back n s.prev from_idx to_idx []) [
    | none ↦ stuck
    | some path ↦ path_nodes path
  ]
]
