-- ===== src/Release/Path/Walk.antt =====
-- Walks in the update graph, and what one visit of the search changes.
pub mod Invariant
pub mod Rounds
pub mod Shortest
pub mod Result
use oc_mirror_operator.Base.{
  ℕ, zero, suc, ◌+◌, ◌<◌, ◌≤◌, ◌≡◌, ◌≢◌, refl, Bool, true, false, Option, none, some, List, [], ◌∷◌,
  ◌++◌, arith, if◌then◌else◌, eqb, ltb, length, get_elem?, set, get_elem?-set, length-set, ap,
  get_elem?-lt, Option-cases, inl, inr,
}
use mathlib.Core.List.{Memᴰ}
use mathlib.Core.List.Memᴰ
use oc_mirror_operator.Release.{ℤ}
use oc_mirror_operator.Release.Path.{
  Search, marked, is_true, visit, adj, add_target, edge_ends, both, in_range,
}

-- an edge of the graph whose two ends are nodes
abbrev pub Edge : ℕ → List (List ℤ) → ℕ → ℕ → Type 0
Edge n edges u v = Memᴰ v (adj n edges u)

-- the walks of a given length from a node
pub data Reach (n : ℕ) (edges : List (List ℤ)) (from_idx : ℕ) : ℕ → ℕ → Type 0 where
  here : Reach n edges from_idx 0 from_idx
  step :
      {k u v : ℕ} → Reach n edges from_idx k u → Edge n edges u v → Reach n edges from_idx (suc k) v

-- consecutive nodes of the list are joined by edges
abbrev pub IsWalk : ℕ → List (List ℤ) → List ℕ → Type 0
IsWalk n edges [] = Unit
IsWalk n edges (u ∷ []) = Unit
IsWalk n edges (u ∷ v ∷ path) = Edge n edges u v × IsWalk n edges (v ∷ path)

-- the predecessors lead back to the source in `k` steps
abbrev pub Chain : ℕ → List (List ℤ) → ℕ → Search → ℕ → ℕ → Type 0
Chain n edges from_idx s zero v = v ≡ from_idx
Chain n edges from_idx s (suc k) v =
    (v ≢ from_idx)
    × (u : ℕ) × (get_elem? s.prev v ≡ some (some u))
    × Edge n edges u v
    × (marked s u ≡ true)
    × Chain n edges from_idx s k u

-- how many nodes are not visited yet
abbrev pub unseen : List Bool → ℕ
unseen [] = 0
unseen (true ∷ visited) = unseen visited
unseen (false ∷ visited) = suc (unseen visited)

pub unseen-set :
    (visited : List Bool) (i : ℕ)
    → i < length visited
    → is_true (get_elem? visited i) ≡ false
    → suc (unseen (set visited i true)) ≡ unseen visited
unfolding get_elem? set
unseen-set [] i h new = absurd (omega arith)
unseen-set (false ∷ visited) zero h new = refl
unseen-set (true ∷ visited) zero h new = ground arith
unseen-set (false ∷ visited) (suc i) h new = ap suc (unseen-set visited i (omega arith) new)
unseen-set (true ∷ visited) (suc i) h new = unseen-set visited i (omega arith) new

pub marked-lt : (s : Search) (v : ℕ) → marked s v ≡ true → v < length s.visited
marked-lt s v h = elim (Option-cases (get_elem? s.visited v)) [
  | inl missing ↦ ground arith
  | inr (b, found) ↦ get_elem?-lt s.visited v b found
]

module _ (curr : ℕ) (s : Search) (next : ℕ) (inside : next < length s.visited) where
  pub marked-visit :
      (w : ℕ) → marked (visit curr s next) w ≡ (if eqb next w then true else marked s w)
  unfolding visit
  marked-visit w = ground (arith, get_elem?-set s.visited next w true)

  pub prev-visit :
      (w : ℕ)
      → length s.prev ≡ length s.visited
      → get_elem? (visit curr s next).prev w
        ≡ (if eqb next w then some (some curr) else get_elem? s.prev w)
  unfolding visit
  prev-visit w h = ground (arith, get_elem?-set s.prev next w (some curr))

  -- a chain uses visited nodes only, and a visit leaves their predecessors alone
  pub Chain-visit :
      (n : ℕ) (edges : List (List ℤ)) (from_idx k v : ℕ)
      → length s.prev ≡ length s.visited
      → marked s next ≡ false
      → marked s v ≡ true
      → Chain n edges from_idx s k v
      → Chain n edges from_idx (visit curr s next) k v
  Chain-visit n edges from_idx zero v h new old c = c
  Chain-visit n edges from_idx (suc k) v h new old (other, u, before, edge, m, c) = (
    other,
    u,
    ground (arith, prev-visit v h),
    edge,
    ground (arith, marked-visit u),
    Chain-visit n edges from_idx k u h new m c,
  )
