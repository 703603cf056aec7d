-- ===== src/Release/Path/Walk/Result.antt =====
-- The path that the search gives is a shortest walk, and where it gives none there is none.
use oc_mirror_operator.Base.{
  ℕ, zero, suc, ◌+◌, ◌<◌, ◌≤◌, ◌≡◌, ◌⊎◌, refl, true, false, Option, none, some, List, [], ◌∷◌,
  arith, eqb, length, inl, inr, ◌∙◌, subst, sym, ap, replicate, length-set, length-replicate,
  get_elem?-set, get_elem?-replicate,
}
use mathlib.Core.List.{Memᴰ}
use mathlib.Core.List.Memᴰ
use oc_mirror_operator.Release.{ℤ}
use oc_mirror_operator.Release.Path.{
  Search, marked, initial, Outcome, found, exhausted, out_of_fuel, walk_back, PathResult,
  path_nodes, no_path, stuck, path_between,
}
use oc_mirror_operator.Release.Path.Walk.{Chain, IsWalk, unseen, unseen-set, Reach, here, step}
use oc_mirror_operator.Release.Path.Walk.Invariant.{Inv, IsOrdered}
use oc_mirror_operator.Release.Path.Walk.Rounds.{Between}
use oc_mirror_operator.Release.Path.Walk.Shortest.{Ends, at_target, at_empty, search_loop-Ends}

-- the last node of a walk
abbrev pub last : ℕ → List ℕ → ℕ
last u [] = u
last u (v ∷ path) = last v path

unseen-replicate : (n : ℕ) → unseen (replicate n false) ≡ n
unfolding replicate
unseen-replicate zero = refl
unseen-replicate (suc n) = ap suc (unseen-replicate n)

module _ (n : ℕ) (edges : List (List ℤ)) (from_idx : ℕ) where
  module _ (inside : from_idx < n) where
    abbrev start : Search
    start = initial n from_idx

    marked-start : (v : ℕ) → marked start v ≡ eqb from_idx v
    marked-start v = ground (
      arith,
      get_elem?-set (replicate n false) from_idx v true,
      length-replicate n false,
      get_elem?-replicate n false v,
    )

    start_source : (v : ℕ) → marked start v ≡ true → v ≡ from_idx
    start_source v m = ground (arith, marked-start v)

    start_unseen : suc (unseen start.visited) ≡ n
    start_unseen =
        unseen-set (replicate n false) from_idx (omega (arith, length-replicate {0} n false))
          (ground (arith, get_elem?-replicate n false from_idx))
        ∙ unseen-replicate n

    start-Inv : Inv n edges from_idx start (λ _. 0) 0
    start-Inv = record {
      size = length-set (replicate n false) from_idx true ∙ length-replicate n false;
      prev_size = length-replicate n none;
      source = ground (arith, marked-start from_idx);
      source_level = refl;
      queued = λ v q.
          subst (λ x. marked start x ≡ true) (sym (Memᴰ.eq_of_singleton q))
            (ground (arith, marked-start from_idx));
      fits = λ v m. omega (arith, start_unseen);
      chain = start_source;
      ordered = (λ y q. absurd (Memᴰ.not-nil q), _);
      above = λ v q. omega arith;
      bounded = λ v m. omega arith;
    }

    start-Between : (to_idx : ℕ) → Between n edges from_idx to_idx start (λ _. 0) 0
    start-Between to_idx = record {
      inv = start-Inv;
      closed = λ u v m edge. inl (Memᴰ.head (start_source u m));
      target = λ m. Memᴰ.head (start_source to_idx m);
    }

  -- a node at the end of a walk of `k` steps is visited on a level up to `k`, unless the walk leads
  -- through a waiting node on such a level
  frontier :
      (to_idx : ℕ) (s : Search) (level : ℕ → ℕ) (low : ℕ)
      → Between n edges from_idx to_idx s level low
      → {k x : ℕ} → Reach n edges from_idx k x
      → ((y : ℕ) × Memᴰ y s.queue × (level y ≤ k)) ⊎ ((marked s x ≡ true) × (level x ≤ k))
  frontier to_idx s level low b here = inr (b.inv.source, omega (arith, b.inv.source_level))
  frontier to_idx s level low b (step {k} {u} {v} r edge) = elim (frontier to_idx s level low b r) [
    | inl (y, q, h) ↦ inl (y, q, omega arith)
    | inr (m, h) ↦ elim (b.closed u v m edge) [
      | inl q ↦ inl (u, q, omega arith)
      | inr (m', bound) ↦ inr (m', omega arith)
    ]
  ]

  level_least :
      (to_idx k : ℕ) (rest : List ℕ) (s : Search) (level : ℕ → ℕ) (low : ℕ)
      → s.queue ≡ to_idx ∷ rest
      → Between n edges from_idx to_idx s level low
      → Reach n edges from_idx k to_idx
      → level to_idx ≤ k
  level_least to_idx k rest s level low e b r = elim (frontier to_idx s level low b r) [
    | inr (m, h) ↦ h
    | inl (y, q, h) ↦ elim (Memᴰ.cases_cons (subst (Memᴰ y) e q)) [
      | inl same ↦ omega (arith, ap level same)
      | inr later ↦ omega (arith, (subst (IsOrdered level) e b.inv.ordered).0 y later)
    ]
  ]

  -- what the loop over `prev` gives from the end of a chain
  record Back (k v : ℕ) (path : List ℕ) (out : Option (List ℕ)) : Type 0 where
    walk : List ℕ
    result : out ≡ some (from_idx ∷ walk)
    joined : IsWalk n edges (from_idx ∷ walk)
    ends : last from_idx walk ≡ last v path
    steps : length walk ≡ k + length path

  walk_back-Back :
      (s : Search) (k fuel v : ℕ) (path : List ℕ)
      → k < fuel
      → Chain n edges from_idx s k v
      → IsWalk n edges (v ∷ path)
      → Back k v path (walk_back fuel s.prev from_idx v path)
  unfolding walk_back
  walk_back-Back s k zero v path h c w = absurd (omega arith)
  walk_back-Back s zero (suc fuel) v path h c w = record {
    walk = path;
    result = ground arith;
    joined = subst (λ x. IsWalk n edges (x ∷ path)) c w;
    ends = ap (λ x. last x path) (sym c);
    steps = omega arith;
  }
  walk_back-Back s (suc k) (suc fuel) v path h (other, u, before, edge, m, c) w =
      let b = walk_back-Back s k fuel u (v ∷ path) (omega arith) c (edge, w) in
      record {
        walk = b.walk;
        result = ground (arith, b.result);
        joined = b.joined;
        ends = b.ends;
        steps = b.steps ∙ omega arith;
      }

  -- a shortest walk, or the proof that there is none
  abbrev pub IsShortest : ℕ → PathResult → Type 0
  IsShortest to_idx (path_nodes []) = ⊥
  IsShortest to_idx (path_nodes (u ∷ path)) =
      (u ≡ from_idx)
      × IsWalk n edges (u ∷ path)
      × (last u path ≡ to_idx)
      × ((k : ℕ) → Reach n edges from_idx k to_idx → length path ≤ k)
  IsShortest to_idx no_path = (k : ℕ) → ¬ Reach n edges from_idx k to_idx
  IsShortest to_idx stuck = ⊥

  found-IsShortest :
      (to_idx : ℕ) (s : Search) (level : ℕ → ℕ) (low : ℕ) (rest : List ℕ)
      → s.queue ≡ to_idx ∷ rest
      → Between n edges from_idx to_idx s level low
      → IsShortest to_idx (elim (walk_back n s.prev from_idx to_idx []) [
        | none ↦ stuck
        | some path ↦ path_nodes path
      ])
  found-IsShortest to_idx s level low rest e b =
      let m = b.inv.queued to_idx (subst (Memᴰ to_idx) (sym e) (Memᴰ.head refl)) in
      let back =
        walk_back-Back s (level to_idx) n to_idx [] (omega (arith, b.inv.fits to_idx m))
          (b.inv.chain to_idx m) _ in
      rw back.result (
        refl,
        back.joined,
        back.ends,
        λ k r. omega (arith, back.steps, level_least to_idx k rest s level low e b r),
      )

  outcome-IsShortest :
      (to_idx : ℕ) {o : Outcome}
      → Ends n edges from_idx to_idx o
      → IsShortest to_idx (elim o [
        | out_of_fuel ↦ stuck
        | exhausted s ↦ no_path
        | found s ↦ elim (walk_back n s.prev from_idx to_idx []) [
          | none ↦ stuck
          | some path ↦ path_nodes path
        ]
      ])
  outcome-IsShortest to_idx (at_target s level low rest e b) =
      found-IsShortest to_idx s level low rest e b
  outcome-IsShortest to_idx (at_empty s level low e b) = λ k r.
      elim (frontier to_idx s level low b r) [
        | inl (y, q, h) ↦ absurd (Memᴰ.not-nil (subst (Memᴰ y) e q))
        | inr (m, h) ↦ absurd (Memᴰ.not-nil (subst (Memᴰ to_idx) e (b.target m)))
      ]

  -- From a node of the graph the search always ends. Its path starts at the source, follows edges,
  -- ends at the target and is as short as any walk; it gives none only where no walk leads to the
  -- target.
  pub path_between-IsShortest :
      (to_idx : ℕ) → from_idx < n → IsShortest to_idx (path_between n edges from_idx to_idx)
  unfolding path_between
  path_between-IsShortest to_idx inside = outcome-IsShortest to_idx (
      search_loop-Ends n edges from_idx to_idx n (initial n from_idx) (λ _. 0) 0
        (omega (arith, start_unseen inside)) (start-Between inside to_idx))
