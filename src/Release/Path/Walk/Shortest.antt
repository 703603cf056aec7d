-- ===== src/Release/Path/Walk/Shortest.antt =====
-- The search ends, and what it has found then.
use oc_mirror_operator.Base.{
  ℕ, zero, suc, ◌+◌, ◌≤◌, ◌≡◌, ◌⊎◌, refl, true, false, List, [], ◌∷◌, arith, eqb, length,
  Bool-cases, inl, inr, subst, sym, ap,
}
use mathlib.Core.List.{Memᴰ}
use mathlib.Core.List.Memᴰ
use oc_mirror_operator.Release.{ℤ}
use oc_mirror_operator.Release.Path.{
  Search, marked, adj, expand, search_loop, Outcome, found, exhausted,
}
use oc_mirror_operator.Release.Path.Walk.{Edge, unseen}
use oc_mirror_operator.Release.Path.Walk.Rounds.{
  Offered, offer_all-Offered, Between, popped, List-cases,
}

module _ (n : ℕ) (edges : List (List ℤ)) (from_idx to_idx : ℕ) where
  -- one round that does not end the loop
  record Round (s : Search) (level : ℕ → ℕ) (s' : Search) : Type 0 where
    level' : ℕ → ℕ
    low' : ℕ
    between : Between n edges from_idx to_idx s' level' low'
    work : suc (unseen s'.visited + length s'.queue) ≡ unseen s.visited + length s.queue

  module _ (s : Search) (level : ℕ → ℕ) (low curr : ℕ) (rest : List ℕ) (e : s.queue ≡ curr ∷ rest)
      (b : Between n edges from_idx to_idx s level low) where
    abbrev left : Search
    left = record s { queue = rest }

    curr_marked : marked s curr ≡ true
    curr_marked = b.inv.queued curr (subst (Memᴰ curr) (sym e) (Memᴰ.head refl))

    offered :
        Offered n edges from_idx left level (level curr) (expand n edges to_idx s curr rest)
        × ((w : ℕ) → Edge n edges curr w → marked (expand n edges to_idx s curr rest) w ≡ true)
    offered =
        offer_all-Offered n edges from_idx (adj n edges curr) left level curr
          (popped n edges from_idx s level low curr rest e b.inv) curr_marked (λ w q. q)

    expand-closed :
        let o = offered.0 in
        let s' = expand n edges to_idx s curr rest in
        (u v : ℕ)
        → marked s' u ≡ true
        → Edge n edges u v
        → Memᴰ u s'.queue ⊎ ((marked s' v ≡ true) × (o.level' v ≤ suc (o.level' u)))
    expand-closed u v m edge =
        let (o, all) = offered in
        elim (o.grows.new_queued u m) [
          | inr queued ↦ inl queued
          | inl old ↦
              let (_, u_level) = o.grows.kept u old in
              elim (b.closed u v old edge) [
                | inr (v_old, bound) ↦
                    let (v_new, v_level) = o.grows.kept v v_old in
                    inr (v_new, omega (arith, bound, u_level, v_level))
                | inl waiting ↦ elim (Memᴰ.cases_cons (subst (Memᴰ u) e waiting)) [
                  | inr later ↦ inl (o.grows.still_queued u later)
                  | inl now ↦
                      let hit = all v (subst (λ x. Edge n edges x v) now edge) in
                      let same : level u ≡ level curr = ap level now in
                      inr (hit, omega (arith, o.inv.bounded v hit, u_level, same))
                ]
              ]
        ]

    expand-Round : eqb curr to_idx ≡ false → Round s level (expand n edges to_idx s curr rest)
    expand-Round other =
        let (o, all) = offered in
        record {
          level' = o.level';
          low' = level curr;
          between = record {
            inv = o.inv;
            closed = expand-closed;
            target = λ m. elim (o.grows.new_queued to_idx m) [
              | inr queued ↦ queued
              | inl old ↦ elim (Memᴰ.cases_cons (subst (Memᴰ to_idx) e (b.target old))) [
                | inl now ↦ absurd (ground arith)
                | inr later ↦ o.grows.still_queued to_idx later
              ]
            ];
          };
          work = omega (arith, o.grows.conserved, ap length e);
        }

  -- how the loop ends
  pub data Ends : Outcome → Type 0 where
    at_target :
        (s : Search) (level : ℕ → ℕ) (low : ℕ) (rest : List ℕ)
        → s.queue ≡ to_idx ∷ rest
        → Between n edges from_idx to_idx s level low
        → Ends (found s)
    at_empty :
        (s : Search) (level : ℕ → ℕ) (low : ℕ)
        → s.queue ≡ []
        → Between n edges from_idx to_idx s level low
        → Ends (exhausted s)

  pub search_loop-Ends :
      (fuel : ℕ) (s : Search) (level : ℕ → ℕ) (low : ℕ)
      → unseen s.visited + length s.queue ≤ fuel
      → Between n edges from_idx to_idx s level low
      → Ends (search_loop n edges to_idx fuel s)
  unfolding search_loop
  search_loop-Ends zero s level low h b = elim (List-cases s.queue) [
    | inl empty ↦
        let eq : exhausted s ≡ search_loop n edges to_idx zero s = ground arith in
        subst Ends eq (at_empty s level low empty b)
    | inr (curr, rest, e) ↦ absurd (omega (arith, ap length e))
  ]
  search_loop-Ends (suc fuel) s level low h b = elim (List-cases s.queue) [
    | inl empty ↦
        let eq : exhausted s ≡ search_loop n edges to_idx (suc fuel) s = ground arith in
        subst Ends eq (at_empty s level low empty b)
    | inr (curr, rest, e) ↦ elim (Bool-cases (eqb curr to_idx)) [
      | inl hit ↦
          let eq : found s ≡ search_loop n edges to_idx (suc fuel) s = ground arith in
          let here : s.queue ≡ to_idx ∷ rest = ground arith in
          subst Ends eq (at_target s level low rest here b)
      | inr other ↦
          let r = expand-Round s level low curr rest e b other in
          let next = expand n edges to_idx s curr rest in
          let eq : search_loop n edges to_idx fuel next ≡ search_loop n edges to_idx (suc fuel) s =
            ground arith in
          subst Ends eq
            (search_loop-Ends fuel next r.level' r.low' (omega (arith, r.work)) r.between)
    ]
  ]
