-- ===== src/Release/Path/Walk/Rounds.antt =====
-- One round of the search, and its end: with a round for every node the loop finds the target or
-- exhausts the queue.
use oc_mirror_operator.Base.{
  ℕ, suc, ◌<◌, ◌≤◌, ◌≡◌, ◌⊎◌, refl, Bool, true, false, Option, none, some, List, [], ◌∷◌, arith,
  if◌then◌else◌, eqb, length, Bool-cases, inl, inr, subst, sym,
}
use mathlib.Core.List.{Memᴰ}
use mathlib.Core.List.Memᴰ
use oc_mirror_operator.Release.{ℤ, pos, negsuc}
use oc_mirror_operator.Release.Path.{
  Search, marked, visit, offer, offer_all, adj, add_target, both, in_range,
}
use oc_mirror_operator.Release.Path.Walk.{Edge, marked-visit}
use oc_mirror_operator.Release.Path.Walk.Invariant.{
  Inv, Grows, Grows-refl, Grows-trans, IsOrdered, relevel, visit-Inv, visit-Grows,
}

pub List-cases {ℓ} :
    {A : Type ℓ} (xs : List A) → (xs ≡ []) ⊎ ((x : A) × (rest : List A) × (xs ≡ x ∷ rest))
List-cases [] = inl refl
List-cases (x ∷ rest) = inr (x, rest, refl)

mem_if :
    (b : Bool) (v y : ℕ) (targets : List ℕ)
    → Memᴰ v (if b then y ∷ targets else targets)
    → (v ≡ y) ⊎ Memᴰ v targets
mem_if true v y targets m = Memᴰ.cases_cons m
mem_if false v y targets m = inr m

in_range-lt : (n i : ℕ) (x : ℤ) → in_range n x ≡ some i → i < n
in_range-lt n i (pos k) h = ground arith
in_range-lt n i (negsuc k) h = ground arith

add_target-lt :
    (n u v : ℕ) (x y : Option ℕ) (targets : List ℕ)
    → ((i : ℕ) → y ≡ some i → i < n)
    → ((w : ℕ) → Memᴰ w targets → w < n)
    → Memᴰ v (add_target u (both x y) targets)
    → v < n
add_target-lt n u v none y targets small h m = h v m
add_target-lt n u v (some x) none targets small h m = h v m
add_target-lt n u v (some x) (some y) targets small h m = elim (mem_if (eqb x u) v y targets m) [
  | inl same ↦ ground (arith, small y refl)
  | inr old ↦ h v old
]

-- the ends of the edges are nodes
pub Edge-lt : (n : ℕ) (edges : List (List ℤ)) (u v : ℕ) → Edge n edges u v → v < n
unfolding adj
Edge-lt n [] u v m = absurd (Memᴰ.not-nil m)
Edge-lt n ([] ∷ edges) u v m = Edge-lt n edges u v m
Edge-lt n ((x ∷ []) ∷ edges) u v m = Edge-lt n edges u v m
Edge-lt n ((x ∷ y ∷ []) ∷ edges) u v m =
    add_target-lt n u v (in_range n x) (in_range n y) (adj n edges u) (λ i e. in_range-lt n i y e)
      (λ w q. Edge-lt n edges u w q) m
Edge-lt n ((x ∷ y ∷ z ∷ edge) ∷ edges) u v m = Edge-lt n edges u v m

module _ (n : ℕ) (edges : List (List ℤ)) (from_idx : ℕ) where
  -- the search after some visits from one node
  pub record Offered (s : Search) (level : ℕ → ℕ) (low : ℕ) (s' : Search) : Type 0 where
    pub level' : ℕ → ℕ
    pub inv : Inv n edges from_idx s' level' low
    pub grows : Grows n edges from_idx s level s' level'

  offer-Offered :
      (s : Search) (level : ℕ → ℕ) (curr next : ℕ)
      → Inv n edges from_idx s level (level curr)
      → marked s curr ≡ true
      → Edge n edges curr next
      → Offered s level (level curr) (offer curr s next) × (marked (offer curr s next) next ≡ true)
  offer-Offered s level curr next inv m edge =
      let inside : next < length s.visited =
        omega (arith, inv.size, Edge-lt n edges curr next edge) in
      elim (Bool-cases (marked s next)) [
        | inl old ↦
            let eq : s ≡ offer curr s next = unfold offer in ground arith in
            subst (λ t. Offered s level (level curr) t × (marked t next ≡ true)) eq
              ((
                record { level' = level; inv = inv; grows = Grows-refl n edges from_idx s level },
                old,
              ))
        | inr new ↦
            let eq : visit curr s next ≡ offer curr s next = unfold offer in ground arith in
            subst (λ t. Offered s level (level curr) t × (marked t next ≡ true)) eq
              ((
                record {
                  level' = relevel n edges from_idx level curr next;
                  inv = visit-Inv n edges from_idx s level curr next inv m edge inside new;
                  grows = visit-Grows n edges from_idx s level curr next inv m edge inside new;
                },
                ground (arith, marked-visit curr s next inside next),
              ))
      ]

  pub offer_all-Offered :
      (targets : List ℕ) (s : Search) (level : ℕ → ℕ) (curr : ℕ)
      → Inv n edges from_idx s level (level curr)
      → marked s curr ≡ true
      → ((w : ℕ) → Memᴰ w targets → Edge n edges curr w)
      → Offered s level (level curr) (offer_all curr s targets)
        × ((w : ℕ) → Memᴰ w targets → marked (offer_all curr s targets) w ≡ true)
  unfolding offer_all
  offer_all-Offered [] s level curr inv m edge = (
    record { level' = level; inv = inv; grows = Grows-refl n edges from_idx s level },
    λ w q. absurd (Memᴰ.not-nil q),
  )
  offer_all-Offered (next ∷ targets) s level curr inv m edge =
      let (one, hit) = offer-Offered s level curr next inv m (edge next (Memᴰ.head refl)) in
      let (m', same) = one.grows.kept curr m in
      let inv' =
        subst (λ k. Inv n edges from_idx (offer curr s next) one.level' k) (sym same) one.inv in
      let (rest, all) =
        offer_all-Offered targets (offer curr s next) one.level' curr inv' m'
          (λ w q. edge w (Memᴰ.tail q)) in
      let end = offer_all curr (offer curr s next) targets in
      (
        record {
          level' = rest.level';
          inv = subst (λ k. Inv n edges from_idx end rest.level' k) same rest.inv;
          grows =
              Grows-trans n edges from_idx s level (offer curr s next) one.level' end rest.level'
                one.grows rest.grows;
        },
        λ w q. elim (Memᴰ.cases_cons q) [
          | inl here ↦ subst (λ x. marked end x ≡ true) (sym here) ((rest.grows.kept next hit).0)
          | inr later ↦ all w later
        ],
      )

  -- the search between two rounds: nodes that left the queue have all their targets visited, and
  -- the target, once visited, waits in the queue
  pub record Between (to_idx : ℕ) (s : Search) (level : ℕ → ℕ) (low : ℕ) : Type 0 where
    pub inv : Inv n edges from_idx s level low
    pub closed :
        (u v : ℕ)
        → marked s u ≡ true
        → Edge n edges u v
        → Memᴰ u s.queue ⊎ ((marked s v ≡ true) × (level v ≤ suc (level u)))
    pub target : marked s to_idx ≡ true → Memᴰ to_idx s.queue

  pub popped :
      (s : Search) (level : ℕ → ℕ) (low curr : ℕ) (rest : List ℕ)
      → s.queue ≡ curr ∷ rest
      → Inv n edges from_idx s level low
      → Inv n edges from_idx (record s { queue = rest }) level (level curr)
  popped s level low curr rest e inv =
      let first : Memᴰ curr s.queue = subst (Memᴰ curr) (sym e) (Memᴰ.head refl) in
      let order : IsOrdered level (curr ∷ rest) = subst (IsOrdered level) e inv.ordered in
      let tail = λ (v : ℕ) (q : Memᴰ v rest). subst (Memᴰ v) (sym e) (Memᴰ.tail q) in
      record {
        size = inv.size;
        prev_size = inv.prev_size;
        source = inv.source;
        source_level = inv.source_level;
        queued = λ v q. inv.queued v (tail v q);
        fits = inv.fits;
        chain = inv.chain;
        ordered = order.1;
        above = order.0;
        bounded = λ v m. omega (arith, inv.bounded v m, inv.above curr first);
      }
