-- ===== src/Release/Path/Walk/Invariant.antt =====
-- The invariant of the search: every visited node has a chain back to the source, whose length is
-- its level, and the queue holds nodes of two neighbouring levels in their order.
use oc_mirror_operator.Base.{
  ℕ, suc, ◌+◌, ◌<◌, ◌≤◌, ◌≡◌, ◌⊎◌, refl, true, false, some, List, [], ◌∷◌, ◌++◌, arith,
  if◌then◌else◌, eqb, length, length-set, length-append, Bool-cases, inl, inr, ◌∙◌, subst, sym,
}
use mathlib.Core.List.{Memᴰ}
use mathlib.Core.List.Memᴰ
use oc_mirror_operator.Release.{ℤ}
use oc_mirror_operator.Release.Path.{Search, marked, visit}
use oc_mirror_operator.Release.Path.Walk.{
  Edge, Chain, unseen, unseen-set, marked-visit, prev-visit, Chain-visit,
}

abbrev pub IsOrdered : (ℕ → ℕ) → List ℕ → Type 0
IsOrdered level [] = Unit
IsOrdered level (x ∷ queue) = ((y : ℕ) → Memᴰ y queue → level x ≤ level y) × IsOrdered level queue

IsOrdered-append :
    (level : ℕ → ℕ) (queue : List ℕ) (z : ℕ)
    → IsOrdered level queue
    → ((y : ℕ) → Memᴰ y queue → level y ≤ level z)
    → IsOrdered level (queue ++ z ∷ [])
IsOrdered-append level [] z ordered below = (λ y m. absurd (Memᴰ.not-nil m), _)
IsOrdered-append level (x ∷ queue) z (first, ordered) below = (
  λ y m. elim (Memᴰ.append_cases queue m) [
    | inl old ↦ first y old
    | inr new ↦
        let same : y ≡ z = Memᴰ.eq_of_singleton new in ground (arith, below x (Memᴰ.head refl))
  ],
  IsOrdered-append level queue z ordered (λ y m. below y (Memᴰ.tail m)),
)

IsOrdered-congr :
    (level level' : ℕ → ℕ) (queue : List ℕ)
    → ((y : ℕ) → Memᴰ y queue → level' y ≡ level y)
    → IsOrdered level queue
    → IsOrdered level' queue
IsOrdered-congr level level' [] agree ordered = _
IsOrdered-congr level level' (x ∷ queue) agree (first, ordered) = (
  λ y m. omega (arith, first y m, agree x (Memᴰ.head refl), agree y (Memᴰ.tail m)),
  IsOrdered-congr level level' queue (λ y m. agree y (Memᴰ.tail m)) ordered,
)

module _ (n : ℕ) (edges : List (List ℤ)) (from_idx : ℕ) where
  pub record Inv (s : Search) (level : ℕ → ℕ) (low : ℕ) : Type 0 where
    pub size : length s.visited ≡ n
    pub prev_size : length s.prev ≡ n
    pub source : marked s from_idx ≡ true
    pub source_level : level from_idx ≡ 0
    pub queued : (v : ℕ) → Memᴰ v s.queue → marked s v ≡ true
    pub fits : (v : ℕ) → marked s v ≡ true → level v + unseen s.visited < n
    pub chain : (v : ℕ) → marked s v ≡ true → Chain n edges from_idx s (level v) v
    pub ordered : IsOrdered level s.queue
    pub above : (v : ℕ) → Memᴰ v s.queue → low ≤ level v
    pub bounded : (v : ℕ) → marked s v ≡ true → level v ≤ suc low

  -- what visits keep and add
  pub record Grows (s : Search) (level : ℕ → ℕ) (s' : Search) (level' : ℕ → ℕ) : Type 0 where
    pub kept : (v : ℕ) → marked s v ≡ true → (marked s' v ≡ true) × (level' v ≡ level v)
    pub still_queued : (v : ℕ) → Memᴰ v s.queue → Memᴰ v s'.queue
    pub new_queued : (v : ℕ) → marked s' v ≡ true → (marked s v ≡ true) ⊎ Memᴰ v s'.queue
    pub conserved : unseen s'.visited + length s'.queue ≡ unseen s.visited + length s.queue

  pub Grows-refl : (s : Search) (level : ℕ → ℕ) → Grows s level s level
  Grows-refl s level = record {
    kept = λ v m. (m, refl);
    still_queued = λ v m. m;
    new_queued = λ v m. inl m;
    conserved = refl;
  }

  pub Grows-trans :
      (s : Search) (a : ℕ → ℕ) (t : Search) (b : ℕ → ℕ) (u : Search) (c : ℕ → ℕ)
      → Grows s a t b
      → Grows t b u c
      → Grows s a u c
  Grows-trans s a t b u c g h = record {
    kept = λ v m. let (m', e) = g.kept v m in let (m'', e') = h.kept v m' in (m'', e' ∙ e);
    still_queued = λ v m. h.still_queued v (g.still_queued v m);
    new_queued = λ v m. elim (h.new_queued v m) [
      | inl m' ↦ elim (g.new_queued v m') [ inl old ↦ inl old | inr q ↦ inr (h.still_queued v q) ]
      | inr q ↦ inr q
    ];
    conserved = h.conserved ∙ g.conserved;
  }

  abbrev pub relevel : (ℕ → ℕ) → ℕ → ℕ → ℕ → ℕ
  relevel level curr next w = if eqb next w then suc (level curr) else level w

  module _ (s : Search) (level : ℕ → ℕ) (curr next : ℕ) (inv : Inv s level (level curr))
      (m : marked s curr ≡ true) (edge : Edge n edges curr next) (inside : next < length s.visited)
      (new : marked s next ≡ false) where
    pub relevel_old : (v : ℕ) → marked s v ≡ true → relevel level curr next v ≡ level v
    relevel_old v old = ground arith

    relevel_next : (v : ℕ) → v ≡ next → relevel level curr next v ≡ suc (level curr)
    relevel_next v e = ground arith

    marked_cases : (v : ℕ) → marked (visit curr s next) v ≡ true → (marked s v ≡ true) ⊎ (v ≡ next)
    marked_cases v h = elim (Bool-cases (eqb next v)) [
      | inl same ↦ inr (ground arith)
      | inr other ↦ inl (ground (arith, marked-visit curr s next inside v))
    ]

    queue_next : Memᴰ next (visit curr s next).queue
    unfolding visit
    queue_next = Memᴰ.append_right s.queue (Memᴰ.head refl)

    queue_cases : (v : ℕ) → Memᴰ v (visit curr s next).queue → Memᴰ v s.queue ⊎ (v ≡ next)
    unfolding visit
    queue_cases v q = elim (Memᴰ.append_cases s.queue q) [
      | inl old ↦ inl old
      | inr last ↦ inr (Memᴰ.eq_of_singleton last)
    ]

    pub visit-Grows : Grows s level (visit curr s next) (relevel level curr next)
    visit-Grows = record {
      kept = λ v old. (ground (arith, marked-visit curr s next inside v), relevel_old v old);
      still_queued = λ v q. unfold visit in Memᴰ.append_left _ q;
      new_queued = λ v old. elim (marked_cases v old) [
        | inl before ↦ inl before
        | inr same ↦ inr (subst (λ x. Memᴰ x (visit curr s next).queue) (sym same) queue_next)
      ];
      conserved =
          unfold visit in
          omega (arith, unseen-set s.visited next inside new, length-append s.queue (next ∷ []));
    }

    sizes : length s.prev ≡ length s.visited
    sizes = omega (arith, inv.size, inv.prev_size)

    Chain-next : Chain n edges from_idx (visit curr s next) (suc (level curr)) next
    Chain-next = (
      λ e. ground (arith, inv.source),
      curr,
      ground (arith, prev-visit curr s next inside next sizes),
      edge,
      ground (arith, marked-visit curr s next inside curr),
      Chain-visit curr s next inside n edges from_idx (level curr) curr sizes new m
          (inv.chain curr m),
    )

    unseen_less : suc (unseen (visit curr s next).visited) ≡ unseen s.visited
    unfolding visit
    unseen_less = unseen-set s.visited next inside new

    pub visit-Inv : Inv (visit curr s next) (relevel level curr next) (level curr)
    visit-Inv = record {
      size = unfold visit in length-set s.visited next true ∙ inv.size;
      prev_size = unfold visit in length-set s.prev next (some curr) ∙ inv.prev_size;
      source = ground (arith, marked-visit curr s next inside from_idx, inv.source);
      source_level = relevel_old from_idx inv.source ∙ inv.source_level;
      queued = λ v q. elim (queue_cases v q) [
        | inl old ↦ ground (arith, marked-visit curr s next inside v, inv.queued v old)
        | inr same ↦ ground (arith, marked-visit curr s next inside v)
      ];
      fits = λ v h. elim (marked_cases v h) [
        | inl old ↦ omega (arith, inv.fits v old, relevel_old v old, unseen_less)
        | inr same ↦ omega (arith, inv.fits curr m, relevel_next v same, unseen_less)
      ];
      chain = λ v h. elim (marked_cases v h) [
        | inl old ↦
            subst (λ k. Chain n edges from_idx (visit curr s next) k v) (sym (relevel_old v old))
              (Chain-visit curr s next inside n edges from_idx (level v) v sizes new old
                (inv.chain v old))
        | inr same ↦
            subst (λ k. Chain n edges from_idx (visit curr s next) k v) (sym (relevel_next v same))
              (subst (λ x. Chain n edges from_idx (visit curr s next) (suc (level curr)) x)
                (sym same) Chain-next)
      ];
      ordered =
          unfold visit in
          IsOrdered-append (relevel level curr next) s.queue next
            (IsOrdered-congr level (relevel level curr next) s.queue
              (λ y q. relevel_old y (inv.queued y q)) inv.ordered)
            (λ y q. omega (
              arith,
              relevel_old y (inv.queued y q),
              relevel_next next refl,
              inv.bounded y (inv.queued y q),
            ));
      above = λ v q. elim (queue_cases v q) [
        | inl old ↦ omega (arith, inv.above v old, relevel_old v (inv.queued v old))
        | inr same ↦ omega (arith, relevel_next v same)
      ];
      bounded = λ v h. elim (marked_cases v h) [
        | inl old ↦ omega (arith, inv.bounded v old, relevel_old v old)
        | inr same ↦ omega (arith, relevel_next v same)
      ];
    }
