-- ===== src/Release/Select/Latest.antt =====
-- Which node is the latest of a channel.
use oc_mirror_operator.Base.{
  String, ◌≡◌, ◌⊎◌, refl, Bool, true, false, Option, none, some, List, [], ◌∷◌, Bool-cases, inl,
  inr, subst, sym, ◌∙◌,
}
use mathlib.Core.List.{Memᴰ}
use mathlib.Core.List.Memᴰ
use oc_mirror_operator.Release.{Node}
use oc_mirror_operator.Release.Select.{better, latest_of, latest_node}

-- What the order of versions is used for: nothing is above itself, and what is above a version is
-- above every version that this one is not below.
pub record IsVersionOrder {V : Type 0} (gt : V → V → Bool) : Type 0 where
  pub irreflexive : (a : V) → gt a a ≡ false
  pub cotransitive : (a b c : V) → gt a b ≡ false → gt b c ≡ false → gt a c ≡ false
  pub asymmetric : (a b : V) → gt a b ≡ true → gt b a ≡ false

module _ {V : Type 0} (parse_tolerant : String → Option V) (gte gt : V → V → Bool)
    (order : IsVersionOrder gt) where
  -- the version of a node is not above that of another one, if both parse; and the other one parses
  -- if the first does
  abbrev pub NotAbove : Option V → Option V → Type 0
  NotAbove none best = Unit
  NotAbove (some sv) none = ⊥
  NotAbove (some sv) (some best_sv) = gt sv best_sv ≡ false

  NotAbove-refl : (x : Option V) → NotAbove x x
  NotAbove-refl none = _
  NotAbove-refl (some sv) = order.irreflexive sv

  NotAbove-trans : (x y z : Option V) → NotAbove x y → NotAbove y z → NotAbove x z
  NotAbove-trans none y z h k = _
  NotAbove-trans (some a) (some b) (some c) h k = order.cotransitive a b c h k
  NotAbove-trans (some a) (some b) none h k = k
  NotAbove-trans (some a) none z h k = absurd h

  version : Node → Option V
  version node = parse_tolerant node.version

  better-NotAbove :
      (best node : Node) (sv best_sv : Option V)
      → sv ≡ version node
      → best_sv ≡ version best
      → NotAbove best_sv (version (better parse_tolerant gte gt best node sv best_sv))
        × NotAbove sv (version (better parse_tolerant gte gt best node sv best_sv))
  better-NotAbove best node none best_sv e f =
      (subst (NotAbove best_sv) f (NotAbove-refl best_sv), _)
  better-NotAbove best node (some sv) none e f =
      (_, subst (NotAbove (some sv)) e (NotAbove-refl (some sv)))
  better-NotAbove best node (some sv) (some best_sv) e f = elim (Bool-cases (gt sv best_sv)) [
    | inl above ↦ rw above (
      subst (NotAbove (some best_sv)) e (order.asymmetric sv best_sv above),
      subst (NotAbove (some sv)) e (NotAbove-refl (some sv)),
    )
    | inr below ↦ rw below (
      subst (NotAbove (some best_sv)) f (NotAbove-refl (some best_sv)),
      subst (NotAbove (some sv)) f below,
    )
  ]

  module _ (best node : Node) where
    abbrev winner : Node
    winner = better parse_tolerant gte gt best node (version node) (version best)

    better-best : NotAbove (version best) (version winner)
    better-best = (better-NotAbove best node (version node) (version best) refl refl).0

    better-node : NotAbove (version node) (version winner)
    better-node = (better-NotAbove best node (version node) (version best) refl refl).1

  latest_of-NotAbove :
      (best : Node) (nodes : List Node)
      → let latest = latest_of parse_tolerant gte gt best nodes in
        (NotAbove (version best) (version latest))
        × ((node : Node) → Memᴰ node nodes → NotAbove (version node) (version latest))
  unfolding latest_of version
  latest_of-NotAbove best [] = (NotAbove-refl (version best), λ node m. absurd (Memᴰ.not-nil m))
  latest_of-NotAbove best (x ∷ nodes) =
      let y = winner best x in
      let z = version (latest_of parse_tolerant gte gt y nodes) in
      let (first, rest) = latest_of-NotAbove y nodes in
      (
        NotAbove-trans (version best) (version y) z (better-best best x) first,
        λ node m. elim (Memᴰ.cases_cons m) [
          | inl here ↦
              subst (λ w. NotAbove (version w) z) (sym here)
                (NotAbove-trans (version x) (version y) z (better-node best x) first)
          | inr later ↦ rest node later
        ],
      )

  better_cases :
      (best node : Node) (sv best_sv : Option V)
      → (better parse_tolerant gte gt best node sv best_sv ≡ best)
        ⊎ (better parse_tolerant gte gt best node sv best_sv ≡ node)
  better_cases best node none best_sv = inl refl
  better_cases best node (some sv) none = inr refl
  better_cases best node (some sv) (some best_sv) = elim (Bool-cases (gt sv best_sv)) [
    | inl above ↦ inr (rw above refl)
    | inr below ↦ inl (rw below refl)
  ]

  latest_of-mem :
      (best : Node) (nodes : List Node)
      → Memᴰ (latest_of parse_tolerant gte gt best nodes) (best ∷ nodes)
  unfolding latest_of version
  latest_of-mem best [] = Memᴰ.head refl
  latest_of-mem best (x ∷ nodes) = elim (Memᴰ.cases_cons (latest_of-mem (winner best x) nodes)) [
    | inr later ↦ Memᴰ.tail (Memᴰ.tail later)
    | inl now ↦ elim (better_cases best x (version x) (version best)) [
      | inl kept ↦ Memᴰ.head (now ∙ kept)
      | inr new ↦ Memᴰ.tail (Memᴰ.head (now ∙ new))
    ]
  ]

  -- A channel with a node has a latest one. It is a node of the channel, no node of the channel has
  -- a version above its version, and if any version parses, its does.
  pub latest_node-NotAbove :
      (x : Node) (xs : List Node)
      → (latest : Node) × (latest_node parse_tolerant gte gt (x ∷ xs) ≡ some latest)
        × Memᴰ latest (x ∷ xs)
        × ((node : Node)
            → Memᴰ node (x ∷ xs)
            → NotAbove (parse_tolerant node.version) (parse_tolerant latest.version))
  unfolding latest_node version
  latest_node-NotAbove x xs =
      let (first, rest) = latest_of-NotAbove x xs in
      (
        latest_of parse_tolerant gte gt x xs,
        refl,
        latest_of-mem x xs,
        λ node m. elim (Memᴰ.cases_cons m) [
          | inl here ↦
              subst (λ w. NotAbove (version w) (version (latest_of parse_tolerant gte gt x xs)))
                (sym here) first
          | inr later ↦ rest node later
        ],
      )
