-- ===== src/Manager/Persist/Partition.antt =====
-- What the flush stores for each ImageSet.
use oc_mirror_operator.Base.{
  String, Bool, true, Option, none, some, List, [], ◌∷◌, ◌≡◌, ◌==◌, ◌&&◌, is_some, and_then,
  map_some, contains, arith, eq_iff, if◌then◌else◌, Option-cases, Bool-cases, text-cases, inl, inr,
  refl, ap, subst,
}
use oc_mirror_operator.Base.Dict.{
  Dict, lookup, insert, Distinct, lookup-insert, lookup-nil, insert-Distinct,
}
use oc_mirror_operator.ImageState.Entry.{ImageEntry, ImageState}
use oc_mirror_operator.Manager.State.{MirrorManager}
use oc_mirror_operator.Manager.Ownership.{owners_of, has_owner}
use oc_mirror_operator.Manager.Persist.{
  empty_states, into_state, put_owned, put_all, flushed_states, saved_view,
}

-- the stored entry of a destination
abbrev pub stored_entry : Dict ImageState → String → String → Option ImageEntry
stored_entry states is_name dest = and_then (lookup is_name states) (lookup dest)

abbrev pub has_state : Dict ImageState → String → Bool
has_state states is_name = is_some (lookup is_name states)

-- an ImageSet's entry goes into its own state only
into_state_effect :
    (is_name dest : String) (e : ImageEntry) (states : Dict ImageState) (n j : String)
    → let states' = into_state is_name dest e (lookup is_name states) states in
      (has_state states' n ≡ has_state states n)
      × (stored_entry states' n j ≡ (
          if is_name == n && dest == j && has_state states n
          then some e
          else stored_entry states n j))
into_state_effect is_name dest e states n j = elim (Option-cases (lookup is_name states)) [
  | inl out ↦ rw out (refl, ground (arith, eq_iff is_name n, ap (λ x. lookup x states), out))
  | inr (state, found) ↦
      let outer = lookup-insert is_name n (insert dest e state) states in
      let inner = lookup-insert dest j e state in
      elim (text-cases is_name n) [
        | inr (other, _) ↦ rw found (ground (arith, other, outer), ground (arith, other, outer))
        | inl (y, same) ↦
            let here : lookup n states ≡ some state =
              subst (λ x. lookup x states ≡ some state) same found in
            rw found (ground (arith, y, outer, here), ground (arith, y, outer, inner, here))
      ]
]

module _ (m : MirrorManager) where
  put_owned_effect :
      (dest : String) (e : ImageEntry) (names : List String) (states : Dict ImageState)
      (n j : String)
      → let states' = put_owned m dest e names states in
        (has_state states' n ≡ has_state states n)
        × (stored_entry states' n j ≡ (
            if contains names n && dest == j && has_state states n
            then some (saved_view m dest n e)
            else stored_entry states n j))
  unfolding put_owned
  put_owned_effect dest e [] states n j = (refl, ground arith)
  put_owned_effect dest e (is_name ∷ names) states n j =
      let view = saved_view m dest is_name e in
      let states' = into_state is_name dest view (lookup is_name states) states in
      let one = into_state_effect is_name dest view states n j in
      let rest = put_owned_effect dest e names states' n j in
      elim (text-cases is_name n) [
        | inr (other, _) ↦ (ground (arith, one.0, rest.0), ground (arith, other, one, rest))
        | inl (y, same) ↦ (
          ground (arith, one.0, rest.0),
          ground (arith, y, one, rest, ap (λ x. saved_view m dest x e) same),
        )
      ]

  put_all_effect :
      (entries : ImageState) (states : Dict ImageState) (n j : String)
      → Distinct entries
      → has_state states n ≡ true
      → stored_entry (put_all m entries states) n j ≡ (
          if has_owner m.owners j n && is_some (lookup j entries)
          then map_some (saved_view m j n) (lookup j entries)
          else stored_entry states n j)
  unfolding put_all lookup has_owner
  put_all_effect [] states n j d present = ground arith
  put_all_effect ((dest, e) ∷ entries) states n j (fresh, d) present =
      let states' = put_owned m dest e (owners_of m.owners dest) states in
      let one = put_owned_effect dest e (owners_of m.owners dest) states n j in
      let rest = put_all_effect entries states' n j d (ground (arith, one.0, present)) in
      elim (text-cases dest j) [
        | inr (other, _) ↦ ground (arith, other, one.1, rest)
        | inl (y, same) ↦
            let fresh' : lookup j entries ≡ none =
              subst (λ x. lookup x entries ≡ none) same fresh in
            ground (
              arith,
              y,
              one.1,
              rest,
              fresh',
              present,
              ap (λ x. saved_view m x n e) same,
              ap (λ x. contains (owners_of m.owners x) n) same,
            )
      ]

empty_states_effect :
    (image_sets : List String) (n j : String)
    → (has_state (empty_states image_sets) n ≡ contains image_sets n)
      × (stored_entry (empty_states image_sets) n j ≡ none)
unfolding empty_states
empty_states_effect [] n j =
    (ground (arith, lookup-nil {V = ImageState} n), ground (arith, lookup-nil {V = ImageState} n))
empty_states_effect (is_name ∷ names) n j =
    let rest = empty_states_effect names n j in
    let law = lookup-insert is_name n [] (empty_states names) in
    (ground (arith, law, rest.0), ground (arith, law, rest.1, lookup-nil {V = ImageEntry} j))

-- The flush stores for each ImageSet of the target its own view of exactly the entries that it
-- owns.
pub flushed_states_effect :
    (image_sets : List String) (m : MirrorManager) (n j : String)
    → Distinct m.image_state
    → contains image_sets n ≡ true
    → stored_entry (flushed_states image_sets m) n j ≡ (
        if has_owner m.owners j n && is_some (lookup j m.image_state)
        then map_some (saved_view m j n) (lookup j m.image_state)
        else none)
unfolding flushed_states
flushed_states_effect image_sets m n j d named =
    let start = empty_states_effect image_sets n j in
    ground (
      arith,
      start,
      put_all_effect m m.image_state (empty_states image_sets) n j d
          (ground (arith, start.0, named)),
    )

-- the keys of every stored state are apart
abbrev pub AllDistinct : Dict ImageState → Type 0
AllDistinct states =
    (n : String) (state : ImageState) → lookup n states ≡ some state → Distinct state

insert-AllDistinct :
    (is_name : String) (state : ImageState) (states : Dict ImageState)
    → Distinct state
    → AllDistinct states
    → AllDistinct (insert is_name state states)
insert-AllDistinct is_name state states d all n st h =
    let law = lookup-insert is_name n state states in
    elim (Bool-cases (is_name == n)) [
      | inl y ↦
          let eq : some state ≡ some st = ground (arith, law, y, h) in
          subst Distinct (ground (arith, eq)) d
      | inr other ↦ all n st (ground (arith, law, other, h))
    ]

put_owned-AllDistinct :
    (m : MirrorManager) (dest : String) (e : ImageEntry) (names : List String)
    (states : Dict ImageState)
    → AllDistinct states
    → AllDistinct (put_owned m dest e names states)
unfolding put_owned
put_owned-AllDistinct m dest e [] states all = all
put_owned-AllDistinct m dest e (is_name ∷ names) states all =
    put_owned-AllDistinct m dest e names
      (into_state is_name dest (saved_view m dest is_name e) (lookup is_name states) states)
      (go (lookup is_name states) refl)
  where
    go :
        (found : Option ImageState)
        → lookup is_name states ≡ found
        → AllDistinct (into_state is_name dest (saved_view m dest is_name e) found states)
    go none h = all
    go (some state) h =
        insert-AllDistinct is_name (insert dest (saved_view m dest is_name e) state) states
          (insert-Distinct dest (saved_view m dest is_name e) state (all is_name state h)) all

put_all-AllDistinct :
    (m : MirrorManager) (entries : ImageState) (states : Dict ImageState)
    → AllDistinct states
    → AllDistinct (put_all m entries states)
unfolding put_all
put_all-AllDistinct m [] states all = all
put_all-AllDistinct m ((dest, e) ∷ entries) states all =
    put_all-AllDistinct m entries (put_owned m dest e (owners_of m.owners dest) states)
      (put_owned-AllDistinct m dest e (owners_of m.owners dest) states all)

empty_states-AllDistinct : (image_sets : List String) → AllDistinct (empty_states image_sets)
unfolding empty_states
empty_states-AllDistinct [] n state h = absurd (ground (arith, h, lookup-nil {V = ImageState} n))
empty_states-AllDistinct (is_name ∷ names) n state h =
    insert-AllDistinct is_name [] (empty_states names) _ (empty_states-AllDistinct names) n state h

pub flushed_states-AllDistinct :
    (image_sets : List String) (m : MirrorManager) → AllDistinct (flushed_states image_sets m)
unfolding flushed_states
flushed_states-AllDistinct image_sets m =
    put_all-AllDistinct m m.image_state (empty_states image_sets)
      (empty_states-AllDistinct image_sets)
