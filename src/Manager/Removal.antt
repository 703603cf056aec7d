-- ===== src/Manager/Removal.antt =====
-- ImageSets that the MirrorTarget no longer names (`dropRemovedImageSetsLocked` of
-- pkg/mirror/manager/manager.go, `pruneOwnerMetaLocked` of owner_meta.go).
use oc_mirror_operator.Base.{
  String, ◌≡◌, refl, Bool, true, false, Option, none, some, List, [], ◌∷◌, ◌==◌, ◌&&◌, arith,
  eq_refl, eq_iff, if◌then◌else◌, Bool-cases, inl, inr, eqb, length, contains, ◌≤◌, ◌∙◌, is_some,
  ap, for_each, for_each_present, for_each_absent, Option-cases, not,
}
use oc_mirror_operator.Base.Dict.{
  Dict, lookup, insert, remove, keys, update_entries, Distinct, contains-keys, keys-Unique,
  lookup-insert, lookup-remove,
}
use oc_mirror_operator.ImageState.Entry.{ImageEntry}
use oc_mirror_operator.Manager.State.{MirrorManager, SpecMeta}
use oc_mirror_operator.Manager.Ownership.{Owners, has_owner, owners_of, is_nil, list_or_nil}
use oc_mirror_operator.Manager.Resync.{Reset}

unfoldable pub kept_names : List String → List String → List String
kept_names image_sets [] = []
kept_names image_sets (n ∷ names) =
    let kept = kept_names image_sets names in if contains image_sets n then n ∷ kept else kept

abbrev pub pruned : String → Dict SpecMeta → Dict (Dict SpecMeta) → Dict (Dict SpecMeta)
pruned dest [] owner_meta = remove dest owner_meta
pruned dest (meta ∷ per_owner) owner_meta = insert dest (meta ∷ per_owner) owner_meta

unfoldable pub prune_owner_meta : String → Owners → Dict (Dict SpecMeta) → Dict (Dict SpecMeta)
prune_owner_meta dest owners owner_meta = elim (lookup dest owner_meta) [
  | none ↦ owner_meta
  | some per_owner ↦
      pruned dest
        (update_entries (λ name meta. if has_owner owners dest name then some meta else none)
          per_owner)
        owner_meta
]

abbrev pub keep_owners : String → List String → MirrorManager → MirrorManager
keep_owners dest kept m =
    let owners = insert dest kept m.owners in
    record m { owners = owners; owner_meta = prune_owner_meta dest owners m.owner_meta }

abbrev pub forget : String → MirrorManager → MirrorManager
forget dest m = record m {
  owners = remove dest m.owners;
  owner_meta = remove dest m.owner_meta;
  image_state = remove dest m.image_state;
  mirrored = remove dest m.mirrored;
}

unfoldable pub drop_dest : List String → String → Reset → Reset
drop_dest image_sets dest r =
    let names = owners_of r.manager.owners dest in
    let kept = kept_names image_sets names in
    if eqb (length kept) (length names)
    then r
    else if is_nil kept
    then record { manager = forget dest r.manager; changed = true }
    else record { manager = keep_owners dest kept r.manager; changed = true }

unfoldable pub drop_removed_image_sets : List String → MirrorManager → Reset
drop_removed_image_sets image_sets m =
    let r =
      for_each (drop_dest image_sets) (keys m.owners) (record { manager = m; changed = false }) in
    record r {
      manager = record r.manager {
        catalog_digests =
            update_entries (λ name digests. if contains image_sets name then some digests else none)
              r.manager.catalog_digests;
      };
    }

contains-kept_names :
    (image_sets names : List String) (n : String)
    → contains (kept_names image_sets names) n ≡ contains names n && contains image_sets n
unfolding kept_names
contains-kept_names image_sets [] n = ground arith
contains-kept_names image_sets (x ∷ names) n = elim (Bool-cases (x == n)) [
  | inl same ↦
      let eq = (eq_iff x n).0 same in
      elim (Bool-cases (contains image_sets x)) [
        | inl h ↦
            ground (arith, contains-kept_names image_sets names n, ap (contains image_sets) eq)
        | inr h ↦
            ground (arith, contains-kept_names image_sets names n, ap (contains image_sets) eq)
      ]
  | inr other ↦ ground (arith, contains-kept_names image_sets names n)
]

length-kept_names :
    (image_sets names : List String) → length (kept_names image_sets names) ≤ length names
unfolding kept_names
length-kept_names image_sets [] = omega arith
length-kept_names image_sets (n ∷ names) = ground (arith, length-kept_names image_sets names)

-- a filter that drops nothing is the identity
kept_names_all :
    (image_sets names : List String)
    → length (kept_names image_sets names) ≡ length names
    → kept_names image_sets names ≡ names
unfolding kept_names
kept_names_all image_sets [] h = refl
kept_names_all image_sets (n ∷ names) h = elim (Bool-cases (contains image_sets n)) [
  | inl named ↦ let rest = kept_names_all image_sets names (ground arith) in ground (arith, rest)
  | inr unnamed ↦ ground (arith, length-kept_names image_sets names)
]

-- what the loop reads and writes of one destination
record View : Type 0 where
  owners : Option (List String)
  entry : Option ImageEntry
  flag : Option Bool

abbrev view : String → Reset → View
view j r = record {
  owners = lookup j r.manager.owners;
  entry = lookup j r.manager.image_state;
  flag = lookup j r.manager.mirrored;
}

abbrev dropped : List String → View → View
dropped image_sets v =
    let names = list_or_nil v.owners in
    let kept = kept_names image_sets names in
    if eqb (length kept) (length names)
    then v
    else if is_nil kept
    then record { owners = none; entry = none; flag = none }
    else record v { owners = some kept }

drop_elsewhere :
    (image_sets : List String) (d j : String) (r : Reset)
    → (d == j) ≡ false
    → view j (drop_dest image_sets d r) ≡ view j r
unfolding drop_dest
drop_elsewhere image_sets d j r other = ground (
  arith,
  lookup-insert d j (kept_names image_sets (owners_of r.manager.owners d)) r.manager.owners,
  lookup-remove d j r.manager.owners,
  lookup-remove d j r.manager.image_state,
  lookup-remove d j r.manager.mirrored,
)

drop_here :
    (image_sets : List String) (d : String) (r : Reset)
    → view d (drop_dest image_sets d r) ≡ dropped image_sets (view d r)
unfolding drop_dest
drop_here image_sets d r = ground (
  arith,
  eq_refl d,
  lookup-insert d d (kept_names image_sets (owners_of r.manager.owners d)) r.manager.owners,
  lookup-remove d d r.manager.owners,
  lookup-remove d d r.manager.image_state,
  lookup-remove d d r.manager.mirrored,
)

nil_contains : (names : List String) (n : String) → is_nil names ≡ true → contains names n ≡ false
nil_contains [] n h = refl
nil_contains (x ∷ names) n h = ground arith

nil_kept :
    (image_sets names : List String)
    → is_nil names ≡ true
    → eqb (length (kept_names image_sets names)) (length names) ≡ true
unfolding kept_names
nil_kept image_sets [] h = refl
nil_kept image_sets (n ∷ names) h = absurd (ground (arith, h))

-- the whole loop, for every destination
drop_all :
    (image_sets : List String) (m : MirrorManager) (j : String)
    → Distinct m.owners
    → let start : Reset = record { manager = m; changed = false } in
      view j (for_each (drop_dest image_sets) (keys m.owners) start)
      ≡ dropped image_sets (view j start)
drop_all image_sets m j distinct =
    let start : Reset = record { manager = m; changed = false } in
    elim (Option-cases (lookup j m.owners)) [
      | inl unowned ↦
          for_each_absent (drop_dest image_sets) view (drop_elsewhere image_sets) (keys m.owners)
            start j (contains-keys m.owners j ∙ ap is_some unowned)
          ∙ ground (arith, unowned, nil_kept image_sets [] refl)
      | inr (names, known) ↦
          for_each_present (drop_dest image_sets) view (drop_elsewhere image_sets)
            (λ d. dropped image_sets) (drop_here image_sets) (keys m.owners) start j
            (keys-Unique m.owners distinct) (contains-keys m.owners j ∙ ap is_some known)
    ]

-- After the removal every destination is owned by those of its owners that the MirrorTarget still
-- names. If it had an owner and none is left, its entry and its fast-path flag are gone, and
-- otherwise, also if it had no owner, both are as before.
pub removal_effect :
    (image_sets : List String) (m : MirrorManager) (j : String)
    → Distinct m.owners
    → let m' = (drop_removed_image_sets image_sets m).manager in
      let names = owners_of m.owners j in
      let gone = not (is_nil names) && is_nil (kept_names image_sets names) in
      ((n : String) → has_owner m'.owners j n ≡ has_owner m.owners j n && contains image_sets n)
      × (lookup j m'.image_state ≡ (if gone then none else lookup j m.image_state))
      × (lookup j m'.mirrored ≡ (if gone then none else lookup j m.mirrored))
unfolding drop_removed_image_sets has_owner
removal_effect image_sets m j distinct =
    let v = drop_all image_sets m j distinct in
    let owners = ap (λ w. w.owners) v in
    let entry = ap (λ w. w.entry) v in
    let flag = ap (λ w. w.flag) v in
    let names = owners_of m.owners j in
    let kept = kept_names image_sets names in
    let left = contains-kept_names image_sets names in
    elim (Bool-cases (eqb (length kept) (length names))) [
      | inl all ↦
          let same = kept_names_all image_sets names (ground arith) in
          (
            λ n. ground (arith, owners, left n, ap (λ l. contains l n) same),
            ground (arith, entry, ap is_nil same),
            ground (arith, flag, ap is_nil same),
          )
      | inr some_left ↦
          let owned = nil_kept image_sets names in
          elim (Bool-cases (is_nil kept)) [
            | inl none_left ↦ (
              λ n. ground (arith, owners, left n, nil_contains kept n none_left),
              ground (arith, entry, owned),
              ground (arith, flag, owned),
            )
            | inr others ↦
                (λ n. ground (arith, owners, left n), ground (arith, entry), ground (arith, flag))
          ]
    ]
