-- ===== src/Manager/Ownership/Merge.antt =====
-- `mergeResolvedIntoConsolidated`: what one ImageSet's resolve does to the state in memory.
use oc_mirror_operator.Base.{
  String, ◌≡◌, refl, Bool, true, false, Option, none, some, List, [], ◌∷◌, ◌++◌, ◌==◌, ◌&&◌, ◌||◌,
  not, arith, eq_iff, eq_refl, if◌then◌else◌, Bool-cases, Option-cases, contains, without, inl, inr,
  is_some, Unique, text-cases, ap, ◌∙◌,
}
use oc_mirror_operator.Base.Dict.{
  Distinct, lookup, keys, lookup-insert, lookup-remove, contains-keys, insert-Distinct, keys-Unique,
}
use oc_mirror_operator.ImageState.Entry.{ImageEntry, ImageState}
use oc_mirror_operator.Manager.Ownership.{
  Owners, Consolidated, owners_of, has_owner, only_owner, add_owner, remove_owner, is_nil,
  refreshed, refresh_entry, upsert, upsert_all, drop_stale, merge_resolved_into_consolidated,
}
use oc_mirror_operator.Manager.Ownership.Books.{has_owner-add_owner, has_owner-remove_owner}

module _ (is_name : String) where
  owners-upsert :
      (dest : String) (ne : ImageEntry) (c : Consolidated)
      → (upsert is_name dest ne c).owners ≡ add_owner c.owners dest is_name
  unfolding upsert
  owners-upsert dest ne c = refl

  lookup-upsert :
      (dest : String) (ne : ImageEntry) (c : Consolidated) (j : String)
      → lookup j (upsert is_name dest ne c).state ≡ (
          if dest == j
          then some (refreshed (only_owner c.owners dest is_name) ne (lookup dest c.state))
          else lookup j c.state)
  unfolding upsert
  lookup-upsert dest ne c j = rw lookup-insert

  has_owner-upsert_all :
      (per_is : ImageState) (c : Consolidated) (j n : String)
      → has_owner (upsert_all is_name per_is c).owners j n
        ≡ has_owner c.owners j n || (is_some (lookup j per_is) && is_name == n)
  unfolding upsert_all lookup
  has_owner-upsert_all [] c j n = ground arith
  has_owner-upsert_all ((dest, ne) ∷ rest) c j n = ground (
    arith,
    has_owner-upsert_all rest (upsert is_name dest ne c) j n,
    owners-upsert dest ne c,
    has_owner-add_owner c.owners dest is_name j n,
  )

  only_owner_other :
      (owners : Owners) (dest j : String)
      → (dest == j) ≡ false
      → only_owner (add_owner owners dest is_name) j is_name ≡ only_owner owners j is_name
  unfolding add_owner only_owner
  only_owner_other owners dest j other =
      ground (arith, lookup-insert dest j (owners_of owners dest ++ is_name ∷ []) owners)

  -- the entry of a destination that the resolve has, or the old one
  abbrev upserted : Consolidated → String → Option ImageEntry → Option ImageEntry
  upserted c j none = lookup j c.state
  upserted c j (some ne) = some (refreshed (only_owner c.owners j is_name) ne (lookup j c.state))

  lookup-upsert_all :
      (per_is : ImageState) (c : Consolidated) (j : String)
      → Distinct per_is
      → lookup j (upsert_all is_name per_is c).state ≡ upserted c j (lookup j per_is)
  unfolding upsert_all lookup
  lookup-upsert_all [] c j d = refl
  lookup-upsert_all ((dest, ne) ∷ rest) c j (fresh, d) = elim (text-cases dest j) [
    | inl (y, same) ↦
        ground
          (arith, lookup-upsert_all rest (upsert is_name dest ne c) j d, lookup-upsert dest ne c j)
    | inr (n, _) ↦ ground (
      arith,
      lookup-upsert_all rest (upsert is_name dest ne c) j d,
      lookup-upsert dest ne c j,
      owners-upsert dest ne c,
      only_owner_other c.owners dest j n,
    )
  ]

  pub upsert_all-Distinct :
      (per_is : ImageState) (c : Consolidated)
      → Distinct c.state
      → Distinct (upsert_all is_name per_is c).state
  unfolding upsert_all upsert
  upsert_all-Distinct [] c d = d
  upsert_all-Distinct ((dest, ne) ∷ rest) c d =
      upsert_all-Distinct rest (upsert is_name dest ne c) (insert-Distinct dest _ c.state d)

  -- removing an ImageSet that is no owner changes nothing
  was_owner :
      (owners : Owners) (dest : String)
      → (remove_owner owners dest is_name).1 ≡ has_owner owners dest is_name
  unfolding remove_owner
  was_owner owners dest = ground arith

  has_owner-drop_stale :
      (per_is : ImageState) (dests : List String) (owners : Owners) (j n : String)
      → has_owner (drop_stale is_name per_is dests owners).0 j n
        ≡ has_owner owners j n
          && not (contains dests j && not (is_some (lookup j per_is)) && is_name == n)
  unfolding drop_stale
  has_owner-drop_stale per_is [] owners j n = ground arith
  has_owner-drop_stale per_is (dest ∷ dests) owners j n =
      let drops = not (is_some (lookup dest per_is)) && (remove_owner owners dest is_name).1 in
      let facts = has_owner-remove_owner owners dest is_name j n in
      elim (Bool-cases drops) [
        | inl y ↦ rw y (
            ground (
              arith,
              has_owner-drop_stale per_is dests (remove_owner owners dest is_name).0 j n,
              facts,
              was_owner owners dest,
              eq_iff dest j,
              eq_iff is_name n,
            ))
        | inr keeps ↦ rw keeps (
            ground (
              arith,
              has_owner-drop_stale per_is dests owners j n,
              was_owner owners dest,
              eq_iff dest j,
              eq_iff is_name n,
            ))
      ]

  owners_of-remove_owner_other :
      (owners : Owners) (dest j : String)
      → (dest == j) ≡ false
      → owners_of (remove_owner owners dest is_name).0 j ≡ owners_of owners j
  unfolding remove_owner
  owners_of-remove_owner_other owners dest j other =
      let out = without is_name (owners_of owners dest) in
      ground (arith, lookup-insert dest j out owners, lookup-remove dest j owners)

  owners_of-remove_owner_self :
      (owners : Owners) (dest : String)
      → has_owner owners dest is_name ≡ true
      → owners_of (remove_owner owners dest is_name).0 dest
        ≡ without is_name (owners_of owners dest)
  unfolding remove_owner
  owners_of-remove_owner_self owners dest owns =
      let out = without is_name (owners_of owners dest) in
      ground (
        arith,
        eq_refl dest,
        lookup-insert dest dest out owners,
        lookup-remove dest dest owners,
        nil_of_is_nil out,
      )
    where
      nil_of_is_nil : (l : List String) → is_nil l ≡ true → [] ≡ l
      nil_of_is_nil [] h = refl
      nil_of_is_nil (x ∷ l) h = cc

  -- the destination is reported as orphaned
  abbrev orphans : ImageState → Owners → String → Bool
  orphans per_is owners j =
      not (is_some (lookup j per_is))
      && has_owner owners j is_name
      && is_nil (without is_name (owners_of owners j))

  orphans_congr :
      (per_is : ImageState) (owners owners' : Owners) (j : String)
      → owners_of owners' j ≡ owners_of owners j
      → orphans per_is owners' j ≡ orphans per_is owners j
  unfolding has_owner
  orphans_congr per_is owners owners' j same = rw same

  drop_stale-orphans :
      (per_is : ImageState) (dests : List String) (owners : Owners) (j : String)
      → Unique dests
      → contains (drop_stale is_name per_is dests owners).1 j
        ≡ contains dests j && orphans per_is owners j
  unfolding drop_stale
  drop_stale-orphans per_is [] owners j u = refl
  drop_stale-orphans per_is (dest ∷ dests) owners j (fresh, u) =
      let (removed, was) = remove_owner owners dest is_name in
      let drops = not (is_some (lookup dest per_is)) && (remove_owner owners dest is_name).1 in
      let ih = drop_stale-orphans per_is dests removed j u in
      let ih' = drop_stale-orphans per_is dests owners j u in
      elim (Bool-cases drops) [
        | inl y ↦
            let owns : has_owner owners dest is_name ≡ true =
              ground (arith, was_owner owners dest) in
            elim (text-cases dest j) [
              | inl (e, same) ↦
                  rw y (ground (arith, ih, owners_of-remove_owner_self owners dest owns))
              | inr (n, _) ↦ rw y (
                  ground (
                    arith,
                    ih,
                    orphans_congr per_is owners removed j
                        (owners_of-remove_owner_other owners dest j n),
                  ))
            ]
        | inr keeps ↦ rw keeps (ground (arith, ih', was_owner owners dest, eq_iff dest j))
      ]

owners_of-add_owner_other :
    (is_name : String) (owners : Owners) (dest j : String)
    → (dest == j) ≡ false
    → owners_of (add_owner owners dest is_name) j ≡ owners_of owners j
unfolding add_owner
owners_of-add_owner_other is_name owners dest j other =
    ground (arith, lookup-insert dest j (owners_of owners dest ++ is_name ∷ []) owners)

owners_of-upsert_all_absent :
    (is_name : String) (per_is : ImageState) (c : Consolidated) (j : String)
    → lookup j per_is ≡ none
    → owners_of (upsert_all is_name per_is c).owners j ≡ owners_of c.owners j
unfolding upsert_all lookup
owners_of-upsert_all_absent is_name [] c j absent = refl
owners_of-upsert_all_absent is_name ((dest, ne) ∷ rest) c j absent =
    let other : (dest == j) ≡ false = ground arith in
    owners_of-upsert_all_absent is_name rest (upsert is_name dest ne c) j (ground arith)
    ∙ ap (λ o. owners_of o j) (owners-upsert is_name dest ne c)
    ∙ owners_of-add_owner_other is_name c.owners dest j other

refresh_entry_lifecycle :
    (sole : Bool) (ne e : ImageEntry)
    → let e' = refresh_entry sole ne e in
      (e'.source ≡ ne.source)
      × (e'.state ≡ e.state)
      × (e'.last_error ≡ e.last_error)
      × (e'.retry_count ≡ e.retry_count)
      × (e'.next_retry_at ≡ e.next_retry_at)
      × (e'.permanently_failed ≡ e.permanently_failed)
      × (e'.signature_verified ≡ e.signature_verified)
      × (e'.source_digest ≡ e.source_digest)
unfolding refresh_entry
refresh_entry_lifecycle true ne e = (refl, refl, refl, refl, refl, refl, refl, refl)
refresh_entry_lifecycle false ne e = (refl, refl, refl, refl, refl, refl, refl, refl)

module _ (per_is : ImageState) (is_name : String) (c : Consolidated) (j : String)
    (distinct : Distinct c.state) (resolved : Distinct per_is) where
  abbrev known : Bool
  known = is_some (lookup j per_is) || is_some (lookup j c.state)

  known_after : is_some (lookup j (upsert_all is_name per_is c).state) ≡ known
  known_after = elim (Option-cases (lookup j per_is)) [
    | inl h ↦ ground (arith, lookup-upsert_all is_name per_is c j resolved)
    | inr (e, h) ↦ ground (arith, lookup-upsert_all is_name per_is c j resolved)
  ]

  -- After the merge of an ImageSet's resolve, that ImageSet owns exactly the destinations that it
  -- resolved to, and every other ImageSet owns what it owned before.
  pub merge_owners :
      (n : String)
      → known ≡ true
      → has_owner (merge_resolved_into_consolidated per_is is_name c).0.owners j n
        ≡ (if is_name == n then is_some (lookup j per_is) else has_owner c.owners j n)
  unfolding merge_resolved_into_consolidated
  merge_owners n k =
      let c' = upsert_all is_name per_is c in
      ground (
        arith,
        has_owner-drop_stale is_name per_is (keys c'.state) c'.owners j n,
        has_owner-upsert_all is_name per_is c j n,
        contains-keys c'.state j,
        known_after,
      )

  -- The merge keeps every entry that it finds; where the resolve has the destination it refreshes
  -- the source, and no field of the mirroring lifecycle changes.
  pub merge_keeps_lifecycle :
      (e : ImageEntry)
      → lookup j c.state ≡ some e
      → (e' : ImageEntry) × (lookup j (merge_resolved_into_consolidated per_is is_name c).0.state
          ≡ some e')
        × ((ne : ImageEntry) → lookup j per_is ≡ some ne → e'.source ≡ ne.source)
        × (lookup j per_is ≡ none → e' ≡ e)
        × (e'.state ≡ e.state)
        × (e'.last_error ≡ e.last_error)
        × (e'.retry_count ≡ e.retry_count)
        × (e'.next_retry_at ≡ e.next_retry_at)
        × (e'.permanently_failed ≡ e.permanently_failed)
        × (e'.signature_verified ≡ e.signature_verified)
        × (e'.source_digest ≡ e.source_digest)
  unfolding merge_resolved_into_consolidated refresh_entry
  merge_keeps_lifecycle e found =
      let law = lookup-upsert_all is_name per_is c j resolved in
      elim (Option-cases (lookup j per_is)) [
        | inl absent ↦ (
          e,
          ground arith,
          λ ne h. ground arith,
          λ _. refl,
          refl,
          refl,
          refl,
          refl,
          refl,
          refl,
          refl,
        )
        | inr (ne, present) ↦
            let sole = only_owner c.owners j is_name in
            let kept = refresh_entry_lifecycle sole ne e in
            (
              refresh_entry sole ne e,
              ground arith,
              λ ne' h. ground (arith, kept),
              λ h. ground arith,
              kept.1,
              kept.2,
              kept.3,
              kept.4,
              kept.5,
              kept.6,
              kept.7,
            )
      ]

  -- A destination is reported as orphaned exactly when this ImageSet was its only owner and no
  -- longer resolves to it.
  pub merge_orphans :
      known ≡ true
      → contains (merge_resolved_into_consolidated per_is is_name c).1 j
        ≡ not (is_some (lookup j per_is))
          && has_owner c.owners j is_name
          && is_nil (without is_name (owners_of c.owners j))
  unfolding merge_resolved_into_consolidated
  merge_orphans k =
      let c' = upsert_all is_name per_is c in
      let law =
        drop_stale-orphans is_name per_is (keys c'.state) c'.owners j
          (keys-Unique c'.state (upsert_all-Distinct is_name per_is c distinct)) in
      elim (Option-cases (lookup j per_is)) [
        | inr (ne, present) ↦ ground (arith, law)
        | inl absent ↦ ground (
          arith,
          law,
          contains-keys c'.state j,
          known_after,
          orphans_congr is_name per_is c.owners c'.owners j
              (owners_of-upsert_all_absent is_name per_is c j absent),
        )
      ]
