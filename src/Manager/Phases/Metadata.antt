-- ===== src/Manager/Phases/Metadata.antt =====
-- The owners' metadata after `recordOwnerMetaLocked` (pkg/mirror/manager/owner_meta.go).
use oc_mirror_operator.Base.{
  String, Option, none, some, [], ◌∷◌, ◌≡◌, ◌==◌, ◌&&◌, not, is_some, and_then, map_some, arith,
  if◌then◌else◌, Option-cases, text-cases, inl, inr, refl, ap, sym, ◌∙◌,
}
use oc_mirror_operator.Base.Dict.{
  Dict, lookup, insert, remove, Distinct, lookup-insert, lookup-remove, lookup-update_entries,
  lookup-nil,
}
use oc_mirror_operator.ImageState.Entry.{ImageState}
use oc_mirror_operator.Manager.State.{SpecMeta}
use oc_mirror_operator.Manager.Ownership.{owner_meta_of, spec_meta_of}
use oc_mirror_operator.Manager.Phases.{
  metas_or_nil, non_empty, set_owner_meta, drop_owner_meta, set_owner_metas, record_owner_meta,
}

lookup-metas_or_nil :
    (name : String) (o : Option (Dict SpecMeta))
    → lookup name (metas_or_nil o) ≡ and_then o (lookup name)
lookup-metas_or_nil name none = lookup-nil {V = SpecMeta} name
lookup-metas_or_nil name (some per_owner) = refl

lookup-non_empty :
    (name : String) (per_owner : Dict SpecMeta)
    → and_then (non_empty per_owner) (lookup name) ≡ lookup name per_owner
lookup-non_empty name [] = sym (lookup-nil {V = SpecMeta} name)
lookup-non_empty name (meta ∷ per_owner) = refl

owner_meta_of-set_owner_meta :
    (dest is_name : String) (meta : SpecMeta) (owner_meta : Dict (Dict SpecMeta)) (j name : String)
    → owner_meta_of (set_owner_meta dest is_name meta owner_meta) j name
      ≡ (if dest == j && is_name == name then some meta else owner_meta_of owner_meta j name)
unfolding set_owner_meta
owner_meta_of-set_owner_meta dest is_name meta owner_meta j name =
    let per_owner = metas_or_nil (lookup dest owner_meta) in
    let outer = lookup-insert dest j (insert is_name meta per_owner) owner_meta in
    let inner = lookup-insert is_name name meta per_owner in
    let old = lookup-metas_or_nil name (lookup dest owner_meta) in
    elim (text-cases dest j) [
      | inl (y, same) ↦ ground (arith, y, outer, inner, old, ap (λ x. lookup x owner_meta) same)
      | inr (n, _) ↦ ground (arith, n, outer)
    ]

owner_meta_of-drop_owner_meta :
    (is_name : String) (resolved : ImageState) (owner_meta : Dict (Dict SpecMeta)) (j name : String)
    → owner_meta_of (drop_owner_meta is_name resolved owner_meta) j name ≡ (
        if is_name == name && not (is_some (lookup j resolved))
        then none
        else owner_meta_of owner_meta j name)
unfolding drop_owner_meta
owner_meta_of-drop_owner_meta is_name resolved owner_meta j name =
    let kept : String → Dict SpecMeta → Option (Dict SpecMeta) = λ dest per_owner.
      if is_some (lookup dest resolved)
      then some per_owner
      else non_empty (remove is_name per_owner) in
    ap (λ o. and_then o (lookup name)) (lookup-update_entries kept j owner_meta)
    ∙ elim (Option-cases (lookup j owner_meta)) [
      | inl out ↦ rw out (ground arith)
      | inr (per_owner, found) ↦ rw found (
          ground (
            arith,
            lookup-non_empty name (remove is_name per_owner),
            lookup-remove is_name name per_owner,
          ))
    ]

owner_meta_of-set_owner_metas :
    (is_name : String) (resolved : ImageState) (owner_meta : Dict (Dict SpecMeta)) (j name : String)
    → Distinct resolved
    → owner_meta_of (set_owner_metas is_name resolved owner_meta) j name ≡ (
        if is_name == name && is_some (lookup j resolved)
        then map_some spec_meta_of (lookup j resolved)
        else owner_meta_of owner_meta j name)
unfolding set_owner_metas lookup
owner_meta_of-set_owner_metas is_name [] owner_meta j name d = ground arith
owner_meta_of-set_owner_metas is_name ((dest, e) ∷ resolved) owner_meta j name (fresh, d) =
    let rest =
      owner_meta_of-set_owner_metas is_name resolved
        (set_owner_meta dest is_name (spec_meta_of e) owner_meta) j name d in
    let one = owner_meta_of-set_owner_meta dest is_name (spec_meta_of e) owner_meta j name in
    elim (text-cases dest j) [
      | inl (y, same) ↦ ground (arith, y, one, rest, ap (λ x. lookup x resolved) same, fresh)
      | inr (n, _) ↦ ground (arith, n, one, rest)
    ]

-- After a resolve of an ImageSet is recorded, the ImageSet has metadata for exactly the
-- destinations that it resolved to, those of the resolved entry, and the metadata of every other
-- ImageSet is as it was.
pub record_owner_meta_effect :
    (is_name : String) (resolved : ImageState) (owner_meta : Dict (Dict SpecMeta)) (j name : String)
    → Distinct resolved
    → owner_meta_of (record_owner_meta is_name resolved owner_meta) j name ≡ (
        if is_name == name
        then map_some spec_meta_of (lookup j resolved)
        else owner_meta_of owner_meta j name)
unfolding record_owner_meta
record_owner_meta_effect is_name resolved owner_meta j name d =
    let set =
      owner_meta_of-set_owner_metas is_name resolved (drop_owner_meta is_name resolved owner_meta) j
        name d in
    let dropped = owner_meta_of-drop_owner_meta is_name resolved owner_meta j name in
    elim (Option-cases (lookup j resolved)) [
      | inl out ↦ ground (arith, set, dropped, out)
      | inr (e, found) ↦ ground (arith, set, dropped, found)
    ]
