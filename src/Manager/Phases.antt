-- ===== src/Manager/Phases.antt =====
-- Phases A and B of `reconcile` (pkg/mirror/manager/manager.go): the removal of ImageSets, the
-- forced resync, and what is done with the answer of a resolve. `recordOwnerMetaLocked` is in
-- owner_meta.go.
pub mod Metadata
use oc_mirror_operator.Base.{
  String, Bool, true, false, Option, none, some, List, [], ◌∷◌, ◌==◌, ◌&&◌, ◌||◌, if◌then◌else◌,
  is_some, length, eqb,
}
use oc_mirror_operator.Base.Dict.{Dict, lookup, insert, remove, update_entries}
use oc_mirror_operator.ImageState.Entry.{ImageEntry, ImageState}
use oc_mirror_operator.Manager.State.{MirrorManager, SpecMeta}
use oc_mirror_operator.Manager.Ownership.{
  Consolidated, merge_resolved_into_consolidated, spec_meta_of,
}
use oc_mirror_operator.Manager.Resync.{
  Reset, reset_image_set_to_pending, reset_failed_for_recollect,
}
use oc_mirror_operator.Manager.Removal.{drop_removed_image_sets}
use oc_mirror_operator.Manager.Resolve.Live.{merge_worker_updates}

abbrev pub metas_or_nil : Option (Dict SpecMeta) → Dict SpecMeta
metas_or_nil none = []
metas_or_nil (some per_owner) = per_owner

unfoldable pub set_owner_meta :
    String → String → SpecMeta → Dict (Dict SpecMeta) → Dict (Dict SpecMeta)
set_owner_meta dest is_name meta owner_meta =
    insert dest (insert is_name meta (metas_or_nil (lookup dest owner_meta))) owner_meta

abbrev pub non_empty : Dict SpecMeta → Option (Dict SpecMeta)
non_empty [] = none
non_empty (meta ∷ per_owner) = some (meta ∷ per_owner)

-- the first loop of `recordOwnerMetaLocked`: the ImageSet no longer resolves to the destination
unfoldable pub drop_owner_meta : String → ImageState → Dict (Dict SpecMeta) → Dict (Dict SpecMeta)
drop_owner_meta is_name resolved owner_meta =
    update_entries
      (λ dest per_owner.
        if is_some (lookup dest resolved)
        then some per_owner
        else non_empty (remove is_name per_owner))
      owner_meta

-- the second loop
unfoldable pub set_owner_metas : String → ImageState → Dict (Dict SpecMeta) → Dict (Dict SpecMeta)
unfolding set_owner_meta
set_owner_metas is_name [] owner_meta = owner_meta
set_owner_metas is_name ((dest, e) ∷ resolved) owner_meta =
    set_owner_metas is_name resolved (set_owner_meta dest is_name (spec_meta_of e) owner_meta)

unfoldable pub record_owner_meta : String → ImageState → Dict (Dict SpecMeta) → Dict (Dict SpecMeta)
unfolding drop_owner_meta set_owner_metas
record_owner_meta is_name resolved owner_meta =
    set_owner_metas is_name resolved (drop_owner_meta is_name resolved owner_meta)

abbrev pub has_value : Option String → String → Bool
has_value none value = false
has_value (some v) value = v == value

-- `maps.Equal`
unfoldable pub maps_equal : Dict String → Dict String → Bool
maps_equal xs ys = eqb (length xs) (length ys) && all_in xs ys
  where
    all_in : Dict String → Dict String → Bool
    all_in [] ys = true
    all_in ((k, v) ∷ xs) ys = has_value (lookup k ys) v && all_in xs ys

abbrev pub digests_or_nil : Option (Dict String) → Dict String
digests_or_nil none = []
digests_or_nil (some digests) = digests

unfoldable pub set_catalog_digests : String → Dict String → MirrorManager → Reset
unfolding maps_equal
set_catalog_digests is_name digests m =
    if maps_equal (digests_or_nil (lookup is_name m.catalog_digests)) digests
    then record { manager = m; changed = false }
    else record {
      manager = record m { catalog_digests = insert is_name digests m.catalog_digests };
      changed = true;
    }

-- what `reconcile` notes of a change
abbrev pub noted : Reset → MirrorManager
noted r = record r.manager {
  state_dirty = r.changed || r.manager.state_dirty;
  status_dirty = r.changed || r.manager.status_dirty;
}

abbrev pub noted_in_state : Reset → MirrorManager
noted_in_state r = record r.manager { state_dirty = r.changed || r.manager.state_dirty }

-- Phase A, after the state was loaded
abbrev pub remove_image_sets : List String → MirrorManager → MirrorManager
remove_image_sets image_sets m = noted_in_state (drop_removed_image_sets image_sets m)

-- Phase B for an ImageSet with the force-resync annotation
abbrev pub force_resync : String → MirrorManager → MirrorManager
force_resync is_name m = noted (reset_image_set_to_pending is_name m)

abbrev pub merged : Consolidated × List String → MirrorManager → MirrorManager
merged (c, orphaned) m = record m { image_state = c.state; owners = c.owners; state_dirty = true }

abbrev pub merge_image_set : String → ImageState → MirrorManager → MirrorManager
merge_image_set is_name per_is m =
    let m' =
      merged
        (merge_resolved_into_consolidated per_is is_name
          (record { state = m.image_state; owners = m.owners }))
        m in
    record m' { owner_meta = record_owner_meta is_name per_is m'.owner_meta }

abbrev pub recollected : Bool → String → MirrorManager → MirrorManager
recollected recollect is_name m =
    if recollect then noted (reset_failed_for_recollect is_name m) else m

-- Phase B with the answer of `resolveImageSet`: an error, or the state of the ImageSet and whether
-- it changed; `first`: the ImageSet had no entry when the resolve began
abbrev pub after_resolve :
    String → Bool → Bool → Dict String → Option (ImageState × Bool) → MirrorManager → MirrorManager
after_resolve is_name recollect first digests none m = m
after_resolve is_name recollect first digests (some (new_state, changed)) m =
    let per_is = merge_worker_updates new_state m.image_state in
    let m₁ = record m { status_dirty = true } in
    let m₂ = if changed || first then merge_image_set is_name per_is m₁ else m₁ in
    noted_in_state (set_catalog_digests is_name digests (recollected recollect is_name m₂))
