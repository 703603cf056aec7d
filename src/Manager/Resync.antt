-- ===== src/Manager/Resync.antt =====
-- The two resets of an ImageSet's images that an annotation asks for, and the removal of ImageSets
-- that the MirrorTarget no longer names (pkg/mirror/manager/manager_resolve.go and manager.go).
pub mod Dispatches
pub mod Recollect
use oc_mirror_operator.Base.{
  String, Bool, true, false, Option, none, some, List, [], ◌∷◌, ◌==◌, ◌&&◌, not, if◌then◌else◌, eqb,
  for_each, contains,
}
use oc_mirror_operator.Base.Dict.{Dict, lookup, insert, remove, keys}
use oc_mirror_operator.ImageState.Entry.{ImageEntry, state_failed, state_pending, state_eq}
use oc_mirror_operator.Manager.State.{MirrorManager}
use oc_mirror_operator.Manager.Sweep.{is_tracked}
use oc_mirror_operator.Manager.Ownership.{has_owner}

-- the manager, and whether an entry was changed
pub record Reset : Type 0 where
  pub manager : MirrorManager
  pub changed : Bool

abbrev pub is_fresh : ImageEntry → Bool
is_fresh e =
    state_eq e.state state_pending
    && eqb e.retry_count 0
    && e.last_error == ""
    && not e.signature_verified

abbrev pub cleared : ImageEntry → ImageEntry
cleared e = record e {
  state = state_pending;
  retry_count = 0;
  next_retry_at = none;
  last_error = "";
}

unfoldable pub reset_entry : String → String → ImageEntry → Reset → Reset
reset_entry is_name dest e r =
    let m = r.manager in
    if not (has_owner m.owners dest is_name)
    then r
    else if is_tracked (lookup dest m.in_progress)
    then r
    else if is_fresh e
    then r
    else record {
      manager = record m {
        image_state = insert dest (record (cleared e) { signature_verified = false }) m.image_state;
        mirrored = insert dest false m.mirrored;
      };
      changed = true;
    }

unfoldable pub reset_dest : String → String → Reset → Reset
unfolding reset_entry
reset_dest is_name dest r = elim (lookup dest r.manager.image_state) [
  | none ↦ r
  | some e ↦ reset_entry is_name dest e r
]

unfoldable pub reset_image_set_to_pending : String → MirrorManager → Reset
reset_image_set_to_pending is_name m =
    for_each (reset_dest is_name) (keys m.image_state) (record { manager = m; changed = false })

unfoldable pub recollect_entry : String → String → ImageEntry → Reset → Reset
recollect_entry is_name dest e r =
    let m = r.manager in
    if not (state_eq e.state state_failed)
    then r
    else if not (has_owner m.owners dest is_name)
    then r
    else if is_tracked (lookup dest m.in_progress)
    then r
    else record {
      manager = record m { image_state = insert dest (cleared e) m.image_state };
      changed = true;
    }

unfoldable pub recollect_dest : String → String → Reset → Reset
unfolding recollect_entry
recollect_dest is_name dest r = elim (lookup dest r.manager.image_state) [
  | none ↦ r
  | some e ↦ recollect_entry is_name dest e r
]

unfoldable pub reset_failed_for_recollect : String → MirrorManager → Reset
reset_failed_for_recollect is_name m =
    for_each (recollect_dest is_name) (keys m.image_state) (record { manager = m; changed = false })
