-- ===== src/Manager/Sweep.antt =====
-- Phase D of `reconcile` (pkg/mirror/manager/manager.go): one pass over all entries that moves
-- orphans out, retries failed images whose backoff has passed and collects what is to be
-- dispatched. The pass visits the keys of the state in an order that Go leaves open.
pub mod Local
pub mod Outcome
pub mod StaleFlag
use oc_mirror_operator.Base.{
  ℕ, suc, String, Bool, true, false, Option, none, some, List, [], ◌∷◌, ◌++◌, ◌==◌, ◌&&◌, not,
  if◌then◌else◌, ltb,
}
use oc_mirror_operator.Base.Dict.{lookup, insert, remove, keys}
use oc_mirror_operator.ImageState.Entry.{
  ImageEntry, ImageState, state_mirrored, state_failed, state_pending, state_eq,
}
use oc_mirror_operator.Manager.State.{MirrorManager, BatchItem}
use oc_mirror_operator.Manager.Retry.{effective_max_retries}

pub record Sweep : Type 0 where
  pub manager : MirrorManager
  pub pending_images : List BatchItem
  pub pending_bundle_images : List BatchItem
  pub new_orphans : ImageState

-- a missing key reads as the nil slice, `false` and the empty text
abbrev pub no_owner : Option (List String) → Bool
no_owner none = true
no_owner (some []) = true
no_owner (some (_ ∷ _)) = false

abbrev pub is_flagged : Option Bool → Bool
is_flagged none = false
is_flagged (some b) = b

abbrev pub is_tracked : Option String → Bool
is_tracked none = false
is_tracked (some pod_name) = not (pod_name == "")

-- the backoff of the entry has not passed
abbrev pub waits : ℕ → Option ℕ → Bool
waits now none = false
waits now (some next) = ltb now next

unfoldable pub set_entry : String → ImageEntry → Sweep → Sweep
set_entry dest e s = record s {
  manager = record s.manager {
    image_state = insert dest e s.manager.image_state;
    state_dirty = true;
  };
}

unfoldable pub move_to_orphans : String → ImageEntry → Sweep → Sweep
move_to_orphans dest e s = record s {
  manager = record s.manager {
    image_state = remove dest s.manager.image_state;
    owners = remove dest s.manager.owners;
    owner_meta = remove dest s.manager.owner_meta;
    state_dirty = true;
  };
  new_orphans = insert dest e s.new_orphans;
}

unfoldable pub retry_failed : ℕ → String → ImageEntry → Sweep → Sweep
unfolding set_entry
retry_failed now dest e s =
    if ltb e.retry_count (effective_max_retries s.manager)
    then if waits now e.next_retry_at
      then s
      else set_entry dest (record e { state = state_pending; next_retry_at = none }) s
    else if not e.permanently_failed
    then set_entry dest (record e { permanently_failed = true }) s
    else s

unfoldable pub collect_pending : String → ImageEntry → Sweep → Sweep
collect_pending dest e s =
    let item : BatchItem = record { source = e.source; dest = dest } in
    if is_tracked (lookup dest s.manager.in_progress)
    then s
    else if e.is_bundle_image
    then record s { pending_bundle_images = s.pending_bundle_images ++ item ∷ [] }
    else record s { pending_images = s.pending_images ++ item ∷ [] }

unfoldable pub sweep_entry : ℕ → String → ImageEntry → Sweep → Sweep
unfolding set_entry move_to_orphans retry_failed collect_pending
sweep_entry now dest e s =
    if no_owner (lookup dest s.manager.owners)
    then move_to_orphans dest e s
    else if state_eq e.state state_mirrored
    then record s { manager = record s.manager { mirrored = insert dest true s.manager.mirrored } }
    else if is_flagged (lookup dest s.manager.mirrored)
    then set_entry dest (record e { state = state_mirrored }) s
    else if state_eq e.state state_failed
    then retry_failed now dest e s
    else if not (state_eq e.state state_pending)
    then s
    else collect_pending dest e s

unfoldable pub sweep_dest : ℕ → String → Sweep → Sweep
unfolding sweep_entry
sweep_dest now dest s = elim (lookup dest s.manager.image_state) [
  | none ↦ s
  | some e ↦ sweep_entry now dest e s
]

unfoldable pub sweep_all : ℕ → List String → Sweep → Sweep
sweep_all now [] s = s
sweep_all now (dest ∷ rest) s = sweep_all now rest (sweep_dest now dest s)

-- the whole pass, and the order of dispatch: bundle images first
unfoldable pub sweep : ℕ → MirrorManager → Sweep
sweep now m =
    sweep_all now (keys m.image_state)
      (record { manager = m; pending_images = []; pending_bundle_images = []; new_orphans = [] })

unfoldable pub dispatch_order : Sweep → List BatchItem
dispatch_order s = s.pending_bundle_images ++ s.pending_images
