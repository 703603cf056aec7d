-- ===== src/Manager/Sweep/Outcome.antt =====
-- What the pass of Phase D means for an image: dispatch, retry and orphaning.
use oc_mirror_operator.Base.{
  ℕ, ◌≤◌, ◌<◌, String, ◌≡◌, true, false, none, some, [], ◌&&◌, not, arith, if◌then◌else◌, ap, ◌∙◌,
  is_some,
}
use oc_mirror_operator.Base.Dict.{lookup, keys, Distinct, contains-keys, keys-Unique, lookup-nil}
use oc_mirror_operator.ImageState.Entry.{
  ImageEntry, state_mirrored, state_failed, state_pending, state_eq, state_eq_iff,
}
use oc_mirror_operator.Manager.State.{MirrorManager}
use oc_mirror_operator.Manager.Retry.{effective_max_retries}
use oc_mirror_operator.Manager.Sweep.{
  Sweep, no_owner, is_flagged, is_tracked, waits, sweep, dispatch_order,
}
use oc_mirror_operator.Manager.Sweep.Local.{
  local, Outcome, occurrences, occurrences-append, sweep_all-Outcome,
}

abbrev pub start : MirrorManager → Sweep
start m = record { manager = m; pending_images = []; pending_bundle_images = []; new_orphans = [] }

-- the outcome of the whole pass at a known destination
sweep-Outcome :
    (now : ℕ) (m : MirrorManager) (j : String) (e : ImageEntry)
    → Distinct m.image_state
    → lookup j m.image_state ≡ some e
    → Outcome now (local m j) (start m) (sweep now m) j
unfolding sweep
sweep-Outcome now m j e distinct known =
    sweep_all-Outcome now (keys m.image_state) (start m) j (keys-Unique m.image_state distinct)
      (contains-keys m.image_state j ∙ ap is_some known)

-- In one pass an image is handed to dispatch once if it is owned, Pending, without the fast-path
-- flag and not in progress, and not at all otherwise.
pub sweep_dispatches_once :
    (now : ℕ) (m : MirrorManager) (j : String) (e : ImageEntry)
    → Distinct m.image_state
    → lookup j m.image_state ≡ some e
    → occurrences j (dispatch_order (sweep now m)) ≡ (
        if not (no_owner (lookup j m.owners))
          && state_eq e.state state_pending
          && not (is_flagged (lookup j m.mirrored))
          && not (is_tracked (lookup j m.in_progress))
        then 1
        else 0)
unfolding dispatch_order occurrences
sweep_dispatches_once now m j e distinct known =
    let o = sweep-Outcome now m j e distinct known in
    let s = sweep now m in
    ground (arith, o.items, occurrences-append j s.pending_bundle_images s.pending_images)

-- the entry after the pass, for an owned image without the fast-path flag
abbrev Unconfirmed : MirrorManager → String → Type 0
Unconfirmed m j =
    (no_owner (lookup j m.owners) ≡ false) × (is_flagged (lookup j m.mirrored) ≡ false)

-- A failed image that is owned and not confirmed goes back to Pending exactly when its budget is
-- not used up and its backoff has passed; it stays as it is while it waits, and with its budget
-- used up it stays Failed and is marked permanently failed. In no case is it dispatched in the
-- same pass.
pub sweep_retries :
    (now : ℕ) (m : MirrorManager) (j : String) (e : ImageEntry)
    → Distinct m.image_state
    → lookup j m.image_state ≡ some e
    → Unconfirmed m j
    → e.state ≡ state_failed
    → let after = lookup j (sweep now m).manager.image_state in
      (e.retry_count < effective_max_retries m
        → waits now e.next_retry_at ≡ false
        → after ≡ some (record e { state = state_pending; next_retry_at = none }))
      × (e.retry_count < effective_max_retries m
          → waits now e.next_retry_at ≡ true
          → after ≡ some e)
      × (effective_max_retries m ≤ e.retry_count
          → after ≡ some (record e { permanently_failed = true }))
      × (occurrences j (dispatch_order (sweep now m)) ≡ 0)
sweep_retries now m j e distinct known (owned, unflagged) failed =
    let o = sweep-Outcome now m j e distinct known in
    (
      λ room past. ground (arith, o.entry),
      λ room future. ground (arith, o.entry),
      λ spent. ground (arith, o.entry),
      ground (arith, sweep_dispatches_once now m j e distinct known),
    )

-- An entry without an owner leaves the state for the orphans that the cleanup job will delete, and
-- an entry with an owner stays in the state and is not among them.
pub sweep_orphans_iff :
    (now : ℕ) (m : MirrorManager) (j : String) (e : ImageEntry)
    → Distinct m.image_state
    → lookup j m.image_state ≡ some e
    → let s = sweep now m in
      (no_owner (lookup j m.owners) ≡ true
        → (lookup j s.manager.image_state ≡ none) × (lookup j s.new_orphans ≡ some e))
      × (no_owner (lookup j m.owners) ≡ false
          → (is_some (lookup j s.manager.image_state) ≡ true) × (lookup j s.new_orphans ≡ none))
sweep_orphans_iff now m j e distinct known =
    let o = sweep-Outcome now m j e distinct known in
    (
      λ h. (ground (arith, o.entry), ground (arith, o.orphan)),
      λ h. (ground (arith, o.entry), ground (arith, o.orphan, lookup-nil {V = ImageEntry} j)),
    )

-- An owned entry whose fast-path flag is set is Mirrored after the pass, and is not dispatched.
pub sweep_confirms :
    (now : ℕ) (m : MirrorManager) (j : String) (e : ImageEntry)
    → Distinct m.image_state
    → lookup j m.image_state ≡ some e
    → no_owner (lookup j m.owners) ≡ false
    → is_flagged (lookup j m.mirrored) ≡ true
    → (lookup j (sweep now m).manager.image_state ≡ some (record e { state = state_mirrored }))
      × (occurrences j (dispatch_order (sweep now m)) ≡ 0)
sweep_confirms now m j e distinct known owned flagged =
    let o = sweep-Outcome now m j e distinct known in
    (
      ground (arith, o.entry, state_eq_iff e.state state_mirrored),
      ground (arith, sweep_dispatches_once now m j e distinct known),
    )
