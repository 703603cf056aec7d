-- ===== src/Manager/Reports.antt =====
-- Worker reports (pkg/mirror/manager/manager.go): the status queue, `applyStatusLocked`,
-- `setImageStateLocked` and `resetMirroredLocked`. The proofs are in the modules below.
pub mod Effect
pub mod Idempotent
pub mod Queue
use oc_mirror_operator.Base.{
  ℕ, suc, String, Bool, true, false, Option, none, some, List, [], ◌∷◌, ◌++◌, ◌==◌, ◌&&◌, ◌||◌, not,
  if◌then◌else◌, is_some,
}
use oc_mirror_operator.Base.Dict.{lookup, insert, remove}
use oc_mirror_operator.ImageState.Entry.{
  EntryState, state_mirrored, state_failed, state_eq, origin_additional, origin_eq, ImageEntry,
}
use oc_mirror_operator.Manager.State.{MirrorManager, StatusRequest, Tick}
use oc_mirror_operator.Manager.Retry.{record_failure, effective_max_retries}

unfoldable pub reset_mirrored : String → MirrorManager → MirrorManager
reset_mirrored dest m = record m {
  mirrored = remove dest m.mirrored;
  state_dirty = true;
  status_dirty = true;
}

-- the state that `setImageStateLocked` gives an entry which it does not leave alone
unfoldable pub moved_entry : Tick → ℕ → EntryState → String → ImageEntry → ImageEntry
unfolding record_failure
moved_entry t budget st last_error e =
    let e' = record e { state = st; last_error = last_error } in
    if state_eq st state_failed
    then record_failure t budget e'
    else record e' { next_retry_at = none }

-- the idempotency test of `setImageStateLocked`
unfoldable pub already_set : EntryState → String → ImageEntry → Bool
already_set st last_error e = state_eq e.state st && e.last_error == last_error

unfoldable pub set_known_state :
    Tick → String → EntryState → String → MirrorManager → ImageEntry → MirrorManager
unfolding moved_entry already_set reset_mirrored
set_known_state t dest st last_error m e =
    let m' = record m {
      image_state =
          insert dest (moved_entry t (effective_max_retries m) st last_error e) m.image_state;
      state_dirty = true;
      status_dirty = true;
    } in
    if already_set st last_error e
    then m
    else if state_eq st state_mirrored
    then m'
    else reset_mirrored dest m'

unfoldable pub set_image_state : Tick → String → EntryState → String → MirrorManager → MirrorManager
unfolding set_known_state
set_image_state t dest st last_error m = elim (lookup dest m.image_state) [
  | none ↦ m
  | some e ↦ set_known_state t dest st last_error m e
]

-- only a destination that is still in the working set gets the fast-path flag
unfoldable pub flag_known : String → MirrorManager → MirrorManager
flag_known dest m =
    if is_some (lookup dest m.image_state)
    then record m { mirrored = insert dest true m.mirrored }
    else m

-- the drift baseline of an additional image
unfoldable pub takes_digest : String → ImageEntry → Bool
takes_digest digest e = origin_eq e.origin origin_additional && not (digest == "")

unfoldable pub record_digest : String → String → MirrorManager → MirrorManager
unfolding takes_digest
record_digest dest digest m = elim (lookup dest m.image_state) [
  | none ↦ m
  | some e ↦
      if takes_digest digest e
      then record m {
        image_state = insert dest (record e { source_digest = digest }) m.image_state;
        state_dirty = true;
      }
      else m
]

unfoldable pub apply_status : Tick → StatusRequest → MirrorManager → MirrorManager
apply_status t req m =
    let failed = set_image_state t req.destination state_failed req.error m in
    let succeeded =
      record_digest req.destination req.digest
        (set_image_state t req.destination state_mirrored "" (flag_known req.destination m)) in
    let m' = if not (req.error == "") then failed else succeeded in
    record m' { in_progress = remove req.destination m'.in_progress; status_dirty = true }

unfoldable pub enqueue_status : StatusRequest → MirrorManager → MirrorManager
enqueue_status req m = record m { status_queue = m.status_queue ++ req ∷ [] }

unfoldable pub succeeds_in : String → List StatusRequest → Bool
succeeds_in dest [] = false
succeeds_in dest (req ∷ rest) =
    (req.destination == dest && req.error == "") || succeeds_in dest rest

unfoldable pub queued_success : String → MirrorManager → Bool
unfolding succeeds_in
queued_success dest m = succeeds_in dest m.status_queue

-- the reports in arrival order; `ticks i` is what the clock says at report `i`
unfoldable pub apply_all : (ℕ → Tick) → List StatusRequest → MirrorManager → MirrorManager
apply_all ticks [] m = m
apply_all ticks (req ∷ rest) m = apply_all (λ i. ticks (suc i)) rest (apply_status (ticks 0) req m)

unfoldable pub drain_status_queue : (ℕ → Tick) → MirrorManager → MirrorManager
unfolding apply_all
drain_status_queue ticks m = apply_all ticks m.status_queue (record m { status_queue = [] })
