-- ===== src/Manager/Steps.antt =====
-- The manager as a state machine (pkg/mirror/manager): an event is one critical section of the
-- mutex with all that it reads from outside, and a run is a list of events. Two events of one
-- reconcile or drift check may have any others between them.
pub mod Lifecycle
pub mod Moves
pub mod Refines
pub mod Pods
pub mod Held
pub mod OnePod
use oc_mirror_operator.Base.{
  ℕ, String, Bool, true, false, Option, none, some, List, [], ◌∷◌, ◌==◌, ◌&&◌, ◌||◌, if◌then◌else◌,
}
use oc_mirror_operator.Base.Dict.{Dict}
use oc_mirror_operator.ImageState.Entry.{ImageEntry, ImageState, state_mirrored, state_eq}
use oc_mirror_operator.Manager.State.{MirrorManager, StatusRequest, BatchItem, Tick}
use oc_mirror_operator.Manager.Reports.{enqueue_status, drain_status_queue, queued_success}
use oc_mirror_operator.Manager.Sweep.{Sweep, sweep, dispatch_order}
use oc_mirror_operator.Manager.Dispatch.{Dispatch, dispatch}
use oc_mirror_operator.Manager.Drift.{
  Registry, Presence, present, absent, unknown, check_drift_attempt,
}
use oc_mirror_operator.Manager.Persist.{Stored, load_partitioned_state}
use oc_mirror_operator.Manager.Phases.{remove_image_sets, force_resync, after_resolve}
use oc_mirror_operator.Manager.Workers.{Pod, sync_in_progress_from_pods, cleanup_finished_workers}

pub data Event : Type 0 where
  queue_report : StatusRequest → Event
  drain : (ℕ → Tick) → Event
  -- Phases D and E: the time, the batch size, the limit, and the pods that the API creates
  pass : ℕ → ℕ → ℕ → List (Option String) → Event
  -- the end of a drift check that began in the given state
  drift_check : Tick → Dict Bool → String → Bool → Registry → MirrorManager → Event
  -- the load of the persisted state, for the ImageSets that the target names
  load_state : List String → List Stored → Event
  image_sets_removed : List String → Event
  resync_forced : String → Event
  -- the end of a resolve of an ImageSet
  resolve_done : String → Bool → Bool → Dict String → Option (ImageState × Bool) → Event
  cleanup : (ℕ → Tick) → Option (List Pod) → Dict String → Event
  recover : List Pod → Event

-- the API creates pods as the list says
abbrev pub answer : List BatchItem → List (Option String) → Option String × List (Option String)
answer batch [] = (none, [])
answer batch (name ∷ names) = (name, names)

abbrev pub dispatched : ℕ → ℕ → List (Option String) → Sweep → MirrorManager
dispatched batch_size concurrency names s = record s.manager {
  in_progress =
      (dispatch answer batch_size concurrency (dispatch_order s) s.manager.in_progress
        names).in_progress;
}

abbrev pub is_nothing : ImageState → Bool
is_nothing [] = true
is_nothing (e ∷ state) = false

-- Phase A loads only while nothing is in memory
abbrev pub load_if_empty : List String → List Stored → MirrorManager → MirrorManager
load_if_empty image_sets stored m =
    if is_nothing m.image_state then load_partitioned_state image_sets stored m else m

unfoldable pub perform : Event → MirrorManager → MirrorManager
perform (queue_report req) m = enqueue_status req m
perform (drain ticks) m = drain_status_queue ticks m
perform (pass now batch_size concurrency names) m =
    dispatched batch_size concurrency names (sweep now m)
perform (drift_check t require_signed dest inconclusive r before) m =
    (check_drift_attempt t require_signed dest inconclusive r before m).0
perform (load_state image_sets stored) m = load_if_empty image_sets stored m
perform (image_sets_removed image_sets) m = remove_image_sets image_sets m
perform (resync_forced is_name) m = force_resync is_name m
perform (resolve_done is_name recollect first digests result) m =
    after_resolve is_name recollect first digests result m
perform (cleanup ticks pods snapshot) m = (cleanup_finished_workers ticks pods snapshot m).0
perform (recover pods) m = (sync_in_progress_from_pods pods m).0

unfoldable pub run : List Event → MirrorManager → MirrorManager
run [] m = m
run (event ∷ events) m = run events (perform event m)

-- the resolve has an entry of the destination that passes the test
unfoldable pub brings : (ImageEntry → Bool) → String → ImageState → Bool
brings test dest [] = false
brings test dest ((d, e) ∷ rest) = (d == dest && test e) || brings test dest rest

abbrev pub result_brings : (ImageEntry → Bool) → String → Option (ImageState × Bool) → Bool
result_brings test dest none = false
result_brings test dest (some (new_state, changed)) = brings test dest new_state

abbrev pub content_brings : (ImageEntry → Bool) → String → Option (ImageState × Dict String) → Bool
content_brings test dest none = false
content_brings test dest (some (state, digests)) = brings test dest state

-- some stored state has such an entry of the destination
unfoldable pub stored_brings : (ImageEntry → Bool) → String → List Stored → Bool
stored_brings test dest [] = false
stored_brings test dest (s ∷ stored) =
    content_brings test dest s.content || stored_brings test dest stored

abbrev pub is_mirrored : ImageEntry → Bool
is_mirrored e = state_eq e.state state_mirrored

abbrev pub is_present : Presence → Bool
is_present present = true
is_present absent = false
is_present unknown = false

-- the event says that the image is in the target registry: a worker pushed it, the registry has
-- it, or the persisted state of the ImageSet has it Mirrored
abbrev pub vouches : String → Event → MirrorManager → Bool
vouches dest (drain ticks) m = queued_success dest m
vouches dest (cleanup ticks pods snapshot) m = queued_success dest m
vouches dest (drift_check t require_signed d inconclusive r before) m =
    d == dest && is_present r.presence
vouches dest (resolve_done is_name recollect first digests result) m =
    result_brings is_mirrored dest result
vouches dest (load_state image_sets stored) m = stored_brings is_mirrored dest stored
vouches dest event m = false

-- the event can bring an entry of the destination into the state
abbrev pub adds : String → Event → Bool
adds dest (resolve_done is_name recollect first digests result) =
    result_brings (λ e. true) dest result
adds dest (load_state image_sets stored) = stored_brings (λ e. true) dest stored
adds dest event = false
