-- ===== src/Tests/Runs.antt =====
-- Runs of the manager on concrete inputs: the pod `worker-1` mirrors `a` and reports it.
use oc_mirror_operator.Base.{for_each, ◌≡◌, refl, true, false, some, List, [], ◌∷◌, ◌++◌}
use oc_mirror_operator.Base.Dict.{lookup, insert, keys, Distinct}
use oc_mirror_operator.ImageState.Entry.{ImageState}
use oc_mirror_operator.Manager.State.{MirrorManager}
use oc_mirror_operator.Manager.Ownership.{has_owner, owner_meta_of, spec_meta_of}
use oc_mirror_operator.Manager.Reports.{
  queued_success, succeeds_in, enqueue_status, drain_status_queue, apply_status, set_image_state,
  flag_known, record_digest,
}
use oc_mirror_operator.Manager.Resync.{reset_image_set_to_pending, reset_dest}
use oc_mirror_operator.Manager.Phases.{record_owner_meta}
use oc_mirror_operator.Manager.Phases.Metadata.{record_owner_meta_effect}
use oc_mirror_operator.Manager.Steps.{
  Event, queue_report, drain, resync_forced, perform, run, vouches, pass,
}
use oc_mirror_operator.Manager.Steps.Lifecycle.{Allowed, lifecycle}
use oc_mirror_operator.Manager.Steps.Refines.{
  perform-Allowed, run-vouches, begins, goes_on, stays_given_up,
}
use oc_mirror_operator.Tests.Data.{
  manager, busy, images, ticks, success, pending_image, mirrored_image, failed_image,
}

abbrev reported : MirrorManager
reported = record busy { status_queue = success ∷ [] }

-- the report vouches for `a`
perform-Allowed_example :
    Allowed false true (lifecycle "a" reported) (lifecycle "a" (perform (drain ticks) reported))
unfolding queued_success succeeds_in
perform-Allowed_example = perform-Allowed (drain ticks) reported "a"

abbrev events : List Event
events = queue_report success ∷ drain ticks ∷ []

run-vouches_example :
    (earlier : List Event) × (event : Event) × (later : List Event) × (events
      ≡ earlier ++ event ∷ later)
    × (vouches "a" event (run earlier busy) ≡ true)
unfolding run perform lookup drain_status_queue enqueue_status apply_status record_digest
    set_image_state flag_known insert
run-vouches_example = run-vouches events busy "a" refl refl

abbrev hopeless : MirrorManager
hopeless = record manager {
  image_state = ("c", record failed_image { permanently_failed = true }) ∷ [];
}

stays_given_up_example : (lifecycle "c" (perform (resync_forced "is2") hopeless)).given_up ≡ true
unfolding perform lookup reset_image_set_to_pending for_each keys reset_dest has_owner insert
stays_given_up_example =
    stays_given_up "c" hopeless (goes_on begins (resync_forced "is2") refl) refl

images-Distinct : Distinct images
unfolding lookup
images-Distinct = (refl, (refl, (refl, (refl, _))))

-- two passes, and then the report on `a`
abbrev passes : List Event
passes =
    pass 1000 5 2 (some "worker-2" ∷ [])
    ∷ queue_report success
    ∷ pass 2000 5 2 (some "worker-3" ∷ [])
    ∷ drain ticks
    ∷ []

abbrev resolved : ImageState
resolved = ("a", pending_image) ∷ ("b", mirrored_image) ∷ []

resolved-Distinct : Distinct resolved
unfolding lookup
resolved-Distinct = (refl, (refl, _))

record_owner_meta_effect_example :
    owner_meta_of (record_owner_meta "is1" resolved []) "a" "is1"
    ≡ some (spec_meta_of pending_image)
unfolding lookup
record_owner_meta_effect_example =
    record_owner_meta_effect "is1" resolved [] "a" "is1" resolved-Distinct
