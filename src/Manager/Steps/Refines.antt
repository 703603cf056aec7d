-- ===== src/Manager/Steps/Refines.antt =====
-- The manager refines the lifecycle of an image, and what follows for its runs.
use oc_mirror_operator.Base.{
  String, true, false, List, [], ◌∷◌, ◌++◌, ◌≡◌, arith, ap, Bool-cases, inl, inr, refl,
}
use oc_mirror_operator.Manager.State.{MirrorManager}
use oc_mirror_operator.Manager.Reports.{enqueue_status}
use oc_mirror_operator.Manager.Workers.{sync_in_progress_from_pods}
use oc_mirror_operator.Manager.Steps.{
  Event, queue_report, drain, pass, drift_check, load_state, image_sets_removed, resync_forced,
  resolve_done, cleanup, recover, perform, run, vouches, adds,
}
use oc_mirror_operator.Manager.Steps.Lifecycle.{lifecycle, Allowed, Allowed-refl}
use oc_mirror_operator.Manager.Steps.Moves.Reported.{
  drain_status_queue-Allowed, cleanup_finished_workers-Allowed,
}
use oc_mirror_operator.Manager.Steps.Moves.Passes.{
  sweep-Allowed, reset_image_set_to_pending-Allowed, drop_removed_image_sets-Allowed,
}
use oc_mirror_operator.Manager.Steps.Moves.Checked.{check_drift_attempt-Allowed}
use oc_mirror_operator.Manager.Steps.Moves.Loaded.{load_if_empty-Allowed}
use oc_mirror_operator.Manager.Steps.Moves.Resolved.{after_resolve-Allowed}

-- Every event moves every image as the lifecycle allows: the image becomes known only if the event
-- is a resolve or a load that brings it; it is believed mirrored only if it was before, or if the
-- event is a successful report, a drift check that found the image, or a resolve or a load that
-- brings it as Mirrored; and its permanent failure stays as long as the image stays known.
pub perform-Allowed :
    (event : Event) (m : MirrorManager) (dest : String)
    → Allowed
        (adds dest event)
        (vouches dest event m)
        (lifecycle dest m)
        (lifecycle dest (perform event m))
unfolding perform
perform-Allowed (queue_report req) m dest = unfold enqueue_status in Allowed-refl (lifecycle dest m)
perform-Allowed (drain ticks) m dest = drain_status_queue-Allowed ticks m dest
perform-Allowed (pass now batch_size concurrency names) m dest = sweep-Allowed now m dest
perform-Allowed (drift_check t require_signed d inconclusive r before) m dest =
    check_drift_attempt-Allowed t require_signed d inconclusive r before m dest
perform-Allowed (load_state image_sets stored) m dest =
    load_if_empty-Allowed image_sets stored m dest
perform-Allowed (image_sets_removed image_sets) m dest =
    drop_removed_image_sets-Allowed image_sets m dest
perform-Allowed (resync_forced is_name) m dest = reset_image_set_to_pending-Allowed is_name m dest
perform-Allowed (resolve_done is_name recollect first digests result) m dest =
    after_resolve-Allowed is_name recollect first digests result m dest
perform-Allowed (cleanup ticks pods snapshot) m dest =
    cleanup_finished_workers-Allowed ticks pods snapshot m dest
perform-Allowed (recover pods) m dest =
    unfold sync_in_progress_from_pods in Allowed-refl (lifecycle dest m)

-- An image that a run makes believed mirrored was vouched for: the run has an event that, in the
-- state it met, was a successful report of the image, a drift check that found it, or a resolve or
-- a load that brings it as Mirrored.
pub run-vouches :
    (events : List Event) (m : MirrorManager) (dest : String)
    → (lifecycle dest m).claimed ≡ false
    → (lifecycle dest (run events m)).claimed ≡ true
    → (earlier : List Event) × (event : Event) × (later : List Event) × (events
        ≡ earlier ++ event ∷ later)
      × (vouches dest event (run earlier m) ≡ true)
unfolding run
run-vouches [] m dest before now = absurd (ground (arith, before, now))
run-vouches (event ∷ events) m dest before now =
    let moved = perform-Allowed event m dest in
    elim (Bool-cases (vouches dest event m)) [
      | inl vouched ↦ ([], event, events, refl, vouched)
      | inr silent ↦ elim (Bool-cases (lifecycle dest (perform event m)).claimed) [
        | inl claimed ↦ absurd (ground (arith, before, moved.claimed silent claimed))
        | inr unclaimed ↦
            let (earlier, e, later, split, vouched) =
              run-vouches events (perform event m) dest unclaimed now in
            (event ∷ earlier, e, later, ap (λ es. event ∷ es) split, vouched)
      ]
    ]

-- A permanently failed image stays so in every state that the manager can reach without taking it
-- out of its state, one after the other.
pub data StaysKnown (dest : String) (start : MirrorManager) : MirrorManager → Type 0 where
  begins : StaysKnown dest start start
  goes_on :
      {m : MirrorManager}
      → StaysKnown dest start m
      → (event : Event) → (lifecycle dest (perform event m)).known ≡ true
      → StaysKnown dest start (perform event m)

-- An image that is permanently failed stays so along a run in which it stays known: neither a
-- success report nor a forced resync, a recollect, a new resolve or a drift check clears the mark.
pub stays_given_up :
    (dest : String) (start : MirrorManager) {m : MirrorManager}
    → StaysKnown dest start m
    → (lifecycle dest start).given_up ≡ true
    → (lifecycle dest m).given_up ≡ true
stays_given_up dest start begins h = h
stays_given_up dest start (goes_on {m} stays event known) h =
    (perform-Allowed event m dest).given_up (stays_given_up dest start stays h) known
