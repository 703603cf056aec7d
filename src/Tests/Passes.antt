-- ===== src/Tests/Passes.antt =====
-- The passes of the reconciler on concrete inputs.
use oc_mirror_operator.Base.{inl, inr, ◌≡◌, refl, true, false, none, some, [], ◌∷◌, arith}
use oc_mirror_operator.Base.Dict.{lookup, Distinct}
use oc_mirror_operator.ImageState.Entry.{ImageEntry, state_pending}
use oc_mirror_operator.Manager.State.{MirrorManager}
use oc_mirror_operator.Manager.Retry.{effective_max_retries}
use oc_mirror_operator.Manager.Ownership.{has_owner}
use oc_mirror_operator.Manager.Sweep.{sweep, dispatch_order}
use oc_mirror_operator.Manager.Sweep.Local.{occurrences}
use oc_mirror_operator.Manager.Sweep.Outcome.{
  sweep_dispatches_once, sweep_retries, sweep_orphans_iff,
}
use oc_mirror_operator.Manager.Sweep.StaleFlag.{re_added, re_added_is_not_mirrored_again}
use oc_mirror_operator.Manager.Resync.{reset_image_set_to_pending, reset_failed_for_recollect}
use oc_mirror_operator.Manager.Resync.Dispatches.{resync_dispatches}
use oc_mirror_operator.Manager.Resync.Recollect.{recollect_effect}
use oc_mirror_operator.Manager.Drift.{Registry, absent, unchecked, check_drift_attempt}
use oc_mirror_operator.Manager.Drift.Stale.{stale_check_is_dropped}
use oc_mirror_operator.Manager.Drift.Flags.{
  FlagSound, missing_image_is_dispatched, drift_keeps_FlagSound,
}
use oc_mirror_operator.Tests.Data.{
  manager, images, tick, pending_image, mirrored_image, failed_image, orphan,
}

images-Distinct : Distinct images
unfolding lookup
images-Distinct = (refl, (refl, (refl, (refl, _))))

sweep_dispatches_once_example : occurrences "a" (dispatch_order (sweep 1000 manager)) ≡ 1
unfolding lookup
sweep_dispatches_once_example =
    sweep_dispatches_once 1000 manager "a" pending_image images-Distinct refl

-- the backoff of `c` ended at 500
sweep_retries_example :
    lookup "c" (sweep 1000 manager).manager.image_state
    ≡ some (record failed_image { state = state_pending; next_retry_at = none })
unfolding lookup effective_max_retries
sweep_retries_example =
    (sweep_retries 1000 manager "c" failed_image images-Distinct refl (refl, refl) refl).0
      (omega arith) refl

sweep_orphans_iff_example :
    (lookup "d" (sweep 1000 manager).manager.image_state ≡ none)
    × (lookup "d" (sweep 1000 manager).new_orphans ≡ some orphan)
unfolding lookup
sweep_orphans_iff_example = (sweep_orphans_iff 1000 manager "d" orphan images-Distinct refl).0 refl

abbrev confirmed : MirrorManager
confirmed = record manager { mirrored = ("a", true) ∷ [] }

abbrev wanted : ImageEntry
wanted = record orphan { state = state_pending }

-- `b` is Mirrored, and is dispatched after a forced resync of `is2`
resync_dispatches_example :
    occurrences "b" (dispatch_order (sweep 1000 (reset_image_set_to_pending "is2" manager).manager))
    ≡ 1
unfolding lookup has_owner
resync_dispatches_example =
    (resync_dispatches "is2" 1000 manager "b" mirrored_image images-Distinct refl refl).0 refl refl

recollect_effect_example :
    lookup "c" (reset_failed_for_recollect "is2" manager).manager.image_state
    ≡ some (record failed_image {
      state = state_pending;
      retry_count = 0;
      next_retry_at = none;
      last_error = "";
    })
unfolding lookup has_owner
recollect_effect_example = (recollect_effect "is2" manager "c" failed_image images-Distinct refl).0

abbrev gone : Registry
gone = record { presence = absent; source_digest = none; signature = unchecked }

-- between the two parts of the check `b` was queued again
abbrev requeued : MirrorManager
requeued = record manager {
  image_state = ("b", record mirrored_image { state = state_pending }) ∷ [];
}

stale_check_is_dropped_example :
    (check_drift_attempt tick [] "b" false gone manager requeued).0 ≡ requeued
unfolding lookup
stale_check_is_dropped_example =
    stale_check_is_dropped tick [] "b" false gone manager requeued mirrored_image refl
      (inr (record mirrored_image { state = state_pending }, refl, inl (λ p. ground arith)))

missing_image_is_dispatched_example :
    occurrences "b"
      (dispatch_order (sweep 1000 (check_drift_attempt tick [] "b" false gone manager manager).0))
    ≡ 1
unfolding lookup
missing_image_is_dispatched_example =
    missing_image_is_dispatched tick 1000 [] "b" false gone manager mirrored_image images-Distinct
      refl refl refl refl refl

drift_keeps_FlagSound_example :
    FlagSound "b" (check_drift_attempt tick [] "b" false gone manager requeued).0
unfolding lookup
drift_keeps_FlagSound_example =
    drift_keeps_FlagSound tick [] "b" false gone manager requeued (λ e found flagged. ground arith)

re_added_is_not_mirrored_again_example :
    occurrences "d"
      (dispatch_order (sweep 2000 (re_added "d" wanted ("is1" ∷ []) (sweep 1000 manager).manager)))
    ≡ 0
unfolding lookup
re_added_is_not_mirrored_again_example =
    (re_added_is_not_mirrored_again 1000 2000 manager "d" orphan wanted ("is1" ∷ []) images-Distinct
      refl refl refl refl refl).2
