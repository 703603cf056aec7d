-- ===== src/Manager/Steps/Pods.antt =====
-- Which events of the manager change the map of the images in progress.
use oc_mirror_operator.Base.{
  ℕ, String, Bool, true, false, Option, none, some, List, ◌≡◌, ◌∙◌, refl, arith, if_both, for_each,
  for_each_keeps, not, ◌||◌, if◌then◌else◌,
}
use oc_mirror_operator.Base.Dict.{Dict, lookup, keys}
use oc_mirror_operator.ImageState.Entry.{ImageEntry, ImageState}
use oc_mirror_operator.Manager.State.{MirrorManager, Tick}
use oc_mirror_operator.Manager.Sweep.{
  Sweep, sweep_entry, set_entry, move_to_orphans, retry_failed, collect_pending,
}
use oc_mirror_operator.Manager.Resync.{
  Reset, reset_image_set_to_pending, reset_dest, reset_entry, reset_failed_for_recollect,
  recollect_dest, recollect_entry,
}
use oc_mirror_operator.Manager.Removal.{drop_dest, drop_removed_image_sets}
use oc_mirror_operator.Manager.Drift.{
  Registry, finish_recovery, finish_mirrored, apply_signature_result, check_drift_attempt, Presence,
  unknown, present, absent, Signature, unchecked, valid, invalid, record_baseline, flag,
  has_drifted, with_digest, same_entry, asked_digest, asked_signature,
}
use oc_mirror_operator.Manager.Resolve.Live.{merge_worker_updates}
use oc_mirror_operator.Manager.Ownership.{merge_resolved_into_consolidated}
use oc_mirror_operator.Manager.Drift.Flags.{check_drift_attempt_cases}
use oc_mirror_operator.Manager.Phases.{
  after_resolve, recollected, merge_image_set, set_catalog_digests,
}

sweep_entry-in_progress :
    (now : ℕ) (dest : String) (e : ImageEntry) (s : Sweep)
    → (sweep_entry now dest e s).manager.in_progress ≡ s.manager.in_progress
unfolding sweep_entry set_entry move_to_orphans retry_failed collect_pending
sweep_entry-in_progress now dest e s = ground arith

reset_entry-in_progress :
    (is_name dest : String) (e : ImageEntry) (r : Reset)
    → (reset_entry is_name dest e r).manager.in_progress ≡ r.manager.in_progress
unfolding reset_entry
reset_entry-in_progress is_name dest e r = ground arith

recollect_entry-in_progress :
    (is_name dest : String) (e : ImageEntry) (r : Reset)
    → (recollect_entry is_name dest e r).manager.in_progress ≡ r.manager.in_progress
unfolding recollect_entry
recollect_entry-in_progress is_name dest e r = ground arith

drop_dest-in_progress :
    (image_sets : List String) (dest : String) (r : Reset)
    → (drop_dest image_sets dest r).manager.in_progress ≡ r.manager.in_progress
unfolding drop_dest
drop_dest-in_progress image_sets dest r = ground arith

-- a body that looks its entry up leaves the map alone when the body for an entry does
entry_step-in_progress :
    (body : ImageEntry → Reset) (r : Reset) (found : Option ImageEntry)
    → ((e : ImageEntry) → (body e).manager.in_progress ≡ r.manager.in_progress)
    → (elim found as (λ _. Reset) [ none ↦ r | some e ↦ body e ]).manager.in_progress
      ≡ r.manager.in_progress
entry_step-in_progress body r none same = refl
entry_step-in_progress body r (some e) same = same e

loop-in_progress :
    (step : String → Reset → Reset)
    → ((dest : String) (r : Reset) → (step dest r).manager.in_progress ≡ r.manager.in_progress)
    → (dests : List String) (m : MirrorManager)
    → (for_each step dests (record { manager = m; changed = false })).manager.in_progress
      ≡ m.in_progress
loop-in_progress step same dests m =
    for_each_keeps step (λ r. r.manager.in_progress ≡ m.in_progress) (λ dest r h. same dest r ∙ h)
      dests (record { manager = m; changed = false }) refl

pub reset_image_set_to_pending-in_progress :
    (is_name : String) (m : MirrorManager)
    → (reset_image_set_to_pending is_name m).manager.in_progress ≡ m.in_progress
unfolding reset_image_set_to_pending reset_dest
reset_image_set_to_pending-in_progress is_name m =
    loop-in_progress (reset_dest is_name)
      (λ dest r.
        entry_step-in_progress (λ e. reset_entry is_name dest e r) r
          (lookup dest r.manager.image_state) (λ e. reset_entry-in_progress is_name dest e r))
      (keys m.image_state) m

reset_failed_for_recollect-in_progress :
    (is_name : String) (m : MirrorManager)
    → (reset_failed_for_recollect is_name m).manager.in_progress ≡ m.in_progress
unfolding reset_failed_for_recollect recollect_dest
reset_failed_for_recollect-in_progress is_name m =
    loop-in_progress (recollect_dest is_name)
      (λ dest r.
        entry_step-in_progress (λ e. recollect_entry is_name dest e r) r
          (lookup dest r.manager.image_state) (λ e. recollect_entry-in_progress is_name dest e r))
      (keys m.image_state) m

pub drop_removed_image_sets-in_progress :
    (image_sets : List String) (m : MirrorManager)
    → (drop_removed_image_sets image_sets m).manager.in_progress ≡ m.in_progress
unfolding drop_removed_image_sets
drop_removed_image_sets-in_progress image_sets m =
    loop-in_progress (drop_dest image_sets) (drop_dest-in_progress image_sets) (keys m.owners) m

apply_signature_result-in_progress :
    (t : Tick) (dest : String) (sig : Signature) (e : ImageEntry) (m : MirrorManager)
    → (apply_signature_result t dest sig e m).in_progress ≡ m.in_progress
unfolding apply_signature_result
apply_signature_result-in_progress t dest unchecked e m = refl
apply_signature_result-in_progress t dest valid e m = refl
apply_signature_result-in_progress t dest (invalid err) e m = refl

finish_recovery-in_progress :
    (dest : String) (presence : Presence) (e : ImageEntry) (m : MirrorManager)
    → (finish_recovery dest presence e m).in_progress ≡ m.in_progress
unfolding finish_recovery
finish_recovery-in_progress dest unknown e m = refl
finish_recovery-in_progress dest present e m = refl
finish_recovery-in_progress dest absent e m = refl

record_baseline-in_progress :
    (dest : String) (digest : Option String) (e : ImageEntry) (m : MirrorManager)
    → (record_baseline dest digest e m).in_progress ≡ m.in_progress
record_baseline-in_progress dest none e m = refl
record_baseline-in_progress dest (some digest) e m = ground arith

finish_mirrored-in_progress :
    (t : Tick) (dest : String) (presence : Presence) (digest : Option String) (sig : Signature)
    (e : ImageEntry) (m : MirrorManager)
    → (finish_mirrored t dest presence digest sig e m).in_progress ≡ m.in_progress
unfolding finish_mirrored
finish_mirrored-in_progress t dest unknown digest sig e m = refl
finish_mirrored-in_progress t dest absent digest sig e m = refl
finish_mirrored-in_progress t dest present digest sig e m =
    let m' = flag dest true (record_baseline dest digest e m) in
    let base : m'.in_progress ≡ m.in_progress = record_baseline-in_progress dest digest e m in
    let P : MirrorManager → Type 0 = λ x. x.in_progress ≡ m.in_progress in
    if_both P (has_drifted digest e) _ _ refl (
      if_both P e.signature_verified m' _ base
        (apply_signature_result-in_progress t dest sig (with_digest digest e) m' ∙ base))

pub check_drift_attempt-in_progress :
    (t : Tick) (require_signed : Dict Bool) (dest : String) (inconclusive : Bool) (r : Registry)
    (before m : MirrorManager)
    → (check_drift_attempt t require_signed dest inconclusive r before m).0.in_progress
      ≡ m.in_progress
check_drift_attempt-in_progress t require_signed dest inconclusive r before m =
    let P : MirrorManager → Type 0 = λ x. x.in_progress ≡ m.in_progress in
    check_drift_attempt_cases P t require_signed dest inconclusive r before m refl
      (λ snap e found checked. if_both P (not (same_entry e snap.entry)) _ _ refl (
        if_both P snap.recovery_check _ _ (finish_recovery-in_progress dest r.presence e m) (
          finish_mirrored-in_progress t dest r.presence (asked_digest snap r)
            (asked_signature snap r) e m)))

recollected-in_progress :
    (recollect : Bool) (is_name : String) (m : MirrorManager)
    → (recollected recollect is_name m).in_progress ≡ m.in_progress
recollected-in_progress true is_name m = reset_failed_for_recollect-in_progress is_name m
recollected-in_progress false is_name m = refl

set_catalog_digests-in_progress :
    (is_name : String) (digests : Dict String) (m : MirrorManager)
    → (set_catalog_digests is_name digests m).manager.in_progress ≡ m.in_progress
unfolding set_catalog_digests
set_catalog_digests-in_progress is_name digests m = ground arith

pub after_resolve-in_progress :
    (is_name : String) (recollect first : Bool) (digests : Dict String)
    (result : Option (ImageState × Bool)) (m : MirrorManager)
    → (after_resolve is_name recollect first digests result m).in_progress ≡ m.in_progress
after_resolve-in_progress is_name recollect first digests none m = refl
after_resolve-in_progress is_name recollect first digests (some (new_state, changed)) m =
    let m₁ = record m { status_dirty = true } in
    let merged = merge_image_set is_name (merge_worker_updates new_state m.image_state) m₁ in
    let m₂ = if changed || first then merged else m₁ in
    set_catalog_digests-in_progress is_name digests (recollected recollect is_name m₂)
    ∙ recollected-in_progress recollect is_name m₂
    ∙ if_both (λ x. x.in_progress ≡ m.in_progress) (changed || first) merged m₁
        (unfold merge_resolved_into_consolidated in refl) refl
