-- ===== src/Manager/Steps/Moves/Reported.antt =====
-- The moves of the reports of workers, and of the cleanup of worker pods.
use oc_mirror_operator.Base.{
  ℕ, suc, String, true, false, Option, none, some, List, [], ◌∷◌, ◌≡◌, ◌==◌, ◌&&◌, arith,
  if◌then◌else◌, if_both, Option-cases, Bool-cases, inl, inr, refl,
}
use oc_mirror_operator.Base.Dict.{Dict, lookup, remove, lookup-insert, lookup-remove}
use oc_mirror_operator.ImageState.Entry.{EntryState, state_mirrored, state_failed, state_pending}
use oc_mirror_operator.Manager.State.{MirrorManager, StatusRequest, Tick}
use oc_mirror_operator.Manager.Retry.{effective_max_retries}
use oc_mirror_operator.Manager.Reports.{
  reset_mirrored, set_known_state, set_image_state, already_set, moved_entry, flag_known,
  record_digest, apply_status, apply_all, drain_status_queue, queued_success, succeeds_in,
}
use oc_mirror_operator.Manager.Reports.Effect.{
  lookup-apply_status, lookup-set_image_state, reported_entry_fields,
}
use oc_mirror_operator.Manager.Workers.{
  Finished, same_pod, is_failed_phase, release_worker, release_workers, cleanup_finished_workers,
  finished_workers, deleted_pods, Pod,
}
use oc_mirror_operator.Manager.Sweep.{is_flagged}
use oc_mirror_operator.Manager.Steps.Lifecycle.{
  lifecycle, Allowed, Allowed-refl, Allowed-trans, Allowed-weaken,
}

-- the flag of a destination goes or stays when its entry is set to another state than Mirrored
flag-set_image_state :
    (t : Tick) (dest : String) (st : EntryState) (err : String) (m : MirrorManager) (j : String)
    → is_flagged (lookup j (set_image_state t dest st err m).mirrored) ≡ true
    → is_flagged (lookup j m.mirrored) ≡ true
unfolding set_image_state set_known_state reset_mirrored
flag-set_image_state t dest st err m j h = elim (Option-cases (lookup dest m.image_state)) [
  | inl out ↦ ground (arith, h)
  | inr (e, found) ↦ ground (arith, h, lookup-remove dest j m.mirrored)
]

flag-flag_known :
    (dest : String) (m : MirrorManager) (j : String)
    → (dest == j) ≡ false
    → is_flagged (lookup j (flag_known dest m).mirrored) ≡ true
    → is_flagged (lookup j m.mirrored) ≡ true
unfolding flag_known
flag-flag_known dest m j other h = ground (arith, h, lookup-insert dest j true m.mirrored)

mirrored-record_digest :
    (dest digest : String) (m : MirrorManager) → (record_digest dest digest m).mirrored ≡ m.mirrored
unfolding record_digest
mirrored-record_digest dest digest m = ground arith

flag-apply_status :
    (t : Tick) (req : StatusRequest) (m : MirrorManager) (j : String)
    → (req.destination == j && req.error == "") ≡ false
    → is_flagged (lookup j (apply_status t req m).mirrored) ≡ true
    → is_flagged (lookup j m.mirrored) ≡ true
unfolding apply_status
flag-apply_status t req m j other h = elim (Bool-cases (req.error == "")) [
  | inr failed ↦
      flag-set_image_state t req.destination state_failed req.error m j (ground (arith, h, failed))
  | inl ok ↦
      let m₁ = flag_known req.destination m in
      let m₂ = set_image_state t req.destination state_mirrored "" m₁ in
      flag-flag_known req.destination m j (ground (arith, ok, other)) (
        flag-set_image_state t req.destination state_mirrored "" m₁ j
          (ground (arith, h, ok, mirrored-record_digest req.destination req.digest m₂)))
]

pub apply_status-Allowed :
    (t : Tick) (req : StatusRequest) (m : MirrorManager) (j : String)
    → Allowed false
        (req.destination == j && req.error == "")
        (lifecycle j m)
        (lifecycle j (apply_status t req m))
apply_status-Allowed t req m j =
    let law = lookup-apply_status t req m j in
    let flags = flag-apply_status t req m j in
    elim (Option-cases (lookup j m.image_state)) [
      | inl out ↦ record {
        known = λ h k. ground (arith, law, out, k);
        claimed = λ h k. ground (arith, law, out, k, flags h);
        given_up = λ h k. ground (arith, out, h);
      }
      | inr (e, found) ↦
          let fields = reported_entry_fields t (effective_max_retries m) req e in
          record {
            known = λ h k. ground (arith, found);
            claimed = λ h k. ground (arith, law, found, k, h, flags h, fields);
            given_up = λ h k. ground (arith, law, found, h, fields);
          }
    ]

apply_all-Allowed :
    (ticks : ℕ → Tick) (reqs : List StatusRequest) (m : MirrorManager) (j : String)
    → Allowed false (succeeds_in j reqs) (lifecycle j m) (lifecycle j (apply_all ticks reqs m))
unfolding apply_all succeeds_in
apply_all-Allowed ticks [] m j = Allowed-refl (lifecycle j m)
apply_all-Allowed ticks (req ∷ reqs) m j =
    let m' = apply_status (ticks 0) req m in
    Allowed-trans (lifecycle j m) (lifecycle j m')
      (lifecycle j (apply_all (λ i. ticks (suc i)) reqs m'))
      (Allowed-weaken (lifecycle j m) (lifecycle j m') (λ h. ground (arith, h))
        (apply_status-Allowed (ticks 0) req m j))
      (Allowed-weaken (lifecycle j m') (lifecycle j (apply_all (λ i. ticks (suc i)) reqs m'))
        (λ h. ground (arith, h)) (apply_all-Allowed (λ i. ticks (suc i)) reqs m' j))

pub drain_status_queue-Allowed :
    (ticks : ℕ → Tick) (m : MirrorManager) (j : String)
    → Allowed false (queued_success j m) (lifecycle j m) (lifecycle j (drain_status_queue ticks m))
unfolding drain_status_queue queued_success
drain_status_queue-Allowed ticks m j =
    apply_all-Allowed ticks m.status_queue (record m { status_queue = [] }) j

-- the reset of an image whose worker failed without a report
reset_to_pending-Allowed :
    (t : Tick) (dest : String) (m : MirrorManager) (j : String)
    → Allowed false false (lifecycle j m) (lifecycle j (set_image_state t dest state_pending "" m))
unfolding moved_entry already_set
reset_to_pending-Allowed t dest m j =
    let law = lookup-set_image_state t dest state_pending "" m j in
    let flags = flag-set_image_state t dest state_pending "" m j in
    elim (Option-cases (lookup j m.image_state)) [
      | inl out ↦ record {
        known = λ h k. ground (arith, law, out, k);
        claimed = λ h k. ground (arith, law, out, k, flags);
        given_up = λ h k. ground (arith, out, h);
      }
      | inr (e, found) ↦ record {
        known = λ h k. ground (arith, found);
        claimed = λ h k. ground (arith, law, found, k, flags);
        given_up = λ h k. ground (arith, law, found, h);
      }
    ]

release_worker-Allowed :
    (t : Tick) (f : Finished) (m : MirrorManager) (j : String)
    → Allowed false false (lifecycle j m) (lifecycle j (release_worker t f m))
unfolding release_worker
release_worker-Allowed t f m j =
    let m' = record m { in_progress = remove f.dest m.in_progress } in
    let reset = set_image_state t f.dest state_pending "" m' in
    let P : MirrorManager → Type 0 = λ x. Allowed false false (lifecycle j m) (lifecycle j x) in
    if_both P (same_pod (lookup f.dest m.in_progress) f.pod_name)
      (if is_failed_phase f.phase then reset else m') m
      (if_both P (is_failed_phase f.phase) reset m' (reset_to_pending-Allowed t f.dest m' j)
        (Allowed-refl (lifecycle j m)))
      (Allowed-refl (lifecycle j m))

release_workers-Allowed :
    (t : Tick) (done : List Finished) (m : MirrorManager) (j : String)
    → Allowed false false (lifecycle j m) (lifecycle j (release_workers t done m))
unfolding release_workers
release_workers-Allowed t [] m j = Allowed-refl (lifecycle j m)
release_workers-Allowed t (f ∷ done) m j =
    let m' = release_worker t f m in
    Allowed-trans (lifecycle j m) (lifecycle j m') (lifecycle j (release_workers t done m'))
      (release_worker-Allowed t f m j) (release_workers-Allowed t done m' j)

pub cleanup_finished_workers-Allowed :
    (ticks : ℕ → Tick) (pods : Option (List Pod)) (snapshot : Dict String) (m : MirrorManager)
    (j : String)
    → Allowed false
        (queued_success j m)
        (lifecycle j m)
        (lifecycle j (cleanup_finished_workers ticks pods snapshot m).0)
unfolding cleanup_finished_workers
cleanup_finished_workers-Allowed ticks none snapshot m j = Allowed-refl (lifecycle j m)
cleanup_finished_workers-Allowed ticks (some pods) snapshot m j =
    go (finished_workers (ticks 0).now pods snapshot)
  where
    go :
        (done : List Finished)
        → Allowed false (queued_success j m) (lifecycle j m) (
            lifecycle j
              (elim done as (λ _. MirrorManager × List String) [
                | [] ↦ (m, deleted_pods pods done)
                | f ∷ rest ↦ (
                  release_workers (ticks 0) (f ∷ rest) (drain_status_queue ticks m),
                  deleted_pods pods done,
                )
              ]).0)
    go [] = Allowed-refl (lifecycle j m)
    go (f ∷ rest) =
        let m' = drain_status_queue ticks m in
        let m'' = release_workers (ticks 0) (f ∷ rest) m' in
        Allowed-trans (lifecycle j m) (lifecycle j m') (lifecycle j m'')
          (drain_status_queue-Allowed ticks m j)
          (Allowed-weaken (lifecycle j m') (lifecycle j m'') (λ h. refl)
            (release_workers-Allowed (ticks 0) (f ∷ rest) m' j))
