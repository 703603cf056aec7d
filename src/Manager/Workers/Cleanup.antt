-- ===== src/Manager/Workers/Cleanup.antt =====
-- What `cleanupFinishedWorkers` does to the images and to the pods.
use oc_mirror_operator.Base.{
  ℕ, String, ◌≡◌, ◌≢◌, refl, ◌⊎◌, true, none, some, List, [], ◌∷◌, ◌==◌, arith, eq_iff, Bool-cases,
  Option-cases, inl, inr, ◌∙◌,
}
use mathlib.Core.List.{Memᴰ}
use oc_mirror_operator.Base.Dict.{Dict, lookup, remove, lookup-remove}
use oc_mirror_operator.ImageState.Entry.{state_pending}
use oc_mirror_operator.Manager.State.{MirrorManager, Tick}
use oc_mirror_operator.Manager.Reports.{drain_status_queue}
use oc_mirror_operator.Manager.Reports.Effect.{lookup-set_image_state}
use oc_mirror_operator.Manager.Reports.Queue.{
  drain_empty, drain_queue, set_image_state_books, reported_in, in_progress-apply_all,
}
use oc_mirror_operator.Manager.Workers.{
  Pod, Finished, is_finished, worker_pod_stuck_pending, pod_by_name, finished_of, finished_workers,
  release_worker, release_workers, deleted_pods, cleanup_finished_workers,
}

-- a destination that is not in progress is left alone
release_worker_free :
    (t : Tick) (f : Finished) (m : MirrorManager) (j : String)
    → lookup j m.in_progress ≡ none
    → let m' = release_worker t f m in
      (lookup j m'.image_state ≡ lookup j m.image_state)
      × (lookup j m'.in_progress ≡ none)
      × (m'.status_queue ≡ m.status_queue)
unfolding release_worker
release_worker_free t f m j free =
    let m' = record m { in_progress = remove f.dest m.in_progress } in
    ground (
      arith,
      eq_iff f.dest j,
      lookup-remove f.dest j m.in_progress,
      lookup-set_image_state t f.dest state_pending "" m' j,
      set_image_state_books t f.dest state_pending "" m',
    )

release_workers_free :
    (t : Tick) (done : List Finished) (m : MirrorManager) (j : String)
    → lookup j m.in_progress ≡ none
    → let m' = release_workers t done m in
      (lookup j m'.image_state ≡ lookup j m.image_state) × (m'.status_queue ≡ m.status_queue)
unfolding release_workers
release_workers_free t [] m j free = (refl, refl)
release_workers_free t (f ∷ done) m j free =
    let (here, still_free, queue) = release_worker_free t f m j free in
    let rest = release_workers_free t done (release_worker t f m) j still_free in ground arith

drained_free :
    (ticks : ℕ → Tick) (m : MirrorManager) (j : String)
    → reported_in j m.status_queue ≡ true
    → lookup j (drain_status_queue ticks m).in_progress ≡ none
unfolding drain_status_queue
drained_free ticks m j reported = rw (in_progress-apply_all, reported) refl

-- An image about which any worker report is queued is not reset by the cleanup, even if its pod
-- failed or is stuck: once the queue is drained its entry is what the reports alone make of it.
pub cleanup_keeps_reported :
    (ticks : ℕ → Tick) (pods : List Pod) (snapshot : Dict String) (m : MirrorManager)
    (dest : String)
    → reported_in dest m.status_queue ≡ true
    → lookup dest
        (drain_status_queue ticks
          (cleanup_finished_workers ticks (some pods) snapshot m).0).image_state
      ≡ lookup dest (drain_status_queue ticks m).image_state
unfolding cleanup_finished_workers
cleanup_keeps_reported ticks pods snapshot m dest reported =
    go (finished_workers (ticks 0).now pods snapshot)
  where
    go :
        (done : List Finished)
        → lookup dest
            (drain_status_queue ticks
              (elim done as (λ _. MirrorManager × List String) [
                | [] ↦ (m, deleted_pods pods (finished_workers (ticks 0).now pods snapshot))
                | f ∷ rest ↦ (
                  release_workers (ticks 0) (f ∷ rest) (drain_status_queue ticks m),
                  deleted_pods pods (finished_workers (ticks 0).now pods snapshot),
                )
              ]).0).image_state
          ≡ lookup dest (drain_status_queue ticks m).image_state
    go [] = refl
    go (f ∷ rest) =
        let (same, queue) =
          release_workers_free (ticks 0) (f ∷ rest) (drain_status_queue ticks m) dest
            (drained_free ticks m dest reported) in
        rw
          (drain_empty ticks (release_workers (ticks 0) (f ∷ rest) (drain_status_queue ticks m))
            (queue ∙ drain_queue ticks m))
          same

-- the pods of a list that may go: finished, or stuck in Pending
abbrev pub Removable : ℕ → List Pod → String → Type 0
Removable now pods name =
    (pod : Pod) × (Memᴰ pod pods)
    × (pod.name ≡ name)
    × ((is_finished pod.phase ≡ true) ⊎ (worker_pod_stuck_pending pod now ≡ true))

pod_by_name_mem :
    (name : String) (pods : List Pod) (pod : Pod)
    → pod_by_name name pods ≡ some pod
    → Memᴰ pod pods × (pod.name ≡ name)
unfolding pod_by_name
pod_by_name_mem name [] pod h = cc
pod_by_name_mem name (p ∷ pods) pod h = elim (Option-cases (pod_by_name name pods)) [
  | inr (q, found) ↦
      let (there, named) = pod_by_name_mem name pods pod (ground arith) in (Memᴰ.tail there, named)
  | inl missing ↦ elim (Bool-cases (p.name == name)) [
    | inl y ↦ (Memᴰ.head (ground arith), ground (arith, eq_iff p.name name))
    | inr n ↦ absurd (ground arith)
  ]
]

pub finished_of-Removable :
    (now : ℕ) (pods : List Pod) (dest name : String) (f : Finished)
    → finished_of now pods dest name ≡ some f
    → f.phase ≢ none
    → Removable now pods f.pod_name
unfolding finished_of
finished_of-Removable now pods dest name f h present = elim (Option-cases (pod_by_name name pods)) [
  | inl missing ↦ absurd (ground arith)
  | inr (pod, found) ↦
      let (there, named) = pod_by_name_mem name pods pod found in
      elim (Bool-cases (worker_pod_stuck_pending pod now)) [
        | inl stuck ↦ (pod, there, ground arith, inr stuck)
        | inr moving ↦ elim (Bool-cases (is_finished pod.phase)) [
          | inl over ↦ (pod, there, ground arith, inl over)
          | inr runs ↦ absurd (ground arith)
        ]
      ]
]
