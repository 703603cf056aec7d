-- ===== src/Manager/Workers.antt =====
-- Worker pods (pkg/mirror/manager/manager.go): recovery of the in-progress map after a restart
-- (`syncInProgressFromPods`) and `cleanupFinishedWorkers`. The pods are what the list call returned;
-- a delete call is an entry of the list of deleted pod names. The in-progress map is snapshotted
-- before the list call, so other steps of the manager may lie between the two states.
pub mod Cleanup
pub mod Deletion
use oc_mirror_operator.Base.{
  ℕ, ◌-◌, String, Bool, true, false, Option, none, some, List, [], ◌∷◌, ◌++◌, ◌==◌, ◌&&◌, ◌||◌, not,
  if◌then◌else◌, ltb, contains,
}
use oc_mirror_operator.Base.Dict.{Dict, lookup, insert, remove}
use oc_mirror_operator.ImageState.Entry.{state_pending}
use oc_mirror_operator.Manager.State.{MirrorManager, Tick}
use oc_mirror_operator.Manager.Reports.{set_image_state, drain_status_queue}

pub data PodPhase : Type 0 where
  pod_pending pod_running pod_succeeded pod_failed pod_unknown : PodPhase

-- what the program reads of a worker pod
pub record Pod : Type 0 where
  pub name : String
  pub phase : PodPhase
  pub created : Option ℕ  -- none: the zero creation timestamp
  pub destinations : Option (List String)  -- the decoded batch annotation, if present and valid
  pub destination : String  -- the legacy annotation, or the empty text

abbrev pub is_finished : PodPhase → Bool
is_finished pod_succeeded = true
is_finished pod_failed = true
is_finished _ = false

abbrev is_pending : PodPhase → Bool
is_pending pod_pending = true
is_pending _ = false

abbrev pub worker_pending_timeout : ℕ
worker_pending_timeout = 900000000000

older_than : ℕ → Option ℕ → Bool
older_than now none = false
older_than now (some created) = ltb worker_pending_timeout (now - created)

unfoldable pub worker_pod_stuck_pending : Pod → ℕ → Bool
unfolding older_than
worker_pod_stuck_pending pod now = is_pending pod.phase && older_than now pod.created

-- the in-progress entries of one pod that survived a restart
mark_all : List String → String → Dict String → Dict String
mark_all [] pod_name p = p
mark_all (dest ∷ rest) pod_name p = mark_all rest pod_name (insert dest pod_name p)

recover_pod : Pod → Dict String → Dict String
unfolding mark_all
recover_pod pod p = elim pod.destinations [
  | some dests ↦ mark_all dests pod.name p
  | none ↦ if pod.destination == "" then p else insert pod.destination pod.name p
]

recover_all : List Pod → Dict String → Dict String
unfolding recover_pod
recover_all [] p = p
recover_all (pod ∷ pods) p =
    recover_all pods (if is_finished pod.phase then p else recover_pod pod p)

finished_names : List Pod → List String
finished_names [] = []
finished_names (pod ∷ pods) =
    let rest = finished_names pods in if is_finished pod.phase then pod.name ∷ rest else rest

-- the finished pods are deleted
unfoldable pub sync_in_progress_from_pods : List Pod → MirrorManager → MirrorManager × List String
unfolding recover_all finished_names
sync_in_progress_from_pods pods m =
    (record m { in_progress = recover_all pods m.in_progress }, finished_names pods)

-- `finished` of the source; no phase means that the pod is missing
pub record Finished : Type 0 where
  pub dest : String
  pub pod_name : String
  pub phase : Option PodPhase

-- `podsByName`; a later pod of the same name wins
unfoldable pub pod_by_name : String → List Pod → Option Pod
pod_by_name name [] = none
pod_by_name name (pod ∷ pods) = elim (pod_by_name name pods) [
  | some p ↦ some p
  | none ↦ if pod.name == name then some pod else none
]

-- what is done about one tracked destination
unfoldable pub finished_of : ℕ → List Pod → String → String → Option Finished
unfolding pod_by_name worker_pod_stuck_pending
finished_of now pods dest pod_name = elim (pod_by_name pod_name pods) [
  | none ↦ some (record { dest = dest; pod_name = pod_name; phase = none })
  | some pod ↦
      if worker_pod_stuck_pending pod now
      then some (record { dest = dest; pod_name = pod_name; phase = some pod_failed })
      else if is_finished pod.phase
      then some (record { dest = dest; pod_name = pod_name; phase = some pod.phase })
      else none
]

unfoldable pub finished_workers : ℕ → List Pod → Dict String → List Finished
unfolding finished_of
finished_workers now pods [] = []
finished_workers now pods ((dest, pod_name) ∷ snapshot) =
    let rest = finished_workers now pods snapshot in
    elim (finished_of now pods dest pod_name) [ none ↦ rest | some f ↦ f ∷ rest ]

abbrev pub is_failed_phase : Option PodPhase → Bool
is_failed_phase (some pod_failed) = true
is_failed_phase _ = false

abbrev pub same_pod : Option String → String → Bool
same_pod none pod_name = false
same_pod (some cur) pod_name = cur == pod_name

-- only if the destination is still tracked for the same pod
unfoldable pub release_worker : Tick → Finished → MirrorManager → MirrorManager
release_worker t f m =
    let m' = record m { in_progress = remove f.dest m.in_progress } in
    if same_pod (lookup f.dest m.in_progress) f.pod_name
    then if is_failed_phase f.phase then set_image_state t f.dest state_pending "" m' else m'
    else m

unfoldable pub release_workers : Tick → List Finished → MirrorManager → MirrorManager
release_workers t [] m = m
release_workers t (f ∷ done) m = release_workers t done (release_worker t f m)

-- step 3: every finished or stuck pod once
delete_done : List Finished → List String → List String
delete_done [] deleted = deleted
delete_done (f ∷ done) deleted = elim f.phase [
  | none ↦ delete_done done deleted
  | some _ ↦
      delete_done done (if contains deleted f.pod_name then deleted else deleted ++ f.pod_name ∷ [])
]

-- step 4: finished pods that are not tracked
sweep_orphans : List Pod → List String → List String
sweep_orphans [] deleted = []
sweep_orphans (pod ∷ pods) deleted =
    let rest = sweep_orphans pods deleted in
    if is_finished pod.phase && not (contains deleted pod.name) then pod.name ∷ rest else rest

unfoldable pub deleted_pods : List Pod → List Finished → List String
unfolding delete_done sweep_orphans
deleted_pods pods done = let deleted = delete_done done [] in deleted ++ sweep_orphans pods deleted

-- `snapshot` is the in-progress map at the start; a failed list call ends the method
unfoldable pub cleanup_finished_workers :
    (ℕ → Tick) → Option (List Pod) → Dict String → MirrorManager → MirrorManager × List String
unfolding finished_workers release_workers deleted_pods
cleanup_finished_workers ticks none snapshot m = (m, [])
cleanup_finished_workers ticks (some pods) snapshot m =
    let done = finished_workers (ticks 0).now pods snapshot in
    let deleted = deleted_pods pods done in
    elim done [
      | [] ↦ (m, deleted)
      | f ∷ rest ↦ (release_workers (ticks 0) (f ∷ rest) (drain_status_queue ticks m), deleted)
    ]
