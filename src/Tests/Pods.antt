-- ===== src/Tests/Pods.antt =====
-- Worker pods, a batch and the cleanup job on concrete inputs.
use oc_mirror_operator.Base.{
  ℕ, String, ◌≡◌, ◌++◌, refl, Bool, true, not, ◌&&◌, none, some, List, [], ◌∷◌, arith, All, ◌==◌,
}
use oc_mirror_operator.Base.Dict.{lookup}
use oc_mirror_operator.Manager.State.{MirrorManager, BatchItem}
use oc_mirror_operator.Manager.Reports.{drain_status_queue}
use oc_mirror_operator.Manager.Workers.{Pod, pod_failed, cleanup_finished_workers}
use oc_mirror_operator.Manager.Workers.Cleanup.{cleanup_keeps_reported, Removable}
use oc_mirror_operator.Manager.Workers.Deletion.{cleanup_deletes}
use oc_mirror_operator.Worker.{done, Client, Report, Worker, run_batch}
use oc_mirror_operator.Worker.Batch.Item.{Observed, SilentClient}
use oc_mirror_operator.Worker.Batch.{BatchReports, run_batch-BatchReports}
use oc_mirror_operator.Tests.Data.{busy, ticks, success, tick}

abbrev crashed : Pod
crashed = record {
  name = "worker-1";
  phase = pod_failed;
  created = none;
  destinations = some ("a" ∷ []);
  destination = "";
}

abbrev reported : MirrorManager
reported = record busy { status_queue = success ∷ [] }

cleanup_keeps_reported_example :
    lookup "a"
      (drain_status_queue ticks
        (cleanup_finished_workers ticks
          (some (crashed ∷ []))
          busy.in_progress
          reported).0).image_state
    ≡ lookup "a" (drain_status_queue ticks reported).image_state
cleanup_keeps_reported_example =
    cleanup_keeps_reported ticks (crashed ∷ []) busy.in_progress reported "a" refl

cleanup_deletes_example :
    All
      (Removable tick.now (crashed ∷ []))
      (cleanup_finished_workers ticks (some (crashed ∷ [])) busy.in_progress busy).1
cleanup_deletes_example = (cleanup_deletes ticks (crashed ∷ []) busy.in_progress busy).0

-- a registry in which every copy succeeds; the world is the list of the reports
abbrev registry : Client (List Report)
registry = record {
  copy_image = λ src dest w. (done dest, w);
  copy_image_buffered = none;
  mirror_chart = none;
  get_digest = λ dest w. (done "sha256:1", w);
}

-- the manager requires an image until it got a report on it
abbrev wants : List Report → String → Bool
wants [] dest = true
wants (r ∷ w) dest = not (r.destination == dest) && wants w dest

abbrev worker : Worker (List Report)
worker = record {
  new_client = λ _. registry;
  plan = λ items. items;
  report = λ r w. w ++ r ∷ [];
  should_mirror = λ dest w. (wants w dest, w);
}

registry-SilentClient : SilentClient (λ w. w) registry
registry-SilentClient = record {
  copy_is_silent = λ n src dest w. ground arith;
  digest_is_silent = λ dest w. refl;
  chart_is_silent = λ mirror_chart src dest w h. ground arith;
}

worker-Observed : Observed (λ w. w) worker
worker-Observed = record {
  report_logged = λ r w. refl;
  asking_is_silent = λ d w. refl;
  clients_are_silent = λ d. registry-SilentClient;
}

abbrev item_a : BatchItem
item_a = record { source = "quay.io/a"; dest = "a" }

abbrev item_z : BatchItem
item_z = record { source = "quay.io/z"; dest = "z" }

-- the second `a` is asked for after the report on the first, and skipped
run_batch-BatchReports_example :
    BatchReports
      (λ w. w)
      worker
      (item_a ∷ item_z ∷ item_a ∷ [])
      []
      (run_batch worker (item_a ∷ item_z ∷ item_a ∷ []) [])
run_batch-BatchReports_example =
    run_batch-BatchReports (λ w. w) worker worker-Observed item_a (item_z ∷ item_a ∷ []) []

-- every deletion succeeds; the world is the list of what was tried
abbrev delete : ℕ → String → List String → Bool × List String
delete n dest w = (true, w ++ dest ∷ [])
