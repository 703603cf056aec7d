-- ===== src/Lib.antt =====
-- A model of oc-mirror-operator, a Kubernetes operator that mirrors container images into a target
-- registry, and its correctness theorems.
--
-- The program. For every MirrorTarget one manager pod (pkg/mirror/manager) keeps the state of all
-- images of the ImageSets that the target names. Its reconcile loop resolves ImageSets to images,
-- merges them into that state, passes over all entries, and gives the Pending ones in batches to
-- worker pods (pkg/mirror/worker). Workers ask the manager over HTTP whether an image is still
-- needed, copy it, and report the outcome; reports are queued and applied under the manager's
-- mutex. A drift check looks in the background whether mirrored images are still there. Entries
-- that no ImageSet owns become orphans, which a cleanup job (pkg/mirror/cleanup) deletes.
--
-- The files.
--   Base: shared names; Base.Dict is a Go map as an association list, Base.Loops a loop over the
--     keys of a map, in the order given.
--   ImageState: pkg/mirror/imagestate/imagestate.go (`ImageEntry`, `Counts`, `SharedIndex`).
--   Manager.State: `MirrorManager` of pkg/mirror/manager/manager.go, what its mutex protects.
--   Manager.Retry, Manager.Reports: `retryBackoff`, `recordFailureLocked`, `setImageStateLocked`,
--     `applyStatusLocked` and the report queue of that file.
--   Manager.Handlers: `handleStatusUpdate`, `handleShouldMirror` and the probes.
--   Manager.Workers: `syncInProgressFromPods` and `cleanupFinishedWorkers`.
--   Manager.Sweep: Phase D of `reconcile`.
--   Manager.Dispatch: Phase E of `reconcile`.
--   Manager.Drift: `checkDriftAttempt` and what it calls.
--   Manager.Ownership: owners and `mergeResolvedIntoConsolidated` of manager_resolve.go, the views
--     of owner_meta.go.
--   Manager.Removal: `dropRemovedImageSetsLocked` and `pruneOwnerMetaLocked`.
--   Manager.Phases: Phases A and B of `reconcile` around the resolution, `recordOwnerMetaLocked`.
--   Manager.Steps: the manager as a state machine, an event for each critical section; its runs, the
--     abstract lifecycle of an image, and the pods that have the images in progress.
--   Manager.Persist: `flushPartitionedState` and `loadPartitionedState`.
--   Manager.Resync: `resetImageSetToPendingLocked` and `resetFailedForRecollectLocked`.
--   Manager.Resolve: `mergeIntoStateWithSig`, the two carry-overs, `mergeWorkerUpdates` and
--     `shouldResolve`.
--   Worker: `RunBatch`, `MirrorOne` and `MirrorChartOne` of pkg/mirror/worker/worker.go, and
--     Worker.Status: `StatusClient` of status.go.
--   Planner: `PlanMirrorOrder` of pkg/mirror/planner.go.
--   Catalog: `mergeChannelHeads` of pkg/mirror/catalog/resolver.go.
--   Controller: the cleanup of a removed ImageSet in internal/controller/mirrortarget_controller.go.
--   CacheToken: the cache tokens of api/v1alpha1/resolution_sig.go.
--   Cleanup: `Run` of pkg/mirror/cleanup/cleanup.go.
--   Release: the update graph of pkg/mirror/release/release.go; Release.Path is the search of
--     `shortestPathNodes`, Release.Select `ResolveReleaseNodes` and `latestNode`. Versions of the
--     semver package are a parameter, with their comparisons.
--   Tests: the theorems at concrete inputs.
--
-- How it is modelled. A method that changes the manager is a function from its state to its state.
-- Code that gives up the mutex takes the state in which it goes on as a further argument, so that
-- any other step may lie in between. Times are numbers of nanoseconds. What the clock, the random
-- source, the registry and the Kubernetes API answer is an argument. A map that is ranged over is
-- visited in the order of its list; the theorems hold for every order.
--
-- Bounds and fuel. Loops are structural recursion on a list or on the number of attempts left. The
-- batch dispatch and the planner's loop run on fuel, one round for each image, which is enough since
-- a round takes one image at least. The two loops of `shortestPathNodes` have one round for each
-- node of the graph, which is enough since no node is queued twice. `LastIndex` on a text has a
-- round for each byte.
--
-- Not modelled: Kubernetes and registry I/O, JSON and gzip encodings (only that a stored time has
-- whole seconds), the other reconcilers of the controllers, the rest of the catalog resolver, the
-- download of release graphs and payloads, the export, the resource API, the commands and the user
-- interface.
mod Base
pub mod ImageState
pub mod Manager
pub mod Worker
pub mod Cleanup
pub mod CacheToken
pub mod Catalog
pub mod Controller
pub mod Planner
pub mod Release
mod Tests
