-- ===== src/Manager/State.antt =====
-- `MirrorManager` of pkg/mirror/manager/manager.go: the state in memory that its mutex protects,
-- the worker reports, and `specMeta` of owner_meta.go. The API clients, the metrics and the
-- Kubernetes objects are no part of it.
use oc_mirror_operator.Base.{ℕ, String, Bool, List, Option}
use oc_mirror_operator.Base.Dict.{Dict}
use oc_mirror_operator.ImageState.Entry.{ImageOrigin, ImageState}

-- `StatusRequest` of pkg/mirror/worker/status.go
pub record StatusRequest : Type 0 where
  pub pod_name : String
  pub destination : String
  pub digest : String
  pub error : String

-- `BatchItem` of pkg/mirror/worker/worker.go
pub record BatchItem : Type 0 where
  pub source : String
  pub dest : String

pub record SpecMeta : Type 0 where
  pub origin : ImageOrigin
  pub entry_sig : String
  pub origin_ref : String
  pub catalog : String
  pub is_bundle_image : Bool

pub record MirrorManager : Type 0 where
  pub status_queue : List StatusRequest
  pub in_progress : Dict String  -- destination ↦ pod name
  pub mirrored : Dict Bool  -- the fast-path flags
  pub image_state : ImageState
  pub owners : Dict (List String)
  pub owner_meta : Dict (Dict SpecMeta)
  pub catalog_digests : Dict (Dict String)
  pub last_drift_check : Option ℕ  -- none: the zero time
  pub state_dirty : Bool
  pub summary_written : Bool
  pub status_dirty : Bool
  pub drift_sweep_running : Bool
  pub max_retries : ℕ

-- what one call reads from the clock and from the random source
pub record Tick : Type 0 where
  pub now : ℕ
  pub draw : ℕ
