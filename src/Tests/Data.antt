-- ===== src/Tests/Data.antt =====
-- A manager with four images: `a` is Pending, `b` is Mirrored, `c` is Failed, and `d` lost its
-- owners after it was mirrored.
use oc_mirror_operator.Base.{ℕ, String, true, false, none, some, [], ◌∷◌}
use oc_mirror_operator.ImageState.Entry.{
  EntryState, ImageEntry, ImageState, state_mirrored, state_pending, state_failed, origin_operator,
}
use oc_mirror_operator.Manager.State.{MirrorManager, StatusRequest, Tick}

abbrev pub entry : String → EntryState → ImageEntry
entry source state = record {
  source = source;
  state = state;
  last_error = "";
  retry_count = 0;
  origin = origin_operator;
  entry_sig = "sig";
  origin_ref = "catalog";
  catalog = "catalog";
  is_bundle_image = false;
  permanently_failed = false;
  next_retry_at = none;
  signature_verified = false;
  source_digest = "";
}

abbrev pub pending_image : ImageEntry
pending_image = entry "quay.io/a" state_pending

abbrev pub mirrored_image : ImageEntry
mirrored_image = entry "quay.io/b" state_mirrored

abbrev pub failed_image : ImageEntry
failed_image = record (entry "quay.io/c" state_failed) {
  last_error = "denied";
  retry_count = 2;
  next_retry_at = some 500;
}

abbrev pub orphan : ImageEntry
orphan = entry "quay.io/d" state_mirrored

abbrev pub images : ImageState
images = ("a", pending_image) ∷ ("b", mirrored_image) ∷ ("c", failed_image) ∷ ("d", orphan) ∷ []

abbrev pub manager : MirrorManager
manager = record {
  status_queue = [];
  in_progress = ("b", "") ∷ [];
  mirrored = ("d", true) ∷ [];
  image_state = images;
  owners = ("a", "is1" ∷ []) ∷ ("b", "is1" ∷ "is2" ∷ []) ∷ ("c", "is2" ∷ []) ∷ [];
  owner_meta = [];
  catalog_digests = [];
  last_drift_check = none;
  state_dirty = false;
  summary_written = true;
  status_dirty = false;
  drift_sweep_running = false;
  max_retries = 0;
}

-- the pod `worker-1` mirrors `a`
abbrev pub busy : MirrorManager
busy = record manager { in_progress = ("a", "worker-1") ∷ [] }

abbrev pub tick : Tick
tick = record { now = 1000; draw = 7 }

abbrev pub ticks : ℕ → Tick
ticks _ = tick

abbrev pub success : StatusRequest
success = record { pod_name = "worker-1"; destination = "a"; digest = "sha256:1"; error = "" }

abbrev pub failure : StatusRequest
failure = record { pod_name = "worker-1"; destination = "a"; digest = ""; error = "timeout" }
