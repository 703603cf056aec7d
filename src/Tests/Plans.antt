-- ===== src/Tests/Plans.antt =====
-- The planned order of a batch of two images: the one with more blobs is copied first.
use oc_mirror_operator.Base.{String, List, [], ◌∷◌, ◌==◌, if◌then◌else◌}
use mathlib.Core.List.{Perm}
use oc_mirror_operator.Manager.State.{BatchItem}
use oc_mirror_operator.Planner.{
  plan_mirror_order, blob_infos, blob_freq, freq_sum, covered, best_of, without_index, greedy,
}
use oc_mirror_operator.Planner.Order.{plan_mirror_order-Perm}

abbrev small : BatchItem
small = record { source = "quay.io/small"; dest = "reg/small" }

abbrev large : BatchItem
large = record { source = "quay.io/large"; dest = "reg/large" }

abbrev layers : String → List String
layers source = if source == "quay.io/large" then "sha256:1" ∷ "sha256:2" ∷ [] else "sha256:2" ∷ []

plan_mirror_order-Perm_example : Perm (small ∷ large ∷ []) (large ∷ small ∷ [])
unfolding plan_mirror_order blob_infos blob_freq freq_sum covered best_of without_index greedy
plan_mirror_order-Perm_example = plan_mirror_order-Perm layers (small ∷ large ∷ [])
