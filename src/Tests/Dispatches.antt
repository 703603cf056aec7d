-- ===== src/Tests/Dispatches.antt =====
-- The batch dispatch, the resolve gate and the removal of ImageSets on concrete inputs.
use oc_mirror_operator.Base.{
  none, ℕ, zero, suc, ◌≤◌, ◌*◌, String, ◌≡◌, refl, true, Option, some, List, [], ◌∷◌, arith, length,
}
use oc_mirror_operator.Base.Dict.{lookup, Distinct}
use oc_mirror_operator.Manager.Removal.{drop_removed_image_sets, kept_names, removal_effect}
use oc_mirror_operator.Manager.State.{BatchItem}
use oc_mirror_operator.Manager.Dispatch.{dispatch, dispatch_limit, pods_of}
use oc_mirror_operator.Manager.Resolve.Gate.{
  ImageSet, minutes, should_resolve, poll_expired, as_set, should_resolve-Reason,
}
use oc_mirror_operator.Tests.Data.{images, manager}

-- every pod starts, and the world numbers them
abbrev start : List BatchItem → ℕ → Option String × ℕ
start batch zero = (some "worker-1", 1)
start batch (suc n) = (some "worker-2", suc (suc n))

abbrev items : List BatchItem
items =
    (record { source = "quay.io/a"; dest = "a" })
    ∷ (record { source = "quay.io/b"; dest = "b" })
    ∷ (record { source = "quay.io/c"; dest = "c" })
    ∷ []

dispatch_limit_example : length (pods_of (dispatch start 2 1 items [] 0).in_progress) ≤ 1
unfolding pods_of
dispatch_limit_example = (dispatch_limit start 2 1 items [] 0).0 (omega arith)

abbrev settled : ImageSet
settled = record {
  annotations = ("mirror/catalog-digest-1", "v5:sha256:1") ∷ [];
  generation = 3;
  observed_generation = 3;
  last_successful_poll_time = some 0;
}

-- twenty minutes are set, and an hour has passed
should_resolve-Reason_example :
    should_resolve "mirror/catalog-digest-" "mirror/recollect"
      (60 * minutes)
      settled
      (some (20 * minutes))
      images
    ≡ true
should_resolve-Reason_example =
    (should_resolve-Reason "mirror/catalog-digest-" "mirror/recollect" (60 * minutes) settled
        (some (20 * minutes)) images).1
      (poll_expired (20 * minutes) 0 (as_set (20 * minutes) (omega arith)) refl (omega arith))

owners-Distinct : Distinct manager.owners
unfolding lookup
owners-Distinct = (refl, (refl, (refl, _)))

-- `is2` was removed: `c` had no other owner
removal_effect_example :
    lookup "c" (drop_removed_image_sets ("is1" ∷ []) manager).manager.image_state ≡ none
unfolding lookup kept_names
removal_effect_example = (removal_effect ("is1" ∷ []) manager "c" owners-Distinct).1
