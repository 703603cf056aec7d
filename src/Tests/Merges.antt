-- ===== src/Tests/Merges.antt =====
-- Ownership and the merges of resolved entries on concrete inputs.
use mathlib.Core.Option.{some-injective}
use oc_mirror_operator.Base.{
  ◌≡◌, ◌≤◌, refl, true, false, none, some, [], ◌∷◌, arith, inl, inr, length, contains, without,
  Unique, subst, Bool-cases, ◌==◌,
}
use oc_mirror_operator.Base.Dict.{lookup, Distinct}
use oc_mirror_operator.ImageState.Entry.{
  ImageEntry, ImageState, state_mirrored, state_pending, origin_helm_chart,
}
use oc_mirror_operator.ImageState.SharedIndex.{SharedIndex, IsIndex}
use oc_mirror_operator.Manager.Ownership.{Consolidated, has_owner, merge_resolved_into_consolidated}
use oc_mirror_operator.Manager.Ownership.Merge.{merge_owners, merge_keeps_lifecycle, merge_orphans}
use oc_mirror_operator.Manager.Resolve.{TargetImage, merge_into_state_with_sig}
use oc_mirror_operator.Manager.Resolve.Live.{merge_worker_updates, republished_chart_stays_mirrored}
use oc_mirror_operator.Tests.Data.{manager, images, mirrored_image}

abbrev index : SharedIndex
index = ("b", "is1" ∷ "is2" ∷ []) ∷ []

index-IsIndex : IsIndex index
unfolding lookup
index-IsIndex dest ns listed = elim (Bool-cases ("b" == dest)) [
  | inl here ↦
      let same : some ("is1" ∷ "is2" ∷ []) ≡ some ns = ground arith in
      subst (λ l. (2 ≤ length l) × Unique l) (some-injective _ _ same)
        (omega arith, (refl, (refl, _)))
  | inr elsewhere ↦ ground arith
]

-- `is2` resolves to `b` alone: `c` loses its only owner
abbrev resolved : ImageState
resolved = ("b", mirrored_image) ∷ []

abbrev books : Consolidated
books = record { state = images; owners = manager.owners }

images-Distinct : Distinct images
unfolding lookup
images-Distinct = (refl, (refl, (refl, (refl, _))))

resolved-Distinct : Distinct resolved
unfolding lookup
resolved-Distinct = (refl, _)

merge_owners_example :
    has_owner (merge_resolved_into_consolidated resolved "is2" books).0.owners "c" "is2" ≡ false
unfolding lookup
merge_owners_example =
    merge_owners resolved "is2" books "c" images-Distinct resolved-Distinct "is2" refl

merge_keeps_lifecycle_example :
    (e : ImageEntry) × (lookup "b" (merge_resolved_into_consolidated resolved "is2" books).0.state
      ≡ some e)
    × ((ne : ImageEntry) → lookup "b" resolved ≡ some ne → e.source ≡ ne.source)
    × (lookup "b" resolved ≡ none → e ≡ mirrored_image)
    × (e.state ≡ state_mirrored)
    × (e.last_error ≡ "")
    × (e.retry_count ≡ 0)
    × (e.next_retry_at ≡ none)
    × (e.permanently_failed ≡ false)
    × (e.signature_verified ≡ false)
    × (e.source_digest ≡ "")
unfolding lookup
merge_keeps_lifecycle_example =
    merge_keeps_lifecycle resolved "is2" books "b" images-Distinct resolved-Distinct mirrored_image
      refl

merge_orphans_example :
    contains (merge_resolved_into_consolidated resolved "is2" books).1 "c" ≡ true
unfolding lookup has_owner without
merge_orphans_example =
    merge_orphans resolved "is2" books "c" images-Distinct resolved-Distinct refl

abbrev image_b : TargetImage
image_b = record {
  source = "quay.io/b2";
  destination = "b";
  bundle_ref = "";
  is_bundle_image = false;
}

-- `b` was reported Mirrored while it was resolved as Pending
abbrev reset_b : ImageState
reset_b = ("b", record mirrored_image { state = state_pending }) ∷ []

abbrev chart : ImageEntry
chart = record mirrored_image { origin = origin_helm_chart; entry_sig = "old" }

abbrev charts : ImageState
charts = ("b", chart) ∷ []

republished_chart_stays_mirrored_example :
    (r : ImageEntry) × (lookup "b" (
        merge_worker_updates
          (merge_into_state_with_sig [] (image_b ∷ []) origin_helm_chart "new" "chart" charts)
          charts)
      ≡ some r)
    × (r.state ≡ state_mirrored)
    × (r.entry_sig ≡ "new")
unfolding lookup
republished_chart_stays_mirrored_example =
    (republished_chart_stays_mirrored image_b charts charts "new" "chart" chart chart refl refl refl
      refl refl).1
