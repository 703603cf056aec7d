-- ===== src/Manager/Resolve/Live.antt =====
-- Worker reports that were applied while the registry was asked (`mergeWorkerUpdates` of
-- pkg/mirror/manager/manager_resolve.go).
use oc_mirror_operator.Base.{
  [], ◌∷◌, eq_refl, String, ◌≡◌, Bool, true, false, Option, none, some, ◌||◌, arith, if◌then◌else◌,
  ◌∙◌, and_then, ap,
}
use oc_mirror_operator.Base.Dict.{lookup, update_entries, lookup-update_entries}
use oc_mirror_operator.ImageState.Entry.{
  ImageEntry, ImageState, state_mirrored, state_failed, state_pending, state_eq, state_eq_iff,
  origin_helm_chart,
}
use oc_mirror_operator.Manager.Resolve.{
  TargetImage, fresh_entry, merge_into_state_with_sig, sig_changed,
}
use oc_mirror_operator.Manager.Resolve.Fresh.{
  merge_last_writer, last_image, fresh_entry_mirrored_iff,
}

abbrev pub is_settled : ImageEntry → Bool
is_settled e = state_eq e.state state_mirrored || state_eq e.state state_failed

abbrev pub with_live : ImageEntry → Option ImageEntry → ImageEntry
with_live r none = r
with_live r (some l) =
    if is_settled l
    then record r {
      state = l.state;
      retry_count = l.retry_count;
      last_error = l.last_error;
      permanently_failed = l.permanently_failed;
    }
    else r

unfoldable pub merge_worker_updates : ImageState → ImageState → ImageState
merge_worker_updates resolved live =
    update_entries (λ dest r. some (with_live r (lookup dest live))) resolved

pub merge_worker_updates_effect :
    (resolved live : ImageState) (j : String) (r : ImageEntry)
    → (lookup j resolved ≡ none → lookup j (merge_worker_updates resolved live) ≡ none)
      × (lookup j resolved ≡ some r
          → (m : ImageEntry) × (lookup j (merge_worker_updates resolved live) ≡ some m)
            × (m.source ≡ r.source)
            × (m.origin ≡ r.origin)
            × (m.entry_sig ≡ r.entry_sig)
            × ((l : ImageEntry)
                → lookup j live ≡ some l
                → (is_settled l ≡ true
                    → (m.state ≡ l.state)
                      × (m.retry_count ≡ l.retry_count)
                      × (m.last_error ≡ l.last_error)
                      × (m.permanently_failed ≡ l.permanently_failed))
                  × (is_settled l ≡ false → m ≡ r))
            × (lookup j live ≡ none → m ≡ r))
unfolding merge_worker_updates
merge_worker_updates_effect resolved live j r =
    let law =
      lookup-update_entries {V = ImageEntry} (λ dest e. some (with_live e (lookup dest live))) j
        resolved in
    (
      λ missing. law ∙ ap (λ o. and_then o (λ e. some (with_live e (lookup j live)))) missing,
      λ known. (
        with_live r (lookup j live),
        law ∙ ap (λ o. and_then o (λ e. some (with_live e (lookup j live)))) known,
        ground arith,
        ground arith,
        ground arith,
        λ l found. (
          λ settled. (ground arith, ground arith, ground arith, ground arith),
          λ unsettled. ground arith,
        ),
        λ absent. ground arith,
      ),
    )

-- A chart that was published again with other content is queued again by the collection alone, but
-- the live entry, Mirrored with the old content, makes it Mirrored again under the new signature.
pub republished_chart_stays_mirrored :
    (img : TargetImage) (prev live : ImageState) (sig origin_ref : String) (e l : ImageEntry)
    → lookup img.destination prev ≡ some e
    → e.state ≡ state_mirrored
    → sig_changed origin_helm_chart sig e ≡ true
    → lookup img.destination live ≡ some l
    → l.state ≡ state_mirrored
    → let resolved =
        merge_into_state_with_sig [] (img ∷ []) origin_helm_chart sig origin_ref prev in
      let merged = merge_worker_updates resolved live in
      ((r : ImageEntry) × (lookup img.destination resolved ≡ some r) × (r.state ≡ state_pending))
      × ((r : ImageEntry) × (lookup img.destination merged ≡ some r)
          × (r.state ≡ state_mirrored)
          × (r.entry_sig ≡ sig))
unfolding last_image fresh_entry
republished_chart_stays_mirrored img prev live sig origin_ref e l known mirrored moved found still =
    let f = fresh_entry origin_helm_chart sig origin_ref img (lookup img.destination prev) in
    let resolved = merge_into_state_with_sig [] (img ∷ []) origin_helm_chart sig origin_ref prev in
    let here : lookup img.destination resolved ≡ some f =
      merge_last_writer (img ∷ []) [] prev origin_helm_chart sig origin_ref img.destination
      ∙ ground (arith, eq_refl img.destination) in
    let (_, _, new_sig, _, _) =
      fresh_entry_mirrored_iff origin_helm_chart sig origin_ref img (lookup img.destination prev) in
    let (m, at, _, _, s, adopted, _) =
      (merge_worker_updates_effect resolved live img.destination f).1 here in
    (
      (f, here, ground (arith, known, mirrored, moved, state_eq_iff e.state state_mirrored)),
      (
        m,
        at,
        ((adopted l found).0 (ground (arith, state_eq_iff l.state state_mirrored))).0 ∙ still,
        s ∙ new_sig,
      ),
    )
