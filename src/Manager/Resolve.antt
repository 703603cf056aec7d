-- ===== src/Manager/Resolve.antt =====
-- Merging what was resolved for an ImageSet with what is known of it
-- (pkg/mirror/manager/manager_resolve.go): the entries of freshly collected images, the entries
-- carried over from the cache, the worker reports that came in while the registry was asked, and
-- the test whether an ImageSet is to be resolved at all.
pub mod Fresh
pub mod Carry
pub mod Live
pub mod Gate
use Prim.Native.String.{◌++◌ as text_append, slice, find, len}
use oc_mirror_operator.Base.{
  ℕ, String, Bool, true, false, Option, none, some, List, [], ◌∷◌, ◌==◌, ◌&&◌, ◌||◌, not, ◌-◌,
  if◌then◌else◌, ltb, leb, is_some, for_each,
}
use oc_mirror_operator.Base.Dict.{Dict, lookup, insert, keys}
use oc_mirror_operator.ImageState.Entry.{
  ImageEntry, ImageState, ImageOrigin, origin_operator, origin_helm_chart, origin_empty, origin_eq,
  state_mirrored, state_failed, state_pending, state_eq,
}
use text.Mathlib.Text.{starts_with, find?}

-- `TargetImage` of pkg/mirror/collector.go
pub record TargetImage : Type 0 where
  pub source : String
  pub destination : String
  pub bundle_ref : String
  pub is_bundle_image : Bool

abbrev pub has_comma : String → Bool
has_comma s = is_some (find? s ",")

-- the label of an entry names its bundle where the image has one
abbrev pub label : String → TargetImage → String
label origin_ref img =
    if img.bundle_ref == ""
    then origin_ref
    else text_append origin_ref (text_append " — " img.bundle_ref)

abbrev pub pending_entry : ImageOrigin → String → String → TargetImage → ImageEntry
pending_entry origin sig origin_ref img = record {
  source = img.source;
  state = state_pending;
  last_error = "";
  retry_count = 0;
  origin = origin;
  entry_sig = sig;
  origin_ref = label origin_ref img;
  catalog = "";
  is_bundle_image = img.is_bundle_image;
  permanently_failed = false;
  next_retry_at = none;
  signature_verified = false;
  source_digest = "";
}

-- the archive of a chart was published again with other content
abbrev pub sig_changed : ImageOrigin → String → ImageEntry → Bool
sig_changed origin sig existing =
    origin_eq origin origin_helm_chart
    && not (existing.entry_sig == "")
    && not (existing.entry_sig == sig)

abbrev pub kept_source : ImageEntry → ImageEntry → ImageEntry
kept_source existing entry =
    if has_comma entry.source && not (has_comma existing.source)
    then record entry { source = existing.source }
    else entry

abbrev pub kept_state : Bool → ImageEntry → ImageEntry → ImageEntry
kept_state changed existing entry =
    if state_eq existing.state state_mirrored && not changed
    then record entry {
      state = existing.state;
      retry_count = existing.retry_count;
      last_error = existing.last_error;
    }
    else entry

-- the entry of one image, from the entry that was known of its destination
unfoldable pub fresh_entry :
    ImageOrigin → String → String → TargetImage → Option ImageEntry → ImageEntry
fresh_entry origin sig origin_ref img none = pending_entry origin sig origin_ref img
fresh_entry origin sig origin_ref img (some existing) =
    let entry = pending_entry origin sig origin_ref img in
    if origin_eq existing.origin origin || origin_eq existing.origin origin_empty
    then kept_state (sig_changed origin sig existing) existing (kept_source existing entry)
    else entry

unfoldable pub merge_into_state_with_sig :
    ImageState → List TargetImage → ImageOrigin → String → String → ImageState → ImageState
merge_into_state_with_sig dst [] origin sig origin_ref prev = dst
merge_into_state_with_sig dst (img ∷ images) origin sig origin_ref prev =
    merge_into_state_with_sig
      (insert img.destination (fresh_entry origin sig origin_ref img (lookup img.destination prev))
        dst)
      images origin sig origin_ref prev

-- `strings.Cut` at the first space
abbrev pub catalog_from_origin_ref : String → String
catalog_from_origin_ref origin_ref = slice origin_ref 0 (find origin_ref " ")

-- an entry that is carried over, `none` when it is not
unfoldable pub carried_by_sig : ImageOrigin → String → String → ImageEntry → Option ImageEntry
carried_by_sig origin sig origin_ref e =
    if not (origin_eq e.origin origin)
    then none
    else if not (e.entry_sig == "") && not (e.entry_sig == sig)
    then none
    else let ref =
        if e.origin_ref == "" && not (origin_ref == "") then origin_ref else e.origin_ref in
      some (record e {
        entry_sig = if e.entry_sig == "" then sig else e.entry_sig;
        origin_ref = ref;
        catalog =
            if origin_eq e.origin origin_operator && e.catalog == ""
            then catalog_from_origin_ref ref
            else e.catalog;
      })

unfoldable pub carried_by_label : ImageOrigin → String → ImageEntry → Option ImageEntry
carried_by_label origin origin_ref e =
    if not (origin_eq e.origin origin)
    then none
    else if not (e.origin_ref == "") && not (starts_with e.origin_ref origin_ref)
    then none
    else some (record e { origin_ref = if e.origin_ref == "" then origin_ref else e.origin_ref })

-- an entry goes into `dst` unless the destination is there already
abbrev pub carry_entry : String → Option ImageEntry → ImageState → ImageState
carry_entry dest none dst = dst
carry_entry dest (some e) dst = if is_some (lookup dest dst) then dst else insert dest e dst

abbrev pub carried_from : (ImageEntry → Option ImageEntry) → Option ImageEntry → Option ImageEntry
carried_from carried none = none
carried_from carried (some e) = carried e

unfoldable pub carry_dest :
    (ImageEntry → Option ImageEntry) → ImageState → String → ImageState → ImageState
carry_dest carried src dest dst = carry_entry dest (carried_from carried (lookup dest src)) dst

unfoldable pub carry_over_by_origin_and_sig :
    ImageState → ImageState → ImageOrigin → String → String → ImageState
carry_over_by_origin_and_sig src dst origin sig origin_ref =
    for_each (carry_dest (carried_by_sig origin sig origin_ref) src) (keys src) dst

unfoldable pub carry_over_helm_entries : ImageState → ImageState → ImageOrigin → String → ImageState
carry_over_helm_entries src dst origin origin_ref =
    for_each (carry_dest (carried_by_label origin origin_ref) src) (keys src) dst
