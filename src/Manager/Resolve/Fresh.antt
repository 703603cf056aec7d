-- ===== src/Manager/Resolve/Fresh.antt =====
-- What becomes of the entries of an ImageSet when its images are collected afresh.
use oc_mirror_operator.Base.{
  String, ◌≡◌, true, false, Option, none, some, List, [], ◌∷◌, ◌==◌, ◌||◌, arith, if◌then◌else◌,
  Option-cases, Bool-cases, text-cases, inl, inr, refl, ◌∙◌, ◌↔◌, ◌⊎◌, is_some, ap,
}
use oc_mirror_operator.Base.Dict.{lookup, insert, lookup-insert}
use oc_mirror_operator.ImageState.Entry.{
  ImageEntry, ImageState, ImageOrigin, state_mirrored, state_pending, state_eq, state_eq_iff,
  origin_eq, origin_empty,
}
use oc_mirror_operator.Manager.Resolve.{
  TargetImage, fresh_entry, merge_into_state_with_sig, sig_changed,
}

-- the last image of the list with this destination
unfoldable pub last_image : String → List TargetImage → Option TargetImage
last_image j [] = none
last_image j (img ∷ images) =
    let later = last_image j images in
    if is_some later then later else if img.destination == j then some img else none

abbrev pub written :
    ImageOrigin
    → String
    → String
    → Option ImageEntry
    → Option ImageEntry
    → Option TargetImage
    → Option ImageEntry
written origin sig origin_ref prev old none = old
written origin sig origin_ref prev old (some img) =
    some (fresh_entry origin sig origin_ref img prev)

-- Of several collected images with one destination the last one gives the entry; it is made from
-- the image and from what was known of that destination before. Other destinations are kept.
pub merge_last_writer :
    (images : List TargetImage) (dst prev : ImageState) (origin : ImageOrigin)
    (sig origin_ref j : String)
    → lookup j (merge_into_state_with_sig dst images origin sig origin_ref prev)
      ≡ written origin sig origin_ref (lookup j prev) (lookup j dst) (last_image j images)
unfolding merge_into_state_with_sig last_image
merge_last_writer [] dst prev origin sig origin_ref j = refl
merge_last_writer (img ∷ images) dst prev origin sig origin_ref j =
    let e = fresh_entry origin sig origin_ref img (lookup img.destination prev) in
    merge_last_writer images (insert img.destination e dst) prev origin sig origin_ref j
    ∙ elim (text-cases img.destination j) [
      | inl (y, same) ↦ elim (Option-cases (last_image j images)) [
        | inl missing ↦
            ground (arith, lookup-insert img.destination j e dst, ap (λ x. lookup x prev) same)
        | inr (later, found) ↦ ground arith
      ]
      | inr (n, _) ↦ elim (Option-cases (last_image j images)) [
        | inl missing ↦ ground (arith, lookup-insert img.destination j e dst)
        | inr (later, found) ↦ ground arith
      ]
    ]

-- the entry that was known before and still counts
abbrev pub StillMirrored : ImageOrigin → String → Option ImageEntry → Type 0
StillMirrored origin sig prev =
    (e : ImageEntry) × (prev ≡ some e)
    × (e.state ≡ state_mirrored)
    × (origin_eq e.origin origin || origin_eq e.origin origin_empty ≡ true)
    × (sig_changed origin sig e ≡ false)

nothing_known :
    {A : Type 0} (origin : ImageOrigin) (sig : String) → StillMirrored origin sig none → A
nothing_known origin sig (e, same, m, f, s) = ground arith

-- A collected image is Mirrored exactly when its destination was Mirrored before under the same
-- origin (or an entry without one) and, for a chart, with the same archive; otherwise it is Pending
-- with no retry counted, whatever failed before. The signature, the origin and the permanent-failure
-- mark are those of a new entry in each case.
pub fresh_entry_mirrored_iff :
    (origin : ImageOrigin) (sig origin_ref : String) (img : TargetImage) (prev : Option ImageEntry)
    → let e = fresh_entry origin sig origin_ref img prev in
      ((e.state ≡ state_mirrored) ↔ StillMirrored origin sig prev)
      × ((e.state ≡ state_mirrored) ⊎ ((e.state ≡ state_pending) × (e.retry_count ≡ 0)))
      × (e.entry_sig ≡ sig)
      × (e.origin ≡ origin)
      × (e.permanently_failed ≡ false)
unfolding fresh_entry
fresh_entry_mirrored_iff origin sig origin_ref img none =
    ((λ h. ground arith, λ h. nothing_known origin sig h), inr (refl, refl), refl, refl, refl)
fresh_entry_mirrored_iff origin sig origin_ref img (some p) =
    elim (Bool-cases (origin_eq p.origin origin || origin_eq p.origin origin_empty)) [
      | inl fits ↦ elim (Bool-cases (state_eq p.state state_mirrored)) [
        | inl mirrored ↦ elim (Bool-cases (sig_changed origin sig p)) [
          | inl moved ↦ (
            (λ h. ground arith, λ (e, same, m, f, s). ground arith),
            inr (ground arith, ground arith),
            ground arith,
            ground arith,
            ground arith,
          )
          | inr kept ↦ (
            (
              λ h. (p, refl, (state_eq_iff p.state state_mirrored).0 mirrored, fits, kept),
              λ h. ground (arith, state_eq_iff p.state state_mirrored),
            ),
            inl (ground (arith, state_eq_iff p.state state_mirrored)),
            ground arith,
            ground arith,
            ground arith,
          )
        ]
        | inr unmirrored ↦ (
          (
            λ h. ground arith,
            λ (e, same, m, f, s). ground (arith, state_eq_iff p.state state_mirrored),
          ),
          inr (ground arith, ground arith),
          ground arith,
          ground arith,
          ground arith,
        )
      ]
      | inr foreign ↦ (
        (λ h. ground arith, λ (e, same, m, f, s). ground arith),
        inr (ground arith, ground arith),
        ground arith,
        ground arith,
        ground arith,
      )
    ]
