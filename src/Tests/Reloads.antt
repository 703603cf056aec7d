-- ===== src/Tests/Reloads.antt =====
-- A flush and a load on concrete inputs, for a target that names `is2` only.
use oc_mirror_operator.Base.{◌≡◌, refl, String, [], ◌∷◌, some}
use oc_mirror_operator.Base.Dict.{Dict, lookup, Distinct}
use oc_mirror_operator.ImageState.Entry.{ImageEntry}
use oc_mirror_operator.Manager.Ownership.{has_owner}
use oc_mirror_operator.Manager.Persist.{flushed_states, load_all, nothing_loaded}
use oc_mirror_operator.Manager.Persist.Life.{life, saved_life}
use oc_mirror_operator.Manager.Persist.Loads.{stored_items}
use oc_mirror_operator.Manager.Persist.Reload.{reload_effect}
use oc_mirror_operator.Tests.Data.{manager, images, failed_image}

images-Distinct : Distinct images
unfolding lookup
images-Distinct = (refl, (refl, (refl, (refl, _))))

abbrev no_digests : String → Dict String
no_digests name = []

-- the failed image `c`, whose next retry is at 500 ns, is owned by `is2`
reload_effect_example :
    let l =
      load_all
        ("is2" ∷ [])
        (stored_items no_digests no_digests (flushed_states ("is2" ∷ []) manager) ("is2" ∷ []))
        nothing_loaded in
    (e : ImageEntry) × (lookup "c" l.image_state ≡ some e) × (life e ≡ saved_life failed_image)
unfolding has_owner lookup
reload_effect_example =
    (reload_effect ("is2" ∷ []) no_digests no_digests manager images-Distinct).1 "c" "is2"
      failed_image refl refl refl
