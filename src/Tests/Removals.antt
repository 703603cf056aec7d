-- ===== src/Tests/Removals.antt =====
-- The cleanup of the removed ImageSet `is1`, while `is2` needs one of its two images.
use oc_mirror_operator.Base.{String, Bool, true, Option, none, some, [], ◌∷◌, ◌==◌, if◌then◌else◌}
use oc_mirror_operator.ImageState.Entry.{ImageState}
use oc_mirror_operator.ImageState.SharedIndex.{SharedIndex}
use oc_mirror_operator.Controller.{repo_and_digest}
use oc_mirror_operator.Tests.Data.{mirrored_image}

abbrev removed_state : ImageState
removed_state = ("reg/a:v1", mirrored_image) ∷ ("reg/b@sha256:1", mirrored_image) ∷ []

abbrev needed_state : ImageState
needed_state = ("reg/b:sha256-1", mirrored_image) ∷ []

abbrev load : String → Option ImageState
load name =
    if name == "is1" then some removed_state else if name == "is2" then some needed_state else none

abbrev no_refs : SharedIndex
no_refs = []

abbrev create : ImageState → Bool
create exclusive = true

-- `reg/a:v1` is a tag of some manifest
abbrev resolves : String → String × String
resolves r = if r == "reg/a:v1" then ("reg/a", "sha256:7") else repo_and_digest r
