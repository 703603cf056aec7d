-- ===== src/Controller.antt =====
-- The cleanup of a removed ImageSet by the MirrorTarget controller
-- (internal/controller/mirrortarget_controller.go): `liveDestinations`, `needs`, `repoAndDigest` and
-- `partitionAndCreateCleanupJob`. The ConfigMaps and the creation of the Job are arguments.
pub mod Cleanup
use oc_mirror_operator.Base.{
  ℕ, zero, suc, ◌+◌, String, Bool, true, false, Option, none, some, List, [], ◌∷◌, ◌==◌, ◌&&◌, ◌||◌,
  not, if◌then◌else◌, contains, is_some,
}
use oc_mirror_operator.Base.Dict.{Dict, lookup, insert}
use oc_mirror_operator.ImageState.Entry.{ImageEntry, ImageState}
use oc_mirror_operator.ImageState.SharedIndex.{SharedIndex, is_shared, remove_shared_ref}
use text.Mathlib.Text.{find?}
use Prim.Native.String.{slice, len, ◌++◌ as text_append}

-- `strings.LastIndex`, with a round for every byte
unfoldable pub last_index : ℕ → String → String → Option ℕ
last_index zero s sep = none
last_index (suc fuel) s sep = elim (find? s sep) [
  | none ↦ none
  | some i ↦ elim (last_index fuel (slice s (suc i) (len s)) sep) [
    | none ↦ some i
    | some k ↦ some (suc i + k)
  ]
]

-- the repository and the digest that a destination's name has, "" for a plain tag
unfoldable pub repo_and_digest : String → String × String
unfolding last_index
repo_and_digest dest = elim (find? dest "@sha256:") [
  | some i ↦ (slice dest 0 i, slice dest (suc i) (len dest))
  | none ↦ elim (last_index (suc (len dest)) dest ":sha256-") [
    | some i ↦ (slice dest 0 i, text_append "sha256:" (slice dest (i + len ":sha256-") (len dest)))
    | none ↦ (dest, "")
  ]
]

abbrev pub pinned : String × String → String
pinned (repo, digest) = text_append repo (text_append "@" digest)

pub record LiveImages : Type 0 where
  pub dests : List String
  pub digests : List String

abbrev pub has_digest : String × String → Bool
has_digest (repo, digest) = not (digest == "")

unfoldable pub add_live : ImageState → LiveImages → LiveImages
add_live [] live = live
add_live ((dest, e) ∷ state) live =
    let r = repo_and_digest dest in
    let digests = if has_digest r then pinned r ∷ live.digests else live.digests in
    add_live state (record { dests = dest ∷ live.dests; digests = digests })

abbrev pub needs : LiveImages → String → Bool
needs live dest =
    let r = repo_and_digest dest in
    contains live.dests dest
    || (is_some (find? dest "@sha256:") && has_digest r && contains live.digests (pinned r))

-- the loop of `liveDestinations`; `none` when a state cannot be loaded
unfoldable pub live_destinations :
    (String → Option ImageState) → String → List String → LiveImages → Option LiveImages
live_destinations load exclude [] live = some live
live_destinations load exclude (name ∷ names) live =
    if name == exclude then live_destinations load exclude names live else elim (load name) [
      | none ↦ none
      | some state ↦ live_destinations load exclude names (add_live state live)
    ]

-- the images to delete, and the destinations that are still needed
pub record Partition : Type 0 where
  pub exclusive : ImageState
  pub shared : List String

unfoldable pub partition : SharedIndex → LiveImages → ImageState → Partition
partition index live [] = record { exclusive = []; shared = [] }
partition index live ((dest, e) ∷ state) =
    let rest = partition index live state in
    if is_shared index dest || needs live dest
    then record rest { shared = dest ∷ rest.shared }
    else record rest { exclusive = (dest, e) ∷ rest.exclusive }

unfoldable pub drop_refs : String → List String → SharedIndex → SharedIndex
drop_refs is_name [] index = index
drop_refs is_name (dest ∷ dests) index =
    drop_refs is_name dests (remove_shared_ref index dest is_name)

-- what the method leaves behind: an error, and nothing is changed; or the snapshot of the images
-- that the Job deletes, if there are any, and the index, with the ImageSet's own state deleted
pub data Removal : Type 0 where
  aborted : Removal
  committed : Option ImageState → SharedIndex → Removal

-- the snapshot and the Job, where there is something to delete
abbrev pub create_job : (ImageState → Bool) → SharedIndex → ImageState → Removal
create_job create index [] = committed none index
create_job create index (e ∷ exclusive) =
    if create (e ∷ exclusive) then committed (some (e ∷ exclusive)) index else aborted

abbrev pub after_partition : (ImageState → Bool) → String → SharedIndex → Partition → Removal
after_partition create is_name index p =
    create_job create (drop_refs is_name p.shared index) p.exclusive

abbrev pub with_live :
    (ImageState → Bool) → String → ImageState → SharedIndex → Option LiveImages → Removal
with_live create is_name state index none = aborted
with_live create is_name state index (some live) =
    after_partition create is_name index (partition index live state)

-- `create`: whether the snapshot and the Job were created
unfoldable pub partition_and_create_cleanup_job :
    (String → Option ImageState)
    → Option SharedIndex
    → (ImageState → Bool)
    → List String
    → String
    → Removal
partition_and_create_cleanup_job load index create image_sets is_name = elim (load is_name) [
  | none ↦ aborted
  | some state ↦ elim index [
    | none ↦ aborted
    | some idx ↦
        with_live create is_name state idx
          (live_destinations load is_name image_sets (record { dests = []; digests = [] }))
  ]
]
