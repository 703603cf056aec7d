-- ===== src/Manager/Persist.antt =====
-- What a manager persists and loads again: `flushPartitionedState` (pkg/mirror/manager/manager.go),
-- `loadPartitionedState` and `mergeLoadedEntry` (manager_resolve.go). A ConfigMap is the value it
-- holds, with what the encoding loses of it; the encoding itself and the migration of older layouts
-- are no part of it.
pub mod Partition
pub mod Life
pub mod Loads
pub mod Reload
use oc_mirror_operator.Base.{
  ℕ, ◌-◌, ◌%◌, String, Bool, true, false, Option, none, some, List, [], ◌∷◌, ◌&&◌, ◌||◌, not,
  if◌then◌else◌, contains, ltb, length,
}
use oc_mirror_operator.Base.Dict.{Dict, lookup, insert}
use oc_mirror_operator.ImageState.Entry.{ImageEntry, ImageState, state_mirrored, state_eq}
use oc_mirror_operator.Manager.State.{MirrorManager, SpecMeta}
use oc_mirror_operator.Manager.Ownership.{Owners, owners_of, add_owner, owner_view, spec_meta_of}
use oc_mirror_operator.Manager.Phases.{set_owner_meta}

-- the states of the ImageSets, empty at first
unfoldable pub empty_states : List String → Dict ImageState
empty_states [] = []
empty_states (is_name ∷ names) = insert is_name [] (empty_states names)

-- an owner that the target no longer names has no state
abbrev pub into_state :
    String → String → ImageEntry → Option ImageState → Dict ImageState → Dict ImageState
into_state is_name dest e none states = states
into_state is_name dest e (some state) states = insert is_name (insert dest e state) states

-- `NextRetryAt` is stored in RFC 3339 form, which has whole seconds
abbrev pub whole_seconds : Option ℕ → Option ℕ
whole_seconds none = none
whole_seconds (some at) = some (at - at % 1000000000)

-- the owner's view of the entry, as its ConfigMap has it
unfoldable pub saved_view : MirrorManager → String → String → ImageEntry → ImageEntry
saved_view m dest is_name e =
    let view = owner_view m dest is_name e in
    record view { next_retry_at = whole_seconds view.next_retry_at }

-- each owner's state carries its own view of the entry
unfoldable pub put_owned :
    MirrorManager → String → ImageEntry → List String → Dict ImageState → Dict ImageState
put_owned m dest e [] states = states
put_owned m dest e (is_name ∷ names) states =
    put_owned m dest e names
      (into_state is_name dest (saved_view m dest is_name e) (lookup is_name states) states)

unfoldable pub put_all : MirrorManager → ImageState → Dict ImageState → Dict ImageState
put_all m [] states = states
put_all m ((dest, e) ∷ entries) states =
    put_all m entries (put_owned m dest e (owners_of m.owners dest) states)

-- the states that `flushPartitionedState` saves
unfoldable pub flushed_states : List String → MirrorManager → Dict ImageState
flushed_states image_sets m = put_all m m.image_state (empty_states image_sets)

-- the shared index that it saves
unfoldable pub flushed_index : MirrorManager → ImageState → Owners → Owners
flushed_index m [] index = index
flushed_index m ((dest, e) ∷ entries) index =
    let names = owners_of m.owners dest in
    flushed_index m entries (if ltb 1 (length names) then insert dest names index else index)

-- `mergeLoadedEntry`
abbrev pub merge_loaded_entry : Option ImageEntry → ImageEntry → ImageEntry
merge_loaded_entry none incoming = incoming
merge_loaded_entry (some existing) incoming =
    if state_eq incoming.state state_mirrored || state_eq existing.state state_mirrored
    then if state_eq incoming.state state_mirrored then incoming else existing
    else if ltb existing.retry_count incoming.retry_count
    then incoming
    else existing

pub record Loaded : Type 0 where
  pub image_state : ImageState
  pub owners : Owners
  pub owner_meta : Dict (Dict SpecMeta)
  pub catalog_digests : Dict (Dict String)

unfoldable pub load_entry : String → String → ImageEntry → Loaded → Loaded
load_entry is_name dest e l = record l {
  image_state = insert dest (merge_loaded_entry (lookup dest l.image_state) e) l.image_state;
  owners = add_owner l.owners dest is_name;
  owner_meta = set_owner_meta dest is_name (spec_meta_of e) l.owner_meta;
}

unfoldable pub load_entries : String → ImageState → Loaded → Loaded
unfolding load_entry
load_entries is_name [] l = l
load_entries is_name ((dest, e) ∷ state) l =
    load_entries is_name state (load_entry is_name dest e l)

-- an ImageSet of the cluster: its stored state and digests, if they can be loaded, and the digests
-- in its annotations
pub record Stored : Type 0 where
  pub name : String
  pub content : Option (ImageState × Dict String)
  pub annotated : Dict String

-- a state from before the digests were stored with it takes those of the annotations
abbrev pub adopted_digests : ImageState → Dict String → Dict String → Dict String
adopted_digests [] digests annotated = digests
adopted_digests (e ∷ state) [] annotated = annotated
adopted_digests (e ∷ state) (d ∷ digests) annotated = d ∷ digests

abbrev pub load_content : String → Dict String → Option (ImageState × Dict String) → Loaded → Loaded
load_content is_name annotated none l = l
load_content is_name annotated (some (state, digests)) l = load_entries is_name state (record l {
  catalog_digests = insert is_name (adopted_digests state digests annotated) l.catalog_digests;
})

unfoldable pub load_all : List String → List Stored → Loaded → Loaded
load_all image_sets [] l = l
load_all image_sets (s ∷ stored) l =
    let l' = load_content s.name s.annotated s.content l in
    load_all image_sets stored (if contains image_sets s.name then l' else l)

abbrev pub nothing_loaded : Loaded
nothing_loaded = record { image_state = []; owners = []; owner_meta = []; catalog_digests = [] }

abbrev pub load_partitioned_state : List String → List Stored → MirrorManager → MirrorManager
load_partitioned_state image_sets stored m =
    let l = load_all image_sets stored nothing_loaded in
    record m {
      image_state = l.image_state;
      owners = l.owners;
      owner_meta = l.owner_meta;
      catalog_digests = l.catalog_digests;
    }
