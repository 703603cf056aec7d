-- ===== src/Manager/Ownership.antt =====
-- Which ImageSets own a destination (pkg/mirror/manager/manager_resolve.go and owner_meta.go):
-- the owners map, the merge of a freshly resolved ImageSet into the state in memory, the view of
-- one ImageSet, and the removal of ImageSets that the MirrorTarget no longer names.
pub mod Books
pub mod Merge
use oc_mirror_operator.Base.{
  String, Bool, true, false, Option, none, some, List, [], ◌∷◌, ◌++◌, ◌==◌, ◌&&◌, not,
  if◌then◌else◌, contains, without, and_then, is_some,
}
use oc_mirror_operator.Base.Dict.{Dict, lookup, insert, remove, keys, update_entries}
use oc_mirror_operator.ImageState.Entry.{ImageEntry, ImageState}
use oc_mirror_operator.Manager.State.{MirrorManager, SpecMeta}

abbrev pub Owners : Type 0
Owners = Dict (List String)

abbrev pub list_or_nil : Option (List String) → List String
list_or_nil none = []
list_or_nil (some names) = names

abbrev pub owners_of : Owners → String → List String
owners_of owners dest = list_or_nil (lookup dest owners)

unfoldable pub has_owner : Owners → String → String → Bool
has_owner owners dest is_name = contains (owners_of owners dest) is_name

-- every name of the list is the given one
abbrev pub all_are : String → List String → Bool
all_are is_name [] = true
all_are is_name (n ∷ names) = n == is_name && all_are is_name names

unfoldable pub only_owner : Owners → String → String → Bool
only_owner owners dest is_name = all_are is_name (owners_of owners dest)

unfoldable pub add_owner : Owners → String → String → Owners
unfolding has_owner
add_owner owners dest is_name =
    if has_owner owners dest is_name
    then owners
    else insert dest (owners_of owners dest ++ is_name ∷ []) owners

abbrev pub is_nil : List String → Bool
is_nil [] = true
is_nil (_ ∷ _) = false

-- the new map, and whether the ImageSet was an owner
unfoldable pub remove_owner : Owners → String → String → Owners × Bool
unfolding has_owner
remove_owner owners dest is_name =
    let out = without is_name (owners_of owners dest) in
    if not (has_owner owners dest is_name)
    then (owners, false)
    else if is_nil out
    then (remove dest owners, true)
    else (insert dest out owners, true)

pub record Consolidated : Type 0 where
  pub state : ImageState
  pub owners : Owners

-- the spec metadata is refreshed only for the sole owner; the lifecycle fields stay
unfoldable pub refresh_entry : Bool → ImageEntry → ImageEntry → ImageEntry
refresh_entry sole new_entry existing =
    let e = record existing { source = new_entry.source } in
    if sole
    then record e {
      origin = new_entry.origin;
      entry_sig = new_entry.entry_sig;
      origin_ref = new_entry.origin_ref;
      catalog = new_entry.catalog;
      is_bundle_image = new_entry.is_bundle_image;
    }
    else e

abbrev pub refreshed : Bool → ImageEntry → Option ImageEntry → ImageEntry
refreshed sole new_entry none = new_entry
refreshed sole new_entry (some existing) = refresh_entry sole new_entry existing

unfoldable pub upsert : String → String → ImageEntry → Consolidated → Consolidated
unfolding add_owner only_owner refresh_entry
upsert is_name dest new_entry c = record {
  state =
      insert dest (refreshed (only_owner c.owners dest is_name) new_entry (lookup dest c.state))
        c.state;
  owners = add_owner c.owners dest is_name;
}

-- step 1
unfoldable pub upsert_all : String → ImageState → Consolidated → Consolidated
upsert_all is_name [] c = c
upsert_all is_name ((dest, new_entry) ∷ rest) c =
    upsert_all is_name rest (upsert is_name dest new_entry c)

-- step 2, for the destinations of the state
unfoldable pub drop_stale : String → ImageState → List String → Owners → Owners × List String
unfolding remove_owner
drop_stale is_name per_is [] owners = (owners, [])
drop_stale is_name per_is (dest ∷ dests) owners =
    let (removed, was_owner) = remove_owner owners dest is_name in
    let drops = not (is_some (lookup dest per_is)) && was_owner in
    let (owners', orphaned) = drop_stale is_name per_is dests (if drops then removed else owners) in
    (owners', if drops && is_nil (owners_of removed dest) then dest ∷ orphaned else orphaned)

unfoldable pub merge_resolved_into_consolidated :
    ImageState → String → Consolidated → Consolidated × List String
unfolding upsert_all drop_stale
merge_resolved_into_consolidated per_is is_name c =
    let c' = upsert_all is_name per_is c in
    let (owners', orphaned) = drop_stale is_name per_is (keys c'.state) c'.owners in
    (record c' { owners = owners' }, orphaned)

unfoldable pub apply_to : SpecMeta → ImageEntry → ImageEntry
apply_to s e = record e {
  origin = s.origin;
  entry_sig = s.entry_sig;
  origin_ref = s.origin_ref;
  catalog = s.catalog;
  is_bundle_image = s.is_bundle_image;
}

unfoldable pub spec_meta_of : ImageEntry → SpecMeta
spec_meta_of e = record {
  origin = e.origin;
  entry_sig = e.entry_sig;
  origin_ref = e.origin_ref;
  catalog = e.catalog;
  is_bundle_image = e.is_bundle_image;
}

-- `ownerMeta[dest][isName]`
abbrev pub owner_meta_of : Dict (Dict SpecMeta) → String → String → Option SpecMeta
owner_meta_of owner_meta dest is_name = and_then (lookup dest owner_meta) (lookup is_name)

abbrev pub with_meta : Option SpecMeta → ImageEntry → ImageEntry
with_meta none e = e
with_meta (some meta) e = apply_to meta e

unfoldable pub owner_view : MirrorManager → String → String → ImageEntry → ImageEntry
unfolding apply_to
owner_view m dest is_name e = with_meta (owner_meta_of m.owner_meta dest is_name) e

unfoldable pub filter_by_image_set :
    ImageState → Owners → Dict (Dict SpecMeta) → String → ImageState
unfolding has_owner apply_to
filter_by_image_set state owners owner_meta is_name =
    update_entries
      (λ dest e.
        if has_owner owners dest is_name
        then some (with_meta (owner_meta_of owner_meta dest is_name) e)
        else none)
      state
