-- ===== src/Manager/Persist/Loads.antt =====
-- What `loadPartitionedState` (pkg/mirror/manager/manager_resolve.go) makes of stored states.
use oc_mirror_operator.Base.{
  String, true, false, Option, none, some, List, [], ◌∷◌, ◌≡◌, ◌==◌, ◌&&◌, ◌||◌, is_some, and_then,
  map_some, contains, arith, eq_iff, if◌then◌else◌, if_both, Bool-cases, text-cases, inl, inr, refl,
  ap, sym, subst, ◌∙◌,
}
use oc_mirror_operator.Base.Dict.{Dict, lookup, insert, Distinct, lookup-insert}
use oc_mirror_operator.ImageState.Entry.{ImageEntry, ImageState}
use oc_mirror_operator.Manager.Ownership.{has_owner}
use oc_mirror_operator.Manager.Ownership.Books.{has_owner-add_owner}
use oc_mirror_operator.Manager.Persist.{
  merge_loaded_entry, Loaded, load_entry, load_entries, Stored, adopted_digests, load_content,
  load_all,
}
use oc_mirror_operator.Manager.Persist.Partition.{stored_entry, AllDistinct}
use oc_mirror_operator.Manager.Persist.Life.{Life, HasLife, merge_loaded_entry-life}

load_entries_effect :
    (is_name : String) (state : ImageState) (l : Loaded) (j n : String)
    → Distinct state
    → let l' = load_entries is_name state l in
      (has_owner l'.owners j n
        ≡ has_owner l.owners j n || (is_some (lookup j state) && is_name == n))
      × (lookup j l'.image_state ≡ (
          if is_some (lookup j state)
          then map_some (merge_loaded_entry (lookup j l.image_state)) (lookup j state)
          else lookup j l.image_state))
unfolding load_entries load_entry lookup
load_entries_effect is_name [] l j n d = (ground arith, ground arith)
load_entries_effect is_name ((dest, e) ∷ state) l j n (fresh, d) =
    let rest = load_entries_effect is_name state (load_entry is_name dest e l) j n d in
    let owned = has_owner-add_owner l.owners dest is_name j n in
    let put =
      lookup-insert dest j (merge_loaded_entry (lookup dest l.image_state) e) l.image_state in
    elim (text-cases dest j) [
      | inr (other, _) ↦ (ground (arith, other, rest.0, owned), ground (arith, other, rest.1, put))
      | inl (y, same) ↦
          let fresh' : lookup j state ≡ none = subst (λ x. lookup x state ≡ none) same fresh in
          let old = ap (λ x. merge_loaded_entry (lookup x l.image_state) e) same in
          (ground (arith, y, rest.0, owned, fresh'), ground (arith, y, rest.1, put, fresh', old))
    ]

abbrev pub content_of : Dict String → Option ImageState → Option (ImageState × Dict String)
content_of digests none = none
content_of digests (some state) = some (state, digests)

-- the ImageSets of the cluster with what was flushed for them
abbrev pub stored_items :
    (String → Dict String) → (String → Dict String) → Dict ImageState → List String → List Stored
stored_items digests annotated states [] = []
stored_items digests annotated states (n ∷ names) =
    record { name = n; content = content_of (digests n) (lookup n states); annotated = annotated n }
    ∷ stored_items digests annotated states names

module _ (image_sets : List String) (digests annotated : String → Dict String)
    (states : Dict ImageState) (all : AllDistinct states) where
  load_content_effect :
      (is_name : String) (l : Loaded) (j n : String)
      → let content = content_of (digests is_name) (lookup is_name states) in
        let l' = load_content is_name (annotated is_name) content l in
        let found = stored_entry states is_name j in
        (has_owner l'.owners j n ≡ has_owner l.owners j n || (is_some found && is_name == n))
        × (lookup j l'.image_state ≡ (
            if is_some found
            then map_some (merge_loaded_entry (lookup j l.image_state)) found
            else lookup j l.image_state))
  load_content_effect is_name l j n = go (lookup is_name states) refl
    where
      go :
          (o : Option ImageState)
          → lookup is_name states ≡ o
          → let l' =
              load_content is_name
                (annotated is_name)
                (map_some (λ state. (state, digests is_name)) o)
                l in
            let found = and_then o (lookup j) in
            (has_owner l'.owners j n ≡ has_owner l.owners j n || (is_some found && is_name == n))
            × (lookup j l'.image_state ≡ (
                if is_some found
                then map_some (merge_loaded_entry (lookup j l.image_state)) found
                else lookup j l.image_state))
      go none h = (ground arith, ground arith)
      go (some state) h =
          load_entries_effect is_name state
            (record l {
              catalog_digests =
                  insert is_name (adopted_digests state (digests is_name) (annotated is_name))
                    l.catalog_digests;
            })
            j n (all is_name state h)

  unfoldable pub loaded : List String → Loaded → Loaded
  loaded names l = load_all image_sets (stored_items digests annotated states names) l

  module _ (is_name : String) (names : List String) (l : Loaded) where
    abbrev after_content : Loaded
    after_content =
        load_content is_name (annotated is_name)
          (content_of (digests is_name) (lookup is_name states)) l

    loaded_in :
        contains image_sets is_name ≡ true → loaded (is_name ∷ names) l ≡ loaded names after_content
    unfolding loaded load_all
    loaded_in h = ap (λ b. loaded names (if b then after_content else l)) h

    loaded_out : contains image_sets is_name ≡ false → loaded (is_name ∷ names) l ≡ loaded names l
    unfolding loaded load_all
    loaded_out h = ap (λ b. loaded names (if b then after_content else l)) h

  -- the owners that the loads add
  pub has_owner-loaded :
      (names : List String) (l : Loaded) (j n : String)
      → has_owner (loaded names l).owners j n
        ≡ has_owner l.owners j n
          || (contains names n && contains image_sets n && is_some (stored_entry states n j))
  has_owner-loaded [] l j n = unfold loaded in unfold load_all in ground arith
  has_owner-loaded (is_name ∷ names) l j n =
      let l' =
        load_content is_name (annotated is_name)
          (content_of (digests is_name) (lookup is_name states)) l in
      let one = load_content_effect is_name l j n in
      let same : (is_name == n) ≡ true → stored_entry states is_name j ≡ stored_entry states n j =
        λ y. ap (λ x. stored_entry states x j) ((eq_iff is_name n).0 y) in
      let named : (is_name == n) ≡ true → contains image_sets is_name ≡ contains image_sets n =
        λ y. ap (contains image_sets) ((eq_iff is_name n).0 y) in
      elim (Bool-cases (contains image_sets is_name)) [
        | inr other ↦
            ap (λ x. has_owner x.owners j n) (loaded_out is_name names l other)
            ∙ elim (Bool-cases (is_name == n)) [
              | inl y ↦ ground (arith, has_owner-loaded names l j n, y, other, named y)
              | inr n' ↦ ground (arith, has_owner-loaded names l j n, n')
            ]
        | inl here ↦
            ap (λ x. has_owner x.owners j n) (loaded_in is_name names l here)
            ∙ elim (Bool-cases (is_name == n)) [
              | inl y ↦
                  ground (arith, has_owner-loaded names l' j n, one.0, y, here, named y, same y)
              | inr n' ↦ ground (arith, has_owner-loaded names l' j n, one.0, n')
            ]
      ]

  -- the loads find entries that say the same
  pub loaded-HasLife :
      (names : List String) (l : Loaded) (j : String) (says : Life)
      → ((n : String) → contains image_sets n ≡ true → HasLife says (stored_entry states n j))
      → HasLife says (lookup j l.image_state)
      → HasLife says (lookup j (loaded names l).image_state)
  loaded-HasLife [] l j says stored h = unfold loaded in unfold load_all in h
  loaded-HasLife (is_name ∷ names) l j says stored h =
      let one = (load_content_effect is_name l j is_name).1 in
      let P : Loaded → Type 0 = λ x. HasLife says (lookup j x.image_state) in
      elim (Bool-cases (contains image_sets is_name)) [
        | inr other ↦
            subst P (sym (loaded_out is_name names l other))
              (loaded-HasLife names l j says stored h)
        | inl here ↦ subst P (sym (loaded_in is_name names l here)) (
            loaded-HasLife names (after_content is_name names l) j says stored (
              subst (HasLife says) (sym one)
                (merged (stored_entry states is_name j) (stored is_name here))))
      ]
    where
      merged :
          (o : Option ImageEntry)
          → HasLife says o
          → HasLife says (
              if is_some o
              then map_some (merge_loaded_entry (lookup j l.image_state)) o
              else lookup j l.image_state)
      merged none k = h
      merged (some e) k = merge_loaded_entry-life says (lookup j l.image_state) e h k

  -- an entry stays once it is there, and is there after a load that has it
  loaded_known :
      (names : List String) (l : Loaded) (j : String)
      → is_some (lookup j l.image_state) ≡ true
      → is_some (lookup j (loaded names l).image_state) ≡ true
  unfolding loaded load_all
  loaded_known [] l j h = h
  loaded_known (is_name ∷ names) l j h =
      let l' =
        load_content is_name (annotated is_name)
          (content_of (digests is_name) (lookup is_name states)) l in
      let one = (load_content_effect is_name l j is_name).1 in
      loaded_known names (if contains image_sets is_name then l' else l) j (
        if_both (λ x. is_some (lookup j x.image_state) ≡ true) (contains image_sets is_name) l' l
          (ground (arith, one, h)) h)

  pub loaded_finds :
      (names : List String) (l : Loaded) (n j : String)
      → contains names n ≡ true
      → contains image_sets n ≡ true
      → is_some (stored_entry states n j) ≡ true
      → is_some (lookup j (loaded names l).image_state) ≡ true
  unfolding loaded load_all
  loaded_finds [] l n j h named found = absurd (ground (arith, h))
  loaded_finds (is_name ∷ names) l n j h named found =
      let l' =
        load_content is_name (annotated is_name)
          (content_of (digests is_name) (lookup is_name states)) l in
      elim (text-cases is_name n) [
        | inr (other, _) ↦
            loaded_finds names (if contains image_sets is_name then l' else l) n j
              (ground (arith, h, other)) named found
        | inl (y, same) ↦
            let one = (load_content_effect is_name l j is_name).1 in
            let named' : contains image_sets is_name ≡ true =
              ap (contains image_sets) same ∙ named in
            let found' : is_some (stored_entry states is_name j) ≡ true =
              ap (λ x. is_some (stored_entry states x j)) same ∙ found in
            subst (λ x. is_some (lookup j x.image_state) ≡ true)
              (sym (loaded_in is_name names l named'))
              (loaded_known names (after_content is_name names l) j (ground (arith, one, found')))
      ]
