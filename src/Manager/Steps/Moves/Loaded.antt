-- ===== src/Manager/Steps/Moves/Loaded.antt =====
-- The moves of the load of the persisted state.
use oc_mirror_operator.Base.{
  String, Bool, true, false, Option, none, some, List, [], ◌∷◌, ◌≡◌, is_some, if_both, contains,
  arith, Option-cases, Bool-cases, text-cases, inl, inr, refl, subst, sym,
}
use oc_mirror_operator.Base.Dict.{Dict, lookup, lookup-insert}
use oc_mirror_operator.ImageState.Entry.{ImageEntry, ImageState}
use oc_mirror_operator.Manager.State.{MirrorManager}
use oc_mirror_operator.Manager.Persist.{
  Stored, Loaded, merge_loaded_entry, load_entry, load_entries, load_content, load_all,
  nothing_loaded, load_partitioned_state,
}
use oc_mirror_operator.Manager.Steps.{
  brings, content_brings, stored_brings, is_mirrored, is_nothing, load_if_empty,
}
use oc_mirror_operator.Manager.Steps.Lifecycle.{lifecycle, entry_has, Allowed, Allowed-refl}

-- a copy that passes a test is the one that was there or the new one
merge_loaded_entry_has :
    (test : ImageEntry → Bool) (existing : Option ImageEntry) (incoming : ImageEntry)
    → entry_has test existing ≡ false
    → test incoming ≡ false
    → test (merge_loaded_entry existing incoming) ≡ false
merge_loaded_entry_has test none incoming h k = k
merge_loaded_entry_has test (some existing) incoming h k =
    if_both (λ e. test e ≡ false) _ _ _ (if_both (λ e. test e ≡ false) _ incoming existing k h)
      (if_both (λ e. test e ≡ false) _ incoming existing k h)

module _ (test : ImageEntry → Bool) (j : String) where
  abbrev Lacks : Loaded → Type 0
  Lacks l = entry_has test (lookup j l.image_state) ≡ false

  load_entries-Lacks :
      (is_name : String) (state : ImageState) (l : Loaded)
      → brings test j state ≡ false
      → Lacks l
      → Lacks (load_entries is_name state l)
  unfolding load_entries load_entry brings
  load_entries-Lacks is_name [] l h k = k
  load_entries-Lacks is_name ((dest, e) ∷ state) l h k =
      let law =
        lookup-insert dest j (merge_loaded_entry (lookup dest l.image_state) e) l.image_state in
      load_entries-Lacks is_name state (load_entry is_name dest e l) (ground (arith, h))
        (elim (text-cases dest j) [
          | inr (n, _) ↦ ground (arith, law, n, k)
          | inl (y, same) ↦
              let k' : entry_has test (lookup dest l.image_state) ≡ false =
                subst (λ x. entry_has test (lookup x l.image_state) ≡ false) (sym same) k in
              let one =
                merge_loaded_entry_has test (lookup dest l.image_state) e k'
                  (ground (arith, h, y)) in
              ground (arith, law, y, one)
        ])

  load_content-Lacks :
      (is_name : String) (annotated : Dict String) (content : Option (ImageState × Dict String))
      (l : Loaded)
      → content_brings test j content ≡ false
      → Lacks l
      → Lacks (load_content is_name annotated content l)
  load_content-Lacks is_name annotated none l h k = k
  load_content-Lacks is_name annotated (some (state, digests)) l h k =
      load_entries-Lacks is_name state _ h k

  load_all-Lacks :
      (image_sets : List String) (stored : List Stored) (l : Loaded)
      → stored_brings test j stored ≡ false
      → Lacks l
      → Lacks (load_all image_sets stored l)
  unfolding load_all stored_brings
  load_all-Lacks image_sets [] l h k = k
  load_all-Lacks image_sets (s ∷ stored) l h k =
      load_all-Lacks image_sets stored _ (ground (arith, h)) (
        if_both Lacks (contains image_sets s.name) _ l
          (load_content-Lacks s.name s.annotated s.content l (ground (arith, h)) k) k)

nothing-lookup : (j : String) (state : ImageState) → is_nothing state ≡ true → lookup j state ≡ none
unfolding lookup
nothing-lookup j [] h = refl
nothing-lookup j (e ∷ state) h = absurd (ground (arith, h))

-- into an empty state
load_partitioned_state-Allowed :
    (image_sets : List String) (stored : List Stored) (m : MirrorManager) (j : String)
    → lookup j m.image_state ≡ none
    → Allowed
        (stored_brings (λ e. true) j stored)
        (stored_brings is_mirrored j stored)
        (lifecycle j m)
        (lifecycle j (load_partitioned_state image_sets stored m))
unfolding lookup
load_partitioned_state-Allowed image_sets stored m j empty = record {
  known = λ h k. ground (
    arith,
    k,
    load_all-Lacks (λ e. true) j image_sets stored nothing_loaded h refl,
    here (load_all image_sets stored nothing_loaded),
  );
  claimed = λ h k.
      ground (arith, k, load_all-Lacks is_mirrored j image_sets stored nothing_loaded h refl);
  given_up = λ h k. absurd (ground (arith, h, empty));
}
  where
    here :
        (l : Loaded)
        → entry_has (λ e. true) (lookup j l.image_state) ≡ is_some (lookup j l.image_state)
    here l = elim (Option-cases (lookup j l.image_state)) [
      | inl n ↦ ground (arith, n)
      | inr (e, s) ↦ ground (arith, s)
    ]

pub load_if_empty-Allowed :
    (image_sets : List String) (stored : List Stored) (m : MirrorManager) (j : String)
    → Allowed
        (stored_brings (λ e. true) j stored)
        (stored_brings is_mirrored j stored)
        (lifecycle j m)
        (lifecycle j (load_if_empty image_sets stored m))
load_if_empty-Allowed image_sets stored m j = elim (Bool-cases (is_nothing m.image_state)) [
  | inl empty ↦
      rw empty (
        load_partitioned_state-Allowed image_sets stored m j (nothing-lookup j m.image_state empty))
  | inr full ↦ rw full (Allowed-refl (lifecycle j m))
]
