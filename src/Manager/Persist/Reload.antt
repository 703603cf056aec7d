-- ===== src/Manager/Persist/Reload.antt =====
-- What the manager has in memory after it loads what it flushed.
use oc_mirror_operator.Base.{
  String, true, false, Option, none, some, List, [], ◌≡◌, ◌&&◌, is_some, contains, arith, if_both,
  Bool-cases, inl, inr, refl, sym, subst,
}
use oc_mirror_operator.Base.Dict.{Dict, lookup, Distinct, lookup-nil}
use oc_mirror_operator.ImageState.Entry.{ImageEntry}
use oc_mirror_operator.Manager.State.{MirrorManager}
use oc_mirror_operator.Manager.Ownership.{has_owner}
use oc_mirror_operator.Manager.Persist.{flushed_states, load_all, nothing_loaded, saved_view}
use oc_mirror_operator.Manager.Persist.Partition.{
  stored_entry, flushed_states_effect, flushed_states-AllDistinct,
}
use oc_mirror_operator.Manager.Persist.Life.{Life, life, HasLife, saved_life, life-saved_view}
use oc_mirror_operator.Manager.Persist.Loads.{
  stored_items, loaded, has_owner-loaded, loaded-HasLife, loaded_finds,
}

HasLife-some :
    (says : Life) (o : Option ImageEntry)
    → HasLife says o
    → is_some o ≡ true
    → (e : ImageEntry) × (o ≡ some e) × (life e ≡ says)
HasLife-some says none h k = absurd (ground (arith, k))
HasLife-some says (some e) h k = (e, refl, h)

-- the stored views of an entry say what the entry says
stored-HasLife :
    (image_sets : List String) (m : MirrorManager) (j : String) (e : ImageEntry) (n : String)
    → Distinct m.image_state
    → lookup j m.image_state ≡ some e
    → contains image_sets n ≡ true
    → HasLife (saved_life e) (stored_entry (flushed_states image_sets m) n j)
stored-HasLife image_sets m j e n d found named =
    subst (HasLife (saved_life e)) (sym (flushed_states_effect image_sets m n j d named)) (
      rw found (
        if_both (HasLife (saved_life e)) (has_owner m.owners j n && true)
          (some (saved_view m j n e)) none (life-saved_view m j n e) _))

-- What the manager loads after a flush is what it had, for the ImageSets that the target names: of
-- every destination with an entry the owners among them (a destination without an entry comes back
-- without owners), and for every destination that one of them owns an entry with the same state,
-- error, retries, failure and signature marks, digest and source, and with the time of the next
-- retry cut to a whole second.
pub reload_effect :
    (image_sets : List String) (digests annotated : String → Dict String) (m : MirrorManager)
    → Distinct m.image_state
    → let states = flushed_states image_sets m in
      let l =
        load_all image_sets (stored_items digests annotated states image_sets) nothing_loaded in
      ((j n : String)
        → has_owner l.owners j n
          ≡ contains image_sets n && has_owner m.owners j n && is_some (lookup j m.image_state))
      × ((j n : String) (e : ImageEntry)
          → lookup j m.image_state ≡ some e
          → contains image_sets n ≡ true
          → has_owner m.owners j n ≡ true
          → (e' : ImageEntry) × (lookup j l.image_state ≡ some e') × (life e' ≡ saved_life e))
unfolding loaded
reload_effect image_sets digests annotated m d =
    let states = flushed_states image_sets m in
    let all = flushed_states-AllDistinct image_sets m in
    let nobody : (j n : String) → has_owner [] j n ≡ false =
      λ j n. unfold has_owner in ground (arith, lookup-nil {V = List String} j) in
    let stored = λ (j : String) (n : String) (named : contains image_sets n ≡ true).
      flushed_states_effect image_sets m n j d named in
    (
      λ j n. elim (Bool-cases (contains image_sets n)) [
        | inl named ↦ ground (
          arith,
          named,
          has_owner-loaded image_sets digests annotated states all image_sets nothing_loaded j n,
          nobody j n,
          stored j n named,
        )
        | inr other ↦ ground (
          arith,
          other,
          has_owner-loaded image_sets digests annotated states all image_sets nothing_loaded j n,
          nobody j n,
        )
      ],
      λ j n e found named owned.
          HasLife-some (saved_life e) _
            (loaded-HasLife image_sets digests annotated states all image_sets nothing_loaded j
              (saved_life e) (λ k named'. stored-HasLife image_sets m j e k d found named')
              (rw (lookup-nil {V = ImageEntry} j) _))
            (loaded_finds image_sets digests annotated states all image_sets nothing_loaded n j
              named named (ground (arith, stored j n named, owned, found))),
    )
