-- ===== src/Manager/Resync/Dispatches.antt =====
-- A forced resync and a recollect give the images of an ImageSet back to the dispatch.
use oc_mirror_operator.Base.{
  ◌∷◌, [], ℕ, String, ◌≡◌, Bool, true, false, Option, none, some, List, ◌==◌, ◌&&◌, not, arith,
  eq_refl, if◌then◌else◌, Option-cases, Bool-cases, inl, inr, contains, ◌∙◌, is_some, ap,
  for_each_present, for_each_keeps, refl,
}
use oc_mirror_operator.Base.Dict.{
  lookup, keys, Distinct, contains-keys, keys-Unique, lookup-insert, insert-Distinct,
}
use oc_mirror_operator.ImageState.Entry.{ImageEntry}
use oc_mirror_operator.Manager.State.{MirrorManager}
use oc_mirror_operator.Manager.Ownership.{has_owner, list_or_nil}
use oc_mirror_operator.Manager.Sweep.{no_owner, is_flagged, is_tracked, sweep, dispatch_order}
use oc_mirror_operator.Manager.Sweep.Local.{occurrences}
use oc_mirror_operator.Manager.Sweep.Outcome.{sweep_dispatches_once}
use oc_mirror_operator.Manager.Resync.{
  Reset, is_fresh, cleared, reset_dest, reset_image_set_to_pending,
}

-- what the resets read and write of one destination
record View : Type 0 where
  entry : Option ImageEntry
  owners : Option (List String)
  owned : Bool
  flag : Option Bool
  pod : Option String

abbrev view : String → String → Reset → View
view is_name j r = record {
  entry = lookup j r.manager.image_state;
  owners = lookup j r.manager.owners;
  owned = has_owner r.manager.owners j is_name;
  flag = lookup j r.manager.mirrored;
  pod = lookup j r.manager.in_progress;
}

abbrev reset_view_entry : View → ImageEntry → View
reset_view_entry v e =
    if v.owned && not (is_tracked v.pod) && not (is_fresh e)
    then record v {
      entry = some (record (cleared e) { signature_verified = false });
      flag = some false;
    }
    else v

abbrev reset_view : View → Option ImageEntry → View
reset_view v none = v
reset_view v (some e) = reset_view_entry v e

reset_elsewhere :
    (is_name d j : String) (r : Reset)
    → (d == j) ≡ false
    → view is_name j (reset_dest is_name d r) ≡ view is_name j r
unfolding reset_dest
reset_elsewhere is_name d j r other = elim (Option-cases (lookup d r.manager.image_state)) [
  | inl missing ↦ ground arith
  | inr (e, found) ↦ ground (
    arith,
    lookup-insert d j (record (cleared e) { signature_verified = false }) r.manager.image_state,
    lookup-insert d j false r.manager.mirrored,
  )
]

reset_here :
    (is_name d : String) (r : Reset)
    → view is_name d (reset_dest is_name d r)
      ≡ reset_view (view is_name d r) (lookup d r.manager.image_state)
unfolding reset_dest
reset_here is_name d r = elim (Option-cases (lookup d r.manager.image_state)) [
  | inl missing ↦ ground arith
  | inr (e, found) ↦ ground (
    arith,
    eq_refl d,
    lookup-insert d d (record (cleared e) { signature_verified = false }) r.manager.image_state,
    lookup-insert d d false r.manager.mirrored,
  )
]

reset_keeps-Distinct :
    (is_name d : String) (r : Reset)
    → Distinct r.manager.image_state
    → Distinct (reset_dest is_name d r).manager.image_state
unfolding reset_dest
reset_keeps-Distinct is_name d r distinct = elim (Option-cases (lookup d r.manager.image_state)) [
  | inl missing ↦ ground arith
  | inr (e, found) ↦ ground (
    arith,
    insert-Distinct d (record (cleared e) { signature_verified = false }) r.manager.image_state,
  )
]

abbrev untouched : MirrorManager → Reset
untouched m = record { manager = m; changed = false }

reset_view-known :
    (is_name : String) (m : MirrorManager) (j : String) (e : ImageEntry)
    → Distinct m.image_state
    → lookup j m.image_state ≡ some e
    → view is_name j (reset_image_set_to_pending is_name m)
      ≡ reset_view_entry (view is_name j (untouched m)) e
unfolding reset_image_set_to_pending
reset_view-known is_name m j e distinct known =
    for_each_present (reset_dest is_name) (view is_name)
      (λ d j r other. reset_elsewhere is_name d j r other) (λ d v. reset_view v v.entry)
      (reset_here is_name) (keys m.image_state) (untouched m) j (keys-Unique m.image_state distinct)
      (contains-keys m.image_state j ∙ ap is_some known)
    ∙ ap (reset_view (view is_name j (untouched m))) known

pub reset-Distinct :
    (is_name : String) (m : MirrorManager)
    → Distinct m.image_state
    → Distinct (reset_image_set_to_pending is_name m).manager.image_state
unfolding reset_image_set_to_pending
reset-Distinct is_name m distinct =
    for_each_keeps (reset_dest is_name) (λ r. Distinct r.manager.image_state)
      (reset_keeps-Distinct is_name) (keys m.image_state) (untouched m) distinct

contains-no_owner :
    (o : Option (List String)) (n : String) → contains (list_or_nil o) n ≡ true → no_owner o ≡ false
contains-no_owner none n h = ground arith
contains-no_owner (some []) n h = ground arith
contains-no_owner (some (x ∷ xs)) n h = refl

-- After a forced resync of an ImageSet the next pass dispatches each of its images once, whatever
-- its state was, unless it is in progress: then it is not dispatched and its entry and its
-- fast-path flag are as before. An image that was Pending and fresh already must not have the
-- fast-path flag set, since the resync skips it.
pub resync_dispatches :
    (is_name : String) (now : ℕ) (m : MirrorManager) (j : String) (e : ImageEntry)
    → Distinct m.image_state
    → lookup j m.image_state ≡ some e
    → has_owner m.owners j is_name ≡ true
    → let r = reset_image_set_to_pending is_name m in
      (is_tracked (lookup j m.in_progress) ≡ false
        → is_fresh e && is_flagged (lookup j m.mirrored) ≡ false
        → occurrences j (dispatch_order (sweep now r.manager)) ≡ 1)
      × (is_tracked (lookup j m.in_progress) ≡ true
          → (lookup j r.manager.image_state ≡ some e)
            × (lookup j r.manager.mirrored ≡ lookup j m.mirrored)
            × (occurrences j (dispatch_order (sweep now r.manager)) ≡ 0))
unfolding has_owner
resync_dispatches is_name now m j e distinct known owned =
    let r = reset_image_set_to_pending is_name m in
    let v = reset_view-known is_name m j e distinct known in
    let entry = ap (λ w. w.entry) v in
    let owners = ap (λ w. w.owners) v in
    let flag = ap (λ w. w.flag) v in
    let pod = ap (λ w. w.pod) v in
    let some_owner = contains-no_owner (lookup j m.owners) is_name owned in
    let d = reset-Distinct is_name m distinct in
    let reset_to = record (cleared e) { signature_verified = false } in
    (
      λ free unflagged. elim (Bool-cases (is_fresh e)) [
        | inl fresh ↦
            let there : lookup j r.manager.image_state ≡ some e = ground (arith, entry) in
            ground (
              arith,
              owners,
              flag,
              pod,
              some_owner,
              sweep_dispatches_once now r.manager j e d there,
            )
        | inr stale ↦
            let there : lookup j r.manager.image_state ≡ some reset_to = ground (arith, entry) in
            ground (
              arith,
              owners,
              flag,
              pod,
              some_owner,
              sweep_dispatches_once now r.manager j reset_to d there,
            )
      ],
      λ busy.
          let there : lookup j r.manager.image_state ≡ some e = ground (arith, entry) in
          (
            there,
            ground (arith, flag),
            ground (arith, pod, sweep_dispatches_once now r.manager j e d there),
          ),
    )
