-- ===== src/Manager/Resync/Recollect.antt =====
-- A recollect gives the failed images of an ImageSet a fresh retry cycle.
use oc_mirror_operator.Base.{
  String, ◌≡◌, Bool, false, Option, none, some, ◌==◌, ◌&&◌, not, arith, eq_refl, if◌then◌else◌,
  Option-cases, inl, inr, ◌∙◌, is_some, ap, for_each_present,
}
use oc_mirror_operator.Base.Dict.{lookup, keys, Distinct, contains-keys, keys-Unique, lookup-insert}
use oc_mirror_operator.ImageState.Entry.{ImageEntry, state_failed, state_pending, state_eq}
use oc_mirror_operator.Manager.State.{MirrorManager}
use oc_mirror_operator.Manager.Ownership.{has_owner}
use oc_mirror_operator.Manager.Sweep.{is_tracked}
use oc_mirror_operator.Manager.Resync.{Reset, cleared, recollect_dest, reset_failed_for_recollect}

record View : Type 0 where
  entry : Option ImageEntry
  owned : Bool
  pod : Option String
  flag : Option Bool

abbrev view : String → String → Reset → View
view is_name j r = record {
  entry = lookup j r.manager.image_state;
  owned = has_owner r.manager.owners j is_name;
  pod = lookup j r.manager.in_progress;
  flag = lookup j r.manager.mirrored;
}

abbrev retried : View → ImageEntry → ImageEntry
retried v e =
    if state_eq e.state state_failed && v.owned && not (is_tracked v.pod) then cleared e else e

abbrev recollect_view : View → Option ImageEntry → View
recollect_view v none = v
recollect_view v (some e) = record v { entry = some (retried v e) }

recollect_elsewhere :
    (is_name d j : String) (r : Reset)
    → (d == j) ≡ false
    → view is_name j (recollect_dest is_name d r) ≡ view is_name j r
unfolding recollect_dest
recollect_elsewhere is_name d j r other = elim (Option-cases (lookup d r.manager.image_state)) [
  | inl missing ↦ ground arith
  | inr (e, found) ↦ ground (arith, lookup-insert d j (cleared e) r.manager.image_state)
]

recollect_here :
    (is_name d : String) (r : Reset)
    → view is_name d (recollect_dest is_name d r)
      ≡ recollect_view (view is_name d r) (lookup d r.manager.image_state)
unfolding recollect_dest
recollect_here is_name d r = elim (Option-cases (lookup d r.manager.image_state)) [
  | inl missing ↦ ground arith
  | inr (e, found) ↦ ground (arith, eq_refl d, lookup-insert d d (cleared e) r.manager.image_state)
]

-- A recollect of an ImageSet makes each of its failed images Pending, with no retry counted, no
-- backoff and no error, unless the image is in progress; the permanent-failure mark stays. Every
-- other image, mirrored ones included, keeps its entry, and no fast-path flag changes.
pub recollect_effect :
    (is_name : String) (m : MirrorManager) (j : String) (e : ImageEntry)
    → Distinct m.image_state
    → lookup j m.image_state ≡ some e
    → let after = (reset_failed_for_recollect is_name m).manager in
      let hit =
        state_eq e.state state_failed
        && has_owner m.owners j is_name
        && not (is_tracked (lookup j m.in_progress)) in
      (lookup j after.image_state
        ≡ some (
            if hit
            then record e {
              state = state_pending;
              retry_count = 0;
              next_retry_at = none;
              last_error = "";
            }
            else e))
      × (lookup j after.mirrored ≡ lookup j m.mirrored)
unfolding reset_failed_for_recollect
recollect_effect is_name m j e distinct known =
    let start : Reset = record { manager = m; changed = false } in
    let v =
      for_each_present (recollect_dest is_name) (view is_name)
        (λ d j r other. recollect_elsewhere is_name d j r other) (λ d v. recollect_view v v.entry)
        (recollect_here is_name) (keys m.image_state) start j (keys-Unique m.image_state distinct)
        (contains-keys m.image_state j ∙ ap is_some known)
      ∙ ap (recollect_view (view is_name j start)) known in
    (ap (λ w. w.entry) v, ap (λ w. w.flag) v)
