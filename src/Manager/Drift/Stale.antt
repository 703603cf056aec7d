-- ===== src/Manager/Drift/Stale.antt =====
-- A drift check whose destination changed while the registry was asked is dropped.
use oc_mirror_operator.Base.{
  String, ◌≡◌, ◌≢◌, ◌⊎◌, Bool, false, none, some, arith, eq_iff, inl, inr,
}
use oc_mirror_operator.Base.Dict.{Dict, lookup}
use oc_mirror_operator.ImageState.Entry.{ImageEntry, state_eq_iff}
use oc_mirror_operator.Manager.State.{MirrorManager, Tick}
use oc_mirror_operator.Manager.Drift.{Registry, begin, check_drift_attempt, same_entry}

-- the two entries differ in a field that the check compares
abbrev pub Changed : ImageEntry → ImageEntry → Type 0
Changed e e' =
    (e'.state ≢ e.state) ⊎ (e'.permanently_failed ≢ e.permanently_failed) ⊎ (e'.source ≢ e.source)

Changed-same_entry : (e e' : ImageEntry) → Changed e e' → same_entry e' e ≡ false
Changed-same_entry e e' changed = elim changed [
  | inl state ↦ ground (arith, state_eq_iff e'.state e.state)
  | inr (inl mark) ↦ ground arith
  | inr (inr source) ↦ ground (arith, eq_iff e'.source e.source)
]

-- If the state, the permanent-failure mark or the source of the entry changed while the registry
-- was asked, or the entry is gone, the check leaves the manager as it finds it, whatever the
-- registry said.
pub stale_check_is_dropped :
    (t : Tick) (require_signed : Dict Bool) (dest : String) (inconclusive : Bool) (r : Registry)
    (before m : MirrorManager) (e : ImageEntry)
    → lookup dest before.image_state ≡ some e
    → (lookup dest m.image_state ≡ none)
      ⊎ ((e' : ImageEntry) × (lookup dest m.image_state ≡ some e') × Changed e e')
    → (check_drift_attempt t require_signed dest inconclusive r before m).0 ≡ m
unfolding check_drift_attempt begin
stale_check_is_dropped t require_signed dest inconclusive r before m e known change = elim change [
  | inl gone ↦ ground arith
  | inr (e', found, changed) ↦ ground (arith, Changed-same_entry e e' changed)
]
