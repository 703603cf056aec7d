-- ===== src/Manager/Drift/Flags.antt =====
-- The drift check and the fast-path flag.
use oc_mirror_operator.Base.{
  if_both, subst, ◌∙◌, ℕ, String, ◌≡◌, refl, Bool, true, false, Option, none, some, ◌&&◌, arith,
  eq_refl, if◌then◌else◌, Option-cases, Bool-cases, inl, inr,
}
use oc_mirror_operator.Base.Dict.{
  Dict, lookup, lookup-insert, lookup-remove, Distinct, insert-Distinct,
}
use oc_mirror_operator.ImageState.Entry.{ImageEntry, state_mirrored, state_pending, state_eq_iff}
use oc_mirror_operator.Manager.State.{MirrorManager, Tick}
use oc_mirror_operator.Manager.Sweep.{no_owner, is_flagged, is_tracked, sweep, dispatch_order}
use oc_mirror_operator.Manager.Sweep.Local.{occurrences}
use oc_mirror_operator.Manager.Sweep.Outcome.{sweep_dispatches_once}
use oc_mirror_operator.Manager.Drift.{
  Registry, Presence, unknown, present, absent, Signature, unchecked, valid, invalid, Snapshot,
  begin, check_drift_attempt, finish, finish_mirrored, finish_recovery, apply_signature_result,
  same_entry, to_pending, with_digest, has_drifted, asked_digest, asked_signature, put_unmirrored,
  put, flag, record_baseline, finish_entry, is_unknown,
}

-- An image that is Mirrored, owned and not in progress, and that the check finds missing in the
-- target registry, is dispatched once by the next pass.
pub missing_image_is_dispatched :
    (t : Tick) (now : ℕ) (require_signed : Dict Bool) (dest : String) (inconclusive : Bool)
    (r : Registry) (m : MirrorManager) (e : ImageEntry)
    → Distinct m.image_state
    → lookup dest m.image_state ≡ some e
    → e.state ≡ state_mirrored
    → no_owner (lookup dest m.owners) ≡ false
    → is_tracked (lookup dest m.in_progress) ≡ false
    → r.presence ≡ absent
    → let m' = (check_drift_attempt t require_signed dest inconclusive r m m).0 in
      occurrences dest (dispatch_order (sweep now m')) ≡ 1
unfolding check_drift_attempt begin finish finish_mirrored
missing_image_is_dispatched t now require_signed dest inconclusive r m e d known mirrored owned free
      gone =
    let m' = put_unmirrored dest (to_pending e) m in
    let after : (check_drift_attempt t require_signed dest inconclusive r m m).0 ≡ m' =
      elim (Bool-cases e.permanently_failed) [
        | inl marked ↦ ground (arith, eq_refl e.source)
        | inr unmarked ↦ ground (arith, eq_refl e.source)
      ] in
    let there : lookup dest m'.image_state ≡ some (to_pending e) =
      ground (arith, eq_refl dest, lookup-insert dest dest (to_pending e) m.image_state) in
    let d' : Distinct m'.image_state = insert-Distinct dest (to_pending e) m.image_state d in
    let unflagged : is_flagged (lookup dest m'.mirrored) ≡ false =
      ground (arith, eq_refl dest, lookup-remove dest dest m.mirrored) in
    rw after (
      ground
        (arith, unflagged, owned, free, sweep_dispatches_once now m' dest (to_pending e) d' there))

-- the flag is set for a Mirrored image only
abbrev pub FlagSound : String → MirrorManager → Type 0
FlagSound dest m =
    (e : ImageEntry)
    → lookup dest m.image_state ≡ some e
    → is_flagged (lookup dest m.mirrored) ≡ true
    → e.state ≡ state_mirrored

put-FlagSound :
    (dest : String) (e : ImageEntry) (m : MirrorManager)
    → (is_flagged (lookup dest m.mirrored) ≡ true → e.state ≡ state_mirrored)
    → FlagSound dest (put dest e m)
put-FlagSound dest e m sound e' found flagged =
    ground (arith, eq_refl dest, lookup-insert dest dest e m.image_state, sound flagged)

put_unmirrored-FlagSound :
    (dest : String) (e : ImageEntry) (m : MirrorManager) → FlagSound dest (put_unmirrored dest e m)
put_unmirrored-FlagSound dest e m e' found flagged =
    ground (arith, eq_refl dest, lookup-remove dest dest m.mirrored)

apply_signature_result-FlagSound :
    (t : Tick) (dest : String) (sig : Signature) (e : ImageEntry) (m : MirrorManager)
    → e.state ≡ state_mirrored
    → FlagSound dest m
    → FlagSound dest (apply_signature_result t dest sig e m)
unfolding apply_signature_result
apply_signature_result-FlagSound t dest unchecked e m mirrored sound = sound
apply_signature_result-FlagSound t dest valid e m mirrored sound =
    put-FlagSound dest (record e { signature_verified = true }) m (λ _. mirrored)
apply_signature_result-FlagSound t dest (invalid err) e m mirrored sound =
    λ e' found flagged. ground (arith, eq_refl dest, lookup-insert dest dest false m.mirrored)

-- an entry that is Mirrored makes any flag sound
Mirrored-FlagSound :
    (dest : String) (m : MirrorManager) (e : ImageEntry)
    → lookup dest m.image_state ≡ some e
    → e.state ≡ state_mirrored
    → FlagSound dest m
Mirrored-FlagSound dest m e known mirrored e' found flagged = ground arith

baseline-FlagSound :
    (dest : String) (digest : Option String) (e : ImageEntry) (m : MirrorManager)
    → lookup dest m.image_state ≡ some e
    → e.state ≡ state_mirrored
    → FlagSound dest (flag dest true (record_baseline dest digest e m))
baseline-FlagSound dest none e m known mirrored e' found flagged = ground arith
baseline-FlagSound dest (some digest) e m known mirrored e' found flagged = ground (
  arith,
  eq_refl dest,
  lookup-insert dest dest (record e { source_digest = digest }) m.image_state,
)

with_digest-state :
    (digest : Option String) (e : ImageEntry) → (with_digest digest e).state ≡ e.state
with_digest-state none e = refl
with_digest-state (some digest) e = refl

finish_mirrored-FlagSound :
    (t : Tick) (dest : String) (presence : Presence) (digest : Option String) (sig : Signature)
    (e : ImageEntry) (m : MirrorManager)
    → lookup dest m.image_state ≡ some e
    → e.state ≡ state_mirrored
    → FlagSound dest (finish_mirrored t dest presence digest sig e m)
unfolding finish_mirrored
finish_mirrored-FlagSound t dest unknown digest sig e m known mirrored =
    Mirrored-FlagSound dest (flag dest true m) e known mirrored
finish_mirrored-FlagSound t dest absent digest sig e m known mirrored =
    put_unmirrored-FlagSound dest (to_pending e) m
finish_mirrored-FlagSound t dest present digest sig e m known mirrored =
    let m' = flag dest true (record_baseline dest digest e m) in
    let base = baseline-FlagSound dest digest e m known mirrored in
    if_both (FlagSound dest) (has_drifted digest e)
      (put_unmirrored dest (to_pending (with_digest digest e)) m)
      (if e.signature_verified
        then m'
        else apply_signature_result t dest sig (with_digest digest e) m')
      (put_unmirrored-FlagSound dest (to_pending (with_digest digest e)) m)
      (if_both (FlagSound dest) e.signature_verified m'
        (apply_signature_result t dest sig (with_digest digest e) m') base
        (apply_signature_result-FlagSound t dest sig (with_digest digest e) m'
          (with_digest-state digest e ∙ mirrored) base))

finish_recovery-FlagSound :
    (dest : String) (presence : Presence) (e : ImageEntry) (m : MirrorManager)
    → FlagSound dest m
    → FlagSound dest (finish_recovery dest presence e m)
unfolding finish_recovery
finish_recovery-FlagSound dest unknown e m sound = sound
finish_recovery-FlagSound dest present e m sound =
    put-FlagSound dest (record e { state = state_mirrored; last_error = "" }) (flag dest true m)
      (λ _. refl)
finish_recovery-FlagSound dest absent e m sound =
    put_unmirrored-FlagSound dest
      (record e { state = state_pending; retry_count = 0; next_retry_at = none }) m

finish_entry-FlagSound :
    (t : Tick) (dest : String) (snap : Snapshot) (r : Registry) (e : ImageEntry) (m : MirrorManager)
    → lookup dest m.image_state ≡ some e
    → (snap.recovery_check ≡ false → snap.entry.state ≡ state_mirrored)
    → FlagSound dest m
    → FlagSound dest (finish_entry t dest snap r e m)
finish_entry-FlagSound t dest snap r e m known checked sound =
    let after = finish_entry t dest snap r e m in
    elim (Bool-cases (same_entry e snap.entry)) [
      | inl same ↦ elim (Bool-cases snap.recovery_check) [
        | inl recovery ↦
            let m' = finish_recovery dest r.presence e m in
            let eq : m' ≡ after = ground arith in
            subst (FlagSound dest) eq (finish_recovery-FlagSound dest r.presence e m sound)
        | inr regular ↦
            let mirrored : e.state ≡ state_mirrored =
              ground (arith, checked regular, state_eq_iff e.state snap.entry.state) in
            let digest = asked_digest snap r in
            let sig = asked_signature snap r in
            let m' = finish_mirrored t dest r.presence digest sig e m in
            let eq : m' ≡ after = ground arith in
            subst (FlagSound dest) eq
              (finish_mirrored-FlagSound t dest r.presence digest sig e m known mirrored)
      ]
      | inr changed ↦ let eq : m ≡ after = ground arith in subst (FlagSound dest) eq sound
    ]

snapshot_mirrored :
    (m : MirrorManager) (require_signed : Dict Bool) (dest : String) (snap : Snapshot)
    → begin m require_signed dest ≡ some snap
    → snap.recovery_check ≡ false
    → snap.entry.state ≡ state_mirrored
unfolding begin
snapshot_mirrored m require_signed dest snap begun regular =
    elim (Option-cases (lookup dest m.image_state)) [
      | inl missing ↦ ground arith
      | inr (e, found) ↦ ground (arith, state_eq_iff e.state state_mirrored)
    ]

-- what holds of the state, and of it after the second part for a checked entry, holds after the
-- drift check
pub check_drift_attempt_cases :
    (P : MirrorManager → Type 0) (t : Tick) (require_signed : Dict Bool) (dest : String)
    (inconclusive : Bool) (r : Registry) (before m : MirrorManager)
    → P m
    → ((snap : Snapshot) (e : ImageEntry)
        → lookup dest m.image_state ≡ some e
        → (snap.recovery_check ≡ false → snap.entry.state ≡ state_mirrored)
        → P (finish_entry t dest snap r e m))
    → P (check_drift_attempt t require_signed dest inconclusive r before m).0
unfolding check_drift_attempt finish
check_drift_attempt_cases P t require_signed dest inconclusive r before m same finished =
    let after = (check_drift_attempt t require_signed dest inconclusive r before m).0 in
    elim (Option-cases (begin before require_signed dest)) [
      | inl nothing ↦ let eq : m ≡ after = ground arith in subst P eq same
      | inr (snap, begun) ↦ elim (Bool-cases (inconclusive && is_unknown r.presence)) [
        | inl later ↦ let eq : m ≡ after = ground arith in subst P eq same
        | inr answered ↦ elim (Option-cases (lookup dest m.image_state)) [
          | inl gone ↦ let eq : m ≡ after = ground arith in subst P eq same
          | inr (e, found) ↦
              let m' = finish_entry t dest snap r e m in
              let eq : m' ≡ after = ground arith in
              subst P eq
                (finished snap e found (snapshot_mirrored before require_signed dest snap begun))
        ]
      ]
    ]

-- The drift check keeps the fast-path flag sound on every branch, whatever happened while the
-- registry was asked: if no image but a Mirrored one had its flag set, this still holds of the
-- destination that was checked.
pub drift_keeps_FlagSound :
    (t : Tick) (require_signed : Dict Bool) (dest : String) (inconclusive : Bool) (r : Registry)
    (before m : MirrorManager)
    → FlagSound dest m
    → FlagSound dest (check_drift_attempt t require_signed dest inconclusive r before m).0
drift_keeps_FlagSound t require_signed dest inconclusive r before m sound =
    check_drift_attempt_cases (FlagSound dest) t require_signed dest inconclusive r before m sound
      (λ snap e found checked. finish_entry-FlagSound t dest snap r e m found checked sound)
