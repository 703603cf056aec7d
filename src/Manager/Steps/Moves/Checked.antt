-- ===== src/Manager/Steps/Moves/Checked.antt =====
-- The moves of the drift check.
use oc_mirror_operator.Base.{
  String, Bool, true, false, Option, none, some, ◌≡◌, ◌==◌, ◌&&◌, arith, eq_refl, if◌then◌else◌,
  if_both, Bool-cases, text-cases, inl, inr, refl, subst, sym, ◌∙◌, ap,
}
use oc_mirror_operator.Base.Dict.{Dict, lookup, insert, remove, lookup-insert, lookup-remove}
use oc_mirror_operator.ImageState.Entry.{ImageEntry, state_mirrored, state_pending, state_eq_iff}
use oc_mirror_operator.Manager.State.{MirrorManager, Tick}
use oc_mirror_operator.Manager.Retry.{record_failure}
use oc_mirror_operator.Manager.Drift.{
  Presence, present, absent, unknown, Signature, unchecked, valid, invalid, Registry, Snapshot, put,
  flag, put_unmirrored, to_pending, finish_recovery, apply_signature_result, with_digest,
  record_baseline, has_drifted, finish_mirrored, finish_entry, asked_digest, asked_signature,
  same_entry, check_drift_attempt,
}
use oc_mirror_operator.Manager.Drift.Flags.{check_drift_attempt_cases}
use oc_mirror_operator.Manager.Steps.{is_present}
use oc_mirror_operator.Manager.Steps.Lifecycle.{lifecycle, seen, Allowed, Allowed-refl}

-- a step that is about one known image, whose permanent failure it keeps
record Touches (dest : String) (given_up : Bool) (m m' : MirrorManager) : Type 0 where
  elsewhere : (j : String) → (dest == j) ≡ false → lifecycle j m' ≡ lifecycle j m
  entry : ImageEntry
  found : lookup dest m'.image_state ≡ some entry
  keeps : given_up ≡ true → entry.permanently_failed ≡ true

module _ (dest : String) (given_up : Bool) (m : MirrorManager) where
  Touches-refl :
      (e : ImageEntry)
      → lookup dest m.image_state ≡ some e
      → (given_up ≡ true → e.permanently_failed ≡ true)
      → Touches dest given_up m m
  Touches-refl e found keeps = record {
    elsewhere = λ j n. refl;
    entry = e;
    found = found;
    keeps = keeps;
  }

  put-Touches :
      (e : ImageEntry) (m' : MirrorManager)
      → (given_up ≡ true → e.permanently_failed ≡ true)
      → Touches dest given_up m m'
      → Touches dest given_up m (put dest e m')
  put-Touches e m' keeps t = record {
    elsewhere = λ j n.
        let eq : lookup j (insert dest e m'.image_state) ≡ lookup j m'.image_state =
          ground (arith, n, lookup-insert dest j e m'.image_state) in
        ap (λ x. seen x (lookup j m'.mirrored)) eq ∙ t.elsewhere j n;
    entry = e;
    found = ground (arith, eq_refl dest, lookup-insert dest dest e m'.image_state);
    keeps = keeps;
  }

  flag-Touches :
      (b : Bool) (m' : MirrorManager)
      → Touches dest given_up m m'
      → Touches dest given_up m (flag dest b m')
  flag-Touches b m' t = record {
    elsewhere = λ j n.
        let eq : lookup j (insert dest b m'.mirrored) ≡ lookup j m'.mirrored =
          ground (arith, n, lookup-insert dest j b m'.mirrored) in
        ap (seen (lookup j m'.image_state)) eq ∙ t.elsewhere j n;
    entry = t.entry;
    found = t.found;
    keeps = t.keeps;
  }

  unflag-Touches :
      (m' : MirrorManager)
      → Touches dest given_up m m'
      → Touches dest given_up m (record m' { mirrored = remove dest m'.mirrored })
  unflag-Touches m' t = record {
    elsewhere = λ j n.
        let eq : lookup j (remove dest m'.mirrored) ≡ lookup j m'.mirrored =
          ground (arith, n, lookup-remove dest j m'.mirrored) in
        ap (seen (lookup j m'.image_state)) eq ∙ t.elsewhere j n;
    entry = t.entry;
    found = t.found;
    keeps = t.keeps;
  }

  put_unmirrored-Touches :
      (e : ImageEntry) (m' : MirrorManager)
      → (given_up ≡ true → e.permanently_failed ≡ true)
      → Touches dest given_up m m'
      → Touches dest given_up m (put_unmirrored dest e m')
  put_unmirrored-Touches e m' keeps t =
      let p = unflag-Touches (put dest e m') (put-Touches e m' keeps t) in
      record { elsewhere = p.elsewhere; entry = p.entry; found = p.found; keeps = p.keeps }

  apply_signature_result-Touches :
      (t : Tick) (sig : Signature) (e : ImageEntry) (m' : MirrorManager)
      → (given_up ≡ true → e.permanently_failed ≡ true)
      → Touches dest given_up m m'
      → Touches dest given_up m (apply_signature_result t dest sig e m')
  unfolding apply_signature_result
  apply_signature_result-Touches t unchecked e m' keeps p = p
  apply_signature_result-Touches t valid e m' keeps p =
      put-Touches (record e { signature_verified = true }) m' keeps p
  apply_signature_result-Touches t (invalid err) e m' keeps p =
      put-Touches _ (flag dest false (record m' { status_dirty = true }))
        (λ h. unfold record_failure in ground (arith, keeps h))
        (flag-Touches false (record m' { status_dirty = true })
          (record { elsewhere = p.elsewhere; entry = p.entry; found = p.found; keeps = p.keeps }))

  baseline-Touches :
      (digest : Option String) (e : ImageEntry)
      → lookup dest m.image_state ≡ some e
      → (given_up ≡ true → e.permanently_failed ≡ true)
      → Touches dest given_up m (record_baseline dest digest e m)
  baseline-Touches none e found keeps = Touches-refl e found keeps
  baseline-Touches (some digest) e found keeps =
      if_both (Touches dest given_up m) (e.source_digest == digest) m
        (put dest (record e { source_digest = digest }) m) (Touches-refl e found keeps)
        (put-Touches (record e { source_digest = digest }) m keeps (Touches-refl e found keeps))

  with_digest_keeps :
      (digest : Option String) (e : ImageEntry)
      → (with_digest digest e).permanently_failed ≡ e.permanently_failed
  with_digest_keeps none e = refl
  with_digest_keeps (some digest) e = refl

  finish_mirrored-Touches :
      (t : Tick) (presence : Presence) (digest : Option String) (sig : Signature) (e : ImageEntry)
      → lookup dest m.image_state ≡ some e
      → (given_up ≡ true → e.permanently_failed ≡ true)
      → Touches dest given_up m (finish_mirrored t dest presence digest sig e m)
  unfolding finish_mirrored
  finish_mirrored-Touches t unknown digest sig e found keeps =
      flag-Touches true m (Touches-refl e found keeps)
  finish_mirrored-Touches t absent digest sig e found keeps =
      put_unmirrored-Touches (to_pending e) m keeps (Touches-refl e found keeps)
  finish_mirrored-Touches t present digest sig e found keeps =
      let m' = flag dest true (record_baseline dest digest e m) in
      let new = with_digest digest e in
      let keeps' : given_up ≡ true → new.permanently_failed ≡ true =
        λ h. with_digest_keeps digest e ∙ keeps h in
      let base =
        flag-Touches true (record_baseline dest digest e m)
          (baseline-Touches digest e found keeps) in
      let signed = apply_signature_result t dest sig new m' in
      if_both (Touches dest given_up m) (has_drifted digest e)
        (put_unmirrored dest (to_pending new) m) (if e.signature_verified then m' else signed)
        (put_unmirrored-Touches (to_pending new) m keeps' (Touches-refl e found keeps))
        (if_both (Touches dest given_up m) e.signature_verified m' signed base
          (apply_signature_result-Touches t sig new m' keeps' base))

  finish_recovery-Touches :
      (presence : Presence) (e : ImageEntry)
      → lookup dest m.image_state ≡ some e
      → (given_up ≡ true → e.permanently_failed ≡ true)
      → Touches dest given_up m (finish_recovery dest presence e m)
  unfolding finish_recovery
  finish_recovery-Touches unknown e found keeps = Touches-refl e found keeps
  finish_recovery-Touches present e found keeps =
      put-Touches (record e { state = state_mirrored; last_error = "" }) (flag dest true m) keeps
        (flag-Touches true m (Touches-refl e found keeps))
  finish_recovery-Touches absent e found keeps =
      put_unmirrored-Touches
        (record e { state = state_pending; retry_count = 0; next_retry_at = none }) m keeps
        (Touches-refl e found keeps)

-- a step about an image that was believed mirrored, or with an event that vouches for it, or after
-- which it is not believed mirrored
Touches-Allowed :
    (dest : String) (vouching : Bool) (e : ImageEntry) (m m' : MirrorManager) (j : String)
    → lookup dest m.image_state ≡ some e
    → (vouching ≡ false → (lifecycle dest m').claimed ≡ true → (lifecycle dest m).claimed ≡ true)
    → Touches dest e.permanently_failed m m'
    → Allowed false (dest == j && vouching) (lifecycle j m) (lifecycle j m')
Touches-Allowed dest vouching e m m' j found claims t = elim (text-cases dest j) [
  | inr (n, _) ↦
      subst (Allowed false (dest == j && vouching) (lifecycle j m)) (sym (t.elsewhere j n))
        (Allowed-refl (lifecycle j m))
  | inl (y, same) ↦
      subst (λ x. Allowed false (dest == j && vouching) (lifecycle x m) (lifecycle x m')) same
        (record {
          known = λ h k. ground (arith, found);
          claimed = λ h k. claims (ground (arith, h, y)) k;
          given_up = λ h k. ground (arith, h, t.found, t.keeps, found);
        })
]

recovery_claims :
    (dest : String) (presence : Presence) (e : ImageEntry) (m : MirrorManager)
    → is_present presence ≡ false
    → (lifecycle dest (finish_recovery dest presence e m)).claimed ≡ true
    → (lifecycle dest m).claimed ≡ true
unfolding finish_recovery
recovery_claims dest present e m h k = ground (arith, h)
recovery_claims dest unknown e m h k = k
recovery_claims dest absent e m h k =
    let e' = record e { state = state_pending; retry_count = 0; next_retry_at = none } in
    ground (
      arith,
      k,
      eq_refl dest,
      lookup-insert dest dest e' m.image_state,
      lookup-remove dest dest m.mirrored,
    )

finish_entry-Allowed :
    (t : Tick) (dest : String) (snap : Snapshot) (r : Registry) (e : ImageEntry) (m : MirrorManager)
    (j : String)
    → lookup dest m.image_state ≡ some e
    → (snap.recovery_check ≡ false → snap.entry.state ≡ state_mirrored)
    → Allowed false
        (dest == j && is_present r.presence)
        (lifecycle j m)
        (lifecycle j (finish_entry t dest snap r e m))
finish_entry-Allowed t dest snap r e m j found checked =
    let after = finish_entry t dest snap r e m in
    let P : MirrorManager → Type 0 =
      λ x. Allowed false (dest == j && is_present r.presence) (lifecycle j m) (lifecycle j x) in
    elim (Bool-cases (same_entry e snap.entry)) [
      | inr changed ↦ let eq : m ≡ after = ground arith in subst P eq (Allowed-refl (lifecycle j m))
      | inl same ↦ elim (Bool-cases snap.recovery_check) [
        | inl recovery ↦
            let m' = finish_recovery dest r.presence e m in
            let eq : m' ≡ after = ground arith in
            subst P eq (
              Touches-Allowed dest (is_present r.presence) e m m' j found
                (recovery_claims dest r.presence e m)
                (finish_recovery-Touches dest e.permanently_failed m r.presence e found (λ h. h)))
        | inr regular ↦
            let mirrored : e.state ≡ state_mirrored =
              ground (arith, checked regular, state_eq_iff e.state snap.entry.state) in
            let digest = asked_digest snap r in
            let sig = asked_signature snap r in
            let m' = finish_mirrored t dest r.presence digest sig e m in
            let eq : m' ≡ after = ground arith in
            subst P eq (
              Touches-Allowed dest (is_present r.presence) e m m' j found
                (λ h k. ground (arith, found, mirrored))
                (finish_mirrored-Touches dest e.permanently_failed m t r.presence digest sig e found
                  (λ h. h)))
      ]
    ]

pub check_drift_attempt-Allowed :
    (t : Tick) (require_signed : Dict Bool) (dest : String) (inconclusive : Bool) (r : Registry)
    (before m : MirrorManager) (j : String)
    → Allowed false
        (dest == j && is_present r.presence)
        (lifecycle j m)
        (lifecycle j (check_drift_attempt t require_signed dest inconclusive r before m).0)
check_drift_attempt-Allowed t require_signed dest inconclusive r before m j =
    check_drift_attempt_cases
      (λ x. Allowed false (dest == j && is_present r.presence) (lifecycle j m) (lifecycle j x)) t
      require_signed dest inconclusive r before m (Allowed-refl (lifecycle j m))
      (λ snap e found checked. finish_entry-Allowed t dest snap r e m j found checked)
