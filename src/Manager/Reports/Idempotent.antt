-- ===== src/Manager/Reports/Idempotent.antt =====
-- A worker sends a report up to three times until it is acknowledged (pkg/mirror/worker/status.go
-- relies on the handler being idempotent): a second delivery changes nothing.
use oc_mirror_operator.Base.{
  ℕ, String, ◌≡◌, refl, true, false, none, some, ◌==◌, not, arith, eq_refl, Bool-cases,
  Option-cases, inl, inr, subst,
}
use oc_mirror_operator.Base.Dict.{lookup, insert_same, remove_absent, lookup-insert, lookup-remove}
use oc_mirror_operator.ImageState.Entry.{
  EntryState, ImageEntry, state_mirrored, state_failed, state_eq,
}
use oc_mirror_operator.Manager.State.{MirrorManager, StatusRequest, Tick}
use oc_mirror_operator.Manager.Retry.{effective_max_retries}
use oc_mirror_operator.Manager.Reports.{
  set_image_state, already_set, moved_entry, flag_known, record_digest, takes_digest, apply_status,
}
use oc_mirror_operator.Manager.Reports.Effect.{
  lookup-apply_status, reported_entry, set_entry, lookup-set_image_state, flag_known_image_state,
  flag_known_budget,
}

-- every operation that finds its work done leaves the state as it is
set_image_state_settled :
    (t : Tick) (dest : String) (st : EntryState) (err : String) (m : MirrorManager)
    → ((e : ImageEntry) → lookup dest m.image_state ≡ some e → already_set st err e ≡ true)
    → set_image_state t dest st err m ≡ m
unfolding set_image_state
set_image_state_settled t dest st err m h = elim (Option-cases (lookup dest m.image_state)) [
  | inl e ↦ ground arith
  | inr (e, p) ↦ let done = h e p in ground arith
]

flag_known_settled :
    (dest : String) (m : MirrorManager)
    → ((e : ImageEntry) → lookup dest m.image_state ≡ some e → lookup dest m.mirrored ≡ some true)
    → flag_known dest m ≡ m
unfolding flag_known
flag_known_settled dest m h = elim (Option-cases (lookup dest m.image_state)) [
  | inl e ↦ ground arith
  | inr (e, p) ↦ ground (arith, insert_same dest true m.mirrored (h e p))
]

record_digest_settled :
    (dest digest : String) (m : MirrorManager)
    → ((e : ImageEntry)
        → lookup dest m.image_state ≡ some e
        → takes_digest digest e ≡ true
        → (e.source_digest ≡ digest) × (m.state_dirty ≡ true))
    → record_digest dest digest m ≡ m
unfolding record_digest
record_digest_settled dest digest m h = elim (Option-cases (lookup dest m.image_state)) [
  | inl e ↦ ground arith
  | inr (e, p) ↦ elim (Bool-cases (takes_digest digest e)) [
    | inl takes ↦
        let (same, dirty) = h e p takes in
        ground (arith, insert_same dest (record e { source_digest = digest }) m.image_state)
    | inr leaves ↦ ground arith
  ]
]

record_digest_mirrored :
    (dest digest : String) (m : MirrorManager) → (record_digest dest digest m).mirrored ≡ m.mirrored
unfolding record_digest
record_digest_mirrored dest digest m = ground arith

set_mirrored_flags :
    (t : Tick) (dest : String) (m : MirrorManager)
    → (set_image_state t dest state_mirrored "" m).mirrored ≡ m.mirrored
unfolding set_image_state
set_mirrored_flags t dest m = ground arith

flag_known_sets :
    (dest : String) (m : MirrorManager) (e : ImageEntry)
    → lookup dest m.image_state ≡ some e
    → lookup dest (flag_known dest m).mirrored ≡ some true
unfolding flag_known
flag_known_sets dest m e known =
    ground (arith, lookup-insert dest dest true m.mirrored, eq_refl dest)

record_digest_dirty :
    (dest digest : String) (m : MirrorManager) (e : ImageEntry)
    → lookup dest m.image_state ≡ some e
    → takes_digest digest e ≡ true
    → (record_digest dest digest m).state_dirty ≡ true
unfolding record_digest
record_digest_dirty dest digest m e known takes = ground arith

moved_entry_marks :
    (t : Tick) (budget : ℕ) (st : EntryState) (err : String) (e : ImageEntry)
    → let e' = moved_entry t budget st err e in (e'.state ≡ st) × (e'.last_error ≡ err)
unfolding moved_entry
moved_entry_marks t budget st err e = elim (Bool-cases (state_eq st state_failed)) [
  | inl y ↦ rw y (refl, refl)
  | inr n ↦ rw n (refl, refl)
]

already_set_of :
    (st : EntryState) (err : String) (e : ImageEntry)
    → e.state ≡ st
    → e.last_error ≡ err
    → state_eq st st ≡ true
    → already_set st err e ≡ true
unfolding already_set
already_set_of st err e p q self = rw (p, q) (rw (self, eq_refl))

set_entry_settled :
    (t : Tick) (budget : ℕ) (st : EntryState) (err : String) (e : ImageEntry)
    → state_eq st st ≡ true
    → already_set st err (set_entry t budget st err e) ≡ true
set_entry_settled t budget st err e self = elim (Bool-cases (already_set st err e)) [
  | inl y ↦ rw y y
  | inr n ↦
      let (p, q) = moved_entry_marks t budget st err e in
      rw n (already_set_of st err (moved_entry t budget st err e) p q self)
]

-- the settled tests hold of an entry after its report
reported_entry_settled :
    (t : Tick) (budget : ℕ) (req : StatusRequest) (e : ImageEntry)
    → let e' = reported_entry t budget req e in
      (not (req.error == "") ≡ true → already_set state_failed req.error e' ≡ true)
      × (not (req.error == "") ≡ false → already_set state_mirrored "" e' ≡ true)
      × (not (req.error == "") ≡ false
          → takes_digest req.digest e' ≡ true
          → e'.source_digest ≡ req.digest)
unfolding reported_entry already_set
reported_entry_settled t budget req e = ground (
  arith,
  set_entry_settled t budget state_failed req.error e refl,
  set_entry_settled t budget state_mirrored "" e refl,
)

-- the entry that a report leaves is the reported one
module _ (t : Tick) (req : StatusRequest) (m : MirrorManager) (e : ImageEntry)
    (after : lookup req.destination (apply_status t req m).image_state ≡ some e) where
  reported_from :
      (e₀ : ImageEntry) × (lookup req.destination m.image_state ≡ some e₀)
      × (reported_entry t (effective_max_retries m) req e₀ ≡ e)
  reported_from =
      let seen = lookup-apply_status t req m req.destination in
      elim (Option-cases (lookup req.destination m.image_state)) [
        | inl none_before ↦ absurd (ground (arith, eq_refl req.destination))
        | inr (e₀, before) ↦ (e₀, before, ground (arith, eq_refl req.destination))
      ]

takes_same :
    (t : Tick) (budget : ℕ) (req : StatusRequest) (e : ImageEntry)
    → not (req.error == "") ≡ false
    → takes_digest req.digest (reported_entry t budget req e) ≡ true
    → takes_digest req.digest (set_entry t budget state_mirrored "" e) ≡ true
unfolding reported_entry takes_digest
takes_same t budget req e fine takes =
    elim (Bool-cases (takes_digest req.digest (set_entry t budget state_mirrored "" e))) [
      | inl y ↦ y
      | inr n ↦ absurd (ground arith)
    ]

-- what the second delivery finds at its destination
abbrev Settled : StatusRequest → MirrorManager → ImageEntry → Type 0
Settled req m e =
    (not (req.error == "") ≡ true → already_set state_failed req.error e ≡ true)
    × (not (req.error == "") ≡ false → already_set state_mirrored "" e ≡ true)
    × (not (req.error == "") ≡ false → lookup req.destination m.mirrored ≡ some true)
    × (not (req.error == "") ≡ false
        → takes_digest req.digest e ≡ true
        → (e.source_digest ≡ req.digest) × (m.state_dirty ≡ true))

Settled-again :
    (t : Tick) (req : StatusRequest) (m : MirrorManager)
    → (lookup req.destination m.in_progress ≡ none) × (m.status_dirty ≡ true)
    → ((e : ImageEntry) → lookup req.destination m.image_state ≡ some e → Settled req m e)
    → apply_status t req m ≡ m
unfolding apply_status
Settled-again t req m (free, dirty) found = elim (Bool-cases (not (req.error == ""))) [
  | inl failed ↦ rw failed (
      rw
        (set_image_state_settled t req.destination state_failed req.error m
          (λ e h. (found e h).0 failed))
        (ground (arith, remove_absent req.destination m.in_progress free)))
  | inr fine ↦ rw fine (
      rw (flag_known_settled req.destination m (λ e h. (found e h).2 fine)) (
        rw
          (set_image_state_settled t req.destination state_mirrored "" m
            (λ e h. (found e h).1 fine))
          (rw
            (record_digest_settled req.destination req.digest m
              (λ e h takes. (found e h).3 fine takes))
            (ground (arith, remove_absent req.destination m.in_progress free)))))
]

module _ (t : Tick) (req : StatusRequest) (m : MirrorManager) where
  apply_status_marks :
      let m' = apply_status t req m in
      (lookup req.destination m'.in_progress ≡ none) × (m'.status_dirty ≡ true)
  unfolding apply_status
  apply_status_marks = (rw (lookup-remove, eq_refl), refl)

  module _ (e₀ : ImageEntry) (before : lookup req.destination m.image_state ≡ some e₀)
      (fine : not (req.error == "") ≡ false) where
    succeeded_flags : lookup req.destination (apply_status t req m).mirrored ≡ some true
    unfolding apply_status
    succeeded_flags = rw fine (
        rw (record_digest_mirrored, set_mirrored_flags)
          (flag_known_sets req.destination m e₀ before))

    succeeded_dirty :
        takes_digest req.digest (set_entry t (effective_max_retries m) state_mirrored "" e₀) ≡ true
        → (apply_status t req m).state_dirty ≡ true
    unfolding apply_status
    succeeded_dirty takes = rw fine (
        record_digest_dirty req.destination req.digest
          (set_image_state t req.destination state_mirrored "" (flag_known req.destination m))
          (set_entry t (effective_max_retries m) state_mirrored "" e₀)
          (simp (lookup-set_image_state, flag_known_image_state, flag_known_budget)
            (rw (eq_refl, before) refl))
          takes)

Settled-after :
    (t : Tick) (req : StatusRequest) (m : MirrorManager) (e : ImageEntry)
    → lookup req.destination (apply_status t req m).image_state ≡ some e
    → Settled req (apply_status t req m) e
Settled-after t req m e after =
    let (e₀, before, same) = reported_from t req m e after in
    let budget = effective_max_retries m in
    subst (Settled req (apply_status t req m)) same (
      (reported_entry_settled t budget req e₀).0,
      (reported_entry_settled t budget req e₀).1,
      λ fine. succeeded_flags t req m e₀ before fine,
      λ fine takes. (
        (reported_entry_settled t budget req e₀).2 fine takes,
        succeeded_dirty t req m e₀ before fine (takes_same t budget req e₀ fine takes),
      ),
    )

-- Whatever the clock says, delivering a worker's report a second time leaves the whole manager
-- state, retry counts included, as the first delivery left it.
pub apply_status_idempotent :
    (t t' : Tick) (req : StatusRequest) (m : MirrorManager)
    → apply_status t' req (apply_status t req m) ≡ apply_status t req m
apply_status_idempotent t t' req m =
    Settled-again t' req (apply_status t req m) (apply_status_marks t req m)
      (λ e h. Settled-after t req m e h)
