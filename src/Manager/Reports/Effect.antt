-- ===== src/Manager/Reports/Effect.antt =====
-- What a worker report does to the entry of its destination, and that it touches no other.
use oc_mirror_operator.Base.{
  ℕ, String, ◌≡◌, ◌≢◌, refl, true, none, some, ◌==◌, not, arith, eq_iff, eq_refl, if◌then◌else◌,
  map_some, Bool-cases, Option-cases, inl, inr,
}
use oc_mirror_operator.Base.Dict.{lookup, lookup-insert, lookup-remove}
use oc_mirror_operator.ImageState.Entry.{EntryState, ImageEntry, state_mirrored, state_failed}
use oc_mirror_operator.Manager.State.{MirrorManager, StatusRequest, Tick}
use oc_mirror_operator.Manager.Retry.{effective_max_retries}
use oc_mirror_operator.Manager.Reports.{
  set_image_state, already_set, moved_entry, flag_known, record_digest, takes_digest, apply_status,
}

-- the entry after `set_image_state`
abbrev pub set_entry : Tick → ℕ → EntryState → String → ImageEntry → ImageEntry
set_entry t budget st last_error e =
    if already_set st last_error e then e else moved_entry t budget st last_error e

pub lookup-set_image_state :
    (t : Tick) (dest : String) (st : EntryState) (err : String) (m : MirrorManager) (j : String)
    → lookup j (set_image_state t dest st err m).image_state ≡ (
        if dest == j
        then map_some (set_entry t (effective_max_retries m) st err) (lookup j m.image_state)
        else lookup j m.image_state)
unfolding set_image_state
lookup-set_image_state t dest st err m j = elim (Option-cases (lookup dest m.image_state)) [
  | inl h ↦ ground (arith, eq_iff dest j)
  | inr (e, h) ↦ ground (
    arith,
    eq_iff dest j,
    lookup-insert dest j (moved_entry t (effective_max_retries m) st err e) m.image_state,
  )
]

pub lookup-record_digest :
    (dest digest : String) (m : MirrorManager) (j : String)
    → lookup j (record_digest dest digest m).image_state ≡ (
        if dest == j
        then map_some
            (λ e. if takes_digest digest e then record e { source_digest = digest } else e)
            (lookup j m.image_state)
        else lookup j m.image_state)
unfolding record_digest
lookup-record_digest dest digest m j = elim (Option-cases (lookup dest m.image_state)) [
  | inl h ↦ ground (arith, eq_iff dest j)
  | inr (e, h) ↦ ground (
    arith,
    eq_iff dest j,
    lookup-insert dest j (record e { source_digest = digest }) m.image_state,
  )
]

-- the fast-path flag is beside the entries
pub flag_known_image_state :
    (dest : String) (m : MirrorManager) → (flag_known dest m).image_state ≡ m.image_state
unfolding flag_known
flag_known_image_state dest m = ground arith

pub flag_known_budget :
    (dest : String) (m : MirrorManager)
    → effective_max_retries (flag_known dest m) ≡ effective_max_retries m
unfolding flag_known effective_max_retries
flag_known_budget dest m = ground arith

-- the entry of the reported destination after the report
unfoldable pub reported_entry : Tick → ℕ → StatusRequest → ImageEntry → ImageEntry
reported_entry t budget req e =
    let mirrored_entry = set_entry t budget state_mirrored "" e in
    if not (req.error == "")
    then set_entry t budget state_failed req.error e
    else if takes_digest req.digest mirrored_entry
    then record mirrored_entry { source_digest = req.digest }
    else mirrored_entry

pub lookup-apply_status :
    (t : Tick) (req : StatusRequest) (m : MirrorManager) (j : String)
    → lookup j (apply_status t req m).image_state ≡ (
        if req.destination == j
        then map_some (reported_entry t (effective_max_retries m) req) (lookup j m.image_state)
        else lookup j m.image_state)
unfolding apply_status reported_entry
lookup-apply_status t req m j = elim (Bool-cases (req.error == "")) [
  | inl e ↦ rw e (
      simp (lookup-record_digest, lookup-set_image_state, flag_known_image_state, flag_known_budget)
        (ground arith))
  | inr n ↦
      rw (reported_entry, n) (lookup-set_image_state t req.destination state_failed req.error m j)
]

pub reported_entry_fields :
    (t : Tick) (budget : ℕ) (req : StatusRequest) (e : ImageEntry)
    → let e' = reported_entry t budget req e in
      (e'.last_error ≡ req.error)
      × (e'.source ≡ e.source)
      × (e'.state ≡ (if req.error == "" then state_mirrored else state_failed))
      × (e.permanently_failed ≡ true → e'.permanently_failed ≡ true)
unfolding reported_entry moved_entry already_set
reported_entry_fields t budget req e =
    ground (arith, eq_iff req.error "", eq_iff e.last_error req.error, eq_iff e.last_error "")

-- A report of a known destination moves its entry to Mirrored with no error, or to Failed with the
-- reported error, keeps its source, never clears the permanently-failed mark, and frees the
-- destination for dispatch; no other entry changes.
pub apply_status_effect :
    (t : Tick) (req : StatusRequest) (m : MirrorManager) (e : ImageEntry)
    → lookup req.destination m.image_state ≡ some e
    → let m' = apply_status t req m in
      let e' = reported_entry t (effective_max_retries m) req e in
      (lookup req.destination m'.image_state ≡ some e')
      × (e'.last_error ≡ req.error)
      × (e'.source ≡ e.source)
      × (e'.state ≡ (if req.error == "" then state_mirrored else state_failed))
      × (e.permanently_failed ≡ true → e'.permanently_failed ≡ true)
      × (lookup req.destination m'.in_progress ≡ none)
      × ((j : String) → j ≢ req.destination → lookup j m'.image_state ≡ lookup j m.image_state)
apply_status_effect t req m e known = (
  rw lookup-apply_status (rw (eq_refl, known) refl),
  fields.0,
  fields.1,
  fields.2,
  fields.3,
  unfold apply_status in rw (lookup-remove, eq_refl),
  λ j other. rw lookup-apply_status (ground (arith, eq_iff req.destination j)),
)
  where
    fields :
        let e' = reported_entry t (effective_max_retries m) req e in
        (e'.last_error ≡ req.error)
        × (e'.source ≡ e.source)
        × (e'.state ≡ (if req.error == "" then state_mirrored else state_failed))
        × (e.permanently_failed ≡ true → e'.permanently_failed ≡ true)
    fields = reported_entry_fields t (effective_max_retries m) req e
