-- ===== src/Manager/Drift.antt =====
-- The drift check of one destination (`checkDriftAttempt` and its helpers in
-- pkg/mirror/manager/manager.go). The mutex is held in two parts: `begin` reads a snapshot,
-- then the registry is asked without the mutex, and `finish` applies the answers to the state that
-- it finds, which other calls may have changed in between.
pub mod Stale
pub mod Flags
use Prim.Native.String.{◌++◌ as text_append}
use oc_mirror_operator.Base.{
  ℕ, String, Bool, true, false, Option, none, some, List, [], ◌∷◌, ◌==◌, ◌&&◌, ◌||◌, not, is_some,
  if◌then◌else◌,
}
use oc_mirror_operator.Base.Dict.{Dict, lookup, insert, remove}
use oc_mirror_operator.ImageState.Entry.{
  ImageEntry, ImageOrigin, origin_additional, origin_eq, state_mirrored, state_failed,
  state_pending, state_eq,
}
use oc_mirror_operator.Manager.State.{MirrorManager, Tick}
use oc_mirror_operator.Manager.Retry.{record_failure, effective_max_retries}
use oc_mirror_operator.Manager.Sweep.{no_owner, is_flagged}
use oc_mirror_operator.Manager.Ownership.{owners_of}
use text.Mathlib.Text.{find?}

-- an owner that requires signed images
abbrev pub any_owner_requires_signed_images : List String → Dict Bool → Bool
any_owner_requires_signed_images [] require_signed = false
any_owner_requires_signed_images (name ∷ owners) require_signed =
    is_flagged (lookup name require_signed)
    || any_owner_requires_signed_images owners require_signed

pub record Snapshot : Type 0 where
  pub entry : ImageEntry
  pub recovery_check : Bool
  pub needs_signature_check : Bool

abbrev pub is_recovery : ImageEntry → Bool
is_recovery e = state_eq e.state state_failed && e.permanently_failed

abbrev pub snapshot_of : MirrorManager → Dict Bool → String → ImageEntry → Option Snapshot
snapshot_of m require_signed dest e =
    if no_owner (lookup dest m.owners)
    then none
    else if not (state_eq e.state state_mirrored) && not (is_recovery e)
    then none
    else some (record {
      entry = e;
      recovery_check = is_recovery e;
      needs_signature_check =
          not e.signature_verified
          && any_owner_requires_signed_images (owners_of m.owners dest) require_signed;
    })

-- the first part; `none`: there is nothing to check
unfoldable pub begin : MirrorManager → Dict Bool → String → Option Snapshot
begin m require_signed dest = elim (lookup dest m.image_state) [
  | none ↦ none
  | some e ↦ snapshot_of m require_signed dest e
]

-- `CheckExist`: an error, or whether the image is there
pub data Presence : Type 0 where
  unknown present absent : Presence

-- the signature lookup: not made or no digest, valid, or the text of the error
pub data Signature : Type 0 where
  unchecked valid : Signature
  invalid : String → Signature

-- What the registries would answer. `source_digest`: the digest that the source has upstream now,
-- `none` when it cannot be resolved; `signature`: `unchecked` when the destination has no digest.
pub record Registry : Type 0 where
  pub presence : Presence
  pub source_digest : Option String
  pub signature : Signature

abbrev pub is_digest_pinned : String → Bool
is_digest_pinned source = is_some (find? source "@sha256:")

abbrev pub has_moved : Snapshot → Option String → Bool
has_moved snap none = false
has_moved snap (some digest) =
    not (snap.entry.source_digest == "") && not (snap.entry.source_digest == digest)

-- the digest is asked for a tag-referenced additional image only
abbrev pub asked_digest : Snapshot → Registry → Option String
asked_digest snap r =
    if not (origin_eq snap.entry.origin origin_additional) || is_digest_pinned snap.entry.source
    then none
    else r.source_digest

-- the signature is asked only where the image did not move
abbrev pub asked_signature : Snapshot → Registry → Signature
asked_signature snap r =
    if not (has_moved snap (asked_digest snap r)) && snap.needs_signature_check
    then r.signature
    else unchecked

abbrev pub same_entry : ImageEntry → ImageEntry → Bool
same_entry e snap =
    state_eq e.state snap.state
    && (if e.permanently_failed then snap.permanently_failed else not snap.permanently_failed)
    && e.source == snap.source

abbrev pub put : String → ImageEntry → MirrorManager → MirrorManager
put dest e m = record m { image_state = insert dest e m.image_state; state_dirty = true }

abbrev pub flag : String → Bool → MirrorManager → MirrorManager
flag dest b m = record m { mirrored = insert dest b m.mirrored }

-- the entry leaves the Mirrored state: its flag goes
abbrev pub put_unmirrored : String → ImageEntry → MirrorManager → MirrorManager
put_unmirrored dest e m = record m {
  image_state = insert dest e m.image_state;
  mirrored = remove dest m.mirrored;
  state_dirty = true;
  status_dirty = true;
}

abbrev pub to_pending : ImageEntry → ImageEntry
to_pending e = record e {
  state = state_pending;
  last_error = "";
  retry_count = 0;
  next_retry_at = none;
}

-- a permanently failed image: it may be in the target registry after all
unfoldable pub finish_recovery : String → Presence → ImageEntry → MirrorManager → MirrorManager
finish_recovery dest unknown e m = m
finish_recovery dest present e m =
    put dest (record e { state = state_mirrored; last_error = "" }) (flag dest true m)
finish_recovery dest absent e m =
    put_unmirrored dest (record e { state = state_pending; retry_count = 0; next_retry_at = none })
      m

unfoldable pub apply_signature_result :
    Tick → String → Signature → ImageEntry → MirrorManager → MirrorManager
unfolding record_failure
apply_signature_result t dest unchecked e m = m
apply_signature_result t dest valid e m = put dest (record e { signature_verified = true }) m
apply_signature_result t dest (invalid err) e m =
    let failed = record e {
      state = state_failed;
      last_error = text_append "signature check failed: " err;
      signature_verified = false;
    } in
    let failing = flag dest false (record m { status_dirty = true }) in
    put dest (record_failure t (effective_max_retries m) failed) failing

-- the upstream digest is recorded as the new baseline
abbrev pub with_digest : Option String → ImageEntry → ImageEntry
with_digest none e = e
with_digest (some digest) e = record e { source_digest = digest }

abbrev pub has_drifted : Option String → ImageEntry → Bool
has_drifted none e = false
has_drifted (some digest) e = not (e.source_digest == "") && not (e.source_digest == digest)

abbrev pub record_baseline : String → Option String → ImageEntry → MirrorManager → MirrorManager
record_baseline dest none e m = m
record_baseline dest (some digest) e m =
    if e.source_digest == digest then m else put dest (record e { source_digest = digest }) m

-- an image that is taken to be Mirrored
unfoldable pub finish_mirrored :
    Tick
    → String
    → Presence
    → Option String
    → Signature
    → ImageEntry
    → MirrorManager
    → MirrorManager
unfolding apply_signature_result
finish_mirrored t dest unknown digest sig e m = flag dest true m
finish_mirrored t dest absent digest sig e m = put_unmirrored dest (to_pending e) m
finish_mirrored t dest present digest sig e m =
    if has_drifted digest e
    then put_unmirrored dest (to_pending (with_digest digest e)) m
    else let m' = flag dest true (record_baseline dest digest e m) in
      if e.signature_verified
      then m'
      else apply_signature_result t dest sig (with_digest digest e) m'

-- the second part, for the entry that is there now
abbrev pub finish_entry :
    Tick → String → Snapshot → Registry → ImageEntry → MirrorManager → MirrorManager
finish_entry t dest snap r e m =
    if not (same_entry e snap.entry)
    then m
    else if snap.recovery_check
    then finish_recovery dest r.presence e m
    else finish_mirrored t dest r.presence (asked_digest snap r) (asked_signature snap r) e m

unfoldable pub finish : Tick → String → Snapshot → Registry → MirrorManager → MirrorManager
unfolding finish_recovery finish_mirrored
finish t dest snap r m = elim (lookup dest m.image_state) [
  | none ↦ m
  | some e ↦ finish_entry t dest snap r e m
]

abbrev pub is_unknown : Presence → Bool
is_unknown unknown = true
is_unknown present = false
is_unknown absent = false

-- The whole check, begun in the state `before` and finished in the state `m`. The second component
-- is `retryLater`; `inconclusive`: not the last attempt, and the deadline of this check ran out.
unfoldable pub check_drift_attempt :
    Tick
    → Dict Bool
    → String
    → Bool
    → Registry
    → MirrorManager
    → MirrorManager
    → MirrorManager × Bool
unfolding begin finish
check_drift_attempt t require_signed dest inconclusive r before m =
    elim (begin before require_signed dest) [
      | none ↦ (m, false)
      | some snap ↦
          if inconclusive && is_unknown r.presence
          then (m, true)
          else (finish t dest snap r m, false)
    ]
