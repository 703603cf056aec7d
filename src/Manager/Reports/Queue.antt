-- ===== src/Manager/Reports/Queue.antt =====
-- The status queue: reports wait in it until the mutex is free, and are applied in arrival order.
use oc_mirror_operator.Base.{
  ℕ, suc, String, ◌≡◌, refl, Bool, false, none, List, [], ◌∷◌, ◌++◌, ◌==◌, ◌||◌, arith,
  if◌then◌else◌, Bool-cases, inl, inr, length,
}
use oc_mirror_operator.Base.Dict.{lookup, lookup-remove}
use oc_mirror_operator.ImageState.Entry.{EntryState, state_mirrored, state_failed}
use oc_mirror_operator.Manager.State.{MirrorManager, StatusRequest, Tick}
use oc_mirror_operator.Manager.Reports.{
  set_image_state, flag_known, record_digest, apply_status, apply_all, drain_status_queue,
  enqueue_status,
}

-- what an operation on one entry leaves alone
abbrev pub SameBooks : MirrorManager → MirrorManager → Type 0
SameBooks m m' =
    (m'.status_queue ≡ m.status_queue)
    × (m'.in_progress ≡ m.in_progress)
    × (m'.owners ≡ m.owners)
    × (m'.owner_meta ≡ m.owner_meta)
    × (m'.max_retries ≡ m.max_retries)

pub set_image_state_books :
    (t : Tick) (dest : String) (st : EntryState) (err : String) (m : MirrorManager)
    → SameBooks m (set_image_state t dest st err m)
unfolding set_image_state
set_image_state_books t dest st err m = ground arith

flag_known_books : (dest : String) (m : MirrorManager) → SameBooks m (flag_known dest m)
unfolding flag_known
flag_known_books dest m = ground arith

record_digest_books :
    (dest digest : String) (m : MirrorManager) → SameBooks m (record_digest dest digest m)
unfolding record_digest
record_digest_books dest digest m = ground arith

module _ (t : Tick) (req : StatusRequest) (m : MirrorManager) where
  pub apply_status_books :
      let m' = apply_status t req m in
      (m'.status_queue ≡ m.status_queue)
      × (m'.owners ≡ m.owners)
      × (m'.owner_meta ≡ m.owner_meta)
      × (m'.max_retries ≡ m.max_retries)
  unfolding apply_status
  apply_status_books =
      let flagged = flag_known req.destination m in
      let set = set_image_state t req.destination state_mirrored "" flagged in
      ground (
        arith,
        set_image_state_books t req.destination state_failed req.error m,
        flag_known_books req.destination m,
        set_image_state_books t req.destination state_mirrored "" flagged,
        record_digest_books req.destination req.digest set,
      )

  pub lookup-in_progress-apply_status :
      (j : String)
      → lookup j (apply_status t req m).in_progress
        ≡ (if req.destination == j then none else lookup j m.in_progress)
  unfolding apply_status
  lookup-in_progress-apply_status j =
      let flagged = flag_known req.destination m in
      let set = set_image_state t req.destination state_mirrored "" flagged in
      elim (Bool-cases (req.error == "")) [
        | inl e ↦
            rw (e, lookup-remove)
              (ground (
                arith,
                flag_known_books req.destination m,
                set_image_state_books t req.destination state_mirrored "" flagged,
                record_digest_books req.destination req.digest set,
              ))
        | inr n ↦
            rw (n, lookup-remove)
              (ground (arith, set_image_state_books t req.destination state_failed req.error m))
      ]

pub apply_all_queue :
    (ticks : ℕ → Tick) (q : List StatusRequest) (m : MirrorManager)
    → ((apply_all ticks q m).status_queue ≡ m.status_queue)
      × ((apply_all ticks q m).owners ≡ m.owners)
      × ((apply_all ticks q m).max_retries ≡ m.max_retries)
unfolding apply_all
apply_all_queue ticks [] m = (refl, refl, refl)
apply_all_queue ticks (req ∷ q) m = ground (
  arith,
  apply_all_queue (λ i. ticks (suc i)) q (apply_status (ticks 0) req m),
  apply_status_books (ticks 0) req m,
)

-- draining an empty queue changes nothing
pub drain_drained :
    (ticks ticks' : ℕ → Tick) (m : MirrorManager)
    → drain_status_queue ticks' (drain_status_queue ticks m) ≡ drain_status_queue ticks m
unfolding drain_status_queue
drain_drained ticks ticks' m =
    let empty = (apply_all_queue ticks m.status_queue (record m { status_queue = [] })).0 in
    rw (empty, apply_all)

apply_all-append :
    (ticks : ℕ → Tick) (q : List StatusRequest) (req : StatusRequest) (m : MirrorManager)
    → apply_all ticks (q ++ req ∷ []) m ≡ apply_status (ticks (length q)) req (apply_all ticks q m)
unfolding apply_all
apply_all-append ticks [] req m = refl
apply_all-append ticks (r ∷ q) req m =
    apply_all-append (λ i. ticks (suc i)) q req (apply_status (ticks 0) r m)

-- A report that is queued behind others is applied after all of them.
pub drain-enqueue_status :
    (ticks : ℕ → Tick) (req : StatusRequest) (m : MirrorManager)
    → drain_status_queue ticks (enqueue_status req m)
      ≡ apply_status (ticks (length m.status_queue)) req (drain_status_queue ticks m)
unfolding drain_status_queue enqueue_status
drain-enqueue_status ticks req m =
    apply_all-append ticks m.status_queue req (record m { status_queue = [] })

-- some queued report is about the destination
abbrev pub reported_in : String → List StatusRequest → Bool
reported_in dest [] = false
reported_in dest (req ∷ q) = req.destination == dest || reported_in dest q

-- a report frees its destination, and nothing in the queue occupies one
pub in_progress-apply_all :
    (ticks : ℕ → Tick) (q : List StatusRequest) (m : MirrorManager) (j : String)
    → lookup j (apply_all ticks q m).in_progress
      ≡ (if reported_in j q then none else lookup j m.in_progress)
unfolding apply_all
in_progress-apply_all ticks [] m j = refl
in_progress-apply_all ticks (req ∷ q) m j = ground (
  arith,
  in_progress-apply_all (λ i. ticks (suc i)) q (apply_status (ticks 0) req m) j,
  lookup-in_progress-apply_status (ticks 0) req m j,
)

pub drain_empty :
    (ticks : ℕ → Tick) (m : MirrorManager) → m.status_queue ≡ [] → drain_status_queue ticks m ≡ m
unfolding drain_status_queue
drain_empty ticks m empty = rw (empty, apply_all) (ground arith)

pub drain_queue :
    (ticks : ℕ → Tick) (m : MirrorManager) → (drain_status_queue ticks m).status_queue ≡ []
unfolding drain_status_queue
drain_queue ticks m = (apply_all_queue ticks m.status_queue (record m { status_queue = [] })).0
