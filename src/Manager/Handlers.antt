-- ===== src/Manager/Handlers.antt =====
-- The HTTP endpoints of the manager (pkg/mirror/manager/manager.go): the status API that workers
-- call (`handleStatusUpdate`, `handleShouldMirror`) and the probes (`handleHealthz`,
-- `handleReadyz`). A handler returns the status code. The outcome of a lock attempt and of decoding
-- the body is an argument.
use Prim.Native.String.{◌++◌ as text_append}
use oc_mirror_operator.Base.{
  ℕ, ◌-◌, String, ◌≡◌, ◌≢◌, refl, ◌⊎◌, ◌↔◌, inl, inr, Bool, true, false, Option, none, some, ◌==◌,
  ◌&&◌, not, arith, eq_iff, if◌then◌else◌, Bool-cases, ltb,
}
use oc_mirror_operator.Base.Dict.{lookup}
use oc_mirror_operator.ImageState.Entry.{ImageEntry, state_mirrored, state_eq, state_eq_iff}
use oc_mirror_operator.Manager.State.{MirrorManager, StatusRequest, Tick}
use oc_mirror_operator.Manager.Reports.{enqueue_status, drain_status_queue, queued_success}

pub record HttpRequest : Type 0 where
  pub method : String
  pub authorization : String
  pub dest : String  -- the `dest` query parameter
  pub body : Option StatusRequest  -- the decoded body

-- the comparison takes constant time in the source, and answers as `==` does
abbrev pub authorized : String → HttpRequest → Bool
authorized worker_token r = r.authorization == text_append "Bearer " worker_token

-- the report is queued before the answer; it is applied at once if the mutex is free
unfoldable pub handle_status_update :
    String → Bool → (ℕ → Tick) → HttpRequest → MirrorManager → ℕ × MirrorManager
unfolding enqueue_status
handle_status_update worker_token lock_free ticks r m =
    if not (r.method == "POST")
    then (405, m)
    else if not (authorized worker_token r)
    then (401, m)
    else elim r.body [
      | none ↦ (400, m)
      | some req ↦
          let queued = enqueue_status req m in
          (200, if lock_free then drain_status_queue ticks queued else queued)
    ]

-- `locked`: the read lock was acquired within `shouldMirrorLockWait`
unfoldable pub handle_should_mirror : String → Bool → HttpRequest → MirrorManager → ℕ
handle_should_mirror worker_token locked r m =
    if not (r.method == "GET")
    then 405
    else if not (authorized worker_token r)
    then 401
    else if r.dest == ""
    then 400
    else if queued_success r.dest m
    then 410
    else if not locked
    then 200
    else elim (lookup r.dest m.image_state) [
      | none ↦ 410
      | some e ↦ if state_eq e.state state_mirrored then 410 else 200
    ]

abbrev pub hour : ℕ
hour = 3600000000000

-- `resolveTimeout + 30*time.Minute`
abbrev pub liveness_stale_after : ℕ
liveness_stale_after = 5400000000000

-- the heartbeat is 0 before the first one; `time.Since` of a later instant is not positive
stalled : ℕ → ℕ → Bool
stalled now heartbeat = not (ltb heartbeat 1) && ltb liveness_stale_after (now - heartbeat)

unfoldable pub handle_healthz : ℕ → ℕ → ℕ
unfolding stalled
handle_healthz now heartbeat = if stalled now heartbeat then 503 else 200

unfoldable pub handle_readyz : Bool → ℕ → ℕ → ℕ
unfolding stalled
handle_readyz status_api_ready now heartbeat =
    if not status_api_ready then 503 else if stalled now heartbeat then 503 else 200

-- the request passes the method, token and parameter checks
abbrev pub IsQuery : String → HttpRequest → Type 0
IsQuery worker_token r =
    (r.method ≡ "GET") × (r.authorization ≡ text_append "Bearer " worker_token) × (r.dest ≢ "")

-- the answer to a well-formed query
abbrev answer : Bool → Bool → Option ImageEntry → ℕ
answer queued locked o =
    if queued
    then 410
    else if not locked
    then 200
    else elim o [ none ↦ 410 | some e ↦ if state_eq e.state state_mirrored then 410 else 200 ]

handle_should_mirror-answer :
    (worker_token : String) (locked : Bool) (r : HttpRequest) (m : MirrorManager)
    → IsQuery worker_token r
    → handle_should_mirror worker_token locked r m
      ≡ answer (queued_success r.dest m) locked (lookup r.dest m.image_state)
unfolding handle_should_mirror
handle_should_mirror-answer worker_token locked r m (is_get, bearer, given) = ground (
  arith,
  eq_iff r.method "GET",
  eq_iff r.authorization (text_append "Bearer " worker_token),
  eq_iff r.dest "",
)

answer_iff :
    (queued locked : Bool) (o : Option ImageEntry)
    → ((answer queued locked o ≡ 410) ↔ (
        (queued ≡ true)
        ⊎ ((locked ≡ true) × ((e : ImageEntry) → o ≡ some e → e.state ≡ state_mirrored))))
      × ((answer queued locked o ≡ 410) ⊎ (answer queued locked o ≡ 200))
answer_iff true locked o = ((λ _. inl refl, λ _. refl), inl refl)
answer_iff false false o = ((λ p. absurd (omega arith), λ s. ground arith), inr refl)
answer_iff false true none = ((λ _. inr (refl, λ e p. cc), λ _. refl), inl refl)
answer_iff false true (some e) = elim (Bool-cases (state_eq e.state state_mirrored)) [
  | inl y ↦
      let here = (state_eq_iff e.state state_mirrored).0 y in
      rw y ((λ _. inr (refl, λ e' p. ground arith), λ _. refl), inl refl)
  | inr n ↦ rw n (
    (
      λ p. absurd (omega arith),
      λ s. absurd (ground (arith, state_eq_iff e.state state_mirrored, other_state e s)),
    ),
    inr refl,
  )
]
  where
    other_state :
        (x : ImageEntry)
        → ((false ≡ true)
            ⊎ ((true ≡ true) × ((e' : ImageEntry) → some x ≡ some e' → e'.state ≡ state_mirrored)))
        → x.state ≡ state_mirrored
    other_state x (inl p) = cc
    other_state x (inr (p, h)) = h x refl

-- For a well-formed query the answer is 410 exactly when a successful report of the image is queued
-- or, with the lock, the image is unknown or Mirrored; in every other case it is 200, also when the
-- lock was not acquired.
pub should_mirror_gone_iff :
    (worker_token : String) (locked : Bool) (r : HttpRequest) (m : MirrorManager)
    → IsQuery worker_token r
    → let code = handle_should_mirror worker_token locked r m in
      ((code ≡ 410) ↔ (
        (queued_success r.dest m ≡ true)
        ⊎ ((locked ≡ true)
            × ((e : ImageEntry)
                → lookup r.dest m.image_state ≡ some e
                → e.state ≡ state_mirrored))))
      × ((code ≡ 410) ⊎ (code ≡ 200))
should_mirror_gone_iff worker_token locked r m q =
    rw (handle_should_mirror-answer worker_token locked r m q)
      (answer_iff (queued_success r.dest m) locked (lookup r.dest m.image_state))

-- the outcome of a status request
abbrev pub IsAnswered : Bool → (ℕ → Tick) → HttpRequest → MirrorManager → ℕ × MirrorManager → Type 0
IsAnswered ok ticks r m (code, m') =
    ((code ≢ 200) × (m' ≡ m) × ((ok ≡ false) ⊎ (r.body ≡ none)))
    ⊎ ((req : StatusRequest) × (r.body ≡ some req)
        × (ok ≡ true)
        × (code ≡ 200)
        × (drain_status_queue ticks m' ≡ drain_status_queue ticks (enqueue_status req m)))
