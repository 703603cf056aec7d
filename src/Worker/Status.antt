-- ===== src/Worker/Status.antt =====
-- The worker's client of the manager's status API (pkg/mirror/worker/status.go). One HTTP exchange
-- is a parameter.
use Prim.Native.String.{◌++◌ as text_append}
use oc_mirror_operator.Base.{
  ℕ, zero, suc, ◌+◌, ◌≤◌, String, ◌≡◌, refl, ◌⊎◌, ◌↔◌, Bool, true, false, Option, none, some, ◌==◌,
  ◌&&◌, ◌||◌, not, arith, eq_iff, if◌then◌else◌, ltb, leb, eqb,
}
use oc_mirror_operator.Manager.State.{MirrorManager, StatusRequest}
use oc_mirror_operator.Base.Dict.{lookup}
use oc_mirror_operator.ImageState.Entry.{ImageEntry, state_mirrored}
use oc_mirror_operator.Manager.Reports.{queued_success}
use oc_mirror_operator.Manager.Handlers.{
  HttpRequest, handle_should_mirror, should_mirror_gone_iff, IsQuery,
}
use oc_mirror_operator.Worker.{Report}

pub record StatusClient : Type 0 where
  pub manager_url : String
  pub pod_name : String
  pub token : String

-- the outcome of one exchange: the request could not be built, it was not answered, or its status
pub data Exchange : Type 0 where
  not_built not_answered : Exchange
  answered : ℕ → Exchange

abbrev pub status_attempts : ℕ
status_attempts = 3

abbrev pub is_success : ℕ → Bool
is_success code = leb 200 code && ltb code 300

module _ {W : Type 0} (post : StatusRequest → W → Exchange × W) where
  abbrev pub unless_received : Exchange × W → (W → W) → W
  unless_received (not_built, w) again = w
  unless_received (not_answered, w) again = again w
  unless_received (answered code, w) again = if is_success code then w else again w

  unfoldable pub send : ℕ → StatusRequest → W → W
  send zero req w = w
  send (suc n) req w = unless_received (post req w) (λ w'. send n req w')

  -- `none`: no client
  unfoldable pub report : Option StatusClient → Report → W → W
  report none r w = w
  report (some s) r w =
      if s.manager_url == "" || s.pod_name == ""
      then w
      else send status_attempts
          (record {
            pod_name = s.pod_name;
            destination = r.destination;
            digest = r.digest;
            error = r.error;
          })
          w

abbrev pub unless_gone : Exchange → Bool
unless_gone not_built = true
unless_gone not_answered = true
unless_gone (answered code) = not (eqb code 410)

abbrev pub query : StatusClient → String → HttpRequest
query s dest = record {
  method = "GET";
  authorization = text_append "Bearer " s.token;
  dest = dest;
  body = none;
}

unfoldable pub should_mirror : Option StatusClient → (HttpRequest → Exchange) → String → Bool
should_mirror none get dest = true
should_mirror (some s) get dest =
    if s.manager_url == "" then true else unless_gone (get (query s dest))

-- Asked over a working connection, the worker skips an image exactly when the manager has a queued
-- success report of it or, with its lock, does not know the image or has it Mirrored. A manager
-- that cannot be reached never makes it skip one.
pub worker_skips_iff :
    (s : StatusClient) (locked : Bool) (dest : String) (m : MirrorManager)
    → (s.manager_url == "") ≡ false
    → (dest == "") ≡ false
    → ((should_mirror (some s) (λ r. answered (handle_should_mirror s.token locked r m)) dest
          ≡ false)
        ↔ ((queued_success dest m ≡ true)
            ⊎ ((locked ≡ true)
                × ((e : ImageEntry)
                    → lookup dest m.image_state ≡ some e
                    → e.state ≡ state_mirrored))))
      × (should_mirror (some s) (λ _. not_answered) dest ≡ true)
unfolding should_mirror
worker_skips_iff s locked dest m connected named =
    let code = handle_should_mirror s.token locked (query s dest) m in
    let q : IsQuery s.token (query s dest) =
      (refl, refl, λ p. ground (arith, (eq_iff dest "").1 p)) in
    let ((gone, back), _) = should_mirror_gone_iff s.token locked (query s dest) m q in
    ((λ skipped. gone (ground arith), λ h. ground (arith, back h)), ground arith)

module _ {W : Type 0} (post : StatusRequest → W → Exchange × W) (sent : W → ℕ)
    (sent_post : (r : StatusRequest) (w : W) → sent (post r w).1 ≡ suc (sent w)) where
  unless_received_sent :
      (n k : ℕ) (x : Exchange × W) (again : W → W)
      → sent x.1 ≡ suc k
      → ((w : W) → (sent w ≤ sent (again w)) × (sent (again w) ≤ sent w + n))
      → let w = unless_received post x again in (suc k ≤ sent w) × (sent w ≤ suc k + n)
  unless_received_sent n k (not_built, w) again one rest = (omega (arith, one), omega (arith, one))
  unless_received_sent n k (not_answered, w) again one rest =
      (omega (arith, one, rest w), omega (arith, one, rest w))
  unless_received_sent n k (answered code, w) again one rest =
      (ground (arith, rest w), ground (arith, rest w))

  send_sent :
      (n : ℕ) (req : StatusRequest) (w : W)
      → (sent w ≤ sent (send post n req w)) × (sent (send post n req w) ≤ sent w + n)
  unfolding send
  send_sent zero req w = (omega arith, omega arith)
  send_sent (suc n) req w =
      let (low, high) =
        unless_received_sent n (sent w) (post req w) (λ w'. send post n req w') (sent_post req w)
          (λ w'. send_sent n req w') in
      (omega (arith, low), omega (arith, high))

  send_first :
      (n : ℕ) (req : StatusRequest) (w : W)
      → let w' = send post (suc n) req w in (suc (sent w) ≤ sent w') × (sent w' ≤ sent w + suc n)
  unfolding send
  send_first n req w =
      let (low, high) =
        unless_received_sent n (sent w) (post req w) (λ w'. send post n req w') (sent_post req w)
          (λ w'. send_sent n req w') in
      (low, omega (arith, high))

  -- A worker with a manager and a pod name sends a report at least once and at most three times,
  -- and a worker without them sends nothing.
  pub report_sent :
      (s : StatusClient) (r : Report) (w : W)
      → let w' = report post (some s) r w in
        (s.manager_url == "" || s.pod_name == "" ≡ true → w' ≡ w)
        × (s.manager_url == "" || s.pod_name == "" ≡ false
            → (suc (sent w) ≤ sent w') × (sent w' ≤ sent w + 3))
  unfolding report
  report_sent s r w =
      let req : StatusRequest = record {
        pod_name = s.pod_name;
        destination = r.destination;
        digest = r.digest;
        error = r.error;
      } in
      (
        λ off. ground arith,
        λ on. let (low, high) = send_first 2 req w in (ground (arith, low), ground (arith, high)),
      )
