-- ===== src/Tests/Reports.antt =====
-- Worker reports and the status API on concrete inputs.
use oc_mirror_operator.Base.{ℕ, ◌≡◌, ◌<◌, ◌*◌, refl, true, none, some, suc}
use oc_mirror_operator.Base.Dict.{lookup}
use oc_mirror_operator.Manager.State.{StatusRequest}
use oc_mirror_operator.Manager.Retry.{retry_backoff, retry_backoff_bounds, minute}
use oc_mirror_operator.Manager.Reports.{apply_status}
use oc_mirror_operator.Manager.Reports.Effect.{apply_status_effect}
use oc_mirror_operator.Manager.Reports.Idempotent.{apply_status_idempotent}
use oc_mirror_operator.Manager.Handlers.{HttpRequest}
use oc_mirror_operator.Worker.Status.{
  StatusClient, Exchange, not_answered, should_mirror, worker_skips_iff,
}
use oc_mirror_operator.Tests.Data.{manager, busy, tick, success, failure, pending_image}

retry_backoff_bounds_example : retry_backoff 123 3 < 66 * minute
retry_backoff_bounds_example = (retry_backoff_bounds 123 3).1

apply_status_effect_example : lookup "a" (apply_status tick failure busy).in_progress ≡ none
unfolding lookup
apply_status_effect_example = (apply_status_effect tick failure busy pending_image refl).5

apply_status_idempotent_example :
    apply_status tick failure (apply_status tick failure busy) ≡ apply_status tick failure busy
apply_status_idempotent_example = apply_status_idempotent tick tick failure busy

abbrev query_b : HttpRequest
query_b = record { method = "GET"; authorization = "Bearer secret"; dest = "b"; body = none }

abbrev post_success : HttpRequest
post_success = record {
  method = "POST";
  authorization = "Bearer secret";
  dest = "";
  body = some success;
}

abbrev client : StatusClient
client = record { manager_url = "http://manager"; pod_name = "worker-1"; token = "secret" }

worker_skips_iff_example : should_mirror (some client) (λ _. not_answered) "b" ≡ true
worker_skips_iff_example = (worker_skips_iff client true "b" manager refl refl).1

-- a manager that counts the reports and never answers
abbrev unreachable : StatusRequest → ℕ → Exchange × ℕ
unreachable req n = (not_answered, suc n)
