-- ===== src/Worker.antt =====
-- The worker pod (pkg/mirror/worker/worker.go and chart.go): the copy attempts for one image or
-- chart, and the loop over a batch. The registry client and the order of a batch are parameters,
-- and `W` is the outside world that the calls change; delays and deadlines are left out, as a call
-- that runs into its deadline is a failed call.
pub mod Batch
pub mod Status
use oc_mirror_operator.Base.{
  ℕ, zero, suc, String, Bool, true, false, Option, none, some, List, [], ◌∷◌, not, ◌&&◌, ◌||◌, ◌%◌,
  if◌then◌else◌, ltb, eqb,
}
use oc_mirror_operator.Manager.State.{BatchItem}
use text.Mathlib.Text.{starts_with}

-- `(string, error)`: a reference or digest, or the text of the error
pub data Result : Type 0 where
  done failed : String → Result

-- the part of the registry client that is used; `none` for what the client does not implement
pub record Client (W : Type 0) : Type 0 where
  pub copy_image : String → String → W → Result × W
  pub copy_image_buffered : Option (String → String → W → Result × W)
  pub mirror_chart : Option (String → String → W → Result × W)
  pub get_digest : String → W → Result × W

-- one status report: destination, digest and error text
pub record Report : Type 0 where
  pub destination : String
  pub digest : String
  pub error : String

pub record Worker (W : Type 0) : Type 0 where
  pub new_client : String → Client W
  pub plan : List BatchItem → List BatchItem
  pub report : Report → W → W
  pub should_mirror : String → W → Bool × W

abbrev pub copy_attempts : ℕ
copy_attempts = 2

abbrev pub client_refresh_interval : ℕ
client_refresh_interval = 20

abbrev pub is_chart_source : String → Bool
is_chart_source src = starts_with src "helm://"

module _ {W : Type 0} where
  -- the last attempt buffers large blobs to disk where the client can
  abbrev pub copy_fn : Client W → ℕ → String → String → W → Result × W
  copy_fn c attempt src dest w =
      if ltb 1 attempt && eqb attempt copy_attempts
      then elim c.copy_image_buffered [
        | none ↦ c.copy_image src dest w
        | some copy_image_buffered ↦ copy_image_buffered src dest w
      ]
      else c.copy_image src dest w

  -- the loop is left on the first success
  abbrev pub or_else : Result × W → (String → W → Result × W) → Result × W
  or_else (done effective_dest, w) again = (done effective_dest, w)
  or_else (failed err, w) again = again err w

  -- up to `n` further attempts, the next of them numbered `attempt`
  unfoldable pub try_copy :
      (ℕ → String → String → W → Result × W) → ℕ → ℕ → String → String → Result → W → Result × W
  try_copy copy zero attempt src dest last w = (last, w)
  try_copy copy (suc n) attempt src dest last w =
      or_else (copy attempt src dest w)
        (λ err w'. try_copy copy n (suc attempt) src dest (failed err) w')

  -- a failure is reported, a success goes on
  abbrev pub or_report : Worker W → String → Result × W → (String → W → Bool × W) → Bool × W
  or_report worker dest (failed err, w) next =
      (false, worker.report (record { destination = dest; digest = ""; error = err }) w)
  or_report worker dest (done d, w) next = next d w

  -- the digest is verified at `verified_dest`, and the report names `dest`
  unfoldable pub verify : Worker W → Client W → String → String → W → Bool × W
  verify worker c verified_dest dest w =
      or_report worker dest (c.get_digest verified_dest w) (λ digest w'.
        (true, worker.report (record { destination = dest; digest = digest; error = "" }) w'))

  unfoldable pub mirror_one : Worker W → Client W → String → String → W → Bool × W
  mirror_one worker c src dest w =
      or_report worker dest (try_copy (copy_fn c) copy_attempts 1 src dest (done "") w)
        (λ effective_dest w'. verify worker c effective_dest dest w')

  abbrev pub mirror_chart_with :
      Worker W
      → Client W
      → String
      → String
      → W
      → Option (String → String → W → Result × W)
      → Bool × W
  mirror_chart_with worker c src dest w none = (
    false,
    worker.report
        (record {
          destination = dest;
          digest = "";
          error = "chart mirror requires a real registry client";
        })
        w,
  )
  mirror_chart_with worker c src dest w (some mirror_chart) =
      or_report worker dest (try_copy (λ _. mirror_chart) copy_attempts 1 src dest (done "") w)
        (λ _ w'. verify worker c dest dest w')

  unfoldable pub mirror_chart_one : Worker W → Client W → String → String → W → Bool × W
  mirror_chart_one worker c src dest w = mirror_chart_with worker c src dest w c.mirror_chart

  -- one item of the batch, once it is known to be required
  unfoldable pub mirror_item : Worker W → Client W → BatchItem → W → Bool × W
  mirror_item worker c item w =
      if is_chart_source item.source
      then mirror_chart_one worker c item.source item.dest w
      else mirror_one worker c item.source item.dest w

  abbrev pub client_at : Worker W → ℕ → String → Client W → Client W
  client_at worker i dest c =
      if ltb 0 i && eqb (i % client_refresh_interval) 0 then worker.new_client dest else c

  -- an item that is not required is skipped
  abbrev pub if_required : Bool × W → (W → Bool × W) → (W → Bool × W) → Bool × W
  if_required (true, w) mirror skip = mirror w
  if_required (false, w) mirror skip = skip w

  abbrev pub and_go_on : Bool × W → (Bool → W → Bool × W) → Bool × W
  and_go_on (ok, w) next = next ok w

  -- the items from index `i` on; the answer is `anyFailed`
  unfoldable pub run_items : Worker W → Client W → ℕ → List BatchItem → Bool → W → Bool × W
  run_items worker c i [] any_failed w = (any_failed, w)
  run_items worker c i (item ∷ items) any_failed w =
      if_required (worker.should_mirror item.dest w)
        (λ w₁.
          let c' = client_at worker i item.dest c in
          and_go_on (mirror_item worker c' item w₁)
            (λ ok w₂. run_items worker c' (suc i) items (any_failed || not ok) w₂))
        (λ w₁. run_items worker c (suc i) items any_failed w₁)

  unfoldable pub run_batch : Worker W → List BatchItem → W → Bool × W
  run_batch worker [] w = (false, w)
  run_batch worker (item ∷ items) w =
      run_items worker (worker.new_client item.dest) 0 (worker.plan (item ∷ items)) false w
