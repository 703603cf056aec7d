-- ===== src/Worker/Batch/Item.antt =====
-- What one item of a batch reports to the manager (pkg/mirror/worker/worker.go).
use oc_mirror_operator.Base.{
  ℕ, zero, suc, String, ◌≡◌, refl, ap, ◌∙◌, Bool, true, Option, none, some, List, [], ◌∷◌, ◌++◌,
  ◌&&◌, arith, if_both, ltb, eqb, ◌%◌,
}
use oc_mirror_operator.Manager.State.{BatchItem}
use oc_mirror_operator.Worker.{
  Result, or_else, or_report, Client, Report, Worker, done, failed, copy_fn, try_copy, verify,
  mirror_one, mirror_chart_one, mirror_chart_with, mirror_item, client_at, copy_attempts,
  is_chart_source, client_refresh_interval,
}

-- What the theorems need of the parameters: the world keeps a log of the reports that this worker
-- makes, and no other call of the worker adds to it. Nothing is asked of the manager's answers, which
-- may differ from one question to the next.
pub record SilentClient {W : Type 0} (log : W → List Report) (c : Client W) : Type 0 where
  pub copy_is_silent : (n : ℕ) (src dest : String) (w : W) → log (copy_fn c n src dest w).1 ≡ log w
  pub digest_is_silent : (dest : String) (w : W) → log (c.get_digest dest w).1 ≡ log w
  pub chart_is_silent :
      (mirror_chart : String → String → W → Result × W) (src dest : String) (w : W)
      → c.mirror_chart ≡ some mirror_chart
      → log (mirror_chart src dest w).1 ≡ log w

pub record Observed {W : Type 0} (log : W → List Report) (worker : Worker W) : Type 0 where
  pub report_logged : (r : Report) (w : W) → log (worker.report r w) ≡ log w ++ r ∷ []
  pub asking_is_silent : (d : String) (w : W) → log (worker.should_mirror d w).1 ≡ log w
  pub clients_are_silent : (d : String) → SilentClient log (worker.new_client d)

-- a report of an item: it names the destination, and has no error just when the item succeeded
pub record Reports {W : Type 0} (log : W → List Report) (dest : String) (w : W) (out : Bool × W)
    : Type 0 where
  pub report : Report
  pub logged : log out.1 ≡ log w ++ report ∷ []
  pub about : report.destination ≡ dest
  pub success : out.0 ≡ true → report.error ≡ ""

module _ {W : Type 0} (log : W → List Report) where
  or_else_silent :
      (w : W) (x : Result × W) (again : String → W → Result × W)
      → log x.1 ≡ log w
      → ((err : String) (w' : W) → log (again err w').1 ≡ log w')
      → log (or_else x again).1 ≡ log w
  or_else_silent w (done d, w') again silent rest = silent
  or_else_silent w (failed err, w') again silent rest = rest err w' ∙ silent

  try_copy_silent :
      (copy : ℕ → String → String → W → Result × W)
      (silent : (n : ℕ) (src dest : String) (w : W) → log (copy n src dest w).1 ≡ log w)
      (n attempt : ℕ) (src dest : String) (last : Result) (w : W)
      → log (try_copy copy n attempt src dest last w).1 ≡ log w
  unfolding try_copy
  try_copy_silent copy silent zero attempt src dest last w = refl
  try_copy_silent copy silent (suc n) attempt src dest last w =
      or_else_silent w (copy attempt src dest w)
        (λ err w'. try_copy copy n (suc attempt) src dest (failed err) w')
        (silent attempt src dest w)
        (λ err w'. try_copy_silent copy silent n (suc attempt) src dest (failed err) w')

  module _ (worker : Worker W) (o : Observed log worker) where
    or_report-Reports :
        (dest : String) (w : W) (x : Result × W) (next : String → W → Bool × W)
        → log x.1 ≡ log w
        → ((d : String) (w' : W) → Reports log dest w' (next d w'))
        → Reports log dest w (or_report worker dest x next)
    or_report-Reports dest w (failed err, w') next silent rest =
        let r : Report = record { destination = dest; digest = ""; error = err } in
        record {
          report = r;
          logged = o.report_logged r w' ∙ ap (λ l. l ++ r ∷ []) silent;
          about = refl;
          success = λ h. ground arith;
        }
    or_report-Reports dest w (done d, w') next silent rest =
        let r = rest d w' in
        record {
          report = r.report;
          logged = r.logged ∙ ap (λ l. l ++ r.report ∷ []) silent;
          about = r.about;
          success = r.success;
        }

    verify-Reports :
        (c : Client W) (verified_dest dest : String) (w : W)
        → SilentClient log c
        → Reports log dest w (verify worker c verified_dest dest w)
    unfolding verify
    verify-Reports c verified_dest dest w silent =
        or_report-Reports dest w (c.get_digest verified_dest w)
          (λ digest w'.
            (true, worker.report (record { destination = dest; digest = digest; error = "" }) w'))
          (silent.digest_is_silent verified_dest w)
          (λ digest w'. record {
            report = record { destination = dest; digest = digest; error = "" };
            logged =
                o.report_logged (record { destination = dest; digest = digest; error = "" }) w';
            about = refl;
            success = λ h. refl;
          })

    -- Mirroring an image sends the manager one report, on that destination; after a success the
    -- report has no error.
    mirror_one-Reports :
        (c : Client W) (src dest : String) (w : W)
        → SilentClient log c
        → Reports log dest w (mirror_one worker c src dest w)
    unfolding mirror_one
    mirror_one-Reports c src dest w silent =
        or_report-Reports dest w (try_copy (copy_fn c) copy_attempts 1 src dest (done "") w)
          (λ effective_dest w'. verify worker c effective_dest dest w')
          (try_copy_silent (copy_fn c) silent.copy_is_silent copy_attempts 1 src dest (done "") w)
          (λ effective_dest w'. verify-Reports c effective_dest dest w' silent)

    mirror_chart_with-Reports :
        (c : Client W) (src dest : String) (w : W)
        (mirror_chart : Option (String → String → W → Result × W))
        → c.mirror_chart ≡ mirror_chart
        → SilentClient log c
        → Reports log dest w (mirror_chart_with worker c src dest w mirror_chart)
    mirror_chart_with-Reports c src dest w none found silent =
        let r : Report = record {
          destination = dest;
          digest = "";
          error = "chart mirror requires a real registry client";
        } in
        record {
          report = r;
          logged = o.report_logged r w;
          about = refl;
          success = λ h. ground arith;
        }
    mirror_chart_with-Reports c src dest w (some mirror_chart) found silent =
        or_report-Reports dest w (try_copy (λ _. mirror_chart) copy_attempts 1 src dest (done "") w)
          (λ _ w'. verify worker c dest dest w')
          (try_copy_silent (λ _. mirror_chart)
            (λ n s d w'. silent.chart_is_silent mirror_chart s d w' found) copy_attempts 1 src dest
            (done "") w)
          (λ _ w'. verify-Reports c dest dest w' silent)

    pub mirror_item-Reports :
        (c : Client W) (item : BatchItem) (w : W)
        → SilentClient log c
        → Reports log item.dest w (mirror_item worker c item w)
    unfolding mirror_item mirror_chart_one
    mirror_item-Reports c item w silent =
        if_both (Reports log item.dest w) (is_chart_source item.source)
          (mirror_chart_with worker c item.source item.dest w c.mirror_chart)
          (mirror_one worker c item.source item.dest w)
          (mirror_chart_with-Reports c item.source item.dest w c.mirror_chart refl silent)
          (mirror_one-Reports c item.source item.dest w silent)

    pub client_at-SilentClient :
        (i : ℕ) (dest : String) (c : Client W)
        → SilentClient log c
        → SilentClient log (client_at worker i dest c)
    client_at-SilentClient i dest c silent =
        if_both (SilentClient log) (ltb 0 i && eqb (i % client_refresh_interval) 0)
          (worker.new_client dest) c (o.clients_are_silent dest) silent
