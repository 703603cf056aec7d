-- ===== src/Worker/Batch.antt =====
-- What a batch reports to the manager.
pub mod Item
use oc_mirror_operator.Base.{
  ℕ, zero, suc, String, ◌≡◌, refl, sym, ap, subst, ◌∙◌, Bool, true, false, Option, none, some, List,
  [], ◌∷◌, ◌++◌, not, ◌&&◌, ◌||◌, arith, if_both, All, ltb, eqb, ◌%◌, append_assoc, append-nil,
}
use oc_mirror_operator.Manager.State.{BatchItem}
use oc_mirror_operator.Worker.{
  Result, or_else, or_report, if_required, and_go_on, Client, Report, Worker, done, failed, copy_fn,
  try_copy, verify, mirror_one, mirror_chart_one, mirror_chart_with, mirror_item, client_at,
  run_items, run_batch, copy_attempts, is_chart_source, client_refresh_interval,
}
use oc_mirror_operator.Worker.Batch.Item.{
  SilentClient, Observed, Reports, mirror_item-Reports, client_at-SilentClient,
}

-- How a batch goes through its items, from a world to the last one, with the reports that it makes:
-- the manager is asked about each item when its turn comes; an item that it does not require any
-- more is skipped, and one that it requires is reported once.
pub data Ran {W : Type 0} (log : W → List Report) (worker : Worker W)
    : List BatchItem → List Report → W → W → Type 0 where
  ended : {w : W} → Ran log worker [] [] w w
  skipped :
      {item : BatchItem} {items : List BatchItem} {reports : List Report} {w v : W}
      → (worker.should_mirror item.dest w).0 ≡ false
      → Ran log worker items reports (worker.should_mirror item.dest w).1 v
      → Ran log worker (item ∷ items) reports w v
  reported :
      {item : BatchItem} {items : List BatchItem} {report : Report} {reports : List Report}
      {w v : W}
      → (after : W) → (worker.should_mirror item.dest w).0 ≡ true
      → report.destination ≡ item.dest
      → log after ≡ log w ++ report ∷ []
      → Ran log worker items reports after v
      → Ran log worker (item ∷ items) (report ∷ reports) w v

-- the batch ran through these items and made these reports, and none of them is of an error when
-- `anyFailed` is false
pub record BatchReports {W : Type 0} (log : W → List Report) (worker : Worker W)
    (items : List BatchItem) (w : W) (out : Bool × W) : Type 0 where
  pub reports : List Report
  pub ran : Ran log worker items reports w out.1
  pub logged : log out.1 ≡ log w ++ reports
  pub success : out.0 ≡ false → All (λ r. r.error ≡ "") reports

-- an item that the manager requires is reported, and then the batch goes on
record Began {W : Type 0} (log : W → List Report) (worker : Worker W) (dest : String)
    (items : List BatchItem) (w : W) (out : Bool × W) : Type 0 where
  report : Report
  after : W
  about : report.destination ≡ dest
  logged : log after ≡ log w ++ report ∷ []
  success : out.0 ≡ false → report.error ≡ ""
  rest : BatchReports log worker items after out

or_not-false : (a b : Bool) → (a || not b) ≡ false → b ≡ true
or_not-false a b h = ground arith

or_false : (a b : Bool) → (a || b) ≡ false → a ≡ false
or_false a b h = ground arith

if_required_sticky :
    {W : Type 0} (any_failed : Bool) (x : Bool × W) (mirror skip : W → Bool × W)
    → ((w : W) → (mirror w).0 ≡ false → any_failed ≡ false)
    → ((w : W) → (skip w).0 ≡ false → any_failed ≡ false)
    → (if_required x mirror skip).0 ≡ false
    → any_failed ≡ false
if_required_sticky any_failed (true, w) mirror skip on_mirror on_skip h = on_mirror w h
if_required_sticky any_failed (false, w) mirror skip on_mirror on_skip h = on_skip w h

and_go_on_sticky :
    {W : Type 0} (any_failed : Bool) (x : Bool × W) (next : Bool → W → Bool × W)
    → ((ok : Bool) (w : W) → (next ok w).0 ≡ false → any_failed ≡ false)
    → (and_go_on x next).0 ≡ false
    → any_failed ≡ false
and_go_on_sticky any_failed (ok, w) next after h = after ok w h

module _ {W : Type 0} (log : W → List Report) where
  module _ (worker : Worker W) (o : Observed log worker) where
    if_required-BatchReports :
        (rest : List BatchItem) (item : BatchItem) (w : W) (x : Bool × W)
        (mirror skip : W → Bool × W)
        → x ≡ worker.should_mirror item.dest w
        → log x.1 ≡ log w
        → ((w' : W) → Began log worker item.dest rest w' (mirror w'))
        → ((w' : W) → BatchReports log worker rest w' (skip w'))
        → BatchReports log worker (item ∷ rest) w (if_required x mirror skip)
    if_required-BatchReports rest item w (true, w') mirror skip asked silent yes_case no_case =
        let b = yes_case w' in
        let logged = b.logged ∙ ap (λ l. l ++ b.report ∷ []) silent in
        record {
          reports = b.report ∷ b.rest.reports;
          ran = reported b.after (sym (ap (λ a. a.0) asked)) b.about logged b.rest.ran;
          logged =
              b.rest.logged
              ∙ ap (λ l. l ++ b.rest.reports) logged
              ∙ append_assoc (log w) (b.report ∷ []) b.rest.reports;
          success = λ h. (b.success h, b.rest.success h);
        }
    if_required-BatchReports rest item w (false, w') mirror skip asked silent yes_case no_case =
        let r = no_case w' in
        record {
          reports = r.reports;
          ran = skipped (sym (ap (λ a. a.0) asked)) (
              subst (λ u. Ran log worker rest r.reports u (skip w').1) (ap (λ a. a.1) asked) r.ran);
          logged = r.logged ∙ ap (λ l. l ++ r.reports) silent;
          success = r.success;
        }

    and_go_on-Began :
        (items : List BatchItem) (dest : String) (w : W) (x : Bool × W) (next : Bool → W → Bool × W)
        → Reports log dest w x
        → ((ok : Bool) (w' : W) → BatchReports log worker items w' (next ok w'))
        → ((ok : Bool) (w' : W) → (next ok w').0 ≡ false → ok ≡ true)
        → Began log worker dest items w (and_go_on x next)
    and_go_on-Began items dest w (ok, w') next one rest sticky = record {
      report = one.report;
      after = w';
      about = one.about;
      logged = one.logged;
      success = λ h. one.success (sticky ok w' h);
      rest = rest ok w';
    }

    run_items_sticky :
        (c : Client W) (i : ℕ) (items : List BatchItem) (any_failed : Bool) (w : W)
        → (run_items worker c i items any_failed w).0 ≡ false
        → any_failed ≡ false
    unfolding run_items
    run_items_sticky c i [] any_failed w h = h
    run_items_sticky c i (item ∷ items) any_failed w h =
        let c' = client_at worker i item.dest c in
        if_required_sticky any_failed (worker.should_mirror item.dest w)
          (λ w₁.
            and_go_on (mirror_item worker c' item w₁)
              (λ ok w₂. run_items worker c' (suc i) items (any_failed || not ok) w₂))
          (λ w₁. run_items worker c (suc i) items any_failed w₁)
          (λ w₁ k.
            and_go_on_sticky any_failed (mirror_item worker c' item w₁)
              (λ ok w₂. run_items worker c' (suc i) items (any_failed || not ok) w₂)
              (λ ok w₂ j.
                or_false any_failed (not ok)
                  (run_items_sticky c' (suc i) items (any_failed || not ok) w₂ j))
              k)
          (λ w₁ k. run_items_sticky c (suc i) items any_failed w₁ k) h

    run_items-BatchReports :
        (c : Client W) (i : ℕ) (items : List BatchItem) (any_failed : Bool) (w : W)
        → SilentClient log c
        → BatchReports log worker items w (run_items worker c i items any_failed w)
    unfolding run_items
    run_items-BatchReports c i [] any_failed w silent = record {
      reports = [];
      ran = ended;
      logged = sym (append-nil (log w));
      success = λ h. _;
    }
    run_items-BatchReports c i (item ∷ items) any_failed w silent =
        let c' = client_at worker i item.dest c in
        let silent' = client_at-SilentClient log worker o i item.dest c silent in
        if_required-BatchReports items item w (worker.should_mirror item.dest w)
          (λ w₁.
            and_go_on (mirror_item worker c' item w₁)
              (λ ok w₂. run_items worker c' (suc i) items (any_failed || not ok) w₂))
          (λ w₁. run_items worker c (suc i) items any_failed w₁) refl
          (o.asking_is_silent item.dest w)
          (λ w₁.
            and_go_on-Began items item.dest w₁ (mirror_item worker c' item w₁)
              (λ ok w₂. run_items worker c' (suc i) items (any_failed || not ok) w₂)
              (mirror_item-Reports log worker o c' item w₁ silent')
              (λ ok w₂. run_items-BatchReports c' (suc i) items (any_failed || not ok) w₂ silent')
              (λ ok w₂ h.
                or_not-false any_failed ok
                  (run_items_sticky c' (suc i) items (any_failed || not ok) w₂ h)))
          (λ w₁. run_items-BatchReports c (suc i) items any_failed w₁ silent)

    -- A batch goes through its items in the planned order and asks the manager about each when its
    -- turn comes: it sends one report on an item that the manager requires then, and none on the
    -- others; when it ends without `anyFailed`, none of the reports has an error. Assumed is that the
    -- log has the reports of this worker and nothing else: a report adds itself, and asking the
    -- manager and the calls of the registry client add nothing.
    pub run_batch-BatchReports :
        (item : BatchItem) (items : List BatchItem) (w : W)
        → BatchReports log worker (worker.plan (item ∷ items)) w (run_batch worker (item ∷ items) w)
    unfolding run_batch
    run_batch-BatchReports item items w =
        run_items-BatchReports (worker.new_client item.dest) 0 (worker.plan (item ∷ items)) false w
          (o.clients_are_silent item.dest)
