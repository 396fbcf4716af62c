-- ===== src/Workflow/Ends.antt =====
-- No cycle of src/edgar_moe/forward/workflow.py leaves its run running: what the parts of a cycle
-- after its start keep, and how the run ends.
use edgar_moe.Common.{String, ◌≡◌, refl, ap, ◌⊎◌, inr, Option, List, string_eq}
use edgar_moe.Common.Outcomes.{Outcome}
use edgar_moe.Registry.Records.{
  Instant, succeeded, RunStatus, RunRecord, QualityCheckDraft, Database,
}
use edgar_moe.Registry.Session.{Session, ForwardRegistry, transaction}
use edgar_moe.Registry.Rules.{Post, Post-weaken}
use edgar_moe.Registry.Runs.{fail_run}
use edgar_moe.Registry.Registrations.{register_artifact}
use edgar_moe.Registry.Untouched.{
  Untouched, transaction-Untouched, register_artifact-Untouched, append_forecasts-Untouched,
  settle_labels-Untouched, add_quality_checks-Untouched,
}
use edgar_moe.Registry.Lives.{Opened, Ended, Opened-Untouched, fail_run-Ended, complete_run-Ended}
use edgar_moe.PartialWrite.{failure_message, ArtifactWriteError, record_partial_artifact}
use edgar_moe.Workflow.{Failure, World, call, artifact_write, quality, safe_exception_message}
use edgar_moe.Workflow.Checks.{Dataset}
use edgar_moe.Workflow.Model.{
  LockedResult, FrozenModelSpec, Counts, Evidence, ArtifactStore, Surroundings, Step, Occasion,
  WorkflowResult,
}
use edgar_moe.Workflow.Rules.{
  Leaves-keep, Leaves, Leaves-give, Leaves-throw, Leaves-weaken, Leaves-bind, Leaves-attempt,
  Leaves-look, Leaves-catching, Leaves-run_with, Leaves-call, Leaves-store_with, Leaves-call_ok,
}
use edgar_moe.Workflow.Registrations.{IsReserved}
use edgar_moe.Workflow.Cycle.{
  finish, fail_with, fail_partially, record_failed_checks, on_forecast_failure,
  on_settlement_failure, forecast_body, settle_body,
}

-- Of the runs that were not there before, none is running.
abbrev pub Settled : List RunRecord → Database → Type 0
Settled before db =
    (db.runs ≡ before) ⊎ ((run_id : String) × Ended RunStatus.failed before run_id db)

still :
    {before : List RunRecord} {run : RunRecord} {audit_id : String} {db : Database}
    → Opened before run audit_id db
    → Untouched db audit_id db
still o = record { runs = refl; fresh = o.fresh }

-- A cycle that returns has one more run, which succeeded; one that raises has at most one, which
-- failed.
abbrev pub Closes :
    {S : Type 0} → List RunRecord → Outcome Failure WorkflowResult × World S → Type 0
Closes before = Leaves (λ (r : WorkflowResult). Ended succeeded before r.run_id) (Settled before)

module _ {S : Type 0} (around : Surroundings) (registry : ForwardRegistry)
    (artifact_store : ArtifactStore S) (spec : FrozenModelSpec) (given : Occasion) (db0 : Database)
    (reserved : IsReserved given db0) where
  abbrev pub Open : RunRecord → Database → Type 0
  Open run = Opened db0.runs run (given.moment Step.fail).audit_id

  abbrev pub Done : WorkflowResult → Database → Type 0
  Done r = Ended succeeded db0.runs r.run_id

  module _ (run : RunRecord) where
    -- What leaves the runs alone keeps the run open.
    Leaves-evidence :
        {A : Type 0} (m : Session A) (w : World S)
        → Open run w.database
        → Post (λ _. Untouched w.database (given.moment Step.fail).audit_id) (m w.database)
        → Leaves (λ _. Open run) (Open run) (call m w)
    Leaves-evidence m w o k =
        Leaves-keep (Open run) m w o
          (Post-weaken _ _ _ (λ _ db u. Opened-Untouched db0.runs run _ w.database o db u) k)

    finish-Done :
        (kind logical_name : String) (evidence : Evidence) (counts : Counts) (w : World S)
        → Open run w.database
        → Leaves Done (Open run) (
            finish around registry artifact_store spec given run.run_id kind logical_name evidence
              counts w)
    unfolding finish
    finish-Done kind logical_name evidence counts w o =
        Leaves-bind Done _ (λ _. Open run) _ _ w (Leaves-store_with (Open run) _ w o)
          λ reference w1 o1.
            Leaves-bind Done _ (λ _. Open run) _ _ w1
              (Leaves-evidence _ w1 o1 (
                register_artifact-Untouched registry (given.moment Step.artifact)
                  (given.moment Step.fail).audit_id (reserved.others Step.artifact (λ e. cc e))
                  w1.database w1.database (still o1) run.run_id kind reference))
              λ _ w2 o2.
                Leaves-bind Done _ (λ _. Ended succeeded db0.runs run.run_id) _ _ w2
                  (Leaves-call _ _ _ w2 o2 (
                    complete_run-Ended db0.runs run _ w2.database o2 registry
                      (given.moment Step.complete) (around.counts_json counts)))
                  λ _ w3 e. Leaves-give Done _ _ w3 e

    fail_with-Settled :
        (error : Failure) (w : World S)
        → Open run w.database
        → Leaves Done
            (Settled db0.runs)
            (fail_with around registry artifact_store spec given run.run_id error w)
    unfolding fail_with
    fail_with-Settled error w o =
        let message = safe_exception_message registry.library (around.describe error) in
        let (db', returns, ended) =
          fail_run-Ended db0.runs run _ w.database o registry (given.moment Step.fail) message
            refl in
        Leaves-bind _ _ (λ _. Ended RunStatus.failed db0.runs run.run_id) _ _ w
          (Leaves-call_ok _ _ (fail_run registry (given.moment Step.fail) run.run_id message) w
            returns ended)
          λ _ w1 e. Leaves-throw _ _ error w1 (inr (run.run_id, e))

    fail_partially-Settled :
        (kind : String) (error : ArtifactWriteError) (w : World S)
        → Open run w.database
        → Leaves Done
            (Settled db0.runs)
            (fail_partially around registry artifact_store spec given run.run_id kind error w)
    unfolding fail_partially record_partial_artifact
    fail_partially-Settled kind error w o =
        let registered =
          transaction
            (register_artifact registry (given.moment Step.partial) run.run_id kind
              error.primary_reference)
            w.database in
        let o1 : Open run registered.1 = Opened-Untouched db0.runs run _ w.database o _ (
          transaction-Untouched w.database (given.moment Step.fail).audit_id
            (register_artifact registry (given.moment Step.partial) run.run_id kind
              error.primary_reference)
            w.database (still o)
            (register_artifact-Untouched registry (given.moment Step.partial)
              (given.moment Step.fail).audit_id (reserved.others Step.partial (λ e. cc e))
              w.database w.database (still o) run.run_id kind error.primary_reference)) in
        let (db', returns, ended) =
          fail_run-Ended db0.runs run _ registered.1 o1 registry (given.moment Step.fail)
            (failure_message registered.0 error.cause_type) refl in
        Leaves-bind _ _ (λ _. Ended RunStatus.failed db0.runs run.run_id) _ _ w
          (Leaves-run_with _ _
            (record_partial_artifact registry (given.moment Step.partial) (given.moment Step.fail)
              run.run_id kind error)
            w (ap (λ r. transaction (λ _. r) registered.1) returns) ended)
          λ _ w1 e. Leaves-throw _ _ _ w1 (inr (run.run_id, e))

    record_failed_checks-Open :
        (checks : List QualityCheckDraft) (w : World S)
        → Open run w.database
        → Leaves
            (λ _. Open run)
            (λ _. ⊥)
            (record_failed_checks around registry artifact_store spec given run.run_id checks w)
    unfolding record_failed_checks
    record_failed_checks-Open checks w o =
        Leaves-catching _ _ (Open run) _ _ w
          (Leaves-bind _ _ (λ _. Open run) _ _ w
            (Leaves-evidence _ w o (
              add_quality_checks-Untouched registry (given.moment Step.failed_checks)
                (given.moment Step.fail).audit_id (reserved.others Step.failed_checks (λ e. cc e))
                w.database run.run_id w.database (still o) checks))
            λ _ w1 o1. Leaves-give _ _ tt w1 o1)
          λ _ w1 o1. Leaves-give _ _ tt w1 o1

    pub on_forecast_failure-Settled :
        (error : Failure) (w : World S)
        → Open run w.database
        → Leaves Done
            (Settled db0.runs)
            (on_forecast_failure around registry artifact_store spec given run.run_id error w)
    on_forecast_failure-Settled (artifact_write error) w o = fail_partially-Settled _ error w o
    on_forecast_failure-Settled (quality checks) w o =
        Leaves-bind _ _ (λ _. Open run) _ _ w
          (Leaves-weaken (λ _. Open run) (Settled db0.runs) (λ _. Open run) (λ _. ⊥)
            (record_failed_checks around registry artifact_store spec given run.run_id checks w)
            (λ _ _ h. h) (λ db h. absurd h) (record_failed_checks-Open checks w o))
          λ _ w1 o1. fail_with-Settled _ w1 o1
    on_forecast_failure-Settled (Failure.registry e) w o = fail_with-Settled _ w o
    on_forecast_failure-Settled (Failure.other name text) w o = fail_with-Settled _ w o

    pub on_settlement_failure-Settled :
        (error : Failure) (w : World S)
        → Open run w.database
        → Leaves Done
            (Settled db0.runs)
            (on_settlement_failure around registry artifact_store spec given run.run_id error w)
    on_settlement_failure-Settled (artifact_write error) w o = fail_partially-Settled _ error w o
    on_settlement_failure-Settled (quality checks) w o = fail_with-Settled _ w o
    on_settlement_failure-Settled (Failure.registry e) w o = fail_with-Settled _ w o
    on_settlement_failure-Settled (Failure.other name text) w o = fail_with-Settled _ w o

  pub forecast_body-Done :
      (run : RunRecord) (dataset : Dataset) (locked : LockedResult) (as_of : Instant)
      (previous : Option Instant) (w : World S)
      → Open run w.database
      → Leaves Done (Open run) (
          forecast_body around registry artifact_store spec given run.run_id dataset locked as_of
            previous w)
  unfolding forecast_body
  forecast_body-Done run dataset locked as_of previous w o = Leaves-attempt _ _ _ _ w o λ batch.
      Leaves-attempt _ _ _ _ w o λ recording_at.
        Leaves-bind Done _ (λ _. Open run) _ _ w
          (Leaves-evidence run _ w o (
            add_quality_checks-Untouched registry (given.moment Step.checks)
              (given.moment Step.fail).audit_id (reserved.others Step.checks (λ e. cc e)) w.database
              run.run_id w.database (still o) _))
          λ quality_counts w1 o1.
            Leaves-bind Done _ (λ _. Open run) _ _ w1
              (Leaves-evidence run _ w1 o1 (
                append_forecasts-Untouched registry (given.moment Step.rows)
                  (given.moment Step.fail).audit_id (reserved.others Step.rows (λ e. cc e))
                  w1.database run.run_id w1.database (still o1) batch.forecasts))
              λ counts w2 o2. finish-Done run _ _ _ _ w2 o2

  pub settle_body-Done :
      (run : RunRecord) (dataset : Dataset) (as_of : Instant) (w : World S)
      → Open run w.database
      → Leaves Done
          (Open run)
          (settle_body around registry artifact_store spec given run.run_id dataset as_of w)
  unfolding settle_body
  settle_body-Done run dataset as_of w o = Leaves-look _ _ _ _ w (
      Leaves-bind Done _ (λ _. Open run) _ _ w
        (Leaves-evidence run _ w o (
          add_quality_checks-Untouched registry (given.moment Step.checks)
            (given.moment Step.fail).audit_id (reserved.others Step.checks (λ e. cc e)) w.database
            run.run_id w.database (still o) _))
        λ quality_counts w1 o1.
          Leaves-bind Done _ (λ _. Open run) _ _ w1
            (Leaves-evidence run _ w1 o1 (
              settle_labels-Untouched registry (given.moment Step.rows)
                (given.moment Step.fail).audit_id (reserved.others Step.rows (λ e. cc e))
                w1.database run.run_id w1.database (still o1) _))
            λ counts w2 o2. finish-Done run _ _ _ _ w2 o2)
