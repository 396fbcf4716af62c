-- ===== src/Workflow/Cycle.antt =====
-- `ForwardWorkflow` of src/edgar_moe/forward/workflow.py: a forecast cycle and a settlement cycle.
use edgar_moe.Common.{
  String, Option, none, some, List, [], ◌∷◌, ◌++◌, if◌then◌else◌, ◌==◌, string_eq, length,
}
use edgar_moe.Common.Outcomes.{Outcome, returned, raised, ensure}
use edgar_moe.Registry.Records.{Instant, Json, RunType, RunRegistration, QualityCheckDraft}
use edgar_moe.Registry.Session.{ForwardRegistry}
use edgar_moe.Registry.Registrations.{register_dataset, register_model, register_artifact}
use edgar_moe.Registry.Runs.{start_run, complete_run, fail_run}
use edgar_moe.Registry.Batches.{append_forecasts, settle_labels, add_quality_checks}
use edgar_moe.Registry.Reads.{has_dataset, latest_forecast_as_of, pending_forecasts}
use edgar_moe.PartialWrite.{ArtifactWriteError, record_partial_artifact}
use edgar_moe.Workflow.{
  Failure, artifact_write, quality, safe_exception_message, Process, give, throw, attempt, ◌>>=◌,
  ◌>>◌, catching, look, run_with, call, store_with,
}
use edgar_moe.Workflow.Checks.{
  Time, Dataset, aware_utc, require_near_now, require_not_future, require_dataset_not_future,
  freshness_check, source_coverage_checks, pre_open_schedule_margin_check,
}
use edgar_moe.Workflow.Matching.{match_all, settlement_check}
use edgar_moe.Workflow.Model.{
  LockedResult, FrozenModelSpec, Counts, forecast_counts, settlement_counts, Evidence,
  forecast_batch, settlement_batch, Details, forecast_details, settlement_details, ArtifactStore,
  Surroundings, Step, Occasion, WorkflowResult, value_error, verify_locked_evidence,
}

abbrev mapping_of : Option Json → Outcome Failure Json
mapping_of none = raised (value_error "Locked result champion parameters must be a mapping")
mapping_of (some parameters) = returned parameters

module _ {S : Type 0} (around : Surroundings) (registry : ForwardRegistry)
    (artifact_store : ArtifactStore S) (spec : FrozenModelSpec) (given : Occasion) where
  -- The training dataset is registered from its local bundle, once.
  unfoldable pub register_training : Process S (Unit {0})
  register_training = do
    attempt (
        ensure (around.is_dir spec.training_dataset_dir) (
          Failure.other "FileNotFoundError"
            "The frozen training dataset is not registered and its local bundle is unavailable"))
    dataset ← attempt (around.load spec.training_dataset_dir)
    registration ← attempt (around.dataset_registration dataset spec.training_dataset_dir)
    call (register_dataset registry (given.moment Step.training_dataset) registration)
    give tt

  unfoldable pub ensure_training_dataset : Process S (Unit {0})
  ensure_training_dataset = do
    is_known ← look (has_dataset spec.training_dataset_id)
    if is_known then give tt else register_training

  -- `_ensure_registrations`
  unfoldable pub ensure_registrations : Dataset → (dataset_dir : String) → Process S LockedResult
  ensure_registrations dataset dataset_dir = do
    locked ← attempt (verify_locked_evidence around spec)
    ensure_training_dataset
    registration ← attempt (around.dataset_registration dataset dataset_dir)
    call (register_dataset registry (given.moment Step.dataset) registration)
    reference ← store_with (artifact_store.put_file spec.model_path "frozen-model.pt")
    attempt (
        ensure (reference.sha256 == spec.artifact_sha256)
          (value_error "Artifact store returned an unexpected frozen-model hash"))
    parameters ← attempt (mapping_of locked.champion_parameters)
    call (
        register_model registry (given.moment Step.model) (record {
          model_id = spec.model_id;
          name = spec.name;
          version = spec.version;
          training_dataset_id = spec.training_dataset_id;
          selection_hash = spec.selection_hash;
          artifact_uri = reference.uri;
          artifact_sha256 = reference.sha256;
          config_hash = spec.config_hash;
          champion_family = locked.champion_family;
          parameters = parameters;
          frozen_at = spec.frozen_at;
        }))
    give locked

  abbrev registration_of :
      RunType → Instant → Dataset → (code_revision : String) → Details → RunRegistration
  registration_of run_type as_of dataset code_revision details = record {
    run_type = run_type;
    as_of = as_of;
    code_revision = code_revision;
    config_hash = spec.config_hash;
    dataset_id = some dataset.dataset_id;
    model_id = some spec.model_id;
    parent_run_id = none;
    details = around.details_json details;
  }

  -- The end of both cycles: the evidence is stored and registered, and the run is completed.
  unfoldable pub finish :
      (run_id kind logical_name : String) → Evidence → Counts → Process S WorkflowResult
  finish run_id kind logical_name evidence counts = do
    reference ← store_with (artifact_store.put_bytes (around.json_bytes evidence) logical_name)
    call (register_artifact registry (given.moment Step.artifact) run_id kind reference)
    call (complete_run registry (given.moment Step.complete) run_id (around.counts_json counts))
    give (record {
      run_id = run_id;
      status = "succeeded";
      counts = counts;
      artifact_uri = reference.uri;
    })

  -- `except Exception`
  unfoldable pub fail_with : (run_id : String) → Failure → Process S WorkflowResult
  fail_with run_id error = do
    call (
        fail_run registry (given.moment Step.fail) run_id
          (safe_exception_message registry.library (around.describe error)))
    throw error

  -- `except ArtifactWriteError`: `_record_partial_artifact`
  unfoldable pub fail_partially :
      (run_id kind : String) → ArtifactWriteError → Process S WorkflowResult
  fail_partially run_id kind error = do
    run_with (
        record_partial_artifact registry (given.moment Step.partial) (given.moment Step.fail) run_id
          kind error)
    throw (artifact_write error)

  -- `_record_failed_checks` swallows every error.
  unfoldable pub record_failed_checks :
      (run_id : String) → List QualityCheckDraft → Process S (Unit {0})
  record_failed_checks run_id checks =
      catching
        (do
          call (add_quality_checks registry (given.moment Step.failed_checks) run_id checks)
          give tt)
        λ _. give tt

  abbrev pub on_forecast_failure : (run_id : String) → Failure → Process S WorkflowResult
  on_forecast_failure run_id (artifact_write error) = fail_partially run_id "forecast_batch" error
  on_forecast_failure run_id (quality checks) = do
    record_failed_checks run_id checks
    fail_with run_id (quality checks)
  on_forecast_failure run_id (Failure.registry e) = fail_with run_id (Failure.registry e)
  on_forecast_failure run_id (Failure.other name text) = fail_with run_id (Failure.other name text)

  abbrev pub on_settlement_failure : (run_id : String) → Failure → Process S WorkflowResult
  on_settlement_failure run_id (artifact_write error) =
      fail_partially run_id "settlement_batch" error
  on_settlement_failure run_id (quality checks) = fail_with run_id (quality checks)
  on_settlement_failure run_id (Failure.registry e) = fail_with run_id (Failure.registry e)
  on_settlement_failure run_id (Failure.other name text) =
      fail_with run_id (Failure.other name text)

  -- The body of the `try` of `forecast`.
  unfoldable pub forecast_body :
      (run_id : String)
      → Dataset
      → LockedResult
      → (forecast_as_of : Instant) (previous_forecast_as_of : Option Instant)
      → Process S WorkflowResult
  forecast_body run_id dataset locked forecast_as_of previous = do
    batch ← attempt (around.predict spec dataset forecast_as_of)
    recording_at ← attempt (aware_utc given.recording_at)
    let all_checks =
        batch.checks
        ++ freshness_check around.texts dataset forecast_as_of
          ∷ source_coverage_checks around.texts dataset forecast_as_of previous
        ++ pre_open_schedule_margin_check around.texts around.calendar recording_at ∷ []
    quality_counts ← call (add_quality_checks registry (given.moment Step.checks) run_id all_checks)
    counts ← call (append_forecasts registry (given.moment Step.rows) run_id batch.forecasts)
    finish run_id "forecast_batch" "forecast-batch.json"
        (forecast_batch run_id dataset.dataset_id forecast_as_of locked.locked_test_hash all_checks
          batch.forecasts)
        (forecast_counts counts.inserted counts.idempotent_skips quality_counts.inserted)

  unfoldable pub forecast :
      (dataset_dir : String) (as_of : Time) (code_revision : String) → Process S WorkflowResult
  forecast dataset_dir as_of code_revision = do
    forecast_as_of ← attempt (aware_utc as_of)
    now ← attempt (aware_utc given.now)
    attempt (require_near_now forecast_as_of now)
    dataset ← attempt (around.load dataset_dir)
    attempt (require_dataset_not_future dataset forecast_as_of)
    locked ← ensure_registrations dataset dataset_dir
    previous ← look (latest_forecast_as_of spec.model_id)
    run ← call (
        start_run registry (given.moment Step.start)
          (registration_of RunType.forecast forecast_as_of dataset code_revision
            (forecast_details dataset.as_of spec.selection_hash spec.locked_test_hash))
          none given.new_run_id)
    catching (forecast_body run.run_id dataset locked forecast_as_of previous)
        (on_forecast_failure run.run_id)

  -- The body of the `try` of `settle`.
  unfoldable pub settle_body :
      (run_id : String) → Dataset → (settlement_as_of : Instant) → Process S WorkflowResult
  settle_body run_id dataset settlement_as_of = do
    pending ← look (pending_forecasts settlement_as_of (some spec.model_id))
    let matches = match_all dataset settlement_as_of pending
    quality_counts ← call (
        add_quality_checks registry (given.moment Step.checks) run_id
          (settlement_check around.texts pending matches ∷ []))
    counts ← call (settle_labels registry (given.moment Step.rows) run_id matches.labels)
    finish run_id "settlement_batch" "settlement-batch.json"
        (settlement_batch run_id dataset.dataset_id settlement_as_of matches.labels
          matches.unmatched_ids)
        (settlement_counts counts.inserted counts.idempotent_skips (length matches.unmatched_ids)
          quality_counts.inserted)

  unfoldable pub settle :
      (dataset_dir : String) (as_of : Time) (code_revision : String) → Process S WorkflowResult
  settle dataset_dir as_of code_revision = do
    settlement_as_of ← attempt (aware_utc as_of)
    now ← attempt (aware_utc given.now)
    attempt (require_not_future settlement_as_of now)
    dataset ← attempt (around.load dataset_dir)
    attempt (require_dataset_not_future dataset settlement_as_of)
    ensure_registrations dataset dataset_dir
    run ← call (
        start_run registry (given.moment Step.start)
          (registration_of RunType.settlement settlement_as_of dataset code_revision
            (settlement_details dataset.as_of))
          none given.new_run_id)
    catching (settle_body run.run_id dataset settlement_as_of) (on_settlement_failure run.run_id)
