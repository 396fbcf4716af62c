-- ===== src/Workflow/Model.antt =====
-- What `ForwardWorkflow` of src/edgar_moe/forward/workflow.py is given, and `FrozenModelSpec` of
-- src/edgar_moe/forward/config.py with its check of the locked evidence.
use edgar_moe.Common.{ℕ, String, Bool, Option, none, some, List, ◌==◌, string_eq, ◌&&◌}
use edgar_moe.Common.Outcomes.{Outcome, returned, raised, ensure, ◌>>=◌, ◌>>◌}
use edgar_moe.Registry.Records.{
  Instant, Json, DatasetRegistration, ForecastDraft, LabelDraft, QualityCheckDraft,
  ArtifactReference,
}
use edgar_moe.Registry.Session.{Moment}
use edgar_moe.Timing.{Calendar}
use edgar_moe.Workflow.{Failure, Description}
use edgar_moe.Workflow.Checks.{Time, Dataset, Texts}

-- `locked_result.json` as the code reads it. The hash is that of its other fields; parameters that
-- are no mapping are absent, and a missing key counts as an empty mapping.
pub record LockedResult : Type 0 where
  pub locked_test_hash : String
  pub unsigned_hash : String
  pub dataset_id : String
  pub selection_hash : String
  pub model_sha256 : String
  pub champion_family : String
  pub champion_parameters : Option Json

pub record FrozenModelSpec : Type 0 where
  pub model_id : String
  pub name : String
  pub version : String
  pub training_dataset_id : String
  pub training_dataset_dir : String
  pub model_path : String
  pub locked_result_path : String
  pub artifact_sha256 : String
  pub selection_hash : String
  pub locked_test_hash : String
  pub frozen_at : Instant
  pub config_hash : String

pub record ForecastBatch : Type 0 where
  pub forecasts : List ForecastDraft
  pub checks : List QualityCheckDraft

-- The `result_counts` of a run.
pub data Counts : Type 0 where
  forecast_counts : (forecasts_inserted forecasts_idempotent quality_checks_inserted : ℕ) → Counts
  settlement_counts :
      (labels_inserted labels_idempotent unmatched quality_checks_inserted : ℕ) → Counts

-- What is written to the artifact store.
pub data Evidence : Type 0 where
  forecast_batch :
      (run_id dataset_id : String) (forecast_as_of : Instant) (locked_test_hash : String)
      (quality_checks : List QualityCheckDraft) (forecasts : List ForecastDraft)
      → Evidence
  settlement_batch :
      (run_id dataset_id : String) (settlement_as_of : Instant) (labels : List LabelDraft)
      (unmatched_forecast_ids : List String)
      → Evidence

pub data Details : Type 0 where
  forecast_details : (dataset_as_of : ℕ) (selection_hash locked_test_hash : String) → Details
  settlement_details : (dataset_as_of : ℕ) → Details

-- `ArtifactStore`: a store may be changed by a write that raises.
pub record ArtifactStore (S : Type 0) : Type 0 where
  pub put_bytes : (content logical_name : String) → S → Outcome Failure ArtifactReference × S
  pub put_file : (path logical_name : String) → S → Outcome Failure ArtifactReference × S

-- Files, the frozen predictor, the exchange calendar, JSON and the description of an error.
pub record Surroundings : Type 0 where
  pub sha256_file : (path : String) → Outcome Failure String
  pub locked_result : (path : String) → Outcome Failure (Option LockedResult)
  pub is_dir : (path : String) → Bool
  pub load : (dataset_dir : String) → Outcome Failure Dataset
  pub dataset_registration : Dataset → (dataset_dir : String) → Outcome Failure DatasetRegistration
  pub predict : FrozenModelSpec → Dataset → (as_of : Instant) → Outcome Failure ForecastBatch
  pub calendar : Calendar
  pub texts : Texts
  pub counts_json : Counts → Json
  pub details_json : Details → Json
  pub json_bytes : Evidence → String
  pub describe : Failure → Description

-- The transactions of one call of the workflow, each of which happens once at most.
pub data Step : Type 0 where
  training_dataset dataset model start checks rows artifact complete : Step
  failed_checks partial fail : Step

-- What one call is given: the readings of the clock, the moment of each transaction, and what
-- `_new_id("run")` gives.
pub record Occasion : Type 0 where
  pub now : Time
  pub recording_at : Time
  pub moment : Step → Moment
  pub new_run_id : String

pub record WorkflowResult : Type 0 where
  pub run_id : String
  pub status : String
  pub counts : Counts
  pub artifact_uri : String

abbrev pub value_error : String → Failure
value_error text = Failure.other "ValueError" text

abbrev object_of : Option LockedResult → Outcome Failure LockedResult
object_of none = raised (value_error "Locked result must contain a JSON object")
object_of (some payload) = returned payload

-- `FrozenModelSpec.verify_locked_evidence`
unfoldable pub verify_locked_evidence :
    Surroundings → FrozenModelSpec → Outcome Failure LockedResult
verify_locked_evidence around spec = do
  actual ← around.sha256_file spec.model_path
  ensure (actual == spec.artifact_sha256)
      (value_error "Frozen model artifact SHA-256 does not match the reviewed spec")
  payload ← object_of (← around.locked_result spec.locked_result_path)
  ensure
      (payload.locked_test_hash == spec.locked_test_hash
        && payload.unsigned_hash == spec.locked_test_hash)
      (value_error "Locked-test hash verification failed")
  ensure (payload.dataset_id == spec.training_dataset_id)
      (value_error "Locked result has an unexpected dataset_id")
  ensure (payload.selection_hash == spec.selection_hash)
      (value_error "Locked result has an unexpected selection_hash")
  ensure (payload.model_sha256 == spec.artifact_sha256)
      (value_error "Locked result has an unexpected model_sha256")
  returned payload
