-- ===== src/Registry/Commands.antt =====
-- The writing methods of `ForwardRegistry` as commands, and sequences of them.
pub mod Integrity
use edgar_moe.Common.{String, Option, List, [], ◌∷◌, ◌++◌}
use edgar_moe.Registry.Records.{
  Json, DatasetRegistration, ModelRegistration, RunRegistration, ForecastDraft, LabelDraft,
  QualityCheckDraft, ArtifactReference, Database,
}
use edgar_moe.Registry.Session.{
  Result, Session, pure, ◌>>=◌, ◌>>◌, transaction, ForwardRegistry, Moment, session_code, audit,
  audit_row, require_running_run, require_running_type, require_optional_reference,
  redact_sensitive_text, payload_hash, stable_id, assert_same,
}
use edgar_moe.Registry.Registrations.{register_dataset, register_model, register_artifact}
use edgar_moe.Registry.Runs.{start_run, complete_run, fail_run}
use edgar_moe.Registry.Batches.{
  each, append_forecast, append_forecasts, settle_label, settle_labels, add_quality_check,
  add_quality_checks,
}

pub data Command : Type 0 where
  dataset : DatasetRegistration → Command
  model : ModelRegistration → Command
  start : RunRegistration → (run_id : Option String) (new_id : String) → Command
  complete : (run_id : String) (result_counts : Json) → Command
  fail : (run_id error_message : String) → Command
  forecasts : (run_id : String) → List ForecastDraft → Command
  labels : (run_id : String) → List LabelDraft → Command
  checks : (run_id : String) → List QualityCheckDraft → Command
  artifact : (run_id kind : String) → ArtifactReference → Command

module _ (self : ForwardRegistry) where
  -- The method that a command calls; what it returns besides the database is dropped.
  pub method : Moment → Command → Session (Unit {0})
  method m (Command.dataset r) = register_dataset self m r >> pure tt
  method m (Command.model r) = register_model self m r >> pure tt
  method m (Command.start r run_id new_id) = start_run self m r run_id new_id >> pure tt
  method m (Command.complete run_id counts) = complete_run self m run_id counts >> pure tt
  method m (Command.fail run_id message) = fail_run self m run_id message >> pure tt
  method m (Command.forecasts run_id ds) = append_forecasts self m run_id ds >> pure tt
  method m (Command.labels run_id ds) = settle_labels self m run_id ds >> pure tt
  method m (Command.checks run_id ds) = add_quality_checks self m run_id ds >> pure tt
  method m (Command.artifact run_id kind r) = register_artifact self m run_id kind r >> pure tt

  -- One call, and the database after it.
  unfoldable pub execute : Moment → Command → Database → Result (Unit {0}) × Database
  unfolding method
  execute m c db = transaction (method m c) db

  -- Calls one after another, whatever each of them raised.
  unfoldable pub play : List (Moment × Command) → Database → Database
  play [] db = db
  play ((m, c) ∷ cs) db = play cs (execute m c db).1

-- Everything that a test of these computes with.
unfoldable pub registry_code : Unit {0}
unfolding play execute session_code audit audit_row require_running_run require_running_type
    require_optional_reference redact_sensitive_text payload_hash stable_id assert_same
    register_dataset register_model register_artifact start_run complete_run fail_run each
    append_forecast append_forecasts settle_label settle_labels add_quality_check add_quality_checks
registry_code = tt
