-- ===== src/Workflow/Tests.antt =====
-- A forecast cycle and a settlement cycle over stand-ins for what surrounds the workflow.
use edgar_moe.Common.{
  arith, ◌≡◌, ◌≢◌, ◌↔◌, refl, sym, subst, map, length, inl, String, true, false, none, some, [],
  ◌∷◌, ◌==◌, string_eq, Member,
}
use Prim.Native.String
use edgar_moe.Common.Outcomes.{Outcome, returned, raised, ensure}
use edgar_moe.Common.Outcomes
use edgar_moe.Registry.Records.{
  Instant, ArtifactReference, RunRecord, RunStatus, RunType, ForecastRecord,
}
use edgar_moe.Registry.Tests.{registry, at, draft, run_of, stored_row, empty, dataset}
use edgar_moe.Registry.Commands.{registry_code, Command, execute}
use edgar_moe.Registry.Reads.{latest_forecast_as_of, pending_forecasts}
use edgar_moe.Registry.Reads.Order.{IsSortedBy}
use edgar_moe.Registry.Reads.Pending.{
  IsDue, horizon, pending_forecasts_iff, pending_forecasts-IsSortedBy,
}
use edgar_moe.Registry.Labelled.{HasLabel}
use edgar_moe.PartialWrite.{record_partial_artifact}
use edgar_moe.Timing.{target_nyse_open}
use edgar_moe.Workflow.{
  Failure, World, give, throw, attempt, ◌>>=◌, catching, look, run_with, call, store_with,
  safe_exception_message, artifact_write,
}
use edgar_moe.Workflow.Checks.{
  Time, Event, Dataset, Texts, aware_utc, require_near_now, require_not_future,
  require_dataset_not_future, pre_open_schedule_margin_check,
}
use edgar_moe.Workflow.Model.{
  LockedResult, FrozenModelSpec, ArtifactStore, Surroundings, Step, Occasion, WorkflowResult,
  Counts, verify_locked_evidence,
}
use edgar_moe.Workflow.Cycle.{
  register_training, ensure_training_dataset, ensure_registrations, finish, fail_with,
  fail_partially, record_failed_checks, forecast_body, forecast, settle_body, settle,
}
use edgar_moe.Workflow.Registrations.{IsReserved}
use edgar_moe.Workflow.Ends.{Closes}
use edgar_moe.Workflow.Cycles.{forecast-Closes, settle-Closes}
use edgar_moe.Workflow.Targets.{HasTarget}
use edgar_moe.Workflow.Labels.{settle_body-labels}

abbrev locked : LockedResult
locked = record {
  locked_test_hash = "lock";
  unsigned_hash = "lock";
  dataset_id = "d1";
  selection_hash = "sel";
  model_sha256 = "model";
  champion_family = "moe";
  champion_parameters = some "{}";
}

abbrev spec : FrozenModelSpec
spec = record {
  model_id = "v1";
  name = "n";
  version = "1";
  training_dataset_id = "d1";
  training_dataset_dir = "train";
  model_path = "model.pt";
  locked_result_path = "locked.json";
  artifact_sha256 = "model";
  selection_hash = "sel";
  locked_test_hash = "lock";
  frozen_at = 1;
  config_hash = "c";
}

abbrev event : Event
event = record {
  event_id = "e1";
  accepted_at = 90;
  entry_at = 110;
  horizon_at = 400;
  target = some "0.2";
}

abbrev loaded : Dataset
loaded = record {
  dataset_id = "d1";
  as_of = 0;
  recent_download_failures = some 0;
  has_event_times = true;
  events = event ∷ [];
}

abbrev texts : Texts
texts = record { float = λ n. "0"; seconds = λ t. "0"; ratio = λ a b. "1"; details = λ d. "{}" }

abbrev around : Surroundings
around = record {
  sha256_file = λ path. returned "model";
  locked_result = λ path. returned (some locked);
  is_dir = λ path. true;
  load = λ dir. returned loaded;
  dataset_registration = λ d dir. returned dataset;
  predict = λ s d t. returned (record { forecasts = draft "e1" "0.1" ∷ []; checks = [] });
  calendar = record { local_date = λ t. 0; schedule = λ a b. [] };
  texts = texts;
  counts_json = λ c. "{}";
  details_json = λ d. "{}";
  json_bytes = λ e. "evidence";
  describe = λ e. record { error_type = "Error"; text = ""; is_ours = false };
}

abbrev reference : ArtifactReference
reference = record { uri = "local://k"; sha256 = "model"; size_bytes = 3; key = "k" }

-- A store that keeps nothing, and one whose mirror fails.
abbrev store : ArtifactStore (Unit {0})
store = record {
  put_bytes = λ content name s. (returned reference, s);
  put_file = λ path name s. (returned reference, s);
}

abbrev unmirrored : ArtifactStore (Unit {0})
unmirrored = record {
  put_bytes = λ content name s. (
    raised (artifact_write (record { primary_reference = reference; cause_type = "OSError" })),
    s,
  );
  put_file = λ path name s. (returned reference, s);
}

abbrev step_id : Step → String
step_id Step.training_dataset = "t"
step_id Step.dataset = "d"
step_id Step.model = "m"
step_id Step.start = "s"
step_id Step.checks = "c"
step_id Step.rows = "r"
step_id Step.artifact = "a"
step_id Step.complete = "e"
step_id Step.failed_checks = "q"
step_id Step.partial = "p"
step_id Step.fail = "f"

abbrev given_as : (prefix run_id : String) → Occasion
given_as prefix run_id = record {
  now = Time.aware 100;
  recording_at = Time.aware 100;
  moment = λ step. at (String.◌++◌ prefix (step_id step));
  new_run_id = run_id;
}

abbrev start : World (Unit {0})
start = record { database = empty; artifacts = tt }

unfoldable workflow_code : Unit {0}
unfolding registry_code latest_forecast_as_of pending_forecasts record_partial_artifact
    target_nyse_open give throw attempt ◌>>=◌ catching look run_with call store_with
    safe_exception_message aware_utc require_near_now require_not_future require_dataset_not_future
    pre_open_schedule_margin_check verify_locked_evidence register_training ensure_training_dataset
    ensure_registrations finish fail_with fail_partially record_failed_checks forecast_body forecast
    settle_body settle ensure Outcomes.◌>>=◌
workflow_code = tt

module _ (prefix : String) where
  abbrev IsOther : Step → Type 0
  IsOther step =
      (((given_as prefix "").moment step).audit_id
        == ((given_as prefix "").moment Step.fail).audit_id)
      ≡ false

first_others : (step : Step) → step ≢ Step.fail → IsOther "1" step
first_others Step.fail h = absurd (h refl)
first_others step h = refl

second_others : (step : Step) → step ≢ Step.fail → IsOther "2" step
second_others Step.fail h = absurd (h refl)
second_others step h = refl

first-IsReserved : IsReserved (given_as "1" "run-1") empty
first-IsReserved = record { fresh = refl; others = first_others }

abbrev run_end : RunRecord → String × RunStatus
run_end r = (r.run_id, r.status)

-- A forecast cycle that returns, and one whose mirror fails.
abbrev forecast_cycle : ArtifactStore (Unit {0}) → Outcome Failure WorkflowResult × World (Unit {0})
forecast_cycle artifact_store =
    forecast around registry artifact_store spec (given_as "1" "run-1") "dir" (Time.aware 100) "rev"
      start

cycle_runs :
    map run_end (forecast_cycle store).1.database.runs ≡ ("run-1", RunStatus.succeeded) ∷ []
unfolding workflow_code
cycle_runs = refl

unmirrored_runs :
    map run_end (forecast_cycle unmirrored).1.database.runs ≡ ("run-1", RunStatus.failed) ∷ []
unfolding workflow_code
unmirrored_runs = refl

-- The partial artifact stays registered.
unmirrored_artifacts : length (forecast_cycle unmirrored).1.database.artifacts ≡ 1
unfolding workflow_code
unmirrored_artifacts = refl

forecast-Closes_example : Closes empty.runs (forecast_cycle unmirrored)
forecast-Closes_example =
    forecast-Closes around registry unmirrored spec (given_as "1" "run-1") "dir" (Time.aware 100)
      "rev" start first-IsReserved

abbrev after_forecast : World (Unit {0})
after_forecast = (forecast_cycle store).1

abbrev settling : Occasion
settling = record (given_as "2" "run-2") { now = Time.aware 500 }

second-IsReserved : IsReserved settling after_forecast.database
unfolding workflow_code
second-IsReserved = record { fresh = refl; others = second_others }

settle-Closes_example :
    Closes after_forecast.database.runs
      (settle around registry store spec settling "dir" (Time.aware 500) "rev" after_forecast)
settle-Closes_example =
    settle-Closes around registry store spec settling "dir" (Time.aware 500) "rev" after_forecast
      second-IsReserved

-- The settlement's run is open.
abbrev settlement_started : World (Unit {0})
settlement_started = record {
  database =
      (execute registry (at "2s")
        (Command.start (record (run_of RunType.settlement none) { as_of = 500 }) none "run-2")
        after_forecast.database).1;
  artifacts = tt;
}

abbrev settled : Outcome Failure WorkflowResult × World (Unit {0})
settled = settle_body around registry store spec settling "run-2" loaded 500 settlement_started

settled_result : settled ≡ (
  returned (record {
    run_id = "run-2";
    status = "succeeded";
    counts = Counts.settlement_counts 1 0 0 1;
    artifact_uri = "local://k";
  }),
  settled.1,
)
unfolding workflow_code
settled_result = refl

abbrev due : ForecastRecord
due = record stored_row { draft = draft "e1" "0.1"; run_id = "run-1" }

due_pending : pending_forecasts 500 (some "v1") settlement_started.database ≡ due ∷ []
unfolding workflow_code
due_pending = refl

due_target : HasTarget loaded 500 due.event_id
due_target = record {
  before = [];
  event = event;
  after = [];
  target = "0.2";
  placed = refl;
  named = refl;
  last = tt;
  finite = refl;
  due = omega arith;
}

settle_body-labels_example :
    HasLabel due.forecast_id settled.1.database
    × ((later : Instant) → ¬ Member due (pending_forecasts later (some "v1") settled.1.database))
settle_body-labels_example =
    settle_body-labels around registry store spec settling "run-2" loaded 500 settlement_started
      settled.1 _ settled_result due (subst (Member due) (sym due_pending) (inl refl)) due_target

pending_forecasts_iff_example :
    Member due (pending_forecasts 500 (some "v1") settlement_started.database)
    ↔ IsDue 500 (some "v1") settlement_started.database due
pending_forecasts_iff_example =
    pending_forecasts_iff 500 (some "v1") settlement_started.database due

pending_forecasts-IsSortedBy_example :
    IsSortedBy horizon (pending_forecasts 500 (some "v1") settlement_started.database)
pending_forecasts-IsSortedBy_example =
    pending_forecasts-IsSortedBy 500 (some "v1") settlement_started.database
