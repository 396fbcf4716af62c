-- ===== src/Registry/Tests.antt =====
-- A registry with stand-ins for the library code, one day of its use, and the theorems there.
use edgar_moe.Common.{
  false, ◌≢◌, ap, String, ◌≡◌, refl, Option, none, some, List, [], ◌∷◌, ◌++◌, length, has,
  string_eq,
}
use Prim.Native.String
use edgar_moe.Registry.Records.{
  RunType, DatasetRegistration, ModelRegistration, RunRegistration, ForecastDraft, RunRecord,
  running, ForecastRecord, AuditEvent, Database,
}
use edgar_moe.Registry.Session.{
  Payload, payload_hash, audit_row, batch, get_run, Error, Library, ForwardRegistry, Moment, ok,
  err,
}
use edgar_moe.Registry.Commands.{Command, execute, play, registry_code}
use edgar_moe.Registry.Growth.{Grows, Grows-refl}
use edgar_moe.Registry.Batches.{append_forecasts, find_forecast}
use edgar_moe.Registry.Forecasts.Repeat.{append_forecasts_again, append_forecasts_conflict}
use text.Mathlib.Text.{◌==◌ as str_eq}
use text.Mathlib.TextPositions.{eq_refl}
use edgar_moe.Registry.Invariant.{IsSound}
use edgar_moe.Registry.Commands.Integrity.{play-Grows, play-IsSound}

-- A text that tells the payloads of the tests apart.
abbrev dumps : Payload → String
dumps (Payload.dataset r) = r.manifest_sha256
dumps (Payload.model r) = r.selection_hash
dumps (Payload.forecast model_id dataset_id event_id as_of d) = String.◌++◌ event_id d.score
dumps (Payload.label d) = d.realized_abnormal_return
dumps (Payload.check d) = d.name
dumps (Payload.artifact run_id kind uri sha256 size) = uri
dumps (Payload.audit_identity action entity_type entity_id actor payload) = action

abbrev pub library : Library
library = record {
  dumps = dumps;
  audit_dumps = λ _. "{}";
  sha256_hex = λ s. s;
  isoformat = λ _. "2026-09-01";
  collapse_spaces = λ s. s;
  redact_urls = λ s. s;
  redact_secrets = λ s. s;
}

abbrev pub registry : ForwardRegistry
registry = record { library = library; actor = "edgar-moe" }

abbrev pub at : String → Moment
at audit_id = record { now = 500; audit_id = audit_id }

abbrev pub empty : Database
empty = record {
  datasets = [];
  models = [];
  runs = [];
  forecasts = [];
  labels = [];
  artifacts = [];
  checks = [];
  audits = [];
}

abbrev pub dataset : DatasetRegistration
dataset = record {
  dataset_id = "d1";
  as_of = "2026-09-01";
  source_manifest_hash = "s";
  manifest_sha256 = "m";
  row_counts = "{}";
  provenance = "{}";
}

abbrev model : ModelRegistration
model = record {
  model_id = "v1";
  name = "n";
  version = "1";
  training_dataset_id = "d1";
  selection_hash = "sel";
  artifact_uri = "local://a";
  artifact_sha256 = "a";
  config_hash = "c";
  champion_family = "moe";
  parameters = "{}";
  frozen_at = 1;
}

abbrev pub run_of : RunType → Option String → RunRegistration
run_of type parent = record {
  run_type = type;
  as_of = 100;
  code_revision = "r";
  config_hash = "c";
  dataset_id = some "d1";
  model_id = some "v1";
  parent_run_id = parent;
  details = "{}";
}

abbrev pub draft : String → String → ForecastDraft
draft event_id score = record {
  event_id = event_id;
  accession_number = "0";
  security_id = "s";
  ticker = "T";
  company_name = "C";
  form = "10-K";
  accepted_at = 90;
  entry_at = 110;
  entry_date = "2026-09-02";
  horizon_at = 400;
  industry_code = "1";
  score = score;
  rank = "0.5";
  fundamental_score = none;
  expert_weights = "{}";
  expert_predictions = "{}";
}

abbrev pub opened : List (Moment × Command)
opened =
    (at "a1", Command.dataset dataset)
    ∷ (at "a2", Command.model model)
    ∷ (at "a3", Command.start (run_of RunType.forecast none) (some "run-1") "new")
    ∷ []

abbrev pub day : List (Moment × Command)
day =
    opened
    ++ (at "a4", Command.forecasts "run-1" (draft "e1" "0.1" ∷ draft "e2" "0.2" ∷ []))
      ∷ (at "a5", Command.forecasts "run-1" (draft "e3" "0.3" ∷ draft "e1" "0.9" ∷ []))
      ∷ (at "a6", Command.complete "run-1" "{}")
      ∷ (at "a7", Command.fail "run-1" "late")
      ∷ []

-- The second batch contradicts a stored forecast, and the finished run cannot fail.
day_forecasts : length (play registry day empty).forecasts ≡ 2
unfolding registry_code
day_forecasts = refl

day_audits : length (play registry day empty).audits ≡ 5
unfolding registry_code
day_audits = refl

empty-IsSound : IsSound empty
empty-IsSound = record {
  models = tt;
  runs = tt;
  forecasts = tt;
  labels = tt;
  artifacts = tt;
  checks = tt;
}

play-Grows_example : Grows empty (play registry day empty)
play-Grows_example = play-Grows registry day empty

play-IsSound_example : IsSound (play registry day empty)
play-IsSound_example = play-IsSound registry day empty empty-IsSound

-- The database once the run is started, and once a batch is appended.
abbrev pub started : Database
started = play registry opened empty

abbrev pub two_drafts : List ForecastDraft
two_drafts = draft "e1" "0.1" ∷ draft "e2" "0.2" ∷ []

abbrev pub appended : Database
appended = (execute registry (at "a4") (Command.forecasts "run-1" two_drafts) started).1

abbrev pub run_1 : RunRecord
run_1 = record {
  run_id = "run-1";
  status = running;
  registration = run_of RunType.forecast none;
  result_counts = "{}";
  error_message = none;
  started_at = 500;
  finished_at = none;
}

pub first_batch :
    append_forecasts registry (at "a4") "run-1" two_drafts started
    ≡ ok (record { inserted = 2; idempotent_skips = 0 }, appended)
unfolding registry_code
first_batch = refl

pub run_1-appended : get_run appended "run-1" ≡ some run_1
unfolding registry_code
run_1-appended = refl

fresh_audit : has (λ (a : AuditEvent). a.audit_id) "a9" appended.audits ≡ false
unfolding registry_code
fresh_audit = refl

append_forecasts_again_example :
    append_forecasts registry (at "a9") "run-1" two_drafts appended
    ≡ ok (
      record { inserted = 0; idempotent_skips = 2 },
      record appended {
        audits =
            appended.audits
            ++ audit_row registry (at "a9") "forecast.batch_appended" "run" "run-1" (batch 0 2)
              ∷ [];
      },
    )
append_forecasts_again_example =
    append_forecasts_again registry (at "a4") (at "a9") "run-1" two_drafts started appended appended
      run_1 first_batch (Grows-refl appended) run_1-appended refl fresh_audit

abbrev pub stored_row : ForecastRecord
stored_row = record {
  forecast_id = "forecast-v1\u{1f}e1\u{1f}2026-09-01";
  run_id = "run-1";
  model_id = "v1";
  dataset_id = "d1";
  forecast_as_of = 100;
  draft = draft "e1" "0.1";
  payload_hash = "e10.1";
  created_at = 500;
}

stored_e1 : find_forecast "v1" "e1" 100 appended.forecasts ≡ some stored_row
unfolding registry_code
stored_e1 = refl

changed_hash :
    stored_row.payload_hash
    ≢ payload_hash library (Payload.forecast "v1" "d1" "e1" 100 (draft "e1" "0.9"))
unfolding payload_hash
changed_hash e = cc (eq_refl "e10.1", ap (λ (s : String). str_eq "e10.1" s) e)

append_forecasts_conflict_example :
    (e : Error) × (execute registry
        (at "a9")
        (Command.forecasts "run-1" (draft "e3" "0.3" ∷ draft "e1" "0.9" ∷ []))
        appended
      ≡ (err e, appended))
append_forecasts_conflict_example =
    append_forecasts_conflict registry (at "a9") "run-1" "v1" "d1" (draft "e3" "0.3" ∷ []) []
      (draft "e1" "0.9") appended run_1 stored_row run_1-appended refl refl stored_e1 changed_hash
