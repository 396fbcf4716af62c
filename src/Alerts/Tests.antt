-- ===== src/Alerts/Tests.antt =====
-- The status and the alert of a registry with one failed run.
use edgar_moe.Common.{ℕ, ◌≡◌, refl, Option, none, some, [], ◌∷◌, ltb, arith}
use edgar_moe.Registry.Records.{RunType, RunRecord, RunStatus, Database}
use edgar_moe.Registry.Status.{degraded, status}
use edgar_moe.Alerts.{failed_run, Value, int, Floats, classify_forward_status, payload_of}
use edgar_moe.Alerts.RegistryHealth.{AreExact, RaisesDuly, status-RaisesDuly}

abbrev to_natural : Value → Option ℕ
to_natural (int n) = some n
to_natural _ = none

-- Floats that hold natural numbers only.
abbrev floats : Floats
floats = record {
  Float = ℕ;
  to_float = to_natural;
  gt = λ a b. ltb b a;
  is_positive = λ n. ltb 0 n;
  truncate = λ n. n;
}

exact : AreExact floats 9007199254740992
exact = record {
  of = λ n. n;
  converts = λ n h. refl;
  ordered = λ a b h k. refl;
  signed = λ n h. refl;
  whole = λ n h. refl;
}

abbrev failed_forecast : RunRecord
failed_forecast = record {
  run_id = "run-1";
  status = RunStatus.failed;
  registration = record {
    run_type = RunType.forecast;
    as_of = 100;
    code_revision = "r";
    config_hash = "c";
    dataset_id = some "d1";
    model_id = some "v1";
    parent_run_id = none;
    details = "{}";
  };
  result_counts = "{}";
  error_message = some "late";
  started_at = 100;
  finished_at = some 200;
}

abbrev one_failed : Database
one_failed = record {
  datasets = [];
  models = [];
  runs = failed_forecast ∷ [];
  forecasts = [];
  labels = [];
  artifacts = [];
  checks = [];
  audits = [];
}

reported : (status 500 3600 one_failed).health_status ≡ degraded
unfolding status
reported = refl

raised : classify_forward_status floats (payload_of (status 500 3600 one_failed)) ≡ some failed_run
unfolding status classify_forward_status
raised = refl

status-RaisesDuly_example :
    RaisesDuly
      (status 500 3600 one_failed)
      (classify_forward_status floats (payload_of (status 500 3600 one_failed)))
unfolding status
status-RaisesDuly_example =
    status-RaisesDuly floats 9007199254740992 exact 500 3600 one_failed (record {
      age = tt;
      stale_after = omega arith;
      failures = omega arith;
      warnings = omega arith;
    })
