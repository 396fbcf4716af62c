-- ===== src/Alerts.antt =====
-- Operational alerts: the classification and severity of src/edgar_moe/forward/alerts.py, and what
-- `ForwardRegistry.status` hands to it.
pub mod RegistryHealth
mod Tests
use edgar_moe.Common.{
  ℕ, String, Bool, true, false, not, ◌&&◌, ◌||◌, Option, none, some, List, [], ◌∷◌, map,
  if◌then◌else◌, ◌==◌, ltb, string_eq,
}
use edgar_moe.Registry.Records.{RunStatus, running, succeeded}
use edgar_moe.Registry.Status.{Health, ok, degraded, Status}

pub data AlertKind : Type 0 where
  failed_run stale_runner registry_unavailable quality_failure quality_warning : AlertKind

pub data Severity : Type 0 where
  critical warning : Severity

-- `_SEVERITY`
abbrev pub severity : AlertKind → Severity
severity failed_run = critical
severity registry_unavailable = critical
severity stale_runner = Severity.warning
severity quality_failure = critical
severity quality_warning = Severity.warning

-- A value of a status payload; `.get` of a missing key is `null`.
pub data Value : Type 0 where
  null other : Value
  flag : Bool → Value
  int : ℕ → Value
  text : String → Value
  texts : List String → Value

-- Python's floats: `float(value)` where it is finite, `>`, and `int`. The conversion is not asked
-- for a Boolean or `None`.
pub record Floats : Type 1 where
  pub Float : Type 0
  pub to_float : Value → Option Float
  pub gt : Float → Float → Bool
  pub is_positive : Float → Bool
  pub truncate : Float → ℕ

pub record StatusPayload : Type 0 where
  pub available : Value
  pub registry_available : Value
  pub health_status : Value
  pub latest_run_status : Value
  pub latest_cycle_forecast_status : Value
  pub latest_quality_failures : Value
  pub latest_quality_warnings : Value
  pub latest_quality_warning_names : Value
  pub age_seconds : Value
  pub stale_after_seconds : Value

abbrev pub is_false : Value → Bool
is_false (flag false) = true
is_false _ = false

abbrev pub is_text : String → Value → Bool
is_text s (text t) = t == s
is_text s _ = false

-- `_EXPECTED_QUALITY_WARNINGS`
abbrev pub all_expected : List String → Bool
all_expected [] = true
all_expected (n ∷ ns) = (n == "prospective_candidate_count") && all_expected ns

-- `_only_expected_warnings`
abbrev pub only_expected_warnings : StatusPayload → Bool
only_expected_warnings s = elim s.latest_quality_warning_names [
  | texts [] ↦ false
  | texts (n ∷ ns) ↦ all_expected (n ∷ ns)
  | _ ↦ false
]

module _ (floats : Floats) where
  -- `_number`
  abbrev pub number : Value → Option floats.Float
  number null = none
  number (flag b) = none
  number v = floats.to_float v

  -- `_positive_int(value)` as a condition: an integer part of zero is false
  abbrev pub positive_int : Value → Bool
  positive_int v = elim (number v) [
    | none ↦ false
    | some f ↦ floats.is_positive f && ltb 0 (floats.truncate f)
  ]

  -- `age is not None and stale_after is not None and age > stale_after`
  abbrev pub exceeds : Value → Value → Bool
  exceeds age stale_after = elim (number age) [
    | none ↦ false
    | some a ↦ elim (number stale_after) [ none ↦ false | some b ↦ floats.gt a b ]
  ]

  unfoldable pub classify_forward_status : StatusPayload → Option AlertKind
  classify_forward_status s =
      let warns = positive_int s.latest_quality_warnings in
      let expected = only_expected_warnings s in
      if is_false s.available
        || is_false s.registry_available
        || is_text "unavailable" s.health_status
      then some registry_unavailable
      else if is_text "failed" s.latest_run_status
          || is_text "failed" s.latest_cycle_forecast_status
      then some failed_run
      else if positive_int s.latest_quality_failures
      then some quality_failure
      else if exceeds s.age_seconds s.stale_after_seconds
      then some stale_runner
      else if warns && not expected
      then some quality_warning
      else if is_text "warning" s.health_status
      then if warns && expected then none else some quality_warning
      else if is_text "degraded" s.health_status
      then some stale_runner
      else none

abbrev pub health_text : Health → String
health_text ok = "ok"
health_text Health.warning = "warning"
health_text degraded = "degraded"

abbrev pub run_status_text : Option RunStatus → Value
run_status_text none = null
run_status_text (some running) = text "running"
run_status_text (some succeeded) = text "succeeded"
run_status_text (some RunStatus.failed) = text "failed"

abbrev optional_int : Option ℕ → Value
optional_int none = null
optional_int (some n) = int n

-- The dictionary that `ForwardRegistry.status` returns. It has no key for availability.
abbrev pub payload_of : Status → StatusPayload
payload_of s = record {
  available = null;
  registry_available = null;
  health_status = text (health_text s.health_status);
  latest_run_status = run_status_text s.latest_run_status;
  latest_cycle_forecast_status = run_status_text s.latest_cycle_forecast_status;
  latest_quality_failures = int s.latest_quality_failures;
  latest_quality_warnings = int s.latest_quality_warnings;
  latest_quality_warning_names = texts s.latest_quality_warning_names;
  age_seconds = optional_int s.age_seconds;
  stale_after_seconds = int s.stale_after_seconds;
}
