-- ===== src/Workflow/Checks.antt =====
-- The tests and the quality checks of src/edgar_moe/forward/workflow.py.
use edgar_moe.Common.{
  ℕ, suc, ◌+◌, ◌-◌, ◌*◌, ◌/◌, String, Bool, ◌&&◌, Option, none, some, List, [], ◌∷◌, ◌++◌,
  if◌then◌else◌, ltb, leb,
}
use edgar_moe.Common.Outcomes.{Outcome, returned, raised, ensure}
use edgar_moe.Registry.Records.{Instant, Json, Number, CheckStatus, QualityCheckDraft}
use edgar_moe.Timing.{Calendar, target_nyse_open}
use edgar_moe.Workflow.{Failure}

-- A `datetime`, with its UTC instant when it has a time zone.
pub data Time : Type 0 where
  naive : Time
  aware : Instant → Time

-- The parts of a `ResearchDataset` that the workflow reads. `as_of` is a day number, and a target
-- that is not finite is absent.
pub record Event : Type 0 where
  pub event_id : String
  pub accepted_at : Instant
  pub entry_at : Instant
  pub horizon_at : Instant
  pub target : Option Number

pub record Dataset : Type 0 where
  pub dataset_id : String
  pub as_of : ℕ
  pub recent_download_failures : Option ℕ
  pub has_event_times : Bool
  pub events : List Event

-- What the `details` of a check record.
pub data CheckDetails : Type 0 where
  dataset_vintage : (as_of : ℕ) → CheckDetails
  download_window : CheckDetails
  missed_rule : (previous_forecast_as_of : Instant) → CheckDetails
  margin_unavailable : (observed_at : Instant) → CheckDetails
  margin_available : (observed_at target_open : Instant) (is_before_open : Bool) → CheckDetails
  settlement_matches : (due : ℕ) (unmatched_forecast_ids : List String) → CheckDetails

-- Floats and JSON: a number, a duration in seconds, a quotient, and the details of a check.
pub record Texts : Type 0 where
  pub float : ℕ → Number
  pub seconds : Instant → Number
  pub ratio : ℕ → ℕ → Number
  pub details : CheckDetails → Json

abbrev pub day_of : Instant → ℕ
day_of t = t / 86400000000

-- 15 minutes, and 90 minutes
abbrev tolerance : Instant
tolerance = 900 * 1000000

abbrev pub minimum_pre_open_margin : Instant
minimum_pre_open_margin = 5400 * 1000000

unfoldable pub aware_utc : Time → Outcome Failure Instant
aware_utc Time.naive = raised (Failure.other "ValueError" "Workflow as-of must be timezone-aware")
aware_utc (Time.aware t) = returned t

unfoldable pub require_near_now : (value now : Instant) → Outcome Failure (Unit {0})
require_near_now value now = ensure (leb now (value + tolerance) && leb value (now + tolerance)) (
    Failure.other "ValueError"
      "Prospective forecast as-of must be within 15 minutes of the recording clock; backdated forecast runs are forbidden")

unfoldable pub require_not_future : (value now : Instant) → Outcome Failure (Unit {0})
require_not_future value now =
    ensure (leb value (now + tolerance))
      (Failure.other "ValueError" "Settlement as-of cannot be in the future")

unfoldable pub require_dataset_not_future : Dataset → (as_of : Instant) → Outcome Failure (Unit {0})
require_dataset_not_future dataset as_of =
    ensure (leb dataset.as_of (day_of as_of))
      (Failure.other "ValueError" "Dataset vintage cannot be later than the workflow as-of")

abbrev pub passed_if : Bool → CheckStatus
passed_if b = if b then CheckStatus.passed else CheckStatus.warning

module _ (texts : Texts) where
  abbrev pub freshness_check : Dataset → (forecast_as_of : Instant) → QualityCheckDraft
  freshness_check dataset forecast_as_of =
      let freshness_days = day_of forecast_as_of - dataset.as_of in
      record {
        name = "dataset_freshness_days";
        status = passed_if (leb freshness_days 4);
        observed_value = some (texts.float freshness_days);
        threshold = some (texts.float 4);
        details = texts.details (dataset_vintage dataset.as_of);
      }

  -- `accepted > previous_forecast_as_of` and `entry <= forecast_as_of`
  abbrev pub is_missed : (previous forecast_as_of : Instant) → Event → Bool
  is_missed previous forecast_as_of e = ltb previous e.accepted_at && leb e.entry_at forecast_as_of

  abbrev pub count_missed : (previous forecast_as_of : Instant) → List Event → ℕ
  count_missed previous forecast_as_of [] = 0
  count_missed previous forecast_as_of (e ∷ es) =
      if is_missed previous forecast_as_of e
      then suc (count_missed previous forecast_as_of es)
      else count_missed previous forecast_as_of es

  abbrev download_checks : Option ℕ → List QualityCheckDraft
  download_checks none = []
  download_checks (some failures) =
      record {
        name = "recent_filing_download_failures";
        status = passed_if (leb failures 0);
        observed_value = some (texts.float failures);
        threshold = some (texts.float 0);
        details = texts.details download_window;
      }
      ∷ []

  abbrev missed_checks : Dataset → Instant → Option Instant → List QualityCheckDraft
  missed_checks dataset forecast_as_of none = []
  missed_checks dataset forecast_as_of (some previous) =
      if dataset.has_event_times
      then record {
        name = "missed_before_entry";
        status = CheckStatus.passed;
        observed_value = some (texts.float (count_missed previous forecast_as_of dataset.events));
        threshold = none;
        details = texts.details (missed_rule previous);
      }
        ∷ []
      else []

  abbrev pub source_coverage_checks :
      Dataset
      → (forecast_as_of : Instant) (previous_forecast_as_of : Option Instant)
      → List QualityCheckDraft
  source_coverage_checks dataset forecast_as_of previous =
      download_checks dataset.recent_download_failures
      ++ missed_checks dataset forecast_as_of previous

  -- Both errors of the calendar are caught.
  unfoldable pub pre_open_schedule_margin_check :
      Calendar → (observed_at : Instant) → QualityCheckDraft
  pre_open_schedule_margin_check cal observed_at = elim (target_nyse_open cal observed_at) [
    | raised e ↦ record {
      name = "pre_open_schedule_margin";
      status = CheckStatus.warning;
      observed_value = none;
      threshold = some (texts.seconds minimum_pre_open_margin);
      details = texts.details (margin_unavailable observed_at);
    }
    | returned target_open ↦ record {
      name = "pre_open_schedule_margin";
      status = passed_if (leb minimum_pre_open_margin (target_open - observed_at));
      observed_value = some (texts.seconds (target_open - observed_at));
      threshold = some (texts.seconds minimum_pre_open_margin);
      details =
          texts.details (margin_available observed_at target_open (ltb observed_at target_open));
    }
  ]
