-- ===== src/Registry/CountTests.antt =====
-- Batches of forecasts, labels and quality checks on the day of the registry's tests.
use edgar_moe.Common.{◌≡◌, refl, some, [], ◌∷◌, length}
use edgar_moe.Registry.Records.{
  RunType, CheckStatus, RunRegistration, LabelDraft, QualityCheckDraft, Database,
}
use edgar_moe.Registry.Session.{ok}
use edgar_moe.Registry.Batches.{settle_labels, add_quality_checks}
use edgar_moe.Registry.Commands.{Command, execute, registry_code}
use edgar_moe.Registry.Counts.{
  AreExact, append_forecasts-AreExact, settle_labels-AreExact, add_quality_checks-AreExact,
}
use edgar_moe.Registry.Tests.{
  registry, at, run_of, started, two_drafts, appended, first_batch, stored_row,
}

append_forecasts-AreExact_example :
    AreExact 2
      (length started.forecasts)
      (length appended.forecasts)
      (record { inserted = 2; idempotent_skips = 0 })
append_forecasts-AreExact_example =
    append_forecasts-AreExact registry (at "a4") "run-1" started appended two_drafts first_batch

-- A settlement of one forecast, with the label sent twice.
abbrev settlement : RunRegistration
settlement = record (run_of RunType.settlement (some "run-1")) { as_of = 450 }

abbrev settling : Database
settling = (execute registry (at "a5") (Command.start settlement (some "run-2") "new") appended).1

abbrev label : LabelDraft
label = record {
  forecast_id = stored_row.forecast_id;
  source_dataset_id = "d1";
  realized_abnormal_return = "0.02";
  matured_at = 400;
}

abbrev settled : Database
settled = (execute registry (at "a6") (Command.labels "run-2" (label ∷ label ∷ [])) settling).1

labelled :
    settle_labels registry (at "a6") "run-2" (label ∷ label ∷ []) settling
    ≡ ok (record { inserted = 1; idempotent_skips = 1 }, settled)
unfolding registry_code
labelled = refl

settle_labels-AreExact_example :
    AreExact 2
      (length settling.labels)
      (length settled.labels)
      (record { inserted = 1; idempotent_skips = 1 })
settle_labels-AreExact_example =
    settle_labels-AreExact registry (at "a6") "run-2" settling settled (label ∷ label ∷ []) labelled

abbrev freshness : QualityCheckDraft
freshness = record {
  name = "dataset_freshness_days";
  status = CheckStatus.passed;
  observed_value = some "1.0";
  threshold = some "4.0";
  details = "{}";
}

abbrev inspected : Database
inspected = (execute registry (at "a7") (Command.checks "run-1" (freshness ∷ [])) appended).1

inspection :
    add_quality_checks registry (at "a7") "run-1" (freshness ∷ []) appended
    ≡ ok (record { inserted = 1; idempotent_skips = 0 }, inspected)
unfolding registry_code
inspection = refl

add_quality_checks-AreExact_example :
    AreExact 1
      (length appended.checks)
      (length inspected.checks)
      (record { inserted = 1; idempotent_skips = 0 })
add_quality_checks-AreExact_example =
    add_quality_checks-AreExact registry (at "a7") "run-1" appended inspected (freshness ∷ [])
      inspection
