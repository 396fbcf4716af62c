-- ===== src/Registry/Batches.antt =====
-- The batch methods `append_forecasts`, `settle_labels` and `add_quality_checks` of
-- src/edgar_moe/forward/registry.py. A query inside a session sees the rows that were added before
-- it in the same session.
use edgar_moe.Common.{
  ℕ, ◌+◌, String, Bool, true, false, ◌&&◌, Option, none, some, List, [], ◌∷◌, ◌++◌, if◌then◌else◌,
  ◌==◌, ltb, leb, nat_eq, get, has, string_eq,
}
use edgar_moe.Registry.Records.{
  Instant, RunType, ForecastDraft, LabelDraft, QualityCheckDraft, ForecastRecord, LabelRecord,
  DataQualityRecord,
}
use edgar_moe.Registry.Session.{
  ok, err, Session, pure, gets, or_raise, ◌>>=◌, ◌>>◌, if_existing, require, Payload, batch,
  model_and_dataset_required, not_available, not_tradable, already_mature, forecast_missing,
  not_mature, label_after_settlement, source_dataset_missing, integrity, ForwardRegistry, Moment,
  payload_hash, stable_id, assert_same, get_dataset, get_forecast, audit, require_running_run,
  require_running_type,
}

pub record BatchCounts : Type 0 where
  pub inserted : ℕ
  pub idempotent_skips : ℕ

abbrev pub no_counts : BatchCounts
no_counts = record { inserted = 0; idempotent_skips = 0 }

-- One step of a batch says whether it added a row.
abbrev pub counted : Bool → BatchCounts → BatchCounts
counted true c = record c { inserted = c.inserted + 1 }
counted false c = record c { idempotent_skips = c.idempotent_skips + 1 }

-- `for draft in drafts`
unfoldable pub each : {D : Type 0} → (D → Session Bool) → List D → BatchCounts → Session BatchCounts
each step [] c = pure c
each step (d ∷ ds) c = do added ← step d; each step ds (counted added c)

-- The query by the columns of `uq_forward_forecast_observation`.
abbrev pub find_forecast : String → String → Instant → List ForecastRecord → Option ForecastRecord
find_forecast model_id event_id as_of [] = none
find_forecast model_id event_id as_of (r ∷ rs) =
    if r.model_id == model_id && r.event_id == event_id && r.forecast_as_of == as_of
    then some r
    else find_forecast model_id event_id as_of rs

abbrev pub find_check : String → String → List DataQualityRecord → Option DataQualityRecord
find_check run_id name [] = none
find_check run_id name (r ∷ rs) =
    if r.run_id == run_id && r.name == name then some r else find_check run_id name rs

-- The keys of the rows are the tables' primary keys.
abbrev pub add_forecast : ForecastRecord → Session (Unit {0})
add_forecast row db =
    if has (λ r. r.forecast_id) row.forecast_id db.forecasts
    then err (integrity "forward_forecasts")
    else ok (tt, record db { forecasts = db.forecasts ++ row ∷ [] })

abbrev pub add_label : LabelRecord → Session (Unit {0})
add_label row db =
    if has (λ r. r.label_id) row.label_id db.labels
    then err (integrity "forward_labels")
    else ok (tt, record db { labels = db.labels ++ row ∷ [] })

abbrev pub add_check : DataQualityRecord → Session (Unit {0})
add_check row db =
    if has (λ r. r.check_id) row.check_id db.checks
    then err (integrity "forward_data_quality_checks")
    else ok (tt, record db { checks = db.checks ++ row ∷ [] })

module _ (self : ForwardRegistry) (m : Moment) where
  -- The body of the loop of `append_forecasts`.
  unfoldable pub append_forecast :
      (run_id model_id dataset_id : String) (forecast_as_of : Instant)
      → ForecastDraft
      → Session Bool
  append_forecast run_id model_id dataset_id forecast_as_of draft = do
    require (leb draft.accepted_at forecast_as_of) (not_available draft.event_id)
    require (ltb forecast_as_of draft.entry_at) (not_tradable draft.event_id)
    require (ltb forecast_as_of draft.horizon_at) (already_mature draft.event_id)
    let hash =
        payload_hash self.library
          (Payload.forecast model_id dataset_id draft.event_id forecast_as_of draft)
    existing ← gets (λ db. find_forecast model_id draft.event_id forecast_as_of db.forecasts)
    if_existing existing
        (λ row. do assert_same row.payload_hash hash "forecast" row.forecast_id; pure false)
        (do
          add_forecast (record {
            forecast_id =
                stable_id self.library "forecast"
                  (model_id ∷ draft.event_id ∷ self.library.isoformat forecast_as_of ∷ []);
            run_id = run_id;
            model_id = model_id;
            dataset_id = dataset_id;
            forecast_as_of = forecast_as_of;
            draft = draft;
            payload_hash = hash;
            created_at = m.now;
          })
          pure true)

  unfoldable pub append_forecasts : String → List ForecastDraft → Session BatchCounts
  append_forecasts run_id forecasts = do
    run ← require_running_type run_id RunType.forecast
    model_id ← or_raise run.model_id model_and_dataset_required
    dataset_id ← or_raise run.dataset_id model_and_dataset_required
    c ← each (append_forecast run_id model_id dataset_id run.as_of) forecasts no_counts
    audit self m "forecast.batch_appended" "run" run_id (batch c.inserted c.idempotent_skips)
    pure c

  -- The body of the loop of `settle_labels`.
  unfoldable pub settle_label :
      (run_id : String) (settlement_as_of : Instant) → LabelDraft → Session Bool
  settle_label run_id settlement_as_of draft = do
    forecast ←
        or_raise (get_forecast (← gets (λ db. db)) draft.forecast_id)
          (forecast_missing draft.forecast_id)
    require (leb forecast.horizon_at settlement_as_of) (not_mature draft.forecast_id)
    require (leb draft.matured_at settlement_as_of) (label_after_settlement draft.forecast_id)
    or_raise (← gets (λ db. get_dataset db draft.source_dataset_id))
        (source_dataset_missing draft.source_dataset_id)
    let hash = payload_hash self.library (Payload.label draft)
    existing ← gets (λ db. get (λ r. r.forecast_id) draft.forecast_id db.labels)
    if_existing existing
        (λ row. do assert_same row.payload_hash hash "label" row.label_id; pure false)
        (do
          add_label (record {
            label_id = stable_id self.library "label" (draft.forecast_id ∷ []);
            settlement_run_id = run_id;
            draft = draft;
            recorded_at = m.now;
            payload_hash = hash;
          })
          pure true)

  unfoldable pub settle_labels : String → List LabelDraft → Session BatchCounts
  settle_labels run_id labels = do
    run ← require_running_type run_id RunType.settlement
    c ← each (settle_label run_id run.as_of) labels no_counts
    audit self m "label.batch_appended" "run" run_id (batch c.inserted c.idempotent_skips)
    pure c

  -- The body of the loop of `add_quality_checks`.
  unfoldable pub add_quality_check : (run_id : String) → QualityCheckDraft → Session Bool
  add_quality_check run_id draft = do
    let hash = payload_hash self.library (Payload.check draft)
    existing ← gets (λ db. find_check run_id draft.name db.checks)
    if_existing existing
        (λ row. do assert_same row.payload_hash hash "quality check" row.check_id; pure false)
        (do
          add_check (record {
            check_id = stable_id self.library "check" (run_id ∷ draft.name ∷ []);
            run_id = run_id;
            draft = draft;
            payload_hash = hash;
            created_at = m.now;
          })
          pure true)

  unfoldable pub add_quality_checks : String → List QualityCheckDraft → Session BatchCounts
  add_quality_checks run_id checks = do
    require_running_run run_id
    c ← each (add_quality_check run_id) checks no_counts
    audit self m "quality.batch_appended" "run" run_id (batch c.inserted c.idempotent_skips)
    pure c
