-- ===== src/Workflow/Matching.antt =====
-- The loop over the pending forecasts in `ForwardWorkflow.settle` of
-- src/edgar_moe/forward/workflow.py, and its quality check.
use edgar_moe.Common.{
  ℕ, zero, suc, String, Bool, true, false, Option, none, some, List, [], ◌∷◌, if◌then◌else◌, ◌==◌,
  ltb, string_eq, length,
}
use edgar_moe.Registry.Records.{Instant, Number, LabelDraft, QualityCheckDraft, ForecastRecord}
use edgar_moe.Workflow.Checks.{Event, Dataset, CheckDetails, Texts, passed_if}

-- `dict(…).get(event_id)` of the positions: the last event with the identifier.
abbrev pub event_at : String → List Event → Option Event
event_at event_id [] = none
event_at event_id (e ∷ es) = elim (event_at event_id es) [
  | some later ↦ some later
  | none ↦ if e.event_id == event_id then some e else none
]

-- What becomes of a pending forecast: it is matched, it waits for its event's own horizon, or it has
-- no event with a finite target.
pub data Matched : Type 0 where
  unmatched : Matched
  deferred : Matched
  labelled : LabelDraft → Matched

module _ (dataset : Dataset) (settlement_as_of : Instant) (item : ForecastRecord) where
  abbrev pub match_target : Event → Option Number → Matched
  match_target event none = unmatched
  match_target event (some target) =
      if ltb settlement_as_of event.horizon_at
      then deferred
      else labelled (record {
        forecast_id = item.forecast_id;
        source_dataset_id = dataset.dataset_id;
        realized_abnormal_return = target;
        matured_at = event.horizon_at;
      })

  abbrev pub match_event : Option Event → Matched
  match_event none = unmatched
  match_event (some event) = match_target event event.target

  abbrev pub match_forecast : Matched
  match_forecast = match_event (event_at item.event_id dataset.events)

pub record Matches : Type 0 where
  pub labels : List LabelDraft
  pub unmatched_ids : List String

abbrev pub add_match : ForecastRecord → Matched → Matches → Matches
add_match item unmatched m = record m { unmatched_ids = item.forecast_id ∷ m.unmatched_ids }
add_match item deferred m = m
add_match item (labelled draft) m = record m { labels = draft ∷ m.labels }

-- `for item in pending`, with both lists in its order.
abbrev pub match_all : Dataset → (settlement_as_of : Instant) → List ForecastRecord → Matches
match_all dataset settlement_as_of [] = record { labels = []; unmatched_ids = [] }
match_all dataset settlement_as_of (item ∷ items) =
    add_match item (match_forecast dataset settlement_as_of item)
      (match_all dataset settlement_as_of items)

-- `xs[:n]`
abbrev first_n : ℕ → List String → List String
first_n zero xs = []
first_n (suc n) [] = []
first_n (suc n) (x ∷ xs) = x ∷ first_n n xs

abbrev is_none_left : List String → Bool
is_none_left [] = true
is_none_left (x ∷ xs) = false

-- `len(labels) / len(pending) if pending else 1.0`
abbrev match_rate : Texts → (labels pending : ℕ) → Number
match_rate texts labels zero = texts.float 1
match_rate texts labels (suc n) = texts.ratio labels (suc n)

abbrev pub settlement_check : Texts → List ForecastRecord → Matches → QualityCheckDraft
settlement_check texts pending m = record {
  name = "settlement_match_rate";
  status = passed_if (is_none_left m.unmatched_ids);
  observed_value = some (match_rate texts (length m.labels) (length pending));
  threshold = some (texts.float 1);
  details =
      texts.details (CheckDetails.settlement_matches (length pending) (first_n 20 m.unmatched_ids));
}
