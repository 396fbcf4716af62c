-- ===== src/Registry/Reads.antt =====
-- The reading methods of src/edgar_moe/forward/registry.py other than `status`: each is one query
-- with its filters, its order and its limit. Rows that an ordering leaves equal stay in the order of
-- their insertion.
pub mod Order
pub mod Pending
use edgar_moe.Common.{
  ℕ, zero, suc, ◌+◌, String, Bool, true, false, not, ◌&&◌, ◌||◌, Option, none, some, List, [], ◌∷◌,
  if◌then◌else◌, ◌==◌, ltb, leb, nat_eq, string_eq, length, map, get, has,
}
use edgar_moe.Common.Outcomes.{Outcome, returned, raised, ◌>>=◌, ◌>>◌, ensure}
use edgar_moe.Registry.Records.{
  Instant, RunType, RunStatus, run_type_eq, run_status_eq, RunRecord, ForecastRecord, LabelRecord,
  ArtifactRecord, DataQualityRecord, Database,
}
use edgar_moe.Registry.Session.{get_dataset}
use edgar_moe.Registry.Status.{id_before, is_present}

module _ {A : Type 0} where
  -- `.where(test)`
  abbrev pub where_rows : (A → Bool) → List A → List A
  where_rows test [] = []
  where_rows test (x ∷ xs) = if test x then x ∷ where_rows test xs else where_rows test xs

  -- `.order_by(…)`, where `before` is a strict order.
  abbrev pub insert_by : (A → A → Bool) → A → List A → List A
  insert_by before x [] = x ∷ []
  insert_by before x (y ∷ ys) = if before y x then y ∷ insert_by before x ys else x ∷ y ∷ ys

  abbrev pub order_by : (A → A → Bool) → List A → List A
  order_by before [] = []
  order_by before (x ∷ xs) = insert_by before x (order_by before xs)

  -- `.offset(n)` and `.limit(n)`
  abbrev pub skip : ℕ → List A → List A
  skip zero xs = xs
  skip (suc n) [] = []
  skip (suc n) (x ∷ xs) = skip n xs

  abbrev pub limited : ℕ → List A → List A
  limited zero xs = []
  limited (suc n) [] = []
  limited (suc n) (x ∷ xs) = x ∷ limited n xs

-- By two columns, the second of which breaks ties.
abbrev by_columns : ℕ → String → ℕ → String → Bool
by_columns a s b t = ltb a b || (leb a b && id_before s t)

abbrev pub has_dataset : String → Database → Bool
has_dataset dataset_id db = is_present (get_dataset db dataset_id)

-- `if model_id: filters.append(…)`
abbrev pub matches : Option String → String → Bool
matches none value = true
matches (some wanted) value = if wanted == "" then true else value == wanted

-- A column that may be null equals no value when it is.
abbrev pub is_value : Option String → String → Bool
is_value none value = false
is_value (some held) value = held == value

-- `func.max(RunRecord.as_of)`
abbrev max_as_of : List RunRecord → Option Instant
max_as_of [] = none
max_as_of (r ∷ rs) = elim (max_as_of rs) [
  | none ↦ some r.as_of
  | some t ↦ if ltb t r.as_of then some r.as_of else some t
]

unfoldable pub latest_forecast_as_of : (model_id : String) → Database → Option Instant
latest_forecast_as_of model_id db = max_as_of (
    where_rows
      (λ r.
        r.run_type == RunType.forecast
        && (r.status == RunStatus.succeeded && is_value r.model_id model_id))
      db.runs)

-- The label of a forecast, by the outer join.
abbrev pub label_of : Database → String → Option LabelRecord
label_of db forecast_id = get (λ r. r.forecast_id) forecast_id db.labels

abbrev pub is_pending : (cutoff : Instant) → Option String → Database → ForecastRecord → Bool
is_pending cutoff model_id db r =
    leb r.horizon_at cutoff
    && (not (is_present (label_of db r.forecast_id)) && matches model_id r.model_id)

abbrev pub due_before : ForecastRecord → ForecastRecord → Bool
due_before a b = by_columns a.horizon_at a.forecast_id b.horizon_at b.forecast_id

unfoldable pub pending_forecasts :
    (as_of : Instant) (model_id : Option String) → Database → List ForecastRecord
pending_forecasts as_of model_id db =
    order_by due_before (where_rows (is_pending as_of model_id db) db.forecasts)

abbrev pub created_before : ArtifactRecord → ArtifactRecord → Bool
created_before a b = by_columns a.created_at a.artifact_id b.created_at b.artifact_id

-- The only error is of a limit below one.
unfoldable pub list_artifacts :
    (limit : Option ℕ) → Database → Outcome (Unit {0}) (List ArtifactRecord)
list_artifacts none db = returned (order_by created_before db.artifacts)
list_artifacts (some limit) db = do
  ensure (leb 1 limit) tt
  returned (limited limit (order_by created_before db.artifacts))

unfoldable pub list_runs : (limit : ℕ) → Database → List RunRecord
list_runs limit db = limited limit (order_by (λ a b. ltb b.started_at a.started_at) db.runs)

unfoldable pub list_quality_checks : (limit : ℕ) → Database → List DataQualityRecord
list_quality_checks limit db =
    limited limit (order_by (λ a b. ltb b.created_at a.created_at) db.checks)

-- An item of `list_forecasts`, and its page.
pub record ForecastItem : Type 0 where
  pub forecast : ForecastRecord
  pub cohort_size : ℕ
  pub label : Option LabelRecord

pub record ForecastPage : Type 0 where
  pub items : List ForecastItem
  pub total : ℕ
  pub offset : ℕ
  pub limit : ℕ

-- The forecasts of a run, whatever the filters and the page.
abbrev pub cohort : String → Database → List ForecastRecord
cohort run_id db = where_rows (λ r. r.run_id == run_id) db.forecasts

-- `cohort_sizes.get(run_id, 1)`: a group of no rows is not a key.
abbrev pub cohort_size : String → Database → ℕ
cohort_size run_id db = elim (length (cohort run_id db)) [ zero ↦ 1 | suc n ↦ suc n ]

abbrev recent_first : ForecastRecord → ForecastRecord → Bool
recent_first a b =
    ltb b.forecast_as_of a.forecast_as_of
    || (leb b.forecast_as_of a.forecast_as_of && id_before a.ticker b.ticker)

-- `_MAX_PAGE_OFFSET`
abbrev pub max_page_offset : ℕ
max_page_offset = 1000000

-- `if ticker: filters.append(… == ticker.upper())`
abbrev pub has_ticker : (upper : String → String) → Option String → ForecastRecord → Bool
has_ticker upper none r = true
has_ticker upper (some ticker) r = if ticker == "" then true else r.ticker == upper ticker

abbrev pub item_of : Database → ForecastRecord → ForecastItem
item_of db r = record {
  forecast = r;
  cohort_size = cohort_size r.run_id db;
  label = label_of db r.forecast_id;
}

-- `upper` is `str.upper`. The only error is of a limit or an offset out of its range.
unfoldable pub list_forecasts :
    (upper : String → String) (ticker model_id : Option String) (limit offset : ℕ)
    → Database
    → Outcome (Unit {0}) ForecastPage
list_forecasts upper ticker model_id limit offset db = do
  ensure (leb 1 limit && leb offset max_page_offset) tt
  let listed =
      where_rows (λ r. has_ticker upper ticker r && matches model_id r.model_id) db.forecasts
  returned (record {
    items = map (item_of db) (limited limit (skip offset (order_by recent_first listed)));
    total = length listed;
    offset = offset;
    limit = limit;
  })
