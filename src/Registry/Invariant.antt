-- ===== src/Registry/Invariant.antt =====
-- What every stored row of the registry satisfies.
use edgar_moe.Common.{
  All-map, get-append_some, String, ◌≤◌, ◌<◌, ◌≡◌, ◌∙◌, Option, none, some, Has, string_eq, All,
  Has-append,
}
use edgar_moe.Registry.Records.{
  RunType, RunRegistration, DatasetRecord, RegisteredModel, RunRecord, ForecastRecord, LabelRecord,
  Database,
}
use edgar_moe.Registry.Session.{get_dataset, get_model, get_run, get_forecast}
use edgar_moe.Registry.Growth.{Grows, Grows-refl, Grows-trans, get-RunsGrow}

-- The run with this identifier was started with this registration.
pub record Started (db : Database) (run_id : String) (registration : RunRegistration) : Type 0 where
  pub run : RunRecord
  pub found : get_run db run_id ≡ some run
  pub as_registered : run.registration ≡ registration

-- An optional reference names a row.
abbrev pub Refers : {R : Type 0} → (String → Option R) → Option String → Type 0
Refers find none = Unit
Refers {R} find (some k) = (r : R) × (find k ≡ some r)

pub record IsSoundRun (db : Database) (run : RunRecord) : Type 0 where
  pub dataset : Refers (get_dataset db) run.dataset_id
  pub model : Refers (get_model db) run.model_id
  pub parent : Refers (get_run db) run.parent_run_id

-- A forecast belongs to a forecast run with its model and dataset, was made at that run's time, and
-- only from a filing accepted by then, before the entry and before the horizon.
pub record IsSoundForecast (db : Database) (f : ForecastRecord) : Type 0 where
  pub registration : RunRegistration
  pub started : Started db f.run_id registration
  pub is_forecast : registration.run_type ≡ RunType.forecast
  pub same_model : registration.model_id ≡ some f.model_id
  pub same_dataset : registration.dataset_id ≡ some f.dataset_id
  pub same_as_of : registration.as_of ≡ f.forecast_as_of
  pub available : f.accepted_at ≤ f.forecast_as_of
  pub tradable : f.forecast_as_of < f.entry_at
  pub immature : f.forecast_as_of < f.horizon_at

-- A label settles a stored forecast in a settlement run that is no earlier than the forecast's
-- horizon and the label's maturity, from a registered dataset.
pub record IsSoundLabel (db : Database) (l : LabelRecord) : Type 0 where
  pub registration : RunRegistration
  pub started : Started db l.settlement_run_id registration
  pub is_settlement : registration.run_type ≡ RunType.settlement
  pub forecast : ForecastRecord
  pub found : get_forecast db l.forecast_id ≡ some forecast
  pub mature : forecast.horizon_at ≤ registration.as_of
  pub matured_by_then : l.matured_at ≤ registration.as_of
  pub source : Has (λ r. r.dataset_id) l.source_dataset_id db.datasets

-- The rows of the second database, against the tables of the first.
pub record SoundIn (db rows : Database) : Type 0 where
  pub models : All (λ m. Has (λ r. r.dataset_id) m.training_dataset_id db.datasets) rows.models
  pub runs : All (IsSoundRun db) rows.runs
  pub forecasts : All (IsSoundForecast db) rows.forecasts
  pub labels : All (IsSoundLabel db) rows.labels
  pub artifacts : All (λ a. Has (λ r. r.run_id) a.run_id db.runs) rows.artifacts
  pub checks : All (λ c. Has (λ r. r.run_id) c.run_id db.runs) rows.checks

abbrev pub IsSound : Database → Type 0
IsSound db = SoundIn db db

-- What a transaction leaves behind.
pub record Advances (old new : Database) : Type 0 where
  pub grows : Grows old new
  pub sound : IsSound old → IsSound new

module _ {old new : Database} (g : Grows old new) where
  pub Has-dataset-Grows :
      (k : String) → Has (λ r. r.dataset_id) k old.datasets → Has (λ r. r.dataset_id) k new.datasets
  Has-dataset-Grows k h =
      let (added, e) = g.datasets in
      rw e (Has-append (λ (r : DatasetRecord). r.dataset_id) k old.datasets added h)

  pub Has-model-Grows :
      (k : String) → Has (λ r. r.model_id) k old.models → Has (λ r. r.model_id) k new.models
  Has-model-Grows k h =
      let (added, e) = g.models in
      rw e (Has-append (λ (r : RegisteredModel). r.model_id) k old.models added h)

  pub Has-run-Grows : (k : String) → Has (λ r. r.run_id) k old.runs → Has (λ r. r.run_id) k new.runs
  Has-run-Grows k (r, h) = let (r', h', s) = get-RunsGrow k old.runs new.runs r g.runs h in (r', h')

  pub Started-Grows :
      (k : String) (registration : RunRegistration)
      → Started old k registration
      → Started new k registration
  Started-Grows k registration s =
      let (r', h', step) = get-RunsGrow k old.runs new.runs s.run g.runs s.found in
      record { run = r'; found = h'; as_registered = step.same_registration ∙ s.as_registered }

  Refers-dataset : (o : Option String) → Refers (get_dataset old) o → Refers (get_dataset new) o
  Refers-dataset none h = tt
  Refers-dataset (some k) h = Has-dataset-Grows k h

  Refers-model : (o : Option String) → Refers (get_model old) o → Refers (get_model new) o
  Refers-model none h = tt
  Refers-model (some k) h = Has-model-Grows k h

  Refers-run : (o : Option String) → Refers (get_run old) o → Refers (get_run new) o
  Refers-run none h = tt
  Refers-run (some k) h = Has-run-Grows k h

  pub IsSoundRun-Grows : (r : RunRecord) → IsSoundRun old r → IsSoundRun new r
  IsSoundRun-Grows r h = record {
    dataset = Refers-dataset r.dataset_id h.dataset;
    model = Refers-model r.model_id h.model;
    parent = Refers-run r.parent_run_id h.parent;
  }

  pub IsSoundForecast-Grows : (f : ForecastRecord) → IsSoundForecast old f → IsSoundForecast new f
  IsSoundForecast-Grows f h = record {
    registration = h.registration;
    started = Started-Grows f.run_id h.registration h.started;
    is_forecast = h.is_forecast;
    same_model = h.same_model;
    same_dataset = h.same_dataset;
    same_as_of = h.same_as_of;
    available = h.available;
    tradable = h.tradable;
    immature = h.immature;
  }

  pub IsSoundLabel-Grows : (l : LabelRecord) → IsSoundLabel old l → IsSoundLabel new l
  IsSoundLabel-Grows l h =
      let (added, e) = g.forecasts in
      record {
        registration = h.registration;
        started = Started-Grows l.settlement_run_id h.registration h.started;
        is_settlement = h.is_settlement;
        forecast = h.forecast;
        found = rw e (
            get-append_some (λ (r : ForecastRecord). r.forecast_id) l.forecast_id old.forecasts
              added h.found);
        mature = h.mature;
        matured_by_then = h.matured_by_then;
        source = Has-dataset-Grows l.source_dataset_id h.source;
      }

  pub SoundIn-Grows : (rows : Database) → SoundIn old rows → SoundIn new rows
  SoundIn-Grows rows h = record {
    models = All-map _ _ (λ m. Has-dataset-Grows m.training_dataset_id) rows.models h.models;
    runs = All-map _ _ IsSoundRun-Grows rows.runs h.runs;
    forecasts = All-map _ _ IsSoundForecast-Grows rows.forecasts h.forecasts;
    labels = All-map _ _ IsSoundLabel-Grows rows.labels h.labels;
    artifacts = All-map _ _ (λ a. Has-run-Grows a.run_id) rows.artifacts h.artifacts;
    checks = All-map _ _ (λ c. Has-run-Grows c.run_id) rows.checks h.checks;
  }

pub Advances-refl : (db : Database) → Advances db db
Advances-refl db = record { grows = Grows-refl db; sound = λ h. h }

pub Advances-trans : (x y z : Database) → Advances x y → Advances y z → Advances x z
Advances-trans x y z p q = record {
  grows = Grows-trans x y z p.grows q.grows;
  sound = λ h. q.sound (p.sound h);
}
