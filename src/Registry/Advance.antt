-- ===== src/Registry/Advance.antt =====
-- Every transaction of the registry advances the database: the rules for its parts.
pub mod Parts
pub mod Batches
pub mod Methods
use edgar_moe.Common.{
  inl, inr, Bool-cases, String, ◌≤◌, ◌<◌, ◌≡◌, ◌≢◌, refl, sym, ap, ◌∙◌, Bool, true, false, Option,
  none, some, List, [], ◌∷◌, ◌++◌, arith, ◌==◌, get, has, Has, string_eq, Extends, Extends-append,
  Extends-refl, All, All-append, All-map, All-snoc, Has-append, subst,
}
use edgar_moe.Registry.Records.{
  RunType, RunRegistration, DatasetRecord, RegisteredModel, RunRecord, ForecastRecord, LabelRecord,
  ArtifactRecord, DataQualityRecord, AuditEvent, Database,
}
use edgar_moe.Registry.Session.{
  Session, AuditPayload, ForwardRegistry, Moment, get_dataset, get_model, get_run, get_forecast,
  audit,
}
use edgar_moe.Registry.Growth.{
  Grows, Grows-refl, RunsGrow, RunsGrow-append, RunsGrow-refl, RunStep, RunsGrow-replace_run,
}
use edgar_moe.Registry.Invariant.{
  Started, Refers, IsSoundRun, IsSoundForecast, IsSoundLabel, SoundIn, SoundIn-Grows, IsSound,
  Advances, IsSoundRun-Grows, IsSoundForecast-Grows, IsSoundLabel-Grows,
}
use edgar_moe.Registry.Rules.{Post}
use edgar_moe.Registry.Registrations.{add_dataset, add_model, add_artifact}
use edgar_moe.Registry.Runs.{add_run, update_run, replace_run}
use edgar_moe.Registry.Batches.{add_forecast, add_label, add_check}

abbrev pub AdvancesFrom : {A : Type 0} → Database → A → Database → Type 0
AdvancesFrom old a new = Advances old new

ruleset growth = (Extends-refl, Extends-append, RunsGrow-refl, RunsGrow-append)

advance : (old new : Database) → Grows old new → (SoundIn new old → IsSound new) → Advances old new
advance old new g f = record { grows = g; sound = λ h. f (SoundIn-Grows g old h) }

IsSoundRun-registration :
    (db : Database) (a b : RunRecord)
    → b.registration ≡ a.registration
    → IsSoundRun db a
    → IsSoundRun db b
IsSoundRun-registration db a b e h = record {
  dataset = subst (λ (r : RunRegistration). Refers (get_dataset db) r.dataset_id) (sym e) h.dataset;
  model = subst (λ (r : RunRegistration). Refers (get_model db) r.model_id) (sym e) h.model;
  parent = subst (λ (r : RunRegistration). Refers (get_run db) r.parent_run_id) (sym e) h.parent;
}

All-replace_run :
    (P : RunRecord → Type 0) (row old : RunRecord) (rs : List RunRecord)
    → All P rs
    → get (λ r. r.run_id) row.run_id rs ≡ some old
    → (P old → P row)
    → All P (replace_run row rs)
All-replace_run P row old [] h found f = tt
All-replace_run P row old (r ∷ rs) h found f = elim (Bool-cases (r.run_id == row.run_id)) [
  | inl same ↦ let e : r ≡ old = cc (rw same at found) in rw same (f (subst P e h.0), h.1)
  | inr other ↦ rw other (h.0, All-replace_run P row old rs h.1 (rw other at found) f)
]

module _ (db : Database) where
  pub with_audit : (row : AuditEvent) → Advances db (record db { audits = db.audits ++ row ∷ [] })
  with_audit row =
      advance db (record db { audits = db.audits ++ row ∷ [] }) (search (growth))
        λ s. record {
          models = s.models;
          runs = s.runs;
          forecasts = s.forecasts;
          labels = s.labels;
          artifacts = s.artifacts;
          checks = s.checks;
        }

  pub with_dataset :
      (row : DatasetRecord) → Advances db (record db { datasets = db.datasets ++ row ∷ [] })
  with_dataset row =
      advance db (record db { datasets = db.datasets ++ row ∷ [] }) (search (growth))
        λ s. record {
          models = s.models;
          runs = s.runs;
          forecasts = s.forecasts;
          labels = s.labels;
          artifacts = s.artifacts;
          checks = s.checks;
        }

  pub with_model :
      (row : RegisteredModel)
      → Has (λ r. r.dataset_id) row.training_dataset_id db.datasets
      → Advances db (record db { models = db.models ++ row ∷ [] })
  with_model row known =
      advance db (record db { models = db.models ++ row ∷ [] }) (search (growth))
        λ s. record {
          models = All-snoc _ db.models row s.models known;
          runs = s.runs;
          forecasts = s.forecasts;
          labels = s.labels;
          artifacts = s.artifacts;
          checks = s.checks;
        }

  pub with_forecast :
      (row : ForecastRecord)
      → IsSoundForecast db row
      → Advances db (record db { forecasts = db.forecasts ++ row ∷ [] })
  with_forecast row good =
      advance db (record db { forecasts = db.forecasts ++ row ∷ [] }) (search (growth))
        λ s. record {
          models = s.models;
          runs = s.runs;
          forecasts =
              All-snoc _ db.forecasts row s.forecasts
                (IsSoundForecast-Grows {old = db} (search growth) row good);
          labels = s.labels;
          artifacts = s.artifacts;
          checks = s.checks;
        }

  pub with_label :
      (row : LabelRecord)
      → IsSoundLabel db row
      → Advances db (record db { labels = db.labels ++ row ∷ [] })
  with_label row good =
      advance db (record db { labels = db.labels ++ row ∷ [] }) (search (growth))
        λ s. record {
          models = s.models;
          runs = s.runs;
          forecasts = s.forecasts;
          labels =
              All-snoc _ db.labels row s.labels
                (IsSoundLabel-Grows {old = db} (search growth) row good);
          artifacts = s.artifacts;
          checks = s.checks;
        }

  pub with_artifact :
      (row : ArtifactRecord)
      → Has (λ r. r.run_id) row.run_id db.runs
      → Advances db (record db { artifacts = db.artifacts ++ row ∷ [] })
  with_artifact row known =
      advance db (record db { artifacts = db.artifacts ++ row ∷ [] }) (search (growth))
        λ s. record {
          models = s.models;
          runs = s.runs;
          forecasts = s.forecasts;
          labels = s.labels;
          artifacts = All-snoc _ db.artifacts row s.artifacts known;
          checks = s.checks;
        }

  pub with_check :
      (row : DataQualityRecord)
      → Has (λ r. r.run_id) row.run_id db.runs
      → Advances db (record db { checks = db.checks ++ row ∷ [] })
  with_check row known =
      advance db (record db { checks = db.checks ++ row ∷ [] }) (search (growth))
        λ s. record {
          models = s.models;
          runs = s.runs;
          forecasts = s.forecasts;
          labels = s.labels;
          artifacts = s.artifacts;
          checks = All-snoc _ db.checks row s.checks known;
        }

  pub with_run :
      (row : RunRecord) → IsSoundRun db row → Advances db (record db { runs = db.runs ++ row ∷ [] })
  with_run row good =
      let g : Grows db (record db { runs = db.runs ++ row ∷ [] }) = search growth in
      advance db _ g λ s. record {
        models = s.models;
        runs = All-snoc _ db.runs row s.runs (IsSoundRun-Grows g row good);
        forecasts = s.forecasts;
        labels = s.labels;
        artifacts = s.artifacts;
        checks = s.checks;
      }

  pub with_outcome :
      (row old : RunRecord)
      → get_run db row.run_id ≡ some old
      → RunStep old row
      → Advances db (record db { runs = replace_run row db.runs })
  with_outcome row old found step =
      let g : Grows db (record db { runs = replace_run row db.runs }) = record {
        datasets = Extends-refl _;
        models = Extends-refl _;
        runs = RunsGrow-replace_run row old db.runs found step;
        forecasts = Extends-refl _;
        labels = Extends-refl _;
        artifacts = Extends-refl _;
        checks = Extends-refl _;
        audits = Extends-refl _;
      } in
      advance db _ g λ s. record {
        models = s.models;
        runs =
            All-replace_run _ row old db.runs s.runs found
              (IsSoundRun-registration _ old row step.same_registration);
        forecasts = s.forecasts;
        labels = s.labels;
        artifacts = s.artifacts;
        checks = s.checks;
      }
