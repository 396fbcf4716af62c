-- ===== src/Registry/Advance/Batches.antt =====
-- The batch methods advance the database: each step of their loops does, while the run stays
-- registered as it was.
use edgar_moe.Common.{
  le_of_leb, lt_of_ltb, String, ◌≡◌, refl, Bool, true, false, some, List, string_eq,
}
use edgar_moe.Registry.Records.{
  RunType, RunRegistration, ForecastDraft, LabelDraft, QualityCheckDraft, Database,
}
use edgar_moe.Registry.Session.{
  Session, ◌>>=◌, ◌>>◌, pure, AuditPayload, ForwardRegistry, Moment, audit,
}
use edgar_moe.Registry.Batches.{
  BatchCounts, no_counts, each, append_forecast, append_forecasts, settle_label, settle_labels,
  add_quality_check, add_quality_checks,
}
use edgar_moe.Registry.Invariant.{Started, Started-Grows, Advances, Advances-refl, Advances-trans}
use edgar_moe.Registry.Rules.{
  Post, Post-pure, Post-bind, Post-gets, Post-or_raise, Post-require, Post-if_existing, Post-each,
  Post-weaken,
}
use edgar_moe.Registry.Advance.{AdvancesFrom}
use edgar_moe.Registry.Advance.Parts.{
  add_forecast-Advances, add_label-Advances, add_check-Advances, Post-audited, Post-assert_same,
  Post-require_running_run, Post-require_running_type,
}

module _ (self : ForwardRegistry) (m : Moment) where
  append_forecast-Advances :
      (run_id model_id dataset_id : String) (registration : RunRegistration)
      → registration.run_type ≡ RunType.forecast
      → registration.model_id ≡ some model_id
      → registration.dataset_id ≡ some dataset_id
      → (d : ForecastDraft) (db : Database) → Started db run_id registration
      → Post
          (AdvancesFrom db)
          (append_forecast self m run_id model_id dataset_id registration.as_of d db)
  unfolding append_forecast
  append_forecast-Advances run_id model_id dataset_id registration typed same_model same_dataset d
        db started =
      Post-require _ _ _ _ db λ available. Post-require _ _ _ _ db λ tradable.
        Post-require _ _ _ _ db λ immature. Post-gets _ _ _ db (
          Post-if_existing _ _ _ _ db
            (λ row found.
              Post-assert_same _ _ _ _ _ _ db λ same. Post-pure _ false db (Advances-refl db))
            (λ new.
              Post-bind _ _ _ _ db
                (add_forecast-Advances db _ (record {
                  registration = registration;
                  started = started;
                  is_forecast = typed;
                  same_model = same_model;
                  same_dataset = same_dataset;
                  same_as_of = refl;
                  available = le_of_leb _ _ available;
                  tradable = lt_of_ltb _ _ tradable;
                  immature = lt_of_ltb _ _ immature;
                }))
                λ _ db' h. Post-pure _ true db' h))

  settle_label-Advances :
      (run_id : String) (registration : RunRegistration)
      → registration.run_type ≡ RunType.settlement
      → (d : LabelDraft) (db : Database) → Started db run_id registration
      → Post (AdvancesFrom db) (settle_label self m run_id registration.as_of d db)
  unfolding settle_label
  settle_label-Advances run_id registration typed d db started = Post-gets _ _ _ db (
      Post-or_raise _ _ _ _ db λ forecast found. Post-require _ _ _ _ db λ mature.
        Post-require _ _ _ _ db λ matured. Post-gets _ _ _ db (
          Post-or_raise _ _ _ _ db λ dataset known. Post-gets _ _ _ db (
            Post-if_existing _ _ _ _ db
              (λ row _.
                Post-assert_same _ _ _ _ _ _ db λ same. Post-pure _ false db (Advances-refl db))
              (λ new.
                Post-bind _ _ _ _ db
                  (add_label-Advances db _ (record {
                    registration = registration;
                    started = started;
                    is_settlement = typed;
                    forecast = forecast;
                    found = found;
                    mature = le_of_leb _ _ mature;
                    matured_by_then = le_of_leb _ _ matured;
                    source = (dataset, known);
                  }))
                  λ _ db' h. Post-pure _ true db' h))))

  add_quality_check-Advances :
      (run_id : String) (registration : RunRegistration) (d : QualityCheckDraft) (db : Database)
      → Started db run_id registration
      → Post (AdvancesFrom db) (add_quality_check self m run_id d db)
  unfolding add_quality_check
  add_quality_check-Advances run_id registration d db started = Post-gets _ _ _ db (
      Post-if_existing _ _ _ _ db
        (λ row found.
          Post-assert_same _ _ _ _ _ _ db λ same. Post-pure _ false db (Advances-refl db))
        (λ new.
          Post-bind _ _ _ _ db (add_check-Advances db _ (started.run, started.found))
            λ _ db' h. Post-pure _ true db' h))

  -- The loop of a batch and its audit event.
  batch-Advances :
      {D : Type 0} (run_id : String) (registration : RunRegistration) (step : D → Session Bool)
      → ((d : D) (db : Database)
          → Started db run_id registration
          → Post (AdvancesFrom db) (step d db))
      → (action : String) (event : BatchCounts → AuditPayload) (ds : List D) (db : Database)
      → Started db run_id registration
      → Post (AdvancesFrom db) (
          (each step ds no_counts >>= λ c. audit self m action "run" run_id (event c) >> pure c) db)
  batch-Advances run_id registration step keep action event ds db started =
      Post-bind (AdvancesFrom db) (λ _. I) _ _ db
        (Post-each I step keeps ds no_counts db (Advances-refl db, started))
        λ c db' (h, _). Post-audited db db' self m _ _ _ _ c h
    where
      I : Database → Type 0
      I db' = Advances db db' × Started db' run_id registration

      keeps : (d : _) (db' : Database) → I db' → Post (λ _. I) (step d db')
      keeps d db' (h, s) =
          Post-weaken (λ _. I) (AdvancesFrom db') (step d db')
            (λ a db2 k.
              (Advances-trans db db' db2 h k, Started-Grows k.grows run_id registration s))
            (keep d db' s)

  pub append_forecasts-Advances :
      (run_id : String) (forecasts : List ForecastDraft) (db : Database)
      → Post (AdvancesFrom db) (append_forecasts self m run_id forecasts db)
  unfolding append_forecasts
  append_forecasts-Advances run_id forecasts db =
      Post-require_running_type _ run_id _ _ db λ run found typed.
        Post-or_raise _ _ _ _ db λ model_id same_model.
          Post-or_raise _ _ _ _ db λ dataset_id same_dataset.
            batch-Advances run_id run.registration _
              (append_forecast-Advances run_id model_id dataset_id run.registration typed same_model
                same_dataset)
              _ _ forecasts db (record { run = run; found = found; as_registered = refl })

  pub settle_labels-Advances :
      (run_id : String) (labels : List LabelDraft) (db : Database)
      → Post (AdvancesFrom db) (settle_labels self m run_id labels db)
  unfolding settle_labels
  settle_labels-Advances run_id labels db =
      Post-require_running_type _ run_id _ _ db λ run found typed.
        batch-Advances run_id run.registration _
          (settle_label-Advances run_id run.registration typed) _ _ labels db
          (record { run = run; found = found; as_registered = refl })

  pub add_quality_checks-Advances :
      (run_id : String) (checks : List QualityCheckDraft) (db : Database)
      → Post (AdvancesFrom db) (add_quality_checks self m run_id checks db)
  unfolding add_quality_checks
  add_quality_checks-Advances run_id checks db =
      Post-require_running_run _ run_id _ db λ run found active.
        batch-Advances run_id run.registration _
          (add_quality_check-Advances run_id run.registration) _ _ checks db
          (record { run = run; found = found; as_registered = refl })
