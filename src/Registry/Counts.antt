-- ===== src/Registry/Counts.antt =====
-- The counts that the batch methods return and audit.
use edgar_moe.Common.{
  String, ℕ, suc, ◌+◌, ◌≡◌, refl, Bool, true, false, List, [], ◌∷◌, arith, length, length-append,
}
use edgar_moe.Registry.Records.{Instant, ForecastDraft, LabelDraft, QualityCheckDraft, Database}
use edgar_moe.Registry.Session.{ok, Session, ForwardRegistry, Moment, AuditPayload, audit}
use edgar_moe.Registry.Batches.{
  BatchCounts, no_counts, counted, each, append_forecast, append_forecasts, settle_label,
  settle_labels, add_quality_check, add_quality_checks,
}
use edgar_moe.Registry.Rules.{
  Post, Post-pure, Post-weaken, Post-if_existing, Post-bind, Post-gets, Post-or_raise, Post-require,
  Post-unless, Post-ok,
}
use edgar_moe.Registry.Advance.Parts.{
  Post-assert_same, Post-require_running_run, Post-require_running_type,
}

-- What one step and a whole batch do to the size of a table.
abbrev StepSizes : (Database → ℕ) → Database → Bool → Database → Type 0
StepSizes size db true db' = size db' ≡ size db + 1
StepSizes size db false db' = size db' ≡ size db

pub record Tally (size : Database → ℕ) (items : ℕ) (c : BatchCounts) (db : Database)
    (c' : BatchCounts) (db' : Database) : Type 0 where
  pub all : c'.inserted + c'.idempotent_skips ≡ c.inserted + c.idempotent_skips + items
  pub added : c.inserted + size db' ≡ c'.inserted + size db

module _ {D : Type 0} (size : Database → ℕ) (step : D → Session Bool)
    (sized : (d : D) (db : Database) → Post (StepSizes size db) (step d db)) where
  Tally-step :
      (n : ℕ) (added : Bool) (c c' : BatchCounts) (db db1 db' : Database)
      → StepSizes size db added db1
      → Tally size n (counted added c) db1 c' db'
      → Tally size (suc n) c db c' db'
  Tally-step n true c c' db db1 db' one rest = record {
    all = omega (arith, rest.all);
    added = omega (arith, one, rest.added);
  }
  Tally-step n false c c' db db1 db' one rest = record {
    all = omega (arith, rest.all);
    added = omega (arith, one, rest.added);
  }

  each-Tally :
      (ds : List D) (c : BatchCounts) (db : Database)
      → Post (Tally size (length ds) c db) (each step ds c db)
  unfolding each
  each-Tally [] c db = Post-pure _ c db (record { all = omega arith; added = omega arith })
  each-Tally (d ∷ ds) c db = Post-bind _ (StepSizes size db) _ _ db (sized d db) λ added db1 one.
      Post-weaken _ (Tally size (length ds) (counted added c) db1) _
        (λ c' db' rest. Tally-step (length ds) added c c' db db1 db' one rest)
        (each-Tally ds (counted added c) db1)

-- An audit event leaves the size of every other table.
module _ (size : Database → ℕ)
    (unaudited : (db : Database) (events : List _) → size (record db { audits = events }) ≡ size db)
    (self : ForwardRegistry) (m : Moment) where
  audit-size :
      (action entity_type entity_id : String) (event : AuditPayload) (db : Database)
      → Post (λ _ db'. size db' ≡ size db) (audit self m action entity_type entity_id event db)
  unfolding audit
  audit-size action entity_type entity_id event db =
      Post-unless (λ _ db'. size db' ≡ size db) _ _ _ _ (unaudited db _)

  Tally-audited :
      (n : ℕ) (c : BatchCounts) (db db1 db2 : Database)
      → Tally size n no_counts db c db1
      → size db2 ≡ size db1
      → Tally size n no_counts db c db2
  Tally-audited n c db db1 db2 t same = record { all = t.all; added = omega (arith, t.added, same) }

abbrev pub forecasts_size : Database → ℕ
forecasts_size db = length db.forecasts

abbrev pub labels_size : Database → ℕ
labels_size db = length db.labels

abbrev pub checks_size : Database → ℕ
checks_size db = length db.checks

module _ (self : ForwardRegistry) (m : Moment) where
  append_forecast-StepSizes :
      (run_id model_id dataset_id : String) (as_of : Instant) (d : ForecastDraft) (db : Database)
      → Post
          (StepSizes forecasts_size db)
          (append_forecast self m run_id model_id dataset_id as_of d db)
  unfolding append_forecast
  append_forecast-StepSizes run_id model_id dataset_id as_of d db =
      Post-require _ _ _ _ db λ available. Post-require _ _ _ _ db λ tradable.
        Post-require _ _ _ _ db λ immature. Post-gets _ _ _ db (
          Post-if_existing _ _ _ _ db
            (λ row e. Post-assert_same _ _ _ _ _ _ db λ same. Post-pure _ false db refl)
            λ new.
              Post-bind _ (λ _. StepSizes forecasts_size db true) _ _ db
                (Post-unless (λ _. StepSizes forecasts_size db true) _ _ _ _
                  (length-append db.forecasts _))
                λ _ db' h. Post-pure _ true db' h)

  append_forecasts-Tally :
      (run_id : String) (ds : List ForecastDraft) (db : Database)
      → Post (Tally forecasts_size (length ds) no_counts db) (append_forecasts self m run_id ds db)
  unfolding append_forecasts
  append_forecasts-Tally run_id ds db = Post-require_running_type _ run_id _ _ db λ run found typed.
      Post-or_raise _ _ _ _ db λ model_id same_model.
        Post-or_raise _ _ _ _ db λ dataset_id same_dataset.
          Post-bind _ _ _ _ db
            (each-Tally forecasts_size _
              (append_forecast-StepSizes run_id model_id dataset_id run.as_of) ds no_counts db)
            λ c db1 t.
              Post-bind _ _ _ _ db1 (audit-size forecasts_size (λ _ _. refl) self m _ _ _ _ db1)
                λ _ db2 same.
                  Post-pure _ c db2
                    (Tally-audited forecasts_size (λ _ _. refl) self m _ c db db1 db2 t same)

  settle_label-StepSizes :
      (run_id : String) (as_of : Instant) (d : LabelDraft) (db : Database)
      → Post (StepSizes labels_size db) (settle_label self m run_id as_of d db)
  unfolding settle_label
  settle_label-StepSizes run_id as_of d db = Post-gets _ _ _ db (
      Post-or_raise _ _ _ _ db λ forecast found. Post-require _ _ _ _ db λ mature.
        Post-require _ _ _ _ db λ by_then. Post-gets _ _ _ db (
          Post-or_raise _ _ _ _ db λ source registered. Post-gets _ _ _ db (
            Post-if_existing _ _ _ _ db
              (λ row e. Post-assert_same _ _ _ _ _ _ db λ same. Post-pure _ false db refl)
              λ new.
                Post-bind _ (λ _. StepSizes labels_size db true) _ _ db
                  (Post-unless (λ _. StepSizes labels_size db true) _ _ _ _
                    (length-append db.labels _))
                  λ _ db' h. Post-pure _ true db' h)))

  settle_labels-Tally :
      (run_id : String) (ds : List LabelDraft) (db : Database)
      → Post (Tally labels_size (length ds) no_counts db) (settle_labels self m run_id ds db)
  unfolding settle_labels
  settle_labels-Tally run_id ds db = Post-require_running_type _ run_id _ _ db λ run found typed.
      Post-bind _ _ _ _ db
        (each-Tally labels_size _ (settle_label-StepSizes run_id run.as_of) ds no_counts db)
        λ c db1 t.
          Post-bind _ _ _ _ db1 (audit-size labels_size (λ _ _. refl) self m _ _ _ _ db1)
            λ _ db2 same.
              Post-pure _ c db2
                (Tally-audited labels_size (λ _ _. refl) self m _ c db db1 db2 t same)

  add_quality_check-StepSizes :
      (run_id : String) (d : QualityCheckDraft) (db : Database)
      → Post (StepSizes checks_size db) (add_quality_check self m run_id d db)
  unfolding add_quality_check
  add_quality_check-StepSizes run_id d db = Post-gets _ _ _ db (
      Post-if_existing _ _ _ _ db
        (λ row e. Post-assert_same _ _ _ _ _ _ db λ same. Post-pure _ false db refl)
        λ new.
          Post-bind _ (λ _. StepSizes checks_size db true) _ _ db
            (Post-unless (λ _. StepSizes checks_size db true) _ _ _ _ (length-append db.checks _))
            λ _ db' h. Post-pure _ true db' h)

  add_quality_checks-Tally :
      (run_id : String) (ds : List QualityCheckDraft) (db : Database)
      → Post (Tally checks_size (length ds) no_counts db) (add_quality_checks self m run_id ds db)
  unfolding add_quality_checks
  add_quality_checks-Tally run_id ds db = Post-require_running_run _ run_id _ db λ run found active.
      Post-bind _ _ _ _ db
        (each-Tally checks_size _ (add_quality_check-StepSizes run_id) ds no_counts db)
        λ c db1 t.
          Post-bind _ _ _ _ db1 (audit-size checks_size (λ _ _. refl) self m _ _ _ _ db1)
            λ _ db2 same.
              Post-pure _ c db2
                (Tally-audited checks_size (λ _ _. refl) self m _ c db db1 db2 t same)

-- Every item of the batch is counted once, and the table has grown by those that were inserted.
abbrev pub AreExact : (items before after : ℕ) → BatchCounts → Type 0
AreExact items before after c =
    (c.inserted + c.idempotent_skips ≡ items) × (after ≡ before + c.inserted)

Tally-AreExact :
    (size : Database → ℕ) (n : ℕ) (db db' : Database) (c : BatchCounts)
    → Tally size n no_counts db c db'
    → AreExact n (size db) (size db') c
Tally-AreExact size n db db' c t = (omega (arith, t.all), omega (arith, t.added))

module _ (self : ForwardRegistry) (m : Moment) (run_id : String) (db db' : Database)
    {c : BatchCounts} where
  -- When a batch of forecasts is appended, every draft is counted once, as inserted or as skipped,
  -- and the table has grown by exactly the inserted ones.
  pub append_forecasts-AreExact :
      (ds : List ForecastDraft)
      → append_forecasts self m run_id ds db ≡ ok (c, db')
      → AreExact (length ds) (length db.forecasts) (length db'.forecasts) c
  append_forecasts-AreExact ds h =
      Tally-AreExact forecasts_size _ db db' c
        (Post-ok _ _ (append_forecasts-Tally self m run_id ds db) h)

  -- When a batch of labels is settled, every draft is counted once, as inserted or as skipped, and
  -- the table has grown by exactly the inserted ones.
  pub settle_labels-AreExact :
      (ds : List LabelDraft)
      → settle_labels self m run_id ds db ≡ ok (c, db')
      → AreExact (length ds) (length db.labels) (length db'.labels) c
  settle_labels-AreExact ds h =
      Tally-AreExact labels_size _ db db' c
        (Post-ok _ _ (settle_labels-Tally self m run_id ds db) h)

  -- When a batch of quality checks is added, every draft is counted once, as inserted or as skipped,
  -- and the table has grown by exactly the inserted ones.
  pub add_quality_checks-AreExact :
      (ds : List QualityCheckDraft)
      → add_quality_checks self m run_id ds db ≡ ok (c, db')
      → AreExact (length ds) (length db.checks) (length db'.checks) c
  add_quality_checks-AreExact ds h =
      Tally-AreExact checks_size _ db db' c
        (Post-ok _ _ (add_quality_checks-Tally self m run_id ds db) h)
