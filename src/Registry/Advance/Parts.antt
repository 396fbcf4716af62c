-- ===== src/Registry/Advance/Parts.antt =====
-- The statements that the methods of the registry share advance the database.
use edgar_moe.Common.{String, ◌≡◌, refl, sym, Option, none, some, ◌==◌, Has, string_eq, subst}
use edgar_moe.Registry.Records.{
  RunType, same_type_iff, same_status_iff, run_type_eq, run_status_eq, running, DatasetRecord,
  RegisteredModel, RunRecord, ForecastRecord, LabelRecord, ArtifactRecord, DataQualityRecord,
  Database,
}
use edgar_moe.Registry.Session.{
  Session, pure, ◌>>=◌, ◌>>◌, AuditPayload, ForwardRegistry, Moment, get_run, audit, assert_same,
  require_optional_reference, require_running_run, require_running_type,
}
use edgar_moe.Registry.Invariant.{Refers, IsSoundForecast, IsSoundLabel, Advances, Advances-trans}
use edgar_moe.Registry.Rules.{
  Post, Post-unless, Post-pure, Post-bind, Post-gets, Post-or_raise, Post-require,
}
use edgar_moe.Registry.Registrations.{add_dataset, add_model, add_artifact}
use edgar_moe.Registry.Batches.{add_forecast, add_label, add_check}
use edgar_moe.Registry.Advance.{
  AdvancesFrom, with_audit, with_dataset, with_model, with_forecast, with_label, with_artifact,
  with_check,
}

module _ (db : Database) where
  pub add_dataset-Advances : (row : DatasetRecord) → Post (AdvancesFrom db) (add_dataset row db)
  add_dataset-Advances row = Post-unless (AdvancesFrom db) _ _ tt _ (with_dataset db row)

  pub add_model-Advances :
      (row : RegisteredModel)
      → Has (λ r. r.dataset_id) row.training_dataset_id db.datasets
      → Post (AdvancesFrom db) (add_model row db)
  add_model-Advances row known = Post-unless (AdvancesFrom db) _ _ tt _ (with_model db row known)

  pub add_artifact-Advances :
      (row : ArtifactRecord)
      → Has (λ r. r.run_id) row.run_id db.runs
      → Post (AdvancesFrom db) (add_artifact row db)
  add_artifact-Advances row known =
      Post-unless (AdvancesFrom db) _ _ tt _ (with_artifact db row known)

  pub add_forecast-Advances :
      (row : ForecastRecord) → IsSoundForecast db row → Post (AdvancesFrom db) (add_forecast row db)
  add_forecast-Advances row good =
      Post-unless (AdvancesFrom db) _ _ tt _ (with_forecast db row good)

  pub add_label-Advances :
      (row : LabelRecord) → IsSoundLabel db row → Post (AdvancesFrom db) (add_label row db)
  add_label-Advances row good = Post-unless (AdvancesFrom db) _ _ tt _ (with_label db row good)

  pub add_check-Advances :
      (row : DataQualityRecord)
      → Has (λ r. r.run_id) row.run_id db.runs
      → Post (AdvancesFrom db) (add_check row db)
  add_check-Advances row known = Post-unless (AdvancesFrom db) _ _ tt _ (with_check db row known)

  pub audit-Advances :
      (self : ForwardRegistry) (m : Moment) (action kind entity_id : String) (event : AuditPayload)
      → Post (AdvancesFrom db) (audit self m action kind entity_id event db)
  unfolding audit
  audit-Advances self m action kind entity_id event =
      Post-unless (AdvancesFrom db) _ _ tt _ (with_audit db _)

-- The end of a method: the audit event, and the value that is returned.
pub Post-audited :
    {A : Type 0} (base db : Database) (self : ForwardRegistry) (m : Moment)
    (action kind entity_id : String) (event : AuditPayload) (a : A)
    → Advances base db
    → Post (AdvancesFrom base) ((audit self m action kind entity_id event >> pure a) db)
Post-audited base db self m action kind entity_id event a h =
    Post-bind (AdvancesFrom base) (AdvancesFrom db) _ _ db
      (audit-Advances db self m action kind entity_id event)
      λ _ db' k. Post-pure (AdvancesFrom base) a db' (Advances-trans base db db' h k)

module _ {B : Type 0} (Q : B → Database → Type 0) where
  pub Post-assert_same :
      (stored hash kind record_id : String) (f : Unit {0} → Session B) (db : Database)
      → (stored ≡ hash → Post Q (f tt db))
      → Post Q ((assert_same stored hash kind record_id >>= f) db)
  unfolding assert_same
  Post-assert_same stored hash kind record_id f db h =
      Post-require Q (stored == hash) _ f db (λ e. h ((string_eq.same_iff stored hash).0 e))

-- The run that is found is running, and nothing was written.
abbrev IsActive : String → Database → RunRecord → Database → Type 0
IsActive run_id db run db' = (db' ≡ db) × (get_run db run_id ≡ some run) × (run.status ≡ running)

require_running_run-IsActive :
    (run_id : String) (db : Database) → Post (IsActive run_id db) (require_running_run run_id db)
unfolding require_running_run
require_running_run-IsActive run_id db = Post-gets _ _ _ db (
    Post-or_raise _ _ _ _ db λ run found.
      Post-require _ _ _ _ db
        λ active. Post-pure _ run db (refl, found, (same_status_iff run.status running).0 active))

module _ {B : Type 0} (Q : B → Database → Type 0) (run_id : String) (f : RunRecord → Session B)
    (db : Database) where
  pub Post-require_running_run :
      ((run : RunRecord) → get_run db run_id ≡ some run → run.status ≡ running → Post Q (f run db))
      → Post Q ((require_running_run run_id >>= f) db)
  Post-require_running_run h =
      Post-bind Q (IsActive run_id db) _ f db (require_running_run-IsActive run_id db)
        λ run db' (same, found, active).
          subst (λ d. Post Q (f run d)) (sym same) (h run found active)

abbrev IsTyped : String → RunType → Database → RunRecord → Database → Type 0
IsTyped run_id expected db run db' =
    (db' ≡ db) × (get_run db run_id ≡ some run) × (run.run_type ≡ expected)

require_running_type-IsTyped :
    (run_id : String) (expected : RunType) (db : Database)
    → Post (IsTyped run_id expected db) (require_running_type run_id expected db)
unfolding require_running_type
require_running_type-IsTyped run_id expected db =
    Post-require_running_run _ run_id _ db λ run found active.
      Post-require _ _ _ _ db
        λ typed. Post-pure _ run db (refl, found, (same_type_iff run.run_type expected).0 typed)

pub Post-require_running_type :
    {B : Type 0} (Q : B → Database → Type 0) (run_id : String) (expected : RunType)
    (f : RunRecord → Session B) (db : Database)
    → ((run : RunRecord)
        → get_run db run_id ≡ some run
        → run.run_type ≡ expected
        → Post Q (f run db))
    → Post Q ((require_running_type run_id expected >>= f) db)
Post-require_running_type Q run_id expected f db h =
    Post-bind Q (IsTyped run_id expected db) _ f db
      (require_running_type-IsTyped run_id expected db)
      λ run db' (same, found, typed). subst (λ d. Post Q (f run d)) (sym same) (h run found typed)

abbrev IsReferred :
    {R : Type 0} → (String → Option R) → Option String → Database → Unit {0} → Database → Type 0
IsReferred find o db _ db' = (db' ≡ db) × Refers find o

require_optional_reference-IsReferred :
    {R : Type 0} (find : Database → String → Option R) (o : Option String) (kind : String)
    (db : Database)
    → Post (IsReferred (find db) o db) (require_optional_reference find o kind db)
unfolding require_optional_reference
require_optional_reference-IsReferred find none kind db = Post-pure _ tt db (refl, tt)
require_optional_reference-IsReferred find (some k) kind db =
    Post-gets _ _ _ db (Post-or_raise _ _ _ _ db λ r found. Post-pure _ tt db (refl, (r, found)))

pub Post-require_optional_reference :
    {R B : Type 0} (Q : B → Database → Type 0) (find : Database → String → Option R)
    (o : Option String) (kind : String) (f : Unit {0} → Session B) (db : Database)
    → (Refers (find db) o → Post Q (f tt db))
    → Post Q ((require_optional_reference find o kind >>= f) db)
Post-require_optional_reference Q find o kind f db h =
    Post-bind Q (IsReferred (find db) o db) _ f db
      (require_optional_reference-IsReferred find o kind db)
      λ _ db' (same, refers). subst (λ d. Post Q (f tt d)) (sym same) (h refers)
