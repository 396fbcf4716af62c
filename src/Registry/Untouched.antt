-- ===== src/Registry/Untouched.antt =====
-- The methods that leave the runs alone: those of src/edgar_moe/forward/registry.py that register or
-- add evidence. Whether they return or raise, an identifier of an audit event that is not theirs
-- stays new.
use edgar_moe.Common.{
  ℕ, Bool, false, String, ◌≡◌, refl, inl, inr, List, [], ◌∷◌, ◌++◌, ◌==◌, string_eq, has,
  Bool-cases,
}
use edgar_moe.Registry.Records.{
  DatasetRegistration, ModelRegistration, ForecastDraft, LabelDraft, QualityCheckDraft,
  ArtifactReference, AuditEvent, Database,
}
use edgar_moe.Registry.Session.{
  Result, ok, err, Session, pure, ◌>>=◌, ◌>>◌, transaction, ForwardRegistry, Moment, AuditPayload,
  audit, audit_row,
}
use edgar_moe.Registry.Registrations.{register_dataset, register_model, register_artifact}
use edgar_moe.Registry.Batches.{
  BatchCounts, no_counts, each, append_forecast, append_forecasts, settle_label, settle_labels,
  add_quality_check, add_quality_checks,
}
use edgar_moe.Registry.Rules.{
  Post, Post-pure, Post-bind, Post-gets, Post-or_raise, Post-require, Post-if_existing, Post-unless,
  Post-each,
}
use edgar_moe.Registry.Advance.Parts.{
  Post-assert_same, Post-require_running_run, Post-require_running_type,
}

abbrev pub event_id : AuditEvent → String
event_id a = a.audit_id

pub record Untouched (db : Database) (audit_id : String) (db' : Database) : Type 0 where
  pub runs : db'.runs ≡ db.runs
  pub fresh : has event_id audit_id db'.audits ≡ false

pub has-snoc :
    (k : String) (xs : List AuditEvent) (y : AuditEvent)
    → has event_id k xs ≡ false
    → (event_id y == k) ≡ false
    → has event_id k (xs ++ y ∷ []) ≡ false
has-snoc k [] y h other = rw (other, has) refl
has-snoc k (x ∷ xs) y h other = elim (Bool-cases (event_id x == k)) [
  | inl found ↦ cc (rw (found, has) at h)
  | inr e ↦ rw (e, has) (has-snoc k xs y (rw (e, has) at h) other)
]

committed :
    {A : Type 0} (db : Database) (audit_id : String) (db1 : Database) (r : Result (A × Database))
    → Untouched db audit_id db1
    → Post (λ _. Untouched db audit_id) r
    → Untouched db audit_id (transaction (λ _. r) db1).1
committed db audit_id db1 (ok (a, db')) h k = k
committed db audit_id db1 (err e) h k = h

-- A transaction that raises leaves the database as it was.
pub transaction-Untouched :
    {A : Type 0} (db : Database) (audit_id : String) (m : Session A) (db1 : Database)
    → Untouched db audit_id db1
    → Post (λ _. Untouched db audit_id) (m db1)
    → Untouched db audit_id (transaction m db1).1
transaction-Untouched db audit_id m db1 h k = committed db audit_id db1 (m db1) h k

module _ (self : ForwardRegistry) (m : Moment) (audit_id : String)
    (other : (m.audit_id == audit_id) ≡ false) (db : Database) where
  abbrev Keeps : {A : Type 0} → A → Database → Type 0
  Keeps _ = Untouched db audit_id

  -- The end of a method: the audit event, and the value that is returned.
  Post-audited :
      {A : Type 0} (action entity_type entity_id : String) (event : AuditPayload) (a : A)
      (db1 : Database)
      → Untouched db audit_id db1
      → Post Keeps ((audit self m action entity_type entity_id event >> pure a) db1)
  unfolding audit audit_row
  Post-audited action entity_type entity_id event a db1 h =
      Post-bind Keeps Keeps _ _ db1
        (Post-unless Keeps _ _ _ _
          (record { runs = h.runs; fresh = has-snoc audit_id db1.audits _ h.fresh other }))
        λ _ db2 k. Post-pure Keeps a db2 k

  -- The end of a row's registration.
  Post-added :
      {A : Type 0} (add : Session (Unit {0})) (rest : Session A) (db1 : Database)
      → Post Keeps (add db1)
      → ((db2 : Database) → Untouched db audit_id db2 → Post Keeps (rest db2))
      → Post Keeps ((add >> rest) db1)
  Post-added add rest db1 h k = Post-bind Keeps Keeps add _ db1 h λ _ db2 h2. k db2 h2

  module _ (db1 : Database) (h : Untouched db audit_id db1) where
    pub register_dataset-Untouched :
        (registration : DatasetRegistration)
        → Post (λ _. Untouched db audit_id) (register_dataset self m registration db1)
    unfolding register_dataset
    register_dataset-Untouched registration = Post-gets _ _ _ db1 (
        Post-if_existing _ _ _ _ db1
          (λ row e. Post-assert_same _ _ _ _ _ _ db1 λ same. Post-pure _ _ db1 h)
          λ absent.
            Post-added _ _ db1
              (Post-unless Keeps _ _ _ _ (record { runs = h.runs; fresh = h.fresh }))
              λ db2 h2. Post-audited _ _ _ _ _ db2 h2)

    pub register_model-Untouched :
        (registration : ModelRegistration)
        → Post (λ _. Untouched db audit_id) (register_model self m registration db1)
    unfolding register_model
    register_model-Untouched registration = Post-gets _ _ _ db1 (
        Post-or_raise _ _ _ _ db1 λ dataset known. Post-gets _ _ _ db1 (
          Post-if_existing _ _ _ _ db1
            (λ row e. Post-assert_same _ _ _ _ _ _ db1 λ same. Post-pure _ _ db1 h)
            λ absent.
              Post-added _ _ db1
                (Post-unless Keeps _ _ _ _ (record { runs = h.runs; fresh = h.fresh }))
                λ db2 h2. Post-audited _ _ _ _ _ db2 h2))

    pub register_artifact-Untouched :
        (run_id kind : String) (reference : ArtifactReference)
        → Post (λ _. Untouched db audit_id) (register_artifact self m run_id kind reference db1)
    unfolding register_artifact
    register_artifact-Untouched run_id kind reference = Post-gets _ _ _ db1 (
        Post-or_raise _ _ _ _ db1 λ run found. Post-gets _ _ _ db1 (
          Post-if_existing _ _ _ _ db1
            (λ row e. Post-assert_same _ _ _ _ _ _ db1 λ same. Post-pure _ _ db1 h)
            λ absent.
              Post-added _ _ db1
                (Post-unless Keeps _ _ _ _ (record { runs = h.runs; fresh = h.fresh }))
                λ db2 h2. Post-audited _ _ _ _ _ db2 h2))

  append_forecast-Untouched :
      (run_id model_id dataset_id : String) (as_of : ℕ) (d : ForecastDraft) (db1 : Database)
      → Untouched db audit_id db1
      → Post
          (λ _. Untouched db audit_id)
          (append_forecast self m run_id model_id dataset_id as_of d db1)
  unfolding append_forecast
  append_forecast-Untouched run_id model_id dataset_id as_of d db1 h = Post-require _ _ _ _ db1 λ _.
      Post-require _ _ _ _ db1 λ _. Post-require _ _ _ _ db1 λ _. Post-gets _ _ _ db1 (
        Post-if_existing _ _ _ _ db1
          (λ row e. Post-assert_same _ _ _ _ _ _ db1 λ same. Post-pure _ _ db1 h)
          λ absent.
            Post-added _ _ db1
              (Post-unless Keeps _ _ _ _ (record { runs = h.runs; fresh = h.fresh }))
              λ db2 h2. Post-pure _ _ db2 h2)

  settle_label-Untouched :
      (run_id : String) (as_of : ℕ) (d : LabelDraft) (db1 : Database)
      → Untouched db audit_id db1
      → Post (λ _. Untouched db audit_id) (settle_label self m run_id as_of d db1)
  unfolding settle_label
  settle_label-Untouched run_id as_of d db1 h = Post-gets _ _ _ db1 (
      Post-or_raise _ _ _ _ db1 λ _ _. Post-require _ _ _ _ db1 λ _. Post-require _ _ _ _ db1 λ _.
        Post-gets _ _ _ db1 (
          Post-or_raise _ _ _ _ db1 λ _ _. Post-gets _ _ _ db1 (
            Post-if_existing _ _ _ _ db1
              (λ row e. Post-assert_same _ _ _ _ _ _ db1 λ same. Post-pure _ _ db1 h)
              λ absent.
                Post-added _ _ db1
                  (Post-unless Keeps _ _ _ _ (record { runs = h.runs; fresh = h.fresh }))
                  λ db2 h2. Post-pure _ _ db2 h2)))

  add_quality_check-Untouched :
      (run_id : String) (d : QualityCheckDraft) (db1 : Database)
      → Untouched db audit_id db1
      → Post (λ _. Untouched db audit_id) (add_quality_check self m run_id d db1)
  unfolding add_quality_check
  add_quality_check-Untouched run_id d db1 h = Post-gets _ _ _ db1 (
      Post-if_existing _ _ _ _ db1
        (λ row e. Post-assert_same _ _ _ _ _ _ db1 λ same. Post-pure _ _ db1 h)
        λ absent.
          Post-added _ _ db1 (Post-unless Keeps _ _ _ _ (record { runs = h.runs; fresh = h.fresh }))
            λ db2 h2. Post-pure _ _ db2 h2)

  batch-Untouched :
      {D : Type 0} (step : D → Session Bool)
      → ((d : D) (db1 : Database)
          → Untouched db audit_id db1
          → Post (λ _. Untouched db audit_id) (step d db1))
      → (action run_id : String) (event : BatchCounts → AuditPayload) (ds : List D) (db1 : Database)
      → Untouched db audit_id db1
      → Post Keeps (
          (each step ds no_counts >>= λ c. audit self m action "run" run_id (event c) >> pure c)
            db1)
  batch-Untouched step keep action run_id event ds db1 h =
      Post-bind Keeps Keeps _ _ db1 (Post-each (Untouched db audit_id) step keep ds no_counts db1 h)
        λ c db2 h2. Post-audited _ _ _ _ c db2 h2

  module _ (run_id : String) (db1 : Database) (h : Untouched db audit_id db1) where
    pub append_forecasts-Untouched :
        (forecasts : List ForecastDraft)
        → Post (λ _. Untouched db audit_id) (append_forecasts self m run_id forecasts db1)
    unfolding append_forecasts
    append_forecasts-Untouched forecasts =
        Post-require_running_type _ run_id _ _ db1 λ run found typed.
          Post-or_raise _ _ _ _ db1 λ model_id _. Post-or_raise _ _ _ _ db1 λ dataset_id _.
            batch-Untouched _ (append_forecast-Untouched run_id model_id dataset_id run.as_of) _
              run_id _ forecasts db1 h

    pub settle_labels-Untouched :
        (labels : List LabelDraft)
        → Post (λ _. Untouched db audit_id) (settle_labels self m run_id labels db1)
    unfolding settle_labels
    settle_labels-Untouched labels = Post-require_running_type _ run_id _ _ db1 λ run found typed.
        batch-Untouched _ (settle_label-Untouched run_id run.as_of) _ run_id _ labels db1 h

    pub add_quality_checks-Untouched :
        (checks : List QualityCheckDraft)
        → Post (λ _. Untouched db audit_id) (add_quality_checks self m run_id checks db1)
    unfolding add_quality_checks
    add_quality_checks-Untouched checks =
        Post-require_running_run _ run_id _ db1 λ run found active.
          batch-Untouched _ (add_quality_check-Untouched run_id) _ run_id _ checks db1 h
