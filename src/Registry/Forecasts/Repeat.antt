-- ===== src/Registry/Forecasts/Repeat.antt =====
-- `append_forecasts` when a batch is sent again, and when it contradicts a stored forecast.
use edgar_moe.Common.{
  ℕ, ◌+◌, String, ◌≡◌, ◌≢◌, refl, sym, subst, ◌∙◌, ap, false, some, List, [], ◌∷◌, ◌++◌, arith,
  string_eq, length, Extends, Extends-trans, All, has,
}
use edgar_moe.Registry.Records.{
  Instant, RunType, running, run_status_eq, run_type_eq, same_type_iff, same_status_iff,
  RunRegistration, ForecastDraft, ForecastRecord, RunRecord, Database,
}
use edgar_moe.Registry.Session.{
  Error, Result, ok, err, Session, pure, ◌>>=◌, ◌>>◌, Payload, ForwardRegistry, Moment,
  payload_hash, audit_row, audit-eq, batch, get_run, require_running_type, require_running_run,
  transaction,
}
use edgar_moe.Registry.Growth.{Grows, Grows-trans, get-RunsGrow}
use edgar_moe.Registry.Rules.{
  Post, Post-pure, Post-bind, Post-or_raise, Post-ok, Post-weaken, gets-bind, or_raise-bind,
  bind-eq, require-bind, pure-eq,
}
use edgar_moe.Registry.Advance.Parts.{Post-require_running_type, audit-Advances}
use edgar_moe.Registry.Advance.Batches.{append_forecasts-Advances}
use edgar_moe.Registry.Batches.{BatchCounts, no_counts, find_forecast, append_forecasts}
use edgar_moe.Registry.Commands.{Command, execute}
use edgar_moe.Registry.Forecasts.{
  find_forecast-append_some, IsRecorded, IsRecorded-Extends, each-IsRecorded, each_again,
}

All-Recorded-Extends :
    (self : ForwardRegistry) (model_id dataset_id : String) (as_of : Instant) (old new : Database)
    → Extends old.forecasts new.forecasts
    → (ds : List ForecastDraft) → All (IsRecorded self model_id dataset_id as_of old) ds
    → All (IsRecorded self model_id dataset_id as_of new) ds
All-Recorded-Extends self model_id dataset_id as_of old new more [] h = tt
All-Recorded-Extends self model_id dataset_id as_of old new more (d ∷ ds) h = (
  IsRecorded-Extends self model_id dataset_id as_of old new more d h.0,
  All-Recorded-Extends self model_id dataset_id as_of old new more ds h.1,
)

-- The run of a batch, and what a later database holds of its drafts.
record HasBatch (self : ForwardRegistry) (run_id : String) (ds : List ForecastDraft)
    (db later : Database) : Type 0 where
  run : RunRecord
  found : get_run db run_id ≡ some run
  typed : run.run_type ≡ RunType.forecast
  model_id : String
  dataset_id : String
  same_model : run.model_id ≡ some model_id
  same_dataset : run.dataset_id ≡ some dataset_id
  older : Extends db.forecasts later.forecasts
  recorded : All (IsRecorded self model_id dataset_id run.as_of later) ds

abbrev only_skips : ℕ → BatchCounts
only_skips n = record { inserted = 0; idempotent_skips = n }

module _ (self : ForwardRegistry) (m : Moment) (run_id : String) (ds : List ForecastDraft) where
  append_forecasts-HasBatch :
      (db : Database)
      → Post (λ _. HasBatch self run_id ds db) (append_forecasts self m run_id ds db)
  unfolding append_forecasts
  append_forecasts-HasBatch db = Post-require_running_type _ run_id _ _ db λ run found typed.
      Post-or_raise _ _ _ _ db λ model_id same_model.
        Post-or_raise _ _ _ _ db λ dataset_id same_dataset.
          Post-bind _ _ _ _ db
            (each-IsRecorded self model_id dataset_id run.as_of m run_id ds no_counts db)
            λ c db1 (older, recorded).
              Post-bind _ _ _ _ db1 (audit-Advances db1 self m _ _ _ _) λ _ db2 h.
                let more = h.grows.forecasts in
                Post-pure _ c db2 (record {
                  run = run;
                  found = found;
                  typed = typed;
                  model_id = model_id;
                  dataset_id = dataset_id;
                  same_model = same_model;
                  same_dataset = same_dataset;
                  older = Extends-trans db.forecasts older more;
                  recorded =
                      All-Recorded-Extends self model_id dataset_id run.as_of db1 db2 more ds
                        recorded;
                })

  require_running_type-bind :
      {B : Type 0} (expected : RunType) (f : RunRecord → Session B) (db : Database)
      (run : RunRecord)
      → get_run db run_id ≡ some run
      → run.status ≡ running
      → run.run_type ≡ expected
      → (require_running_type run_id expected >>= f) db ≡ f run db
  unfolding require_running_type require_running_run
  require_running_type-bind expected f db run found active typed = bind-eq _ f db (
      bind-eq _ _ db (
        gets-bind _ _ db
        ∙ or_raise-bind _ _ _ db found
        ∙ require-bind _ _ _ db ((same_status_iff run.status running).1 active)
        ∙ pure-eq run db)
      ∙ require-bind _ _ _ db ((same_type_iff run.run_type expected).1 typed)
      ∙ pure-eq run db)

  abbrev audited : ℕ → Database → Database
  audited n db = record db {
    audits = db.audits ++ audit_row self m "forecast.batch_appended" "run" run_id (batch 0 n) ∷ [];
  }

  -- With every draft recorded, the batch adds nothing but its audit event.
  append_recorded :
      (db : Database) (run : RunRecord) (model_id dataset_id : String)
      → get_run db run_id ≡ some run
      → run.status ≡ running
      → run.run_type ≡ RunType.forecast
      → run.model_id ≡ some model_id
      → run.dataset_id ≡ some dataset_id
      → All (IsRecorded self model_id dataset_id run.as_of db) ds
      → has (λ a. a.audit_id) m.audit_id db.audits ≡ false
      → append_forecasts self m run_id ds db
        ≡ ok (only_skips (0 + length ds), audited (0 + length ds) db)
  unfolding append_forecasts
  append_recorded db run model_id dataset_id found active typed same_model same_dataset recorded
        fresh =
      require_running_type-bind _ _ db run found active typed
      ∙ or_raise-bind _ _ _ db same_model
      ∙ or_raise-bind _ _ _ db same_dataset
      ∙ bind-eq _ _ db
          (each_again self model_id dataset_id run.as_of m run_id ds no_counts db recorded)
      ∙ bind-eq _ _ db (audit-eq self m _ _ _ _ db fresh)
      ∙ pure-eq _ _

-- A batch that was appended once can be sent again, at any later time while its run is running: it
-- inserts nothing, counts every draft as skipped, and leaves every table but the audit events as it
-- was, which gain the one event of the call.
pub append_forecasts_again :
    (self : ForwardRegistry) (m m' : Moment) (run_id : String) (ds : List ForecastDraft)
    {c : BatchCounts} (db db1 later : Database) (run : RunRecord)
    → append_forecasts self m run_id ds db ≡ ok (c, db1)
    → Grows db1 later
    → get_run later run_id ≡ some run
    → run.status ≡ running
    → has (λ a. a.audit_id) m'.audit_id later.audits ≡ false
    → append_forecasts self m' run_id ds later
      ≡ ok (
        record { inserted = 0; idempotent_skips = length ds },
        record later {
          audits =
              later.audits
              ++ audit_row self m' "forecast.batch_appended" "run" run_id (batch 0 (length ds))
                ∷ [];
        },
      )
append_forecasts_again self m m' run_id ds db db1 later run first grown found active fresh =
    let b = Post-ok _ _ (append_forecasts-HasBatch self m run_id ds db) first in
    let g = (Post-ok _ _ (append_forecasts-Advances self m run_id ds db) first).grows in
    let (r', found', step) =
      get-RunsGrow run_id db.runs later.runs b.run (Grows-trans db db1 later g grown).runs
        b.found in
    let same : r' ≡ run = cc in
    let e : run.registration ≡ b.run.registration =
      subst (λ r. r.registration ≡ b.run.registration) same step.same_registration in
    let kept =
      All-Recorded-Extends self b.model_id b.dataset_id b.run.as_of db1 later grown.forecasts ds
        b.recorded in
    subst
      (λ n.
        append_forecasts self m' run_id ds later
        ≡ ok (only_skips n, audited self m' run_id ds n later))
      (omega arith)
      (append_recorded self m' run_id ds later run b.model_id b.dataset_id found active
        (ap (λ (r : RunRegistration). r.run_type) e ∙ b.typed)
        (ap (λ (r : RunRegistration). r.model_id) e ∙ b.same_model)
        (ap (λ (r : RunRegistration). r.dataset_id) e ∙ b.same_dataset)
        (subst
          (λ (r : RunRegistration). All (IsRecorded self b.model_id b.dataset_id r.as_of later) ds)
          (sym e) kept)
        fresh)

All-middle :
    {A : Type 0} (P : A → Type 0) (xs : List A) (y : A) (zs : List A) → All P (xs ++ y ∷ zs) → P y
All-middle P [] y zs h = h.0
All-middle P (x ∷ xs) y zs h = All-middle P xs y zs h.1

-- A row under a recorded draft's identity has its hash.
recorded_hash :
    (self : ForwardRegistry) (model_id dataset_id : String) (as_of : Instant) (db : Database)
    (d : ForecastDraft) (row : ForecastRecord)
    → IsRecorded self model_id dataset_id as_of db d
    → find_forecast model_id d.event_id as_of db.forecasts ≡ some row
    → row.payload_hash
      ≡ payload_hash self.library (Payload.forecast model_id dataset_id d.event_id as_of d)
recorded_hash self model_id dataset_id as_of db d row h stored =
    let same : h.row ≡ row = cc (h.found, stored) in
    ap (λ (r : ForecastRecord). r.payload_hash) (sym same) ∙ h.same_hash

bind-err :
    {A B : Type 0} (s : Session A) (f : A → Session B) (db : Database) {e : Error}
    → s db ≡ err e
    → (s >>= f) db ≡ err e
unfolding ◌>>=◌
bind-err s f db h = rw (h, ◌>>=◌)

never_returns :
    {A : Type 0} (db : Database) (s : Session A)
    → Post (λ _ _. ⊥) (s db)
    → (e : Error) × (transaction (s >> pure tt) db ≡ (err e, db))
never_returns db s h = go (s db) refl h
  where
    go :
        (r : Result _)
        → s db ≡ r
        → Post (λ _ _. ⊥) r
        → (e : Error) × (transaction (s >> pure tt) db ≡ (err e, db))
    go (ok (a, db')) e p = absurd p
    go (err e) q p = (e, rw (bind-err s (λ _. pure tt) db q, transaction))

-- A batch with a draft whose model, event and time are already stored with another payload hash
-- raises, and the database is left as it was: no draft of the batch is stored.
pub append_forecasts_conflict :
    (self : ForwardRegistry) (m : Moment) (run_id model_id dataset_id : String)
    (xs ys : List ForecastDraft) (d : ForecastDraft) (db : Database) (run : RunRecord)
    (row : ForecastRecord)
    → get_run db run_id ≡ some run
    → run.model_id ≡ some model_id
    → run.dataset_id ≡ some dataset_id
    → find_forecast model_id d.event_id run.as_of db.forecasts ≡ some row
    → row.payload_hash
      ≢ payload_hash self.library (Payload.forecast model_id dataset_id d.event_id run.as_of d)
    → (e : Error) × (execute self m (Command.forecasts run_id (xs ++ d ∷ ys)) db ≡ (err e, db))
unfolding execute
append_forecasts_conflict self m run_id model_id dataset_id xs ys d db run row found same_model
      same_dataset stored differs =
    never_returns db _ (
      Post-weaken _ (λ _. HasBatch self run_id (xs ++ d ∷ ys) db) _ contradiction
        (append_forecasts-HasBatch self m run_id (xs ++ d ∷ ys) db))
  where
    contradiction :
        (c : BatchCounts) (db' : Database) → HasBatch self run_id (xs ++ d ∷ ys) db db' → ⊥
    contradiction c db' b =
        let r1 : b.run ≡ run = cc (b.found, found) in
        let r2 : b.model_id ≡ model_id =
          cc (b.same_model, ap (λ (r : RunRecord). r.model_id) r1, same_model) in
        let r3 : b.dataset_id ≡ dataset_id =
          cc (b.same_dataset, ap (λ (r : RunRecord). r.dataset_id) r1, same_dataset) in
        let h0 = All-middle _ xs d ys b.recorded in
        let h1 =
          subst (λ (r : RunRecord). IsRecorded self b.model_id b.dataset_id r.as_of db' d) r1 h0 in
        let h2 = subst (λ k. IsRecorded self k b.dataset_id run.as_of db' d) r2 h1 in
        let h3 = subst (λ k. IsRecorded self model_id k run.as_of db' d) r3 h2 in
        let (added, more) = b.older in
        let still : find_forecast model_id d.event_id run.as_of db'.forecasts ≡ some row =
          rw more
            (find_forecast-append_some model_id d.event_id run.as_of db.forecasts added stored) in
        differs (recorded_hash self model_id dataset_id run.as_of db' d row h3 still)
