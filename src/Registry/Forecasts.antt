-- ===== src/Registry/Forecasts.antt =====
-- A batch of forecasts is recorded once: `append_forecasts` of src/edgar_moe/forward/registry.py
-- when it is repeated, and when it would change a forecast.
pub mod Repeat
use edgar_moe.Common.{
  ℕ, ◌+◌, String, ◌≡◌, ◌≢◌, refl, sym, ◌∙◌, ap, Bool, true, false, leb, ltb, ◌&&◌, Option, none,
  some, List, [], ◌∷◌, ◌++◌, arith, ◌==◌, string_eq, nat_eq, if◌then◌else◌, length, Extends,
  Extends-refl, Extends-trans, Extends-append, All, All-map, Bool-cases, inl, inr, has,
}
use edgar_moe.Registry.Records.{
  Instant, RunType, RunStatus, running, run_status_eq, run_type_eq, ForecastDraft, ForecastRecord,
  RunRecord, Database,
}
use edgar_moe.Registry.Session.{
  Result, ok, err, Session, pure, ◌>>=◌, ◌>>◌, Payload, ForwardRegistry, Moment, payload_hash,
  audit, get_run, AuditPayload, require_running_type, require_running_run, assert_same,
}
use edgar_moe.Registry.Rules.{
  Post, Post-unless, Post-pure, Post-bind, Post-gets, Post-or_raise, Post-require, Post-if_existing,
  Post-weaken, Post-ok, gets-bind, or_raise-bind, bind-eq, if_existing-some, require-bind, pure-eq,
}
use edgar_moe.Registry.Advance.Parts.{Post-assert_same, Post-require_running_type}
use edgar_moe.Registry.Batches.{
  BatchCounts, no_counts, counted, each, find_forecast, add_forecast, append_forecast,
  append_forecasts,
}

assert_same-bind :
    {B : Type 0} (stored hash kind record_id : String) (f : Unit {0} → Session B) (db : Database)
    → stored ≡ hash
    → (assert_same stored hash kind record_id >>= f) db ≡ f tt db
unfolding assert_same
assert_same-bind stored hash kind record_id f db h =
    require-bind (stored == hash) _ f db ((string_eq.same_iff stored hash).1 h)

module _ (model_id event_id : String) (as_of : Instant) where
  pub find_forecast-append_some :
      (xs ys : List ForecastRecord) {r : ForecastRecord}
      → find_forecast model_id event_id as_of xs ≡ some r
      → find_forecast model_id event_id as_of (xs ++ ys) ≡ some r
  find_forecast-append_some [] ys h = cc
  find_forecast-append_some (x ∷ xs) ys h =
      elim (Bool-cases
        (x.model_id == model_id && x.event_id == event_id && x.forecast_as_of == as_of)) [
          | inl found ↦ rw found (rw found at h)
          | inr other ↦ rw other (find_forecast-append_some xs ys (rw other at h))
        ]

  find_forecast-append_new :
      (xs : List ForecastRecord) (row : ForecastRecord)
      → find_forecast model_id event_id as_of xs ≡ none
      → row.model_id ≡ model_id
      → row.event_id ≡ event_id
      → row.forecast_as_of ≡ as_of
      → find_forecast model_id event_id as_of (xs ++ row ∷ []) ≡ some row
  find_forecast-append_new [] row h a b c = rw (
    (string_eq.same_iff row.model_id model_id).1 a,
    (string_eq.same_iff row.event_id event_id).1 b,
    (nat_eq.same_iff row.forecast_as_of as_of).1 c,
  )
  find_forecast-append_new (x ∷ xs) row h a b c =
      elim (Bool-cases
        (x.model_id == model_id && x.event_id == event_id && x.forecast_as_of == as_of)) [
          | inl found ↦ cc (rw found at h)
          | inr other ↦ rw other (find_forecast-append_new xs row (rw other at h) a b c)
        ]

module _ (self : ForwardRegistry) (model_id dataset_id : String) (as_of : Instant) where
  -- The draft passes the time tests, and the row with its identity has the hash of its payload.
  pub record IsRecorded (db : Database) (d : ForecastDraft) : Type 0 where
    pub row : ForecastRecord
    pub found : find_forecast model_id d.event_id as_of db.forecasts ≡ some row
    pub same_hash :
        row.payload_hash
        ≡ payload_hash self.library (Payload.forecast model_id dataset_id d.event_id as_of d)
    pub available : leb d.accepted_at as_of ≡ true
    pub tradable : ltb as_of d.entry_at ≡ true
    pub immature : ltb as_of d.horizon_at ≡ true

  pub IsRecorded-Extends :
      (old new : Database)
      → Extends old.forecasts new.forecasts
      → (d : ForecastDraft) → IsRecorded old d
      → IsRecorded new d
  IsRecorded-Extends old new (added, e) d h = record {
    row = h.row;
    found = rw e (find_forecast-append_some model_id d.event_id as_of old.forecasts added h.found);
    same_hash = h.same_hash;
    available = h.available;
    tradable = h.tradable;
    immature = h.immature;
  }

  abbrev StepRecords : Database → ForecastDraft → Bool → Database → Type 0
  StepRecords db d added db' = Extends db.forecasts db'.forecasts × IsRecorded db' d

  module _ (m : Moment) (run_id : String) where
    append_forecast-IsRecorded :
        (d : ForecastDraft) (db : Database)
        → Post (StepRecords db d) (append_forecast self m run_id model_id dataset_id as_of d db)
    unfolding append_forecast
    append_forecast-IsRecorded d db = Post-require _ _ _ _ db λ available.
        Post-require _ _ _ _ db λ tradable. Post-require _ _ _ _ db λ immature. Post-gets _ _ _ db (
          Post-if_existing _ _ _ _ db
            (λ row found. Post-assert_same _ _ _ _ _ _ db λ same. Post-pure _ false db (
              Extends-refl db.forecasts,
              record {
                row = row;
                found = found;
                same_hash = same;
                available = available;
                tradable = tradable;
                immature = immature;
              },
            ))
            (λ new.
              Post-bind _ (λ _. StepRecords db d true) _ _ db
                (Post-unless (λ _. StepRecords db d true) _ _ tt _
                  (
                    Extends-append db.forecasts _,
                    record {
                      row = _;
                      found =
                          find_forecast-append_new model_id d.event_id as_of db.forecasts _ new refl
                            refl refl;
                      same_hash = refl;
                      available = available;
                      tradable = tradable;
                      immature = immature;
                    },
                  ))
                λ _ db' h. Post-pure _ true db' h))

    append_forecast_again :
        (d : ForecastDraft) (db : Database)
        → IsRecorded db d
        → append_forecast self m run_id model_id dataset_id as_of d db ≡ ok (false, db)
    unfolding append_forecast
    append_forecast_again d db h =
        require-bind _ _ _ db h.available
        ∙ require-bind _ _ _ db h.tradable
        ∙ require-bind _ _ _ db h.immature
        ∙ gets-bind _ _ db
        ∙ if_existing-some _ _ _ db h.found
        ∙ assert_same-bind _ _ _ _ _ db h.same_hash
        ∙ pure-eq false db

  same_skips :
      (c : BatchCounts) (db : Database) (a b : ℕ)
      → a ≡ b
      → ◌≡◌ {A = Result (BatchCounts × Database)}
          (ok (record c { idempotent_skips = a }, db))
          (ok (record c { idempotent_skips = b }, db))
  same_skips c db a b e = ap (λ (n : ℕ). ok (record c { idempotent_skips = n }, db)) e

  -- The loop: every draft is recorded when it returns.
  each-IsRecorded :
      (m : Moment) (run_id : String) (ds : List ForecastDraft) (c : BatchCounts) (db : Database)
      → Post
          (λ _ db'. Extends db.forecasts db'.forecasts × All (IsRecorded db') ds)
          (each (append_forecast self m run_id model_id dataset_id as_of) ds c db)
  unfolding each
  each-IsRecorded m run_id [] c db = Post-pure _ c db (Extends-refl db.forecasts, tt)
  each-IsRecorded m run_id (d ∷ ds) c db =
      Post-bind _ (StepRecords db d) _ _ db (append_forecast-IsRecorded m run_id d db)
        λ added db1 (more, recorded).
          Post-weaken _ (λ _ db2. Extends db1.forecasts db2.forecasts × All (IsRecorded db2) ds) _
            (λ c' db2 (most, rest). (
              Extends-trans db.forecasts more most,
              (IsRecorded-Extends db1 db2 most d recorded, rest),
            ))
            (each-IsRecorded m run_id ds (counted added c) db1)

  each_again :
      (m : Moment) (run_id : String) (ds : List ForecastDraft) (c : BatchCounts) (db : Database)
      → All (IsRecorded db) ds
      → each (append_forecast self m run_id model_id dataset_id as_of) ds c db
        ≡ ok (record c { idempotent_skips = c.idempotent_skips + length ds }, db)
  unfolding each
  each_again m run_id [] c db h = pure-eq c db ∙ same_skips c db _ _ (omega arith)
  each_again m run_id (d ∷ ds) c db h =
      bind-eq _ _ db (append_forecast_again m run_id d db h.0)
      ∙ each_again m run_id ds (counted false c) db h.1
      ∙ same_skips c db _ _ (omega arith)
