-- ===== src/Registry/Session.antt =====
-- A database session: `RegistryDatabase.session` of src/edgar_moe/forward/database.py, the errors of
-- src/edgar_moe/forward/registry.py, and the helpers that its methods share. The tables'
-- constraints (src/edgar_moe/forward/models.py) are tested where a row is added.
use edgar_moe.Common.{
  ◌≡◌, ℕ, String, Bool, true, false, Option, none, some, List, [], ◌∷◌, ◌++◌, ◌==◌, get, has,
  string_eq, if◌then◌else◌, ◌++◌,
}
use edgar_moe.Registry.Records.{
  Instant, Json, RunType, RunStatus, run_status_eq, DatasetRegistration, ModelRegistration,
  ForecastDraft, LabelDraft, QualityCheckDraft, AuditEvent, run_type_eq, DatasetRecord,
  RegisteredModel, RunRecord, ForecastRecord, Database,
}
use Prim.Native.Nat.{zero, suc}
use Prim.Native.String

-- What the methods raise. `integrity` is the driver's error for a violated table constraint.
pub data Error : Type 0 where
  conflict : (label record_id : String) → Error
  run_exists : (run_id : String) → Error
  training_dataset_missing : (dataset_id : String) → Error
  reference_missing : (label record_id : String) → Error
  run_missing : (run_id : String) → Error
  run_inactive : (run_id : String) (status : RunStatus) → Error
  run_type_mismatch : (run_id : String) (actual expected : RunType) → Error
  model_and_dataset_required : Error
  not_available : (event_id : String) → Error
  not_tradable : (event_id : String) → Error
  already_mature : (event_id : String) → Error
  forecast_missing : (forecast_id : String) → Error
  not_mature : (forecast_id : String) → Error
  label_after_settlement : (forecast_id : String) → Error
  source_dataset_missing : (dataset_id : String) → Error
  integrity : (table : String) → Error

pub data Result (A : Type 0) : Type 0 where
  ok : A → Result A
  err : Error → Result A

-- A transaction in progress reads and extends its own view of the database.
abbrev pub Session : Type 0 → Type 0
Session A = Database → Result (A × Database)

module _ {A : Type 0} where
  unfoldable pub pure : A → Session A
  pure a db = ok (a, db)

  unfoldable pub raise : Error → Session A
  raise e db = err e

  unfoldable pub gets : (Database → A) → Session A
  gets f db = ok (f db, db)

  unfoldable pub or_raise : Option A → Error → Session A
  or_raise none e db = err e
  or_raise (some a) e db = ok (a, db)

  -- `with self.database.session()`: commit on return, roll back on an exception.
  abbrev pub transaction : Session A → Database → Result A × Database
  transaction m db = elim (m db) [ ok (a, db') ↦ (ok a, db') | err e ↦ (err e, db) ]

infixl 5 ◌>>=◌ ◌>>◌
unfoldable pub ◌>>=◌ : {A B : Type 0} → Session A → (A → Session B) → Session B
◌>>=◌ m f db = elim (m db) [ ok (a, db') ↦ f a db' | err e ↦ err e ]

abbrev pub ◌>>◌ : {A B : Type 0} → Session A → Session B → Session B
m >> k = m >>= λ _. k

unfoldable pub require : Bool → Error → Session (Unit {0})
require true e db = ok (tt, db)
require false e db = err e

-- `if existing is not None: …; return existing`, and what follows.
unfoldable pub if_existing : {R A : Type 0} → Option R → (R → Session A) → Session A → Session A
if_existing none found new = new
if_existing (some r) found new = found r

-- All of the above, for a test to compute with.
unfoldable pub session_code : Unit {0}
unfolding pure raise gets or_raise ◌>>=◌ require if_existing
session_code = tt

-- What is serialised for a hash.
pub data Payload : Type 0 where
  dataset : DatasetRegistration → Payload
  model : ModelRegistration → Payload
  forecast :
      (model_id dataset_id event_id : String) (forecast_as_of : Instant) → ForecastDraft → Payload
  label : LabelDraft → Payload
  check : QualityCheckDraft → Payload
  artifact : (run_id kind uri sha256 : String) (size_bytes : ℕ) → Payload
  audit_identity : (action entity_type entity_id actor : String) (payload : Json) → Payload

-- What an audit event records.
pub data AuditPayload : Type 0 where
  manifest : (manifest_sha256 : String) → AuditPayload
  model_hashes : (selection_hash artifact_sha256 : String) → AuditPayload
  run_start : RunType → (as_of : Instant) → AuditPayload
  run_results : (result_counts : Json) → AuditPayload
  run_error : (error_message : String) → AuditPayload
  batch : (inserted idempotent_skips : ℕ) → AuditPayload
  artifact_ref : (run_id kind sha256 : String) → AuditPayload

-- The code of other packages: `orjson.dumps` of a payload's fields and of an audit payload, SHA-256
-- in hexadecimal, `datetime.isoformat`, and the white space and pattern substitutions of
-- src/edgar_moe/forward/failure_context.py (`str.split` and `re.sub`).
pub record Library : Type 0 where
  pub dumps : Payload → String
  pub audit_dumps : AuditPayload → Json
  pub sha256_hex : String → String
  pub isoformat : Instant → String
  pub collapse_spaces : String → String
  pub redact_urls : String → String
  pub redact_secrets : String → String

-- What the surroundings give to one transaction: a reading of the clock, and the new identifier of
-- its audit event (`_new_id`: a time stamp and a random part).
pub record Moment : Type 0 where
  pub now : Instant
  pub audit_id : String

-- `ForwardRegistry`: the actor, and the library code that the methods call. The database is the
-- state.
pub record ForwardRegistry : Type 0 where
  pub library : Library
  pub actor : String

unfoldable pub payload_hash : Library → Payload → String
payload_hash lib payload = lib.sha256_hex (lib.dumps payload)

-- `"\x1f".join(parts)`
join_parts : List String → String
join_parts [] = ""
join_parts (p ∷ []) = p
join_parts (p ∷ q ∷ ps) = String.◌++◌ p (String.◌++◌ "\u{1f}" (join_parts (q ∷ ps)))

-- `text[:n]`
unfoldable pub take_chars : ℕ → String → String
take_chars zero s = ""
take_chars (suc n) String.[] = ""
take_chars (suc n) (String.◌∷◌ c s) = String.◌∷◌ c (take_chars n s)

unfoldable pub stable_id : Library → String → List String → String
unfolding join_parts take_chars
stable_id lib prefix parts =
    String.◌++◌ prefix (String.◌++◌ "-" (take_chars 32 (lib.sha256_hex (join_parts parts))))

-- `redact_sensitive_text(text, max_length=max_length)`
unfoldable pub redact_sensitive_text : Library → ℕ → String → String
unfolding take_chars
redact_sensitive_text lib max_length text =
    take_chars max_length (lib.redact_secrets (lib.redact_urls (lib.collapse_spaces text)))

unfoldable pub assert_same : String → String → String → String → Session (Unit {0})
assert_same stored_hash hash kind record_id =
    require (stored_hash == hash) (conflict kind record_id)

module _ (db : Database) where
  abbrev pub get_dataset : String → Option DatasetRecord
  get_dataset k = get (λ r. r.dataset_id) k db.datasets

  abbrev pub get_model : String → Option RegisteredModel
  get_model k = get (λ r. r.model_id) k db.models

  abbrev pub get_run : String → Option RunRecord
  get_run k = get (λ r. r.run_id) k db.runs

  abbrev pub get_forecast : String → Option ForecastRecord
  get_forecast k = get (λ r. r.forecast_id) k db.forecasts

unfoldable pub require_running_run : String → Session RunRecord
require_running_run run_id = do
  run ← or_raise (get_run (← gets (λ db. db)) run_id) (run_missing run_id)
  require (run.status == RunStatus.running) (run_inactive run_id run.status)
  pure run

-- The type of the run is tested after its status.
unfoldable pub require_running_type : String → RunType → Session RunRecord
require_running_type run_id expected = do
  run ← require_running_run run_id
  require (run.run_type == expected) (run_type_mismatch run_id run.run_type expected)
  pure run

-- `_require_optional_reference`, for a table that is read by `find`
unfoldable pub require_optional_reference :
    {R : Type 0} → (Database → String → Option R) → Option String → String → Session (Unit {0})
require_optional_reference find none kind = pure tt
require_optional_reference find (some record_id) kind = do
  or_raise (find (← gets (λ db. db)) record_id) (reference_missing kind record_id)
  pure tt

module _ (self : ForwardRegistry) (m : Moment) (action entity_type entity_id : String)
    (event : AuditPayload) where
  unfoldable pub audit_row : AuditEvent
  audit_row =
      let payload = self.library.audit_dumps event in
      record {
        audit_id = m.audit_id;
        action = action;
        entity_type = entity_type;
        entity_id = entity_id;
        actor = self.actor;
        payload = payload;
        payload_hash =
            payload_hash self.library
              (audit_identity action entity_type entity_id self.actor payload);
        recorded_at = m.now;
      }

  -- `_audit`. The identifier is the table's key, so a repeated one is refused.
  unfoldable pub audit : Session (Unit {0})
  audit db =
      if has (λ r. r.audit_id) m.audit_id db.audits
      then err (integrity "forward_audit_events")
      else ok (tt, record db { audits = db.audits ++ audit_row ∷ [] })

  pub audit-eq :
      (db : Database)
      → has (λ r. r.audit_id) m.audit_id db.audits ≡ false
      → audit db ≡ ok (tt, record db { audits = db.audits ++ audit_row ∷ [] })
  unfolding audit
  audit-eq db fresh = rw fresh
