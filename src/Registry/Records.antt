-- ===== src/Registry/Records.antt =====
-- The records that callers hand to the registry (src/edgar_moe/forward/domain.py) and the rows of
-- its eight tables (src/edgar_moe/forward/models.py). A time is its UTC instant in microseconds.
-- A float, a date and a JSON value are only stored and compared by hash here: each stands as its
-- text.
use edgar_moe.Common.{ℕ, String, ◌≡◌, ◌↔◌, Bool, true, false, Option, List, arith, Eq}

abbrev pub Instant : Type 0
Instant = ℕ

abbrev pub Json : Type 0
Json = String

abbrev pub Number : Type 0
Number = String

pub data RunType : Type 0 where
  forecast settlement backfill verification : RunType

pub data RunStatus : Type 0 where
  running succeeded failed : RunStatus

pub data CheckStatus : Type 0 where
  passed warning failed : CheckStatus

-- `==` of two run types
abbrev pub same_type : RunType → RunType → Bool
same_type forecast forecast = true
same_type settlement settlement = true
same_type backfill backfill = true
same_type verification verification = true
same_type _ _ = false

-- `==` of two run statuses
abbrev pub same_status : RunStatus → RunStatus → Bool
same_status running running = true
same_status succeeded succeeded = true
same_status RunStatus.failed RunStatus.failed = true
same_status _ _ = false

pub same_type_iff : (a b : RunType) → (same_type a b ≡ true) ↔ (a ≡ b)
same_type_iff a b = ground arith

pub same_status_iff : (a b : RunStatus) → (same_status a b ≡ true) ↔ (a ≡ b)
same_status_iff a b = ground arith

instance abbrev pub run_type_eq : Eq RunType
run_type_eq = record { same = same_type; same_iff = same_type_iff }

instance abbrev pub run_status_eq : Eq RunStatus
run_status_eq = record { same = same_status; same_iff = same_status_iff }

pub record DatasetRegistration : Type 0 where
  pub dataset_id : String
  pub as_of : String
  pub source_manifest_hash : String
  pub manifest_sha256 : String
  pub row_counts : Json
  pub provenance : Json

pub record ModelRegistration : Type 0 where
  pub model_id : String
  pub name : String
  pub version : String
  pub training_dataset_id : String
  pub selection_hash : String
  pub artifact_uri : String
  pub artifact_sha256 : String
  pub config_hash : String
  pub champion_family : String
  pub parameters : Json
  pub frozen_at : Instant

pub record RunRegistration : Type 0 where
  pub run_type : RunType
  pub as_of : Instant
  pub code_revision : String
  pub config_hash : String
  pub dataset_id : Option String
  pub model_id : Option String
  pub parent_run_id : Option String
  pub details : Json

pub record ForecastDraft : Type 0 where
  pub event_id : String
  pub accession_number : String
  pub security_id : String
  pub ticker : String
  pub company_name : String
  pub form : String
  pub accepted_at : Instant
  pub entry_at : Instant
  pub entry_date : String
  pub horizon_at : Instant
  pub industry_code : String
  pub score : Number
  pub rank : Number
  pub fundamental_score : Option Number
  pub expert_weights : Json
  pub expert_predictions : Json

pub record LabelDraft : Type 0 where
  pub forecast_id : String
  pub source_dataset_id : String
  pub realized_abnormal_return : Number
  pub matured_at : Instant

pub record QualityCheckDraft : Type 0 where
  pub name : String
  pub status : CheckStatus
  pub observed_value : Option Number
  pub threshold : Option Number
  pub details : Json

-- `ArtifactReference` of src/edgar_moe/forward/artifacts.py
pub record ArtifactReference : Type 0 where
  pub uri : String
  pub sha256 : String
  pub size_bytes : ℕ
  pub key : String

-- The rows. Each keeps the fields of what it was made from: `**registration.model_dump()`.
pub record DatasetRecord : Type 0 where
  pub registration : DatasetRegistration
  pub open registration use *
  pub payload_hash : String
  pub created_at : Instant

pub record RegisteredModel : Type 0 where
  pub registration : ModelRegistration
  pub open registration use *
  pub payload_hash : String
  pub created_at : Instant

pub record RunRecord : Type 0 where
  pub run_id : String
  pub status : RunStatus
  pub registration : RunRegistration
  pub open registration use *
  pub result_counts : Json
  pub error_message : Option String
  pub started_at : Instant
  pub finished_at : Option Instant

pub record ForecastRecord : Type 0 where
  pub forecast_id : String
  pub run_id : String
  pub model_id : String
  pub dataset_id : String
  pub forecast_as_of : Instant
  pub draft : ForecastDraft
  pub open draft use *
  pub payload_hash : String
  pub created_at : Instant

pub record LabelRecord : Type 0 where
  pub label_id : String
  pub settlement_run_id : String
  pub draft : LabelDraft
  pub open draft use *
  pub recorded_at : Instant
  pub payload_hash : String

pub record ArtifactRecord : Type 0 where
  pub artifact_id : String
  pub run_id : String
  pub kind : String
  pub uri : String
  pub sha256 : String
  pub size_bytes : ℕ
  pub payload_hash : String
  pub created_at : Instant

pub record DataQualityRecord : Type 0 where
  pub check_id : String
  pub run_id : String
  pub draft : QualityCheckDraft
  pub open draft use *
  pub payload_hash : String
  pub created_at : Instant

pub record AuditEvent : Type 0 where
  pub audit_id : String
  pub action : String
  pub entity_type : String
  pub entity_id : String
  pub actor : String
  pub payload : Json
  pub payload_hash : String
  pub recorded_at : Instant

-- The database: the rows of each table in the order of their insertion.
pub record Database : Type 0 where
  pub datasets : List DatasetRecord
  pub models : List RegisteredModel
  pub runs : List RunRecord
  pub forecasts : List ForecastRecord
  pub labels : List LabelRecord
  pub artifacts : List ArtifactRecord
  pub checks : List DataQualityRecord
  pub audits : List AuditEvent
