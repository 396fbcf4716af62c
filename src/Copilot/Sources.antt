-- ===== src/Copilot/Sources.antt =====
-- What the tools of src/edgar_moe/copilot/tools.py are given and read: the arguments of a call, the
-- snapshot repository, the forward registry and the diagnostic reports.
use edgar_moe.Common.{ℕ, String, Bool, Option}
use edgar_moe.Copilot.Contracts.{Json}

-- The value of one argument. A Boolean or a float is `another`.
pub data Argument : Type 0 where
  null negative another : Argument
  text : String → Argument
  integer : ℕ → Argument

-- The state of the forward registry: its status and its performance, unless it cannot be reached.
pub data ForwardStatus : Type 0 where
  unconfigured unavailable : ForwardStatus
  available : (status performance : Json) → ForwardStatus

pub data Payload : Type 0 where
  experiments : Json → Payload
  event_missing : (accession_number : String) → Payload
  event_found : Json → Payload
  governance : (published_snapshot : Json) → ForwardStatus → Payload
  not_available : (reason : String) → Payload

-- What the snapshot repository answers.
pub record SnapshotRepository : Type 0 where
  pub frozen_identity : Json
  pub published_identity : Json
  pub summary : Json
  pub methodology : Json
  pub experiment_rows : Json
  pub event : (accession_number : String) → Option Json
  pub event_page : (ticker direction : Option String) (limit : ℕ) → Json

-- A diagnostic report that is configured, and its summary when it can be read.
pub record ToolSources : Type 0 where
  pub repository : SnapshotRepository
  pub forward_status : ForwardStatus
  pub diagnostic : Option (Option Json)
  pub diagnostic_history : Option (Option Json)
  -- whether a call raises anything but `ToolInputError`: an error of the repository or of a reader,
  -- or of the encoding of a payload that is hashed
  pub fails : (name : String) (arguments : Json) → Bool

-- The arguments of an object, JSON, regular expressions and the fixed texts of the definitions.
pub record ToolTexts : Type 0 where
  pub argument : Json → (key : String) → Option Argument
  pub has_key : Json → (key : String) → Bool
  pub payload_json : Payload → Json
  pub is_accession : String → Bool
  pub description : (name : String) → String
  pub parameters : (name : String) → Json
