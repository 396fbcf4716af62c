-- ===== src/Copilot/Contracts.antt =====
-- The records that the agent, its provider and its tools share (src/edgar_moe/copilot/contracts.py
-- and the provider's records of src/edgar_moe/copilot/agent.py). A JSON value stands as a text that
-- tells it from every other value; a time is in microseconds.
use edgar_moe.Common.{ℕ, String, Bool, Option, List}
use edgar_moe.Common.Outcomes.{Outcome}

abbrev pub Json : Type 0
Json = String

pub record Citation : Type 0 where
  pub source : String
  pub label : String
  pub evidence_sha256 : String
  pub fields : List String

pub record ToolDefinition : Type 0 where
  pub name : String
  pub description : String
  pub parameters : Json

pub record ToolResult : Type 0 where
  pub name : String
  pub payload : Json
  pub citations : List Citation

pub record ToolTrace : Type 0 where
  pub call_index : ℕ
  pub name : String
  pub arguments_sha256 : String
  pub result_sha256 : String
  pub citation_count : ℕ

pub record CopilotAgentIdentity : Type 0 where
  pub policy_id : String
  pub policy_sha256 : String
  pub tool_contract_sha256 : String
  pub max_tool_calls : ℕ
  pub max_duration : Option ℕ
  pub max_context_bytes : Option ℕ
  pub profile_id : Option String

pub record CopilotUsage : Type 0 where
  pub request_count : ℕ
  pub duration_ms : ℕ
  pub prompt_tokens : Option ℕ
  pub completion_tokens : Option ℕ
  pub total_tokens : Option ℕ
  pub peak_context_bytes : Option ℕ

pub data EvidenceStatus : Type 0 where
  grounded uncited : EvidenceStatus

pub record CopilotAnswer : Type 0 where
  pub question : String
  pub answer : String
  pub model : String
  pub provider : String
  pub created_at : String
  pub frozen_identity : Json
  pub citations : List Citation
  pub trace : List ToolTrace
  pub evidence_status : EvidenceStatus
  pub usage : Option CopilotUsage
  pub agent_identity : Option CopilotAgentIdentity

pub record ProviderToolCall : Type 0 where
  pub call_id : String
  pub name : String
  pub arguments : String

pub record ProviderUsage : Type 0 where
  pub prompt_tokens : Option ℕ
  pub completion_tokens : Option ℕ
  pub total_tokens : Option ℕ

pub record ProviderResponse : Type 0 where
  pub content : String
  pub tool_calls : List ProviderToolCall
  pub model : String
  pub usage : Option ProviderUsage
  pub request_count : ℕ

-- One entry of `messages`.
pub data Message : Type 0 where
  system user : (content : String) → Message
  assistant : (content : String) → List ProviderToolCall → Message
  tool : (tool_call_id content : String) → Message

-- What the agent raises; `provider_failed` is whatever the provider itself raised. The last three are
-- of other code: what `json.loads` raises that is no `JSONDecodeError`, what a tool raises that is no
-- `ToolInputError`, and the `UnicodeEncodeError` of a text with a lone surrogate.
pub data CopilotError : Type 0 where
  invalid_question time_budget context_budget request_count_invalid empty_answer : CopilotError
  citations_omitted tool_call_budget name_mismatch rejected_citations : CopilotError
  evidence_uncited evidence_hash_mismatch no_answer provider_failed report_invalid : CopilotError
  arguments_unreadable tool_failed not_encodable : CopilotError

-- What `json.loads` gives: an object, kept as the value `{str(key): value …}`, another value, or an
-- error that is no `JSONDecodeError`, as for an integer of too many digits.
pub data Decoded : Type 0 where
  object : Json → Decoded
  other : Decoded
  unreadable : Decoded

-- The code of other packages: `str.strip`, the UTF-8 length, JSON and SHA-256; `now` is the clock's
-- date in ISO form.
pub record Library : Type 0 where
  pub strip : String → String
  pub utf8_length : String → ℕ
  -- whether `text.encode("utf-8")` returns
  pub encodes : String → Bool
  pub loads : String → Option Decoded
  pub dumps : Json → String
  pub dumps_context : List Message → List ToolDefinition → String
  pub dumps_result : ToolResult → String
  pub sha256_hex : String → String
  -- an integer in an f-string
  pub decimal : ℕ → String
  pub now : String

-- `CopilotProvider`: the answer to a request may depend on how many came before it.
pub record CopilotProvider : Type 0 where
  pub model : String
  pub provider_name : String
  pub complete :
      (request : ℕ) → List Message → List ToolDefinition → Outcome CopilotError ProviderResponse

-- What the agent uses of `ReadOnlyToolset`; `none` is its `ToolInputError`, and a call fails where it
-- raises anything else.
pub record ReadOnlyToolset : Type 0 where
  pub definitions : List ToolDefinition
  pub execute : (name : String) (arguments : Json) → Option ToolResult
  pub fails : (name : String) (arguments : Json) → Bool
  pub frozen_identity : Json

-- The hash of a value whose JSON text can be encoded; `is_hashable` is tested where it is taken.
unfoldable pub content_hash : Library → Json → String
content_hash lib value = lib.sha256_hex (lib.dumps value)

abbrev pub is_hashable : Library → Json → Bool
is_hashable lib value = lib.encodes (lib.dumps value)
