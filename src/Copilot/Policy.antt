-- ===== src/Copilot/Policy.antt =====
-- src/edgar_moe/copilot/policy.py: the profiles, the digest of a policy, and the identity of an
-- agent as it is built and as it is validated.
pub mod Identity
mod Tests
use edgar_moe.Common.{
  ℕ, ◌*◌, String, Bool, true, false, ◌&&◌, Option, none, some, List, ◌==◌, string_eq, leb,
  if◌then◌else◌,
}
use edgar_moe.Common.Outcomes.{Outcome, returned, raised, ◌>>=◌, ◌>>◌, ensure}
use edgar_moe.Copilot.Contracts.{ToolDefinition, CopilotAgentIdentity}
use edgar_moe.Copilot.Texts.{is_digest}

pub data Profile : Type 0 where
  research quant architect operations : Profile

abbrev pub profile_id : Profile → String
profile_id research = "research"
profile_id quant = "quant"
profile_id architect = "architect"
profile_id operations = "operations"

-- What is hashed: the prompt of a policy, or the schemas of the tools.
pub data Hashed : Type 0 where
  base_policy : Hashed
  profile_policy : Profile → Hashed
  tool_schemas : List ToolDefinition → Hashed

-- `content_hash`, and `value.strip().lower()`.
pub record PolicyLibrary : Type 0 where
  pub content_hash : Hashed → String
  pub strip_lower : String → String

pub data PolicyError : Type 0 where
  profile_unknown policy_id_invalid policy_hash_invalid policy_hash_mismatch : PolicyError
  tool_contract_invalid tool_calls_invalid duration_invalid context_invalid : PolicyError

abbrev pub copilot_policy_id : String
copilot_policy_id = "research-copilot-v2"

-- `profile in COPILOT_PROFILES`
abbrev pub profile_of : String → Outcome PolicyError Profile
profile_of text =
    if text == "research"
    then returned research
    else if text == "quant"
    then returned quant
    else if text == "architect"
    then returned architect
    else if text == "operations"
    then returned operations
    else raised profile_unknown

module _ (lib : PolicyLibrary) where
  unfoldable pub normalize_copilot_profile : String → Outcome PolicyError Profile
  normalize_copilot_profile value = profile_of (lib.strip_lower value)

  abbrev pub policy_hash : Profile → String
  policy_hash research = lib.content_hash base_policy
  policy_hash quant = lib.content_hash (profile_policy quant)
  policy_hash architect = lib.content_hash (profile_policy architect)
  policy_hash operations = lib.content_hash (profile_policy operations)

  unfoldable pub copilot_policy_sha256 : Option String → Outcome PolicyError String
  copilot_policy_sha256 none = returned (lib.content_hash base_policy)
  copilot_policy_sha256 (some profile) = do
    normalized ← normalize_copilot_profile profile
    returned (policy_hash normalized)

  -- A duration is in microseconds.
  unfoldable pub build_agent_identity :
      List ToolDefinition
      → (max_tool_calls : ℕ) (max_duration max_context_bytes : Option ℕ) (profile : String)
      → Outcome PolicyError CopilotAgentIdentity
  build_agent_identity definitions max_tool_calls max_duration max_context_bytes profile = do
    normalized ← normalize_copilot_profile profile
    policy_sha256 ← copilot_policy_sha256 (some (profile_id normalized))
    returned (record {
      policy_id = copilot_policy_id;
      policy_sha256 = policy_sha256;
      tool_contract_sha256 = lib.content_hash (tool_schemas definitions);
      max_tool_calls = max_tool_calls;
      max_duration = max_duration;
      max_context_bytes = max_context_bytes;
      profile_id = some (profile_id normalized);
    })

  abbrev pub within : (low high : ℕ) → Option ℕ → Bool
  within low high none = true
  within low high (some n) = leb low n && leb n high

  -- The profile of a report, or none in a report from before there were profiles.
  unfoldable pub normalize_optional : Option String → Outcome PolicyError (Option String)
  normalize_optional none = returned none
  normalize_optional (some profile) = do
    normalized ← normalize_copilot_profile profile
    returned (some (profile_id normalized))

  -- The identity of a report, whose fields have their types.
  unfoldable pub validate_agent_identity :
      CopilotAgentIdentity → Outcome PolicyError CopilotAgentIdentity
  validate_agent_identity value = do
    ensure (value.policy_id == copilot_policy_id) policy_id_invalid
    ensure (is_digest value.policy_sha256) policy_hash_invalid
    profile ← normalize_optional value.profile_id
    expected ← copilot_policy_sha256 profile
    ensure (value.policy_sha256 == expected) policy_hash_mismatch
    ensure (is_digest value.tool_contract_sha256) tool_contract_invalid
    ensure (leb 1 value.max_tool_calls && leb value.max_tool_calls 8) tool_calls_invalid
    ensure (within 1000000 900000000 value.max_duration) duration_invalid
    ensure (within 16384 2097152 value.max_context_bytes) context_invalid
    returned (record value { profile_id = profile })
