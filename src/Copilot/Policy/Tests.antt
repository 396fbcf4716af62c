-- ===== src/Copilot/Policy/Tests.antt =====
-- A quant reviewer's identity.
use edgar_moe.Common.{String, true, ◌≡◌, refl, none, some, [], ◌==◌, string_eq, if◌then◌else◌}
use edgar_moe.Common.Outcomes.{returned, raised, ◌>>=◌, ensure}
use edgar_moe.Copilot.Contracts.{CopilotAgentIdentity}
use edgar_moe.Copilot.Texts.{is_digest}
use edgar_moe.Copilot.Policy.{
  Profile, research, quant, architect, operations, profile_id, Hashed, PolicyLibrary,
  policy_hash_mismatch, normalize_copilot_profile, copilot_policy_sha256, build_agent_identity,
  normalize_optional, validate_agent_identity, profile_policy,
}
use edgar_moe.Copilot.Policy.Identity.{build_agent_identity-validate}

abbrev digest : String
digest = "0123456789abcdef0123456789abcdef0123456789abcdef0123456789abcdef"

abbrev quant_digest : String
quant_digest = "fedcba9876543210fedcba9876543210fedcba9876543210fedcba9876543210"

abbrev hash : Hashed → String
hash (profile_policy quant) = quant_digest
hash _ = digest

abbrev library : PolicyLibrary
library = record { content_hash = hash; strip_lower = λ s. if s == " Quant" then "quant" else s }

normal : (p : Profile) → library.strip_lower (profile_id p) ≡ profile_id p
normal research = refl
normal quant = refl
normal architect = refl
normal operations = refl

hash-IsDigest : (h : Hashed) → is_digest (hash h) ≡ true
unfolding is_digest
hash-IsDigest (profile_policy quant) = refl
hash-IsDigest h = refl

abbrev identity : CopilotAgentIdentity
identity = record {
  policy_id = "research-copilot-v2";
  policy_sha256 = quant_digest;
  tool_contract_sha256 = digest;
  max_tool_calls = 4;
  max_duration = some 300000000;
  max_context_bytes = none;
  profile_id = some "quant";
}

built : build_agent_identity library [] 4 (some 300000000) none " Quant" ≡ returned identity
unfolding build_agent_identity normalize_copilot_profile copilot_policy_sha256 ◌>>=◌
built = refl

build_agent_identity-validate_example : validate_agent_identity library identity ≡ returned identity
build_agent_identity-validate_example =
    build_agent_identity-validate library normal hash-IsDigest [] 4 (some 300000000) none refl refl
      refl " Quant" built

-- The digest of another profile is refused.
mismatch :
    validate_agent_identity library (record identity { profile_id = some "research" })
    ≡ raised policy_hash_mismatch
unfolding validate_agent_identity normalize_optional normalize_copilot_profile copilot_policy_sha256
    is_digest ◌>>=◌ ensure
mismatch = refl
