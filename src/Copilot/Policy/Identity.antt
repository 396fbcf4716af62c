-- ===== src/Copilot/Policy/Identity.antt =====
-- An identity that is built is valid as it stands.
use edgar_moe.Common.{ℕ, String, true, ◌&&◌, ◌≡◌, refl, ap, ◌∙◌, Option, some, List, string_eq, leb}
use edgar_moe.Common.Outcomes.{
  returned, ensure-bind, returned-bind, Returns, Returns-from, Returns-known, Returns-ok,
}
use edgar_moe.Copilot.Contracts.{ToolDefinition, CopilotAgentIdentity}
use edgar_moe.Copilot.Texts.{is_digest}
use edgar_moe.Copilot.Policy.{
  Profile, research, quant, architect, operations, profile_id, PolicyLibrary, profile_of,
  normalize_copilot_profile, policy_hash, copilot_policy_sha256, build_agent_identity, within,
  normalize_optional, validate_agent_identity, tool_schemas, copilot_policy_id,
}

profile_of-profile_id : (p : Profile) → profile_of (profile_id p) ≡ returned p
profile_of-profile_id research = refl
profile_of-profile_id quant = refl
profile_of-profile_id architect = refl
profile_of-profile_id operations = refl

module _ (lib : PolicyLibrary)
    (normal : (p : Profile) → lib.strip_lower (profile_id p) ≡ profile_id p)
    (digests : (h : _) → is_digest (lib.content_hash h) ≡ true) where
  normalize-profile_id : (p : Profile) → normalize_copilot_profile lib (profile_id p) ≡ returned p
  unfolding normalize_copilot_profile
  normalize-profile_id p = ap profile_of (normal p) ∙ profile_of-profile_id p

  policy_sha256-profile_id :
      (p : Profile) → copilot_policy_sha256 lib (some (profile_id p)) ≡ returned (policy_hash lib p)
  unfolding copilot_policy_sha256
  policy_sha256-profile_id p = returned-bind _ _ (normalize-profile_id p)

  optional-profile_id :
      (p : Profile) → normalize_optional lib (some (profile_id p)) ≡ returned (some (profile_id p))
  unfolding normalize_optional
  optional-profile_id p = returned-bind _ _ (normalize-profile_id p)

  policy_hash-IsDigest : (p : Profile) → is_digest (policy_hash lib p) ≡ true
  policy_hash-IsDigest research = digests _
  policy_hash-IsDigest quant = digests _
  policy_hash-IsDigest architect = digests _
  policy_hash-IsDigest operations = digests _

  module _ (definitions : List ToolDefinition) (max_tool_calls : ℕ)
      (max_duration max_context_bytes : Option ℕ)
      (calls : (leb 1 max_tool_calls && leb max_tool_calls 8) ≡ true)
      (duration : within lib 1000000 900000000 max_duration ≡ true)
      (context : within lib 16384 2097152 max_context_bytes ≡ true) where
    abbrev identity_of : Profile → CopilotAgentIdentity
    identity_of p = record {
      policy_id = copilot_policy_id;
      policy_sha256 = policy_hash lib p;
      tool_contract_sha256 = lib.content_hash (tool_schemas definitions);
      max_tool_calls = max_tool_calls;
      max_duration = max_duration;
      max_context_bytes = max_context_bytes;
      profile_id = some (profile_id p);
    }

    identity_of-IsValid :
        (p : Profile) → validate_agent_identity lib (identity_of p) ≡ returned (identity_of p)
    unfolding validate_agent_identity
    identity_of-IsValid p =
        ensure-bind _ _ _ refl
        ∙ ensure-bind _ _ _ (policy_hash-IsDigest p)
        ∙ returned-bind _ _ (optional-profile_id p)
        ∙ returned-bind _ _ (policy_sha256-profile_id p)
        ∙ ensure-bind _ _ _ ((string_eq.same_iff (policy_hash lib p) (policy_hash lib p)).1 refl)
        ∙ ensure-bind _ _ _ (digests _)
        ∙ ensure-bind _ _ _ calls
        ∙ ensure-bind _ _ _ duration
        ∙ ensure-bind _ _ _ context

    built :
        (profile : String)
        → Returns
            (λ identity. validate_agent_identity lib identity ≡ returned identity)
            (build_agent_identity lib definitions max_tool_calls max_duration max_context_bytes
              profile)
    unfolding build_agent_identity
    built profile =
        Returns-from _ _ _
          λ p normalized. Returns-known _ _ _ (policy_sha256-profile_id p) (identity_of-IsValid p)

    -- If the names of the profiles are stripped and in lower case, hashes are lowercase SHA-256
    -- digests, and the limits are within their bounds, then the identity that is built for any
    -- spelling of a profile is valid, and validating it gives the identity itself.
    pub build_agent_identity-validate :
        (profile : String) {identity : CopilotAgentIdentity}
        → build_agent_identity lib definitions max_tool_calls max_duration max_context_bytes profile
          ≡ returned identity
        → validate_agent_identity lib identity ≡ returned identity
    build_agent_identity-validate profile e = Returns-ok _ _ (built profile) e
