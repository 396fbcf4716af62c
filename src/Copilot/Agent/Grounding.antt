-- ===== src/Copilot/Agent/Grounding.antt =====
-- What the loop of `ask` keeps: every citation is backed by an accepted tool result, and the
-- budgets hold.
use edgar_moe.Common.{
  and_left, and_right, ℕ, suc, ◌+◌, ◌*◌, ◌≤◌, String, Bool, true, false, ◌&&◌, ◌≡◌, refl, inl, inr,
  some, List, [], ◌∷◌, ◌++◌, if◌then◌else◌, ◌==◌, ltb, leb, arith, string_eq, length, length-append,
  All, All-append, All-map, Member, All-Member, Bool-cases, Option-cases,
}
use edgar_moe.Common.Outcomes.{
  ensure, Returns, Returns-bind, Returns-ensure, Returns-ensure_last, Returns-from,
}
use edgar_moe.Copilot.Contracts.{
  Json, Citation, ToolResult, ProviderToolCall, CopilotError, content_hash,
}
use edgar_moe.Copilot.Agent.{
  ResearchCopilot, Progress, sum, is_empty, any_name, all_hash, verify_evidence_tool_result,
  execute_call, handle_call, request, call_arguments, is_evidence, traced,
  max_requests_per_response,
}

-- The citation is part of a result that an allowlisted tool gave, and carries the hash of exactly
-- that result's payload.
pub record Supported (self : ResearchCopilot) (c : Citation) : Type 0 where
  pub name : String
  pub arguments : Json
  pub result : ToolResult
  pub allowed : any_name name self.toolset.definitions ≡ true
  pub executed : self.toolset.execute name arguments ≡ some result
  pub among : Member c result.citations
  pub hashed : c.evidence_sha256 ≡ content_hash self.library result.payload

pub record IsGrounded (self : ResearchCopilot) (requests : ℕ) (p : Progress) : Type 0 where
  pub counted : length p.trace ≡ p.tool_calls_seen
  pub bounded : p.tool_calls_seen ≤ self.max_tool_calls
  pub supported : All (Supported self) p.citations
  pub context : p.peak_context_bytes ≤ self.max_context_bytes
  pub sent : sum p.provider_request_counts ≤ max_requests_per_response * requests

all_hash-All :
    (hash : String) (cs : List Citation)
    → all_hash hash cs ≡ true
    → All (λ c. c.evidence_sha256 ≡ hash) cs
all_hash-All hash [] h = tt
all_hash-All hash (c ∷ cs) h = elim (Bool-cases (c.evidence_sha256 == hash)) [
  | inl same ↦
      ((string_eq.same_iff c.evidence_sha256 hash).0 same, all_hash-All hash cs (rw same at h))
  | inr other ↦ cc (rw other at h)
]

All-both :
    {A : Type 0} (P Q : A → Type 0) (xs : List A) → All P xs → All Q xs → All (λ x. P x × Q x) xs
All-both P Q [] h k = tt
All-both P Q (x ∷ xs) h k = ((h.0, k.0), All-both P Q xs h.1 k.1)

All-empty : {A : Type 0} (P : A → Type 0) (xs : List A) → is_empty xs ≡ true → All P xs
All-empty P [] h = tt
All-empty P (x ∷ xs) h = cc h

module _ (self : ResearchCopilot) where
  verify_evidence-Supported :
      (name : String) (arguments : Json) (result : ToolResult)
      → any_name name self.toolset.definitions ≡ true
      → self.toolset.execute name arguments ≡ some result
      → Returns
          (λ _. All (Supported self) result.citations)
          (verify_evidence_tool_result self.library result)
  unfolding verify_evidence_tool_result
  verify_evidence-Supported name arguments result allowed executed =
      Returns-ensure _ _ _ _ λ filled. Returns-ensure _ _ _ _ λ hashable.
        Returns-ensure_last _ _ _ λ hashes.
          All-map _ _
            (λ c (among, hashed). record {
              name = name;
              arguments = arguments;
              result = result;
              allowed = allowed;
              executed = executed;
              among = among;
              hashed = hashed;
            })
            result.citations
            (All-both _ _ result.citations (All-Member result.citations) (all_hash-All _ _ hashes))

  -- The arguments with which a call that was accepted was executed.
  execute_call-accepted :
      (call : ProviderToolCall)
      → (execute_call self call).accepted ≡ true
      → self.toolset.execute call.name (execute_call self call).arguments
        ≡ some (execute_call self call).result
  unfolding execute_call
  execute_call-accepted call h =
      elim (Option-cases (self.toolset.execute call.name (call_arguments self call))) [
        | inl e ↦ cc (rw (e, execute_call) at h)
        | inr (r, e) ↦ rw (e, execute_call) e
      ]

  -- Whatever the test of the call says, the citations that are kept are supported.
  checked_citations :
      (call : ProviderToolCall) (b : Bool)
      → is_evidence self call ≡ b
      → Returns
          (λ _. All (Supported self) (execute_call self call).result.citations)
          (if b
            then verify_evidence_tool_result self.library (execute_call self call).result
            else ensure
                (is_empty (execute_call self call).result.citations)
                CopilotError.rejected_citations)
  checked_citations call true e =
      verify_evidence-Supported call.name (execute_call self call).arguments _ (and_right _ _ e)
        (execute_call-accepted call (and_left _ _ e))
  checked_citations call false e = Returns-ensure_last _ _ _ λ none_given. All-empty _ _ none_given

  pub handle_call-IsGrounded :
      (requests : ℕ) (p : Progress) (call : ProviderToolCall)
      → IsGrounded self requests p
      → Returns (IsGrounded self requests) (handle_call self p call)
  unfolding handle_call
  handle_call-IsGrounded requests p call h = Returns-ensure _ _ _ _ λ within.
      Returns-ensure _ _ _ _ λ readable. Returns-ensure _ _ _ _ λ run.
        Returns-ensure _ _ _ _ λ named.
          Returns-bind _ (λ _. All (Supported self) (execute_call self call).result.citations) _ _
            (checked_citations call (is_evidence self call) refl)
            λ _ supported. Returns-ensure _ _ _ _ λ encoded. record {
              counted = omega (arith, length-append p.trace (traced self p call ∷ []), h.counted);
              bounded = ground arith;
              supported = All-append _ p.citations _ h.supported supported;
              context = h.context;
              sent = h.sent;
            }

  sum-snoc : (ns : List ℕ) (n : ℕ) → sum (ns ++ n ∷ []) ≡ sum ns + n
  sum-snoc [] n = omega arith
  sum-snoc (k ∷ ns) n = omega (arith, sum-snoc ns n)

  leb_pair : (n k : ℕ) → leb 1 n && leb n k ≡ true → n ≤ k
  leb_pair n k h = ground arith

  max_fits : (a b k : ℕ) → a ≤ k → leb b k ≡ true → (if ltb a b then b else a) ≤ k
  max_fits a b k h fits = ground arith

  pub request-IsGrounded :
      (round : ℕ) (p : Progress)
      → IsGrounded self round p
      → Returns (λ (response, p'). IsGrounded self (suc round) p') (request self round p)
  unfolding request
  request-IsGrounded round p h = Returns-ensure _ _ _ _ λ on_time. Returns-ensure _ _ _ _ λ encoded.
      Returns-ensure _ _ _ _ λ fits. Returns-from _ _ _ λ response answered.
        Returns-ensure _ _ _ _ λ counted. record {
          counted = h.counted;
          bounded = h.bounded;
          supported = h.supported;
          context = max_fits p.peak_context_bytes _ _ h.context fits;
          sent = omega (
            arith,
            sum-snoc p.provider_request_counts response.request_count,
            h.sent,
            leb_pair response.request_count max_requests_per_response counted,
          );
        }
