-- ===== src/Copilot/Agent/Answers.antt =====
-- What an answer of `ask` is known to satisfy.
use edgar_moe.Common.{
  ℕ, zero, suc, ◌+◌, ◌*◌, ◌≤◌, String, Bool, true, false, ◌≡◌, refl, inl, inr, ◌↔◌, some, List, [],
  ◌∷◌, if◌then◌else◌, arith, length, All, Bool-cases,
}
use edgar_moe.Common.Outcomes.{
  Returns, Returns-bind, Returns-ensure, Returns-if, Returns-fold_each, Returns-ok, returned,
}
use edgar_moe.Copilot.Contracts.{
  Citation, grounded, uncited, CopilotAnswer, CopilotUsage, ProviderResponse,
}
use edgar_moe.Copilot.Agent.{
  ResearchCopilot, Progress, is_empty, cited, unique_after, unique_citations, final_answer, rounds,
  ask, max_requests_per_response,
}
use edgar_moe.Copilot.Agent.Grounding.{
  Supported, IsGrounded, handle_call-IsGrounded, request-IsGrounded,
}

pub record IsGroundedAnswer (self : ResearchCopilot) (a : CopilotAnswer) : Type 0 where
  pub supported : All (Supported self) a.citations
  pub status : (a.evidence_status ≡ grounded) ↔ (is_empty a.citations ≡ false)
  pub calls : length a.trace ≤ self.max_tool_calls
  pub usage : CopilotUsage
  pub usage_recorded : a.usage ≡ some usage
  pub requests : usage.request_count ≤ max_requests_per_response * (self.max_tool_calls + 1)
  pub peak : ℕ
  pub peak_recorded : usage.peak_context_bytes ≡ some peak
  pub peak_bounded : peak ≤ self.max_context_bytes
  pub verified : self.verifies a ≡ true

unique_after-All :
    (P : Citation → Type 0) (seen cs : List Citation) → All P cs → All P (unique_after seen cs)
unique_after-All P seen [] h = tt
unique_after-All P seen (c ∷ cs) h = elim (Bool-cases (cited c seen)) [
  | inl again ↦ rw again (unique_after-All P seen cs h.1)
  | inr new ↦ rw new (h.0, unique_after-All P (c ∷ seen) cs h.1)
]

is_empty-unique_citations : (cs : List Citation) → is_empty (unique_citations cs) ≡ is_empty cs
is_empty-unique_citations [] = refl
is_empty-unique_citations (c ∷ cs) = refl

status_iff : (b : Bool) → ((if b then uncited else grounded) ≡ grounded) ↔ (b ≡ false)
status_iff b = ground arith

module _ (self : ResearchCopilot) where
  final_answer-IsGrounded :
      (question : String) (readings requests : ℕ) (p : Progress) (response : ProviderResponse)
      → requests ≤ self.max_tool_calls + 1
      → IsGrounded self requests p
      → Returns (IsGroundedAnswer self) (final_answer self question readings p response)
  unfolding final_answer
  final_answer-IsGrounded question readings requests p response few h =
      Returns-ensure _ _ _ _ λ filled. Returns-ensure _ _ _ _ λ kept.
        Returns-ensure _ _ _ _ λ verified. record {
          supported = unique_after-All (Supported self) [] p.citations h.supported;
          status = rw (is_empty-unique_citations p.citations) (status_iff (is_empty p.citations));
          calls = omega (arith, h.counted, h.bounded);
          usage = _;
          usage_recorded = refl;
          requests = omega (arith, h.sent, few);
          peak = p.peak_context_bytes;
          peak_recorded = refl;
          peak_bounded = h.context;
          verified = verified;
        }

  rounds-IsGrounded :
      (left round : ℕ) (question : String) (p : Progress)
      → round + left ≤ self.max_tool_calls + 1
      → IsGrounded self round p
      → Returns (IsGroundedAnswer self) (rounds self left round question p)
  unfolding rounds
  rounds-IsGrounded zero round question p few h = tt
  rounds-IsGrounded (suc left) round question p few h =
      Returns-bind _ (λ (response, p'). IsGrounded self (suc round) p') _ _
        (request-IsGrounded self round p h)
        λ (response, p') h'.
          Returns-if _ (is_empty response.tool_calls) _ _
            (λ _.
              final_answer-IsGrounded question _ (suc round) p' response (omega (arith, few)) h')
            (λ _.
              Returns-bind _ (IsGrounded self (suc round)) _ _
                (Returns-fold_each _ _ (handle_call-IsGrounded self (suc round)) response.tool_calls
                  p' h')
                λ p'' h''. rounds-IsGrounded left (suc round) question p'' (omega (arith, few)) h'')

  ask-Returns : (question : String) → Returns (IsGroundedAnswer self) (ask self question)
  unfolding ask
  ask-Returns question = Returns-ensure _ _ _ _ λ encoded. Returns-ensure _ _ _ _ λ valid.
      rounds-IsGrounded (self.max_tool_calls + 1) 0 _ _ (omega arith) (record {
        counted = refl;
        bounded = omega arith;
        supported = tt;
        context = omega arith;
        sent = omega arith;
      })

  -- Whatever the provider and the tools do, an answer that `ask` returns cites only parts of
  -- results that an allowlisted tool gave, each under the hash of that result's payload; it is
  -- called grounded exactly when it cites something; it made at most `max_tool_calls` tool calls and
  -- four times `max_tool_calls + 1` provider requests; its largest context was within the limit; and
  -- it passed the verification of answers.
  pub ask-IsGrounded :
      (question : String) {answer : CopilotAnswer}
      → ask self question ≡ returned answer
      → IsGroundedAnswer self answer
  ask-IsGrounded question h = Returns-ok _ _ (ask-Returns question) h
