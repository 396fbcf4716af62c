-- ===== src/Copilot/Verification/Traces.antt =====
-- The trace and the citations that `ask` puts together pass the verification of its answer.
use edgar_moe.Common.{
  leb_of_le, and_right, ℕ, zero, suc, ◌+◌, ◌≤◌, String, Bool, true, false, not, ◌&&◌, ◌≡◌, refl,
  ◌∙◌, inl, inr, some, List, [], ◌∷◌, ◌==◌, if◌then◌else◌, string_eq, nat_eq, length, length-append,
  All, Option-cases, arith,
}
use edgar_moe.Common.Outcomes.{
  returned, ensure, Returns, Returns-bind, Returns-ensure, Returns-ensure_last, Returns-if,
  Returns-from, Returns-fold_each, Returns-ok, ensure-bind,
}
use edgar_moe.Copilot.Contracts.{
  Json, Citation, ToolDefinition, ToolResult, CopilotAnswer, ProviderToolCall, ProviderResponse,
  CopilotError, content_hash,
}
use edgar_moe.Copilot.Agent.{
  ResearchCopilot, Progress, is_empty, verify_evidence_tool_result, execute_call, call_arguments,
  is_evidence, traced, handle_call, final_answer, request, rounds, ask,
}
use edgar_moe.Copilot.Texts.{one_of, is_digest}
use edgar_moe.Copilot.Verification.{
  read_only_tools, verify_item, verify_items, verify_trace, any_uncounted, citation_total,
  verify_evidence, is_evidence_item,
}
use edgar_moe.Copilot.Verification.Consistency.{
  any_name-All, verify_items-snoc, verify_item-holds, any_uncounted-snoc, citation_total-snoc,
  verify_evidence-holds,
}

-- The trace holds what the verification asks of it, and its counts are those of the citations.
record IsTraced (self : ResearchCopilot) (p : Progress) : Type 0 where
  counted : length p.trace ≡ p.tool_calls_seen
  within : p.tool_calls_seen ≤ self.max_tool_calls
  items : verify_items 1 p.trace ≡ returned tt
  total : citation_total p.trace ≡ length p.citations
  cited : any_uncounted p.trace ≡ false

-- What the verification asks of a trace and of its citations.
pub record IsConsistent (answer : CopilotAnswer) : Type 0 where
  pub trace : verify_trace answer.trace ≡ returned tt
  pub evidence : verify_evidence answer.evidence_status answer.citations answer.trace ≡ returned tt

-- How many citations a call may bring: evidence brings some, and a refused call none.
IsCounted : Bool → List Citation → Type 0
IsCounted true cs = is_empty cs ≡ false
IsCounted false cs = is_empty cs ≡ true

and_no : (a b : Bool) → b ≡ false → (a && b) ≡ false
and_no a b h = ground arith

no_and : (a b : Bool) → a ≡ false → (a && b) ≡ false
no_and a b h = ground arith

not_zero : (n : ℕ) → (suc n == 0) ≡ false
not_zero n = ground arith

counted_some : (cs : List Citation) → is_empty cs ≡ false → (length cs == 0) ≡ false
counted_some [] h = cc h
counted_some (c ∷ cs) h = not_zero (length cs)

rejected_item :
    (name : String) (b : Bool)
    → b ≡ false
    → not ((if b then name else "rejected_tool_request") == "rejected_tool_request") ≡ false
rejected_item name true h = cc h
rejected_item name false h = refl

module _ (self : ResearchCopilot) (few : self.max_tool_calls ≤ 8)
    (listed : All
      (λ (d : ToolDefinition). one_of d.name read_only_tools ≡ true)
      self.toolset.definitions)
    (digests : (value : Json) → is_digest (content_hash self.library value) ≡ true)
    (bounded : (name : String) (arguments : Json) (result : ToolResult)
      → self.toolset.execute name arguments ≡ some result
      → length result.citations ≤ 64) where
  checked-IsCounted :
      (call : ProviderToolCall) (b : Bool)
      → Returns
          (λ _. IsCounted b (execute_call self call).result.citations)
          (if b
            then verify_evidence_tool_result self.library (execute_call self call).result
            else ensure
                (is_empty (execute_call self call).result.citations)
                CopilotError.rejected_citations)
  unfolding verify_evidence_tool_result IsCounted
  checked-IsCounted call true = Returns-ensure _ _ _ _ λ filled.
      Returns-ensure _ _ _ _ λ hashable. Returns-ensure_last _ _ _ λ hashes. is_not _ filled
    where
      is_not : (b : Bool) → not b ≡ true → b ≡ false
      is_not true h = cc h
      is_not false h = refl
  checked-IsCounted call false = Returns-ensure_last _ _ _ λ none_given. none_given

  -- A result that was not accepted has no citations.
  few_citations : (call : ProviderToolCall) → length (execute_call self call).result.citations ≤ 64
  unfolding execute_call
  few_citations call =
      elim (Option-cases (self.toolset.execute call.name (call_arguments self call))) [
        | inl refused ↦ rw (refused, execute_call) (omega arith)
        | inr (r, e) ↦ rw (e, execute_call) (bounded call.name (call_arguments self call) r e)
      ]

  -- A refused request is named neutrally.
  listed_name :
      (call : ProviderToolCall) (b : Bool)
      → is_evidence self call ≡ b
      → one_of (if b then call.name else "rejected_tool_request") read_only_tools ≡ true
  listed_name call true e =
      any_name-All (λ n. one_of n read_only_tools ≡ true) call.name self.toolset.definitions listed
        (and_right _ _ e)
  listed_name call false e = refl

  traced_item :
      (p : Progress) (call : ProviderToolCall)
      → length p.trace ≡ p.tool_calls_seen
      → verify_item (1 + length p.trace) (traced self p call) ≡ returned tt
  traced_item p call counted =
      verify_item-holds _ _ (omega (arith, counted)) (listed_name call _ refl) (digests _)
        (digests _) (few_citations call)

  traced_counted :
      (p : Progress) (call : ProviderToolCall) (b : Bool)
      → is_evidence self call ≡ b
      → IsCounted b (execute_call self call).result.citations
      → (is_evidence_item (traced self p call) && (traced self p call).citation_count == 0) ≡ false
  unfolding IsCounted
  traced_counted p call true e h = and_no _ _ (counted_some _ h)
  traced_counted p call false e h = no_and _ _ (rejected_item call.name _ e)

  handle_call-IsTraced :
      (p : Progress) (call : ProviderToolCall)
      → IsTraced self p
      → Returns (IsTraced self) (handle_call self p call)
  unfolding handle_call
  handle_call-IsTraced p call h = Returns-ensure _ _ _ _ λ within.
      Returns-ensure _ _ _ _ λ readable. Returns-ensure _ _ _ _ λ run.
        Returns-ensure _ _ _ _ λ named.
          Returns-bind _
            (λ _. IsCounted (is_evidence self call) (execute_call self call).result.citations) _ _
            (checked-IsCounted call (is_evidence self call))
            λ _ brings. Returns-ensure _ _ _ _ λ encoded. record {
              counted = omega (arith, length-append p.trace (traced self p call ∷ []), h.counted);
              within = ground arith;
              items = verify_items-snoc 1 p.trace _ h.items (traced_item p call h.counted);
              total = omega (
                arith,
                citation_total-snoc p.trace (traced self p call),
                length-append p.citations (execute_call self call).result.citations,
                h.total,
              );
              cited = any_uncounted-snoc p.trace _ h.cited (traced_counted p call _ refl brings);
            }

  request-IsTraced :
      (round : ℕ) (p : Progress)
      → IsTraced self p
      → Returns (λ (response, p'). IsTraced self p') (request self round p)
  unfolding request
  request-IsTraced round p h = Returns-ensure _ _ _ _ λ on_time. Returns-ensure _ _ _ _ λ encoded.
      Returns-ensure _ _ _ _ λ fits. Returns-from _ _ _ λ response answered.
        Returns-ensure _ _ _ _ λ counted. record {
          counted = h.counted;
          within = h.within;
          items = h.items;
          total = h.total;
          cited = h.cited;
        }

  final_answer-IsConsistent :
      (question : String) (readings : ℕ) (p : Progress) (response : ProviderResponse)
      → IsTraced self p
      → Returns IsConsistent (final_answer self question readings p response)
  unfolding final_answer verify_trace
  final_answer-IsConsistent question readings p response h = Returns-ensure _ _ _ _ λ filled.
      Returns-ensure _ _ _ _ λ kept. Returns-ensure _ _ _ _ λ verified. record {
        trace =
            ensure-bind _ _ _
              (leb_of_le (length p.trace) 8 (omega (arith, h.counted, h.within, few)))
            ∙ h.items;
        evidence = verify_evidence-holds p.citations p.trace h.total h.cited;
      }

  rounds-IsConsistent :
      (left round : ℕ) (question : String) (p : Progress)
      → IsTraced self p
      → Returns IsConsistent (rounds self left round question p)
  unfolding rounds
  rounds-IsConsistent zero round question p h = tt
  rounds-IsConsistent (suc left) round question p h =
      Returns-bind _ (λ (response, p'). IsTraced self p') _ _ (request-IsTraced round p h)
        λ (response, p') h'.
          Returns-if _ (is_empty response.tool_calls) _ _
            (λ _. final_answer-IsConsistent question _ p' response h')
            (λ _.
              Returns-bind _ (IsTraced self) _ _
                (Returns-fold_each _ _ handle_call-IsTraced response.tool_calls p' h')
                λ p'' h''. rounds-IsConsistent left (suc round) question p'' h'')

  ask-Returns : (question : String) → Returns IsConsistent (ask self question)
  unfolding ask verify_items
  ask-Returns question = Returns-ensure _ _ _ _ λ encoded. Returns-ensure _ _ _ _ λ valid.
      rounds-IsConsistent (self.max_tool_calls + 1) 0 _ _
        (record { counted = refl; within = omega arith; items = refl; total = refl; cited = refl })

  -- If the tools are allowlisted ones, each result has at most 64 citations, hashes are lowercase
  -- SHA-256 digests and at most eight tool calls are allowed, then the trace of every answer that
  -- `ask` returns, and how it agrees with the citations and the evidence status, pass the answer's
  -- verification, whatever `ask` itself is given as the test of its answers.
  pub ask-IsConsistent :
      (question : String) {answer : CopilotAnswer}
      → ask self question ≡ returned answer
      → IsConsistent answer
  ask-IsConsistent question h = Returns-ok _ _ (ask-Returns question) h
