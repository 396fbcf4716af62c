-- ===== src/Copilot/Verification.antt =====
-- src/edgar_moe/copilot/verification.py for an answer whose fields have their types: the tests of
-- its texts, its citations, its trace, its usage and of how these agree.
pub mod Consistency
pub mod Traces
pub mod Tests
use edgar_moe.Common.{
  ℕ, suc, ◌+◌, ◌*◌, String, Bool, true, false, not, ◌&&◌, ◌||◌, Option, none, some, List, [], ◌∷◌,
  ◌==◌, string_eq, nat_eq, leb, ltb, length, if◌then◌else◌,
}
use edgar_moe.Common.Outcomes.{Outcome, returned, raised, ◌>>=◌, ◌>>◌, ensure}
use edgar_moe.Copilot.Contracts.{
  Citation, ToolTrace, CopilotUsage, EvidenceStatus, grounded, uncited, CopilotAnswer, Library,
}
use edgar_moe.Copilot.Texts.{starts_with, contains, one_of, is_digest, is_tool_name}

-- `CopilotVerificationError`, by the part of the answer that is refused.
pub data VerificationError : Type 0 where
  text_invalid metadata_unsafe usage_invalid citations_invalid citation_duplicate :
      VerificationError
  trace_invalid status_invalid citations_missing trace_undercounts trace_uncited : VerificationError

abbrev pub read_only_tools : List String
read_only_tools =
    "get_frozen_identity" ∷ "get_study_summary" ∷ "get_methodology" ∷ "get_experiment_results"
    ∷ "search_filing_events" ∷ "get_filing_event" ∷ "get_governance_status"
    ∷ "get_forward_diagnostic" ∷ "get_forward_diagnostic_history" ∷ "rejected_tool_request" ∷ []

abbrev pub max_citations : ℕ
max_citations = 64

abbrev pub max_trace_items : ℕ
max_trace_items = 8

abbrev max_fields : ℕ
max_fields = 64

-- `_MAX_USAGE_REQUESTS`
abbrev pub max_usage_requests : ℕ
max_usage_requests = (8 + 1) * (3 + 1)

module _ (lib : Library) where
  abbrev is_filled : String → Bool
  is_filled text = not (lib.strip text == "")

  abbrev has_line_break : String → Bool
  has_line_break text = contains "\r" text || contains "\n" text

  -- `_safe_text`
  unfoldable pub safe_text : String → (max_bytes : ℕ) → Outcome VerificationError (Unit {0})
  safe_text text max_bytes = do
    ensure (is_filled text) text_invalid
    ensure (leb (lib.utf8_length text) max_bytes) text_invalid

  -- `_safe_metadata`
  unfoldable pub safe_metadata : String → Outcome VerificationError (Unit {0})
  safe_metadata text = do
    safe_text text 160
    ensure (not (has_line_break text || (contains "://" text || contains "@" text))) metadata_unsafe

  -- `_safe_source`
  abbrev pub is_safe_source : String → Bool
  is_safe_source source =
      is_filled source
      && ((starts_with "snapshot:" source || starts_with "api:" source)
          && (not (has_line_break source)
              && (not (contains "://" source)
                  && (not (contains "@" source) && leb (lib.utf8_length source) 512))))

  abbrev all_filled : List String → Bool
  all_filled [] = true
  all_filled (f ∷ fs) = is_filled f && all_filled fs

  abbrev same_fields : List String → List String → Bool
  same_fields [] [] = true
  same_fields (a ∷ as_) (b ∷ bs) = (a == b) && same_fields as_ bs
  same_fields _ _ = false

  -- `key in seen`
  abbrev seen_before : Citation → List Citation → Bool
  seen_before c [] = false
  seen_before c (s ∷ seen) =
      (s.source == c.source
        && (s.label == c.label
            && (s.evidence_sha256 == c.evidence_sha256 && same_fields s.fields c.fields)))
      || seen_before c seen

  unfoldable pub verify_citation :
      (seen : List Citation) → Citation → Outcome VerificationError (Unit {0})
  verify_citation seen c = do
    ensure (is_safe_source c.source) citations_invalid
    ensure (is_filled c.label) citations_invalid
    ensure (is_digest c.evidence_sha256) citations_invalid
    ensure (leb (length c.fields) max_fields) citations_invalid
    ensure (all_filled c.fields) citations_invalid
    ensure (not (seen_before c seen)) citation_duplicate

  unfoldable pub verify_each_citation :
      (seen cs : List Citation) → Outcome VerificationError (Unit {0})
  verify_each_citation seen [] = returned tt
  verify_each_citation seen (c ∷ cs) = do verify_citation seen c; verify_each_citation (c ∷ seen) cs

  -- `_verify_citations`
  unfoldable pub verify_citations : List Citation → Outcome VerificationError (Unit {0})
  verify_citations cs = do
    ensure (leb (length cs) max_citations) citations_invalid
    verify_each_citation [] cs

unfoldable pub verify_item : (expected_index : ℕ) → ToolTrace → Outcome VerificationError (Unit {0})
verify_item expected_index item = do
  ensure (item.call_index == expected_index) trace_invalid
  ensure (is_tool_name item.name) trace_invalid
  ensure (one_of item.name read_only_tools) trace_invalid
  ensure (is_digest item.arguments_sha256) trace_invalid
  ensure (is_digest item.result_sha256) trace_invalid
  ensure (leb item.citation_count max_citations) trace_invalid

unfoldable pub verify_items :
    (expected_index : ℕ) → List ToolTrace → Outcome VerificationError (Unit {0})
verify_items expected_index [] = returned tt
verify_items expected_index (item ∷ items) = do
  verify_item expected_index item
  verify_items (suc expected_index) items

-- `_verify_trace`
unfoldable pub verify_trace : List ToolTrace → Outcome VerificationError (Unit {0})
verify_trace trace = do
  ensure (leb (length trace) max_trace_items) trace_invalid
  verify_items 1 trace

abbrev bounded_int : (minimum maximum value : ℕ) → Bool
bounded_int minimum maximum value = leb minimum value && leb value maximum

abbrev optional_int : (maximum : ℕ) → Option ℕ → Bool
optional_int maximum none = true
optional_int maximum (some value) = bounded_int 0 maximum value

-- `_verify_usage`
unfoldable pub verify_usage : Option CopilotUsage → Outcome VerificationError (Unit {0})
verify_usage none = returned tt
verify_usage (some usage) = do
  ensure (bounded_int 1 max_usage_requests usage.request_count) usage_invalid
  ensure (bounded_int 0 2000000 usage.duration_ms) usage_invalid
  ensure (optional_int 1000000000 usage.prompt_tokens) usage_invalid
  ensure (optional_int 1000000000 usage.completion_tokens) usage_invalid
  ensure (optional_int 1000000000 usage.total_tokens) usage_invalid
  ensure (optional_int 2097152 usage.peak_context_bytes) usage_invalid

abbrev is_uncited : EvidenceStatus → Bool
is_uncited grounded = false
is_uncited uncited = true

abbrev pub is_evidence_item : ToolTrace → Bool
is_evidence_item item = not (item.name == "rejected_tool_request")

abbrev pub any_evidence : List ToolTrace → Bool
any_evidence [] = false
any_evidence (item ∷ items) = is_evidence_item item || any_evidence items

abbrev pub any_uncounted : List ToolTrace → Bool
any_uncounted [] = false
any_uncounted (item ∷ items) =
    (is_evidence_item item && item.citation_count == 0) || any_uncounted items

abbrev pub citation_total : List ToolTrace → ℕ
citation_total [] = 0
citation_total (item ∷ items) = item.citation_count + citation_total items

abbrev pub is_none : List Citation → Bool
is_none [] = true
is_none (c ∷ cs) = false

-- How the status, the citations and the trace agree.
unfoldable pub verify_evidence :
    EvidenceStatus → List Citation → List ToolTrace → Outcome VerificationError (Unit {0})
verify_evidence status citations trace = do
  ensure (not (is_uncited status && any_evidence trace)) status_invalid
  ensure (not (not (is_uncited status) && is_none citations)) citations_missing
  ensure (not (is_uncited status && not (is_none citations))) status_invalid
  ensure (not (ltb (citation_total trace) (length citations))) trace_undercounts
  ensure (not (any_uncounted trace)) trace_uncited

-- What `verify_copilot_answer_report` does with an answer; the dates, the identities and the
-- identifier of a case are tested by the first argument.
unfoldable pub verify_answer :
    (CopilotAnswer → Outcome VerificationError (Unit {0}))
    → (max_question_bytes : ℕ) → Library
    → CopilotAnswer
    → Outcome VerificationError (Unit {0})
verify_answer identities max_question_bytes lib answer = do
  safe_text lib answer.question max_question_bytes
  safe_text lib answer.answer 2000000
  safe_metadata lib answer.model
  safe_metadata lib answer.provider
  verify_usage answer.usage
  identities answer
  verify_citations lib answer.citations
  verify_trace answer.trace
  verify_evidence answer.evidence_status answer.citations answer.trace
