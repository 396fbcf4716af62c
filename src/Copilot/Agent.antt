-- ===== src/Copilot/Agent.antt =====
-- `ResearchCopilot.ask` and what it calls in src/edgar_moe/copilot/agent.py.
pub mod Rounds
pub mod Grounding
pub mod Answers
use edgar_moe.Common.{
  ℕ, zero, suc, ◌+◌, ◌-◌, ◌/◌, ◌%◌, String, Bool, true, false, not, ◌&&◌, ◌||◌, Option, none, some,
  List, [], ◌∷◌, ◌++◌, map, if◌then◌else◌, ◌==◌, ltb, leb, string_eq, nat_eq, length,
}
use Prim.Native.String
use edgar_moe.Common.Outcomes.{Outcome, returned, raised, ◌>>=◌, ◌>>◌, ensure, fold_each}
use edgar_moe.Copilot.Contracts.{
  Json, Citation, ToolDefinition, ToolResult, ToolTrace, CopilotAgentIdentity, CopilotUsage,
  EvidenceStatus, grounded, uncited, CopilotAnswer, ProviderToolCall, ProviderUsage,
  ProviderResponse, Message, CopilotError, Decoded, object, other, Library, CopilotProvider,
  ReadOnlyToolset, content_hash, is_hashable, unreadable,
}

-- `ResearchCopilot`, and what its surroundings do during one call of `ask`: the clock's n-th
-- reading, and `verify_copilot_answer_report`. The prompt and the identity are those of its profile.
pub record ResearchCopilot : Type 0 where
  pub library : Library
  pub provider : CopilotProvider
  pub toolset : ReadOnlyToolset
  pub max_tool_calls : ℕ
  pub max_duration : ℕ
  pub max_context_bytes : ℕ
  pub system_prompt : String
  pub agent_identity : CopilotAgentIdentity
  pub monotonic : ℕ → ℕ
  pub verifies : CopilotAnswer → Bool

-- The local variables of `ask`.
pub record Progress : Type 0 where
  pub messages : List Message
  pub citations : List Citation
  pub trace : List ToolTrace
  pub tool_calls_seen : ℕ
  pub evidence_tool_call_seen : Bool
  pub peak_context_bytes : ℕ
  pub provider_usages : List (Option ProviderUsage)
  pub provider_request_counts : List ℕ

abbrev pub max_question_bytes : ℕ
max_question_bytes = 2000

abbrev pub max_requests_per_response : ℕ
max_requests_per_response = 4

abbrev pub sum : List ℕ → ℕ
sum [] = 0
sum (n ∷ ns) = n + sum ns

abbrev max : ℕ → ℕ → ℕ
max a b = if ltb a b then b else a

-- `round(seconds * 1000)`, to even on a tie
abbrev round_ms : ℕ → ℕ
round_ms us =
    if ltb 500 (us % 1000) || (us % 1000 == 500 && us / 1000 % 2 == 1)
    then us / 1000 + 1
    else us / 1000

abbrev pub is_empty {ℓ} : {A : Type ℓ} → List A → Bool
is_empty [] = true
is_empty (x ∷ xs) = false

abbrev pub any_name : String → List ToolDefinition → Bool
any_name name [] = false
any_name name (d ∷ ds) = d.name == name || any_name name ds

-- `_unique_citations`
abbrev same_citation : Citation → Citation → Bool
same_citation a b =
    a.source == b.source && a.label == b.label && a.evidence_sha256 == b.evidence_sha256

abbrev pub cited : Citation → List Citation → Bool
cited c [] = false
cited c (s ∷ seen) = same_citation s c || cited c seen

abbrev pub unique_after : List Citation → List Citation → List Citation
unique_after seen [] = []
unique_after seen (c ∷ cs) =
    let fresh = unique_after (c ∷ seen) cs in
    if cited c seen then unique_after seen cs else c ∷ fresh

abbrev pub unique_citations : List Citation → List Citation
unique_citations cs = unique_after [] cs

-- `_sum_usage`, for the counters of every response in order
abbrev sum_counters : List (Option ℕ) → Option ℕ
sum_counters [] = some 0
sum_counters (none ∷ cs) = none
sum_counters (some n ∷ cs) = elim (sum_counters cs) [ none ↦ none | some m ↦ some (n + m) ]

abbrev sum_usage : (ProviderUsage → Option ℕ) → List (Option ProviderUsage) → Option ℕ
sum_usage field [] = none
sum_usage field (u ∷ us) =
    sum_counters (map (λ o. elim o [ none ↦ none | some v ↦ field v ]) (u ∷ us))

-- `_verify_evidence_tool_result`
abbrev pub all_hash : String → List Citation → Bool
all_hash hash [] = true
all_hash hash (c ∷ cs) = (c.evidence_sha256 == hash) && all_hash hash cs

unfoldable pub verify_evidence_tool_result : Library → ToolResult → Outcome CopilotError (Unit {0})
verify_evidence_tool_result lib result = do
  ensure (not (is_empty result.citations)) CopilotError.evidence_uncited
  ensure (is_hashable lib result.payload) CopilotError.not_encodable
  ensure (all_hash (content_hash lib result.payload) result.citations)
      CopilotError.evidence_hash_mismatch

-- `_execute_call`: the result, the arguments, and whether the tool accepted them.
pub record Executed : Type 0 where
  pub result : ToolResult
  pub arguments : Json
  pub accepted : Bool

abbrev pub rejection : Json
rejection = "{\"error\":\"tool request rejected by the read-only contract\"}"

abbrev decoded_arguments : Option Decoded → Json
decoded_arguments (some (object value)) = value
decoded_arguments _ = "{}"

module _ (self : ResearchCopilot) where
  abbrev pub call_arguments : ProviderToolCall → Json
  call_arguments call =
      decoded_arguments (self.library.loads (if call.arguments == "" then "{}" else call.arguments))

  -- Where this fails, `json.loads` raises what `_execute_call` does not catch.
  abbrev pub is_readable : ProviderToolCall → Bool
  is_readable call =
      elim (self.library.loads (if call.arguments == "" then "{}" else call.arguments)) [
        | some unreadable ↦ false
        | _ ↦ true
      ]

  -- For a call whose arguments are readable and whose tool raises nothing but `ToolInputError`;
  -- `handle_call` tests both before.
  unfoldable pub execute_call : ProviderToolCall → Executed
  execute_call call =
      let arguments = call_arguments call in
      elim (self.toolset.execute call.name arguments) [
        | some result ↦ record { result = result; arguments = arguments; accepted = true }
        | none ↦ record {
          result = record { name = call.name; payload = rejection; citations = [] };
          arguments = arguments;
          accepted = false;
        }
      ]

  -- Whether the result of a call counts as evidence.
  abbrev pub is_evidence : ProviderToolCall → Bool
  is_evidence call = (execute_call call).accepted && any_name call.name self.toolset.definitions

  -- The `ToolTrace` of a call.
  abbrev pub traced : Progress → ProviderToolCall → ToolTrace
  traced p call = record {
    call_index = p.tool_calls_seen + 1;
    name = if is_evidence call then call.name else "rejected_tool_request";
    arguments_sha256 = content_hash self.library (execute_call call).arguments;
    result_sha256 = content_hash self.library (execute_call call).result.payload;
    citation_count = length (execute_call call).result.citations;
  }

  -- The body of `for call in response.tool_calls`.
  unfoldable pub handle_call : Progress → ProviderToolCall → Outcome CopilotError Progress
  handle_call p call = do
    let seen = p.tool_calls_seen + 1
    ensure (leb seen self.max_tool_calls) CopilotError.tool_call_budget
    ensure (is_readable call) CopilotError.arguments_unreadable
    ensure (not (self.toolset.fails call.name (call_arguments call))) CopilotError.tool_failed
    let result = (execute_call call).result
    ensure (result.name == call.name) CopilotError.name_mismatch
    if is_evidence call
        then verify_evidence_tool_result self.library result
        else ensure (is_empty result.citations) CopilotError.rejected_citations
    ensure
        (is_hashable self.library (execute_call call).arguments
          && is_hashable self.library result.payload)
        CopilotError.not_encodable
    returned (record p {
      tool_calls_seen = seen;
      evidence_tool_call_seen = is_evidence call || p.evidence_tool_call_seen;
      citations = p.citations ++ result.citations;
      trace = p.trace ++ traced p call ∷ [];
      messages =
          p.messages
          ++ Message.tool
              (if call.call_id == ""
                then String.◌++◌ "call-" (self.library.decimal seen)
                else call.call_id)
              (self.library.dumps_result result)
            ∷ [];
    })

  -- What `ask` returns once the provider calls no tool.
  unfoldable pub final_answer :
      (question : String) (readings : ℕ)
      → Progress
      → ProviderResponse
      → Outcome CopilotError CopilotAnswer
  final_answer question readings p response = do
    let answer = self.library.strip response.content
    ensure (not (answer == "")) CopilotError.empty_answer
    ensure (not (p.evidence_tool_call_seen && is_empty p.citations)) CopilotError.citations_omitted
    let envelope : CopilotAnswer = record {
      question = question;
      answer = answer;
      model = if response.model == "" then self.provider.model else response.model;
      provider = self.provider.provider_name;
      created_at = self.library.now;
      frozen_identity = self.toolset.frozen_identity;
      citations = unique_citations p.citations;
      trace = p.trace;
      evidence_status = if is_empty p.citations then uncited else grounded;
      usage = some (record {
        request_count = sum p.provider_request_counts;
        duration_ms = round_ms (self.monotonic readings - self.monotonic 0);
        prompt_tokens = sum_usage (λ u. u.prompt_tokens) p.provider_usages;
        completion_tokens = sum_usage (λ u. u.completion_tokens) p.provider_usages;
        total_tokens = sum_usage (λ u. u.total_tokens) p.provider_usages;
        peak_context_bytes = some p.peak_context_bytes;
      });
      agent_identity = some self.agent_identity;
    }
    ensure (self.verifies envelope) CopilotError.report_invalid
    returned envelope

  -- The part of a round before the tool calls: the budgets, the request and its record.
  unfoldable pub request :
      (round : ℕ) → Progress → Outcome CopilotError (ProviderResponse × Progress)
  request round p = do
    ensure (ltb (self.monotonic (suc round) - self.monotonic 0) self.max_duration)
        CopilotError.time_budget
    ensure (self.library.encodes (self.library.dumps_context p.messages self.toolset.definitions))
        CopilotError.not_encodable
    let context_bytes =
        self.library.utf8_length (self.library.dumps_context p.messages self.toolset.definitions)
    ensure (leb context_bytes self.max_context_bytes) CopilotError.context_budget
    response ← self.provider.complete round p.messages self.toolset.definitions
    ensure (leb 1 response.request_count && leb response.request_count max_requests_per_response)
        CopilotError.request_count_invalid
    returned (
      response,
      record p {
        peak_context_bytes = max p.peak_context_bytes context_bytes;
        provider_usages = p.provider_usages ++ response.usage ∷ [];
        provider_request_counts = p.provider_request_counts ++ response.request_count ∷ [];
        messages = p.messages ++ Message.assistant response.content response.tool_calls ∷ [];
      },
    )

  -- `for _ in range(rounds)`
  unfoldable pub rounds :
      (left round : ℕ) (question : String) → Progress → Outcome CopilotError CopilotAnswer
  rounds zero round question p = raised CopilotError.no_answer
  rounds (suc left) round question p = do
    (response, p') ← request round p
    elim (is_empty response.tool_calls) [
      | true ↦ final_answer question (suc (suc round)) p' response
      | false ↦ do
        p'' ← fold_each handle_call response.tool_calls p'
        rounds left (suc round) question p''
    ]

  abbrev pub initial : String → Progress
  initial question = record {
    messages = Message.system self.system_prompt ∷ Message.user question ∷ [];
    citations = [];
    trace = [];
    tool_calls_seen = 0;
    evidence_tool_call_seen = false;
    peak_context_bytes = 0;
    provider_usages = [];
    provider_request_counts = [];
  }

  unfoldable pub ask : String → Outcome CopilotError CopilotAnswer
  ask question = do
    let normalized = self.library.strip question
    ensure (normalized == "" || self.library.encodes normalized) CopilotError.not_encodable
    ensure (not (normalized == "") && leb (self.library.utf8_length normalized) max_question_bytes)
        CopilotError.invalid_question
    rounds (self.max_tool_calls + 1) 0 normalized (initial normalized)
