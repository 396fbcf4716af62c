-- ===== src/Copilot/Tests.antt =====
-- A copilot with stand-ins for the library code and one tool, a conversation with it, and the
-- theorems there.
use edgar_moe.Common.{
  false, ℕ, zero, ◌≤◌, ◌==◌, if◌then◌else◌, nat_eq, String, true, ◌&&◌, ◌≡◌, refl, none, some, List,
  [], ◌∷◌, leb, ◌↔◌, arith,
}
use edgar_moe.Common.Outcomes.{returned, ◌>>=◌, ensure, fold_each}
use edgar_moe.Copilot.Contracts.{
  Citation, CopilotAgentIdentity, grounded, CopilotAnswer, ProviderToolCall, ProviderResponse,
  object, Library, ReadOnlyToolset, content_hash,
}
use edgar_moe.Copilot.Agent.{
  ResearchCopilot, verify_evidence_tool_result, execute_call, handle_call, request, final_answer,
  rounds, ask, max_requests_per_response,
}
use edgar_moe.Copilot.Agent.Answers.{IsGroundedAnswer, ask-IsGrounded}
use edgar_moe.Copilot.Provider.{
  JsonValue, no_items, item, no_fields, field, Body, Attempt, send, usage_count,
  parse_provider_usage, parse_provider_response, complete,
}
use edgar_moe.Copilot.Provider.Attempts.{IsFirstBody, send_iff, complete-counts}

abbrev pub library : Library
library = record {
  strip = λ s. s;
  utf8_length = λ _. 10;
  encodes = λ _. true;
  loads = λ _. some (object "{}");
  dumps = λ s. s;
  dumps_context = λ _ _. "context";
  dumps_result = λ r. r.payload;
  sha256_hex = λ s. s;
  decimal = λ _. "n";
  now = "2026-09-01";
}

abbrev summary : Citation
summary = record { source = "demo"; label = "Study"; evidence_sha256 = "summary"; fields = [] }

abbrev pub tools : ReadOnlyToolset
tools = record {
  definitions = record { name = "get_study_summary"; description = ""; parameters = "{}" } ∷ [];
  execute = λ name _. some (record { name = name; payload = "summary"; citations = summary ∷ [] });
  fails = λ _ _. false;
  frozen_identity = "v1";
}

abbrev pub says : String → List ProviderToolCall → ProviderResponse
says content calls = record {
  content = content;
  tool_calls = calls;
  model = "m";
  usage = none;
  request_count = 1;
}

abbrev pub ask_tool : ProviderToolCall
ask_tool = record { call_id = "c"; name = "get_study_summary"; arguments = "" }

-- The tool is called in the first round and in no other.
abbrev pub first_calls : ℕ → ProviderResponse
first_calls zero = says "" (ask_tool ∷ [])
first_calls _ = says "Synthetic." []

abbrev identity : CopilotAgentIdentity
identity = record {
  policy_id = "research-copilot-v2";
  policy_sha256 = "p";
  tool_contract_sha256 = "t";
  max_tool_calls = 4;
  max_duration = some 300000000;
  max_context_bytes = some 524288;
  profile_id = some "research";
}

abbrev pub copilot : ResearchCopilot
copilot = record {
  library = library;
  provider = record {
    model = "m";
    provider_name = "p";
    complete = λ n _ _. returned (first_calls n);
  };
  toolset = tools;
  max_tool_calls = 4;
  max_duration = 300000000;
  max_context_bytes = 524288;
  system_prompt = "s";
  agent_identity = identity;
  monotonic = λ n. n;
  verifies = λ _. true;
}

abbrev pub answered : CopilotAnswer
answered = record {
  question = "q";
  answer = "Synthetic.";
  model = "m";
  provider = "p";
  created_at = "2026-09-01";
  frozen_identity = "v1";
  citations = summary ∷ [];
  trace =
      record {
        call_index = 1;
        name = "get_study_summary";
        arguments_sha256 = "{}";
        result_sha256 = "summary";
        citation_count = 1;
      }
      ∷ [];
  evidence_status = grounded;
  usage = some (record {
    request_count = 2;
    duration_ms = 0;
    prompt_tokens = none;
    completion_tokens = none;
    total_tokens = none;
    peak_context_bytes = some 10;
  });
  agent_identity = some identity;
}

asked : ask copilot "q" ≡ returned answered
unfolding ask rounds request final_answer handle_call execute_call verify_evidence_tool_result
    content_hash ◌>>=◌ ensure fold_each
asked = refl

ask-IsGrounded_example : IsGroundedAnswer copilot answered
ask-IsGrounded_example = ask-IsGrounded copilot "q" asked

-- The first attempt meets a rate limit, the second a body.
abbrev reply : Body
reply = record {
  size = 20;
  decoded = some (
      JsonValue.object (
        field "choices"
          (JsonValue.array (
            item
              (JsonValue.object (
                field "message" (JsonValue.object (field "content" (JsonValue.text "hi") no_fields))
                  no_fields))
              no_items))
          no_fields));
}

abbrev limited : ℕ → Attempt
limited n = if n == 1 then Attempt.http_error 429 else Attempt.body reply

send_iff_example :
    (send 2 limited 3 0 ≡ returned (reply, 2)) ↔ (IsFirstBody limited 2 reply × 2 ≤ 3)
send_iff_example = send_iff 2 limited reply 2

replied : complete "m" 2 limited ≡ returned (record (says "hi" []) { request_count = 2 })
unfolding complete send parse_provider_response parse_provider_usage usage_count ◌>>=◌ ensure
replied = refl

complete-counts_example : leb 1 2 && leb 2 max_requests_per_response ≡ true
complete-counts_example = complete-counts "m" 2 limited (omega arith) replied
