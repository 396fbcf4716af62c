-- ===== src/Copilot/Tools/Tests.antt =====
-- The tools on a small snapshot, a provider that calls tools in every round, and the theorems there.
use edgar_moe.Common.{
  ◌==◌, if◌then◌else◌, string_eq, String, false, ◌≡◌, ◌≢◌, refl, Option, none, some, [], ◌∷◌, arith,
}
use edgar_moe.Common.Outcomes.{returned, raised}
use edgar_moe.Copilot.Contracts.{CopilotError, ToolResult}
use edgar_moe.Copilot.Agent.{ResearchCopilot, initial, handle_call, ask}
use edgar_moe.Copilot.Agent.Rounds.{ask-Settled}
use edgar_moe.Copilot.Tests.{library, copilot, says, ask_tool}
use edgar_moe.Copilot.Verification.Tests.{copilot_code}
use edgar_moe.Copilot.Sources.{Argument, ForwardStatus, SnapshotRepository, ToolSources, ToolTexts}
use edgar_moe.Copilot.Tools.{definitions, result, search_events, execute}
use edgar_moe.Copilot.Tools.Evidence.{IsEvidence, execute-IsEvidence}
use edgar_moe.Copilot.Tools.Accepted.{equipped, IsAccepted, handle_call-IsAccepted}

abbrev repository : SnapshotRepository
repository = record {
  frozen_identity = "v1";
  published_identity = "demo";
  summary = "summary";
  methodology = "methods";
  experiment_rows = "rows";
  event = λ number. if number == "0000320193-26-000001" then some "event" else none;
  event_page = λ ticker direction limit. "page";
}

abbrev pub sources : ToolSources
sources = record {
  repository = repository;
  forward_status = ForwardStatus.unconfigured;
  diagnostic = none;
  diagnostic_history = some none;
  fails = λ name arguments. arguments == "broken";
}

abbrev argument_of : String → String → Option Argument
argument_of arguments key =
    if key == "accession_number"
    then some (Argument.text "0000320193-26-000001")
    else if key == "limit"
    then some (Argument.integer (if arguments == "many" then 11 else 10))
    else none

abbrev pub texts : ToolTexts
texts = record {
  argument = argument_of;
  has_key = λ _ _. false;
  payload_json = λ _. "payload";
  is_accession = λ s. s == "0000320193-26-000001";
  description = λ name. name;
  parameters = λ _. "{}";
}

abbrev found : ToolResult
found = record {
  name = "get_filing_event";
  payload = "payload";
  citations =
      record {
        source = "api:/api/v1/events/{accession_number}";
        label = "Derived filing event 0000320193-26-000001";
        evidence_sha256 = "payload";
        fields = "found" ∷ "event" ∷ [];
      }
      ∷ [];
}

executed : execute library texts sources "get_filing_event" "{}" ≡ some found
unfolding copilot_code execute result
executed = refl

too_many : execute library texts sources "search_filing_events" "many" ≡ none
unfolding copilot_code execute search_events
too_many = refl

not_configured : execute library texts sources "get_forward_diagnostic" "{}" ≡ none
unfolding copilot_code execute
not_configured = refl

execute-IsEvidence_example : IsEvidence library texts sources "get_filing_event" found
execute-IsEvidence_example =
    execute-IsEvidence library texts sources "get_filing_event" "{}" executed

handle_call-IsAccepted_example :
    IsAccepted
      (equipped copilot texts sources)
      (initial copilot "q")
      ask_tool
      (handle_call (equipped copilot texts sources) (initial copilot "q") ask_tool)
handle_call-IsAccepted_example =
    handle_call-IsAccepted copilot texts sources (initial copilot "q") ask_tool (omega arith)

-- A provider that never gives an answer.
abbrev restless : ResearchCopilot
restless = record copilot {
  provider = record {
    model = "m";
    provider_name = "p";
    complete = λ _ _ _. returned (says "" (ask_tool ∷ []));
  };
}

stopped : ask (equipped restless texts sources) "q" ≡ raised CopilotError.tool_call_budget
unfolding copilot_code execute result definitions
stopped = refl

ask-Settled_example : ask (equipped restless texts sources) "q" ≢ raised CopilotError.no_answer
ask-Settled_example =
    ask-Settled (equipped restless texts sources) (λ round messages tools e. cc e) "q"
