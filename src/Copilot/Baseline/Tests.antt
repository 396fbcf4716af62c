-- ===== src/Copilot/Baseline/Tests.antt =====
-- Questions to the baseline, and the theorems there.
use edgar_moe.Common.{◌==◌, ◌&&◌, string_eq, true, ◌≡◌, ◌≢◌, refl, none, [], ◌∷◌}
use edgar_moe.Common.Outcomes.{returned, raised}
use edgar_moe.Copilot.Contracts.{CopilotAnswer, grounded}
use edgar_moe.Copilot.Verification.Traces.{IsConsistent}
use edgar_moe.Copilot.Verification.Tests.{digest, hashing, digests, copilot_code}
use edgar_moe.Copilot.Tools.{execute, result}
use edgar_moe.Copilot.Tools.Tests.{texts, sources}
use edgar_moe.Copilot.Baseline.{
  BaselineTexts, BaselineError, verified, cited_answer, routed, baseline_ask,
}
use edgar_moe.Copilot.Baseline.Evidence.{baseline_ask-IsConsistent, baseline_ask-Offered}

abbrev patterns : BaselineTexts
patterns = record {
  lower = λ s. s;
  trade_action = λ s. s == "buy the stock";
  trade_object = λ s. s == "buy the stock";
  pattern = λ name s. (name == "get_methodology") && (s == "what is the target");
  dumps_payload = λ s. s;
  verifies = λ _. true;
}

unfoldable baseline_code : Unit {0}
unfolding copilot_code execute result verified cited_answer routed baseline_ask
baseline_code = tt

abbrev answer : CopilotAnswer
answer = record {
  question = "what is the target";
  answer = "Direct read-only evidence from get_methodology; review the cited fields:\nmethods";
  model = "deterministic-evidence-navigation-v1";
  provider = "none";
  created_at = "2026-09-01";
  frozen_identity = "v1";
  citations =
      record {
        source = "snapshot:data/demo/snapshot.json";
        label = "Synthetic demonstration methodology";
        evidence_sha256 = digest;
        fields = "target" ∷ "split" ∷ "model" ∷ "portfolio" ∷ "costs" ∷ "limitations" ∷ [];
      }
      ∷ [];
  trace =
      record {
        call_index = 1;
        name = "get_methodology";
        arguments_sha256 = digest;
        result_sha256 = digest;
        citation_count = 1;
      }
      ∷ [];
  evidence_status = grounded;
  usage = none;
  agent_identity = none;
}

asked : baseline_ask hashing.library texts sources patterns "what is the target" ≡ returned answer
unfolding baseline_code
asked = refl

baseline_ask-IsConsistent_example : IsConsistent answer
baseline_ask-IsConsistent_example =
    baseline_ask-IsConsistent hashing.library texts sources patterns digests "what is the target"
      asked

baseline_ask-Offered_example :
    baseline_ask hashing.library texts sources patterns "what is the target"
    ≢ raised BaselineError.tool_input
baseline_ask-Offered_example =
    baseline_ask-Offered hashing.library texts sources patterns digests "what is the target"
