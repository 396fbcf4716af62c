-- ===== src/Copilot/Baseline.antt =====
-- `DeterministicEvidenceBaseline` of src/edgar_moe/copilot/baseline.py, over the tools of Copilot/Tools.
pub mod Evidence
mod Tests
use edgar_moe.Common.{
  ◌||◌, ℕ, String, Bool, not, ◌&&◌, Option, none, some, List, [], ◌∷◌, if◌then◌else◌, ◌==◌,
  string_eq, leb, length,
}
use edgar_moe.Common.Outcomes.{Outcome, returned, raised, ◌>>=◌, ◌>>◌, ensure}
use Prim.Native.String
use edgar_moe.Copilot.Contracts.{
  Json, ToolResult, Library, CopilotAnswer, EvidenceStatus, grounded, uncited, content_hash,
  is_hashable,
}
use edgar_moe.Copilot.Agent.{max_question_bytes}
use edgar_moe.Copilot.Sources.{ToolSources, ToolTexts}
use edgar_moe.Copilot.Tools.{execute}

-- The patterns on a question in lower case: the two of a trade, and that of each route. A payload as
-- JSON text, and `verify_copilot_answer_report`.
pub record BaselineTexts : Type 0 where
  pub lower : String → String
  pub trade_action : String → Bool
  pub trade_object : String → Bool
  pub pattern : (tool_name : String) → String → Bool
  pub dumps_payload : Json → String
  pub verifies : CopilotAnswer → Bool

pub data BaselineError : Type 0 where
  invalid_question answer_limit tool_input report_invalid tool_failed not_encodable : BaselineError

abbrev pub routes : List String
routes =
    "get_governance_status" ∷ "get_methodology" ∷ "get_experiment_results" ∷ "get_frozen_identity"
    ∷ "get_study_summary" ∷ []

abbrev max_answer_bytes : ℕ
max_answer_bytes = 256000

abbrev pub route_of : BaselineTexts → List String → (lowered : String) → Option String
route_of texts [] lowered = none
route_of texts (name ∷ names) lowered =
    if texts.pattern name lowered then some name else route_of texts names lowered

module _ (lib : Library) (tools : ToolTexts) (sources : ToolSources) (texts : BaselineTexts) where
  abbrev envelope : (question answer : String) → CopilotAnswer
  envelope question answer = record {
    question = question;
    answer = answer;
    model = "deterministic-evidence-navigation-v1";
    provider = "none";
    created_at = lib.now;
    frozen_identity = sources.repository.frozen_identity;
    citations = [];
    trace = [];
    evidence_status = uncited;
    usage = none;
    agent_identity = none;
  }

  unfoldable pub verified : CopilotAnswer → Outcome BaselineError CopilotAnswer
  verified answer = do ensure (texts.verifies answer) BaselineError.report_invalid; returned answer

  -- `_uncited`
  abbrev pub uncited_answer : (question answer : String) → Outcome BaselineError CopilotAnswer
  uncited_answer question answer = verified (envelope question answer)

  abbrev pub cited_envelope : (question name answer : String) → ToolResult → CopilotAnswer
  cited_envelope question name answer result = record (envelope question answer) {
    citations = result.citations;
    trace =
        record {
          call_index = 1;
          name = name;
          arguments_sha256 = content_hash lib "{}";
          result_sha256 = content_hash lib result.payload;
          citation_count = length result.citations;
        }
        ∷ [];
    evidence_status = grounded;
  }

  -- The body of the loop for the route that matches; `none` is the tool's `ToolInputError`.
  unfoldable pub cited_answer :
      (question name : String) → Option ToolResult → Outcome BaselineError CopilotAnswer
  cited_answer question name none = raised BaselineError.tool_input
  cited_answer question name (some result) = do
    let answer = String.◌++◌ "Direct read-only evidence from " (
        String.◌++◌ name
          (String.◌++◌ "; review the cited fields:\n" (texts.dumps_payload result.payload)))
    ensure (lib.encodes answer) BaselineError.not_encodable
    ensure (leb (lib.utf8_length answer) max_answer_bytes) BaselineError.answer_limit
    ensure (is_hashable lib result.payload) BaselineError.not_encodable
    verified (cited_envelope question name answer result)

  unfoldable pub routed : (question : String) → Option String → Outcome BaselineError CopilotAnswer
  routed question none = uncited_answer question "No fixed evidence route matches this question."
  routed question (some name) = do
    ensure (not (sources.fails name "{}")) BaselineError.tool_failed
    cited_answer question name (execute lib tools sources name "{}")

  unfoldable pub baseline_ask : (question : String) → Outcome BaselineError CopilotAnswer
  baseline_ask question = do
    let normalized = lib.strip question
    ensure (normalized == "" || lib.encodes normalized) BaselineError.not_encodable
    ensure (not (normalized == "") && leb (lib.utf8_length normalized) max_question_bytes)
        BaselineError.invalid_question
    let lowered = texts.lower normalized
    if texts.trade_action lowered && texts.trade_object lowered
        then uncited_answer normalized "I cannot place trades or give an order instruction."
        else routed normalized (route_of texts routes lowered)
