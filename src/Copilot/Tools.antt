-- ===== src/Copilot/Tools.antt =====
-- `ReadOnlyToolset` of src/edgar_moe/copilot/tools.py: the nine tools, what each accepts, and the one
-- citation of its result.
pub mod Evidence
pub mod Accepted
pub mod Tests
use edgar_moe.Common.{
  ℕ, String, Bool, true, false, not, ◌&&◌, Option, none, some, List, [], ◌∷◌, ◌++◌, if◌then◌else◌,
  ◌==◌, string_eq, leb,
}
use Prim.Native.String
use edgar_moe.Copilot.Contracts.{
  Json, Citation, ToolDefinition, ToolResult, Library, ReadOnlyToolset, content_hash,
}
use edgar_moe.Copilot.Sources.{
  Argument, null, negative, another, text, integer, ForwardStatus, unconfigured, unavailable,
  available, Payload, experiments, event_missing, event_found, governance, not_available,
  SnapshotRepository, ToolSources, ToolTexts,
}
use edgar_moe.Copilot.Texts.{text_length, one_of}

module _ (texts : ToolTexts) where
  abbrev pub definition : String → ToolDefinition
  definition name = record {
    name = name;
    description = texts.description name;
    parameters = texts.parameters name;
  }

  abbrev pub when_configured : {A : Type 0} → Option A → String → List ToolDefinition
  when_configured none name = []
  when_configured (some path) name = definition name ∷ []

  unfoldable pub definitions : ToolSources → List ToolDefinition
  definitions sources =
      definition "get_frozen_identity"
      ∷ definition "get_study_summary"
      ∷ definition "get_methodology"
      ∷ definition "get_experiment_results"
      ∷ definition "search_filing_events"
      ∷ definition "get_filing_event"
      ∷ definition "get_governance_status"
      ∷ (when_configured sources.diagnostic "get_forward_diagnostic"
          ++ when_configured sources.diagnostic_history "get_forward_diagnostic_history")

module _ (lib : Library) (texts : ToolTexts) where
  -- `_result`
  unfoldable pub result :
      (name : String) → Json → (source label : String) (fields : List String) → ToolResult
  result name payload source label fields = record {
    name = name;
    payload = payload;
    citations =
        record {
          source = source;
          label = label;
          evidence_sha256 = content_hash lib payload;
          fields = fields;
        }
        ∷ [];
  }

  -- `_required_string`, of the value that was found; `none` is a `ToolInputError`.
  abbrev pub required_string : Option Argument → (max_length : ℕ) → Option String
  required_string (some (text value)) max_length =
      if not (lib.strip value == "") && leb (text_length value) max_length
      then some (lib.strip value)
      else none
  required_string _ max_length = none

  -- `_optional_string`
  abbrev pub optional_string : Option Argument → (max_length : ℕ) → Option (Option String)
  optional_string none max_length = some none
  optional_string (some null) max_length = some none
  optional_string (some value) max_length = elim (required_string (some value) max_length) [
    | none ↦ none
    | some s ↦ some (some s)
  ]

  -- `_optional_integer`, within the bounds that the search sets
  abbrev pub optional_limit : Option Argument → Option ℕ
  optional_limit none = some 10
  optional_limit (some (integer n)) = if leb 1 n && leb n 10 then some n else none
  optional_limit (some _) = none

  abbrev is_direction : Option String → Bool
  is_direction none = true
  is_direction (some d) = one_of d ("long" ∷ "short" ∷ "neutral" ∷ [])

  abbrev page_of :
      SnapshotRepository → Option (Option String) → Option (Option String) → Option ℕ → Option Json
  page_of repository (some ticker) (some direction) (some limit) =
      if is_direction direction then some (repository.event_page ticker direction limit) else none
  page_of repository _ _ _ = none

  -- `_search_events`
  unfoldable pub search_events : SnapshotRepository → Json → Option Json
  search_events repository arguments =
      page_of repository (optional_string (texts.argument arguments "ticker") 16)
        (optional_string (texts.argument arguments "direction") 8)
        (optional_limit (texts.argument arguments "limit"))

  abbrev event_payload : String → Option Json → Payload
  event_payload accession none = event_missing accession
  event_payload accession (some event) = event_found event

  abbrev snapshot : String
  snapshot = "snapshot:data/demo/snapshot.json"

  abbrev pub searched : Option Json → Option ToolResult
  searched none = none
  searched (some payload) = some (
      result "search_filing_events" payload "api:/api/v1/events" "Derived filing-event search"
        ("items" ∷ "total" ∷ []))

  abbrev pub filing_event : SnapshotRepository → Option String → Option ToolResult
  filing_event repository none = none
  filing_event repository (some accession) =
      if texts.is_accession accession
      then some (
          result "get_filing_event"
            (texts.payload_json (event_payload accession (repository.event accession)))
            "api:/api/v1/events/{accession_number}" (String.◌++◌ "Derived filing event " accession)
            ("found" ∷ "event" ∷ []))
      else none

  abbrev unavailable_result : (name source label reason : String) → ToolResult
  unavailable_result name source label reason =
      result name (texts.payload_json (not_available reason)) source label
        ("available" ∷ "reason" ∷ [])

  abbrev pub diagnostic_result : Option (Option Json) → Option ToolResult
  diagnostic_result none = none
  diagnostic_result (some none) = some (
      unavailable_result "get_forward_diagnostic" "snapshot:forward-diagnostic"
        "Forward diagnostic availability" "diagnostic_report_unavailable_or_invalid")
  diagnostic_result (some (some payload)) = some (
      result "get_forward_diagnostic" payload "snapshot:forward-diagnostic"
        "Redacted short-horizon forward diagnostic"
        ("status" ∷ "as_of" ∷ "forecast_count" ∷ "matured_count" ∷ "pending_count" ∷ "coverage"
          ∷ "rank_ic" ∷ "rmse" ∷ "mae" ∷ "directional_accuracy" ∷ "unique_event_evaluation"
          ∷ "source_sha256" ∷ []))

  abbrev fields_if : Json → (key : String) → (fields : List String) → List String
  fields_if payload key fields = if texts.has_key payload key then fields else []

  abbrev history_fields : Json → List String
  history_fields payload =
      "status"
      ∷ "minimum_reports"
      ∷ "report_count"
      ∷ "horizon_sessions"
      ∷ "latest_as_of"
      ∷ "disclaimer"
      ∷ "research_only"
      ∷ "v1_immutable"
      ∷ "automatic_retraining"
      ∷ "official_evaluation_untouched"
      ∷ "observations"
      ∷ "history_sha256"
      ∷ (fields_if payload "human_review_status"
            ("diagnostic_review_required" ∷ "human_review_status" ∷ [])
          ++ fields_if payload "snapshot_independence"
              ("snapshot_independence" ∷ "promotion_eligible" ∷ []))

  abbrev pub history_result : Option (Option Json) → Option ToolResult
  history_result none = none
  history_result (some none) = some (
      unavailable_result "get_forward_diagnostic_history" "snapshot:forward-diagnostic-history"
        "Forward diagnostic history availability" "diagnostic_history_unavailable_or_invalid")
  history_result (some (some payload)) = some (
      result "get_forward_diagnostic_history" payload "snapshot:forward-diagnostic-history"
        "Verified redacted short-horizon forward diagnostic history" (history_fields payload))

  unfoldable pub execute : ToolSources → (name : String) → Json → Option ToolResult
  execute sources name arguments =
      let repository = sources.repository in
      if name == "get_frozen_identity"
      then some (
          result name repository.frozen_identity snapshot "Published synthetic snapshot identity"
            ("sha256" ∷ "data_mode" ∷ "as_of" ∷ "selection_hash" ∷ "locked_test_hash" ∷ []))
      else if name == "get_study_summary"
      then some (
          result name repository.summary snapshot
            "Synthetic demonstration summary and cost scenarios"
            ("metadata" ∷ "summary" ∷ "predictive_metrics" ∷ "portfolio_scenarios" ∷ []))
      else if name == "get_methodology"
      then some (
          result name repository.methodology snapshot "Synthetic demonstration methodology"
            ("target" ∷ "split" ∷ "model" ∷ "portfolio" ∷ "costs" ∷ "limitations" ∷ []))
      else if name == "get_experiment_results"
      then some (
          result name (texts.payload_json (experiments repository.experiment_rows)) snapshot
            "Synthetic demonstration model-selection experiments" ("experiments" ∷ []))
      else if name == "search_filing_events"
      then searched (search_events repository arguments)
      else if name == "get_filing_event"
      then filing_event repository
          (required_string (texts.argument arguments "accession_number") 20)
      else if name == "get_governance_status"
      then some (
          result name
            (texts.payload_json (governance repository.published_identity sources.forward_status))
            "api:/api/v1/governance" "Frozen-v1 governance and forward status"
            ("published_snapshot" ∷ "public_data" ∷ "controls" ∷ "forward_status" ∷ []))
      else if name == "get_forward_diagnostic"
      then diagnostic_result sources.diagnostic
      else if name == "get_forward_diagnostic_history"
      then history_result sources.diagnostic_history
      else none

  abbrev pub toolset : ToolSources → ReadOnlyToolset
  toolset sources = record {
    definitions = definitions texts sources;
    execute = execute sources;
    fails = sources.fails;
    frozen_identity = sources.repository.frozen_identity;
  }
