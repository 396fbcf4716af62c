-- ===== src/Copilot/Tools/Evidence.antt =====
-- Every result of the tools of src/edgar_moe/copilot/tools.py is evidence that the agent accepts.
use edgar_moe.Common.{
  String, true, ◌≡◌, refl, sym, subst, inl, inr, Option, none, some, List, [], ◌∷◌, if◌then◌else◌,
  ◌==◌, string_eq, Bool-cases,
}
use edgar_moe.Copilot.Contracts.{Json, Citation, ToolResult, Library, content_hash}
use edgar_moe.Copilot.Agent.{any_name}
use edgar_moe.Copilot.Sources.{ToolSources, ToolTexts, SnapshotRepository}
use edgar_moe.Copilot.Tools.{
  definitions, result, searched, filing_event, diagnostic_result, history_result, execute,
}

module _ (lib : Library) (texts : ToolTexts) (sources : ToolSources) where
  -- The result is of the tool that was asked for, the tool is offered, and the one citation of the
  -- result carries the hash of its payload.
  pub record IsEvidence (name : String) (r : ToolResult) : Type 0 where
    pub same_name : r.name ≡ name
    pub offered : any_name name (definitions texts sources) ≡ true
    pub citation : Citation
    pub single : r.citations ≡ citation ∷ []
    pub hashed : citation.evidence_sha256 ≡ content_hash lib r.payload

  -- Nothing is asked of a refusal.
  abbrev Gives : String → Option ToolResult → Type 0
  Gives name none = Unit
  Gives name (some r) = IsEvidence name r

  result-IsEvidence :
      (name payload source label : String) (fields : List String)
      → any_name name (definitions texts sources) ≡ true
      → IsEvidence name (result lib texts name payload source label fields)
  unfolding result
  result-IsEvidence name payload source label fields offered = record {
    same_name = refl;
    offered = offered;
    citation = _;
    single = refl;
    hashed = refl;
  }

  -- One case of the chain: the name is the literal.
  Gives-if :
      (name literal : String) (found rest : Option ToolResult)
      → (name ≡ literal → Gives name found)
      → Gives name rest
      → Gives name (if name == literal then found else rest)
  Gives-if name literal found rest h k = elim (Bool-cases (name == literal)) [
    | inl same ↦ rw same (h ((string_eq.same_iff name literal).0 same))
    | inr other ↦ rw other k
  ]

  -- The names that are always offered.
  offered_as :
      (name literal : String)
      → any_name literal (definitions texts sources) ≡ true
      → name ≡ literal
      → any_name name (definitions texts sources) ≡ true
  offered_as name literal h e = subst (λ n. any_name n (definitions texts sources) ≡ true) (sym e) h

  searched-Gives : (o : Option Json) → Gives "search_filing_events" (searched lib texts o)
  unfolding definitions
  searched-Gives none = tt
  searched-Gives (some payload) = result-IsEvidence _ _ _ _ _ refl

  filing_event-Gives :
      (repository : SnapshotRepository) (o : Option String)
      → Gives "get_filing_event" (filing_event lib texts repository o)
  unfolding definitions
  filing_event-Gives repository none = tt
  filing_event-Gives repository (some accession) =
      elim (Bool-cases (texts.is_accession accession)) [
        | inl valid ↦ rw valid (result-IsEvidence _ _ _ _ _ refl)
        | inr invalid ↦ rw invalid tt
      ]

  diagnostic_result-Gives :
      (o : Option (Option Json))
      → sources.diagnostic ≡ o
      → Gives "get_forward_diagnostic" (diagnostic_result lib texts o)
  unfolding definitions
  diagnostic_result-Gives none e = tt
  diagnostic_result-Gives (some none) e = result-IsEvidence _ _ _ _ _ (rw e refl)
  diagnostic_result-Gives (some (some payload)) e = result-IsEvidence _ _ _ _ _ (rw e refl)

  -- The last of the tools is offered whether the one before it is or not.
  history_offered :
      (p : Option Json)
      → (d : Option (Option Json)) → sources.diagnostic ≡ d
      → sources.diagnostic_history ≡ some p
      → any_name "get_forward_diagnostic_history" (definitions texts sources) ≡ true
  unfolding definitions
  history_offered p none d e = rw d (rw e refl)
  history_offered p (some x) d e = rw d (rw e refl)

  history_result-Gives :
      (o : Option (Option Json))
      → sources.diagnostic_history ≡ o
      → Gives "get_forward_diagnostic_history" (history_result lib texts o)
  history_result-Gives none e = tt
  history_result-Gives (some none) e =
      result-IsEvidence _ _ _ _ _ (history_offered _ sources.diagnostic refl e)
  history_result-Gives (some (some payload)) e =
      result-IsEvidence _ _ _ _ _ (history_offered _ sources.diagnostic refl e)

  Gives-as_named :
      (name literal : String) (found : Option ToolResult)
      → Gives literal found
      → name ≡ literal
      → Gives name found
  Gives-as_named name literal found h e = subst (λ n. Gives n found) (sym e) h

  execute-Gives : (name arguments : String) → Gives name (execute lib texts sources name arguments)
  unfolding execute definitions
  execute-Gives name arguments =
      Gives-if name _ _ _
        (λ e. result-IsEvidence _ _ _ _ _ (offered_as name "get_frozen_identity" refl e))
        (Gives-if name _ _ _
          (λ e. result-IsEvidence _ _ _ _ _ (offered_as name "get_study_summary" refl e))
          (Gives-if name _ _ _
            (λ e. result-IsEvidence _ _ _ _ _ (offered_as name "get_methodology" refl e))
            (Gives-if name _ _ _
              (λ e. result-IsEvidence _ _ _ _ _ (offered_as name "get_experiment_results" refl e))
              (Gives-if name _ _ _ (Gives-as_named name _ _ (searched-Gives _)) (
                Gives-if name _ _ _
                  (Gives-as_named name _ _ (filing_event-Gives sources.repository _))
                  (Gives-if name _ _ _
                    (λ e.
                      result-IsEvidence _ _ _ _ _ (offered_as name "get_governance_status" refl e))
                    (Gives-if name _ _ _ (Gives-as_named name _ _ (diagnostic_result-Gives _ refl))
                      (Gives-if name _ _ none
                        (Gives-as_named name _ _ (history_result-Gives _ refl)) tt))))))))

  -- Whatever the name and the arguments: a result of `execute` is of the tool that was asked for,
  -- that tool is one that `definitions` offers, and its one citation carries the hash of its payload.
  pub execute-IsEvidence :
      (name arguments : String) {r : ToolResult}
      → execute lib texts sources name arguments ≡ some r
      → IsEvidence name r
  execute-IsEvidence name arguments h = subst (Gives name) h (execute-Gives name arguments)
