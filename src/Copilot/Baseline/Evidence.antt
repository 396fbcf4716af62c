-- ===== src/Copilot/Baseline/Evidence.antt =====
-- What the baseline of src/edgar_moe/copilot/baseline.py answers with the repository's tools.
use edgar_moe.Common.{
  ◌&&◌, ◌||◌, ◌∙◌, ◌≤◌, String, Bool, true, false, ◌≡◌, ◌≢◌, refl, subst, inl, inr, some, List, [],
  ◌∷◌, if◌then◌else◌, All, length, Bool-cases, arith,
}
use edgar_moe.Common.Outcomes.{Outcome, returned, raised, ◌>>=◌, ensure, ensure-bind, returned-bind}
use edgar_moe.Copilot.Contracts.{Json, ToolResult, Library, CopilotAnswer, content_hash}
use edgar_moe.Copilot.Texts.{one_of, is_digest}
use edgar_moe.Copilot.Verification.{read_only_tools, verify_trace, verify_items, verify_evidence}
use edgar_moe.Copilot.Verification.Consistency.{verify_item-holds, verify_evidence-holds}
use edgar_moe.Copilot.Verification.Traces.{IsConsistent}
use edgar_moe.Copilot.Sources.{ToolSources, ToolTexts}
use edgar_moe.Copilot.Tools.{execute}
use edgar_moe.Copilot.Tools.Evidence.{IsEvidence, execute-IsEvidence}
use edgar_moe.Copilot.Baseline.{
  BaselineTexts, BaselineError, routes, route_of, verified, uncited_answer, cited_envelope,
  cited_answer, routed, baseline_ask,
}

-- What is known of an outcome.
abbrev Sound : Outcome BaselineError CopilotAnswer → Type 0
Sound (returned answer) = IsConsistent answer
Sound (raised e) = e ≢ BaselineError.tool_input

ensure-Sound :
    (b : Bool) (e : BaselineError) (m : Outcome BaselineError CopilotAnswer)
    → e ≢ BaselineError.tool_input
    → Sound m
    → Sound (ensure b e >>= λ _. m)
unfolding ensure ◌>>=◌
ensure-Sound true e m other h = h
ensure-Sound false e m other h = other

module _ (lib : Library) (tools : ToolTexts) (sources : ToolSources) (texts : BaselineTexts)
    (digests : (value : Json) → is_digest (content_hash lib value) ≡ true) where
  verified-Sound :
      (answer : CopilotAnswer)
      → IsConsistent answer
      → Sound (verified lib tools sources texts answer)
  unfolding verified
  verified-Sound answer h = ensure-Sound _ _ _ (λ e. cc e) h

  item_holds :
      (name : String) (r : ToolResult)
      → one_of name read_only_tools ≡ true
      → length r.citations ≤ 64
      → verify_trace (
          record {
            call_index = 1;
            name = name;
            arguments_sha256 = content_hash lib "{}";
            result_sha256 = content_hash lib r.payload;
            citation_count = length r.citations;
          }
          ∷ [])
        ≡ returned tt
  unfolding verify_trace verify_items
  item_holds name r listed few =
      ensure-bind _ _ _ refl
      ∙ returned-bind _ _ (verify_item-holds 1 _ refl listed (digests _) (digests _) few)

  one_citation :
      (name : String) (r : ToolResult)
      → IsEvidence lib tools sources name r
      → length r.citations ≤ 64
  one_citation name r h = rw h.single (omega arith)

  envelope-IsConsistent :
      (question name answer : String) (r : ToolResult)
      → one_of name read_only_tools ≡ true
      → IsEvidence lib tools sources name r
      → IsConsistent (cited_envelope lib tools sources texts question name answer r)
  envelope-IsConsistent question name answer r listed h = record {
    trace = item_holds name r listed (one_citation name r h);
    evidence = rw h.single (verify_evidence-holds (h.citation ∷ []) _ refl (counted _));
  }
    where
      counted : (b : Bool) → ((b && false) || false) ≡ false
      counted true = refl
      counted false = refl

  uncited-Sound :
      (question answer : String) → Sound (uncited_answer lib tools sources texts question answer)
  unfolding verify_trace verify_items verify_evidence ◌>>=◌ ensure
  uncited-Sound question answer = verified-Sound _ (record { trace = refl; evidence = refl })

  cited-Sound :
      (question name : String) (r : ToolResult)
      → execute lib tools sources name "{}" ≡ some r
      → one_of name read_only_tools ≡ true
      → Sound
          (cited_answer lib tools sources texts question name (execute lib tools sources name "{}"))
  unfolding cited_answer
  cited-Sound question name r e listed = rw e (
      ensure-Sound _ _ _ (λ e. cc e)
        (ensure-Sound _ _ _ (λ e. cc e)
          (ensure-Sound _ _ _ (λ e. cc e)
            (verified-Sound _ (
              envelope-IsConsistent question name _ r listed
                (execute-IsEvidence lib tools sources name "{}" e))))))

  -- What holds of every route holds of the one that is taken.
  route_of-Sound :
      (question lowered : String) (names : List String)
      → All
          (λ name. Sound (
            cited_answer lib tools sources texts question name
              (execute lib tools sources name "{}")))
          names
      → Sound (routed lib tools sources texts question (route_of texts names lowered))
  unfolding routed
  route_of-Sound question lowered [] h = uncited-Sound question _
  route_of-Sound question lowered (name ∷ names) h =
      elim (Bool-cases (texts.pattern name lowered)) [
        | inl matching ↦ rw matching (ensure-Sound _ _ _ (λ e. cc e) h.0)
        | inr other ↦ rw other (route_of-Sound question lowered names h.1)
      ]

  routes-All :
      (question : String)
      → All
          (λ name. Sound (
            cited_answer lib tools sources texts question name
              (execute lib tools sources name "{}")))
          routes
  unfolding execute
  routes-All question = (
    cited-Sound question "get_governance_status" _ refl refl,
    (
      cited-Sound question "get_methodology" _ refl refl,
      (
        cited-Sound question "get_experiment_results" _ refl refl,
        (
          cited-Sound question "get_frozen_identity" _ refl refl,
          (cited-Sound question "get_study_summary" _ refl refl, tt),
        ),
      ),
    ),
  )

  if-Sound :
      (b : Bool) (m k : Outcome BaselineError CopilotAnswer)
      → Sound m
      → Sound k
      → Sound (if b then m else k)
  if-Sound true m k h h' = h
  if-Sound false m k h h' = h'

  baseline_ask-Sound : (question : String) → Sound (baseline_ask lib tools sources texts question)
  unfolding baseline_ask
  baseline_ask-Sound question =
      ensure-Sound _ _ _ (λ e. cc e)
        (ensure-Sound _ _ _ (λ e. cc e)
          (if-Sound _ _ _ (uncited-Sound _ _) (route_of-Sound _ _ routes (routes-All _))))

  -- If hashes are lowercase SHA-256 digests, the trace of every answer that the baseline returns, and
  -- how it agrees with the citations and the evidence status, pass the answer's verification.
  pub baseline_ask-IsConsistent :
      (question : String) {answer : CopilotAnswer}
      → baseline_ask lib tools sources texts question ≡ returned answer
      → IsConsistent answer
  baseline_ask-IsConsistent question e = subst Sound e (baseline_ask-Sound question)

  -- If hashes are lowercase SHA-256 digests, no question makes the baseline ask for a tool that is
  -- refused.
  pub baseline_ask-Offered :
      (question : String)
      → baseline_ask lib tools sources texts question ≢ raised BaselineError.tool_input
  baseline_ask-Offered question e = subst Sound e (baseline_ask-Sound question) refl
