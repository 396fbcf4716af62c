-- ===== src/Copilot/Tools/Accepted.antt =====
-- `ResearchCopilot` of src/edgar_moe/copilot/agent.py with the tools of
-- src/edgar_moe/copilot/tools.py.
use edgar_moe.Common.{
  false, ◌∷◌, [], subst, sym, leb_of_le, ℕ, ◌+◌, ◌≤◌, Bool, true, not, ◌&&◌, ◌≡◌, refl, ap, ◌∙◌,
  inl, inr, none, some, if◌then◌else◌, ◌==◌, string_eq, length, length-append, Option-cases, arith,
}
use edgar_moe.Common.Outcomes.{Outcome, raised, ◌>>=◌, returned, ensure, ensure-bind, ensure_holds}
use edgar_moe.Copilot.Contracts.{
  ToolResult, ProviderToolCall, CopilotError, content_hash, is_hashable,
}
use edgar_moe.Copilot.Agent.{
  ResearchCopilot, Progress, is_readable, traced, is_empty, all_hash, is_evidence, execute_call,
  call_arguments, handle_call, verify_evidence_tool_result,
}
use edgar_moe.Copilot.Sources.{ToolSources, ToolTexts}
use edgar_moe.Copilot.Tools.{execute, toolset}
use edgar_moe.Copilot.Tools.Evidence.{IsEvidence, execute-IsEvidence}

-- An agent whose tools are those of the repository.
abbrev pub equipped : ResearchCopilot → ToolTexts → ToolSources → ResearchCopilot
equipped self texts sources = record self { toolset = toolset self.library texts sources }

abbrev citation_count : Bool → ℕ
citation_count b = if b then 1 else 0

-- Whether what the trace of a call hashes can be encoded.
abbrev pub are_hashable : ResearchCopilot → ProviderToolCall → Bool
are_hashable self call =
    is_hashable self.library (execute_call self call).arguments
    && is_hashable self.library (execute_call self call).result.payload

-- An error of other code that the call meets, and where that code raises it: of `json.loads`, of what
-- a tool reads, of the UTF-8 encoding.
abbrev pub IsForeign : ResearchCopilot → ProviderToolCall → CopilotError → Type 0
IsForeign self call CopilotError.arguments_unreadable = is_readable self call ≡ false
IsForeign self call CopilotError.tool_failed =
    self.toolset.fails call.name (call_arguments self call) ≡ true
IsForeign self call CopilotError.not_encodable = are_hashable self call ≡ false
IsForeign self call _ = ⊥

-- One more call is counted and traced, and the evidence of a call is one citation.
pub record IsHandled (self : ResearchCopilot) (p next : Progress) (call : ProviderToolCall)
    : Type 0 where
  pub seen : next.tool_calls_seen ≡ p.tool_calls_seen + 1
  pub traces : length next.trace ≡ length p.trace + 1
  pub citations :
      length next.citations ≡ length p.citations + citation_count (is_evidence self call)

abbrev pub IsAccepted :
    ResearchCopilot → Progress → ProviderToolCall → Outcome CopilotError Progress → Type 0
IsAccepted self p call (returned next) = IsHandled self p next call
IsAccepted self p call (raised e) = IsForeign self call e

abbrev OnlyForeign : ResearchCopilot → ProviderToolCall → Outcome CopilotError (Unit {0}) → Type 0
OnlyForeign self call (returned u) = Unit
OnlyForeign self call (raised e) = IsForeign self call e

negated : (b : Bool) → not b ≡ false → b ≡ true
negated b h = ground arith

either_false : (a b : Bool) → b ≡ false → (a && b) ≡ false
either_false a b h = ground arith

-- What the agent asks of the outcome of a call.
record IsExecuted (self : ResearchCopilot) (call : ProviderToolCall) : Type 0 where
  named : ((execute_call self call).result.name == call.name) ≡ true
  checked : OnlyForeign self call (
      if is_evidence self call
      then verify_evidence_tool_result self.library (execute_call self call).result
      else ensure
          (is_empty (execute_call self call).result.citations)
          CopilotError.rejected_citations)
  cited : length (execute_call self call).result.citations ≡ citation_count (is_evidence self call)

module _ {B : Type 0} (Q : Outcome CopilotError B → Type 0) where
  guard-passes :
      (b : Bool) (e : CopilotError) (f : Unit {0} → Outcome CopilotError B)
      → b ≡ true
      → Q (f tt)
      → Q (ensure b e >>= f)
  guard-passes b e f h k = subst Q (sym (ensure-bind b e f h)) k

  -- A test of other code may fail.
  guard-Foreign :
      (b : Bool) (e : CopilotError) (f : Unit {0} → Outcome CopilotError B)
      → (b ≡ false → Q (raised e))
      → Q (f tt)
      → Q (ensure b e >>= f)
  unfolding ◌>>=◌ ensure
  guard-Foreign true e f h k = k
  guard-Foreign false e f h k = h refl

  check-Foreign :
      (self : ResearchCopilot) (call : ProviderToolCall) (m : Outcome CopilotError (Unit {0}))
      (f : Unit {0} → Outcome CopilotError B)
      → ((e : CopilotError) → IsForeign self call e → Q (raised e))
      → OnlyForeign self call m
      → Q (f tt)
      → Q (m >>= f)
  unfolding ◌>>=◌
  check-Foreign self call (returned tt) f r h k = k
  check-Foreign self call (raised e) f r h k = r e h

module _ (agent : ResearchCopilot) (texts : ToolTexts) (sources : ToolSources) where
  abbrev self : ResearchCopilot
  self = equipped agent texts sources

  refused-IsExecuted :
      (call : ProviderToolCall)
      → execute agent.library texts sources call.name (call_arguments self call) ≡ none
      → IsExecuted self call
  unfolding execute_call ensure
  refused-IsExecuted call e = record {
    named = rw (e, execute_call) ((string_eq.same_iff call.name call.name).1 refl);
    checked = rw (e, execute_call) tt;
    cited = rw (e, execute_call) refl;
  }

  evidence_holds :
      (call : ProviderToolCall) (r : ToolResult)
      → IsEvidence agent.library texts sources call.name r
      → (is_hashable agent.library r.payload ≡ false → are_hashable self call ≡ false)
      → OnlyForeign self call (verify_evidence_tool_result agent.library r)
  unfolding verify_evidence_tool_result
  evidence_holds call r h encoded =
      let Q : Outcome CopilotError (Unit {0}) → Type 0 = OnlyForeign self call in
      guard-passes Q _ _ _ (ap (λ cs. not (is_empty cs)) h.single) (
        guard-Foreign Q _ _ _ encoded (
          subst Q
            (sym (
              ensure_holds _ CopilotError.evidence_hash_mismatch (
                ap (all_hash (content_hash agent.library r.payload)) h.single
                ∙ ap (λ b. b && true) ((string_eq.same_iff _ _).1 h.hashed))))
            tt))

  accepted-IsExecuted :
      (call : ProviderToolCall) (r : ToolResult)
      → execute agent.library texts sources call.name (call_arguments self call) ≡ some r
      → IsEvidence agent.library texts sources call.name r
      → IsExecuted self call
  unfolding execute_call
  accepted-IsExecuted call r e h = record {
    named = rw (e, execute_call) ((string_eq.same_iff r.name call.name).1 h.same_name);
    checked =
        rw (e, execute_call, h.offered)
          (evidence_holds call r h (λ k.
            either_false (is_hashable self.library (execute_call self call).arguments)
              (is_hashable self.library (execute_call self call).result.payload)
              (rw (e, execute_call) k)));
    cited = rw (e, execute_call, h.offered, h.single) refl;
  }

  call-IsExecuted : (call : ProviderToolCall) → IsExecuted self call
  call-IsExecuted call =
      elim (Option-cases
        (execute agent.library texts sources call.name (call_arguments self call))) [
          | inl e ↦ refused-IsExecuted call e
          | inr (r, e) ↦
              accepted-IsExecuted call r e
                (execute-IsEvidence agent.library texts sources call.name _ e)
        ]

  -- With the tools of the repository and a call left in the budget, `handle_call` never refuses what
  -- a tool gave: it raises only an error of other code, of `json.loads`, of what the tool reads or of
  -- the UTF-8 encoding, and only where that code raises it. Otherwise it returns: the call is counted
  -- and traced, and has brought one citation if a tool accepted it and none if not.
  pub handle_call-IsAccepted :
      (p : Progress) (call : ProviderToolCall)
      → p.tool_calls_seen + 1 ≤ agent.max_tool_calls
      → IsAccepted
          (equipped agent texts sources)
          p
          call
          (handle_call (equipped agent texts sources) p call)
  unfolding handle_call
  handle_call-IsAccepted p call within =
      let Q : Outcome CopilotError Progress → Type 0 = IsAccepted self p call in
      guard-passes Q _ _ _ (leb_of_le _ _ within) (
        guard-Foreign Q _ _ _ (λ h. h)
          (guard-Foreign Q _ _ _ (negated _) (
            guard-passes Q _ _ _ (call-IsExecuted call).named (
              check-Foreign Q self call _ _ (λ e h. h) (call-IsExecuted call).checked
                (guard-Foreign Q _ _ _ (λ h. h)
                  (record {
                    seen = refl;
                    traces = length-append p.trace (traced self p call ∷ []);
                    citations = omega (
                      arith,
                      length-append p.citations (execute_call self call).result.citations,
                      (call-IsExecuted call).cited,
                    );
                  }))))))
