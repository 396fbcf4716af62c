-- ===== src/Copilot/Verification/Tests.antt =====
-- A conversation whose hashes are digests, and the verification of its answer.
use edgar_moe.Common.{◌≤◌, String, true, ◌≡◌, refl, subst, some, [], ◌∷◌, arith, length}
use edgar_moe.Common.Outcomes.{Outcome, returned, raised, ◌>>=◌, ensure, fold_each}
use edgar_moe.Copilot.Contracts.{Json, Citation, CopilotAnswer, ToolResult, uncited, content_hash}
use edgar_moe.Copilot.Agent.{
  ResearchCopilot, verify_evidence_tool_result, execute_call, handle_call, request, final_answer,
  rounds, ask,
}
use edgar_moe.Copilot.Texts.{is_digest, is_tool_name}
use edgar_moe.Copilot.Verification.{
  VerificationError, status_invalid, safe_text, safe_metadata, verify_citation,
  verify_each_citation, verify_citations, verify_item, verify_items, verify_trace, verify_usage,
  verify_evidence, verify_answer,
}
use edgar_moe.Copilot.Verification.Traces.{IsConsistent, ask-IsConsistent}
use edgar_moe.Copilot.Tests.{library, copilot, tools, answered}

abbrev pub digest : String
digest = "0123456789abcdef0123456789abcdef0123456789abcdef0123456789abcdef"

abbrev summary : Citation
summary = record {
  source = "snapshot:study";
  label = "Study";
  evidence_sha256 = digest;
  fields = "summary" ∷ [];
}

abbrev pub hashing : ResearchCopilot
hashing = record copilot {
  library = record library { sha256_hex = λ _. digest };
  toolset = record tools {
    execute =
        λ name _. some (record { name = name; payload = "summary"; citations = summary ∷ [] });
  };
}

pub digests : (value : Json) → is_digest (content_hash hashing.library value) ≡ true
unfolding is_digest content_hash
digests value = refl

one_citation :
    (name : String) (arguments : Json) (result : ToolResult)
    → hashing.toolset.execute name arguments ≡ some result
    → length result.citations ≤ 64
one_citation name arguments result e =
    let same : record { name = name; payload = "summary"; citations = summary ∷ [] } ≡ result =
      cc e in
    subst (λ (r : ToolResult). length r.citations ≤ 64) same (omega arith)

unfoldable pub copilot_code : Unit {0}
unfolding ask rounds request final_answer handle_call execute_call verify_evidence_tool_result
    content_hash ◌>>=◌ ensure fold_each is_digest is_tool_name safe_text safe_metadata
    verify_citation verify_each_citation verify_citations verify_item verify_items verify_trace
    verify_usage verify_evidence verify_answer
copilot_code = tt

abbrev pub verified_answer : CopilotAnswer
verified_answer = record answered {
  citations = summary ∷ [];
  trace =
      record {
        call_index = 1;
        name = "get_study_summary";
        arguments_sha256 = digest;
        result_sha256 = digest;
        citation_count = 1;
      }
      ∷ [];
}

asked : ask hashing "q" ≡ returned verified_answer
unfolding copilot_code
asked = refl

ask-IsConsistent_example : IsConsistent verified_answer
ask-IsConsistent_example =
    ask-IsConsistent hashing (omega arith) (refl, tt) digests one_citation "q" asked

-- The whole answer passes, and fails when its status is changed.
abbrev verification : CopilotAnswer → Outcome VerificationError (Unit {0})
verification answer = verify_answer (λ _. returned tt) 2000 hashing.library answer

passes : verification verified_answer ≡ returned tt
unfolding copilot_code
passes = refl

changed :
    verification (record verified_answer { evidence_status = uncited }) ≡ raised status_invalid
unfolding copilot_code
changed = refl
