-- ===== src/Copilot/Agent/Rounds.antt =====
-- The last line of `ask` in src/edgar_moe/copilot/agent.py, which its loop never comes to.
use edgar_moe.Common.{
  le_of_leb, ℕ, zero, suc, ◌+◌, ◌≤◌, Bool, true, false, ◌≡◌, ◌≢◌, refl, subst, String, List, [],
  ◌∷◌, if◌then◌else◌, ap, arith,
}
use edgar_moe.Common.Outcomes.{Outcome, returned, raised, ◌>>=◌, ensure, fold_each}
use edgar_moe.Copilot.Contracts.{
  CopilotAnswer, CopilotError, ProviderToolCall, ProviderResponse, Message, ToolDefinition,
}
use edgar_moe.Copilot.Agent.{
  ResearchCopilot, Progress, is_empty, is_evidence, execute_call, verify_evidence_tool_result,
  handle_call, final_answer, request, rounds, ask,
}

abbrev IsAnswered : CopilotError → Type 0
IsAnswered e = e ≢ CopilotError.no_answer

-- What holds of the value, where the code does not raise `no_answer`.
abbrev Settles : {A : Type 0} → (A → Type 0) → Outcome CopilotError A → Type 0
Settles P (returned a) = P a
Settles P (raised e) = IsAnswered e

module _ {B : Type 0} (Q : B → Type 0) where
  Settles-bind :
      {A : Type 0} (P : A → Type 0) (m : Outcome CopilotError A) (f : A → Outcome CopilotError B)
      → Settles P m
      → ((a : A) → P a → Settles Q (f a))
      → Settles Q (m >>= f)
  unfolding ◌>>=◌
  Settles-bind P (returned a) f h k = k a h
  Settles-bind P (raised e) f h k = h

  Settles-ensure :
      (b : Bool) (e : CopilotError) (f : Unit {0} → Outcome CopilotError B)
      → IsAnswered e
      → (b ≡ true → Settles Q (f tt))
      → Settles Q (ensure b e >>= f)
  unfolding ◌>>=◌ ensure
  Settles-ensure true e f other k = k refl
  Settles-ensure false e f other k = other

abbrev Any : (A : Type 0) → A → Type 0
Any A a = Unit

Settles-ensure_last :
    (b : Bool) (e : CopilotError) → IsAnswered e → Settles (Any (Unit {0})) (ensure b e)
unfolding ensure
Settles-ensure_last true e other = tt
Settles-ensure_last false e other = other

Settles-if :
    {A : Type 0} (P : A → Type 0) (b : Bool) (m k : Outcome CopilotError A)
    → (b ≡ true → Settles P m)
    → (b ≡ false → Settles P k)
    → Settles P (elim b [ true ↦ m | false ↦ k ])
Settles-if P true m k h h' = h refl
Settles-if P false m k h h' = h' refl

-- At least so many calls were seen, and no more than the budget.
record IsSeen (self : ResearchCopilot) (n : ℕ) (p : Progress) : Type 0 where
  least : n ≤ p.tool_calls_seen
  within : p.tool_calls_seen ≤ self.max_tool_calls

module _ (self : ResearchCopilot) where
  evidence-Settles :
      (call : ProviderToolCall) (b : Bool)
      → Settles (Any (Unit {0})) (
          if b
          then verify_evidence_tool_result self.library (execute_call self call).result
          else ensure
              (is_empty (execute_call self call).result.citations)
              CopilotError.rejected_citations)
  unfolding verify_evidence_tool_result
  evidence-Settles call true =
      Settles-ensure _ _ _ _ (λ e. cc e)
        λ cited. Settles-ensure _ _ _ _ (λ e. cc e) λ hashable. Settles-ensure_last _ _ λ e. cc e
  evidence-Settles call false = Settles-ensure_last _ _ λ e. cc e

  handle_call-Settles :
      (n : ℕ) (p : Progress) (call : ProviderToolCall)
      → IsSeen self n p
      → Settles (IsSeen self (suc n)) (handle_call self p call)
  unfolding handle_call
  handle_call-Settles n p call h =
      Settles-ensure _ _ _ _ (λ e. cc e)
        λ within.
          Settles-ensure _ _ _ _ (λ e. cc e)
            λ readable.
              Settles-ensure _ _ _ _ (λ e. cc e)
                λ run.
                  Settles-ensure _ _ _ _ (λ e. cc e)
                    λ named.
                      Settles-bind _ _ _ _ (evidence-Settles call (is_evidence self call)) λ _ _.
                        Settles-ensure _ _ _ _ (λ e. cc e)
                          λ encoded. record {
                            least = omega (arith, h.least);
                            within = omega (arith, le_of_leb _ _ within);
                          }

  fold_each-Settles :
      (n : ℕ) (calls : List ProviderToolCall) (p : Progress)
      → IsSeen self n p
      → Settles (IsSeen self n) (fold_each (handle_call self) calls p)
  unfolding fold_each
  fold_each-Settles n [] p h = h
  fold_each-Settles n (call ∷ calls) p h =
      Settles-bind _ _ _ _ (handle_call-Settles n p call h) λ p' h'.
        fold_each-Settles n calls p'
          (record { least = omega (arith, h'.least); within = h'.within })

  calls-Settles :
      (n : ℕ) (calls : List ProviderToolCall) (p : Progress)
      → is_empty calls ≡ false
      → IsSeen self n p
      → Settles (IsSeen self (suc n)) (fold_each (handle_call self) calls p)
  unfolding fold_each
  calls-Settles n [] p some_calls h = cc some_calls
  calls-Settles n (call ∷ calls) p some_calls h =
      Settles-bind _ _ _ _ (handle_call-Settles n p call h)
        λ p' h'. fold_each-Settles (suc n) calls p' h'

  final_answer-Settles :
      (question : String) (readings : ℕ) (p : Progress) (response : ProviderResponse)
      → Settles (Any CopilotAnswer) (final_answer self question readings p response)
  unfolding final_answer
  final_answer-Settles question readings p response =
      Settles-ensure _ _ _ _ (λ e. cc e)
        λ filled.
          Settles-ensure _ _ _ _ (λ e. cc e)
            λ kept. Settles-ensure _ _ _ _ (λ e. cc e) λ verified. tt

  module _
      (answers : (round : ℕ) (messages : List Message) (tools : List ToolDefinition)
        → self.provider.complete round messages tools ≢ raised CopilotError.no_answer) where
    complete-Settles :
        (round : ℕ) (messages : List Message) (tools : List ToolDefinition)
        → Settles (Any ProviderResponse) (self.provider.complete round messages tools)
    complete-Settles round messages tools = given _ (answers round messages tools)
      where
        given :
            (m : Outcome CopilotError ProviderResponse)
            → m ≢ raised CopilotError.no_answer
            → Settles (Any ProviderResponse) m
        given (returned a) h = tt
        given (raised e) h = λ same. h (ap raised same)

    request-Settles :
        (n round : ℕ) (p : Progress)
        → IsSeen self n p
        → Settles (λ (response, p'). IsSeen self n p') (request self round p)
    unfolding request
    request-Settles n round p h =
        Settles-ensure _ _ _ _ (λ e. cc e)
          λ on_time.
            Settles-ensure _ _ _ _ (λ e. cc e)
              λ encoded.
                Settles-ensure _ _ _ _ (λ e. cc e)
                  λ fits. Settles-bind _ _ _ _ (complete-Settles round p.messages _) λ response _.
                    Settles-ensure _ _ _ _ (λ e. cc e)
                      λ counted. record { least = h.least; within = h.within }

    rounds-Settles :
        (left n round : ℕ) (question : String) (p : Progress)
        → n + left ≡ self.max_tool_calls + 1
        → IsSeen self n p
        → Settles (Any CopilotAnswer) (rounds self left round question p)
    unfolding rounds
    rounds-Settles zero n round question p e h = omega (arith, e, h.least, h.within)
    rounds-Settles (suc left) n round question p e h =
        Settles-bind _ _ _ _ (request-Settles n round p h) λ (response, p') h'.
          Settles-if _ (is_empty response.tool_calls) _ _
            (λ _. final_answer-Settles question _ p' response)
            (λ some_calls.
              Settles-bind _ _ _ _ (calls-Settles n response.tool_calls p' some_calls h') λ p'' h''.
                rounds-Settles left (suc n) (suc round) question p'' (omega (arith, e)) h'')

    ask-Settles : (question : String) → Settles (Any CopilotAnswer) (ask self question)
    unfolding ask
    ask-Settles question =
        Settles-ensure _ _ _ _ (λ e. cc e)
          λ encoded.
            Settles-ensure _ _ _ _ (λ e. cc e)
              λ valid.
                rounds-Settles (self.max_tool_calls + 1) 0 0 _ _ (omega arith)
                  (record { least = omega arith; within = omega arith })

    -- The rounds that `ask` allows are enough: unless the provider itself raises that error, `ask`
    -- never comes to the end of its loop without an answer or another error.
    pub ask-Settled : (question : String) → ask self question ≢ raised CopilotError.no_answer
    ask-Settled question e = subst (Settles (Any CopilotAnswer)) e (ask-Settles question) refl
