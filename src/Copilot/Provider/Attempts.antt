-- ===== src/Copilot/Provider/Attempts.antt =====
-- Which attempts `complete` makes.
use edgar_moe.Common.{
  ℕ, zero, suc, ◌+◌, ◌≤◌, ◌<◌, String, Bool, true, false, ◌≡◌, refl, ap, inl, inr, ◌↔◌, ltb, leb,
  ◌&&◌, ◌⊎◌, ◌∙◌, arith, Bool-cases,
}
use edgar_moe.Common.Outcomes.{
  Outcome, returned, Returns, Returns-bind, Returns-ensure, Returns-from, Returns-ok,
}
use edgar_moe.Copilot.Contracts.{ProviderResponse}
use edgar_moe.Copilot.Agent.{max_requests_per_response}
use edgar_moe.Copilot.Provider.{
  Body, Attempt, body, http_error, unreachable, ProviderError, is_retryable, after_attempt, send,
  complete,
}

-- An attempt after which another is made, as long as any is left.
abbrev pub is_transient : Attempt → Bool
is_transient (body b) = false
is_transient (http_error code) = is_retryable code
is_transient unreachable = true

-- The n-th attempt is the first to give a body, and all before it failed in a way worth a retry.
pub record IsFirstBody (transport : ℕ → Attempt) (n : ℕ) (b : Body) : Type 0 where
  pub gives : transport n ≡ body b
  pub positive : 1 ≤ n
  pub before : (i : ℕ) → 1 ≤ i → i < n → is_transient (transport i) ≡ true

earlier_or_last : (i n : ℕ) → i < suc n → (i < n) ⊎ (i ≡ n)
earlier_or_last i n h = ground arith

too_few : (max_retries n : ℕ) → n ≤ max_retries → ltb max_retries n ≡ false
too_few max_retries n h = ground arith

after_transient :
    (max_retries n : ℕ) (t : Attempt) (again : Outcome ProviderError (Body × ℕ))
    → is_transient t ≡ true
    → ltb max_retries n ≡ false
    → after_attempt max_retries n t again ≡ again
after_transient max_retries n (body b) again h few = cc h
after_transient max_retries n (http_error code) again h few = rw (h, few)
after_transient max_retries n unreachable again h few = rw few

module _ (max_retries : ℕ) (transport : ℕ → Attempt) where
  abbrev Before : ℕ → Type 0
  Before attempts = (i : ℕ) → 1 ≤ i → i < suc attempts → is_transient (transport i) ≡ true

  Before-suc :
      (attempts : ℕ)
      → Before attempts
      → is_transient (transport (suc attempts)) ≡ true
      → Before (suc attempts)
  Before-suc attempts h now i low high = elim (earlier_or_last i (suc attempts) high) [
    | inl earlier ↦ h i low earlier
    | inr e ↦ rw e now
  ]

  abbrev Sent : Body × ℕ → Type 0
  Sent (b, n) = IsFirstBody transport n b × (n ≤ max_retries + 1)

  after_attempt-Sent :
      (attempts : ℕ) (t : Attempt) (again : Outcome ProviderError (Body × ℕ))
      → transport (suc attempts) ≡ t
      → attempts ≤ max_retries
      → Before attempts
      → (is_transient t ≡ true → Returns Sent again)
      → Returns Sent (after_attempt max_retries (suc attempts) t again)
  after_attempt-Sent attempts (body b) again e few h k =
      (record { gives = e; positive = omega arith; before = h }, omega (arith, few))
  after_attempt-Sent attempts (http_error code) again e few h k =
      elim (Bool-cases (is_retryable code)) [
        | inl retry ↦ rw retry (elim (Bool-cases (ltb max_retries (suc attempts))) [
          | inl last ↦ rw last tt
          | inr left ↦ rw left (k retry)
        ])
        | inr final ↦ rw final tt
      ]
  after_attempt-Sent attempts unreachable again e few h k =
      elim (Bool-cases (ltb max_retries (suc attempts))) [
        | inl last ↦ rw last tt
        | inr left ↦ rw left (k refl)
      ]

  send-Sent :
      (fuel attempts : ℕ)
      → fuel + attempts ≡ max_retries + 1
      → Before attempts
      → Returns Sent (send max_retries transport fuel attempts)
  unfolding send
  send-Sent zero attempts fuelled h = tt
  send-Sent (suc fuel) attempts fuelled h =
      after_attempt-Sent attempts (transport (suc attempts)) _ refl (omega (arith, fuelled)) h
        λ now. send-Sent fuel (suc attempts) (omega (arith, fuelled)) (Before-suc attempts h now)

  nothing-Before : Before 0
  nothing-Before i low high = absurd (omega (arith, low, high))

  after_body :
      (n : ℕ) (t : Attempt) (again : Outcome ProviderError (Body × ℕ)) (b : Body)
      → t ≡ body b
      → after_attempt max_retries n t again ≡ returned (b, n)
  after_body n t again b h = rw h

  -- From any attempt on, the loop reaches the first body.
  send-reaches :
      (n : ℕ) (b : Body)
      → IsFirstBody transport n b
      → n ≤ max_retries + 1
      → (fuel attempts : ℕ) → fuel + attempts ≡ max_retries + 1
      → attempts < n
      → send max_retries transport fuel attempts ≡ returned (b, n)
  unfolding send
  send-reaches n b first few zero attempts fuelled more = absurd (omega arith)
  send-reaches n b first few (suc fuel) attempts fuelled more =
      elim (earlier_or_last (suc attempts) n (omega arith)) [
        | inl earlier ↦
            after_transient max_retries (suc attempts) (transport (suc attempts)) _
              (first.before (suc attempts) (omega arith) earlier)
              (too_few max_retries (suc attempts) (omega (arith, few, earlier)))
            ∙ send-reaches n b first few fuel (suc attempts) (omega (arith, fuelled)) earlier
        | inr e ↦
            after_body (suc attempts) (transport (suc attempts)) _ b (rw e first.gives)
            ∙ ap (λ (k : ℕ). returned (b, k)) e
      ]

  -- The request is sent with the body of some attempt exactly when this is the first attempt to
  -- give one, at most `max_retries + 1` attempts in all are made, and every attempt before it met a
  -- retryable HTTP status or no answer. The count that is returned is the number of that attempt.
  pub send_iff :
      (b : Body) (n : ℕ)
      → (send max_retries transport (max_retries + 1) 0 ≡ returned (b, n))
        ↔ (IsFirstBody transport n b × n ≤ max_retries + 1)
  send_iff b n = (
    λ h. Returns-ok Sent _ (send-Sent (max_retries + 1) 0 (omega arith) nothing-Before) h,
    λ (first, few).
        send-reaches n b first few (max_retries + 1) 0 (omega arith)
          (omega (arith, first.positive)),
  )

  complete-Returns :
      (model : String)
      → Returns
          (λ r. (1 ≤ r.request_count) × (r.request_count ≤ max_retries + 1))
          (complete model max_retries transport)
  unfolding complete
  complete-Returns model =
      Returns-bind _ Sent _ _ (send-Sent (max_retries + 1) 0 (omega arith) nothing-Before)
        λ (b, n) (first, few). Returns-ensure _ _ _ _ λ small.
          Returns-from _ _ _
            λ payload decoded. Returns-from _ _ _ λ parsed parses. (first.positive, few)

-- With the retries that the provider's constructor allows, the request count of every response lies
-- in the range that the agent accepts.
pub complete-counts :
    (model : String) (max_retries : ℕ) (transport : ℕ → Attempt) {r : ProviderResponse}
    → max_retries ≤ 3
    → complete model max_retries transport ≡ returned r
    → leb 1 r.request_count && leb r.request_count max_requests_per_response ≡ true
complete-counts model max_retries transport {r} few h =
    accepted r.request_count max_retries few
      (Returns-ok _ _ (complete-Returns max_retries transport model) h)
  where
    accepted :
        (n k : ℕ)
        → k ≤ 3
        → (1 ≤ n) × (n ≤ k + 1)
        → leb 1 n && leb n max_requests_per_response ≡ true
    accepted n k few (low, high) = ground arith
