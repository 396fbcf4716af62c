-- ===== src/Drift/Decision.antt =====
-- How the seven checks decide the status of a readiness report.
use edgar_moe.Common.{
  ℕ, Bool, true, false, not, ◌||◌, ◌≡◌, refl, inl, inr, List, [], ◌∷◌, if◌then◌else◌, ltb, leb,
  nat_eq, arith, Bool-cases,
}
use edgar_moe.Drift.{
  HistoryStatus, stable, warning, ReadinessStatus, ready, CheckId, same_status, any_status,
  reversed_onto, leading_warnings, Check, failed_ids, is_hard_block, is_none, has_id,
}

-- The status in terms of the tests alone.
abbrev pub checks_from : (e c f s r k : Bool) → List Check
checks_from e c f s r k =
    record { check_id = CheckId.history_integrity; passed = true }
    ∷ record { check_id = CheckId.minimum_observations; passed = e }
    ∷ record { check_id = CheckId.history_contract_minimum; passed = c }
    ∷ record { check_id = CheckId.frozen_identity; passed = f }
    ∷ record { check_id = CheckId.history_status; passed = s }
    ∷ record { check_id = CheckId.review_required; passed = r }
    ∷ record { check_id = CheckId.warning_streak; passed = k }
    ∷ []

abbrev pub decide : (few : Bool) → HistoryStatus → List CheckId → ReadinessStatus
decide few st failed =
    if is_none failed
    then ready
    else if few || (is_hard_block st || has_id CheckId.frozen_identity failed)
    then ReadinessStatus.blocked
    else ReadinessStatus.review_required

-- What the gate decides of a verified history.
abbrev pub gate : HistoryStatus → (enough : Bool) → ReadinessStatus
gate stable true = ready
gate warning true = ReadinessStatus.review_required
gate _ _ = ReadinessStatus.blocked

pub decide-stable :
    (e c r k : Bool)
    → c ≡ true
    → r ≡ true
    → k ≡ true
    → decide (not e) stable (failed_ids (checks_from e c true true r k)) ≡ gate stable e
decide-stable true c r k hc hr hk = rw (hc, hr, hk) refl
decide-stable false c r k hc hr hk = refl

pub decide-warning :
    (e c r k : Bool)
    → decide (not e) warning (failed_ids (checks_from e c true false r k)) ≡ gate warning e
decide-warning false c r k = refl
decide-warning true true true true = refl
decide-warning true true true false = refl
decide-warning true true false true = refl
decide-warning true true false false = refl
decide-warning true false true true = refl
decide-warning true false true false = refl
decide-warning true false false true = refl
decide-warning true false false false = refl

pub decide-hard :
    (st : HistoryStatus) (e c r k : Bool)
    → is_hard_block st ≡ true
    → decide (not e) st (failed_ids (checks_from e c true false r k)) ≡ ReadinessStatus.blocked
decide-hard st false c r k h = refl
decide-hard st true true r k h = rw h refl
decide-hard st true false r k h = rw h refl

pub ltb-leb : (a b : ℕ) → ltb a b ≡ not (leb b a)
ltb-leb a b = ground arith

-- Without a warning among the observations there is no streak.
pub leading-reversed :
    (xs ys : List HistoryStatus)
    → any_status warning xs ≡ false
    → leading_warnings ys ≡ 0
    → leading_warnings (reversed_onto xs ys) ≡ 0
leading-reversed [] ys h k = k
leading-reversed (x ∷ xs) ys h k = elim (Bool-cases (same_status x warning)) [
  | inl e ↦ cc (rw e at h)
  | inr e ↦ leading-reversed xs (x ∷ ys) (rw e at h) (rw e refl)
]
