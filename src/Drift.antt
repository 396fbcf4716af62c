-- ===== src/Drift.antt =====
-- The readiness gate of src/edgar_moe/features/drift_readiness.py over the aggregates of
-- src/edgar_moe/features/drift_history.py. Digests, identity texts, time stamps and the fields that
-- are constants are left out; what is left decides the status.
pub mod Decision
pub mod Readiness
mod Tests
use edgar_moe.Common.{
  ℕ, suc, ◌+◌, Bool, true, false, not, ◌&&◌, ◌||◌, Option, none, some, List, [], ◌∷◌, if◌then◌else◌,
  ◌==◌, ltb, leb, nat_eq, length,
}
use edgar_moe.Common.Outcomes.{Outcome, returned, raised, ◌>>=◌, ◌>>◌, ensure}

pub data HistoryStatus : Type 0 where
  stable warning error incomplete insufficient_history : HistoryStatus

pub data ReadinessStatus : Type 0 where
  ready blocked review_required : ReadinessStatus

-- `_CHECK_IDS`
pub data CheckId : Type 0 where
  history_integrity minimum_observations history_contract_minimum frozen_identity : CheckId
  history_status review_required warning_streak : CheckId

pub data DriftError : Type 0 where
  not_positive not_frozen too_many_reports count_mismatch status_mismatch : DriftError
  review_mismatch streak_mismatch check_inconsistent reasons_mismatch : DriftError

abbrev pub same_status : HistoryStatus → HistoryStatus → Bool
same_status stable stable = true
same_status warning warning = true
same_status error error = true
same_status incomplete incomplete = true
same_status insufficient_history insufficient_history = true
same_status _ _ = false

abbrev pub same_readiness : ReadinessStatus → ReadinessStatus → Bool
same_readiness ready ready = true
same_readiness blocked blocked = true
same_readiness ReadinessStatus.review_required ReadinessStatus.review_required = true
same_readiness _ _ = false

abbrev pub index : CheckId → ℕ
index history_integrity = 0
index minimum_observations = 1
index history_contract_minimum = 2
index frozen_identity = 3
index CheckId.history_status = 4
index CheckId.review_required = 5
index CheckId.warning_streak = 6

abbrev pub same_id : CheckId → CheckId → Bool
same_id a b = index a == index b

abbrev pub same_bool : Bool → Bool → Bool
same_bool true b = b
same_bool false b = not b

pub record History : Type 0 where
  pub status : HistoryStatus
  pub review_required : Bool
  pub minimum_reports : ℕ
  pub report_count : ℕ
  pub warning_streak : ℕ
  -- the statuses of the observations, the oldest first
  pub statuses : List HistoryStatus
  pub v1_immutable : Bool
  pub automatic_retraining : Bool

-- `status in statuses`
abbrev pub any_status : HistoryStatus → List HistoryStatus → Bool
any_status s [] = false
any_status s (t ∷ ts) = same_status t s || any_status s ts

-- `_history_status`
abbrev pub expected_status : List HistoryStatus → (count minimum_reports : ℕ) → HistoryStatus
expected_status statuses count minimum_reports =
    if any_status error statuses
    then error
    else if any_status incomplete statuses
    then incomplete
    else if any_status warning statuses
    then warning
    else if ltb count minimum_reports
    then insufficient_history
    else stable

abbrev pub reversed_onto : List HistoryStatus → List HistoryStatus → List HistoryStatus
reversed_onto [] ys = ys
reversed_onto (x ∷ xs) ys = reversed_onto xs (x ∷ ys)

abbrev pub leading_warnings : List HistoryStatus → ℕ
leading_warnings [] = 0
leading_warnings (s ∷ ss) = if same_status s warning then suc (leading_warnings ss) else 0

-- `_warning_streak`
abbrev pub expected_streak : List HistoryStatus → ℕ
expected_streak statuses = leading_warnings (reversed_onto statuses [])

-- What `verify_research_drift_history` asks of the aggregates; the limit is `_MAX_HISTORY_REPORTS`.
unfoldable pub verify_history : (max_reports : ℕ) → History → Outcome DriftError (Unit {0})
verify_history max_reports h = do
  ensure (h.v1_immutable && not h.automatic_retraining) not_frozen
  ensure (leb 1 h.minimum_reports) not_positive
  ensure (leb 1 h.report_count) not_positive
  ensure (leb h.report_count max_reports) too_many_reports
  ensure (length h.statuses == h.report_count) count_mismatch
  ensure (same_status h.status (expected_status h.statuses h.report_count h.minimum_reports))
      status_mismatch
  ensure (same_bool h.review_required (not (same_status h.status stable))) review_mismatch
  ensure (h.warning_streak == expected_streak h.statuses) streak_mismatch

pub record Check : Type 0 where
  pub check_id : CheckId
  pub passed : Bool

pub record Report : Type 0 where
  pub status : ReadinessStatus
  pub history_status : HistoryStatus
  pub required_report_count : ℕ
  pub history_contract_minimum : ℕ
  pub report_count : ℕ
  pub warning_streak : ℕ
  pub v1_immutable : Bool
  pub automatic_retraining : Bool
  pub checks : List Check
  pub blocked_reasons : List CheckId

abbrev pub failed_ids : List Check → List CheckId
failed_ids [] = []
failed_ids (c ∷ cs) = if c.passed then failed_ids cs else c.check_id ∷ failed_ids cs

abbrev pub has_id : CheckId → List CheckId → Bool
has_id i [] = false
has_id i (j ∷ js) = same_id j i || has_id i js

abbrev pub is_none : List CheckId → Bool
is_none [] = true
is_none (i ∷ is) = false

-- `_HARD_BLOCK_STATUSES`
abbrev pub is_hard_block : HistoryStatus → Bool
is_hard_block insufficient_history = true
is_hard_block error = true
is_hard_block incomplete = true
is_hard_block _ = false

-- The status from the failed checks, as it is built and as it is verified.
abbrev pub readiness_of :
    (report_count required : ℕ) → HistoryStatus → (failed : List CheckId) → ReadinessStatus
readiness_of report_count required status failed =
    let hard =
      ltb report_count required || (is_hard_block status || has_id frozen_identity failed) in
    if is_none failed then ready else if hard then blocked else ReadinessStatus.review_required

-- `check_statuses[id]` against its expectation
abbrev pub check_is : CheckId → Bool → List Check → Bool
check_is i expected [] = false
check_is i expected (c ∷ cs) =
    if same_id c.check_id i then same_bool c.passed expected else check_is i expected cs

abbrev pub same_ids : List CheckId → List CheckId → Bool
same_ids [] [] = true
same_ids (i ∷ is) (j ∷ js) = same_id i j && same_ids is js
same_ids _ _ = false

-- `verify_research_drift_readiness`. Seven checks in which each of the seven identifiers is found
-- have each identifier once.
unfoldable pub verify_readiness : Report → Outcome DriftError (Unit {0})
verify_readiness r = do
  ensure (r.v1_immutable && not r.automatic_retraining) not_frozen
  ensure (leb 1 r.required_report_count) not_positive
  ensure (leb 1 r.history_contract_minimum) not_positive
  ensure (leb 1 r.report_count) not_positive
  ensure (length r.checks == 7) check_inconsistent
  ensure (check_is history_integrity true r.checks) check_inconsistent
  ensure (check_is minimum_observations (leb r.required_report_count r.report_count) r.checks)
      check_inconsistent
  ensure
      (check_is history_contract_minimum (leb r.history_contract_minimum r.report_count) r.checks)
      check_inconsistent
  ensure (check_is frozen_identity (r.v1_immutable && not r.automatic_retraining) r.checks)
      check_inconsistent
  ensure (check_is CheckId.history_status (same_status r.history_status stable) r.checks)
      check_inconsistent
  ensure (check_is CheckId.review_required (same_status r.history_status stable) r.checks)
      check_inconsistent
  ensure (check_is CheckId.warning_streak (r.warning_streak == 0) r.checks) check_inconsistent
  ensure (same_ids r.blocked_reasons (failed_ids r.checks)) reasons_mismatch
  ensure
      (same_readiness r.status (
        readiness_of r.report_count r.required_report_count r.history_status (failed_ids r.checks)))
      status_mismatch

abbrev pub checks_of : History → (required : ℕ) → List Check
checks_of h required =
    record { check_id = history_integrity; passed = true }
    ∷ record { check_id = minimum_observations; passed = leb required h.report_count }
    ∷ record { check_id = history_contract_minimum; passed = leb h.minimum_reports h.report_count }
    ∷ record { check_id = frozen_identity; passed = h.v1_immutable && not h.automatic_retraining }
    ∷ record { check_id = CheckId.history_status; passed = same_status h.status stable }
    ∷ record { check_id = CheckId.review_required; passed = not h.review_required }
    ∷ record { check_id = CheckId.warning_streak; passed = h.warning_streak == 0 }
    ∷ []

abbrev pub report_of : History → (required : ℕ) → Report
report_of h required =
    let checks = checks_of h required in
    record {
      status = readiness_of h.report_count required h.status (failed_ids checks);
      history_status = h.status;
      required_report_count = required;
      history_contract_minimum = h.minimum_reports;
      report_count = h.report_count;
      warning_streak = h.warning_streak;
      v1_immutable = true;
      automatic_retraining = false;
      checks = checks;
      blocked_reasons = failed_ids checks;
    }

unfoldable pub build_readiness :
    (max_reports : ℕ) → History → (minimum_reports : ℕ) → Outcome DriftError Report
build_readiness max_reports h required = do
  ensure (leb 1 required) not_positive
  verify_history max_reports h
  verify_readiness (report_of h required)
  returned (report_of h required)
