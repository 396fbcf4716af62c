-- ===== src/Drift/Readiness.antt =====
-- The report that is built of a verified history.
use edgar_moe.Common.{
  ℕ, ◌≤◌, Bool, true, false, not, ◌&&◌, ◌≡◌, refl, ap, subst, ◌∙◌, List, [], ◌∷◌, if◌then◌else◌,
  ◌==◌, ltb, leb, nat_eq, arith,
}
use edgar_moe.Common.Outcomes.{
  returned, Returns, Returns-ensure, Returns-ensure_last, Returns-ok, ensure-bind, ensure_holds,
  returned-bind,
}
use edgar_moe.Drift.{
  HistoryStatus, stable, warning, error, incomplete, insufficient_history, ReadinessStatus, ready,
  CheckId, History, same_status, same_bool, same_ids, same_readiness, any_status, expected_status,
  expected_streak, verify_history, Report, failed_ids, verify_readiness, checks_of, report_of,
  build_readiness, same_id, index,
}
use edgar_moe.Drift.Decision.{
  checks_from, decide, gate, decide-stable, decide-warning, decide-hard, ltb-leb, leading-reversed,
}

-- What is used of a verified history.
record IsVerified (h : History) : Type 0 where
  frozen : h.v1_immutable && not h.automatic_retraining ≡ true
  minimum : leb 1 h.minimum_reports ≡ true
  counted : leb 1 h.report_count ≡ true
  status : same_status h.status (expected_status h.statuses h.report_count h.minimum_reports) ≡ true
  review : same_bool h.review_required (not (same_status h.status stable)) ≡ true
  streak : (h.warning_streak == expected_streak h.statuses) ≡ true

verify_history-IsVerified :
    (max_reports : ℕ) (h : History) → Returns (λ _. IsVerified h) (verify_history max_reports h)
unfolding verify_history
verify_history-IsVerified max_reports h = Returns-ensure _ _ _ _ λ frozen.
    Returns-ensure _ _ _ _ λ minimum. Returns-ensure _ _ _ _ λ counted.
      Returns-ensure _ _ _ _ λ few. Returns-ensure _ _ _ _ λ complete.
        Returns-ensure _ _ _ _ λ status. Returns-ensure _ _ _ _ λ review.
          Returns-ensure_last _ _ _ λ streak. record {
            frozen = frozen;
            minimum = minimum;
            counted = counted;
            status = status;
            review = review;
            streak = streak;
          }

same_bool_refl : (b : Bool) → same_bool b b ≡ true
same_bool_refl true = refl
same_bool_refl false = refl

same_readiness_refl : (s : ReadinessStatus) → same_readiness s s ≡ true
same_readiness_refl ready = refl
same_readiness_refl ReadinessStatus.blocked = refl
same_readiness_refl ReadinessStatus.review_required = refl

same_id_refl : (i : CheckId) → same_id i i ≡ true
same_id_refl i = (nat_eq.same_iff (index i) (index i)).1 refl

same_ids_refl : (is : List CheckId) → same_ids is is ≡ true
same_ids_refl [] = refl
same_ids_refl (i ∷ is) = rw (same_id_refl i, same_ids_refl is) refl

review_check : (r s : Bool) → same_bool r (not s) ≡ true → same_bool (not r) s ≡ true
review_check true true h = cc h
review_check true false h = refl
review_check false true h = refl
review_check false false h = cc h

frozen_check : (b : Bool) → b ≡ true → same_bool b true ≡ true
frozen_check true h = refl
frozen_check false h = h

module _ (h : History) (required : ℕ) (v : IsVerified h) (positive : leb 1 required ≡ true) where
  report_of-verifies : verify_readiness (report_of h required) ≡ returned tt
  unfolding verify_readiness
  report_of-verifies =
      ensure-bind _ _ _ refl
      ∙ ensure-bind _ _ _ positive
      ∙ ensure-bind _ _ _ v.minimum
      ∙ ensure-bind _ _ _ v.counted
      ∙ ensure-bind _ _ _ refl
      ∙ ensure-bind _ _ _ refl
      ∙ ensure-bind _ _ _ (same_bool_refl (leb required h.report_count))
      ∙ ensure-bind _ _ _ (same_bool_refl (leb h.minimum_reports h.report_count))
      ∙ ensure-bind _ _ _ (frozen_check (h.v1_immutable && not h.automatic_retraining) v.frozen)
      ∙ ensure-bind _ _ _ (same_bool_refl (same_status h.status stable))
      ∙ ensure-bind _ _ _ (review_check h.review_required (same_status h.status stable) v.review)
      ∙ ensure-bind _ _ _ (same_bool_refl (h.warning_streak == 0))
      ∙ ensure-bind _ _ _ (same_ids_refl (failed_ids (checks_of h required)))
      ∙ ensure_holds _ _ (same_readiness_refl _)

  abbrev enough : Bool
  enough = leb required h.report_count

  abbrev decision : (few f s : Bool) → HistoryStatus → ReadinessStatus
  decision few f s st = decide few st (
      failed_ids (
        checks_from enough (leb h.minimum_reports h.report_count) f s (not h.review_required)
          (h.warning_streak == 0)))

  -- The tests of the report, with what the history's verification says of them.
  decision-known :
      (st : HistoryStatus)
      → h.status ≡ st
      → (report_of h required).status ≡ decision (not enough) true (same_status st stable) st
  decision-known st e =
      ap
        (λ b.
          decision b (h.v1_immutable && not h.automatic_retraining) (same_status h.status stable)
            h.status)
        (ltb-leb h.report_count required)
      ∙ ap (λ b. decision (not enough) b (same_status h.status stable) h.status) v.frozen
      ∙ ap (λ t. decision (not enough) true (same_status t stable) t) e

  stable_tests :
      (a b w l : Bool)
      → same_status stable (
          if a
          then error
          else if b
          then incomplete
          else if w
          then warning
          else if l
          then insufficient_history
          else stable)
        ≡ true
      → (w ≡ false) × (l ≡ false)
  stable_tests true b w l e = cc e
  stable_tests false true w l e = cc e
  stable_tests false false true l e = cc e
  stable_tests false false false true e = cc e
  stable_tests false false false false e = (refl, refl)

  report_status :
      (st : HistoryStatus) → h.status ≡ st → (report_of h required).status ≡ gate st enough
  report_status stable e =
      let (no_warning, no_lack) =
        stable_tests (any_status error h.statuses) (any_status incomplete h.statuses)
          (any_status warning h.statuses) (ltb h.report_count h.minimum_reports)
          (subst
            (λ t.
              same_status t (expected_status h.statuses h.report_count h.minimum_reports) ≡ true)
            e v.status) in
      decision-known stable e
      ∙ decide-stable enough _ _ _ (not_fewer h.report_count h.minimum_reports no_lack)
          (not_reviewed h.review_required (
            subst (λ t. same_bool h.review_required (not (same_status t stable)) ≡ true) e
              v.review))
          ((nat_eq.same_iff h.warning_streak 0).1 (
            (nat_eq.same_iff h.warning_streak (expected_streak h.statuses)).0 v.streak
            ∙ leading-reversed h.statuses [] no_warning refl))
    where
      not_fewer : (a b : ℕ) → ltb a b ≡ false → leb b a ≡ true
      not_fewer a b k = ground arith

      not_reviewed : (b : Bool) → same_bool b false ≡ true → not b ≡ true
      not_reviewed b k = ground arith
  report_status warning e = decision-known warning e ∙ decide-warning enough _ _ _
  report_status error e = decision-known error e ∙ decide-hard error enough _ _ _ refl
  report_status incomplete e =
      decision-known incomplete e ∙ decide-hard incomplete enough _ _ _ refl
  report_status insufficient_history e =
      decision-known insufficient_history e ∙ decide-hard insufficient_history enough _ _ _ refl

-- Of every history that verifies, and with a positive minimum, a report is built; it passes its own
-- verification; and with at least the minimum of reports it is ready when the history is stable and
-- asks for a review when the history has a warning, and is blocked in every other case.
pub build_readiness-gate :
    (max_reports : ℕ) (h : History) (minimum_reports : ℕ)
    → 1 ≤ minimum_reports
    → verify_history max_reports h ≡ returned tt
    → (r : Report) × ((build_readiness max_reports h minimum_reports ≡ returned r)
        × ((verify_readiness r ≡ returned tt)
            × (r.status ≡ gate h.status (leb minimum_reports h.report_count))))
unfolding build_readiness
build_readiness-gate max_reports h minimum_reports low verified =
    let v = Returns-ok _ _ (verify_history-IsVerified max_reports h) verified in
    let positive = positive_test minimum_reports low in
    let verifies = report_of-verifies h minimum_reports v positive in
    (
      report_of h minimum_reports,
      (
        ensure-bind _ _ _ positive ∙ returned-bind _ _ verified ∙ returned-bind _ _ verifies,
        (verifies, report_status h minimum_reports v positive h.status refl),
      ),
    )
  where
    positive_test : (n : ℕ) → 1 ≤ n → leb 1 n ≡ true
    positive_test n k = ground arith
