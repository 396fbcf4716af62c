-- ===== src/Drift/Tests.antt =====
-- The gate on a stable history of three reports.
use edgar_moe.Common.{◌≡◌, refl, true, false, [], ◌∷◌, leb, arith}
use edgar_moe.Common.Outcomes.{returned, ◌>>=◌, ensure}
use edgar_moe.Drift.{
  stable, warning, History, Report, verify_history, verify_readiness, build_readiness,
}
use edgar_moe.Drift.Decision.{gate}
use edgar_moe.Drift.Readiness.{build_readiness-gate}

abbrev three_stable : History
three_stable = record {
  status = stable;
  review_required = false;
  minimum_reports = 2;
  report_count = 3;
  warning_streak = 0;
  statuses = stable ∷ stable ∷ stable ∷ [];
  v1_immutable = true;
  automatic_retraining = false;
}

abbrev late_warnings : History
late_warnings = record three_stable {
  status = warning;
  review_required = true;
  warning_streak = 2;
  statuses = stable ∷ warning ∷ warning ∷ [];
}

verified : verify_history 1024 three_stable ≡ returned tt
unfolding verify_history ◌>>=◌ ensure
verified = refl

warned : verify_history 1024 late_warnings ≡ returned tt
unfolding verify_history ◌>>=◌ ensure
warned = refl

build_readiness-gate_example :
    (r : Report) × ((build_readiness 1024 three_stable 3 ≡ returned r)
      × ((verify_readiness r ≡ returned tt) × (r.status ≡ gate stable (leb 3 3))))
build_readiness-gate_example = build_readiness-gate 1024 three_stable 3 (omega arith) verified
