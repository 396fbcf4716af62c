-- ===== src/Immutability/Tests.antt =====
-- The triggers on one run, and a client that tries more than it may.
use edgar_moe.Common.{◌≡◌, refl, true, false, some, ℕ, List, [], ◌∷◌}
use edgar_moe.Registry.Records.{succeeded, RunRecord}
use edgar_moe.Registry.Tests.{run_1}
use edgar_moe.Immutability.{
  protect_run, run_trigger, update, delete, Statement, insert, change, execute_all,
}

abbrev done : RunRecord
done = record run_1 { status = succeeded; finished_at = some 600 }

outcome_admitted : protect_run run_1 done ≡ true
outcome_admitted = refl

second_outcome_refused : run_trigger done (update run_1) ≡ false
second_outcome_refused = refl

-- The outcome is recorded; reopening the run and deleting it are refused.
abbrev attempts : List (Statement RunRecord)
attempts = change 0 (update done) ∷ change 0 (update run_1) ∷ change 0 delete ∷ []

attempted : execute_all run_trigger attempts (run_1 ∷ []) ≡ done ∷ []
attempted = refl

abbrev numbers : List ℕ
numbers = 3 ∷ []

abbrev number_attempts : List (Statement ℕ)
number_attempts = change 0 (update 4) ∷ insert 5 ∷ []
