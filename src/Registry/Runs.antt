-- ===== src/Registry/Runs.antt =====
-- The life of a run: `start_run`, `complete_run` and `fail_run` of
-- src/edgar_moe/forward/registry.py.
use edgar_moe.Common.{
  not, String, Option, none, some, List, [], ◌∷◌, ◌++◌, if◌then◌else◌, ◌==◌, has, string_eq,
}
use edgar_moe.Registry.Records.{Json, RunRegistration, running, succeeded, failed, RunRecord}
use edgar_moe.Registry.Session.{
  ok, Session, pure, gets, ◌>>=◌, ◌>>◌, require, run_start, run_results, run_error, run_exists,
  ForwardRegistry, Moment, get_dataset, get_model, get_run, audit, require_optional_reference,
  require_running_run, redact_sensitive_text,
}

abbrev pub add_run : RunRecord → Session (Unit {0})
add_run row db = ok (tt, record db { runs = db.runs ++ row ∷ [] })

-- The assignments to the fields of a loaded run, written at the commit.
abbrev pub replace_run : RunRecord → List RunRecord → List RunRecord
replace_run row [] = []
replace_run row (r ∷ rs) = if r.run_id == row.run_id then row ∷ rs else r ∷ replace_run row rs

abbrev pub update_run : RunRecord → Session (Unit {0})
update_run row db = ok (tt, record db { runs = replace_run row db.runs })

-- `run_id or _new_id("run")`
abbrev pub resolve_run_id : Option String → String → String
resolve_run_id none new_id = new_id
resolve_run_id (some run_id) new_id = if run_id == "" then new_id else run_id

module _ (self : ForwardRegistry) (m : Moment) where
  -- `new_id` is what `_new_id("run")` gives.
  unfoldable pub start_run : RunRegistration → Option String → String → Session RunRecord
  start_run registration run_id new_id = do
    let resolved = resolve_run_id run_id new_id
    existing ← gets (λ db. has (λ r. r.run_id) resolved db.runs)
    require (not existing) (run_exists resolved)
    require_optional_reference get_dataset registration.dataset_id "dataset"
    require_optional_reference get_model registration.model_id "model"
    require_optional_reference get_run registration.parent_run_id "parent run"
    let row : RunRecord = record {
      run_id = resolved;
      status = running;
      registration = registration;
      result_counts = "{}";
      error_message = none;
      started_at = m.now;
      finished_at = none;
    }
    add_run row
    audit self m "run.started" "run" resolved (run_start registration.run_type registration.as_of)
    pure row

  unfoldable pub complete_run : String → Json → Session RunRecord
  complete_run run_id result_counts = do
    run ← require_running_run run_id
    let row = record run {
      status = succeeded;
      result_counts = result_counts;
      finished_at = some m.now;
    }
    update_run row
    audit self m "run.succeeded" "run" run_id (run_results result_counts)
    pure row

  unfoldable pub fail_run : String → String → Session RunRecord
  fail_run run_id error_message = do
    run ← require_running_run run_id
    let message = redact_sensitive_text self.library 4000 error_message
    let row = record run { status = failed; error_message = some message; finished_at = some m.now }
    update_run row
    audit self m "run.failed" "run" run_id (run_error message)
    pure row
