-- ===== src/Registry/Endings.antt =====
-- How a run ends: the row that `fail_run` of src/edgar_moe/forward/registry.py leaves, and what
-- `complete_run` leaves when it returns.
use edgar_moe.Common.{
  sym, String, false, ◌≡◌, refl, ◌∙◌, inl, inr, some, List, [], ◌∷◌, ◌++◌, ◌==◌, string_eq, get,
  has, Bool-cases, subst,
}
use edgar_moe.Registry.Records.{
  running, RunStatus, RunRecord, AuditEvent, Database, same_status_iff, run_status_eq,
}
use edgar_moe.Registry.Session.{
  Result, ok, transaction, ForwardRegistry, Moment, get_run, audit_row, audit-eq,
  require_running_run, redact_sensitive_text, run_error,
}
use edgar_moe.Registry.Runs.{replace_run, fail_run}
use edgar_moe.Registry.Rules.{gets-bind, or_raise-bind, require-bind, pure-eq, bind-eq}
use edgar_moe.Common.{get-key}

pub get-replace_run :
    (row : RunRecord) (rs : List RunRecord) {old : RunRecord}
    → get (λ (r : RunRecord). r.run_id) row.run_id rs ≡ some old
    → get (λ (r : RunRecord). r.run_id) row.run_id (replace_run row rs) ≡ some row
get-replace_run row [] h = cc h
get-replace_run row (r ∷ rs) h = elim (Bool-cases (r.run_id == row.run_id)) [
  | inl found ↦ rw (found, (string_eq.same_iff row.run_id row.run_id).1 refl) refl
  | inr differs ↦ rw (differs, differs) (get-replace_run row rs (rw differs at h))
]

module _ (self : ForwardRegistry) (m : Moment) (run_id message : String) where
  abbrev pub failed_row : RunRecord → RunRecord
  failed_row run = record run {
    status = RunStatus.failed;
    error_message = some (redact_sensitive_text self.library 4000 message);
    finished_at = some m.now;
  }

  pub fail_run-eq :
      (db : Database) (run : RunRecord)
      → get_run db run_id ≡ some run
      → run.status ≡ running
      → has (λ (a : AuditEvent). a.audit_id) m.audit_id db.audits ≡ false
      → fail_run self m run_id message db
        ≡ ok (
          failed_row run,
          record db {
            runs = replace_run (failed_row run) db.runs;
            audits =
                db.audits
                ++ audit_row self m "run.failed" "run" run_id
                    (run_error (redact_sensitive_text self.library 4000 message))
                  ∷ [];
          },
        )
  unfolding fail_run require_running_run
  fail_run-eq db run found active fresh =
      bind-eq _ _ db (
        gets-bind _ _ db
        ∙ or_raise-bind _ _ _ db found
        ∙ require-bind _ _ _ db ((same_status_iff run.status running).1 active)
        ∙ pure-eq run db)
      ∙ bind-eq _ _ db refl
      ∙ bind-eq _ _ _ (audit-eq self m _ _ _ _ _ fresh)
      ∙ pure-eq _ _

-- The run is stored as failed, which is what is returned.
pub record IsFailed (run_id : String) (outcome : Result RunRecord × Database) : Type 0 where
  pub row : RunRecord
  pub returned : outcome.0 ≡ ok row
  pub stored : get_run outcome.1 run_id ≡ some row
  pub failed : row.status ≡ RunStatus.failed

pub fail_run-IsFailed :
    (self : ForwardRegistry) (m : Moment) (run_id message : String) (db : Database)
    (run : RunRecord)
    → get_run db run_id ≡ some run
    → run.status ≡ running
    → has (λ (a : AuditEvent). a.audit_id) m.audit_id db.audits ≡ false
    → IsFailed run_id (transaction (fail_run self m run_id message) db)
fail_run-IsFailed self m run_id message db run found active fresh =
    let e = fail_run-eq self m run_id message db run found active fresh in
    let row = failed_row self m run_id message run in
    let same_id = get-key (λ (r : RunRecord). r.run_id) run_id db.runs found in
    record {
      row = row;
      returned = rw (e, transaction) refl;
      stored =
          rw (e, transaction)
            (subst (λ k. get (λ (r : RunRecord). r.run_id) k (replace_run row db.runs) ≡ some row)
              same_id
              (get-replace_run row db.runs {old = run} (
                subst (λ k. get (λ (r : RunRecord). r.run_id) k db.runs ≡ some run) (sym same_id)
                  found)));
      failed = refl;
    }
