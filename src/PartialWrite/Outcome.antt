-- ===== src/PartialWrite/Outcome.antt =====
-- A partial write always ends with a failed run.
use edgar_moe.Common.{String, false, ◌≡◌, refl, some, ◌==◌, string_eq, has}
use edgar_moe.Registry.Records.{running, RunRecord, AuditEvent, Database}
use edgar_moe.Registry.Session.{ForwardRegistry, Moment, get_run}
use edgar_moe.Registry.Registrations.{register_artifact}
use edgar_moe.Registry.Untouched.{Untouched, transaction-Untouched, register_artifact-Untouched}
use edgar_moe.Registry.Endings.{IsFailed, fail_run-IsFailed}
use edgar_moe.PartialWrite.{ArtifactWriteError, record_partial_artifact}

-- If the run is running and the identifiers of both audit events are new and differ, then, whether
-- or not the artifact could be registered, the run ends as failed and nothing is raised.
pub record_partial_artifact-fails :
    (self : ForwardRegistry) (m m' : Moment) (run_id kind : String) (error : ArtifactWriteError)
    (db : Database) (run : RunRecord)
    → get_run db run_id ≡ some run
    → run.status ≡ running
    → has (λ (a : AuditEvent). a.audit_id) m'.audit_id db.audits ≡ false
    → (m.audit_id == m'.audit_id) ≡ false
    → IsFailed run_id (record_partial_artifact self m m' run_id kind error db)
unfolding record_partial_artifact
record_partial_artifact-fails self m m' run_id kind error db run found active fresh other =
    let untouched : Untouched db m'.audit_id db = record { runs = refl; fresh = fresh } in
    let k =
      transaction-Untouched db m'.audit_id
        (register_artifact self m run_id kind error.primary_reference) db untouched
        (register_artifact-Untouched self m m'.audit_id other db db untouched run_id kind
          error.primary_reference) in
    fail_run-IsFailed self m' run_id _ _ run (rw k.runs found) active k.fresh
