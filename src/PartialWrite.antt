-- ===== src/PartialWrite.antt =====
-- src/edgar_moe/forward/partial_write.py: a run whose artifact reached the primary store but not the
-- mirror.
pub mod Outcome
mod Tests
use edgar_moe.Common.{◌++◌, String}
use Prim.Native.String
use edgar_moe.Registry.Records.{ArtifactReference, RunRecord, Database}
use edgar_moe.Registry.Session.{
  Error, conflict, integrity, Result, ok, err, transaction, ForwardRegistry, Moment,
}
use edgar_moe.Registry.Registrations.{register_artifact}
use edgar_moe.Registry.Runs.{fail_run}

-- `ArtifactWriteError`
pub record ArtifactWriteError : Type 0 where
  pub primary_reference : ArtifactReference
  pub cause_type : String

-- `type(error).__name__`
abbrev error_type : Error → String
error_type (conflict label record_id) = "RegistryConflictError"
error_type (integrity table) = "IntegrityError"
error_type _ = "RegistryStateError"

abbrev unregistered_message : Error → String
unregistered_message e =
    String.◌++◌ "ArtifactWriteError: mirror write failed and primary artifact registration failed ("
      (String.◌++◌ (error_type e) ")")

abbrev recorded_message : String → String
recorded_message cause_type =
    String.◌++◌
      "ArtifactWriteError: mirror write failed; primary artifact was recorded for reconciliation (cause="
      (String.◌++◌ cause_type ")")

-- The message with which the run fails.
abbrev pub failure_message : {A : Type 0} → Result A → (cause_type : String) → String
failure_message (ok row) cause_type = recorded_message cause_type
failure_message (err e) cause_type = unregistered_message e

-- The two transactions, each with its own moment.
unfoldable pub record_partial_artifact :
    ForwardRegistry
    → (m m' : Moment) (run_id kind : String) → ArtifactWriteError
    → Database
    → Result RunRecord × Database
record_partial_artifact self m m' run_id kind error db =
    let (registered, db') =
      transaction (register_artifact self m run_id kind error.primary_reference) db in
    transaction (fail_run self m' run_id (failure_message registered error.cause_type)) db'
