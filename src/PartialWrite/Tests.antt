-- ===== src/PartialWrite/Tests.antt =====
-- A mirror write that fails while a forecast run is open.
use edgar_moe.Common.{◌≡◌, refl, false, has, string_eq}
use edgar_moe.Registry.Records.{AuditEvent}
use edgar_moe.Registry.Tests.{registry, at, appended, run_1, run_1-appended}
use edgar_moe.Registry.Commands.{registry_code}
use edgar_moe.PartialWrite.{ArtifactWriteError, record_partial_artifact}
use edgar_moe.Registry.Endings.{IsFailed}
use edgar_moe.PartialWrite.Outcome.{record_partial_artifact-fails}

abbrev mirror_failed : ArtifactWriteError
mirror_failed = record {
  primary_reference = record { uri = "local://k"; sha256 = "h"; size_bytes = 3; key = "k" };
  cause_type = "OSError";
}

fresh_failure : has (λ (a : AuditEvent). a.audit_id) "a11" appended.audits ≡ false
unfolding registry_code
fresh_failure = refl

record_partial_artifact-fails_example : IsFailed "run-1" (
    record_partial_artifact registry
      (at "a10")
      (at "a11")
      "run-1"
      "forecasts"
      mirror_failed
      appended)
record_partial_artifact-fails_example =
    record_partial_artifact-fails registry (at "a10") (at "a11") "run-1" "forecasts" mirror_failed
      appended run_1 run_1-appended refl fresh_failure refl
