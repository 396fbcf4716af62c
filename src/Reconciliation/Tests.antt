-- ===== src/Reconciliation/Tests.antt =====
-- Four artifacts, one of which is stored, and a mirror that keeps what is put.
use edgar_moe.Common.{
  Member, String, true, false, ◌≡◌, refl, some, List, [], ◌∷◌, All, string_eq, map, ◌==◌,
  if◌then◌else◌,
}
use edgar_moe.Common.Outcomes.{Outcome, returned, raised}
use edgar_moe.Common.Outcomes
use edgar_moe.Registry.Records.{ArtifactRecord, Database}
use edgar_moe.Registry.Reads.{list_artifacts}
use edgar_moe.Registry.Tests.{empty}
use edgar_moe.Artifacts.{Bytes, Key, Library, Store, Reference, ArtifactStore, find, read_bytes}
use edgar_moe.Reconciliation.{
  last_part, Code, Issue, Report, local_reference, verify, reconcile_each,
  reconcile_registry_artifacts, invalid_local_reference, missing_local_object,
  unsupported_primary_uri,
}
use edgar_moe.Reconciliation.Findings.{IsVerified}
use edgar_moe.Reconciliation.Reports.{IsCheck, reconcile_registry_artifacts-IsCheck}
use edgar_moe.Reconciliation.Repairs.{IsRepair, reconcile_registry_artifacts-IsRepair}

abbrev library : Library
library = record { sha256_hex = λ s. s; size = λ _. 3; base_name = λ s. s; takes = λ _. true }

abbrev key : Key
key = "sha256" ∷ "ab" ∷ "abc" ∷ "labels.json" ∷ []

-- The parts of the one safe key, and of every other text.
abbrev parts : String → List String
parts text =
    if text == "sha256/ab/abc/labels.json"
    then key
    else if text == "../up"
    then ".." ∷ "up" ∷ []
    else text ∷ []

abbrev local : Store
local = record { key = key; content = "abc" } ∷ []

abbrev artifact : (uri : String) → ArtifactRecord
artifact uri = record {
  artifact_id = uri;
  run_id = "run-1";
  kind = "labels";
  uri = uri;
  sha256 = "abc";
  size_bytes = 3;
  payload_hash = "h";
  created_at = 1;
}

abbrev db : Database
db = record empty {
  artifacts =
      artifact "local://sha256/ab/abc/labels.json"
      ∷ artifact "local://gone"
      ∷ artifact "local://../up"
      ∷ artifact "r2://bucket/key"
      ∷ [];
}

abbrev reference : Reference
reference = record { scheme = "r2"; sha256 = "abc"; size_bytes = 3; key = key }

abbrev mirror : ArtifactStore (List Bytes)
mirror = record {
  put = λ content name log. (returned reference, content ∷ log);
  read = λ r log. returned "";
}

unfoldable reconciliation_code : Unit {0}
unfolding list_artifacts read_bytes local_reference verify reconcile_each
    reconcile_registry_artifacts Outcomes.◌>>=◌
reconciliation_code = tt

abbrev outcome : Outcome (Unit {0}) (Report × List Bytes)
outcome = reconcile_registry_artifacts library parts local (some mirror) true db []

abbrev codes : Outcome (Unit {0}) (Report × List Bytes) → List Code
codes (raised e) = []
codes (returned (report, log)) = map (λ (i : Issue). i.code) report.issues

four_codes :
    codes outcome ≡ invalid_local_reference ∷ missing_local_object ∷ unsupported_primary_uri ∷ []
unfolding reconciliation_code
four_codes = refl

reconcile_registry_artifacts-IsCheck_example :
    IsCheck library parts local db []
      (reconcile_registry_artifacts library parts local (some mirror) false db [])
reconcile_registry_artifacts-IsCheck_example =
    reconcile_registry_artifacts-IsCheck library parts local (some mirror) db []

-- Every copy is the content of some object of the local store.
abbrev IsCopy : List Bytes → Type 0
IsCopy log = All (λ c. (k : Key) × (find k local ≡ some c)) log

put-IsCopy :
    (a : ArtifactRecord) (g : IsVerified library parts local a) (s : List Bytes)
    → Member a db.artifacts
    → IsCopy s
    → IsCopy (mirror.put g.content (last_part g.reference.key) s).1
put-IsCopy a g s among h = ((g.reference.key, g.stored), h)

reconcile_registry_artifacts-IsRepair_example :
    IsRepair library parts local mirror db IsCopy put-IsCopy outcome
reconcile_registry_artifacts-IsRepair_example =
    reconcile_registry_artifacts-IsRepair library parts local mirror db IsCopy put-IsCopy [] tt
