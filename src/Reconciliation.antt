-- ===== src/Reconciliation.antt =====
-- src/edgar_moe/forward/reconciliation.py: the objects that the registry refers to are read back from
-- the local store and, on request, copied to the mirror.
pub mod Findings
pub mod Reports
pub mod Repairs
mod Tests
use edgar_moe.Common.{
  ℕ, ◌+◌, String, Bool, true, false, not, ◌&&◌, ◌||◌, Option, none, some, List, [], ◌∷◌,
  if◌then◌else◌, ◌==◌, string_eq, nat_eq, length,
}
use Prim.Native.String
use edgar_moe.Common.Outcomes.{Outcome, returned, raised, ◌>>=◌, ◌>>◌}
use edgar_moe.Registry.Records.{ArtifactRecord, Database}
use edgar_moe.Registry.Reads.{list_artifacts}
use edgar_moe.Artifacts.{
  Bytes, StoreError, Library, Store, Reference, ArtifactStore, read_bytes, are_equivalent,
}

pub data Code : Type 0 where
  unsupported_primary_uri invalid_local_reference missing_local_object : Code
  invalid_local_object size_mismatch mirror_write_failed mirror_identity_mismatch : Code

-- `_issue`
pub record Issue : Type 0 where
  pub artifact_id : String
  pub run_id : String
  pub kind : String
  pub code : Code
  pub sha256 : String
  pub size_bytes : ℕ

abbrev pub issue : ArtifactRecord → Code → Issue
issue artifact code = record {
  artifact_id = artifact.artifact_id;
  run_id = artifact.run_id;
  kind = artifact.kind;
  code = code;
  sha256 = artifact.sha256;
  size_bytes = artifact.size_bytes;
}

-- `text.removeprefix(prefix)`, when the text starts with the prefix.
abbrev pub without_prefix : (prefix text : String) → Option String
without_prefix String.[] text = some text
without_prefix (String.◌∷◌ c cs) String.[] = none
without_prefix (String.◌∷◌ c cs) (String.◌∷◌ d ds) =
    let rest = without_prefix cs ds in
    if String.◌∷◌ c String.[] == String.◌∷◌ d String.[] then rest else none

abbrev has_part : String → List String → Bool
has_part part [] = false
has_part part (p ∷ ps) = (p == part) || has_part part ps

abbrev starts_with : (prefix text : String) → Bool
starts_with prefix text = elim (without_prefix prefix text) [ none ↦ false | some _ ↦ true ]

-- A key that is empty, absolute, or leaves the store.
abbrev pub is_unsafe : (key : String) → (parts : List String) → Bool
is_unsafe key parts = key == "" || (starts_with "/" key || has_part ".." parts)

-- `_local_reference`. The parts are those of `PurePosixPath`.
unfoldable pub local_reference :
    (parts : String → List String) → ArtifactRecord → Outcome Code Reference
local_reference parts artifact = elim (without_prefix "local://" artifact.uri) [
  | none ↦ raised unsupported_primary_uri
  | some key ↦
      if is_unsafe key (parts key)
      then raised invalid_local_reference
      else returned (record {
        scheme = "local";
        sha256 = artifact.sha256;
        size_bytes = artifact.size_bytes;
        key = parts key;
      })
]

-- The code of an issue for an error of the local store.
abbrev read_code : StoreError → Code
read_code StoreError.file_not_found = missing_local_object
read_code _ = invalid_local_object

-- What is copied, under which name.
pub record Verified : Type 0 where
  pub reference : Reference
  pub content : Bytes

module _ (lib : Library) (parts : String → List String) where
  abbrev pub sized : ArtifactRecord → Reference → Bytes → Outcome Code Verified
  sized artifact reference content =
      if lib.size content == artifact.size_bytes
      then returned (record { reference = reference; content = content })
      else raised size_mismatch

  abbrev pub read_back :
      ArtifactRecord → Reference → Outcome StoreError Bytes → Outcome Code Verified
  read_back artifact reference (raised e) = raised (read_code e)
  read_back artifact reference (returned content) = sized artifact reference content

  abbrev pub verify_reference :
      Store → ArtifactRecord → Outcome Code Reference → Outcome Code Verified
  verify_reference store artifact (raised code) = raised code
  verify_reference store artifact (returned reference) =
      read_back artifact reference (read_bytes lib reference store)

  -- The part of the loop's body before the repair.
  unfoldable pub verify : Store → ArtifactRecord → Outcome Code Verified
  verify store artifact = verify_reference store artifact (local_reference parts artifact)

-- What one record adds to the report. A verified object may still fail to be copied.
pub data Entry : Type 0 where
  unverified : Code → Entry
  verified : Entry
  not_mirrored : Code → Entry
  mirrored : Entry

pub record Tally : Type 0 where
  pub issues : List Issue
  pub verified_count : ℕ
  pub mirrored_count : ℕ

abbrev pub add_entry : ArtifactRecord → Entry → Tally → Tally
add_entry artifact (unverified code) t = record t { issues = issue artifact code ∷ t.issues }
add_entry artifact verified t = record t { verified_count = t.verified_count + 1 }
add_entry artifact (not_mirrored code) t = record t {
  issues = issue artifact code ∷ t.issues;
  verified_count = t.verified_count + 1;
}
add_entry artifact mirrored t = record t {
  verified_count = t.verified_count + 1;
  mirrored_count = t.mirrored_count + 1;
}

-- `PurePosixPath(key).name`
abbrev pub last_part : List String → String
last_part [] = ""
last_part (p ∷ []) = p
last_part (p ∷ q ∷ ps) = last_part (q ∷ ps)

abbrev pub copied : Reference → Outcome String Reference → Entry
copied reference (raised error_type) = not_mirrored mirror_write_failed
copied reference (returned copy) =
    if are_equivalent reference copy then mirrored else not_mirrored mirror_identity_mismatch

module _ {S : Type 0} where
  -- `repair` with a mirror, or nothing to do.
  abbrev pub mirror_entry : Option (ArtifactStore S) → Outcome Code Verified → S → Entry × S
  mirror_entry target (raised code) s = (unverified code, s)
  mirror_entry none (returned v) s = (verified, s)
  mirror_entry (some mirror) (returned v) s =
      let (answer, s') = mirror.put v.content (last_part v.reference.key) s in
      (copied v.reference answer, s')

module _ (lib : Library) (parts : String → List String) (local : Store) {S : Type 0} where
  -- `for record in artifacts`; the mirror is there when a repair was asked for.
  unfoldable pub reconcile_each : Option (ArtifactStore S) → List ArtifactRecord → S → Tally × S
  reconcile_each target [] s = (record { issues = []; verified_count = 0; mirrored_count = 0 }, s)
  reconcile_each target (artifact ∷ artifacts) s =
      let (entry, s') = mirror_entry target (verify lib parts local artifact) s in
      let (tally, s'') = reconcile_each target artifacts s' in (add_entry artifact entry tally, s'')

pub record Report : Type 0 where
  pub has_passed : Bool
  pub repair_requested : Bool
  pub expected_artifacts : ℕ
  pub verified_artifacts : ℕ
  pub mirrored_artifacts : ℕ
  pub issues : List Issue

abbrev pub no_issues : List Issue → Bool
no_issues [] = true
no_issues (i ∷ is) = false

abbrev pub report_of : Bool → List ArtifactRecord → Tally → Report
report_of repair artifacts t = record {
  has_passed = no_issues t.issues;
  repair_requested = repair;
  expected_artifacts = length artifacts;
  verified_artifacts = t.verified_count;
  mirrored_artifacts = t.mirrored_count;
  issues = t.issues;
}

-- A repair wants a mirror, which is left alone when no repair is asked for.
abbrev pub target_of :
    {S : Type 0} → Bool → Option (ArtifactStore S) → Outcome (Unit {0}) (Option (ArtifactStore S))
target_of false mirror = returned none
target_of true none = raised tt
target_of true (some mirror) = returned (some mirror)

module _ (lib : Library) (parts : String → List String) (local : Store) {S : Type 0} where
  -- The registry is only read. The one error is of a repair without a mirror.
  unfoldable pub reconcile_registry_artifacts :
      Option (ArtifactStore S) → (repair : Bool) → Database → S → Outcome (Unit {0}) (Report × S)
  reconcile_registry_artifacts mirror repair db s = do
    target ← target_of repair mirror
    artifacts ← list_artifacts none db
    let (tally, s') = reconcile_each lib parts local target artifacts s
    returned (report_of repair artifacts tally, s')
