-- ===== src/Registry/Registrations.antt =====
-- `register_dataset`, `register_model` and `register_artifact` of
-- src/edgar_moe/forward/registry.py, with the constraints of their tables.
use edgar_moe.Common.{
  String, Bool, false, ◌&&◌, ◌||◌, List, [], ◌∷◌, ◌++◌, if◌then◌else◌, ◌==◌, get, has, string_eq,
}
use edgar_moe.Registry.Records.{
  DatasetRegistration, ModelRegistration, ArtifactReference, DatasetRecord, RegisteredModel,
  ArtifactRecord,
}
use edgar_moe.Registry.Session.{
  ok, err, Session, pure, gets, or_raise, ◌>>=◌, ◌>>◌, if_existing, Payload, manifest, model_hashes,
  artifact_ref, training_dataset_missing, run_missing, integrity, ForwardRegistry, Moment,
  payload_hash, stable_id, assert_same, get_dataset, get_model, get_run, audit,
}

-- `manifest_sha256` is unique.
abbrev pub add_dataset : DatasetRecord → Session (Unit {0})
add_dataset row db =
    if has (λ r. r.manifest_sha256) row.manifest_sha256 db.datasets
    then err (integrity "forward_datasets")
    else ok (tt, record db { datasets = db.datasets ++ row ∷ [] })

abbrev same_identity : RegisteredModel → List RegisteredModel → Bool
same_identity row [] = false
same_identity row (r ∷ rs) =
    (r.selection_hash == row.selection_hash && r.artifact_sha256 == row.artifact_sha256)
    || same_identity row rs

-- The pair of `selection_hash` and `artifact_sha256` is unique.
abbrev pub add_model : RegisteredModel → Session (Unit {0})
add_model row db =
    if same_identity row db.models
    then err (integrity "forward_models")
    else ok (tt, record db { models = db.models ++ row ∷ [] })

abbrev same_artifact : ArtifactRecord → List ArtifactRecord → Bool
same_artifact row [] = false
same_artifact row (r ∷ rs) =
    (r.run_id == row.run_id && r.kind == row.kind && r.sha256 == row.sha256) || same_artifact row rs

-- The triple of `run_id`, `kind` and `sha256` is unique.
abbrev pub add_artifact : ArtifactRecord → Session (Unit {0})
add_artifact row db =
    if same_artifact row db.artifacts
    then err (integrity "forward_artifacts")
    else ok (tt, record db { artifacts = db.artifacts ++ row ∷ [] })

module _ (self : ForwardRegistry) (m : Moment) where
  unfoldable pub register_dataset : DatasetRegistration → Session DatasetRecord
  register_dataset registration = do
    let hash = payload_hash self.library (Payload.dataset registration)
    existing ← gets (λ db. get_dataset db registration.dataset_id)
    if_existing existing
        (λ row. do assert_same row.payload_hash hash "dataset" registration.dataset_id; pure row)
        (do
          let row : DatasetRecord = record {
            registration = registration;
            payload_hash = hash;
            created_at = m.now;
          }
          add_dataset row
          audit self m "dataset.registered" "dataset" registration.dataset_id
              (manifest registration.manifest_sha256)
          pure row)

  unfoldable pub register_model : ModelRegistration → Session RegisteredModel
  register_model registration = do
    let hash = payload_hash self.library (Payload.model registration)
    or_raise (← gets (λ db. get_dataset db registration.training_dataset_id))
        (training_dataset_missing registration.training_dataset_id)
    existing ← gets (λ db. get_model db registration.model_id)
    if_existing existing
        (λ row. do assert_same row.payload_hash hash "model" registration.model_id; pure row)
        (do
          let row : RegisteredModel = record {
            registration = registration;
            payload_hash = hash;
            created_at = m.now;
          }
          add_model row
          audit self m "model.registered" "model" registration.model_id
              (model_hashes registration.selection_hash registration.artifact_sha256)
          pure row)

  unfoldable pub register_artifact : String → String → ArtifactReference → Session ArtifactRecord
  register_artifact run_id kind reference = do
    let hash =
        payload_hash self.library
          (Payload.artifact run_id kind reference.uri reference.sha256 reference.size_bytes)
    let artifact_id = stable_id self.library "artifact" (run_id ∷ kind ∷ reference.sha256 ∷ [])
    or_raise (← gets (λ db. get_run db run_id)) (run_missing run_id)
    existing ← gets (λ db. get (λ r. r.artifact_id) artifact_id db.artifacts)
    if_existing existing
        (λ row. do assert_same row.payload_hash hash "artifact" artifact_id; pure row)
        (do
          let row : ArtifactRecord = record {
            artifact_id = artifact_id;
            run_id = run_id;
            kind = kind;
            uri = reference.uri;
            sha256 = reference.sha256;
            size_bytes = reference.size_bytes;
            payload_hash = hash;
            created_at = m.now;
          }
          add_artifact row
          audit self m "artifact.registered" "artifact" artifact_id
              (artifact_ref run_id kind reference.sha256)
          pure row)
