-- ===== src/Registry/Advance/Methods.antt =====
-- Each method of the registry, when it returns, has advanced the database.
use edgar_moe.Common.{get-key, String, ◌≡◌, refl, sym, Option, some, string_eq, subst}
use edgar_moe.Registry.Records.{
  Json, DatasetRegistration, ModelRegistration, RunRegistration, ArtifactReference, RunRecord,
  Database,
}
use edgar_moe.Registry.Session.{Session, ◌>>=◌, ForwardRegistry, Moment, get_run}
use edgar_moe.Registry.Registrations.{register_dataset, register_model, register_artifact}
use edgar_moe.Registry.Runs.{start_run, complete_run, fail_run, add_run, update_run}
use edgar_moe.Registry.Growth.{RunStep}
use edgar_moe.Registry.Invariant.{Advances, Advances-refl}
use edgar_moe.Registry.Rules.{
  Post, Post-pure, Post-bind, Post-gets, Post-or_raise, Post-require, Post-if_existing,
}
use edgar_moe.Registry.Advance.{AdvancesFrom, with_run, with_outcome}
use edgar_moe.Registry.Advance.Parts.{
  add_dataset-Advances, add_model-Advances, add_artifact-Advances, Post-audited, Post-assert_same,
  Post-require_running_run, Post-require_optional_reference,
}

module _ (self : ForwardRegistry) (m : Moment) (db : Database) where
  pub register_dataset-Advances :
      (r : DatasetRegistration) → Post (AdvancesFrom db) (register_dataset self m r db)
  unfolding register_dataset
  register_dataset-Advances r = Post-gets _ _ _ db (
      Post-if_existing _ _ _ _ db
        (λ row found. Post-assert_same _ _ _ _ _ _ db λ same. Post-pure _ row db (Advances-refl db))
        (λ new.
          Post-bind _ _ _ _ db (add_dataset-Advances db _)
            λ _ db' h. Post-audited db db' self m _ _ _ _ _ h))

  pub register_model-Advances :
      (r : ModelRegistration) → Post (AdvancesFrom db) (register_model self m r db)
  unfolding register_model
  register_model-Advances r = Post-gets _ _ _ db (
      Post-or_raise _ _ _ _ db λ dataset known. Post-gets _ _ _ db (
        Post-if_existing _ _ _ _ db
          (λ row found.
            Post-assert_same _ _ _ _ _ _ db λ same. Post-pure _ row db (Advances-refl db))
          (λ new.
            Post-bind _ _ _ _ db (add_model-Advances db _ (dataset, known))
              λ _ db' h. Post-audited db db' self m _ _ _ _ _ h)))

  pub register_artifact-Advances :
      (run_id kind : String) (r : ArtifactReference)
      → Post (AdvancesFrom db) (register_artifact self m run_id kind r db)
  unfolding register_artifact
  register_artifact-Advances run_id kind r = Post-gets _ _ _ db (
      Post-or_raise _ _ _ _ db λ run known. Post-gets _ _ _ db (
        Post-if_existing _ _ _ _ db
          (λ row found.
            Post-assert_same _ _ _ _ _ _ db λ same. Post-pure _ row db (Advances-refl db))
          (λ new.
            Post-bind _ _ _ _ db (add_artifact-Advances db _ (run, known))
              λ _ db' h. Post-audited db db' self m _ _ _ _ _ h)))

  pub start_run-Advances :
      (r : RunRegistration) (run_id : Option String) (new_id : String)
      → Post (AdvancesFrom db) (start_run self m r run_id new_id db)
  unfolding start_run
  start_run-Advances r run_id new_id = Post-gets _ _ _ db (
      Post-require _ _ _ _ db λ fresh. Post-require_optional_reference _ _ _ _ _ db λ dataset.
        Post-require_optional_reference _ _ _ _ _ db λ model.
          Post-require_optional_reference _ _ _ _ _ db λ parent.
            Post-bind _ (AdvancesFrom db) (add_run _) _ db
              (with_run db _ (record { dataset = dataset; model = model; parent = parent }))
              λ _ db' h. Post-audited db db' self m _ _ _ _ _ h)

  -- A running run takes its outcome.
  outcome-Advances :
      {A : Type 0} (run row : RunRecord) (found : get_run db row.run_id ≡ some run)
      → RunStep run row
      → (f : Unit {0} → Session A)
      → ((db' : Database) → Advances db db' → Post (AdvancesFrom db) (f tt db'))
      → Post (AdvancesFrom db) ((update_run row >>= f) db)
  outcome-Advances run row found step f h =
      Post-bind _ (AdvancesFrom db) (update_run row) f db (with_outcome db row run found step)
        λ _ db' k. h db' k

  found_self :
      (run_id : String) (run : RunRecord)
      → get_run db run_id ≡ some run
      → get_run db run.run_id ≡ some run
  found_self run_id run found =
      let e = get-key (λ (r : RunRecord). r.run_id) run_id db.runs found in
      subst (λ k. get_run db k ≡ some run) (sym e) found

  pub complete_run-Advances :
      (run_id : String) (result_counts : Json)
      → Post (AdvancesFrom db) (complete_run self m run_id result_counts db)
  unfolding complete_run
  complete_run-Advances run_id result_counts =
      Post-require_running_run _ run_id _ db λ run found active.
        outcome-Advances run _ (found_self run_id run found)
          (record {
            same_id = refl;
            same_registration = refl;
            same_start = refl;
            settled = λ h. absurd (h active);
          })
          _ λ db' h. Post-audited db db' self m _ _ _ _ _ h

  pub fail_run-Advances :
      (run_id error_message : String)
      → Post (AdvancesFrom db) (fail_run self m run_id error_message db)
  unfolding fail_run
  fail_run-Advances run_id error_message =
      Post-require_running_run _ run_id _ db λ run found active.
        outcome-Advances run _ (found_self run_id run found)
          (record {
            same_id = refl;
            same_registration = refl;
            same_start = refl;
            settled = λ h. absurd (h active);
          })
          _ λ db' h. Post-audited db db' self m _ _ _ _ _ h
