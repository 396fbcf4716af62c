-- ===== src/Workflow/Registrations.antt =====
-- What the registrations at the start of a cycle of src/edgar_moe/forward/workflow.py keep.
use edgar_moe.Common.{String, false, ◌≡◌, ◌≢◌, ◌==◌, string_eq, has}
use edgar_moe.Registry.Records.{Database}
use edgar_moe.Registry.Session.{ForwardRegistry}
use edgar_moe.Registry.Untouched.{
  event_id, Untouched, register_dataset-Untouched, register_model-Untouched,
}
use edgar_moe.Registry.Reads.{has_dataset}
use edgar_moe.Workflow.{World, give}
use edgar_moe.Workflow.Checks.{Dataset}
use edgar_moe.Workflow.Model.{FrozenModelSpec, ArtifactStore, Surroundings, Step, Occasion}
use edgar_moe.Workflow.Rules.{
  Leaves-keep, Leaves, Leaves-give, Leaves-bind, Leaves-attempt, Leaves-look, Leaves-store_with,
  Leaves-if,
}
use edgar_moe.Workflow.Cycle.{register_training, ensure_training_dataset, ensure_registrations}

-- The identifier of the failing transaction's audit event is not stored and no other step's.
pub record IsReserved (given : Occasion) (db : Database) : Type 0 where
  pub fresh : has event_id (given.moment Step.fail).audit_id db.audits ≡ false
  pub others :
      (step : Step)
      → step ≢ Step.fail
      → ((given.moment step).audit_id == (given.moment Step.fail).audit_id) ≡ false

module _ {S : Type 0} (around : Surroundings) (registry : ForwardRegistry)
    (artifact_store : ArtifactStore S) (spec : FrozenModelSpec) (given : Occasion) (db0 : Database)
    (reserved : IsReserved given db0) where
  abbrev pub Quiet : Database → Type 0
  Quiet = Untouched db0 (given.moment Step.fail).audit_id

  register_training-Quiet :
      (w : World S)
      → Quiet w.database
      → Leaves (λ _. Quiet) Quiet (register_training around registry artifact_store spec given w)
  unfolding register_training
  register_training-Quiet w h = Leaves-attempt _ _ _ _ w h λ _.
      Leaves-attempt _ _ _ _ w h λ dataset. Leaves-attempt _ _ _ _ w h λ registration.
        Leaves-bind _ _ (λ _. Quiet) _ _ w
          (Leaves-keep Quiet _ w h (
            register_dataset-Untouched registry (given.moment Step.training_dataset)
              (given.moment Step.fail).audit_id (reserved.others Step.training_dataset (λ e. cc e))
              db0 w.database h registration))
          λ _ w1 h1. Leaves-give _ _ tt w1 h1

  ensure_training_dataset-Quiet :
      (w : World S)
      → Quiet w.database
      → Leaves
          (λ _. Quiet)
          Quiet
          (ensure_training_dataset around registry artifact_store spec given w)
  unfolding ensure_training_dataset
  ensure_training_dataset-Quiet w h = Leaves-look _ _ _ _ w (
      Leaves-if (λ _. Quiet) Quiet (has_dataset spec.training_dataset_id w.database) (give tt)
        (register_training around registry artifact_store spec given) w
        (λ _. Leaves-give _ _ tt w h) λ _. register_training-Quiet w h)

  pub ensure_registrations-Quiet :
      (dataset : Dataset) (dataset_dir : String) (w : World S)
      → Quiet w.database
      → Leaves
          (λ _. Quiet)
          Quiet
          (ensure_registrations around registry artifact_store spec given dataset dataset_dir w)
  unfolding ensure_registrations
  ensure_registrations-Quiet dataset dataset_dir w h = Leaves-attempt _ _ _ _ w h λ locked.
      Leaves-bind _ _ (λ _. Quiet) _ _ w (ensure_training_dataset-Quiet w h)
        λ _ w1 h1. Leaves-attempt _ _ _ _ w1 h1 λ registration.
          Leaves-bind _ _ (λ _. Quiet) _ _ w1
            (Leaves-keep Quiet _ w1 h1 (
              register_dataset-Untouched registry (given.moment Step.dataset)
                (given.moment Step.fail).audit_id (reserved.others Step.dataset (λ e. cc e)) db0
                w1.database h1 registration))
            λ _ w2 h2.
              Leaves-bind _ _ (λ _. Quiet) _ _ w2 (Leaves-store_with Quiet _ w2 h2)
                λ reference w3 h3. Leaves-attempt _ _ _ _ w3 h3 λ _.
                  Leaves-attempt _ _ _ _ w3 h3 λ parameters.
                    Leaves-bind _ _ (λ _. Quiet) _ _ w3
                      (Leaves-keep Quiet _ w3 h3 (
                        register_model-Untouched registry (given.moment Step.model)
                          (given.moment Step.fail).audit_id (reserved.others Step.model (λ e. cc e))
                          db0 w3.database h3 _))
                      λ _ w4 h4. Leaves-give _ _ locked w4 h4
