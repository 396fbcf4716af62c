-- ===== src/Workflow/Cycles.antt =====
-- How a whole cycle of src/edgar_moe/forward/workflow.py ends, whatever is raised on its way.
use edgar_moe.Common.{String, refl, inl, none}
use edgar_moe.Registry.Records.{Database, RunRecord, RunRegistration}
use edgar_moe.Registry.Session.{ForwardRegistry}
use edgar_moe.Registry.Runs.{start_run}
use edgar_moe.Registry.Untouched.{Untouched}
use edgar_moe.Registry.Lives.{start_run-Opened}
use edgar_moe.Workflow.{World, call}
use edgar_moe.Workflow.Checks.{Time, Dataset}
use edgar_moe.Workflow.Model.{
  FrozenModelSpec, ArtifactStore, Surroundings, Step, Occasion, WorkflowResult,
}
use edgar_moe.Workflow.Rules.{
  Leaves, Leaves-weaken, Leaves-bind, Leaves-attempt, Leaves-look, Leaves-catching, Leaves-call,
}
use edgar_moe.Workflow.Cycle.{forecast, settle, ensure_registrations}
use edgar_moe.Workflow.Registrations.{IsReserved, Quiet, ensure_registrations-Quiet}
use edgar_moe.Workflow.Ends.{
  Settled, Closes, Open, Done, forecast_body-Done, settle_body-Done, on_forecast_failure-Settled,
  on_settlement_failure-Settled,
}

module _ {S : Type 0} (around : Surroundings) (registry : ForwardRegistry)
    (artifact_store : ArtifactStore S) (spec : FrozenModelSpec) (given : Occasion)
    (dataset_dir : String) (as_of : Time) (code_revision : String) (w : World S)
    (reserved : IsReserved given w.database) where
  abbrev quiet : Untouched w.database (given.moment Step.fail).audit_id w.database
  quiet = record { runs = refl; fresh = reserved.fresh }

  abbrev E : Database → Type 0
  E = Settled w.database.runs

  abbrev R : WorkflowResult → Database → Type 0
  R = Done around registry artifact_store spec given w.database reserved

  abbrev I : Database → Type 0
  I = Quiet around registry artifact_store spec given w.database reserved

  abbrev O : RunRecord → Database → Type 0
  O = Open around registry artifact_store spec given w.database reserved

  registrations-Quiet :
      (dataset : Dataset)
      → Leaves
          (λ _. I)
          E
          (ensure_registrations around registry artifact_store spec given dataset dataset_dir w)
  registrations-Quiet dataset =
      Leaves-weaken (λ _. I) E (λ _. I) I
        (ensure_registrations around registry artifact_store spec given dataset dataset_dir w)
        (λ _ _ h. h) (λ db h. inl h.runs)
        (ensure_registrations-Quiet around registry artifact_store spec given w.database reserved
          dataset dataset_dir w quiet)

  start_run-Open :
      (registration : RunRegistration) (w1 : World S)
      → I w1.database
      → Leaves O E (
          call (start_run registry (given.moment Step.start) registration none given.new_run_id) w1)
  start_run-Open registration w1 h = Leaves-call O E _ w1 (inl h.runs) (
      start_run-Opened registry (given.moment Step.start) (given.moment Step.fail).audit_id
        (reserved.others Step.start (λ e. cc e)) registration none given.new_run_id w.database
        w1.database h)

  -- If the identifier of the failing transaction's audit event is neither stored nor used by
  -- another step, then a forecast cycle that returns has added exactly one run, which is the one it
  -- names and which succeeded; and a cycle that raises, wherever it does so, has added no run or
  -- exactly one, which failed. No earlier run is changed.
  pub forecast-Closes :
      Closes w.database.runs
        (forecast around registry artifact_store spec given dataset_dir as_of code_revision w)
  unfolding forecast
  forecast-Closes = Leaves-attempt R E _ _ w (inl refl) λ forecast_as_of.
      Leaves-attempt R E _ _ w (inl refl) λ now. Leaves-attempt R E _ _ w (inl refl) λ _.
        Leaves-attempt R E _ _ w (inl refl) λ dataset. Leaves-attempt R E _ _ w (inl refl) λ _.
          Leaves-bind R E (λ _. I) _ _ w (registrations-Quiet dataset)
            λ locked w1 h1. Leaves-look R E _ _ w1 (
              Leaves-bind R E O _ _ w1 (start_run-Open _ w1 h1) λ run w2 o.
                Leaves-catching R E (O run) _ _ w2
                  (forecast_body-Done around registry artifact_store spec given w.database reserved
                    run dataset locked forecast_as_of _ w2 o)
                  λ e w3 o3.
                    on_forecast_failure-Settled around registry artifact_store spec given w.database
                      reserved run e w3 o3)

  -- The same for a settlement cycle: if the identifier of the failing transaction's audit event is
  -- neither stored nor used by another step, then a cycle that returns has added exactly one run,
  -- which is the one it names and which succeeded; and one that raises has added no run or exactly
  -- one, which failed. No earlier run is changed.
  pub settle-Closes :
      Closes w.database.runs
        (settle around registry artifact_store spec given dataset_dir as_of code_revision w)
  unfolding settle
  settle-Closes = Leaves-attempt R E _ _ w (inl refl) λ settlement_as_of.
      Leaves-attempt R E _ _ w (inl refl) λ now. Leaves-attempt R E _ _ w (inl refl) λ _.
        Leaves-attempt R E _ _ w (inl refl) λ dataset. Leaves-attempt R E _ _ w (inl refl) λ _.
          Leaves-bind R E (λ _. I) _ _ w (registrations-Quiet dataset)
            λ locked w1 h1. Leaves-bind R E O _ _ w1 (start_run-Open _ w1 h1) λ run w2 o.
              Leaves-catching R E (O run) _ _ w2
                (settle_body-Done around registry artifact_store spec given w.database reserved run
                  dataset settlement_as_of w2 o)
                λ e w3 o3.
                  on_settlement_failure-Settled around registry artifact_store spec given w.database
                    reserved run e w3 o3
