-- ===== src/Workflow/Labels.antt =====
-- What the settlement of src/edgar_moe/forward/workflow.py leaves labelled.
use edgar_moe.Common.{
  string_eq, String, ◌≡◌, inl, inr, List, [], ◌∷◌, All, All-map, Member, subst, sym, some,
}
use edgar_moe.Common.Outcomes.{returned}
use edgar_moe.Registry.Records.{Instant, LabelDraft, ForecastRecord, Database}
use edgar_moe.Registry.Session.{ForwardRegistry, Session, Result, ok, err}
use edgar_moe.Registry.Rules.{Post, Post-weaken}
use edgar_moe.Registry.Reads.{pending_forecasts}
use edgar_moe.Registry.Reads.Pending.{pending_forecasts_iff}
use edgar_moe.Registry.Advance.{AdvancesFrom}
use edgar_moe.Registry.Advance.Methods.{register_artifact-Advances, complete_run-Advances}
use edgar_moe.Registry.Labelled.{
  HasLabel, HasLabel-LabelsGrow, AllLabelled, settle_labels-AllLabelled,
}
use edgar_moe.Workflow.{World, call, store_with}
use edgar_moe.Workflow.Checks.{Dataset}
use edgar_moe.Workflow.Matching.{labelled, match_forecast, match_all}
use edgar_moe.Workflow.Model.{
  FrozenModelSpec, Counts, Evidence, ArtifactStore, Surroundings, Step, Occasion, WorkflowResult,
}
use edgar_moe.Workflow.Targets.{
  HasTarget, match_forecast-HasTarget, match_forecast-same_forecast, match_all-labels,
}
use edgar_moe.Workflow.Rules.{
  Leaves, Leaves-give, Leaves-bind, Leaves-look, Leaves-call, Leaves-store_with, Leaves-weaken,
}
use edgar_moe.Workflow.Cycle.{finish, settle_body}

Post-any : {A : Type 0} (r : Result (A × Database)) → Post (λ _ _. Unit) r
Post-any (ok x) = tt
Post-any (err e) = tt

-- What holds of all holds of a member.
All-at : {A : Type 0} (P : A → Type 0) (xs : List A) {x : A} → All P xs → Member x xs → P x
All-at P [] a k = absurd k
All-at P (y ∷ ys) a (inl e) = subst P (sym e) a.0
All-at P (y ∷ ys) a (inr k) = All-at P ys a.1 k

module _ {S : Type 0} (around : Surroundings) (registry : ForwardRegistry)
    (artifact_store : ArtifactStore S) (spec : FrozenModelSpec) (given : Occasion)
    (run_id : String) where
  abbrev Nothing : Database → Type 0
  Nothing db = Unit

  -- A method that advances the database keeps the labels.
  AllLabelled-Advances :
      {A : Type 0} (ds : List LabelDraft) (m : Session A) (w : World S)
      → AllLabelled ds w.database
      → Post (AdvancesFrom w.database) (m w.database)
      → Leaves (λ _. AllLabelled ds) Nothing (call m w)
  AllLabelled-Advances ds m w h k =
      Leaves-call (λ _. AllLabelled ds) Nothing m w tt
        (Post-weaken (λ _. AllLabelled ds) (AdvancesFrom w.database) (m w.database)
          (λ _ db a.
            All-map _ _ (λ d l. HasLabel-LabelsGrow d.forecast_id w.database db a.grows.labels l) ds
              h)
          k)

  finish-AllLabelled :
      (ds : List LabelDraft) (kind logical_name : String) (evidence : Evidence) (counts : Counts)
      (w : World S)
      → AllLabelled ds w.database
      → Leaves
          (λ _. AllLabelled ds)
          Nothing
          (finish around registry artifact_store spec given run_id kind logical_name evidence counts
            w)
  unfolding finish
  finish-AllLabelled ds kind logical_name evidence counts w h =
      let put = artifact_store.put_bytes (around.json_bytes evidence) logical_name in
      Leaves-bind _ Nothing (λ _. AllLabelled ds) _ _ w
        (Leaves-weaken (λ _. AllLabelled ds) Nothing (λ _. AllLabelled ds) (AllLabelled ds)
          (store_with put w) (λ _ _ k. k) (λ _ _. tt) (Leaves-store_with (AllLabelled ds) put w h))
        λ reference w1 h1.
          Leaves-bind _ Nothing (λ _. AllLabelled ds) _ _ w1
            (AllLabelled-Advances ds _ w1 h1 (
              register_artifact-Advances registry (given.moment Step.artifact) w1.database run_id
                kind reference))
            λ _ w2 h2.
              Leaves-bind _ Nothing (λ _. AllLabelled ds) _ _ w2
                (AllLabelled-Advances ds _ w2 h2 (
                  complete_run-Advances registry (given.moment Step.complete) w2.database run_id
                    (around.counts_json counts)))
                λ _ w3 h3. Leaves-give _ Nothing _ w3 h3

  settle_body-AllLabelled :
      (dataset : Dataset) (as_of : Instant) (w : World S)
      → Leaves
          (λ _.
            AllLabelled
              (match_all dataset as_of
                (pending_forecasts as_of (some spec.model_id) w.database)).labels)
          Nothing
          (settle_body around registry artifact_store spec given run_id dataset as_of w)
  unfolding settle_body
  settle_body-AllLabelled dataset as_of w =
      let drafts =
        (match_all dataset as_of
          (pending_forecasts as_of (some spec.model_id) w.database)).labels in
      Leaves-look _ Nothing _ _ w (
        Leaves-bind _ Nothing (λ _ _. Unit) _ _ w
          (Leaves-call (λ _ _. Unit) Nothing _ w tt (Post-any _))
          λ quality_counts w1 _.
            Leaves-bind _ Nothing (λ _. AllLabelled drafts) _ _ w1
              (Leaves-call (λ _. AllLabelled drafts) Nothing _ w1 tt
                (settle_labels-AllLabelled registry (given.moment Step.rows) run_id drafts
                  w1.database))
              λ counts w2 h2. finish-AllLabelled drafts _ _ _ _ w2 h2)

  draft-labels :
      (dataset : Dataset) (as_of : Instant) (w w' : World S) (result : WorkflowResult)
      → settle_body around registry artifact_store spec given run_id dataset as_of w
        ≡ (returned result, w')
      → (item : ForecastRecord)
      → Member item (pending_forecasts as_of (some spec.model_id) w.database)
      → (d : LabelDraft) → match_forecast dataset as_of item ≡ labelled d
      → HasLabel item.forecast_id w'.database
  draft-labels dataset as_of w w' result e item k d h =
      let drafts =
        (match_all dataset as_of
          (pending_forecasts as_of (some spec.model_id) w.database)).labels in
      let all : AllLabelled drafts w'.database =
        subst (Leaves (λ _. AllLabelled drafts) Nothing) e
          (settle_body-AllLabelled dataset as_of w) in
      subst (λ f. HasLabel f w'.database) (match_forecast-same_forecast dataset as_of item d h)
        (All-at (λ (x : LabelDraft). HasLabel x.forecast_id w'.database) drafts all
          (match_all-labels dataset as_of _ item d k h))

  -- When the body of a settlement returns, every forecast that was pending, and whose event has a
  -- finite target and a horizon that is not after the settlement, has a label, and is not pending
  -- any more, at this time or at any other. The event is the last one of the dataset with the
  -- identifier.
  pub settle_body-labels :
      (dataset : Dataset) (as_of : Instant) (w w' : World S) (result : WorkflowResult)
      → settle_body around registry artifact_store spec given run_id dataset as_of w
        ≡ (returned result, w')
      → (item : ForecastRecord)
      → Member item (pending_forecasts as_of (some spec.model_id) w.database)
      → HasTarget dataset as_of item.event_id
      → HasLabel item.forecast_id w'.database
        × ((later : Instant)
            → ¬ Member item (pending_forecasts later (some spec.model_id) w'.database))
  settle_body-labels dataset as_of w w' result e item k target =
      let (d, matched) = match_forecast-HasTarget dataset as_of item target in
      let settled = draft-labels dataset as_of w w' result e item k d matched in
      (
        settled,
        λ later still_pending.
            ((pending_forecasts_iff later (some spec.model_id) w'.database item).0
                still_pending).unlabelled
              settled,
      )
