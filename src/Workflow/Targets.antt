-- ===== src/Workflow/Targets.antt =====
-- Which pending forecasts the loop in `ForwardWorkflow.settle` of src/edgar_moe/forward/workflow.py
-- matches.
use edgar_moe.Common.{
  ◌≤◌, ◌≢◌, ◌++◌, ◌∙◌, ◌==◌, ap, string_eq, Option-cases, ℕ, String, Option, ◌≡◌, refl, inl, inr,
  List, [], ◌∷◌, All, Member, subst, sym, none, some, Bool-cases, ltb, false, arith,
}
use edgar_moe.Registry.Records.{Instant, Number, LabelDraft, ForecastRecord}
use edgar_moe.Workflow.Checks.{Dataset, Event}
use edgar_moe.Workflow.Matching.{
  Matched, unmatched, deferred, labelled, match_forecast, match_event, match_target, Matches,
  add_match, match_all, event_at,
}

-- The last event of the dataset with the identifier has a finite target, and its horizon is not
-- after the settlement.
pub record HasTarget (dataset : Dataset) (as_of : Instant) (event_id : String) : Type 0 where
  pub before : List Event
  pub event : Event
  pub after : List Event
  pub target : Number
  pub placed : dataset.events ≡ before ++ event ∷ after
  pub named : event.event_id ≡ event_id
  pub last : All (λ (e : Event). e.event_id ≢ event_id) after
  pub finite : event.target ≡ some target
  pub due : event.horizon_at ≤ as_of

event_at-absent :
    (event_id : String) (es : List Event)
    → All (λ (e : Event). e.event_id ≢ event_id) es
    → event_at event_id es ≡ none
event_at-absent event_id [] h = refl
event_at-absent event_id (e ∷ es) h = elim (Bool-cases (e.event_id == event_id)) [
  | inl same ↦ absurd (h.0 ((string_eq.same_iff e.event_id event_id).0 same))
  | inr other ↦ rw (event_at-absent event_id es h.1, other) refl
]

event_at-last :
    (event_id : String) (before : List Event) (event : Event) (after : List Event)
    → event.event_id ≡ event_id
    → All (λ (e : Event). e.event_id ≢ event_id) after
    → event_at event_id (before ++ event ∷ after) ≡ some event
event_at-last event_id [] event after named last =
    rw (event_at-absent event_id after last, (string_eq.same_iff event.event_id event_id).1 named)
      refl
event_at-last event_id (e ∷ before) event after named last =
    rw (event_at-last event_id before event after named last) refl

not_after : (a b : ℕ) → b ≤ a → ltb a b ≡ false
not_after a b h = ground arith

labelled_self : {a d : LabelDraft} → labelled a ≡ labelled d → a ≡ d
labelled_self h = cc h

module _ (dataset : Dataset) (as_of : Instant) where
  match_target-HasTarget :
      (item : ForecastRecord) (event : Event) (target : Number)
      → event.horizon_at ≤ as_of
      → (d : LabelDraft) × (match_target dataset as_of item event (some target) ≡ labelled d)
  match_target-HasTarget item event target due = (
    record {
      forecast_id = item.forecast_id;
      source_dataset_id = dataset.dataset_id;
      realized_abnormal_return = target;
      matured_at = event.horizon_at;
    },
    rw (not_after as_of event.horizon_at due) refl,
  )

  pub match_forecast-HasTarget :
      (item : ForecastRecord)
      → HasTarget dataset as_of item.event_id
      → (d : LabelDraft) × (match_forecast dataset as_of item ≡ labelled d)
  match_forecast-HasTarget item h =
      let (d, matched) = match_target-HasTarget item h.event h.target h.due in
      (
        d,
        ap (λ es. match_event dataset as_of item (event_at item.event_id es)) h.placed
            ∙ ap (match_event dataset as_of item)
                (event_at-last item.event_id h.before h.event h.after h.named h.last)
            ∙ ap (match_target dataset as_of item h.event) h.finite
            ∙ matched,
      )

  -- The draft of a matched forecast is for that forecast.
  match_target-same_forecast :
      (item : ForecastRecord) (event : Event) (target : Option Number) (d : LabelDraft)
      → match_target dataset as_of item event target ≡ labelled d
      → d.forecast_id ≡ item.forecast_id
  match_target-same_forecast item event none d h = cc h
  match_target-same_forecast item event (some target) d h =
      elim (Bool-cases (ltb as_of event.horizon_at)) [
        | inl late ↦ cc (rw late at h)
        | inr due ↦
            subst (λ (x : LabelDraft). x.forecast_id ≡ item.forecast_id)
              (labelled_self (rw due at h)) refl
      ]

  pub match_forecast-same_forecast :
      (item : ForecastRecord) (d : LabelDraft)
      → match_forecast dataset as_of item ≡ labelled d
      → d.forecast_id ≡ item.forecast_id
  match_forecast-same_forecast item d h =
      elim (Option-cases (event_at item.event_id dataset.events)) [
        | inl absent ↦ cc (rw absent at h)
        | inr (event, found) ↦ match_target-same_forecast item event event.target d (rw found at h)
      ]

  match-labels :
      (x : ForecastRecord) (r : Matched) (m : Matches) (d : LabelDraft)
      → Member d m.labels
      → Member d (add_match x r m).labels
  match-labels x unmatched m d k = k
  match-labels x deferred m d k = k
  match-labels x (labelled e) m d k = inr k

  -- Every matched forecast gives one of the drafts.
  pub match_all-labels :
      (items : List ForecastRecord) (item : ForecastRecord) (d : LabelDraft)
      → Member item items
      → match_forecast dataset as_of item ≡ labelled d
      → Member d (match_all dataset as_of items).labels
  match_all-labels [] item d k h = absurd k
  match_all-labels (x ∷ xs) item d (inl e) h =
      let e' : match_forecast dataset as_of x ≡ labelled d =
        subst (λ i. match_forecast dataset as_of i ≡ labelled d) e h in
      subst (λ r. Member d (add_match x r (match_all dataset as_of xs)).labels) (sym e') (inl refl)
  match_all-labels (x ∷ xs) item d (inr k) h =
      match-labels x (match_forecast dataset as_of x) _ d (match_all-labels xs item d k h)
