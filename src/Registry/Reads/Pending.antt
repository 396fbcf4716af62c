-- ===== src/Registry/Reads/Pending.antt =====
-- `pending_forecasts` of src/edgar_moe/forward/registry.py gives what its query asks for.
use edgar_moe.Common.{
  ◌≢◌, ◌==◌, string_eq, Bool-cases, inl, inr, ℕ, String, Bool, true, false, not, ◌&&◌, ◌≡◌, ◌↔◌,
  refl, Option, none, some, Member, leb, ltb, ◌≤◌, arith, ◌||◌,
}
use edgar_moe.Registry.Records.{Instant, ForecastRecord, Database}
use edgar_moe.Registry.Status.{is_present, id_before}
use edgar_moe.Registry.Labelled.{HasLabel}
use edgar_moe.Registry.Reads.{
  matches, label_of, is_pending, due_before, where_rows, pending_forecasts,
}
use edgar_moe.Registry.Reads.Order.{
  from-where_rows, into-where_rows, from-order_by, into-order_by, IsSortedBy, order_by-IsSortedBy,
}

-- A model that is named by no text, or by the empty one, is not asked for.
pub OfModel : Option String → String → Type 0
OfModel none model_id = Unit
OfModel (some wanted) model_id = wanted ≢ "" → model_id ≡ wanted

-- A forecast that is stored, has matured, is not labelled and is the model's.
pub record IsDue (as_of : Instant) (model_id : Option String) (db : Database) (r : ForecastRecord)
    : Type 0 where
  pub stored : Member r db.forecasts
  pub mature : r.horizon_at ≤ as_of
  pub unlabelled : ¬ HasLabel r.forecast_id db
  pub of_model : OfModel model_id r.model_id

three : (a b c : Bool) → (a && (b && c)) ≡ true → (a ≡ true) × (b ≡ true) × (c ≡ true)
three a b c h = ground arith

three_back : (a b c : Bool) → a ≡ true → b ≡ true → c ≡ true → (a && (b && c)) ≡ true
three_back a b c ha hb hc = rw (ha, hb, hc) refl

le_iff : (a b : ℕ) → (leb a b ≡ true) ↔ (a ≤ b)
le_iff a b = ground arith

absent_iff : {A : Type 0} (o : Option A) → (not (is_present o) ≡ true) ↔ ¬ ((a : A) × (o ≡ some a))
absent_iff none = (λ _ (a, e). cc e, λ _. refl)
absent_iff (some a) = (λ h. cc h, λ h. absurd (h (a, refl)))

matches_iff : (m : Option String) (value : String) → (matches m value ≡ true) ↔ OfModel m value
unfolding OfModel
matches_iff none value = (λ _. tt, λ _. refl)
matches_iff (some wanted) value = elim (Bool-cases (wanted == "")) [
  | inl empty ↦
      rw empty (λ _ named. absurd (named ((string_eq.same_iff wanted "").0 empty)), λ _. refl)
  | inr named ↦ rw named (
    λ h _. (string_eq.same_iff value wanted).0 h,
    λ h.
        (string_eq.same_iff value wanted).1 (h λ e. cc ((string_eq.same_iff wanted "").1 e, named)),
  )
]

abbrev pub horizon : ForecastRecord → ℕ
horizon r = r.horizon_at

module _ (as_of : Instant) (model_id : Option String) (db : Database) where
  -- The rows are exactly the stored forecasts that have matured by then, have no label and belong
  -- to the model, when one is named.
  pub pending_forecasts_iff :
      (r : ForecastRecord)
      → Member r (pending_forecasts as_of model_id db) ↔ IsDue as_of model_id db r
  unfolding pending_forecasts
  pending_forecasts_iff r = (
    λ k.
        let (stored, test) =
          from-where_rows (is_pending as_of model_id db) r db.forecasts
            (from-order_by due_before r _ k) in
        let (mature, absent, same) = three _ _ _ test in
        record {
          stored = stored;
          mature = (le_iff r.horizon_at as_of).0 mature;
          unlabelled = (absent_iff (label_of db r.forecast_id)).0 absent;
          of_model = (matches_iff model_id r.model_id).0 same;
        },
    λ d. into-order_by due_before r _ (
        into-where_rows (is_pending as_of model_id db) r db.forecasts d.stored (
          three_back _ _ _ ((le_iff r.horizon_at as_of).1 d.mature)
            ((absent_iff (label_of db r.forecast_id)).1 d.unlabelled)
            ((matches_iff model_id r.model_id).1 d.of_model))),
  )

  due_up : (x y : ForecastRecord) → due_before x y ≡ true → horizon x ≤ horizon y
  due_up x y h = up x.horizon_at y.horizon_at (id_before x.forecast_id y.forecast_id) h
    where
      up : (a b : ℕ) (t : Bool) → (ltb a b || (leb a b && t)) ≡ true → a ≤ b
      up a b t h = ground arith

  due_down : (x y : ForecastRecord) → due_before x y ≡ false → horizon y ≤ horizon x
  due_down x y h = down x.horizon_at y.horizon_at (id_before x.forecast_id y.forecast_id) h
    where
      down : (a b : ℕ) (t : Bool) → (ltb a b || (leb a b && t)) ≡ false → b ≤ a
      down a b t h = ground arith

  -- They come in the order in which they matured.
  pub pending_forecasts-IsSortedBy : IsSortedBy horizon (pending_forecasts as_of model_id db)
  unfolding pending_forecasts
  pending_forecasts-IsSortedBy =
      order_by-IsSortedBy due_before horizon due_up due_down
        (where_rows (is_pending as_of model_id db) db.forecasts)
