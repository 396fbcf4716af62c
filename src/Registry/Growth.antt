-- ===== src/Registry/Growth.antt =====
-- How the database may change: evidence tables only grow at their ends, and a run keeps its place
-- and its identity columns and records its outcome once.
use edgar_moe.Common.{
  inl, inr, String, ◌≡◌, ◌≢◌, refl, sym, ◌∙◌, some, List, [], ◌∷◌, ◌++◌, ◌==◌, get, string_eq,
  Extends, Extends-refl, Extends-trans, Bool-cases, subst,
}
use edgar_moe.Registry.Records.{running, RunRecord, Database}
use edgar_moe.Registry.Runs.{replace_run}

pub record RunStep (old new : RunRecord) : Type 0 where
  pub same_id : new.run_id ≡ old.run_id
  pub same_registration : new.registration ≡ old.registration
  pub same_start : new.started_at ≡ old.started_at
  pub settled : old.status ≢ running → new ≡ old

pub RunStep-refl : (r : RunRecord) → RunStep r r
RunStep-refl r = record {
  same_id = refl;
  same_registration = refl;
  same_start = refl;
  settled = λ _. refl;
}

pub RunStep-trans : (x y z : RunRecord) → RunStep x y → RunStep y z → RunStep x z
RunStep-trans x y z p q = record {
  same_id = q.same_id ∙ p.same_id;
  same_registration = q.same_registration ∙ p.same_registration;
  same_start = q.same_start ∙ p.same_start;
  settled = λ h. let e = p.settled h in q.settled (subst (λ r. r.status ≢ running) (sym e) h) ∙ e;
}

-- Old runs keep their places; new ones stand behind them.
abbrev pub RunsGrow : List RunRecord → List RunRecord → Type 0
RunsGrow [] ys = Unit
RunsGrow (x ∷ xs) [] = ⊥
RunsGrow (x ∷ xs) (y ∷ ys) = RunStep x y × RunsGrow xs ys

pub RunsGrow-refl : (xs : List RunRecord) → RunsGrow xs xs
RunsGrow-refl [] = tt
RunsGrow-refl (x ∷ xs) = (RunStep-refl x, RunsGrow-refl xs)

pub RunsGrow-append : (xs ys : List RunRecord) → RunsGrow xs (xs ++ ys)
RunsGrow-append [] ys = tt
RunsGrow-append (x ∷ xs) ys = (RunStep-refl x, RunsGrow-append xs ys)

pub RunsGrow-trans : (xs ys zs : List RunRecord) → RunsGrow xs ys → RunsGrow ys zs → RunsGrow xs zs
RunsGrow-trans [] ys zs p q = tt
RunsGrow-trans (x ∷ xs) [] zs p q = absurd p
RunsGrow-trans (x ∷ xs) (y ∷ ys) [] p q = absurd q
RunsGrow-trans (x ∷ xs) (y ∷ ys) (z ∷ zs) p q =
    (RunStep-trans x y z p.0 q.0, RunsGrow-trans xs ys zs p.1 q.1)

pub RunsGrow-replace_run :
    (row old : RunRecord) (rs : List RunRecord)
    → get (λ r. r.run_id) row.run_id rs ≡ some old
    → RunStep old row
    → RunsGrow rs (replace_run row rs)
RunsGrow-replace_run row old [] h s = tt
RunsGrow-replace_run row old (r ∷ rs) h s = elim (Bool-cases (r.run_id == row.run_id)) [
  | inl found ↦
      let e : r ≡ old = cc (rw found at h) in
      rw found (subst (λ x. RunStep x row) (sym e) s, RunsGrow-refl rs)
  | inr other ↦ rw other (RunStep-refl r, RunsGrow-replace_run row old rs (rw other at h) s)
]

pub get-RunsGrow :
    (k : String) (xs ys : List RunRecord) (r : RunRecord)
    → RunsGrow xs ys
    → get (λ x. x.run_id) k xs ≡ some r
    → (r' : RunRecord) × (get (λ x. x.run_id) k ys ≡ some r') × RunStep r r'
get-RunsGrow k [] ys r g h = cc
get-RunsGrow k (x ∷ xs) [] r g h = absurd g
get-RunsGrow k (x ∷ xs) (y ∷ ys) r g h = elim (Bool-cases (x.run_id == k)) [
  | inl found ↦
      let e : x ≡ r = cc (rw found at h) in
      (y, rw (g.0.same_id, found), subst (λ z. RunStep z y) e g.0)
  | inr other ↦
      let (r', h', s) = get-RunsGrow k xs ys r g.1 (rw other at h) in
      (r', rw (g.0.same_id, other) h', s)
]

pub record Grows (old new : Database) : Type 0 where
  pub datasets : Extends old.datasets new.datasets
  pub models : Extends old.models new.models
  pub runs : RunsGrow old.runs new.runs
  pub forecasts : Extends old.forecasts new.forecasts
  pub labels : Extends old.labels new.labels
  pub artifacts : Extends old.artifacts new.artifacts
  pub checks : Extends old.checks new.checks
  pub audits : Extends old.audits new.audits

pub Grows-refl : (db : Database) → Grows db db
Grows-refl db = record {
  datasets = Extends-refl db.datasets;
  models = Extends-refl db.models;
  runs = RunsGrow-refl db.runs;
  forecasts = Extends-refl db.forecasts;
  labels = Extends-refl db.labels;
  artifacts = Extends-refl db.artifacts;
  checks = Extends-refl db.checks;
  audits = Extends-refl db.audits;
}

pub Grows-trans : (x y z : Database) → Grows x y → Grows y z → Grows x z
Grows-trans x y z p q = record {
  datasets = Extends-trans x.datasets p.datasets q.datasets;
  models = Extends-trans x.models p.models q.models;
  runs = RunsGrow-trans x.runs y.runs z.runs p.runs q.runs;
  forecasts = Extends-trans x.forecasts p.forecasts q.forecasts;
  labels = Extends-trans x.labels p.labels q.labels;
  artifacts = Extends-trans x.artifacts p.artifacts q.artifacts;
  checks = Extends-trans x.checks p.checks q.checks;
  audits = Extends-trans x.audits p.audits q.audits;
}
