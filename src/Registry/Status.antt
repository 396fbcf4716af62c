-- ===== src/Registry/Status.antt =====
-- `ForwardRegistry.status` and `_latest_cycle_forecast` of src/edgar_moe/forward/registry.py. Where
-- an ordering leaves two rows equal, the one that was inserted first is taken.
use edgar_moe.Common.{
  ℕ, zero, suc, ◌+◌, ◌-◌, ◌/◌, ◌%◌, String, Bool, true, false, ◌&&◌, ◌||◌, Option, none, some, List,
  [], ◌∷◌, if◌then◌else◌, ◌==◌, ltb, leb, string_eq, length,
}
use Prim.Native.String.{compare}
use Prim.Native.Nat.{Ordering}
use edgar_moe.Registry.Records.{
  Instant, CheckStatus, RunType, RunStatus, run_type_eq, run_status_eq, RunRecord,
  DataQualityRecord, Database,
}

pub data Health : Type 0 where
  ok warning degraded : Health

-- What `status` returns, less its message and the constant `configured`.
pub record Status : Type 0 where
  pub model_count : ℕ
  pub run_count : ℕ
  pub forecast_count : ℕ
  pub matured_count : ℕ
  pub health_status : Health
  pub latest_successful_run_at : Option Instant
  pub latest_run_at : Option Instant
  pub latest_run_status : Option RunStatus
  pub latest_cycle_forecast_status : Option RunStatus
  pub latest_failed_run_at : Option Instant
  pub age_seconds : Option ℕ
  pub stale_after_seconds : ℕ
  pub running_run_count : ℕ
  pub pending_count : ℕ
  pub latest_quality_warnings : ℕ
  pub latest_quality_warning_names : List String
  pub latest_quality_failures : ℕ

-- `.order_by(….desc()).limit(1)`: the first row that no other row is behind.
abbrev pub last_by : (RunRecord → RunRecord → Bool) → List RunRecord → Option RunRecord
last_by before [] = none
last_by before (r ∷ rs) = elim (last_by before rs) [
  | none ↦ some r
  | some best ↦ if before r best then some best else some r
]

abbrev pub where_run : (RunRecord → Bool) → List RunRecord → List RunRecord
where_run test [] = []
where_run test (r ∷ rs) = if test r then r ∷ where_run test rs else where_run test rs

-- An absent time comes before every other, as SQLite orders NULL; PostgreSQL puts it behind.
abbrev finish_time : RunRecord → ℕ
finish_time r = elim r.finished_at [ none ↦ zero | some t ↦ suc t ]

abbrev finished_before : RunRecord → RunRecord → Bool
finished_before a b = ltb (finish_time a) (finish_time b)

abbrev pub id_before : String → String → Bool
id_before a b = elim (compare a b) [ Ordering.lt ↦ true | _ ↦ false ]

abbrev started_before : RunRecord → RunRecord → Bool
started_before a b =
    ltb a.started_at b.started_at || (leb a.started_at b.started_at && id_before a.run_id b.run_id)

abbrev pub last_with : RunStatus → List RunRecord → Option RunRecord
last_with status rs = last_by finished_before (where_run (λ r. r.status == status) rs)

abbrev pub latest_run : List RunRecord → Option RunRecord
latest_run rs = last_by started_before rs

abbrev day : ℕ
day = 86400000000

abbrev same_reference : Option String → Option String → Bool
same_reference (some a) (some b) = a == b
same_reference _ _ = false

abbrev pub is_present {ℓ} : {A : Type ℓ} → Option A → Bool
is_present none = false
is_present (some a) = true

-- The forecast runs of the settlement's day, with its dataset and model, that were started by then.
abbrev pub in_cycle : RunRecord → RunRecord → Bool
in_cycle latest r =
    let start = latest.as_of - latest.as_of % day in
    r.run_type == RunType.forecast
    && (same_reference r.dataset_id latest.dataset_id
        && (same_reference r.model_id latest.model_id
            && (leb start r.as_of
                && (ltb r.as_of (start + day) && leb r.started_at latest.started_at))))

abbrev pub latest_cycle_forecast : List RunRecord → Option RunRecord → Option RunRecord
latest_cycle_forecast rs none = none
latest_cycle_forecast rs (some latest) =
    if latest.run_type == RunType.forecast
    then some latest
    else if latest.run_type == RunType.settlement
        && (is_present latest.dataset_id && is_present latest.model_id)
    then last_by started_before (where_run (in_cycle latest) rs)
    else none

-- `quality_by_name`, a dictionary in the order of its keys' first assignments.
abbrev assign : String → CheckStatus → List (String × CheckStatus) → List (String × CheckStatus)
assign name status [] = (name, status) ∷ []
assign name status ((n, s) ∷ rest) =
    if n == name then (n, status) ∷ rest else (n, s) ∷ assign name status rest

abbrev assign_checks :
    String → List DataQualityRecord → List (String × CheckStatus) → List (String × CheckStatus)
assign_checks run_id [] checks = checks
assign_checks run_id (c ∷ cs) checks =
    if c.run_id == run_id
    then assign_checks run_id cs (assign c.name c.status checks)
    else assign_checks run_id cs checks

-- The runs whose checks count, the latest one last and each once.
abbrev pub quality_runs : Option RunRecord → Option RunRecord → List RunRecord
quality_runs none none = []
quality_runs none (some r) = r ∷ []
quality_runs (some f) none = f ∷ []
quality_runs (some f) (some r) = if f.run_id == r.run_id then f ∷ [] else f ∷ r ∷ []

abbrev pub quality_by_name : List RunRecord → List DataQualityRecord → List (String × CheckStatus)
quality_by_name [] cs = []
quality_by_name (r ∷ []) cs = assign_checks r.run_id cs []
quality_by_name (f ∷ r ∷ _) cs = assign_checks r.run_id cs (assign_checks f.run_id cs [])

abbrev pub same_check : CheckStatus → CheckStatus → Bool
same_check CheckStatus.passed CheckStatus.passed = true
same_check CheckStatus.warning CheckStatus.warning = true
same_check CheckStatus.failed CheckStatus.failed = true
same_check _ _ = false

abbrev pub names_with : CheckStatus → List (String × CheckStatus) → List String
names_with status [] = []
names_with status ((n, s) ∷ rest) =
    if same_check s status then n ∷ names_with status rest else names_with status rest

-- `sorted`
abbrev pub insert_sorted : String → List String → List String
insert_sorted x [] = x ∷ []
insert_sorted x (y ∷ ys) = if id_before y x then y ∷ insert_sorted x ys else x ∷ y ∷ ys

abbrev pub sorted : List String → List String
sorted [] = []
sorted (x ∷ xs) = insert_sorted x (sorted xs)

abbrev pub has_status : RunStatus → Option RunRecord → Bool
has_status status none = false
has_status status (some r) = r.status == status

-- `max(0, int((observed_at - finished_at).total_seconds()))`
abbrev pub age_of : Instant → Option RunRecord → Option ℕ
age_of now none = none
age_of now (some r) = elim r.finished_at [ none ↦ none | some t ↦ some ((now - t) / 1000000) ]

abbrev pub is_stale : Option ℕ → ℕ → Bool
is_stale none stale_after = false
is_stale (some age) stale_after = ltb stale_after age

abbrev pub finished : Option RunRecord → Option Instant
finished none = none
finished (some r) = r.finished_at

abbrev pub started : Option RunRecord → Option Instant
started none = none
started (some r) = some r.started_at

abbrev pub status_of : Option RunRecord → Option RunStatus
status_of none = none
status_of (some r) = some r.status

-- The chain of tests behind `health_status`.
abbrev pub health :
    (latest latest_run cycle : Option RunRecord) (failures : ℕ) (age : Option ℕ)
    (stale_after warnings : ℕ)
    → Health
health latest latest_run cycle failures age stale_after warnings =
    if is_present latest
    then if has_status RunStatus.failed latest_run
      then degraded
      else if has_status RunStatus.failed cycle
      then degraded
      else if ltb 0 failures
      then degraded
      else if is_stale age stale_after
      then degraded
      else if ltb 0 warnings
      then warning
      else ok
    else degraded

unfoldable pub status : (now : Instant) (stale_after_seconds : ℕ) → Database → Status
status now stale_after_seconds db =
    let latest = last_with RunStatus.succeeded db.runs in
    let last = latest_run db.runs in
    let cycle = latest_cycle_forecast db.runs last in
    let checks = quality_by_name (quality_runs cycle last) db.checks in
    let failures = length (names_with CheckStatus.failed checks) in
    let warnings = names_with CheckStatus.warning checks in
    let age = age_of now latest in
    record {
      model_count = length db.models;
      run_count = length db.runs;
      forecast_count = length db.forecasts;
      matured_count = length db.labels;
      health_status = health latest last cycle failures age stale_after_seconds (length warnings);
      latest_successful_run_at = finished latest;
      latest_run_at = started last;
      latest_run_status = status_of last;
      latest_cycle_forecast_status = status_of cycle;
      latest_failed_run_at = finished (last_with RunStatus.failed db.runs);
      age_seconds = age;
      stale_after_seconds = stale_after_seconds;
      running_run_count = length (where_run (λ r. r.status == RunStatus.running) db.runs);
      pending_count = length db.forecasts - length db.labels;
      latest_quality_warnings = length warnings;
      latest_quality_warning_names = sorted warnings;
      latest_quality_failures = failures;
    }
