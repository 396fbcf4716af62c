-- ===== src/Alerts/RegistryHealth.antt =====
-- The alert that the registry's own status raises.
use edgar_moe.Common.{
  ℕ, suc, ◌≤◌, String, ◌==◌, Bool, true, false, not, ◌&&◌, ◌||◌, ◌≡◌, ◌≢◌, refl, ap, sym, ◌∙◌,
  subst, inl, inr, Option, none, some, List, [], ◌∷◌, if◌then◌else◌, ltb, arith, length, Bool-cases,
}
use edgar_moe.Registry.Records.{
  run_status_eq, Instant, RunStatus, running, succeeded, RunRecord, Database,
}
use edgar_moe.Registry.Status.{
  Health, ok, warning, degraded, Status, status, sorted, insert_sorted, has_status, status_of,
  is_stale, is_present, id_before, last_with, latest_run, latest_cycle_forecast,
}
use edgar_moe.Alerts.{
  AlertKind, failed_run, stale_runner, quality_failure, quality_warning, int, text, texts, Floats,
  is_text, all_expected, only_expected_warnings, positive_int, exceeds, classify_forward_status,
  health_text, run_status_text, optional_int, payload_of,
}

-- What the classification relies on of Python's floats: below the limit an integer is converted
-- exactly.
pub record AreExact (floats : Floats) (limit : ℕ) : Type 0 where
  pub of : ℕ → floats.Float
  pub converts : (n : ℕ) → n ≤ limit → floats.to_float (int n) ≡ some (of n)
  pub ordered : (a b : ℕ) → a ≤ limit → b ≤ limit → floats.gt (of a) (of b) ≡ ltb b a
  pub signed : (n : ℕ) → n ≤ limit → floats.is_positive (of n) ≡ ltb 0 n
  pub whole : (n : ℕ) → n ≤ limit → floats.truncate (of n) ≡ n

-- The numbers of a status are below the limit.
abbrev pub IsAgeBelow : ℕ → Option ℕ → Type 0
IsAgeBelow limit none = Unit
IsAgeBelow limit (some age) = age ≤ limit

pub record IsBelow (limit : ℕ) (s : Status) : Type 0 where
  pub age : IsAgeBelow limit s.age_seconds
  pub stale_after : s.stale_after_seconds ≤ limit
  pub failures : s.latest_quality_failures ≤ limit
  pub warnings : s.latest_quality_warnings ≤ limit

module _ (floats : Floats) (limit : ℕ) (exact : AreExact floats limit) where
  positive_int-int : (n : ℕ) → n ≤ limit → positive_int floats (int n) ≡ ltb 0 n
  positive_int-int n h =
      rw (exact.converts n h, positive_int, exact.signed n h, exact.whole n h) (both (ltb 0 n))
    where
      both : (b : Bool) → b && b ≡ b
      both true = refl
      both false = refl

  exceeds-is_stale :
      (age : Option ℕ) (stale_after : ℕ)
      → IsAgeBelow limit age
      → stale_after ≤ limit
      → exceeds floats (optional_int age) (int stale_after) ≡ is_stale age stale_after
  exceeds-is_stale none stale_after h k = refl
  exceeds-is_stale (some age) stale_after h k =
      rw (exact.converts age h, exceeds, exact.converts stale_after k)
        (exact.ordered age stale_after h k)

failed_text :
    (r : Option RunRecord)
    → is_text "failed" (run_status_text (status_of r)) ≡ has_status RunStatus.failed r
failed_text none = refl
failed_text (some r) = by_status r.status
  where
    by_status :
        (s : RunStatus) → is_text "failed" (run_status_text (some s)) ≡ (s == RunStatus.failed)
    by_status running = refl
    by_status succeeded = refl
    by_status RunStatus.failed = refl

length-insert_sorted :
    (x : String) (ys : List String) → length (insert_sorted x ys) ≡ suc (length ys)
length-insert_sorted x [] = refl
length-insert_sorted x (y ∷ ys) = elim (Bool-cases (id_before y x)) [
  | inl e ↦ rw e (ap suc (length-insert_sorted x ys))
  | inr e ↦ rw e refl
]

length-sorted : (xs : List String) → length (sorted xs) ≡ length xs
length-sorted [] = refl
length-sorted (x ∷ xs) = length-insert_sorted x (sorted xs) ∙ ap suc (length-sorted xs)

-- The names are judged only when there is a warning.
judged :
    (s : Status)
    → length s.latest_quality_warning_names ≡ s.latest_quality_warnings
    → ltb 0 s.latest_quality_warnings ≡ true
    → only_expected_warnings (payload_of s) ≡ all_expected s.latest_quality_warning_names
judged s same some_warn =
    by_names s.latest_quality_warning_names (subst (λ n. ltb 0 n ≡ true) (sym same) some_warn)
  where
    by_names :
        (names : List String)
        → ltb 0 (length names) ≡ true
        → (elim (texts names) [
          | texts [] ↦ false
          | texts (n ∷ ns) ↦ all_expected (n ∷ ns)
          | _ ↦ false
        ])
          ≡ all_expected names
    by_names [] h = cc h
    by_names (n ∷ ns) h = refl

-- What is decided from the tests alone, in the order of `status` and of the classification.
abbrev verdict : (present last_failed cycle_failed failures stale warns : Bool) → Health
verdict present last_failed cycle_failed failures stale warns =
    if present
    then if last_failed
      then degraded
      else if cycle_failed
      then degraded
      else if failures
      then degraded
      else if stale
      then degraded
      else if warns
      then warning
      else ok
    else degraded

abbrev alert :
    (last_failed cycle_failed failures stale warns expected : Bool) → Health → Option AlertKind
alert last_failed cycle_failed failures stale warns expected h =
    if last_failed || cycle_failed
    then some failed_run
    else if failures
    then some quality_failure
    else if stale
    then some stale_runner
    else if warns && not expected
    then some quality_warning
    else if is_text "warning" (text (health_text h))
    then if warns && expected then none else some quality_warning
    else if is_text "degraded" (text (health_text h))
    then some stale_runner
    else none

abbrev Agree : (expected : Bool) → Health → Option AlertKind → Type 0
Agree expected ok a = a ≡ none
Agree expected degraded a = a ≢ none
Agree expected warning a = a ≡ (if expected then none else some quality_warning)

verdict-Agree :
    (present last_failed cycle_failed failures stale warns expected : Bool)
    → Agree expected (verdict present last_failed cycle_failed failures stale warns) (
        alert last_failed cycle_failed failures stale warns expected
          (verdict present last_failed cycle_failed failures stale warns))
verdict-Agree false true c f s w e = λ h. cc h
verdict-Agree false false true f s w e = λ h. cc h
verdict-Agree false false false true s w e = λ h. cc h
verdict-Agree false false false false true w e = λ h. cc h
verdict-Agree false false false false false true true = λ h. cc h
verdict-Agree false false false false false true false = λ h. cc h
verdict-Agree false false false false false false e = λ h. cc h
verdict-Agree true true c f s w e = λ h. cc h
verdict-Agree true false true f s w e = λ h. cc h
verdict-Agree true false false true s w e = λ h. cc h
verdict-Agree true false false false true w e = λ h. cc h
verdict-Agree true false false false false true true = refl
verdict-Agree true false false false false true false = refl
verdict-Agree true false false false false false e = refl

-- The three cases of a status's health.
pub record RaisesDuly (s : Status) (raised : Option AlertKind) : Type 0 where
  pub healthy : s.health_status ≡ ok → raised ≡ none
  pub degraded_raises : s.health_status ≡ degraded → raised ≢ none
  pub warned :
      s.health_status ≡ warning
      → raised
        ≡ (if all_expected s.latest_quality_warning_names then none else some quality_warning)

Agree-cases :
    (expected : Bool) (h : Health) (a : Option AlertKind)
    → Agree expected h a
    → ((h ≡ ok → a ≡ none) × (h ≡ degraded → a ≢ none))
      × (h ≡ warning → a ≡ (if expected then none else some quality_warning))
Agree-cases expected ok a g = ((λ _. g, λ e. cc e), λ e. cc e)
Agree-cases expected degraded a g = ((λ e. cc e, λ _. g), λ e. cc e)
Agree-cases expected warning a g = ((λ e. cc e, λ e. cc e), λ _. g)

-- A health of `warning` comes from a warning.
verdict-warning :
    (present last_failed cycle_failed failures stale warns : Bool)
    → verdict present last_failed cycle_failed failures stale warns ≡ warning
    → warns ≡ true
verdict-warning present last_failed cycle_failed failures stale true h = refl
verdict-warning present last_failed cycle_failed failures stale false h = ground arith

not_unavailable : (h : Health) → is_text "unavailable" (text (health_text h)) ≡ false
not_unavailable ok = refl
not_unavailable warning = refl
not_unavailable degraded = refl

module _ (floats : Floats) (limit : ℕ) (exact : AreExact floats limit) where
  classify-alert :
      (s : Status)
      → IsBelow limit s
      → classify_forward_status floats (payload_of s)
        ≡ alert
            (is_text "failed" (run_status_text s.latest_run_status))
            (is_text "failed" (run_status_text s.latest_cycle_forecast_status))
            (ltb 0 s.latest_quality_failures)
            (is_stale s.age_seconds s.stale_after_seconds)
            (ltb 0 s.latest_quality_warnings)
            (only_expected_warnings (payload_of s))
            s.health_status
  unfolding classify_forward_status
  classify-alert s below =
      rw
        (
          not_unavailable s.health_status,
          positive_int-int floats limit exact s.latest_quality_failures below.failures,
          positive_int-int floats limit exact s.latest_quality_warnings below.warnings,
          exceeds-is_stale floats limit exact s.age_seconds s.stale_after_seconds below.age
              below.stale_after,
        )
        refl

  abbrev judgement : (present last_failed cycle_failed : Bool) → Status → Health
  judgement present last_failed cycle_failed s =
      verdict present last_failed cycle_failed (ltb 0 s.latest_quality_failures)
        (is_stale s.age_seconds s.stale_after_seconds) (ltb 0 s.latest_quality_warnings)

  judged-RaisesDuly :
      (s : Status) (present : Bool)
      → IsBelow limit s
      → length s.latest_quality_warning_names ≡ s.latest_quality_warnings
      → s.health_status
        ≡ judgement present
            (is_text "failed" (run_status_text s.latest_run_status))
            (is_text "failed" (run_status_text s.latest_cycle_forecast_status))
            s
      → RaisesDuly s (classify_forward_status floats (payload_of s))
  judged-RaisesDuly s present below named decided =
      let expected = only_expected_warnings (payload_of s) in
      let last_failed = is_text "failed" (run_status_text s.latest_run_status) in
      let cycle_failed = is_text "failed" (run_status_text s.latest_cycle_forecast_status) in
      let failures = ltb 0 s.latest_quality_failures in
      let stale = is_stale s.age_seconds s.stale_after_seconds in
      let warns = ltb 0 s.latest_quality_warnings in
      let agree =
        subst
          (λ h. Agree expected h (alert last_failed cycle_failed failures stale warns expected h))
          (sym decided)
          (verdict-Agree present last_failed cycle_failed failures stale warns expected) in
      let ((healthy, degraded_raises), warned) =
        Agree-cases expected s.health_status _
          (subst (Agree expected s.health_status) (sym (classify-alert s below)) agree) in
      record {
        healthy = healthy;
        degraded_raises = degraded_raises;
        warned = λ e.
            subst
              (λ b.
                classify_forward_status floats (payload_of s)
                ≡ (if b then none else some quality_warning))
              (judged s named (
                verdict-warning present last_failed cycle_failed failures stale warns
                  (sym decided ∙ e)))
              (warned e);
      }

  -- For every database, time and freshness window whose counts and ages a float can hold: the status
  -- that the registry reports raises no alert when its health is ok and some alert when it is
  -- degraded; when it is a warning, it raises a quality warning, unless every warning is of the
  -- expected kind.
  pub status-RaisesDuly :
      (now : Instant) (stale_after : ℕ) (db : Database)
      → IsBelow limit (status now stale_after db)
      → RaisesDuly
          (status now stale_after db)
          (classify_forward_status floats (payload_of (status now stale_after db)))
  unfolding status
  status-RaisesDuly now stale_after db below =
      let last = latest_run db.runs in
      let cycle = latest_cycle_forecast db.runs last in
      let present = is_present (last_with RunStatus.succeeded db.runs) in
      judged-RaisesDuly (status now stale_after db) present below (length-sorted _) (
        ap
          (λ b. judgement present b (has_status RunStatus.failed cycle) (status now stale_after db))
          (sym (failed_text last))
        ∙ ap
            (λ b.
              judgement present (is_text "failed" (run_status_text (status_of last))) b
                (status now stale_after db))
            (sym (failed_text cycle)))
