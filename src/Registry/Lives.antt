-- ===== src/Registry/Lives.antt =====
-- A run from its start to its end in src/edgar_moe/forward/registry.py, as the last of the runs.
use edgar_moe.Common.{
  sym, String, Bool, false, true, not, ◌≡◌, refl, ◌∙◌, inl, inr, Option, some, none, List, [], ◌∷◌,
  ◌++◌, ◌==◌, string_eq, get, has, get-append_none, Bool-cases, Option-cases, subst, ap,
}
use edgar_moe.Registry.Records.{
  Json, RunRegistration, running, succeeded, RunStatus, RunRecord, Database,
}
use edgar_moe.Registry.Session.{
  ok, ForwardRegistry, Moment, get_run, audit, audit_row, AuditPayload,
}
use edgar_moe.Registry.Runs.{resolve_run_id, replace_run, start_run, fail_run, complete_run}
use edgar_moe.Registry.Rules.{Post, Post-pure, Post-bind, Post-gets, Post-require, Post-unless}
use edgar_moe.Registry.Advance.Parts.{Post-require_running_run, Post-require_optional_reference}
use edgar_moe.Registry.Untouched.{event_id, has-snoc, Untouched}
use edgar_moe.Registry.Endings.{failed_row, fail_run-eq}

-- One run was started on top of the runs that were there, and an identifier is still new.
pub record Opened (before : List RunRecord) (run : RunRecord) (audit_id : String) (db : Database)
    : Type 0 where
  pub runs : db.runs ≡ before ++ run ∷ []
  pub fresh : has event_id audit_id db.audits ≡ false
  pub is_new : has (λ (r : RunRecord). r.run_id) run.run_id before ≡ false
  pub active : run.status ≡ running

-- The run that was started has ended.
pub record Ended (status : RunStatus) (before : List RunRecord) (run_id : String) (db : Database)
    : Type 0 where
  pub row : RunRecord
  pub runs : db.runs ≡ before ++ row ∷ []
  pub same_id : row.run_id ≡ run_id
  pub ended : row.status ≡ status

has-get :
    (k : String) (rs : List RunRecord)
    → has (λ (r : RunRecord). r.run_id) k rs ≡ false
    → get (λ (r : RunRecord). r.run_id) k rs ≡ none
has-get k rs h = elim (Option-cases (get (λ (r : RunRecord). r.run_id) k rs)) [
  | inl e ↦ e
  | inr (r, e) ↦ cc (rw (e, has) at h)
]

replace_run-last :
    (rs : List RunRecord) (old row : RunRecord)
    → row.run_id ≡ old.run_id
    → has (λ (r : RunRecord). r.run_id) old.run_id rs ≡ false
    → replace_run row (rs ++ old ∷ []) ≡ rs ++ row ∷ []
replace_run-last [] old row e h = rw ((string_eq.same_iff old.run_id row.run_id).1 (sym e)) refl
replace_run-last (r ∷ rs) old row e h = elim (Bool-cases (r.run_id == old.run_id)) [
  | inl found ↦ cc (rw (found, has) at h)
  | inr differs ↦
      rw (subst (λ k. (r.run_id == k) ≡ false) (sym e) differs)
        (ap (λ l. r ∷ l) (replace_run-last rs old row e (rw (differs, has) at h)))
]

module _ (before : List RunRecord) (run : RunRecord) (audit_id : String) (db : Database)
    (h : Opened before run audit_id db) where
  pub Opened-get_run : get_run db run.run_id ≡ some run
  Opened-get_run = rw (h.runs) (
      get-append_none (λ (r : RunRecord). r.run_id) run.run_id before (run ∷ [])
        (has-get run.run_id before h.is_new)
      ∙ rw ((string_eq.same_iff run.run_id run.run_id).1 refl) refl)

  Opened-replace_run :
      (row : RunRecord) → row.run_id ≡ run.run_id → replace_run row db.runs ≡ before ++ row ∷ []
  Opened-replace_run row e = rw (h.runs) (replace_run-last before run row e h.is_new)

  -- Evidence may be added while the run is open.
  pub Opened-Untouched :
      (db' : Database) → Untouched db audit_id db' → Opened before run audit_id db'
  Opened-Untouched db' u = record {
    runs = u.runs ∙ h.runs;
    fresh = u.fresh;
    is_new = h.is_new;
    active = h.active;
  }

  -- The run can be failed with the identifier that is still new.
  pub fail_run-Ended :
      (self : ForwardRegistry) (m : Moment) (message : String)
      → m.audit_id ≡ audit_id
      → (db' : Database) × (fail_run self m run.run_id message db
          ≡ ok (failed_row self m run.run_id message run, db'))
        × Ended RunStatus.failed before run.run_id db'
  fail_run-Ended self m message same = (
    _,
    fail_run-eq self m run.run_id message db run Opened-get_run h.active
        (subst (λ k. has event_id k db.audits ≡ false) (sym same) h.fresh),
    record {
      row = failed_row self m run.run_id message run;
      runs = Opened-replace_run _ refl;
      same_id = refl;
      ended = refl;
    },
  )

  pub complete_run-Ended :
      (self : ForwardRegistry) (m : Moment) (counts : Json)
      → Post (λ _. Ended succeeded before run.run_id) (complete_run self m run.run_id counts db)
  unfolding complete_run audit
  complete_run-Ended self m counts = Post-require_running_run _ run.run_id _ db λ r found active.
      let same : r ≡ run = cc (found, Opened-get_run) in
      let P : Database → Type 0 = λ d. Ended succeeded before run.run_id d in
      Post-bind _ (λ _. P) _ _ db
        (record {
          row = record r { status = succeeded; result_counts = counts; finished_at = some m.now };
          runs = Opened-replace_run _ (ap (λ (x : RunRecord). x.run_id) same);
          same_id = ap (λ (x : RunRecord). x.run_id) same;
          ended = refl;
        })
        λ _ db1 e.
          Post-bind _ (λ _. P) _ _ db1
            (Post-unless (λ _. P) _ _ _ _
              (record { row = e.row; runs = e.runs; same_id = e.same_id; ended = e.ended }))
            λ _ db2 e2. Post-pure _ _ db2 e2

is_free : (b : Bool) → not b ≡ true → b ≡ false
is_free true h = cc h
is_free false h = refl

audit-Opened :
    (self : ForwardRegistry) (m : Moment) (audit_id : String)
    (other : (m.audit_id == audit_id) ≡ false) (action entity_type entity_id : String)
    (event : AuditPayload) (before : List RunRecord) (run : RunRecord) (db : Database)
    → Opened before run audit_id db
    → Post (λ _. Opened before run audit_id) (audit self m action entity_type entity_id event db)
unfolding audit audit_row
audit-Opened self m audit_id other action entity_type entity_id event before run db o =
    Post-unless (λ _. Opened before run audit_id) _ _ _ _
      (record {
        runs = o.runs;
        fresh = has-snoc audit_id db.audits _ o.fresh other;
        is_new = o.is_new;
        active = o.active;
      })

-- What `start_run` leaves when it returns.
pub start_run-Opened :
    (self : ForwardRegistry) (m : Moment) (audit_id : String)
    (other : (m.audit_id == audit_id) ≡ false) (registration : RunRegistration)
    (run_id : Option String) (new_id : String) (db0 db : Database)
    → Untouched db0 audit_id db
    → Post (λ run. Opened db0.runs run audit_id) (start_run self m registration run_id new_id db)
unfolding start_run
start_run-Opened self m audit_id other registration run_id new_id db0 db u = Post-gets _ _ _ db (
    Post-require _ _ _ _ db λ free. Post-require_optional_reference _ _ _ _ _ db λ _.
      Post-require_optional_reference _ _ _ _ _ db λ _.
        Post-require_optional_reference _ _ _ _ _ db λ _.
          let row : RunRecord = record {
            run_id = resolve_run_id run_id new_id;
            status = running;
            registration = registration;
            result_counts = "{}";
            error_message = none;
            started_at = m.now;
            finished_at = none;
          } in
          let P : RunRecord → Database → Type 0 = λ r d. Opened db0.runs r audit_id d in
          let I : Database → Type 0 = λ d. Opened db0.runs row audit_id d in
          Post-bind P (λ _. I) _ _ db
            (record {
              runs = ap (λ l. l ++ row ∷ []) (u.runs);
              fresh = u.fresh;
              is_new =
                  subst (λ l. has (λ (r : RunRecord). r.run_id) row.run_id l ≡ false) (u.runs)
                    (is_free _ free);
              active = refl;
            })
            λ _ db1 o.
              Post-bind P (λ _. I) _ _ db1
                (audit-Opened self m audit_id other _ _ _ _ db0.runs _ db1 o)
                λ _ db2 o2. Post-pure P _ db2 o2)
