-- ===== src/Registry/Commands/Integrity.antt =====
-- What holds of every database that the registry's methods lead to.
use edgar_moe.Common.{List, [], ◌∷◌, string_eq}
use edgar_moe.Registry.Records.{Database}
use edgar_moe.Registry.Session.{
  Result, ok, err, Session, pure, ◌>>◌, transaction, ForwardRegistry, Moment,
}
use edgar_moe.Registry.Growth.{Grows}
use edgar_moe.Registry.Invariant.{IsSound, Advances, Advances-refl, Advances-trans}
use edgar_moe.Registry.Rules.{Post, Post-pure, Post-bind}
use edgar_moe.Registry.Advance.{AdvancesFrom}
use edgar_moe.Registry.Advance.Methods.{
  register_dataset-Advances, register_model-Advances, register_artifact-Advances,
  start_run-Advances, complete_run-Advances, fail_run-Advances,
}
use edgar_moe.Registry.Advance.Batches.{
  append_forecasts-Advances, settle_labels-Advances, add_quality_checks-Advances,
}
use edgar_moe.Registry.Commands.{Command, method, execute, play}

drop_result :
    {A : Type 0} (db : Database) (s : Session A)
    → Post (AdvancesFrom db) (s db)
    → Post (AdvancesFrom db) ((s >> pure tt) db)
drop_result db s h =
    Post-bind (AdvancesFrom db) (AdvancesFrom db) s _ db h
      λ _ db' k. Post-pure (AdvancesFrom db) tt db' k

module _ (self : ForwardRegistry) where
  method-Advances :
      (m : Moment) (c : Command) (db : Database) → Post (AdvancesFrom db) (method self m c db)
  unfolding method
  method-Advances m (Command.dataset r) db =
      drop_result db _ (register_dataset-Advances self m db r)
  method-Advances m (Command.model r) db = drop_result db _ (register_model-Advances self m db r)
  method-Advances m (Command.start r run_id new_id) db =
      drop_result db _ (start_run-Advances self m db r run_id new_id)
  method-Advances m (Command.complete run_id counts) db =
      drop_result db _ (complete_run-Advances self m db run_id counts)
  method-Advances m (Command.fail run_id message) db =
      drop_result db _ (fail_run-Advances self m db run_id message)
  method-Advances m (Command.forecasts run_id ds) db =
      drop_result db _ (append_forecasts-Advances self m run_id ds db)
  method-Advances m (Command.labels run_id ds) db =
      drop_result db _ (settle_labels-Advances self m run_id ds db)
  method-Advances m (Command.checks run_id ds) db =
      drop_result db _ (add_quality_checks-Advances self m run_id ds db)
  method-Advances m (Command.artifact run_id kind r) db =
      drop_result db _ (register_artifact-Advances self m db run_id kind r)

  committed :
      (db : Database) (r : Result (Unit {0} × Database))
      → Post (AdvancesFrom db) r
      → Advances db (transaction (λ _. r) db).1
  committed db (ok (a, db')) h = h
  committed db (err e) h = Advances-refl db

  execute-Advances :
      (m : Moment) (c : Command) (db : Database) → Advances db (execute self m c db).1
  unfolding execute
  execute-Advances m c db = committed db (method self m c db) (method-Advances m c db)

  play-Advances : (cs : List (Moment × Command)) (db : Database) → Advances db (play self cs db)
  unfolding play
  play-Advances [] db = Advances-refl db
  play-Advances ((m, c) ∷ cs) db =
      Advances-trans db _ _ (execute-Advances m c db) (play-Advances cs (execute self m c db).1)

  -- Whatever methods are called, each evidence table (datasets, models, forecasts, labels,
  -- artifacts, quality checks, audit events) only gains rows at its end, and every run keeps its
  -- place, identifier, registration and start, and is left as it is once it is no longer running.
  pub play-Grows : (cs : List (Moment × Command)) (db : Database) → Grows db (play self cs db)
  play-Grows cs db = (play-Advances cs db).grows

  -- If every stored row is sound before any sequence of calls, then every stored row is sound after
  -- it: references resolve, each forecast belongs to a forecast run with its model, dataset and
  -- time and was available, tradable and immature then, and each label is of a stored forecast that
  -- had matured at the time of its settlement run.
  pub play-IsSound :
      (cs : List (Moment × Command)) (db : Database) → IsSound db → IsSound (play self cs db)
  play-IsSound cs db = (play-Advances cs db).sound
