-- ===== src/Immutability.antt =====
-- The database triggers of src/edgar_moe/forward/immutability.py, for both dialects: what they do
-- with a change to a stored row.
pub mod Protects
mod Tests
use edgar_moe.Common.{
  ℕ, zero, suc, ◌++◌, if◌then◌else◌, Bool, true, false, ◌&&◌, String, ◌≡◌, refl, ◌↔◌, Option, none,
  some, List, [], ◌∷◌, ◌==◌, Eq, string_eq, nat_eq,
}
use edgar_moe.Registry.Records.{run_type_eq, run_status_eq, running, RunRecord}

-- `IS NOT DISTINCT FROM`: absent values are equal.
abbrev pub same_option : Option String → Option String → Bool
same_option none none = true
same_option (some a) (some b) = a == b
same_option _ _ = false

-- The columns of `_RUN_IDENTITY_COLUMNS`.
abbrev pub same_identity : RunRecord → RunRecord → Bool
same_identity old new =
    (new.run_id == old.run_id)
    && ((new.run_type == old.run_type)
        && (same_option new.dataset_id old.dataset_id
            && (same_option new.model_id old.model_id
                && ((new.as_of == old.as_of)
                    && ((new.code_revision == old.code_revision)
                        && ((new.config_hash == old.config_hash)
                            && (same_option new.parent_run_id old.parent_run_id
                                && ((new.details == old.details)
                                    && (new.started_at == old.started_at)))))))))

-- `forward_protect_run` on an UPDATE: whether it lets the new row through. A status is always one
-- of the three that it lists.
abbrev pub protect_run : RunRecord → RunRecord → Bool
protect_run old new = (old.status == running) && same_identity old new

-- What may happen to a stored row. `reject_mutation` guards the evidence tables.
pub data RowChange (R : Type 0) : Type 0 where
  update : R → RowChange R
  delete : RowChange R

abbrev pub reject_mutation : {R : Type 0} → R → RowChange R → Bool
reject_mutation old change = false

abbrev pub run_trigger : RunRecord → RowChange RunRecord → Bool
run_trigger old (update new) = protect_run old new
run_trigger old delete = false

-- What any client may send for a table, one row at a time.
pub data Statement (R : Type 0) : Type 0 where
  insert : R → Statement R
  change : (row : ℕ) → RowChange R → Statement R

-- A change of the row at a place, before which the trigger runs; a refused one leaves the table.
abbrev pub changed : {R : Type 0} → (R → RowChange R → Bool) → ℕ → RowChange R → List R → List R
changed trigger n c [] = []
changed trigger zero (update new) (r ∷ rs) = if trigger r (update new) then new ∷ rs else r ∷ rs
changed trigger zero delete (r ∷ rs) = if trigger r delete then rs else r ∷ rs
changed trigger (suc n) c (r ∷ rs) = r ∷ changed trigger n c rs

abbrev pub executed : {R : Type 0} → (R → RowChange R → Bool) → Statement R → List R → List R
executed trigger (insert row) rs = rs ++ row ∷ []
executed trigger (change n c) rs = changed trigger n c rs

abbrev pub execute_all :
    {R : Type 0} → (R → RowChange R → Bool) → List (Statement R) → List R → List R
execute_all trigger [] rs = rs
execute_all trigger (s ∷ ss) rs = execute_all trigger ss (executed trigger s rs)
