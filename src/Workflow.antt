-- ===== src/Workflow.antt =====
-- The prospective cycle of src/edgar_moe/forward/workflow.py: this file has the shape of its code, a
-- process that reads and changes the registry and the artifact store and may raise. The registry's
-- calls are transactions; a file that was put stays put.
pub mod Checks
pub mod Matching
pub mod Model
pub mod Cycle
pub mod Rules
pub mod Registrations
pub mod Ends
pub mod Cycles
pub mod Targets
pub mod Labels
mod Tests
use edgar_moe.Common.{
  String, Option, none, some, Bool, true, false, ◌||◌, not, ◌==◌, string_eq, if◌then◌else◌, List,
}
use edgar_moe.Common.Outcomes.{Outcome, returned, raised}
use Prim.Native.String
use edgar_moe.Registry.Records.{QualityCheckDraft, Database}
use edgar_moe.Registry.Session.{
  Error, Result, ok, err, Session, transaction, Library, redact_sensitive_text, take_chars,
}
use edgar_moe.PartialWrite.{ArtifactWriteError}

-- What the code raises: an error of the registry, an `ArtifactWriteError`, a `ForecastQualityError`
-- with its checks, or any other, of which only the class and the text are known.
pub data Failure : Type 0 where
  registry : Error → Failure
  artifact_write : ArtifactWriteError → Failure
  quality : List QualityCheckDraft → Failure
  other : (type_name text : String) → Failure

-- `type(error).__name__`, `str(error)`, and whether the class is of this package.
pub record Description : Type 0 where
  pub error_type : String
  pub text : String
  pub is_ours : Bool

unfoldable pub safe_exception_message : Library → Description → String
safe_exception_message library error =
    let detail = redact_sensitive_text library 1000 error.text in
    if detail == "" || not error.is_ours
    then error.error_type
    else take_chars 1000 (String.◌++◌ error.error_type (String.◌++◌ ": " detail))

pub record World (S : Type 0) : Type 0 where
  pub database : Database
  pub artifacts : S

abbrev pub Process : Type 0 → Type 0 → Type 0
Process S A = World S → Outcome Failure A × World S

abbrev pub of_result : {A : Type 0} → Result A → Outcome Failure A
of_result (ok a) = returned a
of_result (err e) = raised (registry e)

module _ {S : Type 0} where
  unfoldable pub give : {A : Type 0} → A → Process S A
  give a w = (returned a, w)

  unfoldable pub throw : {A : Type 0} → Failure → Process S A
  throw e w = (raised e, w)

  unfoldable pub attempt : {A : Type 0} → Outcome Failure A → Process S A
  attempt o w = (o, w)

  infixl 5 ◌>>=◌ ◌>>◌
  unfoldable pub ◌>>=◌ : {A B : Type 0} → Process S A → (A → Process S B) → Process S B
  ◌>>=◌ m f w = let (r, w') = m w in elim r [ returned a ↦ f a w' | raised e ↦ (raised e, w') ]

  abbrev pub ◌>>◌ : {A B : Type 0} → Process S A → Process S B → Process S B
  m >> k = m >>= λ _. k

  -- `try: m` and `except: handler`
  unfoldable pub catching : {A : Type 0} → Process S A → (Failure → Process S A) → Process S A
  catching m handler w =
      let (r, w') = m w in elim r [ returned a ↦ (returned a, w') | raised e ↦ handler e w' ]

  unfoldable pub look : {A : Type 0} → (Database → A) → Process S A
  look f w = (returned (f w.database), w)

  -- A function of the registry that runs its own transactions.
  unfoldable pub run_with : {A : Type 0} → (Database → Result A × Database) → Process S A
  run_with f w =
      let (r, db) = f w.database in (of_result r, record { database = db; artifacts = w.artifacts })

  unfoldable pub call : {A : Type 0} → Session A → Process S A
  call m = run_with (transaction m)

  -- A function of the artifact store.
  unfoldable pub store_with : {A : Type 0} → (S → Outcome Failure A × S) → Process S A
  store_with f w =
      let (r, s) = f w.artifacts in (r, record { database = w.database; artifacts = s })
