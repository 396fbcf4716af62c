-- ===== src/Workflow/Rules.antt =====
-- A rule for each way to build a process: what the database is when it returns and when it raises.
use edgar_moe.Common.{◌≡◌, refl, ap, subst, sym, Bool, true, false, if◌then◌else◌}
use edgar_moe.Common.Outcomes.{Outcome, returned, raised}
use edgar_moe.Registry.Records.{Database}
use edgar_moe.Registry.Session.{Result, ok, err, Session, transaction}
use edgar_moe.Registry.Rules.{Post}
use edgar_moe.Workflow.{
  Failure, World, Process, give, throw, attempt, ◌>>=◌, catching, look, of_result, run_with, call,
  store_with,
}

abbrev pub Leaves :
    {A S : Type 0}
    → (A → Database → Type 0)
    → (Database → Type 0)
    → Outcome Failure A × World S
    → Type 0
Leaves R E (returned a, w) = R a w.database
Leaves R E (raised e, w) = E w.database

module _ {S A : Type 0} (R : A → Database → Type 0) (E : Database → Type 0) where
  pub Leaves-give : (a : A) (w : World S) → R a w.database → Leaves R E (give a w)
  unfolding give
  Leaves-give a w h = h

  pub Leaves-throw : (e : Failure) (w : World S) → E w.database → Leaves R E (throw e w)
  unfolding throw
  Leaves-throw e w h = h

  pub Leaves-weaken :
      (R' : A → Database → Type 0) (E' : Database → Type 0) (x : Outcome Failure A × World S)
      → ((a : A) (db : Database) → R' a db → R a db)
      → ((db : Database) → E' db → E db)
      → Leaves R' E' x
      → Leaves R E x
  Leaves-weaken R' E' (returned a, w) f g h = f a w.database h
  Leaves-weaken R' E' (raised e, w) f g h = g w.database h

  bound :
      {B : Type 0} (R1 : B → Database → Type 0) (x : Outcome Failure B × World S)
      (f : B → Process S A)
      → Leaves R1 E x
      → ((b : B) (w' : World S) → R1 b w'.database → Leaves R E (f b w'))
      → Leaves R E (((λ _. x) >>= f) x.1)
  unfolding ◌>>=◌
  bound R1 (returned b, w) f h k = k b w h
  bound R1 (raised e, w) f h k = h

  pub Leaves-bind :
      {B : Type 0} (R1 : B → Database → Type 0) (m : Process S B) (f : B → Process S A)
      (w : World S)
      → Leaves R1 E (m w)
      → ((b : B) (w' : World S) → R1 b w'.database → Leaves R E (f b w'))
      → Leaves R E ((m >>= f) w)
  unfolding ◌>>=◌ bound
  Leaves-bind R1 m f w h k = bound R1 (m w) f h k

  pub Leaves-attempt :
      {B : Type 0} (o : Outcome Failure B) (f : B → Process S A) (w : World S)
      → E w.database
      → ((b : B) → Leaves R E (f b w))
      → Leaves R E ((attempt o >>= f) w)
  unfolding ◌>>=◌ attempt
  Leaves-attempt (returned b) f w h k = k b
  Leaves-attempt (raised e) f w h k = h

  pub Leaves-look :
      {B : Type 0} (g : Database → B) (f : B → Process S A) (w : World S)
      → Leaves R E (f (g w.database) w)
      → Leaves R E ((look g >>= f) w)
  unfolding ◌>>=◌ look
  Leaves-look g f w h = h

  pub Leaves-if :
      (b : Bool) (m k : Process S A) (w : World S)
      → (b ≡ true → Leaves R E (m w))
      → (b ≡ false → Leaves R E (k w))
      → Leaves R E ((if b then m else k) w)
  Leaves-if true m k w h h' = h refl
  Leaves-if false m k w h h' = h' refl

  caught :
      (E1 : Database → Type 0) (x : Outcome Failure A × World S) (handler : Failure → Process S A)
      → Leaves R E1 x
      → ((e : Failure) (w' : World S) → E1 w'.database → Leaves R E (handler e w'))
      → Leaves R E (catching (λ _. x) handler x.1)
  unfolding catching
  caught E1 (returned a, w) handler h k = h
  caught E1 (raised e, w) handler h k = k e w h

  pub Leaves-catching :
      (E1 : Database → Type 0) (m : Process S A) (handler : Failure → Process S A) (w : World S)
      → Leaves R E1 (m w)
      → ((e : Failure) (w' : World S) → E1 w'.database → Leaves R E (handler e w'))
      → Leaves R E (catching m handler w)
  unfolding catching caught
  Leaves-catching E1 m handler w h k = caught E1 (m w) handler h k

  pub Leaves-run_with :
      (f : Database → Result A × Database) (w : World S) {a : A} {db : Database}
      → f w.database ≡ (ok a, db)
      → R a db
      → Leaves R E (run_with f w)
  unfolding run_with
  Leaves-run_with f w e h =
      subst
        (λ x.
          Leaves {S = S} R E (of_result x.0, record { database = x.1; artifacts = w.artifacts }))
        (sym e) h

  committed :
      (db : Database) (s : S) (r : Result (A × Database))
      → E db
      → Post R r
      → Leaves R E (
          let (o, db') = transaction (λ _. r) db in
          (of_result o, record { database = db'; artifacts = s }))
  committed db s (ok (a, db')) e h = h
  committed db s (err x) e h = e

  -- A transaction that raises leaves the database as it was.
  pub Leaves-call :
      (m : Session A) (w : World S) → E w.database → Post R (m w.database) → Leaves R E (call m w)
  unfolding call run_with
  Leaves-call m w e h = committed w.database w.artifacts (m w.database) e h

-- A transaction keeps what its method keeps.
pub Leaves-keep :
    {S A : Type 0} (I : Database → Type 0) (m : Session A) (w : World S)
    → I w.database
    → Post (λ _. I) (m w.database)
    → Leaves (λ _. I) I (call m w)
Leaves-keep I m w h k = Leaves-call (λ _. I) I m w h k

-- A transaction that is known to return.
pub Leaves-call_ok :
    {S A : Type 0} (R : A → Database → Type 0) (E : Database → Type 0) (m : Session A) (w : World S)
    {a : A} {db : Database}
    → m w.database ≡ ok (a, db)
    → R a db
    → Leaves R E (call m w)
unfolding call
Leaves-call_ok R E m w e h =
    Leaves-run_with R E (transaction m) w (ap (λ r. transaction (λ _. r) w.database) e) h

-- The artifact store is no part of the database.
stored :
    {S A : Type 0} (I : Database → Type 0) (db : Database) (x : Outcome Failure A × S)
    → I db
    → Leaves {A = A} {S = S} (λ _. I) I (x.0, record { database = db; artifacts = x.1 })
stored I db (returned a, s) h = h
stored I db (raised e, s) h = h

pub Leaves-store_with :
    {S A : Type 0} (I : Database → Type 0) (f : S → Outcome Failure A × S) (w : World S)
    → I w.database
    → Leaves (λ _. I) I (store_with f w)
unfolding store_with
Leaves-store_with I f w h = stored I w.database (f w.artifacts) h
