-- ===== src/Registry/Rules.antt =====
-- A rule for each way to build a transaction: what holds when it returns.
use edgar_moe.Common.{
  if◌then◌else◌, subst, Bool, true, false, ◌≡◌, refl, Option, none, some, List, [], ◌∷◌,
}
use edgar_moe.Registry.Records.{Database}
use edgar_moe.Registry.Session.{
  Error, Result, ok, err, Session, pure, gets, or_raise, ◌>>=◌, require, if_existing,
}
use edgar_moe.Registry.Batches.{BatchCounts, counted, each}

-- A transaction that raises is rolled back, so nothing is asked of it.
abbrev pub Post : {A : Type 0} → (A → Database → Type 0) → Result (A × Database) → Type 0
Post Q (ok (a, db)) = Q a db
Post Q (err e) = Unit

module _ {A : Type 0} (Q : A → Database → Type 0) where
  pub Post-pure : (a : A) (db : Database) → Q a db → Post Q (pure a db)
  unfolding pure
  Post-pure a db h = h

  pub Post-weaken :
      (P : A → Database → Type 0) (r : Result (A × Database))
      → ((a : A) (db : Database) → P a db → Q a db)
      → Post P r
      → Post Q r
  Post-weaken P (ok (a, db)) f h = f a db h
  Post-weaken P (err e) f h = tt

  pub Post-if_existing :
      {R : Type 0} (o : Option R) (found : R → Session A) (new : Session A) (db : Database)
      → ((r : R) → o ≡ some r → Post Q (found r db))
      → (o ≡ none → Post Q (new db))
      → Post Q (if_existing o found new db)
  unfolding if_existing
  Post-if_existing none found new db h k = k refl
  Post-if_existing (some r) found new db h k = h r refl

module _ {A B : Type 0} (Q : B → Database → Type 0) where
  after :
      (P : A → Database → Type 0) (r : Result (A × Database)) (f : A → Session B)
      → Post P r
      → ((a : A) (db : Database) → P a db → Post Q (f a db))
      → Post Q (elim r [ ok (a, db') ↦ f a db' | err e ↦ err e ])
  after P (ok (a, db)) f h k = k a db h
  after P (err e) f h k = tt

  pub Post-bind :
      (P : A → Database → Type 0) (m : Session A) (f : A → Session B) (db : Database)
      → Post P (m db)
      → ((a : A) (db' : Database) → P a db' → Post Q (f a db'))
      → Post Q ((m >>= f) db)
  unfolding ◌>>=◌
  Post-bind P m f db h k = after P (m db) f h k

  pub Post-gets :
      (g : Database → A) (f : A → Session B) (db : Database)
      → Post Q (f (g db) db)
      → Post Q ((gets g >>= f) db)
  unfolding ◌>>=◌ gets
  Post-gets g f db h = h

  pub Post-or_raise :
      (o : Option A) (e : Error) (f : A → Session B) (db : Database)
      → ((a : A) → o ≡ some a → Post Q (f a db))
      → Post Q ((or_raise o e >>= f) db)
  unfolding ◌>>=◌ or_raise
  Post-or_raise none e f db h = tt
  Post-or_raise (some a) e f db h = h a refl

module _ {B : Type 0} (Q : B → Database → Type 0) where
  pub Post-require :
      (b : Bool) (e : Error) (f : Unit {0} → Session B) (db : Database)
      → (b ≡ true → Post Q (f tt db))
      → Post Q ((require b e >>= f) db)
  unfolding ◌>>=◌ require
  Post-require true e f db h = h refl
  Post-require false e f db h = tt

-- The loop of a batch keeps what its step keeps.
pub Post-each :
    {D : Type 0} (I : Database → Type 0) (step : D → Session Bool)
    → ((d : D) (db : Database) → I db → Post (λ _. I) (step d db))
    → (ds : List D) (c : BatchCounts) (db : Database) → I db
    → Post (λ _. I) (each step ds c db)
unfolding each
Post-each I step keep [] c db h = Post-pure (λ _. I) c db h
Post-each I step keep (d ∷ ds) c db h =
    Post-bind (λ _. I) (λ _. I) (step d) _ db (keep d db h)
      λ added db' h'. Post-each I step keep ds (counted added c) db' h'

-- What holds of every returned result holds of the one that was returned.
pub Post-ok :
    {A : Type 0} (Q : A → Database → Type 0) (r : Result (A × Database)) {a : A} {db : Database}
    → Post Q r
    → r ≡ ok (a, db)
    → Q a db
Post-ok Q r h e = subst (Post Q) e h

-- The same parts as equations, for a run whose tests are known.
module _ {A B : Type 0} where
  pub gets-bind :
      (g : Database → A) (f : A → Session B) (db : Database) → (gets g >>= f) db ≡ f (g db) db
  unfolding ◌>>=◌ gets
  gets-bind g f db = refl

  pub or_raise-bind :
      (o : Option A) (e : Error) (f : A → Session B) (db : Database) {a : A}
      → o ≡ some a
      → (or_raise o e >>= f) db ≡ f a db
  unfolding ◌>>=◌ or_raise
  or_raise-bind o e f db h = rw h

  pub bind-eq :
      (m : Session A) (f : A → Session B) (db : Database) {a : A} {db' : Database}
      → m db ≡ ok (a, db')
      → (m >>= f) db ≡ f a db'
  unfolding ◌>>=◌
  bind-eq m f db h = rw (h, ◌>>=◌)

  pub if_existing-some :
      (o : Option A) (found : A → Session B) (new : Session B) (db : Database) {a : A}
      → o ≡ some a
      → if_existing o found new db ≡ found a db
  unfolding if_existing
  if_existing-some o found new db h = rw h

module _ {B : Type 0} where
  pub require-bind :
      (b : Bool) (e : Error) (f : Unit {0} → Session B) (db : Database)
      → b ≡ true
      → (require b e >>= f) db ≡ f tt db
  unfolding ◌>>=◌ require
  require-bind b e f db h = rw h

  pub pure-eq : (a : B) (db : Database) → pure a db ≡ ok (a, db)
  unfolding pure
  pure-eq a db = refl

-- A row is added unless a constraint of its table refuses it.
pub Post-unless :
    {A : Type 0} (Q : A → Database → Type 0) (b : Bool) (e : Error) (a : A) (db' : Database)
    → Q a db'
    → Post Q (if b then err e else ok (a, db'))
Post-unless Q true e a db' h = tt
Post-unless Q false e a db' h = h
