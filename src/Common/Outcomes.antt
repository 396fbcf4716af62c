-- ===== src/Common/Outcomes.antt =====
-- Code that returns a value or raises: the result, its sequencing, and a rule for each way to build
-- it.
use mathlib.Core.Path.{◌≡◌, refl, sym, subst}
use mathlib.Core.Bool.{Bool, true, false}
use mathlib.Core.List.{List, [], ◌∷◌}

pub data Outcome (E A : Type 0) : Type 0 where
  returned : A → Outcome E A
  raised : E → Outcome E A

module _ {E : Type 0} where
  infixl 5 ◌>>=◌ ◌>>◌
  unfoldable pub ◌>>=◌ : {A B : Type 0} → Outcome E A → (A → Outcome E B) → Outcome E B
  returned a >>= f = f a
  raised e >>= f = raised e

  abbrev pub ◌>>◌ : {A B : Type 0} → Outcome E A → Outcome E B → Outcome E B
  m >> k = m >>= λ _. k

  -- `if not test: raise`
  unfoldable pub ensure : Bool → E → Outcome E (Unit {0})
  ensure true e = returned tt
  ensure false e = raised e

  -- A loop that threads its state through one body for each item.
  unfoldable pub fold_each : {D S : Type 0} → (S → D → Outcome E S) → List D → S → Outcome E S
  fold_each body [] s = returned s
  fold_each body (d ∷ ds) s = do s' ← body s d; fold_each body ds s'

-- Nothing is asked of code that raises.
abbrev pub Returns : {E A : Type 0} → (A → Type 0) → Outcome E A → Type 0
Returns Q (returned a) = Q a
Returns Q (raised e) = Unit

module _ {E B : Type 0} (Q : B → Type 0) where
  pub Returns-bind :
      {A : Type 0} (P : A → Type 0) (m : Outcome E A) (f : A → Outcome E B)
      → Returns P m
      → ((a : A) → P a → Returns Q (f a))
      → Returns Q (m >>= f)
  unfolding ◌>>=◌
  Returns-bind P (returned a) f h k = k a h
  Returns-bind P (raised e) f h k = tt

  -- The value that the first part returned.
  pub Returns-from :
      {A : Type 0} (m : Outcome E A) (f : A → Outcome E B)
      → ((a : A) → m ≡ returned a → Returns Q (f a))
      → Returns Q (m >>= f)
  unfolding ◌>>=◌
  Returns-from (returned a) f k = k a refl
  Returns-from (raised e) f k = tt

  pub Returns-ensure :
      (b : Bool) (e : E) (f : Unit {0} → Outcome E B)
      → (b ≡ true → Returns Q (f tt))
      → Returns Q (ensure b e >>= f)
  unfolding ◌>>=◌ ensure
  Returns-ensure true e f k = k refl
  Returns-ensure false e f k = tt

  pub Returns-if :
      (b : Bool) (m k : Outcome E B)
      → (b ≡ true → Returns Q m)
      → (b ≡ false → Returns Q k)
      → Returns Q (elim b [ true ↦ m | false ↦ k ])
  Returns-if true m k h h' = h refl
  Returns-if false m k h h' = h' refl

  pub Returns-ok : (m : Outcome E B) {b : B} → Returns Q m → m ≡ returned b → Q b
  Returns-ok m h e = subst (Returns Q) e h

pub Returns-fold_each :
    {E D S : Type 0} (I : S → Type 0) (body : S → D → Outcome E S)
    → ((s : S) (d : D) → I s → Returns I (body s d))
    → (ds : List D) (s : S) → I s
    → Returns I (fold_each body ds s)
unfolding fold_each
Returns-fold_each I body keep [] s h = h
Returns-fold_each I body keep (d ∷ ds) s h =
    Returns-bind I I (body s d) _ (keep s d h) λ s' h'. Returns-fold_each I body keep ds s' h'

pub Returns-ensure_last :
    {E : Type 0} (P : Unit {0} → Type 0) (b : Bool) (e : E)
    → (b ≡ true → P tt)
    → Returns P (ensure b e)
unfolding ensure
Returns-ensure_last P true e k = k refl
Returns-ensure_last P false e k = tt

-- The same as equations, for a test that holds.
module _ {E : Type 0} where
  pub ensure-bind :
      {B : Type 0} (b : Bool) (e : E) (f : Unit {0} → Outcome E B)
      → b ≡ true
      → (ensure b e >>= f) ≡ f tt
  unfolding ◌>>=◌ ensure
  ensure-bind b e f h = rw h refl

  pub ensure_holds : (b : Bool) (e : E) → b ≡ true → ensure b e ≡ returned tt
  unfolding ensure
  ensure_holds b e h = rw h refl

  pub returned-bind :
      {A B : Type 0} (m : Outcome E A) (f : A → Outcome E B) {a : A}
      → m ≡ returned a
      → (m >>= f) ≡ f a
  unfolding ◌>>=◌
  returned-bind m f h = rw (h, ◌>>=◌) refl

-- A first part that is known to return.
pub Returns-known :
    {E A B : Type 0} (Q : B → Type 0) (m : Outcome E A) (f : A → Outcome E B) {a : A}
    → m ≡ returned a
    → Returns Q (f a)
    → Returns Q (m >>= f)
Returns-known Q m f e h = subst (Returns Q) (sym (returned-bind m f e)) h
