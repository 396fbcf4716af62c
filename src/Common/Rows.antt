-- ===== src/Common/Rows.antt =====
-- A table as a list of rows in insertion order, read by a key: `session.get(Record, key)`.
use mathlib.Core.Path.{◌≡◌, refl, subst}
use mathlib.Core.Logic.{inl, inr}
use mathlib.Core.Bool.{Bool, true, false}
use mathlib.Core.Option.{Option, none, some}
use mathlib.Core.List.{List, [], ◌∷◌, ◌++◌}
use edgar_moe.Common.Tests.{Eq, ◌==◌, if◌then◌else◌, Bool-cases}
use edgar_moe.Common.Lists.{All}

module _ {ℓ κ} {R : Type ℓ} {K : Type κ} ⦃e : Eq K⦄ (key : R → K) where
  -- The first row with the key.
  abbrev pub get : K → List R → Option R
  get k [] = none
  get k (r ∷ rs) = if key r == k then some r else get k rs

  abbrev pub has : K → List R → Bool
  has k rs = elim (get k rs) [ none ↦ false | some _ ↦ true ]

  -- The row with the key is there.
  abbrev pub Has : K → List R → Type ℓ
  Has k rs = (r : R) × (get k rs ≡ some r)

  pub get-append_some :
      (k : K) (xs ys : List R) {r : R} → get k xs ≡ some r → get k (xs ++ ys) ≡ some r
  get-append_some k [] ys h = cc
  get-append_some k (x ∷ xs) ys h = elim (Bool-cases (key x == k)) [
    | inl found ↦ rw found (rw found at h)
    | inr other ↦ rw other (get-append_some k xs ys (rw other at h))
  ]

  pub get-append_none : (k : K) (xs ys : List R) → get k xs ≡ none → get k (xs ++ ys) ≡ get k ys
  get-append_none k [] ys h = refl
  get-append_none k (x ∷ xs) ys h = elim (Bool-cases (key x == k)) [
    | inl found ↦ cc (rw found at h)
    | inr other ↦ rw other (get-append_none k xs ys (rw other at h))
  ]

  pub get-key : (k : K) (xs : List R) {r : R} → get k xs ≡ some r → key r ≡ k
  get-key k [] h = cc
  get-key k (x ∷ xs) h = elim (Bool-cases (key x == k)) [
    | inl found ↦ cc ((e.same_iff (key x) k).0 found, rw found at h)
    | inr other ↦ get-key k xs (rw other at h)
  ]

  pub Has-append : (k : K) (xs ys : List R) → Has k xs → Has k (xs ++ ys)
  Has-append k xs ys (r, h) = (r, get-append_some k xs ys h)

  -- What holds of every row holds of the row that is found.
  pub All-get {μ} :
      (P : R → Type μ) (k : K) (xs : List R) {r : R} → All P xs → get k xs ≡ some r → P r
  All-get P k [] a h = cc
  All-get P k (x ∷ xs) {r} a h = elim (Bool-cases (key x == k)) [
    | inl found ↦ let e : x ≡ r = cc (rw found at h) in subst P e a.0
    | inr other ↦ All-get P k xs a.1 (rw other at h)
  ]
