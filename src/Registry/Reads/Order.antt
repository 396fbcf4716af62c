-- ===== src/Registry/Reads/Order.antt =====
-- What the filter and the order of a query of src/edgar_moe/forward/registry.py do to its rows.
use edgar_moe.Common.{
  ℕ, Bool, true, false, ◌≡◌, refl, sym, ◌∙◌, subst, List, [], ◌∷◌, inl, inr, Bool-cases, Member,
  All, All-map, arith, length, suc, ap, ◌≤◌,
}
use edgar_moe.Registry.Reads.{where_rows, insert_by, order_by}

module _ {A : Type 0} (test : A → Bool) (x : A) where
  pub from-where_rows :
      (xs : List A) → Member x (where_rows test xs) → Member x xs × (test x ≡ true)
  from-where_rows [] k = absurd k
  from-where_rows (y ∷ ys) k = elim (Bool-cases (test y)) [
    | inl e ↦ elim (rw e at k) [
      | inl same ↦ (inl same, subst (λ z. test z ≡ true) (sym same) e)
      | inr rest ↦ let (m, t) = from-where_rows ys rest in (inr m, t)
    ]
    | inr e ↦ let (m, t) = from-where_rows ys (rw e at k) in (inr m, t)
  ]

  pub into-where_rows : (xs : List A) → Member x xs → test x ≡ true → Member x (where_rows test xs)
  into-where_rows [] k h = absurd k
  into-where_rows (y ∷ ys) (inl same) h = rw (subst (λ z. test z ≡ true) same h) (inl same)
  into-where_rows (y ∷ ys) (inr k) h = elim (Bool-cases (test y)) [
    | inl e ↦ rw e (inr (into-where_rows ys k h))
    | inr e ↦ rw e (into-where_rows ys k h)
  ]

-- Each item's number is at most the numbers of the items behind it.
abbrev pub IsSortedBy : {A : Type 0} → (A → ℕ) → List A → Type 0
IsSortedBy key [] = Unit
IsSortedBy key (x ∷ xs) = All (λ y. key x ≤ key y) xs × IsSortedBy key xs

module _ {A : Type 0} (before : A → A → Bool) where
  from-insert_by : (x y : A) (ys : List A) → Member x (insert_by before y ys) → Member x (y ∷ ys)
  from-insert_by x y [] k = k
  from-insert_by x y (z ∷ zs) k = elim (Bool-cases (before z y)) [
    | inl e ↦ elim (rw e at k) [
      | inl same ↦ inr (inl same)
      | inr rest ↦ elim (from-insert_by x y zs rest) [ inl same ↦ inl same | inr m ↦ inr (inr m) ]
    ]
    | inr e ↦ rw e at k
  ]

  into-insert_by : (x y : A) (ys : List A) → Member x (y ∷ ys) → Member x (insert_by before y ys)
  into-insert_by x y [] k = k
  into-insert_by x y (z ∷ zs) k = elim (Bool-cases (before z y)) [
    | inl e ↦ rw e (elim k [
      | inl same ↦ inr (into-insert_by x y zs (inl same))
      | inr m ↦ elim m [ inl same ↦ inl same | inr rest ↦ inr (into-insert_by x y zs (inr rest)) ]
    ])
    | inr e ↦ rw e k
  ]

  pub from-order_by : (x : A) (xs : List A) → Member x (order_by before xs) → Member x xs
  from-order_by x [] k = k
  from-order_by x (y ∷ ys) k = elim (from-insert_by x y (order_by before ys) k) [
    | inl same ↦ inl same
    | inr m ↦ inr (from-order_by x ys m)
  ]

  pub into-order_by : (x : A) (xs : List A) → Member x xs → Member x (order_by before xs)
  into-order_by x [] k = k
  into-order_by x (y ∷ ys) (inl same) = into-insert_by x y (order_by before ys) (inl same)
  into-order_by x (y ∷ ys) (inr k) =
      into-insert_by x y (order_by before ys) (inr (into-order_by x ys k))

  length-insert_by : (x : A) (xs : List A) → length (insert_by before x xs) ≡ suc (length xs)
  length-insert_by x [] = refl
  length-insert_by x (y ∷ ys) = elim (Bool-cases (before y x)) [
    | inl e ↦ rw e (ap suc (length-insert_by x ys))
    | inr e ↦ rw e refl
  ]

  pub length-order_by : (xs : List A) → length (order_by before xs) ≡ length xs
  length-order_by [] = refl
  length-order_by (x ∷ xs) = length-insert_by x (order_by before xs) ∙ ap suc (length-order_by xs)

  -- Sorted by a number that the order looks at first.
  module _ (key : A → ℕ) (up : (x y : A) → before x y ≡ true → key x ≤ key y)
      (down : (x y : A) → before x y ≡ false → key y ≤ key x) where
    All-insert_by :
        (n : ℕ) (x : A) (xs : List A)
        → n ≤ key x
        → All (λ y. n ≤ key y) xs
        → All (λ y. n ≤ key y) (insert_by before x xs)
    All-insert_by n x [] h a = (h, tt)
    All-insert_by n x (y ∷ ys) h a = elim (Bool-cases (before y x)) [
      | inl e ↦ rw e (a.0, All-insert_by n x ys h a.1)
      | inr e ↦ rw e (h, a)
    ]

    insert_by-IsSortedBy :
        (x : A) (xs : List A) → IsSortedBy key xs → IsSortedBy key (insert_by before x xs)
    insert_by-IsSortedBy x [] s = (tt, tt)
    insert_by-IsSortedBy x (y ∷ ys) s = elim (Bool-cases (before y x)) [
      | inl e ↦ rw e (All-insert_by (key y) x ys (up y x e) s.0, insert_by-IsSortedBy x ys s.1)
      | inr e ↦ rw e (
        (
          down y x e,
          All-map (λ z. key y ≤ key z) (λ z. key x ≤ key z) (λ z h. omega (arith, down y x e, h)) ys
              s.0,
        ),
        s,
      )
    ]

    pub order_by-IsSortedBy : (xs : List A) → IsSortedBy key (order_by before xs)
    order_by-IsSortedBy [] = tt
    order_by-IsSortedBy (x ∷ xs) =
        insert_by-IsSortedBy x (order_by before xs) (order_by-IsSortedBy xs)
