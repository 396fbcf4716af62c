-- ===== src/HistoricalIdentity/Digits.antt =====
-- The weighted sum behind `valid_cusip` of src/edgar_moe/data/historical_identity.py, over all nine
-- characters, and the errors that it finds.
use edgar_moe.Common.{
  and_right, add_suc, add_zero, ℕ, zero, suc, ◌+◌, ◌-◌, ◌*◌, ◌/◌, ◌%◌, ◌≤◌, ◌<◌, Bool, true, false,
  ◌≡◌, ◌≢◌, refl, ◌∙◌, ap, ◌↔◌, inl, inr, List, [], ◌∷◌, ◌++◌, if◌then◌else◌, ◌==◌, nat_eq, length,
  Bool-cases, arith,
}
use edgar_moe.HistoricalIdentity.{
  is_digit, has_form, char_number, weight, term, total, take, at, valid_cusip,
}

digit_of : (c : ℕ) → is_digit c ≡ true → char_number c ≡ c - 48
unfolding char_number
digit_of c h = rw h refl

digit_bounds : (c : ℕ) → is_digit c ≡ true → (48 ≤ c) × (c ≤ 57)
digit_bounds c h = (ground arith, ground arith)

rest_form : (n c : ℕ) (cs : List ℕ) → has_form (suc n) (c ∷ cs) ≡ true → has_form n cs ≡ true
unfolding has_form
rest_form n c cs h = and_right _ _ h

-- The characters before the last one, and the last one.
total-take :
    (n k : ℕ) (cs : List ℕ)
    → has_form n cs ≡ true
    → (total k cs ≡ total k (take n cs) + term (k + n) (at n cs)) × (is_digit (at n cs) ≡ true)
unfolding has_form total
total-take zero k [] h = cc h
total-take zero k (c ∷ []) h = (rw (add_zero k) (omega arith), h)
total-take zero k (c ∷ d ∷ cs) h = cc h
total-take (suc n) k [] h = cc h
total-take (suc n) k (c ∷ cs) h =
    let rest = total-take n (suc k) cs (rest_form n c cs h) in
    (rw (add_suc k n) (omega (arith, rest.0)), rest.1)

total-append :
    (k : ℕ) (front : List ℕ) (c : ℕ) (back : List ℕ)
    → total k (front ++ c ∷ back)
      ≡ total k front + (term (k + length front) c + total (suc (k + length front)) back)
unfolding total
total-append k [] c back = rw (add_zero k) (omega arith)
total-append k (d ∷ front) c back =
    rw (add_suc k (length front)) (omega (arith, total-append (suc k) front c back))

check_iff : (s d : ℕ) → d < 10 → ((10 - s % 10) % 10 == d) ≡ true ↔ (s + d) % 10 ≡ 0
check_iff s d h = (
  λ e. omega (arith, h, (nat_eq.same_iff _ _).0 e),
  λ e. (nat_eq.same_iff _ _).1 (omega (arith, h, e)),
)

-- Two digits at one place do not add the same, modulo ten.
apart :
    (b : Bool) (x y rest rest' : ℕ)
    → x < 10
    → y < 10
    → (rest + (x * (if b then 1 else 2) / 10 + x * (if b then 1 else 2) % 10 + rest')) % 10 ≡ 0
    → (rest + (y * (if b then 1 else 2) / 10 + y * (if b then 1 else 2) % 10 + rest')) % 10 ≡ 0
    → x ≡ y
apart true x y rest rest' hx hy e e' = omega (arith, hx, hy, e, e')
apart false x y rest rest' hx hy e e' = omega (arith, hx, hy, e, e')

-- The check digit adds itself.
check_term : (c : ℕ) → is_digit c ≡ true → term 8 c ≡ c - 48
unfolding term
check_term c h = rw (digit_of c h) (omega (arith, digit_bounds c h))

whole :
    (value : List ℕ)
    → has_form 8 value ≡ true
    → total 0 value ≡ total 0 (take 8 value) + (at 8 value - 48)
whole value h =
    let (sums, digit) = total-take 8 0 value h in
    sums ∙ ap (λ n. total 0 (take 8 value) + n) (check_term (at 8 value) digit)

check_digit_iff :
    (value : List ℕ)
    → has_form 8 value ≡ true
    → ((10 - total 0 (take 8 value) % 10) % 10 == at 8 value - 48) ≡ true ↔ total 0 value % 10 ≡ 0
check_digit_iff value h = rw (whole value h) (
    check_iff (total 0 (take 8 value)) (at 8 value - 48)
      (omega (arith, digit_bounds (at 8 value) (total-take 8 0 value h).1)))

-- A text is a valid CUSIP exactly if it has eight capital letters or digits and then a digit, and the
-- weighted sum of all nine, the check digit among them, is divisible by ten.
pub valid_cusip_iff :
    (value : List ℕ)
    → valid_cusip value ≡ true ↔ (has_form 8 value ≡ true) × (total 0 value % 10 ≡ 0)
unfolding valid_cusip
valid_cusip_iff value = elim (Bool-cases (has_form 8 value)) [
  | inl form ↦
      rw form (
        λ e. (refl, (check_digit_iff value form).0 e),
        λ (same, e). (check_digit_iff value form).1 e,
      )
  | inr other ↦ rw other (λ e. cc e, λ (same, e). cc same)
]

digit_term :
    (i c : ℕ) → is_digit c ≡ true → term i c ≡ (c - 48) * weight i / 10 + (c - 48) * weight i % 10
unfolding term
digit_term i c h = rw (digit_of c h) refl

digit_small : (c : ℕ) → is_digit c ≡ true → c - 48 < 10
digit_small c h = omega (arith, digit_bounds c h)

-- Digits at one place of texts whose sums are divisible are the same.
same_digit :
    (front back : List ℕ) (a b : ℕ)
    → is_digit a ≡ true
    → is_digit b ≡ true
    → total 0 (front ++ a ∷ back) % 10 ≡ 0
    → total 0 (front ++ b ∷ back) % 10 ≡ 0
    → a ≡ b
same_digit front back a b ha hb e e' =
    let same =
      apart ((0 + length front) % 2 == 0) (a - 48) (b - 48) (total 0 front)
        (total (suc (0 + length front)) back) (digit_small a ha) (digit_small b hb)
        (rw (total-append 0 front a back, digit_term (0 + length front) a ha) at e)
        (rw (total-append 0 front b back, digit_term (0 + length front) b hb) at e') in
    omega (arith, digit_bounds a ha, digit_bounds b hb, same)

-- A digit that is read wrongly as another, anywhere in a valid CUSIP, is found: the text with the
-- other digit in its place is refused.
pub valid_cusip-finds :
    (front back : List ℕ) (a b : ℕ)
    → is_digit a ≡ true
    → is_digit b ≡ true
    → a ≢ b
    → valid_cusip (front ++ a ∷ back) ≡ true
    → valid_cusip (front ++ b ∷ back) ≡ false
valid_cusip-finds front back a b ha hb other valid =
    elim (Bool-cases (valid_cusip (front ++ b ∷ back))) [
      | inl also ↦ absurd (
          other (
            same_digit front back a b ha hb ((valid_cusip_iff _).0 valid).1
              ((valid_cusip_iff _).0 also).1))
      | inr refused ↦ refused
    ]
