-- ===== src/HistoricalIdentity/Tests.antt =====
-- Known CUSIPs as code points, and the theorems there.
use edgar_moe.Common.{ℕ, nat_eq, true, false, ◌≡◌, refl, ◌↔◌, List, [], ◌∷◌, ◌%◌}
use edgar_moe.HistoricalIdentity.{has_form, char_number, term, total, valid_cusip}
use edgar_moe.HistoricalIdentity.Digits.{valid_cusip_iff, valid_cusip-finds}

-- 037833100
abbrev apple : List ℕ
apple = 48 ∷ 51 ∷ 55 ∷ 56 ∷ 51 ∷ 51 ∷ 49 ∷ 48 ∷ 48 ∷ []

-- 38259P508
abbrev google : List ℕ
google = 51 ∷ 56 ∷ 50 ∷ 53 ∷ 57 ∷ 80 ∷ 53 ∷ 48 ∷ 56 ∷ []

unfoldable cusip_code : Unit {0}
unfolding has_form char_number term total valid_cusip
cusip_code = tt

apple_valid : valid_cusip apple ≡ true
unfolding cusip_code
apple_valid = refl

google_valid : valid_cusip google ≡ true
unfolding cusip_code
google_valid = refl

-- A letter and the digit of the same weight are not told apart.
letter_for_digit : valid_cusip (65 ∷ 51 ∷ 55 ∷ 56 ∷ 51 ∷ 51 ∷ 49 ∷ 48 ∷ 57 ∷ []) ≡ true
unfolding cusip_code
letter_for_digit = refl

digit_for_letter : valid_cusip (49 ∷ 51 ∷ 55 ∷ 56 ∷ 51 ∷ 51 ∷ 49 ∷ 48 ∷ 57 ∷ []) ≡ true
unfolding cusip_code
digit_for_letter = refl

too_short : valid_cusip (48 ∷ 51 ∷ []) ≡ false
unfolding cusip_code
too_short = refl

valid_cusip_iff_example :
    valid_cusip google ≡ true ↔ (has_form 8 google ≡ true) × (total 0 google % 10 ≡ 0)
valid_cusip_iff_example = valid_cusip_iff google

-- 037833100 with its second character read as an 8
valid_cusip-finds_example : valid_cusip (48 ∷ 56 ∷ 55 ∷ 56 ∷ 51 ∷ 51 ∷ 49 ∷ 48 ∷ 48 ∷ []) ≡ false
valid_cusip-finds_example =
    valid_cusip-finds (48 ∷ []) (55 ∷ 56 ∷ 51 ∷ 51 ∷ 49 ∷ 48 ∷ 48 ∷ []) 51 56 refl refl (λ e. cc e)
      apple_valid
