-- ===== src/HistoricalIdentity.antt =====
-- The check digit of a CUSIP in src/edgar_moe/data/historical_identity.py. A text is the list of the
-- code points of its characters.
pub mod Digits
mod Tests
use edgar_moe.Common.{
  ℕ, zero, suc, ◌+◌, ◌-◌, ◌*◌, ◌/◌, ◌%◌, Bool, true, false, ◌&&◌, ◌||◌, List, [], ◌∷◌,
  if◌then◌else◌, ◌==◌, nat_eq, leb,
}

abbrev pub is_digit : ℕ → Bool
is_digit c = leb 48 c && leb c 57

abbrev is_upper : ℕ → Bool
is_upper c = leb 65 c && leb c 90

-- `[A-Z0-9]{left}[0-9]`
unfoldable pub has_form : (left : ℕ) → List ℕ → Bool
has_form zero [] = false
has_form zero (c ∷ []) = is_digit c
has_form zero (c ∷ d ∷ cs) = false
has_form (suc left) [] = false
has_form (suc left) (c ∷ cs) = (is_upper c || is_digit c) && has_form left cs

unfoldable pub char_number : ℕ → ℕ
char_number c = if is_digit c then c - 48 else c - 55

abbrev pub weight : (index : ℕ) → ℕ
weight index = if index % 2 == 0 then 1 else 2

-- What one character adds to `total`.
unfoldable pub term : (index c : ℕ) → ℕ
term index c = char_number c * weight index / 10 + char_number c * weight index % 10

unfoldable pub total : (index : ℕ) → List ℕ → ℕ
total index [] = 0
total index (c ∷ cs) = term index c + total (suc index) cs

-- `value[:n]`, and `value[n]`, where 0 stands for the `IndexError` of a shorter text
abbrev pub take : ℕ → List ℕ → List ℕ
take zero cs = []
take (suc n) [] = []
take (suc n) (c ∷ cs) = c ∷ take n cs

abbrev pub at : ℕ → List ℕ → ℕ
at n [] = 0
at zero (c ∷ cs) = c
at (suc n) (c ∷ cs) = at n cs

unfoldable pub valid_cusip : List ℕ → Bool
valid_cusip value =
    if has_form 8 value then (10 - total 0 (take 8 value) % 10) % 10 == at 8 value - 48 else false
