-- ===== src/Timing/Splits.antt =====
-- What keeps the parts of a temporal split apart.
use edgar_moe.Common.{
  ℕ, ◌+◌, ◌≤◌, ◌<◌, Bool, true, ◌&&◌, ◌≡◌, inl, inr, List, [], ◌∷◌, leb, arith, All, All-map,
  Bool-cases,
}
use edgar_moe.Common.Outcomes.{returned, Returns, Returns-ensure, Returns-ok}
use edgar_moe.Registry.Records.{Instant}
use edgar_moe.Timing.{TemporalSplit, Boundaries, embargo_of, select, is_filled, chronological_split}

select-All : (test : Instant → Bool) (ds : List Instant) → All (λ d. test d ≡ true) (select test ds)
select-All test [] = tt
select-All test (d ∷ ds) = elim (Bool-cases (test d)) [
  | inl kept ↦ rw kept (kept, select-All test ds)
  | inr dropped ↦ rw dropped (select-All test ds)
]

-- Every event of the first part, and whatever follows it within the embargo, comes before every event
-- of the second.
abbrev pub IsApart : (embargo : ℕ) → List Instant → List Instant → Type 0
IsApart embargo earlier later = All (λ d. All (λ e. d + embargo < e) later) earlier

apart :
    (embargo end start : ℕ) (P Q : Instant → Bool) (ds : List Instant)
    → end < start
    → ((d : Instant) → P d ≡ true → d + embargo ≤ end)
    → ((d : Instant) → Q d ≡ true → start ≤ d)
    → IsApart embargo (select P ds) (select Q ds)
apart embargo end start P Q ds gap early late =
    All-map (λ d. P d ≡ true) (λ d. All (λ e. d + embargo < e) (select Q ds))
      (λ d kept.
        All-map (λ e. Q e ≡ true) (λ e. d + embargo < e)
          (λ e chosen. omega (arith, gap, early d kept, late e chosen)) (select Q ds)
          (select-All Q ds))
      (select P ds) (select-All P ds)

pub record IsSeparated (embargo : ℕ) (s : TemporalSplit) : Type 0 where
  pub development_validation : IsApart embargo s.development s.validation
  pub validation_test : IsApart embargo s.validation s.test
  pub development_filled : is_filled s.development ≡ true
  pub validation_filled : is_filled s.validation ≡ true
  pub test_filled : is_filled s.test ≡ true

at_most : (a c : ℕ) → leb a c ≡ true → a ≤ c
at_most a c h = ground arith

both_left : (a c d e : ℕ) → leb a c && leb d e ≡ true → a ≤ c
both_left a c d e h = ground arith

both_right : (a c d e : ℕ) → leb a c && leb d e ≡ true → d ≤ e
both_right a c d e h = ground arith

left_of : (x y : Bool) → x && y ≡ true → x ≡ true
left_of x y h = ground arith

right_of : (x y : Bool) → x && y ≡ true → y ≡ true
right_of x y h = ground arith

module _ (dates : List Instant) (b : Boundaries) (embargo_sessions : ℕ)
    (first_gap : b.development_end < b.validation_start)
    (second_gap : b.validation_end < b.test_start) where
  separated :
      (v t : List Instant)
      → (development : List Instant) → IsApart (embargo_of embargo_sessions) development v
      → IsApart (embargo_of embargo_sessions) v t
      → is_filled development && (is_filled v && is_filled t) ≡ true
      → IsSeparated
          (embargo_of embargo_sessions)
          (record { development = development; validation = v; test = t })
  separated v t development first second filled = record {
    development_validation = first;
    validation_test = second;
    development_filled = left_of (is_filled development) _ filled;
    validation_filled =
        left_of (is_filled v) (is_filled t) (right_of (is_filled development) _ filled);
    test_filled = right_of (is_filled v) (is_filled t) (right_of (is_filled development) _ filled);
  }

  chronological_split-Returns :
      Returns
        (IsSeparated (embargo_of embargo_sessions))
        (chronological_split dates b embargo_sessions)
  unfolding chronological_split
  chronological_split-Returns = Returns-ensure _ _ _ _ λ filled.
      separated _ _ _
        (apart _ b.development_end b.validation_start _ _ dates first_gap (λ d k. at_most _ _ k)
          (λ d k. both_left _ _ _ _ k))
        (apart _ b.validation_end b.test_start _ _ dates second_gap (λ d k. both_right _ _ _ _ k)
          (λ d k. at_most _ _ k))
        filled

  -- When development ends before validation starts and validation ends before the test starts: every
  -- part of a split has an event, and every event of an earlier part, with the embargo added to its
  -- time, still comes before every event of the next part.
  pub chronological_split-IsSeparated :
      {s : TemporalSplit}
      → chronological_split dates b embargo_sessions ≡ returned s
      → IsSeparated (embargo_of embargo_sessions) s
  chronological_split-IsSeparated h = Returns-ok _ _ chronological_split-Returns h
