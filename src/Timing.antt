-- ===== src/Timing.antt =====
-- When a filing may be acted on: src/edgar_moe/utils/time.py, the check of event times in
-- src/edgar_moe/data/contracts.py and the split of src/edgar_moe/modeling/split.py. An instant is in
-- microseconds.
pub mod Events
pub mod Splits
mod Tests
use edgar_moe.Common.{
  ℕ, zero, suc, ◌+◌, ◌-◌, ◌*◌, ◌/◌, Bool, true, false, not, ◌&&◌, ◌||◌, Option, none, some, List,
  [], ◌∷◌, if◌then◌else◌, ◌==◌, ltb, leb, nat_eq, length,
}
use edgar_moe.Common.Outcomes.{Outcome, returned, raised, ◌>>=◌, ◌>>◌, ensure}
use edgar_moe.Registry.Records.{Instant}

pub record Session : Type 0 where
  pub market_open : Instant
  pub market_close : Instant

-- The exchange calendar of another package and the New York date of an instant, as a day number.
pub record Calendar : Type 0 where
  pub local_date : Instant → ℕ
  pub schedule : (start_date end_date : ℕ) → List Session

pub data TimeError : Type 0 where
  no_following_session no_target_session sessions_not_positive too_few_sessions : TimeError
  times_out_of_order split_empty : TimeError

abbrev pub first_open_after : Instant → List Session → Outcome TimeError Instant
first_open_after accepted [] = raised no_following_session
first_open_after accepted (s ∷ ss) =
    if ltb accepted s.market_open then returned s.market_open else first_open_after accepted ss

abbrev pub first_target : Calendar → Instant → List Session → Outcome TimeError Instant
first_target cal observed [] = raised no_target_session
first_target cal observed (s ∷ ss) =
    if cal.local_date s.market_open == cal.local_date observed
    then returned s.market_open
    else if ltb observed s.market_open
    then returned s.market_open
    else first_target cal observed ss

-- `schedule[schedule["market_open"] >= entry_at]`
abbrev pub opening_from : Instant → List Session → List Session
opening_from entry [] = []
opening_from entry (s ∷ ss) =
    if leb entry s.market_open then s ∷ opening_from entry ss else opening_from entry ss

-- `eligible.iloc[n]["market_close"]`
abbrev pub close_at : ℕ → List Session → Outcome TimeError Instant
close_at n [] = raised too_few_sessions
close_at zero (s ∷ ss) = returned s.market_close
close_at (suc n) (s ∷ ss) = close_at n ss

module _ (cal : Calendar) where
  unfoldable pub next_nyse_open : Instant → Outcome TimeError Instant
  next_nyse_open accepted =
      let day = cal.local_date accepted in first_open_after accepted (cal.schedule day (day + 10))

  unfoldable pub target_nyse_open : Instant → Outcome TimeError Instant
  target_nyse_open observed =
      let day = cal.local_date observed in first_target cal observed (cal.schedule day (day + 10))

  unfoldable pub session_close_after : Instant → (sessions : ℕ) → Outcome TimeError Instant
  session_close_after entry sessions = do
    ensure (leb 1 sessions) sessions_not_positive
    let start = cal.local_date entry
    let eligible = opening_from entry (cal.schedule start (start + sessions * 3))
    ensure (leb sessions (length eligible)) too_few_sessions
    close_at (sessions - 1) eligible

-- `FilingEvent.validate_timing`
unfoldable pub validate_timing :
    (accepted_at entry_at horizon_at : Instant) → Outcome TimeError (Unit {0})
validate_timing accepted_at entry_at horizon_at =
    ensure (ltb accepted_at entry_at && ltb entry_at horizon_at) times_out_of_order

-- `chronological_split`, for the events' times in the order of their index. A test
-- `date <= end - embargo` is written without the subtraction.
pub record TemporalSplit : Type 0 where
  pub development : List Instant
  pub validation : List Instant
  pub test : List Instant

pub record Boundaries : Type 0 where
  pub development_end : Instant
  pub validation_start : Instant
  pub validation_end : Instant
  pub test_start : Instant

-- `pd.Timedelta(days=int(embargo_sessions * 1.6) + 2)`
abbrev pub embargo_of : (embargo_sessions : ℕ) → ℕ
embargo_of embargo_sessions = (embargo_sessions * 16 / 10 + 2) * 86400000000

abbrev pub select : (Instant → Bool) → List Instant → List Instant
select keeps [] = []
select keeps (d ∷ ds) = if keeps d then d ∷ select keeps ds else select keeps ds

abbrev pub is_filled : List Instant → Bool
is_filled [] = false
is_filled (d ∷ ds) = true

unfoldable pub chronological_split :
    List Instant → Boundaries → (embargo_sessions : ℕ) → Outcome TimeError TemporalSplit
chronological_split dates b embargo_sessions = do
  let embargo = embargo_of embargo_sessions
  let development = select (λ d. leb (d + embargo) b.development_end) dates
  let validation =
      select (λ d. leb b.validation_start d && leb (d + embargo) b.validation_end) dates
  let test = select (λ d. leb b.test_start d) dates
  ensure (is_filled development && (is_filled validation && is_filled test)) split_empty
  returned (record { development = development; validation = validation; test = test })
