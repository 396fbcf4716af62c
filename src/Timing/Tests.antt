-- ===== src/Timing/Tests.antt =====
-- Two sessions, a filing between them, and a split of five events.
use edgar_moe.Common.{ℕ, ◌*◌, ◌≡◌, refl, inl, inr, [], ◌∷◌, arith}
use edgar_moe.Common.Outcomes.{returned, ◌>>=◌, ensure}
use edgar_moe.Registry.Records.{Instant}
use edgar_moe.Timing.{
  Session, Calendar, Boundaries, TemporalSplit, embargo_of, next_nyse_open, session_close_after,
  validate_timing, chronological_split,
}
use edgar_moe.Timing.Events.{IsCalendar, IsNextOpen, next_nyse_open-IsNextOpen, events_validate}
use edgar_moe.Timing.Splits.{IsSeparated, chronological_split-IsSeparated}

abbrev monday : Session
monday = record { market_open = 100; market_close = 200 }

abbrev tuesday : Session
tuesday = record { market_open = 300; market_close = 400 }

abbrev calendar : Calendar
calendar = record { local_date = λ _. 1; schedule = λ _ _. monday ∷ tuesday ∷ [] }

calendar-IsCalendar : IsCalendar calendar
calendar-IsCalendar start_date end_date =
    (omega arith, ((omega arith, tt), (omega arith, (tt, tt))))

next_nyse_open-IsNextOpen_example :
    (t : Instant) × ((next_nyse_open calendar 150 ≡ returned t)
      × IsNextOpen 150 (monday ∷ tuesday ∷ []) t)
next_nyse_open-IsNextOpen_example =
    next_nyse_open-IsNextOpen calendar calendar-IsCalendar 150 tuesday (inr (inl refl))
      (omega arith)

entered : next_nyse_open calendar 50 ≡ returned 100
unfolding next_nyse_open
entered = refl

held : session_close_after calendar 100 2 ≡ returned 400
unfolding session_close_after ◌>>=◌ ensure
held = refl

events_validate_example : validate_timing 50 100 400 ≡ returned tt
events_validate_example = events_validate calendar calendar-IsCalendar 50 2 entered held

-- No embargo in sessions still leaves two days.
abbrev day : ℕ
day = 86400000000

abbrev boundaries : Boundaries
boundaries = record {
  development_end = 10 * day;
  validation_start = 11 * day;
  validation_end = 20 * day;
  test_start = 21 * day;
}

abbrev parts : TemporalSplit
parts = record { development = 8 * day ∷ []; validation = 15 * day ∷ []; test = 21 * day ∷ [] }

split :
    chronological_split (8 * day ∷ 9 * day ∷ 15 * day ∷ 19 * day ∷ 21 * day ∷ []) boundaries 0
    ≡ returned parts
unfolding chronological_split ◌>>=◌ ensure
split = refl

chronological_split-IsSeparated_example : IsSeparated (embargo_of 0) parts
chronological_split-IsSeparated_example =
    chronological_split-IsSeparated (8 * day ∷ 9 * day ∷ 15 * day ∷ 19 * day ∷ 21 * day ∷ [])
      boundaries 0 (omega arith) (omega arith) split
