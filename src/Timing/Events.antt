-- ===== src/Timing/Events.antt =====
-- The entry and the horizon of a filing.
use edgar_moe.Common.{
  ℕ, zero, suc, ◌+◌, ◌≤◌, ◌<◌, true, false, ◌≡◌, refl, ap, inl, inr, List, [], ◌∷◌, nat_eq, ltb,
  leb, arith, All, All-map, Member, Bool-cases,
}
use edgar_moe.Common.Outcomes.{
  Outcome, returned, raised, ensure, Returns, Returns-ensure, Returns-ok,
}
use edgar_moe.Registry.Records.{Instant}
use edgar_moe.Timing.{
  Session, Calendar, TimeError, first_open_after, opening_from, close_at, next_nyse_open,
  session_close_after, validate_timing,
}

-- The sessions are listed by their opening times, and each closes after it opens.
abbrev pub IsOrdered : List Session → Type 0
IsOrdered [] = Unit
IsOrdered (s ∷ ss) =
    (s.market_open < s.market_close)
    × (All (λ (t : Session). s.market_open < t.market_open) ss × IsOrdered ss)

-- What is relied on of the exchange calendar.
abbrev pub IsCalendar : Calendar → Type 0
IsCalendar cal = (start_date end_date : ℕ) → IsOrdered (cal.schedule start_date end_date)

-- The first opening after an instant: a session opens then, and every other session that opens after
-- the instant opens no earlier.
pub record IsNextOpen (accepted : Instant) (ss : List Session) (open_at : Instant) : Type 0 where
  pub later : accepted < open_at
  pub session : Session
  pub listed : Member session ss
  pub opens : session.market_open ≡ open_at
  pub first : All (λ (t : Session). accepted < t.market_open → open_at ≤ t.market_open) ss

less_of : (a b : ℕ) → ltb a b ≡ true → a < b
less_of a b h = ground arith

not_less_of : (a b : ℕ) → ltb a b ≡ false → b ≤ a
not_less_of a b h = ground arith

module _ (accepted : Instant) where
  IsNextOpen-here :
      (s : Session) (ss : List Session)
      → accepted < s.market_open
      → All (λ (t : Session). s.market_open < t.market_open) ss
      → IsNextOpen accepted (s ∷ ss) s.market_open
  IsNextOpen-here s ss now ordered = record {
    later = now;
    session = s;
    listed = inl refl;
    opens = refl;
    first = (
      λ _. omega arith,
      All-map (λ (t : Session). s.market_open < t.market_open)
          (λ (t : Session). accepted < t.market_open → s.market_open ≤ t.market_open)
          (λ t before _. omega (arith, before)) ss ordered,
    );
  }

  IsNextOpen-there :
      (s : Session) (ss : List Session) (r : Outcome TimeError Instant)
      → s.market_open ≤ accepted
      → Returns (IsNextOpen accepted ss) r
      → Returns (IsNextOpen accepted (s ∷ ss)) r
  IsNextOpen-there s ss (raised e) past k = tt
  IsNextOpen-there s ss (returned t) past k = record {
    later = k.later;
    session = k.session;
    listed = inr k.listed;
    opens = k.opens;
    first = (λ now. absurd (omega (arith, past, now)), k.first);
  }

  first_open_after-IsNextOpen :
      (ss : List Session)
      → IsOrdered ss
      → Returns (IsNextOpen accepted ss) (first_open_after accepted ss)
  first_open_after-IsNextOpen [] h = tt
  first_open_after-IsNextOpen (s ∷ ss) (day, (ordered, rest)) =
      elim (Bool-cases (ltb accepted s.market_open)) [
        | inl now ↦ rw now (IsNextOpen-here s ss (less_of accepted s.market_open now) ordered)
        | inr past ↦ rw past (
            IsNextOpen-there s ss (first_open_after accepted ss)
              (not_less_of accepted s.market_open past) (first_open_after-IsNextOpen ss rest))
      ]

  -- Among the sessions that open after the instant one is found.
  first_open_after-returns :
      (ss : List Session) (s : Session)
      → Member s ss
      → accepted < s.market_open
      → (t : Instant) × (first_open_after accepted ss ≡ returned t)
  first_open_after-returns [] s m h = absurd m
  first_open_after-returns (x ∷ xs) s m h = elim (Bool-cases (ltb accepted x.market_open)) [
    | inl now ↦ rw now (x.market_open, refl)
    | inr past ↦ elim m [
      | inl e ↦ absurd (
          omega (
            arith,
            h,
            not_less_of accepted x.market_open past,
            ap (λ (t : Session). t.market_open) e,
          ))
      | inr deeper ↦ rw past (first_open_after-returns xs s deeper h)
    ]
  ]

module _ (cal : Calendar) (is_calendar : IsCalendar cal) (accepted : Instant) where
  abbrev ten_days : List Session
  ten_days = cal.schedule (cal.local_date accepted) (cal.local_date accepted + 10)

  -- With a calendar in order: if the exchange opens again within ten days of the filing, an entry is
  -- found, and it is the first opening after the filing was accepted.
  pub next_nyse_open-IsNextOpen :
      (s : Session)
      → Member s ten_days
      → accepted < s.market_open
      → (t : Instant) × ((next_nyse_open cal accepted ≡ returned t)
          × IsNextOpen accepted ten_days t)
  unfolding next_nyse_open
  next_nyse_open-IsNextOpen s listed opens =
      let (t, e) = first_open_after-returns accepted ten_days s listed opens in
      (t, (e, Returns-ok _ _ (first_open_after-IsNextOpen accepted ten_days (is_calendar _ _)) e))

  opening_from-All :
      (entry : Instant) (ss : List Session)
      → IsOrdered ss
      → All (λ (s : Session). entry < s.market_close) (opening_from entry ss)
  opening_from-All entry [] h = tt
  opening_from-All entry (s ∷ ss) (day, (ordered, rest)) =
      elim (Bool-cases (leb entry s.market_open)) [
        | inl from ↦ rw from (
          closes_later entry s.market_open s.market_close from day,
          opening_from-All entry ss rest,
        )
        | inr before ↦ rw before (opening_from-All entry ss rest)
      ]
    where
      closes_later : (a b c : ℕ) → leb a b ≡ true → b < c → a < c
      closes_later a b c h k = ground arith

  close_at-All :
      (P : Instant → Type 0) (n : ℕ) (ss : List Session)
      → All (λ (s : Session). P s.market_close) ss
      → Returns P (close_at n ss)
  close_at-All P n [] h = tt
  close_at-All P zero (s ∷ ss) h = h.0
  close_at-All P (suc n) (s ∷ ss) h = close_at-All P n ss h.1

  session_close_after-later :
      (entry : Instant) (sessions : ℕ)
      → Returns (λ horizon. entry < horizon) (session_close_after cal entry sessions)
  unfolding session_close_after
  session_close_after-later entry sessions = Returns-ensure _ _ _ _ λ positive.
      Returns-ensure _ _ _ _
        λ enough. close_at-All _ _ _ (opening_from-All entry _ (is_calendar _ _))

  -- With a calendar in order: a filing whose entry is the next opening and whose horizon is the close
  -- of any later session has event times that the filing contract accepts.
  pub events_validate :
      (sessions : ℕ) {entry horizon : Instant}
      → next_nyse_open cal accepted ≡ returned entry
      → session_close_after cal entry sessions ≡ returned horizon
      → validate_timing accepted entry horizon ≡ returned tt
  unfolding next_nyse_open validate_timing ensure
  events_validate sessions {entry} {horizon} e h =
      let next =
        Returns-ok _ _ (first_open_after-IsNextOpen accepted ten_days (is_calendar _ _)) e in
      let later = Returns-ok _ _ (session_close_after-later entry sessions) h in
      rw (less_true accepted entry next.later, less_true entry horizon later) refl
    where
      less_true : (a b : ℕ) → a < b → ltb a b ≡ true
      less_true a b h = ground arith
