-- ===== src/Examples/Times.antt =====
-- Instances of the laws on instants and on the schedule.
use evsieve.Base.{◌≡◌, ◌≢◌, ◌↔◌, refl, ℕ, some, [], ◌∷◌, All, retain, arith, pos, ◌+ℤ◌, true}
use evsieve.Time.{Instant, Duration, add, checked_duration_since, nanoseconds_per_second}
use evsieve.Time.Laws.{IsInstant, Ranged, checked_duration_since-add, IsInstant-add_iff}
use evsieve.Loopback.{Loopback, poll_once, schedule_wakeup_at, is_due}
use evsieve.Loopback.Order.{poll_once-some, NoEarlier, is_at}
use evsieve.Loopback.Tokens.{IsValid, schedule_wakeup_at-IsValid}

abbrev late : Instant
late = record { sec = pos 7; nsec = pos 600000000 }

abbrev half : Duration
half = record { sec = 2; nsec = 500000000 }

late-Ranged : Ranged late half
late-Ranged = record {
  instant = omega arith;
  duration = omega arith;
  modest = omega arith;
  short = omega arith;
}

checked_duration_since-add_example : checked_duration_since (add late half) late ≡ some half
checked_duration_since-add_example = checked_duration_since-add late half late-Ranged

IsInstant-add_iff_example :
    IsInstant (add late half) ↔ (late.nsec +ℤ pos half.nsec ≢ pos nanoseconds_per_second)
IsInstant-add_iff_example = IsInstant-add_iff late half late-Ranged

abbrev second : ℕ → Instant
second n = record { sec = pos n; nsec = pos 0 }

abbrev three : Loopback
three = record { schedule = (second 5, 1) ∷ (second 3, 2) ∷ (second 9, 3) ∷ []; token_index = 3 }

three-IsValid : IsValid three
three-IsValid = record { handed_out = omega arith; distinct = omega arith }

poll_once-some_example :
    (is_due (second 6) (second 3, 2) ≡ true)
    × NoEarlier (second 3) three.schedule
    × ((u : Instant)
        → retain (is_at u) ((second 3, 2) ∷ (second 5, 1) ∷ (second 9, 3) ∷ [])
          ≡ retain (is_at u) three.schedule)
unfolding poll_once
poll_once-some_example =
    poll_once-some three (record three { schedule = (second 5, 1) ∷ (second 9, 3) ∷ [] }) (second 6)
      (second 3, 2) refl

schedule_wakeup_at-IsValid_example :
    All (λ e. e.1 ≢ (schedule_wakeup_at three (second 4)).0) three.schedule
    × IsValid (schedule_wakeup_at three (second 4)).1
schedule_wakeup_at-IsValid_example =
    schedule_wakeup_at-IsValid three (second 4) (omega arith) three-IsValid
