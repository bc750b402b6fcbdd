-- ===== src/Loopback.antt =====
-- src/loopback.rs: the schedule of wakeups. A handle for a virtual moment is the loopback and that
-- moment.
pub mod Order
pub mod Tokens
use evsieve.Base.{
  ◌≡◌, ℕ, zero, suc, ◌+◌, ◌%◌, ◌^◌, ◌==◌, ltb, Bool, true, false, not, Option, none, some, List, [],
  ◌∷◌, ◌++◌, retain, if◌then◌else◌,
}
use evsieve.Time.{Instant, Duration, instant_le, checked_duration_since, as_millis, add}

abbrev pub Token : Type 0
Token = ℕ

abbrev pub Entry : Type 0
Entry = Instant × Token

pub record Loopback : Type 0 where
  pub schedule : List Entry
  pub token_index : ℕ

abbrev pub new : Loopback
new = record { schedule = []; token_index = 0 }

-- `sort_by_key(|(time, _)| *time)`, which is stable: an entry goes before those that are later.
unfoldable pub insert_by_time : Entry → List Entry → List Entry
insert_by_time e [] = e ∷ []
insert_by_time e (f ∷ rest) = if instant_le e.0 f.0 then e ∷ f ∷ rest else f ∷ insert_by_time e rest

unfoldable pub sort_by_time : List Entry → List Entry
unfolding insert_by_time
sort_by_time [] = []
sort_by_time (e ∷ rest) = insert_by_time e (sort_by_time rest)

abbrev pub is_due : Instant → Entry → Bool
is_due now e = instant_le e.0 now

abbrev take_first : List Entry → List Entry → Loopback → Option Entry × Loopback
take_first [] remaining l = (none, record l { schedule = remaining })
take_first (first ∷ ready) remaining l = (some first, record l { schedule = ready ++ remaining })

unfoldable pub poll_once : Loopback → Instant → Option Entry × Loopback
unfolding sort_by_time
poll_once l now =
    take_first (sort_by_time (retain (is_due now) l.schedule))
      (retain (λ e. not (is_due now e)) l.schedule) l

-- `token_index.wrapping_add(1)`.
unfoldable pub generate_token : Loopback → Token × Loopback
generate_token l =
    let index = (l.token_index + 1) % 2 ^ 64 in (index, record l { token_index = index })

unfoldable pub schedule_wakeup_at : Loopback → Instant → Token × Loopback
unfolding generate_token
schedule_wakeup_at l time =
    let (token, l') = generate_token l in
    (token, record l' { schedule = l'.schedule ++ (time, token) ∷ [] })

unfoldable pub schedule_wakeup_in : Loopback → Instant → Duration → Token × Loopback
unfolding schedule_wakeup_at
schedule_wakeup_in l now delay = schedule_wakeup_at l (add now delay)

unfoldable pub cancel_token : Loopback → Token → Loopback
cancel_token l token = record l { schedule = retain (λ e. not (token == e.1)) l.schedule }

pub data Delay : Type 0 where
  now : Delay
  never : Delay
  wait : ℕ → Delay

-- `Iterator::min` of the instants.
abbrev earliest : List Entry → Option Instant
earliest [] = none
earliest (e ∷ rest) = elim (earliest rest) [
  | none ↦ some e.0
  | some t ↦ some (if instant_le e.0 t then e.0 else t)
]

-- A wait that does not fit an `i32` is none at all, and one of 0 is no wait.
abbrev delay_of_millis : ℕ → Delay
delay_of_millis ms = if ltb ms 2147483648 then (if ms == 0 then now else wait ms) else never

abbrev delay_of_duration : Option Duration → Delay
delay_of_duration none = now
delay_of_duration (some d) = delay_of_millis (as_millis d)

unfoldable pub time_until_next_wakeup : Loopback → Instant → Delay
time_until_next_wakeup l clock = elim (earliest l.schedule) [
  | none ↦ never
  | some next ↦ delay_of_duration (checked_duration_since next clock)
]
