-- ===== src/Stream/Delay/Release.antt =====
-- What `struct Delay` holds and releases: no event is lost or doubled, and what is held comes back
-- when its period is over.
use evsieve.Base.{
  ◌≡◌, refl, ap, ◌∙◌, ℕ, ◌+◌, ◌==◌, ==_refl, Bool, not, none, some, List, [], ◌∷◌, ◌++◌, retain,
  retain-append, length, length-append, Bool-cases, inl, inr, arith, if◌then◌else◌,
}
use mathlib.Core.List.{append-nil}
use evsieve.Platform.{Platform}
use evsieve.Event.{Event}
use evsieve.Time.{Instant, add, instant_le}
use evsieve.Loopback
use evsieve.Loopback.{Loopback, Token}
use evsieve.Stream.Delay.{Delay, is_delayed, apply_to_all, wakeup, release, hold}

-- How many events of a list pass a test.
abbrev pub count : (Event → Bool) → List Event → ℕ
count q events = length (retain q events)

abbrev pub count_held : (Event → Bool) → List (Token × List Event) → ℕ
count_held q [] = 0
count_held q (e ∷ rest) = count q e.1 + count_held q rest

count-append :
    (q : Event → Bool) (xs ys : List Event) → count q (xs ++ ys) ≡ count q xs + count q ys
count-append q xs ys = ap length (retain-append q xs ys) ∙ length-append (retain q xs) (retain q ys)

count_held-append :
    (q : Event → Bool) (xs ys : List (Token × List Event))
    → count_held q (xs ++ ys) ≡ count_held q xs + count_held q ys
count_held-append q [] ys = omega arith
count_held-append q (e ∷ xs) ys = omega (arith, count_held-append q xs ys)

-- A test splits a list in two.
count-split :
    (q r : Event → Bool) (events : List Event)
    → count q (retain r events) + count q (retain (λ e. not (r e)) events) ≡ count q events
count-split q r [] = refl
count-split q r (e ∷ events) = elim (Bool-cases (r e)) [
  | inl on ↦ elim (Bool-cases (q e)) [
    | inl a ↦ rw (on, a) (omega (arith, count-split q r events))
    | inr a ↦ rw (on, a) (omega (arith, count-split q r events))
  ]
  | inr off ↦ elim (Bool-cases (q e)) [
    | inl a ↦ rw (off, a) (omega (arith, count-split q r events))
    | inr a ↦ rw (off, a) (omega (arith, count-split q r events))
  ]
]

count-release :
    (q : Event → Bool) (token : Token) (held : List (Token × List Event))
    → count q ((release token held).0) + count_held q ((release token held).1) ≡ count_held q held
unfolding release
count-release q token [] = refl
count-release q token ((other, delayed) ∷ rest) = elim (Bool-cases (other == token)) [
  | inl e ↦
      rw (release, e)
        (omega (arith, count-release q token rest, count-append q delayed ((release token rest).0)))
  | inr n ↦ rw (release, n) (omega arith)
]

module _ ⦃p : Platform⦄ where
  count_held-hold :
      (q : Event → Bool) (d : Delay p) (events : List Event) (loopback : Loopback) (now : Instant)
      → count_held q ((hold d events loopback now).0.delayed_events)
        ≡ count_held q d.delayed_events + count q events
  count_held-hold q d [] loopback now = omega arith
  count_held-hold q d (e ∷ events) loopback now =
      count_held-append q d.delayed_events _ ∙ omega arith

  -- Of the events that pass any test, as many leave at once or are held as came in or were held.
  pub apply_conserves :
      (q : Event → Bool) (d : Delay p) (events : List Event) (loopback : Loopback) (now : Instant)
      → count q ((apply_to_all d events loopback now).0)
          + count_held q ((apply_to_all d events loopback now).1.delayed_events)
        ≡ count q events + count_held q d.delayed_events
  unfolding apply_to_all
  apply_conserves q d events loopback now = omega (
    arith,
    count-split q (is_delayed d) events,
    count_held-hold q d (retain (is_delayed d) events) loopback now,
  )

  -- Of the events that pass any test, a wakeup releases or keeps as many as were held.
  pub wakeup_conserves :
      (q : Event → Bool) (d : Delay p) (token : Token)
      → count q ((wakeup d token).0) + count_held q ((wakeup d token).1.delayed_events)
        ≡ count_held q d.delayed_events
  unfolding wakeup
  wakeup_conserves q d token = count-release q token d.delayed_events

  hold_due :
      (d : Delay p) (event : Event) (events : List Event) (loopback : Loopback)
      (now later : Instant)
      → loopback.schedule ≡ []
      → (Loopback.poll_once ((hold d (event ∷ events) loopback now).1) later).0 ≡ (
          if instant_le (add now d.period) later
          then some (add now d.period, (Loopback.generate_token loopback).0)
          else none)
  unfolding Loopback.schedule_wakeup_in Loopback.schedule_wakeup_at Loopback.generate_token
      Loopback.poll_once Loopback.sort_by_time Loopback.insert_by_time
  hold_due d event events loopback now later idle =
      elim (Bool-cases (instant_le (add now d.period) later)) [
        | inl due ↦ rw (idle, Loopback.poll_once, due)
        | inr early ↦ rw (idle, Loopback.poll_once, early)
      ]

  hold_woken :
      (d : Delay p) (event : Event) (events : List Event) (loopback : Loopback) (now : Instant)
      → d.delayed_events ≡ []
      → wakeup ((hold d (event ∷ events) loopback now).0) ((Loopback.generate_token loopback).0)
        ≡ (event ∷ events, d)
  unfolding Loopback.schedule_wakeup_in Loopback.schedule_wakeup_at Loopback.generate_token wakeup
      release
  hold_woken d event events loopback now empty =
      rw (empty, wakeup, release, ==_refl ((Loopback.generate_token loopback).0))
        (ap (λ a. (a, record d { delayed_events = [] })) (append-nil (event ∷ events)))

  -- A delay that holds nothing, with nothing else scheduled, and a list with a delayed event: nothing
  -- is due while the period is not over; then one wakeup is, which releases just the delayed events,
  -- in order, and leaves the delay as it was.
  pub released_in_time :
      (d : Delay p) (events : List Event) (event : Event) (held : List Event) (loopback : Loopback)
      (now later : Instant)
      → d.delayed_events ≡ []
      → loopback.schedule ≡ []
      → retain (is_delayed d) events ≡ event ∷ held
      → (token : Token) × ((Loopback.poll_once ((apply_to_all d events loopback now).2) later).0
          ≡ (if instant_le (add now d.period) later then some (add now d.period, token) else none))
        × (wakeup ((apply_to_all d events loopback now).1) token
            ≡ (retain (is_delayed d) events, d))
  unfolding apply_to_all
  released_in_time d events event held loopback now later empty idle some_held = (
    (Loopback.generate_token loopback).0,
    rw (apply_to_all, some_held) (hold_due d event held loopback now later idle),
    rw (apply_to_all, some_held) (hold_woken d event held loopback now empty),
  )
