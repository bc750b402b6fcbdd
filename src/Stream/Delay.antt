-- ===== src/Stream/Delay.antt =====
-- `struct Delay` of src/stream/delay.rs: events that come back into the stream after a period.
pub mod Release
use evsieve.Base.{
  ◌≡◌, ◌==◌, Bool, true, false, not, List, [], ◌∷◌, ◌++◌, any, retain, if◌then◌else◌,
}
use evsieve.Platform.{Platform}
use evsieve.Event.{Event}
use evsieve.Key
use evsieve.Key.{Key}
use evsieve.Time.{Instant, Duration}
use evsieve.Loopback
use evsieve.Loopback.{Loopback, Token}

pub record Delay (p : Platform) : Type 0 where
  pub keys : List (Key p)
  pub period : Duration
  pub delayed_events : List (Token × List Event)

-- The `while let` loop: what it releases, and what stays.
release : Token → List (Token × List Event) → List Event × List (Token × List Event)
release token [] = ([], [])
release token ((wakeup_token, delayed) ∷ rest) =
    let later = release token rest in
    if wakeup_token == token
    then (delayed ++ later.0, later.1)
    else ([], (wakeup_token, delayed) ∷ rest)

module _ ⦃p : Platform⦄ where
  abbrev pub new : List (Key p) → Duration → Delay p
  new keys period = record { keys = keys; period = period; delayed_events = [] }

  unfoldable pub is_delayed : Delay p → Event → Bool
  is_delayed d event = any (λ key. Key.matches key event) d.keys

  abbrev hold : Delay p → List Event → Loopback → Instant → Delay p × Loopback
  hold d [] loopback now = (d, loopback)
  hold d (event ∷ events) loopback now =
      let (wakeup_token, loopback') = Loopback.schedule_wakeup_in loopback now d.period in
      (
        record d { delayed_events = d.delayed_events ++ (wakeup_token, event ∷ events) ∷ [] },
        loopback',
      )

  -- The events that pass, the new state and the loopback.
  unfoldable pub apply_to_all :
      Delay p → List Event → Loopback → Instant → List Event × Delay p × Loopback
  unfolding is_delayed
  apply_to_all d events loopback now =
      let (d', loopback') = hold d (retain (is_delayed d) events) loopback now in
      (retain (λ event. not (is_delayed d event)) events, d', loopback')

  unfoldable pub wakeup : Delay p → Token → List Event × Delay p
  unfolding release
  wakeup d token =
      let (events, rest) = release token d.delayed_events in
      (events, record d { delayed_events = rest })
