-- ===== src/Stream/Trigger.antt =====
-- `struct Tracker` and `struct Trigger` of src/stream/hook.rs: which keys of a hook are held down, and
-- when the hook activates and releases.
pub mod Invariant
pub mod Wakeup
use evsieve.Base.{
  ◌≡◌, ◌==◌, Bool, true, false, not, ◌&&◌, ◌||◌, Option, some, List, [], ◌∷◌, map, any, all, pos,
  if◌then◌else◌,
}
use evsieve.Platform.{Platform}
use evsieve.Range.Interval
use evsieve.Range.Interval.{Interval}
use evsieve.Event.{Event, Channel}
use evsieve.Key
use evsieve.Key.{Key}
use evsieve.Time.{Instant, Duration}
use evsieve.Loopback
use evsieve.Loopback.{Loopback, Token}

pub data ExpirationTime : Type 0 where
  never : ExpirationTime
  until : Token → ExpirationTime

pub data TrackerState : Type 0 where
  active : ExpirationTime → TrackerState
  inactive : TrackerState
  invalid : TrackerState

abbrev pub is_active_state : TrackerState → Bool
is_active_state (active t) = true
is_active_state inactive = false
is_active_state invalid = false

pub record Tracker (p : Platform) : Type 0 where
  pub key : Key p
  pub range : Interval
  pub state : TrackerState

pub data TriggerState : Type 0 where
  active : TriggerState
  inactive : TriggerState

pub data TriggerResponse : Type 0 where
  none : TriggerResponse
  interacts : TriggerResponse
  activates : TriggerResponse
  releases : TriggerResponse

pub record Trigger (p : Platform) : Type 0 where
  pub period : Option Duration
  pub sequential : Bool
  pub breaks_on : List (Key p)
  pub trackers : List (Tracker p)
  pub state : TriggerState

abbrev range_or : Option Interval → Interval
range_or Option.none = Interval.new (some (pos 1)) Option.none
range_or (some range) = range

-- `acquire_expiration_token`.
acquire_expiration_token : Option Duration → Loopback → Instant → ExpirationTime × Loopback
acquire_expiration_token Option.none loopback now = (never, loopback)
acquire_expiration_token (some duration) loopback now =
    let (token, loopback') = Loopback.schedule_wakeup_in loopback now duration in
    (until token, loopback')

module _ ⦃p : Platform⦄ where
  unfoldable pub new_tracker : Key p → Tracker p
  new_tracker key =
      let (key', popped) = Key.pop_value key in
      record { key = key'; range = range_or popped; state = TrackerState.inactive }

  abbrev pub is_active : Tracker p → Bool
  is_active tracker = is_active_state tracker.state

  unfoldable pub tracker_matches : Tracker p → Event → Bool
  tracker_matches tracker event = Key.matches tracker.key event

  unfoldable pub activates_by : Tracker p → Event → Bool
  activates_by tracker event = Interval.contains tracker.range event.value

  unfoldable pub new : List (Key p) → List (Key p) → Option Duration → Bool → Trigger p
  unfolding new_tracker
  new keys breaks_on period sequential = record {
    period = period;
    sequential = sequential;
    breaks_on = breaks_on;
    trackers = map new_tracker keys;
    state = TriggerState.inactive;
  }

  -- An inactive tracker is activated; another keeps its state.
  activate : Option Duration → Tracker p → Instant → TrackerState → Loopback → Tracker p × Loopback
  unfolding acquire_expiration_token
  activate period tracker now inactive loopback =
      let (expiration, loopback') = acquire_expiration_token period loopback now in
      (record tracker { state = TrackerState.active expiration }, loopback')
  activate period tracker now (active t) loopback = (tracker, loopback)
  activate period tracker now invalid loopback = (tracker, loopback)

  touch : Option Duration → Tracker p → Event → Instant → Loopback → Tracker p × Loopback
  unfolding activate activates_by
  touch period tracker event now loopback =
      if activates_by tracker event
      then activate period tracker now tracker.state loopback
      else (record tracker { state = TrackerState.inactive }, loopback)

  -- The first loop of `apply`: whether any tracker matched, the trackers and the loopback.
  touch_all :
      Option Duration
      → List (Tracker p)
      → Event
      → Instant
      → Loopback
      → Bool × List (Tracker p) × Loopback
  unfolding touch tracker_matches
  touch_all period [] event now loopback = (false, [], loopback)
  touch_all period (tracker ∷ rest) event now loopback =
      let matched = tracker_matches tracker event in
      let (tracker', loopback') =
        if matched then touch period tracker event now loopback else (tracker, loopback) in
      let (any_matched, rest', loopback'') = touch_all period rest event now loopback' in
      (matched || any_matched, tracker' ∷ rest', loopback'')

  -- Active trackers become invalid.
  pub invalidate : Tracker p → Tracker p
  invalidate tracker =
      if is_active tracker then record tracker { state = TrackerState.invalid } else tracker

  -- The trackers after the leading active ones that are active are invalidated.
  pub invalidate_out_of_order : List (Tracker p) → List (Tracker p)
  unfolding invalidate
  invalidate_out_of_order [] = []
  invalidate_out_of_order (tracker ∷ rest) =
      if is_active tracker
      then tracker ∷ invalidate_out_of_order rest
      else map invalidate (tracker ∷ rest)

  abbrev pub all_active : List (Tracker p) → Bool
  all_active trackers = all is_active trackers

  -- A tracker of a hook that has activated does not expire.
  abbrev hold_forever : Tracker p → Tracker p
  hold_forever tracker = record tracker { state = TrackerState.active never }

  -- The final `match` on the old state and on whether all trackers are active.
  respond : Trigger p → List (Tracker p) → TriggerState → Bool → TriggerResponse × Trigger p
  respond trigger trackers inactive true = (
    activates,
    record trigger { trackers = map hold_forever trackers; state = TriggerState.active },
  )
  respond trigger trackers active false =
      (releases, record trigger { trackers = trackers; state = TriggerState.inactive })
  respond trigger trackers active true = (interacts, record trigger { trackers = trackers })
  respond trigger trackers inactive false = (interacts, record trigger { trackers = trackers })

  settle : Trigger p → List (Tracker p) → TriggerResponse × Trigger p
  unfolding invalidate_out_of_order respond
  settle trigger trackers =
      let ordered = if trigger.sequential then invalidate_out_of_order trackers else trackers in
      respond trigger ordered trigger.state (all_active ordered)

  -- The `breaks_on` branch, where no tracker matched.
  break_or_ignore : Trigger p → List (Tracker p) → Event → TriggerResponse × Trigger p
  unfolding settle
  break_or_ignore trigger trackers event =
      if any (λ key. Key.matches key event) trigger.breaks_on && any is_active trackers
      then settle trigger (map invalidate trackers)
      else (none, record trigger { trackers = trackers })

  unfoldable pub apply :
      Trigger p → Event → Loopback → Instant → TriggerResponse × Trigger p × Loopback
  unfolding touch_all break_or_ignore
  apply trigger event loopback now =
      let (any_matched, trackers, loopback') =
        touch_all trigger.period trigger.trackers event now loopback in
      let (response, trigger') =
        if any_matched then settle trigger trackers else break_or_ignore trigger trackers event in
      (response, trigger', loopback')

  expires_by : Token → TrackerState → Bool
  expires_by token (active (until other)) = token == other
  expires_by token (active never) = false
  expires_by token inactive = false
  expires_by token invalid = false

  expire : Token → Tracker p → Tracker p
  unfolding expires_by
  expire token tracker =
      if expires_by token tracker.state
      then record tracker { state = TrackerState.invalid }
      else tracker

  unfoldable pub wakeup : Trigger p → Token → Bool × Trigger p
  unfolding expire
  wakeup trigger token = (
    any (λ tracker. expires_by token tracker.state) trigger.trackers,
    record trigger { trackers = map (expire token) trigger.trackers },
  )

  unfoldable pub has_active_tracker_matching_channel : Trigger p → Channel → Bool
  has_active_tracker_matching_channel trigger channel =
      any (λ tracker. is_active tracker && Key.matches_channel tracker.key channel) trigger.trackers

  unfoldable pub has_tracker_matching_channel : Trigger p → Channel → Bool
  has_tracker_matching_channel trigger channel =
      any (λ tracker. Key.matches_channel tracker.key channel) trigger.trackers

  -- `Tracker::clone_empty`.
  abbrev cleared : Tracker p → Tracker p
  cleared tracker = record tracker { state = TrackerState.inactive }

  unfoldable pub clone_empty : Trigger p → Trigger p
  clone_empty trigger = record trigger {
    trackers = map cleared trigger.trackers;
    state = TriggerState.inactive;
  }
