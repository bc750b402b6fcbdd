-- ===== src/Stream/Run.antt =====
-- src/stream.rs: the stream of entries, `run_events`, `run_wakeup`, and `struct Setup` with the output
-- device as the sequence of calls that it receives. A panic is an outcome of its own.
pub mod Laws
use evsieve.Base.{
  ◌≡◌, ℕ, zero, suc, Bool, true, false, ◌&&◌, Option, none, some, List, [], ◌∷◌, ◌++◌, length,
  if◌then◌else◌,
}
use evsieve.Platform.{Platform}
use evsieve.Event.{Event, EventCode, code_eq, msc_scan, is_syn}
use evsieve.State.{State}
use evsieve.Time.{Instant}
use evsieve.Loopback
use evsieve.Loopback.{Loopback, Token}
use evsieve.Stream.Map
use evsieve.Stream.Map.{Map}
use evsieve.Stream.Toggle
use evsieve.Stream.Toggle.{Toggle}
use evsieve.Stream.Merge
use evsieve.Stream.Merge.{Merge}
use evsieve.Stream.Delay
use evsieve.Stream.Delay.{Delay}
use evsieve.Stream.Hook
use evsieve.Stream.Hook.{Hook}
use evsieve.Stream.Withhold
use evsieve.Stream.Withhold.{HookGroup}
use evsieve.Stream.Scale
use evsieve.Stream.Scale.{Scale, RelToAbs}
use evsieve.Stream.CapabilityOverride.{CapabilityOverride}
use evsieve.Capability.{Capability}
use evsieve.Capability.Device.{InputCapabilities}

pub data StreamEntry (p : Platform) : Type 0 where
  map : Map p → StreamEntry p
  hook : Hook p → StreamEntry p
  hook_group : HookGroup p → StreamEntry p
  toggle : Toggle p → StreamEntry p
  print : StreamEntry p
  merge : Merge p → StreamEntry p
  scale : Scale p → StreamEntry p
  rel_to_abs : RelToAbs p → StreamEntry p
  delay : Delay p → StreamEntry p
  capability_override : CapabilityOverride → StreamEntry p

-- The calls that the output devices get, in order.
pub data OutputCall : Type 0 where
  route_events : List Event → OutputCall
  synchronize : OutputCall
  update_caps : List Capability → OutputCall

-- What runs of the stream change, and the events that they write.
pub record Outcome (p : Platform) : Type 0 where
  pub events_out : List Event
  pub stream : List (StreamEntry p)
  pub state : State
  pub loopback : Loopback

pub record Setup (p : Platform) : Type 0 where
  pub stream : List (StreamEntry p)
  pub output : List OutputCall
  pub state : State
  pub loopback : Loopback
  pub staged_events : List Event
  pub input_caps : InputCapabilities

module _ ⦃p : Platform⦄ where
  abbrev pub Step : Type 0
  Step = List Event × StreamEntry p × State × Loopback

  abbrev pub toggled : Toggle p → Loopback → Option (List Event × State) → Option Step
  toggled t loopback none = none
  toggled t loopback (some (events, state)) = some (events, toggle t, state, loopback)

  -- One round of the loop in `run_events`.
  unfoldable pub step_entry : StreamEntry p → List Event → State → Loopback → Instant → Option Step
  step_entry (map m) events state loopback now =
      some (Map.apply_to_all m events, map m, state, loopback)
  step_entry (toggle t) events state loopback now =
      toggled t loopback (Toggle.apply_to_all t events state)
  step_entry (merge m) events state loopback now =
      let (out, m') = Merge.apply_to_all m events in some (out, merge m', state, loopback)
  step_entry (rel_to_abs r) events state loopback now =
      let (out, r') = Scale.apply_all_rel_to_abs r events in
      some (out, rel_to_abs r', state, loopback)
  step_entry (hook h) events state loopback now =
      let (out, h', state', loopback') = Hook.apply_to_all h events state loopback now in
      some (out, hook h', state', loopback')
  step_entry (hook_group g) events state loopback now =
      let (out, g', state', loopback') = Withhold.group_apply_to_all g events state loopback now in
      some (out, hook_group g', state', loopback')
  step_entry (scale s) events state loopback now =
      let (out, s') = Scale.apply_to_all s events in some (out, scale s', state, loopback)
  step_entry (delay d) events state loopback now =
      let (out, d', loopback') = Delay.apply_to_all d events loopback now in
      some (out, delay d', state, loopback')
  step_entry print events state loopback now = some (events, print, state, loopback)
  step_entry (capability_override o) events state loopback now =
      some (events, capability_override o, state, loopback)

  abbrev pub with_entry : StreamEntry p → Option (Outcome p) → Option (Outcome p)
  with_entry entry none = none
  with_entry entry (some o) = some (record o { stream = entry ∷ o.stream })

  -- `run_events`; `none` is a panic.
  unfoldable pub run_events :
      List Event → List (StreamEntry p) → State → Loopback → Instant → Option (Outcome p)
  unfolding step_entry
  run_events events [] state loopback now =
      some (record { events_out = events; stream = []; state = state; loopback = loopback })
  run_events events (entry ∷ rest) state loopback now =
      elim (step_entry entry events state loopback now) [
        | none ↦ none
        | some (events', entry', state', loopback') ↦
            with_entry entry' (run_events events' rest state' loopback' now)
      ]

  -- The `match` in `run_wakeup`.
  unfoldable pub wake_entry : StreamEntry p → Token → List Event × StreamEntry p
  wake_entry (hook h) token = ([], hook (Hook.wakeup h token))
  wake_entry (hook_group g) token =
      let (events, g') = Withhold.group_wakeup g token in (events, hook_group g')
  wake_entry (delay d) token = let (events, d') = Delay.wakeup d token in (events, delay d')
  wake_entry (map m) token = ([], map m)
  wake_entry (toggle t) token = ([], toggle t)
  wake_entry (merge m) token = ([], merge m)
  wake_entry print token = ([], print)
  wake_entry (scale s) token = ([], scale s)
  wake_entry (rel_to_abs r) token = ([], rel_to_abs r)
  wake_entry (capability_override o) token = ([], capability_override o)

  -- Events that an entry releases go through the entries after it.
  abbrev run_released :
      List Event → List (StreamEntry p) → State → Loopback → Instant → Option (Outcome p)
  run_released [] rest state loopback now =
      some (record { events_out = []; stream = rest; state = state; loopback = loopback })
  run_released (event ∷ events) rest state loopback now =
      run_events (event ∷ events) rest state loopback now

  abbrev after_released : StreamEntry p → List Event → Option (Outcome p) → Option (Outcome p)
  after_released entry first none = none
  after_released entry first (some o) =
      some (record o { events_out = first ++ o.events_out; stream = entry ∷ o.stream })

  -- The loop over the indices, with the number of entries that are left.
  wake_loop : ℕ → Token → List (StreamEntry p) → State → Loopback → Instant → Option (Outcome p)
  unfolding wake_entry run_events
  wake_loop zero token stream state loopback now =
      some (record { events_out = []; stream = stream; state = state; loopback = loopback })
  wake_loop (suc n) token [] state loopback now =
      some (record { events_out = []; stream = []; state = state; loopback = loopback })
  wake_loop (suc n) token (entry ∷ rest) state loopback now =
      let (events, entry') = wake_entry entry token in
      elim (run_released events rest state loopback now) [
        | none ↦ none
        | some o ↦
            after_released entry' o.events_out (wake_loop n token o.stream o.state o.loopback now)
      ]

  unfoldable pub run_wakeup :
      Token → List (StreamEntry p) → State → Loopback → Instant → Option (Outcome p)
  unfolding wake_loop
  run_wakeup token stream state loopback now =
      wake_loop (length stream) token stream state loopback now

  -- `Setup::create`.
  abbrev pub create : List (StreamEntry p) → State → InputCapabilities → Setup p
  create stream state input_caps = record {
    stream = stream;
    output = [];
    state = state;
    loopback = Loopback.new;
    staged_events = [];
    input_caps = input_caps;
  }

  unfoldable pub syn : Setup p → Setup p
  syn s = record s {
    output = s.output ++ route_events s.staged_events ∷ synchronize ∷ [];
    staged_events = [];
  }

  -- Each of several events gets a SYN of its own.
  stage_each : Setup p → List Event → Setup p
  unfolding syn
  stage_each s [] = s
  stage_each s (event ∷ events) =
      stage_each (syn (record s { staged_events = s.staged_events ++ event ∷ [] })) events

  unfoldable pub stage : Setup p → List Event → Setup p
  unfolding stage_each
  stage s [] = s
  stage s (event ∷ []) = record s { staged_events = s.staged_events ++ event ∷ [] }
  stage s (event ∷ event' ∷ events) = stage_each s (event ∷ event' ∷ events)

  abbrev resume : Setup p → Outcome p → Setup p
  resume s o = record s { stream = o.stream; state = o.state; loopback = o.loopback }

  abbrev staged : Setup p → Option (Outcome p) → Option (Setup p)
  staged s none = none
  staged s (some o) = some (stage (resume s o) o.events_out)

  -- `Setup::run`; `auto_scan` is the feature of that name.
  unfoldable pub run : Bool → Setup p → Instant → Event → Option (Setup p)
  unfolding stage run_events
  run auto_scan s time event =
      if is_syn event.code.ev_type
      then some (syn s)
      else if auto_scan && code_eq event.code msc_scan
      then some s
      else staged s (run_events (event ∷ []) s.stream s.state s.loopback time)

  abbrev synced : Setup p → Option (Outcome p) → Option (Setup p)
  synced s none = none
  synced s (some o) =
      some (syn (record (resume s o) { staged_events = s.staged_events ++ o.events_out }))

  -- One round of the loop in `wakeup_until`: no token is due, or one was handled.
  unfoldable pub wake_once : Setup p → Instant → Option (Option (Setup p))
  unfolding run_wakeup
  wake_once s now =
      let (first, loopback) = Loopback.poll_once s.loopback now in
      elim first [
        | none ↦ none
        | some (instant, token) ↦ some (
            synced (record s { loopback = loopback })
              (run_wakeup token s.stream s.state loopback instant))
      ]

-- The result of `wakeup_until`, whose loop takes fuel.
pub data WakeupResult (p : Platform) : Type 0 where
  idle : Setup p → WakeupResult p
  panicked : WakeupResult p
  out_of_fuel : WakeupResult p

module _ ⦃p : Platform⦄ where
  unfoldable pub wakeup_until : ℕ → Setup p → Instant → WakeupResult p
  unfolding wake_once
  wakeup_until zero s now = out_of_fuel
  wakeup_until (suc fuel) s now = elim (wake_once s now) [
    | none ↦ idle (record s { loopback = (Loopback.poll_once s.loopback now).1 })
    | some none ↦ panicked
    | some (some s') ↦ wakeup_until fuel s' now
  ]
