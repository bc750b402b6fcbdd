-- ===== src/Stream/Hook.antt =====
-- `struct Hook`, `struct HookActuator` and `struct EventDispatcher` of src/stream/hook.rs. A sink is
-- the list of what is pushed to it, each event with its additional data; `new_data` is the data of
-- an event that the hook creates. An effect is a function on the state (starting a subprocess, which
-- leaves the state alone, is the identity).
use evsieve.Base.{Option, none, some, List, [], ◌∷◌, ◌++◌, map, if◌then◌else◌}
use evsieve.Platform.{Platform}
use evsieve.Range.Sets
use evsieve.Range.Sets.{Set}
use evsieve.Event.{Event}
use evsieve.Capability.{Capability, with_values}
use evsieve.Key
use evsieve.Key.{Key}
use evsieve.Time.{Instant}
use evsieve.Loopback.{Loopback, Token}
use evsieve.State.{State}
use evsieve.Stream.Trigger
use evsieve.Stream.Trigger.{Trigger, TriggerResponse, Tracker}

pub record EventDispatcher (p : Platform) : Type 0 where
  pub on_press : List (Key p)
  pub on_release : List (Key p)
  pub activating_event : Option Event

abbrev pub Effect : Type 0
Effect = State → State

pub record HookActuator (p : Platform) : Type 0 where
  pub effects : List Effect
  pub release_effects : List Effect
  pub event_dispatcher : EventDispatcher p

pub record Hook (p : Platform) : Type 0 where
  pub trigger : Trigger p
  pub actuator : HookActuator p

-- The effects run in turn.
abbrev pub run_effects : List Effect → State → State
run_effects [] state = state
run_effects (effect ∷ rest) state = run_effects rest (effect state)

abbrev pub or_event : Option Event → Event → Event
or_event (some e) default = e
or_event none default = default

module _ ⦃p : Platform⦄ where
  -- The events that the keys make of one event.
  abbrev pub sent : {U : Type 0} → List (Key p) → Event → U → List (Event × U)
  sent keys event new_data = map (λ key. (Key.merge key event, new_data)) keys

  unfoldable pub map_event :
      {U : Type 0}
      → EventDispatcher p
      → Event
      → U
      → U
      → TriggerResponse
      → List (Event × U) × EventDispatcher p
  map_event d event event_data new_data TriggerResponse.activates = (
    (event, event_data) ∷ sent d.on_press event new_data,
    record d { activating_event = some event },
  )
  map_event d event event_data new_data TriggerResponse.releases = (
    sent d.on_release (or_event d.activating_event event) new_data ++ (event, event_data) ∷ [],
    d,
  )
  map_event d event event_data new_data TriggerResponse.interacts = ((event, event_data) ∷ [], d)
  map_event d event event_data new_data TriggerResponse.none = ((event, event_data) ∷ [], d)

  unfoldable pub effects_for : HookActuator p → TriggerResponse → State → State
  effects_for a TriggerResponse.activates state = run_effects a.effects state
  effects_for a TriggerResponse.releases state = run_effects a.release_effects state
  effects_for a TriggerResponse.interacts state = state
  effects_for a TriggerResponse.none state = state

  unfoldable pub apply_response :
      {U : Type 0}
      → HookActuator p
      → TriggerResponse
      → Event
      → U
      → U
      → State
      → List (Event × U) × HookActuator p × State
  unfolding map_event effects_for
  apply_response a response event event_data new_data state =
      let (events, d) = map_event a.event_dispatcher event event_data new_data response in
      (events, record a { event_dispatcher = d }, effects_for a response state)

  unfoldable pub apply :
      Hook p → Event → State → Loopback → Instant → List Event × Hook p × State × Loopback
  unfolding apply_response
  apply hook event state loopback now =
      let (response, trigger, loopback') = Trigger.apply hook.trigger event loopback now in
      let (events, actuator, state') = apply_response hook.actuator response event tt tt state in
      (map (λ e. e.0) events, record { trigger = trigger; actuator = actuator }, state', loopback')

  unfoldable pub apply_to_all :
      Hook p → List Event → State → Loopback → Instant → List Event × Hook p × State × Loopback
  unfolding apply
  apply_to_all hook [] state loopback now = ([], hook, state, loopback)
  apply_to_all hook (event ∷ events) state loopback now =
      let (first, hook', state', loopback') = apply hook event state loopback now in
      let (rest, hook'', state'', loopback'') = apply_to_all hook' events state' loopback' now in
      (first ++ rest, hook'', state'', loopback'')

  unfoldable pub wakeup : Hook p → Token → Hook p
  wakeup hook token = record hook { trigger = (Trigger.wakeup hook.trigger token).1 }

  -- The union of the values that might match a key of the trigger; `none` is a panic.
  matching_values : List (Key p) → Capability → Set → Option Set
  matching_values [] cap acc = some acc
  matching_values (key ∷ keys) cap acc = elim (Key.matches_cap key cap) [
    | none ↦ none
    | some (certainty, values) ↦ matching_values keys cap (Sets.union acc values)
  ]

  additional_caps : EventDispatcher p → Capability → Set → List Capability
  additional_caps d cap values =
      if Sets.is_empty values
      then []
      else map (λ key. Key.merge_cap key (with_values cap values)) (d.on_press ++ d.on_release)

  -- The source collects the capabilities in a `HashSet`, whose order it does not fix; the list may
  -- repeat a capability.
  generate_additional_caps :
      EventDispatcher p → List (Key p) → List Capability → Option (List Capability)
  unfolding matching_values additional_caps
  generate_additional_caps d keys [] = some []
  generate_additional_caps d keys (cap ∷ caps) = elim (matching_values keys cap Sets.empty) [
    | none ↦ none
    | some values ↦ elim (generate_additional_caps d keys caps) [
      | none ↦ none
      | some rest ↦ some (additional_caps d cap values ++ rest)
    ]
  ]

  unfoldable pub apply_to_all_caps : Hook p → List Capability → Option (List Capability)
  unfolding generate_additional_caps
  apply_to_all_caps hook caps =
      elim (generate_additional_caps hook.actuator.event_dispatcher
        (map (λ (t : Tracker p). t.key) hook.trigger.trackers) caps) [
          | none ↦ none
          | some more ↦ some (caps ++ more)
        ]
