-- ===== src/Stream/Withhold.antt =====
-- `struct Withhold` and `struct HookGroup` of src/stream/withhold.rs: events that hooks react to are held
-- back until the hooks activate, which consumes them, or can no longer activate.
pub mod Entries
pub mod Held
pub mod Indices
pub mod Release
pub mod Series
use evsieve.Base.{
  ◌≡◌, ℕ, zero, suc, ◌==◌, leb, Bool, true, false, not, ◌&&◌, ◌||◌, Option, none, some, List, [],
  ◌∷◌, ◌++◌, map, any, retain, drop, get_elem?, pos, eqb_ℤ, if◌then◌else◌,
}
use evsieve.Platform.{Platform}
use evsieve.Event.{Event, Channel, channel, channel_eq}
use evsieve.Capability.{Capability}
use evsieve.Key
use evsieve.Key.{Key}
use evsieve.Time.{Instant}
use evsieve.Loopback.{Loopback, Token}
use evsieve.State.{State}
use evsieve.Stream.Trigger
use evsieve.Stream.Trigger.{Trigger, TriggerResponse}
use evsieve.Stream.Hook
use evsieve.Stream.Hook.{Hook}

abbrev pub HookIdx : Type 0
HookIdx = ℕ

pub record WithholdChannel : Type 0 where
  pub event_channel : Channel
  pub first_hook : HookIdx

abbrev pub withhold_channel_eq : WithholdChannel → WithholdChannel → Bool
withhold_channel_eq a b = channel_eq a.event_channel b.event_channel && a.first_hook == b.first_hook

pub data TriggerStatus : Type 0 where
  active : TriggerStatus
  inactive : TriggerStatus

pub data ChannelState : Type 0 where
  withheld : Event → ChannelState
  residual : ChannelState

pub record TriggerResponseRecord : Type 0 where
  pub trigger_status : List (HookIdx × TriggerStatus)
  pub activated_triggers : List HookIdx
  pub any_trigger_interacts : Bool

abbrev pub new_record : TriggerResponseRecord
new_record = record { trigger_status = []; activated_triggers = []; any_trigger_interacts = false }

pub record Withhold (p : Platform) : Type 0 where
  pub keys : List (Key p)
  pub channel_state : List (WithholdChannel × ChannelState)

pub record HookGroup (p : Platform) : Type 0 where
  pub hooks : List (Hook p)
  pub withhold : Withhold p

abbrev pub is_affected_by_hook : WithholdChannel → HookIdx → Bool
is_affected_by_hook c hook_idx = leb c.first_hook hook_idx

abbrev first_status : Event → List (HookIdx × TriggerStatus) → Option WithholdChannel
first_status event [] = none
first_status event ((idx, status) ∷ rest) =
    some (record { event_channel = channel event; first_hook = idx })

abbrev pub withhold_channel : Event → TriggerResponseRecord → Option WithholdChannel
withhold_channel event r = first_status event r.trigger_status

abbrev status_is_active : HookIdx × TriggerStatus → Bool
status_is_active (idx, active) = true
status_is_active (idx, inactive) = false

-- The state recorded for a channel, its replacement, and its removal.
abbrev pub find_state :
    List (WithholdChannel × ChannelState) → WithholdChannel → Option ChannelState
find_state [] c = none
find_state ((d, s) ∷ rest) c = if withhold_channel_eq d c then some s else find_state rest c

abbrev pub replace_state :
    List (WithholdChannel × ChannelState)
    → WithholdChannel
    → ChannelState
    → List (WithholdChannel × ChannelState)
replace_state [] c s = []
replace_state ((d, t) ∷ rest) c s =
    if withhold_channel_eq d c then (d, s) ∷ rest else (d, t) ∷ replace_state rest c s

abbrev pub forget_state :
    List (WithholdChannel × ChannelState) → WithholdChannel → List (WithholdChannel × ChannelState)
forget_state states c = retain (λ e. not (withhold_channel_eq e.0 c)) states

-- A press on a channel with an active tracker is held, unless one is held already.
hold_press :
    Event
    → WithholdChannel
    → List (WithholdChannel × ChannelState)
    → Option ChannelState
    → List (WithholdChannel × ChannelState)
hold_press event c states none = states ++ (c, withheld event) ∷ []
hold_press event c states (some residual) = replace_state states c (withheld event)
hold_press event c states (some (withheld e)) = states

-- A release on a channel without one passes, unless the press was consumed.
pass_release :
    Event
    → WithholdChannel
    → List (WithholdChannel × ChannelState)
    → Option ChannelState
    → List (WithholdChannel × ChannelState) × Option Event
pass_release event c states none = (states, some event)
pass_release event c states (some (withheld e)) = (states, some event)
pass_release event c states (some residual) = (forget_state states c, none)

-- The decision on an event that may be withheld: the channel states and the final event.
unfoldable pub decide :
    Event
    → WithholdChannel
    → Bool
    → List (WithholdChannel × ChannelState)
    → List (WithholdChannel × ChannelState) × Option Event
unfolding hold_press pass_release
decide event c true states =
    if eqb_ℤ event.value (pos 1)
    then (hold_press event c states (find_state states c), none)
    else (states, none)
decide event c false states =
    if eqb_ℤ event.value (pos 0)
    then pass_release event c states (find_state states c)
    else (states, some event)

module _ ⦃p : Platform⦄ where
  abbrev pub new : List (Key p) → Withhold p
  new keys = record { keys = keys; channel_state = [] }

  record_response : TriggerResponse → HookIdx → TriggerResponseRecord → TriggerResponseRecord
  record_response TriggerResponse.none idx r = r
  record_response TriggerResponse.interacts idx r = record r { any_trigger_interacts = true }
  record_response TriggerResponse.releases idx r = record r { any_trigger_interacts = true }
  record_response TriggerResponse.activates idx r = record r {
    activated_triggers = r.activated_triggers ++ idx ∷ [];
    any_trigger_interacts = true;
  }

  unfoldable pub with_response :
      TriggerResponseRecord → Trigger p → HookIdx → Event → TriggerResponse → TriggerResponseRecord
  unfolding record_response
  with_response r trigger idx event response =
      let status =
        if Trigger.has_active_tracker_matching_channel trigger (channel event)
        then TriggerStatus.active
        else TriggerStatus.inactive in
      let r' = record_response response idx r in
      record r' { trigger_status = r'.trigger_status ++ (idx, status) ∷ [] }

  -- The indices that a hook group records are those of its hooks (Stream/Withhold/Indices); on any other
  -- index the source would panic, where this is false.
  trigger_has_channel : List (Trigger p) → HookIdx → Channel → Bool
  trigger_has_channel triggers idx c = elim (get_elem? triggers idx) [
    | none ↦ false
    | some trigger ↦ Trigger.has_tracker_matching_channel trigger c
  ]

  -- Whether a trigger that just activated has used the event that is held on a channel.
  is_consumed : List HookIdx → List (Trigger p) → WithholdChannel → Bool
  unfolding trigger_has_channel
  is_consumed activated triggers c =
      any (λ idx. is_affected_by_hook c idx && trigger_has_channel triggers idx c.event_channel)
        activated

  consume_state :
      List HookIdx
      → List (Trigger p)
      → WithholdChannel × ChannelState
      → WithholdChannel × ChannelState
  unfolding is_consumed
  consume_state activated triggers (c, withheld e) =
      if is_consumed activated triggers c then (c, residual) else (c, withheld e)
  consume_state activated triggers (c, residual) = (c, residual)

  unfoldable pub is_still_withheld : List (Trigger p) → WithholdChannel → Bool
  is_still_withheld triggers c =
      any (λ trigger. Trigger.has_active_tracker_matching_channel trigger c.event_channel)
        (drop c.first_hook triggers)

  -- The closure of `retain` and the events that it pushes.
  unfoldable pub release_states :
      List (Trigger p)
      → List (WithholdChannel × ChannelState)
      → List Event × List (WithholdChannel × ChannelState)
  release_states triggers [] = ([], [])
  release_states triggers ((c, residual) ∷ rest) =
      let (events, kept) = release_states triggers rest in (events, (c, residual) ∷ kept)
  release_states triggers ((c, withheld e) ∷ rest) =
      let (events, kept) = release_states triggers rest in
      if is_still_withheld triggers c then (events, (c, withheld e) ∷ kept) else (e ∷ events, kept)

  unfoldable pub release_events : Withhold p → List (Trigger p) → List Event × Withhold p
  unfolding release_states
  release_events w triggers =
      let (events, kept) = release_states triggers w.channel_state in
      (events, record w { channel_state = kept })

  abbrev is_active_anywhere : TriggerResponseRecord → Bool
  is_active_anywhere r = any status_is_active r.trigger_status

  abbrev as_list : Option Event → List Event
  as_list none = []
  as_list (some e) = e ∷ []

  -- An event that a hook has reacted to, on its channel.
  apply_on_channel :
      Withhold p
      → Event
      → TriggerResponseRecord
      → WithholdChannel
      → List (Trigger p)
      → List Event × Withhold p
  unfolding decide consume_state release_events
  apply_on_channel w event r c triggers =
      let (states, final_event) =
        if any (λ key. Key.matches key event) w.keys
        then decide event c (is_active_anywhere r) w.channel_state
        else (w.channel_state, some event) in
      let consumed = map (consume_state r.activated_triggers triggers) states in
      let (released, w') = release_events (record w { channel_state = consumed }) triggers in
      (released ++ as_list final_event, w')

  unfoldable pub apply :
      Withhold p → Event → TriggerResponseRecord → List (Trigger p) → List Event × Withhold p
  unfolding apply_on_channel
  apply w event r triggers =
      if not r.any_trigger_interacts then (event ∷ [], w) else elim (withhold_channel event r) [
        | none ↦ (event ∷ [], w)
        | some c ↦ apply_on_channel w event r c triggers
      ]

  -- The inner loop of `HookGroup::apply_to_all`: one hook, all events.
  run_hook :
      HookIdx
      → Hook p
      → List (Event × TriggerResponseRecord)
      → State
      → Loopback
      → Instant
      → List (Event × TriggerResponseRecord) × Hook p × State × Loopback
  unfolding with_response
  run_hook idx hook [] state loopback now = ([], hook, state, loopback)
  run_hook idx hook ((event, r) ∷ events) state loopback now =
      let (response, trigger, loopback') = Trigger.apply hook.trigger event loopback now in
      let r' = with_response r trigger idx event response in
      let (first, actuator, state') =
        Hook.apply_response hook.actuator response event r' new_record state in
      let (rest, hook', state'', loopback'') =
        run_hook idx (record { trigger = trigger; actuator = actuator }) events state' loopback'
          now in
      (first ++ rest, hook', state'', loopback'')

  -- The outer loop, from the hook with the given index on.
  pub run_hooks :
      HookIdx
      → List (Hook p)
      → List (Event × TriggerResponseRecord)
      → State
      → Loopback
      → Instant
      → List (Event × TriggerResponseRecord) × List (Hook p) × State × Loopback
  unfolding run_hook
  run_hooks idx [] events state loopback now = (events, [], state, loopback)
  run_hooks idx (hook ∷ hooks) events state loopback now =
      let (events', hook', state', loopback') = run_hook idx hook events state loopback now in
      let (events'', hooks', state'', loopback'') =
        run_hooks (suc idx) hooks events' state' loopback' now in
      (events'', hook' ∷ hooks', state'', loopback'')

  pub apply_all :
      Withhold p → List (Event × TriggerResponseRecord) → List (Trigger p) → List Event × Withhold p
  unfolding apply
  apply_all w [] triggers = ([], w)
  apply_all w ((event, r) ∷ events) triggers =
      let (first, w') = apply w event r triggers in
      let (rest, w'') = apply_all w' events triggers in (first ++ rest, w'')

  abbrev pub fresh : Event → Event × TriggerResponseRecord
  fresh event = (event, new_record)

  abbrev pub trigger_of : Hook p → Trigger p
  trigger_of hook = hook.trigger

  -- `HookGroup::apply_to_all`.
  unfoldable pub group_apply_to_all :
      HookGroup p
      → List Event
      → State
      → Loopback
      → Instant
      → List Event × HookGroup p × State × Loopback
  unfolding run_hooks apply_all
  group_apply_to_all g events state loopback now =
      let (events', hooks, state', loopback') =
        run_hooks 0 g.hooks (map fresh events) state loopback now in
      let (out, w) = apply_all g.withhold events' (map trigger_of hooks) in
      (out, record { hooks = hooks; withhold = w }, state', loopback')

  wake_all : List (Hook p) → Token → Bool × List (Hook p)
  wake_all [] token = (false, [])
  wake_all (hook ∷ hooks) token =
      let (expired, trigger) = Trigger.wakeup hook.trigger token in
      let (later, hooks') = wake_all hooks token in
      (expired || later, record hook { trigger = trigger } ∷ hooks')

  -- `HookGroup::wakeup`.
  unfoldable pub group_wakeup : HookGroup p → Token → List Event × HookGroup p
  unfolding wake_all release_events
  group_wakeup g token =
      let (some_tracker_expired, hooks) = wake_all g.hooks token in
      let (events, w) = release_events g.withhold (map trigger_of hooks) in
      if some_tracker_expired
      then (events, record { hooks = hooks; withhold = w })
      else ([], record g { hooks = hooks })

  caps_of_hooks : List (Hook p) → List Capability → Option (List Capability)
  caps_of_hooks [] caps = some caps
  caps_of_hooks (hook ∷ hooks) caps = elim (Hook.apply_to_all_caps hook caps) [
    | none ↦ none
    | some caps' ↦ caps_of_hooks hooks caps'
  ]

  -- `HookGroup::apply_to_all_caps`: the hooks in turn; the withhold passes all on.
  unfoldable pub group_apply_to_all_caps : HookGroup p → List Capability → Option (List Capability)
  unfolding caps_of_hooks
  group_apply_to_all_caps g caps = caps_of_hooks g.hooks caps
