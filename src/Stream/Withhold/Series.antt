-- ===== src/Stream/Withhold/Series.antt =====
-- The hooks of a group take events just as the same hooks in a stream do.
use evsieve.Base.{◌≡◌, refl, sym, ap, ap₂, ◌∙◌, suc, List, [], ◌∷◌, ◌++◌, map, some}
use mathlib.Core.List.{map-append}
use evsieve.Platform.{Platform}
use evsieve.Event.{Event}
use evsieve.Key
use evsieve.Key.{Key}
use evsieve.Time.{Instant}
use evsieve.Loopback.{Loopback}
use evsieve.State.{State}
use evsieve.Stream.Trigger
use evsieve.Stream.Trigger.{Trigger, TriggerResponse, activates, releases, interacts}
use evsieve.Stream.Hook
use evsieve.Stream.Hook.{
  Hook, HookActuator, EventDispatcher, map_event, apply_response, effects_for, or_event, sent,
}
use evsieve.Stream.Withhold.{
  HookIdx, TriggerResponseRecord, new_record, with_response, run_hook, run_hooks, apply_all,
  HookGroup, fresh, trigger_of, group_apply_to_all,
}
use evsieve.Stream.Run.{StreamEntry, run_events, with_entry, hook}

module _ ⦃p : Platform⦄ where
  abbrev pub events_of : {U : Type 0} → List (Event × U) → List Event
  events_of events = map (λ e. e.0) events

  events_of-sent :
      {U V : Type 0} (keys : List (Key p)) (event : Event) (u : U) (v : V)
      → events_of (sent keys event u) ≡ events_of (sent keys event v)
  events_of-sent [] event u v = refl
  events_of-sent (key ∷ keys) event u v =
      ap (λ r. Key.merge key event ∷ r) (events_of-sent keys event u v)

  -- The data that events carry do not change which events a hook writes.
  events_of-map_event :
      {U V : Type 0} (d : EventDispatcher p) (event : Event) (u u' : U) (v v' : V)
      (r : TriggerResponse)
      → (events_of ((map_event d event u u' r).0) ≡ events_of ((map_event d event v v' r).0))
        × ((map_event d event u u' r).1 ≡ (map_event d event v v' r).1)
  unfolding map_event
  events_of-map_event d event u u' v v' activates =
      (ap (λ r. event ∷ r) (events_of-sent d.on_press event u' v'), refl)
  events_of-map_event d event u u' v v' releases =
      let out = or_event d.activating_event event in
      (
        map-append (λ e. e.0) (sent d.on_release out u') ((event, u) ∷ [])
            ∙ ap (λ r. r ++ event ∷ []) (events_of-sent d.on_release out u' v')
            ∙ sym (map-append (λ e. e.0) (sent d.on_release out v') ((event, v) ∷ [])),
        refl,
      )
  events_of-map_event d event u u' v v' interacts = (refl, refl)
  events_of-map_event d event u u' v v' TriggerResponse.none = (refl, refl)

  -- One hook of the group, on all events, is the hook alone.
  run_hook-as-apply :
      (idx : HookIdx) (h : Hook p) (events : List (Event × TriggerResponseRecord)) (state : State)
      (loopback : Loopback) (now : Instant)
      → (let r = run_hook idx h events state loopback now in
          Hook.apply_to_all h (events_of events) state loopback now
          ≡ (events_of (r.0), r.1, r.2, r.3))
  unfolding run_hook Hook.apply_to_all Hook.apply apply_response
  run_hook-as-apply idx h [] state loopback now = refl
  run_hook-as-apply idx h ((event, r) ∷ events) state loopback now =
      let reply = Trigger.apply h.trigger event loopback now in
      let d = h.actuator.event_dispatcher in
      let r' = with_response r (reply.1) idx event (reply.0) in
      let first = map_event d event r' new_record (reply.0) in
      let same = events_of-map_event d event tt tt r' new_record (reply.0) in
      let state' = effects_for h.actuator (reply.0) state in
      let next : EventDispatcher p → Hook p = λ d'. record {
        trigger = reply.1;
        actuator = record h.actuator { event_dispatcher = d' };
      } in
      let rest = run_hook idx (next (first.1)) events state' (reply.2) now in
      ap₂
        (λ out d'.
          let after = Hook.apply_to_all (next d') (events_of events) state' (reply.2) now in
          (out ++ after.0, after.1, after.2, after.3))
        (same.0) (same.1)
      ∙ ap (λ after. (events_of (first.0) ++ after.0, after.1, after.2, after.3))
          (run_hook-as-apply idx (next (first.1)) events state' (reply.2) now)
      ∙ ap (λ out. (out, rest.1, rest.2, rest.3)) (sym (map-append (λ e. e.0) (first.0) (rest.0)))

  -- The hooks as entries of a stream.
  abbrev pub entries : List (Hook p) → List (StreamEntry p)
  entries hooks = map (λ h. hook h) hooks

  run_hooks-as-stream :
      (idx : HookIdx) (hooks : List (Hook p)) (events : List (Event × TriggerResponseRecord))
      (state : State) (loopback : Loopback) (now : Instant)
      → (let r = run_hooks idx hooks events state loopback now in
          run_events (events_of events) (entries hooks) state loopback now
          ≡ some (record {
            events_out = events_of (r.0);
            stream = entries (r.1);
            state = r.2;
            loopback = r.3;
          }))
  unfolding run_hooks run_events
  run_hooks-as-stream idx [] events state loopback now = refl
  run_hooks-as-stream idx (h ∷ hooks) events state loopback now =
      let r = run_hook idx h events state loopback now in
      ap (λ a. with_entry (hook (a.1)) (run_events (a.0) (entries hooks) (a.2) (a.3) now))
        (run_hook-as-apply idx h events state loopback now)
      ∙ ap (with_entry (hook (r.1))) (run_hooks-as-stream (suc idx) hooks (r.0) (r.2) (r.3) now)

  events_of-fresh : (events : List Event) → events_of (map fresh events) ≡ events
  events_of-fresh [] = refl
  events_of-fresh (event ∷ events) = ap (λ r. event ∷ r) (events_of-fresh events)

  -- Whatever the withhold of a group is, the hooks of the group become what they become as entries of the
  -- stream, with the same state and loopback, and the events that these write are those that the withhold
  -- is given: the group writes what the withhold makes of them, and keeps it.
  pub group-as-stream :
      (g : HookGroup p) (events : List Event) (state : State) (loopback : Loopback) (now : Instant)
      → (let r = group_apply_to_all g events state loopback now in
          (recorded : List (Event × TriggerResponseRecord)) × (run_events events
              (entries g.hooks)
              state
              loopback
              now
            ≡ some (record {
              events_out = events_of recorded;
              stream = entries (r.1.hooks);
              state = r.2;
              loopback = r.3;
            }))
          × ((r.0, r.1.withhold) ≡ apply_all g.withhold recorded (map trigger_of (r.1.hooks))))
  unfolding group_apply_to_all
  group-as-stream g events state loopback now =
      let r = run_hooks 0 g.hooks (map fresh events) state loopback now in
      (
        r.0,
        ap (λ e. run_events e (entries g.hooks) state loopback now) (sym (events_of-fresh events))
            ∙ run_hooks-as-stream 0 g.hooks (map fresh events) state loopback now,
        refl,
      )
