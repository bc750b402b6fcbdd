-- ===== src/Examples/Hooks.antt =====
-- Instances of the laws on hooks and on groups of hooks.
use evsieve.Base.{◌≡◌, refl, true, false, none, some, [], ◌∷◌, All, pos}
use evsieve.Event.{channel}
use evsieve.State
use evsieve.State.{State}
use evsieve.Time.{Instant}
use evsieve.Loopback
use evsieve.Loopback.{Loopback}
use evsieve.Stream.Trigger
use evsieve.Stream.Trigger.{Trigger, TriggerState, Tracker, TrackerState, never}
use evsieve.Stream.Trigger.{until}
use evsieve.Stream.Trigger.Invariant.{IsTrigger, apply-IsTrigger}
use evsieve.Stream.Trigger.Wakeup.{AllExpireTo, SomeWaits, wakeup_lem}
use evsieve.Stream.Withhold.Release.{ReleasesTo, release_events-ReleasesTo}
use evsieve.Stream.Withhold.Indices.{activated_triggers_exist}
use evsieve.Base.{List, ◌≢◌, ◌⊎◌, true, map, get_elem?}
use evsieve.Event.{Event}
use evsieve.Stream.Hook.{Hook}
use evsieve.Stream.Withhold
use evsieve.Stream.Withhold.{
  Withhold, HookGroup, TriggerResponseRecord, TriggerStatus, WithholdChannel, group_apply_to_all,
  apply_all, run_hooks, fresh, trigger_of, withheld,
}
use evsieve.Stream.Withhold.Held.{IsWithhold, apply-IsWithhold, new-IsWithhold}
use evsieve.Stream.Withhold.Series.{group-as-stream, entries, events_of}
use evsieve.Stream.Run.{run_events}
use evsieve.Examples.{integers, key_a, key_b, key_for, press_a, press_b}

abbrev start : Instant
start = record { sec = pos 0; nsec = pos 0 }

-- Both keys held down together.
abbrev chord : Trigger integers
chord = Trigger.new ⦃p = integers⦄ (key_for key_a ∷ key_for key_b ∷ []) [] none false

abbrev held_key : Tracker integers
held_key = record {
  key = key_for key_a;
  range = record { min = pos 1; max = pos 2 };
  state = TrackerState.active never;
}

abbrev held_chord : Trigger integers
held_chord = record {
  period = none;
  sequential = true;
  breaks_on = [];
  trackers = held_key ∷ [];
  state = TriggerState.active;
}

-- The key that is held is pressed again.
apply-IsTrigger_example :
    IsTrigger ⦃p = integers⦄
      ((Trigger.apply ⦃p = integers⦄ held_chord press_a Loopback.new start).1)
unfolding IsTrigger
apply-IsTrigger_example =
    apply-IsTrigger ⦃p = integers⦄ held_chord press_a Loopback.new start (refl, tt)

-- One key waits for the token 5, the other for 6.
abbrev waiting : Trigger integers
waiting = record {
  period = some (record { sec = 1; nsec = 0 });
  sequential = false;
  breaks_on = [];
  trackers =
      record held_key { state = TrackerState.active (until 5) }
      ∷ record held_key { state = TrackerState.active (until 6) }
      ∷ [];
  state = TriggerState.inactive;
}

wakeup_lem_example :
    (let r = Trigger.wakeup ⦃p = integers⦄ waiting 5 in
      AllExpireTo ⦃p = integers⦄ 5 waiting.trackers (r.1.trackers)
      × (r.1 ≡ record waiting { trackers = r.1.trackers })
      × (((r.0 ≡ true)
            × SomeWaits ⦃p = integers⦄ 5 waiting.trackers
            × (r.1.state ≡ TriggerState.inactive)
            × ((event : Event) (loopback : Loopback) (now : Instant)
                → (Trigger.apply ⦃p = integers⦄ (r.1) event loopback now).0 ≢ Trigger.activates))
          ⊎ ((r.0 ≡ false) × (SomeWaits ⦃p = integers⦄ 5 waiting.trackers → ⊥))))
unfolding IsTrigger
wakeup_lem_example = wakeup_lem ⦃p = integers⦄ waiting 5 tt

abbrev keyed : Withhold integers
keyed = Withhold.new ⦃p = integers⦄ (key_for key_a ∷ [])

abbrev reacted : TriggerResponseRecord
reacted = record {
  trigger_status = (0, TriggerStatus.active) ∷ [];
  activated_triggers = [];
  any_trigger_interacts = true;
}

apply-IsWithhold_example :
    IsWithhold ⦃p = integers⦄
      ((Withhold.apply ⦃p = integers⦄ keyed press_a reacted (held_chord ∷ [])).1)
apply-IsWithhold_example =
    apply-IsWithhold ⦃p = integers⦄ keyed press_a reacted (held_chord ∷ [])
      (new-IsWithhold ⦃p = integers⦄ (key_for key_a ∷ []))

-- The press of one key is held back by the chord, and that of the other by nothing.
abbrev both_withheld : Withhold integers
both_withheld = record {
  keys = key_for key_a ∷ key_for key_b ∷ [];
  channel_state =
      (record { event_channel = channel press_a; first_hook = 0 }, withheld press_a)
      ∷ (record { event_channel = channel press_b; first_hook = 0 }, withheld press_b)
      ∷ [];
}

release_events-ReleasesTo_example :
    (let r = Withhold.release_events ⦃p = integers⦄ both_withheld (held_chord ∷ []) in
      ReleasesTo ⦃p = integers⦄
        (held_chord ∷ [])
        both_withheld.channel_state
        (r.0)
        (r.1.channel_state)
      × (r.1.keys ≡ both_withheld.keys))
release_events-ReleasesTo_example =
    release_events-ReleasesTo ⦃p = integers⦄ both_withheld (held_chord ∷ [])

abbrev chord_hook : Hook integers
chord_hook = record {
  trigger = chord;
  actuator = record {
    effects = [];
    release_effects = [];
    event_dispatcher = record {
      on_press = key_for key_b ∷ [];
      on_release = [];
      activating_event = none;
    };
  };
}

abbrev chord_group : HookGroup integers
chord_group = record { hooks = chord_hook ∷ []; withhold = keyed }

group-as-stream_example :
    (let r =
        group_apply_to_all ⦃p = integers⦄ chord_group
          (press_a ∷ press_b ∷ [])
          State.new
          Loopback.new
          start in
      (recorded : List (Event × TriggerResponseRecord)) × (run_events ⦃p = integers⦄
          (press_a ∷ press_b ∷ [])
          (entries ⦃p = integers⦄ (chord_hook ∷ []))
          State.new
          Loopback.new
          start
        ≡ some (record {
          events_out = events_of ⦃p = integers⦄ recorded;
          stream = entries ⦃p = integers⦄ (r.1.hooks);
          state = r.2;
          loopback = r.3;
        }))
      × ((r.0, r.1.withhold)
          ≡ apply_all ⦃p = integers⦄ keyed recorded (map (trigger_of ⦃p = integers⦄) (r.1.hooks))))
group-as-stream_example =
    group-as-stream ⦃p = integers⦄ chord_group (press_a ∷ press_b ∷ []) State.new Loopback.new start

activated_triggers_exist_example :
    (let r =
        run_hooks ⦃p = integers⦄ 0
          (chord_hook ∷ [])
          (map (fresh ⦃p = integers⦄) (press_a ∷ press_b ∷ []))
          State.new
          Loopback.new
          start in
      All
        (λ e.
          All
            (λ i.
              (trigger : Trigger integers) × (get_elem? (map (trigger_of ⦃p = integers⦄) (r.1)) i
                ≡ some trigger))
            e.1.activated_triggers)
        (r.0))
activated_triggers_exist_example =
    activated_triggers_exist ⦃p = integers⦄ (chord_hook ∷ []) (press_a ∷ press_b ∷ []) State.new
      Loopback.new start
