-- ===== src/Examples/Streams.antt =====
-- Instances of the laws on the stream and on its maps, merges, toggles and delays.
use mathlib.Core.List.{flat_map}
use evsieve.Base.{
  ◌≡◌, refl, ◌+◌, true, false, none, some, List, [], ◌∷◌, ◌++◌, length, retain, pos, arith,
  if◌then◌else◌,
}
use evsieve.Event.{yielded, Event, channel, is_key}
use evsieve.Event.ChannelMap
use evsieve.Key
use evsieve.Key.{Key}
use evsieve.State
use evsieve.State.{State, ToggleState}
use evsieve.Time.{Instant, add, instant_le}
use evsieve.Loopback
use evsieve.Loopback.{Loopback, Token}
use evsieve.Stream.Map.Caps.{apply_cap-passes}
use evsieve.Capability.Aggregate.Coverage.{offered}
use evsieve.Key.Caps.{Allows}
use evsieve.Range.Interval
use evsieve.Range.Sets
use evsieve.Capability.{Capability}
use evsieve.Stream.Map
use evsieve.Stream.Map.{Map}
use evsieve.Stream.Merge
use evsieve.Stream.Merge.{Merge}
use evsieve.Stream.Merge.Balance.{apply_to_all-alternates, alternates, down_after, is_down}
use evsieve.Stream.Toggle
use evsieve.Stream.Toggle.{Toggle, consistent}
use evsieve.Stream.Toggle.Total.{Fits, apply_to_all_total}
use evsieve.Stream.Toggle.Consistent.{release_follows_press}
use evsieve.Stream.Delay
use evsieve.Stream.Delay.{Delay, is_delayed}
use evsieve.Stream.Delay.Release.{released_in_time, apply_conserves, count, count_held}
use evsieve.Stream.Run.{Setup, Outcome, run, run_events, create, map}
use evsieve.Stream.Run.Laws.{sent, sent-run}
use evsieve.Examples.{integers, key_a, key_b, key_for, press_a, release_a, press_b}

abbrev start : Instant
start = record { sec = pos 0; nsec = pos 0 }

-- One key is sent as two.
abbrev twice : Map integers
twice = record { input_key = key_for key_a; output_keys = key_for key_a ∷ key_for key_b ∷ [] }

abbrev setup : Setup integers
setup = create ⦃p = integers⦄ (map twice ∷ []) State.new []

abbrev outcome : Outcome integers
outcome = record {
  events_out = press_a ∷ press_b ∷ [];
  stream = map twice ∷ [];
  state = State.new;
  loopback = Loopback.new;
}

sent-run_example :
    (s' : Setup integers) × (run ⦃p = integers⦄ false setup start press_a ≡ some s')
    × (sent ⦃p = integers⦄ s' ≡ sent ⦃p = integers⦄ setup ++ press_a ∷ press_b ∷ [])
unfolding run_events Map.apply_to_all flat_map Key.matches Key.property_matches Key.merge
    Key.property_merge
sent-run_example = sent-run ⦃p = integers⦄ setup start press_a outcome refl refl

abbrev merged : Merge integers
merged = Merge.new ⦃p = integers⦄ (key_for key_a ∷ [])

apply_to_all-alternates_example :
    (let c = channel press_a in
      let r =
        Merge.apply_to_all ⦃p = integers⦄ merged (press_a ∷ press_a ∷ release_a ∷ release_a ∷ []) in
      (alternates c (is_down ⦃p = integers⦄ merged c) (r.0) ≡ true)
      × (down_after c (is_down ⦃p = integers⦄ merged c) (r.0) ≡ is_down ⦃p = integers⦄ (r.1) c))
unfolding Merge.applies_to Key.matches Key.property_matches
apply_to_all-alternates_example =
    apply_to_all-alternates ⦃p = integers⦄ merged (channel press_a)
      (press_a ∷ press_a ∷ release_a ∷ release_a ∷ [])
      ((λ h. refl), ((λ h. refl), ((λ h. refl), ((λ h. refl), tt))))

abbrev two_keys : Toggle integers
two_keys = record {
  input_key = key_for key_a;
  output_keys = key_for key_a ∷ key_for key_b ∷ [];
  mode = consistent;
  state_index = 0;
}

abbrev fresh_toggle : ToggleState
fresh_toggle = record { value = 0; size = 2; memory = [] }

abbrev state : State
state = record { toggles = fresh_toggle ∷ [] }

state-Fits : Fits ⦃p = integers⦄ two_keys state
state-Fits = (
  fresh_toggle,
  refl,
  record { same_size = refl; current = omega arith; remembered_in_range = tt },
)

apply_to_all_total_example :
    (out : List Event) × (state' : State) × (Toggle.apply_to_all ⦃p = integers⦄ two_keys
        (press_a ∷ release_a ∷ [])
        state
      ≡ some (out, state'))
    × (length out ≡ 2)
    × Fits ⦃p = integers⦄ two_keys state'
apply_to_all_total_example =
    apply_to_all_total ⦃p = integers⦄ two_keys (press_a ∷ release_a ∷ []) state state-Fits

release_follows_press_example :
    (t' : ToggleState) × (state' : State) × (Toggle.apply ⦃p = integers⦄ two_keys press_a state
      ≡ some (Key.merge ⦃p = integers⦄ (key_for key_a) press_a ∷ [], state'))
    × (State.at state' 0 ≡ some t')
    × (after : State) × (Toggle.apply ⦃p = integers⦄ two_keys release_a
          (State.put state' 0 (record t' { value = 1 }))
        ≡ some (Key.merge ⦃p = integers⦄ (key_for key_a) release_a ∷ [], after))
unfolding Key.matches ChannelMap.get Key.property_matches
release_follows_press_example =
    release_follows_press ⦃p = integers⦄ two_keys press_a release_a state fresh_toggle
      (key_for key_a) 1 refl refl refl (refl, refl) (refl, refl) refl refl

abbrev delayed : Delay integers
delayed = Delay.new ⦃p = integers⦄ (key_for key_a ∷ []) (record { sec = 2; nsec = 0 })

abbrev mixed : List Event
mixed = press_a ∷ press_b ∷ release_a ∷ []

abbrev later : Instant
later = record { sec = pos 3; nsec = pos 0 }

released_in_time_example :
    (token : Token) × ((Loopback.poll_once
        ((Delay.apply_to_all ⦃p = integers⦄ delayed mixed Loopback.new start).2)
        later).0
      ≡ (if instant_le (add start delayed.period) later
          then some (add start delayed.period, token)
          else none))
    × (Delay.wakeup ⦃p = integers⦄
          ((Delay.apply_to_all ⦃p = integers⦄ delayed mixed Loopback.new start).1)
          token
        ≡ (retain (is_delayed ⦃p = integers⦄ delayed) mixed, delayed))
unfolding is_delayed Key.matches Key.property_matches
released_in_time_example =
    released_in_time ⦃p = integers⦄ delayed mixed press_a (release_a ∷ []) Loopback.new start later
      refl refl refl

apply_conserves_example :
    (let r = Delay.apply_to_all ⦃p = integers⦄ delayed mixed Loopback.new start in
      count (λ e. is_key e.code.ev_type) (r.0)
        + count_held (λ e. is_key e.code.ev_type) (r.1.delayed_events)
      ≡ count (λ e. is_key e.code.ev_type) mixed
        + count_held (λ e. is_key e.code.ev_type) delayed.delayed_events)
apply_conserves_example =
    apply_conserves ⦃p = integers⦄ (λ e. is_key e.code.ev_type) delayed mixed Loopback.new start

abbrev other_key : Capability
other_key = record {
  code = key_b;
  domain = 0;
  namespace = yielded;
  values = record { intervals = record { min = pos 0; max = pos 1 } ∷ [] };
  abs_meta = none;
}

other_key-Allows : Allows other_key press_b
unfolding Interval.contains
other_key-Allows = record {
  same_code = refl;
  same_domain = refl;
  same_namespace = refl;
  normal = omega arith;
  allowed = refl;
}

apply_cap-passes_example :
    (Map.apply ⦃p = integers⦄ twice press_b ≡ press_b ∷ [])
    × (offered press_b (other_key ∷ []) ≡ true)
unfolding Map.apply_cap Map.caps_for Key.matches_cap Key.property_matches_cap Key.matches
    Key.property_matches Sets.is_empty Sets.setminus Sets.from_unordered_intervals Sets.empty
    Interval.intersect Key.merge_cap Key.property_merge_cap
apply_cap-passes_example =
    apply_cap-passes ⦃p = integers⦄ twice other_key press_b (other_key ∷ []) (omega arith)
      other_key-Allows (omega arith) refl refl
