-- ===== src/Examples/Caps.antt =====
-- Instances of the laws on capabilities of devices and of streams.
use evsieve.Base.{
  ◌≡◌, refl, ◌-ℤ◌, ◌+ℤ◌, true, false, none, some, List, [], ◌∷◌, ℤ, pos, negsuc, All, ||-cases, inl,
  inr, arith, ◌⊎◌,
}
use mathlib.Core.List.{flat_map}
use evsieve.Range.Interval
use evsieve.Range.Sets
use evsieve.Event.{code_eq, EventCode, ev_abs, yielded}
use evsieve.Capability.{Capability, AbsInfo}
use evsieve.Capability.Codes
use evsieve.Capability.Device.{Capabilities, add_capability}
use evsieve.Capability.Device.Axes.{IsDevice, InAxis, HasAdded, AxesKept, add_capability_lem}
use evsieve.Capability.Aggregate.{aggregate_capabilities}
use evsieve.Capability.Aggregate.Coverage.{offered, offered-aggregate_capabilities}
use evsieve.Key
use evsieve.State
use evsieve.Time.{Instant}
use evsieve.Loopback
use evsieve.Stream.Map
use evsieve.Stream.Map.{Map}
use evsieve.Stream.Map.Covered.{IsOffered}
use evsieve.Stream.Run.{Outcome, run_events, map, print}
use evsieve.Stream.Caps.{run_caps}
use evsieve.Stream.Caps.Entries.{IsCovered}
use evsieve.Stream.Caps.Covered.{run_caps-covers}
use evsieve.Examples.{integers, key_a, key_b, key_for, press_a, press_b}

abbrev keys_of : EventCode → ℤ → ℤ → Capability
keys_of code min max = record {
  code = code;
  domain = 0;
  namespace = yielded;
  values = Sets.from_interval (record { min = min; max = max });
  abs_meta = none;
}

-- The presses of a key and its other values.
abbrev split_key : List Capability
split_key = keys_of key_a (pos 0) (pos 1) ∷ keys_of key_a (pos 1) (pos 2) ∷ []

offered-aggregate_capabilities_example :
    offered press_a (aggregate_capabilities split_key) ≡ offered press_a split_key
unfolding Sets.from_interval
offered-aggregate_capabilities_example =
    offered-aggregate_capabilities press_a split_key ((ground arith, tt), ((ground arith, tt), tt))

abbrev wheel : EventCode
wheel = record { ev_type = ev_abs; code = 8 }

-- A device whose wheel has the values 0 to 4.
abbrev wheel_axis : AbsInfo
wheel_axis = record {
  min_value = pos 0;
  max_value = pos 4;
  meta = record { fuzz = pos 0; flat = pos 0; resolution = pos 0; value = pos 0 };
}

abbrev wheeled : Capabilities
wheeled = record { codes = wheel ∷ []; abs_info = (wheel, wheel_axis) ∷ []; rep_info = none }

wheeled-IsDevice : IsDevice wheeled
unfolding IsDevice Codes.get
wheeled-IsDevice code there abs = elim (||-cases (code_eq wheel code) false there) [
  | inl same ↦ (wheel_axis, rw same, ground arith)
  | inr f ↦ cc
]

add_capability_lem_example :
    (c' : Capabilities) × (add_capability wheeled (keys_of wheel (negsuc 0) (pos 9)) ≡ some c')
    × IsDevice c'
    × HasAdded wheeled wheel c'
    × AxesKept wheeled c'
    × ((true ≡ false)
        ⊎ ((info : AbsInfo) × (Codes.get c'.abs_info wheel ≡ some info) × InAxis (pos 3) info))
unfolding Sets.from_interval Interval.contains
add_capability_lem_example =
    add_capability_lem wheeled (keys_of wheel (negsuc 0) (pos 9)) wheeled-IsDevice (pos 3)
      (ground arith, tt, tt) refl

abbrev twice : Map integers
twice = record { input_key = key_for key_a; output_keys = key_for key_a ∷ key_for key_b ∷ [] }

abbrev start : Instant
start = record { sec = pos 0; nsec = pos 0 }

abbrev entered : List Capability
entered = keys_of key_a (pos 0) (pos 2) ∷ []

abbrev announced : List Capability
announced = keys_of key_a (pos 0) (pos 2) ∷ keys_of key_b (pos 0) (pos 2) ∷ []

abbrev outcome : Outcome integers
outcome = record {
  events_out = press_a ∷ press_b ∷ [];
  stream = map twice ∷ print ∷ [];
  state = State.new;
  loopback = Loopback.new;
}

announced_caps : run_caps ⦃p = integers⦄ (map twice ∷ print ∷ []) entered ≡ some announced
unfolding run_caps Map.apply_to_all_caps Key.matches_cap Key.property_matches_cap Key.merge_cap
    Key.property_merge_cap aggregate_capabilities Sets.is_empty Sets.empty Sets.setminus
    Sets.from_unordered_intervals Sets.from_interval Sets.insert_by_max Sets.sort_by_max Sets.absorb
    Sets.absorb_all Sets.pair_iterator Sets.next_from Sets.next Sets.intersect_loop Sets.gaps
    Sets.complement_of Sets.intersect Sets.complement Interval.intersect Interval.try_union flat_map
    ◌-ℤ◌ ◌+ℤ◌
announced_caps = refl

written_events :
    run_events ⦃p = integers⦄ (press_a ∷ []) (map twice ∷ print ∷ []) State.new Loopback.new start
    ≡ some outcome
unfolding run_events Map.apply_to_all flat_map Key.matches Key.property_matches Key.merge
    Key.property_merge
written_events = refl

run_caps-covers_example : All (IsOffered announced) (press_a ∷ press_b ∷ [])
unfolding IsCovered Sets.from_interval Interval.contains
run_caps-covers_example =
    run_caps-covers ⦃p = integers⦄ (map twice ∷ print ∷ []) (press_a ∷ []) State.new Loopback.new
      start entered announced outcome (((tt, tt), (((tt, tt), ((tt, tt), tt)))), (tt, tt))
      ((ground arith, tt, tt), tt) ((refl, ground arith), tt) written_events announced_caps
