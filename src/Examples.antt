-- ===== src/Examples.antt =====
-- Concrete inputs for the tests: a platform whose `f64` are the integers, and events of a keyboard.
pub mod Ranges
pub mod Times
pub mod Keys
pub mod Streams
pub mod Hooks
pub mod Files
pub mod Caps
pub mod Texts
use evsieve.Base.{
  ◌≡◌, ℕ, Bool, true, false, List, [], ◌∷◌, ℤ, pos, negsuc, ◌+ℤ◌, ◌-ℤ◌, min_ℤ, max_ℤ, ltb_ℤ, eqb_ℤ,
  i32_min, i32_max, IsI32, arith, if◌then◌else◌,
}
use evsieve.Platform.{Platform}
use evsieve.Event.{Event, EventCode, Channel, channel, yielded, ev_key}
use evsieve.Key.{Key, KeyProperty, of_code}

unfoldable pub clamp : ℤ → ℤ
clamp x = max_ℤ i32_min (min_ℤ x i32_max)

pub clamp-IsI32 : (x : ℤ) → IsI32 (clamp x)
unfolding clamp
clamp-IsI32 x = ground arith

abbrev pub integers : Platform
integers = record {
  F64 = ℤ;
  of_i32 = λ x. x;
  to_i32 = clamp;
  zero = pos 0;
  one = pos 1;
  add = λ x y. x +ℤ y;
  sub = λ x y. x -ℤ y;
  mul = λ x y. if eqb_ℤ y (pos 0) then pos 0 else x;
  neg = λ x. pos 0 -ℤ x;
  floor = λ x. x;
  ceil = λ x. x;
  trunc = λ x. x;
  round = λ x. x;
  fract_is_half = λ x. false;
  is_nan = λ x. false;
  min = min_ℤ;
  max = max_ℤ;
  lt = ltb_ℤ;
  eq = eqb_ℤ;
  to_i32-IsI32 = clamp-IsI32;
  btn_code_ranges = (256, 320) ∷ [];
}

abbrev pub key_a : EventCode
key_a = record { ev_type = ev_key; code = 30 }

abbrev pub key_b : EventCode
key_b = record { ev_type = ev_key; code = 48 }

abbrev pub event_of : EventCode → ℤ → ℤ → Event
event_of code value previous_value = record {
  code = code;
  value = value;
  previous_value = previous_value;
  domain = 0;
  namespace = yielded;
}

abbrev pub press_a : Event
press_a = event_of key_a (pos 1) (pos 0)

abbrev pub release_a : Event
release_a = event_of key_a (pos 0) (pos 1)

abbrev pub press_b : Event
press_b = event_of key_b (pos 1) (pos 0)

abbrev pub key_for : EventCode → Key integers
key_for code = record { properties = of_code code ∷ [] }
