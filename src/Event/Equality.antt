-- ===== src/Event/Equality.antt =====
-- The tests of src/event.rs decide equality.
use evsieve.Base.{◌≡◌, true, arith}
use evsieve.Platform.{Platform}
use evsieve.Event.{
  EventCode, Channel, VirtualEventType, Namespace, code_eq, channel_eq, virtual_eq, namespace_eq,
  virtual_ev_type, base_type,
}

pub code_eq-eq : (a b : EventCode) → code_eq a b ≡ true → a ≡ b
code_eq-eq a b h = ground arith

pub code_eq_refl : (a : EventCode) → code_eq a a ≡ true
code_eq_refl a = ground arith

pub channel_eq-eq : (a b : Channel) → channel_eq a b ≡ true → a ≡ b
channel_eq-eq a b h = ground arith

pub channel_eq_refl : (a : Channel) → channel_eq a a ≡ true
channel_eq_refl a = ground arith

pub namespace_eq-eq : (a b : Namespace) → namespace_eq a b ≡ true → a ≡ b
namespace_eq-eq a b h = ground arith

pub namespace_eq_refl : (a : Namespace) → namespace_eq a a ≡ true
namespace_eq_refl a = ground arith

pub virtual_eq-eq : (a b : VirtualEventType) → virtual_eq a b ≡ true → a ≡ b
virtual_eq-eq a b h = ground arith

pub virtual_eq_refl : (a : VirtualEventType) → virtual_eq a a ≡ true
virtual_eq_refl a = ground arith

-- The virtual type of a code stands for the type of that code.
pub base_type-virtual_ev_type :
    ⦃p : Platform⦄ (c : EventCode) → base_type (virtual_ev_type c) ≡ c.ev_type
unfolding virtual_ev_type
base_type-virtual_ev_type c = ground arith
