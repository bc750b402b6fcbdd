-- ===== src/Event.antt =====
-- src/event.rs: event types, codes and events, with the tests that `derive(PartialEq)` gives. A `u16`
-- or a domain's `usize` is a number; the constants are those of src/bindings/libevdev.rs.
pub mod Equality
pub mod ChannelMap
use evsieve.Base.{ℕ, Bool, true, false, ◌&&◌, ◌==◌, ltb, leb, ℤ, eqb_ℤ, List, any, if◌then◌else◌}
use evsieve.Platform.{Platform}

abbrev pub EventType : Type 0
EventType = ℕ

abbrev pub ev_syn : EventType
ev_syn = 0

abbrev pub ev_key : EventType
ev_key = 1

abbrev pub ev_rel : EventType
ev_rel = 2

abbrev pub ev_abs : EventType
ev_abs = 3

abbrev pub ev_msc : EventType
ev_msc = 4

abbrev pub ev_rep : EventType
ev_rep = 20

abbrev pub is_key : EventType → Bool
is_key t = t == ev_key

abbrev pub is_abs : EventType → Bool
is_abs t = t == ev_abs

abbrev pub is_rel : EventType → Bool
is_rel t = t == ev_rel

abbrev pub is_rep : EventType → Bool
is_rep t = t == ev_rep

abbrev pub is_syn : EventType → Bool
is_syn t = t == ev_syn

pub record EventCode : Type 0 where
  pub ev_type : EventType
  pub code : ℕ

-- `EventCode::MSC_SCAN`.
abbrev pub msc_scan : EventCode
msc_scan = record { ev_type = ev_msc; code = 4 }

abbrev pub code_eq : EventCode → EventCode → Bool
code_eq a b = a.ev_type == b.ev_type && a.code == b.code

abbrev pub Domain : Type 0
Domain = ℕ

abbrev pub Channel : Type 0
Channel = EventCode × Domain

abbrev pub channel_eq : Channel → Channel → Bool
channel_eq a b = code_eq a.0 b.0 && a.1 == b.1

pub data VirtualEventType : Type 0 where
  key : VirtualEventType
  button : VirtualEventType
  other : EventType → VirtualEventType

abbrev pub virtual_eq : VirtualEventType → VirtualEventType → Bool
virtual_eq key key = true
virtual_eq button button = true
virtual_eq (other a) (other b) = a == b
virtual_eq _ _ = false

-- `VirtualEventType::ev_type`.
abbrev pub base_type : VirtualEventType → EventType
base_type key = ev_key
base_type button = ev_key
base_type (other t) = t

pub data Namespace : Type 0 where
  input : Namespace
  user : Namespace
  yielded : Namespace
  output : Namespace

abbrev pub namespace_eq : Namespace → Namespace → Bool
namespace_eq input input = true
namespace_eq user user = true
namespace_eq yielded yielded = true
namespace_eq output output = true
namespace_eq _ _ = false

pub record Event : Type 0 where
  pub code : EventCode
  pub value : ℤ
  pub previous_value : ℤ
  pub domain : Domain
  pub namespace : Namespace

abbrev pub event_eq : Event → Event → Bool
event_eq a b =
    code_eq a.code b.code
    && eqb_ℤ a.value b.value
    && eqb_ℤ a.previous_value b.previous_value
    && a.domain == b.domain
    && namespace_eq a.namespace b.namespace

abbrev pub with_domain : Event → Domain → Event
with_domain e new_domain = record e { domain = new_domain }

abbrev pub channel : Event → Channel
channel e = (e.code, e.domain)

module _ ⦃p : Platform⦄ where
  -- `ecodes::is_button_code`.
  unfoldable pub is_button_code : EventCode → Bool
  is_button_code c =
      is_key c.ev_type && any (λ range. leb range.0 c.code && ltb c.code range.1) p.btn_code_ranges

  unfoldable pub virtual_ev_type : EventCode → VirtualEventType
  virtual_ev_type c =
      if is_key c.ev_type then if is_button_code c then button else key else other c.ev_type
