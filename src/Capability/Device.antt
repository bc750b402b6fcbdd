-- ===== src/Capability/Device.antt =====
-- `RepeatInfo` and `Capabilities` of src/capability.rs: the codes that a device sends, with what the
-- kernel says of its axes and of repeating. A panic is `none`.
pub mod Axes
use evsieve.Base.{
  ℕ, ◌==◌, Bool, true, false, not, ◌&&◌, ◌||◌, Option, none, some, List, [], ◌∷◌, ◌++◌, any, all,
  length, map, ℤ, pos, eqb_ℤ, min_ℤ, max_ℤ, if◌then◌else◌,
}
use mathlib.Core.List.{flat_map}
use evsieve.Range.Interval
use evsieve.Range.Interval.{Interval}
use evsieve.Range.Sets
use evsieve.Event.{
  EventType, EventCode, Domain, Namespace, input, code_eq, ev_rep, ev_syn, is_key, is_abs, is_rep,
}
use evsieve.Capability.{AbsMeta, AbsInfo, Capability}
use evsieve.Capability.Codes
use evsieve.Capability.Codes.{
  CodeSet, CodeMap, has, insert_code, remove_code, is_subset, code_set_eq, sort_by_code,
}

pub record RepeatInfo : Type 0 where
  pub delay : ℤ
  pub period : ℤ

pub record Capabilities : Type 0 where
  pub codes : CodeSet
  pub abs_info : CodeMap AbsInfo
  pub rep_info : Option RepeatInfo

-- `HashMap<Domain, Capabilities>`.
abbrev pub InputCapabilities : Type 0
InputCapabilities = List (Domain × Capabilities)

abbrev pub kernel_default : RepeatInfo
kernel_default = record { delay = pos 250; period = pos 33 }

-- `EV_REP_CODES`.
abbrev rep_delay : EventCode
rep_delay = record { ev_type = ev_rep; code = 0 }

abbrev rep_period : EventCode
rep_period = record { ev_type = ev_rep; code = 1 }

abbrev pub new : Capabilities
new = record { codes = []; abs_info = []; rep_info = none }

abbrev pub is_empty : Capabilities → Bool
is_empty c = elim c.codes [ [] ↦ true | _ ∷ _ ↦ false ]

unfoldable pub has_no_content : Capabilities → Bool
has_no_content c = all (λ code. code.ev_type == ev_syn || code.ev_type == ev_rep) c.codes

-- The derived test on `RepeatInfo`.
abbrev repeat_eq : Option RepeatInfo → Option RepeatInfo → Bool
repeat_eq none none = true
repeat_eq (some a) (some b) = eqb_ℤ a.delay b.delay && eqb_ℤ a.period b.period
repeat_eq _ _ = false

-- `AbsInfo::is_equivalent_to`, which ignores the current value.
unfoldable pub abs_equivalent : AbsInfo → AbsInfo → Bool
abs_equivalent a b =
    eqb_ℤ a.min_value b.min_value
    && eqb_ℤ a.max_value b.max_value
    && eqb_ℤ a.meta.fuzz b.meta.fuzz
    && eqb_ℤ a.meta.flat b.meta.flat
    && eqb_ℤ a.meta.resolution b.meta.resolution

abbrev value_range : EventCode → Option AbsInfo → Interval
value_range code none =
    if is_key code.ev_type
    then Interval.new (some (pos 0)) (some (pos 2))
    else Interval.new none none
value_range code (some info) = Interval.new (some info.min_value) (some info.max_value)

abbrev meta_of : Option AbsInfo → Option AbsMeta
meta_of none = none
meta_of (some info) = some info.meta

capability_of : Capabilities → Domain → Namespace → EventCode → List Capability
capability_of c domain namespace code =
    let info = Codes.get c.abs_info code in
    if is_rep code.ev_type
    then []
    else record {
      code = code;
      domain = domain;
      namespace = namespace;
      values = Sets.from_interval (value_range code info);
      abs_meta = meta_of info;
    }
      ∷ []

unfoldable pub to_vec_from_domain_and_namespace :
    Capabilities → Domain → Namespace → List Capability
unfolding capability_of
to_vec_from_domain_and_namespace c domain namespace =
    flat_map (capability_of c domain namespace) c.codes

abbrev default_meta : Option AbsMeta → AbsMeta
default_meta (some meta) = meta
default_meta none = record { fuzz = pos 0; flat = pos 0; resolution = pos 0; value = pos 0 }

abbrev current : Option AbsInfo → Interval → AbsMeta → Interval × AbsMeta
current (some info) cap_range meta =
    (Interval.new (some info.min_value) (some info.max_value), info.meta)
current none cap_range meta = (cap_range, meta)

-- What is known of the axis, merged with the new range and its meta data.
merged_info : Option AbsInfo → Interval → AbsMeta → AbsInfo
merged_info existing_info cap_range meta =
    let (current_range, current_meta) = current existing_info cap_range meta in
    let new_range = Interval.merge current_range cap_range in
    record {
      min_value = new_range.min;
      max_value = new_range.max;
      meta = record {
        flat = min_ℤ current_meta.flat meta.flat;
        fuzz = min_ℤ current_meta.fuzz meta.fuzz;
        resolution = max_ℤ current_meta.resolution meta.resolution;
        value = Interval.bound new_range meta.value;
      };
    }

abbrev with_axis : Capabilities → Capability → Option Interval → Option Capabilities
with_axis c cap none = none
with_axis c cap (some cap_range) = some (record c {
  abs_info =
      Codes.insert c.abs_info cap.code
        (merged_info (Codes.get c.abs_info cap.code) cap_range (default_meta cap.abs_meta));
})

unfoldable pub add_capability : Capabilities → Capability → Option Capabilities
unfolding merged_info
add_capability c cap =
    if Sets.is_empty cap.values
    then some c
    else let inserted = record c { codes = insert_code c.codes cap.code } in
      if is_abs cap.code.ev_type
      then with_axis inserted cap (Sets.spanning_interval cap.values)
      else some inserted

set_ev_rep : Capabilities → RepeatInfo → Capabilities
set_ev_rep c repeat_info = record c {
  rep_info = some repeat_info;
  codes = insert_code (insert_code c.codes rep_delay) rep_period;
}

unfoldable pub require_ev_rep : Capabilities → Capabilities
unfolding set_ev_rep
require_ev_rep c = elim c.rep_info [ none ↦ set_ev_rep c kernel_default | some _ ↦ c ]

unfoldable pub remove_ev_rep : Capabilities → Capabilities
remove_ev_rep c = record c {
  rep_info = none;
  codes = remove_code (remove_code c.codes rep_delay) rep_period;
}

abbrev insert_type : EventType → List EventType → List EventType
insert_type t types = if any (λ u. u == t) types then types else t ∷ types

-- The types of the codes, each once.
unfoldable pub ev_types : CodeSet → List EventType
ev_types [] = []
ev_types (c ∷ codes) = insert_type c.ev_type (ev_types codes)

-- One round of the loop in `is_compatible_with`.
abbrev pub axis_compatible : Option AbsInfo → AbsInfo → Bool
axis_compatible none info = false
axis_compatible (some other_info) info = abs_equivalent info other_info

unfoldable pub is_compatible_with : Capabilities → Capabilities → Bool
unfolding abs_equivalent
is_compatible_with self other =
    is_subset self.codes other.codes
    && all (λ e. axis_compatible (Codes.get other.abs_info e.0) e.1) self.abs_info

-- The axes of both in the order of their codes, one by one.
zip_equivalent : CodeMap AbsInfo → CodeMap AbsInfo → Bool
unfolding abs_equivalent
zip_equivalent [] others = true
zip_equivalent (e ∷ rest) [] = true
zip_equivalent (e ∷ rest) (f ∷ others) =
    code_eq e.0 f.0 && abs_equivalent e.1 f.1 && zip_equivalent rest others

unfoldable pub is_equivalent_to : Capabilities → Capabilities → Bool
unfolding zip_equivalent
is_equivalent_to self other =
    code_set_eq self.codes other.codes
    && repeat_eq self.rep_info other.rep_info
    && length self.abs_info == length other.abs_info
    && zip_equivalent (sort_by_code self.abs_info) (sort_by_code other.abs_info)

unfoldable pub input_caps_to_vec : InputCapabilities → List Capability
input_caps_to_vec caps =
    flat_map (λ (domain, c). to_vec_from_domain_and_namespace c domain input) caps
