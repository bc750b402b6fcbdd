-- ===== src/Key.antt =====
-- `struct Key` and `enum KeyProperty` of src/key.rs: the filters and masks for events. The model is
-- that of a release build, in which the arms that panic under `debug_assertions` do what stands
-- beside the panic; filtering a capability by an affine factor panics in every build (`none`).
pub mod Caps
pub mod Certain
pub mod Channels
pub mod Overlap
pub mod Merging
pub mod Offer
pub mod Parser
use evsieve.Base.{
  ◌≡◌, ◌==◌, Bool, true, false, ◌&&◌, not, Option, none, some, List, [], ◌∷◌, ◌++◌, all, foldl,
  retain, if◌then◌else◌,
}
use evsieve.Platform.{Platform}
use evsieve.Range.Interval
use evsieve.Range.Interval.{Interval}
use evsieve.Range.Sets
use evsieve.Range.Sets.{Set}
use evsieve.Event.{
  EventType, EventCode, Domain, Namespace, VirtualEventType, Event, Channel, code_eq, namespace_eq,
  virtual_eq, virtual_ev_type, base_type,
}
use evsieve.Capability.{Capability, Certainty, always, maybe, min_certainty}
use evsieve.Affine
use evsieve.Affine.{AffineFactor}

pub data KeyProperty (p : Platform) : Type 0 where
  of_code : EventCode → KeyProperty p
  of_domain : Domain → KeyProperty p
  of_namespace : Namespace → KeyProperty p
  of_value : Interval → KeyProperty p
  of_previous_value : Interval → KeyProperty p
  of_type : EventType → KeyProperty p
  of_virtual_type : VirtualEventType → KeyProperty p
  affine_factor : AffineFactor p → KeyProperty p

pub record Key (p : Platform) : Type 0 where
  pub properties : List (KeyProperty p)

module _ ⦃p : Platform⦄ where
  -- `KeyProperty::matches`.
  unfoldable pub property_matches : KeyProperty p → Event → Bool
  property_matches (of_code c) event = code_eq event.code c
  property_matches (of_domain d) event = event.domain == d
  property_matches (of_namespace n) event = namespace_eq event.namespace n
  property_matches (of_value range) event = Interval.contains range event.value
  property_matches (of_previous_value range) event = Interval.contains range event.previous_value
  property_matches (of_type t) event = event.code.ev_type == t
  property_matches (of_virtual_type v) event = virtual_eq (virtual_ev_type event.code) v
  property_matches (affine_factor f) event = false

  -- `KeyProperty::matches_channel`.
  unfoldable pub property_matches_channel : KeyProperty p → Channel → Bool
  property_matches_channel (of_code c) channel = code_eq channel.0 c
  property_matches_channel (of_domain d) channel = channel.1 == d
  property_matches_channel (of_type t) channel = t == channel.0.ev_type
  property_matches_channel (of_virtual_type v) channel = base_type v == channel.0.ev_type
  property_matches_channel (of_namespace n) channel = true
  property_matches_channel (of_value range) channel = true
  property_matches_channel (of_previous_value range) channel = true
  property_matches_channel (affine_factor f) channel = true

  -- `KeyProperty::merge`.
  unfoldable pub property_merge : KeyProperty p → Event → Event
  property_merge (of_code c) event = record event { code = c }
  property_merge (of_domain d) event = record event { domain = d }
  property_merge (of_namespace n) event = record event { namespace = n }
  property_merge (of_value range) event = record event { value = Interval.bound range event.value }
  property_merge (of_previous_value range) event = record event {
    previous_value = Interval.bound range event.previous_value;
  }
  property_merge (affine_factor f) event = Affine.merge f event
  property_merge (of_type t) event = event
  property_merge (of_virtual_type v) event = event

  abbrev all_or_nothing : Capability → Bool → Certainty × Set
  all_or_nothing cap is_all = (always, (if is_all then cap.values else Sets.empty))

  -- `KeyProperty::matches_cap`.
  unfoldable pub property_matches_cap : KeyProperty p → Capability → Option (Certainty × Set)
  property_matches_cap (of_code c) cap = some (all_or_nothing cap (code_eq cap.code c))
  property_matches_cap (of_domain d) cap = some (all_or_nothing cap (cap.domain == d))
  property_matches_cap (of_type t) cap = some (all_or_nothing cap (cap.code.ev_type == t))
  property_matches_cap (of_virtual_type v) cap =
      some (all_or_nothing cap (virtual_eq (virtual_ev_type cap.code) v))
  property_matches_cap (of_namespace n) cap =
      some (all_or_nothing cap (namespace_eq cap.namespace n))
  property_matches_cap (of_value range) cap =
      some (always, Sets.intersect (Sets.from_interval range) cap.values)
  property_matches_cap (of_previous_value range) cap = some (maybe, cap.values)
  property_matches_cap (affine_factor f) cap = none

  -- `KeyProperty::merge_cap`.
  unfoldable pub property_merge_cap : KeyProperty p → Capability → Capability
  property_merge_cap (of_code c) cap = record cap { code = c }
  property_merge_cap (of_domain d) cap = record cap { domain = d }
  property_merge_cap (of_namespace n) cap = record cap { namespace = n }
  property_merge_cap (of_value range) cap = record cap {
    values = Sets.map cap.values (λ cap_range. Interval.bound_range range cap_range ∷ []);
  }
  property_merge_cap (of_previous_value range) cap = cap
  property_merge_cap (affine_factor f) cap = Affine.merge_cap f cap
  property_merge_cap (of_type t) cap = cap
  property_merge_cap (of_virtual_type v) cap = cap

  -- `Key::new` and `Key::copy`.
  abbrev pub new : Key p
  new = record { properties = [] }

  unfoldable pub add_property : Key p → KeyProperty p → Key p
  add_property key property = record { properties = key.properties ++ property ∷ [] }

  unfoldable pub from_domain_and_namespace : Domain → Namespace → Key p
  unfolding add_property
  from_domain_and_namespace d n = add_property (add_property new (of_namespace n)) (of_domain d)

  unfoldable pub matches : Key p → Event → Bool
  matches key event = all (λ property. property_matches property event) key.properties

  unfoldable pub matches_channel : Key p → Channel → Bool
  matches_channel key channel =
      all (λ property. property_matches_channel property channel) key.properties

  abbrev merge_all : List (KeyProperty p) → Event → Event
  merge_all [] event = event
  merge_all (property ∷ rest) event = merge_all rest (property_merge property event)

  unfoldable pub merge : Key p → Event → Event
  merge key event = merge_all key.properties event

  abbrev merge_cap_all : List (KeyProperty p) → Capability → Capability
  merge_cap_all [] cap = cap
  merge_cap_all (property ∷ rest) cap = merge_cap_all rest (property_merge_cap property cap)

  unfoldable pub merge_cap : Key p → Capability → Capability
  merge_cap key cap = merge_cap_all key.properties cap

  -- The accumulators of the loop in `Key::matches_cap`.
  abbrev narrow : Certainty → Set → Certainty × Set → Certainty × Set
  narrow certainty values (property_certainty, property_values) =
      (min_certainty certainty property_certainty, Sets.intersect values property_values)

  matches_cap_loop : Capability → List (KeyProperty p) → Certainty × Set → Option (Certainty × Set)
  matches_cap_loop cap [] acc = some acc
  matches_cap_loop cap (property ∷ rest) acc = elim (property_matches_cap property cap) [
    | none ↦ none
    | some found ↦ matches_cap_loop cap rest (narrow acc.0 acc.1 found)
  ]

  unfoldable pub matches_cap : Key p → Capability → Option (Certainty × Set)
  unfolding matches_cap_loop
  matches_cap key cap = matches_cap_loop cap key.properties (always, cap.values)

  abbrev is_value : KeyProperty p → Bool
  is_value (of_value range) = true
  is_value _ = false

  -- The range of the last `Value` property, and the other properties.
  abbrev value_or : Option Interval → KeyProperty p → Option Interval
  value_or found (of_value range) = some range
  value_or found _ = found

  unfoldable pub pop_value : Key p → Key p × Option Interval
  pop_value key = (
    record { properties = retain (λ property. not (is_value property)) key.properties },
    foldl value_or none key.properties,
  )

  unfoldable pub split_value : Key p → Key p × Option Interval
  split_value key = (
    record { properties = retain (λ property. not (is_value property)) key.properties },
    foldl value_or none key.properties,
  )

  unfoldable pub set_value : Key p → Interval → Key p
  unfolding pop_value
  set_value key range = record { properties = (pop_value key).0.properties ++ of_value range ∷ [] }

  abbrev type_of : KeyProperty p → Option EventType
  type_of (of_code c) = some c.ev_type
  type_of (of_type t) = some t
  type_of (of_virtual_type v) = some (base_type v)
  type_of _ = none

  -- The first property that gives a result, as an early return from a loop finds it.
  abbrev first_of {ℓ} : {A : Type ℓ} → (KeyProperty p → Option A) → List (KeyProperty p) → Option A
  first_of f [] = none
  first_of f (property ∷ rest) = elim (f property) [ some a ↦ some a | none ↦ first_of f rest ]

  unfoldable pub requires_event_type : Key p → Option EventType
  requires_event_type key = first_of type_of key.properties

  abbrev code_of : KeyProperty p → Option EventCode
  code_of (of_code c) = some c
  code_of _ = none

  unfoldable pub requires_event_code : Key p → Option EventCode
  requires_event_code key = first_of code_of key.properties

  abbrev domain_of : KeyProperty p → Option Domain
  domain_of (of_domain d) = some d
  domain_of _ = none

  unfoldable pub requires_domain : Key p → Option Domain
  requires_domain key = first_of domain_of key.properties

  -- `these_properties_may_intersect`.
  properties_may_intersect : KeyProperty p → KeyProperty p → Bool
  properties_may_intersect (of_code left) (of_code right) = code_eq left right
  properties_may_intersect (of_domain left) (of_domain right) = left == right
  properties_may_intersect (of_namespace left) (of_namespace right) = namespace_eq left right
  properties_may_intersect (of_virtual_type left) (of_virtual_type right) = virtual_eq left right
  properties_may_intersect (of_virtual_type v) (of_code c) = virtual_eq v (virtual_ev_type c)
  properties_may_intersect (of_code c) (of_virtual_type v) = virtual_eq v (virtual_ev_type c)
  properties_may_intersect (of_value left) (of_value right) = Interval.intersects_with left right
  properties_may_intersect (of_previous_value left) (of_previous_value right) =
      Interval.intersects_with left right
  properties_may_intersect _ _ = true

  abbrev types_differ : Option EventType → Option EventType → Bool
  types_differ (some a) (some b) = not (a == b)
  types_differ _ _ = false

  unfoldable pub intersects_with : Key p → Key p → Bool
  unfolding properties_may_intersect requires_event_type
  intersects_with self other =
      if types_differ (requires_event_type self) (requires_event_type other)
      then false
      else all (λ prop_1. all (λ prop_2. properties_may_intersect prop_1 prop_2) other.properties)
          self.properties
