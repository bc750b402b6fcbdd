-- ===== src/Stream/Map.antt =====
-- `struct Map` of src/stream/map.rs, on events and on capabilities. What a method writes to its output
-- is what it returns; `none` is a panic of `Key::matches_cap`.
pub mod Caps
pub mod Covered
use mathlib.Core.List.{flat_map}
use evsieve.Base.{not, Option, none, some, List, [], ◌∷◌, ◌++◌, map, retain, if◌then◌else◌}
use evsieve.Platform.{Platform}
use evsieve.Range.Sets
use evsieve.Range.Sets.{Set}
use evsieve.Event.{Event, Domain, Namespace}
use evsieve.Capability.{Capability, Certainty, always, maybe, with_values}
use evsieve.Key
use evsieve.Key.{Key}

pub record Map (p : Platform) : Type 0 where
  pub input_key : Key p
  pub output_keys : List (Key p)

module _ ⦃p : Platform⦄ where
  abbrev pub block : Key p → Map p
  block input_key = record { input_key = input_key; output_keys = [] }

  unfoldable pub domain_shift : Domain → Namespace → Domain → Namespace → Map p
  domain_shift source_domain source_namespace target_domain target_namespace = record {
    input_key = Key.from_domain_and_namespace source_domain source_namespace;
    output_keys = Key.from_domain_and_namespace target_domain target_namespace ∷ [];
  }

  unfoldable pub apply : Map p → Event → List Event
  apply m event =
      if not (Key.matches m.input_key event)
      then event ∷ []
      else map (λ key. Key.merge key event) m.output_keys

  unfoldable pub apply_to_all : Map p → List Event → List Event
  unfolding apply
  apply_to_all m events = flat_map (apply m) events

  abbrev push_nonempty : Capability → List Capability → List Capability
  push_nonempty cap rest = if not (Sets.is_empty cap.values) then cap ∷ rest else rest

  abbrev nonmatching : Certainty → Capability → Set → Capability
  nonmatching maybe cap values = cap
  nonmatching always cap values = with_values cap values

  unfoldable pub caps_for : Map p → Capability → Certainty × Set → List Capability
  caps_for m cap (certainty, matching_values) =
      let matchable_cap = with_values cap matching_values in
      let potentially_nonmatching_values = Sets.setminus cap.values matchable_cap.values in
      let potentially_nonmatching_cap = nonmatching certainty cap potentially_nonmatching_values in
      let generated_caps =
        retain (λ c. not (Sets.is_empty c.values))
          (map (λ key. Key.merge_cap key matchable_cap) m.output_keys) in
      push_nonempty potentially_nonmatching_cap generated_caps

  unfoldable pub apply_cap : Map p → Capability → Option (List Capability)
  unfolding caps_for
  apply_cap m cap = elim (Key.matches_cap m.input_key cap) [
    | none ↦ none
    | some found ↦ some (caps_for m cap found)
  ]

  unfoldable pub apply_to_all_caps : Map p → List Capability → Option (List Capability)
  unfolding apply_cap
  apply_to_all_caps m [] = some []
  apply_to_all_caps m (cap ∷ caps) = elim (apply_cap m cap) [
    | none ↦ none
    | some first ↦ elim (apply_to_all_caps m caps) [
      | none ↦ none
      | some rest ↦ some (first ++ rest)
    ]
  ]
