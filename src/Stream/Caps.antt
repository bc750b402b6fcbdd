-- ===== src/Stream/Caps.antt =====
-- The capabilities that go through a stream: `run_caps`, `determine_output_capabilities` and
-- `Setup::update_caps` of src/stream.rs. A panic is `none`.
pub mod Entries
pub mod Covered
use evsieve.Base.{
  ℕ, ◌+◌, ◌*◌, leb, ◌==◌, Bool, true, false, Option, none, some, List, [], ◌∷◌, ◌++◌, length,
  if◌then◌else◌,
}
use evsieve.Platform.{Platform}
use evsieve.Event.{Domain}
use evsieve.Capability.{Capability}
use evsieve.Capability.Device.{
  Capabilities, InputCapabilities, is_compatible_with, input_caps_to_vec,
}
use evsieve.Capability.Aggregate.{aggregate_capabilities}
use evsieve.Stream.Map
use evsieve.Stream.Toggle
use evsieve.Stream.Hook
use evsieve.Stream.Withhold
use evsieve.Stream.Scale
use evsieve.Stream.Scale.{RelToAbs}
use evsieve.Stream.CapabilityOverride
use evsieve.Stream.Run.{
  StreamEntry, map, hook, hook_group, toggle, print, merge, scale, rel_to_abs, delay,
  capability_override, Setup,
}

module _ ⦃p : Platform⦄ where
  -- `RelToAbs::apply_to_all_caps`.
  unfoldable pub rel_to_abs_all_caps : RelToAbs p → List Capability → Option (List Capability)
  rel_to_abs_all_caps r [] = some []
  rel_to_abs_all_caps r (cap ∷ caps) = elim (Scale.rel_to_abs_cap r cap) [
    | none ↦ none
    | some first ↦ elim (rel_to_abs_all_caps r caps) [
      | none ↦ none
      | some rest ↦ some (first ++ rest)
    ]
  ]

  -- `Scale::apply_to_all_caps`.
  unfoldable pub scale_all_caps : Scale.Scale p → List Capability → List Capability
  scale_all_caps s [] = []
  scale_all_caps s (cap ∷ caps) = Scale.apply_to_cap s cap ∷ scale_all_caps s caps

  -- The `match` in `run_caps`.
  unfoldable pub entry_caps : StreamEntry p → List Capability → Option (List Capability)
  unfolding rel_to_abs_all_caps scale_all_caps
  entry_caps (map m) caps = Map.apply_to_all_caps m caps
  entry_caps (toggle t) caps = Toggle.apply_to_all_caps t caps
  entry_caps (merge m) caps = some caps
  entry_caps (hook h) caps = Hook.apply_to_all_caps h caps
  entry_caps (hook_group g) caps = Withhold.group_apply_to_all_caps g caps
  entry_caps (scale s) caps = some (scale_all_caps s caps)
  entry_caps (rel_to_abs r) caps = rel_to_abs_all_caps r caps
  entry_caps (capability_override o) caps = some (CapabilityOverride.apply_to_all_caps o caps)
  entry_caps print caps = some caps
  entry_caps (delay d) caps = some caps

  -- The loop, with the number of capabilities after the last aggregation.
  unfoldable pub caps_loop : List (StreamEntry p) → List Capability → ℕ → Option (List Capability)
  unfolding entry_caps
  caps_loop [] caps last_num_caps = some (aggregate_capabilities caps)
  caps_loop (entry ∷ stream) caps last_num_caps = elim (entry_caps entry caps) [
    | none ↦ none
    | some caps' ↦
        let merged = aggregate_capabilities caps' in
        let many = leb (2 * last_num_caps) (length caps') in
        caps_loop stream (if many then merged else caps')
          (if many then length merged else last_num_caps)
  ]

  unfoldable pub run_caps : List (StreamEntry p) → List Capability → Option (List Capability)
  unfolding caps_loop
  run_caps stream capabilities = caps_loop stream capabilities (length capabilities)

  unfoldable pub determine_output_capabilities :
      List (StreamEntry p) → InputCapabilities → Option (List Capability)
  unfolding run_caps
  determine_output_capabilities stream input_caps = run_caps stream (input_caps_to_vec input_caps)

  -- `HashMap::insert` and the value that it replaces.
  abbrev find_caps : InputCapabilities → Domain → Option Capabilities
  find_caps [] domain = none
  find_caps ((other, caps) ∷ rest) domain =
      if other == domain then some caps else find_caps rest domain

  abbrev remove_caps : InputCapabilities → Domain → InputCapabilities
  remove_caps [] domain = []
  remove_caps ((other, caps) ∷ rest) domain =
      let left = remove_caps rest domain in if other == domain then left else (other, caps) ∷ left

  abbrev is_known : Capabilities → Option Capabilities → Bool
  is_known caps none = false
  is_known caps (some old_caps) = is_compatible_with caps old_caps

  abbrev output_updated : Setup p → Option (List Capability) → Option (Setup p)
  output_updated s none = none
  output_updated s (some caps_out) =
      some (record s { output = s.output ++ evsieve.Stream.Run.update_caps caps_out ∷ [] })

  -- `Setup::update_caps`, for the domain and the capabilities of the new device.
  unfoldable pub update_caps : Setup p → Domain → Capabilities → Option (Setup p)
  unfolding determine_output_capabilities
  update_caps s domain caps =
      let s' = record s { input_caps = (domain, caps) ∷ remove_caps s.input_caps domain } in
      if is_known caps (find_caps s.input_caps domain)
      then some s'
      else output_updated s' (determine_output_capabilities s.stream s'.input_caps)
