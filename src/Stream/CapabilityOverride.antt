-- ===== src/Stream/CapabilityOverride.antt =====
-- src/stream/capability_override.rs: capabilities that the output device must have. The forced ones are a
-- hash map, whose order is not fixed.
use evsieve.Base.{
  ◌==◌, Bool, ◌||◌, not, Option, none, some, List, [], ◌∷◌, ◌++◌, map, ℤ, if◌then◌else◌,
}
use evsieve.Range.Interval
use evsieve.Range.Interval.{Interval}
use evsieve.Range.Sets
use evsieve.Range.Sets.{Set}
use evsieve.Event.{EventCode, Domain, output, namespace_eq}
use evsieve.Capability.{Capability, with_values}
use evsieve.Capability.Codes
use evsieve.Capability.Codes.{CodeMap}

-- `CapabilityOverrideSpec` of src/arguments/capability.rs.
pub record CapabilityOverrideSpec : Type 0 where
  pub range : Option Interval
  pub flat : Option ℤ
  pub fuzz : Option ℤ
  pub value : Option ℤ

pub record CapabilityOverride : Type 0 where
  pub device : Domain
  pub forced_capabilities : CodeMap CapabilityOverrideSpec

-- A capability of the output device, with the forced range if there is one.
abbrev overridden : Capability → Option CapabilityOverrideSpec → Capability
overridden cap none = cap
overridden cap (some spec) = elim spec.range [
  | none ↦ cap
  | some range ↦ with_values cap (Sets.from_unordered_intervals (range ∷ []))
]

abbrev is_other_device : CapabilityOverride → Capability → Bool
is_other_device o cap = not (cap.domain == o.device) || not (namespace_eq cap.namespace output)

-- The first loop: what it writes, and what is not yet forced.
pass_on :
    CapabilityOverride
    → List Capability
    → CodeMap CapabilityOverrideSpec
    → List Capability × CodeMap CapabilityOverrideSpec
pass_on o [] not_yet_forced = ([], not_yet_forced)
pass_on o (cap ∷ caps) not_yet_forced =
    let other = is_other_device o cap in
    let (rest, left) =
      pass_on o caps (if other then not_yet_forced else Codes.remove not_yet_forced cap.code) in
    (
      (if other then cap else overridden cap (Codes.get o.forced_capabilities cap.code)) ∷ rest,
      left,
    )

abbrev range_or_all : Option Interval → Interval
range_or_all (some range) = range
range_or_all none = Interval.new none none

-- A forced capability that was not there.
forced : Domain → EventCode × CapabilityOverrideSpec → Capability
forced device (code, spec) = record {
  code = code;
  values = Sets.from_unordered_intervals (range_or_all spec.range ∷ []);
  domain = device;
  namespace = output;
  abs_meta = none;
}

unfoldable pub apply_to_all_caps : CapabilityOverride → List Capability → List Capability
unfolding pass_on forced
apply_to_all_caps o caps =
    let (passed, left) = pass_on o caps o.forced_capabilities in
    passed ++ map (forced o.device) left
