-- ===== src/Capability/Aggregate.antt =====
-- `aggregate_capabilities` of src/capability.rs: capabilities that differ in their values only become
-- one. The hash map is an association list; its order is not fixed.
pub mod Coverage
pub mod Normalized
use evsieve.Base.{
  ◌==◌, Bool, true, false, ◌&&◌, Option, none, some, List, [], ◌∷◌, map, eqb_ℤ, if◌then◌else◌,
}
use evsieve.Range.Interval
use evsieve.Range.Interval.{Interval}
use evsieve.Range.Sets
use evsieve.Range.Sets.{Set}
use evsieve.Event.{code_eq, namespace_eq}
use evsieve.Capability.{AbsMeta, Capability, split_values, with_values}

-- The derived tests.
abbrev pub meta_eq : Option AbsMeta → Option AbsMeta → Bool
meta_eq none none = true
meta_eq (some a) (some b) =
    eqb_ℤ a.fuzz b.fuzz
    && eqb_ℤ a.flat b.flat
    && eqb_ℤ a.resolution b.resolution
    && eqb_ℤ a.value b.value
meta_eq _ _ = false

abbrev intervals_eq : List Interval → List Interval → Bool
intervals_eq [] [] = true
intervals_eq (i ∷ is) (j ∷ js) = Interval.interval_eq i j && intervals_eq is js
intervals_eq _ _ = false

unfoldable pub capability_eq : Capability → Capability → Bool
capability_eq a b =
    code_eq a.code b.code
    && a.domain == b.domain
    && namespace_eq a.namespace b.namespace
    && intervals_eq a.values.intervals b.values.intervals
    && meta_eq a.abs_meta b.abs_meta

-- One round of the first loop: the values of a known key are united with the new ones.
unfoldable pub record_values : List (Capability × Set) → Capability → Set → List (Capability × Set)
unfolding capability_eq
record_values [] key values = (key, values) ∷ []
record_values ((other, recorded_values) ∷ rest) key values =
    if capability_eq other key
    then (other, Sets.union recorded_values values) ∷ rest
    else (other, recorded_values) ∷ record_values rest key values

unfoldable pub record_all : List (Capability × Set) → List Capability → List (Capability × Set)
unfolding record_values
record_all values_by_capability [] = values_by_capability
record_all values_by_capability (capability ∷ capabilities) =
    let (key, values) = split_values capability in
    record_all (record_values values_by_capability key values) capabilities

unfoldable pub aggregate_capabilities : List Capability → List Capability
unfolding record_all
aggregate_capabilities capabilities =
    map (λ (key, values). with_values key values) (record_all [] capabilities)
