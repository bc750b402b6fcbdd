-- ===== src/Capability.antt =====
-- src/capability.rs: what a device can send. A capability stands for all events of one code, domain
-- and namespace whose value lies in a set.
pub mod Codes
pub mod Device
pub mod Aggregate
use evsieve.Base.{Option, ℤ}
use evsieve.Event.{EventCode, Domain, Namespace}
use evsieve.Range.Sets
use evsieve.Range.Sets.{Set}

pub data Certainty : Type 0 where
  always : Certainty
  maybe : Certainty

-- `std::cmp::min` for the order in which `Maybe` comes before `Always`.
abbrev pub min_certainty : Certainty → Certainty → Certainty
min_certainty always c = c
min_certainty maybe c = maybe

pub record AbsMeta : Type 0 where
  pub fuzz : ℤ
  pub flat : ℤ
  pub resolution : ℤ
  pub value : ℤ

pub record AbsInfo : Type 0 where
  pub min_value : ℤ
  pub max_value : ℤ
  pub meta : AbsMeta

pub record Capability : Type 0 where
  pub code : EventCode
  pub domain : Domain
  pub namespace : Namespace
  pub values : Set
  pub abs_meta : Option AbsMeta

abbrev pub split_values : Capability → Capability × Set
split_values cap = (record cap { values = Sets.empty }, cap.values)

abbrev pub with_values : Capability → Set → Capability
with_values cap values = record cap { values = values }

abbrev pub map_values : Capability → (Set → Set) → Capability
map_values cap f = record cap { values = f cap.values }
