-- ===== src/Capability/Aggregate/Normalized.antt =====
-- Aggregation keeps sets normalized.
use evsieve.Base.{◌≡◌, List, [], ◌∷◌, map, All, All-map, Bool-cases, inl, inr}
use evsieve.Range.Sets
use evsieve.Range.Sets.{Set}
use evsieve.Range.Sets.Normal.{IsNormal, IsCanonical-IsNormal}
use evsieve.Range.Sets.Pairs.{IsNormal-All}
use evsieve.Range.Sets.Union.{member-union}
use evsieve.Event.{Event}
use evsieve.Capability.{Capability, with_values}
use evsieve.Capability.Aggregate.{capability_eq, record_values, record_all, aggregate_capabilities}
use evsieve.Capability.Aggregate.Coverage.{offered, offered-aggregate_capabilities}

-- The sets of all capabilities are normalized.
abbrev pub AreNormal : List Capability → Type 0
AreNormal = All (λ c. IsNormal c.values.intervals)

-- Aggregation keeps the sets normalized.
HasNormal : List (Capability × Set) → Type 0
HasNormal = All (λ entry. IsNormal entry.1.intervals)

record_values-HasNormal :
    (entries : List (Capability × Set)) (key : Capability) (values : Set)
    → HasNormal entries
    → IsNormal values.intervals
    → HasNormal (record_values entries key values)
unfolding record_values HasNormal
record_values-HasNormal [] key values h n = (n, tt)
record_values-HasNormal ((other, recorded) ∷ rest) key values (k, h) n =
    elim (Bool-cases (capability_eq other key)) [
      | inl e ↦ rw e (
        IsCanonical-IsNormal _
            ((member-union recorded values (IsNormal-All _ k) (IsNormal-All _ n)).0),
        h,
      )
      | inr e ↦ rw e (k, record_values-HasNormal rest key values h n)
    ]

record_all-HasNormal :
    (entries : List (Capability × Set)) (caps : List Capability)
    → HasNormal entries
    → AreNormal caps
    → HasNormal (record_all entries caps)
unfolding record_all
record_all-HasNormal entries [] h n = h
record_all-HasNormal entries (c ∷ caps) h (n, ns) =
    record_all-HasNormal (record_values entries (with_values c Sets.empty) c.values) caps
      (record_values-HasNormal entries (with_values c Sets.empty) c.values h n) ns

made-AreNormal :
    (entries : List (Capability × Set))
    → HasNormal entries
    → AreNormal (map (λ (key, values). with_values key values) entries)
unfolding HasNormal
made-AreNormal [] h = tt
made-AreNormal (e ∷ entries) (h, hs) = (h, made-AreNormal entries hs)

pub aggregate_capabilities-AreNormal :
    (caps : List Capability) → AreNormal caps → AreNormal (aggregate_capabilities caps)
unfolding aggregate_capabilities HasNormal
aggregate_capabilities-AreNormal caps n = made-AreNormal _ (record_all-HasNormal [] caps tt n)

pub offered-merged :
    (event : Event) (caps : List Capability)
    → AreNormal caps
    → offered event (aggregate_capabilities caps) ≡ offered event caps
offered-merged event caps n =
    offered-aggregate_capabilities event caps
      (All-map caps (λ c h. IsNormal-All c.values.intervals h) n)
