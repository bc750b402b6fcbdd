-- ===== src/Examples/Keys.antt =====
-- Instances of the laws on keys.
use evsieve.Base.{none, ◌≡◌, refl, true, [], ◌∷◌, pos, arith}
use evsieve.Range.Interval
use evsieve.Event.{yielded}
use evsieve.Key.{
  Key, of_code, of_domain, of_value, matches, property_matches, matches_cap, property_matches_cap,
  merge, intersects_with,
}
use evsieve.Key.Caps.{Allows, matches_cap-of-matches}
use evsieve.Capability.{Capability, always}
use evsieve.Range.Sets
use evsieve.Range.Sets.{Set}
use evsieve.Range.Sets.Normal.{IsNormal, member}
use evsieve.Key.Certain.{matches-of-certain}
use evsieve.Key.Overlap.{intersects_with-of-matches}
use evsieve.Key.Merging.{matches-merge}
use evsieve.Examples.{integers, key_a, press_a, press_b}

-- Presses of one key.
abbrev pressed : Key integers
pressed = record {
  properties = of_code key_a ∷ of_value (record { min = pos 1; max = pos 2 }) ∷ [];
}

-- Events of the first domain.
abbrev local : Key integers
local = record { properties = of_domain 0 ∷ [] }

intersects_with-of-matches_example : intersects_with ⦃p = integers⦄ pressed local ≡ true
unfolding matches property_matches Interval.contains
intersects_with-of-matches_example =
    intersects_with-of-matches ⦃p = integers⦄ pressed local press_a refl refl

matches-merge_example : matches ⦃p = integers⦄ pressed (merge ⦃p = integers⦄ pressed press_b) ≡ true
matches-merge_example = matches-merge ⦃p = integers⦄ pressed press_b (omega arith) (omega arith)

-- Both values of the key.
abbrev whole_key : Capability
whole_key = record {
  code = key_a;
  domain = 0;
  namespace = yielded;
  values = record { intervals = record { min = pos 0; max = pos 1 } ∷ [] };
  abs_meta = none;
}

whole_key-Allows : Allows whole_key press_a
unfolding Interval.contains
whole_key-Allows = record {
  same_code = refl;
  same_domain = refl;
  same_namespace = refl;
  normal = omega arith;
  allowed = refl;
}

abbrev one : Set
one = record { intervals = record { min = pos 1; max = pos 1 } ∷ [] }

matches_cap-of-matches_example : IsNormal one.intervals × (member (pos 1) one.intervals ≡ true)
unfolding matches property_matches Interval.contains matches_cap property_matches_cap Sets.intersect
    Sets.from_unordered_intervals Interval.intersect Sets.from_interval
matches_cap-of-matches_example =
    matches_cap-of-matches ⦃p = integers⦄ pressed whole_key press_a always one (omega arith)
      whole_key-Allows refl refl

matches-of-certain_example : matches ⦃p = integers⦄ pressed press_a ≡ true
unfolding matches_cap property_matches_cap Sets.intersect Sets.from_unordered_intervals
    Interval.intersect Sets.from_interval Interval.contains
matches-of-certain_example =
    matches-of-certain ⦃p = integers⦄ pressed whole_key press_a one (omega arith) whole_key-Allows
      refl refl
