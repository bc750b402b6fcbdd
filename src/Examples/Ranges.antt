-- ===== src/Examples/Ranges.antt =====
-- Instances of the laws on intervals and sets.
use evsieve.Base.{◌≡◌, refl, true, ◌&&◌, not, [], ◌∷◌, ℤ, pos, negsuc, ◌-ℤ◌, IsI32, arith}
use evsieve.Range.Interval.{Interval, contains, bound, bound_range, delta_range}
use evsieve.Range.Interval.Laws.{contained, bound_range_image, delta_range_sound}
use evsieve.Range.Sets.{Set, from_unordered_intervals, intersect, complement, setminus}
use evsieve.Range.Sets.Normal.{member, IsCanonical}
use evsieve.Range.Sets.Union.{from_unordered_intervals_lem}
use evsieve.Range.Sets.Pairs.{member-intersect}
use evsieve.Range.Sets.Complement.{member-complement}
use evsieve.Range.Sets.Algebra.{
  member-setminus, from_unordered_intervals_ext, complement-complement,
}

abbrev low : Interval
low = record { min = negsuc 4; max = pos 3 }

abbrev middle : Interval
middle = record { min = pos 2; max = pos 9 }

abbrev high : Interval
high = record { min = pos 20; max = pos 30 }

abbrev outer : Set
outer = record { intervals = low ∷ high ∷ [] }

abbrev inner : Set
inner = record { intervals = middle ∷ [] }

bound_range_image_example :
    ((v : ℤ) → contains high v ≡ true → contains (bound_range middle high) (bound middle v) ≡ true)
    × (bound middle high.min ≡ (bound_range middle high).min)
    × (bound middle high.max ≡ (bound_range middle high).max)
bound_range_image_example = bound_range_image middle high (omega arith) (omega arith)

delta_range_sound_example : contained (delta_range low) (pos 1 -ℤ pos 3) ≡ true
unfolding contains ◌-ℤ◌
delta_range_sound_example = delta_range_sound low (pos 3) (pos 1) refl refl (omega arith)

from_unordered_intervals_lem_example :
    IsCanonical (from_unordered_intervals (high ∷ middle ∷ low ∷ [])).intervals
    × ((v : ℤ)
        → member v (from_unordered_intervals (high ∷ middle ∷ low ∷ [])).intervals
          ≡ member v (high ∷ middle ∷ low ∷ []))
from_unordered_intervals_lem_example =
    from_unordered_intervals_lem (high ∷ middle ∷ low ∷ []) (omega arith)

member-intersect_example :
    IsCanonical (intersect outer inner).intervals
    × ((v : ℤ)
        → member v (intersect outer inner).intervals
          ≡ (member v outer.intervals && member v inner.intervals))
member-intersect_example = member-intersect outer inner (omega arith) (omega arith)

member-complement_example :
    IsCanonical (complement outer).intervals
    × ((v : ℤ) → IsI32 v → member v (complement outer).intervals ≡ not (member v outer.intervals))
member-complement_example = member-complement outer (omega arith)

member-setminus_example :
    IsCanonical (setminus outer inner).intervals
    × ((v : ℤ)
        → IsI32 v
        → member v (setminus outer inner).intervals
          ≡ (member v outer.intervals && not (member v inner.intervals)))
member-setminus_example = member-setminus outer inner (omega arith) (omega arith)

from_unordered_intervals_ext_example :
    (from_unordered_intervals (high ∷ low ∷ [])).intervals
    ≡ (from_unordered_intervals (low ∷ high ∷ low ∷ [])).intervals
from_unordered_intervals_ext_example =
    from_unordered_intervals_ext (high ∷ low ∷ []) (low ∷ high ∷ low ∷ []) (omega arith)
      (omega arith) (λ v h. ground arith)

complement-complement_example : (complement (complement outer)).intervals ≡ outer.intervals
complement-complement_example = complement-complement outer (omega arith)
