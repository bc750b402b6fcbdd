-- ===== src/Range/Sets.antt =====
-- `struct Set` of src/range.rs and its methods, with the iterator over pairs of intervals. The
-- intervals of a set are a list. `sort_unstable_by_key` promises a permutation sorted by the key;
-- insertion gives one, and the laws of the merging loop hold for every list so sorted.
pub mod Normal
pub mod Union
pub mod Pairs
pub mod Complement
pub mod Algebra
use mathlib.Core.List.{flat_map}
use evsieve.Base.{
  ℕ, zero, suc, ◌+◌, Bool, true, false, Option, none, some, List, [], ◌∷◌, ◌++◌, foldl, reverse, ℤ,
  pos, if◌then◌else◌, ltb_ℤ, leb_ℤ, min_ℤ, i32_min, i32_max, ◌+ℤ◌, ◌-ℤ◌, saturating_pred,
  saturating_suc, length,
}
use evsieve.Range.Interval
use evsieve.Range.Interval.{Interval}

pub record Set : Type 0 where
  pub intervals : List Interval

-- `impl From<Interval> for Set`.
unfoldable pub from_interval : Interval → Set
from_interval value = record { intervals = value ∷ [] }

unfoldable pub insert_by_max : Interval → List Interval → List Interval
insert_by_max i [] = i ∷ []
insert_by_max i (j ∷ rest) = if ltb_ℤ i.max j.max then i ∷ j ∷ rest else j ∷ insert_by_max i rest

-- `intervals.sort_unstable_by_key(|interval| interval.max)`.
unfoldable pub sort_by_max : List Interval → List Interval
unfolding insert_by_max
sort_by_max [] = []
sort_by_max (i ∷ rest) = insert_by_max i (sort_by_max rest)

-- The `while let` loop with the push after it. The list holds the merged intervals, the last first.
unfoldable pub absorb : Interval → List Interval → List Interval
absorb interval [] = interval ∷ []
absorb interval (last ∷ rest) =
    if leb_ℤ (saturating_pred interval.min) last.max
    then absorb (record interval { min = min_ℤ interval.min last.min }) rest
    else interval ∷ last ∷ rest

-- The `for` loop over the sorted intervals.
unfoldable pub absorb_all : List Interval → List Interval → List Interval
unfolding absorb
absorb_all merged [] = merged
absorb_all merged (interval ∷ rest) = absorb_all (absorb interval merged) rest

unfoldable pub from_unordered_intervals : List Interval → Set
unfolding sort_by_max absorb_all
from_unordered_intervals intervals = record {
  intervals = reverse (absorb_all [] (sort_by_max intervals));
}

unfoldable pub union : Set → Set → Set
union self other = from_unordered_intervals (self.intervals ++ other.intervals)

-- `function` may return several intervals for each one.
unfoldable pub map : Set → (Interval → List Interval) → Set
map self function = from_unordered_intervals (flat_map function self.intervals)

unfoldable pub empty : Set
empty = record { intervals = [] }

unfoldable pub is_empty : Set → Bool
is_empty s = elim s.intervals [ [] ↦ true | _ ∷ _ ↦ false ]

-- `struct IntervalPairIterator`: what the two iterators still hold, and the pending pair.
pub record IntervalPairIterator : Type 0 where
  interval_iter_1 : List Interval
  interval_iter_2 : List Interval
  next_interval_1 : Option Interval
  next_interval_2 : Option Interval

-- `Iterator::next` of the iterator over a list: the element and the rest.
abbrev head? : List Interval → Option Interval
head? [] = none
head? (x ∷ xs) = some x

abbrev tail : List Interval → List Interval
tail [] = []
tail (x ∷ xs) = xs

unfoldable pub pair_iterator : List Interval → List Interval → IntervalPairIterator
pair_iterator intervals_1 intervals_2 = record {
  interval_iter_1 = tail intervals_1;
  interval_iter_2 = tail intervals_2;
  next_interval_1 = head? intervals_1;
  next_interval_2 = head? intervals_2;
}

-- The `match` on the primary iterator: (primary, secondary) and (primary_next, secondary_next).
abbrev advance :
    List Interval
    → List Interval
    → Option Interval
    → Option Interval
    → List Interval × List Interval × Option Interval × Option Interval
advance (value ∷ primary) secondary p s = (primary, secondary, some value, s)
advance [] (value ∷ secondary) p s = ([], secondary, p, some value)
advance [] [] p s = ([], [], none, none)

abbrev advance_1 : Interval → Interval → IntervalPairIterator → IntervalPairIterator
advance_1 interval_1 interval_2 it =
    let (r1, r2, n1, n2) =
      advance it.interval_iter_1 it.interval_iter_2 (some interval_1) (some interval_2) in
    record {
      interval_iter_1 = r1;
      interval_iter_2 = r2;
      next_interval_1 = n1;
      next_interval_2 = n2;
    }

abbrev advance_2 : Interval → Interval → IntervalPairIterator → IntervalPairIterator
advance_2 interval_1 interval_2 it =
    let (r2, r1, n2, n1) =
      advance it.interval_iter_2 it.interval_iter_1 (some interval_2) (some interval_1) in
    record {
      interval_iter_1 = r1;
      interval_iter_2 = r2;
      next_interval_1 = n1;
      next_interval_2 = n2;
    }

unfoldable pub next_from : Interval → Interval → IntervalPairIterator → IntervalPairIterator
next_from interval_1 interval_2 it =
    if ltb_ℤ interval_1.max interval_2.max
    then advance_1 interval_1 interval_2 it
    else advance_2 interval_1 interval_2 it

unfoldable pub next : IntervalPairIterator → Option ((Interval × Interval) × IntervalPairIterator)
unfolding next_from
next it = elim it.next_interval_1 [
  | none ↦ none
  | some interval_1 ↦ elim it.next_interval_2 [
    | none ↦ none
    | some interval_2 ↦ some ((interval_1, interval_2), next_from interval_1 interval_2 it)
  ]
]

-- `Vec::push` of an intersection, where there is one.
abbrev push_some : Option Interval → List Interval → List Interval
push_some none rest = rest
push_some (some i) rest = i ∷ rest

-- The `for` loop of `intersect`. Each round takes an interval off one of the two iterators or ends
-- the iteration, so that one round more than they hold is enough.
unfoldable pub intersect_loop : ℕ → IntervalPairIterator → List Interval
intersect_loop zero it = []
intersect_loop (suc fuel) it = elim (next it) [
  | none ↦ []
  | some (p, it') ↦ push_some (Interval.intersect p.0 p.1) (intersect_loop fuel it')
]

unfoldable pub intersect : Set → Set → Set
unfolding pair_iterator next intersect_loop
intersect self other = from_unordered_intervals (
    intersect_loop (length self.intervals + length other.intervals)
      (pair_iterator self.intervals other.intervals))

-- The loop over `windows(2)`: the gaps between neighbours.
unfoldable pub gaps : List Interval → List Interval
gaps [] = []
gaps (a ∷ []) = []
gaps (a ∷ b ∷ rest) =
    let later = gaps (b ∷ rest) in
    if ltb_ℤ (saturating_suc a.max) b.min
    then record { min = a.max +ℤ pos 1; max = b.min -ℤ pos 1 } ∷ later
    else later

abbrev last_from : Interval → List Interval → Interval
last_from i [] = i
last_from i (j ∷ rest) = last_from j rest

abbrev push_below : Interval → List Interval → List Interval
push_below first rest =
    if ltb_ℤ i32_min first.min
    then record { min = i32_min; max = first.min -ℤ pos 1 } ∷ rest
    else rest

abbrev push_above : Interval → List Interval
push_above last =
    if ltb_ℤ last.max i32_max then record { min = last.max +ℤ pos 1; max = i32_max } ∷ [] else []

unfoldable pub complement_of : List Interval → List Interval
unfolding gaps
complement_of [] = record { min = i32_min; max = i32_max } ∷ []
complement_of (first ∷ rest) =
    push_below first (gaps (first ∷ rest) ++ push_above (last_from first rest))

unfoldable pub complement : Set → Set
unfolding complement_of
complement s = record { intervals = complement_of s.intervals }

unfoldable pub setminus : Set → Set → Set
unfolding intersect complement
setminus self other = intersect self (complement other)

abbrev spanning_of : List Interval → Option Interval
spanning_of [] = none
spanning_of (first ∷ rest) = some (record { min = first.min; max = (last_from first rest).max })

unfoldable pub spanning_interval : Set → Option Interval
spanning_interval s = spanning_of s.intervals
