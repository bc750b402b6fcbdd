-- ===== src/Range/Sets/Union.antt =====
-- `Set::from_unordered_intervals` and what is built on it: `union` and `map`.
use mathlib.Core.List.{flat_map, reverse-append, append_assoc, append-nil}
use evsieve.Base.{
  or_swap, or-false, or_rotate, ◌≡◌, refl, sym, ◌∙◌, ap, ◌||◌, ℤ, ◌≤ℤ◌, List, [], ◌∷◌, ◌++◌,
  reverse, any, arith, All, ltb_ℤ, any-append, Bool-cases, inl, inr, All-append, i32_min,
}
use evsieve.Range.Interval.{Interval, contains}
use evsieve.Range.Sets.{
  Set, absorb_all, sort_by_max, insert_by_max, from_unordered_intervals, union, map,
}
use evsieve.Range.Sets.Normal.{
  member, IsValid, IsCanonical, GapAbove, IsStack, Apart, SortedFrom, absorb_all_lem,
}

-- Insertion keeps the members and their validity, and leaves a sorted list.
member-insert_by_max :
    (i : Interval) (xs : List Interval) (v : ℤ)
    → member v (insert_by_max i xs) ≡ (contains i v || member v xs)
unfolding insert_by_max
member-insert_by_max i [] v = refl
member-insert_by_max i (x ∷ xs) v = elim (Bool-cases (ltb_ℤ i.max x.max)) [
  | inl lt ↦ rw lt
  | inr ge ↦
      rw (ge, member-insert_by_max i xs v) (or_swap (contains x v) (contains i v) (member v xs))
]

All-insert_by_max :
    (i : Interval) (xs : List Interval)
    → IsValid i
    → All IsValid xs
    → All IsValid (insert_by_max i xs)
unfolding insert_by_max
All-insert_by_max i [] hi hx = (hi, tt)
All-insert_by_max i (x ∷ xs) hi hx = elim (Bool-cases (ltb_ℤ i.max x.max)) [
  | inl lt ↦ rw lt (hi, hx)
  | inr ge ↦ rw ge (hx.0, All-insert_by_max i xs hi (hx.1))
]

insert_by_max-SortedFrom :
    (z : ℤ) (i : Interval) (xs : List Interval)
    → z ≤ℤ i.max
    → SortedFrom z xs
    → SortedFrom z (insert_by_max i xs)
unfolding insert_by_max
insert_by_max-SortedFrom z i [] hz hx = (hz, tt)
insert_by_max-SortedFrom z i (x ∷ xs) hz hx = elim (Bool-cases (ltb_ℤ i.max x.max)) [
  | inl lt ↦ rw lt (hz, (ground arith, hx.1))
  | inr ge ↦ rw ge (hx.0, insert_by_max-SortedFrom x.max i xs (ground arith) (hx.1))
]

-- What sorting by `max` promises: the same members, all valid, in order.
sort_by_max_lem :
    (xs : List Interval)
    → All IsValid xs
    → All IsValid (sort_by_max xs)
      × SortedFrom i32_min (sort_by_max xs)
      × ((v : ℤ) → member v (sort_by_max xs) ≡ member v xs)
unfolding sort_by_max
sort_by_max_lem [] h = (tt, tt, λ v. refl)
sort_by_max_lem (x ∷ xs) h =
    let ih = sort_by_max_lem xs (h.1) in
    (
      All-insert_by_max x (sort_by_max xs) (h.0) (ih.0),
      insert_by_max-SortedFrom i32_min x (sort_by_max xs) (h.0.1.0) (ih.1),
      λ v. member-insert_by_max x (sort_by_max xs) v ∙ ap (λ b. contains x v || b) (ih.2 v),
    )

reverse_onto :
    (i : Interval) (st acc : List Interval) → reverse (i ∷ st) ++ acc ≡ reverse st ++ (i ∷ acc)
reverse_onto i st acc =
    ap (λ l. l ++ acc) (reverse-append (i ∷ []) st) ∙ append_assoc (reverse st) (i ∷ []) acc

-- The stack read from its bottom is a canonical list.
abbrev GapBelow : List Interval → List Interval → Type 0
GapBelow [] acc = Unit
GapBelow (i ∷ st) acc = GapAbove i.max acc

reverse-IsCanonical :
    (st acc : List Interval)
    → IsStack st
    → IsCanonical acc
    → GapBelow st acc
    → IsCanonical (reverse st ++ acc)
reverse-IsCanonical [] acc hst ha g = ha
reverse-IsCanonical (i ∷ st) acc hst ha g =
    rw (reverse_onto i st acc)
      (reverse-IsCanonical st (i ∷ acc) (hst.2) (hst.0, g, ha) (gap_below i st acc (hst.1)))
  where
    gap_below : (i : Interval) (st acc : List Interval) → Apart i st → GapBelow st (i ∷ acc)
    gap_below i [] acc h = tt
    gap_below i (j ∷ st) acc h = h

member-reverse :
    (v : ℤ) (st acc : List Interval) → member v (reverse st ++ acc) ≡ (member v st || member v acc)
member-reverse v [] acc = refl
member-reverse v (i ∷ st) acc =
    ap (member v) (reverse_onto i st acc)
    ∙ member-reverse v st (i ∷ acc)
    ∙ sym (or_rotate (contains i v) (member v st) (member v acc))

-- From valid intervals in any order, overlapping or not, the set that is built satisfies the
-- documented invariant, even with a gap between neighbours, and has exactly their values.
pub from_unordered_intervals_lem :
    (xs : List Interval)
    → All IsValid xs
    → IsCanonical (from_unordered_intervals xs).intervals
      × ((v : ℤ) → member v (from_unordered_intervals xs).intervals ≡ member v xs)
unfolding from_unordered_intervals
from_unordered_intervals_lem xs h =
    let sorted = sort_by_max_lem xs h in
    let merged = absorb_all_lem i32_min [] (sort_by_max xs) tt tt (sorted.0) (sorted.1) in
    let st = absorb_all [] (sort_by_max xs) in
    (
      rw (append-nil (reverse st)) at (reverse-IsCanonical st [] (merged.0) tt (no_gap st)),
      λ v.
          ap (member v) (sym (append-nil (reverse st)))
          ∙ member-reverse v st []
          ∙ or-false (member v st)
          ∙ merged.1 v
          ∙ sorted.2 v,
    )
  where
    no_gap : (st : List Interval) → GapBelow st []
    no_gap [] = tt
    no_gap (i ∷ st) = tt

-- Membership in a list of intervals is that in its parts, interval by interval.
member-flat_map :
    (f : Interval → List Interval) (xs : List Interval) (v : ℤ)
    → member v (flat_map f xs) ≡ any (λ i. member v (f i)) xs
unfolding flat_map
member-flat_map f [] v = refl
member-flat_map f (x ∷ xs) v =
    any-append (λ i. contains i v) (f x) (flat_map f xs)
    ∙ ap (λ b. member v (f x) || b) (member-flat_map f xs v)

-- `union` of two sets of valid intervals satisfies the invariant and holds exactly the values in
-- one of the two.
pub member-union :
    (a b : Set)
    → All IsValid a.intervals
    → All IsValid b.intervals
    → IsCanonical (union a b).intervals
      × ((v : ℤ) → member v (union a b).intervals ≡ (member v a.intervals || member v b.intervals))
unfolding union
member-union a b ha hb =
    let built =
      from_unordered_intervals_lem (a.intervals ++ b.intervals)
        (All-append IsValid a.intervals b.intervals ha hb) in
    (built.0, λ v. built.1 v ∙ any-append (λ i. contains i v) a.intervals b.intervals)

All-flat_map :
    (f : Interval → List Interval) (xs : List Interval)
    → All IsValid xs
    → ((i : Interval) → IsValid i → All IsValid (f i))
    → All IsValid (flat_map f xs)
unfolding flat_map
All-flat_map f [] hx hf = tt
All-flat_map f (x ∷ xs) hx hf =
    All-append IsValid (f x) (flat_map f xs) (hf x (hx.0)) (All-flat_map f xs (hx.1) hf)

-- `map` by a function that returns valid intervals: the union of what it returns.
pub member-map :
    (s : Set) (f : Interval → List Interval)
    → All IsValid s.intervals
    → ((i : Interval) → IsValid i → All IsValid (f i))
    → IsCanonical (map s f).intervals
      × ((v : ℤ) → member v (map s f).intervals ≡ any (λ i. member v (f i)) s.intervals)
unfolding map
member-map s f hs hf =
    let built =
      from_unordered_intervals_lem (flat_map f s.intervals) (All-flat_map f s.intervals hs hf) in
    (built.0, λ v. built.1 v ∙ member-flat_map f s.intervals v)
