-- ===== src/Range/Sets/Algebra.antt =====
-- What the methods of `Set` mean together: difference, the spanning interval, and that two sets
-- which the methods built are equal (the derived `==`) exactly when they hold the same values.
use evsieve.Base.{
  ◌≡◌, refl, sym, ◌∙◌, ap, Bool, true, false, ◌||◌, ◌&&◌, not, ℤ, pos, ◌≤ℤ◌, ◌<ℤ◌, List, [], ◌∷◌,
  arith, IsI32, All, ltb_ℤ, leb_ℤ, ap₂, subst, Bool-cases, ||-cases, inl, inr, ◌+ℤ◌, +ℤ_parts,
  eq_of_parts,
}
use evsieve.Range.Interval.{Interval, contains}
use evsieve.Range.Interval.Laws.{contained}
use evsieve.Range.Sets.{
  is_empty, Set, setminus, complement, spanning_interval, last_from, spanning_of,
  from_unordered_intervals,
}
use evsieve.Range.Sets.Normal.{member, IsValid, IsNormal, IsCanonical, IsCanonical-IsNormal}
use evsieve.Range.Sets.Pairs.{member-intersect}
use evsieve.Range.Sets.Complement.{member-complement, not_member}
use evsieve.Range.Sets.Union.{from_unordered_intervals_lem}

-- `setminus` of sets that satisfy the invariant: a set that satisfies it and holds exactly the
-- values of the first that are not in the second.
pub member-setminus :
    (a b : Set)
    → IsNormal a.intervals
    → IsNormal b.intervals
    → IsCanonical (setminus a b).intervals
      × ((v : ℤ)
          → IsI32 v
          → member v (setminus a b).intervals
            ≡ (member v a.intervals && not (member v b.intervals)))
unfolding setminus
member-setminus a b ha hb =
    let outside = member-complement b hb in
    let built =
      member-intersect a (complement b) ha
        (IsCanonical-IsNormal (complement b).intervals (outside.0)) in
    (built.0, λ v hv. built.1 v ∙ ap (λ c. member v a.intervals && c) (outside.1 v hv))

contains_bounds : (i : Interval) (v : ℤ) → contains i v ≡ true → (i.min ≤ℤ v) × (v ≤ℤ i.max)
unfolding contains
contains_bounds i v h = (ground arith, ground arith)

in_interval : (i : Interval) (v : ℤ) → i.min ≤ℤ v → v ≤ℤ i.max → contains i v ≡ true
unfolding contains
in_interval i v h k = ground arith

below_first :
    (v : ℤ) (i : Interval) (xs : List Interval)
    → IsNormal (i ∷ xs)
    → member v (i ∷ xs) ≡ true
    → i.min ≤ℤ v
below_first v i xs h m = elim (||-cases (contains i v) (member v xs) m) [
  | inl here ↦ (contains_bounds i v here).0
  | inr later ↦ later_above xs h later
]
  where
    later_above : (xs : List Interval) → IsNormal (i ∷ xs) → member v xs ≡ true → i.min ≤ℤ v
    later_above xs h m = elim (Bool-cases (leb_ℤ i.min v)) [
      | inl le ↦ ground arith
      | inr gt ↦ cc (not_member i.max v xs (h.2) (h.1) (ground arith), m)
    ]

first-le-last :
    (i : Interval) (xs : List Interval) → IsNormal (i ∷ xs) → i.max ≤ℤ (last_from i xs).max
first-le-last i [] h = omega arith
first-le-last i (j ∷ xs) h = omega (arith, first-le-last j xs (h.2))

above_last :
    (v : ℤ) (i : Interval) (xs : List Interval)
    → IsNormal (i ∷ xs)
    → member v (i ∷ xs) ≡ true
    → v ≤ℤ (last_from i xs).max
above_last v i [] h m = elim (||-cases (contains i v) false m) [
  | inl here ↦ (contains_bounds i v here).1
  | inr never ↦ cc
]
above_last v i (j ∷ xs) h m = elim (||-cases (contains i v) (member v (j ∷ xs)) m) [
  | inl here ↦ omega (arith, (contains_bounds i v here).1, first-le-last j xs (h.2))
  | inr later ↦ above_last v j xs (h.2) later
]

-- `spanning_interval` holds every value of the set.
pub member-spanning_interval :
    (s : Set) (v : ℤ)
    → IsNormal s.intervals
    → member v s.intervals ≡ true
    → contained (spanning_interval s) v ≡ true
unfolding spanning_interval
member-spanning_interval s v h m = go s.intervals h m
  where
    go :
        (xs : List Interval)
        → IsNormal xs
        → member v xs ≡ true
        → contained (spanning_of xs) v ≡ true
    go [] h m = cc
    go (i ∷ xs) h m = in_interval _ v (below_first v i xs h m) (above_last v i xs h m)

-- The value after an interval lies in no later one.
not_after :
    (i : Interval) (xs : List Interval)
    → IsCanonical (i ∷ xs)
    → member (i.max +ℤ pos 1) (i ∷ xs) ≡ false
unfolding contains
not_after i [] h = ground (arith, +ℤ_parts i.max (pos 1))
not_after i (j ∷ xs) h = ground (
  arith,
  +ℤ_parts i.max (pos 1),
  not_member j.max (i.max +ℤ pos 1) xs ((IsCanonical-IsNormal (j ∷ xs) (h.2)).2)
      ((IsCanonical-IsNormal (j ∷ xs) (h.2)).1),
)

first_member :
    (v : ℤ) (i : Interval) (xs : List Interval) → contains i v ≡ true → member v (i ∷ xs) ≡ true
first_member v i xs h = rw h

-- What the two lists agree on.
abbrev Agree : List Interval → List Interval → Type 0
Agree xs ys = (v : ℤ) → IsI32 v → member v xs ≡ member v ys

module _ (i j : Interval) (xs ys : List Interval) (hx : IsCanonical (i ∷ xs))
    (hy : IsCanonical (j ∷ ys)) (agree : Agree (i ∷ xs) (j ∷ ys)) where
  min-le : j.min ≤ℤ i.min
  min-le = below_first i.min j ys (IsCanonical-IsNormal (j ∷ ys) hy) (
      sym (agree i.min (hx.0.0))
      ∙ first_member i.min i xs (in_interval i i.min (omega arith) (hx.0.2)))

  -- Else the value after the shorter interval would be in one list only.
  max-le : j.min ≤ℤ i.min → i.min ≤ℤ j.min → j.max ≤ℤ i.max
  max-le h k = elim (Bool-cases (ltb_ℤ i.max j.max)) [
    | inl lt ↦
        let p = +ℤ_parts i.max (pos 1) in
        let after : i.max <ℤ j.max = ground arith in
        cc (
          sym (not_after i xs hx)
          ∙ agree (i.max +ℤ pos 1) (omega arith, omega arith)
          ∙ first_member (i.max +ℤ pos 1) j ys
              (in_interval j (i.max +ℤ pos 1) (omega arith) (omega arith)))
    | inr ge ↦ ground arith
  ]

interval_path : (i j : Interval) → i.min ≡ j.min → i.max ≡ j.max → i ≡ j
interval_path i j p q = λ k. record { min = p k; max = q k }

first_eq :
    (i j : Interval) (xs ys : List Interval)
    → IsCanonical (i ∷ xs)
    → IsCanonical (j ∷ ys)
    → Agree (i ∷ xs) (j ∷ ys)
    → i ≡ j
first_eq i j xs ys hx hy agree =
    let back : Agree (j ∷ ys) (i ∷ xs) = λ v hv. sym (agree v hv) in
    let low = min-le i j xs ys hx hy agree in
    let high = min-le j i ys xs hy hx back in
    interval_path i j (eq_of_parts i.min j.min (omega arith)) (
      eq_of_parts i.max j.max (
        omega (arith, max-le i j xs ys hx hy agree low high, max-le j i ys xs hy hx back high low)))

-- Without a common first interval the lists still agree: no later interval holds its values.
rest-Agree :
    (i : Interval) (xs ys : List Interval)
    → IsCanonical (i ∷ xs)
    → IsCanonical (i ∷ ys)
    → Agree (i ∷ xs) (i ∷ ys)
    → Agree xs ys
rest-Agree i xs ys hx hy agree v hv = elim (Bool-cases (leb_ℤ v i.max)) [
  | inl le ↦ outside xs hx (ground arith) ∙ sym (outside ys hy (ground arith))
  | inr gt ↦ same (not_in gt) (agree v hv)
]
  where
    outside : (xs : List Interval) → IsCanonical (i ∷ xs) → v ≤ℤ i.max → member v xs ≡ false
    outside xs hx le =
        let n = IsCanonical-IsNormal (i ∷ xs) hx in not_member i.max v xs (n.2) (n.1) le

    not_in : leb_ℤ v i.max ≡ false → contains i v ≡ false
    not_in gt = unfold contains in ground arith

    same :
        contains i v ≡ false
        → (contains i v || member v xs) ≡ (contains i v || member v ys)
        → member v xs ≡ member v ys
    same c h = rw c at h

never_empty :
    (i : Interval) (xs : List Interval) → IsCanonical (i ∷ xs) → member i.min (i ∷ xs) ≡ true
never_empty i xs h = first_member i.min i xs (in_interval i i.min (omega arith) (h.0.2))

-- Canonical lists that hold the same `i32` values are the same list.
pub canonical_ext :
    (xs ys : List Interval) → IsCanonical xs → IsCanonical ys → Agree xs ys → xs ≡ ys
canonical_ext [] [] hx hy agree = refl
canonical_ext [] (j ∷ ys) hx hy agree = cc (agree j.min (hy.0.0), never_empty j ys hy)
canonical_ext (i ∷ xs) [] hx hy agree = cc (agree i.min (hx.0.0), never_empty i xs hx)
canonical_ext (i ∷ xs) (j ∷ ys) hx hy agree =
    let e = first_eq i j xs ys hx hy agree in
    let hy' : IsCanonical (i ∷ ys) = rw e hy in
    let agree' : Agree (i ∷ xs) (i ∷ ys) = subst (λ k. Agree (i ∷ xs) (k ∷ ys)) (sym e) agree in
    ap₂ (λ k l. k ∷ l) e (canonical_ext xs ys (hx.2) (hy.2) (rest-Agree i xs ys hx hy' agree'))

-- For valid intervals, the order and the overlaps of the intervals that a set is built from do
-- not matter, only the `i32` values that they hold: the sets are then equal, field by field.
pub from_unordered_intervals_ext :
    (xs ys : List Interval)
    → All IsValid xs
    → All IsValid ys
    → Agree xs ys
    → (from_unordered_intervals xs).intervals ≡ (from_unordered_intervals ys).intervals
from_unordered_intervals_ext xs ys hx hy agree =
    let a = from_unordered_intervals_lem xs hx in
    let b = from_unordered_intervals_lem ys hy in
    canonical_ext _ _ (a.0) (b.0) (λ v hv. a.1 v ∙ agree v hv ∙ sym (b.1 v))

-- For a set of valid intervals in order, with a value between neighbours (as the methods build
-- them), taking the complement twice gives the set back.
pub complement-complement :
    (s : Set) → IsCanonical s.intervals → (complement (complement s)).intervals ≡ s.intervals
complement-complement s h =
    let once = member-complement s (IsCanonical-IsNormal s.intervals h) in
    let twice =
      member-complement (complement s) (IsCanonical-IsNormal (complement s).intervals (once.0)) in
    canonical_ext _ _ (twice.0) h
      (λ v hv. twice.1 v hv ∙ ap not (once.1 v hv) ∙ not_not (member v s.intervals))
  where
    not_not : (a : Bool) → not (not a) ≡ a
    not_not a = ground arith

-- A set with a value is not empty.
pub nonempty_of_member : (v : ℤ) (s : Set) → member v s.intervals ≡ true → is_empty s ≡ false
unfolding is_empty
nonempty_of_member v s h = from_list s.intervals h
  where
    from_list :
        (xs : List Interval) → member v xs ≡ true → (elim xs [ [] ↦ true | _ ∷ _ ↦ false ]) ≡ false
    from_list [] h = cc
    from_list (x ∷ xs) h = refl
