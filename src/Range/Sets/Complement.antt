-- ===== src/Range/Sets/Complement.antt =====
-- `Set::complement`: the gaps between the intervals, and those below the first and above the last.
use evsieve.Base.{
  ◌≡◌, refl, sym, ◌∙◌, ap, Bool, true, false, ◌||◌, ◌&&◌, not, ℤ, pos, ◌≤ℤ◌, ◌<ℤ◌, List, [], ◌∷◌,
  ◌++◌, arith, IsI32, ltb_ℤ, Bool-cases, inl, inr, i32_min, i32_max, saturating_suc, ◌+ℤ◌, ◌-ℤ◌,
  +ℤ_parts, -ℤ_parts,
}
use evsieve.Range.Interval.{Interval, contains}
use evsieve.Range.Sets.{Set, gaps, last_from, push_above, push_below, complement_of, complement}
use evsieve.Range.Sets.Normal.{member, IsValid, IsNormal, Above, IsCanonical, GapAbove}

-- Nothing at or below `z` lies in intervals that begin above it.
pub not_member :
    (z v : ℤ) (xs : List Interval) → IsNormal xs → Above z xs → v ≤ℤ z → member v xs ≡ false
unfolding contains
not_member z v [] hx ha h = refl
not_member z v (x ∷ xs) hx ha h = ground (arith, not_member x.max v xs (hx.2) (hx.1))

gap_test :
    (a b : ℤ) → IsI32 a → IsI32 b → a <ℤ b → ltb_ℤ (saturating_suc a) b ≡ ltb_ℤ (a +ℤ pos 1) b
unfolding saturating_suc ◌+ℤ◌
gap_test a b ha hb lt = ground arith

-- The gaps after the interval `i`, the one above the last interval included.
abbrev after : Interval → List Interval → List Interval
after i rest = gaps (i ∷ rest) ++ push_above (last_from i rest)

contains_gap :
    (a b v : ℤ)
    → contains (record { min = a +ℤ pos 1; max = b -ℤ pos 1 }) v ≡ (ltb_ℤ a v && ltb_ℤ v b)
unfolding contains
contains_gap a b v = ground (arith, +ℤ_parts a (pos 1), -ℤ_parts b (pos 1))

gap_nonempty : (a b : ℤ) → ltb_ℤ (a +ℤ pos 1) b ≡ true → (a +ℤ pos 1) ≤ℤ (b -ℤ pos 1)
gap_nonempty a b h = ground (arith, +ℤ_parts a (pos 1), -ℤ_parts b (pos 1))

gap_empty : (a b v : ℤ) → ltb_ℤ (a +ℤ pos 1) b ≡ false → (ltb_ℤ a v && ltb_ℤ v b) ≡ false
gap_empty a b v h = ground (arith, +ℤ_parts a (pos 1))

-- A value above the first interval lies in the next gap or above the next interval.
next_gap :
    (a : ℤ) (b : Interval) (v : ℤ) (later : Bool)
    → a <ℤ b.min
    → b.min ≤ℤ b.max
    → (v ≤ℤ b.max → later ≡ false)
    → ((ltb_ℤ a v && ltb_ℤ v b.min) || (ltb_ℤ b.max v && not later))
      ≡ (ltb_ℤ a v && not (contains b v || later))
unfolding contains
next_gap a b v later lt ne h = ground arith

member-after :
    (i : Interval) (rest : List Interval) (v : ℤ)
    → IsNormal (i ∷ rest)
    → IsI32 v
    → member v (after i rest) ≡ (ltb_ℤ i.max v && not (member v rest))
unfolding gaps
member-after i [] v h hv = elim (Bool-cases (ltb_ℤ i.max i32_max)) [
  | inl lt ↦ rw lt (top_gap lt)
  | inr ge ↦ rw ge (ground arith)
]
  where
    top_gap :
        ltb_ℤ i.max i32_max ≡ true
        → member v (record { min = i.max +ℤ pos 1; max = i32_max } ∷ []) ≡ (ltb_ℤ i.max v && true)
    top_gap lt = unfold contains in ground (arith, +ℤ_parts i.max (pos 1))
member-after i (b ∷ rest) v h hv =
    let ih = member-after b rest v (h.2) hv in
    let test = gap_test i.max b.min (h.0.1) (h.2.0.0) (h.1) in
    let join =
      next_gap i.max b v (member v rest) (h.1) (h.2.0.2)
        (λ le. not_member b.max v rest (h.2.2) (h.2.1) le) in
    elim (Bool-cases (ltb_ℤ (i.max +ℤ pos 1) b.min)) [
      | inl wide ↦
          rw (test, wide)
            (ap (λ c. c || member v (after b rest)) (contains_gap i.max b.min v)
              ∙ ap (λ c. (ltb_ℤ i.max v && ltb_ℤ v b.min) || c) ih
              ∙ join)
      | inr narrow ↦
          rw (test, narrow)
            (ih
              ∙ ap (λ c. c || (ltb_ℤ b.max v && not (member v rest)))
                  (sym (gap_empty i.max b.min v narrow))
              ∙ join)
    ]

first_gap :
    (i : Interval) (v : ℤ) (later : Bool)
    → IsI32 i.min
    → i.min ≤ℤ i.max
    → IsI32 v
    → (v ≤ℤ i.max → later ≡ false)
    → (ltb_ℤ v i.min || (ltb_ℤ i.max v && not later)) ≡ not (contains i v || later)
unfolding contains
first_gap i v later hi ne hv h = ground arith

member-push_below :
    (i : Interval) (xs : List Interval) (v : ℤ)
    → IsI32 i.min
    → IsI32 v
    → member v (push_below i xs) ≡ (ltb_ℤ v i.min || member v xs)
unfolding contains
member-push_below i xs v hi hv = ground (arith, -ℤ_parts i.min (pos 1))

-- A gap and what follows it are in order.
after-IsCanonical :
    (z : ℤ) (i : Interval) (rest : List Interval)
    → IsNormal (i ∷ rest)
    → z ≤ℤ i.max
    → GapAbove (z -ℤ pos 1) (after i rest) × IsCanonical (after i rest)
unfolding gaps
after-IsCanonical z i [] h hz = elim (Bool-cases (ltb_ℤ i.max i32_max)) [
  | inl lt ↦
      rw lt (omega (arith, +ℤ_parts i.max (pos 1), -ℤ_parts z (pos 1)), (top_valid lt, tt, tt))
  | inr ge ↦ rw ge (tt, tt)
]
  where
    top_valid :
        ltb_ℤ i.max i32_max ≡ true → IsValid (record { min = i.max +ℤ pos 1; max = i32_max })
    top_valid lt = unfold ◌+ℤ◌ in ground arith
after-IsCanonical z i (b ∷ rest) h hz =
    let test = gap_test i.max b.min (h.0.1) (h.2.0.0) (h.1) in
    elim (Bool-cases (ltb_ℤ (i.max +ℤ pos 1) b.min)) [
      | inl wide ↦
          rw (test, wide)
            (
              omega (arith, +ℤ_parts i.max (pos 1), -ℤ_parts z (pos 1)),
              (
                gap_valid wide,
                (after-IsCanonical b.min b rest (h.2) (h.2.0.2)).0,
                (after-IsCanonical b.min b rest (h.2) (h.2.0.2)).1,
              ),
            )
      | inr narrow ↦ rw (test, narrow) (after-IsCanonical z b rest (h.2) (omega arith))
    ]
  where
    gap_valid :
        ltb_ℤ (i.max +ℤ pos 1) b.min ≡ true
        → IsValid (record { min = i.max +ℤ pos 1; max = b.min -ℤ pos 1 })
    gap_valid wide =
        let p = +ℤ_parts i.max (pos 1) in
        let q = -ℤ_parts b.min (pos 1) in
        (ground (arith, p), ground (arith, q), ground (arith, p, q))

push_below-IsCanonical :
    (i : Interval) (xs : List Interval)
    → IsI32 i.min
    → GapAbove (i.min -ℤ pos 1) xs
    → IsCanonical xs
    → IsCanonical (push_below i xs)
push_below-IsCanonical i xs hi g hx = elim (Bool-cases (ltb_ℤ i32_min i.min)) [
  | inl lt ↦ rw lt (bottom_valid lt, g, hx)
  | inr ge ↦ rw ge hx
]
  where
    bottom_valid :
        ltb_ℤ i32_min i.min ≡ true → IsValid (record { min = i32_min; max = i.min -ℤ pos 1 })
    bottom_valid lt = unfold ◌-ℤ◌ in ground arith

-- `complement` of a set that satisfies the invariant: a set that satisfies it, and holds exactly the
-- `i32` values that the set does not hold.
pub member-complement :
    (s : Set)
    → IsNormal s.intervals
    → IsCanonical (complement s).intervals
      × ((v : ℤ) → IsI32 v → member v (complement s).intervals ≡ not (member v s.intervals))
unfolding complement
member-complement s h = go s.intervals h
  where
    everything : (v : ℤ) → IsI32 v → member v (record { min = i32_min; max = i32_max } ∷ []) ≡ true
    everything v hv = unfold contains in ground arith

    go :
        (xs : List Interval)
        → IsNormal xs
        → IsCanonical (complement_of xs)
          × ((v : ℤ) → IsI32 v → member v (complement_of xs) ≡ not (member v xs))
    go [] h = ((omega arith, tt, tt), everything)
    go (i ∷ rest) h =
        let tail = after-IsCanonical i.min i rest h (h.0.2) in
        (
          push_below-IsCanonical i (after i rest) (h.0.0) (tail.0) (tail.1),
          λ v hv.
              member-push_below i (after i rest) v (h.0.0) hv
              ∙ ap (λ c. ltb_ℤ v i.min || c) (member-after i rest v h hv)
              ∙ first_gap i v (member v rest) (h.0.0) (h.0.2) hv
                  (λ le. not_member i.max v rest (h.2) (h.1) le),
        )
