-- ===== src/Range/Sets/Normal.antt =====
-- The invariant of `Set` (its intervals are disjoint and ordered), membership, and the laws of the
-- loop that establishes the one and keeps the other.
use evsieve.Base.{
  or_assoc, or-false, or_rotate, ◌≡◌, refl, sym, ◌∙◌, ◌<◌, ◌+◌, Bool, true, false, ◌||◌, ℤ,
  pos_part, neg_part, ◌≤ℤ◌, ◌<ℤ◌, List, [], ◌∷◌, any, arith, IsI32, All, saturating_pred, leb,
  leb_ℤ, Bool-cases, inl, inr, ap, min_ℤ, ◌-ℤ◌,
}
use evsieve.Range.Interval.{Interval, contains}
use evsieve.Range.Interval.Laws.{IsNonempty}
use evsieve.Range.Sets.{absorb, absorb_all}

-- A value lies in one of the intervals.
abbrev pub member : ℤ → List Interval → Bool
member v = any (λ i. contains i v)

-- An interval of `i32` values that is not empty.
abbrev pub IsValid : Interval → Type 0
IsValid i = IsI32 i.min × IsI32 i.max × IsNonempty i

-- Every interval of the list begins above `z`.
abbrev pub Above : ℤ → List Interval → Type 0
Above z [] = Unit
Above z (i ∷ rest) = z <ℤ i.min

-- The documented invariant: the intervals are valid, disjoint and ordered.
abbrev pub IsNormal : List Interval → Type 0
IsNormal [] = Unit
IsNormal (i ∷ rest) = IsValid i × Above i.max rest × IsNormal rest

-- What the methods that build a set establish: there is a value between neighbours, which no
-- interval holds.
abbrev pub GapAbove : ℤ → List Interval → Type 0
GapAbove z [] = Unit
GapAbove z (i ∷ rest) = pos_part z + neg_part i.min + 1 < pos_part i.min + neg_part z

abbrev pub IsCanonical : List Interval → Type 0
IsCanonical [] = Unit
IsCanonical (i ∷ rest) = IsValid i × GapAbove i.max rest × IsCanonical rest

pub IsCanonical-IsNormal : (xs : List Interval) → IsCanonical xs → IsNormal xs
IsCanonical-IsNormal [] h = tt
IsCanonical-IsNormal (i ∷ []) h = (h.0, tt, tt)
IsCanonical-IsNormal (i ∷ j ∷ rest) h = (h.0, omega arith, IsCanonical-IsNormal (j ∷ rest) (h.2))

-- The intervals that the loop has merged, the last first: valid, with a gap between neighbours,
-- and none ends above `z`.
abbrev pub Below : ℤ → List Interval → Type 0
Below z [] = Unit
Below z (i ∷ rest) = i.max ≤ℤ z

abbrev pub Apart : Interval → List Interval → Type 0
Apart i [] = Unit
Apart i (j ∷ rest) = pos_part j.max + neg_part i.min + 1 < pos_part i.min + neg_part j.max

abbrev pub IsStack : List Interval → Type 0
IsStack [] = Unit
IsStack (i ∷ rest) = IsValid i × Apart i rest × IsStack rest

-- The list is sorted by `max`, from `z` on.
abbrev pub SortedFrom : ℤ → List Interval → Type 0
SortedFrom z [] = Unit
SortedFrom z (i ∷ rest) = (z ≤ℤ i.max) × SortedFrom i.max rest

-- The saturating subtraction does not change the outcome of the test.
touch_test :
    (z y : ℤ)
    → IsI32 z
    → IsI32 y
    → leb_ℤ (saturating_pred z) y ≡ leb (pos_part z + neg_part y) (pos_part y + neg_part z + 1)
unfolding saturating_pred ◌-ℤ◌
touch_test z y hz hy = ground arith

module _ (i l : Interval) (hi : IsValid i) (hl : IsValid l) (ordered : l.max ≤ℤ i.max) where
  abbrev joined : Interval
  joined = record i { min = min_ℤ i.min l.min }

  joined-IsValid : IsValid joined
  joined-IsValid = ground arith

  -- Two intervals that touch are together the joined one.
  contains-joined :
      leb_ℤ (saturating_pred i.min) l.max ≡ true
      → (v : ℤ) → contains joined v ≡ (contains i v || contains l v)
  unfolding contains
  contains-joined touch v = ground (arith, touch_test i.min l.max hi.0 hl.1)

  not_touching :
      leb_ℤ (saturating_pred i.min) l.max ≡ false
      → pos_part l.max + neg_part i.min + 1 < pos_part i.min + neg_part l.max
  not_touching apart = ground (arith, touch_test i.min l.max hi.0 hl.1)

Below-rest :
    (z : ℤ) (l : Interval) (rest : List Interval) → IsStack (l ∷ rest) → l.max ≤ℤ z → Below z rest
Below-rest z l [] h le = tt
Below-rest z l (k ∷ rest) h le = omega arith

Below-trans : (y z : ℤ) (st : List Interval) → Below y st → y ≤ℤ z → Below z st
Below-trans y z [] h le = tt
Below-trans y z (k ∷ rest) h le = omega arith

-- One interval joins the stack: no value is lost or gained.
member-absorb :
    (i : Interval) (st : List Interval)
    → IsValid i
    → IsStack st
    → Below i.max st
    → (v : ℤ) → member v (absorb i st) ≡ (contains i v || member v st)
unfolding absorb
member-absorb i [] hi hst hb v = refl
member-absorb i (l ∷ rest) hi hst hb v = elim (Bool-cases (leb_ℤ (saturating_pred i.min) l.max)) [
  | inl touch ↦ rw touch (
      member-absorb (joined i l hi (hst.0) hb) rest (joined-IsValid i l hi (hst.0) hb) (hst.2)
        (Below-rest i.max l rest hst hb) v
      ∙ ap (λ b. b || member v rest) (contains-joined i l hi (hst.0) hb touch v)
      ∙ or_assoc (contains i v) (contains l v) (member v rest))
  | inr apart ↦ rw apart
]

absorb-IsStack :
    (i : Interval) (st : List Interval)
    → IsValid i
    → IsStack st
    → Below i.max st
    → IsStack (absorb i st) × Below i.max (absorb i st)
unfolding absorb
absorb-IsStack i [] hi hst hb = ((hi, tt, tt), omega arith)
absorb-IsStack i (l ∷ rest) hi hst hb = elim (Bool-cases (leb_ℤ (saturating_pred i.min) l.max)) [
  | inl touch ↦ rw touch (
      absorb-IsStack (joined i l hi (hst.0) hb) rest (joined-IsValid i l hi (hst.0) hb) (hst.2)
        (Below-rest i.max l rest hst hb))
  | inr apart ↦ rw apart ((hi, not_touching i l hi (hst.0) hb apart, hst), omega arith)
]

-- The loop over the sorted intervals, from a stack that ends at `z` at most.
pub absorb_all_lem :
    (z : ℤ) (st xs : List Interval)
    → IsStack st
    → Below z st
    → All IsValid xs
    → SortedFrom z xs
    → IsStack (absorb_all st xs)
      × ((v : ℤ) → member v (absorb_all st xs) ≡ (member v st || member v xs))
unfolding absorb_all
absorb_all_lem z st [] hst hb hx hs = (hst, λ v. sym (or-false (member v st)))
absorb_all_lem z st (x ∷ xs) hst hb hx hs =
    let below = Below-trans z x.max st hb (hs.0) in
    let kept = absorb-IsStack x st (hx.0) hst below in
    let later = absorb_all_lem x.max (absorb x st) xs (kept.0) (kept.1) (hx.1) (hs.1) in
    (
      later.0,
      λ v.
          later.1 v
          ∙ ap (λ b. b || member v xs) (member-absorb x st (hx.0) hst below v)
          ∙ or_rotate (contains x v) (member v st) (member v xs),
    )
