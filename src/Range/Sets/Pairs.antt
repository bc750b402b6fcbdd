-- ===== src/Range/Sets/Pairs.antt =====
-- The iterator over pairs of intervals and `Set::intersect`: the pairs that are skipped have
-- nothing in common.
use evsieve.Base.{
  ◌≡◌, refl, sym, ◌∙◌, ◌<◌, ◌+◌, ℕ, zero, suc, Bool, false, ◌&&◌, ◌||◌, ℤ, ◌≤ℤ◌, List, [], ◌∷◌,
  arith, All, ltb_ℤ, Bool-cases, inl, inr, Option, none, some, length, Option-cases,
}
use evsieve.Range.Interval
use evsieve.Range.Interval.{Interval, contains}
use evsieve.Range.Interval.Laws.{contained, contained-intersect}
use evsieve.Range.Sets.{
  Set, IntervalPairIterator, intersect_loop, next, next_from, pair_iterator, intersect, push_some,
}
use evsieve.Range.Sets.Normal.{member, IsValid, IsNormal, Above, IsCanonical}
use evsieve.Range.Sets.Union.{from_unordered_intervals_lem}

-- No value above the last value of an interval is below that of an interval that begins later.
not-Above :
    (i : Interval) (xs : List Interval) (v : ℤ) (z : ℤ)
    → IsNormal xs
    → Above z xs
    → i.max ≤ℤ z
    → (contains i v && member v xs) ≡ false
unfolding contains
not-Above i [] v z hx ha hz = ground arith
not-Above i (x ∷ xs) v z hx ha hz = ground (arith, not-Above i xs v x.max (hx.2) (hx.1))

-- The state of the iterator with a pending pair.
abbrev pending : Interval → List Interval → Interval → List Interval → IntervalPairIterator
pending i xs j ys = record {
  interval_iter_1 = xs;
  interval_iter_2 = ys;
  next_interval_1 = some i;
  next_interval_2 = some j;
}

member-push_some :
    (o : Option Interval) (xs : List Interval) (v : ℤ)
    → member v (push_some o xs) ≡ (contained o v || member v xs)
member-push_some none xs v = refl
member-push_some (some i) xs v = refl

-- The interval with the lower end meets no later interval of the other set, so it may go.
drop_left :
    (ci mx cj my : Bool)
    → (ci && my) ≡ false
    → ((ci && cj) || (mx && (cj || my))) ≡ ((ci || mx) && (cj || my))
drop_left ci mx cj my h = ground arith

drop_right :
    (ci mx cj my : Bool)
    → (cj && mx) ≡ false
    → ((ci && cj) || ((ci || mx) && my)) ≡ ((ci || mx) && (cj || my))
drop_right ci mx cj my h = ground arith

last_pair : (ci cj : Bool) → ((ci && cj) || false) ≡ ((ci || false) && (cj || false))
last_pair ci cj = ground arith

only_left :
    (ci mx cj : Bool) → ((ci && cj) || (mx && (cj || false))) ≡ ((ci || mx) && (cj || false))
only_left ci mx cj = ground arith

only_right :
    (ci cj my : Bool) → ((ci && cj) || ((ci || false) && my)) ≡ ((ci || false) && (cj || my))
only_right ci cj my = ground arith

-- What one round yields, and the rest of the loop.
round :
    (i j : Interval) (rest : List Interval) (v : ℤ) (later : Bool)
    → member v rest ≡ later
    → member v (push_some (Interval.intersect i j) rest) ≡ ((contains i v && contains j v) || later)
round i j rest v later h =
    member-push_some (Interval.intersect i j) rest v ∙ rw (contained-intersect i j v, h)

ended :
    (fuel : ℕ) (v : ℤ) (it : IntervalPairIterator)
    → it.next_interval_1 ≡ none
    → member v (intersect_loop fuel it) ≡ false
unfolding intersect_loop next
ended zero v it h = refl
ended (suc fuel) v it h = ground (arith, h)

-- With a round for each interval that is left and one for the pending pair, the loop collects
-- exactly the values that lie in both lists.
member-intersect_loop :
    (fuel : ℕ) (i : Interval) (xs : List Interval) (j : Interval) (ys : List Interval) (v : ℤ)
    → length xs + length ys < fuel
    → IsNormal (i ∷ xs)
    → IsNormal (j ∷ ys)
    → member v (intersect_loop fuel (pending i xs j ys)) ≡ (member v (i ∷ xs) && member v (j ∷ ys))
unfolding intersect_loop next next_from
member-intersect_loop zero i xs j ys v h hi hj = absurd (omega arith)
member-intersect_loop (suc fuel) i [] j [] v h hi hj = elim (Bool-cases (ltb_ℤ i.max j.max)) [
  | inl lt ↦
      rw lt (round i j _ v false (ended fuel v _ refl) ∙ last_pair (contains i v) (contains j v))
  | inr ge ↦
      rw ge (round i j _ v false (ended fuel v _ refl) ∙ last_pair (contains i v) (contains j v))
]
member-intersect_loop (suc fuel) i (x ∷ xs) j [] v h hi hj =
    let ih = member-intersect_loop fuel x xs j [] v (omega arith) (hi.2) hj in
    let step = round i j _ v _ ih ∙ only_left (contains i v) (member v (x ∷ xs)) (contains j v) in
    elim (Bool-cases (ltb_ℤ i.max j.max)) [ inl lt ↦ rw lt step | inr ge ↦ rw ge step ]
member-intersect_loop (suc fuel) i [] j (y ∷ ys) v h hi hj =
    let ih = member-intersect_loop fuel i [] y ys v (omega arith) hi (hj.2) in
    let step = round i j _ v _ ih ∙ only_right (contains i v) (contains j v) (member v (y ∷ ys)) in
    elim (Bool-cases (ltb_ℤ i.max j.max)) [ inl lt ↦ rw lt step | inr ge ↦ rw ge step ]
member-intersect_loop (suc fuel) i (x ∷ xs) j (y ∷ ys) v h hi hj =
    elim (Bool-cases (ltb_ℤ i.max j.max)) [
      | inl lt ↦ rw lt (
          round i j _ v _ (member-intersect_loop fuel x xs j (y ∷ ys) v (omega arith) (hi.2) hj)
          ∙ drop_left (contains i v) (member v (x ∷ xs)) (contains j v) (member v (y ∷ ys))
              (not-Above i (y ∷ ys) v j.max (hj.2) (hj.1) (ground arith)))
      | inr ge ↦ rw ge (
          round i j _ v _ (member-intersect_loop fuel i (x ∷ xs) y ys v (omega arith) hi (hj.2))
          ∙ drop_right (contains i v) (member v (x ∷ xs)) (contains j v) (member v (y ∷ ys))
              (not-Above j (x ∷ xs) v i.max (hi.2) (hi.1) (ground arith)))
    ]

intersect-IsValid :
    (i j k : Interval) → IsValid i → IsValid j → Interval.intersect i j ≡ some k → IsValid k
unfolding Interval.intersect
intersect-IsValid i j k hi hj h = ground arith

push_some-IsValid :
    (i j : Interval) (rest : List Interval)
    → IsValid i
    → IsValid j
    → All IsValid rest
    → All IsValid (push_some (Interval.intersect i j) rest)
push_some-IsValid i j rest hi hj hr = elim (Option-cases (Interval.intersect i j)) [
  | inl e ↦ rw e hr
  | inr (k, e) ↦ rw e (intersect-IsValid i j k hi hj e, hr)
]

ended_empty :
    (fuel : ℕ) (it : IntervalPairIterator)
    → it.next_interval_1 ≡ none
    → All IsValid (intersect_loop fuel it)
unfolding intersect_loop next
ended_empty zero it h = tt
ended_empty (suc fuel) it h = rw h tt

-- The loop yields valid intervals only, whatever its fuel.
intersect_loop-IsValid :
    (fuel : ℕ) (i : Interval) (xs : List Interval) (j : Interval) (ys : List Interval)
    → IsValid i
    → All IsValid xs
    → IsValid j
    → All IsValid ys
    → All IsValid (intersect_loop fuel (pending i xs j ys))
unfolding intersect_loop next next_from
intersect_loop-IsValid zero i xs j ys hi hx hj hy = tt
intersect_loop-IsValid (suc fuel) i [] j [] hi hx hj hy = elim (Bool-cases (ltb_ℤ i.max j.max)) [
  | inl lt ↦ rw lt (push_some-IsValid i j _ hi hj (ended_empty fuel _ refl))
  | inr ge ↦ rw ge (push_some-IsValid i j _ hi hj (ended_empty fuel _ refl))
]
intersect_loop-IsValid (suc fuel) i (x ∷ xs) j [] hi hx hj hy =
    let step =
      push_some-IsValid i j _ hi hj (intersect_loop-IsValid fuel x xs j [] (hx.0) (hx.1) hj hy) in
    elim (Bool-cases (ltb_ℤ i.max j.max)) [ inl lt ↦ rw lt step | inr ge ↦ rw ge step ]
intersect_loop-IsValid (suc fuel) i [] j (y ∷ ys) hi hx hj hy =
    let step =
      push_some-IsValid i j _ hi hj (intersect_loop-IsValid fuel i [] y ys hi hx (hy.0) (hy.1)) in
    elim (Bool-cases (ltb_ℤ i.max j.max)) [ inl lt ↦ rw lt step | inr ge ↦ rw ge step ]
intersect_loop-IsValid (suc fuel) i (x ∷ xs) j (y ∷ ys) hi hx hj hy =
    elim (Bool-cases (ltb_ℤ i.max j.max)) [
      | inl lt ↦ rw lt (
          push_some-IsValid i j _ hi hj
            (intersect_loop-IsValid fuel x xs j (y ∷ ys) (hx.0) (hx.1) hj hy))
      | inr ge ↦ rw ge (
          push_some-IsValid i j _ hi hj
            (intersect_loop-IsValid fuel i (x ∷ xs) y ys hi hx (hy.0) (hy.1)))
    ]

-- With nothing in the second iterator there is no pair.
no_second :
    (fuel : ℕ) (x : Interval) (xs : List Interval)
    → intersect_loop fuel (pair_iterator (x ∷ xs) []) ≡ []
unfolding intersect_loop next pair_iterator
no_second zero x xs = refl
no_second (suc fuel) x xs = refl

pub IsNormal-All : (xs : List Interval) → IsNormal xs → All IsValid xs
IsNormal-All [] h = tt
IsNormal-All (x ∷ xs) h = (h.0, IsNormal-All xs (h.2))

abbrev loop_of : List Interval → List Interval → List Interval
loop_of xs ys = intersect_loop (length xs + length ys) (pair_iterator xs ys)

loop_of_lem :
    (xs ys : List Interval)
    → IsNormal xs
    → IsNormal ys
    → All IsValid (loop_of xs ys)
      × ((v : ℤ) → member v (loop_of xs ys) ≡ (member v xs && member v ys))
unfolding pair_iterator
loop_of_lem [] ys hx hy = (ended_empty (0 + length ys) _ refl, λ v. ended (0 + length ys) v _ refl)
loop_of_lem (x ∷ xs) [] hx hy =
    rw (no_second (suc (length xs) + 0) x xs) (tt, λ v. sym (and_false (member v (x ∷ xs))))
  where
    and_false : (a : Bool) → (a && false) ≡ false
    and_false a = ground arith
loop_of_lem (x ∷ xs) (y ∷ ys) hx hy = (
  intersect_loop-IsValid _ x xs y ys (hx.0) (IsNormal-All xs (hx.2)) (hy.0)
      (IsNormal-All ys (hy.2)),
  λ v. member-intersect_loop _ x xs y ys v (omega arith) hx hy,
)

-- `intersect` of two sets that satisfy the invariant: a set that satisfies it and holds exactly the
-- values in both.
pub member-intersect :
    (a b : Set)
    → IsNormal a.intervals
    → IsNormal b.intervals
    → IsCanonical (intersect a b).intervals
      × ((v : ℤ)
          → member v (intersect a b).intervals ≡ (member v a.intervals && member v b.intervals))
unfolding intersect
member-intersect a b ha hb =
    let loop = loop_of_lem a.intervals b.intervals ha hb in
    let built = from_unordered_intervals_lem (loop_of a.intervals b.intervals) (loop.0) in
    (built.0, λ v. built.1 v ∙ loop.1 v)
