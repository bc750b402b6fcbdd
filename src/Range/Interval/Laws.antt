-- ===== src/Range/Interval/Laws.antt =====
-- The methods of `Interval` against membership: what each means for the values that it contains.
use evsieve.Base.{
  or_comm, ◌<◌, ◌≤◌, ◌≡◌, ◌≢◌, ◌↔◌, ◌∙◌, Bool, true, false, ◌&&◌, ◌||◌, Option, none, some, ℤ, pos,
  pos_part, neg_part, ◌≤ℤ◌, ◌<ℤ◌, ◌-ℤ◌, ◌+ℤ◌, +ℤ_parts, ◌⊎◌, IsI32, arith, eq_of_parts, ◌+◌, inl,
  inr,
}
use evsieve.Range.Interval.{
  Interval, contains, bound, intersect, bound_range, merge, try_union, is_subset_of, delta_range,
  is_adjacent,
}

-- An interval that holds some value.
abbrev pub IsNonempty : Interval → Type 0
IsNonempty i = i.min ≤ℤ i.max

-- `intersect` contains exactly the values in both; `none` stands for no values.
abbrev pub contained : Option Interval → ℤ → Bool
contained none v = false
contained (some i) v = contains i v

pub contained-intersect :
    (a b : Interval) (v : ℤ) → contained (intersect a b) v ≡ (contains a v && contains b v)
unfolding intersect contains
contained-intersect a b v = ground arith

pub intersect-IsNonempty : (a b i : Interval) → intersect a b ≡ some i → IsNonempty i
unfolding intersect
intersect-IsNonempty a b i h = ground arith

-- `bound` gives a value of the interval, it leaves values of the interval alone, and no value of
-- the interval lies strictly between the argument and the result.
pub bound_closest :
    (i : Interval) (v : ℤ)
    → IsNonempty i
    → (contains i (bound i v) ≡ true)
      × ((w : ℤ)
          → contains i w ≡ true
          → ((v ≤ℤ bound i v) × (bound i v ≤ℤ w) ⊎ (bound i v ≤ℤ v) × (w ≤ℤ bound i v)))
unfolding contains bound
bound_closest i v ne = (ground arith, λ w h. ground arith)

-- For nonempty intervals, `bound_range` holds the image of every value of the other interval, and
-- both of its ends are such images, so that no smaller interval would do.
pub bound_range_image :
    (self other : Interval)
    → IsNonempty self
    → IsNonempty other
    → ((v : ℤ) → contains other v ≡ true → contains (bound_range self other) (bound self v) ≡ true)
      × (bound self other.min ≡ (bound_range self other).min)
      × (bound self other.max ≡ (bound_range self other).max)
unfolding contains bound bound_range
bound_range_image self other hs ho =
    (λ v h. ground arith, eq_of_parts _ _ (ground arith), eq_of_parts _ _ (ground arith))

adjacent_cases :
    (x y : ℤ)
    → is_adjacent x y ≡ true
    → (pos_part x + neg_part y + 1 ≡ pos_part y + neg_part x)
      ⊎ (pos_part y + neg_part x + 1 ≡ pos_part x + neg_part y)
unfolding is_adjacent ◌+ℤ◌
adjacent_cases x y h = ground arith

-- What lets a union be an interval: the two overlap or one ends where the other begins.
try_union_touch :
    (a b i : Interval)
    → IsNonempty a
    → IsNonempty b
    → try_union a b ≡ some i
    → (i ≡ merge a b)
      × (pos_part a.min + neg_part b.max ≤ pos_part b.max + neg_part a.min + 1)
      × (pos_part b.min + neg_part a.max ≤ pos_part a.max + neg_part b.min + 1)
unfolding try_union merge
try_union_touch a b i ha hb h = (
  ground arith,
  ground (arith, adjacent_cases a.max b.min, adjacent_cases a.min b.max),
  ground (arith, adjacent_cases a.max b.min, adjacent_cases a.min b.max),
)

-- Where `try_union` of two nonempty intervals returns an interval, that interval is the union of
-- the two.
pub contained-try_union :
    (a b i : Interval)
    → IsNonempty a
    → IsNonempty b
    → try_union a b ≡ some i
    → (v : ℤ) → contains i v ≡ (contains a v || contains b v)
unfolding merge contains
contained-try_union a b i ha hb h v =
    let t = try_union_touch a b i ha hb h in rw (t.0) (ground arith)

not_adjacent :
    (x y : ℤ)
    → is_adjacent x y ≡ false
    → (pos_part x + neg_part y + 1 ≢ pos_part y + neg_part x)
      × (pos_part y + neg_part x + 1 ≢ pos_part x + neg_part y)
unfolding is_adjacent ◌+ℤ◌
not_adjacent x y h = (ground arith, ground arith)

try_union_apart :
    (a b : Interval)
    → IsNonempty a
    → IsNonempty b
    → try_union a b ≡ none
    → (pos_part a.max + neg_part b.min + 1 < pos_part b.min + neg_part a.max)
      ⊎ (pos_part b.max + neg_part a.min + 1 < pos_part a.min + neg_part b.max)
unfolding try_union
try_union_apart a b ha hb h = ground (arith, not_adjacent a.max b.min, not_adjacent a.min b.max)

contains_between :
    (i : Interval) (x y w : ℤ)
    → contains i x ≡ true
    → contains i y ≡ true
    → x ≤ℤ w
    → w ≤ℤ y
    → contains i w ≡ true
unfolding contains
contains_between i x y w hx hy h k = ground arith

contains_ends :
    (i : Interval) → IsNonempty i → (contains i i.min ≡ true) × (contains i i.max ≡ true)
unfolding contains
contains_ends i h = (ground arith, ground arith)

in_neither :
    (a b : Interval) (w : ℤ) → a.max <ℤ w → w <ℤ b.min → (contains a w || contains b w) ≡ false
unfolding contains
in_neither a b w h k = ground arith

-- No interval holds the values of two others and nothing else, if the first ends more than one
-- below the start of the second.
no_union :
    (a b i : Interval)
    → IsNonempty a
    → IsNonempty b
    → pos_part a.max + neg_part b.min + 1 < pos_part b.min + neg_part a.max
    → ¬ ((v : ℤ) → contains i v ≡ (contains a v || contains b v))
no_union a b i ha hb h e =
    let w = a.max +ℤ pos 1 in
    let wp = +ℤ_parts a.max (pos 1) in
    let low : contains i a.max ≡ true = e a.max ∙ rw ((contains_ends a ha).1) in
    let high : contains i b.min ≡ true =
      e b.min ∙ rw ((contains_ends b hb).0, or_comm (contains a b.min) true) in
    let inside =
      contains_between i a.max b.min w low high (omega (arith, wp)) (omega (arith, wp)) in
    let outside = in_neither a b w (omega (arith, wp)) (omega (arith, wp)) in
    cc (e w, inside, outside)

-- Where `try_union` of two nonempty intervals returns nothing, no interval is the union of the
-- two.
pub try_union_none :
    (a b i : Interval)
    → IsNonempty a
    → IsNonempty b
    → try_union a b ≡ none
    → ¬ ((v : ℤ) → contains i v ≡ (contains a v || contains b v))
try_union_none a b i ha hb h e = elim (try_union_apart a b ha hb h) [
  | inl below ↦ no_union a b i ha hb below e
  | inr above ↦ no_union b a i hb ha above (λ v. e v ∙ or_comm (contains a v) (contains b v))
]

-- `merge` is the least interval around both: it holds all their values, and any interval that holds
-- all values of both holds its ends.
pub merge_least :
    (a b : Interval)
    → IsNonempty a
    → IsNonempty b
    → ((v : ℤ) → (contains a v || contains b v) ≡ true → contains (merge a b) v ≡ true)
      × ((c : Interval)
          → contains c a.min ≡ true
          → contains c a.max ≡ true
          → contains c b.min ≡ true
          → contains c b.max ≡ true
          → (contains c (merge a b).min && contains c (merge a b).max) ≡ true)
unfolding merge contains
merge_least a b ha hb = (λ v h. ground arith, λ c h1 h2 h3 h4. ground arith)

-- For a nonempty interval, the test for a subset holds exactly when each of its values is a value
-- of the other.
pub is_subset_of_iff :
    (a b : Interval)
    → IsNonempty a
    → (is_subset_of a b ≡ true) ↔ ((v : ℤ) → contains a v ≡ true → contains b v ≡ true)
unfolding is_subset_of contains
is_subset_of_iff a b ha = (λ h v hv. ground arith, λ h. ground (arith, h a.min, h a.max))

-- Of two values of an interval whose difference is an `i32`: `delta_range` returns an interval, with no
-- panic, and it holds the difference.
pub delta_range_sound :
    (i : Interval) (v w : ℤ)
    → contains i v ≡ true
    → contains i w ≡ true
    → IsI32 (w -ℤ v)
    → contained (delta_range i) (w -ℤ v) ≡ true
unfolding delta_range contains ◌-ℤ◌
delta_range_sound i v w hv hw hd = ground arith
