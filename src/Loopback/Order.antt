-- ===== src/Loopback/Order.antt =====
-- `poll_once` yields the most overdue token, in the order of scheduling among equals, and loses none.
use mathlib.Core.List.{append-nil}
use evsieve.Base.{
  ◌≡◌, refl, sym, ap, ap₂, ◌∙◌, Bool, true, false, not, none, some, List, [], ◌∷◌, ◌++◌, retain,
  All, arith, Bool-cases, inl, inr, retain-append, All-map, if◌then◌else◌,
}
use evsieve.Time.{Instant, instant_le, instant_eq}
use evsieve.Loopback.{Loopback, Entry, poll_once, sort_by_time, insert_by_time, is_due, take_first}

le_total : (a b : Instant) → instant_le a b ≡ false → instant_le b a ≡ true
le_total a b h = ground arith

le_trans : (a b c : Instant) → instant_le a b ≡ true → instant_le b c ≡ true → instant_le a c ≡ true
le_trans a b c h k = ground arith

le_refl : (a : Instant) → instant_le a a ≡ true
le_refl a = ground arith

-- The entry is scheduled for the instant `u`.
abbrev pub is_at : Instant → Entry → Bool
is_at u e = instant_eq e.0 u

later_not_at :
    (u : Instant) (e f : Entry) → instant_le e.0 f.0 ≡ false → is_at u e ≡ true → is_at u f ≡ false
later_not_at u e f h k = ground arith

due_at : (u now : Instant) (e : Entry) → is_at u e ≡ true → is_due now e ≡ instant_le u now
due_at u now e h = ground arith

-- No entry is earlier than `t`.
abbrev pub NoEarlier : Instant → List Entry → Type 0
NoEarlier t = All (λ e. instant_le t e.0 ≡ true)

-- Entries with one instant keep their order.
retain-insert_by_time :
    (u : Instant) (e : Entry) (xs : List Entry)
    → retain (is_at u) (insert_by_time e xs) ≡ retain (is_at u) (e ∷ xs)
unfolding insert_by_time
retain-insert_by_time u e [] = refl
retain-insert_by_time u e (f ∷ xs) = elim (Bool-cases (instant_le e.0 f.0)) [
  | inl le ↦ rw le
  | inr gt ↦ rw gt (ground (arith, retain-insert_by_time u e xs, later_not_at u e f gt))
]

retain-sort_by_time :
    (u : Instant) (xs : List Entry) → retain (is_at u) (sort_by_time xs) ≡ retain (is_at u) xs
unfolding sort_by_time
retain-sort_by_time u [] = refl
retain-sort_by_time u (x ∷ xs) =
    retain-insert_by_time u x (sort_by_time xs)
    ∙ ap (λ l. if is_at u x then x ∷ l else l) (retain-sort_by_time u xs)

-- The entries for one instant are all due or all not due.
retain_parts :
    (u now : Instant) (xs : List Entry)
    → retain (is_at u) (retain (is_due now) xs)
        ++ retain (is_at u) (retain (λ e. not (is_due now e)) xs)
      ≡ retain (is_at u) xs
retain_parts u now xs = elim (Bool-cases (instant_le u now)) [
  | inl due ↦ ap₂ (λ a b. a ++ b) (kept xs due) (dropped xs due) ∙ append-nil (retain (is_at u) xs)
  | inr future ↦ ap₂ (λ a b. a ++ b) (dropped' xs future) (kept' xs future)
]
  where
    kept :
        (xs : List Entry)
        → instant_le u now ≡ true
        → retain (is_at u) (retain (is_due now) xs) ≡ retain (is_at u) xs
    kept [] h = refl
    kept (x ∷ xs) h = ground (arith, kept xs h, due_at u now x)

    dropped :
        (xs : List Entry)
        → instant_le u now ≡ true
        → retain (is_at u) (retain (λ e. not (is_due now e)) xs) ≡ []
    dropped [] h = refl
    dropped (x ∷ xs) h = ground (arith, dropped xs h, due_at u now x)

    dropped' :
        (xs : List Entry)
        → instant_le u now ≡ false
        → retain (is_at u) (retain (is_due now) xs) ≡ []
    dropped' [] h = refl
    dropped' (x ∷ xs) h = ground (arith, dropped' xs h, due_at u now x)

    kept' :
        (xs : List Entry)
        → instant_le u now ≡ false
        → retain (is_at u) (retain (λ e. not (is_due now e)) xs) ≡ retain (is_at u) xs
    kept' [] h = refl
    kept' (x ∷ xs) h = ground (arith, kept' xs h, due_at u now x)

abbrev IsSorted : List Entry → Type 0
IsSorted [] = Unit
IsSorted (e ∷ rest) = NoEarlier e.0 rest × IsSorted rest

All-insert_by_time :
    (P : Entry → Type 0) (e : Entry) (xs : List Entry)
    → P e
    → All P xs
    → All P (insert_by_time e xs)
unfolding insert_by_time
All-insert_by_time P e [] he hx = (he, tt)
All-insert_by_time P e (f ∷ xs) he hx = elim (Bool-cases (instant_le e.0 f.0)) [
  | inl le ↦ rw le (he, hx)
  | inr gt ↦ rw gt (hx.0, All-insert_by_time P e xs he (hx.1))
]

All-sort_by_time : (P : Entry → Type 0) (xs : List Entry) → All P xs → All P (sort_by_time xs)
unfolding sort_by_time
All-sort_by_time P [] h = tt
All-sort_by_time P (x ∷ xs) h =
    All-insert_by_time P x (sort_by_time xs) (h.0) (All-sort_by_time P xs (h.1))

insert_by_time-IsSorted :
    (e : Entry) (xs : List Entry) → IsSorted xs → IsSorted (insert_by_time e xs)
unfolding insert_by_time
insert_by_time-IsSorted e [] h = (tt, tt)
insert_by_time-IsSorted e (f ∷ xs) h = elim (Bool-cases (instant_le e.0 f.0)) [
  | inl le ↦ rw le ((le, All-map xs (λ g k. le_trans e.0 f.0 g.0 le k) (h.0)), h)
  | inr gt ↦ rw gt (
    All-insert_by_time (λ g. instant_le f.0 g.0 ≡ true) e xs (le_total e.0 f.0 gt) (h.0),
    insert_by_time-IsSorted e xs (h.1),
  )
]

sort_by_time-IsSorted : (xs : List Entry) → IsSorted (sort_by_time xs)
unfolding sort_by_time
sort_by_time-IsSorted [] = tt
sort_by_time-IsSorted (x ∷ xs) =
    insert_by_time-IsSorted x (sort_by_time xs) (sort_by_time-IsSorted xs)

All-of-insert :
    (P : Entry → Type 0) (e : Entry) (xs : List Entry)
    → All P (insert_by_time e xs)
    → P e × All P xs
unfolding insert_by_time
All-of-insert P e [] h = (h.0, tt)
All-of-insert P e (f ∷ xs) h = elim (Bool-cases (instant_le e.0 f.0)) [
  | inl le ↦ let g : All P (e ∷ f ∷ xs) = rw le at h in (g.0, g.1)
  | inr gt ↦
      let g : All P (f ∷ insert_by_time e xs) = rw gt at h in
      let rest = All-of-insert P e xs (g.1) in (rest.0, (g.0, rest.1))
]

All-of-sort : (P : Entry → Type 0) (xs : List Entry) → All P (sort_by_time xs) → All P xs
unfolding sort_by_time
All-of-sort P [] h = tt
All-of-sort P (x ∷ xs) h =
    let first = All-of-insert P x (sort_by_time xs) h in (first.0, All-of-sort P xs (first.1))

-- What holds of the due entries and of the others holds of all.
All-of-due :
    (P : Entry → Type 0) (now : Instant) (xs : List Entry)
    → ((e : Entry) → is_due now e ≡ false → P e)
    → All P (retain (is_due now) xs)
    → All P xs
All-of-due P now [] future h = tt
All-of-due P now (x ∷ xs) future h = elim (Bool-cases (is_due now x)) [
  | inl due ↦
      let g : All P (x ∷ retain (is_due now) xs) = rw due at h in
      (g.0, All-of-due P now xs future (g.1))
  | inr later ↦ (future x later, All-of-due P now xs future (rw later at h))
]

retain-All :
    (now : Instant) (xs : List Entry) → All (λ e. is_due now e ≡ true) (retain (is_due now) xs)
retain-All now [] = tt
retain-All now (x ∷ xs) = elim (Bool-cases (is_due now x)) [
  | inl due ↦ rw due (due, retain-All now xs)
  | inr later ↦ rw later (retain-All now xs)
]

none_due :
    (now : Instant) (xs : List Entry)
    → retain (is_due now) xs ≡ []
    → All (λ e. is_due now e ≡ false) xs × (retain (λ e. not (is_due now e)) xs ≡ xs)
none_due now [] h = (tt, refl)
none_due now (x ∷ xs) h = elim (Bool-cases (is_due now x)) [
  | inl due ↦ absurd (not_empty (rw due at h))
  | inr later ↦
      let rest = none_due now xs (rw later at h) in
      ((later, rest.0), rw later (ap (λ l. x ∷ l) (rest.1)))
]
  where
    not_empty : x ∷ retain (is_due now) xs ≡ [] → ⊥
    not_empty e = cc

sort_nil : (xs : List Entry) → sort_by_time xs ≡ [] → xs ≡ []
unfolding sort_by_time
sort_nil [] h = refl
sort_nil (x ∷ xs) h = absurd (insert_not_nil (sort_by_time xs) h)
  where
    insert_not_nil : (ys : List Entry) → insert_by_time x ys ≡ [] → ⊥
    insert_not_nil [] e = unfold insert_by_time in cc
    insert_not_nil (y ∷ ys) e = unfold insert_by_time in ground arith

-- The yielded entry is due, no scheduled entry is earlier, and for every instant the entry and the
-- new schedule hold the entries for that instant as the old schedule does, in the same order: none
-- is lost, and equals are yielded in the order in which they were scheduled.
pub poll_once-some :
    (l l' : Loopback) (now : Instant) (e : Entry)
    → poll_once l now ≡ (some e, l')
    → (is_due now e ≡ true)
      × NoEarlier e.0 l.schedule
      × ((u : Instant) → retain (is_at u) (e ∷ l'.schedule) ≡ retain (is_at u) l.schedule)
unfolding poll_once
poll_once-some l l' now e h = go (sort_by_time due) refl h
  where
    due : List Entry
    due = retain (is_due now) l.schedule

    remaining : List Entry
    remaining = retain (λ f. not (is_due now f)) l.schedule

    go :
        (ready : List Entry)
        → sort_by_time due ≡ ready
        → take_first ready remaining l ≡ (some e, l')
        → (is_due now e ≡ true)
          × NoEarlier e.0 l.schedule
          × ((u : Instant) → retain (is_at u) (e ∷ l'.schedule) ≡ retain (is_at u) l.schedule)
    go [] s h = cc
    go (first ∷ ready) s h =
        let same : first ≡ e = cc in
        let rest : ready ++ remaining ≡ l'.schedule = ap (λ r. r.1.schedule) h in
        let sorted : IsSorted (first ∷ ready) = rw s at (sort_by_time-IsSorted due) in
        let all_due : All (λ f. is_due now f ≡ true) (first ∷ ready) =
          rw s at (All-sort_by_time (λ f. is_due now f ≡ true) due (retain-All now l.schedule)) in
        let first_least : NoEarlier first.0 (first ∷ ready) = (le_refl first.0, sorted.0) in
        let in_due : NoEarlier first.0 due =
          All-of-sort (λ f. instant_le first.0 f.0 ≡ true) due (rw s first_least) in
        let everywhere : NoEarlier first.0 l.schedule =
          All-of-due (λ f. instant_le first.0 f.0 ≡ true) now l.schedule
            (λ f later. le_trans first.0 now f.0 (all_due.0) (le_total f.0 now later)) in_due in
        rw (← same) (
          all_due.0,
          everywhere,
          λ u.
              ap (λ s. retain (is_at u) (first ∷ s)) (sym rest)
              ∙ retain-append (is_at u) (first ∷ ready) remaining
              ∙ ap (λ a. retain (is_at u) a ++ retain (is_at u) remaining) (sym s)
              ∙ ap (λ a. a ++ retain (is_at u) remaining) (retain-sort_by_time u due)
              ∙ retain_parts u now l.schedule,
        )

-- If nothing is yielded, nothing is due and the loopback stays as it is.
pub poll_once-none :
    (l l' : Loopback) (now : Instant)
    → poll_once l now ≡ (none, l')
    → All (λ e. is_due now e ≡ false) l.schedule × (l' ≡ l)
unfolding poll_once
poll_once-none l l' now h = go (sort_by_time (retain (is_due now) l.schedule)) refl h
  where
    go :
        (ready : List Entry)
        → sort_by_time (retain (is_due now) l.schedule) ≡ ready
        → take_first ready (retain (λ e. not (is_due now e)) l.schedule) l ≡ (none, l')
        → All (λ e. is_due now e ≡ false) l.schedule × (l' ≡ l)
    go [] s h =
        let found = none_due now l.schedule (sort_nil _ s) in
        (found.0, sym (ap (λ r. r.1) h) ∙ ap (λ x. record l { schedule = x }) (found.1))
    go (first ∷ ready) s h = cc
