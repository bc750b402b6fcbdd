-- ===== src/Time/Laws.antt =====
-- Instants and durations as numbers of nanoseconds: what `add` and `checked_duration_since` mean, and
-- where `add` leaves the invariant of `Instant`.
use evsieve.Base.{
  ◌≡◌, ◌≢◌, ◌↔◌, refl, ap, ◌∙◌, ◌⊎◌, inl, inr, ◌+◌, ◌-◌, ◌^◌, ◌<◌, ◌≤◌, true, some, ℤ, pos, negsuc,
  pos_part, neg_part, ◌+ℤ◌, ◌-ℤ◌, ◌≤ℤ◌, ◌<ℤ◌, ltb_ℤ, arith, +ℤ_parts, -ℤ_parts, eq_of_parts,
  Bool-cases,
}
use evsieve.Time.{
  Instant, Duration, wrap_i64, add, carry, checked_duration_since, borrow, nanoseconds_per_second,
}

-- The documented invariants.
abbrev pub IsInstant : Instant → Type 0
IsInstant t = (pos 0 ≤ℤ t.nsec) × (t.nsec <ℤ pos nanoseconds_per_second)

abbrev pub IsDuration : Duration → Type 0
IsDuration d = d.nsec < nanoseconds_per_second

-- Seconds far from the ends of `i64`.
abbrev pub IsModest : ℤ → Type 0
IsModest s = (negsuc (2 ^ 61) ≤ℤ s) × (s ≤ℤ pos (2 ^ 61))

wrap_i64_lem : (z : ℤ) → negsuc (2 ^ 63 - 1) ≤ℤ z → z ≤ℤ pos (2 ^ 63 - 1) → wrap_i64 z ≡ z
unfolding wrap_i64
wrap_i64_lem z h k = ground arith

wrap_i64_eq :
    (x y : ℤ)
    → pos_part x + neg_part y ≡ pos_part y + neg_part x
    → negsuc (2 ^ 63 - 1) ≤ℤ y
    → y ≤ℤ pos (2 ^ 63 - 1)
    → wrap_i64 x ≡ y
wrap_i64_eq x y e h k = ap wrap_i64 (eq_of_parts x y e) ∙ wrap_i64_lem y h k

-- Where nothing wraps.
pub record Ranged (t : Instant) (d : Duration) : Type 0 where
  pub instant : IsInstant t
  pub duration : IsDuration d
  pub modest : IsModest t.sec
  pub short : d.sec ≤ 2 ^ 61

module _ (t : Instant) (d : Duration) (r : Ranged t d) where
  seconds_fit : wrap_i64 (t.sec +ℤ wrap_i64 (pos d.sec)) ≡ t.sec +ℤ pos d.sec
  seconds_fit =
      let i = r.modest in
      let s = r.short in
      let inner : wrap_i64 (pos d.sec) ≡ pos d.sec =
        wrap_i64_lem (pos d.sec) (omega arith) (omega arith) in
      let p = +ℤ_parts t.sec (pos d.sec) in
      ap (λ z. wrap_i64 (t.sec +ℤ z)) inner
      ∙ wrap_i64_lem (t.sec +ℤ pos d.sec) (omega (arith, p)) (omega (arith, p))

  nanoseconds_fit : wrap_i64 (t.nsec +ℤ wrap_i64 (pos d.nsec)) ≡ t.nsec +ℤ pos d.nsec
  nanoseconds_fit =
      let i = r.instant in
      let s = r.duration in
      let inner : wrap_i64 (pos d.nsec) ≡ pos d.nsec =
        wrap_i64_lem (pos d.nsec) (omega arith) (omega arith) in
      let p = +ℤ_parts t.nsec (pos d.nsec) in
      ap (λ z. wrap_i64 (t.nsec +ℤ z)) inner
      ∙ wrap_i64_lem (t.nsec +ℤ pos d.nsec) (omega (arith, p)) (omega (arith, p))

  -- The fields of the sum, with and without the carry.
  abbrev Carried : Type 0
  Carried =
      (pos nanoseconds_per_second <ℤ t.nsec +ℤ pos d.nsec)
      × ((add t d).sec ≡ t.sec +ℤ pos d.sec +ℤ pos 1)
      × ((add t d).nsec ≡ t.nsec +ℤ pos d.nsec -ℤ pos nanoseconds_per_second)

  abbrev Plain : Type 0
  Plain =
      (t.nsec +ℤ pos d.nsec ≤ℤ pos nanoseconds_per_second)
      × ((add t d).sec ≡ t.sec +ℤ pos d.sec)
      × ((add t d).nsec ≡ t.nsec +ℤ pos d.nsec)

  add-cases : Carried ⊎ Plain
  unfolding add carry
  add-cases = elim (Bool-cases (ltb_ℤ (pos nanoseconds_per_second) (t.nsec +ℤ pos d.nsec))) [
    | inl over ↦
        let i = r.modest in
        let s = r.short in
        let j = r.instant in
        let k = r.duration in
        let p = +ℤ_parts t.sec (pos d.sec) in
        let q = +ℤ_parts (t.sec +ℤ pos d.sec) (pos 1) in
        let m = +ℤ_parts t.nsec (pos d.nsec) in
        let n = -ℤ_parts (t.nsec +ℤ pos d.nsec) (pos nanoseconds_per_second) in
        inl (
          rw (seconds_fit, nanoseconds_fit, over)
            (
              ground arith,
              wrap_i64_lem _ (omega (arith, p, q)) (omega (arith, p, q)),
              wrap_i64_lem _ (omega (arith, m, n)) (omega (arith, m, n)),
            ))
    | inr under ↦ inr (rw (seconds_fit, nanoseconds_fit, under) (ground arith, refl, refl))
  ]

  -- The sum is later by the duration, to the nanosecond.
  pub add_elapsed :
      ((add t d).sec ≡ t.sec +ℤ pos d.sec) × ((add t d).nsec ≡ t.nsec +ℤ pos d.nsec)
      ⊎ ((add t d).sec ≡ t.sec +ℤ pos d.sec +ℤ pos 1)
        × ((add t d).nsec ≡ t.nsec +ℤ pos d.nsec -ℤ pos nanoseconds_per_second)
  add_elapsed = elim add-cases [ inl c ↦ inr (c.1, c.2) | inr c ↦ inl (c.1, c.2) ]

  -- The sum keeps the invariant of `Instant` if the nanoseconds do not add up to one second exactly.
  pub IsInstant-add : t.nsec +ℤ pos d.nsec ≢ pos nanoseconds_per_second → IsInstant (add t d)
  IsInstant-add ne =
      let i = r.instant in
      let m = +ℤ_parts t.nsec (pos d.nsec) in
      elim add-cases [
        | inl (over, _, e) ↦
            let n = -ℤ_parts (t.nsec +ℤ pos d.nsec) (pos nanoseconds_per_second) in
            let k = r.duration in rw e (omega (arith, m, n))
        | inr (under, _, e) ↦ rw e (omega (arith, m), strictly_under under)
      ]
    where
      strictly_under :
          t.nsec +ℤ pos d.nsec ≤ℤ pos nanoseconds_per_second
          → t.nsec +ℤ pos d.nsec <ℤ pos nanoseconds_per_second
      strictly_under le =
          elim (Bool-cases (ltb_ℤ (t.nsec +ℤ pos d.nsec) (pos nanoseconds_per_second))) [
            | inl lt ↦ ground arith
            | inr ge ↦ absurd (ne (eq_of_parts _ _ (ground arith)))
          ]

  -- If they do, the sum violates the invariant: the carry is made above one second only.
  pub not-IsInstant-add : t.nsec +ℤ pos d.nsec ≡ pos nanoseconds_per_second → ¬ IsInstant (add t d)
  not-IsInstant-add e h = elim add-cases [
    | inl (over, _, _) ↦ absurd (omega (arith, rw e at over))
    | inr (under, _, f) ↦ absurd (omega (arith, (rw (f, e) at h).1))
  ]

  -- Where nothing wraps (`Ranged`: the instant and the duration are valid, with seconds far from the
  -- ends of `i64`), the time that passes between an instant and its sum with a duration is that duration.
  pub checked_duration_since-add : checked_duration_since (add t d) t ≡ some d
  unfolding checked_duration_since borrow
  checked_duration_since-add = elim add-cases [
    | inl (over, e, f) ↦
        let i = r.instant in
        let j = r.short in
        let k = r.duration in
        let back = pos d.nsec -ℤ pos nanoseconds_per_second in
        let m = +ℤ_parts t.nsec (pos d.nsec) in
        let n = -ℤ_parts (t.nsec +ℤ pos d.nsec) (pos nanoseconds_per_second) in
        let o = -ℤ_parts (pos d.nsec) (pos nanoseconds_per_second) in
        let u = +ℤ_parts t.sec (pos d.sec) in
        let v = +ℤ_parts (t.sec +ℤ pos d.sec) (pos 1) in
        let sec_gap : wrap_i64 ((add t d).sec -ℤ t.sec) ≡ pos (d.sec + 1) = rw e (
          wrap_i64_eq _ _ (omega (arith, u, v, -ℤ_parts (t.sec +ℤ pos d.sec +ℤ pos 1) t.sec))
            (omega arith) (omega arith)) in
        let nsec_gap : wrap_i64 ((add t d).nsec -ℤ t.nsec) ≡ back = rw f (
          wrap_i64_eq _ _
            (omega (
              arith,
              m,
              n,
              o,
              -ℤ_parts (t.nsec +ℤ pos d.nsec -ℤ pos nanoseconds_per_second) t.nsec,
            ))
            (omega (arith, o)) (omega (arith, o))) in
        let negative : ltb_ℤ back (pos 0) ≡ true = ground (arith, o) in
        let sec : wrap_i64 (pos (d.sec + 1) -ℤ pos 1) ≡ pos d.sec =
          wrap_i64_eq _ _ (omega (arith, -ℤ_parts (pos (d.sec + 1)) (pos 1))) (omega arith)
            (omega arith) in
        let nsec : wrap_i64 (back +ℤ pos nanoseconds_per_second) ≡ pos d.nsec =
          wrap_i64_eq _ _ (omega (arith, o, +ℤ_parts back (pos nanoseconds_per_second)))
            (omega arith) (omega arith) in
        rw (sec_gap, nsec_gap, negative, sec, nsec)
    | inr (under, e, f) ↦
        let i = r.instant in
        let j = r.short in
        let k = r.duration in
        let m = +ℤ_parts t.nsec (pos d.nsec) in
        let u = +ℤ_parts t.sec (pos d.sec) in
        let sec_gap : wrap_i64 ((add t d).sec -ℤ t.sec) ≡ pos d.sec = rw e (
          wrap_i64_eq _ _ (omega (arith, u, -ℤ_parts (t.sec +ℤ pos d.sec) t.sec)) (omega arith)
            (omega arith)) in
        let nsec_gap : wrap_i64 ((add t d).nsec -ℤ t.nsec) ≡ pos d.nsec = rw f (
          wrap_i64_eq _ _ (omega (arith, m, -ℤ_parts (t.nsec +ℤ pos d.nsec) t.nsec)) (omega arith)
            (omega arith)) in
        rw (sec_gap, nsec_gap) (ground arith)
  ]

-- The sum of a valid instant and a valid duration, with seconds far from the ends of `i64`, satisfies the invariant of `Instant` exactly when
-- their nanoseconds do not add up to one second: `add` carries above one second only.
pub IsInstant-add_iff :
    (t : Instant) (d : Duration)
    → Ranged t d
    → IsInstant (add t d) ↔ (t.nsec +ℤ pos d.nsec ≢ pos nanoseconds_per_second)
IsInstant-add_iff t d r = (λ h e. not-IsInstant-add t d r e h, IsInstant-add t d r)
