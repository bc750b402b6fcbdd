-- ===== src/Key/Parser/Ranges.antt =====
-- The ranges that are parsed hold a value, and only those of an `i32`; where ranges are not allowed,
-- each is one value or all values.
use evsieve.Base.{
  ◌≡◌, refl, sym, subst, true, false, ◌⊎◌, ℕ, ◌&&◌, not, Option, none, some, [], ◌∷◌, Text,
  split_once, contains_char, parse_i32, parse_i32-IsI32, ℤ, IsI32, ltb_ℤ, ok, ◌>>=◌, >>=-ok,
  Bool-cases, Option-cases, inl, inr, arith,
}
use evsieve.Range.Interval
use evsieve.Range.Interval.{Interval}
use evsieve.Range.Sets.Normal.{IsValid}
use evsieve.Key.Parser

abbrev IsParsed : Option ℤ → Type 0
IsParsed none = Unit
IsParsed (some v) = IsI32 v

parse_int-IsParsed : (s : Text) (o : Option ℤ) → Parser.parse_int_or_wildcard s ≡ ok o → IsParsed o
parse_int-IsParsed [] none h = tt
parse_int-IsParsed [] (some v) h = cc
parse_int-IsParsed (c ∷ cs) o h = elim (Option-cases (parse_i32 (c ∷ cs))) [
  | inl e ↦ let f = rw (Parser.parse_int_or_wildcard, e) at h in cc
  | inr (v, e) ↦
      let f = rw (Parser.parse_int_or_wildcard, e) at h in
      let same : some v ≡ o = cc in subst IsParsed same (parse_i32-IsI32 (c ∷ cs) v e)
]

range_of-IsValid :
    (min max : Option ℤ) (r : Interval)
    → IsParsed min
    → IsParsed max
    → Parser.range_of min max ≡ ok r
    → IsValid r
unfolding Interval.new
range_of-IsValid none none r a b h =
    let e : Interval.new none none ≡ r = cc in subst IsValid e (ground arith)
range_of-IsValid (some m) none r a b h =
    let e : Interval.new (some m) none ≡ r = cc in subst IsValid e (ground (arith, a))
range_of-IsValid none (some n) r a b h =
    let e : Interval.new none (some n) ≡ r = cc in subst IsValid e (ground (arith, b))
range_of-IsValid (some m) (some n) r a b h = elim (Bool-cases (ltb_ℤ n m)) [
  | inl reversed ↦ let f = rw reversed at h in cc
  | inr ordered ↦
      let f = rw ordered at h in
      let e : Interval.new (some m) (some n) ≡ r = cc in
      subst IsValid e (ground (arith, a, b, ordered))
]

pub value-IsValid :
    (s : Text) (parser : Parser.KeyParser) (r : Interval)
    → Parser.interpret_event_value s parser ≡ ok r
    → IsValid r
unfolding Parser.interpret_event_value
value-IsValid s parser r h = elim (Bool-cases (not parser.allow_ranges && contains_char b'~' s)) [
  | inl e ↦ let f = rw e at h in cc
  | inr e ↦
      let (low, high) = split_once b'~' s in
      let k : (Parser.parse_int_or_wildcard low >>= λ min.
      Parser.parse_int_or_wildcard (Parser.unwrap_or high low) >>= λ max. Parser.range_of min max)
          ≡ ok r =
        rw e at h in
      let (min, e1, h1) =
        >>=-ok (Parser.parse_int_or_wildcard low)
          (λ min. Parser.parse_int_or_wildcard (Parser.unwrap_or high low) >>= λ max.
            Parser.range_of min max)
          r k in
      let (max, e2, h2) =
        >>=-ok (Parser.parse_int_or_wildcard (Parser.unwrap_or high low))
          (λ max. Parser.range_of min max) r h1 in
      range_of-IsValid min max r (parse_int-IsParsed low min e1) (parse_int-IsParsed _ max e2) h2
]

-- One value, or the wildcard.
abbrev pub IsSingle : Interval → Type 0
IsSingle r = (r.min ≡ r.max) ⊎ (r ≡ Interval.new none none)

range_of-IsSingle : (o : Option ℤ) (r : Interval) → Parser.range_of o o ≡ ok r → IsSingle r
unfolding Interval.new
range_of-IsSingle none r h = let e : Interval.new none none ≡ r = cc in inr (sym e)
range_of-IsSingle (some m) r h = elim (Bool-cases (ltb_ℤ m m)) [
  | inl reversed ↦ let f = rw reversed at h in cc
  | inr ordered ↦
      let f = rw ordered at h in
      let e : Interval.new (some m) (some m) ≡ r = cc in subst IsSingle e (inl refl)
]

split_once-none : (d : ℕ) (s : Text) → contains_char d s ≡ false → split_once d s ≡ (s, none)
unfolding split_once
split_once-none d [] h = refl
split_once-none d (c ∷ cs) h = ground (arith, split_once-none d cs)

pub value-IsSingle :
    (s : Text) (parser : Parser.KeyParser) (r : Interval)
    → Parser.interpret_event_value s parser ≡ ok r
    → (parser.allow_ranges ≡ true) ⊎ IsSingle r
unfolding Parser.interpret_event_value
value-IsSingle s parser r h = elim (Bool-cases parser.allow_ranges) [
  | inl on ↦ inl on
  | inr off ↦ elim (Bool-cases (contains_char b'~' s)) [
    | inl range ↦ let f = rw (off, range) at h in cc
    | inr plain ↦
        let k : (Parser.parse_int_or_wildcard s >>= λ min.
        Parser.parse_int_or_wildcard s >>= λ max. Parser.range_of min max)
            ≡ ok r =
          rw (off, plain, split_once-none b'~' s plain) at h in
        let (min, e1, h1) =
          >>=-ok (Parser.parse_int_or_wildcard s)
            (λ min. Parser.parse_int_or_wildcard s >>= λ max. Parser.range_of min max) r k in
        inr (range_of-IsSingle min r (rw e1 at h1))
  ]
]
