-- ===== src/Base/Parsing.antt =====
-- What the parsers use of strings: splitting, and the `parse` of integers.
use Prim.Native.Nat.{ℕ, ◌+◌, ◌-◌, ◌*◌, ◌≤◌}
use mathlib.Core.Path.{◌≡◌}
use mathlib.Core.Bool.{Bool, false, ◌&&◌, ◌||◌}
use mathlib.Core.List.{List, [], ◌∷◌}
use mathlib.Core.Option.{Option, none, some}
use native.Mathlib.Omega.{arith}
use evsieve.Base.Tests.{leb, ◌==◌, if◌then◌else◌, Bool-cases, Option-cases}
use evsieve.Base.Strings.{Text}
use evsieve.Base.Int.{ℤ, pos, IsI32, ◌-ℤ◌}
use mathlib.Core.Logic.{inl, inr}

-- `utils::split_once` at a character.
unfoldable pub split_once : ℕ → Text → Text × Option Text
split_once d [] = ([], none)
split_once d (c ∷ cs) =
    let (before, after) = split_once d cs in if c == d then ([], some cs) else (c ∷ before, after)

-- The same at two dots.
unfoldable pub split_dots : Text → Text × Option Text
split_dots [] = ([], none)
split_dots (c ∷ []) = (c ∷ [], none)
split_dots (c ∷ d ∷ cs) =
    let (before, after) = split_dots (d ∷ cs) in
    if c == b'.' && d == b'.' then ([], some cs) else (c ∷ before, after)

abbrev to_first : ℕ → List Text → List Text
to_first c [] = (c ∷ []) ∷ []
to_first c (part ∷ parts) = (c ∷ part) ∷ parts

-- `split` at a character.
unfoldable pub split : ℕ → Text → List Text
split d [] = [] ∷ []
split d (c ∷ cs) = let parts = split d cs in if c == d then [] ∷ parts else to_first c parts

abbrev pub contains_char : ℕ → Text → Bool
contains_char d [] = false
contains_char d (c ∷ cs) = c == d || contains_char d cs

abbrev pub ends_with : ℕ → Text → Bool
ends_with d [] = false
ends_with d (c ∷ []) = c == d
ends_with d (c ∷ e ∷ cs) = ends_with d (e ∷ cs)

abbrev pub strip_prefix : ℕ → Text → Option Text
strip_prefix d [] = none
strip_prefix d (c ∷ cs) = if c == d then some cs else none

-- The value of decimal digits behind those of `value`.
digits : Text → ℕ → Option ℕ
digits [] value = some value
digits (c ∷ cs) value =
    let rest = digits cs (value * 10 + (c - b'0')) in
    if leb b'0' c && leb c b'9' then rest else none

-- At least one digit.
abbrev number : Text → Option ℕ
number [] = none
number (c ∷ cs) = digits (c ∷ cs) 0

abbrev at_most : ℕ → Option ℕ → Option ℕ
at_most max none = none
at_most max (some n) = if leb n max then some n else none

abbrev without_plus : Text → Text
without_plus [] = []
without_plus (c ∷ cs) = if c == b'+' then cs else c ∷ cs

-- `parse::<u16>` and `parse::<i32>`.
unfoldable pub parse_u16 : Text → Option ℕ
unfolding digits
parse_u16 s = at_most 65535 (number (without_plus s))

abbrev positive : Option ℕ → Option ℤ
positive none = none
positive (some n) = some (pos n)

abbrev negative : Option ℕ → Option ℤ
negative none = none
negative (some n) = some (pos 0 -ℤ pos n)

unfoldable pub parse_i32 : Text → Option ℤ
unfolding digits
parse_i32 s = elim (strip_prefix b'-' s) [
  | some cs ↦ negative (at_most 2147483648 (number cs))
  | none ↦ positive (at_most 2147483647 (number (without_plus s)))
]

at_most_lem : (max n : ℕ) (o : Option ℕ) → at_most max o ≡ some n → n ≤ max
at_most_lem max n none h = cc
at_most_lem max n (some m) h = elim (Bool-cases (leb m max)) [
  | inl e ↦ let f = rw e at h in let same : m ≡ n = cc in ground (arith, e, same)
  | inr e ↦ let f = rw e at h in cc
]

positive-IsI32 : (o : Option ℕ) (v : ℤ) → positive (at_most 2147483647 o) ≡ some v → IsI32 v
positive-IsI32 o v h = elim (Option-cases (at_most 2147483647 o)) [
  | inl e ↦ let f = rw e at h in cc
  | inr (n, e) ↦
      let f = rw e at h in
      let same : pos n ≡ v = cc in
      let small = at_most_lem 2147483647 n o e in rw (← same) (ground (arith, small))
]

negative-IsI32 : (o : Option ℕ) (v : ℤ) → negative (at_most 2147483648 o) ≡ some v → IsI32 v
unfolding ◌-ℤ◌
negative-IsI32 o v h = elim (Option-cases (at_most 2147483648 o)) [
  | inl e ↦ let f = rw e at h in cc
  | inr (n, e) ↦
      let f = rw e at h in
      let same : pos 0 -ℤ pos n ≡ v = cc in
      let small = at_most_lem 2147483648 n o e in rw (← same) (ground (arith, small))
]

pub parse_i32-IsI32 : (s : Text) (v : ℤ) → parse_i32 s ≡ some v → IsI32 v
unfolding parse_i32
parse_i32-IsI32 s v h = elim (Option-cases (strip_prefix b'-' s)) [
  | inl e ↦ positive-IsI32 (number (without_plus s)) v (rw (parse_i32, e) at h)
  | inr (cs, e) ↦ negative-IsI32 (number cs) v (rw (parse_i32, e) at h)
]
