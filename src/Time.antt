-- ===== src/Time.antt =====
-- src/time.rs: instants and durations in seconds and nanoseconds. `i64` arithmetic wraps, as it does in
-- a release build.
pub mod Laws
use evsieve.Base.{
  ◌≡◌, ℕ, zero, suc, ◌+◌, ◌-◌, ◌*◌, ◌/◌, ◌%◌, ◌^◌, ◌<◌, ltb, Bool, true, false, ◌||◌, ◌&&◌, Option,
  none, some, ℤ, pos, negsuc, ◌+ℤ◌, ◌-ℤ◌, ◌<ℤ◌, ◌≤ℤ◌, ltb_ℤ, leb_ℤ, eqb_ℤ, if◌then◌else◌,
}

abbrev pub nanoseconds_per_second : ℕ
nanoseconds_per_second = 1000000000

-- The `i64` that an integer wraps to.
unfoldable pub wrap_i64 : ℤ → ℤ
wrap_i64 (pos n) = let m = n % 2 ^ 64 in if ltb m (2 ^ 63) then pos m else negsuc (2 ^ 64 - m - 1)
wrap_i64 (negsuc n) =
    let m = n % 2 ^ 64 in if ltb m (2 ^ 63) then negsuc m else pos (2 ^ 64 - m - 1)

pub record Instant : Type 0 where
  pub sec : ℤ
  pub nsec : ℤ

pub record Duration : Type 0 where
  pub sec : ℕ
  pub nsec : ℕ

-- The derived orders compare the fields in turn.
abbrev pub instant_le : Instant → Instant → Bool
instant_le a b = ltb_ℤ a.sec b.sec || (eqb_ℤ a.sec b.sec && leb_ℤ a.nsec b.nsec)

abbrev pub instant_eq : Instant → Instant → Bool
instant_eq a b = eqb_ℤ a.sec b.sec && eqb_ℤ a.nsec b.nsec

-- The borrow of one second.
borrow : ℤ → ℤ → ℤ × ℤ
borrow sec nsec =
    if ltb_ℤ nsec (pos 0)
    then (wrap_i64 (sec -ℤ pos 1), wrap_i64 (nsec +ℤ pos nanoseconds_per_second))
    else (sec, nsec)

-- `i64` to `u64` by `try_into`.
abbrev to_u64 : ℤ → Option ℕ
to_u64 (pos n) = some n
to_u64 (negsuc n) = none

abbrev both : Option ℕ → Option ℕ → Option Duration
both (some s) (some n) = some (record { sec = s; nsec = n })
both _ _ = none

unfoldable pub checked_duration_since : Instant → Instant → Option Duration
unfolding borrow
checked_duration_since self other =
    let (sec, nsec) =
      borrow (wrap_i64 (self.sec -ℤ other.sec)) (wrap_i64 (self.nsec -ℤ other.nsec)) in
    both (to_u64 sec) (to_u64 nsec)

-- The `u64` arithmetic wraps.
unfoldable pub from_nanos : ℕ → Duration
from_nanos nsec = record {
  sec = nsec / nanoseconds_per_second;
  nsec = nsec % nanoseconds_per_second;
}

unfoldable pub from_secs : ℕ → Duration
unfolding from_nanos
from_secs sec = from_nanos (sec * 1000000000 % 2 ^ 64)

unfoldable pub from_millis : ℕ → Duration
unfolding from_nanos
from_millis msec = from_nanos (msec * 1000000 % 2 ^ 64)

unfoldable pub from_micros : ℕ → Duration
unfolding from_nanos
from_micros microsec = from_nanos (microsec * 1000 % 2 ^ 64)

unfoldable pub as_millis : Duration → ℕ
as_millis d = (d.sec * 1000 % 2 ^ 64 + d.nsec / 1000000) % 2 ^ 64

-- `impl Add<Duration> for Instant`, with its test `nsec > NANOSECONDS_PER_SECOND`.
carry : ℤ → ℤ → Instant
carry sec nsec =
    if ltb_ℤ (pos nanoseconds_per_second) nsec
    then record {
      sec = wrap_i64 (sec +ℤ pos 1);
      nsec = wrap_i64 (nsec -ℤ pos nanoseconds_per_second);
    }
    else record { sec = sec; nsec = nsec }

unfoldable pub add : Instant → Duration → Instant
unfolding carry
add self rhs =
    carry (wrap_i64 (self.sec +ℤ wrap_i64 (pos rhs.sec)))
      (wrap_i64 (self.nsec +ℤ wrap_i64 (pos rhs.nsec)))
