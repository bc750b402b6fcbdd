-- ===== src/Persist/Bytes.antt =====
-- The numbers of src/persist/format.rs as bytes, the low end first. A function that extends a buffer
-- gives the bytes that it adds; a reader gives what it has read and what is left.
use evsieve.Base.{
  ℕ, ◌+◌, ◌-◌, ◌*◌, ◌/◌, ◌%◌, ◌<◌, ltb, ◌==◌, ◌≡◌, refl, ap, ◌∙◌, ==_refl, List, [], ◌∷◌, ◌++◌, ℤ,
  pos, negsuc, IsI32, arith, if◌then◌else◌, Result, ok, err,
}

pub data InvalidFormatError : Type 0 where
  invalid_format : InvalidFormatError

abbrev pub Read : Type 0 → Type 0
Read A = Result InvalidFormatError (A × List ℕ)

-- `push_u16`, `push_u32` and `push_i32`.
unfoldable pub u16_bytes : ℕ → List ℕ
u16_bytes value = value % 256 ∷ value / 256 % 256 ∷ []

unfoldable pub u32_bytes : ℕ → List ℕ
u32_bytes value =
    value % 256 ∷ value / 256 % 256 ∷ value / 65536 % 256 ∷ value / 16777216 % 256 ∷ []

-- Two's complement.
abbrev as_u32 : ℤ → ℕ
as_u32 (pos n) = n % 4294967296
as_u32 (negsuc n) = 4294967295 - n % 4294967296

abbrev as_i32 : ℕ → ℤ
as_i32 n = if ltb n 2147483648 then pos n else negsuc (4294967295 - n)

unfoldable pub i32_bytes : ℤ → List ℕ
unfolding u32_bytes
i32_bytes value = u32_bytes (as_u32 value)

-- `read_exact` of two bytes or of four.
unfoldable pub read_u16 : List ℕ → Read ℕ
read_u16 (a ∷ b ∷ source) = ok (a + b * 256, source)
read_u16 _ = err invalid_format

unfoldable pub read_u32 : List ℕ → Read ℕ
read_u32 (a ∷ b ∷ c ∷ d ∷ source) = ok (a + b * 256 + c * 65536 + d * 16777216, source)
read_u32 _ = err invalid_format

abbrev signed : Read ℕ → Read ℤ
signed (ok (value, source)) = ok (as_i32 value, source)
signed (err e) = err e

unfoldable pub read_i32 : List ℕ → Read ℤ
read_i32 source = signed (read_u32 source)

abbrev expected : ℕ → Read ℕ → Result InvalidFormatError (List ℕ)
expected expected_value (ok (found_value, source)) =
    if found_value == expected_value then ok source else err invalid_format
expected expected_value (err e) = err e

unfoldable pub expect_u16 : List ℕ → ℕ → Result InvalidFormatError (List ℕ)
expect_u16 source expected_value = expected expected_value (read_u16 source)

abbrev pub IsU16 : ℕ → Type 0
IsU16 v = v < 65536

pub read_u16-u16_bytes :
    (v : ℕ) (rest : List ℕ) → IsU16 v → read_u16 (u16_bytes v ++ rest) ≡ ok (v, rest)
unfolding read_u16 u16_bytes
read_u16-u16_bytes v rest h = ap (λ n. ok (n, rest)) (omega (arith, h))

pub read_u32-u32_bytes :
    (v : ℕ) (rest : List ℕ) → v < 4294967296 → read_u32 (u32_bytes v ++ rest) ≡ ok (v, rest)
unfolding read_u32 u32_bytes
read_u32-u32_bytes v rest h = ap (λ n. ok (n, rest)) (omega (arith, h))

as_u32_lem : (v : ℤ) → IsI32 v → (as_u32 v < 4294967296) × (as_i32 (as_u32 v) ≡ v)
as_u32_lem (pos n) h =
    let small : n % 4294967296 ≡ n = omega (arith, h) in (omega arith, rw small (ground (arith, h)))
as_u32_lem (negsuc n) h =
    let small : n % 4294967296 ≡ n = omega (arith, h) in (omega arith, rw small (ground (arith, h)))

pub read_i32-i32_bytes :
    (v : ℤ) (rest : List ℕ) → IsI32 v → read_i32 (i32_bytes v ++ rest) ≡ ok (v, rest)
unfolding read_i32 i32_bytes
read_i32-i32_bytes v rest h =
    let (small, back) = as_u32_lem v h in
    ap signed (read_u32-u32_bytes (as_u32 v) rest small) ∙ ap (λ z. ok (z, rest)) back

pub expect_u16-u16_bytes :
    (v : ℕ) (rest : List ℕ) → IsU16 v → expect_u16 (u16_bytes v ++ rest) v ≡ ok rest
unfolding expect_u16
expect_u16-u16_bytes v rest h = ap (expected v) (read_u16-u16_bytes v rest h) ∙ rw (==_refl v) refl
