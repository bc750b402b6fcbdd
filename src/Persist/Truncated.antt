-- ===== src/Persist/Truncated.antt =====
-- A file that was cut off, as by a write that did not finish.
use evsieve.Base.{
  ℕ, zero, suc, ◌/◌, ◌%◌, ltb, ◌<◌, ◌≤◌, ◌==◌, false, Option, none, some, List, [], ◌∷◌, ◌++◌,
  length, drop, ◌≡◌, refl, sym, ap, ◌∙◌, arith, if◌then◌else◌, ok, err, Bool-cases, inl, inr, ◌⊎◌,
  length-append,
}
use evsieve.Event.{EventType}
use evsieve.Capability.Device.{Capabilities}
use evsieve.Persist.Bytes.{u32_bytes, read_u32, invalid_format}
use evsieve.Persist.Encode.{encode, magic_number}
use evsieve.Persist.Decode.{decode, take}
use evsieve.Persist.RoundTrip.Whole.{file_parts, file_length, length-u32_bytes}

take-append : (n : ℕ) (p x : List ℕ) → n ≤ length p → take n (p ++ x) ≡ take n p
take-append zero p x h = refl
take-append (suc n) [] x h = absurd (omega (arith, h))
take-append (suc n) (b ∷ p) x h = ap (λ l. b ∷ l) (take-append n p x (omega (arith, h)))

drop-append : (n : ℕ) (p x : List ℕ) → n ≤ length p → drop n (p ++ x) ≡ drop n p ++ x
drop-append zero p x h = refl
drop-append (suc n) [] x h = absurd (omega (arith, h))
drop-append (suc n) (b ∷ p) x h = drop-append n p x (omega (arith, h))

-- What is left of the length is too short, or is the length.
length_left :
    (r x body : List ℕ) (n : ℕ)
    → n < 4294967296
    → r ++ x ≡ u32_bytes n ++ body
    → (read_u32 r ≡ err invalid_format) ⊎ ((r' : List ℕ) × (read_u32 r ≡ ok (n, r')))
unfolding read_u32 u32_bytes
length_left [] x body n small h = inl refl
length_left (a ∷ []) x body n small h = inl refl
length_left (a ∷ b ∷ []) x body n small h = inl refl
length_left (a ∷ b ∷ c ∷ []) x body n small h = inl refl
length_left (a ∷ b ∷ c ∷ d ∷ r) x body n small h =
    let e0 : a ≡ n % 256 = cc in
    let e1 : b ≡ n / 256 % 256 = cc in
    let e2 : c ≡ n / 65536 % 256 = cc in
    let e3 : d ≡ n / 16777216 % 256 = cc in
    inr (r, ap (λ m. ok (m, r)) (omega (arith, e0, e1, e2, e3, small)))

-- A file that `encode` has written, less its last bytes, is never read as a device: reading it panics if
-- fewer than eight bytes are left, and else gives the error.
pub decode-truncated :
    (event_type_get_max : EventType → Option ℕ) (caps : Capabilities) (p q : List ℕ) (b : ℕ)
    → encode caps ≡ ok (p ++ b ∷ q)
    → decode event_type_get_max p ≡ (if ltb (length p) 8 then none else some (err invalid_format))
unfolding decode
decode-truncated event_type_get_max caps p q b h =
    let (body, _, small, whole) = file_parts caps (p ++ b ∷ q) h in
    let n = file_length body in
    elim (Bool-cases (ltb (length p) 8)) [
      | inl short ↦ rw short refl
      | inr long ↦
          let enough : 8 ≤ length p = ground (arith, long) in
          let magic : take 8 p ≡ magic_number =
            sym (take-append 8 p (b ∷ q) enough) ∙ ap (take 8) (sym whole) in
          let left : drop 8 p ++ b ∷ q ≡ u32_bytes n ++ body =
            sym (drop-append 8 p (b ∷ q) enough) ∙ ap (drop 8) (sym whole) in
          let all = ap length whole ∙ length-append p (b ∷ q) in
          let counted = length-u32_bytes n body in
          let differs : (n == length p) ≡ false = ground (arith, all, counted) in
          elim (length_left (drop 8 p) (b ∷ q) body n small left) [
            | inl e ↦ rw (long, magic, e) refl
            | inr (r, e) ↦ rw (long, magic, e, differs) refl
          ]
    ]
