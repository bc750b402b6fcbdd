-- ===== src/Persist/Errors.antt =====
-- The errors of writing and reading.
use evsieve.Base.{
  ℕ, ◌+◌, ltb, ◌==◌, true, false, ◌&&◌, some, List, [], ◌∷◌, ◌++◌, length, All, ◌≡◌, refl, sym, ◌∙◌,
  arith, if◌then◌else◌, ok, err, ◌>>=◌, subst, Result-cases, >>=-err, &&_left, &&_right, Bool-cases,
  inl, inr, ◌⊎◌, ltb_ℤ,
}
use evsieve.Event.{EventType, EventCode, ev_abs, ev_rep, is_abs}
use evsieve.Capability.{AbsInfo}
use evsieve.Capability.Codes
use evsieve.Capability.Codes.{CodeSet, CodeMap, has}
use evsieve.Capability.Device.{Capabilities}
use evsieve.Capability.Device.Axes.{IsDevice, IsAxis}
use evsieve.Persist.Bytes.{u16_bytes, u32_bytes}
use evsieve.Persist.Encode.{
  InternalError, file_too_large, too_many_types, too_many_codes, u16_of, code_bytes, axis_bytes,
  ev_abs_block_number, final_block_number, contains, encode_special_rep_block, encode_event_block,
  encode_event_blocks, encode_axis, encode_axes, encode_special_abs_block,
  sorted_event_codes_for_type, encode_body, encode, file, magic_number,
}
use evsieve.Persist.RoundTrip.Sorting.{has-sorted, types_of}
use evsieve.Event.Equality.{code_eq_refl}

-- The device is too large for the numbers of the format.
abbrev pub IsSizeError : InternalError → Type 0
IsSizeError file_too_large = Unit
IsSizeError too_many_types = Unit
IsSizeError (too_many_codes t) = Unit
IsSizeError _ = ⊥

u16_of-err : (e d : InternalError) (n : ℕ) → u16_of e n ≡ err d → e ≡ d
u16_of-err e d n h = elim (Bool-cases (ltb n 65536)) [
  | inl small ↦ let f = rw small at h in cc
  | inr large ↦ let f = rw large at h in cc
]

-- The code has an axis with a range.
abbrev HasAxis : CodeMap AbsInfo → EventCode → Type 0
HasAxis infos c = (info : AbsInfo) × (Codes.get infos c ≡ some info) × IsAxis info

encode_axes-ok :
    (infos : CodeMap AbsInfo) (codes : CodeSet)
    → All (HasAxis infos) codes
    → (bytes : List ℕ) × (encode_axes infos codes ≡ ok bytes)
unfolding encode_axes encode_axis
encode_axes-ok infos [] h = ([], refl)
encode_axes-ok infos (c ∷ codes) ((info, found, axis), h) =
    let (axes, e) = encode_axes-ok infos codes h in
    let ordered : ltb_ℤ info.max_value info.min_value ≡ false = ground (arith, axis) in
    (axis_bytes info ++ axes, rw (found, ordered, e) refl)

blocks_err :
    (caps : Capabilities) (types : List EventType) (e : InternalError)
    → encode_event_blocks caps types ≡ err e
    → IsSizeError e
unfolding encode_event_blocks encode_event_block
blocks_err caps [] e h = cc
blocks_err caps (t ∷ types) e h =
    let codes = sorted_event_codes_for_type caps t in
    elim (>>=-err (encode_event_block caps t)
      (λ block. encode_event_blocks caps types >>= λ blocks. ok (block ++ blocks)) e h) [
        | inr (block, _, h1) ↦
            elim (>>=-err (encode_event_blocks caps types) (λ blocks. ok (block ++ blocks)) e h1) [
              | inl f ↦ blocks_err caps types e f
              | inr (_, _, f) ↦ cc
            ]
        | inl f ↦
            elim (>>=-err (u16_of (too_many_codes t) (length codes))
              (λ n. ok (u16_bytes t ++ n ++ code_bytes codes)) e f) [
                | inr (_, _, g) ↦ cc
                | inl g ↦ subst IsSizeError (u16_of-err (too_many_codes t) e (length codes) g) tt
              ]
      ]

All-of_has :
    (P : EventCode → Type 0) (codes : CodeSet)
    → ((c : EventCode) → has codes c ≡ true → P c)
    → All P codes
All-of_has P [] h = tt
All-of_has P (c ∷ codes) h =
    (h c (rw (code_eq_refl c) refl), All-of_has P codes (λ d e. h d (ground (arith, e))))

module _ (caps : Capabilities) (d : IsDevice caps) where
  abs_block-ok : (bytes : List ℕ) × (encode_special_abs_block caps ≡ ok bytes)
  unfolding encode_special_abs_block IsDevice
  abs_block-ok =
      let codes = sorted_event_codes_for_type caps ev_abs in
      let fine = All-of_has (HasAxis caps.abs_info) codes (λ c there.
        let both : (has caps.codes c && is_abs c.ev_type) ≡ true =
          sym (has-sorted caps ev_abs c) ∙ there in
        d c (&&_left (has caps.codes c) (is_abs c.ev_type) both)
          (&&_right (has caps.codes c) (is_abs c.ev_type) both)) in
      let (axes, e) = encode_axes-ok caps.abs_info codes fine in
      (u16_bytes ev_abs_block_number ++ axes, rw e refl)

  file-err : (body : List ℕ) (e : InternalError) → file body ≡ err e → IsSizeError e
  unfolding file u32_bytes
  file-err body e h =
      let n = length magic_number + 4 + length body in
      let same : (length (magic_number ++ u32_bytes n ++ body) == n) ≡ true = ground arith in
      elim (Bool-cases (ltb n 4294967296)) [
        | inr large ↦
            let f = rw large at h in let g : file_too_large ≡ e = cc in subst IsSizeError g tt
        | inl small ↦ let f = rw (small, same) at h in cc
      ]

  body_err : (e : InternalError) → encode_body caps ≡ err e → IsSizeError e
  unfolding encode_body
  body_err e h =
      let types = types_of caps.codes in
      let axes_block = if contains types ev_abs then encode_special_abs_block caps else ok [] in
      let rep_block = if contains types ev_rep then encode_special_rep_block caps else [] in
      elim (>>=-err (u16_of too_many_types (length types))
        (λ num. encode_event_blocks caps types >>= λ blocks. axes_block >>= λ abs_block.
          ok (num ++ blocks ++ abs_block ++ rep_block ++ u16_bytes final_block_number))
        e h) [
          | inl f ↦ subst IsSizeError (u16_of-err too_many_types e (length types) f) tt
          | inr (num, _, h1) ↦
              elim (>>=-err (encode_event_blocks caps types)
                (λ blocks. axes_block >>= λ abs_block.
                  ok (num ++ blocks ++ abs_block ++ rep_block ++ u16_bytes final_block_number))
                e h1) [
                  | inl f ↦ blocks_err caps types e f
                  | inr (blocks, _, h2) ↦
                      elim (>>=-err axes_block
                        (λ abs_block.
                          ok (
                            num
                            ++ blocks
                            ++ abs_block
                            ++ rep_block
                            ++ u16_bytes final_block_number))
                        e h2) [
                          | inr (_, _, f) ↦ cc
                          | inl f ↦
                              let (bytes, fine) = abs_block-ok in
                              elim (Bool-cases (contains types ev_abs)) [
                                | inl on ↦ let g = rw on at f in cc
                                | inr off ↦ let g = rw off at f in cc
                              ]
                        ]
                ]
        ]

  -- For a device whose every absolute code has an axis with a range, `encode` gives bytes, or an error that
  -- says that the device has too much for the numbers of the format; so it meets none of the errors
  -- that its messages call bugs, and no axis without a range.
  pub encode_outcome :
      ((bytes : List ℕ) × (encode caps ≡ ok bytes))
      ⊎ ((e : InternalError) × (encode caps ≡ err e) × IsSizeError e)
  unfolding encode
  encode_outcome = elim (Result-cases (encode_body caps >>= file)) [
    | inl (bytes, e) ↦ inl (bytes, e)
    | inr (e, h) ↦ inr (
      e,
      h,
      elim (>>=-err (encode_body caps) file e h) [
        | inl f ↦ body_err e f
        | inr (body, _, f) ↦ file-err body e f
      ],
    )
  ]
