-- ===== src/Persist/RoundTrip/Compatible.antt =====
-- The debug assertion of `encode`: what it has written decodes to a device that is compatible.
use evsieve.Base.{
  ℕ, true, ◌&&◌, Option, none, some, List, [], ◌∷◌, all, All, ◌≡◌, refl, sym, ◌∙◌, arith,
  if◌then◌else◌, &&_intro, ok, eqb_ℤ_refl,
}
use evsieve.Event.{EventType, EventCode, is_abs}
use evsieve.Event.Equality.{code_eq_refl}
use evsieve.Capability.{AbsInfo}
use evsieve.Capability.Codes
use evsieve.Capability.Codes.{CodeSet, CodeMap, has, is_subset}
use evsieve.Capability.Device.{Capabilities, abs_equivalent, axis_compatible, is_compatible_with}
use evsieve.Persist.Encode.{encode}
use evsieve.Persist.Decode.{decode}
use evsieve.Persist.RoundTrip.{restored}
use evsieve.Persist.RoundTrip.Axes.{or_restored}
use evsieve.Persist.RoundTrip.Whole.{IsStorable, decode-encode}

is_subset_of_has :
    (codes others : CodeSet)
    → ((c : EventCode) → has codes c ≡ true → has others c ≡ true)
    → is_subset codes others ≡ true
is_subset_of_has [] others h = refl
is_subset_of_has (c ∷ codes) others h =
    &&_intro _ _ (h c (rw (code_eq_refl c) refl))
      (is_subset_of_has codes others (λ d e. h d (ground (arith, e))))

-- The axes are those of codes that the device has, and each code has one entry.
abbrev pub HasAxesOf : CodeSet → CodeMap AbsInfo → CodeMap AbsInfo → Type 0
HasAxesOf codes abs_info =
    All
      (λ e. (Codes.get abs_info e.0 ≡ some e.1) × ((has codes e.0 && is_abs (e.0).ev_type) ≡ true))

restored-equivalent : (info : AbsInfo) → abs_equivalent info (restored info) ≡ true
unfolding abs_equivalent
restored-equivalent info =
    rw
      (
        eqb_ℤ_refl info.min_value,
        eqb_ℤ_refl info.max_value,
        eqb_ℤ_refl info.meta.fuzz,
        eqb_ℤ_refl info.meta.flat,
        eqb_ℤ_refl info.meta.resolution,
      )
      refl

axes_compatible :
    (codes : CodeSet) (abs_info back entries : CodeMap AbsInfo)
    → ((c : EventCode)
        → Codes.get back c ≡ (
            if has codes c && is_abs c.ev_type
            then or_restored none (Codes.get abs_info c)
            else none))
    → HasAxesOf codes abs_info entries
    → all (λ e. axis_compatible (Codes.get back e.0) e.1) entries ≡ true
axes_compatible codes abs_info back [] h k = refl
axes_compatible codes abs_info back ((c, info) ∷ entries) h ((found, there), k) =
    &&_intro _ _ (rw (h c, there, found) (restored-equivalent info))
      (axes_compatible codes abs_info back entries h k)

-- A storable device whose axes belong to its codes: if it is encoded, and the bytes are decoded to a
-- device, then the first is compatible with the second, which is what `encode` asserts.
pub is_compatible_with-decode :
    (event_type_get_max : EventType → Option ℕ) (caps caps' : Capabilities) (bytes : List ℕ)
    → IsStorable event_type_get_max caps
    → HasAxesOf caps.codes caps.abs_info caps.abs_info
    → encode caps ≡ ok bytes
    → decode event_type_get_max bytes ≡ some (ok caps')
    → is_compatible_with caps caps' ≡ true
unfolding is_compatible_with
is_compatible_with-decode event_type_get_max caps caps' bytes s k h d =
    let (back, e, codes, axes, _) = decode-encode event_type_get_max caps s bytes h in
    let same : back ≡ caps' = cc in
    rw (sym same) (
      &&_intro _ _ (is_subset_of_has caps.codes back.codes (λ c there. codes c ∙ there))
        (axes_compatible caps.codes caps.abs_info back.abs_info caps.abs_info axes k))
