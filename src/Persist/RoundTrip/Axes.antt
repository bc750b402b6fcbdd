-- ===== src/Persist/RoundTrip/Axes.antt =====
-- The special block of the absolute axes.
use mathlib.Core.List.{append_assoc}
use evsieve.Base.{
  ℕ, false, Option, none, some, List, [], ◌∷◌, ◌++◌, ltb_ℤ, ok, >>=-ok, ◌≡◌, refl, ap, ◌∙◌, sym,
  arith, if◌then◌else◌, Bool-cases, inl, inr,
}
use evsieve.Event.{EventCode, code_eq}
use evsieve.Event.Equality.{code_eq-eq}
use evsieve.Capability.{AbsInfo}
use evsieve.Capability.Codes.{CodeSet, CodeMap, get, insert, has}
use evsieve.Capability.Device.Axes.{get-insert}
use evsieve.Persist.Encode.{axis_bytes, encode_axis, encode_axes}
use evsieve.Persist.Decode.{decode_axes}
use evsieve.Persist.RoundTrip.{IsStorableAxis, restored, decode_axis-axis_bytes}

-- Every axis of the map is storable.
abbrev pub AreStorable : CodeMap AbsInfo → Type 0
AreStorable infos = (c : EventCode) (info : AbsInfo) → get infos c ≡ some info → IsStorableAxis info

abbrev insert_maybe : CodeMap AbsInfo → EventCode → Option AbsInfo → CodeMap AbsInfo
insert_maybe acc c none = acc
insert_maybe acc c (some info) = insert acc c (restored info)

-- The map that `decode_axes` makes.
unfoldable pub restored_axes : CodeMap AbsInfo → CodeSet → CodeMap AbsInfo → CodeMap AbsInfo
restored_axes infos [] acc = acc
restored_axes infos (c ∷ codes) acc = restored_axes infos codes (insert_maybe acc c (get infos c))

abbrev pub or_restored : Option AbsInfo → Option AbsInfo → Option AbsInfo
or_restored before none = before
or_restored before (some info) = some (restored info)

get-insert_maybe :
    (acc : CodeMap AbsInfo) (c d : EventCode) (o : Option AbsInfo)
    → get (insert_maybe acc c o) d ≡ (if code_eq c d then or_restored (get acc d) o else get acc d)
get-insert_maybe acc c d none = ground arith
get-insert_maybe acc c d (some info) = get-insert acc c d (restored info)

once_more :
    (before o : Option AbsInfo) → or_restored (or_restored before o) o ≡ or_restored before o
once_more before none = refl
once_more before (some info) = refl

pub get-restored_axes :
    (infos : CodeMap AbsInfo) (codes : CodeSet) (acc : CodeMap AbsInfo) (d : EventCode)
    → get (restored_axes infos codes acc) d
      ≡ (if has codes d then or_restored (get acc d) (get infos d) else get acc d)
unfolding restored_axes
get-restored_axes infos [] acc d = refl
get-restored_axes infos (c ∷ codes) acc d =
    let later = get-restored_axes infos codes (insert_maybe acc c (get infos c)) d in
    let now = get-insert_maybe acc c d (get infos c) in
    elim (Bool-cases (code_eq c d)) [
      | inr differs ↦ rw (later, now, differs) refl
      | inl same ↦
          let e = ap (get infos) (code_eq-eq c d same) in
          let again = once_more (get acc d) (get infos d) in
          rw (later, now, same, e)
            (elim (Bool-cases (has codes d)) [ inl h ↦ rw (h, again) refl | inr h ↦ rw h refl ])
    ]

axis_written :
    (c : EventCode) (o : Option AbsInfo) (bytes : List ℕ)
    → encode_axis c o ≡ ok bytes
    → (info : AbsInfo) × (o ≡ some info)
      × (ltb_ℤ info.max_value info.min_value ≡ false)
      × (axis_bytes info ≡ bytes)
unfolding encode_axis
axis_written c none bytes h = cc
axis_written c (some info) bytes h = elim (Bool-cases (ltb_ℤ info.max_value info.min_value)) [
  | inl e ↦ let f = rw e at h in cc
  | inr e ↦ let f = rw e at h in (info, refl, e, cc)
]

read_axis :
    (info : AbsInfo) (c : EventCode) (codes : CodeSet) (acc : CodeMap AbsInfo) (axes rest : List ℕ)
    → IsStorableAxis info
    → ltb_ℤ info.max_value info.min_value ≡ false
    → decode_axes ((axis_bytes info ++ axes) ++ rest) (c ∷ codes) acc
      ≡ decode_axes (axes ++ rest) codes (insert acc c (restored info))
unfolding decode_axes
read_axis info c codes acc axes rest s ordered =
    simp (append_assoc, decode_axis-axis_bytes info (axes ++ rest) s ordered)

pub decode_axes-encode_axes :
    (infos : CodeMap AbsInfo) (codes : CodeSet) (acc : CodeMap AbsInfo) (bytes rest : List ℕ)
    → AreStorable infos
    → encode_axes infos codes ≡ ok bytes
    → decode_axes (bytes ++ rest) codes acc ≡ ok (restored_axes infos codes acc, rest)
unfolding decode_axes encode_axes restored_axes
decode_axes-encode_axes infos [] acc bytes rest s h = let e : [] ≡ bytes = cc in rw (sym e) refl
decode_axes-encode_axes infos (c ∷ codes) acc bytes rest s h =
    let (axis, e, h') = >>=-ok _ _ bytes h in
    let (axes, f, h'') = >>=-ok _ _ bytes h' in
    let (info, found, ordered, written) = axis_written c (get infos c) axis e in
    let whole : axis_bytes info ++ axes ≡ bytes = ap (λ l. l ++ axes) written ∙ cc in
    let later = decode_axes-encode_axes infos codes (insert acc c (restored info)) axes rest s f in
    ap (λ l. decode_axes (l ++ rest) (c ∷ codes) acc) (sym whole)
    ∙ read_axis info c codes acc axes rest (s c info found) ordered
    ∙ rw found later
