-- ===== src/Capability/Device/Axes.antt =====
-- The axes of a device: every absolute code has its information, so that the device can be described to
-- the kernel, and its range holds all the values that the code may have.
use evsieve.Base.{
  ◌≡◌, ap, sym, subst, ◌∙◌, true, false, Option, none, some, [], ◌∷◌, Bool-cases, Option-cases, inl,
  inr, ◌⊎◌, ||-cases, arith, ℤ, ◌≤ℤ◌, if◌then◌else◌,
}
use evsieve.Range.Interval
use evsieve.Range.Interval.{Interval}
use evsieve.Range.Sets
use evsieve.Range.Sets.Normal.{member, IsNormal}
use evsieve.Range.Sets.Algebra.{member-spanning_interval, nonempty_of_member}
use evsieve.Event.{EventCode, code_eq, is_abs}
use evsieve.Event.Equality.{code_eq-eq, code_eq_refl}
use evsieve.Capability.{AbsInfo, AbsMeta, Capability}
use evsieve.Capability.Codes.{CodeSet, CodeMap, has, insert_code, get, remove, insert}
use evsieve.Capability.Device.{Capabilities, add_capability, merged_info, default_meta}

has-insert_code :
    (codes : CodeSet) (c d : EventCode)
    → has (insert_code codes c) d ≡ true
    → (has codes d ≡ true) ⊎ (c ≡ d)
unfolding insert_code
has-insert_code codes c d h = elim (Bool-cases (has codes c)) [
  | inl known ↦ inl (rw known at h)
  | inr fresh ↦ elim (||-cases (code_eq c d) (has codes d) (rw fresh at h)) [
    | inl same ↦ inr (code_eq-eq c d same)
    | inr there ↦ inl there
  ]
]

insert_code-has : (codes : CodeSet) (c : EventCode) → has (insert_code codes c) c ≡ true
unfolding insert_code
insert_code-has codes c = elim (Bool-cases (has codes c)) [
  | inl known ↦ rw known known
  | inr fresh ↦ rw (fresh, code_eq_refl c)
]

insert_code_keeps :
    (codes : CodeSet) (c d : EventCode) → has codes d ≡ true → has (insert_code codes c) d ≡ true
unfolding insert_code
insert_code_keeps codes c d h = elim (Bool-cases (has codes c)) [
  | inl known ↦ rw known h
  | inr fresh ↦ rw fresh (ground (arith, h))
]

module _ {ℓ} {V : Type ℓ} where
  get-remove :
      (m : CodeMap V) (c d : EventCode)
      → get (remove m c) d ≡ (if code_eq c d then none else get m d)
  unfolding get remove
  get-remove [] c d = ground arith
  get-remove ((e, v) ∷ m) c d = ground (arith, get-remove m c d)

  pub get-insert :
      (m : CodeMap V) (c d : EventCode) (v : V)
      → get (insert m c v) d ≡ (if code_eq c d then some v else get m d)
  unfolding get insert
  get-insert m c d v = ground (arith, get-remove m c d)

-- The information has a range.
abbrev pub IsAxis : AbsInfo → Type 0
IsAxis info = info.min_value ≤ℤ info.max_value

abbrev pub InAxis : ℤ → AbsInfo → Type 0
InAxis v info = (info.min_value ≤ℤ v) × (v ≤ℤ info.max_value)

-- Every absolute code has an axis.
unfoldable pub IsDevice : Capabilities → Type 0
IsDevice c =
    (code : EventCode)
    → has c.codes code ≡ true
    → is_abs code.ev_type ≡ true
    → (info : AbsInfo) × (get c.abs_info code ≡ some info) × IsAxis info

-- The range of a merged axis holds what the new range holds.
merged-InAxis :
    (existing : Option AbsInfo) (r : Interval) (meta : AbsMeta) (v : ℤ)
    → Interval.contains r v ≡ true
    → InAxis v (merged_info existing r meta)
unfolding merged_info Interval.merge Interval.contains
merged-InAxis none r meta v h = ground arith
merged-InAxis (some info) r meta v h = ground arith

-- The second axis has every value that the first has.
abbrev pub AxisWithin : AbsInfo → AbsInfo → Type 0
AxisWithin a b = (b.min_value ≤ℤ a.min_value) × (a.max_value ≤ℤ b.max_value)

merged-AxisWithin :
    (existing : Option AbsInfo) (r : Interval) (meta : AbsMeta) (info : AbsInfo)
    → existing ≡ some info
    → AxisWithin info (merged_info existing r meta)
unfolding merged_info Interval.merge Interval.new
merged-AxisWithin none r meta info e = cc
merged-AxisWithin (some known) r meta info e =
    let same : known ≡ info = ap (λ o. elim o [ some x ↦ x | none ↦ info ]) e in
    subst (λ x. AxisWithin x (merged_info (some known) r meta)) same (ground arith)

-- Every axis is there still, with no value lost.
abbrev pub AxesKept : Capabilities → Capabilities → Type 0
AxesKept c c' =
    (code : EventCode) (info : AbsInfo)
    → get c.abs_info code ≡ some info
    → (info' : AbsInfo) × (get c'.abs_info code ≡ some info') × AxisWithin info info'

-- The second has the codes of the first, the new code, and no other.
abbrev pub HasAdded : Capabilities → EventCode → Capabilities → Type 0
HasAdded c new c' =
    (has c'.codes new ≡ true)
    × ((code : EventCode) → has c.codes code ≡ true → has c'.codes code ≡ true)
    × ((code : EventCode) → has c'.codes code ≡ true → (has c.codes code ≡ true) ⊎ (new ≡ code))

module _ (c : Capabilities) (cap : Capability) (i : IsDevice c) where
  inserted : Capabilities
  inserted = record c { codes = insert_code c.codes cap.code }

  -- A code that is no axis.
  inserted-IsDevice : is_abs cap.code.ev_type ≡ false → IsDevice inserted
  unfolding inserted IsDevice
  inserted-IsDevice off code there abs = elim (has-insert_code c.codes cap.code code there) [
    | inl known ↦ i code known abs
    | inr same ↦ let on = subst (λ d. is_abs d.ev_type ≡ false) same off in cc
  ]

  axis-IsDevice :
      (info : AbsInfo)
      → IsAxis info
      → IsDevice (record inserted { abs_info = insert c.abs_info cap.code info })
  unfolding inserted IsDevice
  axis-IsDevice info axis code there abs = elim (Bool-cases (code_eq cap.code code)) [
    | inl same ↦ (info, get-insert c.abs_info cap.code code info ∙ rw same, axis)
    | inr differs ↦ elim (has-insert_code c.codes cap.code code there) [
      | inl known ↦
          let (found, e, a) = i code known abs in
          (found, get-insert c.abs_info cap.code code info ∙ rw differs e, a)
      | inr same ↦
          let on = subst (λ d. code_eq cap.code d ≡ true) same (code_eq_refl cap.code) in cc
    ]
  ]

  added : HasAdded c cap.code inserted
  unfolding inserted
  added = (
    insert_code-has c.codes cap.code,
    insert_code_keeps c.codes cap.code,
    has-insert_code c.codes cap.code,
  )

  same_axes : AxesKept c inserted
  unfolding inserted
  same_axes code info e = (info, e, (omega arith, omega arith))

  axis_kept :
      (r : Interval) (meta : AbsMeta)
      → AxesKept c (record inserted {
        abs_info = insert c.abs_info cap.code (merged_info (get c.abs_info cap.code) r meta);
      })
  unfolding inserted
  axis_kept r meta code info e =
      let merged = merged_info (get c.abs_info cap.code) r meta in
      elim (Bool-cases (code_eq cap.code code)) [
        | inl same ↦
            let there =
              subst (λ d. get c.abs_info d ≡ some info) (sym (code_eq-eq cap.code code same)) e in
            (
              merged,
              get-insert c.abs_info cap.code code merged ∙ rw same,
              merged-AxisWithin (get c.abs_info cap.code) r meta info there,
            )
        | inr differs ↦ (
          info,
          get-insert c.abs_info cap.code code merged ∙ rw differs e,
          (omega arith, omega arith),
        )
      ]

  -- A capability with a value, and a normalized set of them, is added with no panic: the device gets
  -- its code and no other, and loses no code and no value of an axis; every absolute code has an axis
  -- still, and if the capability is absolute, its axis holds the value.
  pub add_capability_lem :
      (v : ℤ)
      → IsNormal cap.values.intervals
      → member v cap.values.intervals ≡ true
      → (c' : Capabilities) × (add_capability c cap ≡ some c')
        × IsDevice c'
        × HasAdded c cap.code c'
        × AxesKept c c'
        × ((is_abs cap.code.ev_type ≡ false)
            ⊎ ((info : AbsInfo) × (get c'.abs_info cap.code ≡ some info) × InAxis v info))
  unfolding add_capability inserted
  add_capability_lem v n m =
      let nonempty = nonempty_of_member v cap.values m in
      elim (Bool-cases (is_abs cap.code.ev_type)) [
        | inr off ↦ (inserted, rw (nonempty, off), inserted-IsDevice off, added, same_axes, inl off)
        | inl on ↦ elim (Option-cases (Sets.spanning_interval cap.values)) [
          | inl e ↦ let f = rw e at (member-spanning_interval cap.values v n m) in cc
          | inr (r, e) ↦
              let meta = default_meta cap.abs_meta in
              let info = merged_info (get c.abs_info cap.code) r meta in
              let inside =
                merged-InAxis (get c.abs_info cap.code) r meta v
                  (rw e at (member-spanning_interval cap.values v n m)) in
              (
                record inserted { abs_info = insert c.abs_info cap.code info },
                rw (nonempty, on, e),
                axis-IsDevice info (omega (arith, inside)),
                added,
                axis_kept r meta,
                inr (
                  info,
                  get-insert c.abs_info cap.code cap.code info ∙ rw (code_eq_refl cap.code),
                  inside,
                ),
              )
        ]
      ]
