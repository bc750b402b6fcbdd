-- ===== src/Persist/RoundTrip/Sorting.antt =====
-- Sorting loses no code and no type, and makes none equal.
use evsieve.Base.{
  leb, ◌==◌, Bool, false, ◌||◌, ◌&&◌, List, [], ◌∷◌, any, retain, All, ◌≡◌, refl, ap, ◌∙◌, arith,
  Bool-cases, inl, inr, or_swap, ==_iff,
}
use evsieve.Event.{EventType, EventCode, code_eq}
use evsieve.Capability.Codes.{CodeSet, has, code_le}
use evsieve.Capability.Device.{Capabilities, ev_types}
use evsieve.Persist.Encode.{
  insert_type, sort_types, insert_code, sort_codes, sorted_event_codes_for_type, contains,
}

any-insert_code :
    (p : EventCode → Bool) (c : EventCode) (codes : CodeSet)
    → any p (insert_code c codes) ≡ (p c || any p codes)
unfolding insert_code
any-insert_code p c [] = refl
any-insert_code p c (d ∷ codes) = elim (Bool-cases (code_le c d)) [
  | inl e ↦ rw e refl
  | inr e ↦ rw (e, any-insert_code p c codes) (or_swap (p d) (p c) (any p codes))
]

any-sort_codes : (p : EventCode → Bool) (codes : CodeSet) → any p (sort_codes codes) ≡ any p codes
unfolding sort_codes
any-sort_codes p [] = refl
any-sort_codes p (c ∷ codes) =
    any-insert_code p c (sort_codes codes) ∙ ap (λ b. p c || b) (any-sort_codes p codes)

has-retain :
    (t : EventType) (codes : CodeSet) (c : EventCode)
    → has (retain (λ code. code.ev_type == t) codes) c ≡ (has codes c && c.ev_type == t)
has-retain t [] c = refl
has-retain t (d ∷ codes) c = ground (arith, has-retain t codes c)

pub has-sorted :
    (caps : Capabilities) (t : EventType) (c : EventCode)
    → has (sorted_event_codes_for_type caps t) c ≡ (has caps.codes c && c.ev_type == t)
unfolding sorted_event_codes_for_type
has-sorted caps t c = any-sort_codes (λ d. code_eq d c) _ ∙ has-retain t caps.codes c

module _ (P : EventCode → Type 0) where
  All-insert_code :
      (c : EventCode) (codes : CodeSet) → P c → All P codes → All P (insert_code c codes)
  unfolding insert_code
  All-insert_code c [] h k = (h, tt)
  All-insert_code c (d ∷ codes) h (k, ks) = elim (Bool-cases (code_le c d)) [
    | inl e ↦ rw e (h, (k, ks))
    | inr e ↦ rw e (k, All-insert_code c codes h ks)
  ]

  All-sort_codes : (codes : CodeSet) → All P codes → All P (sort_codes codes)
  unfolding sort_codes
  All-sort_codes [] h = tt
  All-sort_codes (c ∷ codes) (h, hs) =
      All-insert_code c (sort_codes codes) h (All-sort_codes codes hs)

All-of_type :
    (P : EventCode → Type 0) (t : EventType) (codes : CodeSet)
    → All P codes
    → All (λ c. (c.ev_type ≡ t) × P c) (retain (λ code. code.ev_type == t) codes)
All-of_type P t [] h = tt
All-of_type P t (c ∷ codes) (h, hs) = elim (Bool-cases (c.ev_type == t)) [
  | inl e ↦ rw e (((==_iff c.ev_type t).0 e, h), All-of_type P t codes hs)
  | inr e ↦ rw e (All-of_type P t codes hs)
]

pub All-sorted :
    (P : EventCode → Type 0) (caps : Capabilities) (t : EventType)
    → All P caps.codes
    → All (λ c. (c.ev_type ≡ t) × P c) (sorted_event_codes_for_type caps t)
unfolding sorted_event_codes_for_type
All-sorted P caps t h = All-sort_codes _ _ (All-of_type P t caps.codes h)

contains-insert_type :
    (t : EventType) (types : List EventType) (u : EventType)
    → contains (insert_type t types) u ≡ (t == u || contains types u)
unfolding insert_type
contains-insert_type t [] u = refl
contains-insert_type t (v ∷ types) u = elim (Bool-cases (leb t v)) [
  | inl e ↦ rw e refl
  | inr e ↦ rw (e, contains-insert_type t types u) (or_swap (v == u) (t == u) (contains types u))
]

contains-sort_types :
    (types : List EventType) (u : EventType) → contains (sort_types types) u ≡ contains types u
unfolding sort_types
contains-sort_types [] u = refl
contains-sort_types (t ∷ types) u =
    contains-insert_type t (sort_types types) u
    ∙ ap (λ b. t == u || b) (contains-sort_types types u)

-- No type twice.
unfoldable pub AreDistinct : List EventType → Type 0
AreDistinct [] = Unit
AreDistinct (t ∷ types) = (contains types t ≡ false) × AreDistinct types

insert_type-AreDistinct :
    (t : EventType) (types : List EventType)
    → contains types t ≡ false
    → AreDistinct types
    → AreDistinct (insert_type t types)
unfolding insert_type AreDistinct
insert_type-AreDistinct t [] h d = (refl, tt)
insert_type-AreDistinct t (u ∷ types) h (fresh, d) = elim (Bool-cases (leb t u)) [
  | inl e ↦ rw e (h, (fresh, d))
  | inr e ↦ rw e (
    contains-insert_type t types u ∙ ground (arith, h, fresh),
    insert_type-AreDistinct t types (ground (arith, h)) d,
  )
]

sort_types-AreDistinct :
    (types : List EventType) → AreDistinct types → AreDistinct (sort_types types)
unfolding sort_types AreDistinct
sort_types-AreDistinct [] h = tt
sort_types-AreDistinct (t ∷ types) (fresh, d) =
    insert_type-AreDistinct t (sort_types types) (contains-sort_types types t ∙ fresh)
      (sort_types-AreDistinct types d)

ev_types-AreDistinct : (codes : CodeSet) → AreDistinct (ev_types codes)
unfolding ev_types AreDistinct
ev_types-AreDistinct [] = tt
ev_types-AreDistinct (c ∷ codes) = elim (Bool-cases (contains (ev_types codes) c.ev_type)) [
  | inl e ↦ rw e (ev_types-AreDistinct codes)
  | inr e ↦ rw e (e, ev_types-AreDistinct codes)
]

contains-ev_types :
    (codes : CodeSet) (t : EventType)
    → contains (ev_types codes) t ≡ any (λ c. c.ev_type == t) codes
unfolding ev_types
contains-ev_types [] t = refl
contains-ev_types (c ∷ codes) t = ground (arith, contains-ev_types codes t)

-- The types of a device in order.
abbrev pub types_of : CodeSet → List EventType
types_of codes = sort_types (ev_types codes)

pub types_of-AreDistinct : (codes : CodeSet) → AreDistinct (types_of codes)
types_of-AreDistinct codes = sort_types-AreDistinct _ (ev_types-AreDistinct codes)

pub contains-types_of :
    (codes : CodeSet) (t : EventType)
    → contains (types_of codes) t ≡ any (λ c. c.ev_type == t) codes
contains-types_of codes t = contains-sort_types (ev_types codes) t ∙ contains-ev_types codes t

module _ (P : EventType → Type 0) where
  All-insert_type :
      (t : EventType) (types : List EventType) → P t → All P types → All P (insert_type t types)
  unfolding insert_type
  All-insert_type t [] h k = (h, tt)
  All-insert_type t (u ∷ types) h (k, ks) = elim (Bool-cases (leb t u)) [
    | inl e ↦ rw e (h, (k, ks))
    | inr e ↦ rw e (k, All-insert_type t types h ks)
  ]

  All-sort_types : (types : List EventType) → All P types → All P (sort_types types)
  unfolding sort_types
  All-sort_types [] h = tt
  All-sort_types (t ∷ types) (h, hs) =
      All-insert_type t (sort_types types) h (All-sort_types types hs)

  All-ev_types : (codes : CodeSet) → All (λ c. P c.ev_type) codes → All P (ev_types codes)
  unfolding ev_types
  All-ev_types [] h = tt
  All-ev_types (c ∷ codes) (h, hs) = elim (Bool-cases (contains (ev_types codes) c.ev_type)) [
    | inl e ↦ rw e (All-ev_types codes hs)
    | inr e ↦ rw e (h, All-ev_types codes hs)
  ]

  pub All-types_of : (codes : CodeSet) → All (λ c. P c.ev_type) codes → All P (types_of codes)
  All-types_of codes h = All-sort_types _ (All-ev_types codes h)
