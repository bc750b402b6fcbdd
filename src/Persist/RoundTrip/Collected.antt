-- ===== src/Persist/RoundTrip/Collected.antt =====
-- The codes that are read back, all blocks together.
use evsieve.Base.{
  ℕ, ◌==◌, true, false, ◌||◌, ◌&&◌, Option, List, [], ◌∷◌, any, All, ◌≡◌, refl, ap, subst, ◌∙◌,
  arith, Bool-cases, inl, inr,
}
use evsieve.Event.{EventType, EventCode, code_eq}
use evsieve.Event.Equality.{code_eq-eq}
use evsieve.Capability.Codes.{CodeSet, has, insert_code}
use evsieve.Capability.Device.{Capabilities}
use evsieve.Persist.Encode.{sorted_event_codes_for_type, contains}
use evsieve.Persist.Decode.{TypeCodes, insert_codes, collect_codes}
use evsieve.Persist.RoundTrip.Sorting.{has-sorted, types_of, contains-types_of}
use evsieve.Persist.RoundTrip.Blocks.{IsStorableCode, extended}

has-insert_code :
    (set : CodeSet) (d c : EventCode) → has (insert_code set d) c ≡ (code_eq d c || has set c)
unfolding insert_code
has-insert_code set d c = elim (Bool-cases (has set d)) [
  | inr e ↦ rw e refl
  | inl e ↦ elim (Bool-cases (code_eq d c)) [
    | inr f ↦ rw (e, f) refl
    | inl f ↦ rw (e, f) (subst (λ x. has set x ≡ true) (code_eq-eq d c f) e)
  ]
]

has-insert_codes :
    (codes set : CodeSet) (c : EventCode)
    → has (insert_codes codes set) c ≡ (has codes c || has set c)
unfolding insert_codes
has-insert_codes [] set c = refl
has-insert_codes (d ∷ codes) set c =
    has-insert_code (insert_codes codes set) d c
    ∙ ap (λ b. code_eq d c || b) (has-insert_codes codes set c)
    ∙ ground arith

has_a_code :
    (codes : CodeSet) (c : EventCode)
    → has codes c ≡ true
    → any (λ d. d.ev_type == c.ev_type) codes ≡ true
has_a_code [] c h = h
has_a_code (d ∷ codes) c h = ground (arith, has_a_code codes c)

pub has_no_code :
    (codes : CodeSet) (c : EventCode) (t : EventType)
    → any (λ d. d.ev_type == t) codes ≡ false
    → (has codes c && c.ev_type == t) ≡ false
has_no_code [] c t h = refl
has_no_code (d ∷ codes) c t h = ground (arith, has_no_code codes c t)

module _ (event_type_get_max : EventType → Option ℕ) (caps : Capabilities)
    (s : All (IsStorableCode event_type_get_max) caps.codes) where
  of_types :
      (types : List EventType) (c : EventCode)
      → any (λ t. has (sorted_event_codes_for_type caps t) c) types
        ≡ (has caps.codes c && contains types c.ev_type)
  of_types [] c = ground arith
  of_types (t ∷ types) c = rw (has-sorted caps t c, of_types types c) (ground arith)

  collected :
      (m : TypeCodes) (types : List EventType) (c : EventCode)
      → has (collect_codes (extended event_type_get_max caps s m types)) c
        ≡ (any (λ t. has (sorted_event_codes_for_type caps t) c) types || has (collect_codes m) c)
  unfolding collect_codes extended
  collected m [] c = refl
  collected m (t ∷ types) c =
      let codes = sorted_event_codes_for_type caps t in
      collected ((t, codes) ∷ m) types c
      ∙ ap (λ b. any (λ t. has (sorted_event_codes_for_type caps t) c) types || b)
          (has-insert_codes codes (collect_codes m) c)
      ∙ ground arith

  pub has-collected :
      (c : EventCode)
      → has (collect_codes (extended event_type_get_max caps s [] (types_of caps.codes))) c
        ≡ has caps.codes c
  unfolding collect_codes
  has-collected c =
      collected [] (types_of caps.codes) c
      ∙ rw (of_types (types_of caps.codes) c, contains-types_of caps.codes c.ev_type)
          (ground (arith, has_a_code caps.codes c))
