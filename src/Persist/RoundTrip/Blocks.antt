-- ===== src/Persist/RoundTrip/Blocks.antt =====
-- The blocks of event codes.
use mathlib.Core.List.{append_assoc}
use evsieve.Base.{
  ℕ, ltb, ◌==◌, ◌≤◌, false, Option, none, some, List, [], ◌∷◌, ◌++◌, length, All, All-map, ◌≡◌,
  refl, sym, subst, ◌∙◌, arith, if◌then◌else◌, Bool-cases, inl, inr, ==_iff, ==_refl, ok, >>=-ok,
}
use evsieve.Event.{EventType, EventCode}
use evsieve.Capability.Codes.{CodeSet}
use evsieve.Capability.Device.{Capabilities}
use evsieve.Persist.Bytes.{u16_bytes, read_u16-u16_bytes, IsU16}
use evsieve.Persist.Encode.{
  sorted_event_codes_for_type, contains, code_bytes, u16_of, encode_event_block,
  encode_event_blocks, too_many_codes, InternalError,
}
use evsieve.Persist.Decode.{
  TypeCodes, find_codes, ev_max, max_code_of, decode_event_block, decode_event_blocks,
}
use evsieve.Persist.RoundTrip.{InBlock, decode_codes-code_bytes}
use evsieve.Persist.RoundTrip.Sorting.{AreDistinct, All-sorted}

pub u16_of_lem :
    (e : InternalError) (n : ℕ) (bytes : List ℕ)
    → u16_of e n ≡ ok bytes
    → IsU16 n × (u16_bytes n ≡ bytes)
u16_of_lem e n bytes h = elim (Bool-cases (ltb n 65536)) [
  | inl small ↦ let f = rw small at h in (ground (arith, small), cc)
  | inr large ↦ let f = rw large at h in cc
]

module _ (event_type_get_max : EventType → Option ℕ) where
  -- A code that the reader accepts: its type is at most `EV_MAX` and its number at most the largest of
  -- that type.
  abbrev pub IsStorableCode : EventCode → Type 0
  IsStorableCode c =
      (c.ev_type ≤ ev_max) × (c.code ≤ max_code_of event_type_get_max c.ev_type) × IsU16 c.code

  module _ (caps : Capabilities) (s : All IsStorableCode caps.codes) where
    sorted-InBlock :
        (t : EventType)
        → All (InBlock t (max_code_of event_type_get_max t)) (sorted_event_codes_for_type caps t)
    sorted-InBlock t =
        All-map _
          (λ c (same, (_, small, fits)).
            (same, subst (λ u. c.code ≤ max_code_of event_type_get_max u) same small, fits))
          (All-sorted IsStorableCode caps t s)

    pub decode_event_block-encode :
        (t : EventType) (bytes rest : List ℕ)
        → t ≤ ev_max
        → encode_event_block caps t ≡ ok bytes
        → decode_event_block event_type_get_max (bytes ++ rest)
          ≡ ok ((t, sorted_event_codes_for_type caps t), rest)
    unfolding decode_event_block encode_event_block
    decode_event_block-encode t bytes rest le h =
        let codes = sorted_event_codes_for_type caps t in
        let (num, e, h') = >>=-ok _ _ bytes h in
        let (small, written) = u16_of_lem (too_many_codes t) (length codes) num e in
        let whole : u16_bytes t ++ num ++ code_bytes codes ≡ bytes = cc in
        let fine : ltb ev_max t ≡ false = ground (arith, le) in
        rw (sym whole, sym written)
          (simp (
            append_assoc,
            read_u16-u16_bytes t _ (omega (arith, le)),
            fine,
            read_u16-u16_bytes (length codes) _ small,
            decode_codes-code_bytes t _ codes rest (sorted-InBlock t),
          ))

    -- The map that the loop makes.
    unfoldable pub extended : TypeCodes → List EventType → TypeCodes
    extended m [] = m
    extended m (t ∷ types) = extended ((t, sorted_event_codes_for_type caps t) ∷ m) types

    -- None of the types is in the map yet.
    unfoldable pub IsFresh : TypeCodes → List EventType → Type 0
    IsFresh m = All (λ u. find_codes m u ≡ none)

    IsFresh-step :
        (t : EventType) (codes : CodeSet) (m : TypeCodes) (types : List EventType)
        → contains types t ≡ false
        → IsFresh m types
        → IsFresh ((t, codes) ∷ m) types
    unfolding IsFresh find_codes
    IsFresh-step t codes m [] h f = tt
    IsFresh-step t codes m (u ∷ types) h (f, fs) =
        let differs : (t == u) ≡ false = ground (arith, h) in
        (rw differs f, IsFresh-step t codes m types (ground (arith, h)) fs)

    pub decode_event_blocks-encode :
        (m : TypeCodes) (types : List EventType) (bytes rest : List ℕ)
        → AreDistinct types
        → IsFresh m types
        → All (λ t. t ≤ ev_max) types
        → encode_event_blocks caps types ≡ ok bytes
        → decode_event_blocks event_type_get_max (length types) (bytes ++ rest) m
          ≡ ok (extended m types, rest)
    unfolding AreDistinct IsFresh decode_event_blocks encode_event_blocks extended
    decode_event_blocks-encode m [] bytes rest d f le h = let e : [] ≡ bytes = cc in rw (sym e) refl
    decode_event_blocks-encode m (t ∷ types) bytes rest (new, d) (f, fs) (l, le) h =
        let codes = sorted_event_codes_for_type caps t in
        let (block, e, h') = >>=-ok _ _ bytes h in
        let (blocks, e', h'') = >>=-ok _ _ bytes h' in
        let whole : block ++ blocks ≡ bytes = cc in
        let later =
          decode_event_blocks-encode ((t, codes) ∷ m) types blocks rest d
            (IsFresh-step t codes m types new fs) le e' in
        rw (sym whole, append_assoc, decode_event_block-encode t block (blocks ++ rest) l e, f)
          later

    pub find-extended :
        (m : TypeCodes) (types : List EventType) (u : EventType)
        → find_codes (extended m types) u
          ≡ (if contains types u then some (sorted_event_codes_for_type caps u) else find_codes m u)
    unfolding extended find_codes
    find-extended m [] u = refl
    find-extended m (t ∷ types) u =
        let codes = sorted_event_codes_for_type caps t in
        find-extended ((t, codes) ∷ m) types u ∙ elim (Bool-cases (t == u)) [
          | inr e ↦ rw e refl
          | inl e ↦
              let same = (==_iff t u).0 e in
              rw (same, ==_refl u)
                (elim (Bool-cases (contains types u)) [ inl h ↦ rw h refl | inr h ↦ rw h refl ])
        ]
