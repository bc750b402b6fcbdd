-- ===== src/Stream/Map/Covered.antt =====
-- The capabilities that a `Map` or a `Toggle` announces cover the events that it writes.
pub mod AllCaps
use evsieve.Base.{
  ◌≡◌, refl, sym, ap, subst, ◌∙◌, Bool, true, false, not, ◌||◌, ◌&&◌, Option, none, some, List, [],
  ◌∷◌, ◌++◌, any, any-append, map, retain, All, All-map, All-append, Option-cases, Bool-cases, inl,
  inr, ||-cases, arith, ==_refl, ==_iff, ◌==◌, &&_left, &&_right, get_elem?, ℕ, zero, suc, IsI32,
  if◌then◌else◌,
}
use evsieve.Platform.{Platform}
use evsieve.Range.Sets
use evsieve.Range.Sets.{Set}
use evsieve.Range.Sets.Normal.{member, IsNormal, IsCanonical-IsNormal}
use evsieve.Range.Sets.Algebra.{member-setminus, nonempty_of_member}
use evsieve.Event.{Event, code_eq, namespace_eq}
use evsieve.Event.Equality.{code_eq_refl, code_eq-eq, namespace_eq_refl, namespace_eq-eq}
use evsieve.Capability.{Capability, Certainty, always, maybe, with_values}
use evsieve.Capability.Aggregate.Coverage.{offered, concerns}
use evsieve.Capability.Aggregate.Normalized.{AreNormal}
use evsieve.Key
use evsieve.Key.{Key}
use evsieve.Key.Caps.{Allows, IsRanged, matches_cap-of-matches}
use evsieve.Key.Offer.{IsPlain, Permits, merge-Permits, merge_cap-IsNormal, matched-IsNormal}
use evsieve.Stream.Map.{
  Map, apply, apply_cap, apply_to_all_caps, caps_for, push_nonempty, nonmatching,
}
use evsieve.Stream.Map.Caps.{apply_cap-passes}

-- Some capability allows the event, whose value is an `i32`.
abbrev pub IsOffered : List Capability → Event → Type 0
IsOffered caps event = (offered event caps ≡ true) × IsI32 event.value

concerned : (cap : Capability) (event : Event) → Allows cap event → concerns cap event ≡ true
concerned cap event h =
    rw
      (
        h.same_code,
        h.same_domain,
        h.same_namespace,
        code_eq_refl cap.code,
        ==_refl cap.domain,
        namespace_eq_refl cap.namespace,
      )
      refl

pub allowing :
    (cap : Capability) (event : Event)
    → IsNormal cap.values.intervals
    → (concerns cap event && member event.value cap.values.intervals) ≡ true
    → Allows cap event
allowing cap event n h =
    let both = &&_left (concerns cap event) (member event.value cap.values.intervals) h in
    record {
      same_code = code_eq-eq event.code cap.code (ground (arith, both));
      same_domain = (==_iff event.domain cap.domain).0 (ground (arith, both));
      same_namespace = namespace_eq-eq event.namespace cap.namespace (ground (arith, both));
      normal = n;
      allowed = &&_right (concerns cap event) (member event.value cap.values.intervals) h;
    }

abbrev nonempty : Capability → Bool
nonempty c = not (Sets.is_empty c.values)

offered-nonempty :
    (event : Event) (caps : List Capability)
    → offered event (retain nonempty caps) ≡ offered event caps
offered-nonempty event [] = refl
offered-nonempty event (c ∷ caps) = elim (Bool-cases (member event.value c.values.intervals)) [
  | inl m ↦ rw (nonempty_of_member event.value c.values m, offered-nonempty event caps) refl
  | inr m ↦ elim (Bool-cases (Sets.is_empty c.values)) [
    | inl e ↦ rw (e, m, offered-nonempty event caps) (ground arith)
    | inr e ↦ rw (e, m, offered-nonempty event caps) refl
  ]
]

retain-AreNormal :
    (q : Capability → Bool) (caps : List Capability) → AreNormal caps → AreNormal (retain q caps)
retain-AreNormal q [] n = tt
retain-AreNormal q (c ∷ caps) (n, ns) = elim (Bool-cases (q c)) [
  | inl e ↦ rw e (n, retain-AreNormal q caps ns)
  | inr e ↦ rw e (retain-AreNormal q caps ns)
]

module _ ⦃p : Platform⦄ where
  push_nonempty-AreNormal :
      (c : Capability) (caps : List Capability)
      → IsNormal c.values.intervals
      → AreNormal caps
      → AreNormal (push_nonempty c caps)
  push_nonempty-AreNormal c caps n ns = elim (Bool-cases (Sets.is_empty c.values)) [
    | inl e ↦ rw e ns
    | inr e ↦ rw e (n, ns)
  ]

  offered-push :
      (event : Event) (c : Capability) (caps : List Capability)
      → offered event caps ≡ true
      → offered event (push_nonempty c caps) ≡ true
  offered-push event c caps h = elim (Bool-cases (Sets.is_empty c.values)) [
    | inl e ↦ rw e h
    | inr e ↦ rw (e, h) (ground arith)
  ]

  -- Keys that only replace parts of an event, or bound its value.
  abbrev pub ArePlain : List (Key p) → Type 0
  ArePlain = All (λ key. All IsPlain key.properties)

  abbrev pub IsCoveredMap : Map p → Type 0
  IsCoveredMap m = All IsRanged m.input_key.properties × ArePlain m.output_keys

  -- For each output key, the merged event and the merged capabilities.
  merged_offers :
      (cap : Capability) (event : Event) (keys : List (Key p))
      → ArePlain keys
      → Permits cap event
      → All (λ key. IsOffered (map (λ k. Key.merge_cap k cap) keys) (Key.merge key event)) keys
  merged_offers cap event [] ok h = tt
  merged_offers cap event (key ∷ keys) (ok, oks) h =
      let (allows, fits) = merge-Permits key cap event ok h in
      (
        (rw (concerned _ _ allows, allows.allowed) refl, fits),
        All-map keys (λ k (e, f). (rw e (ground arith), f)) (merged_offers cap event keys oks h),
      )

  merged-AreNormal :
      (cap : Capability) (keys : List (Key p))
      → ArePlain keys
      → IsNormal cap.values.intervals
      → AreNormal (map (λ k. Key.merge_cap k cap) keys)
  merged-AreNormal cap [] ok n = tt
  merged-AreNormal cap (key ∷ keys) (ok, oks) n =
      (merge_cap-IsNormal key cap ok n, merged-AreNormal cap keys oks n)

  nonmatching-IsNormal :
      (certainty : Certainty) (cap : Capability) (values : Set)
      → IsNormal cap.values.intervals
      → IsNormal values.intervals
      → IsNormal (nonmatching certainty cap (Sets.setminus cap.values values)).values.intervals
  nonmatching-IsNormal maybe cap values n k = n
  nonmatching-IsNormal always cap values n k =
      IsCanonical-IsNormal _ ((member-setminus cap.values values n k).0)

  caps_for-AreNormal :
      (m : Map p) (cap : Capability) (certainty : Certainty) (values : Set)
      → IsCoveredMap m
      → IsNormal cap.values.intervals
      → IsNormal values.intervals
      → AreNormal (caps_for m cap (certainty, values))
  unfolding caps_for
  caps_for-AreNormal m cap certainty values ok n k =
      push_nonempty-AreNormal _ _ (nonmatching-IsNormal certainty cap values n k) (
        retain-AreNormal nonempty _
          (merged-AreNormal (with_values cap values) m.output_keys (ok.1) k))

  matched_caps :
      (m : Map p) (cap : Capability) (event : Event) (certainty : Certainty) (values : Set)
      → IsCoveredMap m
      → Permits cap event
      → IsNormal values.intervals
      → member event.value values.intervals ≡ true
      → All
          (λ key. IsOffered (caps_for m cap (certainty, values)) (Key.merge key event))
          m.output_keys
  unfolding caps_for
  matched_caps m cap event certainty values ok (h, fits) n there =
      let within = with_values cap values in
      let permits : Permits within event = (
        record {
          same_code = h.same_code;
          same_domain = h.same_domain;
          same_namespace = h.same_namespace;
          normal = n;
          allowed = there;
        },
        fits,
      ) in
      All-map m.output_keys
        (λ key (e, f). (
          offered-push (Key.merge key event) _ _ (
              offered-nonempty (Key.merge key event)
                (map (λ k. Key.merge_cap k within) m.output_keys)
              ∙ e),
          f,
        ))
        (merged_offers within event m.output_keys (ok.1) permits)

  apply_cap_lem :
      (m : Map p) (cap : Capability) (caps : List Capability)
      → apply_cap m cap ≡ some caps
      → (certainty : Certainty) × (values : Set) × (Key.matches_cap m.input_key cap
          ≡ some (certainty, values))
        × (caps_for m cap (certainty, values) ≡ caps)
  unfolding apply_cap
  apply_cap_lem m cap caps h = elim (Option-cases (Key.matches_cap m.input_key cap)) [
    | inl e ↦ let f = rw (e, apply_cap) at h in cc
    | inr ((certainty, values), e) ↦ let f = rw (e, apply_cap) at h in (certainty, values, e, cc)
  ]

  -- Where the input key matches, all that the output keys can make of the event.
  pub one_cap :
      (m : Map p) (cap : Capability) (event : Event) (caps : List Capability)
      → IsCoveredMap m
      → Permits cap event
      → apply_cap m cap ≡ some caps
      → Key.matches m.input_key event ≡ true
      → All (λ key. IsOffered caps (Key.merge key event)) m.output_keys
  one_cap m cap event caps ok h made on =
      let (certainty, values, e, made') = apply_cap_lem m cap caps made in
      let (n, there) =
        matches_cap-of-matches m.input_key cap event certainty values (ok.0) (h.0) on e in
      subst (λ c. All (λ key. IsOffered c (Key.merge key event)) m.output_keys) made'
        (matched_caps m cap event certainty values ok h n there)

  pub one_cap-AreNormal :
      (m : Map p) (cap : Capability) (caps : List Capability)
      → IsCoveredMap m
      → IsNormal cap.values.intervals
      → apply_cap m cap ≡ some caps
      → AreNormal caps
  one_cap-AreNormal m cap caps ok n made =
      let (certainty, values, e, made') = apply_cap_lem m cap caps made in
      subst AreNormal made' (
        caps_for-AreNormal m cap certainty values ok n
          (matched-IsNormal m.input_key cap certainty values (ok.0) n e))
