-- ===== src/Stream/Map/Covered/AllCaps.antt =====
-- The same for the loop over all capabilities, on every event that they offer.
use evsieve.Base.{
  ◌≡◌, refl, subst, ◌∙◌, true, false, some, List, [], ◌∷◌, ◌++◌, any-append, All, All-map,
  All-append, Option-cases, inl, inr, ||-cases, arith,
}
use evsieve.Platform.{Platform}
use evsieve.Event.{Event}
use evsieve.Capability.{Capability}
use evsieve.Capability.Aggregate.Coverage.{offered}
use evsieve.Capability.Aggregate.Normalized.{AreNormal}
use evsieve.Key
use evsieve.Key.{Key}
use evsieve.Stream.Map.{Map, apply_cap, apply_to_all_caps}
use evsieve.Stream.Map.Caps.{apply_cap-passes}
use evsieve.Stream.Map.Covered.{IsOffered, IsCoveredMap, one_cap, one_cap-AreNormal, allowing}

module _ ⦃p : Platform⦄ where
  -- The first capability, and the others.
  all_caps_lem :
      (m : Map p) (cap : Capability) (caps out : List Capability)
      → apply_to_all_caps m (cap ∷ caps) ≡ some out
      → (first : List Capability) × (rest : List Capability) × (apply_cap m cap ≡ some first)
        × (apply_to_all_caps m caps ≡ some rest)
        × (first ++ rest ≡ out)
  unfolding apply_to_all_caps
  all_caps_lem m cap caps out h = elim (Option-cases (apply_cap m cap)) [
    | inl e ↦ let f = rw (e, apply_to_all_caps) at h in cc
    | inr (first, e) ↦ elim (Option-cases (apply_to_all_caps m caps)) [
      | inl e' ↦ let f = rw (apply_to_all_caps, e, e') at h in cc
      | inr (rest, e') ↦ let f = rw (apply_to_all_caps, e, e') at h in (first, rest, e, e', cc)
    ]
  ]

  pub apply_to_all_caps-AreNormal :
      (m : Map p) (caps out : List Capability)
      → IsCoveredMap m
      → AreNormal caps
      → apply_to_all_caps m caps ≡ some out
      → AreNormal out
  unfolding apply_to_all_caps
  apply_to_all_caps-AreNormal m [] out ok n h = let e : [] ≡ out = cc in subst AreNormal e tt
  apply_to_all_caps-AreNormal m (cap ∷ caps) out ok (n, ns) h =
      let (first, rest, e, f, whole) = all_caps_lem m cap caps out h in
      subst AreNormal whole (
        All-append _ first rest (one_cap-AreNormal m cap first ok n e)
          (apply_to_all_caps-AreNormal m caps rest ok ns f))

  offered-left :
      (event : Event) (a b : List Capability)
      → offered event a ≡ true
      → offered event (a ++ b) ≡ true
  offered-left event a b h = any-append _ a b ∙ rw h refl

  offered-right :
      (event : Event) (a b : List Capability)
      → offered event b ≡ true
      → offered event (a ++ b) ≡ true
  offered-right event a b h = any-append _ a b ∙ rw h (ground arith)

  -- An event that is offered before is offered after, if the input key does not match it; if it does, all
  -- that the output keys make of it is offered.
  pub apply_to_all_caps-offers :
      (m : Map p) (event : Event) (caps out : List Capability)
      → IsCoveredMap m
      → AreNormal caps
      → IsOffered caps event
      → apply_to_all_caps m caps ≡ some out
      → (Key.matches m.input_key event ≡ false → IsOffered out event)
        × (Key.matches m.input_key event ≡ true
            → All (λ key. IsOffered out (Key.merge key event)) m.output_keys)
  unfolding apply_to_all_caps
  apply_to_all_caps-offers m event [] out ok n (h, fits) e = cc
  apply_to_all_caps-offers m event (cap ∷ caps) out ok (n, ns) (h, fits) e =
      let (first, rest, e1, e2, whole) = all_caps_lem m cap caps out e in
      elim (||-cases _ (offered event caps) h) [
        | inl here ↦
            let allows = allowing cap event n here in
            (
              λ off. (
                subst (λ l. offered event l ≡ true) whole
                    (offered-left event first rest
                      ((apply_cap-passes m cap event first (ok.0) allows fits off e1).1)),
                fits,
              ),
              λ on.
                  subst (λ l. All (λ key. IsOffered l (Key.merge key event)) m.output_keys) whole
                    (All-map m.output_keys
                      (λ key (x, y). (offered-left (Key.merge key event) first rest x, y))
                      (one_cap m cap event first ok (allows, fits) e1 on)),
            )
        | inr later ↦
            let (off, on) = apply_to_all_caps-offers m event caps rest ok ns (later, fits) e2 in
            (
              λ h0. (
                subst (λ l. offered event l ≡ true) whole
                    (offered-right event first rest ((off h0).0)),
                fits,
              ),
              λ h0.
                  subst (λ l. All (λ key. IsOffered l (Key.merge key event)) m.output_keys) whole
                    (All-map m.output_keys
                      (λ key (x, y). (offered-right (Key.merge key event) first rest x, y))
                      (on h0)),
            )
      ]
