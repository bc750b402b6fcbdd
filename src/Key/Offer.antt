-- ===== src/Key/Offer.antt =====
-- `Key::merge_cap` keeps up with `Key::merge`: what a capability allows, the merged capability allows
-- after merging. Affine factors are left out.
use evsieve.Base.{
  ◌≡◌, refl, subst, ◌∙◌, Bool, true, false, Option, none, some, List, [], ◌∷◌, any, All,
  Option-cases, inl, inr, ||-cases, arith, ℤ, IsI32,
}
use evsieve.Platform.{Platform}
use evsieve.Range.Interval
use evsieve.Range.Interval.{Interval, contains}
use evsieve.Range.Interval.Laws.{bound_range_image}
use evsieve.Range.Sets
use evsieve.Range.Sets.{Set}
use evsieve.Range.Sets.Normal.{member, IsValid, IsNormal, IsCanonical-IsNormal}
use evsieve.Range.Sets.Pairs.{member-intersect, IsNormal-All}
use evsieve.Range.Sets.Union.{member-map}
use evsieve.Event.{Event}
use evsieve.Capability.{Capability, Certainty, always}
use evsieve.Key.{
  Key, KeyProperty, of_code, of_domain, of_namespace, of_value, of_previous_value, of_type,
  of_virtual_type, affine_factor, property_merge, property_merge_cap, property_matches_cap,
  all_or_nothing, merge, merge_cap, merge_all, merge_cap_all, matches_cap, matches_cap_loop, narrow,
}
use evsieve.Key.Caps.{Allows, IsRanged}

bound_range-IsValid :
    (range i : Interval) → IsValid range → IsValid i → IsValid (Interval.bound_range range i)
unfolding Interval.bound_range Interval.intersect
bound_range-IsValid range i r h = ground arith

bound-IsI32 : (range : Interval) (v : ℤ) → IsValid range → IsI32 (Interval.bound range v)
unfolding Interval.bound
bound-IsI32 range v r = ground arith

-- The image of a member is a member of the images.
image-member :
    (range : Interval) (xs : List Interval) (v : ℤ)
    → IsValid range
    → All IsValid xs
    → member v xs ≡ true
    → any (λ i. member (Interval.bound range v) (Interval.bound_range range i ∷ [])) xs ≡ true
image-member range [] v r h m = m
image-member range (i ∷ xs) v r (hi, h) m = elim (||-cases (contains i v) (member v xs) m) [
  | inl here ↦ rw ((bound_range_image range i (r.2) (hi.2)).0 v here) refl
  | inr later ↦ let e = image-member range xs v r h later in ground (arith, e)
]

module _ ⦃p : Platform⦄ where
  -- The property is no affine factor, and its range is valid.
  abbrev pub IsPlain : KeyProperty p → Type 0
  IsPlain (of_value range) = IsValid range
  IsPlain (affine_factor f) = ⊥
  IsPlain _ = Unit

  -- The capability allows the event, whose value is an `i32`.
  abbrev pub Permits : Capability → Event → Type 0
  Permits cap event = Allows cap event × IsI32 event.value

  property_merge-Permits :
      (q : KeyProperty p) (cap : Capability) (event : Event)
      → IsPlain q
      → Permits cap event
      → Permits (property_merge_cap q cap) (property_merge q event)
  unfolding property_merge property_merge_cap
  property_merge-Permits (of_code c) cap event ok (h, v) = (
    record {
      same_code = refl;
      same_domain = h.same_domain;
      same_namespace = h.same_namespace;
      normal = h.normal;
      allowed = h.allowed;
    },
    v,
  )
  property_merge-Permits (of_domain d) cap event ok (h, v) = (
    record {
      same_code = h.same_code;
      same_domain = refl;
      same_namespace = h.same_namespace;
      normal = h.normal;
      allowed = h.allowed;
    },
    v,
  )
  property_merge-Permits (of_namespace n) cap event ok (h, v) = (
    record {
      same_code = h.same_code;
      same_domain = h.same_domain;
      same_namespace = refl;
      normal = h.normal;
      allowed = h.allowed;
    },
    v,
  )
  property_merge-Permits (of_value range) cap event ok (h, v) =
      let valid = IsNormal-All cap.values.intervals h.normal in
      let image =
        member-map cap.values (λ i. Interval.bound_range range i ∷ []) valid
          (λ i hi. (bound_range-IsValid range i ok hi, tt)) in
      (
        record {
          same_code = h.same_code;
          same_domain = h.same_domain;
          same_namespace = h.same_namespace;
          normal = IsCanonical-IsNormal _ (image.0);
          allowed =
              image.1 (Interval.bound range event.value)
              ∙ image-member range cap.values.intervals event.value ok valid h.allowed;
        },
        bound-IsI32 range event.value ok,
      )
  property_merge-Permits (of_previous_value range) cap event ok (h, v) = (
    record {
      same_code = h.same_code;
      same_domain = h.same_domain;
      same_namespace = h.same_namespace;
      normal = h.normal;
      allowed = h.allowed;
    },
    v,
  )
  property_merge-Permits (of_type t) cap event ok h = h
  property_merge-Permits (of_virtual_type t) cap event ok h = h
  property_merge-Permits (affine_factor f) cap event ok h = absurd ok

  merge_all-Permits :
      (qs : List (KeyProperty p)) (cap : Capability) (event : Event)
      → All IsPlain qs
      → Permits cap event
      → Permits (merge_cap_all qs cap) (merge_all qs event)
  merge_all-Permits [] cap event ok h = h
  merge_all-Permits (q ∷ qs) cap event (ok, oks) h =
      merge_all-Permits qs (property_merge_cap q cap) (property_merge q event) oks
        (property_merge-Permits q cap event ok h)

  pub merge-Permits :
      (key : Key p) (cap : Capability) (event : Event)
      → All IsPlain key.properties
      → Permits cap event
      → Permits (merge_cap key cap) (merge key event)
  unfolding merge merge_cap
  merge-Permits key cap event ok h = merge_all-Permits key.properties cap event ok h

  -- The same functions keep the sets normalized, with or without an event.
  property_merge_cap-IsNormal :
      (q : KeyProperty p) (cap : Capability)
      → IsPlain q
      → IsNormal cap.values.intervals
      → IsNormal (property_merge_cap q cap).values.intervals
  unfolding property_merge_cap
  property_merge_cap-IsNormal (of_value range) cap ok n = IsCanonical-IsNormal _ (
      (member-map cap.values (λ i. Interval.bound_range range i ∷ [])
        (IsNormal-All cap.values.intervals n) (λ i hi. (bound_range-IsValid range i ok hi, tt))).0)
  property_merge_cap-IsNormal (of_code c) cap ok n = n
  property_merge_cap-IsNormal (of_domain c) cap ok n = n
  property_merge_cap-IsNormal (of_namespace c) cap ok n = n
  property_merge_cap-IsNormal (of_previous_value c) cap ok n = n
  property_merge_cap-IsNormal (of_type c) cap ok n = n
  property_merge_cap-IsNormal (of_virtual_type c) cap ok n = n
  property_merge_cap-IsNormal (affine_factor c) cap ok n = absurd ok

  merge_cap_all-IsNormal :
      (qs : List (KeyProperty p)) (cap : Capability)
      → All IsPlain qs
      → IsNormal cap.values.intervals
      → IsNormal (merge_cap_all qs cap).values.intervals
  merge_cap_all-IsNormal [] cap ok n = n
  merge_cap_all-IsNormal (q ∷ qs) cap (ok, oks) n =
      merge_cap_all-IsNormal qs (property_merge_cap q cap) oks
        (property_merge_cap-IsNormal q cap ok n)

  pub merge_cap-IsNormal :
      (key : Key p) (cap : Capability)
      → All IsPlain key.properties
      → IsNormal cap.values.intervals
      → IsNormal (merge_cap key cap).values.intervals
  unfolding merge_cap
  merge_cap-IsNormal key cap ok n = merge_cap_all-IsNormal key.properties cap ok n

  IsNormalIf : Option (Certainty × Set) → Type 0
  IsNormalIf none = Unit
  IsNormalIf (some found) = IsNormal found.1.intervals

  all_or_nothing-IsNormalIf :
      (cap : Capability) (b : Bool)
      → IsNormal cap.values.intervals
      → IsNormalIf (some (all_or_nothing cap b))
  unfolding IsNormalIf Sets.empty
  all_or_nothing-IsNormalIf cap true n = n
  all_or_nothing-IsNormalIf cap false n = tt

  property_matches_cap-IsNormalIf :
      (q : KeyProperty p) (cap : Capability)
      → IsRanged q
      → IsNormal cap.values.intervals
      → IsNormalIf (property_matches_cap q cap)
  unfolding IsNormalIf property_matches_cap Sets.from_interval
  property_matches_cap-IsNormalIf (of_value range) cap ok n =
      IsCanonical-IsNormal _
        ((member-intersect (Sets.from_interval range) cap.values (ok, tt, tt) n).0)
  property_matches_cap-IsNormalIf (of_code c) cap ok n = all_or_nothing-IsNormalIf cap _ n
  property_matches_cap-IsNormalIf (of_domain c) cap ok n = all_or_nothing-IsNormalIf cap _ n
  property_matches_cap-IsNormalIf (of_namespace c) cap ok n = all_or_nothing-IsNormalIf cap _ n
  property_matches_cap-IsNormalIf (of_previous_value c) cap ok n = n
  property_matches_cap-IsNormalIf (of_type c) cap ok n = all_or_nothing-IsNormalIf cap _ n
  property_matches_cap-IsNormalIf (of_virtual_type c) cap ok n = all_or_nothing-IsNormalIf cap _ n
  property_matches_cap-IsNormalIf (affine_factor c) cap ok n = tt

  loop-IsNormalIf :
      (cap : Capability) (qs : List (KeyProperty p)) (acc : Certainty × Set)
      → All IsRanged qs
      → IsNormal cap.values.intervals
      → IsNormal acc.1.intervals
      → IsNormalIf (matches_cap_loop cap qs acc)
  unfolding matches_cap_loop IsNormalIf
  loop-IsNormalIf cap [] acc ok n m = m
  loop-IsNormalIf cap (q ∷ qs) acc (ok, oks) n m =
      elim (Option-cases (property_matches_cap q cap)) [
        | inl e ↦ rw (matches_cap_loop, e) tt
        | inr (found, e) ↦
            let told = subst IsNormalIf e (property_matches_cap-IsNormalIf q cap ok n) in
            rw (matches_cap_loop, e)
              (loop-IsNormalIf cap qs (narrow (acc.0) (acc.1) found) oks n
                (IsCanonical-IsNormal _ ((member-intersect (acc.1) (found.1) m told).0)))
      ]

  pub matched-IsNormal :
      (key : Key p) (cap : Capability) (certainty : Certainty) (values : Set)
      → All IsRanged key.properties
      → IsNormal cap.values.intervals
      → matches_cap key cap ≡ some (certainty, values)
      → IsNormal values.intervals
  unfolding matches_cap IsNormalIf
  matched-IsNormal key cap certainty values ok n e =
      subst IsNormalIf e (loop-IsNormalIf cap key.properties (always, cap.values) ok n n)
