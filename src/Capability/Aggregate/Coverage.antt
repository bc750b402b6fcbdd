-- ===== src/Capability/Aggregate/Coverage.antt =====
-- Aggregation neither adds nor loses an event: a list of capabilities allows just the same ones after it.
use evsieve.Base.{
  ◌≡◌, refl, sym, ap, ◌∙◌, ◌==◌, Bool, true, ◌&&◌, ◌||◌, List, [], ◌∷◌, any, map, All, Bool-cases,
  inl, inr, arith, or-false, or_assoc,
}
use evsieve.Range.Sets
use evsieve.Range.Sets.{Set}
use evsieve.Range.Sets.Normal.{member, IsValid, IsCanonical-IsNormal}
use evsieve.Range.Sets.Pairs.{IsNormal-All}
use evsieve.Range.Sets.Union.{member-union}
use evsieve.Event.{Event, code_eq, namespace_eq}
use evsieve.Capability.{Capability, with_values}
use evsieve.Capability.Aggregate.{capability_eq, record_values, record_all, aggregate_capabilities}

-- The capability is for the code, domain and namespace of the event.
abbrev pub concerns : Capability → Event → Bool
concerns c e = code_eq e.code c.code && e.domain == c.domain && namespace_eq e.namespace c.namespace

-- Some capability of the list is for the event, and has its value.
abbrev pub offered : Event → List Capability → Bool
offered e = any (λ c. concerns c e && member e.value c.values.intervals)

offered_entries : Event → List (Capability × Set) → Bool
offered_entries e = any (λ (c, values). concerns c e && member e.value values.intervals)

offered-map :
    (e : Event) (entries : List (Capability × Set))
    → offered e (map (λ (key, values). with_values key values) entries) ≡ offered_entries e entries
unfolding offered_entries
offered-map e [] = refl
offered-map e (entry ∷ entries) =
    ap (λ b. (concerns (entry.0) e && member e.value (entry.1).intervals) || b)
      (offered-map e entries)

HasValid : List (Capability × Set) → Type 0
HasValid = All (λ entry. All IsValid (entry.1).intervals)

concerns-capability_eq :
    (a b : Capability) (e : Event) → capability_eq a b ≡ true → concerns a e ≡ concerns b e
unfolding capability_eq
concerns-capability_eq a b e h = ground arith

distribute : (c m n r : Bool) → ((c && (m || n)) || r) ≡ (((c && m) || r) || (c && n))
distribute c m n r = ground arith

record_values_lem :
    (e : Event) (entries : List (Capability × Set)) (key : Capability) (values : Set)
    → HasValid entries
    → All IsValid values.intervals
    → HasValid (record_values entries key values)
      × (offered_entries e (record_values entries key values)
          ≡ (offered_entries e entries || (concerns key e && member e.value values.intervals)))
unfolding record_values HasValid offered_entries
record_values_lem e [] key values h v =
    ((v, tt), or-false (concerns key e && member e.value values.intervals))
record_values_lem e ((other, recorded_values) ∷ rest) key values h v =
    elim (Bool-cases (capability_eq other key)) [
      | inl same ↦
          let both = member-union recorded_values values (h.0) v in
          let m = member e.value recorded_values.intervals in
          let n = member e.value values.intervals in
          let r = offered_entries e rest in
          rw same (
            (IsNormal-All _ (IsCanonical-IsNormal _ (both.0)), h.1),
            ap (λ x. (concerns other e && x) || r) (both.1 e.value)
                ∙ distribute (concerns other e) m n r
                ∙ ap (λ c. ((concerns other e && m) || r) || (c && n))
                    (concerns-capability_eq other key e same),
          )
      | inr differs ↦
          let later = record_values_lem e rest key values (h.1) v in
          let first = concerns other e && member e.value recorded_values.intervals in
          rw differs (
            (h.0, later.0),
            ap (λ x. first || x) (later.1)
                ∙ sym (
                    or_assoc first (offered_entries e rest)
                      (concerns key e && member e.value values.intervals)),
          )
    ]

record_all_lem :
    (e : Event) (entries : List (Capability × Set)) (caps : List Capability)
    → HasValid entries
    → All (λ c. All IsValid c.values.intervals) caps
    → offered_entries e (record_all entries caps) ≡ (offered_entries e entries || offered e caps)
unfolding record_all
record_all_lem e entries [] h v = sym (or-false (offered_entries e entries))
record_all_lem e entries (cap ∷ caps) h v =
    let key = with_values cap Sets.empty in
    let one = record_values_lem e entries key cap.values h (v.0) in
    record_all_lem e (record_values entries key cap.values) caps (one.0) (v.1)
    ∙ ap (λ x. x || offered e caps) (one.1)
    ∙ or_assoc (offered_entries e entries) (concerns cap e && member e.value cap.values.intervals)
        (offered e caps)

-- For capabilities with sets of valid intervals, every event is allowed by the aggregated list exactly
-- when it is allowed by the list.
pub offered-aggregate_capabilities :
    (e : Event) (caps : List Capability)
    → All (λ c. All IsValid c.values.intervals) caps
    → offered e (aggregate_capabilities caps) ≡ offered e caps
unfolding aggregate_capabilities offered_entries HasValid
offered-aggregate_capabilities e caps v =
    offered-map e (record_all [] caps) ∙ record_all_lem e [] caps tt v
