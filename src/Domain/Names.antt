-- ===== src/Domain/Names.antt =====
-- The tracker is a partial bijection between names and the domains that it has handed out.
use evsieve.Base.{
  ◌≡◌, refl, ap, subst, List, [], ◌∷◌, ℕ, ◌<◌, ◌==◌, ==_refl, none, some, Text, text_eq,
  text_eq_refl, text_eq-eq, Option-cases, Bool-cases, inl, inr, arith,
}
use evsieve.Domain.{
  DomainTracker, ok, new, find_name, find_domain, get_unique_domain, check_name, register, resolve,
  try_reverse_resolve,
}

-- A name has a domain exactly when that domain has the name, and all domains were handed out.
pub record IsTracker (t : DomainTracker) : Type 0 where
  pub named :
      (name : Text) (d : ℕ)
      → find_name t.name_map name ≡ some d
      → find_domain t.reverse_name_map d ≡ some name
  pub known :
      (name : Text) (d : ℕ)
      → find_domain t.reverse_name_map d ≡ some name
      → find_name t.name_map name ≡ some d
  pub bounded : (name : Text) (d : ℕ) → find_domain t.reverse_name_map d ≡ some name → d < t.counter

pub new-IsTracker : IsTracker new
new-IsTracker = record { named = λ name d h. cc; known = λ name d h. cc; bounded = λ name d h. cc }

module _ (t : DomainTracker) (name : Text) (i : IsTracker t)
    (fresh : find_name t.name_map name ≡ none) where
  registered : DomainTracker
  unfolding register get_unique_domain
  registered = (register t name).1

  registered-named :
      (other : Text) (d : ℕ)
      → find_name registered.name_map other ≡ some d
      → find_domain registered.reverse_name_map d ≡ some other
  unfolding registered register get_unique_domain
  registered-named other d h = elim (Bool-cases (text_eq name other)) [
    | inl same ↦
        let there : t.counter ≡ d = ap (λ o. elim o [ some x ↦ x | none ↦ d ]) (rw same at h) in
        rw (← there, ==_refl t.counter) (ap some (text_eq-eq name other same))
    | inr differs ↦
        let old = rw differs at h in
        let back = i.named other d old in let below = i.bounded other d back in ground (arith, back)
  ]

  registered-known :
      (other : Text) (d : ℕ)
      → find_domain registered.reverse_name_map d ≡ some other
      → find_name registered.name_map other ≡ some d
  unfolding registered register get_unique_domain
  registered-known other d h = elim (Bool-cases (t.counter == d)) [
    | inl same ↦
        let there : name ≡ other = ap (λ o. elim o [ some x ↦ x | none ↦ other ]) (rw same at h) in
        ground (arith, text_eq_refl name, same, there)
    | inr differs ↦
        let back = i.known other d (rw differs at h) in
        elim (Bool-cases (text_eq name other)) [
          | inl same ↦ let e = text_eq-eq name other same in cc
          | inr other_name ↦ rw other_name back
        ]
  ]

  registered-bounded :
      (other : Text) (d : ℕ)
      → find_domain registered.reverse_name_map d ≡ some other
      → d < registered.counter
  unfolding registered register get_unique_domain
  registered-bounded other d h = elim (Bool-cases (t.counter == d)) [
    | inl same ↦ ground (arith, same)
    | inr differs ↦ let below = i.bounded other d (rw differs at h) in omega arith
  ]

  registered-IsTracker : IsTracker registered
  registered-IsTracker = record {
    named = registered-named;
    known = registered-known;
    bounded = registered-bounded;
  }

  registered-name : find_name registered.name_map name ≡ some t.counter
  unfolding registered register get_unique_domain
  registered-name = rw (text_eq_refl name)

  registered_keeps :
      (other : Text) (d : ℕ)
      → find_name t.name_map other ≡ some d
      → find_name registered.name_map other ≡ some d
  unfolding registered register get_unique_domain
  registered_keeps other d h = elim (Bool-cases (text_eq name other)) [
    | inl same ↦
        let gone = subst (λ n. find_name t.name_map n ≡ none) (text_eq-eq name other same) fresh in
        cc
    | inr differs ↦ rw differs h
  ]

-- What holds of a tracker `t'` that is made of `t`: it is well formed, and no name of `t` has lost its
-- domain.
Keeps : DomainTracker → DomainTracker → Type 0
Keeps t t' =
    IsTracker t'
    × ((name : Text) (d : ℕ)
        → find_name t.name_map name ≡ some d
        → find_name t'.name_map name ≡ some d)

resolve-Keeps : (t : DomainTracker) (name : Text) → IsTracker t → Keeps t ((resolve t name).1)
unfolding resolve registered Keeps
resolve-Keeps t name i = elim (Option-cases (check_name name)) [
  | inr (e, invalid) ↦ rw (resolve, invalid) (i, λ other d h. h)
  | inl valid ↦ elim (Option-cases (find_name t.name_map name)) [
    | inr (d, e) ↦ rw (resolve, valid, e) (i, λ other d h. h)
    | inl e ↦
        rw (resolve, valid, e, register)
          (registered-IsTracker t name i e, registered_keeps t name i e)
  ]
]

-- The tracker after it has resolved these names, in order.
abbrev pub resolve_all : DomainTracker → List Text → DomainTracker
resolve_all t [] = t
resolve_all t (name ∷ names) = resolve_all ((resolve t name).1) names

resolve_all-Keeps :
    (t : DomainTracker) (names : List Text) → IsTracker t → Keeps t (resolve_all t names)
unfolding Keeps
resolve_all-Keeps t [] i = (i, λ other d h. h)
resolve_all-Keeps t (name ∷ names) i =
    let first = resolve-Keeps t name i in
    let rest = resolve_all-Keeps ((resolve t name).1) names (first.0) in
    (rest.0, λ other d h. rest.1 other d (first.1 other d h))

-- A name that has a domain has it after any names are resolved.
resolved_for_ever :
    (t : DomainTracker) (name : Text) (d : ℕ)
    → IsTracker t
    → check_name name ≡ none
    → find_name t.name_map name ≡ some d
    → (names : List Text)
    → (let later = resolve_all t names in
        (resolve later name ≡ (ok d, later)) × (try_reverse_resolve later d ≡ some name))
unfolding resolve try_reverse_resolve Keeps
resolved_for_ever t name d i valid there names =
    let kept = resolve_all-Keeps t names i in
    let found = kept.1 name d there in (rw (resolve, valid, found), (kept.0).named name d found)

-- A valid name gets a domain: the tracker stays a partial bijection in which every earlier name has
-- the domain it had, and whatever names are resolved after it, the name resolves to that domain with
-- no further change and the domain resolves back to the name.
pub resolve_lem :
    (t : DomainTracker) (name : Text)
    → IsTracker t
    → check_name name ≡ none
    → (d : ℕ) × (t' : DomainTracker) × (resolve t name ≡ (ok d, t'))
      × IsTracker t'
      × ((other : Text) (e : ℕ)
          → find_name t.name_map other ≡ some e
          → find_name t'.name_map other ≡ some e)
      × ((names : List Text)
          → (let later = resolve_all t' names in
              (resolve later name ≡ (ok d, later)) × (try_reverse_resolve later d ≡ some name)))
unfolding resolve registered
resolve_lem t name i valid = elim (Option-cases (find_name t.name_map name)) [
  | inr (d, e) ↦
      (d, t, rw (resolve, valid, e), i, λ other e' h. h, resolved_for_ever t name d i valid e)
  | inl e ↦
      let t' = registered t name i e in
      let tracker = registered-IsTracker t name i e in
      (
        t.counter,
        t',
        rw (resolve, valid, e, register),
        tracker,
        registered_keeps t name i e,
        resolved_for_ever t' name t.counter tracker valid (registered-name t name i e),
      )
]

-- A unique domain is one that no name has, and the names stay as they are.
pub get_unique_domain_lem :
    (t : DomainTracker)
    → IsTracker t
    → (let d = (get_unique_domain t).0 in
        let t' = (get_unique_domain t).1 in
        IsTracker t'
        × (try_reverse_resolve t' d ≡ none)
        × ((name : Text) → find_name t'.name_map name ≡ find_name t.name_map name))
unfolding get_unique_domain try_reverse_resolve
get_unique_domain_lem t i = (
  record {
    named = i.named;
    known = i.known;
    bounded = λ name d h. let below = i.bounded name d h in omega arith;
  },
  elim (Option-cases (find_domain t.reverse_name_map t.counter)) [
    | inl e ↦ e
    | inr (name, e) ↦ let below = i.bounded name t.counter e in absurd (omega arith)
  ],
  λ name. refl,
)
