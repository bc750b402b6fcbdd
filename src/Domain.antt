-- ===== src/Domain.antt =====
-- src/domain.rs: the tracker that turns names into domains and back. The two hash maps are association
-- lists, whose order is not seen; a counter of type `usize` is unbounded.
pub mod Names
use evsieve.Base.{
  ℕ, suc, ◌==◌, Bool, Option, none, some, List, [], ◌∷◌, Text, text_eq, if◌then◌else◌,
}

pub data DomainError : Type 0 where
  starts_with_at : DomainError
  empty : DomainError

pub data DomainResult : Type 0 where
  ok : ℕ → DomainResult
  err : DomainError → DomainResult

pub record DomainTracker : Type 0 where
  pub name_map : List (Text × ℕ)
  pub reverse_name_map : List (ℕ × Text)
  pub counter : ℕ

abbrev pub new : DomainTracker
new = record { name_map = []; reverse_name_map = []; counter = 0 }

-- `HashMap::get` of the two maps.
abbrev pub find_name : List (Text × ℕ) → Text → Option ℕ
find_name [] name = none
find_name ((other, domain) ∷ rest) name =
    if text_eq other name then some domain else find_name rest name

abbrev pub find_domain : List (ℕ × Text) → ℕ → Option Text
find_domain [] domain = none
find_domain ((other, name) ∷ rest) domain =
    if other == domain then some name else find_domain rest domain

unfoldable pub get_unique_domain : DomainTracker → ℕ × DomainTracker
get_unique_domain t = (t.counter, record t { counter = suc t.counter })

abbrev pub check_name : Text → Option DomainError
check_name [] = some empty
check_name (c ∷ cs) = if c == b'@' then some starts_with_at else none

-- A name that is not known yet gets a new domain.
register : DomainTracker → Text → ℕ × DomainTracker
unfolding get_unique_domain
register t name =
    let (new_domain, t') = get_unique_domain t in
    (
      new_domain,
      record t' {
        name_map = (name, new_domain) ∷ t'.name_map;
        reverse_name_map = (new_domain, name) ∷ t'.reverse_name_map;
      },
    )

abbrev found_or_new : DomainTracker → Text → Option ℕ → DomainResult × DomainTracker
found_or_new t name (some domain) = (ok domain, t)
found_or_new t name none = let (domain, t') = register t name in (ok domain, t')

unfoldable pub resolve : DomainTracker → Text → DomainResult × DomainTracker
unfolding register
resolve t name = elim (check_name name) [
  | some e ↦ (err e, t)
  | none ↦ found_or_new t name (find_name t.name_map name)
]

unfoldable pub try_reverse_resolve : DomainTracker → ℕ → Option Text
try_reverse_resolve t domain = find_domain t.reverse_name_map domain
