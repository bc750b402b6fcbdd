-- ===== src/Capability/Codes.antt =====
-- `HashSet<EventCode>` and `HashMap<EventCode, V>` as lists. The order of a hash map is not fixed; where
-- the source sorts, so does the model.
use evsieve.Base.{
  ltb, ◌==◌, Bool, ◌&&◌, ◌||◌, not, Option, none, some, List, [], ◌∷◌, any, all, retain, length,
  if◌then◌else◌,
}
use evsieve.Event.{EventCode, code_eq}

abbrev pub CodeSet : Type 0
CodeSet = List EventCode

abbrev pub CodeMap {ℓ} : Type ℓ → Type ℓ
CodeMap V = List (EventCode × V)

abbrev pub has : CodeSet → EventCode → Bool
has codes c = any (λ d. code_eq d c) codes

unfoldable pub insert_code : CodeSet → EventCode → CodeSet
insert_code codes c = if has codes c then codes else c ∷ codes

unfoldable pub remove_code : CodeSet → EventCode → CodeSet
remove_code codes c = retain (λ d. not (code_eq d c)) codes

abbrev pub is_subset : CodeSet → CodeSet → Bool
is_subset codes others = all (has others) codes

-- `HashSet::eq`.
abbrev pub code_set_eq : CodeSet → CodeSet → Bool
code_set_eq a b = length a == length b && is_subset a b

-- The derived order: by type, then by code.
abbrev pub code_le : EventCode → EventCode → Bool
code_le a b = ltb a.ev_type b.ev_type || (a.ev_type == b.ev_type && not (ltb b.code a.code))

module _ {ℓ} {V : Type ℓ} where
  unfoldable pub get : CodeMap V → EventCode → Option V
  get [] c = none
  get ((d, v) ∷ m) c = if code_eq d c then some v else get m c

  unfoldable pub remove : CodeMap V → EventCode → CodeMap V
  remove [] c = []
  remove ((d, v) ∷ m) c = let rest = remove m c in if code_eq d c then rest else (d, v) ∷ rest

  unfoldable pub insert : CodeMap V → EventCode → V → CodeMap V
  unfolding remove
  insert m c v = (c, v) ∷ remove m c

  insert_sorted : EventCode × V → CodeMap V → CodeMap V
  insert_sorted e [] = e ∷ []
  insert_sorted e (f ∷ rest) = if code_le e.0 f.0 then e ∷ f ∷ rest else f ∷ insert_sorted e rest

  -- `sort_by_key`.
  unfoldable pub sort_by_code : CodeMap V → CodeMap V
  unfolding insert_sorted
  sort_by_code [] = []
  sort_by_code (e ∷ rest) = insert_sorted e (sort_by_code rest)
