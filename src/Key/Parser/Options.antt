-- ===== src/Key/Parser/Options.antt =====
-- The options of `KeyParser`, and its errors.
use evsieve.Base.{
  ℕ, ◌==◌, leb, Bool, true, false, ◌&&◌, Option, none, some, List, [], ◌∷◌, if◌then◌else◌, Text,
}
use evsieve.Event.{EventType, Namespace, user}
use evsieve.Domain.{DomainError}
use evsieve.Ecodes.{NameError}

-- The messages, as values.
pub data ArgumentError : Type 0 where
  ends_on_colon : ArgumentError
  too_many_colons : ArgumentError
  code_without_type : ArgumentError
  bad_name : NameError → ArgumentError
  syn_type : ArgumentError
  type_not_allowed : ArgumentError
  no_code : ArgumentError
  values_not_allowed : ArgumentError
  relative_values_not_allowed : ArgumentError
  ranges_not_allowed : ArgumentError
  no_integer : ArgumentError
  reversed_range : ArgumentError
  transitions_not_allowed : ArgumentError
  domains_not_allowed : ArgumentError
  bad_domain : DomainError → ArgumentError

pub record KeyParser : Type 0 where
  pub default_value : Text
  pub allow_values : Bool
  pub allow_transitions : Bool
  pub allow_ranges : Bool
  pub allow_domains : Bool
  pub allow_types : Bool
  pub allow_relative_values : Bool
  pub type_whitelist : Option (List EventType)
  pub namespace : Namespace

abbrev pub default_filter : KeyParser
default_filter = record {
  default_value = [];
  allow_values = true;
  allow_transitions = true;
  allow_ranges = true;
  allow_domains = true;
  allow_types = true;
  allow_relative_values = false;
  type_whitelist = none;
  namespace = user;
}

abbrev pub default_mask : KeyParser
default_mask = record {
  default_value = [];
  allow_values = true;
  allow_transitions = false;
  allow_ranges = true;
  allow_domains = true;
  allow_types = false;
  allow_relative_values = true;
  type_whitelist = none;
  namespace = user;
}

-- `KeyParser::pure`.
abbrev pub pure_filter : KeyParser
pure_filter = record {
  default_value = [];
  allow_values = false;
  allow_transitions = false;
  allow_ranges = false;
  allow_domains = true;
  allow_types = true;
  allow_relative_values = false;
  type_whitelist = none;
  namespace = user;
}

-- The parser of `resembles_key`, which allows everything.
abbrev pub lenient : KeyParser
lenient = record default_filter { allow_relative_values = true }

unfoldable pub with_namespace : KeyParser → Namespace → KeyParser
with_namespace parser namespace = record parser { namespace = namespace }

abbrev pub starts_with : ℕ → Text → Bool
starts_with d [] = false
starts_with d (c ∷ cs) = c == d

-- Two lists of types, sorted and without duplicates.
unfoldable pub insert_type : EventType → List EventType → List EventType
insert_type t [] = t ∷ []
insert_type t (u ∷ types) =
    let later = insert_type t types in
    if t == u then u ∷ types else if leb t u then t ∷ u ∷ types else u ∷ later

unfoldable pub joined : List EventType → List EventType → List EventType
unfolding insert_type
joined [] others = others
joined (t ∷ types) others = insert_type t (joined types others)

abbrev pub merged_whitelist :
    Option (List EventType) → Option (List EventType) → Option (List EventType)
merged_whitelist none whitelist = whitelist
merged_whitelist (some list_1) none = some list_1
merged_whitelist (some list_1) (some list_2) = some (joined list_1 (joined list_2 []))

unfoldable pub and_filter : KeyParser → KeyParser → KeyParser
unfolding joined
and_filter self other = record {
  default_value = self.default_value;
  allow_values = self.allow_values && other.allow_values;
  allow_transitions = self.allow_transitions && other.allow_transitions;
  allow_ranges = self.allow_ranges && other.allow_ranges;
  allow_domains = self.allow_domains && other.allow_domains;
  allow_types = self.allow_types && other.allow_types;
  allow_relative_values = self.allow_relative_values && other.allow_relative_values;
  type_whitelist = merged_whitelist self.type_whitelist other.type_whitelist;
  namespace = self.namespace;
}
