-- ===== src/Key/Parser/Both.antt =====
-- `KeyParser::and_filter`, whose comment says that it takes only keys that both parsers take.
use evsieve.Base.{◌≡◌, refl, ap, ◌∙◌, ◌==◌, ◌||◌, or-false, some, List, [], ◌∷◌, any, arith}
use evsieve.Event.{EventType}
use evsieve.Key.Parser.{KeyParser, and_filter, is_listed, insert_type, joined}

any-insert_type :
    (t u : EventType) (types : List EventType)
    → any (λ v. v == u) (insert_type t types) ≡ (t == u || any (λ v. v == u) types)
unfolding insert_type
any-insert_type t u [] = refl
any-insert_type t u (v ∷ types) = ground (arith, any-insert_type t u types)

any-joined :
    (types others : List EventType) (u : EventType)
    → any (λ v. v == u) (joined types others)
      ≡ (any (λ v. v == u) types || any (λ v. v == u) others)
unfolding joined
any-joined [] others u = refl
any-joined (t ∷ types) others u =
    ground (arith, any-insert_type t u (joined types others), any-joined types others u)

-- Where both parsers have a list of types, the parser that `and_filter` makes takes each type that one of
-- the two takes, and not only those that both take.
pub is_listed-and_filter :
    (self other : KeyParser) (list_1 list_2 : List EventType) (t : EventType)
    → self.type_whitelist ≡ some list_1
    → other.type_whitelist ≡ some list_2
    → is_listed (and_filter self other).type_whitelist t
      ≡ (is_listed self.type_whitelist t || is_listed other.type_whitelist t)
unfolding and_filter
is_listed-and_filter self other list_1 list_2 t e f =
    rw (e, f)
      (any-joined list_1 (joined list_2 []) t
        ∙ ap (λ b. any (λ v. v == t) list_1 || b)
            (any-joined list_2 [] t ∙ or-false (any (λ v. v == t) list_2)))
