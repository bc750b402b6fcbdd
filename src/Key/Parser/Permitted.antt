-- ===== src/Key/Parser/Permitted.antt =====
-- What a parser lets into a key: its values, its domain and the key as a whole.
use evsieve.Base.{
  ◌≡◌, ◌∙◌, sym, refl, subst, true, Option, none, some, [], ◌∷◌, Text, split_dots, ok, ◌>>=◌,
  >>=-ok, Bool-cases, Option-cases, inl, inr, arith,
}
use evsieve.Platform.{Platform}
use evsieve.Range.Interval
use evsieve.Range.Interval.{Interval}
use evsieve.Domain
use evsieve.Domain.{DomainTracker, DomainResult}
use evsieve.Ecodes.{Names}
use evsieve.Affine
use evsieve.Affine.{AffineFactor}
use evsieve.Affine.Parser.{parse_affine_factor}
use evsieve.Key
use evsieve.Key.{
  Key, KeyProperty, of_code, of_domain, of_namespace, of_value, of_previous_value, of_type,
  of_virtual_type, affine_factor, add_property,
}
use evsieve.Key.Parser
use evsieve.Key.Parser.Ranges.{value-IsValid, value-IsSingle}
use evsieve.Key.Parser.Allowed.{
  Agree, MayHaveValue, IsAllowedRange, IsPermitted, ArePermitted, added, typed-IsPermitted,
}

module _ ⦃p : Platform⦄ where
  module _ (names : Names) (parse_f64 : Text → Option p.F64) (parser : Parser.KeyParser) where
    abbrev start : Key p
    start = add_property Key.new (of_namespace parser.namespace)

    start-ArePermitted : ArePermitted names parser start
    unfolding add_property
    start-ArePermitted = (refl, tt)

    type-ArePermitted :
        (parts : Parser.KeyParts) (key : Key p)
        → Agree names
        → Parser.interpret_type names parse_f64 parts parser ≡ ok key
        → ArePermitted names parser key
    unfolding Parser.interpret_type
    type-ArePermitted parts key agree h = elim (Option-cases parts.ev_type) [
      | inl e ↦ elim (Option-cases parts.code) [
        | inl f ↦
            let k = rw (Parser.interpret_type, e, f) at h in
            let same : start ≡ key = cc in subst (ArePermitted names parser) same start-ArePermitted
        | inr (c, f) ↦ let k = rw (Parser.interpret_type, e, f) at h in cc
      ]
      | inr (name, e) ↦
          let k : (Parser.typed names parse_f64 parser name parts.code >>= λ q.
          ok (add_property start q))
              ≡ ok key =
            rw (Parser.interpret_type, e) at h in
          let (q, e1, h1) =
            >>=-ok (Parser.typed names parse_f64 parser name parts.code)
              (λ q. ok (add_property start q)) key k in
          let same : add_property start q ≡ key = cc in
          subst (ArePermitted names parser) same (
            added names parser start q start-ArePermitted
              (typed-IsPermitted names parse_f64 parser name parts.code q agree e1))
    ]

    value-IsAllowedRange :
        (s : Text) (r : Interval)
        → MayHaveValue parser
        → Parser.interpret_event_value s parser ≡ ok r
        → IsAllowedRange parser r
    value-IsAllowedRange s r may h = (may, value-IsValid s parser r h, value-IsSingle s parser r h)

    absolute_of-ArePermitted :
        (key key' : Key p) (s : Text) (val : Option Text)
        → MayHaveValue parser
        → ArePermitted names parser key
        → Parser.absolute_of names parse_f64 key parser s val ≡ ok key'
        → ArePermitted names parser key'
    unfolding Parser.interpret_event_value
    absolute_of-ArePermitted key key' s none may k h =
        let (r, e, h1) =
          >>=-ok (Parser.interpret_event_value s parser) (λ r. ok (add_property key (of_value r)))
            key' h in
        let same : add_property key (of_value r) ≡ key' = cc in
        subst (ArePermitted names parser) same
          (added names parser key (of_value r) k (value-IsAllowedRange s r may e))
    absolute_of-ArePermitted key key' s (some val) may k h =
        let (r, e, h1) =
          >>=-ok (Parser.interpret_event_value val parser)
            (Parser.with_previous names parse_f64 key s parser) key' h in
        let current = added names parser key (of_value r) k (value-IsAllowedRange val r may e) in
        elim (Bool-cases parser.allow_transitions) [
          | inr off ↦ let f = rw off at h1 in cc
          | inl on ↦
              let k1 : (Parser.interpret_event_value s parser >>= λ u.
              ok (add_property (add_property key (of_value r)) (of_previous_value u)))
                  ≡ ok key' =
                rw on at h1 in
              let (u, e1, h2) =
                >>=-ok (Parser.interpret_event_value s parser)
                  (λ u. ok (add_property (add_property key (of_value r)) (of_previous_value u)))
                  key' k1 in
              let same : add_property (add_property key (of_value r)) (of_previous_value u) ≡ key' =
                cc in
              subst (ArePermitted names parser) same (
                added names parser (add_property key (of_value r)) (of_previous_value u) current
                  (on, value-IsAllowedRange s u may e1))
        ]

    -- What the text of a relative value may become.
    MayAdd : Parser.AffineParseResult names parse_f64 → Type 0
    MayAdd (Parser.is_affine q) = parser.allow_relative_values ≡ true → IsPermitted names parser q
    MayAdd (Parser.is_constant q) = IsPermitted names parser q
    MayAdd Parser.unparsable = Unit

    constant-MayAdd :
        (factor : AffineFactor p) (o : Option p.F64)
        → MayHaveValue parser
        → MayAdd (Parser.constant_or_affine names parse_f64 factor o)
    unfolding MayAdd Interval.new
    constant-MayAdd factor none may = λ h. (h, may)
    constant-MayAdd factor (some x) may = elim (Bool-cases (p.eq (p.trunc x) x)) [
      | inr e ↦ rw e tt
      | inl e ↦
          let fits = p.to_i32-IsI32 (p.trunc x) in rw e (may, ground (arith, fits), inr (inl refl))
    ]

    relative-MayAdd :
        (s : Text)
        → MayHaveValue parser
        → MayAdd (Parser.interpret_relative_value names parse_f64 s)
    unfolding MayAdd Parser.interpret_relative_value
    relative-MayAdd s may = elim (Option-cases (parse_affine_factor parse_f64 s)) [
      | inl e ↦ rw (Parser.interpret_relative_value, e) tt
      | inr (factor, e) ↦
          rw (Parser.interpret_relative_value, e)
            (constant-MayAdd factor (Affine.as_constant factor) may)
    ]

    text-ArePermitted :
        (key key' : Key p) (s : Text) (r : Parser.AffineParseResult names parse_f64)
        → MayHaveValue parser
        → ArePermitted names parser key
        → MayAdd r
        → Parser.relative_or_absolute names parse_f64 key s parser r ≡ ok key'
        → ArePermitted names parser key'
    unfolding MayAdd Parser.interpret_absolute_value Parser.interpret_event_value
    text-ArePermitted key key' s (Parser.is_affine q) may k m h =
        elim (Bool-cases parser.allow_relative_values) [
          | inl on ↦
              let f = rw on at h in
              let same : add_property key q ≡ key' = cc in
              subst (ArePermitted names parser) same (added names parser key q k (m on))
          | inr off ↦ let f = rw off at h in cc
        ]
    text-ArePermitted key key' s (Parser.is_constant q) may k m h =
        elim (Bool-cases parser.allow_relative_values) [
          | inl on ↦
              let f = rw on at h in
              let same : add_property key q ≡ key' = cc in
              subst (ArePermitted names parser) same (added names parser key q k m)
          | inr off ↦
              absolute_of-ArePermitted key key' ((split_dots s).0) ((split_dots s).1) may k
                (rw off at h)
        ]
    text-ArePermitted key key' s Parser.unparsable may k m h =
        absolute_of-ArePermitted key key' ((split_dots s).0) ((split_dots s).1) may k h

    default-ArePermitted :
        (key key' : Key p) (s : Text)
        → parser.default_value ≡ s
        → ArePermitted names parser key
        → Parser.interpret_default names parse_f64 key parser s ≡ ok key'
        → ArePermitted names parser key'
    default-ArePermitted key key' [] given k h =
        let same : key ≡ key' = cc in subst (ArePermitted names parser) same k
    default-ArePermitted key key' (c ∷ cs) given k h =
        let may : MayHaveValue parser =
          inr (λ empty. let none : [] ≡ c ∷ cs = sym empty ∙ given in cc) in
        text-ArePermitted key key' (c ∷ cs) _ may k (relative-MayAdd (c ∷ cs) may) h

    value-ArePermitted :
        (key key' : Key p) (value : Option Text)
        → ArePermitted names parser key
        → Parser.interpret_value names parse_f64 key value parser ≡ ok key'
        → ArePermitted names parser key'
    unfolding Parser.interpret_value Parser.interpret_event_value Parser.interpret_absolute_value
    value-ArePermitted key key' (some s) k h = elim (Bool-cases parser.allow_values) [
      | inl on ↦
          text-ArePermitted key key' s (Parser.interpret_relative_value names parse_f64 s) (inl on)
            k (relative-MayAdd s (inl on)) (rw on at h)
      | inr off ↦ let f = rw off at h in cc
    ]
    value-ArePermitted key key' none k h =
        default-ArePermitted key key' parser.default_value refl k h

    resolved-ArePermitted :
        (key key' : Key p) (r : DomainResult × DomainTracker) (tracker' : DomainTracker)
        → ArePermitted names parser key
        → parser.allow_domains ≡ true
        → Parser.with_resolved names parse_f64 key r ≡ ok (key', tracker')
        → ArePermitted names parser key'
    resolved-ArePermitted key key' (DomainResult.ok d, tracker) tracker' k on h =
        let same : add_property key (of_domain d) ≡ key' = cc in
        subst (ArePermitted names parser) same (added names parser key (of_domain d) k on)
    resolved-ArePermitted key key' (DomainResult.err e, tracker) tracker' k on h = cc

    domain-ArePermitted :
        (key key' : Key p) (domain : Option Text) (tracker tracker' : DomainTracker)
        → ArePermitted names parser key
        → Parser.with_domain names parse_f64 key domain parser tracker ≡ ok (key', tracker')
        → ArePermitted names parser key'
    domain-ArePermitted key key' none tracker tracker' k h =
        let same : key ≡ key' = cc in subst (ArePermitted names parser) same k
    domain-ArePermitted key key' (some s) tracker tracker' k h =
        elim (Bool-cases parser.allow_domains) [
          | inr off ↦ let f = rw off at h in cc
          | inl on ↦
              resolved-ArePermitted key key' (Domain.resolve tracker s) tracker' k on (rw on at h)
        ]

    -- Where each code is listed under a name of its own type, every property of a key that is parsed is one
    -- that the parser permits: types, and the types of codes, are on the whitelist and not "syn"; values
    -- have ranges of an `i32` that are not empty, which are one value or all values if ranges are not
    -- allowed, and a key has a value only if values are allowed or there is a default; transitions,
    -- domains, types without a code and relative values are there only where the parser allows them, and the
    -- namespace is the parser's.
    pub parse-ArePermitted :
        (s : Text) (tracker tracker' : DomainTracker) (key : Key p)
        → Agree names
        → Parser.parse names parse_f64 parser s tracker ≡ ok (key, tracker')
        → ArePermitted names parser key
    unfolding Parser.parse Parser.interpret_key
    parse-ArePermitted s tracker tracker' key agree h =
        let (parts, e, h1) =
          >>=-ok (Parser.key_str_to_parts s)
            (λ parts. Parser.interpret_key names parse_f64 parts parser >>= λ key.
              Parser.with_domain names parse_f64 key parts.domain parser tracker)
            (key, tracker') h in
        let (key_1, e1, h2) =
          >>=-ok (Parser.interpret_key names parse_f64 parts parser)
            (λ key. Parser.with_domain names parse_f64 key parts.domain parser tracker)
            (key, tracker') h1 in
        let (key_0, e2, h3) =
          >>=-ok (Parser.interpret_type names parse_f64 parts parser)
            (λ key. Parser.interpret_value names parse_f64 key parts.value parser) key_1 e1 in
        domain-ArePermitted key_1 key parts.domain tracker tracker'
          (value-ArePermitted key_0 key_1 parts.value (type-ArePermitted parts key_0 agree e2) h3)
          h2
