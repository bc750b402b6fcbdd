-- ===== src/Shelllex/Quoting.antt =====
-- Any tokens can be written so that `lex` reads them back: in quotation marks of either kind, with a
-- backslash before each mark of that kind and each backslash.
use evsieve.Base.{
  Text, ◌≡◌, sym, ap, ◌∙◌, ℕ, ◌==◌, ◌||◌, none, some, List, [], ◌∷◌, ◌++◌, map, arith,
  if◌then◌else◌,
}
use mathlib.Core.List.{append-nil, append_assoc}
use evsieve.Shelllex.{
  QuoteMark, single, double, as_char, Lexer, ok, not_escaped, normal, quoted, step, finish, run,
  initial, lex, step_normal, step_quoted, step_escaped, mapped_char, try_from, is_ascii_whitespace,
}

-- A character of a token, within quotation marks.
abbrev pub escaped_char : QuoteMark → ℕ → Text
escaped_char mark c = if c == as_char mark || c == b'\\' then b'\\' ∷ c ∷ [] else c ∷ []

abbrev pub escape : QuoteMark → Text → Text
escape mark [] = []
escape mark (c ∷ cs) = escaped_char mark c ++ escape mark cs

abbrev pub quote : QuoteMark × Text → Text
quote (mark, token) = as_char mark ∷ escape mark token ++ as_char mark ∷ []

-- The quoted tokens, each with a space behind it.
abbrev pub quote_all : List (QuoteMark × Text) → Text
quote_all [] = []
quote_all (token ∷ rest) = quote token ++ b' ' ∷ quote_all rest

run-escaped_char :
    (l : Lexer) (mark : QuoteMark) (string : Text) (c : ℕ) (rest : Text)
    → run
        (record l { state = not_escaped (quoted mark); next_token = some string })
        (escaped_char mark c ++ rest)
      ≡ run
          (record l { state = not_escaped (quoted mark); next_token = some (string ++ c ∷ []) })
          rest
unfolding run step step_quoted step_escaped mapped_char
run-escaped_char l single string c rest = ground arith
run-escaped_char l double string c rest = ground arith

run-escape :
    (l : Lexer) (mark : QuoteMark) (string token rest : Text)
    → run
        (record l { state = not_escaped (quoted mark); next_token = some string })
        (escape mark token ++ rest)
      ≡ run
          (record l { state = not_escaped (quoted mark); next_token = some (string ++ token) })
          rest
run-escape l mark string [] rest = rw append-nil
run-escape l mark string (c ∷ cs) rest =
    ap (run _) (append_assoc (escaped_char mark c) (escape mark cs) rest)
    ∙ run-escaped_char l mark string c (escape mark cs ++ rest)
    ∙ run-escape l mark (string ++ c ∷ []) cs rest
    ∙ rw append_assoc

run-close :
    (l : Lexer) (mark : QuoteMark) (string rest : Text)
    → run
        (record l { state = not_escaped (quoted mark); next_token = some string })
        (as_char mark ∷ b' ' ∷ rest)
      ≡ run
          (record l {
            state = not_escaped normal;
            next_token = none;
            tokens = l.tokens ++ string ∷ [];
          })
          rest
unfolding run step step_quoted step_normal try_from is_ascii_whitespace
run-close l single string rest = ground arith
run-close l double string rest = ground arith

run-open :
    (l : Lexer) (mark : QuoteMark) (rest : Text)
    → run (record l { state = not_escaped normal; next_token = none }) (as_char mark ∷ rest)
      ≡ run (record l { state = not_escaped (quoted mark); next_token = some [] }) rest
unfolding run step step_normal try_from is_ascii_whitespace
run-open l single rest = ground arith
run-open l double rest = ground arith

run-quote :
    (l : Lexer) (mark : QuoteMark) (token rest : Text)
    → run
        (record l { state = not_escaped normal; next_token = none })
        (quote (mark, token) ++ b' ' ∷ rest)
      ≡ run
          (record l {
            state = not_escaped normal;
            next_token = none;
            tokens = l.tokens ++ token ∷ [];
          })
          rest
run-quote l mark token rest =
    run-open l mark ((escape mark token ++ as_char mark ∷ []) ++ b' ' ∷ rest)
    ∙ ap (run _) (append_assoc (escape mark token) (as_char mark ∷ []) (b' ' ∷ rest))
    ∙ run-escape l mark [] token (as_char mark ∷ b' ' ∷ rest)
    ∙ run-close l mark token rest

run-quote_all :
    (l : Lexer) (tokens : List (QuoteMark × Text))
    → run (record l { state = not_escaped normal; next_token = none }) (quote_all tokens)
      ≡ ok (l.tokens ++ map (λ t. t.1) tokens)
unfolding run finish
run-quote_all l [] = ap ok (sym (append-nil l.tokens))
run-quote_all l ((mark, token) ∷ rest) =
    run-quote l mark token (quote_all rest)
    ∙ run-quote_all (record l { tokens = l.tokens ++ token ∷ [] }) rest
    ∙ ap ok (append_assoc l.tokens (token ∷ []) (map (λ t. t.1) rest))

-- `lex` reads back any tokens, with any characters in them, that are written in quotation marks.
pub lex-quote_all :
    (tokens : List (QuoteMark × Text)) → lex (quote_all tokens) ≡ ok (map (λ t. t.1) tokens)
unfolding lex
lex-quote_all tokens = run-quote_all initial tokens
