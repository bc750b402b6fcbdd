-- ===== src/Shelllex.antt =====
-- src/utils/shelllex.rs: splitting a string into tokens as a shell does. A `char` is its code point.
pub mod Quoting
use evsieve.Base.{Text, ℕ, ◌==◌, Bool, ◌||◌, Option, none, some, List, [], ◌∷◌, ◌++◌, if◌then◌else◌}

pub data QuoteMark : Type 0 where
  single : QuoteMark
  double : QuoteMark

pub data State : Type 0 where
  normal : State
  comment : State
  quoted : QuoteMark → State

pub data MaybeEscapedState : Type 0 where
  escaped : State → MaybeEscapedState
  not_escaped : State → MaybeEscapedState

-- The errors, with what their messages show.
pub data LexError : Type 0 where
  unknown_escape : ℕ → LexError
  escape_at_end : LexError
  unterminated : QuoteMark → Text → LexError

pub data LexResult {ℓ} (A : Type ℓ) : Type ℓ where
  ok : A → LexResult A
  err : LexError → LexResult A

-- The local variables of `lex`.
pub record Lexer : Type 0 where
  pub state : MaybeEscapedState
  pub next_token : Option Text
  pub tokens : List Text

abbrev pub as_char : QuoteMark → ℕ
as_char single = b'\''
as_char double = b'"'

-- `QuoteMark::try_from`.
unfoldable pub try_from : ℕ → Option QuoteMark
try_from c = if c == b'\'' then some single else if c == b'"' then some double else none

-- `u8::is_ascii_whitespace`: space, tab, line feed, form feed and carriage return.
unfoldable pub is_ascii_whitespace : ℕ → Bool
is_ascii_whitespace c = c == 32 || c == 9 || c == 10 || c == 12 || c == 13

abbrev pub push_to_token : Option Text → ℕ → Option Text
push_to_token (some string) c = some (string ++ c ∷ [])
push_to_token none c = some (c ∷ [])

abbrev pub finalize_token : List Text → Option Text → List Text
finalize_token tokens (some item) = tokens ++ item ∷ []
finalize_token tokens none = tokens

abbrev finalized : Lexer → MaybeEscapedState → Lexer
finalized l state = record {
  state = state;
  next_token = none;
  tokens = finalize_token l.tokens l.next_token;
}

abbrev pushed : Lexer → ℕ → Lexer
pushed l c = record l { next_token = push_to_token l.next_token c }

abbrev or_empty : Option Text → Text
or_empty none = []
or_empty (some t) = t

-- A quotation mark starts a token, if there is none.
abbrev opened : Lexer → QuoteMark → Lexer
opened l mark = record l {
  state = not_escaped (quoted mark);
  next_token = some (or_empty l.next_token);
}

abbrev normal_char : Lexer → ℕ → Option QuoteMark → Lexer
normal_char l c (some mark) = opened l mark
normal_char l c none =
    if is_ascii_whitespace c then finalized l (not_escaped normal) else pushed l c

step_normal : Lexer → ℕ → Lexer
step_normal l c =
    if c == b'#'
    then finalized l (not_escaped comment)
    else if c == b'\\'
    then record l { state = escaped normal }
    else normal_char l c (try_from c)

step_quoted : Lexer → QuoteMark → ℕ → Lexer
step_quoted l mark c =
    if c == as_char mark
    then record l { state = not_escaped normal }
    else if c == b'\\'
    then record l { state = escaped (quoted mark) }
    else pushed l c

-- The table of escape sequences.
mapped_char : ℕ → Option ℕ
mapped_char c =
    if c == b'n'
    then some 10
    else if c == b'r'
    then some 13
    else if c == b't'
    then some 9
    else if c == b'\\'
        || c == b'\''
        || c == b'`'
        || c == b'"'
        || c == b'#'
        || c == b'*'
        || c == b'?'
        || c == b' '
    then some c
    else none

abbrev push_mapped : Lexer → State → ℕ → Option ℕ → LexResult Lexer
push_mapped l last_state c none = err (unknown_escape c)
push_mapped l last_state c (some mapped) =
    ok (record l { state = not_escaped last_state; next_token = push_to_token l.next_token mapped })

step_escaped : Lexer → State → ℕ → LexResult Lexer
unfolding mapped_char
step_escaped l last_state c =
    if c == 10
    then ok (record l { state = not_escaped last_state })
    else push_mapped l last_state c (mapped_char c)

-- One round of the loop.
unfoldable pub step : MaybeEscapedState → Lexer → ℕ → LexResult Lexer
unfolding step_normal step_quoted step_escaped
step (not_escaped normal) l c = ok (step_normal l c)
step (not_escaped comment) l c = ok (if c == 10 then record l { state = not_escaped normal } else l)
step (not_escaped (quoted mark)) l c = ok (step_quoted l mark c)
step (escaped last_state) l c = step_escaped l last_state c

-- The `match` behind the loop.
unfoldable pub finish : MaybeEscapedState → Lexer → LexResult (List Text)
finish (escaped last_state) l = err escape_at_end
finish (not_escaped (quoted mark)) l = err (unterminated mark (or_empty l.next_token))
finish (not_escaped normal) l = ok (finalize_token l.tokens l.next_token)
finish (not_escaped comment) l = ok (finalize_token l.tokens l.next_token)

unfoldable pub run : Lexer → Text → LexResult (List Text)
unfolding step finish
run l [] = finish l.state l
run l (c ∷ cs) = elim (step l.state l c) [ err e ↦ err e | ok l' ↦ run l' cs ]

abbrev pub initial : Lexer
initial = record { state = not_escaped normal; next_token = none; tokens = [] }

unfoldable pub lex : Text → LexResult (List Text)
unfolding run
lex input = run initial input
