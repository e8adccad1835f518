-- ===== src/TextDsl/Lexer.antt =====
-- Texts into tokens (frontend/src/dsl/lexer.js).
pub mod Steps
use daisy_workflow.Common.{
  ℕ, zero, suc, Bool, true, false, ◌&&◌, ◌||◌, Option, none, some, List, [], ◌∷◌, ◌++◌, eqb, leb,
  if◌then◌else◌, length, drop, Result, ok, err, ◌>>=◌,
}
use daisy_workflow.Js.{codes}

abbrev pub Chars : Type 0
Chars = List ℕ

abbrev pub same_chars : Chars → Chars → Bool
same_chars [] [] = true
same_chars (c ∷ cs) (d ∷ ds) = eqb c d && same_chars cs ds
same_chars _ _ = false

-- The values of a PUNCT token.
pub data Punct : Type 0 where
  equals colon lparen rparen comma : Punct

pub data Token : Type 0 where
  arrow : Token
  punct : Punct → Token
  string : Chars → Token
  ident : Chars → Token
  keyword : Chars → Token
  eof : Token

-- `out_of_fuel` is no error of the source: see Lexer/Steps.
pub data LexError : Type 0 where
  unterminated : LexError
  unexpected_character : ℕ → LexError
  out_of_fuel : LexError

abbrev pub is_ident_start : ℕ → Bool
is_ident_start c = (leb b'A' c && leb c b'Z') || (leb b'a' c && leb c b'z') || eqb c b'_'

abbrev pub is_ident_cont : ℕ → Bool
is_ident_cont c = is_ident_start c || (leb b'0' c && leb c b'9') || eqb c b'.' || eqb c b'-'

-- The keywords' texts.
abbrev pub step_word : Chars
step_word = codes "step"

abbrev pub iterate_word : Chars
iterate_word = codes "iterate"

abbrev pub executeif_word : Chars
executeif_word = codes "executeif"

unfoldable pub is_keyword : Chars → Bool
is_keyword w = same_chars w step_word || same_chars w iterate_word || same_chars w executeif_word

abbrev pub word_token : Chars → Token
word_token w = if is_keyword w then keyword w else ident w

-- What is read so far goes in front of what the rest of the string gives.
abbrev pub prefix : Chars → Option (Chars × Chars) → Option (Chars × Chars)
prefix cs none = none
prefix cs (some (value, rest)) = some (cs ++ value, rest)

-- What the escape with this unit stands for.
unfoldable pub unescape : ℕ → Chars
unescape d =
    if eqb d b'"'
    then b'"' ∷ []
    else if eqb d b'\\'
    then b'\\' ∷ []
    else if eqb d b'n'
    then b'\n' ∷ []
    else if eqb d b't'
    then b'\t' ∷ []
    else if eqb d b'r'
    then b'\r' ∷ []
    else b'\\' ∷ d ∷ []

-- The string after its opening quote, and the text after its closing one. The flag says that the
-- unit before was a backslash, which is not yet part of the value.
unfoldable pub read_double : Bool → Chars → Option (Chars × Chars)
unfolding unescape
read_double _ [] = none
read_double true (d ∷ cs) = prefix (unescape d) (read_double false cs)
read_double false (c ∷ cs) =
    let rest = read_double (eqb c b'\\') cs in
    if eqb c b'"' then some ([], cs) else if eqb c b'\\' then rest else prefix (c ∷ []) rest

unfoldable pub read_backtick : Bool → Chars → Option (Chars × Chars)
read_backtick _ [] = none
read_backtick true (d ∷ cs) =
    let rest = read_backtick (eqb d b'\\') cs in
    if eqb d b'`'
    then prefix (d ∷ []) rest
    else prefix (b'\\' ∷ []) (if eqb d b'\\' then rest else prefix (d ∷ []) rest)
read_backtick false (c ∷ cs) =
    let rest = read_backtick (eqb c b'\\') cs in
    if eqb c b'`' then some ([], cs) else if eqb c b'\\' then rest else prefix (c ∷ []) rest

-- The longest run of identifier units, and what follows it.
unfoldable pub read_word : Chars → Chars × Chars
read_word [] = ([], [])
read_word (c ∷ cs) =
    let rest = read_word cs in if is_ident_cont c then (c ∷ rest.0, rest.1) else ([], c ∷ cs)

unfoldable pub skip_comment : Chars → Chars
skip_comment [] = []
skip_comment (c ∷ cs) = let rest = skip_comment cs in if eqb c b'\n' then c ∷ cs else rest

abbrev pub is_blank : ℕ → Bool
is_blank c = eqb c b'\n' || eqb c b' ' || eqb c b'\t' || eqb c b'\r'

abbrev pub goes_on_arrow : Chars → Bool
goes_on_arrow (b ∷ c ∷ cs) = eqb b b'-' && eqb c b'>'
goes_on_arrow _ = false

abbrev pub starts_arrow : ℕ → Chars → Bool
starts_arrow c cs = eqb c b'-' && goes_on_arrow cs

unfoldable pub punct_of : ℕ → Option Punct
punct_of c =
    if eqb c b'='
    then some equals
    else if eqb c b':'
    then some colon
    else if eqb c b'('
    then some lparen
    else if eqb c b')'
    then some rparen
    else if eqb c b','
    then some comma
    else none

abbrev pub closed_string : Option (Chars × Chars) → Result LexError (Option Token × Chars)
closed_string none = err unterminated
closed_string (some (value, rest)) = ok (some (string value), rest)

-- The branches from strings on.
unfoldable pub next_long : ℕ → Chars → Result LexError (Option Token × Chars)
unfolding read_double read_backtick read_word is_keyword
next_long c cs =
    if eqb c b'"'
    then closed_string (read_double false cs)
    else if eqb c b'`'
    then closed_string (read_backtick false cs)
    else if is_ident_start c
    then ok (some (word_token (c ∷ (read_word cs).0)), (read_word cs).1)
    else err (unexpected_character c)

unfoldable pub next_punct : Option Punct → ℕ → Chars → Result LexError (Option Token × Chars)
unfolding next_long
next_punct (some p) c cs = ok (some (punct p), cs)
next_punct none c cs = next_long c cs

-- One round of the loop: the token it pushes, if any, and the text it leaves.
unfoldable pub next : ℕ → Chars → Result LexError (Option Token × Chars)
unfolding skip_comment punct_of next_punct
next c cs =
    if is_blank c
    then ok (none, cs)
    else if eqb c b'#'
    then ok (none, skip_comment cs)
    else if starts_arrow c cs
    then ok (some arrow, drop 2 cs)
    else next_punct (punct_of c) c cs

abbrev pub push : Option Token → Result LexError (List Token) → Result LexError (List Token)
push none tokens = tokens
push (some t) (ok ts) = ok (t ∷ ts)
push (some t) (err why) = err why

-- The loop, of at most `fuel` rounds.
unfoldable pub lex : ℕ → Chars → Result LexError (List Token)
unfolding next
lex fuel [] = ok (eof ∷ [])
lex zero (c ∷ cs) = err out_of_fuel
lex (suc fuel) (c ∷ cs) = next c cs >>= λ r. push r.0 (lex fuel r.1)

unfoldable pub tokenize : Chars → Result LexError (List Token)
unfolding lex
tokenize source = lex (length source) source
