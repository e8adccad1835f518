-- ===== src/TextDsl/Parser.antt =====
-- Tokens into the workflow's model (frontend/src/dsl/parser.js). The parser's position is the list
-- of tokens from it on.
pub mod Takes
pub mod Ends
use daisy_workflow.Common.{
  ℕ, zero, suc, Bool, true, false, Option, none, some, List, [], ◌∷◌, ◌++◌, if◌then◌else◌, length,
  Result, ok, err, ◌>>=◌,
}
use daisy_workflow.Js.{codes}
use daisy_workflow.TextDsl.Lexer.{
  Chars, same_chars, Punct, equals, colon, lparen, rparen, comma, Token, arrow, punct, string,
  ident, keyword, eof, LexError, step_word, iterate_word, executeif_word, tokenize,
}

-- An object whose values are texts: its own entries, in their order.
abbrev pub TextFields : Type 0
TextFields = List (Chars × Chars)

-- A field that is missing is `none`; `outputs` that are missing are empty.
pub record Node : Type 0 where
  pub name : Chars
  pub action : Chars
  pub inputs : TextFields
  pub outputs : TextFields
  pub batch_over : Option Chars
  pub execute_if : Option Chars

pub record Edge : Type 0 where
  pub from : Chars
  pub to : Chars

pub record Model : Type 0 where
  pub name : Chars
  pub nodes : List Node
  pub edges : List Edge

-- What was expected, at the token that stands there instead.
pub data Expected : Type 0 where
  of_string of_ident of_arrow of_addition of_edge of_step_before_edge : Expected
  of_punct : Punct → Expected
  of_keyword : Chars → Expected

-- `stopped` is no error of the source: see Parser/Ends.
pub data ParseError : Type 0 where
  lexing : LexError → ParseError
  expected : Expected → Token → ParseError
  stopped : ParseError

-- The result of a production, and the tokens after it.
abbrev pub Parse : Type 0 → Type 0
Parse A = Result ParseError (A × List Token)

-- `peek`. The parser never moves past EOF.
abbrev pub peek : List Token → Token
peek [] = eof
peek (t ∷ ts) = t

abbrev pub fail {ℓ} : {A : Type ℓ} → Expected → List Token → Result ParseError A
fail what ts = err (expected what (peek ts))

abbrev pub consume_string : List Token → Parse Chars
consume_string (string v ∷ ts) = ok (v, ts)
consume_string ts = fail of_string ts

abbrev pub consume_ident : List Token → Parse Chars
consume_ident (ident v ∷ ts) = ok (v, ts)
consume_ident ts = fail of_ident ts

abbrev pub same_punct : Punct → Punct → Bool
same_punct equals equals = true
same_punct colon colon = true
same_punct lparen lparen = true
same_punct rparen rparen = true
same_punct comma comma = true
same_punct _ _ = false

-- `match("PUNCT", p)`
abbrev pub match_punct : Punct → List Token → Bool
match_punct p (punct q ∷ ts) = same_punct q p
match_punct p _ = false

-- `consume("PUNCT", p)`
abbrev pub consume_punct : Punct → List Token → Parse (Unit {0})
consume_punct p [] = fail (of_punct p) []
consume_punct p (t ∷ ts) =
    if match_punct p (t ∷ ts) then ok (tt, ts) else fail (of_punct p) (t ∷ ts)

-- `out[key] = value`: a key keeps its place, and `__proto__` is no property.
unfoldable pub set_own : Chars → Chars → TextFields → TextFields
set_own k v [] = (k, v) ∷ []
set_own k v ((at, there) ∷ later) =
    let rest = set_own k v later in if same_chars at k then (at, v) ∷ later else (at, there) ∷ rest

unfoldable pub set_entry : Chars → Chars → TextFields → TextFields
unfolding set_own
set_entry k v out = if same_chars k (codes "__proto__") then out else set_own k v out

abbrev pub close_args : TextFields → List Token → Parse TextFields
close_args out (punct rparen ∷ ts) = ok (out, ts)
close_args out ts = fail (of_punct rparen) ts

-- The loop of `args`, from a key on.
unfoldable pub args_loop : TextFields → List Token → Parse TextFields
unfolding set_entry
args_loop out (ident k ∷ punct colon ∷ string v ∷ punct comma ∷ ts) =
    let rest = args_loop (set_entry k v out) ts in
    if match_punct rparen ts then close_args (set_entry k v out) ts else rest
args_loop out (ident k ∷ punct colon ∷ string v ∷ ts) = close_args (set_entry k v out) ts
args_loop out (ident k ∷ punct colon ∷ ts) = fail of_string ts
args_loop out (ident k ∷ ts) = fail (of_punct colon) ts
args_loop out ts = fail of_ident ts

unfoldable pub args : List Token → Parse TextFields
unfolding args_loop
args (punct lparen ∷ punct rparen ∷ ts) = ok ([], ts)
args (punct lparen ∷ ts) = args_loop [] ts
args ts = fail (of_punct lparen) ts

pub record Additions : Type 0 where
  pub batch_over : Option Chars
  pub execute_if : Option Chars

abbrev pub no_additions : Additions
no_additions = record { batch_over = none; execute_if = none }

-- The words an addition starts with.
abbrev pub is_addition : Chars → Bool
is_addition w = if same_chars w iterate_word then true else same_chars w executeif_word

abbrev pub add_iterate : Bool → Chars → Additions → Additions
add_iterate true v out = record out { batch_over = some v }
add_iterate false v out = out

abbrev pub add_executeif : Bool → Chars → Additions → Additions
add_executeif true v out = record out { execute_if = some v }
add_executeif false v out = out

abbrev pub add : Chars → Chars → Additions → Additions
add w v out =
    add_executeif (same_chars w executeif_word) v (add_iterate (same_chars w iterate_word) v out)

abbrev pub close_additions : Additions → List Token → Parse Additions
close_additions out (punct rparen ∷ ts) = ok (out, ts)
close_additions out ts = fail (of_punct rparen) ts

-- The loop of `additionsWrapperOpt`.
unfoldable pub additions_loop : Additions → List Token → Parse Additions
additions_loop out (keyword w ∷ string v ∷ punct comma ∷ ts) =
    let rest = additions_loop (add w v out) ts in
    if is_addition w then rest else fail of_addition (keyword w ∷ [])
additions_loop out (keyword w ∷ string v ∷ ts) =
    if is_addition w then close_additions (add w v out) ts else fail of_addition (keyword w ∷ [])
additions_loop out (keyword w ∷ ts) =
    if is_addition w then fail of_string ts else fail of_addition (keyword w ∷ [])
additions_loop out ts = fail of_addition ts

unfoldable pub additions_wrapper_opt : List Token → Parse Additions
unfolding additions_loop
additions_wrapper_opt (punct lparen ∷ punct rparen ∷ ts) = ok (no_additions, ts)
additions_wrapper_opt (punct lparen ∷ ts) = additions_loop no_additions ts
additions_wrapper_opt ts = ok (no_additions, ts)

-- `if (this.match("PUNCT", ":")) ...`
unfoldable pub outputs_opt : List Token → Parse TextFields
unfolding args
outputs_opt (punct colon ∷ ts) = args ts
outputs_opt ts = ok ([], ts)

-- `step`, after its keyword.
unfoldable pub step : List Token → Parse Node
unfolding additions_wrapper_opt args outputs_opt
step ts = do
  named ← consume_ident ts
  additions ← additions_wrapper_opt named.1
  equal ← consume_punct equals additions.1
  plugin ← consume_ident equal.1
  inputs ← args plugin.1
  outputs ← outputs_opt inputs.1
  ok (
    record {
      name = named.0;
      action = plugin.0;
      inputs = inputs.0;
      outputs = outputs.0;
      batch_over = additions.0.batch_over;
      execute_if = additions.0.execute_if;
    },
    outputs.1,
  )

-- `match("KEYWORD", "step")`
abbrev pub match_step : List Token → Bool
match_step (keyword w ∷ ts) = same_chars w step_word
match_step _ = false

abbrev pub tail : List Token → List Token
tail [] = []
tail (t ∷ ts) = ts

-- One node in front of those that follow.
abbrev pub node_cons : Node → Parse (List Node) → Parse (List Node)
node_cons n (ok (ns, ts)) = ok (n ∷ ns, ts)
node_cons n (err why) = err why

-- The loop over the steps, of at most `fuel` rounds.
unfoldable pub steps : ℕ → List Token → Parse (List Node)
unfolding step
steps zero ts = if match_step ts then err stopped else ok ([], ts)
steps (suc fuel) ts =
    let more = (step (tail ts) >>= λ r. node_cons r.0 (steps fuel r.1)) in
    if match_step ts then more else ok ([], ts)

abbrev pub edge_cons : Edge → Result ParseError (List Edge) → Result ParseError (List Edge)
edge_cons e (ok es) = ok (e ∷ es)
edge_cons e (err why) = err why

-- The loop over the edges, with `edge`.
unfoldable pub edges : List Token → Result ParseError (List Edge)
edges (eof ∷ ts) = ok []
edges (ident a ∷ arrow ∷ ident b ∷ ts) = edge_cons (record { from = a; to = b }) (edges ts)
edges (ident a ∷ arrow ∷ ts) = fail of_ident ts
edges ts = if match_step ts then fail of_step_before_edge ts else fail of_edge ts

unfoldable pub program : List Token → Result ParseError Model
unfolding steps edges
program ts = do
  title ← consume_string ts
  nodes ← steps (length title.1) title.1
  links ← edges nodes.1
  ok (record { name = title.0; nodes = nodes.0; edges = links })

abbrev pub lexed : Result LexError (List Token) → Result ParseError (List Token)
lexed (ok ts) = ok ts
lexed (err why) = err (lexing why)

unfoldable pub parse : Chars → Result ParseError Model
unfolding program tokenize
parse source = lexed (tokenize source) >>= program
