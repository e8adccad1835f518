-- ===== src/TextDsl/Canonical.antt =====
-- The models that have a text form, and the tokens of that form.
use daisy_workflow.Common.{
  Bool, true, false, not, ◌&&◌, Option, none, some, List, [], ◌∷◌, ◌++◌, map, leb, if◌then◌else◌,
  length, all,
}
use daisy_workflow.Js.{codes}
use daisy_workflow.TextDsl.Lexer.{
  Chars, same_chars, Token, equals, colon, lparen, rparen, comma, punct, arrow, string, ident,
  keyword, is_keyword, step_word, iterate_word, executeif_word,
}
use daisy_workflow.TextDsl.Parser.{TextFields, Node, Edge, Model}
use daisy_workflow.TextDsl.Serializer.{join, inline_args}
use daisy_workflow.TextDsl.Quoting.{is_quotable}
use daisy_workflow.TextDsl.Pieces.{is_word}

-- A word that is no keyword.
unfoldable pub is_name : Chars → Bool
is_name w = is_word w && not (is_keyword w)

unfoldable pub is_key : Chars → Bool
unfolding is_name
is_key k = is_name k && not (same_chars k (codes "__proto__"))

abbrev pub is_fresh : Chars → TextFields → Bool
is_fresh k [] = true
is_fresh k ((at, there) ∷ es) = not (same_chars k at) && is_fresh k es

unfoldable pub is_fields : TextFields → Bool
unfolding is_key
is_fields [] = true
is_fields ((k, v) ∷ es) = is_key k && (is_quotable v && (is_fresh k es && is_fields es))

-- An addition is missing or a text that is not empty.
unfoldable pub is_addition_text : Option Chars → Bool
is_addition_text none = true
is_addition_text (some []) = false
is_addition_text (some (c ∷ cs)) = is_quotable (c ∷ cs)

unfoldable pub is_node : Node → Bool
unfolding is_name is_fields is_addition_text
is_node n =
    (is_name n.name && is_name n.action)
    && ((is_fields n.inputs && is_fields n.outputs)
        && (is_addition_text n.batch_over && is_addition_text n.execute_if))

unfoldable pub is_edge : Edge → Bool
unfolding is_name
is_edge e = is_name e.from && is_name e.to

-- A model that the text form can hold.
unfoldable pub is_expressible : Model → Bool
unfolding is_node is_edge
is_expressible m = is_quotable m.name && (all is_node m.nodes && all is_edge m.edges)

abbrev pub entry_tokens : Chars × Chars → List Token
entry_tokens (k, v) = ident k ∷ punct colon ∷ string v ∷ []

abbrev pub inline_tokens : TextFields → List Token
inline_tokens es = join (punct comma ∷ []) (map entry_tokens es)

abbrev pub multiline_tokens : TextFields → List Token
multiline_tokens [] = []
multiline_tokens (e ∷ es) = entry_tokens e ++ punct comma ∷ multiline_tokens es

abbrev pub is_inline : TextFields → Bool
is_inline es = leb (length es) 2 && leb (length (inline_args es)) 80

unfoldable pub args_tokens : TextFields → List Token
args_tokens [] = punct lparen ∷ punct rparen ∷ []
args_tokens (e ∷ es) =
    punct lparen
    ∷ ((if is_inline (e ∷ es) then inline_tokens (e ∷ es) else multiline_tokens (e ∷ es))
        ++ punct rparen ∷ [])

abbrev pub addition_tokens : Chars → Option Chars → List (List Token)
addition_tokens word (some (c ∷ cs)) = (keyword word ∷ string (c ∷ cs) ∷ []) ∷ []
addition_tokens word _ = []

abbrev pub wrapper_tokens : List (List Token) → List Token
wrapper_tokens [] = []
wrapper_tokens (a ∷ more) = punct lparen ∷ join (punct comma ∷ []) (a ∷ more) ++ punct rparen ∷ []

unfoldable pub outputs_tokens : TextFields → List Token
unfolding args_tokens
outputs_tokens [] = []
outputs_tokens (e ∷ es) = punct colon ∷ args_tokens (e ∷ es)

abbrev pub additions_of : Node → List (List Token)
additions_of n =
    addition_tokens iterate_word n.batch_over ++ addition_tokens executeif_word n.execute_if

unfoldable pub step_tokens : Node → List Token
unfolding args_tokens outputs_tokens
step_tokens n =
    keyword step_word
    ∷ ident n.name
    ∷ (wrapper_tokens (additions_of n)
        ++ (punct equals ∷ ident n.action ∷ (args_tokens n.inputs ++ outputs_tokens n.outputs)))

abbrev pub edge_tokens : Edge → List Token
edge_tokens e = ident e.from ∷ arrow ∷ ident e.to ∷ []

abbrev pub flatten {ℓ} : {A : Type ℓ} → List (List A) → List A
flatten [] = []
flatten (xs ∷ xss) = xs ++ flatten xss

-- The tokens of the serialized model, but for the last, EOF.
unfoldable pub model_tokens : Model → List Token
unfolding step_tokens
model_tokens m =
    string m.name ∷ (flatten (map step_tokens m.nodes) ++ flatten (map edge_tokens m.edges))
