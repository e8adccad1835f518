-- ===== src/TextDsl/Printing.antt =====
-- The tokens of a serialized model.
use mathlib.Core.List.{append_assoc, append-nil}
use daisy_workflow.Common.{
  ◌≡◌, refl, true, false, Bool-cases, inl, inr, Option, none, some, List, [], ◌∷◌, ◌++◌, map, arith,
}
use daisy_workflow.TextDsl.Lexer.{
  Chars, Token, colon, lparen, rparen, comma, punct, string, ident, keyword, is_keyword,
  iterate_word, executeif_word, word_token,
}
use daisy_workflow.TextDsl.Parser.{TextFields, Node}
use daisy_workflow.TextDsl.Serializer.{
  quote, join, inline_entry, entry_line, inline_args, multiline_args, render_args, addition,
}
use daisy_workflow.TextDsl.Quoting.{is_quotable, tokenize-quote_append}
use daisy_workflow.TextDsl.Pieces.{
  Reads, ReadsBefore, Reads-append, ReadsBefore-append, Reads-nil, Reads-space, Reads-newline,
  Reads-punct, ReadsBefore-word,
}
use daisy_workflow.TextDsl.Canonical.{
  is_name, is_key, is_fields, is_addition_text, is_node, entry_tokens, inline_tokens,
  multiline_tokens, is_inline, args_tokens, addition_tokens, additions_of,
}

pub Reads-quote : (t : Chars) → is_quotable t ≡ true → Reads (quote t) (string t ∷ [])
Reads-quote t h rest = tokenize-quote_append t rest h

pub ReadsBefore-name : (w : Chars) → is_name w ≡ true → ReadsBefore w (ident w ∷ [])
unfolding is_name
ReadsBefore-name w h =
    let plain : is_keyword w ≡ false = ground arith in
    let word : word_token w ≡ ident w = rw plain refl in
    rw word at (ReadsBefore-word w (ground arith))

Reads-entry :
    (k v : Chars)
    → is_key k ≡ true
    → is_quotable v ≡ true
    → Reads (inline_entry (k, v)) (entry_tokens (k, v))
unfolding is_key inline_entry
Reads-entry k v h q =
    ReadsBefore-append k b':' (b' ' ∷ quote v) (ident k ∷ []) (punct colon ∷ string v ∷ []) refl
      (ReadsBefore-name k (ground arith))
      (Reads-punct colon (b' ' ∷ quote v) (string v ∷ [])
        (Reads-space (quote v) (string v ∷ []) (Reads-quote v q)))

pub Reads-rparen : Reads (b')' ∷ []) (punct rparen ∷ [])
Reads-rparen = Reads-punct rparen [] [] Reads-nil

-- The entries of an object, one after the other, and the closing parenthesis.
Reads-inline :
    (e : Chars × Chars) (es : TextFields)
    → is_fields (e ∷ es) ≡ true
    → Reads (join (b',' ∷ b' ' ∷ []) (map inline_entry (e ∷ es))) (inline_tokens (e ∷ es))
unfolding is_fields
Reads-inline (k, v) [] h = Reads-entry k v (ground arith) (ground arith)
Reads-inline (k, v) (f ∷ es) h =
    Reads-append (inline_entry (k, v))
      (b',' ∷ b' ' ∷ join (b',' ∷ b' ' ∷ []) (map inline_entry (f ∷ es))) (entry_tokens (k, v))
      (punct comma ∷ inline_tokens (f ∷ es)) (Reads-entry k v (ground arith) (ground arith))
      (Reads-punct comma (b' ' ∷ join (b',' ∷ b' ' ∷ []) (map inline_entry (f ∷ es)))
        (inline_tokens (f ∷ es))
        (Reads-space (join (b',' ∷ b' ' ∷ []) (map inline_entry (f ∷ es))) (inline_tokens (f ∷ es))
          (Reads-inline f es (ground arith))))

Reads-line :
    (k v : Chars)
    → is_key k ≡ true
    → is_quotable v ≡ true
    → Reads (entry_line (k, v)) (entry_tokens (k, v) ++ punct comma ∷ [])
Reads-line k v h q =
    let ended = inline_entry (k, v) ++ b',' ∷ [] in
    let ts = entry_tokens (k, v) ++ punct comma ∷ [] in
    Reads-space (b' ' ∷ ended) ts (
      Reads-space ended ts (
        Reads-append (inline_entry (k, v)) (b',' ∷ []) (entry_tokens (k, v)) (punct comma ∷ [])
          (Reads-entry k v h q) (Reads-punct comma [] [] Reads-nil)))

Reads-multiline :
    (e : Chars × Chars) (es : TextFields)
    → is_fields (e ∷ es) ≡ true
    → Reads (join (b'\n' ∷ []) (map entry_line (e ∷ es))) (multiline_tokens (e ∷ es))
unfolding is_fields
Reads-multiline (k, v) [] h = Reads-line k v (ground arith) (ground arith)
Reads-multiline (k, v) (f ∷ es) h =
    let later = join (b'\n' ∷ []) (map entry_line (f ∷ es)) in
    Reads-append (entry_line (k, v)) (b'\n' ∷ later) (entry_tokens (k, v) ++ punct comma ∷ [])
      (multiline_tokens (f ∷ es)) (Reads-line k v (ground arith) (ground arith))
      (Reads-newline later (multiline_tokens (f ∷ es)) (Reads-multiline f es (ground arith)))

pub Reads-args : (es : TextFields) → is_fields es ≡ true → Reads (render_args es) (args_tokens es)
unfolding render_args args_tokens inline_args multiline_args
Reads-args [] h = Reads-punct lparen (b')' ∷ []) (punct rparen ∷ []) Reads-rparen
Reads-args (e ∷ es) h = elim (Bool-cases (is_inline (e ∷ es))) [
  | inl short ↦ rw short (
      Reads-punct lparen (join (b',' ∷ b' ' ∷ []) (map inline_entry (e ∷ es)) ++ b')' ∷ [])
        (inline_tokens (e ∷ es) ++ punct rparen ∷ [])
        (Reads-append (join (b',' ∷ b' ' ∷ []) (map inline_entry (e ∷ es))) (b')' ∷ [])
          (inline_tokens (e ∷ es)) (punct rparen ∷ []) (Reads-inline e es h) Reads-rparen))
  | inr long ↦ rw long (
      Reads-punct lparen (b'\n' ∷ join (b'\n' ∷ []) (map entry_line (e ∷ es)) ++ b'\n' ∷ b')' ∷ [])
        (multiline_tokens (e ∷ es) ++ punct rparen ∷ [])
        (Reads-newline (join (b'\n' ∷ []) (map entry_line (e ∷ es)) ++ b'\n' ∷ b')' ∷ [])
          (multiline_tokens (e ∷ es) ++ punct rparen ∷ [])
          (Reads-append (join (b'\n' ∷ []) (map entry_line (e ∷ es))) (b'\n' ∷ b')' ∷ [])
            (multiline_tokens (e ∷ es)) (punct rparen ∷ []) (Reads-multiline e es h)
            (Reads-newline (b')' ∷ []) (punct rparen ∷ []) Reads-rparen))))
]

Reads-iterate : Reads (iterate_word ++ b' ' ∷ []) (keyword iterate_word ∷ [])
unfolding is_keyword
Reads-iterate =
    ReadsBefore-append iterate_word b' ' [] (keyword iterate_word ∷ []) [] refl
      (ReadsBefore-word iterate_word refl) (Reads-space [] [] Reads-nil)

Reads-executeif : Reads (executeif_word ++ b' ' ∷ []) (keyword executeif_word ∷ [])
unfolding is_keyword
Reads-executeif =
    ReadsBefore-append executeif_word b' ' [] (keyword executeif_word ∷ []) [] refl
      (ReadsBefore-word executeif_word refl) (Reads-space [] [] Reads-nil)

-- Each of these texts gives the tokens beside it.
abbrev pub AllRead : List Chars → List (List Token) → Type 0
AllRead [] [] = Unit
AllRead (p ∷ ps) (ts ∷ tss) = Reads p ts × AllRead ps tss
AllRead _ _ = ⊥

pub Reads-join :
    (p : Chars) (ps : List Chars) (ts : List Token) (tss : List (List Token))
    → AllRead (p ∷ ps) (ts ∷ tss)
    → Reads (join (b',' ∷ b' ' ∷ []) (p ∷ ps)) (join (punct comma ∷ []) (ts ∷ tss))
Reads-join p [] ts [] (h, hs) = h
Reads-join p [] ts (us ∷ tss) (h, hs) = elim hs [ ]
Reads-join p (q ∷ ps) ts [] (h, hs) = elim hs [ ]
Reads-join p (q ∷ ps) ts (us ∷ tss) (h, hs) =
    let later = join (b',' ∷ b' ' ∷ []) (q ∷ ps) in
    let tokens = join (punct comma ∷ []) (us ∷ tss) in
    Reads-append p (b',' ∷ b' ' ∷ later) ts (punct comma ∷ tokens) h (
      Reads-punct comma (b' ' ∷ later) tokens
        (Reads-space later tokens (Reads-join q ps us tss hs)))

addition-AllRead :
    (word : Chars) (o : Option Chars) (ps : List Chars) (tss : List (List Token))
    → Reads (word ++ b' ' ∷ []) (keyword word ∷ [])
    → is_addition_text o ≡ true
    → AllRead ps tss
    → AllRead (addition word o ++ ps) (addition_tokens word o ++ tss)
unfolding addition is_addition_text
addition-AllRead word none ps tss r h k = k
addition-AllRead word (some []) ps tss r h k = cc
addition-AllRead word (some (c ∷ cs)) ps tss r h k = (
  rw append_assoc at (
      Reads-append (word ++ b' ' ∷ []) (quote (c ∷ cs)) (keyword word ∷ []) (string (c ∷ cs) ∷ []) r
        (Reads-quote (c ∷ cs) h)),
  k,
)

pub additions-AllRead :
    (n : Node)
    → is_node n ≡ true
    → AllRead
        (addition iterate_word n.batch_over ++ addition executeif_word n.execute_if)
        (additions_of n)
unfolding is_node addition
additions-AllRead n h =
    let later = addition executeif_word n.execute_if in
    let tokens = addition_tokens executeif_word n.execute_if in
    let second =
      addition-AllRead executeif_word n.execute_if [] [] Reads-executeif (ground arith) tt in
    addition-AllRead iterate_word n.batch_over later tokens Reads-iterate (ground arith)
      (rw (append-nil later, append-nil tokens) at second)
