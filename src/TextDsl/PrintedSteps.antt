-- ===== src/TextDsl/PrintedSteps.antt =====
-- The tokens of a serialized step.
use mathlib.Core.List.{append_assoc}
use daisy_workflow.Common.{
  ◌≡◌, refl, subst, true, Bool-cases, inl, inr, List, [], ◌∷◌, ◌++◌, map, arith,
}
use daisy_workflow.TextDsl.Lexer.{
  Chars, Token, equals, colon, lparen, rparen, comma, punct, ident, keyword, is_keyword, step_word,
  iterate_word, executeif_word,
}
use daisy_workflow.TextDsl.Parser.{TextFields, Node}
use daisy_workflow.TextDsl.Serializer.{
  join, inline_entry, entry_line, inline_args, multiline_args, render_args, addition, wrapper,
  outputs_block, serialize_step,
}
use daisy_workflow.TextDsl.Pieces.{
  Reads, ReadsBefore, Reads-append, ReadsBefore-append, Reads-ReadsBefore_append, Reads-nil,
  Reads-space, Reads-punct, ReadsBefore-word,
}
use daisy_workflow.TextDsl.Canonical.{
  is_name, is_fields, is_node, is_inline, args_tokens, wrapper_tokens, outputs_tokens, additions_of,
  step_tokens,
}
use daisy_workflow.TextDsl.Pieces.{ReadsBefore-ReadsBefore_append}
use daisy_workflow.TextDsl.Printing.{
  ReadsBefore-name, Reads-rparen, Reads-args, AllRead, Reads-join, additions-AllRead,
}

Reads-step_word : Reads (step_word ++ b' ' ∷ []) (keyword step_word ∷ [])
unfolding is_keyword
Reads-step_word =
    ReadsBefore-append step_word b' ' [] (keyword step_word ∷ []) [] refl
      (ReadsBefore-word step_word refl) (Reads-space [] [] Reads-nil)

-- What stands before the inputs of a step with this wrapper.
abbrev head_parts : Chars → List Chars → Chars → Chars
head_parts name ps action =
    join (b' ' ∷ []) ((step_word ++ b' ' ∷ name) ∷ (wrapper ps ++ (b'=' ∷ []) ∷ action ∷ []))

module _ (name action : Chars) (h : is_name name ≡ true) (k : is_name action ≡ true) where
  ReadsBefore-action : ReadsBefore (b' ' ∷ b'=' ∷ b' ' ∷ action) (punct equals ∷ ident action ∷ [])
  ReadsBefore-action =
      Reads-ReadsBefore_append (b' ' ∷ b'=' ∷ b' ' ∷ []) action (punct equals ∷ [])
        (ident action ∷ [])
        (Reads-space (b'=' ∷ b' ' ∷ []) (punct equals ∷ [])
          (Reads-punct equals (b' ' ∷ []) [] (Reads-space [] [] Reads-nil)))
        (ReadsBefore-name action k)

  ReadsBefore-title : ReadsBefore (step_word ++ b' ' ∷ name) (keyword step_word ∷ ident name ∷ [])
  ReadsBefore-title =
      Reads-ReadsBefore_append (step_word ++ b' ' ∷ []) name (keyword step_word ∷ [])
        (ident name ∷ []) Reads-step_word (ReadsBefore-name name h)

  ReadsBefore-head :
      (ps : List Chars) (tss : List (List Token))
      → AllRead ps tss
      → ReadsBefore (head_parts name ps action) (
          keyword step_word ∷ ident name ∷ (wrapper_tokens tss ++ punct equals ∷ ident action ∷ []))
  ReadsBefore-head [] [] hs =
      ReadsBefore-ReadsBefore_append (step_word ++ b' ' ∷ name) b' ' (b'=' ∷ b' ' ∷ action)
        (keyword step_word ∷ ident name ∷ []) (punct equals ∷ ident action ∷ []) refl
        ReadsBefore-title ReadsBefore-action
  ReadsBefore-head (p ∷ ps) (ts ∷ tss) hs =
      let inner = join (b',' ∷ b' ' ∷ []) (p ∷ ps) in
      let tokens = join (punct comma ∷ []) (ts ∷ tss) in
      let closed : Reads (inner ++ b')' ∷ []) (tokens ++ punct rparen ∷ []) =
        Reads-append inner (b')' ∷ []) tokens (punct rparen ∷ []) (Reads-join p ps ts tss hs)
          Reads-rparen in
      let wrapped : Reads (b' ' ∷ b'(' ∷ (inner ++ b')' ∷ []))
          (punct lparen ∷ (tokens ++ punct rparen ∷ [])) =
        Reads-space (b'(' ∷ (inner ++ b')' ∷ [])) (punct lparen ∷ (tokens ++ punct rparen ∷ []))
          (Reads-punct lparen (inner ++ b')' ∷ []) (tokens ++ punct rparen ∷ []) closed) in
      ReadsBefore-ReadsBefore_append (step_word ++ b' ' ∷ name) b' '
        (b'(' ∷ ((inner ++ b')' ∷ []) ++ (b' ' ∷ b'=' ∷ b' ' ∷ action)))
        (keyword step_word ∷ ident name ∷ [])
        (punct lparen ∷ ((tokens ++ punct rparen ∷ []) ++ punct equals ∷ ident action ∷ [])) refl
        ReadsBefore-title
        (Reads-ReadsBefore_append (b' ' ∷ b'(' ∷ (inner ++ b')' ∷ [])) (b' ' ∷ b'=' ∷ b' ' ∷ action)
          (punct lparen ∷ (tokens ++ punct rparen ∷ [])) (punct equals ∷ ident action ∷ []) wrapped
          ReadsBefore-action)
  ReadsBefore-head [] (ts ∷ tss) hs = elim hs [ ]
  ReadsBefore-head (p ∷ ps) [] hs = elim hs [ ]

render_args-opens : (es : TextFields) → (q : Chars) × (render_args es ≡ b'(' ∷ q)
unfolding render_args inline_args multiline_args
render_args-opens [] = (b')' ∷ [], refl)
render_args-opens (e ∷ es) = elim (Bool-cases (is_inline (e ∷ es))) [
  | inl short ↦ (join (b',' ∷ b' ' ∷ []) (map inline_entry (e ∷ es)) ++ b')' ∷ [], rw short refl)
  | inr long ↦
      (b'\n' ∷ (join (b'\n' ∷ []) (map entry_line (e ∷ es)) ++ b'\n' ∷ b')' ∷ []), rw long refl)
]

ReadsBefore-args :
    (p : Chars) (ts : List Token) (es : TextFields)
    → ReadsBefore p ts
    → is_fields es ≡ true
    → Reads (p ++ render_args es) (ts ++ args_tokens es)
ReadsBefore-args p ts es h k =
    let opened = render_args-opens es in
    rw (opened.1) (
      ReadsBefore-append p b'(' opened.0 ts (args_tokens es) refl h
        (rw (opened.1) at (Reads-args es k)))

Reads-outputs :
    (es : TextFields) → is_fields es ≡ true → Reads (outputs_block es) (outputs_tokens es)
unfolding outputs_tokens
Reads-outputs [] h = Reads-nil
Reads-outputs (e ∷ es) h =
    let later = render_args (e ∷ es) in
    let ts = args_tokens (e ∷ es) in
    Reads-space (b':' ∷ b' ' ∷ later) (punct colon ∷ ts)
      (Reads-punct colon (b' ' ∷ later) ts (Reads-space later ts (Reads-args (e ∷ es) h)))

joined_tokens :
    (ws args outs : List Token) (action : Chars)
    → ((ws ++ punct equals ∷ ident action ∷ []) ++ args) ++ outs
      ≡ ws ++ (punct equals ∷ ident action ∷ (args ++ outs))
joined_tokens ws args outs action =
    let sign = punct equals ∷ ident action ∷ [] in
    rw (append_assoc ws sign args, append_assoc ws (sign ++ args) outs) refl

pub Reads-step : (n : Node) → is_node n ≡ true → Reads (serialize_step n) (step_tokens n)
unfolding is_node serialize_step step_tokens
Reads-step n h =
    let additions = addition iterate_word n.batch_over ++ addition executeif_word n.execute_if in
    let ws = wrapper_tokens (additions_of n) in
    let sign = punct equals ∷ ident n.action ∷ [] in
    let before = head_parts n.name additions n.action in
    let title = keyword step_word ∷ ident n.name ∷ [] in
    let read : Reads ((before ++ render_args n.inputs) ++ outputs_block n.outputs)
        (((title ++ (ws ++ sign)) ++ args_tokens n.inputs) ++ outputs_tokens n.outputs) =
      Reads-append (before ++ render_args n.inputs) (outputs_block n.outputs)
        ((title ++ (ws ++ sign)) ++ args_tokens n.inputs) (outputs_tokens n.outputs)
        (ReadsBefore-args before (title ++ (ws ++ sign)) n.inputs
          (ReadsBefore-head n.name n.action (ground arith) (ground arith) additions (additions_of n)
            (additions-AllRead n h))
          (ground arith))
        (Reads-outputs n.outputs (ground arith)) in
    subst (λ (ts : List Token). Reads (serialize_step n) (title ++ ts))
      (joined_tokens ws (args_tokens n.inputs) (outputs_tokens n.outputs) n.action) read
