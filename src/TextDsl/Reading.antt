-- ===== src/TextDsl/Reading.antt =====
-- The parser's productions on the tokens of a model.
use mathlib.Core.List.{append_assoc, append-nil}
use daisy_workflow.Common.{
  ◌≡◌, refl, sym, ◌∙◌, true, false, Bool-cases, inl, inr, Option, none, some, List, [], ◌∷◌, ◌++◌,
  arith, ok,
}
use daisy_workflow.TextDsl.Lexer.{
  Chars, same_chars, Token, equals, colon, lparen, rparen, comma, punct, arrow, string, ident,
  keyword, eof, iterate_word, executeif_word,
}
use daisy_workflow.TextDsl.Parser.{
  TextFields, Node, set_own, set_entry, args_loop, args, match_punct, additions_loop,
  additions_wrapper_opt, outputs_opt, step,
}
use daisy_workflow.TextDsl.Canonical.{
  is_key, is_fresh, is_fields, is_addition_text, is_node, inline_tokens, multiline_tokens,
  is_inline, args_tokens, addition_tokens, wrapper_tokens, outputs_tokens, additions_of,
}

is_fresh-append :
    (name k v : Chars) (out es : TextFields)
    → is_fresh name (out ++ (k, v) ∷ es) ≡ true
    → same_chars name k ≡ false
is_fresh-append name k v [] es h = ground arith
is_fresh-append name k v ((j, w) ∷ out) es h = is_fresh-append name k v out es (ground arith)

-- A key that comes later in an object is none of the keys before it.
set_entry-append :
    (k v : Chars) (out es : TextFields)
    → is_fields (out ++ (k, v) ∷ es) ≡ true
    → set_entry k v out ≡ out ++ (k, v) ∷ []
unfolding set_entry set_own is_fields is_key
set_entry-append k v [] es h = ground arith
set_entry-append k v ((name, there) ∷ out) es h =
    ground (arith, is_fresh-append name k v out es, set_entry-append k v out es)

abbrev set_all : TextFields → TextFields → TextFields
set_all out [] = out
set_all out ((k, v) ∷ es) = set_all (set_entry k v out) es

set_all-append : (out es : TextFields) → is_fields (out ++ es) ≡ true → set_all out es ≡ out ++ es
set_all-append out [] h = sym (append-nil out)
set_all-append out ((k, v) ∷ es) h = rw (set_entry-append k v out es h) (
    set_all-append (out ++ (k, v) ∷ []) es (rw (append_assoc out ((k, v) ∷ []) es) h)
    ∙ append_assoc out ((k, v) ∷ []) es)

inline_tokens-open :
    (e : Chars × Chars) (es : TextFields) (rest : List Token)
    → match_punct rparen (inline_tokens (e ∷ es) ++ rest) ≡ false
inline_tokens-open e [] rest = refl
inline_tokens-open e (f ∷ es) rest = refl

args_loop-inline :
    (out : TextFields) (e : Chars × Chars) (es : TextFields) (rest : List Token)
    → args_loop out (inline_tokens (e ∷ es) ++ punct rparen ∷ rest)
      ≡ ok (set_all out (e ∷ es), rest)
unfolding args_loop
args_loop-inline out (k, v) [] rest = refl
args_loop-inline out (k, v) ((j, w) ∷ es) rest =
    rw (inline_tokens-open (j, w) es (punct rparen ∷ rest))
      (args_loop-inline (set_entry k v out) (j, w) es rest)

args_loop-multiline :
    (out : TextFields) (e : Chars × Chars) (es : TextFields) (rest : List Token)
    → args_loop out (multiline_tokens (e ∷ es) ++ punct rparen ∷ rest)
      ≡ ok (set_all out (e ∷ es), rest)
unfolding args_loop
args_loop-multiline out (k, v) [] rest = refl
args_loop-multiline out (k, v) ((j, w) ∷ es) rest =
    args_loop-multiline (set_entry k v out) (j, w) es rest

args-open :
    (ts : List Token) → match_punct rparen ts ≡ false → args (punct lparen ∷ ts) ≡ args_loop [] ts
unfolding args
args-open [] h = refl
args-open (punct equals ∷ ts) h = refl
args-open (punct colon ∷ ts) h = refl
args-open (punct lparen ∷ ts) h = refl
args-open (punct rparen ∷ ts) h = cc
args-open (punct comma ∷ ts) h = refl
args-open (arrow ∷ ts) h = refl
args-open (string v ∷ ts) h = refl
args-open (ident v ∷ ts) h = refl
args-open (keyword v ∷ ts) h = refl
args-open (eof ∷ ts) h = refl

pub args-args_tokens :
    (es : TextFields) (rest : List Token)
    → is_fields es ≡ true
    → args (args_tokens es ++ rest) ≡ ok (es, rest)
unfolding args_tokens
args-args_tokens [] rest h = unfold args in refl
args-args_tokens ((k, v) ∷ es) rest h = elim (Bool-cases (is_inline ((k, v) ∷ es))) [
  | inl short ↦
      let tokens = inline_tokens ((k, v) ∷ es) in
      rw
        (
          short,
          append_assoc tokens (punct rparen ∷ []) rest,
          args-open (tokens ++ punct rparen ∷ rest)
              (inline_tokens-open (k, v) es (punct rparen ∷ rest)),
          args_loop-inline [] (k, v) es rest,
          set_all-append [] ((k, v) ∷ es) h,
        )
        refl
  | inr long ↦
      let tokens = multiline_tokens ((k, v) ∷ es) in
      rw
        (
          long,
          append_assoc tokens (punct rparen ∷ []) rest,
          args-open (tokens ++ punct rparen ∷ rest) refl,
          args_loop-multiline [] (k, v) es rest,
          set_all-append [] ((k, v) ∷ es) h,
        )
        refl
]

pub additions-wrapper_tokens :
    (b e : Option Chars) (rest : List Token)
    → is_addition_text b ≡ true
    → is_addition_text e ≡ true
    → additions_wrapper_opt (
        wrapper_tokens (addition_tokens iterate_word b ++ addition_tokens executeif_word e)
        ++ punct equals ∷ rest)
      ≡ ok (record { batch_over = b; execute_if = e }, punct equals ∷ rest)
unfolding additions_wrapper_opt additions_loop is_addition_text
additions-wrapper_tokens none none rest h k = refl
additions-wrapper_tokens none (some (c ∷ cs)) rest h k = refl
additions-wrapper_tokens (some (b ∷ bs)) none rest h k = refl
additions-wrapper_tokens (some (b ∷ bs)) (some (c ∷ cs)) rest h k = refl
additions-wrapper_tokens (some []) e rest h k = cc
additions-wrapper_tokens none (some []) rest h k = cc
additions-wrapper_tokens (some (b ∷ bs)) (some []) rest h k = cc

pub outputs_opt-outputs_tokens :
    (es : TextFields) (rest : List Token)
    → match_punct colon rest ≡ false
    → is_fields es ≡ true
    → outputs_opt (outputs_tokens es ++ rest) ≡ ok (es, rest)
unfolding outputs_opt outputs_tokens
outputs_opt-outputs_tokens (e ∷ es) rest h k = args-args_tokens (e ∷ es) rest k
outputs_opt-outputs_tokens [] rest h k = without rest h
  where
    without : (ts : List Token) → match_punct colon ts ≡ false → outputs_opt ts ≡ ok ([], ts)
    without [] e = refl
    without (punct equals ∷ ts) e = refl
    without (punct colon ∷ ts) e = cc
    without (punct lparen ∷ ts) e = refl
    without (punct rparen ∷ ts) e = refl
    without (punct comma ∷ ts) e = refl
    without (arrow ∷ ts) e = refl
    without (string v ∷ ts) e = refl
    without (ident v ∷ ts) e = refl
    without (keyword v ∷ ts) e = refl
    without (eof ∷ ts) e = refl

-- The tokens of a step, after its keyword, read as that step.
pub step-step_tokens :
    (n : Node) (rest : List Token)
    → match_punct colon rest ≡ false
    → is_node n ≡ true
    → step (
        ident n.name
        ∷ ((wrapper_tokens (additions_of n)
              ++ (punct equals
                  ∷ ident n.action
                  ∷ (args_tokens n.inputs ++ outputs_tokens n.outputs)))
            ++ rest))
      ≡ ok (n, rest)
unfolding step is_node
step-step_tokens n rest h k =
    let as_read = args_tokens n.inputs ++ outputs_tokens n.outputs in
    rw
      (
        append_assoc (wrapper_tokens (additions_of n)) (punct equals ∷ ident n.action ∷ as_read)
            rest,
        additions-wrapper_tokens n.batch_over n.execute_if (ident n.action ∷ (as_read ++ rest))
            (ground arith) (ground arith),
        append_assoc (args_tokens n.inputs) (outputs_tokens n.outputs) rest,
        args-args_tokens n.inputs (outputs_tokens n.outputs ++ rest) (ground arith),
        outputs_opt-outputs_tokens n.outputs rest h (ground arith),
      )
      refl
