-- ===== src/TextDsl/Printed.antt =====
-- The tokens of a serialized model: its steps, its edges and the whole.
use mathlib.Core.List.{append_assoc, append-nil}
use daisy_workflow.Common.{◌≡◌, refl, ap, ◌∙◌, true, List, [], ◌∷◌, ◌++◌, map, arith, all, ok}
use daisy_workflow.Js.{codes}
use daisy_workflow.TextDsl.Lexer.{Chars, Token, arrow, string, ident, eof, tokenize}
use daisy_workflow.TextDsl.Parser.{Node, Edge, Model}
use daisy_workflow.TextDsl.Serializer.{
  quote, join, serialize_step, edge_line, edge_lines, gap, serialize,
}
use daisy_workflow.TextDsl.Pieces.{
  pushes-ok, Reads, Reads-append, ReadsBefore-append, Reads-nil, Reads-space, Reads-newline,
  Reads-arrow,
}
use daisy_workflow.TextDsl.Canonical.{
  is_name, is_node, is_edge, is_expressible, step_tokens, edge_tokens, flatten, model_tokens,
}
use daisy_workflow.TextDsl.Printing.{Reads-quote, ReadsBefore-name}
use daisy_workflow.TextDsl.PrintedSteps.{Reads-step}

-- Each of these lines gives the tokens beside it, with the line's end.
abbrev LinesRead : List Chars → List (List Token) → Type 0
LinesRead [] [] = Unit
LinesRead (p ∷ ps) (ts ∷ tss) = Reads (p ++ b'\n' ∷ []) ts × LinesRead ps tss
LinesRead _ _ = ⊥

LinesRead-append :
    (ps qs : List Chars) (tss uss : List (List Token))
    → LinesRead ps tss
    → LinesRead qs uss
    → LinesRead (ps ++ qs) (tss ++ uss)
LinesRead-append [] qs [] uss h k = k
LinesRead-append (p ∷ ps) qs (ts ∷ tss) uss (h, hs) k = (h, LinesRead-append ps qs tss uss hs k)
LinesRead-append [] qs (ts ∷ tss) uss h k = elim h [ ]
LinesRead-append (p ∷ ps) qs [] uss h k = elim h [ ]

Reads-lines :
    (p : Chars) (ps : List Chars) (ts : List Token) (tss : List (List Token))
    → LinesRead (p ∷ ps) (ts ∷ tss)
    → Reads (join (b'\n' ∷ []) (p ∷ ps) ++ b'\n' ∷ []) (flatten (ts ∷ tss))
Reads-lines p [] ts [] (h, hs) = rw (append-nil ts) h
Reads-lines p (q ∷ ps) ts (us ∷ tss) (h, hs) =
    let later = join (b'\n' ∷ []) (q ∷ ps) in
    rw (append_assoc p (b'\n' ∷ later) (b'\n' ∷ [])) (
      rw (append_assoc p (b'\n' ∷ []) (later ++ b'\n' ∷ [])) at (
        Reads-append (p ++ b'\n' ∷ []) (later ++ b'\n' ∷ []) ts (flatten (us ∷ tss)) h
          (Reads-lines q ps us tss hs)))
Reads-lines p [] ts (us ∷ tss) (h, hs) = elim hs [ ]
Reads-lines p (q ∷ ps) ts [] (h, hs) = elim hs [ ]

Reads-ended : (p : Chars) (ts : List Token) → Reads p ts → Reads (p ++ b'\n' ∷ []) ts
Reads-ended p ts h =
    rw (append-nil ts) at (Reads-append p (b'\n' ∷ []) ts [] h (Reads-newline [] [] Reads-nil))

steps-LinesRead :
    (ns : List Node)
    → all is_node ns ≡ true
    → LinesRead (map serialize_step ns) (map step_tokens ns)
steps-LinesRead [] h = tt
steps-LinesRead (n ∷ ns) h = (
  Reads-ended (serialize_step n) (step_tokens n) (Reads-step n (ground arith)),
  steps-LinesRead ns (ground arith),
)

Reads-edge :
    (a b : Chars)
    → is_name a ≡ true
    → is_name b ≡ true
    → Reads ((a ++ (codes " --> " ++ b)) ++ b'\n' ∷ []) (ident a ∷ arrow ∷ ident b ∷ [])
Reads-edge a b h k = rw (append_assoc a (codes " --> " ++ b) (b'\n' ∷ [])) (
    ReadsBefore-append a b' ' (b'-' ∷ b'-' ∷ b'>' ∷ b' ' ∷ (b ++ b'\n' ∷ [])) (ident a ∷ [])
      (arrow ∷ ident b ∷ []) refl (ReadsBefore-name a h)
      (Reads-space (b'-' ∷ b'-' ∷ b'>' ∷ b' ' ∷ (b ++ b'\n' ∷ [])) (arrow ∷ ident b ∷ []) (
        Reads-arrow (b' ' ∷ (b ++ b'\n' ∷ [])) (ident b ∷ []) (
          Reads-space (b ++ b'\n' ∷ []) (ident b ∷ []) (
            ReadsBefore-append b b'\n' [] (ident b ∷ []) [] refl (ReadsBefore-name b k)
              (Reads-newline [] [] Reads-nil))))))

edge-LinesRead :
    (a b : Chars)
    → is_name a ≡ true
    → is_name b ≡ true
    → LinesRead (edge_line a b) ((ident a ∷ arrow ∷ ident b ∷ []) ∷ [])
unfolding is_name
edge-LinesRead [] b h k = cc
edge-LinesRead (c ∷ cs) [] h k = cc
edge-LinesRead (c ∷ cs) (d ∷ ds) h k = (Reads-edge (c ∷ cs) (d ∷ ds) h k, tt)

edges-LinesRead :
    (es : List Edge) → all is_edge es ≡ true → LinesRead (edge_lines es) (map edge_tokens es)
unfolding is_edge
edges-LinesRead [] h = tt
edges-LinesRead (e ∷ es) h =
    LinesRead-append (edge_line e.from e.to) (edge_lines es) (edge_tokens e ∷ [])
      (map edge_tokens es) (edge-LinesRead e.from e.to (ground arith) (ground arith))
      (edges-LinesRead es (ground arith))

abbrev gap_tokens {ℓ} : {A : Type ℓ} → List A → List (List Token)
gap_tokens [] = []
gap_tokens (x ∷ xs) = [] ∷ []

gap-LinesRead {ℓ} : {A : Type ℓ} (xs : List A) → LinesRead (gap xs) (gap_tokens xs)
gap-LinesRead [] = tt
gap-LinesRead (x ∷ xs) = (Reads-newline [] [] Reads-nil, tt)

flatten-gap_tokens {ℓ} :
    {A : Type ℓ} (xs : List A) (tss : List (List Token))
    → flatten (gap_tokens xs ++ tss) ≡ flatten tss
flatten-gap_tokens [] tss = refl
flatten-gap_tokens (x ∷ xs) tss = refl

flatten-append : (tss uss : List (List Token)) → flatten (tss ++ uss) ≡ flatten tss ++ flatten uss
flatten-append [] uss = refl
flatten-append (ts ∷ tss) uss =
    rw (append_assoc ts (flatten tss) (flatten uss))
      (ap (λ (us : List Token). ts ++ us) (flatten-append tss uss))

abbrev later_lines : Model → List Chars
later_lines m = gap m.nodes ++ (map serialize_step m.nodes ++ (gap m.edges ++ edge_lines m.edges))

abbrev later_tokens : Model → List (List Token)
later_tokens m =
    gap_tokens m.nodes
    ++ (map step_tokens m.nodes ++ (gap_tokens m.edges ++ map edge_tokens m.edges))

lines-LinesRead :
    (m : Model)
    → is_expressible m ≡ true
    → LinesRead (quote m.name ∷ later_lines m) ((string m.name ∷ []) ∷ later_tokens m)
unfolding is_expressible
lines-LinesRead m h = (
  Reads-ended (quote m.name) (string m.name ∷ []) (Reads-quote m.name (ground arith)),
  LinesRead-append (gap m.nodes) (map serialize_step m.nodes ++ (gap m.edges ++ edge_lines m.edges))
      (gap_tokens m.nodes)
      (map step_tokens m.nodes ++ (gap_tokens m.edges ++ map edge_tokens m.edges))
      (gap-LinesRead m.nodes)
      (LinesRead-append (map serialize_step m.nodes) (gap m.edges ++ edge_lines m.edges)
        (map step_tokens m.nodes) (gap_tokens m.edges ++ map edge_tokens m.edges)
        (steps-LinesRead m.nodes (ground arith))
        (LinesRead-append (gap m.edges) (edge_lines m.edges) (gap_tokens m.edges)
          (map edge_tokens m.edges) (gap-LinesRead m.edges)
          (edges-LinesRead m.edges (ground arith)))),
)

flatten-later_tokens :
    (m : Model)
    → flatten (later_tokens m)
      ≡ flatten (map step_tokens m.nodes) ++ flatten (map edge_tokens m.edges)
flatten-later_tokens m =
    flatten-gap_tokens m.nodes
      (map step_tokens m.nodes ++ (gap_tokens m.edges ++ map edge_tokens m.edges))
    ∙ flatten-append (map step_tokens m.nodes) (gap_tokens m.edges ++ map edge_tokens m.edges)
    ∙ ap (λ (ts : List Token). flatten (map step_tokens m.nodes) ++ ts)
        (flatten-gap_tokens m.edges (map edge_tokens m.edges))

-- The serialized model lexes to the model's tokens.
pub tokenize-serialize :
    (m : Model) → is_expressible m ≡ true → tokenize (serialize m) ≡ ok (model_tokens m ++ eof ∷ [])
unfolding serialize model_tokens tokenize
tokenize-serialize m h =
    let read =
      Reads-lines (quote m.name) (later_lines m) (string m.name ∷ []) (later_tokens m)
        (lines-LinesRead m h) [] in
    rw append-nil at read
    ∙ pushes-ok (flatten ((string m.name ∷ []) ∷ later_tokens m)) (eof ∷ [])
    ∙ rw (flatten-later_tokens m) refl
