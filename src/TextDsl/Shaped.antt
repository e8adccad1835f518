-- ===== src/TextDsl/Shaped.antt =====
-- The models that the parser gives, from its steps and edges to the whole text.
use daisy_workflow.Common.{
  ℕ, zero, suc, ◌≡◌, subst, Bool, true, false, List, [], ◌∷◌, if◌then◌else◌, length, Result, ok,
  err, ◌>>=◌,
}
use daisy_workflow.TextDsl.Lexer.{
  Chars, Punct, equals, Token, arrow, string, ident, eof, LexError, tokenize,
}
use daisy_workflow.TextDsl.Parser.{
  Node, Edge, Model, consume_string, ParseError, Parse, args, additions_wrapper_opt, outputs_opt,
  step, steps, match_step, node_cons, edge_cons, edges, program, lexed, parse, match_punct,
  consume_ident, consume_punct, tail, fail, of_step_before_edge, of_edge,
}
use daisy_workflow.TextDsl.Canonical.{is_name}
use daisy_workflow.TextDsl.Words.{AllLexed, tokenize-AllLexed}
use daisy_workflow.TextDsl.Shapes.{
  IsFields, IsNode, IsEdge, Each, IsModel, Lexed, Lexed-tail, Lexed-name, Good, Good-if, Good->>=,
  Any, args-Good, outputs_opt-Good, additions_wrapper_opt-Good,
}

abbrev IsName : Chars → Type 0
IsName w = is_name w ≡ true

consume_ident-Good : (ts : List Token) → Lexed ts → Good IsName (consume_ident ts)
consume_ident-Good (ident v ∷ ts) l = (Lexed-name v ts l, Lexed-tail (ident v) ts l)
consume_ident-Good ts l = tt

consume_punct-Good :
    (p : Punct) (ts : List Token) → Lexed ts → Good (λ u. Unit) (consume_punct p ts)
consume_punct-Good p [] l = tt
consume_punct-Good p (t ∷ ts) l =
    Good-if (λ u. Unit) (match_punct p (t ∷ ts)) (ok (tt, ts)) _ (tt, Lexed-tail t ts l) tt

step-Good : (ts : List Token) → Lexed ts → Good IsNode (step ts)
unfolding step
step-Good ts l =
    Good->>= IsName IsNode (consume_ident ts) _ (consume_ident-Good ts l) λ name ts1 n l.
      Good->>= Any IsNode (additions_wrapper_opt ts1) _ (additions_wrapper_opt-Good ts1 l)
        λ added ts2 u l.
          Good->>= (λ u. Unit) IsNode (consume_punct equals ts2) _ (consume_punct-Good equals ts2 l)
            λ e ts3 u l.
              Good->>= IsName IsNode (consume_ident ts3) _ (consume_ident-Good ts3 l)
                λ plugin ts4 a l.
                  Good->>= IsFields IsNode (args ts4) _ (args-Good ts4 l) λ inputs ts5 i l.
                    Good->>= IsFields IsNode (outputs_opt ts5) _ (outputs_opt-Good ts5 l)
                      λ outputs ts6 o l. ((n, a, i, o), l)

Lexed-after : (ts : List Token) → Lexed ts → Lexed (tail ts)
Lexed-after [] l = l
Lexed-after (t ∷ ts) l = Lexed-tail t ts l

node_cons-Good :
    (n : Node) (r : Parse (List Node))
    → IsNode n
    → Good (Each IsNode) r
    → Good (Each IsNode) (node_cons n r)
node_cons-Good n (ok (ns, ts)) i (more, l) = ((i, more), l)
node_cons-Good n (err why) i g = tt

steps-Good : (fuel : ℕ) (ts : List Token) → Lexed ts → Good (Each IsNode) (steps fuel ts)
unfolding steps
steps-Good zero ts l = Good-if (Each IsNode) (match_step ts) _ (ok ([], ts)) tt (tt, l)
steps-Good (suc fuel) ts l =
    Good-if (Each IsNode) (match_step ts) _ (ok ([], ts))
      (Good->>= IsNode (Each IsNode) (step (tail ts)) (λ r. node_cons r.0 (steps fuel r.1))
        (step-Good (tail ts) (Lexed-after ts l))
        λ n us i k. node_cons-Good n (steps fuel us) i (steps-Good fuel us k))
      (tt, l)

-- A result, where there is one.
abbrev Holds {ℓ} : {A : Type ℓ} → (A → Type 0) → Result ParseError A → Type 0
Holds P (ok a) = P a
Holds P (err why) = Unit

edge_cons-Holds :
    (e : Edge) (r : Result ParseError (List Edge))
    → IsEdge e
    → Holds (Each IsEdge) r
    → Holds (Each IsEdge) (edge_cons e r)
edge_cons-Holds e (ok es) i h = (i, h)
edge_cons-Holds e (err why) i h = tt

Holds-if :
    {A : Type 0} (P : A → Type 0) (b : Bool) (r s : Result ParseError A)
    → Holds P r
    → Holds P s
    → Holds P (if b then r else s)
Holds-if P true r s h k = h
Holds-if P false r s h k = k

edges-Holds : (ts : List Token) → Lexed ts → Holds (Each IsEdge) (edges ts)
unfolding edges
edges-Holds (eof ∷ ts) l = tt
edges-Holds (ident a ∷ arrow ∷ ident b ∷ ts) l =
    let more : Lexed (ident b ∷ ts) = Lexed-tail (ident a) (arrow ∷ ident b ∷ ts) l in
    edge_cons-Holds (record { from = a; to = b }) (edges ts)
      (Lexed-name a (arrow ∷ ident b ∷ ts) l, Lexed-name b ts more)
      (edges-Holds ts (Lexed-tail (ident b) ts more))
edges-Holds (ident a ∷ arrow ∷ ts) l = tt
edges-Holds ts l =
    Holds-if (Each IsEdge) (match_step ts) (fail of_step_before_edge ts) (fail of_edge ts) tt tt

Holds->>= :
    {A B : Type 0} (P : A → Type 0) (Q : B → Type 0) (r : Parse A)
    (f : A × List Token → Result ParseError B)
    → Good P r
    → ((a : A) (ts : List Token) → P a → Lexed ts → Holds Q (f (a, ts)))
    → Holds Q (r >>= f)
Holds->>= P Q (ok (a, ts)) f (p, l) k = k a ts p l
Holds->>= P Q (err why) f h k = tt

consume_string-Good : (ts : List Token) → Lexed ts → Good (λ v. Unit) (consume_string ts)
consume_string-Good (string v ∷ ts) l = (tt, l)
consume_string-Good ts l = tt

links-Holds :
    (title : Chars) (nodes : List Node) (r : Result ParseError (List Edge))
    → Each IsNode nodes
    → Holds (Each IsEdge) r
    → Holds IsModel (r >>= λ links. ok (record { name = title; nodes = nodes; edges = links }))
links-Holds title nodes (ok links) i h = (i, h)
links-Holds title nodes (err why) i h = tt

program-Holds : (ts : List Token) → Lexed ts → Holds IsModel (program ts)
unfolding program
program-Holds ts l =
    Holds->>= (λ v. Unit) IsModel (consume_string ts) _ (consume_string-Good ts l)
      λ title us u l.
        Holds->>= (Each IsNode) IsModel (steps (length us) us) _ (steps-Good (length us) us l)
          λ nodes vs i l. links-Holds title nodes (edges vs) i (edges-Holds vs l)

lexed-Holds : (r : Result LexError (List Token)) → AllLexed r → Holds IsModel (lexed r >>= program)
lexed-Holds (ok ts) h = program-Holds ts h
lexed-Holds (err why) h = tt

-- A text that the parser takes gives a model in which every name of a step, every plugin and both
-- ends of every edge are a word of the language that is no keyword, and in which the inputs and
-- the outputs of every step have such words as keys, each of them once and none of them
-- `__proto__`.
pub parse-IsModel : (source : Chars) (m : Model) → parse source ≡ ok m → IsModel m
unfolding parse
parse-IsModel source m e =
    subst (Holds IsModel) e (lexed-Holds (tokenize source) (tokenize-AllLexed source))
