-- ===== src/TextDsl/Parser/Ends.antt =====
-- The parser takes tokens away, so it ends on every text.
use daisy_workflow.Common.{
  ℕ, zero, suc, ◌≤◌, ◌≡◌, ◌≢◌, Bool, true, false, Bool-cases, inl, inr, List, [], ◌∷◌, arith,
  if◌then◌else◌, length, Result, ok, err, ◌>>=◌,
}
use daisy_workflow.TextDsl.Lexer.{
  Chars, Token, arrow, string, ident, eof, LexError, out_of_fuel, tokenize,
}
use daisy_workflow.TextDsl.Lexer.Steps.{tokenize-ends}
use daisy_workflow.TextDsl.Parser.{
  Node, Edge, of_step_before_edge, of_edge, consume_string, ParseError, lexing, expected, stopped,
  Parse, step, steps, match_step, node_cons, edge_cons, edges, program, lexed, parse, fail, tail,
}
use daisy_workflow.TextDsl.Parser.Takes.{Within, Within-weaken, Within->>=, step-Within}

match_step-tail : (ts : List Token) → match_step ts ≡ true → suc (length (tail ts)) ≤ length ts
match_step-tail (t ∷ ts) h = omega arith
match_step-tail [] h = cc

node_cons-Within :
    (n m : ℕ) (node : Node) (r : Parse (List Node))
    → n ≤ m
    → Within n r
    → Within m (node_cons node r)
node_cons-Within n m node (ok (ns, ts)) h k = omega arith
node_cons-Within n m node (err (expected what t)) h k = tt
node_cons-Within n m node (err (lexing why)) h k = k
node_cons-Within n m node (err stopped) h k = k

steps-Within : (fuel : ℕ) (ts : List Token) → length ts ≤ fuel → Within (length ts) (steps fuel ts)
unfolding steps
steps-Within zero ts h = elim (Bool-cases (match_step ts)) [
  | inl more ↦ absurd (omega (arith, match_step-tail ts more))
  | inr end ↦ rw end (omega arith)
]
steps-Within (suc fuel) ts h = elim (Bool-cases (match_step ts)) [
  | inl more ↦
      let left = match_step-tail ts more in
      rw more (
        Within-weaken (length (tail ts)) (length ts)
          (step (tail ts) >>= λ r. node_cons r.0 (steps fuel r.1)) (omega arith)
          (Within->>= (length (tail ts)) (step (tail ts)) (λ r. node_cons r.0 (steps fuel r.1))
            (step-Within (tail ts))
            λ node us k.
              node_cons-Within (length us) (length (tail ts)) node (steps fuel us) k
                (steps-Within fuel us (omega arith))))
  | inr end ↦ rw end (omega arith)
]

-- The edges are the last production: it leaves nothing that counts.
abbrev Reports {ℓ} : {A : Type ℓ} → Result ParseError A → Type 0
Reports (ok a) = Unit
Reports (err (expected what t)) = Unit
Reports (err (lexing why)) = why ≢ out_of_fuel
Reports (err stopped) = ⊥

edge_cons-Reports :
    (e : Edge) (r : Result ParseError (List Edge)) → Reports r → Reports (edge_cons e r)
edge_cons-Reports e (ok es) h = tt
edge_cons-Reports e (err (expected what t)) h = tt
edge_cons-Reports e (err (lexing why)) h = h
edge_cons-Reports e (err stopped) h = h

Reports-if :
    {A : Type 0} (b : Bool) (r s : Result ParseError A)
    → Reports r
    → Reports s
    → Reports (if b then r else s)
Reports-if true r s h k = h
Reports-if false r s h k = k

edges-Reports : (ts : List Token) → Reports (edges ts)
unfolding edges
edges-Reports (eof ∷ ts) = tt
edges-Reports (ident a ∷ arrow ∷ ident b ∷ ts) =
    edge_cons-Reports (record { from = a; to = b }) (edges ts) (edges-Reports ts)
edges-Reports (ident a ∷ arrow ∷ ts) = tt
edges-Reports ts =
    Reports-if {A = List Edge} (match_step ts) (fail of_step_before_edge ts) (fail of_edge ts) tt tt

Reports->>= :
    {A B : Type 0} (n : ℕ) (r : Parse A) (f : A × List Token → Result ParseError B)
    → Within n r
    → ((a : A) (ts : List Token) → Reports (f (a, ts)))
    → Reports (r >>= f)
Reports->>= n (ok (a, ts)) f h k = k a ts
Reports->>= n (err (expected what t)) f h k = tt
Reports->>= n (err (lexing why)) f h k = elim h [ ]
Reports->>= n (err stopped) f h k = elim h [ ]

consume_string-Within : (ts : List Token) → Within (length ts) (consume_string ts)
consume_string-Within (string v ∷ ts) = omega arith
consume_string-Within ts = tt

Reports-ok :
    {A B : Type 0} (r : Result ParseError A) (f : A → B) → Reports r → Reports (r >>= λ a. ok (f a))
Reports-ok (ok a) f h = tt
Reports-ok (err (expected what t)) f h = tt
Reports-ok (err (lexing why)) f h = h
Reports-ok (err stopped) f h = h

program-Reports : (ts : List Token) → Reports (program ts)
unfolding program
program-Reports ts =
    Reports->>= (length ts) (consume_string ts) _ (consume_string-Within ts) λ title us.
      Reports->>= (length us) (steps (length us) us) _ (steps-Within (length us) us (omega arith))
        λ nodes vs.
          Reports-ok (edges vs)
            (λ (links : List Edge). record { name = title; nodes = nodes; edges = links })
            (edges-Reports vs)

Reports-ends {ℓ} :
    {A : Type ℓ} (r : Result ParseError A)
    → Reports r
    → (r ≢ err stopped) × (r ≢ err (lexing out_of_fuel))
Reports-ends (ok a) h = (λ e. cc, λ e. cc)
Reports-ends (err (expected what t)) h = (λ e. cc, λ e. cc)
Reports-ends (err (lexing why)) h = (λ e. cc, λ e. h (cc))
Reports-ends (err stopped) h = elim h [ ]

lexed-Reports :
    (r : Result LexError (List Token)) → r ≢ err out_of_fuel → Reports (lexed r >>= program)
lexed-Reports (ok ts) h = program-Reports ts
lexed-Reports (err why) h = λ e. h (cc)

-- The parser ends on every text, neither its lexer's loop nor its loop over the steps out of fuel:
-- it gives a model or an error that names what the lexer met, or what was expected and what stood
-- there.
pub parse-ends :
    (source : Chars) → (parse source ≢ err stopped) × (parse source ≢ err (lexing out_of_fuel))
unfolding parse
parse-ends source =
    Reports-ends (lexed (tokenize source) >>= program)
      (lexed-Reports (tokenize source) (tokenize-ends source))
