-- ===== src/TextDsl/Shapes.antt =====
-- The shape of the models that the parser gives: names are names, and objects have each key once.
use daisy_workflow.Common.{
  ◌≡◌, refl, arith, Bool, true, false, not, Bool-cases, inl, inr, List, [], ◌∷◌, all, if◌then◌else◌,
  Result, ok, err, ◌>>=◌,
}
use daisy_workflow.Js.{codes}
use daisy_workflow.TextDsl.Lexer.{
  Chars, same_chars, colon, lparen, rparen, comma, Token, punct, string, ident, keyword,
}
use daisy_workflow.TextDsl.Parser.{
  TextFields, Node, Edge, Model, Additions, ParseError, Parse, set_own, set_entry, args_loop, args,
  add, close_args, close_additions, additions_loop, additions_wrapper_opt, outputs_opt, match_punct,
  is_addition, no_additions,
}
use daisy_workflow.TextDsl.Canonical.{is_name, is_key, is_fresh}
use daisy_workflow.TextDsl.Words.{is_lexed}

abbrev pub IsFields : TextFields → Type 0
IsFields [] = Unit
IsFields ((k, v) ∷ es) = (is_key k ≡ true) × (is_fresh k es ≡ true) × IsFields es

abbrev pub IsNode : Node → Type 0
IsNode n =
    (is_name n.name ≡ true) × (is_name n.action ≡ true) × IsFields n.inputs × IsFields n.outputs

abbrev pub IsEdge : Edge → Type 0
IsEdge e = (is_name e.from ≡ true) × (is_name e.to ≡ true)

abbrev pub Each {ℓ} : {A : Type ℓ} → (A → Type 0) → List A → Type 0
Each P [] = Unit
Each P (x ∷ xs) = P x × Each P xs

abbrev pub IsModel : Model → Type 0
IsModel m = Each IsNode m.nodes × Each IsEdge m.edges

set_own-is_fresh :
    (j k v : Chars) (es : TextFields)
    → is_fresh j es ≡ true
    → same_chars j k ≡ false
    → is_fresh j (set_own k v es) ≡ true
unfolding set_own
set_own-is_fresh j k v [] h e = rw e refl
set_own-is_fresh j k v ((at, there) ∷ es) h e = elim (Bool-cases (same_chars at k)) [
  | inl same ↦ rw same h
  | inr other ↦
      let here : not (same_chars j at) ≡ true = ground arith in
      let later : is_fresh j es ≡ true = ground arith in
      rw other (rw (here, set_own-is_fresh j k v es later e) refl)
]

set_own-IsFields :
    (k v : Chars) (es : TextFields) → is_key k ≡ true → IsFields es → IsFields (set_own k v es)
unfolding set_own
set_own-IsFields k v [] h i = (h, refl, tt)
set_own-IsFields k v ((at, there) ∷ es) h (key, fresh, more) = elim (Bool-cases (same_chars at k)) [
  | inl same ↦ rw same (key, fresh, more)
  | inr other ↦
      rw other (key, set_own-is_fresh at k v es fresh other, set_own-IsFields k v es h more)
]

set_entry-IsFields :
    (k v : Chars) (es : TextFields) → is_name k ≡ true → IsFields es → IsFields (set_entry k v es)
unfolding set_entry is_key
set_entry-IsFields k v es h i = elim (Bool-cases (same_chars k (codes "__proto__"))) [
  | inl proto ↦ rw proto i
  | inr other ↦ rw other (set_own-IsFields k v es (rw (h, other) refl) i)
]

abbrev pub Lexed : List Token → Type 0
Lexed ts = all is_lexed ts ≡ true

pub Lexed-tail : (t : Token) (ts : List Token) → Lexed (t ∷ ts) → Lexed ts
Lexed-tail t ts h = ground arith

pub Lexed-name : (w : Chars) (ts : List Token) → Lexed (ident w ∷ ts) → is_name w ≡ true
Lexed-name w ts h = ground arith

-- What a production gives has the shape, and the tokens after it are the lexer's still.
abbrev pub Good {ℓ} : {A : Type ℓ} → (A → Type 0) → Result ParseError (A × List Token) → Type 0
Good P (ok (a, ts)) = P a × Lexed ts
Good P (err why) = Unit

pub Good-if :
    {A : Type 0} (P : A → Type 0) (b : Bool) (r s : Parse A)
    → Good P r
    → Good P s
    → Good P (if b then r else s)
Good-if P true r s h k = h
Good-if P false r s h k = k

pub Good->>= :
    {A B : Type 0} (P : A → Type 0) (Q : B → Type 0) (r : Parse A) (f : A × List Token → Parse B)
    → Good P r
    → ((a : A) (ts : List Token) → P a → Lexed ts → Good Q (f (a, ts)))
    → Good Q (r >>= f)
Good->>= P Q (ok (a, ts)) f (p, l) k = k a ts p l
Good->>= P Q (err why) f h k = tt

close_args-Good :
    (out : TextFields) (ts : List Token)
    → IsFields out
    → Lexed ts
    → Good IsFields (close_args out ts)
close_args-Good out (punct rparen ∷ ts) i l = (i, l)
close_args-Good out ts i l = tt

args_loop-Good :
    (out : TextFields) (ts : List Token)
    → IsFields out
    → Lexed ts
    → Good IsFields (args_loop out ts)
unfolding args_loop
args_loop-Good out (ident k ∷ punct colon ∷ string v ∷ punct comma ∷ ts) i l =
    let later =
      set_entry-IsFields k v out (Lexed-name k (punct colon ∷ string v ∷ punct comma ∷ ts) l) i in
    let more = Lexed-tail (ident k) (punct colon ∷ string v ∷ punct comma ∷ ts) l in
    Good-if IsFields (match_punct rparen ts) _ _ (close_args-Good (set_entry k v out) ts later more)
      (args_loop-Good (set_entry k v out) ts later more)
args_loop-Good out (ident k ∷ punct colon ∷ string v ∷ ts) i l =
    close_args-Good (set_entry k v out) ts
      (set_entry-IsFields k v out (Lexed-name k (punct colon ∷ string v ∷ ts) l) i)
      (Lexed-tail (ident k) (punct colon ∷ string v ∷ ts) l)
args_loop-Good out (ident k ∷ punct colon ∷ ts) i l = tt
args_loop-Good out (ident k ∷ ts) i l = tt
args_loop-Good out ts i l = tt

pub args-Good : (ts : List Token) → Lexed ts → Good IsFields (args ts)
unfolding args
args-Good (punct lparen ∷ punct rparen ∷ ts) l = (tt, l)
args-Good (punct lparen ∷ ts) l = args_loop-Good [] ts tt l
args-Good ts l = tt

pub outputs_opt-Good : (ts : List Token) → Lexed ts → Good IsFields (outputs_opt ts)
unfolding outputs_opt
outputs_opt-Good (punct colon ∷ ts) l = args-Good ts l
outputs_opt-Good ts l = (tt, l)

-- Of the additions, only the tokens after them matter.
abbrev pub Any : Additions → Type 0
Any _ = Unit

close_additions-Good :
    (out : Additions) (ts : List Token) → Lexed ts → Good Any (close_additions out ts)
close_additions-Good out (punct rparen ∷ ts) l = (tt, l)
close_additions-Good out ts l = tt

additions_loop-Good :
    (out : Additions) (ts : List Token) → Lexed ts → Good Any (additions_loop out ts)
unfolding additions_loop
additions_loop-Good out (keyword w ∷ string v ∷ punct comma ∷ ts) l =
    Good-if Any (is_addition w) _ _
      (additions_loop-Good (add w v out) ts
        (Lexed-tail (keyword w) (string v ∷ punct comma ∷ ts) l))
      tt
additions_loop-Good out (keyword w ∷ string v ∷ ts) l =
    Good-if Any (is_addition w) _ _
      (close_additions-Good (add w v out) ts (Lexed-tail (keyword w) (string v ∷ ts) l)) tt
additions_loop-Good out (keyword w ∷ ts) l = Good-if Any (is_addition w) _ _ tt tt
additions_loop-Good out ts l = tt

pub additions_wrapper_opt-Good : (ts : List Token) → Lexed ts → Good Any (additions_wrapper_opt ts)
unfolding additions_wrapper_opt
additions_wrapper_opt-Good (punct lparen ∷ punct rparen ∷ ts) l = (tt, l)
additions_wrapper_opt-Good (punct lparen ∷ ts) l = additions_loop-Good no_additions ts l
additions_wrapper_opt-Good ts l = (tt, l)
