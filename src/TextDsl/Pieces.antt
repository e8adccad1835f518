-- ===== src/TextDsl/Pieces.antt =====
-- The pieces that a serialized text is put together from, and the tokens that each of them gives.
use mathlib.Core.List.{append_assoc}
use daisy_workflow.Common.{
  ℕ, ◌≡◌, refl, ap, ◌∙◌, Bool, true, false, ◌&&◌, none, some, List, [], ◌∷◌, ◌++◌, arith, Result,
  ok, all,
}
use daisy_workflow.TextDsl.Lexer.{
  Chars, Token, Punct, equals, colon, lparen, rparen, comma, punct, arrow, LexError, is_ident_start,
  is_ident_cont, word_token, read_word, next, next_long, next_punct, punct_of, push, tokenize,
}
use daisy_workflow.TextDsl.Lexer.Steps.{tokenize-next}

abbrev pub pushes : List Token → Result LexError (List Token) → Result LexError (List Token)
pushes [] m = m
pushes (t ∷ ts) m = push (some t) (pushes ts m)

pushes-append :
    (ts us : List Token) (m : Result LexError (List Token))
    → pushes (ts ++ us) m ≡ pushes ts (pushes us m)
pushes-append [] us m = refl
pushes-append (t ∷ ts) us m = ap (push (some t)) (pushes-append ts us m)

pub pushes-ok : (ts us : List Token) → pushes ts (ok us) ≡ ok (ts ++ us)
pushes-ok [] us = refl
pushes-ok (t ∷ ts) us = rw (pushes-ok ts us) refl

-- The text gives these tokens, whatever follows it.
abbrev pub Reads : Chars → List Token → Type 0
Reads p ts = (rest : Chars) → tokenize (p ++ rest) ≡ pushes ts (tokenize rest)

-- The text gives these tokens before a unit that no word has.
abbrev pub ReadsBefore : Chars → List Token → Type 0
ReadsBefore p ts =
    (d : ℕ) (rest : Chars)
    → is_ident_cont d ≡ false
    → tokenize (p ++ d ∷ rest) ≡ pushes ts (tokenize (d ∷ rest))

pub Reads-append :
    (p q : Chars) (ts us : List Token) → Reads p ts → Reads q us → Reads (p ++ q) (ts ++ us)
Reads-append p q ts us h k rest =
    rw (append_assoc p q rest, pushes-append ts us (tokenize rest))
      (h (q ++ rest) ∙ ap (pushes ts) (k rest))

pub ReadsBefore-append :
    (p : Chars) (d : ℕ) (q : Chars) (ts us : List Token)
    → is_ident_cont d ≡ false
    → ReadsBefore p ts
    → Reads (d ∷ q) us
    → Reads (p ++ d ∷ q) (ts ++ us)
ReadsBefore-append p d q ts us e h k rest =
    rw (append_assoc p (d ∷ q) rest, pushes-append ts us (tokenize rest))
      (h d (q ++ rest) e ∙ ap (pushes ts) (k rest))

pub Reads-ReadsBefore_append :
    (p q : Chars) (ts us : List Token)
    → Reads p ts
    → ReadsBefore q us
    → ReadsBefore (p ++ q) (ts ++ us)
Reads-ReadsBefore_append p q ts us h k d rest e =
    rw (append_assoc p q (d ∷ rest), pushes-append ts us (tokenize (d ∷ rest)))
      (h (q ++ d ∷ rest) ∙ ap (pushes ts) (k d rest e))

pub ReadsBefore-ReadsBefore_append :
    (p : Chars) (d : ℕ) (q : Chars) (ts us : List Token)
    → is_ident_cont d ≡ false
    → ReadsBefore p ts
    → ReadsBefore (d ∷ q) us
    → ReadsBefore (p ++ d ∷ q) (ts ++ us)
ReadsBefore-ReadsBefore_append p d q ts us e h k b rest f =
    rw (append_assoc p (d ∷ q) (b ∷ rest), pushes-append ts us (tokenize (b ∷ rest)))
      (h d (q ++ b ∷ rest) e ∙ ap (pushes ts) (k b rest f))

pub Reads-nil : Reads [] []
Reads-nil rest = refl

pub Reads-space : (q : Chars) (ts : List Token) → Reads q ts → Reads (b' ' ∷ q) ts
unfolding next
Reads-space q ts h rest = tokenize-next b' ' (q ++ rest) none (q ++ rest) refl ∙ h rest

pub Reads-newline : (q : Chars) (ts : List Token) → Reads q ts → Reads (b'\n' ∷ q) ts
unfolding next
Reads-newline q ts h rest = tokenize-next b'\n' (q ++ rest) none (q ++ rest) refl ∙ h rest

abbrev pub punct_char : Punct → ℕ
punct_char equals = b'='
punct_char colon = b':'
punct_char lparen = b'('
punct_char rparen = b')'
punct_char comma = b','

next-punct_char : (p : Punct) (cs : Chars) → next (punct_char p) cs ≡ ok (some (punct p), cs)
unfolding next next_punct punct_of
next-punct_char equals cs = refl
next-punct_char colon cs = refl
next-punct_char lparen cs = refl
next-punct_char rparen cs = refl
next-punct_char comma cs = refl

pub Reads-punct :
    (p : Punct) (q : Chars) (ts : List Token) → Reads q ts → Reads (punct_char p ∷ q) (punct p ∷ ts)
Reads-punct p q ts h rest =
    tokenize-next (punct_char p) (q ++ rest) (some (punct p)) (q ++ rest)
      (next-punct_char p (q ++ rest))
    ∙ ap (push (some (punct p))) (h rest)

pub Reads-arrow :
    (q : Chars) (ts : List Token) → Reads q ts → Reads (b'-' ∷ b'-' ∷ b'>' ∷ q) (arrow ∷ ts)
unfolding next
Reads-arrow q ts h rest =
    tokenize-next b'-' (b'-' ∷ b'>' ∷ q ++ rest) (some arrow) (q ++ rest) refl
    ∙ ap (push (some arrow)) (h rest)

read_word-append :
    (w : Chars) (d : ℕ) (rest : Chars)
    → all is_ident_cont w ≡ true
    → is_ident_cont d ≡ false
    → read_word (w ++ d ∷ rest) ≡ (w, d ∷ rest)
unfolding read_word
read_word-append [] d rest h e = rw e refl
read_word-append (c ∷ cs) d rest h e = ground (arith, read_word-append cs d rest (ground arith) e)

abbrev pub is_word : Chars → Bool
is_word [] = false
is_word (c ∷ cs) = is_ident_start c && all is_ident_cont cs

next-word :
    (c : ℕ) (cs : Chars)
    → is_ident_start c ≡ true
    → next c cs ≡ ok (some (word_token (c ∷ (read_word cs).0)), (read_word cs).1)
unfolding next next_punct next_long punct_of
next-word c cs h = ground arith

pub ReadsBefore-word : (w : Chars) → is_word w ≡ true → ReadsBefore w (word_token w ∷ [])
ReadsBefore-word [] h d rest e = cc
ReadsBefore-word (c ∷ cs) h d rest e =
    tokenize-next c (cs ++ d ∷ rest) (some (word_token (c ∷ cs))) (d ∷ rest) (
      next-word c (cs ++ d ∷ rest) (ground arith)
      ∙ rw (read_word-append cs d rest (ground arith) e) refl)
