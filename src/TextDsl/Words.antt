-- ===== src/TextDsl/Words.antt =====
-- The words of the tokens that the lexer gives.
use daisy_workflow.Common.{
  ℕ, zero, suc, ◌≡◌, refl, Bool, true, false, Bool-cases, inl, inr, Option, none, some, List, [],
  ◌∷◌, eqb, all, if◌then◌else◌, length, drop, Result, ok, err, ◌>>=◌,
}
use daisy_workflow.TextDsl.Lexer.{
  Chars, Token, Punct, LexError, arrow, ident, keyword, read_double, read_backtick, read_word,
  skip_comment, closed_string, next_long, next_punct, next, push, lex, tokenize, punct_of,
  is_ident_start, is_ident_cont, is_blank, is_keyword, word_token, starts_arrow,
  unexpected_character,
}
use daisy_workflow.TextDsl.Pieces.{is_word}
use daisy_workflow.TextDsl.Canonical.{is_name}

-- An identifier is a name, and a keyword is a keyword.
abbrev pub is_lexed : Token → Bool
is_lexed (ident w) = is_name w
is_lexed (keyword w) = is_keyword w
is_lexed _ = true

read_word-all : (cs : Chars) → all is_ident_cont (read_word cs).0 ≡ true
unfolding read_word
read_word-all [] = refl
read_word-all (c ∷ cs) = elim (Bool-cases (is_ident_cont c)) [
  | inl more ↦ rw more (rw (more, read_word-all cs) refl)
  | inr end ↦ rw end refl
]

word_token-is_lexed : (w : Chars) → is_word w ≡ true → is_lexed (word_token w) ≡ true
unfolding is_name
word_token-is_lexed w h = elim (Bool-cases (is_keyword w)) [
  | inl reserved ↦ rw reserved reserved
  | inr free ↦ rw free (rw (h, free) refl)
]

-- What a round gives is such a token.
abbrev Gives : Result LexError (Option Token × Chars) → Type 0
Gives (err why) = Unit
Gives (ok (none, rest)) = Unit
Gives (ok (some t, rest)) = is_lexed t ≡ true

closed_string-Gives : (o : Option (Chars × Chars)) → Gives (closed_string o)
closed_string-Gives none = tt
closed_string-Gives (some (value, rest)) = refl

Gives-if :
    (b : Bool) (o p : Result LexError (Option Token × Chars))
    → (b ≡ true → Gives o)
    → Gives p
    → Gives (if b then o else p)
Gives-if true o p h k = h refl
Gives-if false o p h k = k

next_long-Gives : (c : ℕ) (cs : Chars) → Gives (next_long c cs)
unfolding next_long
next_long-Gives c cs =
    Gives-if (eqb c b'"') _ _ (λ e. closed_string-Gives (read_double false cs))
      (Gives-if (eqb c b'`') _ _ (λ e. closed_string-Gives (read_backtick false cs))
        (Gives-if (is_ident_start c)
          (ok (some (word_token (c ∷ (read_word cs).0)), (read_word cs).1))
          (err (unexpected_character c))
          (λ start. word_token-is_lexed (c ∷ (read_word cs).0) (rw (start, read_word-all cs) refl))
          tt))

next_punct-Gives : (o : Option Punct) (c : ℕ) (cs : Chars) → Gives (next_punct o c cs)
unfolding next_punct
next_punct-Gives none c cs = next_long-Gives c cs
next_punct-Gives (some p) c cs = refl

next-Gives : (c : ℕ) (cs : Chars) → Gives (next c cs)
unfolding next
next-Gives c cs =
    Gives-if (is_blank c) (ok (none, cs)) _ (λ e. tt)
      (Gives-if (eqb c b'#') (ok (none, skip_comment cs)) _ (λ e. tt)
        (Gives-if (starts_arrow c cs) (ok (some arrow, drop 2 cs)) _ (λ e. refl)
          (next_punct-Gives (punct_of c) c cs)))

-- All tokens, where there are any.
abbrev pub AllLexed : Result LexError (List Token) → Type 0
AllLexed (err why) = Unit
AllLexed (ok ts) = all is_lexed ts ≡ true

push-AllLexed :
    (t : Token) (m : Result LexError (List Token))
    → is_lexed t ≡ true
    → AllLexed m
    → AllLexed (push (some t) m)
push-AllLexed t (ok ts) h k = rw (h, k) refl
push-AllLexed t (err why) h k = tt

round-AllLexed :
    (f : ℕ) (m : Result LexError (Option Token × Chars))
    → Gives m
    → ((rest : Chars) → AllLexed (lex f rest))
    → AllLexed (m >>= λ r. push r.0 (lex f r.1))
round-AllLexed f (err why) g h = tt
round-AllLexed f (ok (none, rest)) g h = h rest
round-AllLexed f (ok (some t, rest)) g h = push-AllLexed t (lex f rest) g (h rest)

lex-AllLexed : (f : ℕ) (cs : Chars) → AllLexed (lex f cs)
unfolding lex
lex-AllLexed f [] = refl
lex-AllLexed zero (c ∷ cs) = tt
lex-AllLexed (suc f) (c ∷ cs) =
    round-AllLexed f (next c cs) (next-Gives c cs) (λ rest. lex-AllLexed f rest)

pub tokenize-AllLexed : (source : Chars) → AllLexed (tokenize source)
unfolding tokenize
tokenize-AllLexed source = lex-AllLexed (length source) source
