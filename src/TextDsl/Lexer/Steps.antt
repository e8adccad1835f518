-- ===== src/TextDsl/Lexer/Steps.antt =====
-- The rounds of the lexer: each shortens the text, so they end, and their number is forgotten.
use daisy_workflow.Common.{
  ℕ, zero, suc, ◌≤◌, ◌≡◌, ◌≢◌, refl, ap, subst, Bool, true, false, Option, none, some, List, [],
  ◌∷◌, eqb, arith, if◌then◌else◌, length, drop, Result, ok, err, ◌>>=◌, length-drop_le,
}
use daisy_workflow.TextDsl.Lexer.{
  Chars, Token, Punct, LexError, out_of_fuel, prefix, read_double, read_backtick, read_word,
  skip_comment, closed_string, next_long, next_punct, next, push, lex, tokenize, punct_of, unescape,
  is_ident_start, is_blank, word_token, starts_arrow, arrow, unexpected_character,
}

-- What is left of the text, where a string ended.
abbrev Shrinks : ℕ → Option (Chars × Chars) → Type 0
Shrinks n none = Unit
Shrinks n (some (value, rest)) = length rest ≤ n

Shrinks-prefix :
    (n m : ℕ) (cs : Chars) (o : Option (Chars × Chars))
    → n ≤ m
    → Shrinks n o
    → Shrinks m (prefix cs o)
Shrinks-prefix n m cs none h k = tt
Shrinks-prefix n m cs (some (value, rest)) h k = omega arith

Shrinks-weaken : (n m : ℕ) (o : Option (Chars × Chars)) → n ≤ m → Shrinks n o → Shrinks m o
Shrinks-weaken n m none h k = tt
Shrinks-weaken n m (some (value, rest)) h k = omega arith

Shrinks-if :
    (n : ℕ) (b : Bool) (o p : Option (Chars × Chars))
    → Shrinks n o
    → Shrinks n p
    → Shrinks n (if b then o else p)
Shrinks-if n true o p h k = h
Shrinks-if n false o p h k = k

read_double-Shrinks : (e : Bool) (cs : Chars) → Shrinks (length cs) (read_double e cs)
unfolding read_double
read_double-Shrinks true [] = tt
read_double-Shrinks false [] = tt
read_double-Shrinks true (d ∷ cs) =
    Shrinks-prefix (length cs) _ (unescape d) _ (omega arith) (read_double-Shrinks false cs)
read_double-Shrinks false (c ∷ cs) =
    let later = read_double-Shrinks (eqb c b'\\') cs in
    Shrinks-if _ (eqb c b'"') (some ([], cs)) _ (omega arith) (
      Shrinks-if _ (eqb c b'\\') _ _ (Shrinks-weaken (length cs) _ _ (omega arith) later)
        (Shrinks-prefix (length cs) _ (c ∷ []) _ (omega arith) later))

read_backtick-Shrinks : (e : Bool) (cs : Chars) → Shrinks (length cs) (read_backtick e cs)
unfolding read_backtick
read_backtick-Shrinks true [] = tt
read_backtick-Shrinks false [] = tt
read_backtick-Shrinks true (d ∷ cs) =
    let later = read_backtick-Shrinks (eqb d b'\\') cs in
    let longer =
      Shrinks-weaken (length cs) (suc (length cs)) (read_backtick (eqb d b'\\') cs) (omega arith)
        later in
    Shrinks-if _ (eqb d b'`') _ _ (Shrinks-prefix (length cs) _ (d ∷ []) _ (omega arith) later) (
      Shrinks-prefix (suc (length cs)) _ (b'\\' ∷ []) _ (omega arith) (
        Shrinks-if _ (eqb d b'\\') _ _ longer
          (Shrinks-prefix (length cs) _ (d ∷ []) _ (omega arith) later)))
read_backtick-Shrinks false (c ∷ cs) =
    let later = read_backtick-Shrinks (eqb c b'\\') cs in
    Shrinks-if _ (eqb c b'`') (some ([], cs)) _ (omega arith) (
      Shrinks-if _ (eqb c b'\\') _ _ (Shrinks-weaken (length cs) _ _ (omega arith) later)
        (Shrinks-prefix (length cs) _ (c ∷ []) _ (omega arith) later))

read_word-length_le : (cs : Chars) → length (read_word cs).1 ≤ length cs
unfolding read_word
read_word-length_le [] = omega arith
read_word-length_le (c ∷ cs) = ground (arith, read_word-length_le cs)

skip_comment-length_le : (cs : Chars) → length (skip_comment cs) ≤ length cs
unfolding skip_comment
skip_comment-length_le [] = omega arith
skip_comment-length_le (c ∷ cs) = ground (arith, skip_comment-length_le cs)

-- A round that ends well leaves at most `n` units.
abbrev pub Leaves : ℕ → Result LexError (Option Token × Chars) → Type 0
Leaves n (err why) = why ≢ out_of_fuel
Leaves n (ok (t, rest)) = length rest ≤ n

closed_string-Leaves :
    (n : ℕ) (o : Option (Chars × Chars)) → Shrinks n o → Leaves n (closed_string o)
closed_string-Leaves n none h = λ e. cc
closed_string-Leaves n (some (value, rest)) h = h

Leaves-if :
    (n : ℕ) (b : Bool) (o p : Result LexError (Option Token × Chars))
    → Leaves n o
    → Leaves n p
    → Leaves n (if b then o else p)
Leaves-if n true o p h k = h
Leaves-if n false o p h k = k

next_long-Leaves : (c : ℕ) (cs : Chars) → Leaves (length cs) (next_long c cs)
unfolding next_long
next_long-Leaves c cs =
    Leaves-if _ (eqb c b'"') _ _ (closed_string-Leaves _ _ (read_double-Shrinks false cs)) (
      Leaves-if _ (eqb c b'`') _ _ (closed_string-Leaves _ _ (read_backtick-Shrinks false cs)) (
        Leaves-if _ (is_ident_start c)
          (ok (some (word_token (c ∷ (read_word cs).0)), (read_word cs).1))
          (err (unexpected_character c)) (read_word-length_le cs) (λ e. cc)))

next_punct-Leaves : (o : Option Punct) (c : ℕ) (cs : Chars) → Leaves (length cs) (next_punct o c cs)
unfolding next_punct
next_punct-Leaves none c cs = next_long-Leaves c cs
next_punct-Leaves (some p) c cs = omega arith

pub next-Leaves : (c : ℕ) (cs : Chars) → Leaves (length cs) (next c cs)
unfolding next
next-Leaves c cs = Leaves-if _ (is_blank c) (ok (none, cs)) _ (omega arith) (
    Leaves-if _ (eqb c b'#') (ok (none, skip_comment cs)) _ (skip_comment-length_le cs) (
      Leaves-if _ (starts_arrow c cs) (ok (some arrow, drop 2 cs)) _ (length-drop_le 2 cs)
        (next_punct-Leaves (punct_of c) c cs)))

-- A loop that goes on after this round.
abbrev then_lex : ℕ → Result LexError (Option Token × Chars) → Result LexError (List Token)
then_lex f m = m >>= λ r. push r.0 (lex f r.1)

push-out_of_fuel :
    (t : Option Token) (m : Result LexError (List Token))
    → m ≢ err out_of_fuel
    → push t m ≢ err out_of_fuel
push-out_of_fuel none m h = h
push-out_of_fuel (some t) (ok ts) h = λ e. cc
push-out_of_fuel (some t) (err why) h = λ e. h (cc)

then_lex-enough :
    (f : ℕ) (cs : Chars) (m : Result LexError (Option Token × Chars))
    → Leaves (length cs) m
    → ((rest : Chars) → length rest ≤ length cs → lex f rest ≢ err out_of_fuel)
    → then_lex f m ≢ err out_of_fuel
then_lex-enough f cs (err why) k ih = λ e. k (cc)
then_lex-enough f cs (ok (t, rest)) k ih = push-out_of_fuel t (lex f rest) (ih rest k)

lex-enough : (f : ℕ) (cs : Chars) → length cs ≤ f → lex f cs ≢ err out_of_fuel
unfolding lex
lex-enough f [] h = λ e. cc
lex-enough zero (c ∷ cs) h = absurd (omega arith)
lex-enough (suc f) (c ∷ cs) h =
    then_lex-enough f cs (next c cs) (next-Leaves c cs) (λ rest k. lex-enough f rest (omega arith))

-- The lexer ends on every text: it gives tokens, or an error of the source.
pub tokenize-ends : (source : Chars) → tokenize source ≢ err out_of_fuel
unfolding tokenize
tokenize-ends source = lex-enough (length source) source (omega arith)

then_lex-stable :
    (f g : ℕ) (cs : Chars) (m : Result LexError (Option Token × Chars))
    → Leaves (length cs) m
    → ((rest : Chars) → length rest ≤ length cs → lex f rest ≡ lex g rest)
    → then_lex f m ≡ then_lex g m
then_lex-stable f g cs (err why) k ih = refl
then_lex-stable f g cs (ok (t, rest)) k ih = ap (push t) (ih rest k)

lex-stable : (f g : ℕ) (cs : Chars) → length cs ≤ f → length cs ≤ g → lex f cs ≡ lex g cs
unfolding lex
lex-stable f g [] h k = refl
lex-stable zero g (c ∷ cs) h k = absurd (omega arith)
lex-stable (suc f) zero (c ∷ cs) h k = absurd (omega arith)
lex-stable (suc f) (suc g) (c ∷ cs) h k =
    then_lex-stable f g cs (next c cs) (next-Leaves c cs)
      (λ rest l. lex-stable f g rest (omega arith) (omega arith))

-- One round, and then the lexer on what it leaves.
pub tokenize-next :
    (c : ℕ) (cs : Chars) (t : Option Token) (rest : Chars)
    → next c cs ≡ ok (t, rest)
    → tokenize (c ∷ cs) ≡ push t (tokenize rest)
unfolding tokenize lex
tokenize-next c cs t rest e =
    let l : Leaves (length cs) (ok (t, rest)) = subst (Leaves (length cs)) e (next-Leaves c cs) in
    rw e (ap (push t) (lex-stable (length cs) (length rest) rest l (omega arith)))

pub tokenize-err :
    (c : ℕ) (cs : Chars) (why : LexError) → next c cs ≡ err why → tokenize (c ∷ cs) ≡ err why
unfolding tokenize lex
tokenize-err c cs why e = rw e refl
