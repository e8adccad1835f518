-- ===== src/TextDsl/Quoting.antt =====
-- Which texts a quoted string gives back.
use daisy_workflow.Common.{
  ℕ, ◌≡◌, refl, sym, ap, ◌∙◌, Bool, true, false, not, ◌&&◌, Bool-cases, inl, inr, none, some, [],
  ◌∷◌, ◌++◌, eqb, arith, if◌then◌else◌, ok, err,
}
use mathlib.Core.List.{append_assoc, append-nil}
use daisy_workflow.TextDsl.Lexer.{
  Chars, string, eof, unterminated, prefix, read_double, read_backtick, unescape, next, next_long,
  next_punct, punct_of, push, tokenize, closed_string,
}
use daisy_workflow.TextDsl.Lexer.Steps.{tokenize-next, tokenize-err}
use daisy_workflow.TextDsl.Serializer.{includes, replace_all, escaped, quote}

-- What one unit is escaped to.
abbrev escape_unit : ℕ → Chars
escape_unit c =
    if eqb c b'\\'
    then b'\\' ∷ b'\\' ∷ []
    else if eqb c b'"'
    then b'\\' ∷ b'"' ∷ []
    else if eqb c b'\n'
    then b'\\' ∷ b'n' ∷ []
    else c ∷ []

replace_all-append :
    (c : ℕ) (to xs ys : Chars)
    → replace_all c to (xs ++ ys) ≡ replace_all c to xs ++ replace_all c to ys
unfolding replace_all
replace_all-append c to [] ys = refl
replace_all-append c to (x ∷ xs) ys =
    ap (λ (t : Chars). (if eqb x c then to else x ∷ []) ++ t) (replace_all-append c to xs ys)
    ∙ sym
        (append_assoc (if eqb x c then to else x ∷ []) (replace_all c to xs) (replace_all c to ys))

escape_unit_lem :
    (c : ℕ)
    → replace_all b'\n'
        (b'\\' ∷ b'n' ∷ [])
        (replace_all b'"' (b'\\' ∷ b'"' ∷ []) (if eqb c b'\\' then b'\\' ∷ b'\\' ∷ [] else c ∷ []))
      ≡ escape_unit c
unfolding replace_all
escape_unit_lem c = ground arith

-- The three replacements, one after the other, escape each unit once.
escaped-cons : (c : ℕ) (cs : Chars) → escaped (c ∷ cs) ≡ escape_unit c ++ escaped cs
unfolding escaped
escaped-cons c cs =
    let unit = if eqb c b'\\' then b'\\' ∷ b'\\' ∷ [] else c ∷ [] in
    let once = replace_all b'\\' (b'\\' ∷ b'\\' ∷ []) cs in
    let cons : replace_all b'\\' (b'\\' ∷ b'\\' ∷ []) (c ∷ cs) ≡ unit ++ once =
      unfold replace_all in refl in
    rw
      (
        cons,
        replace_all-append b'"' (b'\\' ∷ b'"' ∷ []) unit once,
        replace_all-append b'\n' (b'\\' ∷ b'n' ∷ []) (replace_all b'"' (b'\\' ∷ b'"' ∷ []) unit)
            (replace_all b'"' (b'\\' ∷ b'"' ∷ []) once),
        escape_unit_lem c,
      )
      refl

read_double-escape :
    (c : ℕ) (cs : Chars)
    → read_double false (escape_unit c ++ cs) ≡ prefix (c ∷ []) (read_double false cs)
unfolding read_double unescape
read_double-escape c cs = ground arith

read_double-escaped :
    (t rest : Chars) → read_double false (escaped t ++ b'"' ∷ rest) ≡ some (t, rest)
unfolding read_double escaped
read_double-escaped [] rest = refl
read_double-escaped (c ∷ cs) rest =
    rw
      (
        escaped-cons c cs,
        append_assoc (escape_unit c) (escaped cs) (b'"' ∷ rest),
        read_double-escape c (escaped cs ++ b'"' ∷ rest),
        read_double-escaped cs rest,
      )
      refl

-- Does the text end with a backslash, or is it empty after one?
abbrev pub ends_backslash : Bool → Chars → Bool
ends_backslash e [] = e
ends_backslash e (c ∷ cs) = ends_backslash (eqb c b'\\') cs

abbrev pending : Bool → Chars
pending true = b'\\' ∷ []
pending false = []

read_backtick-raw :
    (e : Bool) (t rest : Chars)
    → includes b'`' t ≡ false
    → ends_backslash e t ≡ false
    → read_backtick e (t ++ b'`' ∷ rest) ≡ some (pending e ++ t, rest)
unfolding read_backtick includes
read_backtick-raw true [] rest h k = cc
read_backtick-raw false [] rest h k = refl
read_backtick-raw true (c ∷ cs) rest h k = ground (arith, read_backtick-raw (eqb c b'\\') cs rest)
read_backtick-raw false (c ∷ cs) rest h k = ground (arith, read_backtick-raw (eqb c b'\\') cs rest)

read_backtick-open :
    (e : Bool) (t : Chars)
    → includes b'`' t ≡ false
    → ends_backslash e t ≡ true
    → read_backtick e (t ++ b'`' ∷ []) ≡ none
unfolding read_backtick includes
read_backtick-open true [] h k = refl
read_backtick-open false [] h k = cc
read_backtick-open true (c ∷ cs) h k = ground (arith, read_backtick-open (eqb c b'\\') cs)
read_backtick-open false (c ∷ cs) h k = ground (arith, read_backtick-open (eqb c b'\\') cs)

-- A text that is quoted in backticks and ends with a backslash escapes its closing backtick.
unfoldable pub is_quotable : Chars → Bool
unfolding includes
is_quotable t = not ((includes b'"' t && not (includes b'`' t)) && ends_backslash false t)

next_double : (cs : Chars) → next b'"' cs ≡ closed_string (read_double false cs)
unfolding next next_punct next_long punct_of
next_double cs = refl

next_backtick : (cs : Chars) → next b'`' cs ≡ closed_string (read_backtick false cs)
unfolding next next_punct next_long punct_of
next_backtick cs = refl

-- A quoted text is one token, whatever follows it.
pub tokenize-quote_append :
    (t rest : Chars)
    → is_quotable t ≡ true
    → tokenize (quote t ++ rest) ≡ push (some (string t)) (tokenize rest)
unfolding quote is_quotable
tokenize-quote_append t rest h = elim (Bool-cases (includes b'"' t && not (includes b'`' t))) [
  | inl raw ↦
      rw (raw, append_assoc t (b'`' ∷ []) rest)
        (tokenize-next b'`' (t ++ b'`' ∷ rest) (some (string t)) rest (
          rw
            (
              next_backtick (t ++ b'`' ∷ rest),
              read_backtick-raw false t rest (ground arith) (ground arith),
            )
            refl))
  | inr plain ↦
      rw (plain, append_assoc (escaped t) (b'"' ∷ []) rest)
        (tokenize-next b'"' (escaped t ++ b'"' ∷ rest) (some (string t)) rest
          (rw (next_double (escaped t ++ b'"' ∷ rest), read_double-escaped t rest) refl))
]

unclosed :
    (t : Chars)
    → (includes b'"' t && not (includes b'`' t)) ≡ true
    → ends_backslash false t ≡ true
    → tokenize (quote t) ≡ err unterminated
unfolding quote
unclosed t raw open_end = rw raw (
    tokenize-err b'`' (t ++ b'`' ∷ []) unterminated (
      rw (next_backtick (t ++ b'`' ∷ []), read_backtick-open false t (ground arith) open_end) refl))

-- The quoted form of a text reads back as that text, and as nothing but it, exactly when the text
-- is not one with a double quote, no backtick, and a backslash at its end; the quoted form of such
-- a text is refused as an unterminated string.
pub tokenize-quote :
    (t : Chars)
    → tokenize (quote t) ≡ (if is_quotable t then ok (string t ∷ eof ∷ []) else err unterminated)
unfolding is_quotable tokenize
tokenize-quote t = elim (Bool-cases (is_quotable t)) [
  | inl good ↦ rw (good) (rw append-nil at (tokenize-quote_append t [] good))
  | inr bad ↦ rw (bad) (unclosed t (ground arith) (ground arith))
]
