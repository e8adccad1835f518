-- ===== src/TextDsl/Parser/Takes.antt =====
-- The productions of the parser take tokens away.
use daisy_workflow.Common.{
  ℕ, suc, ◌≤◌, Bool, true, false, List, [], ◌∷◌, arith, if◌then◌else◌, length, Result, ok, err,
  ◌>>=◌,
}
use daisy_workflow.TextDsl.Lexer.{
  Punct, equals, colon, lparen, rparen, comma, Token, punct, string, ident, keyword,
}
use daisy_workflow.TextDsl.Parser.{
  TextFields, Additions, ParseError, lexing, expected, stopped, Parse, set_entry, args_loop, args,
  add, close_args, close_additions, additions_loop, additions_wrapper_opt, outputs_opt, step,
  match_punct, is_addition, consume_ident, consume_punct, no_additions,
}

-- A production that ends well leaves at most `n` tokens; one that fails met a token.
abbrev pub Within {ℓ} : {A : Type ℓ} → ℕ → Result ParseError (A × List Token) → Type 0
Within n (ok (a, ts)) = length ts ≤ n
Within n (err (expected what t)) = Unit
Within n (err (lexing why)) = ⊥
Within n (err stopped) = ⊥

pub Within-weaken : {A : Type 0} (n m : ℕ) (r : Parse A) → n ≤ m → Within n r → Within m r
Within-weaken n m (ok (a, ts)) h k = omega arith
Within-weaken n m (err (expected what t)) h k = tt
Within-weaken n m (err (lexing why)) h k = k
Within-weaken n m (err stopped) h k = k

Within-if :
    {A : Type 0} (n : ℕ) (b : Bool) (r s : Parse A)
    → Within n r
    → Within n s
    → Within n (if b then r else s)
Within-if n true r s h k = h
Within-if n false r s h k = k

pub Within->>= :
    {A B : Type 0} (n : ℕ) (r : Parse A) (f : A × List Token → Parse B)
    → Within n r
    → ((a : A) (ts : List Token) → length ts ≤ n → Within n (f (a, ts)))
    → Within n (r >>= f)
Within->>= n (ok (a, ts)) f h k = k a ts h
Within->>= n (err (expected what t)) f h k = tt
Within->>= n (err (lexing why)) f h k = h
Within->>= n (err stopped) f h k = h

close_args-Within : (out : TextFields) (ts : List Token) → Within (length ts) (close_args out ts)
close_args-Within out (punct rparen ∷ ts) = omega arith
close_args-Within out ts = tt

args_loop-Within : (out : TextFields) (ts : List Token) → Within (length ts) (args_loop out ts)
unfolding args_loop
args_loop-Within out (ident k ∷ punct colon ∷ string v ∷ punct comma ∷ ts) =
    Within-weaken (length ts) (suc (suc (suc (suc (length ts)))))
      (if match_punct rparen ts
        then close_args (set_entry k v out) ts
        else args_loop (set_entry k v out) ts)
      (omega arith)
      (Within-if (length ts) (match_punct rparen ts) _ _ (close_args-Within (set_entry k v out) ts)
        (args_loop-Within (set_entry k v out) ts))
args_loop-Within out (ident k ∷ punct colon ∷ string v ∷ ts) =
    Within-weaken (length ts) (suc (suc (suc (length ts)))) (close_args (set_entry k v out) ts)
      (omega arith) (close_args-Within (set_entry k v out) ts)
args_loop-Within out (ident k ∷ punct colon ∷ ts) = tt
args_loop-Within out (ident k ∷ ts) = tt
args_loop-Within out ts = tt

args-Within : (ts : List Token) → Within (length ts) (args ts)
unfolding args
args-Within (punct lparen ∷ punct rparen ∷ ts) = omega arith
args-Within (punct lparen ∷ ts) =
    Within-weaken (length ts) (suc (length ts)) (args_loop [] ts) (omega arith)
      (args_loop-Within [] ts)
args-Within ts = tt

close_additions-Within :
    (out : Additions) (ts : List Token) → Within (length ts) (close_additions out ts)
close_additions-Within out (punct rparen ∷ ts) = omega arith
close_additions-Within out ts = tt

additions_loop-Within :
    (out : Additions) (ts : List Token) → Within (length ts) (additions_loop out ts)
unfolding additions_loop
additions_loop-Within out (keyword w ∷ string v ∷ punct comma ∷ ts) =
    Within-if _ (is_addition w) _ _
      (Within-weaken (length ts) (suc (suc (suc (length ts)))) (additions_loop (add w v out) ts)
        (omega arith) (additions_loop-Within (add w v out) ts))
      tt
additions_loop-Within out (keyword w ∷ string v ∷ ts) =
    Within-if _ (is_addition w) _ _
      (Within-weaken (length ts) (suc (suc (length ts))) (close_additions (add w v out) ts)
        (omega arith) (close_additions-Within (add w v out) ts))
      tt
additions_loop-Within out (keyword w ∷ ts) = Within-if _ (is_addition w) _ _ tt tt
additions_loop-Within out ts = tt

additions_wrapper_opt-Within : (ts : List Token) → Within (length ts) (additions_wrapper_opt ts)
unfolding additions_wrapper_opt
additions_wrapper_opt-Within (punct lparen ∷ punct rparen ∷ ts) = omega arith
additions_wrapper_opt-Within (punct lparen ∷ ts) =
    Within-weaken (length ts) (suc (length ts)) (additions_loop no_additions ts) (omega arith)
      (additions_loop-Within no_additions ts)
additions_wrapper_opt-Within ts = omega arith

outputs_opt-Within : (ts : List Token) → Within (length ts) (outputs_opt ts)
unfolding outputs_opt
outputs_opt-Within (punct colon ∷ ts) =
    Within-weaken (length ts) (suc (length ts)) (args ts) (omega arith) (args-Within ts)
outputs_opt-Within ts = omega arith

consume_ident-Within : (ts : List Token) → Within (length ts) (consume_ident ts)
consume_ident-Within (ident v ∷ ts) = omega arith
consume_ident-Within ts = tt

consume_punct-Within : (p : Punct) (ts : List Token) → Within (length ts) (consume_punct p ts)
consume_punct-Within p [] = tt
consume_punct-Within p (t ∷ ts) =
    Within-if _ (match_punct p (t ∷ ts)) (ok (tt, ts)) _ (omega arith) tt

pub step-Within : (ts : List Token) → Within (length ts) (step ts)
unfolding step
step-Within ts = Within->>= (length ts) (consume_ident ts) _ (consume_ident-Within ts) λ name ts1 h.
    Within->>= (length ts) (additions_wrapper_opt ts1) _
      (within ts1 (additions_wrapper_opt ts1) h (additions_wrapper_opt-Within ts1))
      λ additions ts2 h.
        Within->>= (length ts) (consume_punct equals ts2) _
          (within ts2 (consume_punct equals ts2) h (consume_punct-Within equals ts2))
          λ u ts3 h.
            Within->>= (length ts) (consume_ident ts3) _
              (within ts3 (consume_ident ts3) h (consume_ident-Within ts3))
              λ plugin ts4 h.
                Within->>= (length ts) (args ts4) _ (within ts4 (args ts4) h (args-Within ts4))
                  λ inputs ts5 h.
                    Within->>= (length ts) (outputs_opt ts5) _
                      (within ts5 (outputs_opt ts5) h (outputs_opt-Within ts5)) λ outputs ts6 h. h
  where
    within :
        {A : Type 0} (us : List Token) (r : Parse A)
        → length us ≤ length ts
        → Within (length us) r
        → Within (length ts) r
    within us r = Within-weaken (length us) (length ts) r
