-- ===== src/Engine/Limits/Durations.antt =====
-- Reading durations.
use daisy_workflow.Common.{
  ◌^◌, ℕ, ap, ltb, ◌<◌, ◌+◌, ◌*◌, ◌-◌, true, false, some, List, [], ◌∷◌, ◌++◌, ◌≡◌, refl, arith,
  All,
}
use daisy_workflow.Js.{is_digit, digits_value}
use daisy_workflow.Dsl.Workflow.{text}
use daisy_workflow.Engine.Limits.{
  is_space, trim_start, trim_end, cons_unless_blank, span_digits, unit_ms, match_duration,
  to_double, parse_duration_ms,
}

-- The units of a duration, as they are written.
pub data TimeUnit : Type 0 where
  bare milliseconds seconds minutes hours : TimeUnit

abbrev pub written : TimeUnit → List ℕ
written bare = []
written milliseconds = b'm' ∷ b's' ∷ []
written seconds = b's' ∷ []
written minutes = b'm' ∷ []
written hours = b'h' ∷ []

abbrev pub factor : TimeUnit → ℕ
factor bare = 1
factor milliseconds = 1
factor seconds = 1000
factor minutes = 60 * 1000
factor hours = 60 * 60 * 1000

-- The number that digits stand for.
abbrev pub decimal : ℕ → List ℕ → ℕ
decimal acc [] = acc
decimal acc (c ∷ cs) = decimal (acc * 10 + (c - b'0')) cs

abbrev pub IsDigits : List ℕ → Type 0
IsDigits ds = All (λ c. is_digit c ≡ true) ds

digits_value-decimal :
    (acc : ℕ) (ds : List ℕ) → IsDigits ds → digits_value acc ds ≡ some (decimal acc ds)
unfolding digits_value
digits_value-decimal acc [] h = refl
digits_value-decimal acc (c ∷ cs) (p, h) = rw p (digits_value-decimal (acc * 10 + (c - b'0')) cs h)

span_digits-append :
    (ds : List ℕ) (u : TimeUnit) → IsDigits ds → span_digits (ds ++ written u) ≡ (ds, written u)
unfolding span_digits
span_digits-append [] bare h = refl
span_digits-append [] milliseconds h = refl
span_digits-append [] seconds h = refl
span_digits-append [] minutes h = refl
span_digits-append [] hours h = refl
span_digits-append (c ∷ cs) u (p, h) = ground (arith, span_digits-append cs u h)

not_space : (c : ℕ) → is_digit c ≡ true → is_space c ≡ false
unfolding is_space
not_space c h = ground arith

kept : (c : ℕ) (l : List ℕ) → is_space c ≡ false → cons_unless_blank c l ≡ c ∷ l
kept c [] e = rw e
kept c (d ∷ l) e = refl

trim_end-append :
    (ds : List ℕ) (u : TimeUnit) → IsDigits ds → trim_end (ds ++ written u) ≡ ds ++ written u
unfolding trim_end is_space
trim_end-append [] bare h = refl
trim_end-append [] milliseconds h = refl
trim_end-append [] seconds h = refl
trim_end-append [] minutes h = refl
trim_end-append [] hours h = refl
trim_end-append (c ∷ cs) u (p, h) =
    rw (trim_end-append cs u h) (kept c (cs ++ written u) (not_space c p))

trim_start-append :
    (ds : List ℕ) (u : TimeUnit) → IsDigits ds → trim_start (ds ++ written u) ≡ ds ++ written u
unfolding trim_start is_space
trim_start-append [] bare h = refl
trim_start-append [] milliseconds h = refl
trim_start-append [] seconds h = refl
trim_start-append [] minutes h = refl
trim_start-append [] hours h = refl
trim_start-append (c ∷ cs) u (p, h) = ground (arith, not_space c p)

unit_ms-written : (u : TimeUnit) → unit_ms (trim_start (written u)) ≡ some (factor u)
unfolding unit_ms trim_start is_space
unit_ms-written bare = refl
unit_ms-written milliseconds = refl
unit_ms-written seconds = refl
unit_ms-written minutes = refl
unit_ms-written hours = refl

to_double_exact : (n : ℕ) → n < 2 ^ 53 → to_double n ≡ n
unfolding to_double
to_double_exact n h = rw (below n (2 ^ 53) h) refl
  where
    below : (a b : ℕ) → a < b → ltb a b ≡ true
    below a b h = ground arith

factor_bound : (u : TimeUnit) (n : ℕ) → n * factor u < 2 ^ 53 → n < 2 ^ 53
factor_bound bare n h = omega arith
factor_bound milliseconds n h = omega arith
factor_bound seconds n h = omega arith
factor_bound minutes n h = omega arith
factor_bound hours n h = omega arith

matched :
    (d : ℕ) (ds : List ℕ) (u : TimeUnit)
    → IsDigits (d ∷ ds)
    → decimal 0 (d ∷ ds) * factor u < 2 ^ 53
    → match_duration ((d ∷ ds) ++ written u) ≡ some (decimal 0 (d ∷ ds) * factor u)
unfolding match_duration
matched d ds u h small =
    rw
      (
        span_digits-append (d ∷ ds) u h,
        digits_value-decimal 0 (d ∷ ds) h,
        unit_ms-written u,
        to_double_exact (decimal 0 (d ∷ ds)) (factor_bound u (decimal 0 (d ∷ ds)) small),
      )
      (ap some (to_double_exact (decimal 0 (d ∷ ds) * factor u) small))

-- Digits and a unit, written together, are read as that many of the unit, in milliseconds, where
-- that is less than 2 ^ 53.
pub parse_duration_ms-written :
    (d : ℕ) (ds : List ℕ) (u : TimeUnit)
    → IsDigits (d ∷ ds)
    → decimal 0 (d ∷ ds) * factor u < 2 ^ 53
    → parse_duration_ms (text ((d ∷ ds) ++ written u)) ≡ some (decimal 0 (d ∷ ds) * factor u)
unfolding parse_duration_ms
parse_duration_ms-written d ds u h small =
    let l = d ∷ ds in rw (trim_start-append l u h, trim_end-append l u h) (matched d ds u h small)
