-- ===== src/Engine/Limits.antt =====
-- backend/src/engine/limits.js: durations, layered defaults, the iteration cap and the token budget.
-- The environment variables are a parameter, read once.
pub mod Durations
pub mod Budgets
mod Tests
use daisy_workflow.Common.{
  ℕ, zero, suc, ◌+◌, ◌*◌, ◌-◌, ◌/◌, ◌%◌, ◌^◌, min, Bool, true, false, ◌&&◌, ◌||◌, Option, none,
  some, List, [], ◌∷◌, ltb, leb, eqb, if◌then◌else◌, get_or_else, or_else, Result, ok, err,
}
use daisy_workflow.Js.{Number, nat, neg, nan, infinity, is_digit, digits_value}
use daisy_workflow.Dsl.Workflow.{Scalar, absent, number, text, Node, Workflow}

-- White space, for `trim` and for `\s`.
unfoldable pub is_space : ℕ → Bool
is_space c =
    (leb 9 c && leb c 13)
    || (eqb c 32
        || (eqb c 160
            || (eqb c 5760
                || ((leb 8192 c && leb c 8202)
                    || (eqb c 8232
                        || (eqb c 8233
                            || (eqb c 8239 || (eqb c 8287 || (eqb c 12288 || eqb c 65279)))))))))

unfoldable pub trim_start : List ℕ → List ℕ
trim_start [] = []
trim_start (c ∷ cs) = let rest = trim_start cs in if is_space c then rest else c ∷ cs

abbrev cons_unless_blank : ℕ → List ℕ → List ℕ
cons_unless_blank c [] = if is_space c then [] else c ∷ []
cons_unless_blank c (d ∷ ds) = c ∷ d ∷ ds

unfoldable pub trim_end : List ℕ → List ℕ
trim_end [] = []
trim_end (c ∷ cs) = cons_unless_blank c (trim_end cs)

-- The leading digits, and what follows them.
unfoldable pub span_digits : List ℕ → List ℕ × List ℕ
span_digits [] = ([], [])
span_digits (c ∷ cs) =
    let (ds, rest) = span_digits cs in if is_digit c then (c ∷ ds, rest) else ([], c ∷ cs)

-- The milliseconds of `(ms|s|m|h)?$`.
unfoldable pub unit_ms : List ℕ → Option ℕ
unit_ms [] = some 1
unit_ms (c ∷ []) =
    if eqb c b's'
    then some 1000
    else if eqb c b'm'
    then some 60_000
    else if eqb c b'h'
    then some 3_600_000
    else none
unit_ms (c ∷ d ∷ []) = if eqb c b'm' && eqb d b's' then some 1 else none
unit_ms _ = none

-- How many halvings bring a number below 2 ^ 53; the largest double needs 971.
unfoldable pub excess : ℕ → ℕ → ℕ
excess zero n = 0
excess (suc fuel) n = let more = excess fuel (n / 2) in if ltb n (2 ^ 53) then 0 else suc more

-- The nearest double to a natural number, of two equally near the one with an even significand. An
-- infinite double is left out: it needs more than 308 digits.
unfoldable pub to_double : ℕ → ℕ
unfolding excess
to_double n =
    let unit = 2 ^ excess 971 n in
    let low = n / unit in
    let rest = 2 * (n % unit) in
    let up = ltb unit rest || (eqb unit rest && eqb (low % 2) 1) in
    if ltb n (2 ^ 53) then n else (if up then low + 1 else low) * unit

-- n * factor, if there are digits and a unit.
abbrev scaled : List ℕ → Option ℕ → Option ℕ → Option ℕ
scaled [] n factor = none
scaled (d ∷ ds) (some n) (some factor) = some (to_double (to_double n * factor))
scaled (d ∷ ds) _ _ = none

unfoldable pub match_duration : List ℕ → Option ℕ
unfolding span_digits unit_ms digits_value
match_duration cs =
    let (ds, rest) = span_digits cs in scaled ds (digits_value 0 ds) (unit_ms (trim_start rest))

unfoldable pub parse_duration_ms : Scalar → Option ℕ
unfolding match_duration trim_start trim_end is_space
parse_duration_ms absent = none
parse_duration_ms (number (nat n)) = some n
parse_duration_ms (number _) = none
parse_duration_ms (text cs) = match_duration (trim_end (trim_start cs))

-- `parseInt(s, 10)` of a text, where the result is not negative. `signed` is after a minus.
abbrev int_prefix : Bool → List ℕ → Option ℕ
int_prefix signed cs = elim ((span_digits cs).0) [
  | [] ↦ none
  | d ∷ ds ↦ elim (digits_value 0 (d ∷ ds)) [
    | none ↦ none
    | some n ↦ if signed && ltb 0 n then none else some (to_double n)
  ]
]

unfoldable pub parse_int : List ℕ → Option ℕ
unfolding span_digits digits_value
parse_int [] = none
parse_int (c ∷ cs) =
    if eqb c b'-'
    then int_prefix true cs
    else if eqb c b'+'
    then int_prefix false cs
    else int_prefix false (c ∷ cs)

unfoldable pub non_negative_int : Scalar → Option ℕ
unfolding parse_int trim_start is_space
non_negative_int absent = none
non_negative_int (number (nat n)) = some n
non_negative_int (number _) = none
non_negative_int (text cs) = parse_int (trim_start cs)

-- The environment variables EXECUTION_*.
pub record Env : Type 0 where
  pub default_node_timeout : Scalar
  pub default_workflow_timeout : Scalar
  pub max_retries : Scalar
  pub max_iterations : Scalar
  pub max_tokens : Scalar

pub record Defaults : Type 0 where
  pub node_timeout_ms : ℕ
  pub workflow_timeout_ms : ℕ
  pub max_retries : ℕ
  pub max_iterations : ℕ
  pub max_tokens : ℕ

unfoldable pub defaults : Env → Defaults
defaults env = record {
  node_timeout_ms = get_or_else (parse_duration_ms env.default_node_timeout) 60_000;
  workflow_timeout_ms = get_or_else (parse_duration_ms env.default_workflow_timeout) 1_800_000;
  max_retries = get_or_else (non_negative_int env.max_retries) 10;
  max_iterations = get_or_else (non_negative_int env.max_iterations) 10_000;
  max_tokens = get_or_else (non_negative_int env.max_tokens) 100_000;
}

module _ (env : Env) where
  unfoldable pub resolve_node_timeout_ms : Node → Workflow → ℕ
  unfolding defaults
  resolve_node_timeout_ms node w =
      get_or_else (or_else (parse_duration_ms node.timeout) (parse_duration_ms w.node_timeout))
        (defaults env).node_timeout_ms

  unfoldable pub resolve_workflow_timeout_ms : Workflow → ℕ
  unfolding defaults
  resolve_workflow_timeout_ms w =
      get_or_else (parse_duration_ms w.timeout) (defaults env).workflow_timeout_ms

  unfoldable pub resolve_max_retries : Number → ℕ
  unfolding defaults
  resolve_max_retries (nat n) = min n (defaults env).max_retries
  resolve_max_retries _ = min 0 (defaults env).max_retries

  unfoldable pub resolve_max_iterations : Workflow → ℕ
  unfolding defaults
  resolve_max_iterations w =
      get_or_else (non_negative_int w.max_iterations) (defaults env).max_iterations

  unfoldable pub resolve_max_tokens : Workflow → ℕ
  unfolding defaults
  resolve_max_tokens w = get_or_else (non_negative_int w.max_tokens) (defaults env).max_tokens

  -- Throws IterationCapError with the count and the ceiling.
  unfoldable pub assert_iteration_cap : Workflow → ℕ → Result (ℕ × ℕ) (Unit {0})
  assert_iteration_cap w count =
      let most = resolve_max_iterations w in if ltb most count then err (count, most) else ok tt

-- `Math.max(0, used | 0)`: the low 32 bits as a signed number, and 0 if that is negative.
unfoldable pub int32_or_zero : Number → ℕ
int32_or_zero (nat n) = let low = n % 4_294_967_296 in if ltb low 2_147_483_648 then low else 0
int32_or_zero (neg n) =
    let low = 4_294_967_295 - n % 4_294_967_296 in if ltb low 2_147_483_648 then low else 0
int32_or_zero _ = 0

module _ (env : Env) where
  -- The new `ctx._tokens` (0 where it is not set), and the returned total or BudgetExhaustedError.
  unfoldable pub charge_tokens : Workflow → ℕ → Number → ℕ × Result (ℕ × ℕ) ℕ
  charge_tokens w before used =
      let most = resolve_max_tokens env w in
      let after = before + int32_or_zero used in
      if eqb most 0
      then (before, ok before)
      else (after, if ltb most after then err (after, most) else ok after)
