-- ===== src/Engine/Executor/Attempts.antt =====
-- The attempts of one node.
use daisy_workflow.Common.{
  ℕ, zero, suc, ◌+◌, ◌-◌, ◌≤◌, String, ◌≡◌, refl, inl, inr, Bool, true, false, not, ◌&&◌, ◌||◌,
  arith, eqb, subst, Result-cases, Result, ok, err,
}
use daisy_workflow.Js.{Value, Number, nat, neg, nan, infinity}
use daisy_workflow.Dsl.Workflow.{Node, Workflow}
use daisy_workflow.Engine.Limits.{Env, defaults, resolve_max_retries, resolve_node_timeout_ms}
use daisy_workflow.Engine.Executor.State.{Fault, Reply, World, Registry}
use daisy_workflow.Engine.Executor.Nodes.{with_timeout, attempt_from, attempts_of}

abbrev pub is_ok : {A : Type 0} → {E : Type 0} → Result E A → Bool
is_ok (ok v) = true
is_ok (err e) = false

-- The `count` attempts from number `from` on have all failed.
abbrev pub have_failed : (ℕ → Reply) → String → ℕ → ℕ → ℕ → Bool
have_failed reply name ms from zero = true
have_failed reply name ms from (suc count) =
    not (is_ok (with_timeout name ms (reply from))) && have_failed reply name ms (from + 1) count

-- What is known of an outcome that was reached with attempt number `k`.
abbrev pub IsAttempted : (ℕ → Reply) → String → ℕ → ℕ → ℕ → Result Fault Value → ℕ → Type 0
IsAttempted reply name ms from left res k =
    (from ≤ k)
    × (k ≤ from + left)
    × (with_timeout name ms (reply k) ≡ res)
    × (have_failed reply name ms from (k - from) ≡ true)
    × ((is_ok res || eqb k (from + left)) ≡ true)

-- An attempt that has failed, and what is known of the attempts after it.
one_more :
    (reply : ℕ → Reply) (name : String) (ms from left : ℕ) (f : Fault) (res : Result Fault Value)
    (k : ℕ)
    → with_timeout name ms (reply from) ≡ err f
    → IsAttempted reply name ms (from + 1) left res k
    → IsAttempted reply name ms from (suc left) res k
one_more reply name ms from left f res k e (low, high, same, before, last) = (
  omega arith,
  omega arith,
  same,
  subst (λ c. have_failed reply name ms from c ≡ true) counted (rw e before),
  ground arith,
)
  where
    counted : suc (k - (from + 1)) ≡ k - from
    counted = omega arith

attempted :
    (reply : ℕ → Reply) (name : String) (ms from left : ℕ)
    → IsAttempted reply name ms from left
        (attempt_from reply name ms from left).0
        (attempt_from reply name ms from left).1
unfolding attempt_from
attempted reply name ms from zero =
    (omega arith, omega arith, refl, rw nothing_before, ground arith)
  where
    nothing_before : from - from ≡ 0
    nothing_before = omega arith
attempted reply name ms from (suc left) = elim (Result-cases (with_timeout name ms (reply from))) [
  | inl (v, e) ↦ rw (e, attempt_from) (omega arith, omega arith, e, rw nothing_before, refl)
  | inr (f, e) ↦
      rw (e, attempt_from)
        (one_more reply name ms from left f _ _ e (attempted reply name ms (from + 1) left))
]
  where
    nothing_before : from - from ≡ 0
    nothing_before = omega arith

-- A call of a plugin is attempted once, and again only after a failure: at most as often as the node
-- asks for and never more than EXECUTION_MAX_RETRIES times. The answer is that of the last attempt,
-- every attempt before it failed, and the node fails only when the attempts are used up.
pub attempts_of-IsAttempted :
    (env : Env) (w : Workflow) (registry : Registry) (world : World) (n : Node) (i : ℕ)
    → IsAttempted
        (world.reply n.name i)
        n.name
        (resolve_node_timeout_ms env n w)
        1
        (resolve_max_retries env n.retry)
        (attempts_of env w registry world n i).0
        (attempts_of env w registry world n i).1
      × ((attempts_of env w registry world n i).1 ≤ 1 + (defaults env).max_retries)
unfolding resolve_max_retries
attempts_of-IsAttempted env w registry world n i = (it, omega (arith, it.1, capped n.retry))
  where
    it :
        IsAttempted
          (world.reply n.name i)
          n.name
          (resolve_node_timeout_ms env n w)
          1
          (resolve_max_retries env n.retry)
          (attempts_of env w registry world n i).0
          (attempts_of env w registry world n i).1
    it =
        attempted (world.reply n.name i) n.name (resolve_node_timeout_ms env n w) 1
          (resolve_max_retries env n.retry)

    capped : (x : Number) → resolve_max_retries env x ≤ (defaults env).max_retries
    capped (nat m) = omega arith
    capped (neg m) = omega arith
    capped nan = omega arith
    capped infinity = omega arith
