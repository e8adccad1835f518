-- ===== src/Engine/Executor/Completion.antt =====
-- What the overall status of a run says about its nodes.
use daisy_workflow.Common.{
  ℕ, zero, suc, ◌<◌, String, ◌≡◌, refl, sym, ◌∙◌, subst, inl, inr, Bool, true, false, ◌||◌, Option,
  List, [], ◌∷◌, arith, eqb, eq_iff, if◌then◌else◌, Bool-cases, length, is_some, any, elem, All,
  All-elem,
}
use daisy_workflow.Js.{is_inherited}
use daisy_workflow.Dsl.Graph.{parents}
use daisy_workflow.Dsl.Graph.Frontier.{blocked, blocker, times}
use daisy_workflow.Dsl.Parser.Kahn.{IsClosed, parents-Within}
use daisy_workflow.Dsl.Parser.Acyclic.{IsRanked}
use daisy_workflow.Engine.Executor.State.{Status, pending, success, skipped, Outcome, State}
use daisy_workflow.Engine.Executor.Nodes.{has_status}
use daisy_workflow.Engine.Executor.Schedule.{
  Setup, Options, completed, ended, is_waiting_status, is_failed, is_aborted, is_empty, names_of,
  edges_of, has_result, overall, execute_dag,
}
use daisy_workflow.Engine.Executor.Shuffling.{is_ended}
use daisy_workflow.Engine.Executor.Rounds.{is_settled, result_of, Invariant}
use daisy_workflow.Engine.Executor.Ending.{HasStopped, loop_stops, start_Invariant}
use daisy_workflow.Engine.Executor.Order.{start, IsReturned, IsReturned-fresh}

-- A node that has what its children need: it succeeded or was skipped.
abbrev pub is_done : Status → Bool
is_done success = true
is_done skipped = true
is_done _ = false

none_of :
    (test : String → Bool) (xs : List String) (n : String)
    → any test xs ≡ false
    → elem n xs ≡ true
    → test n ≡ false
unfolding elem
none_of test [] n h at = cc
none_of test (x ∷ xs) n h at = ground (arith, none_of test xs n, eq_iff x n)

settled_done :
    (o : Option Outcome)
    → has_status is_settled o ≡ true
    → has_status is_failed o ≡ false
    → has_status is_done o ≡ true
settled_done o a b = ground arith

settled_of_ended :
    (o : Option Outcome)
    → has_status is_ended o ≡ true
    → has_status is_waiting_status o ≡ false
    → has_status is_settled o ≡ true
settled_of_ended o a b = ground arith

idle_empty : (q : List String) → is_empty q ≡ true → (n : String) → elem n q ≡ true → ⊥
unfolding elem
idle_empty [] h n at = cc
idle_empty (x ∷ xs) h n at = cc

module _ (r : Setup) where
  -- What `completed` excludes.
  record IsQuiet (s : State) : Type 0 where
    going : is_aborted s ≡ false
    no_failure :
        (n : String) → elem n (names_of r) ≡ true → has_status is_failed (s.results n) ≡ false
    no_wait :
        (n : String)
        → elem n (names_of r) ≡ true
        → has_status is_waiting_status (s.results n) ≡ false

  completed-IsQuiet : (s : State) → overall r s ≡ completed → IsQuiet s
  unfolding overall
  completed-IsQuiet s h = elim (Bool-cases (is_aborted s)) [
    | inl a ↦ absurd (cc (rw (a, if◌then◌else◌) at h))
    | inr b ↦ elim (Bool-cases (any (λ x. has_status is_failed (s.results x)) (names_of r))) [
      | inl c ↦ absurd (cc (rw (b, if◌then◌else◌, c) at h))
      | inr d ↦
          elim (Bool-cases (any (λ x. has_status is_waiting_status (s.results x)) (names_of r))) [
            | inl f ↦ absurd (cc (rw (b, if◌then◌else◌, d, f) at h))
            | inr g ↦ record {
              going = b;
              no_failure = λ n at. none_of _ (names_of r) n d at;
              no_wait = λ n at. none_of _ (names_of r) n g at;
            }
          ]
    ]
  ]

  -- Once nothing is ready and nothing waits, a node whose parents are settled is settled.
  settled_after_parents :
      (s : State) (n : String)
      → Invariant r s
      → is_empty s.ready ≡ true
      → has_status is_waiting_status (s.results n) ≡ false
      → is_inherited n ≡ false
      → elem n (names_of r) ≡ true
      → ((p : String)
          → elem p (parents n (edges_of r)) ≡ true
          → has_status is_settled (s.results p) ≡ true)
      → has_status is_settled (s.results n) ≡ true
  unfolding times
  settled_after_parents s n inv idle free own at above =
      settled_of_ended (s.results n) (inv.recorded n taken) free
    where
      settled : String → Bool
      settled m = has_status is_settled (s.results m)

      unblocked : blocked settled n (edges_of r) ≡ 0
      unblocked = elim (Bool-cases (eqb (blocked settled n (edges_of r)) 0)) [
        | inl none_left ↦ ground arith
        | inr held ↦
            let (p, into, unsettled) = blocker settled n (edges_of r) (ground arith) in
            absurd (cc (above p into))
      ]

      taken : is_some (s.results n) ≡ true
      taken = elim (Bool-cases (has_result s.results n)) [
        | inl there ↦ result_of s.results n there own
        | inr missing ↦ absurd (
            idle_empty s.ready idle n
              (inv.queue.full n at (ground arith) (omega (arith, inv.queue.count n, unblocked))))
      ]

  -- Every node, from the roots on.
  all_settled :
      (rank : String → ℕ) (s : State)
      → IsClosed (names_of r) (edges_of r)
      → IsRanked rank (edges_of r)
      → Invariant r s
      → is_empty s.ready ≡ true
      → ((m : String)
          → elem m (names_of r) ≡ true
          → has_status is_waiting_status (s.results m) ≡ false)
      → All (λ m. is_inherited m ≡ false) (names_of r)
      → (k : ℕ) (n : String) → rank n < k
      → elem n (names_of r) ≡ true
      → has_status is_settled (s.results n) ≡ true
  all_settled rank s closed ranked inv idle free own zero n lt at = absurd (omega arith)
  all_settled rank s closed ranked inv idle free own (suc k) n lt at =
      settled_after_parents s n inv idle (free n at)
        (All-elem (λ m. is_inherited m ≡ false) n (names_of r) own at) at
        λ p into.
          let below = ranked p n into in
          let known = parents-Within (names_of r) n (edges_of r) closed p into in
          all_settled rank s closed ranked inv idle free own k p (omega arith) known

-- A run over a graph without a cycle, none of whose nodes is named like an inherited property, that
-- resumes nothing and is reported as completed has brought every node to success or to a skip: no
-- node was lost, left pending or failed.
pub execute_dag-completed :
    (r : Setup) (opts : Options) (final : State) (rank : String → ℕ) (n : String)
    → IsClosed (names_of r) (edges_of r)
    → IsRanked rank (edges_of r)
    → All (λ m. is_inherited m ≡ false) (names_of r)
    → opts.initial_states ≡ []
    → execute_dag r opts ≡ ended completed final
    → elem n (names_of r) ≡ true
    → has_status is_done (final.results n) ≡ true
unfolding elem
execute_dag-completed r opts final rank n closed ranked own e h at =
    settled_done (final.results n) (rw (same is_settled n refl) settled) (quiet.no_failure n at)
  where
    t : IsReturned r (start r opts) final completed
    t = IsReturned-fresh r opts completed final e h

    same :
        (test : Status → Bool) (m : String)
        → test pending ≡ false
        → has_status test (final.results m) ≡ has_status test (t.last.results m)
    same = t.concluded.same

    quiet : IsQuiet r final
    quiet = completed-IsQuiet r final t.verdict

    stopped : HasStopped r t.last
    stopped = subst (HasStopped r) t.ran (
        loop_stops r (suc (length (names_of r))) 0 [] (start r opts) (omega arith)
          record { distinct = tt; within = λ z h. cc; ended = λ z h. cc }
          (start_Invariant r opts.initial_data))

    halted : (t.last.faulted || is_aborted t.last) ≡ true → ⊥
    halted bad = ground (arith, t.sound, quiet.going, t.concluded.aborting)

    settled : has_status is_settled (t.last.results n) ≡ true
    settled = elim stopped [
      | inl bad ↦ absurd (halted bad)
      | inr (inv, idle) ↦
          all_settled r rank t.last closed ranked inv idle
            (λ m known. sym (same is_waiting_status m refl) ∙ quiet.no_wait m known) own
            (suc (rank n)) n (omega arith) at
    ]
