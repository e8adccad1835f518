-- ===== src/Engine/Executor/Order.antt =====
-- What a run guarantees about its nodes.
use daisy_workflow.Common.{
  suc, String, ◌≡◌, refl, subst, inl, inr, Bool, true, false, not, ◌&&◌, Option, none, some, [],
  arith, update, if◌then◌else◌, Bool-cases, length, is_some, all, All, ◌==◌, All-elem, All-of_elem,
  elem,
}
use daisy_workflow.Js.{is_inherited}
use daisy_workflow.Dsl.Graph.{parents}
use daisy_workflow.Engine.Executor.State.{
  Status, pending, run_aborted, not_reached, Outcome, State, put, settle,
}
use daisy_workflow.Engine.Executor.Nodes.{has_status, is_skipped}
use daisy_workflow.Engine.Executor.Schedule.{
  Setup, Options, Overall, ended, names_of, edges_of, loop, fresh, hydrate, first_ready, overall,
  reconcile, conclude, execute_dag,
}
use daisy_workflow.Engine.Executor.Shuffling.{is_ended, is_successful}
use daisy_workflow.Engine.Executor.Rounds.{is_settled, IsOrderly}
use daisy_workflow.Engine.Executor.Ending.{
  loop-IsOrderly, start_Invariant, mark_pending-has_status, mark_pending-aborting,
  mark_pending-recorded, mark_pending-is_inherited,
}

put_writes :
    (x : String) (o : Outcome) (s : State)
    → ((put x o s).results ≡ update s.results x (some o)) × ((put x o s).aborting ≡ s.aborting)
unfolding put
put_writes x o s = ground arith

settle_writes :
    (x : String) (o : Outcome) (s : State)
    → ((settle x o s).results ≡ update s.results x (some o))
      × ((settle x o s).aborting ≡ s.aborting)
unfolding settle put
settle_writes x o s = ground arith

-- The state that the loop leaves, and the final one.
pub record IsConcluded (r : Setup) (last final : State) : Type 0 where
  pub same :
      (test : Status → Bool) (n : String)
      → test pending ≡ false
      → has_status test (final.results n) ≡ has_status test (last.results n)
  pub aborting : final.aborting ≡ last.aborting
  pub recorded :
      (n : String)
      → is_inherited n ≡ false
      → elem n (names_of r) ≡ true
      → is_some (final.results n) ≡ true
  pub untouched : (n : String) → is_inherited n ≡ true → final.results n ≡ last.results n

reconcile-IsConcluded :
    (r : Setup) (a : Option String) (last : State) → IsConcluded r last (reconcile r a last)
unfolding reconcile
reconcile-IsConcluded r none last = record {
  same = λ test n h. mark_pending-has_status put not_reached put_writes test (names_of r) last n h;
  aborting = mark_pending-aborting put not_reached put_writes (names_of r) last;
  recorded = λ n own h.
      mark_pending-recorded put not_reached put_writes (names_of r) last n own (ground arith);
  untouched = λ n own. mark_pending-is_inherited put not_reached put_writes (names_of r) last n own;
}
reconcile-IsConcluded r (some x) last = record {
  same = λ test n h.
      mark_pending-has_status settle (run_aborted x) settle_writes test (names_of r) last n h;
  aborting = mark_pending-aborting settle (run_aborted x) settle_writes (names_of r) last;
  recorded = λ n own h.
      mark_pending-recorded settle (run_aborted x) settle_writes (names_of r) last n own
        (ground arith);
  untouched = λ n own.
      mark_pending-is_inherited settle (run_aborted x) settle_writes (names_of r) last n own;
}

-- A run that returns: its loop, and the conclusion.
pub record IsReturned (r : Setup) (start final : State) (o : Overall) : Type 0 where
  pub last : State
  pub ran : loop r (suc (length (names_of r))) 0 start ≡ last
  pub sound : last.faulted ≡ false
  pub concluded : IsConcluded r last final
  pub verdict : overall r final ≡ o

conclude_returned :
    (r : Setup) (last final : State) (o : Overall)
    → conclude r last ≡ ended o final
    → (reconcile r last.aborting last ≡ final) × (overall r final ≡ o)
unfolding conclude
conclude_returned r last final o h = elim (Bool-cases ((reconcile r last.aborting last).faulted)) [
  | inl bad ↦ absurd (cc (rw (bad, if◌then◌else◌) at h))
  | inr good ↦ ended_parts (rw (good, if◌then◌else◌) at h)
]
  where
    ended_parts :
        {s : State} → ended (overall r s) s ≡ ended o final → (s ≡ final) × (overall r final ≡ o)
    ended_parts {s} e = let p : s ≡ final = cc in (p, subst (λ t. overall r t ≡ o) p cc)

execute_dag-IsReturned :
    (r : Setup) (opts : Options) (o : Overall) (final : State)
    → execute_dag r opts ≡ ended o final
    → IsReturned r
        (first_ready r (hydrate r opts.initial_states (fresh r.workflow opts.initial_data)))
        final
        o
unfolding execute_dag
execute_dag-IsReturned r opts o final h =
    elim (Bool-cases (
      all (λ e. elem e.from (names_of r)) (edges_of r)
      && not (hydrate r opts.initial_states (fresh r.workflow opts.initial_data)).faulted)) [
        | inr bad ↦ absurd (cc (rw (bad, if◌then◌else◌) at h))
        | inl good ↦ elim (Bool-cases (end_of.faulted)) [
          | inl thrown ↦ absurd (cc (rw (good, if◌then◌else◌, thrown) at h))
          | inr sound ↦
              let (same, verdict) =
                conclude_returned r end_of final o (rw (good, if◌then◌else◌, sound) at h) in
              record {
                last = end_of;
                ran = refl;
                sound = sound;
                concluded =
                    subst (IsConcluded r end_of) same
                      (reconcile-IsConcluded r end_of.aborting end_of);
                verdict = verdict;
              }
        ]
      ]
  where
    end_of : State
    end_of =
        loop r (suc (length (names_of r))) 0
          (first_ready r (hydrate r opts.initial_states (fresh r.workflow opts.initial_data)))

-- The start of a run without earlier results.
abbrev pub start : Setup → Options → State
start r opts = first_ready r (fresh r.workflow opts.initial_data)

pub IsReturned-fresh :
    (r : Setup) (opts : Options) (o : Overall) (final : State)
    → opts.initial_states ≡ []
    → execute_dag r opts ≡ ended o final
    → IsReturned r (start r opts) final o
unfolding hydrate
IsReturned-fresh r opts o final e h =
    subst
      (λ l. IsReturned r (first_ready r (hydrate r l (fresh r.workflow opts.initial_data))) final o)
      e (execute_dag-IsReturned r opts o final h)

-- A run that resumes nothing and returns has run a node only when all its parents had ended, with
-- success, failure or a skip, and no node succeeded under a skipped parent.
pub execute_dag-IsOrderly :
    (r : Setup) (opts : Options) (o : Overall) (final : State)
    → opts.initial_states ≡ []
    → execute_dag r opts ≡ ended o final
    → IsOrderly r final.results
execute_dag-IsOrderly r opts o final e h =
    let t = IsReturned-fresh r opts o final e h in
    let it : IsOrderly r t.last.results =
      subst (λ s. IsOrderly r s.results) t.ran
        (loop-IsOrderly r (suc (length (names_of r))) 0 (start r opts)
          (start_Invariant r opts.initial_data)) in
    let same = t.concluded.same in
    record {
      ordered = λ n a. All-of_elem _ (parents n (edges_of r)) λ p at. rw (same is_settled p refl) (
          All-elem (λ q. has_status is_settled (t.last.results q) ≡ true) p _
            (it.ordered n (rw (same is_ended n refl) at a)) at);
      cascade = λ n a. All-of_elem _ (parents n (edges_of r)) λ p at. rw (same is_skipped p refl) (
          All-elem (λ q. has_status is_skipped (t.last.results q) ≡ false) p _
            (it.cascade n (rw (same is_successful n refl) at a)) at);
    }

-- Every declared node has a result when a run returns, unless its name is that of an inherited
-- property, whatever was resumed but a node named `__proto__`.
pub execute_dag-recorded :
    (r : Setup) (opts : Options) (o : Overall) (final : State) (n : String)
    → All (λ p. (p.0 == "__proto__") ≡ false) opts.initial_states
    → execute_dag r opts ≡ ended o final
    → is_inherited n ≡ false
    → elem n (names_of r) ≡ true
    → is_some (final.results n) ≡ true
execute_dag-recorded r opts o final n resumed h own at =
    let t = execute_dag-IsReturned r opts o final h in t.concluded.recorded n own at
