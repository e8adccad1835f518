-- ===== src/Engine/Executor/Effects.antt =====
-- What the first half of a node's run changes: its own result, and never the counts or the queue.
use daisy_workflow.Common.{
  ℕ, String, ◌≡◌, ◌≢◌, refl, inl, inr, Bool, true, false, Option, none, some, List, [], ◌∷◌, ◌==◌,
  eq_iff, arith, Bool-cases, Option-cases, Result, ok, err,
}
use daisy_workflow.Js.{Value, arr, items}
use daisy_workflow.Dsl.Workflow.{Node, Workflow}
use daisy_workflow.Engine.Limits.{Env}
use daisy_workflow.Engine.Executor.State.{
  Status, running, success, failed, skipped, waiting, Outcome, State, put, settle, emit, Evaluator,
}
use daisy_workflow.Engine.Executor.Nodes.{
  has_status, skipped_parent, Job, Work, handle_failure, begin_items, begin_over, begin_input,
  begin_condition, begin_unless, begin,
}

abbrev pub is_begun : Status → Bool
is_begun skipped = true
is_begun failed = true
is_begun _ = false

abbrev pub is_finished : Status → Bool
is_finished success = true
is_finished failed = true
is_finished waiting = true
is_finished _ = false

-- Only the result of `x` may change.
pub record Touches (x : String) (s s' : State) : Type 0 where
  pub others : (m : String) → (x == m) ≡ false → s'.results m ≡ s.results m
  pub counts : s'.remaining ≡ s.remaining
  pub queue : s'.ready ≡ s.ready

-- The first half records a skip or a failure, or leaves a job and no result.
pub data Began (n : Node) (s : State) : State × List Job → Type 0 where
  over :
      {s' : State}
      → Touches n.name s s'
      → has_status is_begun (s'.results n.name) ≡ true
      → Began n s (s', [])
  waits :
      {s' : State} {k : Work}
      → Touches n.name s s'
      → s'.results ≡ s.results
      → Began n s (s', record { node = n; work = k } ∷ [])

pub settle-Touches : (x : String) (o : Outcome) (s : State) → Touches x s (settle x o s)
unfolding settle put
settle-Touches x o s = record {
  others = λ m e. ground arith;
  counts = ground arith;
  queue = ground arith;
}

pub settle-results : (x : String) (o : Outcome) (s : State) → (settle x o s).results x ≡ some o
unfolding settle put
settle-results x o s = ground (arith, eq_iff x x)

pub handle_failure-results : (n : Node) (s : State) → (handle_failure n s).results ≡ s.results
unfolding handle_failure
handle_failure-results n s = ground arith

pub handle_failure-Touches :
    (n : Node) (x : String) (s s' : State) → Touches x s s' → Touches x s (handle_failure n s')
unfolding handle_failure
handle_failure-Touches n x s s' t = record {
  others = λ m e. ground (arith, t.others m e);
  counts = ground (arith, t.counts);
  queue = ground (arith, t.queue);
}

Touches-refl : (x : String) (s : State) → Touches x s s
Touches-refl x s = record { others = λ m e. refl; counts = refl; queue = refl }

emit-results : (x : String) (st : Status) (s : State) → (emit x st s).results ≡ s.results
unfolding emit
emit-results x st s = refl

-- A node that fails.
failed-Began :
    (n : Node) (o : Outcome) (s : State)
    → is_begun o.status ≡ true
    → Began n s (handle_failure n (settle n.name o s), [])
failed-Began n o s h =
    over (handle_failure-Touches n n.name s _ (settle-Touches n.name o s))
      (rw (handle_failure-results n (settle n.name o s), settle-results n.name o s) h)

settled-Began :
    (n : Node) (o : Outcome) (s : State)
    → is_begun o.status ≡ true
    → Began n s (settle n.name o s, [])
settled-Began n o s h = over (settle-Touches n.name o s) (rw (settle-results n.name o s) h)

emit-Touches : (x y : String) (st : Status) (s : State) → Touches x s (emit y st s)
unfolding emit
emit-Touches x y st s = record { others = λ m e. refl; counts = refl; queue = refl }

Began-emit :
    (n : Node) (y : String) (st : Status) (s : State) {out : State × List Job}
    → Began n (emit y st s) out
    → Began n s out
unfolding emit
Began-emit n y st s (over t h) =
    over (record { others = t.others; counts = t.counts; queue = t.queue }) h
Began-emit n y st s (waits t h) =
    waits (record { others = t.others; counts = t.counts; queue = t.queue }) h

module _ (ev : Evaluator) (env : Env) (w : Workflow) (parents_of : String → List String)
    (overrides : String → Option Value) where
  begin_items-Began :
      (n : Node) (xs : List Value) (s : State) (c : Result (ℕ × ℕ) (Unit {0}))
      → Began n s (begin_items ev env w parents_of overrides n xs s c)
  unfolding begin_items
  begin_items-Began n xs s (err (count, most)) = failed-Began n _ s refl
  begin_items-Began n xs s (ok _) = waits (Touches-refl n.name s) refl

  begin_over-Began :
      (n : Node) (s : State) (v : Result String Value)
      → Began n s (begin_over ev env w parents_of overrides n s v)
  unfolding begin_over
  begin_over-Began n s (err e) = failed-Began n _ s refl
  begin_over-Began n s (ok (arr xs)) =
      Began-emit n n.name running s (begin_items-Began n (items xs) (emit n.name running s) _)
  begin_over-Began n s (ok _) = failed-Began n _ s refl

  begin_input-Began :
      (n : Node) (s : State) (v : Result String Value)
      → Began n s (begin_input ev env w parents_of overrides n s v)
  unfolding begin_input
  begin_input-Began n s (err e) = failed-Began n _ s refl
  begin_input-Began n s (ok v) = elim (Bool-cases (n.batch_over == "")) [
    | inl plain ↦
        rw plain (waits (emit-Touches n.name n.name running s) (emit-results n.name running s))
    | inr many ↦ rw many (begin_over-Began n s _)
  ]

  begin_condition-Began :
      (n : Node) (s : State) (c : Result String Bool)
      → Began n s (begin_condition ev env w parents_of overrides n s c)
  unfolding begin_condition
  begin_condition-Began n s (err e) = settled-Began n _ s refl
  begin_condition-Began n s (ok true) = begin_input-Began n s _
  begin_condition-Began n s (ok false) = settled-Began n _ s refl

  begin_unless-Began :
      (n : Node) (s : State) (p : Option String)
      → Began n s (begin_unless ev env w parents_of overrides n s p)
  unfolding begin_unless
  begin_unless-Began n s (some p) = settled-Began n _ s refl
  begin_unless-Began n s none = elim (Bool-cases (n.execute_if == "")) [
    | inl plain ↦ rw plain (begin_input-Began n s _)
    | inr guarded ↦ rw guarded (begin_condition-Began n s _)
  ]

  pub begin-Began : (n : Node) (s : State) → Began n s (begin ev env w parents_of overrides n s)
  unfolding begin
  begin-Began n s = begin_unless-Began n s _

  -- A job is left only by a node none of whose parents was skipped.
  pub begin-ran :
      (n : Node) (s : State)
      → (begin ev env w parents_of overrides n s).1 ≢ []
      → skipped_parent s.results (parents_of n.name) ≡ none
  unfolding begin begin_unless
  begin-ran n s h = elim (Option-cases (skipped_parent s.results (parents_of n.name))) [
    | inl clear ↦ clear
    | inr (p, found) ↦ absurd (h (rw (found, begin_unless)))
  ]
