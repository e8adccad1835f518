-- ===== src/Engine/Batch/Coverage.antt =====
-- Every item of a batch is run, in whatever order the workers take their steps.
use daisy_workflow.Common.{
  ℕ, zero, suc, ◌≤◌, ◌<◌, min, String, ◌≡◌, refl, sym, ap, ◌∙◌, subst, ◌⊎◌, inl, inr, Bool, true,
  false, Option, none, some, List, [], ◌∷◌, arith, if◌then◌else◌, Bool-cases, ltb, eqb, Result, ok,
  Result-cases,
}
use daisy_workflow.Dsl.Workflow.{Workflow}
use daisy_workflow.Engine.Limits.{Env, assert_iteration_cap}
use daisy_workflow.Engine.Batch.{
  Worker, idle, at_work, stopped, Batch, item_result, set_at, concurrency_of, execute_batch,
  worker_step, run_workers, first_batch,
}

pub set_at-here : {A : Type 0} (f : ℕ → A) (k : ℕ) (a : A) → set_at f k a k ≡ a
set_at-here f k a = ground arith

pub set_at-elsewhere :
    {A : Type 0} (f : ℕ → A) (k : ℕ) (a : A) (j : ℕ) → eqb k j ≡ false → set_at f k a j ≡ f j
set_at-elsewhere f k a j h = ground arith

not_stopped :
    (b : Bool) (wk : Worker)
    → (wk ≡ stopped → ⊥)
    → (if b then wk else stopped) ≡ stopped
    → b ≡ false
not_stopped true wk other h = absurd (other h)
not_stopped false wk other h = refl

idle_runs : idle ≡ stopped → ⊥
idle_runs h = cc

working_runs : (i : ℕ) → at_work i ≡ stopped → ⊥
working_runs i h = cc

not_below : (a b : ℕ) → ltb a b ≡ false → b ≤ a
not_below a b h = ground arith

below : (a b : ℕ) → a < b → ltb a b ≡ true
below a b h = ground arith

pub equal : (a b : ℕ) → eqb a b ≡ true → a ≡ b
equal a b h = ground arith

module _ (run : ℕ → Result String String) (count width : ℕ) where
  -- An item that has been taken is recorded with the result of its own run, or a worker is at it.
  abbrev pub IsTaken : Batch → ℕ → Type 0
  IsTaken b i = (b.results i ≡ some (item_result i (run i))) ⊎ (k : ℕ) × (b.workers k ≡ at_work i)

  record Invariant (b : Batch) : Type 0 where
    taken : (i : ℕ) → i < b.cursor → i < count → IsTaken b i
    ended : (k : ℕ) → k < width → b.workers k ≡ stopped → count ≤ b.cursor

  start_Invariant : Invariant (first_batch width)
  unfolding first_batch
  start_Invariant = record {
    taken = λ i lt at. absurd (omega arith);
    ended = λ k lt e.
        absurd (omega (arith, not_below k width (not_stopped (ltb k width) idle idle_runs e)));
  }

  step_Invariant :
      (k : ℕ) (wk : Worker) (b : Batch)
      → b.workers k ≡ wk
      → Invariant b
      → Invariant (worker_step run count k wk b)
  unfolding worker_step
  step_Invariant k stopped b e inv = inv
  step_Invariant k idle b e inv = record {
    taken = λ i lt at. elim (Bool-cases (eqb i b.cursor)) [
      | inl now ↦ inr (k, set_at-here b.workers k _ ∙ starts i now at)
      | inr before ↦ elim (inv.taken i (ground arith) at) [
        | inl done ↦ inl done
        | inr (j, w) ↦ elim (Bool-cases (eqb k j)) [
          | inl same ↦ absurd (clash i j same w)
          | inr other ↦ inr (j, set_at-elsewhere b.workers k _ j other ∙ w)
        ]
      ]
    ];
    ended = λ j lt s. elim (Bool-cases (eqb k j)) [
      | inl same ↦
          let here = subst (λ x. set_at b.workers k next x ≡ stopped) (sym (equal k j same)) s in
          let full = not_below b.cursor count (
            not_stopped (ltb b.cursor count) (at_work b.cursor) (working_runs b.cursor)
              (sym (set_at-here b.workers k next) ∙ here)) in
          omega arith
      | inr other ↦
          let full = inv.ended j lt (sym (set_at-elsewhere b.workers k next j other) ∙ s) in
          omega arith
    ];
  }
    where
      next : Worker
      next = if ltb b.cursor count then at_work b.cursor else stopped

      starts : (i : ℕ) → eqb i b.cursor ≡ true → i < count → next ≡ at_work i
      starts i now at =
          let same : i ≡ b.cursor = equal i b.cursor now in
          rw (below b.cursor count (omega arith), if◌then◌else◌) (ap at_work (sym same))

      clash : (i j : ℕ) → eqb k j ≡ true → b.workers j ≡ at_work i → ⊥
      clash i j same w =
          let here = subst (λ x. b.workers x ≡ at_work i) (sym (equal k j same)) w in cc
  step_Invariant k (at_work m) b e inv = record {
    taken = λ i lt at. elim (Bool-cases (eqb m i)) [
      | inl now ↦ inl (mine i now)
      | inr before ↦ elim (inv.taken i lt at) [
        | inl done ↦ inl (set_at-elsewhere b.results m _ i before ∙ done)
        | inr (j, w) ↦ elim (Bool-cases (eqb k j)) [
          | inl same ↦ absurd (ground (arith, swapped i j same w))
          | inr other ↦ inr (j, set_at-elsewhere b.workers k _ j other ∙ w)
        ]
      ]
    ];
    ended = λ j lt s. elim (Bool-cases (eqb k j)) [
      | inl same ↦ absurd (
          idle_runs (
            sym (set_at-here b.workers k idle)
            ∙ subst (λ x. set_at b.workers k idle x ≡ stopped) (sym (equal k j same)) s))
      | inr other ↦ inv.ended j lt (sym (set_at-elsewhere b.workers k idle j other) ∙ s)
    ];
  }
    where
      mine :
          (i : ℕ)
          → eqb m i ≡ true
          → set_at b.results m (some (item_result m (run m))) i ≡ some (item_result i (run i))
      mine i now =
          subst
            (λ x.
              set_at b.results m (some (item_result m (run m))) x ≡ some (item_result x (run x)))
            (equal m i now) (set_at-here b.results m _)

      swapped : (i j : ℕ) → eqb k j ≡ true → b.workers j ≡ at_work i → m ≡ i
      swapped i j same w =
          let here = subst (λ x. b.workers x ≡ at_work i) (sym (equal k j same)) w in cc

  run_workers-Invariant :
      (steps : List ℕ) (b : Batch) → Invariant b → Invariant (run_workers run count steps b)
  unfolding run_workers
  run_workers-Invariant [] b inv = inv
  run_workers-Invariant (k ∷ ks) b inv =
      run_workers-Invariant ks _ (step_Invariant k (b.workers k) b refl inv)

  covered :
      (b : Batch) (i : ℕ)
      → 0 < width
      → Invariant b
      → ((k : ℕ) → b.workers k ≡ stopped)
      → i < count
      → b.results i ≡ some (item_result i (run i))
  covered b i some_worker inv over at =
      let full = inv.ended 0 some_worker (over 0) in
      elim (inv.taken i (omega arith) at) [
        | inl done ↦ done
        | inr (k, w) ↦ absurd (working_runs i (sym w ∙ over k))
      ]

-- Once every worker of a batch that the cap admits has stopped, each item has its result, and it is
-- that of its own run, whatever the concurrency and whatever the order of the workers' steps.
pub execute_batch-covered :
    (env : Env) (w : Workflow) (run : ℕ → Result String String) (count : ℕ) (concurrency : Option ℕ)
    (steps : List ℕ) (b : Batch) (i : ℕ)
    → execute_batch env w run count concurrency steps ≡ ok b
    → ((k : ℕ) → b.workers k ≡ stopped)
    → i < count
    → b.results i ≡ some (item_result i (run i))
unfolding execute_batch
execute_batch-covered env w run count concurrency steps b i h over at =
    elim (Result-cases (assert_iteration_cap env w count)) [
      | inr (e, refused) ↦ absurd (cc (rw (refused, execute_batch) at h))
      | inl (u, passed) ↦
          let same : run_workers run count steps (first_batch width) ≡ b =
            cc (rw (passed, execute_batch) at h) in
          covered run count width b i (omega (arith, some_worker concurrency))
            (subst (Invariant run count width) same (
              run_workers-Invariant run count width steps (first_batch width)
                (start_Invariant run count width)))
            over at
    ]
  where
    width : ℕ
    width = min (concurrency_of concurrency) count

    some_worker : (c : Option ℕ) → 0 < concurrency_of c
    some_worker none = omega arith
    some_worker (some zero) = omega arith
    some_worker (some (suc n)) = omega arith
