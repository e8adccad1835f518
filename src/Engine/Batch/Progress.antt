-- ===== src/Engine/Batch/Progress.antt =====
-- The steps of a batch come to an end.
use daisy_workflow.Common.{
  ℕ, zero, suc, ◌+◌, ◌≤◌, ◌<◌, String, ◌≡◌, refl, sym, ap, subst, inl, inr, true, arith,
  if◌then◌else◌, Bool-cases, ltb, eqb, Result, ◌-◌, ◌*◌, ◌≢◌,
}
use daisy_workflow.Engine.Batch.{Worker, idle, at_work, stopped, Batch, set_at, worker_step}
use daisy_workflow.Engine.Batch.Coverage.{set_at-here, equal}

-- The steps that a worker still has to take, at least.
abbrev pub weight : Worker → ℕ
weight idle = 1
weight (at_work i) = 2
weight stopped = 0

abbrev pub total : (ℕ → Worker) → ℕ → ℕ
total workers zero = 0
total workers (suc n) = weight (workers n) + total workers n

-- What is left to do: two steps for each item that has not been taken, and those of the workers.
abbrev pub left : ℕ → ℕ → Batch → ℕ
left count width b = 2 * (count - b.cursor) + total b.workers width

total-beyond :
    (f : ℕ → Worker) (k : ℕ) (a : Worker) (n : ℕ) → n ≤ k → total (set_at f k a) n ≡ total f n
total-beyond f k a zero le = refl
total-beyond f k a (suc n) le = ground (arith, total-beyond f k a n)

total-set_at :
    (f : ℕ → Worker) (k : ℕ) (a : Worker) (n : ℕ)
    → k < n
    → total (set_at f k a) n + weight (f k) ≡ total f n + weight a
total-set_at f k a zero lt = absurd (omega arith)
total-set_at f k a (suc n) lt = elim (Bool-cases (eqb k n)) [
  | inl last ↦
      subst (λ x. total (set_at f x a) (suc n) + weight (f x) ≡ total f (suc n) + weight a)
        (sym (equal k n last)) at_the_end
  | inr before ↦ rw (before, if◌then◌else◌) (omega (arith, total-set_at f k a n (ground arith)))
]
  where
    at_the_end : total (set_at f n a) (suc n) + weight (f n) ≡ total f (suc n) + weight a
    at_the_end = rw (set_at-here f n a, total-beyond f n a n (omega arith)) (omega arith)

step_left :
    (run : ℕ → Result String String) (count width k : ℕ) (wk : Worker) (b : Batch)
    → k < width
    → b.workers k ≡ wk
    → (wk ≡ stopped → ⊥)
    → left count width (worker_step run count k wk b) < left count width b
unfolding worker_step
step_left run count width k stopped b lt e runs = absurd (runs refl)
step_left run count width k (at_work i) b lt e runs =
    omega (arith, total-set_at b.workers k idle width lt, ap weight e)
step_left run count width k idle b lt e runs = elim (Bool-cases (ltb b.cursor count)) [
  | inl more ↦
      rw (more, if◌then◌else◌)
        (omega
          (arith, total-set_at b.workers k (at_work b.cursor) width lt, ap weight e, is_below more))
  | inr done ↦
      rw (done, if◌then◌else◌)
        (omega (arith, total-set_at b.workers k stopped width lt, ap weight e))
]
  where
    is_below : ltb b.cursor count ≡ true → b.cursor < count
    is_below more = ground arith

-- Every step of a worker that has not stopped brings the batch nearer to its end.
pub worker_step-left :
    (run : ℕ → Result String String) (count width k : ℕ) (b : Batch)
    → k < width
    → b.workers k ≢ stopped
    → left count width (worker_step run count k (b.workers k) b) < left count width b
worker_step-left run count width k b lt runs =
    step_left run count width k (b.workers k) b lt refl runs
