-- ===== src/Engine/Executor/Layer.antt =====
-- One layer: every node of it ends, in whatever order, and nothing else changes.
use mathlib.Core.List.{append-nil, append_assoc, cons≢nil}
use daisy_workflow.Common.{
  ℕ, String, ◌≡◌, ◌≢◌, refl, sym, ap, ◌∙◌, subst, inl, inr, Bool, true, false, ◌||◌, none, List, [],
  ◌∷◌, ◌++◌, ◌==◌, eq_iff, arith, Bool-cases, All, All-append, any, elem,
}
use daisy_workflow.Dsl.Workflow.{Node}
use daisy_workflow.Dsl.Graph.{parents}
use daisy_workflow.Engine.Executor.State.{State}
use daisy_workflow.Engine.Executor.Nodes.{has_status, is_skipped, Job, finish_work}
use daisy_workflow.Engine.Executor.Schedule.{
  shuffle, Setup, names_of, edges_of, begin_name, begin_all, finish_all, run_layer,
}
use daisy_workflow.Engine.Executor.Effects.{Began, over, waits, begin-Began, begin-ran}
use daisy_workflow.Engine.Executor.Finishes.{finish-Finished}
use daisy_workflow.Engine.Executor.Shuffling.{
  is_ended, is_successful, any-append, any-shuffle, All-shuffle, by_name_found,
  skipped_parent_congr, not_skipped, begun_ended, begun_not_successful,
}

abbrev has_job : String → List Job → Bool
has_job m js = any (λ j. j.node.name == m) js

module _ (r : Setup) (layer : List String) (s₀ : State) where
  abbrev parents_in : String → List String
  parents_in m = parents m (edges_of r)

  abbrev IsClear : String → Type 0
  IsClear m = All (λ p. has_status is_skipped (s₀.results p) ≡ false) (parents_in m)

  abbrev IsReady : Job → Type 0
  IsReady j = (elem j.node.name layer ≡ true) × IsClear j.node.name

  -- The layer under way: `left` have not begun, `jobs` have not ended.
  record Middle (left : List String) (s : State) (jobs : List Job) : Type 0 where
    others : (m : String) → elem m layer ≡ false → s.results m ≡ s₀.results m
    counts : s.remaining ≡ s₀.remaining
    queue : s.ready ≡ s₀.ready
    ended :
        (m : String)
        → elem m layer ≡ true
        → elem m left ≡ false
        → (has_job m jobs || has_status is_ended (s.results m)) ≡ true
    cascade :
        (m : String)
        → elem m layer ≡ true
        → has_status is_successful (s.results m) ≡ true
        → IsClear m
    ready : All IsReady jobs

  finish_step :
      (left : List String) (s : State) (j : Job) (jobs : List Job)
      → Middle left s (j ∷ jobs)
      → Middle left (finish_work r.env r.workflow r.registry r.world j.node j.work s) jobs
  finish_step left s j jobs mid =
      let f = finish-Finished r.env r.workflow r.registry r.world j.node j.work s in
      let x = j.node.name in
      record {
        others =
            λ m out. ground (arith, f.touches.others m, mid.others m out, mid.ready, eq_iff x m);
        counts = f.touches.counts ∙ mid.counts;
        queue = f.touches.queue ∙ mid.queue;
        ended =
            λ m a b. ground (arith, mid.ended m a b, f.touches.others m, f.recorded, eq_iff x m);
        cascade = λ m a b. elim (Bool-cases (x == m)) [
          | inl same ↦ subst IsClear ((eq_iff x m).0 same) mid.ready.0.1
          | inr other ↦ mid.cascade m a (rw (f.touches.others m other) at b)
        ];
        ready = mid.ready.1;
      }

  finish_all-Middle :
      (jobs : List Job) (s : State) → Middle [] s jobs → Middle [] (finish_all r jobs s) []
  unfolding finish_all
  finish_all-Middle [] s mid = mid
  finish_all-Middle (j ∷ jobs) s mid = finish_all-Middle jobs _ (finish_step [] s j jobs mid)

  -- What a layer starts from.
  pub record IsDue : Type 0 where
    pub fresh : (m : String) → elem m layer ≡ true → s₀.results m ≡ none
    pub listed : (m : String) → elem m layer ≡ true → elem m (names_of r) ≡ true
    pub apart : (m : String) → elem m layer ≡ true → All (λ p. elem p layer ≡ false) (parents_in m)

  parents_unchanged :
      (s : State) (ps : List String)
      → ((m : String) → elem m layer ≡ false → s.results m ≡ s₀.results m)
      → All (λ p. elem p layer ≡ false) ps
      → All (λ p. s.results p ≡ s₀.results p) ps
  parents_unchanged s [] o h = tt
  parents_unchanged s (p ∷ ps) o (q, h) = (o p q, parents_unchanged s ps o h)

  begin_step :
      (n : Node) (left : List String) (s : State) (acc : List Job) {out : State × List Job}
      → elem n.name layer ≡ true
      → (out.1 ≢ [] → IsClear n.name)
      → Began n s out
      → Middle (n.name ∷ left) s acc
      → Middle left out.0 (acc ++ out.1)
  unfolding elem
  begin_step n left s acc here clear (over {s'} t h) mid = rw append-nil (record {
    others = λ m out. ground (arith, t.others m, mid.others m out, here, eq_iff n.name m);
    counts = t.counts ∙ mid.counts;
    queue = t.queue ∙ mid.queue;
    ended = λ m a b.
        ground
          (arith, mid.ended m a, t.others m, begun_ended (s'.results n.name) h, eq_iff n.name m);
    cascade = λ m a b. elim (Bool-cases (n.name == m)) [
      | inl same ↦
          absurd (begun_not_successful (s'.results n.name) h (rw (← (eq_iff n.name m).0 same) at b))
      | inr other ↦ mid.cascade m a (rw (t.others m other) at b)
    ];
    ready = mid.ready;
  })
  begin_step n left s acc here clear (waits {s'} {k} t same) mid = record {
    others = λ m out. ap (λ f. f m) same ∙ mid.others m out;
    counts = t.counts ∙ mid.counts;
    queue = t.queue ∙ mid.queue;
    ended = λ m a b. ground (
      arith,
      mid.ended m a,
      any-append (λ j. j.node.name == m) acc (record { node = n; work = k } ∷ []),
      ap (λ f. f m) same,
    );
    cascade = λ m a b. mid.cascade m a (rw same at b);
    ready =
        All-append IsReady acc (record { node = n; work = k } ∷ []) mid.ready
          ((here, clear cons≢nil), tt);
  }

  begin_name-Middle :
      (x : String) (left : List String) (s : State) (acc : List Job)
      → IsDue
      → elem x layer ≡ true
      → Middle (x ∷ left) s acc
      → Middle left (begin_name r x s).0 (acc ++ (begin_name r x s).1)
  unfolding begin_name
  begin_name-Middle x left s acc due here mid =
      let (n, found, named) = by_name_found r.workflow.nodes x (due.listed x here) in
      rw (found, begin_name)
        (begin_step n left s acc (rw named here)
          (λ ran. not_skipped s₀.results (parents_in n.name) (
            sym (
              skipped_parent_congr s.results s₀.results (parents_in n.name) (
                parents_unchanged s (parents_in n.name) mid.others
                  (due.apart n.name (rw named here))))
            ∙ begin-ran r.ev r.env r.workflow parents_in r.overrides n s ran))
          (begin-Began r.ev r.env r.workflow parents_in r.overrides n s) (rw named mid))

  begin_all-Middle :
      (xs : List String) (s : State) (acc : List Job)
      → IsDue
      → ((m : String) → elem m xs ≡ true → elem m layer ≡ true)
      → Middle xs s acc
      → Middle [] (begin_all r xs s).0 (acc ++ (begin_all r xs s).1)
  unfolding begin_all elem
  begin_all-Middle [] s acc due sub mid = rw append-nil mid
  begin_all-Middle (x ∷ xs) s acc due sub mid =
      let (s', js) = begin_name r x s in
      let (s'', ks) = begin_all r xs s' in
      let first = begin_name-Middle x xs s acc due (sub x (ground (arith, eq_iff x x))) mid in
      let rest = begin_all-Middle xs s' (acc ++ js) due (λ m h. sub m (ground arith)) first in
      rw append_assoc at rest

  -- Every node of the layer has ended, no other result has changed, and a node that succeeded has no
  -- skipped parent.
  pub record IsLayered (s' : State) : Type 0 where
    pub others : (m : String) → elem m layer ≡ false → s'.results m ≡ s₀.results m
    pub counts : s'.remaining ≡ s₀.remaining
    pub queue : s'.ready ≡ []
    pub ended : (m : String) → elem m layer ≡ true → has_status is_ended (s'.results m) ≡ true
    pub cascade :
        (m : String)
        → elem m layer ≡ true
        → has_status is_successful (s'.results m) ≡ true
        → IsClear m

start_Middle :
    (r : Setup) (s : State)
    → IsDue r s.ready (record s { ready = [] })
    → Middle r s.ready (record s { ready = [] }) s.ready (record s { ready = [] }) []
start_Middle r s due = record {
  others = λ m h. refl;
  counts = refl;
  queue = refl;
  ended = λ m a b. absurd (cc);
  cascade = λ m a b. absurd (none_successful (due.fresh m a) b);
  ready = tt;
}
  where
    none_successful :
        {m : String} → s.results m ≡ none → has_status is_successful (s.results m) ≡ true → ⊥
    none_successful a b = ground arith

-- The round as a whole.
pub run_layer-IsLayered :
    (r : Setup) (i : ℕ) (s : State)
    → IsDue r s.ready (record s { ready = [] })
    → IsLayered r s.ready (record s { ready = [] }) (run_layer r i s)
unfolding run_layer elem
run_layer-IsLayered r i s due =
    let s₀ = record s { ready = [] } in
    let (s', jobs) = begin_all r s.ready s₀ in
    let begun = begin_all-Middle r s.ready s₀ s.ready s₀ [] due (λ m h. h) (start_Middle r s due) in
    let end = finish_all-Middle r s.ready s₀ (shuffle (r.world.order i) jobs) s' (record {
      others = begun.others;
      counts = begun.counts;
      queue = begun.queue;
      ended = λ m a b.
          rw (any-shuffle (λ j. j.node.name == m) (r.world.order i) jobs) (begun.ended m a b);
      cascade = begun.cascade;
      ready = All-shuffle (IsReady r s.ready s₀) (r.world.order i) jobs begun.ready;
    }) in
    record {
      others = end.others;
      counts = end.counts;
      queue = end.queue;
      ended = λ m a. end.ended m a (nothing m);
      cascade = end.cascade;
    }
  where
    nothing : (m : String) → elem m [] ≡ false
    nothing m = refl
