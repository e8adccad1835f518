-- ===== src/Engine/Executor/Rounds.antt =====
-- The loop over the layers: what holds between two rounds.
use daisy_workflow.Common.{
  ℕ, String, ◌≡◌, refl, sym, ◌∙◌, subst, inl, inr, Bool, true, false, not, ◌&&◌, ◌||◌, Option, none,
  List, [], ◌∷◌, eq_iff, arith, if◌then◌else◌, Bool-cases, is_some, All, All-elem, All-of_elem,
  elem, Distinct,
}
use daisy_workflow.Js.{is_inherited}
use daisy_workflow.Dsl.Graph.{targets, parents}
use daisy_workflow.Dsl.Graph.Frontier.{
  Frontier, times, released_of_blocked, relax-Frontier, release-Frontier, Frontier-congr,
}
use daisy_workflow.Engine.Executor.State.{Status, success, failed, skipped, Outcome, State}
use daisy_workflow.Engine.Executor.Nodes.{has_status, is_skipped}
use daisy_workflow.Engine.Executor.Schedule.{
  Setup, names_of, edges_of, is_taken, has_result, is_waiting_status, release_one, release_all,
}
use daisy_workflow.Engine.Executor.Shuffling.{is_ended, is_successful}
use daisy_workflow.Engine.Executor.Layer.{IsDue, IsLayered}

-- A node that has ended and does not wait for an answer.
abbrev pub is_settled : Status → Bool
is_settled success = true
is_settled failed = true
is_settled skipped = true
is_settled _ = false

none_settled : (o : Option Outcome) → has_status is_settled o ≡ true → o ≡ none → ⊥
none_settled o a b = ground arith

successful_ended :
    (o : Option Outcome) → has_status is_successful o ≡ true → has_status is_ended o ≡ true
successful_ended o a = ground arith

untaken_ended : (o : Option Outcome) → has_status is_ended o ≡ true → is_some o ≡ false → ⊥
untaken_ended o a b = ground arith

ended_settled :
    (o : Option Outcome)
    → has_status is_ended o ≡ true
    → has_status is_waiting_status o ≡ false
    → has_status is_settled o ≡ true
ended_settled o a b = ground arith

-- What no round has taken.
pub untaken :
    (r : Setup) (results : String → Option Outcome) (n : String)
    → is_taken r results n ≡ false
    → (is_some (results n) ≡ false) × (elem n (names_of r) ≡ true)
unfolding has_result
untaken r results n h = apart (is_some (results n)) (is_inherited n) (elem n (names_of r)) h
  where
    apart : (a b c : Bool) → ((a || b) || not c) ≡ false → (a ≡ false) × (c ≡ true)
    apart a b c h = ground arith

has_result_congr :
    (f g : String → Option Outcome) (n : String) → f n ≡ g n → has_result f n ≡ has_result g n
unfolding has_result
has_result_congr f g n e = rw e refl

pub result_of :
    (results : String → Option Outcome) (n : String)
    → has_result results n ≡ true
    → is_inherited n ≡ false
    → is_some (results n) ≡ true
unfolding has_result
result_of results n h own = ground arith

pub result-of_inherited :
    (results : String → Option Outcome) (n : String)
    → is_inherited n ≡ true
    → has_result results n ≡ true
unfolding has_result
result-of_inherited results n h = ground arith

pub missing_of :
    (results : String → Option Outcome) (n : String)
    → has_result results n ≡ false
    → is_some (results n) ≡ false
unfolding has_result
missing_of results n h = ground arith

missing_none : (o : Option Outcome) → is_some o ≡ false → o ≡ none
missing_none o h = ground arith

module _ (r : Setup) where
  abbrev parents_in : String → List String
  parents_in m = parents m (edges_of r)

  -- Nothing ran before its parents were settled, and nothing succeeded under a skipped parent.
  pub record IsOrderly (results : String → Option Outcome) : Type 0 where
    pub ordered :
        (n : String)
        → has_status is_ended (results n) ≡ true
        → All (λ p. has_status is_settled (results p) ≡ true) (parents_in n)
    pub cascade :
        (n : String)
        → has_status is_successful (results n) ≡ true
        → All (λ p. has_status is_skipped (results p) ≡ false) (parents_in n)

  abbrev Queue : State → List String → (String → ℕ) → (String → Bool) → List String → Type 0
  Queue s ts d rel q =
      Frontier (edges_of r) (λ n. elem n (names_of r)) (is_taken r s.results) rel ts d q

  -- Between two rounds.
  pub record Invariant (s : State) : Type 0 where
    pub queue : Queue s [] s.remaining (λ n. has_status is_settled (s.results n)) s.ready
    pub recorded :
        (n : String) → is_some (s.results n) ≡ true → has_status is_ended (s.results n) ≡ true
    pub orderly : IsOrderly s.results

  settled_parents :
      (s : State) (m : String)
      → Invariant s
      → elem m s.ready ≡ true
      → All (λ p. has_status is_settled (s.results p) ≡ true) (parents_in m)
  unfolding times
  settled_parents s m inv h =
      released_of_blocked (λ n. has_status is_settled (s.results n)) m (edges_of r)
        (omega (arith, inv.queue.count m, inv.queue.zero_in m h))

  fresh_in_queue :
      (s : State) (m : String) → Invariant s → elem m s.ready ≡ true → s.results m ≡ none
  fresh_in_queue s m inv h =
      missing_none (s.results m) (untaken r s.results m (inv.queue.fresh m h)).0

  pub due : (s : State) → Invariant s → IsDue r s.ready (record s { ready = [] })
  due s inv = record {
    fresh = λ m h. fresh_in_queue s m inv h;
    listed = λ m h. inv.queue.known m h;
    apart = λ m h.
        All-of_elem (λ p. elem p s.ready ≡ false) (parents_in m)
          λ p at.
            let ended =
              All-elem (λ q. has_status is_settled (s.results q) ≡ true) p (parents_in m)
                (settled_parents s m inv h) at in
            elim (Bool-cases (elem p s.ready)) [
              | inl queued ↦
                  absurd (none_settled (s.results p) ended (fresh_in_queue s p inv queued))
              | inr free ↦ free
            ];
  }

  -- After a round, also one that is aborted.
  pub layered-IsOrderly :
      (s s' : State)
      → Invariant s
      → IsLayered r s.ready (record s { ready = [] }) s'
      → IsOrderly s'.results
  layered-IsOrderly s s' inv l = record {
    ordered = λ n h. elim (Bool-cases (elem n s.ready)) [
      | inl now ↦ carry n (settled_parents s n inv now)
      | inr before ↦ carry n (inv.orderly.ordered n (rw (l.others n before) at h))
    ];
    cascade = λ n h. elim (Bool-cases (elem n s.ready)) [
      | inl now ↦ kept n (settled_parents s n inv now) (l.cascade n now h)
      | inr before ↦
          let was = rw (l.others n before) at h in
          kept n (inv.orderly.ordered n (successful_ended (s.results n) was))
            (inv.orderly.cascade n was)
    ];
  }
    where
      same : (p : String) → has_status is_settled (s.results p) ≡ true → s'.results p ≡ s.results p
      same p h = elim (Bool-cases (elem p s.ready)) [
        | inl queued ↦ absurd (none_settled (s.results p) h (fresh_in_queue s p inv queued))
        | inr free ↦ l.others p free
      ]

      carry :
          (n : String)
          → All (λ p. has_status is_settled (s.results p) ≡ true) (parents_in n)
          → All (λ p. has_status is_settled (s'.results p) ≡ true) (parents_in n)
      carry n h = All-of_elem _ (parents_in n) λ p at.
          let e =
            All-elem (λ q. has_status is_settled (s.results q) ≡ true) p (parents_in n) h at in
          rw (same p e) e

      kept :
          (n : String)
          → All (λ p. has_status is_settled (s.results p) ≡ true) (parents_in n)
          → All (λ p. has_status is_skipped (s.results p) ≡ false) (parents_in n)
          → All (λ p. has_status is_skipped (s'.results p) ≡ false) (parents_in n)
      kept n h k = All-of_elem _ (parents_in n) λ p at.
          let e =
            All-elem (λ q. has_status is_settled (s.results q) ≡ true) p (parents_in n) h at in
          rw (same p e)
            (All-elem (λ q. has_status is_skipped (s.results q) ≡ false) p (parents_in n) k at)

  -- The counts while a layer is released: `rest` is still to come.
  abbrev Releasing : State → List String → (String → ℕ) → List String → Type 0
  Releasing s rest d q =
      Queue s [] d (λ k. has_status is_settled (s.results k) && not (elem k rest)) q

  release_step :
      (x : String) (rest : List String) (s : State)
      → elem x rest ≡ false
      → has_status is_ended (s.results x) ≡ true
      → Releasing s (x ∷ rest) s.remaining s.ready
      → Releasing (release_one r x s) rest (release_one r x s).remaining (release_one r x s).ready
        × ((release_one r x s).results ≡ s.results)
        × ((release_one r x s).aborting ≡ s.aborting)
        × ((release_one r x s).faulted ≡ s.faulted)
  unfolding release_one elem
  release_step x rest s new ended f =
      elim (Bool-cases (has_status is_waiting_status (s.results x))) [
        | inl waits ↦
            rw (waits, if◌then◌else◌)
              (
                Frontier-congr _ _ _ _ _ [] s.remaining s.ready (λ m. ground (arith, eq_iff x m)) f,
                refl,
                refl,
                refl,
              )
        | inr goes ↦
            rw (goes, if◌then◌else◌)
              (
                Frontier-congr (edges_of r) (λ n. elem n (names_of r)) (is_taken r s.results) _
                    (λ k. has_status is_settled (s.results k) && not (elem k rest)) [] _ _
                    (λ m. ground (arith, eq_iff x m, ended_settled (s.results x) ended goes, new))
                    (relax-Frontier (edges_of r) (λ n. elem n (names_of r)) (is_taken r s.results) _
                      (is_taken r s.results) (targets x (edges_of r)) s.remaining s.ready
                      (λ t _ free. (untaken r s.results t free).1) (λ t h. h) (λ t a b. absurd (cc))
                      (release-Frontier (edges_of r) _ _ _ x s.remaining s.ready
                        (ground (arith, eq_iff x x)) f)),
                refl,
                refl,
                refl,
              )
      ]

  release_all-Releasing :
      (rest : List String) (s : State)
      → Distinct rest
      → ((m : String) → elem m rest ≡ true → has_status is_ended (s.results m) ≡ true)
      → Releasing s rest s.remaining s.ready
      → Releasing
          (release_all r rest s)
          []
          (release_all r rest s).remaining
          (release_all r rest s).ready
        × ((release_all r rest s).results ≡ s.results)
  unfolding release_all elem
  release_all-Releasing [] s d h f = (f, refl)
  release_all-Releasing (x ∷ rest) s (new, d) h f =
      let (g, same, _, _) = release_step x rest s new (h x (ground (arith, eq_iff x x))) f in
      let (final, e) =
        release_all-Releasing rest (release_one r x s) d (λ m at. rw same (h m (ground arith))) g in
      (final, e ∙ same)

  after_round :
      (s s' : State)
      → Invariant s
      → IsLayered r s.ready (record s { ready = [] }) s'
      → Releasing s' s.ready s.remaining []
  unfolding elem
  after_round s s' inv l =
      let f =
        Frontier-congr (edges_of r) (λ n. elem n (names_of r)) (is_taken r s.results) _
          (λ k. has_status is_settled (s'.results k) && not (elem k s.ready)) [] s.remaining s.ready
          agrees inv.queue in
      record {
        count = f.count;
        zero_in = λ n h. cc;
        fresh = λ n h. cc;
        known = λ n h. cc;
        full = λ n dn o z. elim (Bool-cases (elem n s.ready)) [
          | inl now ↦
              absurd (untaken_ended (s'.results n) (l.ended n now) (untaken r s'.results n o).0)
          | inr before ↦ absurd (
              not_queued n before (
                inv.queue.full n dn
                  (ground
                    (arith, has_result_congr s.results s'.results n (sym (l.others n before))))
                  z))
        ];
        distinct = tt;
      }
    where
      agrees :
          (k : String)
          → has_status is_settled (s.results k)
            ≡ (has_status is_settled (s'.results k) && not (elem k s.ready))
      agrees k = elim (Bool-cases (elem k s.ready)) [
        | inl now ↦ ground (arith, fresh_in_queue s k inv now)
        | inr before ↦ ground (arith, l.others k before)
      ]

      not_queued : (n : String) → elem n s.ready ≡ false → elem n s.ready ≡ true → ⊥
      not_queued n a b = cc

  -- The invariant holds for the next round.
  pub next_Invariant :
      (s s' : State)
      → Invariant s
      → IsLayered r s.ready (record s { ready = [] }) s'
      → Invariant (release_all r s.ready s')
  unfolding elem
  next_Invariant s s' inv l =
      let (f, same) = release_all-Releasing s.ready s' inv.queue.distinct l.ended begun in
      record {
        queue = Frontier-congr _ _ _ _ _ [] _ _ (λ m. ground arith) f;
        recorded = λ n h. rw same (recorded n (rw same at h));
        orderly = subst IsOrderly (sym same) (layered-IsOrderly s s' inv l);
      }
    where
      begun : Releasing s' s.ready s'.remaining s'.ready
      begun = rw (l.counts, l.queue) (after_round s s' inv l)

      recorded :
          (n : String) → is_some (s'.results n) ≡ true → has_status is_ended (s'.results n) ≡ true
      recorded n h = elim (Bool-cases (elem n s.ready)) [
        | inl now ↦ l.ended n now
        | inr before ↦ rw (l.others n before) (inv.recorded n (rw (l.others n before) at h))
      ]
