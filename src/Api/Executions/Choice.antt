-- ===== src/Api/Executions/Choice.antt =====
-- The node that a resume without a name puts back: a failed one, and none failed before it.
use daisy_workflow.Common.{
  ℕ, ◌≡◌, refl, subst, String, Bool, true, false, not, ◌&&◌, ◌||◌, Bool-cases, inl, inr, Option,
  none, some, List, [], ◌∷◌, ◌==◌, if◌then◌else◌, arith, all, Result, ok, eq_refl,
}
use daisy_workflow.Engine.NodeStates.{Row, Table}
use daisy_workflow.Api.Executions.{
  Refusal, Store, is_earlier, earlier, failed_row, first_failed, named, node_to_reset,
}

abbrev pub has_failed : Option Row → Bool
has_failed none = false
has_failed (some r) = r.status == "failed"

-- When the node ended, as far as its row says.
abbrev pub ended : Option Row → Option ℕ
ended none = none
ended (some r) = r.finished_at

abbrev is_not_before : (String → Option Row) → Option ℕ → String → Bool
is_not_before row time n = not (has_failed (row n)) || not (is_earlier (ended (row n)) time)

-- The node failed, and no node of these failed before it.
abbrev pub is_first_failed : (String → Option Row) → List String → String → Bool
is_first_failed row ns target =
    has_failed (row target)
    && all (λ n. not (has_failed (row n)) || not (is_earlier (ended (row n)) (ended (row target))))
        ns

abbrev IsFirst : (String → Option Row) → List String → Option (String × Option ℕ) → Type 0
IsFirst row ns none = all (λ n. not (has_failed (row n))) ns ≡ true
IsFirst row ns (some m) =
    (has_failed (row m.0) ≡ true)
    × (m.1 ≡ ended (row m.0))
    × (all (is_not_before row m.1) ns ≡ true)

all_weaken :
    (p q : String → Bool) (ns : List String)
    → ((n : String) → p n ≡ true → q n ≡ true)
    → all p ns ≡ true
    → all q ns ≡ true
all_weaken p q [] h k = refl
all_weaken p q (n ∷ ns) h k = ground (arith, h n (ground arith), all_weaken p q ns h (ground arith))

is_earlier_irrefl : (a : Option ℕ) → is_earlier a a ≡ false
is_earlier_irrefl none = refl
is_earlier_irrefl (some a) = ground arith

is_earlier_asymm : (a b : Option ℕ) → is_earlier a b ≡ true → is_earlier b a ≡ false
is_earlier_asymm none b h = cc
is_earlier_asymm (some a) none h = refl
is_earlier_asymm (some a) (some b) h = ground arith

is_earlier_comparison :
    (a b c : Option ℕ) → is_earlier a b ≡ false → is_earlier b c ≡ false → is_earlier a c ≡ false
is_earlier_comparison none b c h k = refl
is_earlier_comparison (some a) none c h k = cc
is_earlier_comparison (some a) (some b) none h k = cc
is_earlier_comparison (some a) (some b) (some c) h k = ground arith

failed_row-IsFirst :
    (row : String → Option Row) (n : String) (ns : List String) (o : Option Row)
    (later : Option (String × Option ℕ))
    → row n ≡ o
    → IsFirst row ns later
    → IsFirst row (n ∷ ns) (failed_row n o later)
failed_row-IsFirst row n ns none none e h = rw e h
failed_row-IsFirst row n ns none (some m) e h = (h.0, h.1, rw e h.2)
failed_row-IsFirst row n ns (some r) later e h = elim (Bool-cases (r.status == "failed")) [
  | inl f ↦ rw f (chosen later h f)
  | inr f ↦ rw f (passed later h f)
]
  where
    passed :
        (l : Option (String × Option ℕ))
        → IsFirst row ns l
        → (r.status == "failed") ≡ false
        → IsFirst row (n ∷ ns) l
    passed none k f = rw (e, f) k
    passed (some m) k f = (k.0, k.1, rw (e, f) k.2)

    chosen :
        (l : Option (String × Option ℕ))
        → IsFirst row ns l
        → (r.status == "failed") ≡ true
        → IsFirst row (n ∷ ns) (earlier (n, r.finished_at) l)
    chosen none k f = (
      rw (e, f) refl,
      rw e refl,
      rw (e, f, is_earlier_irrefl r.finished_at)
          (all_weaken (λ x. not (has_failed (row x))) (is_not_before row r.finished_at) ns
            (λ x q. ground arith) k),
    )
    chosen (some m) k f = elim (Bool-cases (is_earlier m.1 r.finished_at)) [
      | inl q ↦ rw q (k.0, k.1, rw (e, f, is_earlier_asymm m.1 r.finished_at q) k.2)
      | inr q ↦ rw q (
        rw (e, f) refl,
        rw e refl,
        rw (e, f, is_earlier_irrefl r.finished_at)
            (all_weaken (is_not_before row m.1) (is_not_before row r.finished_at) ns
              (λ x p. later_still x p q) k.2),
      )
    ]
      where
        later_still :
            (x : String)
            → is_not_before row m.1 x ≡ true
            → is_earlier m.1 r.finished_at ≡ false
            → is_not_before row r.finished_at x ≡ true
        later_still x p q = ground (arith, is_earlier_comparison (ended (row x)) m.1 r.finished_at)

first_failed-IsFirst :
    (id : String) (t : Table) (ns : List String) → IsFirst (t id) ns (first_failed id t ns)
unfolding first_failed
first_failed-IsFirst id t [] = refl
first_failed-IsFirst id t (n ∷ ns) =
    failed_row-IsFirst (t id) n ns (t id n) (first_failed id t ns) refl
      (first_failed-IsFirst id t ns)

-- The node that is put back is the one that is named, or one that failed first.
abbrev pub is_chosen : String → (String → Option Row) → List String → String → Bool
is_chosen node row ns target = if node == "" then is_first_failed row ns target else target == node

first_chosen :
    (row : String → Option Row) (ns : List String) (o : Option (String × Option ℕ))
    (target : String)
    → IsFirst row ns o
    → named o ≡ ok target
    → is_first_failed row ns target ≡ true
first_chosen row ns none target h k = cc
first_chosen row ns (some m) target h k =
    let same : m.0 ≡ target = cc in
    subst (λ (x : String). is_first_failed row ns x ≡ true) same (rw (h.0) (rw (h.1) at h.2))

pub node_to_reset-is_chosen :
    (id node target : String) (s : Store)
    → node_to_reset id node s ≡ ok target
    → is_chosen node (s.node_states id) (s.row_names id) target ≡ true
unfolding node_to_reset
node_to_reset-is_chosen id node target s h = elim (Bool-cases (node == "")) [
  | inl e ↦ rw e (
      first_chosen (s.node_states id) (s.row_names id)
        (first_failed id s.node_states (s.row_names id)) target
        (first_failed-IsFirst id s.node_states (s.row_names id)) (rw e at h))
  | inr e ↦ rw e (same node target (rw e at h))
]
  where
    same : (a b : String) → ◌≡◌ {A = Result Refusal String} (ok a) (ok b) → (b == a) ≡ true
    same a b q = let p : a ≡ b = cc in rw p (eq_refl b)
