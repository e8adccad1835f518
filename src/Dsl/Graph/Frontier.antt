-- ===== src/Dsl/Graph/Frontier.antt =====
-- What the queue and the counts mean: a count is the number of edges from nodes that are not
-- released yet, and the queue holds exactly the nodes that wait for nothing.
use daisy_workflow.Common.{
  ℕ, ◌+◌, ◌-◌, ◌<◌, String, ◌≡◌, refl, inl, inr, Bool, true, false, not, ◌&&◌, ◌||◌, List, [], ◌∷◌,
  ◌++◌, ◌==◌, eq_iff, arith, update, eqb, if◌then◌else◌, Bool-cases, All, elem, elem-append,
  Distinct, Distinct-snoc,
}
use daisy_workflow.Dsl.Graph.{Edge, targets, parents, indegrees, relax}

-- How often a text stands in a list.
unfoldable pub times : String → List String → ℕ
times n [] = 0
times n (t ∷ ts) = (if t == n then 1 else 0) + times n ts

-- The number of edges into `n` from nodes that are not released.
unfoldable pub blocked : (String → Bool) → String → List Edge → ℕ
blocked r n [] = 0
blocked r n (e ∷ es) = (if (e.to == n) && not (r e.from) then 1 else 0) + blocked r n es

-- Releasing a node unblocks its successors, once for each edge.
pub blocked-release :
    (r : String → Bool) (m n : String) (es : List Edge)
    → r m ≡ false
    → blocked r n es ≡ blocked (λ k. (m == k) || r k) n es + times n (targets m es)
unfolding blocked times targets
blocked-release r m n [] h = omega arith
blocked-release r m n (e ∷ es) h =
    ground (arith, blocked-release r m n es h, eq_iff m e.from, eq_iff e.from m)

pub blocked-eq-indegrees :
    (r : String → Bool) (n : String) (es : List Edge)
    → ((m : String) → r m ≡ false)
    → indegrees es n ≡ blocked r n es
unfolding blocked indegrees
blocked-eq-indegrees r n [] h = refl
blocked-eq-indegrees r n (e ∷ es) h = ground (arith, blocked-eq-indegrees r n es h, h e.from)

-- Nothing blocks a node: its parents are released.
pub released_of_blocked :
    (r : String → Bool) (n : String) (es : List Edge)
    → blocked r n es ≡ 0
    → All (λ p. r p ≡ true) (parents n es)
unfolding blocked parents
released_of_blocked r n [] h = tt
released_of_blocked r n (e ∷ es) h = elim (Bool-cases (e.to == n)) [
  | inl into ↦ rw (into, if◌then◌else◌) (ground arith, released_of_blocked r n es (ground arith))
  | inr other ↦ rw (other, if◌then◌else◌) (released_of_blocked r n es (ground arith))
]

-- Something blocks it: an edge into it comes from a node that is not released.
pub blocker :
    (r : String → Bool) (n : String) (es : List Edge)
    → 0 < blocked r n es
    → (p : String) × (elem p (parents n es) ≡ true) × (r p ≡ false)
unfolding blocked parents elem
blocker r n [] h = absurd (omega arith)
blocker r n (e ∷ es) h = elim (Bool-cases (e.to == n)) [
  | inl into ↦ elim (Bool-cases (r e.from)) [
    | inl done ↦ let (p, m, f) = blocker r n es (ground arith) in (p, ground arith, f)
    | inr waits ↦ (e.from, ground (arith, eq_iff e.from e.from), waits)
  ]
  | inr other ↦ let (p, m, f) = blocker r n es (ground arith) in (p, ground arith, f)
]

-- The state of the queue while the successors `ts` of a released node are still to be counted down.
-- `taken` is the test of the loop, `out` holds of the nodes that have left the queue for good.
pub record Frontier (es : List Edge) (declared out r : String → Bool) (ts : List String)
    (d : String → ℕ) (q : List String) : Type 0 where
  pub count : (n : String) → d n ≡ blocked r n es + times n ts
  pub zero_in : (n : String) → elem n q ≡ true → d n ≡ 0
  pub fresh : (n : String) → elem n q ≡ true → out n ≡ false
  pub known : (n : String) → elem n q ≡ true → declared n ≡ true
  pub full : (n : String) → declared n ≡ true → out n ≡ false → d n ≡ 0 → elem n q ≡ true
  pub distinct : Distinct q

module _ (es : List Edge) (declared out r taken : String → Bool) where
  -- One step of the loop.
  relax_step :
      (t : String) (ts : List String) (d : String → ℕ) (q : List String)
      → (taken t ≡ false → declared t ≡ true)
      → (taken t ≡ true → out t ≡ true)
      → (taken t ≡ false → out t ≡ true → d t ≡ 0)
      → Frontier es declared out r (t ∷ ts) d q
      → Frontier es declared out r ts
          (update d t (d t - 1))
          (if eqb (d t) 1 && not (taken t) then q ++ t ∷ [] else q)
  unfolding times elem
  relax_step t ts d q in_graph out_if free f = record {
    count = λ n. ground (arith, f.count n, eq_iff t n);
    zero_in = λ n e. ground (arith, elem-append n q (t ∷ []), f.zero_in n, eq_iff t n);
    fresh = λ n e. ground (
      arith,
      elem-append n q (t ∷ []),
      f.fresh n,
      free,
      out_if,
      f.zero_in n,
      eq_iff t n,
      Bool-cases (out n),
    );
    known = λ n e. ground (arith, elem-append n q (t ∷ []), f.known n, in_graph, eq_iff t n);
    full = λ n dn o z.
        ground (
          arith,
          elem-append n q (t ∷ []),
          f.full n dn o,
          f.count n,
          eq_iff t n,
          out_if,
          eq_iff n n,
        );
    distinct = ground (arith, Distinct-snoc q t f.distinct, f.zero_in t);
  }

  -- The whole loop.
  pub relax-Frontier :
      (ts : List String) (d : String → ℕ) (q : List String)
      → ((t : String) → elem t ts ≡ true → taken t ≡ false → declared t ≡ true)
      → ((t : String) → taken t ≡ true → out t ≡ true)
      → ((t : String) → taken t ≡ false → out t ≡ true → d t ≡ 0)
      → Frontier es declared out r ts d q
      → Frontier es declared out r [] (relax taken ts d q).0 (relax taken ts d q).1
  unfolding relax elem
  relax-Frontier [] d q known out_if free f = f
  relax-Frontier (t ∷ ts) d q known out_if free f =
      relax-Frontier ts _ _ (λ u e. known u (ground arith)) out_if
        (λ u a b. ground (arith, free u a b, eq_iff t u))
        (relax_step t ts d q (known t (ground (arith, eq_iff t t))) (out_if t) (free t) f)

-- A node of no released count is released: the counts of its successors are due.
pub release-Frontier :
    (es : List Edge) (declared out r : String → Bool) (m : String) (d : String → ℕ)
    (q : List String)
    → r m ≡ false
    → Frontier es declared out r [] d q
    → Frontier es declared out (λ k. (m == k) || r k) (targets m es) d q
unfolding times
release-Frontier es declared out r m d q h f = record {
  count = λ n. omega (arith, f.count n, blocked-release r m n es h);
  zero_in = f.zero_in;
  fresh = f.fresh;
  known = f.known;
  full = f.full;
  distinct = f.distinct;
}

-- The head of the queue leaves it for good.
pub pop-Frontier :
    (es : List Edge) (declared out r : String → Bool) (ts : List String) (m : String)
    (d : String → ℕ) (q : List String)
    → Frontier es declared out r ts d (m ∷ q)
    → Frontier es declared (λ k. (m == k) || out k) r ts d q
unfolding elem
pop-Frontier es declared out r ts m d q f = record {
  count = f.count;
  zero_in = λ n e. ground (arith, f.zero_in n);
  fresh = λ n e. ground (arith, f.fresh n, eq_iff m n, f.distinct);
  known = λ n e. ground (arith, f.known n);
  full = λ n dn o z. ground (arith, f.full n dn);
  distinct = f.distinct.1;
}

blocked_congr :
    (r r' : String → Bool) (n : String) (es : List Edge)
    → ((m : String) → r m ≡ r' m)
    → blocked r n es ≡ blocked r' n es
unfolding blocked
blocked_congr r r' n [] h = refl
blocked_congr r r' n (e ∷ es) h = rw (h e.from, blocked_congr r r' n es h)

pub Frontier-congr :
    (es : List Edge) (declared out r r' : String → Bool) (ts : List String) (d : String → ℕ)
    (q : List String)
    → ((m : String) → r m ≡ r' m)
    → Frontier es declared out r ts d q
    → Frontier es declared out r' ts d q
Frontier-congr es declared out r r' ts d q h f = record {
  count = λ n. omega (arith, f.count n, blocked_congr r r' n es h);
  zero_in = f.zero_in;
  fresh = f.fresh;
  known = f.known;
  full = f.full;
  distinct = f.distinct;
}
