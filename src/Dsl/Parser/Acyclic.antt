-- ===== src/Dsl/Parser/Acyclic.antt =====
-- The cycle check visits every node exactly if the graph has no cycle.
use daisy_workflow.Common.{
  ℕ, zero, suc, ◌≤◌, ◌<◌, String, ◌≡◌, inl, inr, true, false, List, [], ◌∷◌, ◌==◌, eq_iff, arith,
  if◌then◌else◌, Bool-cases, All-elem, length, elem, Distinct, length-le_of_Within,
  Within-of_length,
}
use daisy_workflow.Dsl.Graph.{Edge, parents, indegrees}
use daisy_workflow.Dsl.Graph.Frontier.{times, blocked, blocker}
use daisy_workflow.Dsl.Parser.{roots, visited_count}
use daisy_workflow.Dsl.Parser.Kahn.{IsTopological, IsClosed, parents-Within, Progress, start, run}

-- `rank` puts every node above the nodes that it depends on.
abbrev pub IsRanked : (String → ℕ) → List Edge → Type 0
IsRanked rank es = (p c : String) → elem p (parents c es) ≡ true → rank p < rank c

-- The place of a node in the order of the visits.
position : String → List String → ℕ
position n [] = 0
position n (x ∷ xs) = if x == n then suc (length xs) else position n xs

position-le : (n : String) (xs : List String) → position n xs ≤ length xs
unfolding position
position-le n [] = omega arith
position-le n (x ∷ xs) = ground (arith, position-le n xs)

parents_visited :
    (es : List Edge) (done : List String) (p c : String)
    → IsTopological es done
    → elem c done ≡ true
    → elem p (parents c es) ≡ true
    → elem p done ≡ true
unfolding elem
parents_visited es [] p c t h k = cc
parents_visited es (x ∷ done) p c (before, t) h k = elim (Bool-cases (x == c)) [
  | inl same ↦
      let found =
        All-elem (λ z. elem z done ≡ true) p (parents c es) (rw ((eq_iff x c).0 same) at before)
          k in
      ground arith
  | inr other ↦ ground (arith, parents_visited es done p c t (ground arith) k)
]

position-lt :
    (es : List Edge) (done : List String) (p c : String)
    → Distinct done
    → IsTopological es done
    → elem c done ≡ true
    → elem p (parents c es) ≡ true
    → position p done < position c done
unfolding elem position
position-lt es [] p c d t h k = cc
position-lt es (x ∷ done) p c (fresh, d) (before, t) h k = elim (Bool-cases (x == c)) [
  | inl same ↦
      let found =
        All-elem (λ z. elem z done ≡ true) p (parents c es) (rw ((eq_iff x c).0 same) at before)
          k in
      ground (arith, position-le p done, eq_iff x p)
  | inr other ↦
      let visited = parents_visited es done p c t (ground arith) k in
      ground (arith, position-lt es done p c d t (ground arith) k, eq_iff x p)
]

child_in :
    (ns : List String) (p c : String) (es : List Edge)
    → IsClosed ns es
    → elem p (parents c es) ≡ true
    → elem c ns ≡ true
unfolding parents elem
child_in ns p c [] cl h = cc
child_in ns p c (e ∷ es) (here, cl) h = ground (arith, child_in ns p c es cl, eq_iff e.to c)

module _ (ns : List String) (es : List Edge) (closed : IsClosed ns es) (dn : Distinct ns) where
  finished :
      (done : List String) × (d : String → ℕ) × Progress ns es done [] d
      × (visited_count ns es ≡ length done)
  unfolding visited_count
  finished =
      run ns es closed (suc (length ns)) [] (roots ns es) (indegrees es) (omega arith)
        (start ns es closed dn)

  pub IsRanked-of_visited : visited_count ns es ≡ length ns → (rank : String → ℕ) × IsRanked rank es
  IsRanked-of_visited e =
      let (done, d, p, counted) = finished in
      let everything = Within-of_length done ns p.distinct p.within (omega arith) in
      (
        λ n. position n done,
        λ u c h.
            position-lt es done u c p.distinct p.ordered
              (everything c (child_in ns u c es closed h)) h,
      )

  -- A listed node that is left out still waits for something.
  stuck :
      (done : List String) (d : String → ℕ) (n : String)
      → Progress ns es done [] d
      → elem n ns ≡ true
      → elem n done ≡ false
      → 0 < blocked (λ z. elem z done) n es
  unfolding elem times
  stuck done d n p h missing = let f = p.frontier in ground (arith, f.full n h missing, f.count n)

  -- By induction on the rank, no listed node is left out.
  visited_below :
      (rank : String → ℕ) (done : List String) (d : String → ℕ)
      → IsRanked rank es
      → Progress ns es done [] d
      → (k : ℕ) (n : String) → rank n < k
      → elem n ns ≡ true
      → elem n done ≡ true
  visited_below rank done d ranked p zero n lt h = absurd (omega arith)
  visited_below rank done d ranked p (suc k) n lt h = elim (Bool-cases (elem n done)) [
    | inl there ↦ there
    | inr missing ↦
        let (u, dep, waits) = blocker (λ z. elem z done) n es (stuck done d n p h missing) in
        let seen : elem u done ≡ true =
          visited_below rank done d ranked p k u (omega (arith, ranked u n dep))
            (parents-Within ns n es closed u dep) in
        absurd (cc)
  ]

  pub visited_of_ranked : (rank : String → ℕ) → IsRanked rank es → visited_count ns es ≡ length ns
  visited_of_ranked rank ranked =
      let (done, d, p, counted) = finished in
      let most = length-le_of_Within done ns p.distinct p.within in
      let least =
        length-le_of_Within ns done dn
          (λ z h. visited_below rank done d ranked p (suc (rank z)) z (omega arith) h) in
      omega arith
