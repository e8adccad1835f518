-- ===== src/Dsl/Parser/Kahn.antt =====
-- The loop of the cycle check: what it has visited, and that its fuel suffices.
use native.Mathlib.Numerals.{add-one}
use daisy_workflow.Common.{
  ℕ, zero, suc, ◌+◌, ◌-◌, ◌≤◌, ◌<◌, String, ◌≡◌, refl, Bool, true, false, not, ◌&&◌, List, [], ◌∷◌,
  ◌++◌, eq_iff, arith, eqb, update, if◌then◌else◌, All, length, elem, elem-keep, Distinct-keep,
  Distinct, Within, length-le_of_Within,
}
use daisy_workflow.Dsl.Graph.{Edge, targets, parents, indegrees, relax}
use daisy_workflow.Dsl.Graph.Frontier.{
  Frontier, times, blocked-eq-indegrees, released_of_blocked, relax-Frontier, release-Frontier,
  pop-Frontier,
}
use daisy_workflow.Dsl.Parser.{kahn, roots}

-- Each node stands before (in the list: behind) the nodes that depend on it.
abbrev pub IsTopological : List Edge → List String → Type 0
IsTopological es [] = Unit
IsTopological es (x ∷ done) = All (λ p. elem p done ≡ true) (parents x es) × IsTopological es done

-- Every edge leaves a listed node and enters a listed node.
abbrev pub IsClosed : List String → List Edge → Type 0
IsClosed ns es = All (λ e. (elem e.from ns ≡ true) × (elem e.to ns ≡ true)) es

targets-Within :
    (ns : List String) (m : String) (es : List Edge) → IsClosed ns es → Within (targets m es) ns
unfolding targets elem
targets-Within ns m [] c z h = cc
targets-Within ns m (e ∷ es) (here, c) z h =
    ground (arith, targets-Within ns m es c z, eq_iff e.to z)

pub parents-Within :
    (ns : List String) (m : String) (es : List Edge) → IsClosed ns es → Within (parents m es) ns
unfolding parents elem
parents-Within ns m [] c z h = cc
parents-Within ns m (e ∷ es) (here, c) z h =
    ground (arith, parents-Within ns m es c z, eq_iff e.from z)

relax-le :
    (taken : String → Bool) (ts : List String) (d : String → ℕ) (q : List String) (n : String)
    → (relax taken ts d q).0 n ≤ d n
unfolding relax
relax-le taken [] d q n = omega arith
relax-le taken (t ∷ ts) d q n =
    let q' = if eqb (d t) 1 && not (taken t) then q ++ t ∷ [] else q in
    ground (arith, relax-le taken ts (update d t (d t - 1)) q' n, eq_iff t n)

pub record Progress (ns : List String) (es : List Edge) (done q : List String) (d : String → ℕ)
    : Type 0 where
  pub frontier : Frontier es (λ n. elem n ns) (λ n. elem n done) (λ n. elem n done) [] d q
  pub distinct : Distinct done
  pub within : Within done ns
  pub ordered : IsTopological es done
  pub spent : (n : String) → elem n done ≡ true → d n ≡ 0

module _ (ns : List String) (es : List Edge) (closed : IsClosed ns es) where
  pub start : Distinct ns → Progress ns es [] (roots ns es) (indegrees es)
  unfolding elem times
  start dn = record {
    frontier = record {
      count = λ n. omega (arith, blocked-eq-indegrees (λ m. false) n es (λ m. refl));
      zero_in = λ n e. ground (arith, elem-keep (λ m. eqb (indegrees es m) 0) n ns);
      fresh = λ n e. refl;
      known = λ n e. ground (arith, elem-keep (λ m. eqb (indegrees es m) 0) n ns);
      full = λ n a b z. ground (arith, elem-keep (λ m. eqb (indegrees es m) 0) n ns);
      distinct = Distinct-keep _ ns dn;
    };
    distinct = tt;
    within = λ z h. cc;
    ordered = tt;
    spent = λ n h. cc;
  }

  visit :
      (done : List String) (m : String) (q : List String) (d : String → ℕ)
      → Progress ns es done (m ∷ q) d
      → Progress ns es
          (m ∷ done)
          (relax (λ _. false) (targets m es) d q).1
          (relax (λ _. false) (targets m es) d q).0
  unfolding elem
  visit done m q d p =
      let f = p.frontier in
      let here : elem m (m ∷ q) ≡ true = ground (arith, eq_iff m m) in
      let idle = f.zero_in m here in
      let zero_out : (t : String) → elem t (m ∷ done) ≡ true → d t ≡ 0 =
        λ t h. ground (arith, p.spent t, eq_iff m t) in
      record {
        frontier =
            relax-Frontier es (λ n. elem n ns) (λ n. elem n (m ∷ done)) (λ n. elem n (m ∷ done))
              (λ _. false) (targets m es) d q (λ t h _. targets-Within ns m es closed t h)
              (λ t h. cc) (λ t _ h. zero_out t h)
              (release-Frontier es (λ n. elem n ns) (λ n. elem n (m ∷ done)) (λ n. elem n done) m d
                q (f.fresh m here) (pop-Frontier es _ _ _ [] m d q f));
        distinct = (f.fresh m here, p.distinct);
        within = λ z h. ground (arith, p.within z, f.known m here, eq_iff m z);
        ordered = (
          released_of_blocked (λ n. elem n done) m es (omega (arith, f.count m, idle)),
          p.ordered,
        );
        spent = λ n h. omega (arith, zero_out n h, relax-le (λ _. false) (targets m es) d q n);
      }

  -- With enough fuel the loop ends with an empty queue, and has counted what it visited.
  pub run :
      (fuel : ℕ) (done q : List String) (d : String → ℕ)
      → length ns < fuel + length done
      → Progress ns es done q d
      → (done' : List String) × (d' : String → ℕ) × Progress ns es done' [] d'
        × (kahn fuel es q d (length done) ≡ length done')
  unfolding kahn
  run zero done q d enough p =
      absurd (omega (arith, length-le_of_Within done ns p.distinct p.within))
  run (suc fuel) done [] d enough p = (done, d, p, refl)
  run (suc fuel) done (m ∷ q) d enough p =
      let (done', d', p', e) = run fuel (m ∷ done) _ _ (omega arith) (visit done m q d p) in
      (done', d', p', rw add-one e)
