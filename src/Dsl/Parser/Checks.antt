-- ===== src/Dsl/Parser/Checks.antt =====
-- What each check of `parseDag` establishes, and the workflows that are well formed.
use daisy_workflow.Common.{
  ℕ, suc, String, ◌≡◌, ◌≢◌, refl, ap, ◌↔◌, inl, inr, true, false, not, Option, some, List, [], ◌∷◌,
  ◌==◌, eq_iff, arith, Bool-cases, Option-cases, All, length, elem, Distinct, ok, >>-eq-ok,
  guard-eq-ok,
}
use daisy_workflow.Dsl.Graph.{Edge}
use daisy_workflow.Dsl.Workflow.{Node}
use daisy_workflow.Dsl.Parser.{
  names, check_unique, check_edges, lacks, check_required, check_inputs,
}
use daisy_workflow.Dsl.Parser.Kahn.{IsClosed}
use daisy_workflow.Dsl.Parser.Acyclic.{IsRanked}

-- No edge leads from a node to itself.
abbrev pub HasNoLoop : List Edge → Type 0
HasNoLoop es = All (λ e. e.from ≢ e.to) es

-- Every input that the plugin of a node requires has a value.
abbrev pub HasInput : Node → List String → Type 0
HasInput n keys = All (λ k. lacks n.inputs k ≡ false) keys

abbrev pub HasRequired : (String → Option (List String)) → Node → Type 0
HasRequired required n = (keys : List String) → required n.action ≡ some keys → HasInput n keys

pub record IsWellFormed (required : String → Option (List String)) (nodes : List Node)
    (edges : List Edge) : Type 0 where
  pub unique : Distinct (names nodes)
  pub closed : IsClosed (names nodes) edges
  pub loops : HasNoLoop edges
  pub inputs : All (HasRequired required) nodes
  pub rank : String → ℕ
  pub ranked : IsRanked rank edges

pub length-names : (nodes : List Node) → length (names nodes) ≡ length nodes
length-names [] = refl
length-names (n ∷ ns) = ap suc (length-names ns)

abbrev pub Avoids : List String → List Node → Type 0
Avoids seen ns = All (λ n. elem n.name seen ≡ false) ns

Avoids-cons :
    (x : String) (seen : List String) (ns : List Node)
    → Avoids (x ∷ seen) ns
    → (elem x (names ns) ≡ false) × Avoids seen ns
unfolding elem
Avoids-cons x seen [] h = (refl, tt)
Avoids-cons x seen (n ∷ ns) (p, h) =
    let (a, b) = Avoids-cons x seen ns h in
    (ground (arith, eq_iff x n.name, eq_iff n.name x), (ground arith, b))

Avoids-snoc :
    (x : String) (seen : List String) (ns : List Node)
    → elem x (names ns) ≡ false
    → Avoids seen ns
    → Avoids (x ∷ seen) ns
unfolding elem
Avoids-snoc x seen [] e h = tt
Avoids-snoc x seen (n ∷ ns) e (p, h) =
    (ground (arith, eq_iff x n.name, eq_iff n.name x), Avoids-snoc x seen ns (ground arith) h)

pub check_unique_sound :
    (seen : List String) (ns : List Node)
    → check_unique seen ns ≡ ok tt
    → Distinct (names ns) × Avoids seen ns
unfolding check_unique
check_unique_sound seen [] h = (tt, tt)
check_unique_sound seen (n ∷ ns) h = elim (Bool-cases (elem n.name seen)) [
  | inl old ↦ absurd (cc (rw (old, check_unique) at h))
  | inr new ↦
      let (d, a) = check_unique_sound (n.name ∷ seen) ns (rw new at h) in
      let (fresh, a') = Avoids-cons n.name seen ns a in ((fresh, d), (new, a'))
]

pub check_unique_complete :
    (seen : List String) (ns : List Node)
    → Distinct (names ns)
    → Avoids seen ns
    → check_unique seen ns ≡ ok tt
unfolding check_unique
check_unique_complete seen [] d a = refl
check_unique_complete seen (n ∷ ns) (fresh, d) (new, a) =
    rw new (check_unique_complete (n.name ∷ seen) ns d (Avoids-snoc n.name seen ns fresh a))

pub check_edges_sound :
    (known : List String) (es : List Edge)
    → check_edges known es ≡ ok tt
    → IsClosed known es × HasNoLoop es
unfolding check_edges
check_edges_sound known [] h = (tt, tt)
check_edges_sound known (e ∷ es) h =
    let (a, h1) = >>-eq-ok _ _ h in
    let (b, h2) = >>-eq-ok _ _ h1 in
    let (c, h3) = >>-eq-ok _ _ h2 in
    let (closed, loops) = check_edges_sound known es h3 in
    (((guard-eq-ok _ _ a, guard-eq-ok _ _ b), closed), ((λ q. differ (guard-eq-ok _ _ c) q), loops))
  where
    differ : not (e.from == e.to) ≡ true → e.from ≢ e.to
    differ k q = ground (arith, eq_iff e.from e.to)

pub check_edges_complete :
    (known : List String) (es : List Edge)
    → IsClosed known es
    → HasNoLoop es
    → check_edges known es ≡ ok tt
unfolding check_edges
check_edges_complete known [] c l = refl
check_edges_complete known (e ∷ es) ((a, b), c) (n, l) =
    ground (arith, check_edges_complete known es c l, eq_iff e.from e.to)

pub check_required_iff :
    (n : Node) (keys : List String) → (check_required n keys ≡ ok tt) ↔ HasInput n keys
unfolding check_required
check_required_iff n [] = (λ h. tt, λ h. refl)
check_required_iff n (k ∷ ks) =
    ground (arith, (check_required_iff n ks).0, (check_required_iff n ks).1)

pub check_inputs_sound :
    (required : String → Option (List String)) (ns : List Node)
    → check_inputs required ns ≡ ok tt
    → All (HasRequired required) ns
unfolding check_inputs
check_inputs_sound required [] h = tt
check_inputs_sound required (n ∷ ns) h = elim (Option-cases (required n.action)) [
  | inl unknown ↦
      ((λ keys e. absurd (cc)), check_inputs_sound required ns (rw (unknown, check_inputs) at h))
  | inr (keys, known) ↦
      let (here, later) = >>-eq-ok _ _ (rw (known, check_inputs) at h) in
      (
        (λ other e. rw (same known e) at ((check_required_iff n keys).0 here)),
        check_inputs_sound required ns later,
      )
]
  where
    same : {a b : List String} → required n.action ≡ some a → required n.action ≡ some b → a ≡ b
    same p q = cc

pub check_inputs_complete :
    (required : String → Option (List String)) (ns : List Node)
    → All (HasRequired required) ns
    → check_inputs required ns ≡ ok tt
unfolding check_inputs
check_inputs_complete required [] h = refl
check_inputs_complete required (n ∷ ns) (here, later) = elim (Option-cases (required n.action)) [
  | inl unknown ↦ rw (unknown, check_inputs) (check_inputs_complete required ns later)
  | inr (keys, known) ↦
      rw (known, check_inputs, (check_required_iff n keys).1 (here keys known))
        (check_inputs_complete required ns later)
]
