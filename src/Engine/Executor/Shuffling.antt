-- ===== src/Engine/Executor/Shuffling.antt =====
-- What does not depend on the order in which the nodes of a layer end, and the look-up of a node.
use daisy_workflow.Common.{
  ℕ, zero, suc, String, ◌≡◌, refl, ◌∙◌, inl, inr, Bool, true, false, not, ◌||◌, Option, none, some,
  List, [], ◌∷◌, ◌++◌, ◌==◌, eq_iff, arith, Bool-cases, Option-cases, All, any, elem, elem-keep,
}
use daisy_workflow.Dsl.Workflow.{Node}
use daisy_workflow.Engine.Executor.State.{Status, success, Outcome}
use daisy_workflow.Engine.Executor.Nodes.{has_status, is_skipped, skipped_parent}
use daisy_workflow.Engine.Executor.Schedule.{node_names, by_name, take_out, shuffle}
use daisy_workflow.Engine.Executor.Effects.{is_begun, is_finished}

abbrev pub is_ended : Status → Bool
is_ended st = is_begun st || is_finished st

abbrev pub is_successful : Status → Bool
is_successful success = true
is_successful _ = false

module _ {A : Type 0} where
  pub any-append : (p : A → Bool) (xs ys : List A) → any p (xs ++ ys) ≡ (any p xs || any p ys)
  any-append p [] ys = refl
  any-append p (x ∷ xs) ys = ground (arith, any-append p xs ys)

  pub any-take_out :
      (p : A → Bool) (i : ℕ) (x : A) (xs : List A)
      → (p (take_out i x xs).0 || any p (take_out i x xs).1) ≡ (p x || any p xs)
  unfolding take_out
  any-take_out p zero x xs = refl
  any-take_out p (suc i) x [] = refl
  any-take_out p (suc i) x (y ∷ ys) = ground (arith, any-take_out p i y ys)

  pub any-shuffle : (p : A → Bool) (cs : List ℕ) (xs : List A) → any p (shuffle cs xs) ≡ any p xs
  unfolding shuffle
  any-shuffle p [] xs = refl
  any-shuffle p (c ∷ cs) [] = refl
  any-shuffle p (c ∷ cs) (x ∷ xs) =
      ground (arith, any-take_out p c x xs, any-shuffle p cs (take_out c x xs).1)

  pub All-take_out :
      (P : A → Type 0) (i : ℕ) (x : A) (xs : List A)
      → P x
      → All P xs
      → P (take_out i x xs).0 × All P (take_out i x xs).1
  unfolding take_out
  All-take_out P zero x xs p h = (p, h)
  All-take_out P (suc i) x [] p h = (p, tt)
  All-take_out P (suc i) x (y ∷ ys) p (q, h) = let (a, b) = All-take_out P i y ys q h in (a, (p, b))

  pub All-shuffle : (P : A → Type 0) (cs : List ℕ) (xs : List A) → All P xs → All P (shuffle cs xs)
  unfolding shuffle
  All-shuffle P [] xs h = h
  All-shuffle P (c ∷ cs) [] h = tt
  All-shuffle P (c ∷ cs) (x ∷ xs) (p, h) =
      let (a, b) = All-take_out P c x xs p h in (a, All-shuffle P cs (take_out c x xs).1 b)

pub by_name-name :
    (nodes : List Node) (x : String) (n : Node) → by_name nodes x ≡ some n → n.name ≡ x
unfolding by_name
by_name-name [] x n h = cc
by_name-name (m ∷ ns) x n h = elim (Option-cases (by_name ns x)) [
  | inr (k, found) ↦ by_name-name ns x n (found ∙ cc (rw found at h))
  | inl missing ↦ ground (arith, eq_iff m.name x)
]

pub by_name_found :
    (nodes : List Node) (x : String)
    → elem x (node_names nodes) ≡ true
    → (n : Node) × (by_name nodes x ≡ some n) × (n.name ≡ x)
unfolding by_name node_names elem
by_name_found [] x h = cc
by_name_found (n ∷ ns) x h = elim (Option-cases (by_name ns x)) [
  | inr (m, found) ↦ (m, rw found, by_name-name ns x m found)
  | inl missing ↦ elim (Bool-cases (n.name == x)) [
    | inl same ↦ (n, rw (missing, same), (eq_iff n.name x).0 same)
    | inr other ↦
        let listed : elem x (node_names ns) ≡ true =
          ground (arith, elem-keep (λ m. not (m == n.name)) x (node_names ns)) in
        let (m, found, named) = by_name_found ns x listed in absurd (cc)
  ]
]

pub skipped_parent_congr :
    (f g : String → Option Outcome) (ps : List String)
    → All (λ p. f p ≡ g p) ps
    → skipped_parent f ps ≡ skipped_parent g ps
unfolding skipped_parent
skipped_parent_congr f g [] h = refl
skipped_parent_congr f g (p ∷ ps) (e, h) = rw (e, skipped_parent_congr f g ps h)

pub not_skipped :
    (f : String → Option Outcome) (ps : List String)
    → skipped_parent f ps ≡ none
    → All (λ p. has_status is_skipped (f p) ≡ false) ps
unfolding skipped_parent
not_skipped f [] h = tt
not_skipped f (p ∷ ps) h = ground (arith, not_skipped f ps)

pub begun_ended : (o : Option Outcome) → has_status is_begun o ≡ true → has_status is_ended o ≡ true
begun_ended o h = ground arith

pub begun_not_successful :
    (o : Option Outcome) → has_status is_begun o ≡ true → has_status is_successful o ≡ true → ⊥
begun_not_successful o h k = ground arith
