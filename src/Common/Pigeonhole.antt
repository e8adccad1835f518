-- ===== src/Common/Pigeonhole.antt =====
-- Lists of texts without repetition, and how many texts such a list can hold.
use Prim.Native.Nat.{suc, ◌≤◌}
use Prim.Native.String.{String}
use mathlib.Core.Path.{◌≡◌, refl}
use mathlib.Core.Logic.{◌≢◌, inl, inr}
use mathlib.Core.Bool.{Bool, ◌&&◌, true, false}
use mathlib.Core.List.{List, [], ◌∷◌, ◌++◌}
use native.Mathlib.Omega.{arith}
use text.Mathlib.Text.{◌==◌}
use text.Mathlib.TextEquality.{eq_iff}
use daisy_workflow.Common.Tests.{if◌then◌else◌, Bool-cases}
use daisy_workflow.Common.Lists.{keep, length, elem, elem-append}

abbrev pub Distinct : List String → Type 0
Distinct [] = Unit
Distinct (x ∷ xs) = (elem x xs ≡ false) × Distinct xs

pub Distinct-snoc :
    (xs : List String) (x : String) → Distinct xs → elem x xs ≡ false → Distinct (xs ++ x ∷ [])
unfolding elem
Distinct-snoc [] x d h = (refl, tt)
Distinct-snoc (y ∷ ys) x (fresh, d) h = (
  ground (arith, elem-append y ys (x ∷ []), eq_iff x y, eq_iff y x),
  Distinct-snoc ys x d (ground arith),
)

-- `xs` without the first occurrence of `x`.
without : String → List String → List String
without x [] = []
without x (y ∷ ys) = if y == x then ys else y ∷ without x ys

length-without :
    (x : String) (ys : List String) → elem x ys ≡ true → suc (length (without x ys)) ≡ length ys
unfolding elem without
length-without x [] h = cc
length-without x (y ∷ ys) h = ground (arith, length-without x ys)

elem-without :
    (x z : String) (ys : List String) → elem z ys ≡ true → z ≢ x → elem z (without x ys) ≡ true
unfolding elem without
elem-without x z [] h n = cc
elem-without x z (y ∷ ys) h n = ground (arith, elem-without x z ys, eq_iff y x, eq_iff y z)

abbrev pub Within : List String → List String → Type 0
Within xs ys = (z : String) → elem z xs ≡ true → elem z ys ≡ true

-- A list without repetition is no longer than a list that holds its texts.
pub length-le_of_Within : (xs ys : List String) → Distinct xs → Within xs ys → length xs ≤ length ys
unfolding elem
length-le_of_Within [] ys d w = omega arith
length-le_of_Within (x ∷ xs) ys (fresh, d) w =
    let here = w x (ground (arith, eq_iff x x)) in
    let rest =
      length-le_of_Within xs (without x ys) d
        (λ z e. elem-without x z ys (w z (ground arith)) (λ q. cc (eq_in z e q))) in
    omega (arith, length-without x ys here)
  where
    eq_in : (z : String) → elem z xs ≡ true → z ≡ x → elem x xs ≡ true
    eq_in z e q = rw (← q) e

-- If it is also as long, it holds all of them.
pub Within-of_length :
    (xs ys : List String) → Distinct xs → Within xs ys → length ys ≤ length xs → Within ys xs
unfolding elem
Within-of_length xs ys d w le z e = elim (Bool-cases (elem z xs)) [
  | inl yes_it ↦ yes_it
  | inr fresh ↦
      let more = length-le_of_Within (z ∷ xs) ys (fresh, d) (λ u h. extend u h) in
      absurd (omega arith)
]
  where
    extend : (u : String) → elem u (z ∷ xs) ≡ true → elem u ys ≡ true
    extend u h = ground (arith, w u, e, eq_iff z u)

-- `keep` on texts.
pub elem-keep :
    (p : String → Bool) (x : String) (xs : List String) → elem x (keep p xs) ≡ (elem x xs && p x)
unfolding elem
elem-keep p x [] = refl
elem-keep p x (y ∷ ys) = ground (arith, elem-keep p x ys, eq_iff y x)

pub Distinct-keep : (p : String → Bool) (xs : List String) → Distinct xs → Distinct (keep p xs)
Distinct-keep p [] d = tt
Distinct-keep p (x ∷ xs) (fresh, d) = ground (arith, Distinct-keep p xs d, elem-keep p x xs)
