-- ===== src/Dsl/Parser/Entries.antt =====
-- The two forms of `inputs:` and `outputs:`, and what the array form is turned into.
use mathlib.Core.List.{append-nil, append_assoc}
use daisy_workflow.Common.{
  ℕ, String, ◌≡◌, refl, sym, ap, ◌∙◌, subst, inl, inr, true, false, ◌||◌, Option, none, some, List,
  [], ◌∷◌, ◌++◌, ◌==◌, map, arith, eq_iff, Bool-cases, Distinct, elem, lookup, is_some, or_else,
  keep, not, ok, >>=-eq-ok, All,
}
use daisy_workflow.Js.{inherited}
use daisy_workflow.Dsl.Parser.{
  Entry, fields, other, array, key_index, is_before, place, add_fields, add_entries, normalize,
}

abbrev pub keys {ℓ} : {V : Type ℓ} → List (String × V) → List String
keys m = map (λ b. b.0) m

-- The key-value pairs of the array form, in the order in which they are written.
unfoldable pub joined : {V : Type 0} → List (Entry V) → List (String × V)
joined [] = []
joined (other ∷ rest) = joined rest
joined (fields fs ∷ rest) = fs ++ joined rest

-- The pairs whose key is no array index.
abbrev pub worded : {V : Type 0} → List (String × V) → List (String × V)
worded m = keep (λ e. not (is_some (key_index e.0))) m

-- No later key comes before an earlier one.
abbrev pub IsOrdered : {V : Type 0} → List (String × V) → Type 0
IsOrdered [] = Unit
IsOrdered (e ∷ m) = All (λ f. is_before (key_index f.0) (key_index e.0) ≡ false) m × IsOrdered m

-- The keys are distinct, no object inherits one of them, and they stand in an object's order.
pub record IsKeyed {V : Type 0} (out : List (String × V)) : Type 0 where
  pub distinct : Distinct (keys out)
  pub own : All (λ k. elem k inherited ≡ false) (keys out)
  pub ordered : IsOrdered out

lookup-append :
    {V : Type 0} (x : String) (m n : List (String × V))
    → lookup x (m ++ n) ≡ or_else (lookup x m) (lookup x n)
unfolding lookup
lookup-append x [] n = refl
lookup-append x ((k, v) ∷ m) n = ground (arith, lookup-append x m n)

elem-keys :
    {V : Type 0} (k : String) (m : List (String × V)) → elem k (keys m) ≡ is_some (lookup k m)
unfolding elem lookup
elem-keys k [] = refl
elem-keys k ((j, v) ∷ m) = ground (arith, elem-keys k m)

worded-append : {V : Type 0} (m n : List (String × V)) → worded (m ++ n) ≡ worded m ++ worded n
worded-append [] n = refl
worded-append ((k, v) ∷ m) n = ground (arith, worded-append m n)

before_index : (i j : Option ℕ) → is_before i j ≡ true → is_some i ≡ true
before_index none j h = cc
before_index (some i) j h = refl

after_last :
    (f j k : Option ℕ) → is_before k j ≡ true → is_before f j ≡ false → is_before f k ≡ false
after_last none j k h e = refl
after_last (some f) none k h e = cc
after_last (some f) (some j) none h e = cc
after_last (some f) (some j) (some k) h e = ground arith

before_asym : (j k : Option ℕ) → is_before k j ≡ true → is_before j k ≡ false
before_asym none k h = refl
before_asym (some j) none h = cc
before_asym (some j) (some k) h = ground arith

All-implied :
    {A : Type 0} (P Q : A → Type 0) (xs : List A) → ((x : A) → P x → Q x) → All P xs → All Q xs
All-implied P Q [] f a = tt
All-implied P Q (x ∷ xs) f (p, a) = (f x p, All-implied P Q xs f a)

worded-index :
    {V : Type 0} (k : String) (v : V) (m : List (String × V))
    → is_some (key_index k) ≡ true
    → worded ((k, v) ∷ m) ≡ worded m
worded-index k v m h = ground (arith)

module _ {V : Type 0} (k : String) (v : V) where
  lookup-place :
      (x : String) (m : List (String × V))
      → is_some (lookup k m) ≡ false
      → lookup x (place k v m) ≡ or_else (lookup x m) (lookup x ((k, v) ∷ []))
  unfolding lookup place
  lookup-place x [] new = refl
  lookup-place x ((j, w) ∷ m) new = elim (Bool-cases (is_before (key_index k) (key_index j))) [
    | inl first ↦ rw first (ground (arith, eq_iff k x))
    | inr later ↦ rw later (ground (arith, eq_iff j k, lookup-place x m))
  ]

  elem-place :
      (x : String) (m : List (String × V))
      → elem x (keys (place k v m)) ≡ (k == x || elem x (keys m))
  unfolding elem place
  elem-place x [] = refl
  elem-place x ((j, w) ∷ m) = elim (Bool-cases (is_before (key_index k) (key_index j))) [
    | inl first ↦ rw first refl
    | inr later ↦ rw later (ground (arith, elem-place x m))
  ]

  worded-place : (m : List (String × V)) → worded (place k v m) ≡ worded m ++ worded ((k, v) ∷ [])
  unfolding place
  worded-place [] = refl
  worded-place ((j, w) ∷ m) = elim (Bool-cases (is_before (key_index k) (key_index j))) [
    | inl first ↦
        let i = before_index (key_index k) (key_index j) first in
        rw first (
          worded-index k v ((j, w) ∷ m) i
          ∙ sym (append-nil (worded ((j, w) ∷ m)))
          ∙ ap (λ l. worded ((j, w) ∷ m) ++ l) (sym (worded-index k v [] i)))
    | inr later ↦ rw later (ground (arith, worded-place m))
  ]

  Distinct-place :
      (m : List (String × V))
      → elem k (keys m) ≡ false
      → Distinct (keys m)
      → Distinct (keys (place k v m))
  unfolding elem place
  Distinct-place [] new d = (refl, tt)
  Distinct-place ((j, w) ∷ m) new (fresh, d) =
      elim (Bool-cases (is_before (key_index k) (key_index j))) [
        | inl first ↦ rw first (new, (fresh, d))
        | inr later ↦ rw later (
          ground (arith, elem-place j m, eq_iff k j, eq_iff j k),
          Distinct-place m (ground arith) d,
        )
      ]

  All-place :
      (P : String → Type 0) (m : List (String × V))
      → P k
      → All P (keys m)
      → All P (keys (place k v m))
  unfolding place
  All-place P [] p a = (p, tt)
  All-place P ((j, w) ∷ m) p (q, a) = elim (Bool-cases (is_before (key_index k) (key_index j))) [
    | inl first ↦ rw first (p, (q, a))
    | inr later ↦ rw later (q, All-place P m p a)
  ]

  All-place_pairs :
      (P : String × V → Type 0) (m : List (String × V)) → P (k, v) → All P m → All P (place k v m)
  unfolding place
  All-place_pairs P [] p a = (p, tt)
  All-place_pairs P ((j, w) ∷ m) p (q, a) =
      elim (Bool-cases (is_before (key_index k) (key_index j))) [
        | inl first ↦ rw first (p, (q, a))
        | inr later ↦ rw later (q, All-place_pairs P m p a)
      ]

  IsOrdered-place : (m : List (String × V)) → IsOrdered m → IsOrdered (place k v m)
  unfolding place
  IsOrdered-place [] o = (tt, tt)
  IsOrdered-place ((j, w) ∷ m) (a, o) = elim (Bool-cases (is_before (key_index k) (key_index j))) [
    | inl first ↦ rw first (
      (
        before_asym (key_index j) (key_index k) first,
        All-implied (λ f. is_before (key_index f.0) (key_index j) ≡ false)
            (λ f. is_before (key_index f.0) (key_index k) ≡ false) m
            (λ f h. after_last (key_index f.0) (key_index j) (key_index k) first h) a,
      ),
      (a, o),
    )
    | inr later ↦ rw later (
      All-place_pairs (λ f. is_before (key_index f.0) (key_index j) ≡ false) m later a,
      IsOrdered-place m o,
    )
  ]

  IsKeyed-place :
      (out : List (String × V))
      → (is_some (lookup k out) || elem k inherited) ≡ false
      → IsKeyed out
      → IsKeyed (place k v out)
  IsKeyed-place out h keyed = record {
    distinct = Distinct-place out (ground (arith, elem-keys k out)) keyed.distinct;
    own = All-place (λ j. elem j inherited ≡ false) out (ground arith) keyed.own;
    ordered = IsOrdered-place out keyed.ordered;
  }

-- What the pairs `fs` after `out` leave: their values, and the order of the worded keys.
record Adds {V : Type 0} (out fs out' : List (String × V)) : Type 0 where
  keyed : IsKeyed out'
  lookups : (x : String) → lookup x out' ≡ or_else (lookup x out) (lookup x fs)
  order : worded out' ≡ worded out ++ worded fs

or_else_assoc : {A : Type 0} (a b c : Option A) → or_else (or_else a b) c ≡ or_else a (or_else b c)
or_else_assoc none b c = refl
or_else_assoc (some x) b c = refl

Adds-nil : {V : Type 0} (out : List (String × V)) → IsKeyed out → Adds out [] out
unfolding lookup
Adds-nil out keyed = record {
  keyed = keyed;
  lookups = λ x. nothing_more (lookup x out);
  order = sym (append-nil (worded out));
}
  where
    nothing_more : {A : Type 0} (o : Option A) → o ≡ or_else o none
    nothing_more none = refl
    nothing_more (some x) = refl

Adds-append :
    {V : Type 0} (out fs mid gs out' : List (String × V))
    → Adds out fs mid
    → Adds mid gs out'
    → Adds out (fs ++ gs) out'
Adds-append out fs mid gs out' a b = record {
  keyed = b.keyed;
  lookups = λ x.
      b.lookups x
      ∙ ap (λ o. or_else o (lookup x gs)) (a.lookups x)
      ∙ or_else_assoc (lookup x out) (lookup x fs) (lookup x gs)
      ∙ sym (ap (or_else (lookup x out)) (lookup-append x fs gs));
  order =
      b.order
      ∙ ap (λ l. l ++ worded gs) a.order
      ∙ append_assoc (worded out) (worded fs) (worded gs)
      ∙ sym (ap (λ l. worded out ++ l) (worded-append fs gs));
}

Adds-place :
    {V : Type 0} (k : String) (v : V) (out : List (String × V))
    → (is_some (lookup k out) || elem k inherited) ≡ false
    → IsKeyed out
    → Adds out ((k, v) ∷ []) (place k v out)
Adds-place k v out h keyed = record {
  keyed = IsKeyed-place k v out h keyed;
  lookups = λ x. lookup-place k v x out (ground arith);
  order = worded-place k v out;
}

module _ {V : Type 0} (node : String) where
  add_fields-Adds :
      (fs out : List (String × V)) {out' : List (String × V)}
      → IsKeyed out
      → add_fields node out fs ≡ ok out'
      → Adds out fs out'
  unfolding add_fields
  add_fields-Adds [] out keyed h = subst (Adds out []) (cc) (Adds-nil out keyed)
  add_fields-Adds ((k, v) ∷ fs) out keyed h =
      elim (Bool-cases (is_some (lookup k out) || elem k inherited)) [
        | inl taken ↦ absurd (cc (rw taken at h))
        | inr new ↦
            let first = Adds-place k v out new keyed in
            Adds-append out ((k, v) ∷ []) (place k v out) fs _ first
              (add_fields-Adds fs (place k v out) first.keyed (rw new at h))
      ]

  add_entries-Adds :
      (entries : List (Entry V)) (out : List (String × V)) {out' : List (String × V)}
      → IsKeyed out
      → add_entries node out entries ≡ ok out'
      → Adds out (joined entries) out'
  unfolding add_entries joined
  add_entries-Adds [] out keyed h = subst (Adds out []) (cc) (Adds-nil out keyed)
  add_entries-Adds (other ∷ rest) out keyed h = cc
  add_entries-Adds (fields fs ∷ rest) out keyed h =
      let (mid, a, b) = >>=-eq-ok (add_fields node out fs) _ h in
      let first = add_fields-Adds fs out keyed a in
      Adds-append out fs mid (joined rest) _ first (add_entries-Adds rest mid first.keyed b)

  -- The array form that is accepted gives an object with the values of its entries under their keys,
  -- and no others. The keys are distinct, none is the name of an inherited property, those that are
  -- array indices come first, by size, and the others follow in the order in which they are written.
  pub normalize-IsKeyed :
      (entries : List (Entry V)) (out : List (String × V))
      → normalize node (array entries) ≡ ok out
      → IsKeyed out
        × ((x : String) → lookup x out ≡ lookup x (joined entries))
        × (worded out ≡ worded (joined entries))
  unfolding normalize lookup
  normalize-IsKeyed entries out h =
      let a = add_entries-Adds entries [] (record { distinct = tt; own = tt; ordered = tt }) h in
      (a.keyed, a.lookups, a.order)
