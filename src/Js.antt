-- ===== src/Js.antt =====
-- The JavaScript values that the engine passes round: JSON with `undefined`, and property access.
-- Numbers are the integers with NaN and Infinity; fractions are left out. An object has its own
-- properties only, and a function is no value.
use Prim.Native.Char.{code}
use Prim.Native.String
use daisy_workflow.Common.{
  ℕ, zero, suc, ◌+◌, ◌*◌, ◌-◌, String, Bool, true, false, ◌&&◌, Option, none, some, List, [], ◌∷◌,
  ◌==◌, leb, eqb, if◌then◌else◌, length, get_or_else, elem,
}

-- `neg n` is -(n + 1).
pub data Number : Type 0 where
  nat neg : ℕ → Number
  nan infinity : Number

-- What every object inherits: `k in o`, and `o[k]` where it is not own, find these too.
abbrev pub inherited : List String
inherited =
    "constructor" ∷ "hasOwnProperty" ∷ "isPrototypeOf" ∷ "propertyIsEnumerable" ∷ "toLocaleString"
    ∷ "toString" ∷ "valueOf" ∷ "__proto__" ∷ "__defineGetter__" ∷ "__defineSetter__"
    ∷ "__lookupGetter__" ∷ "__lookupSetter__" ∷ []

unfoldable pub is_inherited : String → Bool
is_inherited name = elem name inherited

mutual
  pub data Fields : Type 0 where
    field : String → Value → Fields → Fields
    end : Fields

  pub data Items : Type 0 where
    cons : Value → Items → Items
    nil : Items

  pub data Value : Type 0 where
    obj : Fields → Value
    arr : Items → Value
    str : String → Value
    num : Number → Value
    bool : Bool → Value
    null undefined : Value

-- `v == null`
abbrev pub is_nullish : Value → Bool
is_nullish undefined = true
is_nullish null = true
is_nullish _ = false

unfoldable pub items : Items → List Value
items nil = []
items (cons v vs) = v ∷ items vs

unfoldable pub own : String → Fields → Option Value
own k end = none
own k (field j v fs) = if j == k then some v else own k fs

unfoldable pub nth : ℕ → Items → Value
nth n nil = undefined
nth zero (cons v vs) = v
nth (suc n) (cons v vs) = nth n vs

abbrev pub codes : String → List ℕ
codes (String.◌∷◌ first rest) = code first ∷ codes rest
codes String.[] = []

abbrev pub is_digit : ℕ → Bool
is_digit c = leb b'0' c && leb c b'9'

unfoldable pub digits_value : ℕ → List ℕ → Option ℕ
digits_value acc [] = some acc
digits_value acc (c ∷ cs) =
    let rest = digits_value (acc * 10 + (c - b'0')) cs in if is_digit c then rest else none

-- An array index in its one spelling: no sign and no leading zero.
unfoldable pub index : List ℕ → Option ℕ
unfolding digits_value
index [] = none
index (c ∷ []) = digits_value 0 (c ∷ [])
index (c ∷ d ∷ cs) = if eqb c b'0' then none else digits_value 0 (c ∷ d ∷ cs)

char_nth : ℕ → String → Value
char_nth n String.[] = undefined
char_nth zero (String.◌∷◌ c s) = str (String.◌∷◌ c String.[])
char_nth (suc n) (String.◌∷◌ c s) = char_nth n s

-- `cur[p]`, for a `cur` that is not null or undefined.
unfoldable pub get_prop : Value → String → Value
unfolding own index nth items char_nth
get_prop (obj fs) p = get_or_else (own p fs) undefined
get_prop (arr xs) p =
    if p == "length"
    then num (nat (length (items xs)))
    else elim (index (codes p)) [ none ↦ undefined | some i ↦ nth i xs ]
get_prop (str s) p =
    if p == "length"
    then num (nat (length (codes s)))
    else elim (index (codes p)) [ none ↦ undefined | some i ↦ char_nth i s ]
get_prop _ p = undefined

split_from : String → String → List String
split_from cur String.[] = cur ∷ []
split_from cur (String.◌∷◌ c s) =
    let closed = cur ∷ split_from "" s in
    let longer = split_from (String.◌++◌ cur (String.◌∷◌ c String.[])) s in
    if eqb (code c) b'.' then closed else longer

-- `path.split(".")`
unfoldable pub split_dots : String → List String
unfolding split_from
split_dots s = split_from "" s

unfoldable pub walk : Value → List String → Value
walk v [] = v
walk v (p ∷ ps) = if is_nullish v then undefined else walk (get_prop v p) ps
