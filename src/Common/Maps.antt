-- ===== src/Common/Maps.antt =====
-- Maps from texts as functions, association lists, and the choice of a text.
use Prim.Native.String.{String}
use mathlib.Core.Option.{Option, none, some}
use mathlib.Core.List.{List, [], ◌∷◌}
use text.Mathlib.Text.{◌==◌}
use daisy_workflow.Common.Tests.{if◌then◌else◌}

module _ {ℓ} {V : Type ℓ} where
  -- `map.set(k, v)` and `object[k] = v`, on a map as a function.
  abbrev pub update : (String → V) → String → V → String → V
  update f k v j = if k == j then v else f j

  unfoldable pub lookup : String → List (String × V) → Option V
  lookup key ((at, there) ∷ later) = if at == key then some there else lookup key later
  lookup key [] = none

-- `a || b` on texts, where the empty text is a text that is not there.
abbrev pub or_text : String → String → String
or_text a b = if a == "" then b else a
