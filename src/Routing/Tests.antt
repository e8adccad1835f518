-- ===== src/Routing/Tests.antt =====
-- A chain whose second agent answers.
use daisy_workflow.Common.{
  ℕ, String, refl, Option, some, [], ◌∷◌, ◌==◌, Result, ok, err, if◌then◌else◌,
}
use daisy_workflow.Js.{Value, str}
use daisy_workflow.Routing.{Thrown, Route, answered, plan_route, dispatch}
use daisy_workflow.Routing.Fallback.{IsExplained, dispatch-IsExplained}

abbrev route : Route
route = record {
  title = "main";
  strategy = "fallback";
  config = record { agent = ""; tiers = []; default = ""; chain = some ("a" ∷ "b" ∷ "c" ∷ []) };
}

abbrev call : ℕ → String → Result (Option Thrown) Value
call i a = if a == "a" then err (some (record { code = "E"; message = "down" })) else ok (str a)

dispatch-IsExplained_example :
    IsExplained call 0 [] ("a" ∷ "b" ∷ "c" ∷ []) (answered (str "b") "b" ("a" ∷ "b" ∷ []))
unfolding dispatch plan_route
dispatch-IsExplained_example = dispatch-IsExplained call route "" ("a" ∷ "b" ∷ "c" ∷ []) refl
