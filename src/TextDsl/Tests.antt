-- ===== src/TextDsl/Tests.antt =====
-- A workflow with two steps, as a model and as a text.
use daisy_workflow.Common.{◌≡◌, ◌≢◌, refl, none, some, [], ◌∷◌, ok, err}
use daisy_workflow.Js.{codes}
use daisy_workflow.TextDsl.Lexer.{
  tokenize, lex, next, next_long, next_punct, punct_of, read_word, skip_comment, is_keyword,
  read_double, unterminated, out_of_fuel, unexpected_character,
}
use daisy_workflow.TextDsl.Parser.{
  Node, Model, parse, stopped, lexing, program, steps, step, edges, args, args_loop, set_entry,
  set_own, additions_wrapper_opt, additions_loop, outputs_opt,
}
use daisy_workflow.TextDsl.Parser.Ends.{parse-ends}
use daisy_workflow.TextDsl.Serializer.{
  quote, includes, escaped, replace_all, serialize, serialize_step, addition, render_args,
  inline_args, inline_entry, multiline_args,
}
use daisy_workflow.TextDsl.Quoting.{is_quotable, tokenize-quote}
use daisy_workflow.TextDsl.Canonical.{
  is_name, is_key, is_fields, is_addition_text, is_node, is_edge, is_expressible,
}
use daisy_workflow.TextDsl.RoundTrip.{parse-serialize}
use daisy_workflow.TextDsl.Shapes.{IsModel}
use daisy_workflow.TextDsl.Shaped.{parse-IsModel}

abbrev fetch_step : Node
fetch_step = record {
  name = codes "fetch";
  action = codes "http.request";
  inputs = (codes "url", codes "${\"u\"}") ∷ [];
  outputs = [];
  batch_over = some (codes "rows");
  execute_if = none;
}

abbrev save : Node
save = record {
  name = codes "save-it";
  action = codes "file.write";
  inputs = (codes "path", codes "a\\b") ∷ (codes "mode", codes "\n") ∷ (codes "n", []) ∷ [];
  outputs = (codes "size", codes "s") ∷ [];
  batch_over = none;
  execute_if = some (codes "x > 1");
}

abbrev sample : Model
sample = record {
  name = codes "Nightly";
  nodes = fetch_step ∷ save ∷ [];
  edges = record { from = codes "fetch"; to = codes "save-it" } ∷ [];
}

sample_text :
    serialize sample
    ≡ codes
        "\"Nightly\"\n\nstep fetch (iterate \"rows\") = http.request(url: `${\"u\"}`)\nstep save-it (executeif \"x > 1\") = file.write(\n  path: \"a\\\\b\",\n  mode: \"\\n\",\n  n: \"\",\n) : (size: \"s\")\n\nfetch --> save-it\n"
unfolding serialize serialize_step addition render_args inline_args multiline_args inline_entry
    quote includes escaped replace_all
sample_text = refl

-- A comment, and an arrow with no space before it, whose hyphens go to the identifier.
glued_arrow : tokenize (codes "# a\n a-->b") ≡ err (unexpected_character b'>')
unfolding tokenize lex next next_long next_punct punct_of read_word skip_comment is_keyword
glued_arrow = refl

parse-serialize_example : parse (serialize sample) ≡ ok sample
unfolding is_expressible is_quotable includes is_node is_edge is_name is_key is_keyword is_fields
    is_addition_text
parse-serialize_example = parse-serialize sample refl

parse-ends_example :
    (parse (codes "\"w\" step") ≢ err stopped)
    × (parse (codes "\"w\" step") ≢ err (lexing out_of_fuel))
parse-ends_example = parse-ends (codes "\"w\" step")

tokenize-quote_example : tokenize (quote (codes "say \"hi\"\\")) ≡ err unterminated
unfolding is_quotable includes
tokenize-quote_example = tokenize-quote (codes "say \"hi\"\\")

-- The second value of a key stands in the place of the first.
abbrev repeated : Model
repeated = record {
  name = codes "w";
  nodes =
      record {
        name = codes "a";
        action = codes "log";
        inputs = (codes "x", codes "2") ∷ [];
        outputs = [];
        batch_over = none;
        execute_if = none;
      }
      ∷ [];
  edges = record { from = codes "a"; to = codes "a" } ∷ [];
}

parse-repeated :
    parse (codes "\"w\" step a = log(x: \"1\", x: \"2\", __proto__: \"3\") a --> a") ≡ ok repeated
unfolding parse tokenize lex next next_long next_punct punct_of read_word read_double skip_comment
    is_keyword program steps step edges args args_loop set_entry set_own additions_wrapper_opt
    additions_loop outputs_opt
parse-repeated = refl

parse-IsModel_example : IsModel repeated
parse-IsModel_example =
    parse-IsModel (codes "\"w\" step a = log(x: \"1\", x: \"2\", __proto__: \"3\") a --> a")
      repeated parse-repeated
