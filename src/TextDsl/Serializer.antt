-- ===== src/TextDsl/Serializer.antt =====
-- The workflow's model as a text (frontend/src/dsl/serializer.js).
use daisy_workflow.Common.{
  ℕ, Bool, false, not, ◌&&◌, ◌||◌, Option, some, List, [], ◌∷◌, ◌++◌, map, eqb, leb, if◌then◌else◌,
  length,
}
use daisy_workflow.Js.{codes}
use daisy_workflow.TextDsl.Lexer.{Chars, step_word, iterate_word, executeif_word}
use daisy_workflow.TextDsl.Parser.{TextFields, Node, Edge, Model}

-- `text.includes(c)`
unfoldable pub includes : ℕ → Chars → Bool
includes c [] = false
includes c (d ∷ ds) = eqb d c || includes c ds

-- `text.replace(/c/g, to)`
unfoldable pub replace_all : ℕ → Chars → Chars → Chars
replace_all c to [] = []
replace_all c to (d ∷ ds) = (if eqb d c then to else d ∷ []) ++ replace_all c to ds

unfoldable pub escaped : Chars → Chars
unfolding replace_all
escaped text =
    let backslashes = replace_all b'\\' (b'\\' ∷ b'\\' ∷ []) text in
    let quotes = replace_all b'"' (b'\\' ∷ b'"' ∷ []) backslashes in
    replace_all b'\n' (b'\\' ∷ b'n' ∷ []) quotes

unfoldable pub quote : Chars → Chars
unfolding includes escaped
quote text =
    if includes b'"' text && not (includes b'`' text)
    then b'`' ∷ text ++ b'`' ∷ []
    else b'"' ∷ escaped text ++ b'"' ∷ []

-- `texts.join(separator)`
abbrev pub join {ℓ} : {A : Type ℓ} → List A → List (List A) → List A
join separator [] = []
join separator (t ∷ []) = t
join separator (t ∷ u ∷ ts) = t ++ (separator ++ join separator (u ∷ ts))

unfoldable pub inline_entry : Chars × Chars → Chars
unfolding quote
inline_entry (k, v) = k ++ b':' ∷ b' ' ∷ quote v

abbrev pub entry_line : Chars × Chars → Chars
entry_line e = b' ' ∷ b' ' ∷ inline_entry e ++ b',' ∷ []

unfoldable pub inline_args : TextFields → Chars
unfolding inline_entry
inline_args entries = b'(' ∷ join (b',' ∷ b' ' ∷ []) (map inline_entry entries) ++ b')' ∷ []

unfoldable pub multiline_args : TextFields → Chars
unfolding inline_entry
multiline_args entries =
    b'(' ∷ b'\n' ∷ join (b'\n' ∷ []) (map entry_line entries) ++ b'\n' ∷ b')' ∷ []

unfoldable pub render_args : TextFields → Chars
unfolding inline_args multiline_args
render_args [] = b'(' ∷ b')' ∷ []
render_args (e ∷ es) =
    if leb (length (e ∷ es)) 2 && leb (length (inline_args (e ∷ es))) 80
    then inline_args (e ∷ es)
    else multiline_args (e ∷ es)

-- An addition, where its text is there and not empty.
unfoldable pub addition : Chars → Option Chars → List Chars
unfolding quote
addition word (some (c ∷ cs)) = (word ++ b' ' ∷ quote (c ∷ cs)) ∷ []
addition word _ = []

abbrev pub wrapper : List Chars → List Chars
wrapper [] = []
wrapper (a ∷ more) = (b'(' ∷ join (b',' ∷ b' ' ∷ []) (a ∷ more) ++ b')' ∷ []) ∷ []

abbrev pub outputs_block : TextFields → Chars
outputs_block [] = []
outputs_block (e ∷ es) = b' ' ∷ b':' ∷ b' ' ∷ render_args (e ∷ es)

unfoldable pub serialize_step : Node → Chars
unfolding addition render_args
serialize_step node =
    let additions =
      wrapper (addition iterate_word node.batch_over ++ addition executeif_word node.execute_if) in
    let parts = (step_word ++ b' ' ∷ node.name) ∷ (additions ++ (b'=' ∷ []) ∷ node.action ∷ []) in
    join (b' ' ∷ []) parts ++ render_args node.inputs ++ outputs_block node.outputs

-- The line of an edge, where both of its ends are there.
abbrev pub edge_line : Chars → Chars → List Chars
edge_line (a ∷ more) (b ∷ bs) = ((a ∷ more) ++ (codes " --> " ++ (b ∷ bs))) ∷ []
edge_line [] to = []
edge_line (a ∷ more) [] = []

abbrev pub edge_lines : List Edge → List Chars
edge_lines [] = []
edge_lines (e ∷ es) = edge_line e.from e.to ++ edge_lines es

-- The empty line before a block that is not empty.
abbrev pub gap {ℓ} : {A : Type ℓ} → List A → List Chars
gap [] = []
gap (x ∷ xs) = [] ∷ []

unfoldable pub serialize : Model → Chars
unfolding quote serialize_step
serialize model =
    let lines =
      quote model.name
      ∷ (gap model.nodes
          ++ (map serialize_step model.nodes ++ (gap model.edges ++ edge_lines model.edges))) in
    join (b'\n' ∷ []) lines ++ b'\n' ∷ []
