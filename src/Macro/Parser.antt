-- ===== src/Macro/Parser.antt =====
-- The macro's own parsers (finitomata_macro/src/parser.rs). What they make of an edge is what the
-- parsers of finitomata/src/parser make of it, and so are the types of the result: both are those of
-- `Parser`. The errors are texts.
pub mod Closed
pub mod Agree
pub mod Edges
use finitomata_rs.Base.{
  ℕ, suc, Bool, ◌&&◌, ◌||◌, not, Option, none, some, ◌++◌, is_some, is_empty, Result, ok, err,
  if◌then◌else◌,
}
use finitomata_rs.Base.Ord.{same, nat_ord, list_ord}
use finitomata_rs.Base.Text.{Text, text, decimal}
use finitomata_rs.Parser.{
  ParsedFsm, ParsedLine, transition, initial_transition, final_transition, Draft, blank, star,
  add_line, each_line,
}
use finitomata_rs.Strings.{trim, starts_with, split_once, lines}

-- `format!("line {}: cannot parse `{}`", line_num + 1, line)`
unfoldable pub refused : ℕ → Text → Text
unfolding decimal
refused line_num line =
    text "line " ++ (decimal (suc line_num) ++ (text ": cannot parse `" ++ (line ++ text "`")))

-- The bare arrow.
unfoldable pub bare_edge : Text → Text → Option ParsedLine
bare_edge from to =
    if same from star && not (is_empty to)
    then some (initial_transition to)
    else (if same to star then some (final_transition from) else none)

-- `TO : EVENT`, or the bare arrow.
unfoldable pub colon_edge : Text → Text → Option ParsedLine
unfolding split_once trim bare_edge
colon_edge from rest = elim (split_once rest (text ":")) [
  | none ↦ bare_edge from rest
  | some (to, event) ↦ some (transition from (trim to) (trim event))
]

-- `|EVENT| TO`, or one of the others.
unfoldable pub pipe_edge : Text → Text → Option ParsedLine
unfolding split_once trim colon_edge
pipe_edge from rest = elim (split_once rest (text "|")) [
  | none ↦ colon_edge from rest
  | some (_, after_first_pipe) ↦ elim (split_once after_first_pipe (text "|")) [
    | none ↦ colon_edge from rest
    | some (event, to) ↦ some (transition from (trim to) (trim event))
  ]
]

-- The body of `parse_mermaid` up to the branches: the arrow and its two sides.
unfoldable pub mermaid_edge : Text → Option ParsedLine
unfolding split_once trim pipe_edge
mermaid_edge line = elim (split_once line (text "-->")) [
  | none ↦ none
  | some (from, rest) ↦ pipe_edge (trim from) (trim rest)
]

split_edge : Text → Text → Option ParsedLine
unfolding split_once trim colon_edge
split_edge line arrow = elim (split_once line arrow) [
  | none ↦ none
  | some (from, rest) ↦ colon_edge (trim from) (trim rest)
]

-- The same of `parse_plantuml`, which has two arrows.
unfoldable pub plantuml_edge : Text → Option ParsedLine
unfolding split_once split_edge
plantuml_edge line =
    if is_some (split_once line (text "-->"))
    then split_edge line (text "-->")
    else (if is_some (split_once line (text "->")) then split_edge line (text "->") else none)

-- The branches, and `return Err(…)`.
unfoldable pub accept : ℕ → Draft → Text → Option ParsedLine → Result Draft Text
unfolding add_line refused
accept line_num d line (some edge) = ok (add_line d edge)
accept line_num d line none = err (refused line_num line)

-- The lines that `continue` leaves out.
unfoldable pub mermaid_skips : Text → Bool
unfolding starts_with
mermaid_skips line =
    is_empty line
    || starts_with line (text "%%")
    || starts_with line (text "graph")
    || starts_with line (text "stateDiagram")
    || starts_with line (text "---")

unfoldable pub plantuml_skips : Text → Bool
unfolding starts_with
plantuml_skips line =
    is_empty line
    || starts_with line (text "'")
    || starts_with line (text "@startuml")
    || starts_with line (text "@enduml")
    || starts_with line (text "hide")
    || starts_with line (text "skin")
    || starts_with line (text "state ")

-- The bodies of the two loops.
unfoldable pub read_mermaid : ℕ → Draft → Text → Result Draft Text
unfolding trim mermaid_skips mermaid_edge accept
read_mermaid line_num d raw =
    let line = trim raw in
    if mermaid_skips line then ok d else accept line_num d line (mermaid_edge line)

unfoldable pub read_plantuml : ℕ → Draft → Text → Result Draft Text
unfolding trim plantuml_skips plantuml_edge accept
read_plantuml line_num d raw =
    let line = trim raw in
    if plantuml_skips line then ok d else accept line_num d line (plantuml_edge line)

-- What follows the loops.
unfoldable pub conclude : Draft → Option Text → Result ParsedFsm Text
conclude d none = err (text "no initial state found (use `[*] --> state`)")
conclude d (some initial) = ok (record {
  initial = initial;
  finals = d.finals;
  transitions = d.transitions;
  states = d.states;
})

unfoldable pub finish : Result Draft Text → Result ParsedFsm Text
unfolding conclude
finish (ok d) = conclude d d.initial
finish (err e) = err e

unfoldable pub parse_mermaid : Text → Result ParsedFsm Text
unfolding finish each_line read_mermaid lines
parse_mermaid input = finish (each_line read_mermaid 0 blank (lines input))

unfoldable pub parse_plantuml : Text → Result ParsedFsm Text
unfolding finish each_line read_plantuml lines
parse_plantuml input = finish (each_line read_plantuml 0 blank (lines input))
