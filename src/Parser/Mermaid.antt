-- ===== src/Parser/Mermaid.antt =====
-- The parser of Mermaid diagrams (finitomata/src/parser/mermaid.rs).
use finitomata_rs.Base.{
  ℕ, Bool, ◌&&◌, ◌||◌, not, Option, none, some, is_empty, Result, ok, err, if◌then◌else◌,
}
use finitomata_rs.Base.Ord.{same, nat_ord, list_ord}
use finitomata_rs.Base.Text.{Text, text}
use finitomata_rs.Parser.{
  ParsedFsm, ParseError, ParsedLine, transition, initial_transition, final_transition, Draft, blank,
  star, add_line, finish, cannot_parse, each_line,
}
use finitomata_rs.Strings.{trim, starts_with, split_once, lines}

-- The bare arrow of a flowchart line.
unfoldable pub flowchart_bare : Text → Text → Option ParsedLine
flowchart_bare from to =
    if is_empty to
    then none
    else (if same from star
        then some (initial_transition to)
        else (if same to star then some (final_transition from) else none))

-- `|event| to`, with the pipes found.
unfoldable pub flowchart_labelled : Text → Text → Text → Option ParsedLine
flowchart_labelled from event to =
    if is_empty event || is_empty to then none else some (transition from to event)

-- The part of a flowchart line after its arrow. Without a second pipe it is a bare arrow.
unfoldable pub flowchart_rest : Text → Text → Option ParsedLine
unfolding split_once trim flowchart_bare flowchart_labelled
flowchart_rest from rest = elim (split_once rest (text "|")) [
  | none ↦ flowchart_bare from rest
  | some (_, after_first_pipe) ↦ elim (split_once after_first_pipe (text "|")) [
    | none ↦ flowchart_bare from rest
    | some (event, to) ↦ flowchart_labelled from (trim event) (trim to)
  ]
]

unfoldable pub parse_flowchart_line : Text → Option ParsedLine
unfolding split_once trim flowchart_rest
parse_flowchart_line line = elim (split_once line (text "-->")) [
  | none ↦ none
  | some (from, rest) ↦ flowchart_rest (trim from) (trim rest)
]

unfoldable pub diagram_bare : Text → Text → Option ParsedLine
diagram_bare from to =
    if same from star && not (is_empty to)
    then some (initial_transition to)
    else (if same to star && not (is_empty from) then some (final_transition from) else none)

-- The part of a line of a state diagram after its arrow.
unfoldable pub diagram_rest : Text → Text → Option ParsedLine
unfolding split_once trim diagram_bare
diagram_rest from rest = elim (split_once rest (text ":")) [
  | none ↦ diagram_bare from rest
  | some (to, event) ↦
      if is_empty (trim to) || is_empty (trim event)
      then none
      else some (transition from (trim to) (trim event))
]

unfoldable pub parse_state_diagram_line : Text → Option ParsedLine
unfolding split_once trim diagram_rest
parse_state_diagram_line line = elim (split_once line (text "-->")) [
  | none ↦ none
  | some (from, rest) ↦ diagram_rest (trim from) (trim rest)
]

-- `if let … else if let …`
unfoldable pub parse_line : Text → Option ParsedLine
unfolding parse_flowchart_line parse_state_diagram_line
parse_line line = elim (parse_flowchart_line line) [
  | some parsed ↦ some parsed
  | none ↦ parse_state_diagram_line line
]

-- The lines that `continue` leaves out.
unfoldable pub skips : Text → Bool
unfolding starts_with
skips line =
    is_empty line
    || starts_with line (text "%%")
    || starts_with line (text "graph")
    || starts_with line (text "stateDiagram")
    || starts_with line (text "---")

unfoldable pub accept : ℕ → Draft → Text → Option ParsedLine → Result Draft ParseError
unfolding add_line cannot_parse
accept line_num d line (some parsed) = ok (add_line d parsed)
accept line_num d line none = err (cannot_parse line_num line)

-- The body of the loop.
unfoldable pub read : ℕ → Draft → Text → Result Draft ParseError
unfolding trim skips parse_line accept
read line_num d raw =
    let line = trim raw in if skips line then ok d else accept line_num d line (parse_line line)

unfoldable pub parse : Text → Result ParsedFsm ParseError
unfolding finish each_line read lines
parse input = finish (each_line read 0 blank (lines input))
