-- ===== src/Parser/PlantUml.antt =====
-- The parser of PlantUML diagrams (finitomata/src/parser/plantuml.rs).
use finitomata_rs.Base.{
  ℕ, Bool, true, false, ◌&&◌, ◌||◌, not, Option, none, some, is_some, is_empty, Result, ok, err,
  if◌then◌else◌,
}
use finitomata_rs.Base.Ord.{same, nat_ord, list_ord}
use finitomata_rs.Base.Text.{Text, text}
use finitomata_rs.BTree.Sets
use finitomata_rs.Parser.{
  ParsedFsm, ParseError, ParsedLine, transition, initial_transition, final_transition, Draft, blank,
  star, add_line, finish, cannot_parse, each_line,
}
use finitomata_rs.Strings.{
  trim, starts_with, strip_prefix, split_once, lines, first_word, trim_matches,
}

-- The arrow has a label.
labelled : Text → Text → Text → Option ParsedLine
labelled from to event =
    if is_empty to
    then none
    else (if same from star
        then some (initial_transition to)
        else (if same to star
            then (if is_empty event
                then some (final_transition from)
                else some (transition from star event))
            else (if is_empty event then none else some (transition from to event))))

unlabelled : Text → Text → Option ParsedLine
unlabelled from to =
    if same from star && not (is_empty to)
    then some (initial_transition to)
    else (if same to star && not (is_empty from) then some (final_transition from) else none)

plantuml_rest : Text → Text → Option ParsedLine
unfolding split_once trim labelled unlabelled
plantuml_rest from rest = elim (split_once rest (text ":")) [
  | none ↦ unlabelled from rest
  | some (to, event) ↦ labelled from (trim to) (trim event)
]

-- The first arrow of one kind, if there is one.
split_arrow : Text → Text → Option ParsedLine
unfolding split_once trim plantuml_rest
split_arrow line arrow = elim (split_once line arrow) [
  | none ↦ none
  | some (from, rest) ↦ plantuml_rest (trim from) (trim rest)
]

unfoldable pub parse_plantuml_transition : Text → Option ParsedLine
unfolding split_once split_arrow
parse_plantuml_transition line =
    if is_some (split_once line (text "-->"))
    then split_arrow line (text "-->")
    else (if is_some (split_once line (text "->")) then split_arrow line (text "->") else none)

-- `strip_prefix("state ").and_then(…).map(…)`; 34 is the code point of the quotation mark.
unfoldable pub declared : Text → Option Text
unfolding strip_prefix first_word trim_matches
declared line = elim (strip_prefix line (text "state ")) [
  | none ↦ none
  | some s ↦ elim (first_word s) [ none ↦ none | some word ↦ some (trim_matches word 34) ]
]

-- `if let Some(name) = name`
unfoldable pub declare : Draft → Option Text → Draft
declare d none = d
declare d (some name) = record d { states = Sets.insert d.states name }

-- The lines that `continue` leaves out.
unfoldable pub skips : Text → Bool
unfolding starts_with
skips line =
    is_empty line
    || starts_with line (text "'")
    || starts_with line (text "@startuml")
    || starts_with line (text "@enduml")
    || starts_with line (text "hide")
    || starts_with line (text "skin")

-- The branches for a line that is not an edge.
unfoldable pub other_line : ℕ → Draft → Text → Bool → Result Draft ParseError
unfolding declared declare cannot_parse
other_line line_num d line true = ok (declare d (declared line))
other_line line_num d line false = err (cannot_parse line_num line)

unfoldable pub accept : ℕ → Draft → Text → Option ParsedLine → Result Draft ParseError
unfolding add_line starts_with other_line
accept line_num d line (some parsed) = ok (add_line d parsed)
accept line_num d line none = other_line line_num d line (starts_with line (text "state "))

-- The body of the loop.
unfoldable pub read : ℕ → Draft → Text → Result Draft ParseError
unfolding trim skips parse_plantuml_transition accept
read line_num d raw =
    let line = trim raw in
    if skips line then ok d else accept line_num d line (parse_plantuml_transition line)

unfoldable pub parse : Text → Result ParsedFsm ParseError
unfolding finish each_line read lines
parse input = finish (each_line read 0 blank (lines input))
