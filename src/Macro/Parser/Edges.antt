-- ===== src/Macro/Parser/Edges.antt =====
-- One edge as the macro's Mermaid parser (finitomata_macro/src/parser.rs) and the one of the library
-- (finitomata/src/parser/mermaid.rs) read it.
use finitomata_rs.Base.{
  ◌≡◌, refl, sym, ap, ◌∙◌, false, Option, none, some, is_empty, arith, false_of, none≢some,
}
use finitomata_rs.Base.Ord.{same, same_iff, nat_ord, list_ord}
use finitomata_rs.Base.Text.{Text, text}
use finitomata_rs.Macro.Parser.{bare_edge, colon_edge, pipe_edge, mermaid_edge}
use finitomata_rs.Parser.{ParsedLine, transition, star}
use finitomata_rs.Parser.Mermaid.{
  flowchart_bare, flowchart_labelled, flowchart_rest, diagram_bare, diagram_rest,
  parse_flowchart_line, parse_state_diagram_line, parse_line,
}
use finitomata_rs.Strings.{trim, split_once}

-- The label between two pipes and the state after it.
unfoldable pub piped : Text → Option (Text × Text)
unfolding split_once
piped rest = elim (split_once rest (text "|")) [
  | none ↦ none
  | some (_, after_first_pipe) ↦ split_once after_first_pipe (text "|")
]

pub star-split_once : split_once star (text ":") ≡ none
unfolding split_once
star-split_once = refl

module _ (from rest : Text) where
  -- The parts of an edge in which both parsers find the same, by what the pipes and the colon split off:
  -- a label between pipes is not empty, nor is the state after it; and without one the label of an edge
  -- from `[*]` is not written after a colon.
  abbrev pub IsPlainParts : Option (Text × Text) → Option (Text × Text) → Type 0
  IsPlainParts (some (event, to)) _ = (is_empty (trim event) ≡ false) × (is_empty (trim to) ≡ false)
  IsPlainParts none (some _) = same from star ≡ false
  IsPlainParts none none = Unit

  abbrev pub flowchart_parts : Option (Text × Text) → Option ParsedLine
  flowchart_parts none = flowchart_bare from rest
  flowchart_parts (some (event, to)) = flowchart_labelled from (trim event) (trim to)

  abbrev pub edge_parts : Option (Text × Text) → Option ParsedLine
  edge_parts none = colon_edge from rest
  edge_parts (some (event, to)) = some (transition from (trim to) (trim event))

  pub flowchart_rest_lem : flowchart_rest from rest ≡ flowchart_parts (piped rest)
  unfolding flowchart_rest piped
  flowchart_rest_lem = ground arith

  pub pipe_edge_lem : pipe_edge from rest ≡ edge_parts (piped rest)
  unfolding pipe_edge piped
  pipe_edge_lem = ground arith

  -- The library reads the part as a flowchart, and else as a state diagram.
  abbrev pub either : Option ParsedLine → Option ParsedLine
  either (some parsed) = some parsed
  either none = diagram_rest from rest

  pub bare_edge-either :
      (p : ParsedLine)
      → split_once rest (text ":") ≡ none
      → either (flowchart_bare from rest) ≡ some p
      → colon_edge from rest ≡ some p
  unfolding colon_edge bare_edge flowchart_bare diagram_rest diagram_bare
  bare_edge-either p e h = ground arith

  pub colon_edge-either :
      (p : ParsedLine) (to event : Text)
      → same from star ≡ false
      → split_once rest (text ":") ≡ some (to, event)
      → either (flowchart_bare from rest) ≡ some p
      → colon_edge from rest ≡ some p
  unfolding colon_edge flowchart_bare diagram_rest
  colon_edge-either p to event n e h =
      let other : same rest star ≡ false = false_of λ s. none≢some (
        sym star-split_once
        ∙ ap (λ r. split_once r (text ":")) (sym ((same_iff rest star).0 s))
        ∙ e) in
      ground arith

  pub parts-either :
      (p : ParsedLine) (pipes colon : Option (Text × Text))
      → split_once rest (text ":") ≡ colon
      → IsPlainParts pipes colon
      → either (flowchart_parts pipes) ≡ some p
      → edge_parts pipes ≡ some p
  unfolding flowchart_labelled
  parts-either p none none co plain h = bare_edge-either p co h
  parts-either p none (some (to, event)) co plain h = colon_edge-either p to event plain co h
  parts-either p (some (event, to)) colon co (e, t) h = ground arith

  -- Both find the same in a plain part.
  pub pipe_edge-either :
      (p : ParsedLine)
      → IsPlainParts (piped rest) (split_once rest (text ":"))
      → either (flowchart_rest from rest) ≡ some p
      → pipe_edge from rest ≡ some p
  pipe_edge-either p plain h =
      pipe_edge_lem
      ∙ parts-either p (piped rest) _ refl plain (ap either (sym flowchart_rest_lem) ∙ h)

-- A line in which both parsers find the same: it has no arrow, or its parts are plain.
abbrev pub IsPlainSplit : Option (Text × Text) → Type 0
IsPlainSplit none = Unit
IsPlainSplit (some (from, rest)) =
    IsPlainParts (trim from) (trim rest) (piped (trim rest)) (split_once (trim rest) (text ":"))

abbrev pub IsPlain : Text → Type 0
IsPlain line = IsPlainSplit (split_once line (text "-->"))

abbrev pub library_split : Option (Text × Text) → Option ParsedLine
library_split none = none
library_split (some (from, rest)) =
    either (trim from) (trim rest) (flowchart_rest (trim from) (trim rest))

abbrev pub macro_split : Option (Text × Text) → Option ParsedLine
macro_split none = none
macro_split (some (from, rest)) = pipe_edge (trim from) (trim rest)

pub parse_line_lem : (line : Text) → parse_line line ≡ library_split (split_once line (text "-->"))
unfolding parse_line parse_flowchart_line parse_state_diagram_line
parse_line_lem line = ground arith

pub mermaid_edge_lem :
    (line : Text) → mermaid_edge line ≡ macro_split (split_once line (text "-->"))
unfolding mermaid_edge
mermaid_edge_lem line = ground arith

pub split-agrees :
    (s : Option (Text × Text)) (p : ParsedLine)
    → IsPlainSplit s
    → library_split s ≡ some p
    → macro_split s ≡ some p
split-agrees none p plain h = h
split-agrees (some (from, rest)) p plain h = pipe_edge-either (trim from) (trim rest) p plain h

pub mermaid_edge-parse_line :
    (line : Text) (p : ParsedLine)
    → IsPlain line
    → parse_line line ≡ some p
    → mermaid_edge line ≡ some p
mermaid_edge-parse_line line p plain h =
    mermaid_edge_lem line ∙ split-agrees _ p plain (sym (parse_line_lem line) ∙ h)
