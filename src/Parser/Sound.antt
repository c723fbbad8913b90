-- ===== src/Parser/Sound.antt =====
-- What the two `parse` functions give back (finitomata/src/parser/mermaid.rs, plantuml.rs).
use finitomata_rs.Base.{ℕ, inl, inr, true, false, Option, none, some, Bool, Bool-cases}
use finitomata_rs.Base.Ord.{nat_ord, list_ord}
use finitomata_rs.Base.Text.{Text, text}
use finitomata_rs.Parser.{ParsedLine, Draft, blank}
use finitomata_rs.Parser.Closed.{
  IsClosedDraft, IsClosedFsm, IsClosed-blank, IsClosed-insert, add_line-IsClosed,
  IsClosed-each_line, IsClosed-finish, Good,
}
use finitomata_rs.Parser.Mermaid
use finitomata_rs.Parser.PlantUml
use finitomata_rs.Parser.PlantUml.{declare, declared}
use finitomata_rs.Strings.{trim, starts_with, lines}

accept-Mermaid :
    (n : ℕ) (d : Draft) (line : Text) (answer : Option ParsedLine)
    → IsClosedDraft d
    → Good IsClosedDraft (Mermaid.accept n d line answer)
unfolding Mermaid.accept
accept-Mermaid n d line none h = tt
accept-Mermaid n d line (some parsed) h = add_line-IsClosed d parsed h

read-Mermaid :
    (n : ℕ) (d : Draft) (line : Text) → IsClosedDraft d → Good IsClosedDraft (Mermaid.read n d line)
unfolding Mermaid.read
read-Mermaid n d line h = elim (Bool-cases (Mermaid.skips (trim line))) [
  | inl e ↦ rw e h
  | inr e ↦ rw e (accept-Mermaid n d (trim line) (Mermaid.parse_line (trim line)) h)
]

declare-IsClosed :
    (d : Draft) (name : Option Text) → IsClosedDraft d → IsClosedDraft (declare d name)
unfolding declare
declare-IsClosed d none h = h
declare-IsClosed d (some name) h = IsClosed-insert _ _ _ _ name h

other_line-PlantUml :
    (n : ℕ) (d : Draft) (line : Text) (b : Bool)
    → IsClosedDraft d
    → Good IsClosedDraft (PlantUml.other_line n d line b)
unfolding PlantUml.other_line
other_line-PlantUml n d line true h = declare-IsClosed d (declared line) h
other_line-PlantUml n d line false h = tt

accept-PlantUml :
    (n : ℕ) (d : Draft) (line : Text) (answer : Option ParsedLine)
    → IsClosedDraft d
    → Good IsClosedDraft (PlantUml.accept n d line answer)
unfolding PlantUml.accept
accept-PlantUml n d line none h = other_line-PlantUml n d line (starts_with line (text "state ")) h
accept-PlantUml n d line (some parsed) h = add_line-IsClosed d parsed h

read-PlantUml :
    (n : ℕ) (d : Draft) (line : Text)
    → IsClosedDraft d
    → Good IsClosedDraft (PlantUml.read n d line)
unfolding PlantUml.read
read-PlantUml n d line h = elim (Bool-cases (PlantUml.skips (trim line))) [
  | inl e ↦ rw e h
  | inr e ↦
      rw e (accept-PlantUml n d (trim line) (PlantUml.parse_plantuml_transition (trim line)) h)
]

-- Whatever text the Mermaid parser accepts, the machine that it gives back is closed: the initial state,
-- the final states and the source of every transition are among the states; so is the target, or it is
-- the name `__terminal__` and the source is final; the states and the final states are in ascending
-- order, each once; and there is a transition, or there are two states.
pub mermaid_parse-IsClosed : (input : Text) → Good IsClosedFsm (Mermaid.parse input)
unfolding Mermaid.parse
mermaid_parse-IsClosed input =
    IsClosed-finish _
      (IsClosed-each_line Mermaid.read read-Mermaid 0 blank (lines input) IsClosed-blank)

-- The same of the PlantUML parser, whose state declarations add states alone.
plantuml_parse-IsClosed : (input : Text) → Good IsClosedFsm (PlantUml.parse input)
unfolding PlantUml.parse
plantuml_parse-IsClosed input =
    IsClosed-finish _
      (IsClosed-each_line PlantUml.read read-PlantUml 0 blank (lines input) IsClosed-blank)
