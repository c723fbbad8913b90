-- ===== src/Macro/Parser/Closed.antt =====
-- The machine that the macro's parsers give back (finitomata_macro/src/parser.rs).
use finitomata_rs.Base.{
  ℕ, ◌≡◌, refl, inl, inr, subst, Option, none, some, Result, ok, err, Bool-cases,
}
use finitomata_rs.Base.Ord.{nat_ord, list_ord}
use finitomata_rs.Base.Text.{Text}
use finitomata_rs.Macro.Parser.{
  accept, mermaid_skips, mermaid_edge, read_mermaid, plantuml_skips, plantuml_edge, read_plantuml,
  conclude, finish, parse_mermaid, parse_plantuml,
}
use finitomata_rs.Parser.{ParsedFsm, ParsedLine, Draft, blank}
use finitomata_rs.Parser.Closed.{
  IsClosed, IsClosedDraft, IsClosed-blank, add_line-IsClosed, IsClosed-each_line, Good,
}
use finitomata_rs.Strings.{trim, lines}

-- The names of the machine fit together.
abbrev pub IsClosedMachine : ParsedFsm → Type 0
IsClosedMachine fsm = IsClosed (some fsm.initial) fsm.finals fsm.states fsm.transitions

accept-IsClosed :
    (n : ℕ) (d : Draft) (line : Text) (edge : Option ParsedLine)
    → IsClosedDraft d
    → Good IsClosedDraft (accept n d line edge)
unfolding accept
accept-IsClosed n d line none h = tt
accept-IsClosed n d line (some edge) h = add_line-IsClosed d edge h

read_mermaid-IsClosed :
    (n : ℕ) (d : Draft) (raw : Text) → IsClosedDraft d → Good IsClosedDraft (read_mermaid n d raw)
unfolding read_mermaid
read_mermaid-IsClosed n d raw h = elim (Bool-cases (mermaid_skips (trim raw))) [
  | inl e ↦ rw e h
  | inr e ↦ rw e (accept-IsClosed n d (trim raw) (mermaid_edge (trim raw)) h)
]

read_plantuml-IsClosed :
    (n : ℕ) (d : Draft) (raw : Text) → IsClosedDraft d → Good IsClosedDraft (read_plantuml n d raw)
unfolding read_plantuml
read_plantuml-IsClosed n d raw h = elim (Bool-cases (plantuml_skips (trim raw))) [
  | inl e ↦ rw e h
  | inr e ↦ rw e (accept-IsClosed n d (trim raw) (plantuml_edge (trim raw)) h)
]

conclude-IsClosed :
    (d : Draft) (initial : Option Text)
    → d.initial ≡ initial
    → IsClosedDraft d
    → Good IsClosedMachine (conclude d initial)
unfolding conclude
conclude-IsClosed d none e h = tt
conclude-IsClosed d (some initial) e h = subst (λ i. IsClosed i d.finals d.states d.transitions) e h

finish-IsClosed : (r : Result Draft Text) → Good IsClosedDraft r → Good IsClosedMachine (finish r)
unfolding finish
finish-IsClosed (ok d) h = conclude-IsClosed d d.initial refl h
finish-IsClosed (err e) h = tt

pub parse_mermaid-IsClosed : (input : Text) → Good IsClosedMachine (parse_mermaid input)
unfolding parse_mermaid
parse_mermaid-IsClosed input =
    finish-IsClosed _
      (IsClosed-each_line read_mermaid read_mermaid-IsClosed 0 blank (lines input) IsClosed-blank)

pub parse_plantuml-IsClosed : (input : Text) → Good IsClosedMachine (parse_plantuml input)
unfolding parse_plantuml
parse_plantuml-IsClosed input =
    finish-IsClosed _
      (IsClosed-each_line read_plantuml read_plantuml-IsClosed 0 blank (lines input) IsClosed-blank)
