-- ===== src/Macro/Parser/Agree.antt =====
-- The macro's Mermaid parser (finitomata_macro/src/parser.rs) against the one of the library
-- (finitomata/src/parser/mermaid.rs).
use finitomata_rs.Base.{
  ℕ, suc, ◌≡◌, refl, ap, ◌∙◌, inl, inr, false, Option, none, some, List, [], ◌∷◌, is_empty, Result,
  ok, err, arith, Bool-cases,
}
use finitomata_rs.Base.Ord.{same_iff, nat_ord, list_ord}
use finitomata_rs.Base.Text.{Text, text}
use finitomata_rs.Macro.Parser.{
  colon_edge, pipe_edge, mermaid_edge, mermaid_skips, accept, read_mermaid, parse_mermaid,
}
use finitomata_rs.Macro.Parser as Macro
use finitomata_rs.Parser.{
  ParsedFsm, ParsedLine, ParseError, transition, initial_transition, Draft, blank, star, each_line,
  and_then-ok, conclude, finish,
}
use finitomata_rs.Parser.Mermaid
use finitomata_rs.Parser.Mermaid.{flowchart_bare, flowchart_rest, parse_line}
use finitomata_rs.Strings.{trim, split_once, lines}
use finitomata_rs.Macro.Parser.Edges.{
  piped, flowchart_parts, edge_parts, flowchart_rest_lem, pipe_edge_lem, either, IsPlain,
  library_split, macro_split, parse_line_lem, mermaid_edge_lem, mermaid_edge-parse_line,
}

accept-agrees :
    (n : ℕ) (d d' : Draft) (line : Text) (o m : Option ParsedLine)
    → ((p : ParsedLine) → o ≡ some p → m ≡ some p)
    → Mermaid.accept n d line o ≡ ok d'
    → accept n d line m ≡ ok d'
unfolding Mermaid.accept accept
accept-agrees n d d' line none m agree h = cc
accept-agrees n d d' line (some p) m agree h = rw (agree p refl) (ground arith)

-- The two parsers leave out the same lines, and the others are plain.
abbrev IsPlainLine : Text → Type 0
IsPlainLine raw = Mermaid.skips (trim raw) ≡ false → IsPlain (trim raw)

abbrev pub ArePlain : List Text → Type 0
ArePlain [] = Unit
ArePlain (raw ∷ rest) = IsPlainLine raw × ArePlain rest

skips_lem : (line : Text) → mermaid_skips line ≡ Mermaid.skips line
unfolding mermaid_skips Mermaid.skips
skips_lem line = refl

read-agrees :
    (n : ℕ) (d d' : Draft) (raw : Text)
    → IsPlainLine raw
    → Mermaid.read n d raw ≡ ok d'
    → read_mermaid n d raw ≡ ok d'
unfolding Mermaid.read read_mermaid
read-agrees n d d' raw plain h = elim (Bool-cases (Mermaid.skips (trim raw))) [
  | inl e ↦ rw (skips_lem, e) (ground (arith, h, e))
  | inr e ↦
      rw (skips_lem, e)
        (accept-agrees n d d' (trim raw) (parse_line (trim raw)) (mermaid_edge (trim raw))
          (λ p. mermaid_edge-parse_line (trim raw) p (plain e)) (ground (arith, h, e)))
]

each_line-agrees :
    (n : ℕ) (d d' : Draft) (ls : List Text)
    → ArePlain ls
    → each_line Mermaid.read n d ls ≡ ok d'
    → each_line read_mermaid n d ls ≡ ok d'
unfolding each_line
each_line-agrees n d d' [] plain h = ground arith
each_line-agrees n d d' (raw ∷ rest) (p, plain) h =
    let (d'', e, k) = and_then-ok (Mermaid.read n d raw) _ h in
    rw (read-agrees n d d'' raw p e) (each_line-agrees (suc n) d'' d' rest plain k)

conclude-agrees :
    (d : Draft) (initial : Option Text) (fsm : ParsedFsm)
    → conclude d initial ≡ ok fsm
    → Macro.conclude d initial ≡ ok fsm
unfolding conclude Macro.conclude
conclude-agrees d none fsm h = cc
conclude-agrees d (some initial) fsm h = ground arith

finish-agrees :
    (r : Result Draft ParseError) (q : Result Draft Text) (fsm : ParsedFsm)
    → ((d : Draft) → r ≡ ok d → q ≡ ok d)
    → finish r ≡ ok fsm
    → Macro.finish q ≡ ok fsm
unfolding finish Macro.finish
finish-agrees (ok d) q fsm agree h = rw (agree d refl) (conclude-agrees d d.initial fsm h)
finish-agrees (err e) q fsm agree h = cc

-- A Mermaid diagram that the library's parser accepts is accepted by the macro's, with the same
-- machine, provided that its lines are plain: between two pipes stand a label that is not blank and
-- after them a state, and an edge from `[*]` without pipes has no colon after its arrow.
pub parse_mermaid-agrees :
    (input : Text) (fsm : ParsedFsm)
    → ArePlain (lines input)
    → Mermaid.parse input ≡ ok fsm
    → parse_mermaid input ≡ ok fsm
unfolding Mermaid.parse parse_mermaid
parse_mermaid-agrees input fsm plain h =
    finish-agrees (each_line Mermaid.read 0 blank (lines input))
      (each_line read_mermaid 0 blank (lines input)) fsm
      (λ d. each_line-agrees 0 blank d (lines input) plain) h

split_once-filled :
    (s pattern : Text) (parts : Text × Text)
    → split_once s pattern ≡ some parts
    → is_empty s ≡ false
unfolding split_once
split_once-filled [] pattern parts h = cc
split_once-filled (c ∷ cs) pattern parts h = refl

-- Where the parsers disagree. In an edge from `[*]` without pipes and with a colon after its arrow, such
-- as `[*] --> idle : boot`, the macro takes what stands before the colon for the state and the rest for
-- the event, while the library takes the whole for the name of the initial state.
pub initial-colon :
    (line from rest to event : Text)
    → split_once line (text "-->") ≡ some (from, rest)
    → trim from ≡ star
    → piped (trim rest) ≡ none
    → split_once (trim rest) (text ":") ≡ some (to, event)
    → (parse_line line ≡ some (initial_transition (trim rest)))
      × (mermaid_edge line ≡ some (transition star (trim to) (trim event)))
unfolding colon_edge flowchart_bare
initial-colon line from rest to event split s none_piped colon =
    let filled : is_empty (trim rest) ≡ false = split_once-filled (trim rest) (text ":") _ colon in
    let bare : flowchart_bare (trim from) (trim rest) ≡ some (initial_transition (trim rest)) =
      ground (arith, same_iff (trim from) star) in
    (
      parse_line_lem line
          ∙ ap library_split split
          ∙ ap (either (trim from) (trim rest)) (
              flowchart_rest_lem (trim from) (trim rest)
              ∙ ap (flowchart_parts (trim from) (trim rest)) none_piped
              ∙ bare),
      mermaid_edge_lem line
          ∙ ap macro_split split
          ∙ pipe_edge_lem (trim from) (trim rest)
          ∙ ap (edge_parts (trim from) (trim rest)) none_piped
          ∙ ground (arith, s, colon),
    )
