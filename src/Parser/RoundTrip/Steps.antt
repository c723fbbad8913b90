-- ===== src/Parser/RoundTrip/Steps.antt =====
-- The steps of the Mermaid parser (finitomata/src/parser/mermaid.rs), by the parts of a line.
use finitomata_rs.Base.{ℕ, ◌≡◌, refl, sym, ap, false, some, [], ◌∷◌, ◌++◌, ok}
use finitomata_rs.Base.Ord.{same, same_refl, nat_ord, list_ord}
use finitomata_rs.Base.Text.{Text, text}
use finitomata_rs.Parser.{
  ParsedTransition, ParsedLine, transition, Draft, star, terminal, classify_event, add_final,
  add_transition, add_line,
}
use finitomata_rs.Parser.Mermaid.{
  flowchart_labelled, flowchart_rest, parse_flowchart_line, parse_line, skips, accept, read,
}
use finitomata_rs.Strings.{trim, split_once}

-- A flowchart's line by its parts.
pub by_flowchart :
    (line from rest : Text) {p : ParsedLine}
    → split_once line (text "-->") ≡ some (from, rest)
    → flowchart_rest (trim from) (trim rest) ≡ some p
    → parse_line line ≡ some p
unfolding parse_line parse_flowchart_line
by_flowchart line from rest split found = rw (parse_line, parse_flowchart_line, split, found) refl

pub by_label :
    (from rest label event to : Text) {p : ParsedLine}
    → split_once rest (text "|") ≡ some ([], label)
    → split_once label (text "|") ≡ some (event, to)
    → flowchart_labelled from (trim event) (trim to) ≡ some p
    → flowchart_rest from rest ≡ some p
unfolding flowchart_rest
by_label from rest label event to first second found =
    rw (flowchart_rest, first, second, found) refl

pub by_line :
    (n : ℕ) (d : Draft) (line : Text) {p : ParsedLine}
    → trim line ≡ line
    → skips line ≡ false
    → parse_line line ≡ some p
    → read n d line ≡ ok (add_line d p)
unfolding read accept
by_line n d line same_line kept found = rw (read, same_line, kept, found) refl

-- An edge between states, and one to the marker.
abbrev pub Adds : Draft → Draft → ParsedTransition → Type 0
Adds d d' t = (d'.transitions ≡ d.transitions ++ t ∷ []) × (d'.initial ≡ d.initial)

pub add_inner :
    (d : Draft) (t : ParsedTransition) (raw : Text)
    → classify_event raw ≡ (t.event, t.kind)
    → same t.from star ≡ false
    → same t.to star ≡ false
    → Adds d (add_line d (transition t.from t.to raw)) t
unfolding add_line add_transition
add_inner d t raw named inner unmarked = rw (add_line, named, inner, unmarked) (refl, refl)

pub add_last :
    (d : Draft) (t : ParsedTransition) (raw : Text)
    → classify_event raw ≡ (t.event, t.kind)
    → same t.from star ≡ false
    → t.to ≡ terminal
    → Adds d (add_line d (transition t.from star raw)) t
unfolding add_line add_transition add_final
add_last d t raw named inner ends =
    rw (add_line, named, inner, same_refl star)
      (
        ap
            (λ (to : Text).
              d.transitions
              ++ record { from = t.from; to = to; event = t.event; kind = t.kind } ∷ [])
            (sym ends),
        refl,
      )
