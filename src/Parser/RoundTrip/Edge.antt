-- ===== src/Parser/RoundTrip/Edge.antt =====
-- One edge that is written as a line and read back (finitomata/src/parser/mermaid.rs).
use mathlib.Core.List.{append_assoc}
use finitomata_rs.Base.{
  ℕ, ◌≡◌, refl, sym, ap, ◌∙◌, inl, inr, true, some, [], ◌∷◌, ◌++◌, Bool-cases, ok,
}
use finitomata_rs.Base.Ord.{same, same_iff, nat_ord, list_ord}
use finitomata_rs.Base.Text.{Text, text}
use finitomata_rs.Parser.{ParsedTransition, transition, Draft, terminal, add_line}
use finitomata_rs.Parser.Mermaid.{flowchart_labelled, flowchart_rest, parse_line, read}
use finitomata_rs.Strings.{is_whitespace, trim_end, trim, split_once}
use finitomata_rs.Strings.Plain.{
  AreAll, AreAll-append, differs, is_solid, split_once-plain, trim_end-append, trim_end-solid,
  trim_end-space, trim_start-solid, trim-solid, is_empty-append,
}
use finitomata_rs.Transition.{EventKind, normal, hard, soft}
use finitomata_rs.Parser.RoundTrip.Names.{
  is_name_char, IsName, mark, shown_target, print_edge, IsPrintable, solid, no_dash, no_pipe,
  no_space, classify-mark,
}
use finitomata_rs.Parser.RoundTrip.Steps.{
  by_flowchart, by_label, by_line, Adds, add_inner, add_last,
}

-- The text between the first pipe and the end of the line.
abbrev label : ParsedTransition → Text
label t = t.event ++ (mark t.kind ++ (text "| " ++ shown_target t.to))

pub shown-IsName : (to : Text) → IsName to → IsName (shown_target to)
shown-IsName to h = elim (Bool-cases (same to terminal)) [
  | inl e ↦ rw e (refl, (refl, (refl, (refl, tt))))
  | inr n ↦ rw n h
]

module _ (t : ParsedTransition) (h : IsPrintable t) where
  mark-no_pipe : (kind : EventKind) → AreAll (differs 124) (mark kind)
  mark-no_pipe hard = (refl, tt)
  mark-no_pipe soft = (refl, tt)
  mark-no_pipe normal = tt

  mark-solid : (kind : EventKind) → AreAll is_solid (mark kind)
  mark-solid hard = (refl, tt)
  mark-solid soft = (refl, tt)
  mark-solid normal = tt

  split-arrow :
      split_once (print_edge t) (text "-->") ≡ some (t.from ++ 32 ∷ [], text " |" ++ label t)
  split-arrow =
      ap (λ s. split_once s (text "-->"))
        (sym (append_assoc t.from (32 ∷ []) (text "--> |" ++ label t)))
      ∙ split_once-plain (t.from ++ 32 ∷ []) (text " |" ++ label t) 45 (text "->")
          (AreAll-append (differs 45) t.from (32 ∷ []) (no_dash t.from h.from.1) (refl, tt))

  trim-from : trim (t.from ++ 32 ∷ []) ≡ t.from
  unfolding trim
  trim-from =
      ap trim_end (trim_start-solid t.from (32 ∷ []) h.from.0 (solid t.from h.from.1))
      ∙ trim_end-space t.from (solid t.from h.from.1)

  trim_end-label : (s : Text) → trim_end (s ++ shown_target t.to) ≡ s ++ shown_target t.to
  trim_end-label s =
      let (filled, chars) = shown-IsName t.to h.to in
      trim_end-append s (shown_target t.to) (trim_end-solid _ (solid _ chars)) filled

  before : Text
  before = t.event ++ (mark t.kind ++ text "| ")

  label-before : label t ≡ before ++ shown_target t.to
  unfolding before
  label-before = sym (
      append_assoc t.event (mark t.kind ++ text "| ") (shown_target t.to)
      ∙ ap (λ s. t.event ++ s) (append_assoc (mark t.kind) (text "| ") (shown_target t.to)))

  trim-label : trim (text " |" ++ label t) ≡ text "|" ++ label t
  unfolding trim
  trim-label =
      ap (λ s. trim_end (124 ∷ s)) label-before
      ∙ trim_end-label (124 ∷ before)
      ∙ ap (λ s. 124 ∷ s) (sym label-before)

  split-label :
      split_once (label t) (text "|") ≡ some (t.event ++ mark t.kind, 32 ∷ shown_target t.to)
  split-label =
      ap (λ s. split_once s (text "|"))
        (sym (append_assoc t.event (mark t.kind) (text "| " ++ shown_target t.to)))
      ∙ split_once-plain (t.event ++ mark t.kind) (32 ∷ shown_target t.to) 124 [] (
          AreAll-append (differs 124) t.event (mark t.kind) (no_pipe t.event h.event.1)
            (mark-no_pipe t.kind))

  trim-target : trim (32 ∷ shown_target t.to) ≡ shown_target t.to
  unfolding trim
  trim-target = trim-solid (shown_target t.to) (solid _ (shown-IsName t.to h.to).1)

  trim-event : trim (t.event ++ mark t.kind) ≡ t.event ++ mark t.kind
  trim-event =
      trim-solid (t.event ++ mark t.kind)
        (AreAll-append is_solid t.event (mark t.kind) (solid t.event h.event.1) (mark-solid t.kind))

  labelled-print :
      flowchart_labelled t.from (t.event ++ mark t.kind) (shown_target t.to)
      ≡ some (transition t.from (shown_target t.to) (t.event ++ mark t.kind))
  unfolding flowchart_labelled
  labelled-print =
      rw
        (
          is_empty-append t.event (mark t.kind) h.event.0,
          (shown-IsName t.to h.to).0,
          flowchart_labelled,
        )
        refl

  parse_line-print :
      parse_line (print_edge t)
      ≡ some (transition t.from (shown_target t.to) (t.event ++ mark t.kind))
  parse_line-print =
      by_flowchart (print_edge t) (t.from ++ 32 ∷ []) (text " |" ++ label t) split-arrow (
        ap (λ (q : Text × Text). flowchart_rest q.0 q.1) (λ i. (trim-from i, trim-label i))
        ∙ by_label t.from (text "|" ++ label t) (label t) (t.event ++ mark t.kind)
            (32 ∷ shown_target t.to) (split_once-plain [] (label t) 124 [] tt) split-label
            (ap (λ (q : Text × Text). flowchart_labelled t.from q.0 q.1)
                (λ i. (trim-event i, trim-target i))
              ∙ labelled-print))

  trim-print : trim (print_edge t) ≡ print_edge t
  unfolding trim before
  trim-print =
      let whole : print_edge t ≡ (t.from ++ (text " --> |" ++ before)) ++ shown_target t.to =
        ap (λ s. t.from ++ (text " --> |" ++ s)) label-before
        ∙ sym (append_assoc t.from (text " --> |" ++ before) (shown_target t.to)) in
      ap trim_end
        (trim_start-solid t.from (text " --> |" ++ label t) h.from.0 (solid t.from h.from.1))
      ∙ ap trim_end whole
      ∙ trim_end-label (t.from ++ (text " --> |" ++ before))
      ∙ sym whole

  pub print-avoids :
      (p : ℕ)
      → is_whitespace p ≡ true
      → AreAll (differs p) (text " --> |")
      → AreAll (differs p) (text "| ")
      → AreAll (differs p) (print_edge t)
  print-avoids p space arrow bar =
      let name : (s : Text) → AreAll is_name_char s → AreAll (differs p) s =
        λ s k. no_space p space s (solid s k) in
      AreAll-append (differs p) t.from _ (name t.from h.from.1) (
        AreAll-append (differs p) (text " --> |") _ arrow (
          AreAll-append (differs p) t.event _ (name t.event h.event.1) (
            AreAll-append (differs p) (mark t.kind) _
              (no_space p space (mark t.kind) (mark-solid t.kind))
              (AreAll-append (differs p) (text "| ") _ bar
                (name (shown_target t.to) (shown-IsName t.to h.to).1)))))

  -- What the line adds.
  pub add_line-print :
      (d : Draft)
      → Adds d (add_line d (transition t.from (shown_target t.to) (t.event ++ mark t.kind))) t
  add_line-print d =
      let named = classify-mark t.event t.kind h.event.1 in
      elim (Bool-cases (same t.to terminal)) [
        | inl e ↦
            rw e
              (add_last d t (t.event ++ mark t.kind) named h.inner ((same_iff t.to terminal).0 e))
        | inr n ↦ rw n (add_inner d t (t.event ++ mark t.kind) named h.inner h.unmarked)
      ]

  pub read-print :
      (n : ℕ) (d : Draft)
      → read n d (print_edge t)
        ≡ ok (add_line d (transition t.from (shown_target t.to) (t.event ++ mark t.kind)))
  read-print n d = by_line n d (print_edge t) trim-print h.kept parse_line-print
