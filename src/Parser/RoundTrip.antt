-- ===== src/Parser/RoundTrip.antt =====
-- A machine written as a Mermaid flowchart, and read back (finitomata/src/parser/mermaid.rs).
pub mod Names
pub mod Steps
pub mod Edge
use mathlib.Core.List.{append-nil, append_assoc}
use mathlib.Core.List.Memᴰ
use finitomata_rs.Base.{
  Memᴰ, ℕ, suc, ◌≡◌, refl, sym, ap, ◌∙◌, true, false, none, some, List, [], ◌∷◌, ◌++◌, map, ok,
}
use finitomata_rs.Base.Ord.{same, same_refl, nat_ord, list_ord}
use finitomata_rs.Base.Text.{Text, text}
use finitomata_rs.Parser.{
  ParsedFsm, ParsedTransition, transition, initial_transition, Draft, blank, star, add_initial,
  add_line, conclude, finish, each_line,
}
use finitomata_rs.Parser.Mermaid.{flowchart_bare, flowchart_rest, parse_line, skips, read, parse}
use finitomata_rs.Strings.{
  is_whitespace, strip_prefix, trim_start, trim_end, trim, split_once, lines,
}
use finitomata_rs.Strings.Plain.{
  AreAll, AreAll-append, differs, split_once-plain, split_once-none, trim_end-append,
  trim_end-solid, trim-solid, unlines, AreLines, lines-unlines,
}
use finitomata_rs.Parser.RoundTrip.Names.{
  IsName, mark, shown_target, print_edge, print_initial, print, IsPrintable, solid, no_pipe,
  no_space,
}
use finitomata_rs.Parser.RoundTrip.Steps.{by_flowchart, by_line}
use finitomata_rs.Parser.RoundTrip.Edge.{print-avoids, add_line-print, read-print}

-- The rest of the lines.
each_line-print :
    (ts : List ParsedTransition) (n : ℕ) (d : Draft)
    → ((t : ParsedTransition) → Memᴰ t ts → IsPrintable t)
    → (d' : Draft) × (each_line read n d (map print_edge ts) ≡ ok d')
      × (d'.transitions ≡ d.transitions ++ ts)
      × (d'.initial ≡ d.initial)
unfolding each_line
each_line-print [] n d h = (d, refl, sym (append-nil d.transitions), refl)
each_line-print (t ∷ ts) n d h =
    let printable = h t (Memᴰ.head refl) in
    let (adds, keeps) = add_line-print t printable d in
    let next = add_line d (transition t.from (shown_target t.to) (t.event ++ mark t.kind)) in
    let (d', ends, all, first) = each_line-print ts (suc n) next (λ u m. h u (Memᴰ.tail m)) in
    (
      d',
      rw (read-print t printable n d) ends,
      all ∙ ap (λ xs. xs ++ ts) adds ∙ append_assoc d.transitions (t ∷ []) ts,
      first ∙ keeps,
    )

-- The first line.
module _ (initial : Text) (name : IsName initial) where
  trim-initial : trim (print_initial initial) ≡ print_initial initial
  unfolding trim
  trim-initial =
      trim_end-append (text "[*] --> ") initial (trim_end-solid initial (solid initial name.1))
        name.0

  trim-star : trim (text "[*] ") ≡ star
  unfolding trim trim_start trim_end
  trim-star = refl

  trim-name : trim (32 ∷ initial) ≡ initial
  unfolding trim
  trim-name = trim-solid initial (solid initial name.1)

  bare_initial : flowchart_rest star initial ≡ some (initial_transition initial)
  unfolding flowchart_rest flowchart_bare
  bare_initial =
      rw
        (
          flowchart_rest,
          split_once-none initial 124 [] (no_pipe initial name.1),
          name.0,
          same_refl star,
        )
        refl

  parse_line-initial : parse_line (print_initial initial) ≡ some (initial_transition initial)
  parse_line-initial =
      by_flowchart (print_initial initial) (text "[*] ") (32 ∷ initial)
        (split_once-plain (text "[*] ") (32 ∷ initial) 45 (text "->")
          (refl, (refl, (refl, (refl, tt)))))
        (ap (λ (q : Text × Text). flowchart_rest q.0 q.1) (λ i. (trim-star i, trim-name i))
          ∙ bare_initial)

  add_line-initial :
      let d = add_line blank (initial_transition initial) in
      (d.transitions ≡ []) × (d.initial ≡ some initial)
  unfolding add_line add_initial
  add_line-initial = (refl, refl)

  AreLines-print :
      (ts : List ParsedTransition)
      → ((t : ParsedTransition) → Memᴰ t ts → IsPrintable t)
      → AreLines (map print_edge ts)
  AreLines-print [] h = tt
  AreLines-print (t ∷ ts) h = (
    print-avoids t (h t (Memᴰ.head refl)) 10 refl (refl, (refl, (refl, (refl, (refl, (refl, tt))))))
        (refl, (refl, tt)),
    print-avoids t (h t (Memᴰ.head refl)) 13 refl (refl, (refl, (refl, (refl, (refl, (refl, tt))))))
        (refl, (refl, tt)),
    AreLines-print ts (λ u m. h u (Memᴰ.tail m)),
  )

  kept-initial : skips (print_initial initial) ≡ false
  unfolding skips strip_prefix
  kept-initial = refl

  initial-avoids :
      (p : ℕ)
      → is_whitespace p ≡ true
      → AreAll (differs p) (text "[*] --> ")
      → AreAll (differs p) (print_initial initial)
  initial-avoids p space fixed =
      AreAll-append (differs p) (text "[*] --> ") initial fixed
        (no_space p space initial (solid initial name.1))

  -- The initial state stands in the first line.
  print-IsRead :
      (t : ParsedTransition) (ts : List ParsedTransition)
      → ((u : ParsedTransition) → Memᴰ u (t ∷ ts) → IsPrintable u)
      → (d : Draft) × (each_line read 0 blank (lines (print initial (t ∷ ts))) ≡ ok d)
        × (d.transitions ≡ t ∷ ts)
        × (d.initial ≡ some initial)
  unfolding each_line
  print-IsRead t ts h =
      let next = add_line blank (initial_transition initial) in
      let (empty, first) = add_line-initial in
      let (d, ends, all, keeps) = each_line-print (t ∷ ts) 1 next h in
      let lines_lem : lines (print initial (t ∷ ts))
          ≡ print_initial initial ∷ map print_edge (t ∷ ts) =
        lines-unlines (print_initial initial ∷ map print_edge (t ∷ ts)) (
          initial-avoids 10 refl (refl, (refl, (refl, (refl, (refl, (refl, (refl, (refl, tt)))))))),
          initial-avoids 13 refl (refl, (refl, (refl, (refl, (refl, (refl, (refl, (refl, tt)))))))),
          AreLines-print (t ∷ ts) h,
        ) in
      (
        d,
        rw
            (
              lines_lem,
              each_line,
              by_line 0 blank (print_initial initial) trim-initial kept-initial parse_line-initial,
            )
            ends,
        all ∙ ap (λ xs. xs ++ t ∷ ts) empty,
        keeps ∙ first,
      )

-- Takes what the loop read.
finish-ok :
    (d : Draft) (initial : Text) (t : ParsedTransition) (ts : List ParsedTransition)
    → d.initial ≡ some initial
    → d.transitions ≡ t ∷ ts
    → (fsm : ParsedFsm) × (finish (ok d) ≡ ok fsm)
      × (fsm.initial ≡ initial)
      × (fsm.transitions ≡ t ∷ ts)
unfolding finish conclude
finish-ok d initial t ts e f = (
  record { initial = initial; finals = d.finals; transitions = d.transitions; states = d.states },
  rw (e, f, conclude) refl,
  refl,
  f,
)

-- A machine of one edge at least, written as a flowchart, is read back with the same initial state and
-- the same edges in the same order: their sources, targets, events and kinds. Its names are not empty
-- and have no white space and none of `-`, `|`, `!` and `?`; no state is named like the marker `[*]`; no
-- line is one that the parser leaves out.
pub parse-print :
    (initial : Text) (t : ParsedTransition) (ts : List ParsedTransition)
    → IsName initial
    → ((u : ParsedTransition) → Memᴰ u (t ∷ ts) → IsPrintable u)
    → (fsm : ParsedFsm) × (parse (print initial (t ∷ ts)) ≡ ok fsm)
      × (fsm.initial ≡ initial)
      × (fsm.transitions ≡ t ∷ ts)
unfolding parse
parse-print initial t ts name h =
    let (d, ends, all, first) = print-IsRead initial name t ts h in
    let (fsm, concludes, initial_lem, transitions_lem) = finish-ok d initial t ts first all in
    (fsm, ap finish ends ∙ concludes, initial_lem, transitions_lem)
