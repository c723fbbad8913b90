-- ===== src/Parser.antt =====
-- The parsers of diagrams (finitomata/src/parser): what both give back (mod.rs), and the part that both
-- write out alike, which adds a line of the diagram to what was read so far.
pub mod Mermaid
pub mod PlantUml
pub mod Closed
pub mod FirstError
pub mod RoundTrip
pub mod Sound
use finitomata_rs.Base.{
  ℕ, suc, ◌≡◌, refl, ◌&&◌, Option, none, some, List, [], ◌∷◌, ◌++◌, length, leb, is_empty, Result,
  ok, err, if◌then◌else◌,
}
use finitomata_rs.Base.Ord.{same, nat_ord, list_ord}
use finitomata_rs.Base.Text.{Text, text}
use finitomata_rs.BTree.Sets
use finitomata_rs.BTree.Sets.{BTreeSet}
use finitomata_rs.Strings.{strip_suffix}
use finitomata_rs.Transition.{EventKind, normal, hard, soft}

pub record ParsedTransition : Type 0 where
  pub from : Text
  pub to : Text
  pub event : Text
  pub kind : EventKind

pub record ParsedFsm : Type 0 where
  pub initial : Text
  pub finals : List Text
  pub transitions : List ParsedTransition
  pub states : List Text

pub data ParseError : Type 0 where
  syntax_error : ℕ → Text → ParseError
  no_initial_state empty_definition : ParseError

-- The code points of `!` and `?`.
abbrev bang : ℕ
bang = 33

abbrev question : ℕ
question = 63

unfoldable pub classify_event : Text → Text × EventKind
unfolding strip_suffix
classify_event raw = elim (strip_suffix raw bang) [
  | some stripped ↦ (stripped, hard)
  | none ↦ elim (strip_suffix raw question) [
    | some stripped ↦ (stripped, soft)
    | none ↦ (raw, normal)
  ]
]

-- `ParsedLine` of one parser and `PlantUmlLine` of the other.
pub data ParsedLine : Type 0 where
  transition : Text → Text → Text → ParsedLine
  initial_transition final_transition : Text → ParsedLine

-- The variables of the loop of `parse`.
pub record Draft : Type 0 where
  pub transitions : List ParsedTransition
  pub initial : Option Text
  pub finals : BTreeSet Text
  pub states : BTreeSet Text

abbrev pub blank : Draft
blank = record { transitions = []; initial = none; finals = []; states = [] }

abbrev pub star : Text
star = text "[*]"

abbrev pub terminal : Text
terminal = text "__terminal__"

-- `if initial.is_none() { initial = Some(to.clone()); }`, and the insertion that follows.
add_initial : Draft → Text → Draft
add_initial d to = record d {
  initial = elim d.initial [ none ↦ some to | some first ↦ some first ];
  states = Sets.insert d.states to;
}

add_final : Draft → Text → Draft
add_final d from = record d {
  finals = Sets.insert d.finals from;
  states = Sets.insert d.states from;
}

add_transition : Draft → Text → Text → Text → EventKind → Draft
add_transition d from to event kind = record d {
  transitions = d.transitions ++ record { from = from; to = to; event = event; kind = kind } ∷ [];
}

-- The `match parsed` of the loop.
unfoldable pub add_line : Draft → ParsedLine → Draft
unfolding add_initial add_final add_transition classify_event
add_line d (transition from to event) =
    let (event_name, kind) = classify_event event in
    if same from star
    then add_initial d to
    else (if same to star
        then add_transition (add_final d from) from terminal event_name kind
        else add_transition (record d { states = Sets.insert (Sets.insert d.states from) to }) from
            to event_name kind)
add_line d (initial_transition to) = add_initial d to
add_line d (final_transition from) = add_final d from

-- What follows the loop.
unfoldable pub conclude : Draft → Option Text → Result ParsedFsm ParseError
conclude d none = err no_initial_state
conclude d (some initial) =
    if is_empty d.transitions && leb (length d.states) 1
    then err empty_definition
    else ok (record {
      initial = initial;
      finals = d.finals;
      transitions = d.transitions;
      states = d.states;
    })

unfoldable pub finish : Result Draft ParseError → Result ParsedFsm ParseError
unfolding conclude
finish (ok d) = conclude d d.initial
finish (err e) = err e

unfoldable pub cannot_parse : ℕ → Text → ParseError
cannot_parse line_num line =
    syntax_error (suc line_num) (text "cannot parse: `" ++ (line ++ text "`"))

-- An error returns at once.
abbrev pub and_then : {A B E : Type 0} → Result A E → (A → Result B E) → Result B E
and_then (ok a) next = next a
and_then (err e) next = err e

pub and_then-ok :
    {A B E : Type 0} (r : Result A E) (next : A → Result B E) {b : B}
    → and_then r next ≡ ok b
    → (a : A) × (r ≡ ok a) × (next a ≡ ok b)
and_then-ok (ok a) next h = (a, refl, h)
and_then-ok (err e) next h = cc

-- The loop over the lines, with `read` as its body.
unfoldable pub each_line :
    {X : Type 0} → (ℕ → Draft → Text → Result Draft X) → ℕ → Draft → List Text → Result Draft X
each_line read line_num d [] = ok d
each_line read line_num d (line ∷ lines) =
    and_then (read line_num d line) λ d'. each_line read (suc line_num) d' lines
