-- ===== src/Macro/Validation.antt =====
-- `validate` of the macro (finitomata_macro/src/validation.rs).
pub mod Reachable
pub mod Sound
use finitomata_rs.Base.{
  ℕ, zero, suc, ◌+◌, Bool, true, false, ◌&&◌, ◌||◌, not, Option, none, some, List, [], ◌∷◌, ◌++◌,
  length, is_empty, ◌==◌, Result, ok, err, if◌then◌else◌,
}
use finitomata_rs.Base.Ord.{same, nat_ord, list_ord, pair_ord}
use finitomata_rs.Base.Text.{Text, text}
use finitomata_rs.BTree.Sets
use finitomata_rs.BTree.Sets.{BTreeSet}
use finitomata_rs.Macro.Chars.{Chars}
use finitomata_rs.Parser.{ParsedFsm, ParsedTransition, terminal}

-- The targets that one round of `reachable_from` queues.
unfoldable pub push : BTreeSet Text → Text → List ParsedTransition → List Text → List Text
push visited current [] queue = queue
push visited current (t ∷ ts) queue = push visited current ts (
    if same t.from current && not (Sets.contains visited t.to) && not (same t.to terminal)
    then queue ++ t.to ∷ []
    else queue)

-- The `while` loop of `reachable_from`. `none` means that the fuel ran out.
unfoldable pub sweep :
    List ParsedTransition → ℕ → BTreeSet Text → List Text → Option (BTreeSet Text)
unfolding push
sweep ts zero visited [] = some visited
sweep ts zero visited (current ∷ queue) = none
sweep ts (suc fuel) visited [] = some visited
sweep ts (suc fuel) visited (current ∷ queue) = elim (Sets.contains visited current) [
  | true ↦ sweep ts fuel visited queue
  | false ↦
      let visited' = Sets.insert visited current in
      sweep ts fuel visited' (push visited' current ts queue)
]

unfoldable pub reachable_from : Text → ParsedFsm → Option (BTreeSet Text)
unfolding sweep
reachable_from start fsm = sweep fsm.transitions (suc (length fsm.transitions)) [] (start ∷ [])

-- The first three checks.
unfoldable pub initial_errors : ParsedFsm → List Text
initial_errors fsm = if is_empty fsm.initial then text "no initial state defined" ∷ [] else []

unfoldable pub final_errors : ParsedFsm → List Text
final_errors fsm =
    if is_empty fsm.finals then text "no final state defined (no transition to [*])" ∷ [] else []

unfoldable pub unreachable_errors : Text → BTreeSet Text → List Text → List Text
unreachable_errors initial reachable [] = []
unreachable_errors initial reachable (state ∷ states) =
    let rest = unreachable_errors initial reachable states in
    if not (same state initial) && not (Sets.contains reachable state)
    then (text "state `"
        ++ (state ++ (text "` is not reachable from initial state `" ++ (initial ++ text "`"))))
      ∷ rest
    else rest

-- The loop over the transitions with the pairs that were seen.
unfoldable pub duplicate_errors : BTreeSet (Text × Text) → List ParsedTransition → List Text
duplicate_errors seen [] = []
duplicate_errors seen (t ∷ ts) =
    let rest = duplicate_errors (Sets.insert seen (t.from, t.event)) ts in
    if Sets.contains seen (t.from, t.event)
    then (text "duplicate transition: state `"
        ++ (t.from ++ (text "` already has event `" ++ (t.event ++ text "`"))))
      ∷ rest
    else rest

-- `if errors.is_empty() { Ok(()) } else { Err(errors) }`
unfoldable pub outcome : List Text → Result (Unit {0}) (List Text)
outcome [] = ok tt
outcome (e ∷ es) = err (e ∷ es)

module _ (chars : Chars) where
  -- `chars().all(…)`
  unfoldable pub all_identifier : Text → Bool
  all_identifier [] = true
  all_identifier (c ∷ cs) = (chars.is_alphanumeric c || (c == 95)) && all_identifier cs

  unfoldable pub is_valid_identifier : Text → Bool
  unfolding all_identifier
  is_valid_identifier [] = false
  is_valid_identifier (first ∷ rest) =
      (chars.is_alphabetic first || (first == 95)) && all_identifier (first ∷ rest)

  unfoldable pub event_errors : List ParsedTransition → List Text
  unfolding is_valid_identifier
  event_errors [] = []
  event_errors (t ∷ ts) =
      let rest = event_errors ts in
      if is_valid_identifier t.event
      then rest
      else (text "event `" ++ (t.event ++ text "` is not a valid Rust identifier")) ∷ rest

  unfoldable pub state_errors : List Text → List Text
  unfolding is_valid_identifier
  state_errors [] = []
  state_errors (state ∷ states) =
      let rest = state_errors states in
      if is_valid_identifier state
      then rest
      else (text "state `" ++ (state ++ text "` is not a valid Rust identifier")) ∷ rest

  -- All checks in their order, given the states that are reached.
  unfoldable pub all_errors : ParsedFsm → BTreeSet Text → List Text
  unfolding initial_errors final_errors unreachable_errors duplicate_errors event_errors
      state_errors
  all_errors fsm reachable =
      initial_errors fsm
      ++ (final_errors fsm
          ++ (unreachable_errors fsm.initial reachable fsm.states
              ++ (duplicate_errors [] fsm.transitions
                  ++ (event_errors fsm.transitions ++ state_errors fsm.states))))

  unfoldable pub validate : ParsedFsm → Option (Result (Unit {0}) (List Text))
  unfolding reachable_from all_errors outcome
  validate fsm = elim (reachable_from fsm.initial fsm) [
    | none ↦ none
    | some reachable ↦ some (outcome (all_errors fsm reachable))
  ]
