-- ===== src/Transition/Validate.antt =====
-- `validate` (finitomata/src/transition.rs).
pub mod Correct
use finitomata_rs.Base.{
  ◌+◌, ◌&&◌, not, Option, none, some, List, [], ◌∷◌, ◌++◌, is_empty, if◌then◌else◌, Result, ok, err,
}
use finitomata_rs.Base.Ord.{Ord, same}
use finitomata_rs.Base.Text.{Text}
use finitomata_rs.BTree.Sets
use finitomata_rs.BTree.Sets.{BTreeSet}
use finitomata_rs.Error.{ValidationError, no_final_state, unreachable_state}
use finitomata_rs.Transition.{TransitionGraph, all_states}
use finitomata_rs.Transition.Reachable.{reachable_from}

abbrev pub ok_unless : List ValidationError → Result (Unit {0}) (List ValidationError)
ok_unless [] = ok tt
ok_unless (e ∷ es) = err (e ∷ es)

module _ {S : Type 0} ⦃so : Ord S⦄ where
  -- The loop of `validate`; `show` is `Debug` for the states.
  unreachable_errors : (S → Text) → S → BTreeSet S → List S → List ValidationError
  unreachable_errors show initial reachable [] = []
  unreachable_errors show initial reachable (s ∷ ss) =
      let rest = unreachable_errors show initial reachable ss in
      if not (same s initial) && not (Sets.contains reachable s)
      then unreachable_state (show s) ∷ rest
      else rest

module _ {S E : Type 0} ⦃so : Ord S⦄ where
  unfoldable pub validate :
      (S → Text) → TransitionGraph S E → Option (Result (Unit {0}) (List ValidationError))
  unfolding unreachable_errors
  validate show g = elim (reachable_from g g.initial) [
    | none ↦ none
    | some reachable ↦ some (
        ok_unless (
          (if is_empty g.finals then no_final_state ∷ [] else [])
          ++ unreachable_errors show g.initial reachable (all_states g)))
  ]
