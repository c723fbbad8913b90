-- ===== src/Transition/Reachable.antt =====
-- `reachable_from` (finitomata/src/transition.rs): the worklist search behind `validate`.
pub mod Push
pub mod Correct
use finitomata_rs.Base.{
  ℕ, zero, suc, ◌+◌, true, false, Option, none, some, List, [], ◌∷◌, ◌++◌, if◌then◌else◌,
}
use finitomata_rs.Base.Ord.{Ord}
use finitomata_rs.BTree.Sets
use finitomata_rs.BTree.Sets.{BTreeSet}
use finitomata_rs.Transition.{Transition, TransitionGraph, rows, target_count}

-- The two loop variables of `reachable_from`.
pub record Sweep (S : Type 0) : Type 0 where
  pub visited : BTreeSet S
  pub queue : List S

module _ {S : Type 0} ⦃so : Ord S⦄ where
  -- `for target in &self.transitions[i].to` of `reachable_from`.
  unfoldable pub push_targets : Sweep S → List S → Sweep S
  push_targets s [] = s
  push_targets s (target ∷ ts) =
      push_targets
        (if Sets.contains s.visited target then s else record s { queue = s.queue ++ target ∷ [] })
        ts

module _ {S E : Type 0} ⦃so : Ord S⦄ where
  -- `for &i in indices` of `reachable_from`.
  unfoldable pub push_rows : Sweep S → List (Transition S E) → Sweep S
  push_rows s [] = s
  push_rows s (t ∷ ts) = push_rows (push_targets s t.to) ts

  -- The `while` loop of `reachable_from`. `none` means that the fuel ran out.
  unfoldable pub sweep_loop : TransitionGraph S E → ℕ → Sweep S → Option (BTreeSet S)
  sweep_loop g zero s = elim s.queue [ [] ↦ some s.visited | _ ∷ _ ↦ none ]
  sweep_loop g (suc fuel) s = elim s.queue [
    | [] ↦ some s.visited
    | current ∷ rest ↦ elim (Sets.contains s.visited current) [
      | true ↦ sweep_loop g fuel (record s { queue = rest })
      | false ↦ sweep_loop g fuel (
          push_rows (record { visited = Sets.insert s.visited current; queue = rest })
            (rows g current))
    ]
  ]

  unfoldable pub reachable_from : TransitionGraph S E → S → Option (BTreeSet S)
  unfolding sweep_loop push_rows push_targets
  reachable_from g start =
      sweep_loop g (suc (target_count g.transitions)) (record { visited = []; queue = start ∷ [] })
