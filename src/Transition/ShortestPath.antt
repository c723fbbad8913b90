-- ===== src/Transition/ShortestPath.antt =====
-- `shortest_path` (finitomata/src/transition.rs): the breadth-first search with early exit.
pub mod Grow
pub mod Rounds
pub mod Levels
pub mod Invariant
pub mod Correct
use finitomata_rs.Base.{ℕ, zero, suc, ◌+◌, true, false, Option, none, some, List, [], ◌∷◌, ◌++◌}
use finitomata_rs.Base.Ord.{Ord, same}
use finitomata_rs.BTree.Sets
use finitomata_rs.BTree.Sets.{BTreeSet}
use finitomata_rs.Transition.{Transition, TransitionGraph, PathSteps, rows, target_count}

-- The two loop variables of `shortest_path`.
pub record Search (S E : Type 0) : Type 0 where
  pub visited : BTreeSet S
  pub queue : List (S × PathSteps S E)

-- An inner loop returns from the function, or goes on.
pub data Scan (S E : Type 0) : Type 0 where
  found : PathSteps S E → Scan S E
  more : Search S E → Scan S E

module _ {S E : Type 0} ⦃so : Ord S⦄ where
  -- `for target in &t.to` of `shortest_path`.
  scan_targets : S → E → PathSteps S E → Search S E → List S → Scan S E
  scan_targets to event path s [] = more s
  scan_targets to event path s (target ∷ ts) = elim (same target to) [
    | true ↦ found (path ++ (event, target) ∷ [])
    | false ↦ elim (Sets.contains s.visited target) [
      | true ↦ scan_targets to event path s ts
      | false ↦
          scan_targets to event path
            (record {
              visited = Sets.insert s.visited target;
              queue = s.queue ++ (target, path ++ (event, target) ∷ []) ∷ [];
            })
            ts
    ]
  ]

  -- `for &i in indices` of `shortest_path`.
  pub scan_rows : S → PathSteps S E → Search S E → List (Transition S E) → Scan S E
  scan_rows to path s [] = more s
  scan_rows to path s (t ∷ ts) = elim (scan_targets to t.event path s t.to) [
    | found p ↦ found p
    | more s' ↦ scan_rows to path s' ts
  ]

  -- The `while` loop of `shortest_path`. The outer `none` means that the fuel ran out.
  pub path_loop : TransitionGraph S E → S → ℕ → Search S E → Option (Option (PathSteps S E))
  path_loop g to zero s = elim s.queue [ [] ↦ some none | _ ∷ _ ↦ none ]
  path_loop g to (suc fuel) s = elim s.queue [
    | [] ↦ some none
    | (current, path) ∷ rest ↦
        elim (scan_rows to path (record s { queue = rest }) (rows g current)) [
          | found p ↦ some (some p)
          | more s' ↦ path_loop g to fuel s'
        ]
  ]

  unfoldable pub shortest_path : TransitionGraph S E → S → S → Option (Option (PathSteps S E))
  unfolding path_loop scan_rows scan_targets
  shortest_path g from to = elim (same from to) [
    | true ↦ some (some [])
    | false ↦
        path_loop g to (suc (target_count g.transitions))
          (record { visited = Sets.insert [] from; queue = (from, []) ∷ [] })
  ]
