-- ===== src/Tests/Graph.antt =====
-- The graph of the sample: its lookups and its searches.
use finitomata_rs.Base.{ℕ, ◌≡◌, refl, ◌↔◌, Option, some, List, [], ◌∷◌, Memᴰ, ok}
use mathlib.Core.Option
use finitomata_rs.Base.Ord.{nat_ord, same}
use finitomata_rs.BTree.Maps
use finitomata_rs.BTree.Sets
use finitomata_rs.BTree.Sets.{BTreeSet}
use finitomata_rs.Error.{ValidationError}
use finitomata_rs.Tests.Sample.{idle, busy, done, start, finish, rows_of_sample, sample, show}
use finitomata_rs.Transition.{PathSteps, new, allowed, all_states, rows, target_count}
use finitomata_rs.Transition.Index.{new-IsWellFormed, first_match, allowed-new}
use finitomata_rs.Transition.Reachable.{reachable_from}
use finitomata_rs.Transition.Reachable.Correct.{IsExact, reachable_from_correct}
use finitomata_rs.Transition.ShortestPath.{shortest_path}
use finitomata_rs.Transition.ShortestPath.Correct.{IsShortest, shortest_path_correct}
use finitomata_rs.Transition.Validate.{ok_unless, validate}
use finitomata_rs.Transition.Validate.Correct.{IsFault, validate_correct}

path-sample : shortest_path sample idle done ≡ some (some ((start, busy) ∷ (finish, done) ∷ []))
unfolding shortest_path new rows same target_count Maps.alter Maps.get Sets.insert Sets.contains
path-sample = refl

valid-sample : validate show sample ≡ some (ok tt)
unfolding validate reachable_from all_states new rows same target_count Maps.alter Maps.get
    Sets.insert Sets.contains
valid-sample = refl

allowed-new_example :
    allowed sample busy finish
    ≡ Option.map (λ t. (t.to, t.kind)) (first_match rows_of_sample busy finish)
allowed-new_example = allowed-new idle (done ∷ []) rows_of_sample busy finish

shortest_path_correct_example :
    (r : Option (PathSteps ℕ ℕ)) × (shortest_path sample idle done ≡ some r)
    × IsShortest sample idle done r
shortest_path_correct_example =
    shortest_path_correct sample (new-IsWellFormed idle (done ∷ []) rows_of_sample) idle done

reachable_from_correct_example :
    (r : BTreeSet ℕ) × (reachable_from sample busy ≡ some r) × IsExact sample busy r
reachable_from_correct_example =
    reachable_from_correct sample busy (new-IsWellFormed idle (done ∷ []) rows_of_sample)

validate_correct_example :
    (es : List ValidationError) × (validate show sample ≡ some (ok_unless es))
    × ((e : ValidationError) → Memᴰ e es ↔ IsFault show sample e)
validate_correct_example =
    validate_correct show sample (new-IsWellFormed idle (done ∷ []) rows_of_sample)
