-- ===== src/Tests/History.antt =====
-- A history of three entries over five visits, as in the unit tests of finitomata/src/state.rs.
use finitomata_rs.Base.{ℕ, ◌≡◌, refl, List, [], ◌∷◌, map}
use finitomata_rs.Base.Ord.{nat_ord, same}
use finitomata_rs.State.{HistoryEntry, new_history, push}
use finitomata_rs.State.Runs.{take_last, expand, IsRuns, wrap}
use finitomata_rs.State.Window.{capacity}
use finitomata_rs.State.History.{push_all, push_all-new}

abbrev visits : List ℕ
visits = 1 ∷ 2 ∷ 2 ∷ 3 ∷ 4 ∷ []

last_three :
    (push_all (new_history 3) visits).entries
    ≡ record { state = 2; count = 2 }
      ∷ record { state = 3; count = 1 }
      ∷ record { state = 4; count = 1 }
      ∷ []
unfolding push new_history same
last_three = refl

push_all-new_example :
    (runs : List (HistoryEntry ℕ)) × IsRuns runs
    × (expand runs ≡ visits)
    × ((push_all (new_history 3) visits).entries ≡ take_last (capacity 3) (map wrap runs))
push_all-new_example = push_all-new 3 visits
