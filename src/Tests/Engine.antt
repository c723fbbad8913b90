-- ===== src/Tests/Engine.antt =====
-- Transitions of the sample machine.
use finitomata_rs.Base.{map, ℕ, ◌≡◌, refl, none, some, true, List, [], ◌∷◌}
use finitomata_rs.Base.Ord.{same, nat_ord, list_ord}
use finitomata_rs.Engine.{TransitContext, Machine, transit, is_soft_event}
use finitomata_rs.Engine.Bounded.{transit_all, transit_all-IsBounded}
use finitomata_rs.State.Bounds.{IsBounded, new_state-IsBounded}
use finitomata_rs.BTree.Sets
use finitomata_rs.BTree.Maps
use finitomata_rs.BTree.Sets.{BTreeSet}
use finitomata_rs.Engine.Walked.{steps_of, transit_all-Walk}
use finitomata_rs.State.History.{push_all}
use finitomata_rs.Transition.Reachable.{reachable_from}
use finitomata_rs.Transition.Walks.{Walk}
use finitomata_rs.Engine.Outcome.{Transited, transit-Transited}
use finitomata_rs.Engine.Order.{Called, transit-Called}
use finitomata_rs.Base.Text.{Text, text}
use finitomata_rs.Persistency.Memory.{in_memory}
use finitomata_rs.State.{Lifecycle, new_state, push, transition_to, clear_error, set_error}
use finitomata_rs.Tests.Dash.{assoc, assoc-IsLawful}
use finitomata_rs.Engine.Persisted.{Recorded, transit-Recorded}
use finitomata_rs.Engine.Trace.{Call, traced}
use finitomata_rs.Tests.Sample.{
  idle, done, rows_of_sample, busy, poke, finish, sample, show, callbacks, ctx, machine,
}
use finitomata_rs.Transition.{allowed, rows, new, is_final}

transit-Transited_example :
    Transited callbacks show show sample ctx finish machine
      (allowed sample machine.state.current finish)
      (transit callbacks show show sample machine finish 7 ctx)
transit-Transited_example = transit-Transited callbacks show show sample ctx finish 7 machine

-- The sample machine whose callbacks are recorded.
abbrev recorded : Machine (ℕ × List (Call ℕ ℕ)) ℕ (List (ℕ × ℕ)) ℕ ℕ
recorded = record { fsm = (0, []); state = machine.state; store = 0; log = [] }

transit-Called_example :
    Called callbacks ctx finish recorded
      (allowed sample recorded.state.current finish)
      (transit (traced callbacks) show show sample recorded finish 7 ctx)
transit-Called_example = transit-Called callbacks show show sample ctx finish 7 recorded

-- The sample machine with the in-memory backend, and a graph of one transition.
abbrev memory_ctx : TransitContext (List (Text × (Lifecycle × ℕ × ℕ))) (List (ℕ × ℕ)) ℕ ℕ ℕ
memory_ctx = record { persistency = some (in_memory assoc); listener = none; auto_terminate = true }

abbrev stored : Machine ℕ (List (Text × (Lifecycle × ℕ × ℕ))) (List (ℕ × ℕ)) ℕ ℕ
stored = record { fsm = 0; state = machine.state; store = []; log = [] }

transit-Recorded_example :
    Recorded assoc
      (allowed sample stored.state.current finish)
      stored
      (transit callbacks show show sample stored finish 7 memory_ctx)
transit-Recorded_example =
    transit-Recorded assoc callbacks assoc-IsLawful sample memory_ctx stored refl show show finish 7

transit_all-IsBounded_example :
    IsBounded
      (transit_all callbacks show show sample ctx machine
        ((finish, 7) ∷ (finish, 8) ∷ (poke, 9) ∷ [])).state.history
transit_all-IsBounded_example =
    transit_all-IsBounded callbacks show show sample ctx machine
      ((finish, 7) ∷ (finish, 8) ∷ (poke, 9) ∷ []) (new_state-IsBounded (text "test") busy 5)

transit_all-Walk_example :
    let events : List (ℕ × ℕ) = (finish, 7) ∷ (finish, 8) ∷ (poke, 9) ∷ [] in
    let m' = transit_all callbacks show show sample ctx machine events in
    let p = steps_of callbacks show show idle (done ∷ []) rows_of_sample ctx machine events in
    Walk sample machine.state.current p m'.state.current
    × (m'.state.history ≡ push_all machine.state.history (map (λ s. s.1) p))
    × ((r : BTreeSet ℕ) × (reachable_from sample machine.state.current ≡ some r)
        × (Sets.contains r m'.state.current ≡ true))
transit_all-Walk_example =
    transit_all-Walk callbacks show show idle (done ∷ []) rows_of_sample ctx machine
      ((finish, 7) ∷ (finish, 8) ∷ (poke, 9) ∷ [])

-- The second `finish` has no transition, and the answer to `poke` is not an allowed target.
steps-sample :
    steps_of callbacks show show idle
      (done ∷ [])
      rows_of_sample
      ctx
      machine
      ((finish, 7) ∷ (finish, 8) ∷ (poke, 9) ∷ [])
    ≡ (finish, done) ∷ []
unfolding transit allowed rows new same Maps.get Maps.alter new_state push transition_to
    is_soft_event is_final Sets.contains clear_error set_error
steps-sample = refl
