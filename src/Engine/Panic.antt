-- ===== src/Engine/Panic.antt =====
-- `transit` (finitomata/src/engine.rs) with an `on_transition` that may panic. The panic unwinds `transit`
-- where it awaits the callback, before anything of the answer is used.
pub mod Answered
pub mod Called
pub mod Survived
use finitomata_rs.Base.{Bool, true, false, ap, Option, none, some, List, [], ◌∷◌, Result}
use finitomata_rs.Base.Ord.{Ord}
use finitomata_rs.Base.Text.{Text}
use finitomata_rs.Callbacks.{TransitionResult, Finitomata}
use finitomata_rs.Engine.{TransitContext, TransitOutcome, Machine, exit, decide, respond}
use finitomata_rs.Error.{FinitomataError}
use finitomata_rs.Transition.{EventKind, TransitionGraph, allowed}

-- `none` is a panic, which leaves what the callback has written.
abbrev pub Panicky : Type 0 → Type 0 → Type 0 → Type 0 → Type 0
Panicky F S E P = F → S → E → P → P → F × P × Option (TransitionResult S P)

pub data Ending (F D L S P : Type 0) : Type 0 where
  returned : Machine F D L S P → Result TransitOutcome FinitomataError → Ending F D L S P
  panicked : Machine F D L S P → Ending F D L S P

-- The machine, as the call or the panic leaves it.
abbrev pub left : {F D L S P : Type 0} → Ending F D L S P → Machine F D L S P
left (returned m r) = m
left (panicked m) = m

-- The other callbacks are those of `callbacks`, whose own `on_transition` is not called.
module _ {F D L S E P : Type 0} ⦃so : Ord S⦄ (callbacks : Finitomata F S E P)
    (on_transition : Panicky F S E P) (show_state : S → Text) (show_event : E → Text) where
  on_answer :
      TransitionGraph S E
      → TransitContext D L S E P
      → List S
      → EventKind
      → S
      → E
      → Machine F D L S P
      → Option (TransitionResult S P)
      → Ending F D L S P
  unfolding decide
  on_answer graph ctx targets kind from event m none = panicked m
  on_answer graph ctx targets kind from event m (some result) =
      let (m', r) =
        decide callbacks show_state show_event graph ctx targets kind from event m result in
      returned m' r

  -- As `consult`, with the answer if there is one.
  queried : E → P → Machine F D L S P → Machine F D L S P × Option (TransitionResult S P)
  unfolding exit
  queried event event_payload m =
      let m1 = exit callbacks m m.state.current in
      let (fsm, payload, result) =
        on_transition m1.fsm m.state.current event event_payload m1.state.payload in
      (record m1 { fsm = fsm; state = record (m1.state) { payload = payload } }, result)

  -- As `attempt`.
  unwound :
      TransitionGraph S E
      → TransitContext D L S E P
      → List S
      → EventKind
      → E
      → P
      → Machine F D L S P
      → Ending F D L S P
  unfolding on_answer queried
  unwound graph ctx targets kind event event_payload m =
      let (m', result) = queried event event_payload m in
      on_answer graph ctx targets kind m.state.current event m' result

  module _ ⦃eo : Ord E⦄ where
    -- An event without a transition calls no `on_transition`.
    caught :
        TransitionGraph S E
        → TransitContext D L S E P
        → E
        → P
        → Machine F D L S P
        → Option (List S × EventKind)
        → Ending F D L S P
    unfolding respond unwound
    caught graph ctx event event_payload m none =
        let (m', r) =
          respond callbacks show_state show_event graph ctx event event_payload m none in
        returned m' r
    caught graph ctx event event_payload m (some (targets, kind)) =
        unwound graph ctx targets kind event event_payload m

    unfoldable pub transit_caught :
        TransitionGraph S E
        → Machine F D L S P
        → E
        → P
        → TransitContext D L S E P
        → Ending F D L S P
    unfolding caught
    transit_caught graph m event event_payload ctx =
        caught graph ctx event event_payload m (allowed graph m.state.current event)

    -- Event after event, until one panics; and if one did.
    abbrev pub run_caught :
        TransitionGraph S E
        → TransitContext D L S E P
        → Machine F D L S P
        → List (E × P)
        → Machine F D L S P × Bool
    run_caught graph ctx m [] = (m, false)
    run_caught graph ctx m ((event, event_payload) ∷ rest) =
        elim (transit_caught graph m event event_payload ctx) [
          | returned m' r ↦ run_caught graph ctx m' rest
          | panicked m' ↦ (m', true)
        ]
