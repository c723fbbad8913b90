-- ===== src/Engine/Panic/Answered.antt =====
-- `transit` (finitomata/src/engine.rs) where `on_transition` never panics.
use finitomata_rs.Base.{◌≡◌, refl, Option, none, some, List}
use finitomata_rs.Base.Ord.{Ord}
use finitomata_rs.Base.Text.{Text}
use finitomata_rs.Callbacks.{Finitomata}
use finitomata_rs.Engine.{TransitContext, Machine, exit, consult, attempt, respond, transit}
use finitomata_rs.Engine.Panic.{
  Panicky, returned, on_answer, queried, unwound, caught, transit_caught,
}
use finitomata_rs.Transition.{EventKind, TransitionGraph, allowed}

module _ {F D L S E P : Type 0} ⦃so : Ord S⦄ ⦃eo : Ord E⦄ (callbacks : Finitomata F S E P)
    (show_state : S → Text) (show_event : E → Text) (graph : TransitionGraph S E)
    (ctx : TransitContext D L S E P) where
  -- The answer is there whatever the callback is given.
  abbrev answering : Panicky F S E P
  answering fsm from event event_payload payload =
      let (fsm', payload', result) = callbacks.on_transition fsm from event event_payload payload in
      (fsm', payload', some result)

  caught-respond :
      (m : Machine F D L S P) (event : E) (event_payload : P) (row : Option (List S × EventKind))
      → let (m', r) = respond callbacks show_state show_event graph ctx event event_payload m row in
        caught callbacks answering show_state show_event graph ctx event event_payload m row
        ≡ returned m' r
  unfolding caught unwound queried on_answer respond attempt consult exit
  caught-respond m event event_payload none = refl
  caught-respond m event event_payload (some (targets, kind)) = refl

  -- An `on_transition` that always answers makes of `transit_caught` what `transit` is.
  transit_caught-transit :
      (m : Machine F D L S P) (event : E) (event_payload : P)
      → let (m', r) = transit callbacks show_state show_event graph m event event_payload ctx in
        transit_caught callbacks answering show_state show_event graph m event event_payload ctx
        ≡ returned m' r
  unfolding transit_caught transit
  transit_caught-transit m event event_payload =
      caught-respond m event event_payload (allowed graph m.state.current event)
