-- ===== src/Engine/Bounded.antt =====
-- The history within its bounds (finitomata/src/state.rs), over any row of calls of `transit`
-- (finitomata/src/engine.rs).
use finitomata_rs.Base.{sym, subst, Option, none, some, List, [], ◌∷◌, Result, ok, err}
use finitomata_rs.Base.Ord.{Ord}
use finitomata_rs.Base.Text.{Text}
use finitomata_rs.Callbacks.{Finitomata}
use finitomata_rs.Engine.{TransitContext, TransitOutcome, Machine, transit}
use finitomata_rs.Engine.Outcome.{Transited, transit-Transited}
use finitomata_rs.Error.{FinitomataError}
use finitomata_rs.State.Bounds.{IsBounded, push-IsBounded}
use finitomata_rs.Transition.{EventKind, TransitionGraph, allowed}

module _ {F D L S E P : Type 0} ⦃so : Ord S⦄ ⦃eo : Ord E⦄ (callbacks : Finitomata F S E P)
    (show_state : S → Text) (show_event : E → Text) (graph : TransitionGraph S E)
    (ctx : TransitContext D L S E P) where
  Transited-IsBounded :
      (event : E) (m : Machine F D L S P) (row : Option (List S × EventKind))
      (r : Machine F D L S P × Result TransitOutcome FinitomataError)
      → IsBounded m.state.history
      → Transited callbacks show_state show_event graph ctx event m row r
      → IsBounded r.0.state.history
  Transited-IsBounded event m none r b h = subst (λ m. IsBounded m.state.history) (sym h.0) b
  Transited-IsBounded event m (some (targets, kind)) (m', ok o) b h =
      subst IsBounded (sym h.history) (push-IsBounded m.state.history m'.state.current b)
  Transited-IsBounded event m (some (targets, kind)) (m', err e) b h =
      subst IsBounded (sym h.0.history) b

  -- The machine after a row of events with their payloads, whatever each call answers.
  abbrev pub transit_all : Machine F D L S P → List (E × P) → Machine F D L S P
  transit_all m [] = m
  transit_all m ((event, event_payload) ∷ rest) =
      transit_all (transit callbacks show_state show_event graph m event event_payload ctx).0 rest

  -- A history that has at most `max_size` entries, or one where that is 0, and whose counts are below
  -- 2 ^ 64 stays so over any row of calls of `transit`, whether they succeed or fail.
  pub transit_all-IsBounded :
      (m : Machine F D L S P) (events : List (E × P))
      → IsBounded m.state.history
      → IsBounded (transit_all m events).state.history
  transit_all-IsBounded m [] b = b
  transit_all-IsBounded m ((event, event_payload) ∷ rest) b =
      transit_all-IsBounded
        (transit callbacks show_state show_event graph m event event_payload ctx).0 rest
        (Transited-IsBounded event m (allowed graph m.state.current event) _ b
          (transit-Transited callbacks show_state show_event graph ctx event event_payload m))
