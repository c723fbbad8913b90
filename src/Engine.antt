-- ===== src/Engine.antt =====
-- `transit` (finitomata/src/engine.rs), one state transition with its callbacks. What it may change is
-- one record, `Machine`: the user's `fsm`, the `FsmState`, the backend behind the persistency handle
-- and whatever the listener writes to. `show_state` and `show_event` are `Debug` of the two types.
pub mod Outcome
pub mod Trace
pub mod Order
pub mod Persisted
pub mod Refused
pub mod Bounded
pub mod Kept
pub mod Walked
pub mod Panic
use finitomata_rs.Base.{
  Bool, true, false, ◌&&◌, Option, none, some, List, any, Result, ok, err, if◌then◌else◌,
}
use finitomata_rs.Base.Ord.{Ord, same}
use finitomata_rs.Base.Text.{Text}
use finitomata_rs.Callbacks.{TransitionResult, Finitomata}
use finitomata_rs.Error.{
  FinitomataError, PersistencyError, not_responds, not_allowed, persistency, persistency_text,
}
use finitomata_rs.Listener.{Listener}
use finitomata_rs.Persistency.{Persistency}
use finitomata_rs.State.{
  FsmState, running, terminating, terminated, set_error, clear_error, transition_to,
}
use finitomata_rs.Transition.{
  EventKind, Transition, TransitionGraph, is_hard, is_soft, allowed, is_final,
}

pub record TransitContext (D L S E P : Type 0) : Type 0 where
  pub persistency : Option (Persistency D S P)
  pub listener : Option (Listener L S E)
  pub auto_terminate : Bool

pub data TransitOutcome : Type 0 where
  transitioned soft_skipped auto_terminate hard_continue : TransitOutcome

pub record Machine (F D L S P : Type 0) : Type 0 where
  pub fsm : F
  pub state : FsmState S P
  pub store : D
  pub log : L

-- The event is soft in some transition of the graph, from whatever state.
unfoldable pub is_soft_event : {S E : Type 0} ⦃eo : Ord E⦄ → TransitionGraph S E → E → Bool
is_soft_event graph event = any (λ t. same t.event event && is_soft t.kind) graph.transitions

module _ {F D L S E P : Type 0} (callbacks : Finitomata F S E P) where
  -- The four callbacks that return nothing but their two `&mut` arguments.
  exit : Machine F D L S P → S → Machine F D L S P
  exit m state =
      let (fsm, payload) = callbacks.on_exit m.fsm state m.state.payload in
      record m { fsm = fsm; state = record (m.state) { payload = payload } }

  unfoldable pub enter : Machine F D L S P → S → Machine F D L S P
  enter m state =
      let (fsm, payload) = callbacks.on_enter m.fsm state m.state.payload in
      record m { fsm = fsm; state = record (m.state) { payload = payload } }

  failure : Machine F D L S P → E → FinitomataError → Machine F D L S P
  failure m event reason =
      let (fsm, payload) = callbacks.on_failure m.fsm event reason m.state.payload in
      record m { fsm = fsm; state = record (m.state) { payload = payload } }

  unfoldable pub terminate : Machine F D L S P → Machine F D L S P
  terminate m =
      let (fsm, payload) = callbacks.on_terminate m.fsm m.state.payload in
      record m { fsm = fsm; state = record (m.state) { payload = payload } }

  -- Steps 1 and 2: `on_exit`, and then `on_transition` chooses.
  consult : E → P → Machine F D L S P → Machine F D L S P × TransitionResult S P
  unfolding exit
  consult event event_payload m =
      let m1 = exit m m.state.current in
      let (fsm, payload, result) =
        callbacks.on_transition m1.fsm m.state.current event event_payload m1.state.payload in
      (record m1 { fsm = fsm; state = record (m1.state) { payload = payload } }, result)

  -- `state.set_error(err.clone()); fsm.on_enter(&from, …); return Err(err)`
  reenter :
      Machine F D L S P
      → S
      → FinitomataError
      → Machine F D L S P × Result TransitOutcome FinitomataError
  unfolding enter set_error
  reenter m from reason = (enter (record m { state = set_error m.state reason }) from, err reason)

  -- The same after `on_failure`.
  fail :
      Machine F D L S P
      → S
      → E
      → FinitomataError
      → Machine F D L S P × Result TransitOutcome FinitomataError
  unfolding failure reenter
  fail m from event reason = reenter (failure m event reason) from reason

  -- Steps 8 and 9 of the comments: auto-terminate, and the outcome for a hard event.
  finish :
      EventKind
      → Bool
      → Machine F D L S P
      → Machine F D L S P × Result TransitOutcome FinitomataError
  unfolding terminate
  finish kind true m =
      let m' = terminate (record m { state = record (m.state) { lifecycle = terminating } }) in
      (record m' { state = record (m'.state) { lifecycle = terminated } }, ok auto_terminate)
  finish kind false m = (m, ok (if is_hard kind then hard_continue else transitioned))

  -- Step 6: the listener, if there is one.
  notify : Option (Listener L S E) → Machine F D L S P → S → S → E → Machine F D L S P
  notify none m from target event = m
  notify (some listener) m from target event = record m {
    log = listener.on_transition m.log m.state.name from target event;
  }

  module _ ⦃so : Ord S⦄ where
    -- Step 5: the new state and its history.
    advance : Machine F D L S P → S → Machine F D L S P
    unfolding clear_error transition_to
    advance m target = record m {
      state = record (transition_to (clear_error m.state) target) { lifecycle = running };
    }

    -- Steps 5 to 9.
    commit :
        TransitionGraph S E
        → TransitContext D L S E P
        → EventKind
        → S
        → S
        → E
        → Machine F D L S P
        → Machine F D L S P × Result TransitOutcome FinitomataError
    unfolding advance notify enter finish
    commit graph ctx kind from target event m =
        finish kind (ctx.auto_terminate && is_final graph target)
          (enter (notify ctx.listener (advance m target) from target event) target)

    -- What follows the answer of the backend.
    after_store :
        TransitionGraph S E
        → TransitContext D L S E P
        → EventKind
        → S
        → S
        → E
        → Machine F D L S P
        → Result (Unit {0}) PersistencyError
        → Machine F D L S P × Result TransitOutcome FinitomataError
    unfolding commit reenter
    after_store graph ctx kind from target event m (ok _) =
        commit graph ctx kind from target event m
    after_store graph ctx kind from target event m (err e) =
        reenter m from (persistency (persistency_text e))

    -- Step 4: the new state and the payload go to the backend, if there is one.
    persist :
        TransitionGraph S E
        → TransitContext D L S E P
        → EventKind
        → S
        → S
        → E
        → Machine F D L S P
        → Option (Persistency D S P)
        → Machine F D L S P × Result TransitOutcome FinitomataError
    unfolding commit after_store
    persist graph ctx kind from target event m none = commit graph ctx kind from target event m
    persist graph ctx kind from target event m (some backend) =
        let (store, stored) = backend.store m.store m.state.name target m.state.payload in
        after_store graph ctx kind from target event (record m { store = store }) stored

    module _ (show_state : S → Text) (show_event : E → Text) where
      -- Step 3: the target has to be one of the allowed targets.
      settle :
          TransitionGraph S E
          → TransitContext D L S E P
          → List S
          → EventKind
          → S
          → S
          → E
          → Machine F D L S P
          → Machine F D L S P × Result TransitOutcome FinitomataError
      unfolding persist fail
      settle graph ctx targets kind from target event m =
          if any (λ t. same t target) targets
          then persist graph ctx kind from target event m ctx.persistency
          else fail m from event
              (not_allowed (show_state from) (show_state target) (show_event event))

      -- The `match result` of step 2.
      pub decide :
          TransitionGraph S E
          → TransitContext D L S E P
          → List S
          → EventKind
          → S
          → E
          → Machine F D L S P
          → TransitionResult S P
          → Machine F D L S P × Result TransitOutcome FinitomataError
      unfolding settle fail
      decide graph ctx targets kind from event m (TransitionResult.ok target) =
          settle graph ctx targets kind from target event m
      decide graph ctx targets kind from event m (TransitionResult.ok_with_payload target payload) =
          settle graph ctx targets kind from target event
            (record m { state = record (m.state) { payload = payload } })
      decide graph ctx targets kind from event m (TransitionResult.error reason) =
          fail m from event reason

      -- Steps 1 to 9, once the event is known to have a transition.
      attempt :
          TransitionGraph S E
          → TransitContext D L S E P
          → List S
          → EventKind
          → E
          → P
          → Machine F D L S P
          → Machine F D L S P × Result TransitOutcome FinitomataError
      unfolding decide consult
      attempt graph ctx targets kind event event_payload m =
          let (m', result) = consult event event_payload m in
          decide graph ctx targets kind m.state.current event m' result

      module _ ⦃eo : Ord E⦄ where
        -- The first `match`: without a transition a soft event is skipped.
        respond :
            TransitionGraph S E
            → TransitContext D L S E P
            → E
            → P
            → Machine F D L S P
            → Option (List S × EventKind)
            → Machine F D L S P × Result TransitOutcome FinitomataError
        unfolding attempt
        respond graph ctx event event_payload m (some (targets, kind)) =
            attempt graph ctx targets kind event event_payload m
        respond graph ctx event event_payload m none =
            if is_soft_event graph event
            then (m, ok soft_skipped)
            else (m, err (not_responds (show_state m.state.current) (show_event event)))

        unfoldable pub transit :
            TransitionGraph S E
            → Machine F D L S P
            → E
            → P
            → TransitContext D L S E P
            → Machine F D L S P × Result TransitOutcome FinitomataError
        unfolding respond
        transit graph m event event_payload ctx =
            respond graph ctx event event_payload m (allowed graph m.state.current event)
