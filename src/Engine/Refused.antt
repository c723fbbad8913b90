-- ===== src/Engine/Refused.antt =====
-- The transitions that `transit` (finitomata/src/engine.rs) refuses for the answer of the callback.
use finitomata_rs.Base.{
  none≢some, some_inj, ◌≡◌, subst, ap, inl, inr, any, Option, none, some, List, Result, ok, err,
  if◌then◌else◌, Bool-cases,
}
use finitomata_rs.Base.Ord.{Ord, same}
use finitomata_rs.Base.Text.{Text}
use finitomata_rs.Callbacks.{TransitionResult, Finitomata}
use finitomata_rs.Engine.{
  TransitContext, TransitOutcome, Machine, exit, consult, reenter, fail, settle, decide, attempt,
  respond, transit,
}
use finitomata_rs.Engine.Outcome.{Stays, Attempted, Transited, transit-Transited}
use finitomata_rs.Error.{FinitomataError, not_allowed}
use finitomata_rs.Transition.{EventKind, TransitionGraph, allowed}

module _ {S E P : Type 0} ⦃so : Ord S⦄ (show_state : S → Text) (show_event : E → Text) where
  -- The reason to refuse the answer of the callback, if there is one.
  abbrev pub refusal : List S → S → E → TransitionResult S P → Option FinitomataError
  refusal targets from event (TransitionResult.ok target) =
      if any (λ t. same t target) targets
      then none
      else some (not_allowed (show_state from) (show_state target) (show_event event))
  refusal targets from event (TransitionResult.ok_with_payload target payload) =
      if any (λ t. same t target) targets
      then none
      else some (not_allowed (show_state from) (show_state target) (show_event event))
  refusal targets from event (TransitionResult.error reason) = some reason

module _ {F D L S E P : Type 0} ⦃so : Ord S⦄ (callbacks : Finitomata F S E P)
    (show_state : S → Text) (show_event : E → Text) where
  -- What the callback answers to an event, after `on_exit`.
  abbrev pub answer : Machine F D L S P → E → P → TransitionResult S P
  answer m event event_payload =
      let (fsm, payload) = callbacks.on_exit m.fsm m.state.current m.state.payload in
      (callbacks.on_transition fsm m.state.current event event_payload payload).2

  module _ (graph : TransitionGraph S E) (ctx : TransitContext D L S E P) where
    settle-refused :
        (targets : List S) (kind : EventKind) (from target : S) (event : E) (m : Machine F D L S P)
        (reason : FinitomataError)
        → (if any (λ t. same t target) targets
            then none
            else some (not_allowed (show_state from) (show_state target) (show_event event)))
          ≡ some reason
        → (settle callbacks show_state show_event graph ctx targets kind from target event m).1
          ≡ err reason
    unfolding settle fail reenter
    settle-refused targets kind from target event m reason h =
        elim (Bool-cases (any (λ t. same t target) targets)) [
          | inl e ↦ absurd (none≢some (rw e at h))
          | inr n ↦ rw n (ap err (some_inj (rw n at h)))
        ]

    decide-refused :
        (targets : List S) (kind : EventKind) (from : S) (event : E) (m : Machine F D L S P)
        (result : TransitionResult S P) (reason : FinitomataError)
        → refusal show_state show_event targets from event result ≡ some reason
        → (decide callbacks show_state show_event graph ctx targets kind from event m result).1
          ≡ err reason
    unfolding decide fail reenter
    decide-refused targets kind from event m (TransitionResult.ok target) reason h =
        settle-refused targets kind from target event m reason h
    decide-refused targets kind from event m (TransitionResult.ok_with_payload target payload)
          reason h =
        settle-refused targets kind from target event
          (record m { state = record (m.state) { payload = payload } }) reason h
    decide-refused targets kind from event m (TransitionResult.error e) reason h =
        ap err (some_inj h)

    Attempted-err :
        (targets : List S) (kind : EventKind) (event : E) (m : Machine F D L S P)
        (r : Machine F D L S P × Result TransitOutcome FinitomataError) {reason : FinitomataError}
        → r.1 ≡ err reason
        → Attempted callbacks graph ctx targets kind event m r
        → Stays m r.0 × (r.0.state.last_error ≡ some reason)
    Attempted-err targets kind event m (m', ok o) e h = cc
    Attempted-err targets kind event m (m', err why) e h =
        (h.0, subst (λ x. m'.state.last_error ≡ some x) (cc) h.1)

    attempt-refused :
        (targets : List S) (kind : EventKind) (event : E) (event_payload : P)
        (m : Machine F D L S P) (reason : FinitomataError)
        → refusal show_state show_event targets m.state.current event (answer m event event_payload)
          ≡ some reason
        → (attempt callbacks show_state show_event graph ctx targets kind event event_payload m).1
          ≡ err reason
    unfolding attempt consult exit
    attempt-refused targets kind event event_payload m reason h =
        decide-refused targets kind m.state.current event
          (consult callbacks event event_payload m).0 (answer m event event_payload) reason h

    module _ ⦃eo : Ord E⦄ where
      -- An event that the graph allows is refused for what the callback answers, where that is an
      -- error or a state that is none of the targets. `transit` then returns the callback's error, or
      -- `NotAllowed` with the two states and the event; the machine stays where it was, and the error is
      -- recorded.
      pub transit-refused :
          (m : Machine F D L S P) (event : E) (event_payload : P) (targets : List S)
          (kind : EventKind) (reason : FinitomataError)
          → allowed graph m.state.current event ≡ some (targets, kind)
          → refusal show_state show_event targets m.state.current event
              (answer m event event_payload)
            ≡ some reason
          → let (m', r) = transit callbacks show_state show_event graph m event event_payload ctx in
            (r ≡ err reason) × Stays m m' × (m'.state.last_error ≡ some reason)
      unfolding transit respond
      transit-refused m event event_payload targets kind reason row h =
          let r = transit callbacks show_state show_event graph m event event_payload ctx in
          let fails : r.1 ≡ err reason =
            rw row (attempt-refused targets kind event event_payload m reason h) in
          let kept = Attempted-err targets kind event m r fails (
            subst (λ row. Transited callbacks show_state show_event graph ctx event m row r) row
              (transit-Transited callbacks show_state show_event graph ctx event event_payload
                m)) in
          (fails, kept.0, kept.1)
