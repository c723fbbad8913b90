-- ===== src/Engine/Trace.antt =====
-- The order of the callbacks in `transit` (finitomata/src/engine.rs): an implementation is wrapped so
-- that it also records each call that it gets.
use finitomata_rs.Base.{
  ◌≡◌, refl, inl, inr, Option, none, some, List, [], ◌∷◌, ◌++◌, any, Result, ok, err, arith,
  Bool-cases,
}
use finitomata_rs.Base.Ord.{Ord, same}
use finitomata_rs.Base.Text.{Text}
use finitomata_rs.Callbacks.{TransitionResult, Finitomata}
use finitomata_rs.Engine.{
  TransitContext, TransitOutcome, Machine, exit, consult, enter, failure, terminate, reenter, fail,
  finish, notify, advance, commit, after_store, persist, settle, decide, attempt, respond, transit,
}
use finitomata_rs.Error.{FinitomataError, PersistencyError}
use finitomata_rs.Persistency.{Persistency}
use finitomata_rs.State.{clear_error, transition_to, set_error}
use finitomata_rs.Transition.{EventKind, TransitionGraph, allowed}

pub data Call (S E : Type 0) : Type 0 where
  exited entered : S → Call S E
  chose : S → E → Call S E
  failed : E → FinitomataError → Call S E
  other : Call S E
  ended : Call S E

-- The implementation, with a list of the calls behind it.
abbrev pub traced : {F S E P : Type 0} → Finitomata F S E P → Finitomata (F × List (Call S E)) S E P
traced c = record {
  on_transition = λ f from event event_payload payload.
      let (fsm, payload', result) = c.on_transition f.0 from event event_payload payload in
      ((fsm, f.1 ++ chose from event ∷ []), payload', result);
  on_start = λ f payload. let (fsm, p) = c.on_start f.0 payload in ((fsm, f.1 ++ other ∷ []), p);
  on_enter = λ f state payload.
      let (fsm, p) = c.on_enter f.0 state payload in ((fsm, f.1 ++ entered state ∷ []), p);
  on_exit = λ f state payload.
      let (fsm, p) = c.on_exit f.0 state payload in ((fsm, f.1 ++ exited state ∷ []), p);
  on_failure = λ f event reason payload.
      let (fsm, p) = c.on_failure f.0 event reason payload in
      ((fsm, f.1 ++ failed event reason ∷ []), p);
  on_timer = λ f state payload.
      let (fsm, p, r) = c.on_timer f.0 state payload in ((fsm, f.1 ++ other ∷ []), p, r);
  on_terminate =
      λ f payload. let (fsm, p) = c.on_terminate f.0 payload in ((fsm, f.1 ++ ended ∷ []), p);
}

module _ {F D L S E P : Type 0} where
  abbrev pub erase : Machine (F × List (Call S E)) D L S P → Machine F D L S P
  erase m = record { fsm = m.fsm.0; state = m.state; store = m.store; log = m.log }

  abbrev pub erase_result :
      Machine (F × List (Call S E)) D L S P × Result TransitOutcome FinitomataError
      → Machine F D L S P × Result TransitOutcome FinitomataError
  erase_result (m, r) = (erase m, r)

  module _ (c : Finitomata F S E P) ⦃so : Ord S⦄ where
    erase-commit :
        (graph : TransitionGraph S E) (ctx : TransitContext D L S E P) (kind : EventKind)
        (from target : S) (event : E) (m : Machine (F × List (Call S E)) D L S P)
        → erase_result (commit (traced c) graph ctx kind from target event m)
          ≡ commit c graph ctx kind from target event (erase m)
    unfolding commit finish notify advance enter terminate clear_error transition_to
    erase-commit graph ctx kind from target event m = ground arith

    erase-after_store :
        (graph : TransitionGraph S E) (ctx : TransitContext D L S E P) (kind : EventKind)
        (from target : S) (event : E) (m : Machine (F × List (Call S E)) D L S P)
        (stored : Result (Unit {0}) PersistencyError)
        → erase_result (after_store (traced c) graph ctx kind from target event m stored)
          ≡ after_store c graph ctx kind from target event (erase m) stored
    unfolding after_store reenter enter set_error
    erase-after_store graph ctx kind from target event m (ok _) =
        erase-commit graph ctx kind from target event m
    erase-after_store graph ctx kind from target event m (err e) = refl

    erase-persist :
        (graph : TransitionGraph S E) (ctx : TransitContext D L S E P) (kind : EventKind)
        (from target : S) (event : E) (m : Machine (F × List (Call S E)) D L S P)
        (backend : Option (Persistency D S P))
        → erase_result (persist (traced c) graph ctx kind from target event m backend)
          ≡ persist c graph ctx kind from target event (erase m) backend
    unfolding persist
    erase-persist graph ctx kind from target event m none =
        erase-commit graph ctx kind from target event m
    erase-persist graph ctx kind from target event m (some backend) =
        let (store, stored) = backend.store m.store m.state.name target m.state.payload in
        erase-after_store graph ctx kind from target event (record m { store = store }) stored

    module _ (show_state : S → Text) (show_event : E → Text) (graph : TransitionGraph S E)
        (ctx : TransitContext D L S E P) where
      erase-settle :
          (targets : List S) (kind : EventKind) (from target : S) (event : E)
          (m : Machine (F × List (Call S E)) D L S P)
          → erase_result
              (settle (traced c) show_state show_event graph ctx targets kind from target event m)
            ≡ settle c show_state show_event graph ctx targets kind from target event (erase m)
      unfolding settle fail failure reenter enter set_error
      erase-settle targets kind from target event m =
          elim (Bool-cases (any (λ t. same t target) targets)) [
            | inl h ↦ rw h (erase-persist graph ctx kind from target event m ctx.persistency)
            | inr n ↦ rw n refl
          ]

      erase-decide :
          (targets : List S) (kind : EventKind) (from : S) (event : E)
          (m : Machine (F × List (Call S E)) D L S P) (result : TransitionResult S P)
          → erase_result
              (decide (traced c) show_state show_event graph ctx targets kind from event m result)
            ≡ decide c show_state show_event graph ctx targets kind from event (erase m) result
      unfolding decide fail failure reenter enter set_error
      erase-decide targets kind from event m (TransitionResult.ok target) =
          erase-settle targets kind from target event m
      erase-decide targets kind from event m (TransitionResult.ok_with_payload target payload) =
          erase-settle targets kind from target event
            (record m { state = record (m.state) { payload = payload } })
      erase-decide targets kind from event m (TransitionResult.error reason) = refl

      module _ ⦃eo : Ord E⦄ where
        erase-respond :
            (event : E) (event_payload : P) (m : Machine (F × List (Call S E)) D L S P)
            (row : Option (List S × EventKind))
            → erase_result
                (respond (traced c) show_state show_event graph ctx event event_payload m row)
              ≡ respond c show_state show_event graph ctx event event_payload (erase m) row
        unfolding respond attempt consult exit
        erase-respond event event_payload m none = ground arith
        erase-respond event event_payload m (some (targets, kind)) =
            let (m', result) = consult (traced c) event event_payload m in
            erase-decide targets kind m.state.current event m' result

        -- Recording the calls of the callbacks changes nothing else: without the record, the machine and
        -- the result are those of `transit` with the callbacks alone.
        pub erase-transit :
            (event : E) (event_payload : P) (m : Machine (F × List (Call S E)) D L S P)
            → erase_result
                (transit (traced c) show_state show_event graph m event event_payload ctx)
              ≡ transit c show_state show_event graph (erase m) event event_payload ctx
        unfolding transit
        erase-transit event event_payload m =
            erase-respond event event_payload m (allowed graph m.state.current event)
