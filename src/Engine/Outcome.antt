-- ===== src/Engine/Outcome.antt =====
-- What `transit` (finitomata/src/engine.rs) leaves behind, on every branch: a move along the graph, or
-- a state that stays where it was.
use finitomata_rs.Base.{
  ◌≡◌, subst, inl, inr, true, ◌&&◌, Option, none, some, List, any, Result, ok, err, if◌then◌else◌,
  arith, Bool-cases,
}
use finitomata_rs.Base.Ord.{Ord, same}
use finitomata_rs.Base.Text.{Text}
use finitomata_rs.Callbacks.{TransitionResult, Finitomata}
use finitomata_rs.Engine.{
  TransitContext, TransitOutcome, soft_skipped, transitioned, auto_terminate, hard_continue,
  Machine, exit, consult, enter, failure, terminate, reenter, fail, finish, notify, advance, commit,
  after_store, persist, settle, decide, attempt, is_soft_event, respond, transit,
}
use finitomata_rs.Error.{
  FinitomataError, PersistencyError, persistency, persistency_text, not_responds,
}
use finitomata_rs.Persistency.{Persistency}
use finitomata_rs.State.{running, terminated, push, set_error, clear_error, transition_to}
use finitomata_rs.Transition.{EventKind, TransitionGraph, is_hard, allowed, is_final}

module _ {F D L S P : Type 0} where
  -- The state stays where it was, and the listener hears nothing.
  pub record Stays (m m' : Machine F D L S P) : Type 0 where
    pub name : m'.state.name ≡ m.state.name
    pub current : m'.state.current ≡ m.state.current
    pub history : m'.state.history ≡ m.state.history
    pub lifecycle : m'.state.lifecycle ≡ m.state.lifecycle
    pub log : m'.log ≡ m.log

module _ {F D L S E P : Type 0} ⦃so : Ord S⦄ where
  -- The state moves to an allowed target: the history has it, the error is cleared, the listener was
  -- told once, and the lifecycle and the outcome say whether the machine ended there.
  pub record Moves (graph : TransitionGraph S E) (ctx : TransitContext D L S E P) (targets : List S)
      (kind : EventKind) (event : E) (m m' : Machine F D L S P) (outcome : TransitOutcome)
      : Type 0 where
    pub name : m'.state.name ≡ m.state.name
    pub target : any (λ t. same t m'.state.current) targets ≡ true
    pub history : m'.state.history ≡ push m.state.history m'.state.current
    pub error : m'.state.last_error ≡ none
    pub lifecycle :
        m'.state.lifecycle
        ≡ (if ctx.auto_terminate && is_final graph m'.state.current then terminated else running)
    pub outcome_lem : outcome ≡ (
        if ctx.auto_terminate && is_final graph m'.state.current
        then auto_terminate
        else (if is_hard kind then hard_continue else transitioned))
    pub log : m'.log ≡ elim ctx.listener [
      | none ↦ m.log
      | some l ↦ l.on_transition m.log m.state.name m.state.current m'.state.current event
    ]

  module _ (callbacks : Finitomata F S E P) where
    enter-Stays : (m : Machine F D L S P) (state : S) → Stays m (enter callbacks m state)
    unfolding enter
    enter-Stays m state = ground arith

    consult-Stays :
        (event : E) (event_payload : P) (m : Machine F D L S P)
        → Stays m (consult callbacks event event_payload m).0
    unfolding consult exit
    consult-Stays event event_payload m = ground arith

    fail-Stays :
        (m : Machine F D L S P) (from : S) (event : E) (reason : FinitomataError)
        → let (m', r) = fail callbacks m from event reason in
          Stays m m' × (m'.state.last_error ≡ some reason) × (r ≡ err reason)
    unfolding fail failure reenter enter set_error
    fail-Stays m from event reason = ground arith

    reenter-Stays :
        (m : Machine F D L S P) (from : S) (reason : FinitomataError)
        → let (m', r) = reenter callbacks m from reason in
          Stays m m' × (m'.state.last_error ≡ some reason) × (r ≡ err reason)
    unfolding reenter enter set_error
    reenter-Stays m from reason = ground arith

    commit-Moves :
        (graph : TransitionGraph S E) (ctx : TransitContext D L S E P) (targets : List S)
        (kind : EventKind) (target : S) (event : E) (m0 m : Machine F D L S P)
        → Stays m0 m
        → any (λ t. same t target) targets ≡ true
        → let (m', r) = commit callbacks graph ctx kind m0.state.current target event m in
          (o : TransitOutcome) × (r ≡ ok o) × Moves graph ctx targets kind event m0 m' o
    unfolding commit finish notify advance enter clear_error transition_to terminate
    commit-Moves graph ctx targets kind target event m0 m s h = (
      if ctx.auto_terminate && is_final graph target
          then auto_terminate
          else (if is_hard kind then hard_continue else transitioned),
      ground arith,
      ground arith,
    )

    -- The two ways in which an attempt ends.
    abbrev pub Attempted :
        TransitionGraph S E
        → TransitContext D L S E P
        → List S
        → EventKind
        → E
        → Machine F D L S P
        → Machine F D L S P × Result TransitOutcome FinitomataError
        → Type 0
    Attempted graph ctx targets kind event m0 (m', ok o) =
        Moves graph ctx targets kind event m0 m' o
    Attempted graph ctx targets kind event m0 (m', err e) =
        Stays m0 m' × (m'.state.last_error ≡ some e)

    module _ (graph : TransitionGraph S E) (ctx : TransitContext D L S E P) (targets : List S)
        (kind : EventKind) (event : E) (m0 : Machine F D L S P) where
      Moves-Attempted :
          (r : Machine F D L S P × Result TransitOutcome FinitomataError)
          → (o : TransitOutcome) × (r.1 ≡ ok o) × Moves graph ctx targets kind event m0 r.0 o
          → Attempted graph ctx targets kind event m0 r
      Moves-Attempted (m', ok o) (o', e, h) =
          subst (Moves graph ctx targets kind event m0 m') (cc) h
      Moves-Attempted (m', err e') (o', e, h) = cc

      Stays-Attempted :
          (m : Machine F D L S P) (r : Machine F D L S P × Result TransitOutcome FinitomataError)
          (reason : FinitomataError)
          → Stays m0 m
          → Stays m r.0 × (r.0.state.last_error ≡ some reason) × (r.1 ≡ err reason)
          → Attempted graph ctx targets kind event m0 r
      Stays-Attempted m (m', ok o) reason s h = cc
      Stays-Attempted m (m', err e) reason s h = ground arith

      after_store-Attempted :
          (target : S) (m : Machine F D L S P) (stored : Result (Unit {0}) PersistencyError)
          → Stays m0 m
          → any (λ t. same t target) targets ≡ true
          → Attempted graph ctx targets kind event m0
              (after_store callbacks graph ctx kind m0.state.current target event m stored)
      unfolding after_store
      after_store-Attempted target m (ok _) s h =
          Moves-Attempted _ (commit-Moves graph ctx targets kind target event m0 m s h)
      after_store-Attempted target m (err e) s h =
          Stays-Attempted m _ _ s
            (reenter-Stays m m0.state.current (persistency (persistency_text e)))

      persist-Attempted :
          (target : S) (m : Machine F D L S P) (backend : Option (Persistency D S P))
          → Stays m0 m
          → any (λ t. same t target) targets ≡ true
          → Attempted graph ctx targets kind event m0
              (persist callbacks graph ctx kind m0.state.current target event m backend)
      unfolding persist
      persist-Attempted target m none s h =
          Moves-Attempted _ (commit-Moves graph ctx targets kind target event m0 m s h)
      persist-Attempted target m (some backend) s h =
          let (store, stored) = backend.store m.store m.state.name target m.state.payload in
          after_store-Attempted target (record m { store = store }) stored (ground arith) h

    module _ (show_state : S → Text) (show_event : E → Text) (graph : TransitionGraph S E)
        (ctx : TransitContext D L S E P) (targets : List S) (kind : EventKind) (event : E)
        (m0 : Machine F D L S P) where
      settle-Attempted :
          (target : S) (m : Machine F D L S P)
          → Stays m0 m
          → Attempted graph ctx targets kind event m0 (
              settle callbacks show_state show_event graph ctx targets kind m0.state.current target
                event m)
      unfolding settle
      settle-Attempted target m s = elim (Bool-cases (any (λ t. same t target) targets)) [
        | inl h ↦
            rw h (persist-Attempted graph ctx targets kind event m0 target m ctx.persistency s h)
        | inr n ↦ rw n (
            Stays-Attempted graph ctx targets kind event m0 m _ _ s
              (fail-Stays m m0.state.current event _))
      ]

      decide-Attempted :
          (m : Machine F D L S P) (result : TransitionResult S P)
          → Stays m0 m
          → Attempted graph ctx targets kind event m0 (
              decide callbacks show_state show_event graph ctx targets kind m0.state.current event m
                result)
      unfolding decide
      decide-Attempted m (TransitionResult.ok target) s = settle-Attempted target m s
      decide-Attempted m (TransitionResult.ok_with_payload target payload) s =
          settle-Attempted target (record m { state = record (m.state) { payload = payload } })
            (ground arith)
      decide-Attempted m (TransitionResult.error reason) s =
          Stays-Attempted graph ctx targets kind event m0 m _ reason s
            (fail-Stays m m0.state.current event reason)

      attempt-Attempted :
          (event_payload : P)
          → Attempted graph ctx targets kind event m0 (
              attempt callbacks show_state show_event graph ctx targets kind event event_payload m0)
      unfolding attempt
      attempt-Attempted event_payload =
          let (m', result) = consult callbacks event event_payload m0 in
          decide-Attempted m' result (consult-Stays event event_payload m0)

module _ {F D L S E P : Type 0} ⦃so : Ord S⦄ ⦃eo : Ord E⦄ (callbacks : Finitomata F S E P) where
  -- All that `transit` can do, by what `allowed` answers: attempt a transition, skip a soft event, or
  -- refuse the event.
  abbrev pub Transited :
      (S → Text)
      → (E → Text)
      → TransitionGraph S E
      → TransitContext D L S E P
      → E
      → Machine F D L S P
      → Option (List S × EventKind)
      → Machine F D L S P × Result TransitOutcome FinitomataError
      → Type 0
  Transited show_state show_event graph ctx event m (some (targets, kind)) r =
      Attempted callbacks graph ctx targets kind event m r
  Transited show_state show_event graph ctx event m none r =
      (r.0 ≡ m)
      × (r.1 ≡ (
          if is_soft_event graph event
          then ok soft_skipped
          else err (not_responds (show_state m.state.current) (show_event event))))

  respond-Transited :
      (show_state : S → Text) (show_event : E → Text) (graph : TransitionGraph S E)
      (ctx : TransitContext D L S E P) (event : E) (event_payload : P) (m : Machine F D L S P)
      (row : Option (List S × EventKind))
      → Transited show_state show_event graph ctx event m row
          (respond callbacks show_state show_event graph ctx event event_payload m row)
  unfolding respond
  respond-Transited show_state show_event graph ctx event event_payload m none = ground arith
  respond-Transited show_state show_event graph ctx event event_payload m (some (targets, kind)) =
      attempt-Attempted callbacks show_state show_event graph ctx targets kind event m event_payload

  -- `transit` keeps to the graph. An event to which the state has no transition changes nothing: it is
  -- skipped if it is soft in some transition of the graph, and is the error `NotResponds` else. Any
  -- other ends in one of two ways. On success the state is an allowed target of the old one, the
  -- history is the old one with that visit, the error is cleared, the listener was told once, and the
  -- lifecycle is `Terminated` with the outcome `AutoTerminate` exactly if auto-termination is on and
  -- the target is final, and `Running` else. On an error, whatever its cause, the current state, the
  -- history, the lifecycle and what the listener wrote stay as they were, and the error is recorded.
  pub transit-Transited :
      (show_state : S → Text) (show_event : E → Text) (graph : TransitionGraph S E)
      (ctx : TransitContext D L S E P) (event : E) (event_payload : P) (m : Machine F D L S P)
      → Transited show_state show_event graph ctx event m
          (allowed graph m.state.current event)
          (transit callbacks show_state show_event graph m event event_payload ctx)
  unfolding transit
  transit-Transited show_state show_event graph ctx event event_payload m =
      respond-Transited show_state show_event graph ctx event event_payload m
        (allowed graph m.state.current event)
