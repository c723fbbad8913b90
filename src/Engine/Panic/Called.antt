-- ===== src/Engine/Panic/Called.antt =====
-- What a call of `transit` that may panic does to the user's `fsm` (finitomata/src/engine.rs), where the
-- callbacks but `on_transition` leave it alone.
use finitomata_rs.Base.{
  ◌≡◌, refl, ◌∙◌, subst, ◌⊎◌, inl, inr, Bool, true, false, ◌&&◌, Option, none, some, List, any,
  Result, ok, err, is_some, not, arith, if◌then◌else◌,
}
use finitomata_rs.Base.Ord.{Ord, same}
use finitomata_rs.Base.Text.{Text}
use finitomata_rs.Callbacks.{TransitionResult, Finitomata}
use finitomata_rs.Engine.{
  TransitContext, Machine, exit, enter, failure, terminate, reenter, fail, finish, notify, advance,
  commit, after_store, persist, settle, decide, respond,
}
use finitomata_rs.Engine.Panic.{
  Panicky, Ending, returned, panicked, left, on_answer, queried, unwound, caught, transit_caught,
}
use finitomata_rs.Error.{
  FinitomataError, PersistencyError, not_allowed, persistency, persistency_text,
}
use finitomata_rs.Listener.{Listener}
use finitomata_rs.Persistency.{Persistency}
use finitomata_rs.Transition.{EventKind, TransitionGraph, allowed, is_final}

pub record IsQuiet {F S E P : Type 0} (callbacks : Finitomata F S E P) : Type 0 where
  pub on_exit : (fsm : F) (s : S) (payload : P) → (callbacks.on_exit fsm s payload).0 ≡ fsm
  pub on_enter : (fsm : F) (s : S) (payload : P) → (callbacks.on_enter fsm s payload).0 ≡ fsm
  pub on_failure :
      (fsm : F) (event : E) (reason : FinitomataError) (payload : P)
      → (callbacks.on_failure fsm event reason payload).0 ≡ fsm
  pub on_terminate : (fsm : F) (payload : P) → (callbacks.on_terminate fsm payload).0 ≡ fsm

abbrev pub is_panic : {F D L S P : Type 0} → Ending F D L S P → Bool
is_panic (returned m r) = false
is_panic (panicked m) = true

module _ {F D L S E P : Type 0} (callbacks : Finitomata F S E P) (quiet : IsQuiet callbacks) where
  fsm-reenter :
      (m : Machine F D L S P) (from : S) (reason : FinitomataError)
      → (reenter callbacks m from reason).0.fsm ≡ m.fsm
  unfolding reenter enter
  fsm-reenter m from reason = quiet.on_enter m.fsm from m.state.payload

  fsm-fail :
      (m : Machine F D L S P) (from : S) (event : E) (reason : FinitomataError)
      → (fail callbacks m from event reason).0.fsm ≡ m.fsm
  unfolding fail failure
  fsm-fail m from event reason =
      fsm-reenter (failure callbacks m event reason) from reason
      ∙ quiet.on_failure m.fsm event reason m.state.payload

  fsm-finish :
      (kind : EventKind) (final : Bool) (m : Machine F D L S P)
      → (finish callbacks kind final m).0.fsm ≡ m.fsm
  unfolding finish terminate
  fsm-finish kind true m = quiet.on_terminate m.fsm m.state.payload
  fsm-finish kind false m = refl

  fsm-notify :
      (listener : Option (Listener L S E)) (m : Machine F D L S P) (from target : S) (event : E)
      → (notify callbacks listener m from target event).fsm ≡ m.fsm
  unfolding notify
  fsm-notify none m from target event = refl
  fsm-notify (some listener) m from target event = refl

  module _ ⦃so : Ord S⦄ (graph : TransitionGraph S E) (ctx : TransitContext D L S E P)
      (kind : EventKind) (from target : S) (event : E) where
    fsm-commit :
        (m : Machine F D L S P)
        → (commit callbacks graph ctx kind from target event m).0.fsm ≡ m.fsm
    unfolding commit advance enter
    fsm-commit m =
        let m' = notify callbacks ctx.listener (advance callbacks m target) from target event in
        fsm-finish kind (ctx.auto_terminate && is_final graph target) (enter callbacks m' target)
        ∙ quiet.on_enter m'.fsm target m'.state.payload
        ∙ fsm-notify ctx.listener (advance callbacks m target) from target event

    fsm-after_store :
        (m : Machine F D L S P) (stored : Result (Unit {0}) PersistencyError)
        → (after_store callbacks graph ctx kind from target event m stored).0.fsm ≡ m.fsm
    unfolding after_store
    fsm-after_store m (ok _) = fsm-commit m
    fsm-after_store m (err e) = fsm-reenter m from (persistency (persistency_text e))

    fsm-persist :
        (m : Machine F D L S P) (backend : Option (Persistency D S P))
        → (persist callbacks graph ctx kind from target event m backend).0.fsm ≡ m.fsm
    unfolding persist
    fsm-persist m none = fsm-commit m
    fsm-persist m (some backend) =
        let (store, stored) = backend.store m.store m.state.name target m.state.payload in
        fsm-after_store (record m { store = store }) stored

  module _ ⦃so : Ord S⦄ (show_state : S → Text) (show_event : E → Text)
      (graph : TransitionGraph S E) (ctx : TransitContext D L S E P) where
    fsm-either :
        (test : Bool) (kind : EventKind) (from target : S) (event : E) (reason : FinitomataError)
        (m : Machine F D L S P)
        → (if test
            then persist callbacks graph ctx kind from target event m ctx.persistency
            else fail callbacks m from event reason).0.fsm
          ≡ m.fsm
    fsm-either true kind from target event reason m =
        fsm-persist graph ctx kind from target event m ctx.persistency
    fsm-either false kind from target event reason m = fsm-fail m from event reason

    fsm-decide :
        (targets : List S) (kind : EventKind) (from : S) (event : E) (m : Machine F D L S P)
        (result : TransitionResult S P)
        → (decide callbacks show_state show_event graph ctx targets kind from event m result).0.fsm
          ≡ m.fsm
    unfolding decide settle
    fsm-decide targets kind from event m (TransitionResult.ok target) =
        fsm-either (any (λ t. same t target) targets) kind from target event
          (not_allowed (show_state from) (show_state target) (show_event event)) m
    fsm-decide targets kind from event m (TransitionResult.ok_with_payload target payload) =
        fsm-either (any (λ t. same t target) targets) kind from target event
          (not_allowed (show_state from) (show_state target) (show_event event))
          (record m { state = record (m.state) { payload = payload } })
    fsm-decide targets kind from event m (TransitionResult.error reason) =
        fsm-fail m from event reason

    module _ (on_transition : Panicky F S E P) where
      -- By the answer: a panic is where there is none, and what follows an answer leaves `fsm` alone.
      fsm-on_answer :
          (targets : List S) (kind : EventKind) (from : S) (event : E) (m : Machine F D L S P)
          (result : Option (TransitionResult S P))
          → let e =
              on_answer callbacks on_transition show_state show_event graph ctx targets kind from
                event m result in
            ((left e).fsm ≡ m.fsm) × (is_panic e ≡ not (is_some result))
      unfolding on_answer
      fsm-on_answer targets kind from event m none = (refl, refl)
      fsm-on_answer targets kind from event m (some result) =
          (fsm-decide targets kind from event m result, refl)

      -- Either `on_transition` was not called, or it was called once.
      abbrev pub Called : Machine F D L S P → E → P → Ending F D L S P → Type 0
      Called m event event_payload e =
          (((left e).fsm ≡ m.fsm) × (is_panic e ≡ false))
          ⊎ ((payload : P) × (let answer =
                  on_transition m.fsm m.state.current event event_payload payload in
                ((left e).fsm ≡ answer.0) × (is_panic e ≡ not (is_some answer.2))))

      module _ ⦃eo : Ord E⦄ where
        caught-Called :
            (m : Machine F D L S P) (event : E) (event_payload : P)
            (row : Option (List S × EventKind))
            → Called m event event_payload (
                caught callbacks on_transition show_state show_event graph ctx event event_payload m
                  row)
        unfolding caught unwound queried exit respond
        caught-Called m event event_payload none = inl (ground arith)
        caught-Called m event event_payload (some (targets, kind)) =
            let m1 = exit callbacks m m.state.current in
            let (m', result) =
              queried callbacks on_transition show_state show_event event event_payload m in
            let e =
              on_answer callbacks on_transition show_state show_event graph ctx targets kind
                m.state.current event m' result in
            inr (
              m1.state.payload,
              subst
                  (λ fsm.
                    let answer =
                      on_transition fsm m.state.current event event_payload m1.state.payload in
                    ((left e).fsm ≡ answer.0) × (is_panic e ≡ not (is_some answer.2)))
                  (quiet.on_exit m.fsm m.state.current m.state.payload)
                  (fsm-on_answer targets kind m.state.current event m' result),
            )

        pub transit_caught-Called :
            (m : Machine F D L S P) (event : E) (event_payload : P)
            → Called m event event_payload (
                transit_caught callbacks on_transition show_state show_event graph m event
                  event_payload ctx)
        unfolding transit_caught
        transit_caught-Called m event event_payload =
            caught-Called m event event_payload (allowed graph m.state.current event)
