-- ===== src/Engine/Kept.antt =====
-- Invariants of the user's data over `transit` (finitomata/src/engine.rs).
pub mod Law
use finitomata_rs.Base.{
  ℕ, suc, length, ◌≡◌, refl, sym, subst, Bool, true, false, Option, none, some, List, [], ◌∷◌, any,
  Result, ok, err, if◌then◌else◌,
}
use finitomata_rs.Base.Ord.{Ord, same}
use finitomata_rs.Base.Text.{Text}
use finitomata_rs.Callbacks.{TransitionResult, Finitomata}
use finitomata_rs.Engine.{
  TransitContext, TransitOutcome, Machine, exit, consult, enter, failure, terminate, reenter, fail,
  finish, notify, advance, commit, after_store, persist, settle, decide, attempt, respond, transit,
  is_soft_event, soft_skipped,
}
use finitomata_rs.Engine.Bounded.{transit_all}
use finitomata_rs.Error.{FinitomataError, not_allowed, not_responds}
use finitomata_rs.Listener.{Listener}
use finitomata_rs.Persistency.{Persistency}
use finitomata_rs.State.{clear_error, transition_to, set_error}
use finitomata_rs.Transition.{EventKind, TransitionGraph, allowed}
pub use finitomata_rs.Engine.Kept.Law.{Accepts, Answered, Answered-row, IsKept}

module _ {F D L S E P : Type 0} ⦃so : Ord S⦄ ⦃eo : Ord E⦄ (callbacks : Finitomata F S E P)
    (show_state : S → Text) (show_event : E → Text) (graph : TransitionGraph S E)
    (ctx : TransitContext D L S E P) (before after : S → F → P → Type 0)
    (kept : IsKept callbacks graph before after) where
  -- The machine is in that state, and the invariant holds there.
  abbrev Holds : S → Machine F D L S P → Type 0
  Holds s m = (m.state.current ≡ s) × after s m.fsm m.state.payload

  Holds-reenter :
      (from : S) (m : Machine F D L S P) (reason : FinitomataError)
      → Holds from m
      → Holds from (reenter callbacks m from reason).0
  unfolding reenter enter set_error
  Holds-reenter from m reason (e, h) = (e, kept.on_enter from m.fsm m.state.payload h)

  Holds-fail :
      (from : S) (m : Machine F D L S P) (event : E) (reason : FinitomataError)
      → Holds from m
      → Holds from (fail callbacks m from event reason).0
  unfolding fail failure
  Holds-fail from m event reason (e, h) =
      Holds-reenter from (failure callbacks m event reason) reason
        (e, kept.on_failure from m.fsm event reason m.state.payload h)

  Holds-finish :
      (target : S) (m : Machine F D L S P) (kind : EventKind) (final : Bool)
      → Holds target m
      → Holds target (finish callbacks kind final m).0
  unfolding finish terminate
  Holds-finish target m kind true (e, h) = (e, kept.on_terminate target m.fsm m.state.payload h)
  Holds-finish target m kind false h = h

  Holds-notify :
      (s : S) (m : Machine F D L S P) (listener : Option (Listener L S E)) (from target : S)
      (event : E)
      → Holds s m
      → Holds s (notify callbacks listener m from target event)
  unfolding notify
  Holds-notify s m none from target event h = h
  Holds-notify s m (some l) from target event h = h

  Holds-commit :
      (from target : S) (m : Machine F D L S P) (kind : EventKind) (event : E)
      → after target m.fsm m.state.payload
      → Holds target (commit callbacks graph ctx kind from target event m).0
  unfolding commit advance enter transition_to clear_error
  Holds-commit from target m kind event h =
      let (e, h') =
        Holds-notify target (advance callbacks m target) ctx.listener from target event (refl, h) in
      Holds-finish target _ kind _ (e, kept.on_enter target _ _ h')

  Holds-persist :
      (from target : S) (m : Machine F D L S P) (kind : EventKind) (event : E)
      (backend : Option (Persistency D S P))
      → Accepts backend
      → after target m.fsm m.state.payload
      → Holds target (persist callbacks graph ctx kind from target event m backend).0
  unfolding persist after_store
  Holds-persist from target m kind event none accepts h = Holds-commit from target m kind event h
  Holds-persist from target m kind event (some backend) accepts h =
      rw (accepts m.store m.state.name target m.state.payload) (
        Holds-commit from target
          (record m { store = (backend.store m.store m.state.name target m.state.payload).0 }) kind
          event h)

  -- The invariant of the new state, or of the old one where nothing moved.
  abbrev Remains : Machine F D L S P → Type 0
  Remains m = after m.state.current m.fsm m.state.payload

  Remains-Holds : (s : S) (m : Machine F D L S P) → Holds s m → Remains m
  Remains-Holds s m (e, h) = subst (λ c. after c m.fsm m.state.payload) (sym e) h

  module _ (accepts : Accepts ctx.persistency) where
    -- The two ends of a target, by the test on it.
    Remains-if :
        (test : Bool) (from target : S) (m : Machine F D L S P) (kind : EventKind) (event : E)
        (reason : FinitomataError)
        → m.state.current ≡ from
        → (if test then after target m.fsm m.state.payload else after from m.fsm m.state.payload)
        → Remains
            (if test
              then persist callbacks graph ctx kind from target event m ctx.persistency
              else fail callbacks m from event reason).0
    Remains-if true from target m kind event reason e h =
        Remains-Holds target
          (persist callbacks graph ctx kind from target event m ctx.persistency).0
          (Holds-persist from target m kind event ctx.persistency accepts h)
    Remains-if false from target m kind event reason e h =
        Remains-Holds from (fail callbacks m from event reason).0
          (Holds-fail from m event reason (e, h))

    Remains-decide :
        (from : S) (m : Machine F D L S P) (targets : List S) (kind : EventKind) (event : E)
        (result : TransitionResult S P)
        → m.state.current ≡ from
        → Answered after from targets m.fsm m.state.payload result
        → Remains
            (decide callbacks show_state show_event graph ctx targets kind from event m result).0
    unfolding decide settle
    Remains-decide from m targets kind event (TransitionResult.ok target) e h =
        Remains-if (any (λ t. same t target) targets) from target m kind event
          (not_allowed (show_state from) (show_state target) (show_event event)) e h
    Remains-decide from m targets kind event (TransitionResult.ok_with_payload target payload) e h =
        Remains-if (any (λ t. same t target) targets) from target
          (record m { state = record (m.state) { payload = payload } }) kind event
          (not_allowed (show_state from) (show_state target) (show_event event)) e h
    Remains-decide from m targets kind event (TransitionResult.error reason) e h =
        Remains-Holds from (fail callbacks m from event reason).0
          (Holds-fail from m event reason (e, h))

    Remains-skip :
        (m : Machine F D L S P) (r r' : Result TransitOutcome FinitomataError) (soft : Bool)
        → before m.state.current m.fsm m.state.payload
        → Remains
            (if◌then◌else◌ {A = Machine F D L S P × Result TransitOutcome FinitomataError} soft
              (m, r)
              (m, r')).0
    Remains-skip m r r' true h = kept.weaker m.state.current m.fsm m.state.payload h
    Remains-skip m r r' false h = kept.weaker m.state.current m.fsm m.state.payload h

    Remains-respond :
        (m : Machine F D L S P) (event : E) (event_payload : P) (row : Option (List S × EventKind))
        → allowed graph m.state.current event ≡ row
        → before m.state.current m.fsm m.state.payload
        → Remains (respond callbacks show_state show_event graph ctx event event_payload m row).0
    unfolding respond attempt consult exit
    Remains-respond m event event_payload none e h =
        Remains-skip m (ok soft_skipped)
          (err (not_responds (show_state m.state.current) (show_event event)))
          (is_soft_event graph event) h
    Remains-respond m event event_payload (some (targets, kind)) e h =
        let from = m.state.current in
        let (fsm, payload) = callbacks.on_exit m.fsm from m.state.payload in
        Remains-decide from (consult callbacks event event_payload m).0 targets kind event
          (callbacks.on_transition fsm from event event_payload payload).2 refl
          (kept.answer from fsm event event_payload payload targets kind e
            (kept.on_exit from m.fsm m.state.payload h))

    pub transit-Remains :
        (m : Machine F D L S P) (event : E) (event_payload : P)
        → before m.state.current m.fsm m.state.payload
        → Remains (transit callbacks show_state show_event graph m event event_payload ctx).0
    unfolding transit
    transit-Remains m event event_payload h =
        Remains-respond m event event_payload (allowed graph m.state.current event) refl h

module _ {F D L S E P : Type 0} ⦃so : Ord S⦄ ⦃eo : Ord E⦄ (callbacks : Finitomata F S E P)
    (show_state : S → Text) (show_event : E → Text) (graph : TransitionGraph S E)
    (ctx : TransitContext D L S E P) (inv : ℕ → S → F → P → Type 0) where
  pub transit_all-Remains :
      (m : Machine F D L S P) (events : List (E × P))
      → ((n : ℕ) → IsKept callbacks graph (inv (suc n)) (inv n))
      → Accepts ctx.persistency
      → inv (length events) m.state.current m.fsm m.state.payload
      → let m' = transit_all callbacks show_state show_event graph ctx m events in
        inv 0 m'.state.current m'.fsm m'.state.payload
  transit_all-Remains m [] kept accepts h = h
  transit_all-Remains m ((event, event_payload) ∷ rest) kept accepts h =
      let m' = (transit callbacks show_state show_event graph m event event_payload ctx).0 in
      transit_all-Remains m' rest kept accepts (
        transit-Remains callbacks show_state show_event graph ctx (inv (suc (length rest)))
          (inv (length rest)) (kept (length rest)) accepts m event event_payload h)
