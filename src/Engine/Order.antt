-- ===== src/Engine/Order.antt =====
-- The documented callback sequence of `transit` (finitomata/src/engine.rs), read off the recorded
-- calls.
use mathlib.Core.List.{append_assoc}
use finitomata_rs.Base.{
  ◌≡◌, refl, sym, ap, ◌∙◌, ◌⊎◌, inl, inr, Bool, true, false, ◌&&◌, Option, none, some, List, [],
  ◌∷◌, ◌++◌, any, Result, ok, err, arith, Bool-cases,
}
use finitomata_rs.Base.Ord.{Ord, same}
use finitomata_rs.Base.Text.{Text}
use finitomata_rs.Callbacks.{TransitionResult, Finitomata}
use finitomata_rs.Engine.{
  TransitContext, TransitOutcome, auto_terminate, Machine, exit, consult, enter, failure, terminate,
  reenter, fail, finish, notify, advance, commit, after_store, persist, settle, decide, attempt,
  respond, transit,
}
use finitomata_rs.Engine.Trace.{Call, exited, entered, chose, failed, ended, traced}
use finitomata_rs.Error.{FinitomataError, PersistencyError, persistency, persistency_text}
use finitomata_rs.Listener.{Listener}
use finitomata_rs.Persistency.{Persistency}
use finitomata_rs.State.{clear_error, transition_to, set_error}
use finitomata_rs.Transition.{EventKind, TransitionGraph, allowed, is_final}

module _ {D L S E P : Type 0} where
  -- The backend of the context refused a write, and this is the error that came of it.
  abbrev pub IsRefused : TransitContext D L S E P → FinitomataError → Type 0
  IsRefused ctx e =
      (backend : Persistency D S P) × (store : D) × (name : Text) × (target : S) × (payload : P)
      × (why : PersistencyError) × (ctx.persistency ≡ some backend)
      × ((backend.store store name target payload).1 ≡ err why)
      × (e ≡ persistency (persistency_text why))

-- `on_terminate` comes last, and only where the machine ends.
abbrev pub ending : {S E : Type 0} → TransitOutcome → List (Call S E)
ending auto_terminate = ended ∷ []
ending _ = []

module _ {F D L S E P : Type 0} where
  -- The calls of an attempt, from `exited` on.
  abbrev pub Ordered :
      TransitContext D L S E P
      → S
      → E
      → List (Call S E)
      → Machine (F × List (Call S E)) D L S P × Result TransitOutcome FinitomataError
      → Type 0
  Ordered ctx from event before (m', ok o) =
      m'.fsm.1 ≡ before ++ exited from ∷ chose from event ∷ entered m'.state.current ∷ ending o
  Ordered ctx from event before (m', err e) =
      (m'.fsm.1 ≡ before ++ exited from ∷ chose from event ∷ failed event e ∷ entered from ∷ [])
      ⊎ (m'.fsm.1 ≡ before ++ exited from ∷ chose from event ∷ entered from ∷ []) × IsRefused ctx e

  module _ (c : Finitomata F S E P) ⦃so : Ord S⦄ (ctx : TransitContext D L S E P) (event : E)
      (before : List (Call S E)) where
    Ordered-fail :
        (from : S) (m : Machine (F × List (Call S E)) D L S P) (reason : FinitomataError)
        → m.fsm.1 ≡ before ++ exited from ∷ chose from event ∷ []
        → Ordered ctx from event before (fail (traced c) m from event reason)
    unfolding fail failure reenter enter set_error
    Ordered-fail from m reason h = inl (simp (h, append_assoc))

    -- The calls so far: the old state was left, and the target was chosen.
    abbrev Consulted : S → Machine (F × List (Call S E)) D L S P → Type 0
    Consulted from m = m.fsm.1 ≡ before ++ exited from ∷ chose from event ∷ []

    fsm-notify :
        (listener : Option (Listener L S E)) (m : Machine (F × List (Call S E)) D L S P)
        (from target : S)
        → ((notify (traced c) listener m from target event).fsm ≡ m.fsm)
          × ((notify (traced c) listener m from target event).state ≡ m.state)
    unfolding notify
    fsm-notify none m from target = (refl, refl)
    fsm-notify (some listener) m from target = (refl, refl)

    Ordered-finish :
        (kind : EventKind) (b : Bool) (from : S) (m : Machine (F × List (Call S E)) D L S P)
        → m.fsm.1 ≡ before ++ exited from ∷ chose from event ∷ entered m.state.current ∷ []
        → Ordered ctx from event before (finish (traced c) kind b m)
    unfolding finish terminate
    Ordered-finish kind true from m h = simp (h, append_assoc)
    Ordered-finish EventKind.hard false from m h = h
    Ordered-finish EventKind.soft false from m h = h
    Ordered-finish EventKind.normal false from m h = h

    append-entered :
        (from target current : S) (calls : List (Call S E))
        → calls ≡ before ++ exited from ∷ chose from event ∷ []
        → current ≡ target
        → calls ++ entered target ∷ []
          ≡ before ++ exited from ∷ chose from event ∷ entered current ∷ []
    append-entered from target current calls h e =
        ap (λ l. l ++ entered target ∷ []) h
        ∙ append_assoc before _ _
        ∙ ap (λ s. before ++ exited from ∷ chose from event ∷ entered s ∷ []) (sym e)

    Ordered-commit :
        (graph : TransitionGraph S E) (kind : EventKind) (from target : S)
        (m : Machine (F × List (Call S E)) D L S P)
        → Consulted from m
        → Ordered ctx from event before (commit (traced c) graph ctx kind from target event m)
    unfolding commit advance enter clear_error transition_to
    Ordered-commit graph kind from target m h =
        Ordered-finish kind (ctx.auto_terminate && is_final graph target) from _ (
          let (f, st) = fsm-notify ctx.listener (advance (traced c) m target) from target in
          append-entered from target _ _ (ap (λ f. f.1) f ∙ h) (ap (λ st. st.current) st))

    Ordered-reenter :
        (from : S) (m : Machine (F × List (Call S E)) D L S P) (why : PersistencyError)
        → Consulted from m
        → IsRefused ctx (persistency (persistency_text why))
        → Ordered ctx from event before
            (reenter (traced c) m from (persistency (persistency_text why)))
    unfolding reenter enter set_error
    Ordered-reenter from m why h refused = inr (simp (h, append_assoc), refused)

    Ordered-after_store :
        (graph : TransitionGraph S E) (kind : EventKind) (from target : S)
        (m : Machine (F × List (Call S E)) D L S P) (stored : Result (Unit {0}) PersistencyError)
        → Consulted from m
        → ((why : PersistencyError)
            → stored ≡ err why
            → IsRefused ctx (persistency (persistency_text why)))
        → Ordered ctx from event before
            (after_store (traced c) graph ctx kind from target event m stored)
    unfolding after_store
    Ordered-after_store graph kind from target m (ok _) h refused =
        Ordered-commit graph kind from target m h
    Ordered-after_store graph kind from target m (err why) h refused =
        Ordered-reenter from m why h (refused why refl)

    Ordered-persist :
        (graph : TransitionGraph S E) (kind : EventKind) (from target : S)
        (m : Machine (F × List (Call S E)) D L S P) (backend : Option (Persistency D S P))
        → ctx.persistency ≡ backend
        → Consulted from m
        → Ordered ctx from event before
            (persist (traced c) graph ctx kind from target event m backend)
    unfolding persist
    Ordered-persist graph kind from target m none e h = Ordered-commit graph kind from target m h
    Ordered-persist graph kind from target m (some backend) e h =
        let (store, stored) = backend.store m.store m.state.name target m.state.payload in
        Ordered-after_store graph kind from target (record m { store = store }) stored h
          (λ why w. (backend, m.store, m.state.name, target, m.state.payload, why, e, w, refl))

    module _ (show_state : S → Text) (show_event : E → Text) (graph : TransitionGraph S E)
        (targets : List S) (kind : EventKind) (from : S) where
      Ordered-settle :
          (target : S) (m : Machine (F × List (Call S E)) D L S P)
          → Consulted from m
          → Ordered ctx from event before
              (settle (traced c) show_state show_event graph ctx targets kind from target event m)
      unfolding settle
      Ordered-settle target m h = elim (Bool-cases (any (λ t. same t target) targets)) [
        | inl e ↦ rw e (Ordered-persist graph kind from target m ctx.persistency refl h)
        | inr n ↦ rw n (Ordered-fail from m _ h)
      ]

      Ordered-decide :
          (m : Machine (F × List (Call S E)) D L S P) (result : TransitionResult S P)
          → Consulted from m
          → Ordered ctx from event before
              (decide (traced c) show_state show_event graph ctx targets kind from event m result)
      unfolding decide
      Ordered-decide m (TransitionResult.ok target) h = Ordered-settle target m h
      Ordered-decide m (TransitionResult.ok_with_payload target payload) h =
          Ordered-settle target (record m { state = record (m.state) { payload = payload } }) h
      Ordered-decide m (TransitionResult.error reason) h = Ordered-fail from m reason h

module _ {F D L S E P : Type 0} (c : Finitomata F S E P) ⦃so : Ord S⦄ ⦃eo : Ord E⦄ where
  -- The calls of `transit`, by what `allowed` answers.
  abbrev pub Called :
      TransitContext D L S E P
      → E
      → Machine (F × List (Call S E)) D L S P
      → Option (List S × EventKind)
      → Machine (F × List (Call S E)) D L S P × Result TransitOutcome FinitomataError
      → Type 0
  Called ctx event m (some _) r = Ordered ctx m.state.current event m.fsm.1 r
  Called ctx event m none r = r.0.fsm.1 ≡ m.fsm.1

  respond-Called :
      (show_state : S → Text) (show_event : E → Text) (graph : TransitionGraph S E)
      (ctx : TransitContext D L S E P) (event : E) (event_payload : P)
      (m : Machine (F × List (Call S E)) D L S P) (row : Option (List S × EventKind))
      → Called ctx event m row
          (respond (traced c) show_state show_event graph ctx event event_payload m row)
  unfolding respond attempt consult exit
  respond-Called show_state show_event graph ctx event event_payload m none = ground arith
  respond-Called show_state show_event graph ctx event event_payload m (some (targets, kind)) =
      let (m', result) = consult (traced c) event event_payload m in
      Ordered-decide c ctx event m.fsm.1 show_state show_event graph targets kind m.state.current m'
        result (simp append_assoc)

  -- The callbacks of `transit` come in the documented order. Let the implementation record its calls
  -- behind those it had. An event without a transition calls nothing. For any other the new calls are
  -- `on_exit` of the old state and `on_transition` from it with the event, and then: on success
  -- `on_enter` of the new state, and `on_terminate` after it exactly if the outcome is
  -- `AutoTerminate`; on an error `on_failure` with that error and `on_enter` of the old state again,
  -- without `on_failure` only where the backend refused the write.
  pub transit-Called :
      (show_state : S → Text) (show_event : E → Text) (graph : TransitionGraph S E)
      (ctx : TransitContext D L S E P) (event : E) (event_payload : P)
      (m : Machine (F × List (Call S E)) D L S P)
      → Called ctx event m
          (allowed graph m.state.current event)
          (transit (traced c) show_state show_event graph m event event_payload ctx)
  unfolding transit
  transit-Called show_state show_event graph ctx event event_payload m =
      respond-Called show_state show_event graph ctx event event_payload m
        (allowed graph m.state.current event)
