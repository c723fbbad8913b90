-- ===== src/Actor/Recovered.antt =====
-- The start of an actor that has a record to recover (`started` of finitomata/src/supervisor.rs), and
-- the recovery of what `transit` (finitomata/src/engine.rs) has stored.
use finitomata_rs.Base.{
  ℕ, ◌≡◌, refl, sym, subst, ap, ◌∙◌, List, Bool, true, false, Option, none, some, if◌then◌else◌,
  Result, ok,
}
use finitomata_rs.Base.Ord.{Ord, same_refl, nat_ord, list_ord}
use finitomata_rs.Base.Text.{Text}
use finitomata_rs.Actor.{
  FsmActor, Effect, unregister, register, find_hard, emit, with_lifecycle, arm, enlist, hard_event,
  cached, resurrect, reload, restore, recover, do_transition, started,
}
use finitomata_rs.Actor.Started.{resume-none}
use finitomata_rs.Cache.{get, update}
use finitomata_rs.Callbacks.{Finitomata}
use finitomata_rs.DashMap.{DashMap, IsLawful}
use finitomata_rs.Engine.{TransitContext, TransitOutcome, Machine, enter, transit}
use finitomata_rs.Engine.Persisted.{IsPersisted, Recorded, Persists, transit-Recorded}
use finitomata_rs.Error.{FinitomataError}
use finitomata_rs.Persistency.{Persistency}
use finitomata_rs.Persistency.Memory.{in_memory}
use finitomata_rs.State.{FsmState, Lifecycle, running, new_state, new_history, history_size, push}
use finitomata_rs.Transition.{EventKind, TransitionGraph, events_for, allowed}

module _ {F D L S E P M : Type 0} ⦃so : Ord S⦄ (callbacks : Finitomata F S E P)
    (dash : DashMap M Text (FsmState S P)) where
  -- The actor `a'` is `a`, started from the record with the state `s` and the payload `p`: it is a
  -- running machine in that state with a new history, `on_start` and then `on_enter` were called, and
  -- the cache has it.
  pub record IsRecovered (a : FsmActor F D L S E P M) (s : S) (p : P) (a' : FsmActor F D L S E P M)
      : Type 0 where
    pub graph : a'.graph ≡ a.graph
    pub current : a'.machine.state.current ≡ s
    pub lifecycle : a'.machine.state.lifecycle ≡ running
    pub history : a'.machine.state.history ≡ push (new_history history_size) s
    pub called :
        let (fsm, payload) = callbacks.on_start a.machine.fsm p in
        let (fsm', payload') = callbacks.on_enter fsm s payload in
        (a'.machine.fsm ≡ fsm') × (a'.machine.state.payload ≡ payload')
    pub cached_lem : get dash a'.cache a.name ≡ some a'.machine.state

  emit-IsRecovered :
      (a a' : FsmActor F D L S E P M) (s : S) (p : P) (effect : Effect)
      → IsRecovered a s p a'
      → IsRecovered a s p (emit a' effect)
  unfolding emit
  emit-IsRecovered a a' s p effect h = record {
    graph = h.graph;
    current = h.current;
    lifecycle = h.lifecycle;
    history = h.history;
    called = h.called;
    cached_lem = h.cached_lem;
  }

  arm-IsRecovered :
      (a a' : FsmActor F D L S E P M) (s : S) (p : P) (timer : Option ℕ)
      → IsRecovered a s p a'
      → IsRecovered a s p (arm a' timer)
  unfolding arm
  arm-IsRecovered a a' s p none h = h
  arm-IsRecovered a a' s p (some interval) h = emit-IsRecovered a a' s p _ h

  enlist-IsRecovered :
      (a a' : FsmActor F D L S E P M) (s : S) (p : P) (b : Bool)
      → IsRecovered a s p a'
      → IsRecovered a s p (if b then emit (emit a' (unregister a'.name)) (register a'.name) else a')
  enlist-IsRecovered a a' s p true h = emit-IsRecovered a _ s p _ (emit-IsRecovered a a' s p _ h)
  enlist-IsRecovered a a' s p false h = h

  module _ (laws : IsLawful dash) where
    resurrect-IsRecovered :
        (a : FsmActor F D L S E P M) (s : S) (p : P)
        → IsRecovered a s p (resurrect callbacks dash a s p)
    unfolding resurrect cached with_lifecycle enter new_state update get
    resurrect-IsRecovered a s p = record {
      graph = refl;
      current = refl;
      lifecycle = refl;
      history = refl;
      called = (refl, refl);
      cached_lem = laws.get-insert a.cache a.name a.name _ ∙ rw (same_refl a.name) refl;
    }

    restore-IsRecovered :
        (a : FsmActor F D L S E P M) (backend : Persistency D S P) (lc : Lifecycle) (s : S) (p : P)
        → (backend.load a.machine.store a.name).1 ≡ ok (some (lc, s, p))
        → IsRecovered a s p (restore callbacks dash a (some backend))
    unfolding restore reload
    restore-IsRecovered a backend lc s p found =
        let b = record a {
          machine = record (a.machine) { store = (backend.load a.machine.store a.name).0 };
        } in
        let h = resurrect-IsRecovered b s p in
        rw found (record {
          graph = h.graph;
          current = h.current;
          lifecycle = h.lifecycle;
          history = h.history;
          called = h.called;
          cached_lem = h.cached_lem;
        })

    recover-IsRecovered :
        (a : FsmActor F D L S E P M) (s : S) (p : P) (b : Bool)
        → b ≡ true
        → IsRecovered a s p (restore callbacks dash a a.context.persistency)
        → IsRecovered a s p
            (if b then enlist (restore callbacks dash a a.context.persistency) else a)
    unfolding enlist
    recover-IsRecovered a s p true e h = enlist-IsRecovered a _ s p _ h
    recover-IsRecovered a s p false e h = cc

    module _ ⦃eo : Ord E⦄ (show_state : S → Text) (show_event : E → Text) where
      -- An actor that is to recover, and whose backend has a record of its name, starts as a running
      -- machine in the recorded state, provided that no hard event leaves that state: with a new
      -- history of that state alone, after `on_start` and `on_enter`, and with an entry in the cache.
      -- The recorded lifecycle does not matter.
      pub started-IsRecovered :
          (fuel : ℕ) (a : FsmActor F D L S E P M) (backend : Persistency D S P) (lc : Lifecycle)
          (s : S) (p : P)
          → a.recover_on_start ≡ true
          → a.context.persistency ≡ some backend
          → (backend.load a.machine.store a.name).1 ≡ ok (some (lc, s, p))
          → find_hard (events_for a.graph s) ≡ none
          → (a' : FsmActor F D L S E P M) × (started callbacks dash show_state show_event fuel a
              ≡ some a')
            × IsRecovered a s p a'
      unfolding started recover hard_event
      started-IsRecovered fuel a backend lc s p recovers has found settled =
          let back =
            subst (λ b. IsRecovered a s p (restore callbacks dash a b)) (sym has)
              (restore-IsRecovered a backend lc s p found) in
          let h =
            arm-IsRecovered a _ s p a.timer_interval
              (recover-IsRecovered a s p a.recover_on_start recovers back) in
          (
            _,
            resume-none callbacks dash show_state show_event
                (do_transition callbacks dash show_state show_event fuel) _ _
                (ap (λ (q : TransitionGraph S E × S). find_hard (events_for q.0 q.1))
                    (λ i. (h.graph i, h.current i))
                  ∙ settled),
            h,
          )

module _ {F D L S E P M : Type 0} ⦃so : Ord S⦄ ⦃eo : Ord E⦄
    (store : DashMap D Text (Lifecycle × S × P)) (store_laws : IsLawful store)
    (callbacks : Finitomata F S E P) (dash : DashMap M Text (FsmState S P)) (laws : IsLawful dash)
    (show_state : S → Text) (show_event : E → Text) where
  Recorded-IsPersisted :
      {row : List S × EventKind} {m' : Machine F D L S P} {outcome : TransitOutcome}
      (m : Machine F D L S P) (answer : Option (List S × EventKind))
      (r : Machine F D L S P × Result TransitOutcome FinitomataError)
      → answer ≡ some row
      → r ≡ (m', ok outcome)
      → Recorded store answer m r
      → IsPersisted store m'
  Recorded-IsPersisted m none r e f h = cc
  Recorded-IsPersisted m (some row') r e f h = subst (Persists store m) f h

  -- An actor that is made for a machine whose state is on record starts in that state.
  pub IsPersisted-started :
      (m' : Machine F D L S P) (fuel : ℕ) (a : FsmActor F D L S E P M)
      → IsPersisted store m'
      → a.recover_on_start ≡ true
      → a.context.persistency ≡ some (in_memory store)
      → a.machine.store ≡ m'.store
      → a.name ≡ m'.state.name
      → find_hard (events_for a.graph m'.state.current) ≡ none
      → (a' : FsmActor F D L S E P M) × (started callbacks dash show_state show_event fuel a
          ≡ some a')
        × (a'.machine.state.current ≡ m'.state.current)
        × (a'.machine.state.lifecycle ≡ running)
        × (get dash a'.cache a.name ≡ some a'.machine.state)
  IsPersisted-started m' fuel a (payload, loads) recovers a_has store_lem name_lem settled =
      let found : ((in_memory store).load a.machine.store a.name).1
          ≡ ok (some (running, m'.state.current, payload)) =
        ap (λ (q : D × Text). ((in_memory store).load q.0 q.1).1) (λ i. (store_lem i, name_lem i))
        ∙ loads in
      let (a', ends, h) =
        started-IsRecovered callbacks dash laws show_state show_event fuel a (in_memory store)
          running m'.state.current payload recovers a_has found settled in
      (a', ends, h.current, h.lifecycle, h.cached_lem)

  -- No successful transition is lost with its actor. Where `transit` moved a machine that stores its
  -- records in memory, an actor of the same name that is to recover from that store starts in the state
  -- that the machine was in, running and in the cache, whatever machine it was made with, provided that
  -- no hard event leaves the state.
  started-transit :
      (graph : TransitionGraph S E) (ctx : TransitContext D L S E P) (event : E) (event_payload : P)
      (m m' : Machine F D L S P) (outcome : TransitOutcome) (row : List S × EventKind) (fuel : ℕ)
      (a : FsmActor F D L S E P M)
      → ctx.persistency ≡ some (in_memory store)
      → allowed graph m.state.current event ≡ some row
      → transit callbacks show_state show_event graph m event event_payload ctx ≡ (m', ok outcome)
      → a.recover_on_start ≡ true
      → a.context.persistency ≡ some (in_memory store)
      → a.machine.store ≡ m'.store
      → a.name ≡ m'.state.name
      → find_hard (events_for a.graph m'.state.current) ≡ none
      → (a' : FsmActor F D L S E P M) × (started callbacks dash show_state show_event fuel a
          ≡ some a')
        × (a'.machine.state.current ≡ m'.state.current)
        × (a'.machine.state.lifecycle ≡ running)
        × (get dash a'.cache a.name ≡ some a'.machine.state)
  started-transit graph ctx event event_payload m m' outcome row fuel a has row_lem moved recovers
        a_has store_lem name_lem settled =
      IsPersisted-started m' fuel a
        (Recorded-IsPersisted m _ _ row_lem moved (
          transit-Recorded store callbacks store_laws graph ctx m has show_state show_event event
            event_payload))
        recovers a_has store_lem name_lem settled
