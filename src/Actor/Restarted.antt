-- ===== src/Actor/Restarted.antt =====
-- An actor that is started again after any row of events (`started` of finitomata/src/supervisor.rs, with
-- `transit` of finitomata/src/engine.rs).
use finitomata_rs.Base.{
  ℕ, ◌≡◌, sym, subst, List, [], ◌∷◌, true, Option, none, some, Result, ok, err, Bool,
}
use finitomata_rs.Base.Ord.{Ord, nat_ord, list_ord}
use finitomata_rs.Base.Text.{Text}
use finitomata_rs.Actor.{FsmActor, find_hard, started}
use finitomata_rs.Actor.Recovered.{IsPersisted-started}
use finitomata_rs.Cache.{get}
use finitomata_rs.Callbacks.{Finitomata}
use finitomata_rs.DashMap.{DashMap, IsLawful}
use finitomata_rs.Engine.{TransitContext, TransitOutcome, Machine, transit}
use finitomata_rs.Engine.Bounded.{transit_all}
use finitomata_rs.Engine.Panic.{Panicky, run_caught}
use finitomata_rs.Engine.Panic.Survived.{run_caught-IsPersisted}
use finitomata_rs.Engine.Persisted.{IsPersisted, IsKept-IsPersisted, Recorded, transit-Recorded}
use finitomata_rs.Error.{FinitomataError}
use finitomata_rs.Persistency.Memory.{in_memory}
use finitomata_rs.State.{FsmState, Lifecycle, running}
use finitomata_rs.Transition.{EventKind, TransitionGraph, events_for, allowed}

module _ {F D L S E P : Type 0} ⦃so : Ord S⦄ ⦃eo : Ord E⦄
    (store : DashMap D Text (Lifecycle × S × P)) (store_laws : IsLawful store)
    (callbacks : Finitomata F S E P) (show_state : S → Text) (show_event : E → Text)
    (graph : TransitionGraph S E) (ctx : TransitContext D L S E P) where
  Recorded-IsPersisted :
      (m : Machine F D L S P) (answer : Option (List S × EventKind))
      (r : Machine F D L S P × Result TransitOutcome FinitomataError)
      → Recorded store answer m r
      → IsPersisted store m
      → IsPersisted store r.0
  Recorded-IsPersisted m none r h p = subst (IsPersisted store) (sym h) p
  Recorded-IsPersisted m (some row) (m', ok o) h p = h
  Recorded-IsPersisted m (some row) (m', err e) h p = IsKept-IsPersisted store m m' h p

  pub transit_all-IsPersisted :
      (m : Machine F D L S P) (events : List (E × P))
      → ctx.persistency ≡ some (in_memory store)
      → IsPersisted store m
      → IsPersisted store (transit_all callbacks show_state show_event graph ctx m events)
  transit_all-IsPersisted m [] has p = p
  transit_all-IsPersisted m ((event, event_payload) ∷ rest) has p =
      let r = transit callbacks show_state show_event graph m event event_payload ctx in
      transit_all-IsPersisted r.0 rest has (
        Recorded-IsPersisted m (allowed graph m.state.current event) r
          (transit-Recorded store callbacks store_laws graph ctx m has show_state show_event event
            event_payload)
          p)

  -- A machine that is stored in memory outlives its actor. Let its current state be on record at first,
  -- as it is after any transition that succeeded. Whatever events it then gets, and whether they succeed
  -- or fail, an actor of its name that is to recover from the store starts in the state that the machine
  -- was in after them, running and in the cache, provided that no hard event leaves that state.
  pub started-transit_all :
      {M : Type 0} (dash : DashMap M Text (FsmState S P)) (laws : IsLawful dash)
      (m m' : Machine F D L S P) (events : List (E × P)) (fuel : ℕ) (a : FsmActor F D L S E P M)
      → ctx.persistency ≡ some (in_memory store)
      → IsPersisted store m
      → transit_all callbacks show_state show_event graph ctx m events ≡ m'
      → a.recover_on_start ≡ true
      → a.context.persistency ≡ some (in_memory store)
      → a.machine.store ≡ m'.store
      → a.name ≡ m'.state.name
      → find_hard (events_for a.graph m'.state.current) ≡ none
      → (a' : FsmActor F D L S E P M) × (started callbacks dash show_state show_event fuel a
          ≡ some a')
        × (a'.machine.state.current ≡ m'.state.current)
        × (a'.machine.state.lifecycle ≡ running)
        × (get dash a'.cache a.name ≡ some a'.machine.state)
  started-transit_all dash laws m m' events fuel a has persisted reached =
      IsPersisted-started store store_laws callbacks dash laws show_state show_event m' fuel a
        (subst (IsPersisted store) reached (transit_all-IsPersisted m events has persisted))

  -- Nor is it lost where a callback panics. Let `on_transition` panic at any event of the row, which ends
  -- the row: an actor of the machine's name that is to recover from the store then starts in the state
  -- that the machine was in when it panicked, or at the end of the row if no call panicked. It is running
  -- and in the cache, provided that no hard event leaves that state. The state of the machine at the
  -- start of the row has to be on record.
  pub started-run_caught :
      {M : Type 0} (dash : DashMap M Text (FsmState S P)) (laws : IsLawful dash)
      (on_transition : Panicky F S E P) (m m' : Machine F D L S P) (panics : Bool)
      (events : List (E × P)) (fuel : ℕ) (a : FsmActor F D L S E P M)
      → ctx.persistency ≡ some (in_memory store)
      → IsPersisted store m
      → run_caught callbacks on_transition show_state show_event graph ctx m events ≡ (m', panics)
      → a.recover_on_start ≡ true
      → a.context.persistency ≡ some (in_memory store)
      → a.machine.store ≡ m'.store
      → a.name ≡ m'.state.name
      → find_hard (events_for a.graph m'.state.current) ≡ none
      → (a' : FsmActor F D L S E P M) × (started callbacks dash show_state show_event fuel a
          ≡ some a')
        × (a'.machine.state.current ≡ m'.state.current)
        × (a'.machine.state.lifecycle ≡ running)
        × (get dash a'.cache a.name ≡ some a'.machine.state)
  started-run_caught dash laws on_transition m m' panics events fuel a has persisted reached =
      IsPersisted-started store store_laws callbacks dash laws show_state show_event m' fuel a (
        subst (λ (r : Machine F D L S P × Bool). IsPersisted store r.0) reached
          (run_caught-IsPersisted store store_laws callbacks on_transition show_state show_event
            graph ctx has m events persisted))
