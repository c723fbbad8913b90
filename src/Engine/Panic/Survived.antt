-- ===== src/Engine/Panic/Survived.antt =====
-- What a panic in `on_transition` leaves of the stored records (finitomata/src/engine.rs with
-- finitomata/src/persistency/memory.rs).
use finitomata_rs.Base.{arith, Bool, true, ◌≡◌, refl, Option, none, some, List, [], ◌∷◌, ok, err}
use finitomata_rs.Base.Ord.{Ord, nat_ord, list_ord}
use finitomata_rs.Base.Text.{Text}
use finitomata_rs.Callbacks.{TransitionResult, Finitomata}
use finitomata_rs.DashMap.{DashMap, IsLawful}
use finitomata_rs.Engine.{TransitContext, Machine, exit, respond}
use finitomata_rs.Engine.Persisted.{
  IsPersisted, IsKept, IsKept-IsPersisted, Persists, Persists-decide,
}
use finitomata_rs.Persistency.Memory.{in_memory}
use finitomata_rs.State.{Lifecycle}
use finitomata_rs.Transition.{EventKind, TransitionGraph, allowed}
use finitomata_rs.Engine.Panic.{
  Panicky, Ending, returned, panicked, left, on_answer, queried, unwound, caught, transit_caught,
  run_caught,
}

module _ {F D L S E P : Type 0} ⦃so : Ord S⦄ ⦃eo : Ord E⦄
    (store : DashMap D Text (Lifecycle × S × P)) (store_laws : IsLawful store)
    (callbacks : Finitomata F S E P) (on_transition : Panicky F S E P) (show_state : S → Text)
    (show_event : E → Text) (graph : TransitionGraph S E) (ctx : TransitContext D L S E P) where
  -- Where the call returns it is `Recorded`, and a panic leaves what was stored.
  abbrev Survives : Machine F D L S P → Ending F D L S P → Type 0
  Survives m (returned m' r) = Persists store m (m', r)
  Survives m (panicked m') = IsKept store m m'

  Survives-IsPersisted :
      (m : Machine F D L S P) (e : Ending F D L S P)
      → Survives m e
      → IsPersisted store m
      → IsPersisted store (left e)
  Survives-IsPersisted m (returned m' (ok o)) h p = h
  Survives-IsPersisted m (returned m' (err e)) h p = IsKept-IsPersisted store m m' h p
  Survives-IsPersisted m (panicked m') h p = IsKept-IsPersisted store m m' h p

  module _ (has : ctx.persistency ≡ some (in_memory store)) where
    Survives-on_answer :
        (m0 m : Machine F D L S P) (targets : List S) (kind : EventKind) (from : S) (event : E)
        (result : Option (TransitionResult S P))
        → IsKept store m0 m
        → Survives m0 (
            on_answer callbacks on_transition show_state show_event graph ctx targets kind from
              event m result)
    unfolding on_answer
    Survives-on_answer m0 m targets kind from event none k = k
    Survives-on_answer m0 m targets kind from event (some result) k =
        Persists-decide store callbacks store_laws graph ctx m0 has show_state show_event targets
          kind from event m result k

    caught-IsPersisted :
        (m : Machine F D L S P) (event : E) (event_payload : P) (row : Option (List S × EventKind))
        → IsPersisted store m
        → IsPersisted store (
            left (
              caught callbacks on_transition show_state show_event graph ctx event event_payload m
                row))
    unfolding caught unwound queried exit respond
    caught-IsPersisted m event event_payload none p = ground arith
    caught-IsPersisted m event event_payload (some (targets, kind)) p =
        let (m', result) =
          queried callbacks on_transition show_state show_event event event_payload m in
        Survives-IsPersisted m
          (on_answer callbacks on_transition show_state show_event graph ctx targets kind
            m.state.current event m' result)
          (Survives-on_answer m m' targets kind m.state.current event result
            (record { store = refl; name = refl; current = refl }))
          p

    next_lem :
        (rest : List (E × P))
        → ((m : Machine F D L S P)
            → IsPersisted store m
            → IsPersisted store
                (run_caught callbacks on_transition show_state show_event graph ctx m rest).0)
        → (e : Ending F D L S P) → IsPersisted store (left e)
        → IsPersisted store
            (elim e as (λ e. Machine F D L S P × Bool) [
              | returned m' r ↦
                  run_caught callbacks on_transition show_state show_event graph ctx m' rest
              | panicked m' ↦ (m', true)
            ]).0
    next_lem rest later (returned m' r) h = later m' h
    next_lem rest later (panicked m') h = h

    -- The records outlive a panic: where the current state is on record before a row of events, it is
    -- so once they are over, or one of them panicked.
    pub run_caught-IsPersisted :
        (m : Machine F D L S P) (events : List (E × P))
        → IsPersisted store m
        → IsPersisted store
            (run_caught callbacks on_transition show_state show_event graph ctx m events).0
    unfolding transit_caught
    run_caught-IsPersisted m [] p = p
    run_caught-IsPersisted m ((event, event_payload) ∷ rest) p =
        next_lem rest (λ m'. run_caught-IsPersisted m' rest)
          (transit_caught callbacks on_transition show_state show_event graph m event event_payload
            ctx)
          (caught-IsPersisted m event event_payload (allowed graph m.state.current event) p)
