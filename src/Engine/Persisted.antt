-- ===== src/Engine/Persisted.antt =====
-- The in-memory backend holds the state that `transit` leaves behind (finitomata/src/engine.rs with
-- finitomata/src/persistency/memory.rs).
use finitomata_rs.Base.{
  ◌≡◌, refl, sym, ap, ◌∙◌, subst, inl, inr, Bool, true, false, ◌&&◌, Option, none, some, List, any,
  Result, ok, err, arith, Bool-cases,
}
use finitomata_rs.Base.Ord.{Ord, same, same_refl, nat_ord, list_ord}
use finitomata_rs.Base.Text.{Text}
use finitomata_rs.Callbacks.{TransitionResult, Finitomata}
use finitomata_rs.DashMap.{DashMap, IsLawful}
use finitomata_rs.Engine.{
  TransitContext, TransitOutcome, Machine, exit, consult, enter, failure, terminate, reenter, fail,
  finish, notify, advance, commit, after_store, persist, settle, decide, attempt, respond, transit,
}
use finitomata_rs.Error.{FinitomataError, PersistencyError}
use finitomata_rs.Listener.{Listener}
use finitomata_rs.Persistency.Memory.{in_memory, load-store}
use finitomata_rs.State.{Lifecycle, running, clear_error, transition_to, set_error}
use finitomata_rs.Transition.{EventKind, TransitionGraph, allowed, is_final}

module _ {F M L S P : Type 0} (dash : DashMap M Text (Lifecycle × S × P)) where
  -- A load of the machine's name gives its current state.
  abbrev pub IsPersisted : Machine F M L S P → Type 0
  IsPersisted m =
      (payload : P) × (((in_memory dash).load m.store m.state.name).1
        ≡ ok (some (running, m.state.current, payload)))

  -- What a machine that was not moved keeps.
  pub record IsKept (m m' : Machine F M L S P) : Type 0 where
    pub store : m'.store ≡ m.store
    pub name : m'.state.name ≡ m.state.name
    pub current : m'.state.current ≡ m.state.current

  pub IsKept-IsPersisted : (m m' : Machine F M L S P) → IsKept m m' → IsPersisted m → IsPersisted m'
  IsKept-IsPersisted m m' h (payload, found) = (
    payload,
    ap (λ (q : M × Text). ((in_memory dash).load q.0 q.1).1) (λ i. (h.store i, h.name i))
        ∙ found
        ∙ ap (λ s. ok (some (running, s, payload))) (sym h.current),
  )

  abbrev pub Persists :
      Machine F M L S P → Machine F M L S P × Result TransitOutcome FinitomataError → Type 0
  Persists m (m', ok o) = IsPersisted m'
  Persists m (m', err e) = IsKept m m'

  -- By what `allowed` answers.
  abbrev pub Recorded :
      Option (List S × EventKind)
      → Machine F M L S P
      → Machine F M L S P × Result TransitOutcome FinitomataError
      → Type 0
  Recorded (some row) m r = Persists m r
  Recorded none m r = r.0 ≡ m

module _ {F M L S E P : Type 0} (dash : DashMap M Text (Lifecycle × S × P)) (c : Finitomata F S E P)
    ⦃so : Ord S⦄ where
  Persists-fail :
      (m0 m : Machine F M L S P) (from : S) (event : E) (reason : FinitomataError)
      → IsKept dash m0 m
      → Persists dash m0 (fail c m from event reason)
  unfolding fail failure reenter enter set_error
  Persists-fail m0 m from event reason k = record {
    store = k.store;
    name = k.name;
    current = k.current;
  }

  Persists-finish :
      (m0 : Machine F M L S P) (kind : EventKind) (b : Bool) (m : Machine F M L S P)
      → IsPersisted dash m
      → Persists dash m0 (finish c kind b m)
  unfolding finish terminate
  Persists-finish m0 kind true m h = h
  Persists-finish m0 kind false m h = h

  IsPersisted-enter :
      (listener : Option (Listener L S E)) (m : Machine F M L S P) (from target : S) (event : E)
      (payload : P)
      → ((in_memory dash).load m.store m.state.name).1 ≡ ok (some (running, target, payload))
      → IsPersisted dash (enter c (notify c listener (advance c m target) from target event) target)
  unfolding enter notify advance clear_error transition_to
  IsPersisted-enter none m from target event payload h = (payload, h)
  IsPersisted-enter (some listener) m from target event payload h = (payload, h)

  module _ (laws : IsLawful dash) (graph : TransitionGraph S E) (ctx : TransitContext M L S E P)
      (m0 : Machine F M L S P) where
    Persists-after_store :
        (kind : EventKind) (from target : S) (event : E) (m : Machine F M L S P)
        (stored : Result (Unit {0}) PersistencyError) (payload : P)
        → stored ≡ ok tt
        → ((in_memory dash).load m.store m.state.name).1 ≡ ok (some (running, target, payload))
        → Persists dash m0 (after_store c graph ctx kind from target event m stored)
    unfolding after_store commit
    Persists-after_store kind from target event m (ok _) payload e h =
        Persists-finish m0 kind (ctx.auto_terminate && is_final graph target) _
          (IsPersisted-enter ctx.listener m from target event payload h)
    Persists-after_store kind from target event m (err why) payload e h = cc

    Persists-persist :
        (kind : EventKind) (from target : S) (event : E) (m : Machine F M L S P)
        → Persists dash m0 (persist c graph ctx kind from target event m (some (in_memory dash)))
    unfolding persist
    Persists-persist kind from target event m =
        let (store, stored) = (in_memory dash).store m.store m.state.name target m.state.payload in
        let (answer, loads) =
          load-store dash laws m.store m.state.name m.state.name target m.state.payload in
        Persists-after_store kind from target event (record m { store = store }) stored
          m.state.payload answer (loads ∙ rw (same_refl m.state.name) refl)

    module _ (e : ctx.persistency ≡ some (in_memory dash)) (show_state : S → Text)
        (show_event : E → Text) (targets : List S) (kind : EventKind) (from : S) (event : E) where
      Persists-settle :
          (target : S) (m : Machine F M L S P)
          → IsKept dash m0 m
          → Persists dash m0
              (settle c show_state show_event graph ctx targets kind from target event m)
      unfolding settle
      Persists-settle target m k = elim (Bool-cases (any (λ t. same t target) targets)) [
        | inl h ↦ rw h (
            subst (λ b. Persists dash m0 (persist c graph ctx kind from target event m b)) (sym e)
              (Persists-persist kind from target event m))
        | inr n ↦ rw n (Persists-fail m0 m from event _ k)
      ]

      pub Persists-decide :
          (m : Machine F M L S P) (result : TransitionResult S P)
          → IsKept dash m0 m
          → Persists dash m0
              (decide c show_state show_event graph ctx targets kind from event m result)
      unfolding decide
      Persists-decide m (TransitionResult.ok target) k = Persists-settle target m k
      Persists-decide m (TransitionResult.ok_with_payload target payload) k =
          Persists-settle target (record m { state = record (m.state) { payload = payload } })
            (record { store = k.store; name = k.name; current = k.current })
      Persists-decide m (TransitionResult.error reason) k = Persists-fail m0 m from event reason k

    module _ ⦃eo : Ord E⦄ (e : ctx.persistency ≡ some (in_memory dash)) (show_state : S → Text)
        (show_event : E → Text) (event : E) (event_payload : P) where
      respond-Recorded :
          (row : Option (List S × EventKind))
          → Recorded dash row m0
              (respond c show_state show_event graph ctx event event_payload m0 row)
      unfolding respond attempt consult exit
      respond-Recorded none = ground arith
      respond-Recorded (some (targets, kind)) =
          let (m', result) = consult c event event_payload m0 in
          Persists-decide e show_state show_event targets kind m0.state.current event m' result
            (record { store = refl; name = refl; current = refl })

      -- A machine with the in-memory backend can be recovered. After a transition that succeeds, a load
      -- of the machine's name gives the state that the machine is in, with the lifecycle `Running`.
      -- After one that fails, and where the event has no transition, the stored records, the name and
      -- the current state are those from before, so that what was recoverable still is.
      pub transit-Recorded :
          Recorded dash
            (allowed graph m0.state.current event)
            m0
            (transit c show_state show_event graph m0 event event_payload ctx)
      unfolding transit
      transit-Recorded = respond-Recorded (allowed graph m0.state.current event)
