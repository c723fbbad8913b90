-- ===== src/Supervisor/Supervised.antt =====
-- A supervised machine (`spawn_supervised_with_intensity` of finitomata/src/supervisor.rs) from the
-- record that is stored for it to the start of its actor.
use finitomata_rs.Base.{ℕ, ◌≡◌, refl, Option, none, some, ok}
use finitomata_rs.Base.Ord.{Ord, same_refl, nat_ord, list_ord}
use finitomata_rs.Base.Text.{Text}
use finitomata_rs.Actor.{FsmActor, find_hard, started}
use finitomata_rs.Actor.Recovered.{IsRecovered, started-IsRecovered}
use finitomata_rs.Callbacks.{Finitomata}
use finitomata_rs.DashMap.{DashMap, IsLawful}
use finitomata_rs.Persistency.Memory
use finitomata_rs.Persistency.Memory.{in_memory}
use finitomata_rs.State.{FsmState, Lifecycle, running}
use finitomata_rs.Supervisor.{FinitomataSupervisor}
use finitomata_rs.Supervisor.Spawn.{absent, seed, supervised}
use finitomata_rs.Transition.{events_for}

-- What the machine starts from: its record, and without one the initial state and the given payload.
abbrev pub origin : {S P : Type 0} → S → P → Option (Lifecycle × S × P) → Lifecycle × S × P
origin initial payload none = (running, initial, payload)
origin initial payload (some stored) = stored

module _ {Y Pid D L S E P M : Type 0} ⦃so : Ord S⦄ (store : DashMap D Text (Lifecycle × S × P))
    (store_laws : IsLawful store) where
  load-seed :
      (v : FinitomataSupervisor Y Pid D L S E P M) (name : Text) (payload : P)
      (found : Option (Lifecycle × S × P))
      → store.get v.store name ≡ found
      → ((in_memory store).load (seed v name payload (some (in_memory store))) name).1
        ≡ ok (some (origin v.graph.initial payload found))
  unfolding seed in_memory Memory.load Memory.store absent
  load-seed v name payload none e =
      rw
        (
          e,
          store_laws.get-insert v.store name name (running, v.graph.initial, payload),
          same_refl name,
        )
        refl
  load-seed v name payload (some stored) e = rw (e, e) refl

module _ {Y Pid F D L S E P M : Type 0} ⦃so : Ord S⦄ ⦃eo : Ord E⦄
    (store : DashMap D Text (Lifecycle × S × P)) (store_laws : IsLawful store)
    (callbacks : Finitomata F S E P) (dash : DashMap M Text (FsmState S P)) (laws : IsLawful dash)
    (show_state : S → Text) (show_event : E → Text) where
  -- With the in-memory backend, the actor of a supervised machine starts in the state of the record
  -- that is stored under its name, and in the initial state of the graph with the given payload if there
  -- is none, provided that no hard event leaves that state. It is then running, `on_start` and `on_enter`
  -- were called on the default of the user's type, and the cache has it.
  pub started-supervised :
      (v : FinitomataSupervisor Y Pid D L S E P M) (default : F) (name : Text) (payload : P)
      (fuel : ℕ)
      → v.context.persistency ≡ some (in_memory store)
      → let (lc, s, p) = origin v.graph.initial payload (store.get v.store name) in
        find_hard (events_for v.graph s) ≡ none
        → (a' : FsmActor F D L S E P M) × (started callbacks dash show_state show_event fuel
              (supervised default v name payload)
            ≡ some a')
          × IsRecovered callbacks dash (supervised default v name payload) s p a'
  unfolding supervised
  started-supervised v default name payload fuel has settled =
      let (lc, s, p) = origin v.graph.initial payload (store.get v.store name) in
      started-IsRecovered callbacks dash laws show_state show_event fuel
        (supervised default v name payload) (in_memory store) lc s p refl has
        (rw has (load-seed store store_laws v name payload (store.get v.store name) refl)) settled
