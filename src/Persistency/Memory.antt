-- ===== src/Persistency/Memory.antt =====
-- The in-memory backend (finitomata/src/persistency/memory.rs), over the `DashMap` of its store.
use mathlib.Core.Option
use finitomata_rs.Base.{
  ℕ, ◌≡◌, refl, Bool, false, Option, none, some, Result, ok, if◌then◌else◌, arith,
}
use finitomata_rs.Base.Ord.{same, same_refl, nat_ord, list_ord}
use finitomata_rs.Base.Text.{Text}
use finitomata_rs.DashMap.{DashMap, IsLawful}
use finitomata_rs.Error.{FinitomataError, PersistencyError}
use finitomata_rs.Persistency.{Persistency}
use finitomata_rs.State.{Lifecycle, running}

module _ {M S P : Type 0} (dash : DashMap M Text (Lifecycle × S × P)) where
  unfoldable pub new : M
  new = dash.new

  unfoldable pub len : M → ℕ
  len m = dash.len m

  unfoldable pub is_empty : M → Bool
  is_empty m = dash.is_empty m

  unfoldable pub contains : M → Text → Bool
  contains m id = dash.contains_key m id

  -- `self.store.remove(id).map(|(_, v)| v)`
  unfoldable pub remove : M → Text → M × Option (Lifecycle × S × P)
  remove m id = let (m', entry) = dash.remove m id in (m', Option.map (λ e. e.1) entry)

  unfoldable pub load : M → Text → M × Result (Option (Lifecycle × S × P)) PersistencyError
  load m id = (m, ok (dash.get m id))

  unfoldable pub store : M → Text → S → P → M × Result (Unit {0}) PersistencyError
  store m id state payload = (dash.insert m id (running, state, payload), ok tt)

  store_error : M → Text → FinitomataError → M × Result (Unit {0}) PersistencyError
  store_error m id error = (m, ok tt)

  -- `impl Persistency for InMemoryPersistency`
  unfoldable pub in_memory : Persistency M S P
  unfolding load store store_error
  in_memory = record { load = load; store = store; store_error = store_error }

  module _ (laws : IsLawful dash) where
    -- What is stored under a name is what the next load of that name returns, with the lifecycle
    -- `Running`, and the loads of all other names are as they were.
    pub load-store :
        (m : M) (id other : Text) (state : S) (payload : P)
        → let (m', stored) = in_memory.store m id state payload in
          (stored ≡ ok tt)
          × ((in_memory.load m' other).1 ≡ (
              if same id other
              then ok (some (running, state, payload))
              else (in_memory.load m other).1))
    unfolding in_memory
    load-store m id other state payload =
        (refl, ground (arith, laws.get-insert m id other (running, state, payload)))

    -- A removed record is the one that a load would have returned, and no load returns it after.
    pub load-remove :
        (m : M) (id : Text)
        → let (m', removed) = remove m id in
          ((in_memory.load m id).1 ≡ ok removed)
          × ((in_memory.load m' id).1 ≡ ok none)
          × (contains m' id ≡ false)
    unfolding in_memory remove contains
    load-remove m id = ground (
      arith,
      laws.removed m id,
      laws.get-remove m id id,
      laws.contains_key_lem (dash.remove m id).0 id,
      same_refl id,
    )
