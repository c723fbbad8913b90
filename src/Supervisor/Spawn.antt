-- ===== src/Supervisor/Spawn.antt =====
-- The machines under a supervisor of joerl (`spawn_supervised` and `spawn_supervised_with_intensity` of
-- finitomata/src/supervisor.rs).
use finitomata_rs.Base.{Bool, true, false, Option, none, some, [], Result, ok, err, if◌then◌else◌}
use finitomata_rs.Base.Ord.{Ord, nat_ord, list_ord}
use finitomata_rs.Base.Text.{Text}
use finitomata_rs.Actor.{FsmActor}
use finitomata_rs.BTree.Maps
use finitomata_rs.Error.{FinitomataError, PersistencyError}
use finitomata_rs.Persistency.{Persistency}
use finitomata_rs.State.{Lifecycle, new_state}
use finitomata_rs.Supervisor.{System, FinitomataSupervisor}

-- `….ok().flatten().is_none()`
unfoldable pub absent : {S P : Type 0} → Result (Option (Lifecycle × S × P)) PersistencyError → Bool
absent (ok (some stored)) = false
absent (ok none) = true
absent (err e) = true

module _ {Y Pid D L S E P M : Type 0} where
  -- The first `if` of `spawn_supervised_with_intensity`.
  unfoldable pub seed :
      FinitomataSupervisor Y Pid D L S E P M → Text → P → Option (Persistency D S P) → D
  unfolding absent
  seed v name payload none = v.store
  seed v name payload (some backend) =
      let (store, found) = backend.load v.store name in
      if absent found then (backend.store store name v.graph.initial payload).0 else store

module _ {Y Pid F D L S E P M : Type 0} ⦃so : Ord S⦄ where
  -- The actor that the closure given to the joerl supervisor makes; `F::default()` is the argument
  -- `default`.
  unfoldable pub supervised :
      F → FinitomataSupervisor Y Pid D L S E P M → Text → P → FsmActor F D L S E P M
  unfolding seed new_state
  supervised default v name payload = record {
    machine = record {
      fsm = default;
      state = new_state name v.graph.initial payload;
      store = seed v name payload v.context.persistency;
      log = v.log;
    };
    graph = v.graph;
    cache = v.cache;
    context = v.context;
    timer_interval = v.timer_interval;
    name = name;
    recover_on_start = true;
    system = true;
    effects = [];
  }

module _ {Y Pid R F D L S E P M : Type 0} (sys : System Y Pid R F D L S E P M) where
  module _ ⦃so : Ord S⦄ where
    unfoldable pub spawn_supervised_with_intensity :
        F
        → FinitomataSupervisor Y Pid D L S E P M
        → Text
        → P
        → R
        → FinitomataSupervisor Y Pid D L S E P M × Result (Unit {0}) FinitomataError
    unfolding supervised
    spawn_supervised_with_intensity default v name payload restarts =
        let actor = supervised default v name payload in
        let system = sys.spawn_supervisor v.system restarts name actor in
        let (system', pid) = sys.new_pid system in
        (
          record v {
            store = actor.machine.store;
            system = system';
            actors = Maps.alter v.actors name pid (λ _. pid);
          },
          ok tt,
        )

    -- `RestartIntensity::default()`, with the strategy, is the argument `with_default`.
    unfoldable pub spawn_supervised :
        {Q : Type 0}
        → (Q → R)
        → F
        → FinitomataSupervisor Y Pid D L S E P M
        → Text
        → P
        → Q
        → FinitomataSupervisor Y Pid D L S E P M × Result (Unit {0}) FinitomataError
    unfolding spawn_supervised_with_intensity
    spawn_supervised with_default default v name payload strategy =
        spawn_supervised_with_intensity default v name payload (with_default strategy)
