-- ===== src/Supervisor.antt =====
-- The supervisor of the machines (`FinitomataSupervisor` of finitomata/src/supervisor.rs). The crate
-- `joerl`, which runs the actors, is a parameter: `Y` stands for the state of its `ActorSystem`, and
-- `System` has the functions that the supervisor calls. The state of the backend and what the listener
-- wrote are the fields `store` and `log`.
pub mod Queries
pub mod Spawn
pub mod Started
pub mod Messages
pub mod Supervised
use mathlib.Core.Option
use finitomata_rs.Base.{ℕ, Bool, false, Option, none, some, [], Result, ok, err}
use finitomata_rs.Base.Ord.{Ord, nat_ord, list_ord}
use finitomata_rs.Base.Text.{Text, text}
use finitomata_rs.Actor.{FsmActor, Message}
use finitomata_rs.BTree.Maps
use finitomata_rs.BTree.Maps.{BTreeMap}
use finitomata_rs.Cache.{new_cache, update}
use finitomata_rs.Callbacks.{Finitomata}
use finitomata_rs.DashMap.{DashMap}
use finitomata_rs.Engine.{TransitContext, Machine, enter}
use finitomata_rs.Error.{FinitomataError, PersistencyError}
use finitomata_rs.Listener.{Listener}
use finitomata_rs.Persistency.{Persistency}
use finitomata_rs.State.{FsmState, Lifecycle, created, running, new_state}
use finitomata_rs.Transition.{TransitionGraph}

-- A failure of `send` is the text that it prints. `R` stands for a restart strategy with its intensity;
-- `spawn_supervisor` is given the name and the factory of its one child, whose actors are all alike.
pub record System (Y Pid R F D L S E P M : Type 0) : Type 0 where
  pub new : Y
  pub whereis : Y → Text → Option Pid
  pub register : Y → Text → Pid → Y
  pub spawn : Y → FsmActor F D L S E P M → Y × Pid
  pub spawn_supervisor : Y → R → Text → FsmActor F D L S E P M → Y
  pub new_pid : Y → Y × Pid
  pub send : Y → Pid → Message E P → Y × Result (Unit {0}) Text

pub record FinitomataSupervisor (Y Pid D L S E P M : Type 0) : Type 0 where
  pub id : Text
  pub system : Y
  pub graph : TransitionGraph S E
  pub cache : M
  pub actors : BTreeMap Text Pid
  pub context : TransitContext D L S E P
  pub timer_interval : Option ℕ
  pub store : D
  pub log : L

module _ {Y Pid R F D L S E P M : Type 0} (sys : System Y Pid R F D L S E P M)
    (dash : DashMap M Text (FsmState S P)) where
  unfoldable pub new_supervisor :
      Text → TransitionGraph S E → D → L → FinitomataSupervisor Y Pid D L S E P M
  unfolding new_cache
  new_supervisor id graph store log = record {
    id = id;
    system = sys.new;
    graph = graph;
    cache = new_cache dash;
    actors = [];
    context = record { persistency = none; listener = none; auto_terminate = false };
    timer_interval = none;
    store = store;
    log = log;
  }

module _ {Y Pid D L S E P M : Type 0} where
  with_system : FinitomataSupervisor Y Pid D L S E P M → Y → FinitomataSupervisor Y Pid D L S E P M
  with_system v system = record v { system = system }

  with_persistency :
      FinitomataSupervisor Y Pid D L S E P M
      → Persistency D S P
      → FinitomataSupervisor Y Pid D L S E P M
  with_persistency v backend = record v {
    context = record (v.context) { persistency = some backend };
  }

  with_listener :
      FinitomataSupervisor Y Pid D L S E P M
      → Listener L S E
      → FinitomataSupervisor Y Pid D L S E P M
  with_listener v listener = record v { context = record (v.context) { listener = some listener } }

  with_auto_terminate :
      FinitomataSupervisor Y Pid D L S E P M → Bool → FinitomataSupervisor Y Pid D L S E P M
  with_auto_terminate v auto_terminate = record v {
    context = record (v.context) { auto_terminate = auto_terminate };
  }

  with_timer : FinitomataSupervisor Y Pid D L S E P M → ℕ → FinitomataSupervisor Y Pid D L S E P M
  with_timer v interval = record v { timer_interval = some interval }

  -- The record of the backend, or the graph's initial state with the caller's payload.
  first_state :
      FinitomataSupervisor Y Pid D L S E P M
      → P
      → Result (Option (Lifecycle × S × P)) PersistencyError
      → S × P × Lifecycle
  first_state v payload (ok (some (lc, state, stored))) = (state, stored, lc)
  first_state v payload (ok none) = (v.graph.initial, payload, created)
  first_state v payload (err e) = (v.graph.initial, payload, created)

  -- The first `let` of `start_fsm`.
  unfoldable pub prepare :
      FinitomataSupervisor Y Pid D L S E P M
      → Text
      → P
      → Option (Persistency D S P)
      → D × S × P × Lifecycle
  unfolding first_state
  prepare v name payload none = (v.store, v.graph.initial, payload, created)
  prepare v name payload (some backend) =
      let (store, found) = backend.load v.store name in
      let (state, initial_payload, lifecycle) = first_state v payload found in
      (store, state, initial_payload, lifecycle)

module _ {Y Pid R F D L S E P M : Type 0} (sys : System Y Pid R F D L S E P M)
    (callbacks : Finitomata F S E P) (dash : DashMap M Text (FsmState S P)) where
  module _ ⦃so : Ord S⦄ where
    -- `start_fsm` up to the update of the cache: the callbacks of the start.
    greet : FsmState S P → F → D → L → Machine F D L S P
    unfolding enter
    greet state fsm store log =
        let (fsm', payload) = callbacks.on_start fsm state.payload in
        let m : Machine F D L S P = record {
          fsm = fsm';
          state = record state { payload = payload };
          store = store;
          log = log;
        } in
        let m' = enter callbacks m m.state.current in
        record m' { state = record (m'.state) { lifecycle = running } }

    -- The machine that `start_fsm` gives to its actor.
    unfoldable pub launch :
        FinitomataSupervisor Y Pid D L S E P M → Text → F → P → Machine F D L S P
    unfolding prepare greet new_state
    launch v name fsm payload =
        let (store, initial_state, initial_payload, lifecycle) =
          prepare v name payload v.context.persistency in
        greet (record (new_state name initial_state initial_payload) { lifecycle = lifecycle }) fsm
          store v.log

    -- The actor that `start_fsm` spawns, with the cache that has its state.
    unfoldable pub spawned :
        FinitomataSupervisor Y Pid D L S E P M → Text → F → P → FsmActor F D L S E P M
    unfolding launch update
    spawned v name fsm payload =
        let m = launch v name fsm payload in
        record {
          machine = m;
          graph = v.graph;
          cache = update dash v.cache m.state;
          context = v.context;
          timer_interval = v.timer_interval;
          name = name;
          recover_on_start = false;
          system = false;
          effects = [];
        }

    unfoldable pub start_fsm :
        FinitomataSupervisor Y Pid D L S E P M
        → Text
        → F
        → P
        → FinitomataSupervisor Y Pid D L S E P M × Result (Unit {0}) FinitomataError
    unfolding spawned
    start_fsm v name fsm payload =
        let actor = spawned v name fsm payload in
        let (system, pid) = sys.spawn v.system actor in
        (
          record v {
            store = actor.machine.store;
            cache = actor.cache;
            system = sys.register system name pid;
            actors = Maps.alter v.actors name pid (λ _. pid);
          },
          ok tt,
        )
