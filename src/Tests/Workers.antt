-- ===== src/Tests/Workers.antt =====
-- The worker of the examples: it does one task, panics at the second and is restarted.
use finitomata_rs.Base.{ℕ, ◌≤◌, ◌≡◌, refl, ◌⊎◌, Bool, true, some, none, List, [], ◌∷◌, ok, arith}
use finitomata_rs.Base.Ord.{nat_ord, list_ord, same, list_cmp}
use finitomata_rs.Base.Text.{Text, text}
use finitomata_rs.Actor.{FsmActor, started}
use finitomata_rs.Actor.Restarted.{started-run_caught}
use finitomata_rs.BTree.Maps
use finitomata_rs.BTree.Sets
use finitomata_rs.Cache.{get}
use finitomata_rs.Engine.{Machine, transitioned}
use finitomata_rs.Engine.Panic.{transit_caught, run_caught}
use finitomata_rs.Engine.Persisted.{IsPersisted}
use finitomata_rs.Examples.Worker.{
  WorkerState, WorkerEvent, idle, complete, process, WorkerPayload, Worker, state_ord, event_ord,
  build_graph, on_transition, callbacks, main_context, first_payload,
}
use finitomata_rs.Examples.Worker.Once.{Shift, begun, went, crashed, Shift-once}
use finitomata_rs.Persistency.Memory.{in_memory}
use finitomata_rs.State.{FsmState, Lifecycle, running, new_state}
use finitomata_rs.Tests.Dash.{assoc, assoc-IsLawful}
use finitomata_rs.Transition.{new, events_for, rows, allowed, is_final}

abbrev Store : Type 0
Store = List (Text × (Lifecycle × WorkerState × WorkerPayload))

abbrev Cache : Type 0
Cache = List (Text × FsmState WorkerState WorkerPayload)

abbrev Log : Type 0
Log = List (WorkerState × WorkerState)

abbrev state_text : WorkerState → Text
state_text s = text "state"

abbrev event_text : WorkerEvent → Text
event_text e = text "event"

-- The worker as `spawn_supervised` records it.
abbrev worker : Machine Worker Store Log WorkerState WorkerPayload
worker = record {
  fsm = record { crash_counter = 0 };
  state = new_state (text "worker_1") idle first_payload;
  store = (text "worker_1", (running, idle, first_payload)) ∷ [];
  log = [];
}

-- The events that `main` sends before the panic, with the one that panics.
abbrev tasks : List (WorkerEvent × WorkerPayload)
tasks = (process, first_payload) ∷ (complete, first_payload) ∷ (process, first_payload) ∷ []

abbrev after : Machine Worker Store Log WorkerState WorkerPayload × Bool
after =
    run_caught callbacks on_transition state_text event_text build_graph (main_context assoc) worker
      tasks

-- The second task panics in `idle`.
panics_at_two : (after.1 ≡ true) × (after.0.state.current ≡ idle) × (after.0.fsm.crash_counter ≡ 2)
unfolding is_final Sets.contains in_memory transit_caught on_transition callbacks allowed same
    list_cmp new rows Maps.get Maps.alter new_state
panics_at_two = (refl, refl, refl)

abbrev reborn : FsmActor Worker Store Log WorkerState WorkerEvent WorkerPayload Cache
reborn = record {
  machine = record {
    fsm = after.0.fsm;
    state = new_state (text "worker_1") idle first_payload;
    store = after.0.store;
    log = [];
  };
  graph = build_graph;
  cache = [];
  context = main_context assoc;
  timer_interval = none;
  name = text "worker_1";
  recover_on_start = true;
  system = true;
  effects = [];
}

worker-IsPersisted : IsPersisted assoc worker
unfolding in_memory same list_cmp new_state
worker-IsPersisted = (first_payload, refl)

started-run_caught_example :
    (a' : FsmActor Worker Store Log WorkerState WorkerEvent WorkerPayload Cache) × (started
        callbacks assoc state_text event_text 3 reborn
      ≡ some a')
    × (a'.machine.state.current ≡ after.0.state.current)
    × (a'.machine.state.lifecycle ≡ running)
    × (get assoc a'.cache (text "worker_1") ≡ some a'.machine.state)
unfolding is_final Sets.contains in_memory transit_caught on_transition callbacks allowed same
    list_cmp new events_for rows Maps.get Maps.alter new_state
started-run_caught_example =
    started-run_caught assoc assoc-IsLawful callbacks state_text event_text build_graph
      (main_context assoc) assoc assoc-IsLawful on_transition worker after.0 true tasks 3 reborn
      refl worker-IsPersisted refl refl refl refl refl refl

-- The same events one by one, with the restart, and one task more.
abbrev At : ℕ → ℕ → Machine Worker Store Log WorkerState WorkerPayload → Type 0
At = Shift state_text event_text (main_context assoc) worker

abbrev second : Machine Worker Store Log WorkerState WorkerPayload
second =
    (run_caught callbacks on_transition state_text event_text build_graph (main_context assoc)
      worker ((process, first_payload) ∷ (complete, first_payload) ∷ [])).0

abbrev first : Machine Worker Store Log WorkerState WorkerPayload
first =
    (run_caught callbacks on_transition state_text event_text build_graph (main_context assoc)
      worker ((process, first_payload) ∷ [])).0

shift : At 3 1 reborn.machine
unfolding is_final Sets.contains in_memory transit_caught on_transition callbacks allowed same
    list_cmp new rows Maps.get Maps.alter new_state
shift =
    crashed process first_payload after.0 reborn.machine
      (went complete first_payload second (ok transitioned)
        (went process first_payload first (ok transitioned) begun refl) refl)
      refl refl

Shift-once_example :
    (reborn.machine.fsm.crash_counter ≤ 3)
    × (((◌≡◌ {A = ℕ} 1 0) × (reborn.machine.fsm.crash_counter ≤ 1))
        ⊎ ((◌≡◌ {A = ℕ} 1 1) × (2 ≤ reborn.machine.fsm.crash_counter)))
Shift-once_example = Shift-once state_text event_text (main_context assoc) shift refl (omega arith)
