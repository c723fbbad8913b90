-- ===== src/Tests/Recovery.antt =====
-- An actor that recovers what a transition of the sample machine has stored.
use finitomata_rs.Base.{ℕ, ◌≡◌, refl, true, false, none, some, List, [], ◌∷◌}
use finitomata_rs.Base.Ord.{nat_ord, list_ord, same, list_cmp}
use finitomata_rs.Base.Text.{Text, text}
use finitomata_rs.Actor.{FsmActor, started}
use finitomata_rs.Actor.Recovered.{IsRecovered}
use finitomata_rs.Cache.{get}
use finitomata_rs.Engine.{TransitContext, Machine, transit, is_soft_event}
use finitomata_rs.Engine.Bounded.{transit_all}
use finitomata_rs.Engine.Persisted.{IsPersisted}
use finitomata_rs.Actor.Restarted.{started-transit_all}
use finitomata_rs.Persistency.Memory.{in_memory}
use finitomata_rs.State.{FsmState, Lifecycle, running, new_state}
use finitomata_rs.Supervisor.{FinitomataSupervisor}
use finitomata_rs.Supervisor.Spawn.{supervised}
use finitomata_rs.Supervisor.Supervised.{started-supervised}
use finitomata_rs.Tests.Dash.{assoc, assoc-IsLawful}
use finitomata_rs.Tests.Sample.{idle, busy, done, finish, poke, sample, show, callbacks}
use finitomata_rs.Transition.{new, events_for, rows, allowed}
use finitomata_rs.BTree.Maps

abbrev Store : Type 0
Store = List (Text × (Lifecycle × ℕ × ℕ))

abbrev Cache : Type 0
Cache = List (Text × FsmState ℕ ℕ)

abbrev memory : TransitContext Store (List (ℕ × ℕ)) ℕ ℕ ℕ
memory = record { persistency = some (in_memory assoc); listener = none; auto_terminate = false }

-- The machine before the transition, and the one that an actor is made with after it.
abbrev before : Machine ℕ Store (List (ℕ × ℕ)) ℕ ℕ
before = record { fsm = 0; state = new_state (text "test") busy 5; store = []; log = [] }

abbrev after : Machine ℕ Store (List (ℕ × ℕ)) ℕ ℕ
after = (transit callbacks show show sample before finish 7 memory).0

abbrev reborn : FsmActor ℕ Store (List (ℕ × ℕ)) ℕ ℕ ℕ Cache
reborn = record {
  machine = record {
    fsm = 0;
    state = new_state (text "test") idle 0;
    store = after.store;
    log = [];
  };
  graph = sample;
  cache = [];
  context = memory;
  timer_interval = none;
  name = text "test";
  recover_on_start = true;
  system = true;
  effects = [];
}

-- A supervisor whose store has a record of the machine.
abbrev keeper : FinitomataSupervisor ℕ ℕ Store (List (ℕ × ℕ)) ℕ ℕ ℕ Cache
keeper = record {
  id = text "sup";
  system = 0;
  graph = sample;
  cache = [];
  actors = [];
  context = memory;
  timer_interval = none;
  store = after.store;
  log = [];
}

started-supervised_example :
    (a' : FsmActor ℕ Store (List (ℕ × ℕ)) ℕ ℕ ℕ Cache) × (started callbacks assoc show show 3
        (supervised 0 keeper (text "test") 5)
      ≡ some a')
    × IsRecovered callbacks assoc (supervised 0 keeper (text "test") 5) done 12 a'
unfolding in_memory transit allowed same list_cmp new events_for rows Maps.get Maps.alter new_state
started-supervised_example =
    started-supervised assoc assoc-IsLawful callbacks assoc assoc-IsLawful show show keeper 0
      (text "test") 5 3 refl refl

-- The machine after its first transition is on record, and two more events change nothing.
after-IsPersisted : IsPersisted assoc after
unfolding in_memory transit allowed same list_cmp new rows Maps.get Maps.alter new_state
after-IsPersisted = (12, refl)

started-transit_all_example :
    let m' = transit_all callbacks show show sample memory after ((finish, 8) ∷ (poke, 9) ∷ []) in
    (a' : FsmActor ℕ Store (List (ℕ × ℕ)) ℕ ℕ ℕ Cache) × (started callbacks assoc show show 3 reborn
      ≡ some a')
    × (a'.machine.state.current ≡ m'.state.current)
    × (a'.machine.state.lifecycle ≡ running)
    × (get assoc a'.cache (text "test") ≡ some a'.machine.state)
unfolding in_memory transit allowed same list_cmp new events_for rows Maps.get Maps.alter new_state
    is_soft_event
started-transit_all_example =
    started-transit_all assoc assoc-IsLawful callbacks show show sample memory assoc assoc-IsLawful
      after (transit_all callbacks show show sample memory after ((finish, 8) ∷ (poke, 9) ∷ []))
      ((finish, 8) ∷ (poke, 9) ∷ []) 3 reborn refl after-IsPersisted refl refl refl refl refl refl
