-- ===== src/Tests/Actor.antt =====
-- An actor of a machine with a hard event: from idle to busy, and from there to done at once.
use mathlib.Core.Option
use finitomata_rs.Base.{
  ℕ, suc, ◌+◌, ◌-◌, ◌≡◌, ◌≢◌, refl, sym, ◌∙◌, true, false, none, some, List, [], ◌∷◌, ◌++◌, err, ok,
  arith,
}
use finitomata_rs.Base.Ord.{same, same_iff, nat_ord, list_ord}
use finitomata_rs.Base.Text.{Text, text}
use finitomata_rs.Actor.{FsmActor, stop, shutdown, do_transition, handle_message, started, stopped}
use finitomata_rs.Actor.Fired.{Fires}
use finitomata_rs.Actor.Settled.{IsRanked, Settled, do_transition-Settled}
use finitomata_rs.Actor.Started.{started-untouched}
use finitomata_rs.Actor.Stopped.{handle_message-stopped}
use finitomata_rs.Cache.{get}
use finitomata_rs.Engine.{transit}
use finitomata_rs.State.{FsmState, new_state, running, terminated}
use finitomata_rs.Supervisor.{System, FinitomataSupervisor, start_fsm, new_supervisor}
use finitomata_rs.Supervisor.Queries.{state_of, current_state, alive}
use finitomata_rs.Supervisor.Started.{start_fsm-alive}
use finitomata_rs.Tests.Dash.{assoc, assoc-IsLawful}
use finitomata_rs.Tests.Sample.{idle, busy, done, start, finish, show, callbacks, ctx}
use finitomata_rs.Transition.Index.{allowed-new}
use finitomata_rs.Transition.{Transition, TransitionGraph, hard, normal, new, events_for, allowed}

abbrev pub steps : List (Transition ℕ ℕ)
steps =
    record { from = idle; to = busy ∷ []; event = start; kind = hard }
    ∷ record { from = busy; to = done ∷ []; event = finish; kind = hard }
    ∷ []

abbrev pub chain : TransitionGraph ℕ ℕ
chain = new idle (done ∷ []) steps

abbrev pub Cache : Type 0
Cache = List (Text × FsmState ℕ ℕ)

abbrev pub actor : FsmActor ℕ ℕ (List (ℕ × ℕ)) ℕ ℕ ℕ Cache
actor = record {
  machine = record { fsm = 0; state = new_state (text "test") idle 5; store = 0; log = [] };
  graph = chain;
  cache = [];
  context = ctx;
  timer_interval = some 7;
  name = text "test";
  recover_on_start = false;
  system = false;
  effects = [];
}

-- The number of hard steps that are left.
abbrev pub rank : ℕ → ℕ
rank s = 2 - s

pub chain-IsRanked : IsRanked chain rank
chain-IsRanked from target event targets h m = ground (
  arith,
  sym (allowed-new idle (done ∷ []) steps from event) ∙ h,
  same_iff idle from,
  same_iff busy from,
  same_iff busy target,
  same_iff done target,
  same_iff start event,
  same_iff finish event,
)

do_transition-Settled_example :
    (a' : FsmActor ℕ ℕ (List (ℕ × ℕ)) ℕ ℕ ℕ Cache) × (do_transition callbacks assoc show show 3
        actor start 1
      ≡ some a')
    × Settled assoc actor a'
    × Fires callbacks show show actor.graph actor.context actor.machine start 1 a'.machine
do_transition-Settled_example =
    do_transition-Settled assoc assoc-IsLawful callbacks show show rank 3 actor start 1
      chain-IsRanked (omega arith)

-- The same machine, with `start` a normal event.
abbrev pending : FsmActor ℕ ℕ (List (ℕ × ℕ)) ℕ ℕ ℕ Cache
pending = record actor {
  graph = new idle (done ∷ []) (
      record { from = idle; to = busy ∷ []; event = start; kind = normal }
      ∷ record { from = busy; to = done ∷ []; event = finish; kind = hard }
      ∷ []);
}

-- It rests in a state that a hard event leaves.
unfired :
    (Option.map
        (λ a. a.machine.state.current)
        (do_transition callbacks assoc show show 3 pending start 1)
      ≡ some busy)
    × (events_for pending.graph busy ≡ (finish, hard) ∷ [])
unfolding do_transition transit allowed same new new_state events_for finitomata_rs.Transition.rows
    finitomata_rs.BTree.Maps.get finitomata_rs.BTree.Maps.alter finitomata_rs.Transition.is_final
    finitomata_rs.BTree.Sets.contains
unfired = (refl, refl)

handle_message-stopped_example :
    (a' : FsmActor ℕ ℕ (List (ℕ × ℕ)) ℕ ℕ ℕ Cache) × (handle_message callbacks assoc show show 3
        actor shutdown
      ≡ some a')
    × (a'.machine.state.lifecycle ≡ terminated)
    × (a'.machine.fsm ≡ (callbacks.on_terminate actor.machine.fsm actor.machine.state.payload).0)
    × (a'.machine.state.current ≡ actor.machine.state.current)
    × (a'.machine.state.history ≡ actor.machine.state.history)
    × (get assoc a'.cache actor.machine.state.name ≡ some a'.machine.state)
    × (a'.effects ≡ actor.effects ++ stop ∷ [])
    × (stopped callbacks assoc a' ≡ a')
handle_message-stopped_example =
    handle_message-stopped assoc assoc-IsLawful callbacks show show 3 actor

-- A supervised actor without a backend, in the last state of the chain.
abbrev fresh : FsmActor ℕ ℕ (List (ℕ × ℕ)) ℕ ℕ ℕ Cache
fresh = record actor {
  machine = record { fsm = 0; state = new_state (text "test") done 5; store = 0; log = [] };
  context = record { persistency = none; listener = none; auto_terminate = true };
  recover_on_start = true;
  system = true;
}

started-untouched_example :
    (a' : FsmActor ℕ ℕ (List (ℕ × ℕ)) ℕ ℕ ℕ Cache) × (started callbacks assoc show show 3 fresh
      ≡ some a')
    × (a'.machine ≡ fresh.machine)
    × (a'.cache ≡ fresh.cache)
unfolding new same events_for finitomata_rs.Transition.rows finitomata_rs.BTree.Maps.get
    finitomata_rs.BTree.Maps.alter new_state
started-untouched_example = started-untouched callbacks assoc show show 3 fresh refl refl

-- An actor system that hands out numbers and keeps the names.
abbrev pub numbers : System (ℕ × List (Text × ℕ)) ℕ ℕ ℕ ℕ (List (ℕ × ℕ)) ℕ ℕ ℕ Cache
numbers = record {
  new = (0, []);
  whereis = λ y name. assoc.get y.1 name;
  register = λ y name pid. (y.0, assoc.insert y.1 name pid);
  spawn = λ y actor. ((suc y.0, y.1), y.0);
  spawn_supervisor = λ y restarts name actor. (suc y.0, y.1);
  new_pid = λ y. ((suc y.0, y.1), y.0);
  send = λ y pid message. (y, err (text "closed"));
}

abbrev pub supervisor : FinitomataSupervisor (ℕ × List (Text × ℕ)) ℕ ℕ (List (ℕ × ℕ)) ℕ ℕ ℕ Cache
unfolding new_supervisor
supervisor = new_supervisor numbers assoc (text "sup") chain 0 []

-- The same with a backend that has a record of one machine.
abbrev keeper : FinitomataSupervisor (ℕ × List (Text × ℕ)) ℕ ℕ (List (ℕ × ℕ)) ℕ ℕ ℕ Cache
keeper = record supervisor {
  context = record (supervisor.context) {
    persistency = some (record {
      load = λ store name. (store + 1, ok (some (running, busy, 9)));
      store = λ store name state payload. (store, ok tt);
      store_error = λ store name error. (store, ok tt);
    });
  };
}

start_fsm-alive_example :
    let (v', answer) = start_fsm numbers callbacks assoc keeper (text "a") 0 5 in
    (answer ≡ ok tt)
    × (alive assoc v' (text "a") ≡ true)
    × (current_state assoc v' (text "a") ≡ some busy)
    × (Option.map (λ s. s.payload) (state_of assoc v' (text "a"))
        ≡ some (callbacks.on_enter (callbacks.on_start 0 9).0 busy (callbacks.on_start 0 9).1).1)
    × (text "b" ≢ text "a" → state_of assoc v' (text "b") ≡ state_of assoc keeper (text "b"))
start_fsm-alive_example =
    start_fsm-alive numbers callbacks assoc assoc-IsLawful keeper (text "a") (text "b") 0 5
