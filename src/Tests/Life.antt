-- ===== src/Tests/Life.antt =====
-- The life of the actor of Actor: a transition, a message after it, and a shutdown.
use finitomata_rs.Base.{ℕ, ◌+◌, ◌≡◌, refl, false, some, List, [], ◌∷◌, Memᴰ, arith}
use finitomata_rs.Base.Ord.{nat_ord, list_ord}
use finitomata_rs.Base.Text.{text}
use finitomata_rs.Actor.{FsmActor, Message, shutdown, transition, timer_tick, handle_message}
use finitomata_rs.Actor.Life.{live}
use finitomata_rs.Actor.Life.Calls.{Alive, Stopped}
use finitomata_rs.Actor.Life.Whole.{live-Stopped}
use finitomata_rs.Actor.Ticks.{requests, next_tick, handle_message-ticks}
use finitomata_rs.Engine.Trace.{Call, traced}
use finitomata_rs.State.{new_state, terminated}
use finitomata_rs.Tests.Actor.{Cache, actor, chain, rank, chain-IsRanked}
use finitomata_rs.Tests.Dash.{assoc, assoc-IsLawful}
use finitomata_rs.Tests.Sample.{idle, start, show, callbacks, ctx}

abbrev recorded : FsmActor (ℕ × List (Call ℕ ℕ)) ℕ (List (ℕ × ℕ)) ℕ ℕ ℕ Cache
recorded = record {
  machine = record { fsm = (0, []); state = new_state (text "test") idle 5; store = 0; log = [] };
  graph = chain;
  cache = [];
  context = ctx;
  timer_interval = some 7;
  name = text "test";
  recover_on_start = false;
  system = false;
  effects = [];
}

recorded-Alive : Alive recorded
unfolding new_state
recorded-Alive = record { lifecycle = refl; times = refl; asked = refl }

abbrev messages : List (Message ℕ ℕ)
messages = timer_tick ∷ transition start 3 ∷ shutdown ∷ []

live-Stopped_example :
    (b : FsmActor (ℕ × List (Call ℕ ℕ)) ℕ (List (ℕ × ℕ)) ℕ ℕ ℕ Cache) × (live
        (traced callbacks)
        assoc
        show
        show
        3
        recorded
        messages
      ≡ some b)
    × Stopped b
    × (Memᴰ shutdown messages → b.machine.state.lifecycle ≡ terminated)
live-Stopped_example =
    live-Stopped callbacks assoc assoc-IsLawful show show rank 3 (λ s. omega arith) recorded
      messages chain-IsRanked recorded-Alive

handle_message-ticks_example :
    (b : FsmActor ℕ ℕ (List (ℕ × ℕ)) ℕ ℕ ℕ Cache) × (handle_message callbacks assoc show show 3
        actor timer_tick
      ≡ some b)
    × (b.timer_interval ≡ actor.timer_interval)
    × (requests b.effects ≡ requests actor.effects + next_tick {E = ℕ} {P = ℕ} timer_tick b)
handle_message-ticks_example =
    handle_message-ticks callbacks assoc show show assoc-IsLawful rank 3 (λ s. omega arith) actor
      timer_tick chain-IsRanked
