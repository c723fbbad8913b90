-- ===== src/Lib.antt =====
-- finitomata, a library of finite state machines whose instances run as actors.
--
-- A machine is a graph of transitions between the user's states, each with an event and a kind: a hard
-- event of a state fires by itself when the machine starts there, or gets there by another hard event;
-- a soft one may go unanswered. The graph is given in the program or parsed from a Mermaid or a
-- PlantUML diagram. The engine moves one instance along the graph and calls the user's callbacks, the
-- listener and the persistence backend on the way. An actor keeps an instance and runs the engine on the events that it is sent; the supervisor starts
-- the actors, sends them their messages and answers questions from a cache that they all write.
--
-- The modules, and the files of the repository that they are about:
--   Transition    finitomata/src/transition.rs: `TransitionGraph` with its index, the lookups, the
--                 breadth-first search `shortest_path`, the sweep `reachable_from` and `validate`.
--                 Index, ShortestPath, Reachable, Validate and Walks hold the theorems.
--   State         finitomata/src/state.rs: `BoundedHistory` and `FsmState`.
--   Error         finitomata/src/error.rs: the error types and what they print.
--   Callbacks, Listener, Persistency
--                 finitomata/src/callbacks.rs, listener.rs and persistency: the traits, as records of
--                 functions, and the backend that keeps its records in memory.
--   Engine        finitomata/src/engine.rs: `transit`, one function for each of its numbered steps.
--                 Outcome is about the state that it leaves, Persisted about the stored records, Order and
--                 Trace about the callbacks, Bounded about the history, Refused about the answers of the
--                 callback that are not followed, Kept about invariants of the user's data,
--                 Walked about whole runs, as walks of the graph. Panic is `transit` with an
--                 `on_transition` that may panic.
--   Cache         finitomata/src/cache.rs: `StateCache`.
--   Actor         finitomata/src/supervisor.rs, `FsmActor`: its start, its messages and its stop. Settled,
--                 Fired, Started, Recovered and Stopped are about one of these, Restarted about a
--                 start after any events or a panic, Ticks about the timer, and Life about the whole,
--                 with the calls of `on_terminate`.
--   Supervisor    finitomata/src/supervisor.rs, `FinitomataSupervisor`; Messages is `transition`,
--                 `shutdown` and `resolve_pid`, Queries what is answered from the cache, and Spawn
--                 the machines under a supervisor of joerl.
--   Timer         finitomata/src/timer.rs: `FsmTimer`, its task and its calls. Ends is about a timer that is
--                 cancelled. System lets the task and the calls go on in any order, and Ticks and
--                 Blocked are about all such orders.
--   Parser        finitomata/src/parser: both parsers, over the operations of `str` in Strings. Closed and
--                 Sound are about the machine that is read, FirstError about the line that is refused,
--                 RoundTrip about a machine that is written and read back.
--   Macro         finitomata_macro/src: the procedural macro, as a function from the arguments of the
--                 attribute to the names and tables of the code that it emits. Parser is parser.rs,
--                 Validation is validation.rs, Codegen is codegen.rs, Attributes is lib.rs.
--   Examples      finitomata/examples: the machines of order_workflow.rs, turnstile.rs,
--                 persistent_fsm.rs (Document) and supervised_fsm.rs (Worker), without their output.
--   Base, BTree   the shared types and lemmas, `BTreeMap` and `BTreeSet`.
--   Tests         concrete machines, diagrams and actors, with the theorems applied to them.
--
-- How the code is read. A method on `&mut self` returns the changed record. What `transit` may change
-- is one record, `Machine`: the user's `fsm`, the `FsmState`, and the states of the backend and of the
-- listener. A callback is a function that returns, with the two values that it may change before its
-- own result; in Engine/Panic the result of `on_transition` may be missing, which is a panic. `PartialEq`, `Eq` and `Ord` of states and events are the instance arguments `Ord`, and
-- `Debug` is a function into text. Text is the list of its code points. The counts of the history are
-- `usize` and wrap at 2 ^ 64; other numbers only count elements that are in memory.
--
-- Loops. The two searches of the graph run on fuel, one round for each entry of the queue: there is at
-- most one entry for each listed target, and the first, so `suc (target_count transitions)` is enough,
-- as the theorems about them show. The macro's own search of the parsed machine runs on as much fuel as
-- there are transitions, and one more, for the same reason. `do_transition` calls itself for each
-- hard event, and ends only where the hard transitions have no cycle: its fuel counts the transitions,
-- and the bound that is enough is a rank of the states that falls along every hard transition. The
-- task of the timer is a function from one `await` to the next, and a round of it is one such step.
--
-- Parameters, since their code is not in the repository: the concurrent map of the crate dashmap, with
-- its documented laws (DashMap); the actor system of the crate joerl (the record `System` of
-- Supervisor, and `Effect` for what an actor asks of it); the interval and the channels of the crate
-- tokio, with their documented laws (the record `Tokio` of Timer); and the user's callbacks, listener
-- and backend. For the macro: the Unicode tables of `char` and the identifiers that `format_ident!` of the
-- crate quote takes (Macro/Chars), the parsers of the item and of the attributes of the crate syn (the
-- record `Syn`), and the order that the generated enums derive, which is any `Ord`.
--
-- Not modelled: the panics of callbacks other than `on_transition`, and the cancellation of a future;
-- when joerl restarts an actor, and the interleaving of the actors' writes to the cache; the `main` of each
-- example, a script of calls and sleeps; the drop of a timer that was not stopped; and the tokens of the
-- generated code: an identifier is its text, and the declarations are the names and tables that they
-- are made of. The loop of an actor over its mailbox is the actor library's: Actor/Life says what is
-- taken of it.
pub mod Base
pub mod BTree
pub mod DashMap
pub mod Error
pub mod Examples
pub mod Timer
pub mod Transition
pub mod State
pub mod Actor
pub mod Cache
pub mod Callbacks
pub mod Listener
pub mod Macro
pub mod Parser
pub mod Persistency
pub mod Strings
pub mod Supervisor
pub mod Engine
mod Tests
