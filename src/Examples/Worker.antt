-- ===== src/Examples/Worker.antt =====
-- The supervised worker (finitomata/examples/supervised_fsm.rs), which panics on purpose.
pub mod Once
use finitomata_rs.Base.{
  ℕ, zero, suc, ◌+◌, ◌%◌, ◌^◌, ◌==◌, ◌≡◌, refl, true, none, some, List, [], ◌∷◌, if◌then◌else◌,
}
use finitomata_rs.Base.Ord.{Ord, nat_ord, list_ord}
use finitomata_rs.Base.Text.{Text, text}
use finitomata_rs.Callbacks.{TransitionResult, Finitomata}
use finitomata_rs.DashMap.{DashMap}
use finitomata_rs.Engine.{TransitContext}
use finitomata_rs.Engine.Panic.{Panicky}
use finitomata_rs.Examples.Numbered.{by_number, row}
use finitomata_rs.Persistency.Memory.{in_memory}
use finitomata_rs.State.{Lifecycle}
use finitomata_rs.Transition.{normal, Transition, TransitionGraph, new}

-- The enums that the attribute generates, in their order.
pub data WorkerState : Type 0 where
  error idle off working : WorkerState

pub data WorkerEvent : Type 0 where
  complete confirm fail process retry shutdown : WorkerEvent

abbrev state_number : WorkerState → ℕ
state_number error = 0
state_number idle = 1
state_number off = 2
state_number working = 3

abbrev state_of_number : ℕ → WorkerState
state_of_number zero = WorkerState.error
state_of_number (suc zero) = idle
state_of_number (suc (suc zero)) = off
state_of_number _ = working

abbrev event_number : WorkerEvent → ℕ
event_number complete = 0
event_number confirm = 1
event_number fail = 2
event_number process = 3
event_number retry = 4
event_number shutdown = 5

abbrev event_of_number : ℕ → WorkerEvent
event_of_number zero = complete
event_of_number (suc zero) = confirm
event_of_number (suc (suc zero)) = fail
event_of_number (suc (suc (suc zero))) = process
event_of_number (suc (suc (suc (suc zero)))) = retry
event_of_number _ = shutdown

pub state_undo : (s : WorkerState) → state_of_number (state_number s) ≡ s
state_undo error = refl
state_undo idle = refl
state_undo off = refl
state_undo working = refl

pub event_undo : (e : WorkerEvent) → event_of_number (event_number e) ≡ e
event_undo complete = refl
event_undo confirm = refl
event_undo fail = refl
event_undo process = refl
event_undo retry = refl
event_undo shutdown = refl

instance abbrev pub state_ord : Ord WorkerState
state_ord = by_number state_number state_of_number state_undo

instance abbrev pub event_ord : Ord WorkerEvent
event_ord = by_number event_number event_of_number event_undo

-- The lines of the diagram, with the source as the target of the edge to `[*]`.
abbrev pub transitions : List (Transition WorkerState WorkerEvent)
transitions =
    row idle process normal working
    ∷ row working complete normal idle
    ∷ row working fail normal WorkerState.error
    ∷ row WorkerState.error retry normal idle
    ∷ row idle shutdown normal off
    ∷ row off confirm normal off
    ∷ []

abbrev pub build_graph : TransitionGraph WorkerState WorkerEvent
build_graph = new idle (off ∷ []) transitions

-- `Worker` has no fields: this one stands for the static `CRASH_COUNTER`, which its callback reads and
-- writes.
pub record Worker : Type 0 where
  pub crash_counter : ℕ

pub record WorkerPayload : Type 0 where
  pub task_name : Text
  pub attempts : ℕ
  pub completed : ℕ

-- `+= 1` on a `u32`, as in a release build, and `fetch_add(1, …)` on an `AtomicU32`, which wraps.
abbrev pub increment : ℕ → ℕ
increment n = (n + 1) % 2 ^ 32

-- The `match` on the event. `none` is the panic.
unfoldable pub on_transition : Panicky Worker WorkerState WorkerEvent WorkerPayload
on_transition fsm from process event_payload payload = (
  record { crash_counter = increment fsm.crash_counter },
  record payload { attempts = increment payload.attempts },
  if fsm.crash_counter == 1 then none else some (TransitionResult.ok working),
)
on_transition fsm from complete event_payload payload = (
  fsm,
  record payload { completed = increment payload.completed },
  some (TransitionResult.ok idle),
)
on_transition fsm from fail event_payload payload =
    (fsm, payload, some (TransitionResult.ok WorkerState.error))
on_transition fsm from retry event_payload payload = (fsm, payload, some (TransitionResult.ok idle))
on_transition fsm from shutdown event_payload payload =
    (fsm, payload, some (TransitionResult.ok off))
on_transition fsm from confirm event_payload payload =
    (fsm, payload, some (TransitionResult.ok off))

-- The other callbacks only print. `on_transition` stands apart, since it may panic: the one here is
-- not called.
unfoldable pub callbacks : Finitomata Worker WorkerState WorkerEvent WorkerPayload
callbacks = record {
  on_transition = λ fsm from event event_payload payload. (fsm, payload, TransitionResult.ok from);
  on_start = λ fsm payload. (fsm, payload);
  on_enter = λ fsm state payload. (fsm, payload);
  on_exit = λ fsm state payload. (fsm, payload);
  on_failure = λ fsm event reason payload. (fsm, payload);
  on_timer = λ fsm state payload. (fsm, payload, none);
  on_terminate = λ fsm payload. (fsm, payload);
}

-- How `main` sets the supervisor up: `.with_persistency(persistency).with_auto_terminate(true)`.
abbrev pub main_context :
    {D L : Type 0}
    → DashMap D Text (Lifecycle × WorkerState × WorkerPayload)
    → TransitContext D L WorkerState WorkerEvent WorkerPayload
main_context store = record {
  persistency = some (in_memory store);
  listener = none;
  auto_terminate = true;
}

abbrev pub first_payload : WorkerPayload
first_payload = record { task_name = text "data-pipeline"; attempts = 0; completed = 0 }
