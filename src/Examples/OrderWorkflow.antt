-- ===== src/Examples/OrderWorkflow.antt =====
-- The order workflow (finitomata/examples/order_workflow.rs). The amount is only printed: its type is a
-- parameter.
pub mod Closing
use finitomata_rs.Base.{
  ℕ, zero, suc, ◌+◌, ◌%◌, ◌^◌, ◌≡◌, refl, ◌&&◌, Option, none, some, List, [], ◌∷◌, ◌++◌, leb,
  if◌then◌else◌,
}
use finitomata_rs.Base.Ord.{Ord, same}
use finitomata_rs.Base.Text.{Text, text}
use finitomata_rs.Callbacks.{TransitionResult, Finitomata}
use finitomata_rs.Examples.Numbered.{by_number, row}
use finitomata_rs.Transition.{normal, hard, Transition, TransitionGraph, new}

-- The enums that the attribute generates, in their order.
pub data OrderWorkflowState : Type 0 where
  cancelled confirmed delivered pending shipped : OrderWorkflowState

pub data OrderWorkflowEvent : Type 0 where
  cancel close confirm deliver ship : OrderWorkflowEvent

abbrev state_number : OrderWorkflowState → ℕ
state_number cancelled = 0
state_number confirmed = 1
state_number delivered = 2
state_number pending = 3
state_number shipped = 4

abbrev state_of_number : ℕ → OrderWorkflowState
state_of_number zero = cancelled
state_of_number (suc zero) = confirmed
state_of_number (suc (suc zero)) = delivered
state_of_number (suc (suc (suc zero))) = pending
state_of_number _ = shipped

abbrev event_number : OrderWorkflowEvent → ℕ
event_number cancel = 0
event_number close = 1
event_number confirm = 2
event_number deliver = 3
event_number ship = 4

abbrev event_of_number : ℕ → OrderWorkflowEvent
event_of_number zero = cancel
event_of_number (suc zero) = close
event_of_number (suc (suc zero)) = confirm
event_of_number (suc (suc (suc zero))) = deliver
event_of_number _ = ship

pub state_undo : (s : OrderWorkflowState) → state_of_number (state_number s) ≡ s
state_undo cancelled = refl
state_undo confirmed = refl
state_undo delivered = refl
state_undo pending = refl
state_undo shipped = refl

pub event_undo : (e : OrderWorkflowEvent) → event_of_number (event_number e) ≡ e
event_undo cancel = refl
event_undo close = refl
event_undo confirm = refl
event_undo deliver = refl
event_undo ship = refl

instance abbrev pub state_ord : Ord OrderWorkflowState
state_ord = by_number state_number state_of_number state_undo

instance abbrev pub event_ord : Ord OrderWorkflowEvent
event_ord = by_number event_number event_of_number event_undo

-- `Display` of a state and `Debug` of an event.
abbrev pub display_state : OrderWorkflowState → Text
display_state cancelled = text "cancelled"
display_state confirmed = text "confirmed"
display_state delivered = text "delivered"
display_state pending = text "pending"
display_state shipped = text "shipped"

abbrev pub debug_event : OrderWorkflowEvent → Text
debug_event cancel = text "Cancel"
debug_event close = text "Close"
debug_event confirm = text "Confirm"
debug_event deliver = text "Deliver"
debug_event ship = text "Ship"

-- The lines of the diagram, with the source as the target of the edges to `[*]`.
abbrev pub transitions : List (Transition OrderWorkflowState OrderWorkflowEvent)
transitions =
    row pending confirm hard confirmed
    ∷ row confirmed ship normal shipped
    ∷ row shipped deliver normal delivered
    ∷ row delivered close normal delivered
    ∷ row pending cancel normal cancelled
    ∷ row confirmed cancel normal cancelled
    ∷ row cancelled close normal cancelled
    ∷ []

abbrev pub build_graph : TransitionGraph OrderWorkflowState OrderWorkflowEvent
build_graph = new pending (cancelled ∷ delivered ∷ []) transitions

pub record OrderWorkflow : Type 0 where
  pub retry_count : ℕ

pub record OrderPayload (A : Type 0) : Type 0 where
  pub order_id : Text
  pub customer : Text
  pub amount : A
  pub notes : List Text

-- The `match` on the event.
unfoldable pub target_of : OrderWorkflowEvent → OrderWorkflowState
target_of confirm = confirmed
target_of ship = shipped
target_of deliver = delivered
target_of cancel = cancelled
target_of close = delivered

module _ {A : Type 0} where
  unfoldable pub on_transition :
      OrderWorkflow
      → OrderWorkflowState
      → OrderWorkflowEvent
      → OrderPayload A
      → OrderPayload A
      → OrderWorkflow × OrderPayload A × TransitionResult OrderWorkflowState (OrderPayload A)
  unfolding target_of
  on_transition fsm from event event_payload payload =
      let note = display_state from ++ (text " → " ++ debug_event event) in
      (
        fsm,
        record payload { notes = payload.notes ++ note ∷ [] },
        TransitionResult.ok (target_of event),
      )

  -- `retry_count` is a `u32`, and its sum wraps as in a release build.
  unfoldable pub on_timer :
      OrderWorkflow
      → OrderWorkflowState
      → OrderPayload A
      → OrderWorkflow × OrderPayload A × Option (OrderWorkflowEvent × OrderPayload A)
  on_timer fsm state payload =
      let retry_count = (fsm.retry_count + 1) % 2 ^ 32 in
      (
        record { retry_count = retry_count },
        payload,
        if same state confirmed && leb 2 retry_count then some (ship, payload) else none,
      )

  unfoldable pub callbacks :
      Finitomata OrderWorkflow OrderWorkflowState OrderWorkflowEvent (OrderPayload A)
  unfolding on_transition on_timer
  callbacks = record {
    on_transition = on_transition;
    on_start = λ fsm payload. (fsm, payload);
    on_enter = λ fsm state payload. (fsm, payload);
    on_exit = λ fsm state payload. (fsm, payload);
    on_failure = λ fsm event reason payload. (fsm, payload);
    on_timer = on_timer;
    on_terminate = λ fsm payload. (fsm, payload);
  }
