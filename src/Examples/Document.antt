-- ===== src/Examples/Document.antt =====
-- The document workflow (finitomata/examples/persistent_fsm.rs).
pub mod Reviewed
use finitomata_rs.Base.{
  ℕ, zero, suc, ◌+◌, ◌%◌, ◌^◌, ◌≡◌, refl, true, Option, none, some, List, [], ◌∷◌,
}
use finitomata_rs.Base.Ord.{Ord}
use finitomata_rs.Base.Text.{Text, text}
use finitomata_rs.Callbacks.{TransitionResult, Finitomata}
use finitomata_rs.DashMap.{DashMap}
use finitomata_rs.Engine.{TransitContext}
use finitomata_rs.Examples.Numbered.{by_number, row}
use finitomata_rs.Persistency.Memory.{in_memory}
use finitomata_rs.State.{Lifecycle}
use finitomata_rs.Transition.{normal, Transition, TransitionGraph, new}

-- The enums that the attribute generates, in their order.
pub data DocumentState : Type 0 where
  archived deleted draft published review : DocumentState

pub data DocumentEvent : Type 0 where
  approve archive confirm delete reject restore submit : DocumentEvent

abbrev state_number : DocumentState → ℕ
state_number archived = 0
state_number deleted = 1
state_number draft = 2
state_number published = 3
state_number review = 4

abbrev state_of_number : ℕ → DocumentState
state_of_number zero = archived
state_of_number (suc zero) = deleted
state_of_number (suc (suc zero)) = draft
state_of_number (suc (suc (suc zero))) = published
state_of_number _ = review

abbrev event_number : DocumentEvent → ℕ
event_number approve = 0
event_number archive = 1
event_number confirm = 2
event_number delete = 3
event_number reject = 4
event_number restore = 5
event_number submit = 6

abbrev event_of_number : ℕ → DocumentEvent
event_of_number zero = approve
event_of_number (suc zero) = archive
event_of_number (suc (suc zero)) = confirm
event_of_number (suc (suc (suc zero))) = delete
event_of_number (suc (suc (suc (suc zero)))) = reject
event_of_number (suc (suc (suc (suc (suc zero))))) = restore
event_of_number _ = submit

pub state_undo : (s : DocumentState) → state_of_number (state_number s) ≡ s
state_undo archived = refl
state_undo deleted = refl
state_undo draft = refl
state_undo published = refl
state_undo review = refl

pub event_undo : (e : DocumentEvent) → event_of_number (event_number e) ≡ e
event_undo approve = refl
event_undo archive = refl
event_undo confirm = refl
event_undo delete = refl
event_undo reject = refl
event_undo restore = refl
event_undo submit = refl

instance abbrev pub state_ord : Ord DocumentState
state_ord = by_number state_number state_of_number state_undo

instance abbrev pub event_ord : Ord DocumentEvent
event_ord = by_number event_number event_of_number event_undo

-- The lines of the diagram, with the source as the target of the edge to `[*]`.
abbrev pub transitions : List (Transition DocumentState DocumentEvent)
transitions =
    row draft submit normal review
    ∷ row review approve normal published
    ∷ row review reject normal draft
    ∷ row published archive normal archived
    ∷ row archived restore normal draft
    ∷ row draft delete normal deleted
    ∷ row deleted confirm normal deleted
    ∷ []

abbrev pub build_graph : TransitionGraph DocumentState DocumentEvent
build_graph = new draft (deleted ∷ []) transitions

pub data Document : Type 0 where
  document : Document

-- `version` is a `u32`.
pub record DocPayload : Type 0 where
  pub title : Text
  pub version : ℕ
  pub reviewer : Option Text

abbrev pub editor : Text
editor = text "editor@example.com"

-- The `match` on the event; the sum of the versions wraps as in a release build.
unfoldable pub on_transition :
    Document
    → DocumentState
    → DocumentEvent
    → DocPayload
    → DocPayload
    → Document × DocPayload × TransitionResult DocumentState DocPayload
on_transition fsm from submit event_payload payload =
    (fsm, record payload { version = (payload.version + 1) % 2 ^ 32 }, TransitionResult.ok review)
on_transition fsm from approve event_payload payload =
    (fsm, record payload { reviewer = some editor }, TransitionResult.ok published)
on_transition fsm from reject event_payload payload = (fsm, payload, TransitionResult.ok draft)
on_transition fsm from archive event_payload payload = (fsm, payload, TransitionResult.ok archived)
on_transition fsm from restore event_payload payload =
    (fsm, record payload { reviewer = none }, TransitionResult.ok draft)
on_transition fsm from delete event_payload payload = (fsm, payload, TransitionResult.ok deleted)
on_transition fsm from confirm event_payload payload = (fsm, payload, TransitionResult.ok deleted)

-- `on_enter` only prints.
unfoldable pub callbacks : Finitomata Document DocumentState DocumentEvent DocPayload
unfolding on_transition
callbacks = record {
  on_transition = on_transition;
  on_start = λ fsm payload. (fsm, payload);
  on_enter = λ fsm state payload. (fsm, payload);
  on_exit = λ fsm state payload. (fsm, payload);
  on_failure = λ fsm event reason payload. (fsm, payload);
  on_timer = λ fsm state payload. (fsm, payload, none);
  on_terminate = λ fsm payload. (fsm, payload);
}

-- How `main` sets the machine up: with the in-memory backend, `.with_auto_terminate(true)` and no
-- listener.
abbrev pub main_context :
    {D L : Type 0}
    → DashMap D Text (Lifecycle × DocumentState × DocPayload)
    → TransitContext D L DocumentState DocumentEvent DocPayload
main_context dash = record {
  persistency = some (in_memory dash);
  listener = none;
  auto_terminate = true;
}

-- The payload that `main` starts with.
abbrev pub first_payload : DocPayload
first_payload = record { title = text "Architecture RFC"; version = 0; reviewer = none }
