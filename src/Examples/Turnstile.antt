-- ===== src/Examples/Turnstile.antt =====
-- The turnstile (finitomata/examples/turnstile.rs).
pub mod Paid
use finitomata_rs.Base.{ℕ, zero, suc, ◌+◌, ◌%◌, ◌^◌, ◌≡◌, refl, true, none, List, [], ◌∷◌}
use finitomata_rs.Base.Ord.{Ord}
use finitomata_rs.Base.Text.{text}
use finitomata_rs.Callbacks.{TransitionResult, Finitomata}
use finitomata_rs.Engine.{TransitContext}
use finitomata_rs.Examples.Numbered.{by_number, row}
use finitomata_rs.Transition.{normal, Transition, TransitionGraph, new}

-- The enums that the attribute generates, in their order.
pub data TurnstileState : Type 0 where
  locked off unlocked : TurnstileState

pub data TurnstileEvent : Type 0 where
  coin off push reset : TurnstileEvent

abbrev state_number : TurnstileState → ℕ
state_number locked = 0
state_number off = 1
state_number unlocked = 2

abbrev state_of_number : ℕ → TurnstileState
state_of_number zero = locked
state_of_number (suc zero) = TurnstileState.off
state_of_number _ = unlocked

abbrev event_number : TurnstileEvent → ℕ
event_number coin = 0
event_number off = 1
event_number push = 2
event_number reset = 3

abbrev event_of_number : ℕ → TurnstileEvent
event_of_number zero = coin
event_of_number (suc zero) = TurnstileEvent.off
event_of_number (suc (suc zero)) = push
event_of_number _ = reset

pub state_undo : (s : TurnstileState) → state_of_number (state_number s) ≡ s
state_undo locked = refl
state_undo off = refl
state_undo unlocked = refl

pub event_undo : (e : TurnstileEvent) → event_of_number (event_number e) ≡ e
event_undo coin = refl
event_undo off = refl
event_undo push = refl
event_undo reset = refl

instance abbrev pub state_ord : Ord TurnstileState
state_ord = by_number state_number state_of_number state_undo

instance abbrev pub event_ord : Ord TurnstileEvent
event_ord = by_number event_number event_of_number event_undo

-- The lines of the diagram, with the source as the target of the edge to `[*]`.
abbrev pub transitions : List (Transition TurnstileState TurnstileEvent)
transitions =
    row locked coin normal unlocked
    ∷ row unlocked push normal locked
    ∷ row unlocked coin normal unlocked
    ∷ row locked TurnstileEvent.off normal TurnstileState.off
    ∷ row TurnstileState.off reset normal TurnstileState.off
    ∷ []

abbrev pub build_graph : TransitionGraph TurnstileState TurnstileEvent
build_graph = new locked (TurnstileState.off ∷ []) transitions

-- Each field is a `u32`, and its sum wraps as in a release build.
pub record Turnstile : Type 0 where
  pub coins : ℕ
  pub pushes : ℕ

pub record TurnstilePayload : Type 0 where
  pub total_coins : ℕ
  pub total_pushes : ℕ

abbrev pub increment : ℕ → ℕ
increment n = (n + 1) % 2 ^ 32

-- The `match` on the event.
unfoldable pub on_transition :
    Turnstile
    → TurnstileState
    → TurnstileEvent
    → TurnstilePayload
    → TurnstilePayload
    → Turnstile × TurnstilePayload × TransitionResult TurnstileState TurnstilePayload
on_transition fsm from coin event_payload payload = (
  record fsm { coins = increment fsm.coins },
  record payload { total_coins = increment payload.total_coins },
  TransitionResult.ok unlocked,
)
on_transition fsm from push event_payload payload = (
  record fsm { pushes = increment fsm.pushes },
  record payload { total_pushes = increment payload.total_pushes },
  TransitionResult.ok locked,
)
on_transition fsm from off event_payload payload =
    (fsm, payload, TransitionResult.ok TurnstileState.off)
on_transition fsm from reset event_payload payload =
    (fsm, payload, TransitionResult.ok TurnstileState.off)

-- `on_enter`, `on_exit` and `on_terminate` only print.
unfoldable pub callbacks : Finitomata Turnstile TurnstileState TurnstileEvent TurnstilePayload
unfolding on_transition
callbacks = record {
  on_transition = on_transition;
  on_start = λ fsm payload. (fsm, payload);
  on_enter = λ fsm state payload. (fsm, payload);
  on_exit = λ fsm state payload. (fsm, payload);
  on_failure = λ fsm event reason payload. (fsm, payload);
  on_timer = λ fsm state payload. (fsm, payload, none);
  on_terminate = λ fsm payload. (fsm, payload);
}

-- How `main` sets the machine up: `.with_auto_terminate(true)`, and neither backend nor listener.
abbrev pub main_context :
    {D L : Type 0} → TransitContext D L TurnstileState TurnstileEvent TurnstilePayload
main_context = record { persistency = none; listener = none; auto_terminate = true }
