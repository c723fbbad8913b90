-- ===== src/Callbacks.antt =====
-- The trait that a user implements (finitomata/src/callbacks.rs). `F` stands for the implementing type:
-- a callback takes `&mut self` and `&mut payload`, so it returns both, before its own result. Its body
-- is the user's: it is a parameter, and it is taken to return (Engine/Panic has a callback that panics).
use finitomata_rs.Base.{Option, none}
use finitomata_rs.Error.{FinitomataError}

pub data TransitionResult (S P : Type 0) : Type 0 where
  ok : S → TransitionResult S P
  ok_with_payload : S → P → TransitionResult S P
  error : FinitomataError → TransitionResult S P

pub record Finitomata (F S E P : Type 0) : Type 0 where
  pub on_transition : F → S → E → P → P → F × P × TransitionResult S P
  pub on_start : F → P → F × P
  pub on_enter : F → S → P → F × P
  pub on_exit : F → S → P → F × P
  pub on_failure : F → E → FinitomataError → P → F × P
  pub on_timer : F → S → P → F × P × Option (E × P)
  pub on_terminate : F → P → F × P

-- An implementation that gives `on_transition` alone: the other bodies are the trait's.
abbrev pub with_defaults :
    {F S E P : Type 0} → (F → S → E → P → P → F × P × TransitionResult S P) → Finitomata F S E P
with_defaults on_transition = record {
  on_transition = on_transition;
  on_start = λ fsm payload. (fsm, payload);
  on_enter = λ fsm state payload. (fsm, payload);
  on_exit = λ fsm state payload. (fsm, payload);
  on_failure = λ fsm event reason payload. (fsm, payload);
  on_timer = λ fsm state payload. (fsm, payload, none);
  on_terminate = λ fsm payload. (fsm, payload);
}
