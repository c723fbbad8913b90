-- ===== src/Error.antt =====
-- The error types (finitomata/src/error.rs). An `impl Display` argument is the text that it prints,
-- and the `#[error("…")]` attributes are the functions that print the three types.
pub mod Stage
use finitomata_rs.Base.{Option, none, some, List, ◌++◌}
use finitomata_rs.Base.Text.{Text, text}
use Stage.{ErrorStage, stage_text}

pub record FinitomataError : Type 0 where
  pub stage : ErrorStage
  pub reason : Text
  pub state : Option Text
  pub event : Option Text

-- `#[error("[{stage}] {reason}")]`
unfoldable pub error_text : FinitomataError → Text
error_text e = text "[" ++ (stage_text e.stage ++ (text "] " ++ e.reason))

unfoldable pub not_responds : Text → Text → FinitomataError
not_responds state event = record {
  stage = ErrorStage.not_responds;
  reason =
      text "state `" ++ (state ++ (text "` does not respond to event `" ++ (event ++ text "`")));
  state = some state;
  event = some event;
}

unfoldable pub not_allowed : Text → Text → Text → FinitomataError
not_allowed from to event = record {
  stage = ErrorStage.not_allowed;
  reason =
      text "transition from `"
      ++ (from
          ++ (text "` to `" ++ (to ++ (text "` via `" ++ (event ++ text "` is not allowed")))));
  state = some from;
  event = some event;
}

-- The constructors that record a stage and a reason alone.
bare : ErrorStage → Text → FinitomataError
bare stage reason = record { stage = stage; reason = reason; state = none; event = none }

unfoldable pub on_transition : Text → FinitomataError
unfolding bare
on_transition = bare ErrorStage.on_transition

unfoldable pub on_enter : Text → FinitomataError
unfolding bare
on_enter = bare ErrorStage.on_enter

unfoldable pub on_exit : Text → FinitomataError
unfolding bare
on_exit = bare ErrorStage.on_exit

unfoldable pub persistency : Text → FinitomataError
unfolding bare
persistency = bare ErrorStage.persistency

unfoldable pub validation : Text → FinitomataError
unfolding bare
validation = bare ErrorStage.validation

pub data ValidationError : Type 0 where
  no_initial_state : ValidationError
  multiple_initial_states : List Text → ValidationError
  no_final_state : ValidationError
  unreachable_state : Text → ValidationError
  orphan_state : Text → ValidationError

pub data PersistencyError : Type 0 where
  load_failed store_failed not_found : Text → PersistencyError

unfoldable pub persistency_text : PersistencyError → Text
persistency_text (load_failed why) = text "load failed: " ++ why
persistency_text (store_failed why) = text "store failed: " ++ why
persistency_text (not_found why) = text "not found: " ++ why
