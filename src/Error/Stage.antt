-- ===== src/Error/Stage.antt =====
-- `ErrorStage` (finitomata/src/error.rs): the phase of the processing that produced an error.
use finitomata_rs.Base.Text.{Text, text}

pub data ErrorStage : Type 0 where
  on_transition on_enter on_exit persistency not_allowed not_responds validation unknown :
      ErrorStage

-- `Display for ErrorStage`
unfoldable pub stage_text : ErrorStage → Text
stage_text on_transition = text "on_transition"
stage_text on_enter = text "on_enter"
stage_text on_exit = text "on_exit"
stage_text persistency = text "persistency"
stage_text not_allowed = text "not_allowed"
stage_text not_responds = text "not_responds"
stage_text validation = text "validation"
stage_text unknown = text "unknown"
