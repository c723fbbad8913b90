-- ===== src/Listener.antt =====
-- The observer of transitions (finitomata/src/listener.rs). `L` stands for what a listener writes to:
-- `&self` may hide a log, a channel or a counter.
use finitomata_rs.Base.Text.{Text}

pub record Listener (L S E : Type 0) : Type 0 where
  pub on_transition : L → Text → S → S → E → L

-- `NoopListener`
abbrev pub noop_listener : {L S E : Type 0} → Listener L S E
noop_listener = record { on_transition = λ log name from to event. log }

-- `TracingListener`, with `tracing::info!` as the argument.
abbrev pub tracing_listener : {L S E : Type 0} → (L → Text → S → S → E → L) → Listener L S E
tracing_listener info = record {
  on_transition = λ log name from to event. info log name from to event;
}
