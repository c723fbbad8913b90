-- ===== src/Tests/Sample.antt =====
-- The machine of the unit tests of finitomata/src/engine.rs: idle, then running, then done, with a
-- detour that is not the shortest way and a soft event. States and events are numbers.
use finitomata_rs.Base.{ℕ, suc, ◌+◌, true, none, some, List, [], ◌∷◌, ◌++◌, ok}
use finitomata_rs.Base.Ord.{nat_ord}
use finitomata_rs.Base.Text.{Text, text}
use finitomata_rs.Callbacks.{TransitionResult, Finitomata, with_defaults}
use finitomata_rs.Engine.{TransitContext, Machine}
use finitomata_rs.Listener.{Listener}
use finitomata_rs.Persistency.{Persistency}
use finitomata_rs.State.{new_state}
use finitomata_rs.Transition.{Transition, TransitionGraph, normal, soft, new}

abbrev pub idle : ℕ
idle = 0

abbrev pub busy : ℕ
busy = 1

abbrev pub done : ℕ
done = 2

abbrev pub start : ℕ
start = 10

abbrev pub finish : ℕ
finish = 11

abbrev pub poke : ℕ
poke = 12

abbrev pub rows_of_sample : List (Transition ℕ ℕ)
rows_of_sample =
    record { from = idle; to = busy ∷ []; event = start; kind = normal }
    ∷ record { from = busy; to = busy ∷ done ∷ []; event = finish; kind = normal }
    ∷ record { from = done; to = done ∷ []; event = poke; kind = soft }
    ∷ []

abbrev pub sample : TransitionGraph ℕ ℕ
sample = new idle (done ∷ []) rows_of_sample

abbrev pub show : ℕ → Text
show n = n ∷ []

-- `finish` from the state `idle` would be answered by a state that is not allowed.
abbrev pub callbacks : Finitomata ℕ ℕ ℕ ℕ
callbacks = with_defaults λ fsm from event event_payload payload.
    (fsm + 1, payload + event_payload, TransitionResult.ok (suc from))

-- A backend that counts, and a listener that logs the pair of states.
abbrev pub backend : Persistency ℕ ℕ ℕ
backend = record {
  load = λ d id. (d, ok none);
  store = λ d id state payload. (d + 1, ok tt);
  store_error = λ d id error. (d, ok tt);
}

abbrev pub logger : Listener (List (ℕ × ℕ)) ℕ ℕ
logger = record { on_transition = λ log name from to event. log ++ (from, to) ∷ [] }

abbrev pub ctx : TransitContext ℕ (List (ℕ × ℕ)) ℕ ℕ ℕ
ctx = record { persistency = some backend; listener = some logger; auto_terminate = true }

abbrev pub machine : Machine ℕ ℕ (List (ℕ × ℕ)) ℕ ℕ
machine = record { fsm = 0; state = new_state (text "test") busy 5; store = 0; log = [] }
