-- ===== src/Tests/Gate.antt =====
-- The turnstile of the examples, over a few events.
use finitomata_rs.Base.{ℕ, ◌≤◌, ◌<◌, ◌≡◌, refl, List, [], ◌∷◌, arith}
use finitomata_rs.Base.Ord.{nat_ord, list_ord}
use finitomata_rs.Base.Text.{Text, text}
use finitomata_rs.Engine.{Machine}
use finitomata_rs.Engine.Bounded.{transit_all}
use finitomata_rs.Examples.Turnstile.{
  TurnstileState, TurnstileEvent, TurnstilePayload, Turnstile, locked, unlocked, coin, push,
  state_ord, event_ord, build_graph, callbacks, main_context,
}
use finitomata_rs.Examples.Turnstile.Paid.{transit_all-IsPaid}
use finitomata_rs.State.{new_state}

abbrev no_payload : TurnstilePayload
no_payload = record { total_coins = 0; total_pushes = 0 }

abbrev gate : Machine Turnstile ℕ ℕ TurnstileState TurnstilePayload
gate = record {
  fsm = record { coins = 0; pushes = 0 };
  state = new_state (text "gate_1") locked no_payload;
  store = 0;
  log = 0;
}

-- The events that `main` sends, with one more push in front.
abbrev visits : List (TurnstileEvent × TurnstilePayload)
visits =
    (push, no_payload)
    ∷ (coin, no_payload)
    ∷ (push, no_payload)
    ∷ (TurnstileEvent.off, no_payload)
    ∷ []

abbrev state_text : TurnstileState → Text
state_text s = text "state"

abbrev event_text : TurnstileEvent → Text
event_text e = text "event"

transit_all-IsPaid_example :
    let m' = transit_all callbacks state_text event_text build_graph main_context gate visits in
    (m'.fsm.pushes ≤ m'.fsm.coins)
    × (m'.state.current ≡ unlocked → m'.fsm.pushes < m'.fsm.coins)
    × (m'.state.payload.total_coins ≡ m'.fsm.coins)
    × (m'.state.payload.total_pushes ≡ m'.fsm.pushes)
unfolding new_state
transit_all-IsPaid_example =
    transit_all-IsPaid state_text event_text gate visits refl refl refl (omega arith)
