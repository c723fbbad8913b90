-- ===== src/Examples/Turnstile/Paid.antt =====
-- That nobody passes the turnstile (finitomata/examples/turnstile.rs) without a coin.
use finitomata_rs.Base.{ℕ, suc, ◌+◌, ◌^◌, ◌≤◌, ◌<◌, ◌≡◌, some, ap, List, [], ◌∷◌, length, arith}
use finitomata_rs.Base.Ord.{same}
use finitomata_rs.Base.Text.{Text}
use finitomata_rs.BTree.Maps
use finitomata_rs.Callbacks.{TransitionResult}
use finitomata_rs.Engine.{Machine}
use finitomata_rs.Engine.Bounded.{transit_all}
use finitomata_rs.Engine.Kept.{Answered, Answered-row, IsKept, transit_all-Remains}
use finitomata_rs.Examples.Turnstile.{
  TurnstileState, TurnstileEvent, locked, unlocked, coin, push, reset, state_ord, event_ord,
  build_graph, Turnstile, TurnstilePayload, increment, on_transition, callbacks, main_context,
}
use finitomata_rs.Transition.{EventKind, normal, new, rows, allowed}

-- A coin that opened the turnstile and was not used.
abbrev pub held : TurnstileState → ℕ
held locked = 0
held TurnstileState.off = 0
held unlocked = 1

-- Every push, and the open turnstile, was paid for; the payload counts what the machine counts. There is
-- room in a `u32` for as many events as are left.
pub record IsPaid (left : ℕ) (s : TurnstileState) (fsm : Turnstile) (payload : TurnstilePayload)
    : Type 0 where
  pub small : fsm.coins + left < 2 ^ 32
  pub paid : fsm.pushes + held s ≤ fsm.coins
  pub coins : payload.total_coins ≡ fsm.coins
  pub pushes : payload.total_pushes ≡ fsm.pushes

IsPaid-fewer :
    (left : ℕ) (s : TurnstileState) (fsm : Turnstile) (payload : TurnstilePayload)
    → IsPaid (suc left) s fsm payload
    → IsPaid left s fsm payload
IsPaid-fewer left s fsm payload h = ground (arith, h.small, h.paid, h.coins, h.pushes)

IsPaid-coin :
    (left : ℕ) (s : TurnstileState) (fsm : Turnstile) (payload : TurnstilePayload)
    → IsPaid (suc left) s fsm payload
    → IsPaid left unlocked
        (record fsm { coins = increment fsm.coins })
        (record payload { total_coins = increment payload.total_coins })
IsPaid-coin left s fsm payload h = record {
  small = omega (arith, h.small);
  paid = omega (arith, h.small, h.paid);
  coins = ap increment h.coins;
  pushes = h.pushes;
}

IsPaid-push :
    (left : ℕ) (fsm : Turnstile) (payload : TurnstilePayload)
    → IsPaid (suc left) unlocked fsm payload
    → IsPaid left locked
        (record fsm { pushes = increment fsm.pushes })
        (record payload { total_pushes = increment payload.total_pushes })
IsPaid-push left fsm payload h = record {
  small = omega (arith, h.small);
  paid = omega (arith, h.small, h.paid);
  coins = h.coins;
  pushes = ap increment h.pushes;
}

IsPaid-off :
    (left : ℕ) (fsm : Turnstile) (payload : TurnstilePayload)
    → IsPaid (suc left) locked fsm payload
    → IsPaid left TurnstileState.off fsm payload
IsPaid-off left fsm payload h = record {
  small = omega (arith, h.small);
  paid = h.paid;
  coins = h.coins;
  pushes = h.pushes;
}

IsPaid-start :
    (left : ℕ) (s : TurnstileState) (fsm : Turnstile) (payload : TurnstilePayload)
    → left < 2 ^ 32
    → s ≡ locked
    → fsm ≡ record { coins = 0; pushes = 0 }
    → payload ≡ record { total_coins = 0; total_pushes = 0 }
    → IsPaid left s fsm payload
IsPaid-start left s fsm payload few e f p = ground arith

IsPaid-unlocked :
    (left : ℕ) (s : TurnstileState) (fsm : Turnstile) (payload : TurnstilePayload)
    → IsPaid left s fsm payload
    → s ≡ unlocked
    → fsm.pushes < fsm.coins
IsPaid-unlocked left s fsm payload h e = ground (arith, h.paid)

answer-IsPaid :
    (left : ℕ) (from : TurnstileState) (fsm : Turnstile) (event : TurnstileEvent)
    (event_payload payload : TurnstilePayload) (targets : List TurnstileState) (kind : EventKind)
    → allowed build_graph from event ≡ some (targets, kind)
    → IsPaid (suc left) from fsm payload
    → let (fsm', payload', result) = on_transition fsm from event event_payload payload in
      Answered (IsPaid left) from targets fsm' payload' result
unfolding on_transition allowed rows new same Maps.get Maps.alter
answer-IsPaid left locked fsm coin ep p targets kind e h =
    Answered-row (IsPaid left) locked _ _ (TransitionResult.ok unlocked) (unlocked ∷ [], normal) e
      (IsPaid-coin left locked fsm p h)
answer-IsPaid left locked fsm TurnstileEvent.off ep p targets kind e h =
    Answered-row (IsPaid left) locked fsm p (TransitionResult.ok TurnstileState.off)
      (TurnstileState.off ∷ [], normal) e (IsPaid-off left fsm p h)
answer-IsPaid left locked fsm push ep p targets kind e h = cc
answer-IsPaid left locked fsm reset ep p targets kind e h = cc
answer-IsPaid left TurnstileState.off fsm coin ep p targets kind e h = cc
answer-IsPaid left TurnstileState.off fsm TurnstileEvent.off ep p targets kind e h = cc
answer-IsPaid left TurnstileState.off fsm push ep p targets kind e h = cc
answer-IsPaid left TurnstileState.off fsm reset ep p targets kind e h =
    Answered-row (IsPaid left) TurnstileState.off fsm p (TransitionResult.ok TurnstileState.off)
      (TurnstileState.off ∷ [], normal) e (IsPaid-fewer left TurnstileState.off fsm p h)
answer-IsPaid left unlocked fsm coin ep p targets kind e h =
    Answered-row (IsPaid left) unlocked _ _ (TransitionResult.ok unlocked) (unlocked ∷ [], normal) e
      (IsPaid-coin left unlocked fsm p h)
answer-IsPaid left unlocked fsm push ep p targets kind e h =
    Answered-row (IsPaid left) unlocked _ _ (TransitionResult.ok locked) (locked ∷ [], normal) e
      (IsPaid-push left fsm p h)
answer-IsPaid left unlocked fsm TurnstileEvent.off ep p targets kind e h = cc
answer-IsPaid left unlocked fsm reset ep p targets kind e h = cc

pub callbacks-IsKept : (left : ℕ) → IsKept callbacks build_graph (IsPaid (suc left)) (IsPaid left)
unfolding callbacks
callbacks-IsKept left = record {
  weaker = IsPaid-fewer left;
  on_exit = λ s fsm payload h. h;
  answer = answer-IsPaid left;
  on_enter = λ s fsm payload h. h;
  on_failure = λ s fsm event reason payload h. h;
  on_terminate = λ s fsm payload h. h;
}

module _ {D L : Type 0} (show_state : TurnstileState → Text)
    (show_event : TurnstileEvent → Text) where
  -- Nobody passes the turnstile of the example without a coin. From a turnstile with no coins and no
  -- pushes, which is locked, and over any row of fewer than 2 ^ 32 events, there are never more pushes
  -- than coins, and fewer where it is unlocked; and the payload counts the same coins and pushes as the
  -- machine, whatever events were refused.
  pub transit_all-IsPaid :
      (m : Machine Turnstile D L TurnstileState TurnstilePayload)
      (events : List (TurnstileEvent × TurnstilePayload))
      → m.state.current ≡ locked
      → m.fsm ≡ record { coins = 0; pushes = 0 }
      → m.state.payload ≡ record { total_coins = 0; total_pushes = 0 }
      → length events < 2 ^ 32
      → let m' = transit_all callbacks show_state show_event build_graph main_context m events in
        (m'.fsm.pushes ≤ m'.fsm.coins)
        × (m'.state.current ≡ unlocked → m'.fsm.pushes < m'.fsm.coins)
        × (m'.state.payload.total_coins ≡ m'.fsm.coins)
        × (m'.state.payload.total_pushes ≡ m'.fsm.pushes)
  transit_all-IsPaid m events e f p few =
      let m' = transit_all callbacks show_state show_event build_graph main_context m events in
      let h : IsPaid 0 m'.state.current m'.fsm m'.state.payload =
        transit_all-Remains callbacks show_state show_event build_graph main_context IsPaid m events
          callbacks-IsKept tt
          (IsPaid-start (length events) m.state.current m.fsm m.state.payload few e f p) in
      (
        omega (arith, h.paid),
        IsPaid-unlocked 0 m'.state.current m'.fsm m'.state.payload h,
        h.coins,
        h.pushes,
      )
