-- ===== src/Timer/System.antt =====
-- The timer among its callers (finitomata/src/timer.rs): its task, the clock, the receiver of the ticks
-- and the calls of `stop` and `cancel` take their turns in any order.
use finitomata_rs.Base.{ℕ, suc, ◌+◌, ◌≡◌, ap, Bool, true, false, Option, none, some, arith}
use finitomata_rs.Timer.{
  Tokio, Task, starting, selecting, sending, finished, FsmTimer, Choice, Stopping, requesting,
  awaiting, returned, start, proceed, poll, request, requested, awaited, stop, cancel_task,
}

-- The timer with the call of `stop`, if there was one, and the tasks of `cancel` that have not run; with
-- the numbers of the intervals that have elapsed and of the ticks that were sent.
pub record System (I T C : Type 0) : Type 0 where
  pub timer : FsmTimer I T C
  pub stopping : Option Stopping
  pub cancelling : ℕ
  pub elapsed : ℕ
  pub sent : ℕ

pub data Reach {A : Type 0} (R : A → A → Type 0) (s : A) : A → Type 0 where
  here : Reach R s s
  later : {t u : A} → Reach R s t → R t u → Reach R s u

module _ {I T C : Type 0} (tokio : Tokio I T C) where
  -- A tick that the channel takes counts.
  abbrev pub taken : Option (T × Bool) → ℕ
  taken none = 0
  taken (some (s, true)) = 1
  taken (some (s, false)) = 0

  abbrev pub delivers : Task → FsmTimer I T C → ℕ
  delivers sending t = taken (tokio.send_tick t.tick_sender)
  delivers starting t = 0
  delivers selecting t = 0
  delivers finished t = 0

  -- All but the receiver. `stop` takes the timer for its own, so that no call of `cancel` follows it.
  pub data Step (s : System I T C) : System I T C → Type 0 where
    polled :
        (choice : Choice) (t : FsmTimer I T C)
        → poll tokio choice s.timer ≡ some t
        → Step s (record s { timer = t; sent = s.sent + delivers s.timer.handle s.timer })
    elapses : Step s (record s {
      timer = record (s.timer) { interval_timer = tokio.elapse s.timer.interval_timer };
      elapsed = suc s.elapsed;
    })
    stop_called : s.stopping ≡ none → Step s (record s { stopping = some requesting })
    stop_goes :
        (p p' : Stopping) (t : FsmTimer I T C)
        → s.stopping ≡ some p
        → stop tokio p s.timer ≡ some (p', t)
        → Step s (record s { timer = t; stopping = some p' })
    cancel_called : s.stopping ≡ none → Step s (record s { cancelling = suc s.cancelling })
    cancel_goes :
        (n : ℕ) (t : FsmTimer I T C)
        → s.cancelling ≡ suc n
        → cancel_task tokio s.timer ≡ some t
        → Step s (record s { timer = t; cancelling = n })

  pub data Move (s : System I T C) : System I T C → Type 0 where
    own : {t : System I T C} → Step s t → Move s t
    received :
        Move s (record s {
          timer = record (s.timer) { tick_sender = tokio.receive s.timer.tick_sender };
        })

  abbrev pub begin : ℕ → T → System I T C
  begin interval tick_sender = record {
    timer = start tokio interval tick_sender;
    stopping = none;
    cancelling = 0;
    elapsed = 0;
    sent = 0;
  }

  pub poll-finished :
      (choice : Choice) (t : FsmTimer I T C) → t.handle ≡ finished → poll tokio choice t ≡ none
  unfolding poll proceed
  poll-finished choice t e = ap (λ task. proceed tokio task choice t) e

  -- The call of `stop` and the tasks of `cancel` leave the clock and the ticks alone.
  pub record IsLeft (t t' : FsmTimer I T C) : Type 0 where
    pub handle : t'.handle ≡ t.handle
    pub interval_timer : t'.interval_timer ≡ t.interval_timer
    pub tick_sender : t'.tick_sender ≡ t.tick_sender

  pub stop-IsLeft :
      (p p' : Stopping) (t t' : FsmTimer I T C)
      → stop tokio p t ≡ some (p', t')
      → IsLeft t t' × (p' ≡ returned → t.handle ≡ finished)
  unfolding stop request requested awaited
  stop-IsLeft requesting p' t t' e = ground arith
  stop-IsLeft awaiting p' t t' e = ground arith
  stop-IsLeft returned p' t t' e = cc

  pub cancel_task-IsLeft : (t t' : FsmTimer I T C) → cancel_task tokio t ≡ some t' → IsLeft t t'
  unfolding cancel_task request
  cancel_task-IsLeft t t' e = ground arith
