-- ===== src/Tests/Timers.antt =====
-- A timer over counters in place of tokio: the ticks that are ready, the room that is left, and the
-- cancellation as an empty, a full and a closed channel.
use finitomata_rs.Base.{
  ℕ, zero, suc, ◌≤◌, ◌≡◌, ◌≢◌, refl, Bool, true, false, Option, none, some, [], ◌∷◌, arith,
}
use finitomata_rs.Timer.{
  Tokio, Ticked, Sent, IsLawful, FsmTimer, sending, finished, tick_first, cancel_first, requesting,
  awaiting, returned, poll, start, stop,
}
use finitomata_rs.Timer.Blocked.{IsBlocked, Reach-IsBlocked}
use finitomata_rs.Timer.Ends.{polls, stop-returned}
use finitomata_rs.Timer.System.{
  System, Reach, here, later, polled, elapses, stop_called, stop_goes, own, received, begin, Step,
  Move,
}
use finitomata_rs.Timer.Ticks.{Reach-ticks}

abbrev less : ℕ → Option ℕ
less zero = none
less (suc n) = some n

abbrev put : ℕ → Option (ℕ × Bool)
put zero = none
put (suc n) = some (n, true)

data Cancellation : Type 0 where
  empty full closed : Cancellation

abbrev send : Cancellation → Option (Cancellation × Bool)
send empty = some (full, true)
send full = none
send closed = some (closed, false)

abbrev recv : Cancellation → Option Cancellation
recv empty = none
recv full = some empty
recv closed = none

abbrev counters : Tokio ℕ ℕ Cancellation
counters = record {
  interval = λ period. 1;
  tick = less;
  elapse = λ i. suc i;
  send_tick = put;
  receive = λ t. suc t;
  channel = λ n. empty;
  send_cancel = send;
  recv_cancel = recv;
  close = λ c. closed;
}

due-less : (i : ℕ) → Ticked (λ n. n) i (less i)
due-less zero = refl
due-less (suc i) = refl

room-put : (t : ℕ) → Sent (λ n. n) t (put t)
room-put zero = refl
room-put (suc t) = refl

recv-send :
    (c c' : Cancellation) → send c ≡ some (c', true) → finitomata_rs.Base.is_some (recv c') ≡ true
recv-send empty c' h = ground arith
recv-send full c' h = ground arith
recv-send closed c' h = ground arith

abbrev counters_laws : IsLawful counters
counters_laws = record {
  due = λ n. n;
  due-interval = λ period. refl;
  due-tick = due-less;
  due-elapse = λ i. refl;
  room = λ n. n;
  room-send = room-put;
  recv-send = recv-send;
}

-- One tick in hand and one ready, and a request to end.
abbrev asked : FsmTimer ℕ ℕ Cancellation
asked = record { handle = sending; interval_timer = 1; tick_sender = 2; cancel = full }

stop-returned_example :
    let choices = tick_first ∷ tick_first ∷ tick_first ∷ cancel_first ∷ [] in
    ((polls counters choices asked).handle ≡ finished)
    × (stop counters awaiting (polls counters choices asked)
        ≡ some (returned, polls counters choices asked))
stop-returned_example =
    stop-returned counters counters_laws (tick_first ∷ tick_first ∷ tick_first ∷ cancel_first ∷ [])
      asked (refl, omega arith) (omega arith)

-- A system with the way that leads to it.
record Run (R : System ℕ ℕ Cancellation → System ℕ ℕ Cancellation → Type 0)
    (s : System ℕ ℕ Cancellation) : Type 0 where
  last : System ℕ ℕ Cancellation
  reach : Reach R s last

-- The first tick is skipped, an interval elapses, its tick is sent, and the timer is stopped.
abbrev stop_run : Run (Move counters) (begin counters 5 3)
unfolding start poll stop
stop_run = record {
  last = _;
  reach =
      later
        (later
          (later
            (later
              (later
                (later
                  (later (later (later here (own (polled tick_first _ refl))) (own elapses))
                    (own (polled tick_first _ refl)))
                  (own (polled tick_first _ refl)))
                (own (stop_called refl)))
              (own (stop_goes requesting awaiting _ refl refl)))
            (own (polled tick_first _ refl)))
          (own (stop_goes awaiting returned _ refl refl)))
        (own elapses);
}

abbrev after : Run (Move counters) (stop_run.last)
after = record { last = _; reach = later (later here (own elapses)) received }

Reach-ticks_example :
    (after.last.sent ≤ after.last.elapsed)
    × (stop_run.last.stopping ≡ some returned → after.last.sent ≡ stop_run.last.sent)
Reach-ticks_example = Reach-ticks counters counters_laws 5 3 stop_run.reach after.reach

one_tick : (stop_run.last.sent ≡ 1) × (stop_run.last.stopping ≡ some returned)
unfolding start poll stop
one_tick = (refl, refl)

-- A tick in hand, and no room for it.
abbrev stuck : System ℕ ℕ Cancellation
stuck = record {
  timer = record { handle = sending; interval_timer = 0; tick_sender = 0; cancel = empty };
  stopping = none;
  cancelling = 0;
  elapsed = 4;
  sent = 3;
}

abbrev waiting : Run (Step counters) stuck
unfolding stop
waiting = record {
  last = _;
  reach =
      later (later (later here (stop_called refl)) (stop_goes requesting awaiting _ refl refl))
        elapses;
}

stuck-IsBlocked : IsBlocked counters stuck
stuck-IsBlocked = record { handle = refl; full = refl; waits = λ r. cc }

Reach-IsBlocked_example :
    (waiting.last.stopping ≢ some returned) × (waiting.last.timer.handle ≡ sending)
Reach-IsBlocked_example = Reach-IsBlocked counters waiting.reach stuck-IsBlocked
