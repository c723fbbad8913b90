-- ===== src/Timer.antt =====
-- The recurring timer (`FsmTimer` of finitomata/src/timer.rs). The crate tokio is a parameter: `I` stands
-- for its interval, `T` for the channel of the ticks and `C` for that of the cancellation. An operation
-- that has to wait answers `none`.
pub mod Ends
pub mod System
pub mod Ticks
pub mod Blocked
use finitomata_rs.Base.{ℕ, suc, ◌≡◌, Bool, true, false, Option, none, some, is_some}

-- `tokio::time::interval` and the `tick` of it, `mpsc::channel::<()>(n)`, and `send` and `recv` of the two
-- channels: a `send` answers if the message was taken, and a `recv` ends also where no sender is left.
-- `close` is what the end of the task does, which drops the receiver of the cancellation. The interval
-- elapses, and the receiver of the ticks takes one or closes its channel, by themselves.
pub record Tokio (I T C : Type 0) : Type 0 where
  pub interval : ℕ → I
  pub tick : I → Option I
  pub elapse : I → I
  pub send_tick : T → Option (T × Bool)
  pub receive : T → T
  pub channel : ℕ → C
  pub send_cancel : C → Option (C × Bool)
  pub recv_cancel : C → Option C
  pub close : C → C

-- What is documented of them. `due` counts the ticks that are ready, the first of them at once, and the
-- missed ones later; `room` counts the messages that the channel can take.
abbrev pub Ticked : {I : Type 0} → (I → ℕ) → I → Option I → Type 0
Ticked due i none = due i ≡ 0
Ticked due i (some j) = due i ≡ suc (due j)

abbrev pub Sent : {T : Type 0} → (T → ℕ) → T → Option (T × Bool) → Type 0
Sent room t none = room t ≡ 0
Sent room t (some (t', true)) = room t ≡ suc (room t')
Sent room t (some (t', false)) = Unit {0}

pub record IsLawful {I T C : Type 0} (tokio : Tokio I T C) : Type 0 where
  pub due : I → ℕ
  pub due-interval : (period : ℕ) → due (tokio.interval period) ≡ 1
  pub due-tick : (i : I) → Ticked due i (tokio.tick i)
  pub due-elapse : (i : I) → due (tokio.elapse i) ≡ suc (due i)
  pub room : T → ℕ
  pub room-send : (t : T) → Sent room t (tokio.send_tick t)
  pub recv-send :
      (c c' : C) → tokio.send_cancel c ≡ some (c', true) → is_some (tokio.recv_cancel c') ≡ true

-- Where the spawned task stands: at its first tick, at the `select!`, at the `send` of a tick, or after
-- its loop.
pub data Task : Type 0 where
  starting selecting sending finished : Task

-- `handle` stands for its task, and the two channels and the interval are shared with it.
pub record FsmTimer (I T C : Type 0) : Type 0 where
  pub handle : Task
  pub interval_timer : I
  pub tick_sender : T
  pub cancel : C

-- The branch that `select!` polls first, which it chooses at random.
pub data Choice : Type 0 where
  tick_first cancel_first : Choice

-- How far a call of `stop` has come: at the `send`, at the handle, or at its end.
pub data Stopping : Type 0 where
  requesting awaiting returned : Stopping

module _ {I T C : Type 0} (tokio : Tokio I T C) where
  unfoldable pub start : ℕ → T → FsmTimer I T C
  start interval tick_sender = record {
    handle = starting;
    interval_timer = tokio.interval interval;
    tick_sender = tick_sender;
    cancel = tokio.channel 1;
  }

  -- The branches of the `select!`.
  on_tick : FsmTimer I T C → Option I → Option (FsmTimer I T C)
  on_tick t none = none
  on_tick t (some i) = some (record t { handle = sending; interval_timer = i })

  on_cancel : FsmTimer I T C → Option C → Option (FsmTimer I T C)
  on_cancel t none = none
  on_cancel t (some c) = some (record t { handle = finished; cancel = tokio.close c })

  or_else : Option (FsmTimer I T C) → Option (FsmTimer I T C) → Option (FsmTimer I T C)
  or_else none next = next
  or_else (some t) next = some t

  select : Choice → FsmTimer I T C → Option (FsmTimer I T C)
  unfolding on_tick on_cancel or_else
  select tick_first t =
      or_else (on_tick t (tokio.tick t.interval_timer)) (on_cancel t (tokio.recv_cancel t.cancel))
  select cancel_first t =
      or_else (on_cancel t (tokio.recv_cancel t.cancel)) (on_tick t (tokio.tick t.interval_timer))

  -- `interval_timer.tick().await` before the loop.
  skip : FsmTimer I T C → Option I → Option (FsmTimer I T C)
  skip t none = none
  skip t (some i) = some (record t { handle = selecting; interval_timer = i })

  -- `if tick_sender.send(TimerTick).await.is_err() { break; }`
  on_sent : FsmTimer I T C → Option (T × Bool) → Option (FsmTimer I T C)
  on_sent t none = none
  on_sent t (some (s, true)) = some (record t { handle = selecting; tick_sender = s })
  on_sent t (some (s, false)) =
      some (record t { handle = finished; tick_sender = s; cancel = tokio.close t.cancel })

  -- The task, from where it stands.
  proceed : Task → Choice → FsmTimer I T C → Option (FsmTimer I T C)
  unfolding skip select on_sent
  proceed starting choice t = skip t (tokio.tick t.interval_timer)
  proceed selecting choice t = select choice t
  proceed sending choice t = on_sent t (tokio.send_tick t.tick_sender)
  proceed finished choice t = none

  -- The task up to its next `await`.
  unfoldable pub poll : Choice → FsmTimer I T C → Option (FsmTimer I T C)
  unfolding proceed
  poll choice t = proceed t.handle choice t

  -- `self.cancel.send(()).await` of `stop` and `cancel`, whose answer is dropped.
  unfoldable pub request : FsmTimer I T C → Option (C × Bool) → Option (FsmTimer I T C)
  request t none = none
  request t (some (c, taken)) = some (record t { cancel = c })

  -- `self.handle.await`
  awaited : FsmTimer I T C → Task → Option (Stopping × FsmTimer I T C)
  awaited t finished = some (returned, t)
  awaited t starting = none
  awaited t selecting = none
  awaited t sending = none

  requested : Option (FsmTimer I T C) → Option (Stopping × FsmTimer I T C)
  requested none = none
  requested (some t) = some (awaiting, t)

  -- A call of `stop` up to its next `await`.
  unfoldable pub stop : Stopping → FsmTimer I T C → Option (Stopping × FsmTimer I T C)
  unfolding request requested awaited
  stop requesting t = requested (request t (tokio.send_cancel t.cancel))
  stop awaiting t = awaited t t.handle
  stop returned t = none

  -- The task that `cancel` spawns.
  unfoldable pub cancel_task : FsmTimer I T C → Option (FsmTimer I T C)
  unfolding request
  cancel_task t = request t (tokio.send_cancel t.cancel)
