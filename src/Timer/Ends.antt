-- ===== src/Timer/Ends.antt =====
-- That the task of a cancelled timer ends (finitomata/src/timer.rs).
use finitomata_rs.Base.{
  ℕ, suc, ◌+◌, ◌-◌, ◌≤◌, ◌<◌, ◌≡◌, refl, ap, Bool, true, false, Option, none, some, List, [], ◌∷◌,
  length, is_some, unwrap_or, arith,
}
use finitomata_rs.Timer.{
  Tokio, Ticked, Sent, IsLawful, Task, starting, selecting, sending, finished, FsmTimer, Choice,
  tick_first, cancel_first, awaiting, returned, on_tick, on_cancel, or_else, select, skip, on_sent,
  proceed, poll, stop, awaited,
}

module _ {I T C : Type 0} (tokio : Tokio I T C) where
  -- The task alone, which is polled once for each choice.
  unfoldable pub polls : List Choice → FsmTimer I T C → FsmTimer I T C
  polls [] t = t
  polls (choice ∷ rest) t = polls rest (unwrap_or (poll tokio choice t) t)

  module _ (laws : IsLawful tokio) where
    -- The polls that are left at most, by where the task stands, while the clock stands still.
    abbrev rounds : Task → ℕ → ℕ
    rounds starting due = due + due
    rounds selecting due = suc (due + due)
    rounds sending due = suc (suc (due + due))
    rounds finished due = 0

    -- The task was asked to end. Its first tick is ready if it waits for that, and the channel has room
    -- for the ticks that are ready.
    abbrev pub Asked : Task → FsmTimer I T C → Type 0
    Asked starting t =
        (is_some (tokio.recv_cancel t.cancel) ≡ true)
        × (0 < laws.due t.interval_timer)
        × (laws.due t.interval_timer ≤ laws.room t.tick_sender)
    Asked selecting t =
        (is_some (tokio.recv_cancel t.cancel) ≡ true)
        × (laws.due t.interval_timer ≤ laws.room t.tick_sender)
    Asked sending t =
        (is_some (tokio.recv_cancel t.cancel) ≡ true)
        × (laws.due t.interval_timer < laws.room t.tick_sender)
    Asked finished t = Unit {0}

    -- A poll brings the end nearer: `due` ticks were ready before it.
    abbrev Nearer : Task → ℕ → FsmTimer I T C → Type 0
    Nearer task due t =
        Asked t.handle t × (rounds t.handle (laws.due t.interval_timer) ≤ rounds task due - 1)

    skip-Nearer :
        (t : FsmTimer I T C) (i : Option I)
        → Ticked laws.due t.interval_timer i
        → Asked starting t
        → Nearer starting (laws.due t.interval_timer) (unwrap_or (skip tokio t i) t)
    unfolding skip
    skip-Nearer t none due h = absurd (omega (arith, due, h.1))
    skip-Nearer t (some i) due h = ((h.0, omega (arith, due, h.2)), omega (arith, due))

    -- The `select!` in both orders, by what its branches find.
    select-Nearer :
        (choice : Choice) (t : FsmTimer I T C) (i : Option I) (c : Option C)
        → Ticked laws.due t.interval_timer i
        → is_some c ≡ true
        → Asked selecting t
        → Nearer selecting (laws.due t.interval_timer) (
            unwrap_or
              (elim choice [
                | tick_first ↦ or_else tokio (on_tick tokio t i) (on_cancel tokio t c)
                | cancel_first ↦ or_else tokio (on_cancel tokio t c) (on_tick tokio t i)
              ])
              t)
    unfolding on_tick on_cancel or_else
    select-Nearer choice t i none due found h = cc
    select-Nearer tick_first t none (some c) due found h = (tt, omega arith)
    select-Nearer tick_first t (some i) (some c) due found h =
        ((h.0, omega (arith, due, h.1)), omega (arith, due))
    select-Nearer cancel_first t i (some c) due found h = (tt, omega arith)

    Sent-Nearer :
        (t : FsmTimer I T C) (r : Option (T × Bool))
        → Sent laws.room t.tick_sender r
        → Asked sending t
        → Nearer sending (laws.due t.interval_timer) (unwrap_or (on_sent tokio t r) t)
    unfolding on_sent
    Sent-Nearer t none room h = absurd (omega (arith, room, h.1))
    Sent-Nearer t (some (s, true)) room h = ((h.0, omega (arith, room, h.1)), omega arith)
    Sent-Nearer t (some (s, false)) room h = (tt, omega arith)

    proceed-Nearer :
        (task : Task) (choice : Choice) (t : FsmTimer I T C)
        → Asked task t
        → t.handle ≡ task
        → Nearer task (laws.due t.interval_timer) (unwrap_or (proceed tokio task choice t) t)
    unfolding proceed select
    proceed-Nearer starting choice t h e =
        skip-Nearer t (tokio.tick t.interval_timer) (laws.due-tick t.interval_timer) h
    proceed-Nearer selecting tick_first t h e =
        select-Nearer tick_first t (tokio.tick t.interval_timer) (tokio.recv_cancel t.cancel)
          (laws.due-tick t.interval_timer) h.0 h
    proceed-Nearer selecting cancel_first t h e =
        select-Nearer cancel_first t (tokio.tick t.interval_timer) (tokio.recv_cancel t.cancel)
          (laws.due-tick t.interval_timer) h.0 h
    proceed-Nearer sending choice t h e =
        Sent-Nearer t (tokio.send_tick t.tick_sender) (laws.room-send t.tick_sender) h
    proceed-Nearer finished choice t h e = rw e (tt, omega arith)

    rounds-zero :
        (task : Task) (t : FsmTimer I T C)
        → Asked task t
        → rounds task (laws.due t.interval_timer) ≡ 0
        → task ≡ finished
    rounds-zero starting t h z = absurd (omega (arith, z, h.1))
    rounds-zero selecting t h z = absurd (omega (arith, z))
    rounds-zero sending t h z = absurd (omega (arith, z))
    rounds-zero finished t h z = refl

    polls-finished :
        (choices : List Choice) (t : FsmTimer I T C)
        → Asked t.handle t
        → rounds t.handle (laws.due t.interval_timer) ≤ length choices
        → (polls choices t).handle ≡ finished
    unfolding polls poll
    polls-finished [] t h enough = rounds-zero t.handle t h (omega arith)
    polls-finished (choice ∷ rest) t h enough =
        let (h', fewer) = proceed-Nearer t.handle choice t h refl in
        polls-finished rest (unwrap_or (proceed tokio t.handle choice t) t) h'
          (omega (arith, fewer))

    rounds-le : (task : Task) (due : ℕ) → rounds task due ≤ due + due + 2
    rounds-le starting due = omega arith
    rounds-le selecting due = omega arith
    rounds-le sending due = omega arith
    rounds-le finished due = omega arith

    awaiting-returned :
        (t : FsmTimer I T C) → t.handle ≡ finished → stop tokio awaiting t ≡ some (returned, t)
    unfolding stop awaited
    awaiting-returned t e = ap (awaited tokio t) e

    -- A timer that was asked to end does so while the clock stands still, and then a call of `stop`
    -- that waits for it returns. Whatever `select!` polls first in each round, the task is done after
    -- two rounds for each tick that is ready and two more, provided that the channel has room for
    -- those ticks, and for the one in hand, and that the first tick is ready if the task still waits
    -- for it.
    pub stop-returned :
        (choices : List Choice) (t : FsmTimer I T C)
        → Asked t.handle t
        → laws.due t.interval_timer + laws.due t.interval_timer + 2 ≤ length choices
        → ((polls choices t).handle ≡ finished)
          × (stop tokio awaiting (polls choices t) ≡ some (returned, polls choices t))
    stop-returned choices t h enough =
        let done =
          polls-finished choices t h
            (omega (arith, rounds-le t.handle (laws.due t.interval_timer))) in
        (done, awaiting-returned (polls choices t) done)
