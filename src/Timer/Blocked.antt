-- ===== src/Timer/Blocked.antt =====
-- A timer whose ticks are not received (finitomata/src/timer.rs).
use finitomata_rs.Base.{◌≡◌, ◌≢◌, ◌∙◌, ap, none, some}
use finitomata_rs.Timer.{Tokio, sending, FsmTimer, Choice, returned, on_sent, proceed, poll}
use finitomata_rs.Timer.System.{
  System, Reach, here, later, Step, polled, elapses, stop_called, stop_goes, cancel_called,
  cancel_goes, IsLeft, stop-IsLeft, cancel_task-IsLeft,
}

module _ {I T C : Type 0} (tokio : Tokio I T C) where
  -- The task waits for room in the channel of the ticks, and no call of `stop` has returned.
  pub record IsBlocked (s : System I T C) : Type 0 where
    pub handle : s.timer.handle ≡ sending
    pub full : tokio.send_tick s.timer.tick_sender ≡ none
    pub waits : s.stopping ≢ some returned

  poll-sending :
      (choice : Choice) (t : FsmTimer I T C)
      → t.handle ≡ sending
      → tokio.send_tick t.tick_sender ≡ none
      → poll tokio choice t ≡ none
  unfolding poll proceed on_sent
  poll-sending choice t e full =
      ap (λ task. proceed tokio task choice t) e ∙ ap (on_sent tokio t) full

  left-IsBlocked :
      {s : System I T C} {t : FsmTimer I T C}
      → IsLeft tokio s.timer t
      → IsBlocked s
      → (t.handle ≡ sending) × (tokio.send_tick t.tick_sender ≡ none)
  left-IsBlocked l h = (l.handle ∙ h.handle, ap tokio.send_tick l.tick_sender ∙ h.full)

  Step-IsBlocked : {s s' : System I T C} → Step tokio s s' → IsBlocked s → IsBlocked s'
  Step-IsBlocked {s} (polled choice t e) h = cc (poll-sending choice s.timer h.handle h.full)
  Step-IsBlocked elapses h = record { handle = h.handle; full = h.full; waits = h.waits }
  Step-IsBlocked (stop_called e) h = record { handle = h.handle; full = h.full; waits = λ r. cc }
  Step-IsBlocked {s} (stop_goes p p' t e e') h =
      let (left, over) = stop-IsLeft tokio p p' s.timer t e' in
      let (handle, full) = left-IsBlocked left h in
      record { handle = handle; full = full; waits = λ r. cc (over (cc), h.handle) }
  Step-IsBlocked (cancel_called e) h = record { handle = h.handle; full = h.full; waits = h.waits }
  Step-IsBlocked {s} (cancel_goes n t e e') h =
      let (handle, full) = left-IsBlocked (cancel_task-IsLeft tokio s.timer t e') h in
      record { handle = handle; full = full; waits = h.waits }

  Reach-kept : {s s' : System I T C} → Reach (Step tokio) s s' → IsBlocked s → IsBlocked s'
  Reach-kept here h = h
  Reach-kept (later r step) h = Step-IsBlocked step (Reach-kept r h)

  -- Where the task holds a tick for which the channel has no room, a call of `stop` does not return
  -- before the receiver has taken one or gone, however long it waits, and whatever else is done: the
  -- task does not look at the cancellation while it sends.
  pub Reach-IsBlocked :
      {s s' : System I T C}
      → Reach (Step tokio) s s'
      → IsBlocked s
      → (s'.stopping ≢ some returned) × (s'.timer.handle ≡ sending)
  Reach-IsBlocked r h = let k = Reach-kept r h in (k.waits, k.handle)
