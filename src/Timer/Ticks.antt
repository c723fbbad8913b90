-- ===== src/Timer/Ticks.antt =====
-- The ticks that a timer sends (finitomata/src/timer.rs), in whatever order things go on.
use finitomata_rs.Base.{ℕ, suc, ◌+◌, ◌≤◌, ◌≡◌, refl, sym, ◌∙◌, subst, some, arith}
use finitomata_rs.Timer.{
  Tokio, IsLawful, Task, starting, selecting, sending, finished, FsmTimer, Choice, tick_first,
  cancel_first, returned, start, on_tick, on_cancel, or_else, select, skip, on_sent, proceed, poll,
}
use finitomata_rs.Timer.System.{
  System, Reach, here, later, delivers, Step, polled, elapses, stop_called, stop_goes,
  cancel_called, cancel_goes, Move, own, received, begin, poll-finished, IsLeft, stop-IsLeft,
  cancel_task-IsLeft,
}

module _ {I T C : Type 0} (tokio : Tokio I T C) where
  module _ (laws : IsLawful tokio) where
    -- The ticks that were sent, are in hand or are ready, and those that the clock owes.
    abbrev Owed : Task → ℕ → ℕ → ℕ → Type 0
    Owed starting due sent elapsed = (sent ≡ 0) × (due ≤ elapsed + 1)
    Owed selecting due sent elapsed = sent + due ≤ elapsed
    Owed sending due sent elapsed = sent + due + 1 ≤ elapsed
    Owed finished due sent elapsed = sent ≤ elapsed

    record IsCounted (s : System I T C) : Type 0 where
      owed : Owed s.timer.handle (laws.due s.timer.interval_timer) s.sent s.elapsed
      done : s.stopping ≡ some returned → s.timer.handle ≡ finished

    proceed-Owed :
        (task : Task) (choice : Choice) (t t' : FsmTimer I T C) (sent elapsed : ℕ)
        → proceed tokio task choice t ≡ some t'
        → Owed task (laws.due t.interval_timer) sent elapsed
        → Owed t'.handle (laws.due t'.interval_timer) (sent + delivers tokio task t) elapsed
    unfolding proceed select skip on_tick on_cancel or_else on_sent
    proceed-Owed starting choice t t' sent elapsed e h =
        ground (arith, laws.due-tick t.interval_timer)
    proceed-Owed selecting tick_first t t' sent elapsed e h =
        ground (arith, laws.due-tick t.interval_timer)
    proceed-Owed selecting cancel_first t t' sent elapsed e h =
        ground (arith, laws.due-tick t.interval_timer)
    proceed-Owed sending choice t t' sent elapsed e h = ground arith
    proceed-Owed finished choice t t' sent elapsed e h = cc

    Owed-elapse :
        (task : Task) (due sent elapsed : ℕ)
        → Owed task due sent elapsed
        → Owed task (suc due) sent (suc elapsed)
    Owed-elapse starting due sent elapsed h = omega arith
    Owed-elapse selecting due sent elapsed h = omega arith
    Owed-elapse sending due sent elapsed h = omega arith
    Owed-elapse finished due sent elapsed h = omega arith

    Owed-left :
        (t t' : FsmTimer I T C) (sent elapsed : ℕ)
        → IsLeft tokio t t'
        → Owed t.handle (laws.due t.interval_timer) sent elapsed
        → Owed t'.handle (laws.due t'.interval_timer) sent elapsed
    Owed-left t t' sent elapsed l h =
        subst (λ (p : Task × I). Owed p.0 (laws.due p.1) sent elapsed)
          (λ i. (sym l.handle i, sym l.interval_timer i)) h

    Step-IsCounted : {s s' : System I T C} → Step tokio s s' → IsCounted s → IsCounted s'
    unfolding poll
    Step-IsCounted {s} (polled choice t e) h = record {
      owed = proceed-Owed s.timer.handle choice s.timer t s.sent s.elapsed e h.owed;
      done = λ r. cc (poll-finished tokio choice s.timer (h.done r));
    }
    Step-IsCounted {s} elapses h = record {
      owed =
          subst (λ due. Owed s.timer.handle due s.sent (suc s.elapsed))
            (sym (laws.due-elapse s.timer.interval_timer))
            (Owed-elapse s.timer.handle _ s.sent s.elapsed h.owed);
      done = h.done;
    }
    Step-IsCounted (stop_called e) h = record { owed = h.owed; done = λ r. cc }
    Step-IsCounted {s} (stop_goes p p' t e e') h =
        let (left, over) = stop-IsLeft tokio p p' s.timer t e' in
        record {
          owed = Owed-left s.timer t s.sent s.elapsed left h.owed;
          done = λ r. left.handle ∙ over (cc);
        }
    Step-IsCounted (cancel_called e) h = record { owed = h.owed; done = h.done }
    Step-IsCounted {s} (cancel_goes n t e e') h =
        let left = cancel_task-IsLeft tokio s.timer t e' in
        record {
          owed = Owed-left s.timer t s.sent s.elapsed left h.owed;
          done = λ r. left.handle ∙ h.done r;
        }

    Move-IsCounted : {s s' : System I T C} → Move tokio s s' → IsCounted s → IsCounted s'
    Move-IsCounted (own step) h = Step-IsCounted step h
    Move-IsCounted received h = record { owed = h.owed; done = h.done }

    Reach-IsCounted : {s s' : System I T C} → Reach (Move tokio) s s' → IsCounted s → IsCounted s'
    Reach-IsCounted here h = h
    Reach-IsCounted (later r move) h = Move-IsCounted move (Reach-IsCounted r h)

    begin-IsCounted :
        (interval : ℕ) (tick_sender : T) → IsCounted (begin tokio interval tick_sender)
    unfolding start
    begin-IsCounted interval tick_sender = record {
      owed = (refl, omega (arith, laws.due-interval interval));
      done = λ r. cc;
    }

    Owed-sent : (task : Task) (due sent elapsed : ℕ) → Owed task due sent elapsed → sent ≤ elapsed
    Owed-sent starting due sent elapsed h = omega arith
    Owed-sent selecting due sent elapsed h = omega arith
    Owed-sent sending due sent elapsed h = omega arith
    Owed-sent finished due sent elapsed h = omega arith

    -- Once the task is done, no tick is sent.
    Move-finished :
        {s s' : System I T C}
        → Move tokio s s'
        → s.timer.handle ≡ finished
        → (s'.timer.handle ≡ finished) × (s'.sent ≡ s.sent)
    Move-finished {s} (own (polled choice t e)) f = cc (poll-finished tokio choice s.timer f)
    Move-finished (own elapses) f = (f, refl)
    Move-finished (own (stop_called e)) f = (f, refl)
    Move-finished {s} (own (stop_goes p p' t e e')) f =
        ((stop-IsLeft tokio p p' s.timer t e').0.handle ∙ f, refl)
    Move-finished (own (cancel_called e)) f = (f, refl)
    Move-finished {s} (own (cancel_goes n t e e')) f =
        ((cancel_task-IsLeft tokio s.timer t e').handle ∙ f, refl)
    Move-finished received f = (f, refl)

    Reach-finished :
        {s s' : System I T C}
        → Reach (Move tokio) s s'
        → s.timer.handle ≡ finished
        → (s'.timer.handle ≡ finished) × (s'.sent ≡ s.sent)
    Reach-finished here f = (f, refl)
    Reach-finished (later r move) f =
        let (f', e) = Reach-finished r f in let (f'', e') = Move-finished move f' in (f'', e' ∙ e)

    -- A timer sends at most one tick for each interval that has elapsed since its start, so none at its
    -- start, and none once a call of `stop` has returned. This holds in whatever order the task, the
    -- clock, the receiver and the calls of `stop` and `cancel` go on.
    pub Reach-ticks :
        (interval : ℕ) (tick_sender : T) {s s' : System I T C}
        → Reach (Move tokio) (begin tokio interval tick_sender) s
        → Reach (Move tokio) s s'
        → (s'.sent ≤ s'.elapsed) × (s.stopping ≡ some returned → s'.sent ≡ s.sent)
    Reach-ticks interval tick_sender {s} {s'} r r' =
        let h = Reach-IsCounted r (begin-IsCounted interval tick_sender) in
        let h' = Reach-IsCounted r' h in
        (
          Owed-sent s'.timer.handle _ s'.sent s'.elapsed h'.owed,
          λ e. (Reach-finished r' (h.done e)).1,
        )
