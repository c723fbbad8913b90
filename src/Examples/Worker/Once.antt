-- ===== src/Examples/Worker/Once.antt =====
-- The worker over its panics and restarts (finitomata/examples/supervised_fsm.rs).
use finitomata_rs.Base.{
  ℕ, suc, ◌^◌, ◌≤◌, ◌<◌, ◌==◌, ◌≡◌, refl, subst, sym, ap, arith, ◌⊎◌, inl, inr, Bool, true, false,
  Result, is_some, not,
}
use finitomata_rs.Base.Text.{Text}
use finitomata_rs.Engine.{TransitContext, TransitOutcome, Machine}
use finitomata_rs.Engine.Panic.{Ending, returned, panicked, left, transit_caught}
use finitomata_rs.Engine.Panic.Called.{IsQuiet, is_panic, Called, transit_caught-Called}
use finitomata_rs.Error.{FinitomataError}
use finitomata_rs.Examples.Worker.{
  WorkerState, WorkerEvent, complete, confirm, fail, process, retry, shutdown, WorkerPayload,
  Worker, state_ord, event_ord, build_graph, on_transition, callbacks, increment,
}

callbacks-IsQuiet : IsQuiet callbacks
unfolding callbacks
callbacks-IsQuiet = record {
  on_exit = λ fsm s payload. refl;
  on_enter = λ fsm s payload. refl;
  on_failure = λ fsm event reason payload. refl;
  on_terminate = λ fsm payload. refl;
}

-- What a call of `transit` does to the counter, and if it panics.
abbrev Ticks : ℕ → ℕ → Bool → Type 0
Ticks c c' panics = ((c' ≡ c) × (panics ≡ false)) ⊎ ((c' ≡ increment c) × (panics ≡ (c == 1)))

on_transition-Ticks :
    (fsm : Worker) (from : WorkerState) (event : WorkerEvent)
    (event_payload payload : WorkerPayload)
    → let answer = on_transition fsm from event event_payload payload in
      Ticks fsm.crash_counter answer.0.crash_counter (not (is_some answer.2))
unfolding on_transition
on_transition-Ticks fsm from process event_payload payload = ground arith
on_transition-Ticks fsm from complete event_payload payload = inl (refl, refl)
on_transition-Ticks fsm from fail event_payload payload = inl (refl, refl)
on_transition-Ticks fsm from retry event_payload payload = inl (refl, refl)
on_transition-Ticks fsm from shutdown event_payload payload = inl (refl, refl)
on_transition-Ticks fsm from confirm event_payload payload = inl (refl, refl)

-- The counter has not passed the events, and it is past one once there was the panic.
abbrev IsCounted : ℕ → ℕ → ℕ → Type 0
IsCounted events panics c = (c ≤ events) × (((panics ≡ 0) × (c ≤ 1)) ⊎ ((panics ≡ 1) × (2 ≤ c)))

Ticks-returned :
    (events panics c c' : ℕ)
    → suc events < 2 ^ 32
    → Ticks c c' false
    → IsCounted events panics c
    → IsCounted (suc events) panics c'
Ticks-returned events panics c c' few t h = ground arith

Ticks-panicked :
    (events panics c c' : ℕ)
    → suc events < 2 ^ 32
    → Ticks c c' true
    → IsCounted events panics c
    → IsCounted (suc events) (suc panics) c'
Ticks-panicked events panics c c' few t h = ground arith

module _ {D L : Type 0} (show_state : WorkerState → Text) (show_event : WorkerEvent → Text)
    (ctx : TransitContext D L WorkerState WorkerEvent WorkerPayload) where
  -- The events that a worker was given and its panics, in number. A worker that panicked is made again:
  -- in any state and with any payload, but the static counter is the one that the panic left.
  pub data Shift (m : Machine Worker D L WorkerState WorkerPayload)
      : ℕ → ℕ → Machine Worker D L WorkerState WorkerPayload → Type 0 where
    begun : Shift m 0 0 m
    went :
        {events panics : ℕ} {m' : Machine Worker D L WorkerState WorkerPayload}
        (event : WorkerEvent) (event_payload : WorkerPayload)
        (m'' : Machine Worker D L WorkerState WorkerPayload)
        (r : Result TransitOutcome FinitomataError)
        → Shift m events panics m'
        → transit_caught callbacks on_transition show_state show_event build_graph m' event
            event_payload ctx
          ≡ returned m'' r
        → Shift m (suc events) panics m''
    crashed :
        {events panics : ℕ} {m' : Machine Worker D L WorkerState WorkerPayload}
        (event : WorkerEvent) (event_payload : WorkerPayload)
        (m'' again : Machine Worker D L WorkerState WorkerPayload)
        → Shift m events panics m'
        → transit_caught callbacks on_transition show_state show_event build_graph m' event
            event_payload ctx
          ≡ panicked m''
        → again.fsm ≡ m''.fsm
        → Shift m (suc events) (suc panics) again

  Called-Ticks :
      (m : Machine Worker D L WorkerState WorkerPayload) (event : WorkerEvent)
      (event_payload : WorkerPayload) (e : Ending Worker D L WorkerState WorkerPayload)
      → Called callbacks callbacks-IsQuiet show_state show_event build_graph ctx on_transition m
          event event_payload e
      → Ticks m.fsm.crash_counter (left e).fsm.crash_counter (is_panic e)
  Called-Ticks m event event_payload e (inl (kept, quiet)) =
      inl (ap (λ (w : Worker). w.crash_counter) kept, quiet)
  Called-Ticks m event event_payload e (inr (payload, (kept, panics))) =
      let t = on_transition-Ticks m.fsm m.state.current event event_payload payload in
      subst (λ (q : Worker × Bool). Ticks m.fsm.crash_counter q.0.crash_counter q.1)
        (λ i. (sym kept i, sym panics i)) t

  transit-Ticks :
      (m : Machine Worker D L WorkerState WorkerPayload) (event : WorkerEvent)
      (event_payload : WorkerPayload) (e : Ending Worker D L WorkerState WorkerPayload)
      → transit_caught callbacks on_transition show_state show_event build_graph m event
          event_payload ctx
        ≡ e
      → Ticks m.fsm.crash_counter (left e).fsm.crash_counter (is_panic e)
  transit-Ticks m event event_payload e ends =
      subst
        (λ (e : Ending Worker D L WorkerState WorkerPayload).
          Ticks m.fsm.crash_counter (left e).fsm.crash_counter (is_panic e))
        ends
        (Called-Ticks m event event_payload _ (
          transit_caught-Called callbacks callbacks-IsQuiet show_state show_event build_graph ctx
            on_transition m event event_payload))

  -- The worker of the example panics at most once, however often it is restarted. Let the counter be 0
  -- at first, and let fewer than 2 ^ 32 events come. Until there is a panic the counter is 0 or 1, and
  -- afterwards it is at least 2, and it never passes the number of the events.
  pub Shift-once :
      {m m' : Machine Worker D L WorkerState WorkerPayload} {events panics : ℕ}
      → Shift m events panics m'
      → m.fsm.crash_counter ≡ 0
      → events < 2 ^ 32
      → (m'.fsm.crash_counter ≤ events)
        × (((panics ≡ 0) × (m'.fsm.crash_counter ≤ 1))
            ⊎ ((panics ≡ 1) × (2 ≤ m'.fsm.crash_counter)))
  Shift-once begun zero_lem few = (omega (arith, zero_lem), inl (refl, omega (arith, zero_lem)))
  Shift-once (went {events} {panics} {m' = w} event event_payload m'' r shift e) zero_lem few =
      Ticks-returned events panics w.fsm.crash_counter m''.fsm.crash_counter few
        (transit-Ticks w event event_payload (returned m'' r) e)
        (Shift-once shift zero_lem (omega (arith, few)))
  Shift-once (crashed {events} {panics} {m' = w} event event_payload m'' again shift e same_lem)
        zero_lem few =
      Ticks-panicked events panics w.fsm.crash_counter again.fsm.crash_counter few
        (subst (λ (v : Worker). Ticks w.fsm.crash_counter v.crash_counter true) (sym same_lem)
          (transit-Ticks w event event_payload (panicked m'') e))
        (Shift-once shift zero_lem (omega (arith, few)))
