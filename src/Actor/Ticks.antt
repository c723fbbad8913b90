-- ===== src/Actor/Ticks.antt =====
-- The ticks that an actor asks for (`ctx.send_after` of finitomata/src/supervisor.rs).
use finitomata_rs.Base.{
  ℕ, zero, suc, ◌+◌, ◌<◌, ◌≡◌, refl, sym, ◌∙◌, ap, subst, Bool, true, false, Option, none, some,
  List, [], ◌∷◌, ◌++◌, Result, ok, err, if◌then◌else◌, some_inj, arith,
}
use finitomata_rs.Base.Ord.{Ord, nat_ord, list_ord}
use finitomata_rs.Base.Text.{Text}
use finitomata_rs.Actor.{
  Effect, send_after, stop, unregister, register, Message, timer_tick, shutdown, unknown,
  transition, FsmActor, emit, with_lifecycle, arm, rearm, hard_event, cached, finalize, on_shutdown,
  resume, follow, moved, do_transition, ticked, handle_timer_tick, rearmed, handle_message,
}
use finitomata_rs.Actor.Settled.{IsRanked, do_transition-ends}
use finitomata_rs.Callbacks.{Finitomata}
use finitomata_rs.DashMap.{DashMap, IsLawful}
use finitomata_rs.Engine.{
  TransitOutcome, transitioned, soft_skipped, auto_terminate, hard_continue, Machine, terminate,
  transit,
}
use finitomata_rs.Error.{FinitomataError}
use finitomata_rs.State.{FsmState, is_running}

-- The ticks among the effects.
abbrev pub requests : List Effect → ℕ
requests [] = 0
requests (send_after n ∷ es) = suc (requests es)
requests (stop ∷ es) = requests es
requests (unregister name ∷ es) = requests es
requests (register name ∷ es) = requests es

requests-append : (es fs : List Effect) → requests (es ++ fs) ≡ requests es + requests fs
requests-append [] fs = omega arith
requests-append (send_after n ∷ es) fs = omega (arith, requests-append es fs)
requests-append (stop ∷ es) fs = requests-append es fs
requests-append (unregister name ∷ es) fs = requests-append es fs
requests-append (register name ∷ es) fs = requests-append es fs

-- One tick for an actor that has an interval.
abbrev pub armed : Option ℕ → ℕ
armed none = 0
armed (some interval) = 1

module _ {F D L S E P M : Type 0} where
  -- No tick was asked for.
  abbrev IsQuiet : FsmActor F D L S E P M → FsmActor F D L S E P M → Type 0
  IsQuiet a b = (b.timer_interval ≡ a.timer_interval) × (requests b.effects ≡ requests a.effects)

  -- What a message asks for, by the actor that it leaves: a tick asks for the next one while the machine
  -- runs.
  abbrev pub next_tick : Message E P → FsmActor F D L S E P M → ℕ
  next_tick timer_tick b =
      if is_running b.machine.state.lifecycle then armed b.timer_interval else 0
  next_tick shutdown b = 0
  next_tick unknown b = 0
  next_tick (transition event payload) b = 0

  -- An actor with one tick more to come, or none.
  record IsArmed (a b : FsmActor F D L S E P M) (more : ℕ) : Type 0 where
    machine : b.machine ≡ a.machine
    timer_interval : b.timer_interval ≡ a.timer_interval
    requested : requests b.effects ≡ requests a.effects + more

  arm-IsArmed :
      (a : FsmActor F D L S E P M) (interval : Option ℕ)
      → IsArmed a (arm a interval) (armed interval)
  unfolding arm emit
  arm-IsArmed a none = record { machine = refl; timer_interval = refl; requested = omega arith }
  arm-IsArmed a (some n) = record {
    machine = refl;
    timer_interval = refl;
    requested = requests-append a.effects (send_after n ∷ []);
  }

  arm-if :
      (a : FsmActor F D L S E P M) (test : Bool)
      → IsArmed a
          (if test then arm a a.timer_interval else a)
          (if test then armed a.timer_interval else 0)
  arm-if a true = arm-IsArmed a a.timer_interval
  arm-if a false = record { machine = refl; timer_interval = refl; requested = omega arith }

  rearm-IsArmed :
      (a : FsmActor F D L S E P M)
      → IsArmed a (rearm a) (
          if is_running (rearm a).machine.state.lifecycle
          then armed (rearm a).timer_interval
          else 0)
  unfolding rearm
  rearm-IsArmed a =
      let h = arm-if a (is_running a.machine.state.lifecycle) in
      subst
        (λ (q : Machine F D L S P × Option ℕ).
          IsArmed a (rearm a) (if is_running q.0.state.lifecycle then armed q.1 else 0))
        (λ i. (sym h.machine i, sym h.timer_interval i)) h

module _ {F D L S E P M : Type 0} (callbacks : Finitomata F S E P)
    (dash : DashMap M Text (FsmState S P)) ⦃so : Ord S⦄ (show_state : S → Text)
    (show_event : E → Text) ⦃eo : Ord E⦄ where
  IsQuiet-stop :
      (a : FsmActor F D L S E P M) (m : Machine F D L S P)
      → IsQuiet a (emit (cached callbacks dash (record a { machine = m })) stop)
  unfolding emit cached
  IsQuiet-stop a m = (refl, omega (arith, requests-append a.effects (stop ∷ [])))

  IsQuiet-resume :
      (next : FsmActor F D L S E P M → E → P → Option (FsmActor F D L S E P M))
      (a b : FsmActor F D L S E P M) (event : Option E)
      → ((c b : FsmActor F D L S E P M) (event : E) (payload : P)
          → next c event payload ≡ some b
          → IsQuiet c b)
      → resume callbacks dash next a event ≡ some b
      → IsQuiet a b
  unfolding resume
  IsQuiet-resume next a b none ih e = subst (IsQuiet a) (some_inj e) (refl, refl)
  IsQuiet-resume next a b (some event) ih e = ih a b event a.machine.state.payload e

  IsQuiet-follow :
      (next : FsmActor F D L S E P M → E → P → Option (FsmActor F D L S E P M))
      (a b : FsmActor F D L S E P M) (m : Machine F D L S P)
      (r : Result TransitOutcome FinitomataError)
      → ((c b : FsmActor F D L S E P M) (event : E) (payload : P)
          → next c event payload ≡ some b
          → IsQuiet c b)
      → follow callbacks dash next (record a { machine = m }) r ≡ some b
      → IsQuiet a b
  unfolding follow cached
  IsQuiet-follow next a b m (ok auto_terminate) ih e =
      subst (IsQuiet a) (some_inj e) (IsQuiet-stop a m)
  IsQuiet-follow next a b m (ok transitioned) ih e = subst (IsQuiet a) (some_inj e) (refl, refl)
  IsQuiet-follow next a b m (ok soft_skipped) ih e = subst (IsQuiet a) (some_inj e) (refl, refl)
  IsQuiet-follow next a b m (err why) ih e = subst (IsQuiet a) (some_inj e) (refl, refl)
  IsQuiet-follow next a b m (ok hard_continue) ih e =
      IsQuiet-resume next (cached callbacks dash (record a { machine = m })) b
        (hard_event (cached callbacks dash (record a { machine = m }))) ih e

  do_transition-IsQuiet :
      (fuel : ℕ) (a b : FsmActor F D L S E P M) (event : E) (payload : P)
      → do_transition callbacks dash show_state show_event fuel a event payload ≡ some b
      → IsQuiet a b
  unfolding do_transition moved
  do_transition-IsQuiet zero a b event payload e = cc
  do_transition-IsQuiet (suc fuel) a b event payload e =
      let (m, r) =
        transit callbacks show_state show_event a.graph a.machine event payload a.context in
      IsQuiet-follow (do_transition callbacks dash show_state show_event fuel) a b m r
        (do_transition-IsQuiet fuel) e

  module _ (laws : IsLawful dash) (rank : S → ℕ) (fuel : ℕ) (enough : (s : S) → rank s < fuel) where
    do_transition-total :
        (a : FsmActor F D L S E P M) (event : E) (payload : P)
        → IsRanked a.graph rank
        → (b : FsmActor F D L S E P M) × (do_transition callbacks dash show_state show_event fuel a
              event payload
            ≡ some b)
          × IsQuiet a b
    do_transition-total a event payload ranked =
        let (b, e, settled) =
          do_transition-ends dash laws callbacks show_state show_event rank fuel a event payload
            ranked (enough a.machine.state.current) in
        (b, e, do_transition-IsQuiet fuel a b event payload e)

    ticked-total :
        (a : FsmActor F D L S E P M) (answer : Option (E × P))
        → IsRanked a.graph rank
        → (b : FsmActor F D L S E P M) × (ticked callbacks dash show_state show_event fuel a answer
            ≡ some b)
          × IsQuiet a b
    unfolding ticked
    ticked-total a none ranked = (a, refl, (refl, refl))
    ticked-total a (some (event, payload)) ranked = do_transition-total a event payload ranked

    -- A message asks for no tick but the next one. Where a rank of the states, below the fuel, falls along
    -- every hard transition of the graph, every message is handled, and the actor keeps its interval. A
    -- tick message asks for one tick exactly if there is an interval and the lifecycle is `Running` after
    -- it; any other message asks for none.
    pub handle_message-ticks :
        (a : FsmActor F D L S E P M) (message : Message E P)
        → IsRanked a.graph rank
        → (b : FsmActor F D L S E P M) × (handle_message callbacks dash show_state show_event fuel a
              message
            ≡ some b)
          × (b.timer_interval ≡ a.timer_interval)
          × (requests b.effects ≡ requests a.effects + next_tick message b)
    unfolding handle_message handle_timer_tick rearmed on_shutdown emit cached with_lifecycle
        finalize terminate
    handle_message-ticks a timer_tick ranked =
        let s = a.machine.state in
        let (fsm, payload, answer) = callbacks.on_timer a.machine.fsm s.current s.payload in
        let (b, e, (kept, quiet)) =
          ticked-total
            (record a {
              machine = record (a.machine) { fsm = fsm; state = record s { payload = payload } };
            })
            answer ranked in
        let h = rearm-IsArmed b in
        (
          rearm b,
          ap (rearmed callbacks dash show_state show_event) e,
          h.timer_interval ∙ kept,
          h.requested ∙ ap (λ n. n + next_tick {E = E} {P = P} timer_tick (rearm b)) quiet,
        )
    handle_message-ticks a shutdown ranked = (_, refl, refl, requests-append a.effects (stop ∷ []))
    handle_message-ticks a unknown ranked = (a, refl, refl, omega arith)
    handle_message-ticks a (transition event payload) ranked =
        let (b, e, (kept, quiet)) = do_transition-total a event payload ranked in
        (b, e, kept, omega (arith, quiet))
