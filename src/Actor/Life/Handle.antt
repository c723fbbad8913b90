-- ===== src/Actor/Life/Handle.antt =====
-- One message of an actor (`handle_message` of finitomata/src/supervisor.rs), by the calls of
-- `on_terminate`.
use finitomata_rs.Base.{
  ℕ, ◌<◌, ◌≡◌, refl, sym, ◌∙◌, ap, subst, inl, inr, Option, none, some, List, [], ◌∷◌, arith,
}
use finitomata_rs.Base.Ord.{Ord, nat_ord, list_ord}
use finitomata_rs.Base.Text.{Text}
use finitomata_rs.Actor.{
  stop, Message, timer_tick, shutdown, unknown, transition, FsmActor, emit, with_lifecycle, rearm,
  cached, finalize, on_shutdown, ticked, handle_timer_tick, rearmed, handle_message,
}
use finitomata_rs.Actor.Life.Calls.{times_ended-append, asked-append, Alive, Ended, Steps}
use finitomata_rs.Actor.Life.Ended.{do_transition-Steps}
use finitomata_rs.Actor.Settled.{IsRanked}
use finitomata_rs.Callbacks.{Finitomata}
use finitomata_rs.DashMap.{DashMap, IsLawful}
use finitomata_rs.Engine.{terminate}
use finitomata_rs.Engine.Trace.{Call, other, ended, traced}
use finitomata_rs.State.{FsmState}
use finitomata_rs.Actor.Life.Start.{Steps-rearm, Goes}

module _ {F D L S E P M : Type 0} (c : Finitomata F S E P) (dash : DashMap M Text (FsmState S P))
    (laws : IsLawful dash) ⦃so : Ord S⦄ (show_state : S → Text) (show_event : E → Text) ⦃eo : Ord E⦄
    (rank : S → ℕ) (fuel : ℕ) (enough : (s : S) → rank s < fuel) where
  ticked-Steps :
      (a b : FsmActor (F × List (Call S E)) D L S E P M) (answer : Option (E × P))
      → IsRanked a.graph rank
      → Goes a b
      → (b' : FsmActor (F × List (Call S E)) D L S E P M) × (ticked
            (traced c)
            dash
            show_state
            show_event
            fuel
            b
            answer
          ≡ some b')
        × Steps a b'
  unfolding ticked
  ticked-Steps a b none ranked (g, h) = (b, refl, (g, inl h))
  ticked-Steps a b (some (event, payload)) ranked (g, h) =
      let (b', e, (g', k)) =
        do_transition-Steps c dash laws show_state show_event rank fuel b event payload
          (subst (λ graph. IsRanked graph rank) (sym g) ranked) (enough b.machine.state.current)
          h in
      (b', e, (g' ∙ g, k))

  handle_timer_tick-Steps :
      (a : FsmActor (F × List (Call S E)) D L S E P M)
      → IsRanked a.graph rank
      → Alive a
      → (b : FsmActor (F × List (Call S E)) D L S E P M) × (handle_timer_tick
            (traced c)
            dash
            show_state
            show_event
            fuel
            a
          ≡ some b)
        × Steps a b
  unfolding handle_timer_tick
  handle_timer_tick-Steps a ranked h = ticked-Steps a _ _ ranked (
    refl,
    record {
      lifecycle = h.lifecycle;
      times = omega (arith, h.times, times_ended-append a.machine.fsm.1 (other ∷ []));
      asked = h.asked;
    },
  )

  pub shutdown_lem :
      (a : FsmActor (F × List (Call S E)) D L S E P M)
      → handle_message (traced c) dash show_state show_event fuel a shutdown
        ≡ some (on_shutdown (traced c) dash a)
  unfolding handle_message
  shutdown_lem a = refl

  pub on_shutdown-Ended :
      (a : FsmActor (F × List (Call S E)) D L S E P M)
      → Alive a
      → Ended (on_shutdown (traced c) dash a)
  unfolding on_shutdown emit cached with_lifecycle finalize terminate
  on_shutdown-Ended a h = record {
    lifecycle = refl;
    times = omega (arith, h.times, times_ended-append a.machine.fsm.1 (ended ∷ []));
    asked = asked-append a.effects stop h.asked;
  }

  -- A message that the actor is given while it goes on.
  pub handle_message-Steps :
      (a : FsmActor (F × List (Call S E)) D L S E P M) (message : Message E P)
      → IsRanked a.graph rank
      → Alive a
      → (b : FsmActor (F × List (Call S E)) D L S E P M) × (handle_message
            (traced c)
            dash
            show_state
            show_event
            fuel
            a
            message
          ≡ some b)
        × Steps a b
  unfolding handle_message rearmed on_shutdown emit cached with_lifecycle finalize terminate
  handle_message-Steps a timer_tick ranked h =
      let (b, e, k) = handle_timer_tick-Steps a ranked h in
      (rearm b, ap (rearmed (traced c) dash show_state show_event) e, Steps-rearm a b k)
  handle_message-Steps a shutdown ranked h =
      (on_shutdown (traced c) dash a, refl, (refl, inr (on_shutdown-Ended a h)))
  handle_message-Steps a unknown ranked h = (a, refl, (refl, inl h))
  handle_message-Steps a (transition event payload) ranked h =
      do_transition-Steps c dash laws show_state show_event rank fuel a event payload ranked
        (enough a.machine.state.current) h
