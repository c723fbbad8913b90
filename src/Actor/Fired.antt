-- ===== src/Actor/Fired.antt =====
-- The chain of hard events that `do_transition` (finitomata/src/supervisor.rs) runs.
use finitomata_rs.Base.{
  ℕ, zero, suc, ◌≡◌, refl, subst, some_inj, Option, none, some, Result, ok, err,
}
use finitomata_rs.Base.Ord.{Ord}
use finitomata_rs.Base.Text.{Text}
use finitomata_rs.Actor.{
  FsmActor, emit, cached, find_hard, hard_event, resume, follow, moved, do_transition,
}
use finitomata_rs.Callbacks.{Finitomata}
use finitomata_rs.DashMap.{DashMap}
use finitomata_rs.Engine.{
  TransitContext, TransitOutcome, transitioned, soft_skipped, auto_terminate, hard_continue,
  Machine, transit,
}
use finitomata_rs.Error.{FinitomataError}
use finitomata_rs.State.{FsmState}
use finitomata_rs.Transition.{TransitionGraph, events_for}

-- The event that is due after a transition: the first hard event of the state that it led to, if the
-- transition was itself by a hard event and did not end the machine; and none after any other.
abbrev pub due :
    {S E : Type 0} ⦃so : Ord S⦄
    → TransitionGraph S E
    → S
    → Result TransitOutcome FinitomataError
    → Option E
due graph state (ok hard_continue) = find_hard (events_for graph state)
due graph state (ok transitioned) = none
due graph state (ok soft_skipped) = none
due graph state (ok auto_terminate) = none
due graph state (err e) = none

module _ {F D L S E P : Type 0} ⦃so : Ord S⦄ ⦃eo : Ord E⦄ (callbacks : Finitomata F S E P)
    (show_state : S → Text) (show_event : E → Text) (graph : TransitionGraph S E)
    (ctx : TransitContext D L S E P) where
  -- An event moves the machine, and then each event that is due, with the payload of the machine, until
  -- none is.
  pub data Fires : Machine F D L S P → E → P → Machine F D L S P → Type 0 where
    rests :
        {m : Machine F D L S P} {event : E} {payload : P} (m' : Machine F D L S P)
        (r : Result TransitOutcome FinitomataError)
        → transit callbacks show_state show_event graph m event payload ctx ≡ (m', r)
        → due graph m'.state.current r ≡ none
        → Fires m event payload m'
    fires :
        {m : Machine F D L S P} {event : E} {payload : P} (m' m'' : Machine F D L S P)
        (r : Result TransitOutcome FinitomataError) (next : E)
        → transit callbacks show_state show_event graph m event payload ctx ≡ (m', r)
        → due graph m'.state.current r ≡ some next
        → Fires m' next m'.state.payload m''
        → Fires m event payload m''

module _ {F D L S E P M : Type 0} ⦃so : Ord S⦄ ⦃eo : Ord E⦄ (callbacks : Finitomata F S E P)
    (dash : DashMap M Text (FsmState S P)) (show_state : S → Text) (show_event : E → Text) where
  Fires-rests :
      (a b a' : FsmActor F D L S E P M) (event : E) (payload : P)
      (r : Result TransitOutcome FinitomataError)
      → transit callbacks show_state show_event a.graph a.machine event payload a.context
        ≡ (b.machine, r)
      → due a.graph b.machine.state.current r ≡ none
      → some b ≡ some a'
      → Fires callbacks show_state show_event a.graph a.context a.machine event payload a'.machine
  Fires-rests a b a' event payload r moves is_due h =
      subst
        (λ (c : FsmActor F D L S E P M).
          Fires callbacks show_state show_event a.graph a.context a.machine event payload c.machine)
        (some_inj h) (rests b.machine r moves is_due)

  Fires-resume :
      (next : FsmActor F D L S E P M → E → P → Option (FsmActor F D L S E P M))
      (a b a' : FsmActor F D L S E P M) (event : E) (payload : P) (ev : Option E)
      → transit callbacks show_state show_event a.graph a.machine event payload a.context
        ≡ (b.machine, ok hard_continue)
      → find_hard (events_for a.graph b.machine.state.current) ≡ ev
      → ((event : E) (payload : P)
          → next b event payload ≡ some a'
          → Fires callbacks show_state show_event a.graph a.context b.machine event payload
              a'.machine)
      → resume callbacks dash next b ev ≡ some a'
      → Fires callbacks show_state show_event a.graph a.context a.machine event payload a'.machine
  unfolding resume
  Fires-resume next a b a' event payload none moves is_due ih h =
      Fires-rests a b a' event payload (ok hard_continue) moves is_due h
  Fires-resume next a b a' event payload (some ev) moves is_due ih h =
      fires b.machine a'.machine (ok hard_continue) ev moves is_due
        (ih ev b.machine.state.payload h)

  Fires-follow :
      (next : FsmActor F D L S E P M → E → P → Option (FsmActor F D L S E P M))
      (a a' : FsmActor F D L S E P M) (event : E) (payload : P) (m : Machine F D L S P)
      (r : Result TransitOutcome FinitomataError)
      → transit callbacks show_state show_event a.graph a.machine event payload a.context ≡ (m, r)
      → ((b : FsmActor F D L S E P M) (event : E) (payload : P)
          → next b event payload ≡ some a'
          → Fires callbacks show_state show_event b.graph b.context b.machine event payload
              a'.machine)
      → follow callbacks dash next (record a { machine = m }) r ≡ some a'
      → Fires callbacks show_state show_event a.graph a.context a.machine event payload a'.machine
  unfolding follow cached emit hard_event
  Fires-follow next a a' event payload m (ok hard_continue) moves ih h =
      Fires-resume next a (cached callbacks dash (record a { machine = m })) a' event payload _
        moves refl (ih (cached callbacks dash (record a { machine = m }))) h
  Fires-follow next a a' event payload m (ok auto_terminate) moves ih h =
      Fires-rests a _ a' event payload (ok auto_terminate) moves refl h
  Fires-follow next a a' event payload m (ok transitioned) moves ih h =
      Fires-rests a _ a' event payload (ok transitioned) moves refl h
  Fires-follow next a a' event payload m (ok soft_skipped) moves ih h =
      Fires-rests a _ a' event payload (ok soft_skipped) moves refl h
  Fires-follow next a a' event payload m (err e) moves ih h =
      Fires-rests a _ a' event payload (err e) moves refl h

  pub do_transition-Fires :
      (fuel : ℕ) (a a' : FsmActor F D L S E P M) (event : E) (payload : P)
      → do_transition callbacks dash show_state show_event fuel a event payload ≡ some a'
      → Fires callbacks show_state show_event a.graph a.context a.machine event payload a'.machine
  unfolding do_transition moved
  do_transition-Fires zero a a' event payload h = cc
  do_transition-Fires (suc fuel) a a' event payload h =
      let (m, r) =
        transit callbacks show_state show_event a.graph a.machine event payload a.context in
      Fires-follow (do_transition callbacks dash show_state show_event fuel) a a' event payload m r
        refl (λ b e p. do_transition-Fires fuel b a' e p) h
