-- ===== src/Actor/Life/Calls.antt =====
-- The calls of `on_terminate` in the life of an actor (`FsmActor` of finitomata/src/supervisor.rs).
use finitomata_rs.Base.{
  ℕ, suc, ◌+◌, ◌≡◌, refl, ◌∙◌, ap, ◌⊎◌, Bool, true, false, List, [], ◌∷◌, ◌++◌, Result, ok,
  if◌then◌else◌, arith,
}
use finitomata_rs.Base.Ord.{nat_ord, list_ord}
use finitomata_rs.Actor.{Effect, send_after, stop, unregister, register, FsmActor}
use finitomata_rs.Actor.Life.{asked_to_stop}
use finitomata_rs.Engine.{TransitOutcome, auto_terminate, Machine}
use finitomata_rs.Engine.Trace.{Call, exited, entered, chose, failed, other, ended}
use finitomata_rs.Error.{FinitomataError}
use finitomata_rs.State.{Lifecycle, created, loaded, running, terminating, terminated, is_running}

-- The number of calls of `on_terminate`.
abbrev pub times_ended : {S E : Type 0} → List (Call S E) → ℕ
times_ended [] = 0
times_ended (ended ∷ cs) = suc (times_ended cs)
times_ended (exited s ∷ cs) = times_ended cs
times_ended (entered s ∷ cs) = times_ended cs
times_ended (chose s e ∷ cs) = times_ended cs
times_ended (failed e why ∷ cs) = times_ended cs
times_ended (other ∷ cs) = times_ended cs

pub times_ended-append :
    {S E : Type 0} (cs ds : List (Call S E))
    → times_ended (cs ++ ds) ≡ times_ended cs + times_ended ds
times_ended-append [] ds = omega arith
times_ended-append (ended ∷ cs) ds = omega (arith, times_ended-append cs ds)
times_ended-append (exited s ∷ cs) ds = times_ended-append cs ds
times_ended-append (entered s ∷ cs) ds = times_ended-append cs ds
times_ended-append (chose s e ∷ cs) ds = times_ended-append cs ds
times_ended-append (failed e why ∷ cs) ds = times_ended-append cs ds
times_ended-append (other ∷ cs) ds = times_ended-append cs ds

pub asked-append :
    (es : List Effect) (e : Effect)
    → asked_to_stop es ≡ false
    → asked_to_stop (es ++ e ∷ []) ≡ asked_to_stop (e ∷ [])
asked-append [] e h = refl
asked-append (stop ∷ es) e h = cc
asked-append (send_after n ∷ es) e h = asked-append es e h
asked-append (unregister name ∷ es) e h = asked-append es e h
asked-append (register name ∷ es) e h = asked-append es e h

abbrev pub is_terminated : Lifecycle → Bool
is_terminated terminated = true
is_terminated created = false
is_terminated loaded = false
is_terminated running = false
is_terminated terminating = false

module _ {F D L S E P M : Type 0} where
  -- The machine goes on: `on_terminate` was not called, and the actor did not ask to be stopped.
  pub record Alive (a : FsmActor (F × List (Call S E)) D L S E P M) : Type 0 where
    pub lifecycle : is_terminated a.machine.state.lifecycle ≡ false
    pub times : times_ended a.machine.fsm.1 ≡ 0
    pub asked : asked_to_stop a.effects ≡ false

  -- The machine has ended, with one call of `on_terminate`, and the actor asked to be stopped.
  pub record Ended (a : FsmActor (F × List (Call S E)) D L S E P M) : Type 0 where
    pub lifecycle : a.machine.state.lifecycle ≡ terminated
    pub times : times_ended a.machine.fsm.1 ≡ 1
    pub asked : asked_to_stop a.effects ≡ true

  -- What a step of the actor leaves.
  abbrev pub Steps :
      FsmActor (F × List (Call S E)) D L S E P M
      → FsmActor (F × List (Call S E)) D L S E P M
      → Type 0
  Steps a b = (b.graph ≡ a.graph) × (Alive b ⊎ Ended b)

  -- The actor once it has stopped: it is not running, and `on_terminate` was called once if the
  -- machine is terminated, and else not at all.
  abbrev pub Stopped : FsmActor (F × List (Call S E)) D L S E P M → Type 0
  Stopped b =
      (is_running b.machine.state.lifecycle ≡ false)
      × (times_ended b.machine.fsm.1 ≡ (if is_terminated b.machine.state.lifecycle then 1 else 0))

module _ {F D L S E P : Type 0} where
  -- What `transit` does to the number of the calls.
  abbrev pub Times :
      Machine (F × List (Call S E)) D L S P
      → Machine (F × List (Call S E)) D L S P
      → Result TransitOutcome FinitomataError
      → Type 0
  Times m m' (ok auto_terminate) = times_ended m'.fsm.1 ≡ times_ended m.fsm.1 + 1
  Times m m' _ = times_ended m'.fsm.1 ≡ times_ended m.fsm.1

pub unended :
    {S E : Type 0} {calls : List (Call S E)} (before new : List (Call S E))
    → calls ≡ before ++ new
    → times_ended new ≡ 0
    → times_ended calls ≡ times_ended before
unended before new h none_new =
    ap times_ended h ∙ omega (arith, times_ended-append before new, none_new)
