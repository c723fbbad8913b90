-- ===== src/Actor.antt =====
-- The actor that runs one machine (`FsmActor` of finitomata/src/supervisor.rs). Its calls of the actor
-- library are the list `effects`, in their order. A `Duration` is a number.
pub mod Fired
pub mod Settled
pub mod Stopped
pub mod Started
pub mod Recovered
pub mod Restarted
pub mod Life
pub mod Ticks
use finitomata_rs.Base.{
  ℕ, zero, suc, Bool, Option, none, some, List, [], ◌∷◌, ◌++◌, Result, ok, err, if◌then◌else◌,
}
use finitomata_rs.Base.Ord.{Ord}
use finitomata_rs.Base.Text.{Text}
use finitomata_rs.Cache.{update}
use finitomata_rs.Callbacks.{Finitomata}
use finitomata_rs.DashMap.{DashMap}
use finitomata_rs.Engine.{
  TransitContext, TransitOutcome, transitioned, soft_skipped, auto_terminate, hard_continue,
  Machine, enter, terminate, transit,
}
use finitomata_rs.Error.{FinitomataError, PersistencyError}
use finitomata_rs.Persistency.{Persistency}
use finitomata_rs.State.{
  FsmState, Lifecycle, loaded, running, terminating, terminated, is_running, new_state,
}
use finitomata_rs.Transition.{EventKind, TransitionGraph, is_hard, events_for}

-- `ctx.send_after` of a tick to itself, `ctx.stop(ExitReason::Normal)`, and the name in the registry.
pub data Effect : Type 0 where
  send_after : ℕ → Effect
  stop : Effect
  unregister register : Text → Effect

-- The three messages, and any that is none of them.
pub data Message (E P : Type 0) : Type 0 where
  timer_tick shutdown unknown : Message E P
  transition : E → P → Message E P

-- `machine` has the fields `fsm` and `state`, and `context` the three that `transit` is given.
-- `system` says if there is a handle of the actor system.
pub record FsmActor (F D L S E P M : Type 0) : Type 0 where
  pub machine : Machine F D L S P
  pub graph : TransitionGraph S E
  pub cache : M
  pub context : TransitContext D L S E P
  pub timer_interval : Option ℕ
  pub name : Text
  pub recover_on_start : Bool
  pub system : Bool
  pub effects : List Effect

-- `find(|(_, kind)| *kind == EventKind::Hard)`, and its event.
abbrev pub find_hard : {E : Type 0} → List (E × EventKind) → Option E
find_hard [] = none
find_hard ((event, kind) ∷ es) = if is_hard kind then some event else find_hard es

module _ {F D L S E P M : Type 0} where
  emit : FsmActor F D L S E P M → Effect → FsmActor F D L S E P M
  emit a effect = record a { effects = a.effects ++ effect ∷ [] }

  with_lifecycle : FsmActor F D L S E P M → Lifecycle → FsmActor F D L S E P M
  with_lifecycle a lifecycle = record a {
    machine = record (a.machine) { state = record (a.machine.state) { lifecycle = lifecycle } };
  }

  -- The timer is armed for one tick.
  pub arm : FsmActor F D L S E P M → Option ℕ → FsmActor F D L S E P M
  unfolding emit
  arm a none = a
  arm a (some interval) = emit a (send_after interval)

  -- `if let Some(interval) = … && matches!(…)`
  pub rearm : FsmActor F D L S E P M → FsmActor F D L S E P M
  unfolding arm
  rearm a = if is_running a.machine.state.lifecycle then arm a a.timer_interval else a

  -- `if let Some(ref system) = self.system` of `started`
  enlist : FsmActor F D L S E P M → FsmActor F D L S E P M
  unfolding emit
  enlist a = if a.system then emit (emit a (unregister a.name)) (register a.name) else a

module _ {F D L S E P M : Type 0} ⦃so : Ord S⦄ where
  hard_event : FsmActor F D L S E P M → Option E
  unfolding events_for
  hard_event a = find_hard (events_for a.graph a.machine.state.current)

module _ {F D L S E P M : Type 0} (callbacks : Finitomata F S E P)
    (dash : DashMap M Text (FsmState S P)) where
  -- `self.cache.update(&self.state)`
  cached : FsmActor F D L S E P M → FsmActor F D L S E P M
  unfolding update
  cached a = record a { cache = update dash a.cache a.machine.state }

  -- `on_terminate` between two lifecycles, as both `handle_message` and `stopped` call it.
  finalize : FsmActor F D L S E P M → FsmActor F D L S E P M
  unfolding terminate
  finalize a = record a { machine = terminate callbacks a.machine }

  pub on_shutdown : FsmActor F D L S E P M → FsmActor F D L S E P M
  unfolding cached finalize with_lifecycle emit
  on_shutdown a =
      emit (cached (with_lifecycle (finalize (with_lifecycle a terminating)) terminated)) stop

  unfoldable pub stopped : FsmActor F D L S E P M → FsmActor F D L S E P M
  unfolding cached finalize with_lifecycle
  stopped a =
      if is_running a.machine.state.lifecycle
      then cached (finalize (with_lifecycle a terminated))
      else a

  module _ ⦃so : Ord S⦄ where
    -- The state that `started` makes of a record of the backend.
    resurrect : FsmActor F D L S E P M → S → P → FsmActor F D L S E P M
    unfolding cached with_lifecycle new_state enter
    resurrect a state payload =
        let s = record (new_state a.name state payload) { lifecycle = loaded } in
        let (fsm, payload') = callbacks.on_start a.machine.fsm s.payload in
        let m = record (a.machine) { fsm = fsm; state = record s { payload = payload' } } in
        cached (with_lifecycle (record a { machine = enter callbacks m m.state.current }) running)

    -- `if let … Ok(Some(…)) = persist.load(&self.name)`
    reload :
        FsmActor F D L S E P M
        → Result (Option (Lifecycle × S × P)) PersistencyError
        → FsmActor F D L S E P M
    unfolding resurrect
    reload a (ok (some (lc, state, payload))) = resurrect a state payload
    reload a (ok none) = a
    reload a (err e) = a

    restore : FsmActor F D L S E P M → Option (Persistency D S P) → FsmActor F D L S E P M
    unfolding reload
    restore a none = a
    restore a (some backend) =
        let (store, found) = backend.load a.machine.store a.name in
        reload (record a { machine = record (a.machine) { store = store } }) found

    -- The first `if` of `started`.
    recover : FsmActor F D L S E P M → FsmActor F D L S E P M
    unfolding restore enlist
    recover a = if a.recover_on_start then enlist (restore a a.context.persistency) else a

    -- The hard event, if there is one, goes to the transition that follows.
    unfoldable pub resume :
        (FsmActor F D L S E P M → E → P → Option (FsmActor F D L S E P M))
        → FsmActor F D L S E P M
        → Option E
        → Option (FsmActor F D L S E P M)
    resume next a none = some a
    resume next a (some event) = next a event a.machine.state.payload

    -- The `match` of `do_transition`.
    follow :
        (FsmActor F D L S E P M → E → P → Option (FsmActor F D L S E P M))
        → FsmActor F D L S E P M
        → Result TransitOutcome FinitomataError
        → Option (FsmActor F D L S E P M)
    unfolding cached emit resume hard_event
    follow next a (ok auto_terminate) = some (emit (cached a) stop)
    follow next a (ok hard_continue) = resume next (cached a) (hard_event (cached a))
    follow next a (ok transitioned) = some (cached a)
    follow next a (ok soft_skipped) = some (cached a)
    follow next a (err e) = some (cached a)

    module _ (show_state : S → Text) (show_event : E → Text) ⦃eo : Ord E⦄ where
      -- `transit` on the actor's own fields.
      moved :
          FsmActor F D L S E P M
          → E
          → P
          → FsmActor F D L S E P M × Result TransitOutcome FinitomataError
      unfolding transit
      moved a event payload =
          let (m, r) =
            transit callbacks show_state show_event a.graph a.machine event payload a.context in
          (record a { machine = m }, r)

      -- A hard event runs at once, inside the call: on fuel, which counts the transitions.
      unfoldable pub do_transition :
          ℕ → FsmActor F D L S E P M → E → P → Option (FsmActor F D L S E P M)
      unfolding moved follow
      do_transition zero a event payload = none
      do_transition (suc fuel) a event payload =
          let (a', r) = moved a event payload in follow (do_transition fuel) a' r

      -- `if let Some((event, event_payload)) = …` of `handle_timer_tick`
      ticked : ℕ → FsmActor F D L S E P M → Option (E × P) → Option (FsmActor F D L S E P M)
      unfolding do_transition
      ticked fuel a none = some a
      ticked fuel a (some (event, payload)) = do_transition fuel a event payload

      handle_timer_tick : ℕ → FsmActor F D L S E P M → Option (FsmActor F D L S E P M)
      unfolding ticked
      handle_timer_tick fuel a =
          let s = a.machine.state in
          let (fsm, payload, answer) = callbacks.on_timer a.machine.fsm s.current s.payload in
          ticked fuel
            (record a {
              machine = record (a.machine) { fsm = fsm; state = record s { payload = payload } };
            })
            answer

      rearmed : Option (FsmActor F D L S E P M) → Option (FsmActor F D L S E P M)
      unfolding rearm
      rearmed none = none
      rearmed (some a) = some (rearm a)

      unfoldable pub handle_message :
          ℕ → FsmActor F D L S E P M → Message E P → Option (FsmActor F D L S E P M)
      unfolding handle_timer_tick rearmed on_shutdown do_transition
      handle_message fuel a timer_tick = rearmed (handle_timer_tick fuel a)
      handle_message fuel a shutdown = some (on_shutdown a)
      handle_message fuel a (transition event payload) = do_transition fuel a event payload
      handle_message fuel a unknown = some a

      unfoldable pub started : ℕ → FsmActor F D L S E P M → Option (FsmActor F D L S E P M)
      unfolding recover arm hard_event resume do_transition
      started fuel a =
          let a' = arm (recover a) a.timer_interval in
          resume (do_transition fuel) a' (hard_event a')
