-- ===== src/Actor/Started.antt =====
-- The start of an actor that has nothing to recover (`started` of finitomata/src/supervisor.rs).
use finitomata_rs.Base.{ℕ, ◌≡◌, refl, ap, ◌∙◌, Bool, true, false, Option, none, some, if◌then◌else◌}
use finitomata_rs.Base.Ord.{Ord}
use finitomata_rs.Base.Text.{Text}
use finitomata_rs.Actor.{
  FsmActor, unregister, register, find_hard, emit, arm, enlist, hard_event, restore, recover,
  resume, do_transition, started,
}
use finitomata_rs.Callbacks.{Finitomata}
use finitomata_rs.DashMap.{DashMap}
use finitomata_rs.Engine.{Machine}
use finitomata_rs.Persistency.{Persistency}
use finitomata_rs.State.{FsmState}
use finitomata_rs.Transition.{TransitionGraph, events_for}

module _ {F D L S E P M : Type 0} where
  -- Only the calls of the actor library differ.
  pub record IsUntouched (a a' : FsmActor F D L S E P M) : Type 0 where
    pub machine : a'.machine ≡ a.machine
    pub cache : a'.cache ≡ a.cache
    pub graph : a'.graph ≡ a.graph

  untouched : (a : FsmActor F D L S E P M) → IsUntouched a a
  untouched a = record { machine = refl; cache = refl; graph = refl }

  arm-IsUntouched :
      (a b : FsmActor F D L S E P M) (timer : Option ℕ)
      → IsUntouched a b
      → IsUntouched a (arm b timer)
  unfolding arm emit
  arm-IsUntouched a b none h = h
  arm-IsUntouched a b (some interval) h = record {
    machine = h.machine;
    cache = h.cache;
    graph = h.graph;
  }

  enlist-IsUntouched :
      (a : FsmActor F D L S E P M) (b : Bool)
      → IsUntouched a (if b then emit (emit a (unregister a.name)) (register a.name) else a)
  unfolding emit
  enlist-IsUntouched a true = record { machine = refl; cache = refl; graph = refl }
  enlist-IsUntouched a false = untouched a

module _ {F D L S E P M : Type 0} ⦃so : Ord S⦄ ⦃eo : Ord E⦄ (callbacks : Finitomata F S E P)
    (dash : DashMap M Text (FsmState S P)) (show_state : S → Text) (show_event : E → Text) where
  restore-none :
      (a : FsmActor F D L S E P M) (backend : Option (Persistency D S P))
      → backend ≡ none
      → restore callbacks dash a backend ≡ a
  unfolding restore
  restore-none a none e = refl
  restore-none a (some backend) e = cc

  recover-IsUntouched :
      (a : FsmActor F D L S E P M) (b : Bool)
      → a.context.persistency ≡ none
      → IsUntouched a (if b then enlist (restore callbacks dash a a.context.persistency) else a)
  unfolding enlist
  recover-IsUntouched a true e =
      rw (restore-none a a.context.persistency e) (enlist-IsUntouched a a.system)
  recover-IsUntouched a false e = untouched a

  pub resume-none :
      (next : FsmActor F D L S E P M → E → P → Option (FsmActor F D L S E P M))
      (a : FsmActor F D L S E P M) (event : Option E)
      → event ≡ none
      → resume callbacks dash next a event ≡ some a
  unfolding resume
  resume-none next a none e = refl
  resume-none next a (some event) e = cc

  -- Without a backend and without a hard event in its state, an actor starts with its machine and the
  -- cache untouched, whether it was to recover or not: none of the callbacks is called, and the
  -- lifecycle is what it was.
  pub started-untouched :
      (fuel : ℕ) (a : FsmActor F D L S E P M)
      → a.context.persistency ≡ none
      → find_hard (events_for a.graph a.machine.state.current) ≡ none
      → (a' : FsmActor F D L S E P M) × (started callbacks dash show_state show_event fuel a
          ≡ some a')
        × (a'.machine ≡ a.machine)
        × (a'.cache ≡ a.cache)
  unfolding started recover hard_event
  started-untouched fuel a e none_hard =
      let h = arm-IsUntouched a _ a.timer_interval (recover-IsUntouched a a.recover_on_start e) in
      (
        _,
        resume-none (do_transition callbacks dash show_state show_event fuel) _ _ (
            ap
              (λ (p : TransitionGraph S E × Machine F D L S P).
                find_hard (events_for p.0 p.1.state.current))
              (λ i. (h.graph i, h.machine i))
            ∙ none_hard),
        h.machine,
        h.cache,
      )
