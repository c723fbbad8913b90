-- ===== src/Actor/Stopped.antt =====
-- How an actor ends (`ShutdownMsg` and `stopped` of finitomata/src/supervisor.rs).
use finitomata_rs.Base.{ℕ, ◌≡◌, refl, some, [], ◌∷◌, ◌++◌}
use finitomata_rs.Base.Ord.{Ord, nat_ord, list_ord}
use finitomata_rs.Base.Text.{Text}
use finitomata_rs.Actor.{
  FsmActor, stop, shutdown, emit, with_lifecycle, cached, finalize, on_shutdown, stopped,
  handle_message,
}
use finitomata_rs.Cache.{get, get-update_self}
use finitomata_rs.Callbacks.{Finitomata}
use finitomata_rs.DashMap.{DashMap, IsLawful}
use finitomata_rs.Engine.{terminate}
use finitomata_rs.State.{FsmState, terminated}

module _ {F D L S E P M : Type 0} ⦃so : Ord S⦄ ⦃eo : Ord E⦄ (dash : DashMap M Text (FsmState S P))
    (laws : IsLawful dash) (callbacks : Finitomata F S E P) (show_state : S → Text)
    (show_event : E → Text) where
  -- A shutdown message ends the machine once. After it the lifecycle is `Terminated`, the user's state
  -- is what one call of `on_terminate` made of it, the state that the machine was in and its history
  -- are as they were, the cache holds the last state, and the actor asked last to be stopped; when it
  -- then stops, `stopped` finds nothing to do, so that `on_terminate` is not called again.
  pub handle_message-stopped :
      (fuel : ℕ) (a : FsmActor F D L S E P M)
      → (a' : FsmActor F D L S E P M) × (handle_message callbacks dash show_state show_event fuel a
            shutdown
          ≡ some a')
        × (a'.machine.state.lifecycle ≡ terminated)
        × (a'.machine.fsm ≡ (callbacks.on_terminate a.machine.fsm a.machine.state.payload).0)
        × (a'.machine.state.current ≡ a.machine.state.current)
        × (a'.machine.state.history ≡ a.machine.state.history)
        × (get dash a'.cache a.machine.state.name ≡ some a'.machine.state)
        × (a'.effects ≡ a.effects ++ stop ∷ [])
        × (stopped callbacks dash a' ≡ a')
  unfolding handle_message on_shutdown emit cached with_lifecycle finalize terminate stopped
  handle_message-stopped fuel a = (
    on_shutdown callbacks dash a,
    refl,
    refl,
    refl,
    refl,
    refl,
    get-update_self dash laws a.cache (on_shutdown callbacks dash a).machine.state,
    refl,
    refl,
  )
