-- ===== src/Actor/Life.antt =====
-- The life of an actor (`FsmActor` of finitomata/src/supervisor.rs): its start, the messages that it is
-- given, and its stop. The loop that gives them is the actor library's; it is taken to give no message
-- to an actor that asked to be stopped, and to call `stopped` at the end.
pub mod Calls
pub mod Ended
pub mod Start
pub mod Handle
pub mod Whole
use finitomata_rs.Base.{ℕ, Bool, true, false, Option, none, some, List, [], ◌∷◌}
use finitomata_rs.Base.Ord.{Ord}
use finitomata_rs.Base.Text.{Text}
use finitomata_rs.Actor.{
  Effect, send_after, stop, unregister, register, Message, FsmActor, handle_message, started,
  stopped,
}
use finitomata_rs.Callbacks.{Finitomata}
use finitomata_rs.DashMap.{DashMap}
use finitomata_rs.State.{FsmState}

abbrev pub asked_to_stop : List Effect → Bool
asked_to_stop [] = false
asked_to_stop (stop ∷ es) = true
asked_to_stop (send_after n ∷ es) = asked_to_stop es
asked_to_stop (unregister name ∷ es) = asked_to_stop es
asked_to_stop (register name ∷ es) = asked_to_stop es

module _ {F D L S E P M : Type 0} (callbacks : Finitomata F S E P)
    (dash : DashMap M Text (FsmState S P)) ⦃so : Ord S⦄ (show_state : S → Text)
    (show_event : E → Text) ⦃eo : Ord E⦄ where
  -- The messages in their order, up to the one on which the actor asks to be stopped. The fuel is that
  -- of each message.
  unfoldable pub handle_all :
      ℕ → FsmActor F D L S E P M → List (Message E P) → Option (FsmActor F D L S E P M)
  handle_all fuel a [] = some a
  handle_all fuel a (message ∷ rest) = elim (asked_to_stop a.effects) [
    | true ↦ some a
    | false ↦ elim (handle_message callbacks dash show_state show_event fuel a message) [
      | none ↦ none
      | some b ↦ handle_all fuel b rest
    ]
  ]

  unfoldable pub live :
      ℕ → FsmActor F D L S E P M → List (Message E P) → Option (FsmActor F D L S E P M)
  unfolding handle_all
  live fuel a messages = elim (started callbacks dash show_state show_event fuel a) [
    | none ↦ none
    | some b ↦ elim (handle_all fuel b messages) [
      | none ↦ none
      | some b' ↦ some (stopped callbacks dash b')
    ]
  ]
