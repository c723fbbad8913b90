-- ===== src/Actor/Life/Whole.antt =====
-- The whole life of an actor (`FsmActor` of finitomata/src/supervisor.rs), from its start to its stop.
use finitomata_rs.Base.{
  ◌≢◌, ⊎_elim, ℕ, ◌<◌, ◌≡◌, refl, sym, ◌∙◌, ap, subst, inl, inr, false, ◌⊎◌, some, List, [], ◌∷◌,
  Memᴰ, Memᴰ-cons, Memᴰ-nil, arith,
}
use finitomata_rs.Base.Ord.{Ord, nat_ord, list_ord}
use finitomata_rs.Base.Text.{Text}
use finitomata_rs.Actor.{
  Message, timer_tick, shutdown, unknown, transition, FsmActor, with_lifecycle, cached, finalize,
  on_shutdown, handle_message, started, stopped,
}
use finitomata_rs.Actor.Life.{asked_to_stop, handle_all, live}
use finitomata_rs.Actor.Life.Calls.{Stopped, times_ended-append, Alive, Ended, Steps}
use finitomata_rs.Actor.Settled.{IsRanked}
use finitomata_rs.Callbacks.{Finitomata}
use finitomata_rs.DashMap.{DashMap, IsLawful}
use finitomata_rs.Engine.{terminate}
use finitomata_rs.Engine.Trace.{Call, ended, traced}
use finitomata_rs.State.{FsmState, terminated, is_running}
use finitomata_rs.Actor.Life.Start.{started-Steps}
use finitomata_rs.Actor.Life.Handle.{on_shutdown-Ended, shutdown_lem, handle_message-Steps}

module _ {F D L S E P M : Type 0} (c : Finitomata F S E P) (dash : DashMap M Text (FsmState S P))
    (laws : IsLawful dash) ⦃so : Ord S⦄ (show_state : S → Text) (show_event : E → Text) ⦃eo : Ord E⦄
    (rank : S → ℕ) (fuel : ℕ) (enough : (s : S) → rank s < fuel) where
  -- Either the actor goes on after the messages, with no shutdown among them, or it has ended.
  abbrev Handled : List (Message E P) → FsmActor (F × List (Call S E)) D L S E P M → Type 0
  Handled messages b = Alive b × ¬ Memᴰ shutdown messages ⊎ Ended b

  handle_all-Ended :
      (a : FsmActor (F × List (Call S E)) D L S E P M) (messages : List (Message E P))
      → Ended a
      → handle_all (traced c) dash show_state show_event fuel a messages ≡ some a
  unfolding handle_all
  handle_all-Ended a [] h = refl
  handle_all-Ended a (message ∷ rest) h = rw (h.asked, handle_all) refl

  handle_all-cons :
      (a b : FsmActor (F × List (Call S E)) D L S E P M) (message : Message E P)
      (rest : List (Message E P))
      → asked_to_stop a.effects ≡ false
      → handle_message (traced c) dash show_state show_event fuel a message ≡ some b
      → handle_all (traced c) dash show_state show_event fuel a (message ∷ rest)
        ≡ handle_all (traced c) dash show_state show_event fuel b rest
  unfolding handle_all
  handle_all-cons a b message rest goes e = rw (goes, handle_all) (rw (e, handle_all) refl)

  Handled-cons :
      (message : Message E P) (rest : List (Message E P))
      (b : FsmActor (F × List (Call S E)) D L S E P M)
      → message ≢ shutdown
      → Handled rest b
      → Handled (message ∷ rest) b
  Handled-cons message rest b ne (inr h) = inr h
  Handled-cons message rest b ne (inl (h, absent)) =
      inl (h, λ m. ⊎_elim (λ e. ne (sym e)) absent ((Memᴰ-cons shutdown message rest).0 m))

  -- The messages after the first, given what the first does.
  Handled-rest :
      (a : FsmActor (F × List (Call S E)) D L S E P M) (message : Message E P)
      (rest : List (Message E P))
      → message ≢ shutdown
      → Alive a
      → (b : FsmActor (F × List (Call S E)) D L S E P M) × (handle_message
            (traced c)
            dash
            show_state
            show_event
            fuel
            a
            message
          ≡ some b)
        × Steps a b
      → ((b : FsmActor (F × List (Call S E)) D L S E P M)
          → b.graph ≡ a.graph
          → Alive b
          → (b' : FsmActor (F × List (Call S E)) D L S E P M) × (handle_all
                (traced c)
                dash
                show_state
                show_event
                fuel
                b
                rest
              ≡ some b')
            × Handled rest b')
      → (b' : FsmActor (F × List (Call S E)) D L S E P M) × (handle_all
            (traced c)
            dash
            show_state
            show_event
            fuel
            a
            (message ∷ rest)
          ≡ some b')
        × Handled (message ∷ rest) b'
  Handled-rest a message rest ne h (b, e, (g, inl alive)) ih =
      let (b', e', k) = ih b g alive in
      (b', handle_all-cons a b message rest h.asked e ∙ e', Handled-cons message rest b' ne k)
  Handled-rest a message rest ne h (b, e, (g, inr over)) ih =
      (b, handle_all-cons a b message rest h.asked e ∙ handle_all-Ended b rest over, inr over)

  handle_all-Handled :
      (a : FsmActor (F × List (Call S E)) D L S E P M) (messages : List (Message E P))
      → IsRanked a.graph rank
      → Alive a
      → (b : FsmActor (F × List (Call S E)) D L S E P M) × (handle_all
            (traced c)
            dash
            show_state
            show_event
            fuel
            a
            messages
          ≡ some b)
        × Handled messages b
  unfolding handle_all
  handle_all-Handled a [] ranked h = (a, refl, inl (h, Memᴰ-nil shutdown))
  handle_all-Handled a (shutdown ∷ rest) ranked h =
      let b = on_shutdown (traced c) dash a in
      let over = on_shutdown-Ended c dash laws show_state show_event rank fuel enough a h in
      (
        b,
        handle_all-cons a b shutdown rest h.asked
              (shutdown_lem c dash laws show_state show_event rank fuel enough a)
            ∙ handle_all-Ended b rest over,
        inr over,
      )
  handle_all-Handled a (timer_tick ∷ rest) ranked h =
      Handled-rest a timer_tick rest (λ e. cc) h
        (handle_message-Steps c dash laws show_state show_event rank fuel enough a timer_tick ranked
          h)
        (λ b g alive.
          handle_all-Handled b rest (subst (λ graph. IsRanked graph rank) (sym g) ranked) alive)
  handle_all-Handled a (unknown ∷ rest) ranked h =
      Handled-rest a unknown rest (λ e. cc) h
        (handle_message-Steps c dash laws show_state show_event rank fuel enough a unknown ranked h)
        (λ b g alive.
          handle_all-Handled b rest (subst (λ graph. IsRanked graph rank) (sym g) ranked) alive)
  handle_all-Handled a (transition event payload ∷ rest) ranked h =
      Handled-rest a (transition event payload) rest (λ e. cc) h
        (handle_message-Steps c dash laws show_state show_event rank fuel enough a
          (transition event payload) ranked h)
        (λ b g alive.
          handle_all-Handled b rest (subst (λ graph. IsRanked graph rank) (sym g) ranked) alive)

  stopped-Stopped :
      (b : FsmActor (F × List (Call S E)) D L S E P M)
      → Alive b
      → Stopped (stopped (traced c) dash b)
  unfolding stopped cached with_lifecycle finalize terminate
  stopped-Stopped b h =
      ground (arith, h.times, h.lifecycle, times_ended-append b.machine.fsm.1 (ended ∷ []))

  stopped-Ended :
      (b : FsmActor (F × List (Call S E)) D L S E P M) → Ended b → stopped (traced c) dash b ≡ b
  unfolding stopped
  stopped-Ended b h = rw (ap is_running h.lifecycle) refl

  live_lem :
      (a b b' : FsmActor (F × List (Call S E)) D L S E P M) (messages : List (Message E P))
      → started (traced c) dash show_state show_event fuel a ≡ some b
      → handle_all (traced c) dash show_state show_event fuel b messages ≡ some b'
      → live (traced c) dash show_state show_event fuel a messages
        ≡ some (stopped (traced c) dash b')
  unfolding live
  live_lem a b b' messages e e' = rw (e, live) (rw (e', live) refl)

  -- What is left at the stop, by how the messages were handled.
  Handled-Stopped :
      (b : FsmActor (F × List (Call S E)) D L S E P M) (messages : List (Message E P))
      → Handled messages b
      → Stopped (stopped (traced c) dash b)
        × (Memᴰ shutdown messages
            → (stopped (traced c) dash b).machine.state.lifecycle ≡ terminated)
  Handled-Stopped b messages (inl (h, absent)) = (stopped-Stopped b h, λ m. absurd (absent m))
  Handled-Stopped b messages (inr h) =
      rw (stopped-Ended b h) ((ap is_running h.lifecycle, rw h.lifecycle h.times), λ m. h.lifecycle)

  -- The life of an actor ends, and `on_terminate` is called at most once in it. Where a rank of the
  -- states, below the fuel, falls along every hard transition of the graph, and the actor begins with
  -- a machine that is not terminated, with no such call and without having asked to be stopped, its
  -- start, every message before the one on which it asks to be stopped, and its stop are done. Then
  -- its lifecycle is not `Running`; `on_terminate` was called once if it is `Terminated`, and not at
  -- all if it is another; and it is `Terminated` wherever one of the messages was a shutdown.
  pub live-Stopped :
      (a : FsmActor (F × List (Call S E)) D L S E P M) (messages : List (Message E P))
      → IsRanked a.graph rank
      → Alive a
      → (b : FsmActor (F × List (Call S E)) D L S E P M) × (live
            (traced c)
            dash
            show_state
            show_event
            fuel
            a
            messages
          ≡ some b)
        × Stopped b
        × (Memᴰ shutdown messages → b.machine.state.lifecycle ≡ terminated)
  live-Stopped a messages ranked h =
      let (b, e, (g, k)) =
        started-Steps c dash laws show_state show_event rank fuel enough a ranked h in
      elim k [
        | inl alive ↦
            let (b', e', handled) =
              handle_all-Handled b messages (subst (λ graph. IsRanked graph rank) (sym g) ranked)
                alive in
            let (done, down) = Handled-Stopped b' messages handled in
            (stopped (traced c) dash b', live_lem a b b' messages e e', done, down)
        | inr over ↦
            let (done, down) = Handled-Stopped b messages (inr over) in
            (
              stopped (traced c) dash b,
              live_lem a b b messages e (handle_all-Ended b messages over),
              done,
              down,
            )
      ]
