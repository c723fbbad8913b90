-- ===== src/Actor/Life/Ended.antt =====
-- A chain of transitions (`do_transition` of finitomata/src/supervisor.rs), by the calls of
-- `on_terminate`.
use finitomata_rs.Base.{
  ℕ, zero, suc, ◌+◌, ◌<◌, ◌≡◌, refl, sym, ◌∙◌, ap, subst, inl, inr, false, Option, none, some, List,
  Result, ok, err, arith,
}
use finitomata_rs.Base.Ord.{Ord, nat_ord, list_ord}
use finitomata_rs.Base.Text.{Text}
use finitomata_rs.Actor.{
  stop, FsmActor, emit, cached, hard_event, resume, follow, moved, do_transition,
}
use finitomata_rs.Actor.Settled.{IsRanked, Ends, Ends-Transited}
use finitomata_rs.Callbacks.{Finitomata}
use finitomata_rs.DashMap.{DashMap, IsLawful}
use finitomata_rs.Engine.{
  TransitOutcome, transitioned, soft_skipped, auto_terminate, hard_continue, Machine, transit,
}
use finitomata_rs.Engine.Order.{Called, transit-Called}
use finitomata_rs.Engine.Outcome.{Transited, transit-Transited}
use finitomata_rs.Engine.Trace.{Call, traced}
use finitomata_rs.Error.{FinitomataError}
use finitomata_rs.State.{FsmState, terminated}
use finitomata_rs.Transition.{EventKind}
use finitomata_rs.Actor.Life.Calls.{
  times_ended, times_ended-append, asked-append, is_terminated, Alive, Steps, Times, unended,
}

module _ {F D L S E P M : Type 0} (c : Finitomata F S E P) (dash : DashMap M Text (FsmState S P))
    (laws : IsLawful dash) ⦃so : Ord S⦄ (show_state : S → Text) (show_event : E → Text)
    ⦃eo : Ord E⦄ where
  pub Steps-resume :
      (next : FsmActor (F × List (Call S E)) D L S E P M
        → E
        → P
        → Option (FsmActor (F × List (Call S E)) D L S E P M))
      (a b : FsmActor (F × List (Call S E)) D L S E P M) (event : Option E)
      → b.graph ≡ a.graph
      → Alive b
      → ((event : E) (payload : P)
          → (b' : FsmActor (F × List (Call S E)) D L S E P M) × (next b event payload ≡ some b')
            × Steps b b')
      → (a' : FsmActor (F × List (Call S E)) D L S E P M) × (resume (traced c) dash next b event
          ≡ some a')
        × Steps a a'
  unfolding resume
  Steps-resume next a b none g h ih = (b, refl, (g, inl h))
  Steps-resume next a b (some event) g h ih =
      let (b', e, (g', k)) = ih event b.machine.state.payload in (b', e, (g' ∙ g, k))

  Times-Called :
      (a : FsmActor (F × List (Call S E)) D L S E P M) (event : E)
      (row : Option (List S × EventKind)) (m' : Machine (F × List (Call S E)) D L S P)
      (r : Result TransitOutcome FinitomataError)
      → Transited (traced c) show_state show_event a.graph a.context event a.machine row (m', r)
      → Called c a.context event a.machine row (m', r)
      → Times a.machine m' r
  Times-Called a event none m' (ok auto_terminate) t h = ground arith
  Times-Called a event none m' (ok hard_continue) t h = ap times_ended h
  Times-Called a event none m' (ok transitioned) t h = ap times_ended h
  Times-Called a event none m' (ok soft_skipped) t h = ap times_ended h
  Times-Called a event none m' (err e) t h = ap times_ended h
  Times-Called a event (some row) m' (ok auto_terminate) t h =
      ap times_ended h ∙ times_ended-append a.machine.fsm.1 _
  Times-Called a event (some row) m' (ok hard_continue) t h = unended a.machine.fsm.1 _ h refl
  Times-Called a event (some row) m' (ok transitioned) t h = unended a.machine.fsm.1 _ h refl
  Times-Called a event (some row) m' (ok soft_skipped) t h = unended a.machine.fsm.1 _ h refl
  Times-Called a event (some row) m' (err e) t (inl h) = unended a.machine.fsm.1 _ h refl
  Times-Called a event (some row) m' (err e) t (inr (h, refused)) = unended a.machine.fsm.1 _ h refl

  Steps-cached :
      (a : FsmActor (F × List (Call S E)) D L S E P M) (m : Machine (F × List (Call S E)) D L S P)
      → Alive a
      → is_terminated m.state.lifecycle ≡ false
      → times_ended m.fsm.1 ≡ times_ended a.machine.fsm.1
      → Steps a (cached (traced c) dash (record a { machine = m }))
  unfolding cached
  Steps-cached a m h l t =
      (refl, inl (record { lifecycle = l; times = t ∙ h.times; asked = h.asked }))

  Steps-stop :
      (a : FsmActor (F × List (Call S E)) D L S E P M) (m : Machine (F × List (Call S E)) D L S P)
      → Alive a
      → m.state.lifecycle ≡ terminated
      → times_ended m.fsm.1 ≡ times_ended a.machine.fsm.1 + 1
      → Steps a (emit (cached (traced c) dash (record a { machine = m })) stop)
  unfolding cached emit
  Steps-stop a m h l t = (
    refl,
    inr (record {
      lifecycle = l;
      times = omega (arith, t, h.times);
      asked = asked-append a.effects stop h.asked;
    }),
  )

  module _ (rank : S → ℕ) where
    -- Each outcome of `transit`, with what the rest of the chain does in hand.
    Steps-follow :
        (next : FsmActor (F × List (Call S E)) D L S E P M
          → E
          → P
          → Option (FsmActor (F × List (Call S E)) D L S E P M))
        (a : FsmActor (F × List (Call S E)) D L S E P M) (m : Machine (F × List (Call S E)) D L S P)
        (r : Result TransitOutcome FinitomataError)
        → Alive a
        → Ends rank a.machine m r
        → Times a.machine m r
        → ((b : FsmActor (F × List (Call S E)) D L S E P M) (event : E) (payload : P)
            → b.graph ≡ a.graph
            → Alive b
            → rank b.machine.state.current < rank a.machine.state.current
            → (b' : FsmActor (F × List (Call S E)) D L S E P M) × (next b event payload ≡ some b')
              × Steps b b')
        → (a' : FsmActor (F × List (Call S E)) D L S E P M) × (follow
              (traced c)
              dash
              next
              (record a { machine = m })
              r
            ≡ some a')
          × Steps a a'
    unfolding follow
    Steps-follow next a m (ok auto_terminate) h l t ih = (_, refl, Steps-stop a m h l t)
    Steps-follow next a m (ok transitioned) h l t ih =
        (_, refl, Steps-cached a m h (ap is_terminated l) t)
    Steps-follow next a m (ok soft_skipped) h l t ih =
        (_, refl, Steps-cached a m h (ap is_terminated l ∙ h.lifecycle) t)
    Steps-follow next a m (err e) h l t ih =
        (_, refl, Steps-cached a m h (ap is_terminated l ∙ h.lifecycle) t)
    Steps-follow next a m (ok hard_continue) h (l, lower) t ih =
        let b = cached (traced c) dash (record a { machine = m }) in
        let alive : Alive b = record {
          lifecycle = ap is_terminated l;
          times = t ∙ h.times;
          asked = h.asked;
        } in
        Steps-resume next a b (hard_event b) refl alive
          (λ event payload. ih b event payload refl alive lower)

    pub do_transition-Steps :
        (fuel : ℕ) (a : FsmActor (F × List (Call S E)) D L S E P M) (event : E) (payload : P)
        → IsRanked a.graph rank
        → rank a.machine.state.current < fuel
        → Alive a
        → (a' : FsmActor (F × List (Call S E)) D L S E P M) × (do_transition
              (traced c)
              dash
              show_state
              show_event
              fuel
              a
              event
              payload
            ≡ some a')
          × Steps a a'
    unfolding do_transition moved
    do_transition-Steps zero a event payload ranked enough h = ground arith
    do_transition-Steps (suc fuel) a event payload ranked enough h =
        let (m, r) =
          transit (traced c) show_state show_event a.graph a.machine event payload a.context in
        let t =
          transit-Transited (traced c) show_state show_event a.graph a.context event payload
            a.machine in
        Steps-follow (do_transition (traced c) dash show_state show_event fuel) a m r h
          (Ends-Transited dash laws (traced c) show_state show_event a rank event _ m r ranked refl
            t).1
          (Times-Called a event _ m r t
            (transit-Called c show_state show_event a.graph a.context event payload a.machine))
          (λ b e p g alive lower.
            do_transition-Steps fuel b e p (subst (λ graph. IsRanked graph rank) (sym g) ranked)
              (omega arith) alive)
