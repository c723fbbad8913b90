-- ===== src/Actor/Life/Start.antt =====
-- The start of an actor (`started` of finitomata/src/supervisor.rs), by the calls of `on_terminate`.
use finitomata_rs.Base.{
  ℕ, ◌<◌, ◌≡◌, refl, sym, ◌∙◌, ap, subst, inl, inr, Bool, true, false, Option, none, some, List, [],
  ◌∷◌, ◌++◌, Result, ok, err, if◌then◌else◌, arith,
}
use finitomata_rs.Base.Ord.{Ord, nat_ord, list_ord}
use finitomata_rs.Base.Text.{Text}
use finitomata_rs.Actor.{
  send_after, unregister, register, FsmActor, emit, with_lifecycle, arm, rearm, enlist, hard_event,
  cached, resurrect, reload, restore, recover, do_transition, started,
}
use finitomata_rs.Actor.Life.Calls.{times_ended-append, asked-append, Alive, Steps}
use finitomata_rs.Actor.Life.Ended.{Steps-resume, do_transition-Steps}
use finitomata_rs.Actor.Settled.{IsRanked}
use finitomata_rs.Callbacks.{Finitomata}
use finitomata_rs.DashMap.{DashMap, IsLawful}
use finitomata_rs.Engine.{enter}
use finitomata_rs.Engine.Trace.{Call, entered, other, traced}
use finitomata_rs.Error.{PersistencyError}
use finitomata_rs.Persistency.{Persistency}
use finitomata_rs.State.{FsmState, Lifecycle, is_running}

module _ {F D L S E P M : Type 0} where
  pub Alive-arm :
      (a : FsmActor (F × List (Call S E)) D L S E P M) (interval : Option ℕ)
      → Alive a
      → Alive (arm a interval)
  unfolding arm emit
  Alive-arm a none h = h
  Alive-arm a (some n) h = record {
    lifecycle = h.lifecycle;
    times = h.times;
    asked = asked-append a.effects (send_after n) h.asked;
  }

  pub graph-arm :
      (a : FsmActor (F × List (Call S E)) D L S E P M) (interval : Option ℕ)
      → (arm a interval).graph ≡ a.graph
  unfolding arm emit
  graph-arm a none = refl
  graph-arm a (some n) = refl

  -- The actor goes on, in the same graph.
  abbrev pub Goes :
      FsmActor (F × List (Call S E)) D L S E P M
      → FsmActor (F × List (Call S E)) D L S E P M
      → Type 0
  Goes a b = (b.graph ≡ a.graph) × Alive b

  Goes-if :
      (a b b' : FsmActor (F × List (Call S E)) D L S E P M) (test : Bool)
      → Goes a b
      → Goes a b'
      → Goes a (if test then b else b')
  Goes-if a b b' true h k = h
  Goes-if a b b' false h k = k

  Goes-enlist : (a b : FsmActor (F × List (Call S E)) D L S E P M) → Goes a b → Goes a (enlist b)
  unfolding enlist emit
  Goes-enlist a b (g, h) =
      Goes-if a _ b b.system
        (
          g,
          record {
            lifecycle = h.lifecycle;
            times = h.times;
            asked =
                asked-append (b.effects ++ unregister b.name ∷ []) (register b.name)
                  (asked-append b.effects (unregister b.name) h.asked);
          },
        )
        (g, h)

  pub Steps-rearm :
      (a b : FsmActor (F × List (Call S E)) D L S E P M) → Steps a b → Steps a (rearm b)
  unfolding rearm
  Steps-rearm a b (g, inl h) =
      let (g', h') =
        Goes-if a (arm b b.timer_interval) b (is_running b.machine.state.lifecycle)
          (graph-arm b b.timer_interval ∙ g, Alive-arm b b.timer_interval h) (g, h) in
      (g', inl h')
  Steps-rearm a b (g, inr h) = rw (ap is_running h.lifecycle) (g, inr h)

module _ {F D L S E P M : Type 0} (c : Finitomata F S E P) (dash : DashMap M Text (FsmState S P))
    (laws : IsLawful dash) ⦃so : Ord S⦄ (show_state : S → Text) (show_event : E → Text) ⦃eo : Ord E⦄
    (rank : S → ℕ) where
  Goes-reload :
      (a b : FsmActor (F × List (Call S E)) D L S E P M)
      (found : Result (Option (Lifecycle × S × P)) PersistencyError)
      → Goes a b
      → Goes a (reload (traced c) dash b found)
  unfolding reload resurrect cached with_lifecycle enter
  Goes-reload a b (ok (some (lc, state, payload))) (g, h) = (
    g,
    record {
      lifecycle = refl;
      times = omega (
        arith,
        h.times,
        times_ended-append b.machine.fsm.1 (other ∷ []),
        times_ended-append (b.machine.fsm.1 ++ other ∷ []) (entered state ∷ []),
      );
      asked = h.asked;
    },
  )
  Goes-reload a b (ok none) h = h
  Goes-reload a b (err e) h = h

  Goes-restore :
      (a : FsmActor (F × List (Call S E)) D L S E P M) (backend : Option (Persistency D S P))
      → Alive a
      → Goes a (restore (traced c) dash a backend)
  unfolding restore
  Goes-restore a none h = (refl, h)
  Goes-restore a (some backend) h =
      let (store, found) = backend.load a.machine.store a.name in
      Goes-reload a (record a { machine = record (a.machine) { store = store } }) found
        (refl, record { lifecycle = h.lifecycle; times = h.times; asked = h.asked })

  Goes-recover :
      (a : FsmActor (F × List (Call S E)) D L S E P M)
      → Alive a
      → Goes a (recover (traced c) dash a)
  unfolding recover
  Goes-recover a h =
      Goes-if a _ a a.recover_on_start (Goes-enlist a _ (Goes-restore a a.context.persistency h))
        (refl, h)

  module _ (fuel : ℕ) (enough : (s : S) → rank s < fuel) where
    pub started-Steps :
        (a : FsmActor (F × List (Call S E)) D L S E P M)
        → IsRanked a.graph rank
        → Alive a
        → (b : FsmActor (F × List (Call S E)) D L S E P M) × (started
              (traced c)
              dash
              show_state
              show_event
              fuel
              a
            ≡ some b)
          × Steps a b
    unfolding started
    started-Steps a ranked h =
        let (g, alive) = Goes-recover a h in
        let b = arm (recover (traced c) dash a) a.timer_interval in
        let g' : b.graph ≡ a.graph = graph-arm _ a.timer_interval ∙ g in
        let alive' : Alive b = Alive-arm _ a.timer_interval alive in
        Steps-resume c dash laws show_state show_event
          (do_transition (traced c) dash show_state show_event fuel) a b (hard_event b) g' alive'
          (λ event payload.
            do_transition-Steps c dash laws show_state show_event rank fuel b event payload
              (subst (λ graph. IsRanked graph rank) (sym g') ranked)
              (enough b.machine.state.current) alive')
