-- ===== src/Actor/Settled.antt =====
-- What one transition message does to the actor (`do_transition` of finitomata/src/supervisor.rs): that
-- the chain of hard events ends and which events it has, and what the cache and the actor library see.
use finitomata_rs.Base.{
  ℕ, zero, suc, ◌<◌, ◌≡◌, ◌⊎◌, inl, inr, refl, sym, ◌∙◌, ap, subst, true, Option, none, some, List,
  [], ◌∷◌, ◌++◌, any, Result, ok, err, if◌then◌else◌, arith,
}
use finitomata_rs.Base.Ord.{Ord, same, nat_ord, list_ord}
use finitomata_rs.Base.Text.{Text}
use finitomata_rs.Actor.{
  FsmActor, stop, emit, cached, hard_event, resume, follow, moved, do_transition,
}
use finitomata_rs.Actor.Fired.{Fires, do_transition-Fires}
use finitomata_rs.Cache.{get, update}
use finitomata_rs.Callbacks.{Finitomata}
use finitomata_rs.DashMap.{DashMap, IsLawful}
use finitomata_rs.Engine.{
  TransitOutcome, transitioned, soft_skipped, auto_terminate, hard_continue, Machine, transit,
}
use finitomata_rs.Engine.Outcome.{Transited, transit-Transited}
use finitomata_rs.Error.{FinitomataError}
use finitomata_rs.State.{FsmState, running, terminated}
use finitomata_rs.Transition.{EventKind, hard, soft, normal, TransitionGraph, allowed}

-- The hard transitions of the graph lead down.
abbrev pub IsRanked :
    {S E : Type 0} ⦃so : Ord S⦄ ⦃eo : Ord E⦄ → TransitionGraph S E → (S → ℕ) → Type 0
IsRanked {S} {E} graph rank =
    (from target : S) (event : E) (targets : List S)
    → allowed graph from event ≡ some (targets, hard)
    → any (λ t. same t target) targets ≡ true
    → rank target < rank from

module _ {F D L S P : Type 0} where
  -- The lifecycle that goes with each outcome, and that a hard event leads down.
  abbrev pub Ends :
      (S → ℕ)
      → Machine F D L S P
      → Machine F D L S P
      → Result TransitOutcome FinitomataError
      → Type 0
  Ends rank m m' (ok auto_terminate) = m'.state.lifecycle ≡ terminated
  Ends rank m m' (ok hard_continue) =
      (m'.state.lifecycle ≡ running) × (rank m'.state.current < rank m.state.current)
  Ends rank m m' (ok transitioned) = m'.state.lifecycle ≡ running
  Ends rank m m' (ok soft_skipped) = m'.state.lifecycle ≡ m.state.lifecycle
  Ends rank m m' (err e) = m'.state.lifecycle ≡ m.state.lifecycle

module _ {F D L S E P M : Type 0} (dash : DashMap M Text (FsmState S P)) where
  -- The cache holds the state of the actor under its name and is otherwise as it was, and the actor
  -- asks to be stopped exactly where its machine has terminated.
  pub record Settled (a a' : FsmActor F D L S E P M) : Type 0 where
    pub name : a'.machine.state.name ≡ a.machine.state.name
    pub cached_lem :
        (id : Text)
        → get dash a'.cache id
          ≡ (if same a.machine.state.name id then some a'.machine.state else get dash a.cache id)
    pub ended :
        (a'.effects ≡ a.effects ++ stop ∷ []) × (a'.machine.state.lifecycle ≡ terminated)
        ⊎ (a'.effects ≡ a.effects)
          × ((a'.machine.state.lifecycle ≡ running)
              ⊎ (a'.machine.state.lifecycle ≡ a.machine.state.lifecycle))

  module _ (laws : IsLawful dash) (callbacks : Finitomata F S E P) where
    Settled-cached :
        (a a1 : FsmActor F D L S E P M)
        → a1.machine.state.name ≡ a.machine.state.name
        → a1.cache ≡ a.cache
        → a1.effects ≡ a.effects
        → (a1.machine.state.lifecycle ≡ running)
          ⊎ (a1.machine.state.lifecycle ≡ a.machine.state.lifecycle)
        → Settled a (cached callbacks dash a1)
    unfolding cached update get
    Settled-cached a a1 n c f l = record {
      name = n;
      cached_lem =
          λ id. ground (arith, laws.get-insert a1.cache a1.machine.state.name id a1.machine.state);
      ended = inr (f, l);
    }

    Settled-stop :
        (a a1 : FsmActor F D L S E P M)
        → a1.machine.state.name ≡ a.machine.state.name
        → a1.cache ≡ a.cache
        → a1.effects ≡ a.effects
        → a1.machine.state.lifecycle ≡ terminated
        → Settled a (emit (cached callbacks dash a1) stop)
    unfolding cached update get emit
    Settled-stop a a1 n c f l = record {
      name = n;
      cached_lem =
          λ id. ground (arith, laws.get-insert a1.cache a1.machine.state.name id a1.machine.state);
      ended = inl (ap (λ es. es ++ stop ∷ []) f, l);
    }

    Settled-trans :
        (a b c : FsmActor F D L S E P M)
        → b.effects ≡ a.effects
        → b.machine.state.lifecycle ≡ running
        → Settled a b
        → Settled b c
        → Settled a c
    Settled-trans a b c e l h k = record {
      name = k.name ∙ h.name;
      cached_lem = λ id. ground (arith, h.cached_lem id, k.cached_lem id, h.name);
      ended = elim k.ended [
        | inl (f, t) ↦ inl (f ∙ ap (λ es. es ++ stop ∷ []) e, t)
        | inr (f, inl r) ↦ inr (f ∙ e, inl r)
        | inr (f, inr r) ↦ inr (f ∙ e, inl (r ∙ l))
      ];
    }

    module _ ⦃so : Ord S⦄ ⦃eo : Ord E⦄ where
      -- What `Transited` says of the lifecycle and the name.
      pub Ends-Transited :
          (show_state : S → Text) (show_event : E → Text) (a : FsmActor F D L S E P M)
          (rank : S → ℕ) (event : E) (row : Option (List S × EventKind)) (m' : Machine F D L S P)
          (r : Result TransitOutcome FinitomataError)
          → IsRanked a.graph rank
          → allowed a.graph a.machine.state.current event ≡ row
          → Transited callbacks show_state show_event a.graph a.context event a.machine row (m', r)
          → (m'.state.name ≡ a.machine.state.name) × Ends rank a.machine m' r
      Ends-Transited show_state show_event a rank event none m' (ok auto_terminate) ranked e h =
          ground arith
      Ends-Transited show_state show_event a rank event none m' (ok hard_continue) ranked e h =
          ground arith
      Ends-Transited show_state show_event a rank event none m' (ok transitioned) ranked e h =
          ground arith
      Ends-Transited show_state show_event a rank event none m' (ok soft_skipped) ranked e h =
          ground arith
      Ends-Transited show_state show_event a rank event none m' (err why) ranked e h = ground arith
      Ends-Transited show_state show_event a rank event (some (targets, kind)) m' (err why) ranked e
            h =
          ground arith
      Ends-Transited show_state show_event a rank event (some (targets, kind)) m'
            (ok auto_terminate) ranked e h =
          ground (arith, h.name, h.lifecycle, h.outcome_lem)
      Ends-Transited show_state show_event a rank event (some (targets, hard)) m' (ok hard_continue)
            ranked e h =
          ground (
            arith,
            h.name,
            h.lifecycle,
            h.outcome_lem,
            h.target,
            ranked a.machine.state.current m'.state.current event targets e,
          )
      Ends-Transited show_state show_event a rank event (some (targets, soft)) m' (ok hard_continue)
            ranked e h =
          ground (arith, h.outcome_lem)
      Ends-Transited show_state show_event a rank event (some (targets, normal)) m'
            (ok hard_continue) ranked e h =
          ground (arith, h.outcome_lem)
      Ends-Transited show_state show_event a rank event (some (targets, kind)) m' (ok transitioned)
            ranked e h =
          ground (arith, h.name, h.lifecycle, h.outcome_lem)
      Ends-Transited show_state show_event a rank event (some (targets, kind)) m' (ok soft_skipped)
            ranked e h =
          ground (arith, h.name, h.lifecycle, h.outcome_lem)

      module _ (show_state : S → Text) (show_event : E → Text) (rank : S → ℕ) where
        Settled-resume :
            (next : FsmActor F D L S E P M → E → P → Option (FsmActor F D L S E P M))
            (a b : FsmActor F D L S E P M) (event : Option E)
            → b.effects ≡ a.effects
            → b.machine.state.lifecycle ≡ running
            → Settled a b
            → ((event : E) (payload : P)
                → (b' : FsmActor F D L S E P M) × (next b event payload ≡ some b') × Settled b b')
            → (a' : FsmActor F D L S E P M) × (resume callbacks dash next b event ≡ some a')
              × Settled a a'
        unfolding resume
        Settled-resume next a b none e l h ih = (b, refl, h)
        Settled-resume next a b (some event) e l h ih =
            let (b', r, k) = ih event b.machine.state.payload in
            (b', r, Settled-trans a b b' e l h k)

        -- Each outcome, with what the rest of the chain does in hand.
        Settled-follow :
            (next : FsmActor F D L S E P M → E → P → Option (FsmActor F D L S E P M))
            (a : FsmActor F D L S E P M) (m : Machine F D L S P)
            (r : Result TransitOutcome FinitomataError)
            → (m.state.name ≡ a.machine.state.name) × Ends rank a.machine m r
            → ((b : FsmActor F D L S E P M) (event : E) (payload : P)
                → b.graph ≡ a.graph
                → rank b.machine.state.current < rank a.machine.state.current
                → (b' : FsmActor F D L S E P M) × (next b event payload ≡ some b') × Settled b b')
            → (a' : FsmActor F D L S E P M) × (follow callbacks dash next
                  (record a { machine = m })
                  r
                ≡ some a')
              × Settled a a'
        unfolding follow cached
        Settled-follow next a m (ok auto_terminate) (n, l) ih =
            (_, refl, Settled-stop a (record a { machine = m }) n refl refl l)
        Settled-follow next a m (ok transitioned) (n, l) ih =
            (_, refl, Settled-cached a (record a { machine = m }) n refl refl (inl l))
        Settled-follow next a m (ok soft_skipped) (n, l) ih =
            (_, refl, Settled-cached a (record a { machine = m }) n refl refl (inr l))
        Settled-follow next a m (err e) (n, l) ih =
            (_, refl, Settled-cached a (record a { machine = m }) n refl refl (inr l))
        Settled-follow next a m (ok hard_continue) (n, (l, lower)) ih =
            let b = cached callbacks dash (record a { machine = m }) in
            Settled-resume next a b (hard_event b) refl l
              (Settled-cached a (record a { machine = m }) n refl refl (inl l))
              (λ event payload. ih b event payload refl lower)

        pub do_transition-ends :
            (fuel : ℕ) (a : FsmActor F D L S E P M) (event : E) (payload : P)
            → IsRanked a.graph rank
            → rank a.machine.state.current < fuel
            → (a' : FsmActor F D L S E P M) × (do_transition callbacks dash show_state show_event
                  fuel a event payload
                ≡ some a')
              × Settled a a'
        unfolding do_transition moved
        do_transition-ends zero a event payload ranked enough = ground arith
        do_transition-ends (suc fuel) a event payload ranked enough =
            let (m, r) =
              transit callbacks show_state show_event a.graph a.machine event payload a.context in
            Settled-follow (do_transition callbacks dash show_state show_event fuel) a m r
              (Ends-Transited show_state show_event a rank event _ m r ranked refl (
                transit-Transited callbacks show_state show_event a.graph a.context event payload
                  a.machine))
              (λ b e p g lower.
                do_transition-ends fuel b e p (subst (λ graph. IsRanked graph rank) (sym g) ranked)
                  (omega arith))

        -- A transition message is handled to its end. Where a rank of the states falls along every
        -- hard transition of the graph, it takes at most as many transitions as the rank of the state,
        -- and one: that of the message, and then, as long as the last one was by a hard event and did
        -- not end the machine, that of the first hard event of the state it led to, with the machine's
        -- payload. So a hard event does not fire after a transition by any other event. The machine
        -- is the one that these transitions leave. The cache then holds the actor's state under its
        -- name, its other entries are as they were, and either the machine has terminated and the actor
        -- asked once, and last, to be stopped, or it asked for nothing and the lifecycle is `Running`
        -- or what it was.
        pub do_transition-Settled :
            (fuel : ℕ) (a : FsmActor F D L S E P M) (event : E) (payload : P)
            → IsRanked a.graph rank
            → rank a.machine.state.current < fuel
            → (a' : FsmActor F D L S E P M) × (do_transition callbacks dash show_state show_event
                  fuel a event payload
                ≡ some a')
              × Settled a a'
              × Fires callbacks show_state show_event a.graph a.context a.machine event payload
                  a'.machine
        do_transition-Settled fuel a event payload ranked enough =
            let (a', ends, h) = do_transition-ends fuel a event payload ranked enough in
            (
              a',
              ends,
              h,
              do_transition-Fires callbacks dash show_state show_event fuel a a' event payload ends,
            )
