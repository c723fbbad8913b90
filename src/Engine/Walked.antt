-- ===== src/Engine/Walked.antt =====
-- Runs of `transit` (finitomata/src/engine.rs) as walks of the graph (finitomata/src/transition.rs).
use mathlib.Core.List.{append-nil, append_assoc, map-append}
use mathlib.Core.Option
use finitomata_rs.Base.{
  some_inj, ◌≡◌, refl, sym, subst, ap, ◌∙◌, inl, inr, Bool, true, false, ◌&&◌, Option, none, some,
  List, [], ◌∷◌, ◌++◌, map, any, find, Memᴰ, Result, ok, err, arith, Bool-cases, Option-cases,
}
use finitomata_rs.Base.Ord.{Ord, same, same_iff}
use finitomata_rs.Base.Text.{Text}
use finitomata_rs.BTree.Sets
use finitomata_rs.BTree.Sets.{BTreeSet}
use finitomata_rs.Callbacks.{Finitomata}
use finitomata_rs.Engine.{TransitContext, TransitOutcome, Machine, transit}
use finitomata_rs.Engine.Bounded.{transit_all}
use finitomata_rs.Engine.Outcome.{Transited, transit-Transited}
use finitomata_rs.Error.{FinitomataError}
use finitomata_rs.State.{BoundedHistory, push}
use finitomata_rs.State.History.{push_all}
use finitomata_rs.Transition.{EventKind, Transition, TransitionGraph, PathSteps, new, allowed}
use finitomata_rs.Transition.Index.{first_match, allowed-new, new-IsWellFormed}
use finitomata_rs.Transition.Reachable.{reachable_from}
use finitomata_rs.Transition.Reachable.Correct.{reachable_from_correct}
use finitomata_rs.Transition.Walks.{Edge, Walk, here, step}

module _ {S : Type 0} ⦃so : Ord S⦄ where
  mem_of_any :
      (target : S) (targets : List S)
      → any (λ t. same t target) targets ≡ true
      → Memᴰ target targets
  mem_of_any target [] h = cc
  mem_of_any target (t ∷ ts) h = elim (Bool-cases (same t target)) [
    | inl e ↦ Memᴰ.head (sym ((same_iff t target).0 e))
    | inr n ↦ Memᴰ.tail (mem_of_any target ts (ground (arith)))
  ]

module _ {A : Type 0} (test : A → Bool) where
  find-cons :
      (x a : A) (xs : List A) (b : Bool)
      → test x ≡ b
      → elim b as (λ b. Option A) [ true ↦ some x | false ↦ find test xs ] ≡ some a
      → (find test xs ≡ some a → Memᴰ a xs × (test a ≡ true))
      → Memᴰ a (x ∷ xs) × (test a ≡ true)
  find-cons x a xs true e h ih =
      (Memᴰ.head (sym (some_inj h)), subst (λ y. test y ≡ true) (some_inj h) e)
  find-cons x a xs false e h ih = let (m, t) = ih h in (Memᴰ.tail m, t)

  find_lem : (xs : List A) (a : A) → find test xs ≡ some a → Memᴰ a xs × (test a ≡ true)
  find_lem [] a h = cc
  find_lem (x ∷ xs) a h = find-cons x a xs (test x) refl h (find_lem xs a)

-- The steps of a run: the events that the graph allows and that succeed, each with the state that the
-- machine is then in.
module _ {S E : Type 0} where
  abbrev stepped :
      Option (List S × EventKind) → Result TransitOutcome FinitomataError → E → S → PathSteps S E
  stepped (some row) (ok o) event s = (event, s) ∷ []
  stepped (some row) (err e) event s = []
  stepped none r event s = []

module _ {F D L S E P : Type 0} ⦃so : Ord S⦄ ⦃eo : Ord E⦄ (callbacks : Finitomata F S E P)
    (show_state : S → Text) (show_event : E → Text) (initial : S) (finals : BTreeSet S)
    (ts : List (Transition S E)) (ctx : TransitContext D L S E P) where
  abbrev graph : TransitionGraph S E
  graph = new initial finals ts

  abbrev pub steps_of : Machine F D L S P → List (E × P) → PathSteps S E
  steps_of m [] = []
  steps_of m ((event, event_payload) ∷ rest) =
      let (m', r) = transit callbacks show_state show_event graph m event event_payload ctx in
      stepped (allowed graph m.state.current event) r event m'.state.current ++ steps_of m' rest

  -- An answer of `allowed` with one of its targets is an edge.
  Edge-allowed :
      (s v : S) (event : E) (targets : List S) (kind : EventKind)
      → allowed graph s event ≡ some (targets, kind)
      → any (λ t. same t v) targets ≡ true
      → Edge graph s event v
  unfolding new
  Edge-allowed s v event targets kind row h =
      let answer = sym (allowed-new initial finals ts s event) ∙ row in
      elim (Option-cases (first_match ts s event)) [
        | inl e ↦ cc
        | inr (t, e) ↦
            let (m, both) = find_lem (λ t. same t.from s && same t.event event) ts t e in
            (
              t,
              m,
              (same_iff t.from s).0 (ground arith),
              (same_iff t.event event).0 (ground arith),
              subst (Memᴰ v)
                  (sym (
                    ap (λ (q : List S × EventKind). q.0)
                      (some_inj (sym (ap (Option.map (λ t. (t.to, t.kind))) e) ∙ answer))))
                  (mem_of_any v targets h),
            )
      ]

  -- What one call adds to the walk and to the history.
  record IsStep (m m' : Machine F D L S P) (new_steps : PathSteps S E) : Type 0 where
    walk :
        (start : S) (p : PathSteps S E)
        → Walk graph start p m.state.current
        → Walk graph start (p ++ new_steps) m'.state.current
    history : m'.state.history ≡ push_all m.state.history (map (λ s. s.1) new_steps)

  stays-IsStep :
      (m m' : Machine F D L S P)
      → m'.state.current ≡ m.state.current
      → m'.state.history ≡ m.state.history
      → IsStep m m' []
  stays-IsStep m m' e h = record {
    walk = λ start p w.
        subst (Walk graph start (p ++ [])) (sym e)
          (subst (λ q. Walk graph start q m.state.current) (sym (append-nil p)) w);
    history = h;
  }

  Transited-IsStep :
      (event : E) (m : Machine F D L S P) (row : Option (List S × EventKind))
      (r : Machine F D L S P × Result TransitOutcome FinitomataError)
      → allowed graph m.state.current event ≡ row
      → Transited callbacks show_state show_event graph ctx event m row r
      → IsStep m r.0 (stepped row r.1 event r.0.state.current)
  Transited-IsStep event m none r e h =
      stays-IsStep m r.0 (ap (λ m. m.state.current) h.0) (ap (λ m. m.state.history) h.0)
  Transited-IsStep event m (some row) (m', err why) e h = stays-IsStep m m' h.0.current h.0.history
  Transited-IsStep event m (some (targets, kind)) (m', ok o) e h = record {
    walk = λ start p w.
        step w (Edge-allowed m.state.current m'.state.current event targets kind e h.target) refl;
    history = h.history;
  }

  push_all-append :
      (h : BoundedHistory S) (xs ys : List S) → push_all h (xs ++ ys) ≡ push_all (push_all h xs) ys
  push_all-append h [] ys = refl
  push_all-append h (x ∷ xs) ys = push_all-append (push h x) xs ys

  transit_all-IsStep :
      (m : Machine F D L S P) (events : List (E × P))
      → IsStep m
          (transit_all callbacks show_state show_event graph ctx m events)
          (steps_of m events)
  transit_all-IsStep m [] = stays-IsStep m m refl refl
  transit_all-IsStep m ((event, event_payload) ∷ rest) =
      let (m', r) = transit callbacks show_state show_event graph m event event_payload ctx in
      let one =
        Transited-IsStep event m (allowed graph m.state.current event) (m', r) refl
          (transit-Transited callbacks show_state show_event graph ctx event event_payload m) in
      let more = transit_all-IsStep m' rest in
      let last = transit_all callbacks show_state show_event graph ctx m' rest in
      let first = stepped (allowed graph m.state.current event) r event m'.state.current in
      record {
        walk = λ start p w.
            subst (λ q. Walk graph start q last.state.current)
              (append_assoc p first (steps_of m' rest))
              (more.walk start (p ++ first) (one.walk start p w));
        history =
            more.history
            ∙ ap (λ h. push_all h (map (λ s. s.1) (steps_of m' rest))) one.history
            ∙ sym (
                push_all-append m.state.history (map (λ s. s.1) first)
                  (map (λ s. s.1) (steps_of m' rest)))
            ∙ ap (push_all m.state.history) (sym (map-append (λ s. s.1) first (steps_of m' rest)));
      }

  -- A run of the engine is a walk of its graph. Over any row of events, the events that the graph allows
  -- and that succeed, each with the state that it leads to, are the steps of a walk from the first state
  -- of the machine to its last; the history is the old one with the states of these steps; and
  -- `reachable_from` of the first state ends with a set that holds the last.
  pub transit_all-Walk :
      (m : Machine F D L S P) (events : List (E × P))
      → let m' = transit_all callbacks show_state show_event graph ctx m events in
        Walk graph m.state.current (steps_of m events) m'.state.current
        × (m'.state.history ≡ push_all m.state.history (map (λ s. s.1) (steps_of m events)))
        × ((r : BTreeSet S) × (reachable_from graph m.state.current ≡ some r)
            × (Sets.contains r m'.state.current ≡ true))
  transit_all-Walk m events =
      let run = transit_all-IsStep m events in
      let walk = run.walk m.state.current [] here in
      let (r, ends, exact) =
        reachable_from_correct graph m.state.current (new-IsWellFormed initial finals ts) in
      (walk, run.history, (r, ends, (exact _).1 (_, walk)))
