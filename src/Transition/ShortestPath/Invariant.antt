-- ===== src/Transition/ShortestPath/Invariant.antt =====
-- What holds of the search of `shortest_path` (finitomata/src/transition.rs) between two rounds.
use mathlib.Core.List.Memᴰ
use mathlib.Core.Bool.{true≢false}
use finitomata_rs.Base.{
  false_of, Memᴰ-nil, ℕ, suc, ◌≤◌, ◌≡◌, refl, sym, ap, ◌∙◌, ◌⊎◌, inl, inr, ⊎_elim, ◌≢◌, ◌↔◌, true,
  false, List, [], ◌∷◌, ◌++◌, Memᴰ, arith, length, length-append, subst,
}
use finitomata_rs.Base.Ord.{Ord}
use finitomata_rs.BTree.Sets
use finitomata_rs.Transition.{TransitionGraph, PathSteps, rows}
use finitomata_rs.Transition.Index.{IsWellFormed, mem-rows}
use finitomata_rs.Transition.ShortestPath.{Search}
use finitomata_rs.Transition.ShortestPath.Grow.{Grown}
use finitomata_rs.Transition.ShortestPath.Rounds.{Offered}
use finitomata_rs.Transition.ShortestPath.Levels.{
  AllAt, Levels, AllAt-of_mem, length_of_AllAt, Levels_of_AllAt, Levels-append,
}
use finitomata_rs.Transition.Walks.{Edge, Walk, here, step, Walk-cases, targets}

module _ {S E : Type 0} ⦃so : Ord S⦄ (g : TransitionGraph S E) where
  abbrev pub Queued : Search S E → S → Type 0
  Queued s v = (q : PathSteps S E) × Memᴰ (v, q) s.queue

  -- All states up to the distance `d` are marked, and the queued paths have length `d` or `d + 1`.
  pub record Inv (from to : S) (d : ℕ) (s : Search S E) : Type 0 where
    pub source : Sets.contains s.visited from ≡ true
    pub target : Sets.contains s.visited to ≡ false
    pub walks : (v : S) (q : PathSteps S E) → Memᴰ (v, q) s.queue → Walk g from q v
    pub minimal :
        (v : S) (q p : PathSteps S E) → Memᴰ (v, q) s.queue → Walk g from p v → length q ≤ length p
    pub levels : Levels d s.queue
    pub closed :
        (u v : S) (e : E)
        → Sets.contains s.visited u ≡ true
        → Edge g u e v
        → Queued s u ⊎ (Sets.contains s.visited v ≡ true)
    pub near :
        (v : S) (p : PathSteps S E)
        → Walk g from p v
        → length p ≤ d
        → Sets.contains s.visited v ≡ true

  module _ (from to : S) where
    abbrev pub start : Search S E
    start = record { visited = Sets.insert [] from; queue = (from, []) ∷ [] }

    start-mem : (v : S) → (Sets.contains start.visited v ≡ true) ↔ (v ≡ from)
    start-mem v = ground (arith, Sets.contains-insert [] from v, Sets.contains_iff [] v, Memᴰ-nil v)

    pub Inv-start : from ≢ to → Inv from to 0 start
    Inv-start ne = record {
      source = (start-mem from).1 refl;
      target = false_of (λ h. ne (sym ((start-mem to).0 h)));
      walks = λ v q m.
          let eq = Memᴰ.eq_of_singleton m in subst (λ x. Walk g from x.1 x.0) (sym eq) here;
      minimal =
          λ v q p m w. let eq = Memᴰ.eq_of_singleton m in omega (arith, ap (λ x. length x.1) eq);
      levels = inl (refl, tt);
      closed = λ u v e m edge. inl ([], Memᴰ.head (ap (λ x. (x, [])) ((start-mem u).0 m)));
      near = λ v p w h.
          (start-mem v).1 (⊎_elim (λ z. z.1) (λ r. absurd (omega (arith, r.5))) (Walk-cases g w));
    }

    -- When the queue holds no path of length `d` any more, the next level is complete.
    pub Inv-shift :
        (d : ℕ) (s : Search S E) → AllAt (suc d) s.queue → Inv from to d s → Inv from to (suc d) s
    Inv-shift d s all inv = record {
      source = inv.source;
      target = inv.target;
      walks = inv.walks;
      minimal = inv.minimal;
      levels = Levels_of_AllAt (suc d) s.queue all;
      closed = inv.closed;
      near = λ v p w h. ⊎_elim (λ z. rw z.1 inv.source) (λ r. last v p h r) (Walk-cases g w);
    }
      where
        last :
            (v : S) (p : PathSteps S E)
            → length p ≤ suc d
            → (u : S) × (q : PathSteps S E) × (e : E) × Walk g from q u
              × Edge g u e v
              × (length p ≡ suc (length q))
            → Sets.contains s.visited v ≡ true
        last v p h (u, q, e, w, edge, eq) =
            ⊎_elim
              (λ r. absurd (
                omega (
                  arith,
                  inv.minimal u r.0 q r.1 w,
                  length_of_AllAt (suc d) s.queue u r.0 all r.1,
                )))
              (λ m. m) (inv.closed u v e (inv.near u q w (omega arith)) edge)

    module _ (wf : IsWellFormed g) (d : ℕ) (s s' : Search S E) (u : S) (path : PathSteps S E)
        (rest : List (S × PathSteps S E)) (front : s.queue ≡ (u, path) ∷ rest)
        (at : length path ≡ d) (lower : Levels d rest) (inv : Inv from to d s)
        (grown : Grown
          (targets g.transitions)
          to
          path
          (Offered (rows g u))
          (record s { queue = rest })
          s') where
      Offered-Edge : (e : E) (v : S) → Offered (rows g u) e v → Edge g u e v
      Offered-Edge e v o =
          let (m, from_u) = (mem-rows g u o.0 wf).0 o.1 in (o.0, m, from_u, o.2, o.3)

      Edge-Offered : (e : E) (v : S) → Edge g u e v → Offered (rows g u) e v
      Edge-Offered e v (t, m, from_u, ev, k) = (t, (mem-rows g u t wf).1 (m, from_u), ev, k)

      queue' : s'.queue ≡ rest ++ grown.fresh
      queue' = grown.appended

      waiting : {v : S} {q : PathSteps S E} → Memᴰ (v, q) rest → Memᴰ (v, q) s.queue
      waiting m = rw front (Memᴰ.tail m)

      split :
          (v : S) (q : PathSteps S E)
          → Memᴰ (v, q) s'.queue
          → Memᴰ (v, q) s.queue
            ⊎ (Sets.contains s.visited v ≡ false)
              × (e : E) × Edge g u e v
              × (q ≡ path ++ (e, v) ∷ [])
      split v q m =
          ⊎_elim (λ old. inl (waiting old))
            (λ new.
              let (unmarked, o) = grown.offered v q new in
              inr (unmarked, o.0, Offered-Edge o.0 v o.1, o.2))
            (Memᴰ.append_cases rest (subst (Memᴰ (v, q)) queue' m))

      Walk-head : Walk g from path u
      Walk-head = inv.walks u path (rw front (Memᴰ.head refl))

      -- A new path is longer than every walk that leads to a marked state.
      new_minimal :
          (v : S) (q p : PathSteps S E) (e : E)
          → Sets.contains s.visited v ≡ false
          → q ≡ path ++ (e, v) ∷ []
          → Walk g from p v
          → length q ≤ length p
      new_minimal v q p e unmarked eq w =
          let far : ¬ (length p ≤ d) = λ h. true≢false (sym (inv.near v p w h) ∙ unmarked) in
          omega (arith, ap length eq, length-append path ((e, v) ∷ []))

      new_length : (v : S) (q : PathSteps S E) → Memᴰ (v, q) grown.fresh → length q ≡ suc d
      new_length v q m =
          let o = (grown.offered v q m).1 in
          omega (arith, ap length o.2, length-append path ((o.0, v) ∷ []))

      -- A state that was marked before has its successors marked, or is queued still, or is `u`.
      closed_old :
          (x v : S) (e : E)
          → Sets.contains s.visited x ≡ true
          → Edge g x e v
          → Queued s' x ⊎ (Sets.contains s'.visited v ≡ true)
      closed_old x v e old edge =
          ⊎_elim
            (λ r.
              ⊎_elim
                (λ eq.
                  let is_u : x ≡ u = ap (λ y. y.0) eq in
                  inr (
                    (grown.marks v).1
                      (inr (e, Edge-Offered e v (subst (λ y. Edge g y e v) is_u edge)))))
                (λ k. inl (r.0, rw queue' (Memᴰ.append_left grown.fresh k)))
                (Memᴰ.cases_cons (subst (Memᴰ (x, r.0)) front r.1)))
            (λ m. inr ((grown.marks v).1 (inl m))) (inv.closed x v e old edge)

      -- The round keeps the invariant at the same level.
      pub Inv-expand : Inv from to d s'
      Inv-expand = record {
        source = (grown.marks from).1 (inl inv.source);
        target = false_of (λ h.
            ⊎_elim (λ old. true≢false (sym old ∙ inv.target)) (λ o. grown.misses o.0 to o.1 refl)
              ((grown.marks to).0 h));
        walks = λ v q m. ⊎_elim (inv.walks v q) (λ n. step Walk-head n.2 n.3) (split v q m);
        minimal = λ v q p m w.
            ⊎_elim (λ old. inv.minimal v q p old w) (λ n. new_minimal v q p n.1 n.0 n.3 w)
              (split v q m);
        levels =
            rw queue' (
              Levels-append d rest grown.fresh lower (AllAt-of_mem (suc d) grown.fresh new_length));
        closed = λ x v e m edge.
            ⊎_elim (λ old. closed_old x v e old edge)
              (λ r. inl (r.0, rw queue' (Memᴰ.append_right rest r.1))) (grown.queued x m);
        near = λ v p w h. (grown.marks v).1 (inl (inv.near v p w h));
      }
