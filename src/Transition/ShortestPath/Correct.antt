-- ===== src/Transition/ShortestPath/Correct.antt =====
-- `shortest_path` (finitomata/src/transition.rs) against the walks of the graph.
use mathlib.Core.List.Memᴰ
use finitomata_rs.Base.{
  none≢some, some_inj, ℕ, zero, suc, ◌+◌, ◌≤◌, ◌≡◌, refl, sym, ap, ◌∙◌, inl, inr, ⊎_elim, true,
  Option, none, some, List, [], ◌∷◌, Memᴰ, arith, length, length-append, subst, Bool-cases,
  List-cases,
}
use mathlib.Core.Bool.{true≢false}
use finitomata_rs.BTree.Sets
use finitomata_rs.Base.Ord.{Ord, same, same_iff}
use finitomata_rs.Transition.{Transition, TransitionGraph, PathSteps, rows, target_count}
use finitomata_rs.Transition.Index.{IsWellFormed, mem-rows}
use finitomata_rs.Transition.ShortestPath.{Search, more, found, scan_rows, path_loop, shortest_path}
use finitomata_rs.Transition.ShortestPath.Rounds.{Scan-cases, scan_rows-more, scan_rows-found}
use finitomata_rs.Transition.ShortestPath.Levels.{Levels, Levels_of_AllAt}
use finitomata_rs.Transition.ShortestPath.Invariant.{Inv, Inv-start, Inv-shift, Inv-expand}
use finitomata_rs.Transition.Walks.{
  Walk, here, step, targets, mem-targets, length-targets, unseen, unseen-le,
}

module _ {S E : Type 0} ⦃so : Ord S⦄ (g : TransitionGraph S E) where
  -- What the result means: a walk that no walk undercuts, or no walk at all.
  abbrev pub IsShortest : S → S → Option (PathSteps S E) → Type 0
  IsShortest from to none = (p : PathSteps S E) → ¬ Walk g from p to
  IsShortest from to (some p) =
      Walk g from p to × ((q : PathSteps S E) → Walk g from q to → length p ≤ length q)

  module _ (wf : IsWellFormed g) (to : S) where
    rows-targets :
        (u : S) (t : Transition S E) (v : S)
        → Memᴰ t (rows g u)
        → Memᴰ v t.to
        → Memᴰ v (targets g.transitions)
    rows-targets u t v m k = mem-targets g.transitions t v ((mem-rows g u t wf).0 m).0 k

    -- The level at which the head of the queue stands.
    settle :
        (from : S) (d : ℕ) (s : Search S E) (u : S) (path : PathSteps S E)
        (rest : List (S × PathSteps S E))
        → s.queue ≡ (u, path) ∷ rest
        → Inv g from to d s
        → (d' : ℕ) × Inv g from to d' s × (length path ≡ d') × Levels d' rest
    settle from d s u path rest front inv =
        ⊎_elim (λ h. (d, inv, h.0, h.1))
          (λ h. (
            suc d,
            Inv-shift g from to d s (rw front h) inv,
            h.0,
            Levels_of_AllAt (suc d) rest h.1,
          ))
          (subst (Levels d) front inv.levels)

    -- With an empty queue the marked states are closed under edges.
    marked_of_Walk :
        (from : S) (d : ℕ) (s : Search S E)
        → s.queue ≡ []
        → Inv g from to d s
        → {p : PathSteps S E} {v : S} → Walk g from p v
        → Sets.contains s.visited v ≡ true
    marked_of_Walk from d s e inv here = inv.source
    marked_of_Walk from d s e inv (step {u = u} {v = v} {e = ev} r edge eq) =
        ⊎_elim (λ q. absurd (Memᴰ.not-nil (subst (Memᴰ (u, q.0)) e q.1))) (λ m. m)
          (inv.closed u v ev (marked_of_Walk from d s e inv r) edge)

    empty_correct :
        (from : S) (d : ℕ) (s : Search S E) (r : Option (PathSteps S E))
        → s.queue ≡ []
        → Inv g from to d s
        → some none ≡ some r
        → IsShortest from to r
    empty_correct from d s r e inv h =
        subst (IsShortest from to) (some_inj h)
          (λ p w. true≢false (sym (marked_of_Walk from d s e inv w) ∙ inv.target))

    found_correct :
        (from : S) (d : ℕ) (s : Search S E) (u : S) (path p : PathSteps S E)
        (rest : List (S × PathSteps S E))
        → s.queue ≡ (u, path) ∷ rest
        → length path ≡ d
        → Inv g from to d s
        → scan_rows to path (record s { queue = rest }) (rows g u) ≡ found p
        → IsShortest from to (some p)
    found_correct from d s u path p rest front at inv f =
        let (ev, o, eq) = scan_rows-found [] to path (rows g u) (record s { queue = rest }) p f in
        let (m, from_u) = (mem-rows g u o.0 wf).0 o.1 in
        let walk = inv.walks u path (rw front (Memᴰ.head refl)) in
        (
          step walk (o.0, m, from_u, o.2, o.3) eq,
          λ q w.
              let far : ¬ (length q ≤ d) = λ h. true≢false (sym (inv.near to q w h) ∙ inv.target) in
              omega (arith, ap length eq, length-append path ((ev, to) ∷ [])),
        )

    -- One round that goes on keeps the invariant, at the level of its head.
    more_Inv :
        (from : S) (d : ℕ) (s s' : Search S E) (u : S) (path : PathSteps S E)
        (rest : List (S × PathSteps S E))
        → s.queue ≡ (u, path) ∷ rest
        → (length path ≡ d) × Levels d rest
        → Inv g from to d s
        → scan_rows to path (record s { queue = rest }) (rows g u) ≡ more s'
        → Inv g from to d s'
    more_Inv from d s s' u path rest front at inv m =
        Inv-expand g from to wf d s s' u path rest front at.0 at.1 inv (
          scan_rows-more (targets g.transitions) to path (rows g u) (record s { queue = rest }) s'
            (rows-targets u) m)

    loop_correct :
        (from : S) (fuel d : ℕ) (s : Search S E) (r : Option (PathSteps S E))
        → Inv g from to d s
        → path_loop g to fuel s ≡ some r
        → IsShortest from to r
    unfolding path_loop
    loop_correct from zero d s r inv h = elim (List-cases s.queue) [
      | inl e ↦ empty_correct from d s r e inv (rw (e, path_loop) at h)
      | inr (_, _, e) ↦ absurd (none≢some (rw (e, path_loop) at h))
    ]
    loop_correct from (suc fuel) d s r inv h = elim (List-cases s.queue) [
      | inl e ↦ empty_correct from d s r e inv (rw (e, path_loop) at h)
      | inr ((u, path), rest, e) ↦
          let (d', inv', at, lower) = settle from d s u path rest e inv in
          elim (Scan-cases (scan_rows to path (record s { queue = rest }) (rows g u))) [
            | inl (p, f) ↦
                subst (IsShortest from to) (some_inj (rw (e, f, path_loop) at h))
                  (found_correct from d' s u path p rest e at inv' f)
            | inr (s', m) ↦
                loop_correct from fuel d' s' r
                  (more_Inv from d' s s' u path rest e (at, lower) inv' m)
                  (rw (e, m, path_loop) at h)
          ]
    ]

    abbrev work : Search S E → ℕ
    work s = length s.queue + unseen s.visited (targets g.transitions)

    loop_ends :
        (fuel : ℕ) (s : Search S E)
        → work s ≤ fuel
        → (r : Option (PathSteps S E)) × (path_loop g to fuel s ≡ some r)
    unfolding path_loop
    loop_ends zero s h = elim (List-cases s.queue) [
      | inl e ↦ (none, rw (e, path_loop) refl)
      | inr (_, _, e) ↦ absurd (omega (arith, ap length e))
    ]
    loop_ends (suc fuel) s h = elim (List-cases s.queue) [
      | inl e ↦ (none, rw (e, path_loop) refl)
      | inr ((u, path), rest, e) ↦
          elim (Scan-cases (scan_rows to path (record s { queue = rest }) (rows g u))) [
            | inl (p, f) ↦ (some p, rw (e, f, path_loop) refl)
            | inr (s', m) ↦
                let grown =
                  scan_rows-more (targets g.transitions) to path (rows g u)
                    (record s { queue = rest }) s' (rows-targets u) m in
                let (r, ends) = loop_ends fuel s' (omega (arith, grown.work, ap length e)) in
                (r, rw (e, m, path_loop) ends)
          ]
    ]

  -- On a graph of `new`, `shortest_path` ends within its fuel. A path that it returns is a walk of the
  -- graph from the one state to the other, by edges that the transitions list, and no walk between
  -- the two is shorter; it returns `None` only if no walk leads there.
  pub shortest_path_correct :
      IsWellFormed g
      → (from to : S)
      → (r : Option (PathSteps S E)) × (shortest_path g from to ≡ some r) × IsShortest from to r
  unfolding shortest_path
  shortest_path_correct wf from to = elim (Bool-cases (same from to)) [
    | inl e ↦
        let same_state : from ≡ to = (same_iff from to).0 e in
        (
          some [],
          rw (e, shortest_path) refl,
          (subst (Walk g from []) same_state here, λ q w. omega arith),
        )
    | inr n ↦
        let begin : Search S E = record {
          visited = Sets.insert [] from;
          queue = (from, []) ∷ [];
        } in
        let differ = λ (e : from ≡ to). true≢false (sym ((same_iff from to).1 e) ∙ n) in
        let (r, ends) = loop_ends wf to (suc (target_count g.transitions)) begin (
          omega (
            arith,
            unseen-le (Sets.insert [] from) (targets g.transitions),
            length-targets g.transitions,
          )) in
        (
          r,
          rw (n, shortest_path) ends,
          loop_correct wf to from (suc (target_count g.transitions)) 0 begin r
              (Inv-start g from to differ) ends,
        )
  ]
