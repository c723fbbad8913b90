-- ===== src/Transition/Reachable/Correct.antt =====
-- `reachable_from` (finitomata/src/transition.rs) against the walks of the graph.
use mathlib.Core.List.Memᴰ
use finitomata_rs.Base.{
  ℕ, zero, suc, ◌+◌, ◌≤◌, ◌≡◌, refl, sym, ap, ◌⊎◌, inl, inr, ⊎_elim, ◌↔◌, true, false, some, List,
  [], ◌∷◌, ◌++◌, Memᴰ, arith, length, subst, Bool-cases, List-cases,
}
use finitomata_rs.Base.Ord.{Ord}
use finitomata_rs.BTree.Sets
use finitomata_rs.BTree.Sets.{BTreeSet}
use finitomata_rs.Transition.{TransitionGraph, PathSteps, rows, target_count}
use finitomata_rs.Transition.Index.{IsWellFormed, mem-rows}
use finitomata_rs.Transition.Reachable.{Sweep, push_rows, sweep_loop, reachable_from}
use finitomata_rs.Transition.Reachable.Push.{
  visited-push_rows, length-push_rows, mem_of_push_rows, mem-push_rows_old, mem-push_rows_new,
  pending, pending-le, pending-insert,
}
use finitomata_rs.Transition.Walks.{Edge, Walk, here, step}

module _ {S E : Type 0} ⦃so : Ord S⦄ (g : TransitionGraph S E) (start : S) where
  -- Some walk leads from the start to the state.
  abbrev pub IsReached : S → Type 0
  IsReached v = (p : PathSteps S E) × Walk g start p v

  pub record Inv (s : Sweep S) : Type 0 where
    marked : (v : S) → Sets.contains s.visited v ≡ true → IsReached v
    queued : (v : S) → Memᴰ v s.queue → IsReached v
    source : (Sets.contains s.visited start ≡ true) ⊎ Memᴰ start s.queue
    closed :
        (u v : S) (e : E)
        → Sets.contains s.visited u ≡ true
        → Edge g u e v
        → (Sets.contains s.visited v ≡ true) ⊎ Memᴰ v s.queue

  pub Inv-start : Inv (record { visited = []; queue = start ∷ [] })
  Inv-start = record {
    marked = λ v h. absurd (Memᴰ.not-nil ((Sets.contains_iff [] v).0 h));
    queued = λ v m. ([], subst (Walk g start []) (sym (Memᴰ.eq_of_singleton m)) here);
    source = inr (Memᴰ.head refl);
    closed = λ u v e h edge. absurd (Memᴰ.not-nil ((Sets.contains_iff [] u).0 h));
  }

  module _ (s : Sweep S) (u : S) (rest : List S) (front : s.queue ≡ u ∷ rest) (inv : Inv s) where
    -- A marked state at the head is dropped.
    Inv-skip : Sets.contains s.visited u ≡ true → Inv (record s { queue = rest })
    Inv-skip old = record {
      marked = inv.marked;
      queued = λ v m. inv.queued v (rw front (Memᴰ.tail m));
      source = drop start inv.source;
      closed = λ x v e h edge. drop v (inv.closed x v e h edge);
    }
      where
        drop :
            (v : S)
            → (Sets.contains s.visited v ≡ true) ⊎ Memᴰ v s.queue
            → (Sets.contains s.visited v ≡ true) ⊎ Memᴰ v rest
        drop v =
            ⊎_elim inl
              (λ m. ⊎_elim (λ e. inl (rw e old)) inr (Memᴰ.cases_cons (subst (Memᴰ v) front m)))

    abbrev marked_u : Sweep S
    marked_u = record { visited = Sets.insert s.visited u; queue = rest }

    abbrev next : Sweep S
    next = push_rows marked_u (rows g u)

    marks :
        (v : S)
        → (Sets.contains next.visited v ≡ true) ↔ ((v ≡ u) ⊎ (Sets.contains s.visited v ≡ true))
    marks v = rw (visited-push_rows marked_u (rows g u)) (Sets.contains-insert s.visited u v)

    -- What was marked or queued is marked or queued still.
    keep :
        (v : S)
        → (Sets.contains s.visited v ≡ true) ⊎ Memᴰ v s.queue
        → (Sets.contains next.visited v ≡ true) ⊎ Memᴰ v next.queue
    keep v =
        ⊎_elim (λ h. inl ((marks v).1 (inr h)))
          (λ m.
            ⊎_elim (λ e. inl ((marks v).1 (inl e)))
              (λ k. inr (mem-push_rows_old marked_u (rows g u) v k))
              (Memᴰ.cases_cons (subst (Memᴰ v) front m)))

    IsReached-head : IsReached u
    IsReached-head = inv.queued u (rw front (Memᴰ.head refl))

    IsReached-step : (v : S) (e : E) → Edge g u e v → IsReached v
    IsReached-step v e edge = (IsReached-head.0 ++ (e, v) ∷ [], step IsReached-head.1 edge refl)

    -- An unmarked state at the head is marked, and its targets are queued.
    Inv-expand : IsWellFormed g → Inv next
    Inv-expand wf = record {
      marked = λ v h.
          ⊎_elim (λ e. subst IsReached (sym e) IsReached-head) (inv.marked v) ((marks v).0 h);
      queued = λ v m.
          ⊎_elim (λ k. inv.queued v (rw front (Memᴰ.tail k)))
            (λ r.
              let (k, from_u) = (mem-rows g u r.0 wf).0 r.1 in
              IsReached-step v r.0.event (r.0, k, from_u, refl, r.2))
            (mem_of_push_rows marked_u (rows g u) v m);
      source = keep start inv.source;
      closed = λ x v e h edge.
          ⊎_elim (λ is_u. target v e (subst (λ y. Edge g y e v) is_u edge))
            (λ old. keep v (inv.closed x v e old edge)) ((marks x).0 h);
    }
      where
        target :
            (v : S) (e : E)
            → Edge g u e v
            → (Sets.contains next.visited v ≡ true) ⊎ Memᴰ v next.queue
        target v e (t, m, from_u, ev, k) = elim (Bool-cases (Sets.contains marked_u.visited v)) [
          | inl h ↦ inl (rw (visited-push_rows marked_u (rows g u)) h)
          | inr n ↦
              inr
                (mem-push_rows_new marked_u (rows g u) t v ((mem-rows g u t wf).1 (m, from_u)) k n)
        ]

    next_work :
        IsWellFormed g
        → Sets.contains s.visited u ≡ false
        → suc (length next.queue + pending next.visited g.transitions)
          ≤ length s.queue + pending s.visited g.transitions
    next_work wf new = omega (
      arith,
      ap length front,
      ap (λ x. pending x g.transitions) (visited-push_rows marked_u (rows g u)),
      length-push_rows marked_u (rows g u),
      ap target_count (wf.rows_lem u),
      pending-insert s.visited u g.transitions new,
    )

  -- With an empty queue the marked states are those that a walk reaches.
  abbrev pub IsExact : BTreeSet S → Type 0
  IsExact r = (v : S) → (Sets.contains r v ≡ true) ↔ IsReached v

  Inv-IsExact : (s : Sweep S) → s.queue ≡ [] → Inv s → IsExact s.visited
  Inv-IsExact s e inv v = (inv.marked v, λ r. walk r.1)
    where
      done :
          {x : S}
          → (Sets.contains s.visited x ≡ true) ⊎ Memᴰ x s.queue
          → Sets.contains s.visited x ≡ true
      done {x} = ⊎_elim (λ h. h) (λ m. absurd (Memᴰ.not-nil (subst (Memᴰ x) e m)))

      walk : {p : PathSteps S E} {x : S} → Walk g start p x → Sets.contains s.visited x ≡ true
      walk here = done inv.source
      walk (step {u = u} {v = x} {e = ev} r edge eq) = done (inv.closed u x ev (walk r) edge)

  module _ (wf : IsWellFormed g) where
    pub loop_correct :
        (fuel : ℕ) (s : Sweep S)
        → Inv s
        → length s.queue + pending s.visited g.transitions ≤ fuel
        → (r : BTreeSet S) × (sweep_loop g fuel s ≡ some r) × IsExact r
    unfolding sweep_loop
    loop_correct zero s inv h = elim (List-cases s.queue) [
      | inl e ↦ (s.visited, rw (e, sweep_loop) refl, Inv-IsExact s e inv)
      | inr (_, _, e) ↦ absurd (omega (arith, ap length e))
    ]
    loop_correct (suc fuel) s inv h = elim (List-cases s.queue) [
      | inl e ↦ (s.visited, rw (e, sweep_loop) refl, Inv-IsExact s e inv)
      | inr (u, rest, e) ↦ elim (Bool-cases (Sets.contains s.visited u)) [
        | inl old ↦
            let (r, ends, exact) =
              loop_correct fuel (record s { queue = rest }) (Inv-skip s u rest e inv old)
                (omega (arith, ap length e)) in
            (r, rw (e, old, sweep_loop) ends, exact)
        | inr new ↦
            let (r, ends, exact) =
              loop_correct fuel (next s u rest e inv) (Inv-expand s u rest e inv wf)
                (omega (arith, next_work s u rest e inv wf new)) in
            (r, rw (e, new, sweep_loop) ends, exact)
      ]
    ]

  -- On a graph of `new`, `reachable_from` ends within its fuel, and the set that it returns holds
  -- exactly the states to which some walk leads from the start.
  pub reachable_from_correct :
      IsWellFormed g → (r : BTreeSet S) × (reachable_from g start ≡ some r) × IsExact r
  unfolding reachable_from
  reachable_from_correct wf =
      loop_correct wf (suc (target_count g.transitions))
        (record { visited = []; queue = start ∷ [] }) Inv-start
        (omega (arith, pending-le {E = E} [] g.transitions))
