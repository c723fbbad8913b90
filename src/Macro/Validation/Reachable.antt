-- ===== src/Macro/Validation/Reachable.antt =====
-- `reachable_from` of the macro (finitomata_macro/src/validation.rs) is the one of the library
-- (finitomata/src/transition.rs) on the graph of the transitions that do not end in `[*]`.
use finitomata_rs.Base.{
  ℕ, zero, suc, ◌≤◌, ◌≡◌, refl, sym, ap, ◌∙◌, some, List, [], ◌∷◌, ◌++◌, length, arith,
  if◌then◌else◌, Bool-cases, inl, inr,
}
use finitomata_rs.Base.Ord.{same, nat_ord, list_ord}
use finitomata_rs.Base.Text.{Text}
use finitomata_rs.BTree.Sets
use finitomata_rs.BTree.Sets.{BTreeSet}
use finitomata_rs.Macro.Validation.{push, sweep, reachable_from}
use finitomata_rs.Parser.{ParsedFsm, ParsedTransition, terminal}
use finitomata_rs.Transition.{Transition, TransitionGraph, new, rows, target_count}
use finitomata_rs.Transition.Index.{IsWellFormed, new-IsWellFormed, outgoing}
use finitomata_rs.Transition.Reachable.{push_targets, push_rows, sweep_loop}
use finitomata_rs.Transition.Reachable.Correct.{IsExact, Inv-start, loop_correct}
use finitomata_rs.Transition.Reachable.Push.{pending-le}

-- The transitions that do not end in `[*]`, as rows of a graph.
unfoldable pub inner : List ParsedTransition → List (Transition Text Text)
inner [] = []
inner (t ∷ ts) =
    let rest = inner ts in
    if same t.to terminal
    then rest
    else record { from = t.from; to = t.to ∷ []; event = t.event; kind = t.kind } ∷ rest

abbrev pub inner_graph : ParsedFsm → TransitionGraph Text Text
inner_graph fsm = new fsm.initial fsm.finals (inner fsm.transitions)

target_count-inner : (ts : List ParsedTransition) → target_count (inner ts) ≤ length ts
unfolding inner target_count
target_count-inner [] = omega arith
target_count-inner (t ∷ ts) = ground (arith, target_count-inner ts)

push_rows-inner :
    (visited : BTreeSet Text) (current : Text) (ts : List ParsedTransition) (queue : List Text)
    → push_rows (record { visited = visited; queue = queue }) (outgoing (inner ts) current)
      ≡ record { visited = visited; queue = push visited current ts queue }
unfolding push_rows push_targets outgoing inner push
push_rows-inner visited current [] queue = refl
push_rows-inner visited current (t ∷ ts) queue = ground (
  arith,
  push_rows-inner visited current ts queue,
  push_rows-inner visited current ts (queue ++ t.to ∷ []),
)

module _ (fsm : ParsedFsm) where
  inner_graph-IsWellFormed : IsWellFormed (inner_graph fsm)
  inner_graph-IsWellFormed = new-IsWellFormed fsm.initial fsm.finals (inner fsm.transitions)

  rows-inner : (s : Text) → rows (inner_graph fsm) s ≡ outgoing (inner fsm.transitions) s
  rows-inner s = inner_graph-IsWellFormed.rows_lem s ∙ unfold new in refl

  sweep_loop-inner :
      (fuel : ℕ) (visited : BTreeSet Text) (queue : List Text)
      → sweep_loop (inner_graph fsm) fuel (record { visited = visited; queue = queue })
        ≡ sweep fsm.transitions fuel visited queue
  unfolding sweep_loop sweep
  sweep_loop-inner zero visited [] = refl
  sweep_loop-inner zero visited (current ∷ queue) = refl
  sweep_loop-inner (suc fuel) visited [] = refl
  sweep_loop-inner (suc fuel) visited (current ∷ queue) =
      elim (Bool-cases (Sets.contains visited current)) [
        | inl c ↦ rw (c, sweep_loop, sweep) (sweep_loop-inner fuel visited queue)
        | inr c ↦
            let visited' = Sets.insert visited current in
            rw (c, sweep_loop, sweep)
              (ap (sweep_loop (inner_graph fsm) fuel) (
                  ap (push_rows (record { visited = visited'; queue = queue })) (rows-inner current)
                  ∙ push_rows-inner visited' current fsm.transitions queue)
                ∙ sweep_loop-inner fuel visited' (push visited' current fsm.transitions queue))
      ]

  -- The macro's search ends within its fuel, and the names that it returns are exactly those to which
  -- a walk leads from the start over transitions that do not end in `[*]`.
  pub reachable_from_correct :
      (start : Text)
      → (r : BTreeSet Text) × (reachable_from start fsm ≡ some r)
        × IsExact (inner_graph fsm) start r
  unfolding reachable_from new
  reachable_from_correct start =
      let (r, ends, exact) =
        loop_correct (inner_graph fsm) start inner_graph-IsWellFormed (suc (length fsm.transitions))
          (record { visited = []; queue = start ∷ [] }) (Inv-start (inner_graph fsm) start)
          (omega (
            arith,
            pending-le {E = Text} [] (inner fsm.transitions),
            target_count-inner fsm.transitions,
          )) in
      (r, sym (sweep_loop-inner _ [] (start ∷ [])) ∙ ends, exact)
