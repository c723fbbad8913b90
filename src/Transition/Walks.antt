-- ===== src/Transition/Walks.antt =====
-- The graph as a relation: what an edge and a walk are, with no index and no search. The searches of
-- finitomata/src/transition.rs are held to it.
use mathlib.Core.List.Memᴰ
use finitomata_rs.Base.{
  ℕ, suc, ◌≤◌, ◌≡◌, refl, ap, ◌⊎◌, inl, inr, false, List, [], ◌∷◌, ◌++◌, Memᴰ, arith, length,
  length-append, Memᴰ-append, if◌then◌else◌, Memᴰ-cons,
}
use finitomata_rs.Base.Ord.{Ord}
use finitomata_rs.BTree.Sets
use finitomata_rs.BTree.Sets.{BTreeSet}
use finitomata_rs.Transition.{Transition, TransitionGraph, PathSteps, target_count}

module _ {S E : Type 0} (g : TransitionGraph S E) where
  -- Some transition out of `u` by the event `e` lists the target `v`.
  abbrev pub Edge : S → E → S → Type 0
  Edge u e v =
      (t : Transition S E) × Memᴰ t g.transitions × (t.from ≡ u) × (t.event ≡ e) × Memᴰ v t.to

  -- A walk from `s`, with the events and the states that it passes.
  pub data Walk (s : S) : PathSteps S E → S → Type 0 where
    here : Walk s [] s
    step :
        {p q : PathSteps S E} {u v : S} {e : E}
        → Walk s p u
        → Edge u e v
        → q ≡ p ++ (e, v) ∷ []
        → Walk s q v

  -- The end of a walk: it is its source, or the last step leads to it.
  pub Walk-cases :
      {s v : S} {p : PathSteps S E}
      → Walk s p v
      → (p ≡ []) × (v ≡ s)
        ⊎ ((u : S) × (q : PathSteps S E) × (e : E) × Walk s q u
            × Edge u e v
            × (length p ≡ suc (length q)))
  Walk-cases here = inl (refl, refl)
  Walk-cases (step {p = q} {u = u} {v = w} {e = e} r edge eq) =
      inr (u, q, e, r, edge, omega (arith, ap length eq, length-append q ((e, w) ∷ [])))

-- Every target that the transitions list, as often as they list it.
unfoldable pub targets : {S E : Type 0} → List (Transition S E) → List S
targets [] = []
targets (t ∷ ts) = t.to ++ targets ts

pub length-targets :
    {S E : Type 0} (ts : List (Transition S E)) → length (targets ts) ≡ target_count ts
unfolding targets target_count
length-targets [] = refl
length-targets (t ∷ ts) = omega (arith, length-append t.to (targets ts), length-targets ts)

pub mem-targets :
    {S E : Type 0} (ts : List (Transition S E)) (t : Transition S E) (v : S)
    → Memᴰ t ts
    → Memᴰ v t.to
    → Memᴰ v (targets ts)
unfolding targets
mem-targets [] t v m n = absurd (Memᴰ.not-nil m)
mem-targets (x ∷ ts) t v m n =
    ground (arith, Memᴰ-cons t x ts, Memᴰ-append v x.to (targets ts), mem-targets ts t v)

module _ {S : Type 0} ⦃so : Ord S⦄ where
  -- How many of the listed states are not in the set: the measure by which the searches end.
  unfoldable pub unseen : BTreeSet S → List S → ℕ
  unseen visited [] = 0
  unseen visited (x ∷ xs) =
      if Sets.contains visited x then unseen visited xs else suc (unseen visited xs)

  pub unseen-le : (visited : BTreeSet S) (l : List S) → unseen visited l ≤ length l
  unfolding unseen
  unseen-le visited [] = omega arith
  unseen-le visited (x ∷ xs) = ground (arith, unseen-le visited xs)

  pub unseen-insert-le :
      (visited : BTreeSet S) (a : S) (l : List S)
      → unseen (Sets.insert visited a) l ≤ unseen visited l
  unfolding unseen
  unseen-insert-le visited a [] = omega arith
  unseen-insert-le visited a (x ∷ xs) =
      ground (arith, Sets.contains-insert visited a x, unseen-insert-le visited a xs)

  pub unseen-insert-lt :
      (visited : BTreeSet S) (a : S) (l : List S)
      → Memᴰ a l
      → Sets.contains visited a ≡ false
      → suc (unseen (Sets.insert visited a) l) ≤ unseen visited l
  unfolding unseen
  unseen-insert-lt visited a [] m h = absurd (Memᴰ.not-nil m)
  unseen-insert-lt visited a (x ∷ xs) m h = ground (
    arith,
    Memᴰ-cons a x xs,
    Sets.contains-insert visited a x,
    unseen-insert-le visited a xs,
    unseen-insert-lt visited a xs,
  )
