-- ===== src/Transition/Reachable/Push.antt =====
-- What the two inner loops of `reachable_from` (finitomata/src/transition.rs) queue, and the measure
-- by which the outer loop ends.
use mathlib.Core.List.Memᴰ
use finitomata_rs.Base.{
  Memᴰ-nil, ℕ, ◌+◌, ◌≤◌, ◌≡◌, refl, ◌∙◌, ◌⊎◌, inl, inr, ⊎_elim, ◌↔◌, false, List, [], ◌∷◌, ◌++◌,
  Memᴰ, arith, length, length-append, Memᴰ-cons, Memᴰ-append, subst, if◌then◌else◌,
}
use finitomata_rs.Base.Ord.{Ord, same_iff}
use finitomata_rs.BTree.Sets
use finitomata_rs.BTree.Sets.{BTreeSet}
use finitomata_rs.Transition.{Transition, target_count}
use finitomata_rs.Transition.Index.{outgoing}
use finitomata_rs.Transition.Reachable.{Sweep, push_targets, push_rows}

module _ {S : Type 0} ⦃so : Ord S⦄ where
  visited-push_targets : (s : Sweep S) (ts : List S) → (push_targets s ts).visited ≡ s.visited
  unfolding push_targets
  visited-push_targets s [] = refl
  visited-push_targets s (t ∷ ts) = ground (
    arith,
    visited-push_targets s ts,
    visited-push_targets (record s { queue = s.queue ++ t ∷ [] }) ts,
  )

  length-push_targets :
      (s : Sweep S) (ts : List S) → length (push_targets s ts).queue ≤ length s.queue + length ts
  unfolding push_targets
  length-push_targets s [] = omega arith
  length-push_targets s (t ∷ ts) = ground (
    arith,
    length-append s.queue (t ∷ []),
    length-push_targets s ts,
    length-push_targets (record s { queue = s.queue ++ t ∷ [] }) ts,
  )

  mem-push_targets :
      (s : Sweep S) (ts : List S) (v : S)
      → Memᴰ v (push_targets s ts).queue
        ↔ (Memᴰ v s.queue ⊎ Memᴰ v ts × (Sets.contains s.visited v ≡ false))
  unfolding push_targets
  mem-push_targets s [] v = (inl, ⊎_elim (λ m. m) (λ h. absurd (Memᴰ.not-nil h.0)))
  mem-push_targets s (t ∷ ts) v = ground (
    arith,
    Memᴰ-cons v t ts,
    Memᴰ-append v s.queue (t ∷ []),
    Memᴰ-cons v t [],
    Memᴰ-nil v,
    mem-push_targets s ts v,
    mem-push_targets (record s { queue = s.queue ++ t ∷ [] }) ts v,
  )

module _ {S E : Type 0} ⦃so : Ord S⦄ where
  pub visited-push_rows :
      (s : Sweep S) (ts : List (Transition S E)) → (push_rows s ts).visited ≡ s.visited
  unfolding push_rows
  visited-push_rows s [] = refl
  visited-push_rows s (t ∷ ts) =
      visited-push_rows (push_targets s t.to) ts ∙ visited-push_targets s t.to

  pub length-push_rows :
      (s : Sweep S) (ts : List (Transition S E))
      → length (push_rows s ts).queue ≤ length s.queue + target_count ts
  unfolding push_rows target_count
  length-push_rows s [] = omega arith
  length-push_rows s (t ∷ ts) =
      omega (arith, length-push_rows (push_targets s t.to) ts, length-push_targets s t.to)

  -- A queued state was queued before, or is an unmarked target.
  pub mem_of_push_rows :
      (s : Sweep S) (ts : List (Transition S E)) (v : S)
      → Memᴰ v (push_rows s ts).queue
      → Memᴰ v s.queue ⊎ (t : Transition S E) × Memᴰ t ts × Memᴰ v t.to
  unfolding push_rows
  mem_of_push_rows s [] v m = inl m
  mem_of_push_rows s (t ∷ ts) v m =
      ⊎_elim (λ k. ⊎_elim inl (λ n. inr (t, Memᴰ.head refl, n.0)) ((mem-push_targets s t.to v).0 k))
        (λ r. inr (r.0, Memᴰ.tail r.1, r.2)) (mem_of_push_rows (push_targets s t.to) ts v m)

  pub mem-push_rows_old :
      (s : Sweep S) (ts : List (Transition S E)) (v : S)
      → Memᴰ v s.queue
      → Memᴰ v (push_rows s ts).queue
  unfolding push_rows
  mem-push_rows_old s [] v m = m
  mem-push_rows_old s (t ∷ ts) v m =
      mem-push_rows_old (push_targets s t.to) ts v ((mem-push_targets s t.to v).1 (inl m))

  pub mem-push_rows_new :
      (s : Sweep S) (ts : List (Transition S E)) (t : Transition S E) (v : S)
      → Memᴰ t ts
      → Memᴰ v t.to
      → Sets.contains s.visited v ≡ false
      → Memᴰ v (push_rows s ts).queue
  unfolding push_rows
  mem-push_rows_new s [] t v m n h = absurd (Memᴰ.not-nil m)
  mem-push_rows_new s (x ∷ ts) t v m n h =
      ⊎_elim
        (λ e.
          mem-push_rows_old (push_targets s x.to) ts v
            ((mem-push_targets s x.to v).1 (inr (subst (λ y. Memᴰ v y.to) e n, h))))
        (λ k.
          mem-push_rows_new (push_targets s x.to) ts t v k n (rw (visited-push_targets s x.to) h))
        (Memᴰ.cases_cons m)

  -- The targets of the transitions whose source is not marked yet: each is queued once at most.
  unfoldable pub pending : BTreeSet S → List (Transition S E) → ℕ
  pending visited [] = 0
  pending visited (t ∷ ts) =
      if Sets.contains visited t.from then pending visited ts else length t.to + pending visited ts

  pub pending-le :
      (visited : BTreeSet S) (ts : List (Transition S E)) → pending visited ts ≤ target_count ts
  unfolding pending target_count
  pending-le visited [] = omega arith
  pending-le visited (t ∷ ts) = ground (arith, pending-le visited ts)

  pub pending-insert :
      (visited : BTreeSet S) (u : S) (ts : List (Transition S E))
      → Sets.contains visited u ≡ false
      → pending (Sets.insert visited u) ts + target_count (outgoing ts u) ≡ pending visited ts
  unfolding pending target_count outgoing
  pending-insert visited u [] h = refl
  pending-insert visited u (t ∷ ts) h = ground (
    arith,
    same_iff t.from u,
    Sets.contains-insert visited u t.from,
    pending-insert visited u ts h,
  )
