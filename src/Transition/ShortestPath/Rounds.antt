-- ===== src/Transition/ShortestPath/Rounds.antt =====
-- The two inner loops of `shortest_path` (finitomata/src/transition.rs), run to their ends or left
-- with a path.
use mathlib.Core.List.Memᴰ
use mathlib.Core.Bool.{true≢false}
use finitomata_rs.Base.{
  ◌≡◌, refl, sym, ap, ◌∙◌, ◌↔◌, ◌⊎◌, inl, inr, ⊎_elim, List, [], ◌∷◌, ◌++◌, Memᴰ, arith, subst,
  Memᴰ-cons, Bool-cases,
}
use finitomata_rs.Base.Ord.{Ord, same, same_iff}
use finitomata_rs.BTree.Sets
use finitomata_rs.Transition.{Transition, PathSteps}
use finitomata_rs.Transition.ShortestPath.{Search, Scan, found, more, scan_targets, scan_rows}
use finitomata_rs.Transition.ShortestPath.Grow.{
  Grown, Grown-none, Grown-append, Grown-old, Grown-new,
}

more≢found : {S E : Type 0} {s : Search S E} {p : PathSteps S E} → more s ≡ found p → ⊥
more≢found h = cc

pub Scan-cases :
    {S E : Type 0} (r : Scan S E)
    → ((p : PathSteps S E) × (r ≡ found p)) ⊎ ((s : Search S E) × (r ≡ more s))
Scan-cases (found p) = inl (p, refl)
Scan-cases (more s) = inr (s, refl)

found_inj : {S E : Type 0} {p q : PathSteps S E} → found p ≡ found q → p ≡ q
found_inj h = cc

module _ {S E : Type 0} where
  -- The offers of a row: the steps by its event to its targets.
  abbrev pub Offered : List (Transition S E) → E → S → Type 0
  Offered ts e v = (t : Transition S E) × Memᴰ t ts × (t.event ≡ e) × Memᴰ v t.to

Offered-cons :
    {S E : Type 0} (t : Transition S E) (ts : List (Transition S E)) (e : E) (v : S)
    → Offered (t ∷ ts) e v ↔ ((e ≡ t.event) × Memᴰ v t.to ⊎ Offered ts e v)
Offered-cons t ts e v = (
  λ o.
      ⊎_elim (λ eq. inl (sym o.2 ∙ ap (λ x. x.event) eq, subst (λ x. Memᴰ v x.to) eq o.3))
        (λ m. inr (o.0, m, o.2, o.3)) (Memᴰ.cases_cons o.1),
  ⊎_elim (λ h. (t, Memᴰ.head refl, sym h.0, h.1)) (λ o. (o.0, Memᴰ.tail o.1, o.2, o.3)),
)

module _ {S E : Type 0} ⦃so : Ord S⦄ (l : List S) (to : S) (path : PathSteps S E) where
  -- The loop over the targets of one transition, where it runs to its end.
  scan_targets-more :
      (event : E) (xs : List S) (s s' : Search S E)
      → ((v : S) → Memᴰ v xs → Memᴰ v l)
      → scan_targets to event path s xs ≡ more s'
      → Grown l to path (λ e v. (e ≡ event) × Memᴰ v xs) s s'
  unfolding scan_targets
  scan_targets-more event [] s s' sub h =
      subst (Grown l to path _ s) (cc) (Grown-none l to path _ s (λ e v o. Memᴰ.not-nil o.1))
  scan_targets-more event (x ∷ xs) s s' sub h = elim (Bool-cases (same x to)) [
    | inl e ↦ absurd (more≢found (sym (rw (e, scan_targets) at h)))
    | inr n ↦
        let other = λ (e : x ≡ to). true≢false (sym ((same_iff x to).1 e) ∙ n) in
        let tail = λ (v : S) (m : Memᴰ v xs). sub v (Memᴰ.tail m) in
        elim (Bool-cases (Sets.contains s.visited x)) [
          | inl old ↦
              Grown-append l to path _ _ _ (λ e v. ground (arith, Memᴰ-cons v x xs))
                (Grown-old l to path event x s other old)
                (scan_targets-more event xs s s' tail (rw (n, old, scan_targets) at h))
          | inr new ↦
              Grown-append l to path _ _ _ (λ e v. ground (arith, Memᴰ-cons v x xs))
                (Grown-new l to path event x s other new (sub x (Memᴰ.head refl)))
                (scan_targets-more event xs _ s' tail (rw (n, new, scan_targets) at h))
        ]
  ]

  -- Where it returns, the path ends with a step to the wanted state.
  scan_targets-found :
      (event : E) (xs : List S) (s : Search S E) (p : PathSteps S E)
      → scan_targets to event path s xs ≡ found p
      → (p ≡ path ++ (event, to) ∷ []) × Memᴰ to xs
  unfolding scan_targets
  scan_targets-found event [] s p h = absurd (more≢found h)
  scan_targets-found event (x ∷ xs) s p h = elim (Bool-cases (same x to)) [
    | inl e ↦
        let is_to : x ≡ to = (same_iff x to).0 e in
        (found_inj (rw (← is_to) (sym (rw (e, scan_targets) at h))), Memᴰ.head (sym is_to))
    | inr n ↦ elim (Bool-cases (Sets.contains s.visited x)) [
      | inl old ↦
          let (eq, m) = scan_targets-found event xs s p (rw (n, old, scan_targets) at h) in
          (eq, Memᴰ.tail m)
      | inr new ↦
          let (eq, m) = scan_targets-found event xs _ p (rw (n, new, scan_targets) at h) in
          (eq, Memᴰ.tail m)
    ]
  ]

  -- The loop over the transitions out of the current state.
  pub scan_rows-more :
      (ts : List (Transition S E)) (s s' : Search S E)
      → ((t : Transition S E) (v : S) → Memᴰ t ts → Memᴰ v t.to → Memᴰ v l)
      → scan_rows to path s ts ≡ more s'
      → Grown l to path (Offered ts) s s'
  unfolding scan_rows
  scan_rows-more [] s s' sub h =
      subst (Grown l to path _ s) (cc) (Grown-none l to path _ s (λ e v o. Memᴰ.not-nil o.1))
  scan_rows-more (t ∷ ts) s s' sub h = elim (Scan-cases (scan_targets to t.event path s t.to)) [
    | inl (p, e) ↦ absurd (more≢found (sym (rw (e, scan_rows) at h)))
    | inr (m, e) ↦
        Grown-append l to path _ _ _ (Offered-cons t ts)
          (scan_targets-more t.event t.to s m (λ v n. sub t v (Memᴰ.head refl) n) e)
          (scan_rows-more ts m s' (λ x v n. sub x v (Memᴰ.tail n)) (rw (e, scan_rows) at h))
  ]

  pub scan_rows-found :
      (ts : List (Transition S E)) (s : Search S E) (p : PathSteps S E)
      → scan_rows to path s ts ≡ found p
      → (e : E) × Offered ts e to × (p ≡ path ++ (e, to) ∷ [])
  unfolding scan_rows
  scan_rows-found [] s p h = absurd (more≢found h)
  scan_rows-found (t ∷ ts) s p h = elim (Scan-cases (scan_targets to t.event path s t.to)) [
    | inl (q, e) ↦
        let (eq, m) = scan_targets-found t.event t.to s q e in
        (t.event, (t, Memᴰ.head refl, refl, m), sym (found_inj (rw (e, scan_rows) at h)) ∙ eq)
    | inr (m, e) ↦
        let (ev, o, eq) = scan_rows-found ts m p (rw (e, scan_rows) at h) in
        (ev, (o.0, Memᴰ.tail o.1, o.2, o.3), eq)
  ]
