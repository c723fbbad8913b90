-- ===== src/Transition/ShortestPath/Grow.antt =====
-- What the two inner loops of `shortest_path` (finitomata/src/transition.rs) do to the search: the
-- states that they mark, the entries that they queue, and the path with which they return.
use mathlib.Core.List.{append-nil, append_assoc}
use mathlib.Core.List.Memᴰ
use mathlib.Core.Bool.{false≢true}
use finitomata_rs.Base.{
  ◌+◌, ◌≤◌, ◌≡◌, refl, sym, ap, ◌∙◌, ◌↔◌, ◌⊎◌, inl, inr, ⊎_elim, ◌≢◌, Bool, true, false, List, [],
  ◌∷◌, ◌++◌, Memᴰ, arith, length, length-append,
}
use finitomata_rs.Base.Ord.{Ord}
use finitomata_rs.BTree.Sets
use finitomata_rs.Transition.{PathSteps}
use finitomata_rs.Transition.ShortestPath.{Search}
use finitomata_rs.Transition.Walks.{unseen, unseen-insert-lt}

-- From `s` to `s'` the search took up the offered steps, behind `path`: `l` lists the states that
-- count for the measure.
pub record Grown {S E : Type 0} ⦃so : Ord S⦄ (l : List S) (to : S) (path : PathSteps S E)
    (Offer : E → S → Type 0) (s s' : Search S E) : Type 0 where
  pub marks :
      (v : S)
      → (Sets.contains s'.visited v ≡ true)
        ↔ ((Sets.contains s.visited v ≡ true) ⊎ ((e : E) × Offer e v))
  pub misses : (e : E) (v : S) → Offer e v → v ≢ to
  pub fresh : List (S × PathSteps S E)
  pub appended : s'.queue ≡ s.queue ++ fresh
  pub offered :
      (v : S) (q : PathSteps S E)
      → Memᴰ (v, q) fresh
      → (Sets.contains s.visited v ≡ false) × ((e : E) × Offer e v × (q ≡ path ++ (e, v) ∷ []))
  pub queued :
      (v : S)
      → Sets.contains s'.visited v ≡ true
      → (Sets.contains s.visited v ≡ true) ⊎ ((q : PathSteps S E) × Memᴰ (v, q) fresh)
  pub work : length s'.queue + unseen s'.visited l ≤ length s.queue + unseen s.visited l

not_before : {b c : Bool} {X : Type 0} → (c ≡ true) ↔ ((b ≡ true) ⊎ X) → c ≡ false → b ≡ false
not_before {b = false} h e = refl
not_before {b = true} h e = absurd (false≢true (sym e ∙ h.1 (inl refl)))

module _ {S E : Type 0} ⦃so : Ord S⦄ (l : List S) (to : S) (path : PathSteps S E) where
  pub Grown-none :
      (Offer : E → S → Type 0) (s : Search S E)
      → ((e : E) (v : S) → ¬ Offer e v)
      → Grown l to path Offer s s
  Grown-none Offer s empty = record {
    marks = λ v. (inl, ⊎_elim (λ h. h) (λ o. absurd (empty o.0 v o.1)));
    misses = λ e v o. absurd (empty e v o);
    fresh = [];
    appended = sym (append-nil s.queue);
    offered = λ v q m. absurd (Memᴰ.not-nil m);
    queued = λ v h. inl h;
    work = omega arith;
  }

  pub Grown-append :
      (P Q R : E → S → Type 0) {s t u : Search S E}
      → ((e : E) (v : S) → R e v ↔ (P e v ⊎ Q e v))
      → Grown l to path P s t
      → Grown l to path Q t u
      → Grown l to path R s u
  Grown-append P Q R {s} {t} {u} either a b =
      let from_p = λ (e : E) (v : S) (o : P e v). (either e v).1 (inl o) in
      let from_q = λ (e : E) (v : S) (o : Q e v). (either e v).1 (inr o) in
      let unmarked = λ (v : S). not_before (a.marks v) in
      record {
        marks = λ v. (
          λ h.
              ⊎_elim (λ m. ⊎_elim inl (λ o. inr (o.0, from_p o.0 v o.1)) ((a.marks v).0 m))
                (λ o. inr (o.0, from_q o.0 v o.1)) ((b.marks v).0 h),
          ⊎_elim (λ m. (b.marks v).1 (inl ((a.marks v).1 (inl m))))
              (λ o.
                ⊎_elim (λ h. (b.marks v).1 (inl ((a.marks v).1 (inr (o.0, h)))))
                  (λ h. (b.marks v).1 (inr (o.0, h))) ((either o.0 v).0 o.1)),
        );
        misses = λ e v o. ⊎_elim (a.misses e v) (b.misses e v) ((either e v).0 o);
        fresh = a.fresh ++ b.fresh;
        appended = b.appended ∙ ap (λ z. z ++ b.fresh) a.appended ∙ append_assoc s.queue _ _;
        offered = λ v q m.
            ⊎_elim (λ n. let (new, w) = a.offered v q n in (new, (w.0, from_p w.0 v w.1, w.2)))
              (λ n.
                let (new, w) = b.offered v q n in (unmarked v new, (w.0, from_q w.0 v w.1, w.2)))
              (Memᴰ.append_cases a.fresh m);
        queued = λ v h.
            ⊎_elim (λ m. ⊎_elim inl (λ r. inr (r.0, Memᴰ.append_left b.fresh r.1)) (a.queued v m))
              (λ r. inr (r.0, Memᴰ.append_right a.fresh r.1)) (b.queued v h);
        work = omega (arith, a.work, b.work);
      }

  -- A target that is marked already is passed over.
  pub Grown-old :
      (event : E) (target : S) (s : Search S E)
      → target ≢ to
      → Sets.contains s.visited target ≡ true
      → Grown l to path (λ e v. (e ≡ event) × (v ≡ target)) s s
  Grown-old event target s other old = record {
    marks = λ v. (inl, ⊎_elim (λ h. h) (λ o. rw o.1.1 old));
    misses = λ e v o. rw o.1 other;
    fresh = [];
    appended = sym (append-nil s.queue);
    offered = λ v q m. absurd (Memᴰ.not-nil m);
    queued = λ v h. inl h;
    work = omega arith;
  }

  -- A new target is marked and queued behind the path.
  pub Grown-new :
      (event : E) (target : S) (s : Search S E)
      → target ≢ to
      → Sets.contains s.visited target ≡ false
      → Memᴰ target l
      → Grown l to path
          (λ e v. (e ≡ event) × (v ≡ target))
          s
          (record {
            visited = Sets.insert s.visited target;
            queue = s.queue ++ (target, path ++ (event, target) ∷ []) ∷ [];
          })
  Grown-new event target s other new m = record {
    marks = λ v.
        let marked = Sets.contains-insert s.visited target v in
        (
          λ h. ⊎_elim (λ e. inr (event, (refl, e))) inl (marked.0 h),
          ⊎_elim (λ h. marked.1 (inr h)) (λ o. marked.1 (inl o.1.1)),
        );
    misses = λ e v o. rw o.1 other;
    fresh = (target, path ++ (event, target) ∷ []) ∷ [];
    appended = refl;
    offered = λ v q n.
        let eq = Memᴰ.eq_of_singleton n in
        let ev : v ≡ target = ap (λ r. r.0) eq in
        let eq' : q ≡ path ++ (event, target) ∷ [] = ap (λ r. r.1) eq in
        (rw ev new, (event, (refl, ev), rw ev eq'));
    queued = λ v h.
        ⊎_elim (λ e. inr (path ++ (event, target) ∷ [], Memᴰ.head (rw e refl))) inl
          ((Sets.contains-insert s.visited target v).0 h);
    work = omega (
      arith,
      length-append s.queue ((target, path ++ (event, target) ∷ []) ∷ []),
      unseen-insert-lt s.visited target l m new,
    );
  }
