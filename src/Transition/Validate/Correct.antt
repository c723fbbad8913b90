-- ===== src/Transition/Validate/Correct.antt =====
-- What an `Ok` of `validate` means (finitomata/src/transition.rs), and the order of its errors.
use mathlib.Core.List.Memᴰ
use mathlib.Core.Bool.{true≢false}
use finitomata_rs.Base.{
  false_of, Memᴰ-nil, ◌≡◌, ◌≢◌, refl, sym, ap, ◌∙◌, ◌⊎◌, inl, inr, ⊎_elim, ◌↔◌, false, some, List,
  [], ◌∷◌, ◌++◌, Memᴰ, arith, subst, Bool-cases, Memᴰ-cons, if◌then◌else◌, is_empty,
}
use finitomata_rs.Base.Ord.{Ord, same, same_iff}
use finitomata_rs.Base.Text.{Text}
use finitomata_rs.BTree.Sets
use finitomata_rs.BTree.Sets.{BTreeSet}
use finitomata_rs.Error.{ValidationError, no_final_state, unreachable_state}
use finitomata_rs.Transition.{Transition, TransitionGraph, insert_all, insert_ends, all_states}
use finitomata_rs.Transition.Index.{IsWellFormed}
use finitomata_rs.Transition.Reachable.Correct.{IsReached, IsExact, reachable_from_correct}
use finitomata_rs.Transition.Validate.{ok_unless, unreachable_errors, validate}
use finitomata_rs.Transition.Walks.{here}

module _ {S : Type 0} ⦃so : Ord S⦄ where
  mem-insert_all :
      (states : BTreeSet S) (ss : List S) (v : S)
      → Memᴰ v (insert_all states ss) ↔ (Memᴰ v states ⊎ Memᴰ v ss)
  unfolding insert_all
  mem-insert_all states [] v = (inl, ⊎_elim (λ m. m) (λ m. absurd (Memᴰ.not-nil m)))
  mem-insert_all states (s ∷ ss) v = ground (
    arith,
    Sets.mem-insert states s v,
    mem-insert_all (Sets.insert states s) ss v,
    Memᴰ-cons v s ss,
  )

module _ {S E : Type 0} ⦃so : Ord S⦄ where
  -- The state stands at one end of a transition.
  unfoldable pub IsEnd : List (Transition S E) → S → Type 0
  IsEnd ts v = (t : Transition S E) × Memᴰ t ts × ((v ≡ t.from) ⊎ Memᴰ v t.to)

  IsEnd-cons :
      (t : Transition S E) (ts : List (Transition S E)) (v : S)
      → IsEnd (t ∷ ts) v ↔ ((v ≡ t.from) ⊎ Memᴰ v t.to ⊎ IsEnd ts v)
  unfolding IsEnd
  IsEnd-cons t ts v = (
    λ r.
        ⊎_elim
          (λ e.
            ⊎_elim (λ h. inl (h ∙ ap (λ x. x.from) e))
              (λ m. inr (inl (subst (λ x. Memᴰ v x.to) e m))) r.2)
          (λ m. inr (inr (r.0, m, r.2))) (Memᴰ.cases_cons r.1),
    ⊎_elim (λ h. (t, Memᴰ.head refl, inl h))
        (⊎_elim (λ m. (t, Memᴰ.head refl, inr m)) (λ r. (r.0, Memᴰ.tail r.1, r.2))),
  )

  not-IsEnd-nil : (v : S) (ts : List (Transition S E)) → ts ≡ [] → ¬ IsEnd ts v
  unfolding IsEnd
  not-IsEnd-nil v ts e r = Memᴰ.not-nil (subst (Memᴰ r.0) e r.1)

  mem-insert_ends :
      (states : BTreeSet S) (ts : List (Transition S E)) (v : S)
      → Memᴰ v (insert_ends states ts) ↔ (Memᴰ v states ⊎ IsEnd ts v)
  unfolding insert_ends
  mem-insert_ends states [] v = (inl, ⊎_elim (λ m. m) (λ r. absurd (not-IsEnd-nil v [] refl r)))
  mem-insert_ends states (t ∷ ts) v = ground (
    arith,
    IsEnd-cons t ts v,
    Sets.mem-insert states t.from v,
    mem-insert_all (Sets.insert states t.from) t.to v,
    mem-insert_ends (insert_all (Sets.insert states t.from) t.to) ts v,
  )

  -- The states of the graph: the initial one, the final ones, and the ends of the transitions.
  abbrev pub IsState : TransitionGraph S E → S → Type 0
  IsState g v = (v ≡ g.initial) ⊎ Memᴰ v g.finals ⊎ IsEnd g.transitions v

  -- `all_states` holds the initial state, the final states and the two ends of each transition, and
  -- nothing else.
  pub mem-all_states : (g : TransitionGraph S E) (v : S) → Memᴰ v (all_states g) ↔ IsState g v
  unfolding all_states
  mem-all_states g v =
      let first = Sets.insert [] g.initial in
      ground (
        arith,
        Sets.mem-insert [] g.initial v,
        Memᴰ-nil v,
        mem-insert_all first g.finals v,
        mem-insert_ends (insert_all first g.finals) g.transitions v,
      )

module _ {S : Type 0} ⦃so : Ord S⦄ (show : S → Text) (initial : S) (reachable : BTreeSet S) where
  -- Not the initial state, and not reached by the search.
  abbrev IsMissed : S → Type 0
  IsMissed v = (v ≢ initial) × (Sets.contains reachable v ≡ false)

  -- The error of a missed state of the list.
  abbrev IsReported : List S → ValidationError → Type 0
  IsReported ss e = (v : S) × Memᴰ v ss × IsMissed v × (e ≡ unreachable_state (show v))

  skip_state :
      {s : S} {ss : List S} {e : ValidationError} {X : Type 0}
      → ¬ IsMissed s
      → X ↔ IsReported ss e
      → X ↔ IsReported (s ∷ ss) e
  skip_state fine ih = (
    λ x. let r = ih.0 x in (r.0, Memᴰ.tail r.1, r.2, r.3),
    λ r.
        ⊎_elim (λ eq. absurd (fine (subst IsMissed eq r.2))) (λ m. ih.1 (r.0, m, r.2, r.3))
          (Memᴰ.cases_cons r.1),
  )

  report_state :
      {s : S} {ss : List S} {e : ValidationError} {es : List ValidationError}
      → IsMissed s
      → Memᴰ e es ↔ IsReported ss e
      → Memᴰ e (unreachable_state (show s) ∷ es) ↔ IsReported (s ∷ ss) e
  report_state {s} missed ih = (
    λ m.
        ⊎_elim (λ eq. (s, Memᴰ.head refl, missed, eq))
          (λ k. let r = ih.0 k in (r.0, Memᴰ.tail r.1, r.2, r.3)) (Memᴰ.cases_cons m),
    λ r.
        ⊎_elim (λ eq. Memᴰ.head (r.3 ∙ ap (λ v. unreachable_state (show v)) eq))
          (λ m. Memᴰ.tail (ih.1 (r.0, m, r.2, r.3))) (Memᴰ.cases_cons r.1),
  )

  mem-unreachable_errors :
      (ss : List S) (e : ValidationError)
      → Memᴰ e (unreachable_errors show initial reachable ss) ↔ IsReported ss e
  unfolding unreachable_errors
  mem-unreachable_errors [] e = (λ m. absurd (Memᴰ.not-nil m), λ r. absurd (Memᴰ.not-nil r.1))
  mem-unreachable_errors (s ∷ ss) e =
      let ih = mem-unreachable_errors ss e in
      elim (Bool-cases (same s initial)) [
        | inl is_initial ↦
            rw is_initial (skip_state (λ m. m.0 ((same_iff s initial).0 is_initial)) ih)
        | inr other ↦ elim (Bool-cases (Sets.contains reachable s)) [
          | inl reached ↦ rw (other, reached) (skip_state (λ m. true≢false (sym reached ∙ m.1)) ih)
          | inr missed ↦
              rw (other, missed)
                (report_state (λ e. true≢false (sym ((same_iff s initial).1 e) ∙ other), missed) ih)
        ]
      ]

module _ {S E : Type 0} ⦃so : Ord S⦄ (show : S → Text) (g : TransitionGraph S E) where
  -- What `validate` complains of: no final state, or a state that no walk reaches.
  abbrev pub IsFault : ValidationError → Type 0
  IsFault e =
      (e ≡ no_final_state) × (g.finals ≡ [])
      ⊎ ((v : S) × IsState g v × (¬ IsReached g g.initial v) × (e ≡ unreachable_state (show v)))

  mem_no_final :
      (finals : BTreeSet S) (e : ValidationError)
      → Memᴰ e (if is_empty finals then no_final_state ∷ [] else [])
        ↔ ((e ≡ no_final_state) × (finals ≡ []))
  mem_no_final [] e = (λ m. (Memᴰ.eq_of_singleton m, refl), λ h. Memᴰ.head h.0)
  mem_no_final (f ∷ fs) e = (λ m. absurd (Memᴰ.not-nil m), λ h. cc)

  mem-IsFault :
      (reachable : BTreeSet S) (e : ValidationError)
      → IsExact g g.initial reachable
      → Memᴰ e (
          (if is_empty g.finals then no_final_state ∷ [] else [])
          ++ unreachable_errors show g.initial reachable (all_states g))
        ↔ IsFault e
  mem-IsFault reachable e exact =
      let missed = mem-unreachable_errors show g.initial reachable (all_states g) e in
      let no_final = mem_no_final g.finals e in
      (
        λ m.
            ⊎_elim (λ k. inl (no_final.0 k))
              (λ k.
                let r = missed.0 k in
                inr (
                  r.0,
                  (mem-all_states g r.0).0 r.1,
                  λ w. true≢false (sym ((exact r.0).1 w) ∙ r.2.1),
                  r.3,
                ))
              (Memᴰ.append_cases _ m),
        ⊎_elim (λ h. Memᴰ.append_left _ (no_final.1 h))
            (λ r. Memᴰ.append_right _ (
              missed.1 (
                r.0,
                (mem-all_states g r.0).1 r.1,
                (
                  λ first. r.2 (subst (IsReached g g.initial) (sym first) ([], here)),
                  false_of (λ h. r.2 ((exact r.0).0 h)),
                ),
                r.3,
              ))),
      )

  -- `validate` of a graph of `new` ends. It answers `Ok` if it found no error and else `Err` with the
  -- errors, which are exactly these: that there is no final state, where there is none, and for each
  -- state of the graph to which no walk leads from the initial state, that it is unreachable.
  pub validate_correct :
      IsWellFormed g
      → (es : List ValidationError) × (validate show g ≡ some (ok_unless es))
        × ((e : ValidationError) → Memᴰ e es ↔ IsFault e)
  unfolding validate
  validate_correct wf =
      let (reachable, ends, exact) = reachable_from_correct g g.initial wf in
      let no_final = if is_empty g.finals then no_final_state ∷ [] else [] in
      let missed = unreachable_errors show g.initial reachable (all_states g) in
      (no_final ++ missed, rw (ends, validate) refl, λ e. mem-IsFault reachable e exact)
