-- ===== src/Macro/Validation/Sound.antt =====
-- What the macro's `validate` (finitomata_macro/src/validation.rs) accepts.
use mathlib.Core.Bool.{true≢false}
use mathlib.Core.List.Memᴰ
use finitomata_rs.Base.{
  ◌≡◌, refl, sym, subst, ◌∙◌, ◌⊎◌, inl, inr, ⊎_elim, ◌↔◌, true, false, some, List, [], ◌∷◌, ◌++◌,
  map, Memᴰ, Memᴰ-nil, is_empty, Result, ok, if◌then◌else◌, arith, false_of, Bool-cases,
}
use finitomata_rs.Base.Ord.{same_iff, nat_ord, list_ord, pair_ord}
use finitomata_rs.Base.Text.{Text, text}
use finitomata_rs.BTree.Sets
use finitomata_rs.BTree.Sets.{BTreeSet}
use finitomata_rs.Macro.Chars.{Chars}
use finitomata_rs.Macro.Validation.{
  initial_errors, final_errors, unreachable_errors, duplicate_errors, is_valid_identifier,
  event_errors, state_errors, all_errors, outcome, validate,
}
use finitomata_rs.Macro.Validation.Reachable.{inner_graph, reachable_from_correct}
use finitomata_rs.Parser.{ParsedFsm, ParsedTransition}
use finitomata_rs.Transition.Reachable.Correct.{IsReached, IsExact}
use finitomata_rs.Transition.Walks.{here}

-- No element stands twice in the list.
abbrev pub IsDistinct : {A : Type 0} → List A → Type 0
IsDistinct [] = Unit
IsDistinct (x ∷ xs) = (¬ Memᴰ x xs) × IsDistinct xs

abbrev pub key : ParsedTransition → Text × Text
key t = (t.from, t.event)

pub record IsSound (chars : Chars) (fsm : ParsedFsm) : Type 0 where
  pub initial : ¬ (fsm.initial ≡ [])
  pub finals : ¬ (fsm.finals ≡ [])
  pub reached : (s : Text) → Memᴰ s fsm.states → IsReached (inner_graph fsm) fsm.initial s
  pub unique : IsDistinct (map key fsm.transitions)
  pub events :
      (t : ParsedTransition) → Memᴰ t fsm.transitions → is_valid_identifier chars t.event ≡ true
  pub states : (s : Text) → Memᴰ s fsm.states → is_valid_identifier chars s ≡ true

all_cons_iff :
    {A : Type 0} (P : A → Type 0) (x : A) (xs : List A)
    → ((y : A) → Memᴰ y (x ∷ xs) → P y) ↔ (P x × ((y : A) → Memᴰ y xs → P y))
all_cons_iff P x xs = (
  λ h. (h x (Memᴰ.head refl), λ y m. h y (Memᴰ.tail m)),
  λ h y m. ⊎_elim (λ e. subst P (sym e) h.0) (h.1 y) (Memᴰ.cases_cons m),
)

append_nil_iff : {A : Type 0} (xs ys : List A) → (xs ++ ys ≡ []) ↔ ((xs ≡ []) × (ys ≡ []))
append_nil_iff [] ys = (λ h. (refl, h), λ h. h.1)
append_nil_iff (x ∷ xs) ys = (λ h. cc, λ h. cc)

initial_errors_iff : (fsm : ParsedFsm) → (initial_errors fsm ≡ []) ↔ (¬ (fsm.initial ≡ []))
unfolding initial_errors
initial_errors_iff fsm = go fsm.initial
  where
    go :
        (s : Text)
        → ((if is_empty s then text "no initial state defined" ∷ [] else []) ≡ []) ↔ (¬ (s ≡ []))
    go [] = (λ h. cc, λ h. absurd (h refl))
    go (c ∷ cs) = (λ h e. cc, λ h. refl)

final_errors_iff : (fsm : ParsedFsm) → (final_errors fsm ≡ []) ↔ (¬ (fsm.finals ≡ []))
unfolding final_errors
final_errors_iff fsm = go fsm.finals
  where
    go :
        (s : List Text)
        → ((if is_empty s then text "no final state defined (no transition to [*])" ∷ [] else [])
            ≡ [])
          ↔ (¬ (s ≡ []))
    go [] = (λ h. cc, λ h. absurd (h refl))
    go (c ∷ cs) = (λ h e. cc, λ h. refl)

unreachable_errors_iff :
    (initial : Text) (reachable : BTreeSet Text) (states : List Text)
    → (unreachable_errors initial reachable states ≡ [])
      ↔ ((s : Text) → Memᴰ s states → (s ≡ initial) ⊎ (Sets.contains reachable s ≡ true))
unfolding unreachable_errors
unreachable_errors_iff initial reachable [] = (λ h s m. absurd (Memᴰ-nil s m), λ h. refl)
unreachable_errors_iff initial reachable (x ∷ xs) =
    let ih = unreachable_errors_iff initial reachable xs in
    let all = all_cons_iff (λ s. (s ≡ initial) ⊎ (Sets.contains reachable s ≡ true)) x xs in
    (
      λ h. all.1 (ground (arith, same_iff x initial), ih.0 (ground arith)),
      λ h. let (head, tail) = all.0 h in ground (arith, same_iff x initial, ih.1 tail, head),
    )

duplicate_errors_iff :
    (seen : BTreeSet (Text × Text)) (ts : List ParsedTransition)
    → (duplicate_errors seen ts ≡ []) ↔ (
        IsDistinct (map key ts)
        × ((k : Text × Text) → Memᴰ k (map key ts) → Sets.contains seen k ≡ false))
unfolding duplicate_errors
duplicate_errors_iff seen [] = (λ h. (tt, λ k m. absurd (Memᴰ-nil k m)), λ h. refl)
duplicate_errors_iff seen (t ∷ ts) =
    let ih = duplicate_errors_iff (Sets.insert seen (key t)) ts in
    elim (Bool-cases (Sets.contains seen (key t))) [
      | inl e ↦ rw e (λ h. cc, λ h. absurd (true≢false (sym e ∙ h.1 (key t) (Memᴰ.head refl))))
      | inr n ↦ rw n (
        λ h.
            let (distinct, fresh) = ih.0 h in
            (
              (
                λ m. true≢false (
                    sym ((Sets.contains-insert seen (key t) (key t)).1 (inl refl))
                    ∙ fresh (key t) m),
                distinct,
              ),
              λ k m.
                  ⊎_elim (λ e. subst (λ x. Sets.contains seen x ≡ false) (sym e) n)
                    (λ m'. false_of λ c.
                      true≢false
                        (sym ((Sets.contains-insert seen (key t) k).1 (inr c)) ∙ fresh k m'))
                    (Memᴰ.cases_cons m),
            ),
        λ h. ih.1 (
          h.0.1,
          λ k m. false_of λ c.
              ⊎_elim (λ e. h.0.0 (subst (λ x. Memᴰ x (map key ts)) e m))
                (λ c'. true≢false (sym c' ∙ h.1 k (Memᴰ.tail m)))
                ((Sets.contains-insert seen (key t) k).0 c),
        ),
      )
    ]

module _ (chars : Chars) where
  event_errors_iff :
      (ts : List ParsedTransition)
      → (event_errors chars ts ≡ [])
        ↔ ((t : ParsedTransition) → Memᴰ t ts → is_valid_identifier chars t.event ≡ true)
  unfolding event_errors
  event_errors_iff [] = (λ h t m. absurd (Memᴰ-nil t m), λ h. refl)
  event_errors_iff (x ∷ xs) =
      let ih = event_errors_iff xs in
      let all = all_cons_iff (λ t. is_valid_identifier chars t.event ≡ true) x xs in
      (
        λ h. all.1 (ground arith, ih.0 (ground arith)),
        λ h. let (head, tail) = all.0 h in ground (arith, ih.1 tail, head),
      )

  state_errors_iff :
      (ss : List Text)
      → (state_errors chars ss ≡ []) ↔ ((s : Text) → Memᴰ s ss → is_valid_identifier chars s ≡ true)
  unfolding state_errors
  state_errors_iff [] = (λ h t m. absurd (Memᴰ-nil t m), λ h. refl)
  state_errors_iff (x ∷ xs) =
      let ih = state_errors_iff xs in
      let all = all_cons_iff (λ s. is_valid_identifier chars s ≡ true) x xs in
      (
        λ h. all.1 (ground arith, ih.0 (ground arith)),
        λ h. let (head, tail) = all.0 h in ground (arith, ih.1 tail, head),
      )

  -- What the checks say one by one, with the names that the search reached.
  all_errors_iff :
      (fsm : ParsedFsm) (reachable : BTreeSet Text)
      → IsExact (inner_graph fsm) fsm.initial reachable
      → (all_errors chars fsm reachable ≡ []) ↔ IsSound chars fsm
  unfolding all_errors
  all_errors_iff fsm reachable exact =
      let i = initial_errors_iff fsm in
      let f = final_errors_iff fsm in
      let u = unreachable_errors_iff fsm.initial reachable fsm.states in
      let d = duplicate_errors_iff [] fsm.transitions in
      let e = event_errors_iff fsm.transitions in
      let s = state_errors_iff fsm.states in
      (
        λ h.
            let (hi, h1) = (append_nil_iff (initial_errors fsm) _).0 h in
            let (hf, h2) = (append_nil_iff (final_errors fsm) _).0 h1 in
            let (hu, h3) =
              (append_nil_iff (unreachable_errors fsm.initial reachable fsm.states) _).0 h2 in
            let (hd, h4) = (append_nil_iff (duplicate_errors [] fsm.transitions) _).0 h3 in
            let (he, hs) = (append_nil_iff (event_errors chars fsm.transitions) _).0 h4 in
            record {
              initial = i.0 hi;
              finals = f.0 hf;
              reached = λ x m.
                  ⊎_elim (λ eq. subst (IsReached (inner_graph fsm) fsm.initial) (sym eq) ([], here))
                    (exact x).0 (u.0 hu x m);
              unique = (d.0 hd).0;
              events = e.0 he;
              states = s.0 hs;
            },
        λ h. (append_nil_iff (initial_errors fsm) _).1 (
          i.1 h.initial,
          (append_nil_iff (final_errors fsm) _).1 (
            f.1 h.finals,
            (append_nil_iff (unreachable_errors fsm.initial reachable fsm.states) _).1 (
              u.1 (λ x m. inr ((exact x).1 (h.reached x m))),
              (append_nil_iff (duplicate_errors [] fsm.transitions) _).1 (
                d.1 (h.unique, λ k m. unfold Sets.contains in refl),
                (append_nil_iff (event_errors chars fsm.transitions) _).1
                    (e.1 h.events, s.1 h.states),
              ),
            ),
          ),
        ),
      )

  outcome_iff : (errors : List Text) → (outcome errors ≡ ok tt) ↔ (errors ≡ [])
  unfolding outcome
  outcome_iff [] = (λ h. refl, λ h. refl)
  outcome_iff (e ∷ es) = (λ h. cc, λ h. cc)

  -- The macro's `validate` answers for every parsed machine, and it accepts exactly the sound ones: the
  -- initial state has a name, there is a final state, every state is reached from the initial one over
  -- transitions that do not end in `[*]`, no state has two transitions with the same event, and the
  -- names of the states and the events are identifiers.
  pub validate-IsSound :
      (fsm : ParsedFsm)
      → (r : Result (Unit {0}) (List Text)) × (validate chars fsm ≡ some r)
        × ((r ≡ ok tt) ↔ IsSound chars fsm)
  unfolding validate
  validate-IsSound fsm =
      let (reachable, ends, exact) = reachable_from_correct fsm fsm.initial in
      let (to, back) = all_errors_iff fsm reachable exact in
      let (none_left, accepted) = outcome_iff (all_errors chars fsm reachable) in
      (
        outcome (all_errors chars fsm reachable),
        rw (ends, validate) refl,
        (λ h. to (none_left h), λ h. accepted (back h)),
      )
