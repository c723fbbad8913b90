-- ===== src/Macro/Codegen/Valid.antt =====
-- The graph that the macro generates for a machine that it accepts passes the validation of the
-- library (finitomata_macro/src/codegen.rs and validation.rs, finitomata/src/transition.rs).
use mathlib.Core.Bool.{true≢false}
use mathlib.Core.List.Memᴰ
use finitomata_rs.Base.{
  some_inj, ◌≡◌, refl, sym, subst, ◌∙◌, ap, ◌⊎◌, inl, inr, ⊎_elim, ◌↔◌, Bool, true, false, some,
  List, [], ◌∷◌, ◌++◌, map, Memᴰ, Memᴰ-cons, Memᴰ-nil, ok, if◌then◌else◌, arith, Bool-cases,
}
use finitomata_rs.Base.Ord.{Ord, same, same_iff, nat_ord, list_ord}
use finitomata_rs.Base.Text.{Text}
use finitomata_rs.BTree.Sets
use finitomata_rs.BTree.Sets.{BTreeSet, mem-insert}
use finitomata_rs.Macro.Chars.{Chars}
use finitomata_rs.Macro.Codegen.{
  CodegenConfig, Generated, Variant, variant, entry_target, entry, quoted, generate, set_from,
  build_graph,
}
use finitomata_rs.Error.{ValidationError}
use finitomata_rs.Macro.Validation
use finitomata_rs.Macro.Validation.Reachable.{inner, inner_graph}
use finitomata_rs.Macro.Validation.Sound.{IsSound, validate-IsSound}
use finitomata_rs.Parser.{ParsedFsm, ParsedTransition, terminal}
use finitomata_rs.Macro.Codegen.Idents.{generate-quoted}
use finitomata_rs.Macro.Parser.Closed.{IsClosedMachine}
use finitomata_rs.Transition.{Transition, TransitionGraph, PathSteps, new}
use finitomata_rs.Transition.Index.{IsWellFormed, new-IsWellFormed}
use finitomata_rs.Transition.Reachable.Correct.{IsReached}
use finitomata_rs.Transition.Validate.{validate, ok_unless}
use finitomata_rs.Transition.Validate.Correct.{IsState, IsEnd, IsFault, validate_correct}
use finitomata_rs.Transition.Walks.{Edge, Walk, here, step}

-- The rows of the inner graph are the transitions that do not end in `[*]`.
pub mem-inner :
    (ts : List ParsedTransition) (row : Transition Text Text)
    → Memᴰ row (inner ts)
    → (t : ParsedTransition) × Memᴰ t ts
      × (same t.to terminal ≡ false)
      × (row.from ≡ t.from)
      × (row.event ≡ t.event)
      × (row.to ≡ t.to ∷ [])
unfolding inner
mem-inner [] row m = absurd (Memᴰ-nil row m)
mem-inner (t ∷ ts) row m =
    ⊎_elim
      (λ h.
        (t, Memᴰ.head refl, h.0, ap (λ r. r.from) h.1, ap (λ r. r.event) h.1, ap (λ r. r.to) h.1))
      (λ k. let h = mem-inner ts row k in (h.0, Memᴰ.tail h.1, h.2, h.3, h.4, h.5))
      (split (same t.to terminal) refl m)
  where
    row_of : Transition Text Text
    row_of = record { from = t.from; to = t.to ∷ []; event = t.event; kind = t.kind }

    split :
        (b : Bool)
        → same t.to terminal ≡ b
        → Memᴰ row (if b then inner ts else row_of ∷ inner ts)
        → (same t.to terminal ≡ false) × (row ≡ row_of) ⊎ Memᴰ row (inner ts)
    split true e n = inr n
    split false e n = ⊎_elim (λ r. inl (e, r)) inr (Memᴰ.cases_cons n)

pub mem-map : {A B : Type 0} (f : A → B) (xs : List A) (x : A) → Memᴰ x xs → Memᴰ (f x) (map f xs)
mem-map f [] x m = absurd (Memᴰ-nil x m)
mem-map f (y ∷ ys) x m =
    ⊎_elim (λ e. Memᴰ.head (ap f e)) (λ k. Memᴰ.tail (mem-map f ys x k)) (Memᴰ.cases_cons m)

pub mem_of_map :
    {A B : Type 0} (f : A → B) (xs : List A) (y : B)
    → Memᴰ y (map f xs)
    → (x : A) × Memᴰ x xs × (y ≡ f x)
mem_of_map f [] y m = absurd (Memᴰ-nil y m)
mem_of_map f (x ∷ xs) y m =
    ⊎_elim (λ e. (x, Memᴰ.head refl, e))
      (λ k. let (z, n, e) = mem_of_map f xs y k in (z, Memᴰ.tail n, e)) (Memᴰ.cases_cons m)

pub mem-set_from :
    {A : Type 0} ⦃o : Ord A⦄ (set : BTreeSet A) (xs : List A) (y : A)
    → Memᴰ y (set_from set xs) ↔ (Memᴰ y set ⊎ Memᴰ y xs)
unfolding set_from
mem-set_from set [] y = (inl, ⊎_elim (λ m. m) (λ m. absurd (Memᴰ-nil y m)))
mem-set_from set (x ∷ xs) y =
    ground (arith, mem-set_from (Sets.insert set x) xs y, mem-insert set x y, Memᴰ-cons y x xs)

module _ ⦃vo : Ord Variant⦄ (chars : Chars) (fsm : ParsedFsm) (config : CodegenConfig) where
  abbrev pub generated_graph : TransitionGraph Variant Variant
  generated_graph = build_graph (quoted chars fsm config)

  -- The transitions and the final states of the generated graph.
  transitions-generated : generated_graph.transitions ≡ map (entry chars) fsm.transitions
  unfolding build_graph quoted new
  transitions-generated = refl

  -- A step between inner states is one of the generated graph.
  Edge-generated :
      (u v e : Text)
      → Edge (inner_graph fsm) u e v
      → Edge generated_graph (variant chars u) (variant chars e) (variant chars v)
  unfolding new build_graph quoted entry entry_target
  Edge-generated u v e (row, m, from, event, target) =
      let (t, n, inside, f, ev, to) = mem-inner fsm.transitions row m in
      (
        entry chars t,
        mem-map (entry chars) fsm.transitions t n,
        ap (variant chars) (sym f ∙ from),
        ap (variant chars) (sym ev ∙ event),
        rw inside
            (Memᴰ.head (ap (variant chars) (Memᴰ.eq_of_singleton (subst (Memᴰ v) to target)))),
      )

  IsReached-generated :
      (s v : Text) {p : PathSteps Text Text}
      → Walk (inner_graph fsm) s p v
      → IsReached generated_graph (variant chars s) (variant chars v)
  IsReached-generated s v here = ([], here)
  IsReached-generated s v (step {u = u} {e = e} w edge eq) =
      let (p, k) = IsReached-generated s u w in
      (p ++ (variant chars e, variant chars v) ∷ [], step k (Edge-generated u v e edge) refl)

  module _ (sound : IsSound chars fsm) (closed : IsClosedMachine fsm) where
    -- The variant of a state is reached from the initial one.
    reached :
        (s : Text)
        → Memᴰ s fsm.states
        → IsReached generated_graph (variant chars fsm.initial) (variant chars s)
    reached s m = IsReached-generated fsm.initial s (sound.reached s m).1

    entry_target-state :
        (t : ParsedTransition)
        → Memᴰ t fsm.transitions
        → (s : Text) × Memᴰ s fsm.states × (entry_target chars t ≡ variant chars s)
    unfolding entry_target
    entry_target-state t m = elim (Bool-cases (same t.to terminal)) [
      | inl e ↦ (t.from, closed.from t m, rw e refl)
      | inr n ↦ (
        t.to,
        ⊎_elim (λ k. k) (λ h. absurd (true≢false (sym ((same_iff t.to terminal).1 h.0) ∙ n)))
            (closed.to t m),
        rw n refl,
      )
    ]

    finals-generated :
        (v : Variant)
        → Memᴰ v generated_graph.finals
        → (s : Text) × Memᴰ s fsm.finals × (v ≡ variant chars s)
    unfolding build_graph quoted new
    finals-generated v m =
        mem_of_map (variant chars) fsm.finals v
          (⊎_elim (λ n. absurd (Memᴰ-nil v n)) (λ k. k) ((mem-set_from [] _ v).0 m))

    IsEnd-generated :
        (v : Variant)
        → IsEnd generated_graph.transitions v
        → (s : Text) × Memᴰ s fsm.states × (v ≡ variant chars s)
    unfolding build_graph quoted new IsEnd entry
    IsEnd-generated v (row, m, ends) =
        let (t, n, e) = mem_of_map (entry chars) fsm.transitions row m in
        ⊎_elim (λ h. (t.from, closed.from t n, h ∙ ap (λ r. r.from) e))
          (λ k.
            let (s, k', f) = entry_target-state t n in
            (s, k', Memᴰ.eq_of_singleton (subst (λ r. Memᴰ v r.to) e k) ∙ f))
          ends

    IsState-generated :
        (v : Variant)
        → IsState generated_graph v
        → (s : Text) × Memᴰ s fsm.states × (v ≡ variant chars s)
    unfolding build_graph quoted new
    IsState-generated v h =
        ⊎_elim (λ e. (fsm.initial, closed.initial_lem fsm.initial refl, e))
          (⊎_elim (λ m. let (s, n, e) = finals-generated v m in (s, closed.finals_lem s n, e))
            (IsEnd-generated v))
          h

    has_final : ¬ (generated_graph.finals ≡ [])
    unfolding build_graph quoted new
    has_final h = go fsm.finals sound.finals h
      where
        go : (xs : List Text) → ¬ (xs ≡ []) → ¬ (set_from [] (map (variant chars) xs) ≡ [])
        go [] n e = n refl
        go (x ∷ xs) n e = Memᴰ.not-nil (
            subst (Memᴰ (variant chars x)) e
              ((mem-set_from [] _ _).1 (inr (Memᴰ.head {xs = map (variant chars) xs} refl))))

    not-IsFault : (show : Variant → Text) (e : ValidationError) → ¬ IsFault show generated_graph e
    unfolding build_graph quoted new
    not-IsFault show e f =
        ⊎_elim (λ h. has_final h.1)
          (λ h.
            let (s, m, eq) = IsState-generated h.0 h.1 in
            h.2 (
              subst (IsReached generated_graph (variant chars fsm.initial)) (sym eq) (reached s m)))
          f

no_member : {A : Type 0} (xs : List A) → ((x : A) → ¬ Memᴰ x xs) → xs ≡ []
no_member [] h = refl
no_member (x ∷ xs) h = absurd (h x (Memᴰ.head refl))

quoted-validates :
    ⦃vo : Ord Variant⦄ (chars : Chars) (fsm : ParsedFsm) (config : CodegenConfig)
    (show : Variant → Text)
    → Validation.validate chars fsm ≡ some (ok tt)
    → IsClosedMachine fsm
    → IsWellFormed (build_graph (quoted chars fsm config))
      × (validate show (build_graph (quoted chars fsm config)) ≡ some (ok tt))
unfolding build_graph
quoted-validates chars fsm config show accepted closed =
    let (r, answered, sound) = validate-IsSound chars fsm in
    let sound : IsSound chars fsm = sound.0 (some_inj (sym answered ∙ accepted)) in
    let wf = new-IsWellFormed _ _ _ in
    let (es, answer, faults) = validate_correct show (generated_graph chars fsm config) wf in
    let none_left =
      no_member es (λ e m. not-IsFault chars fsm config sound closed show e ((faults e).0 m)) in
    (wf, answer ∙ ap (λ l. some (ok_unless l)) none_left)

-- Whatever order the enum of the states has: where the macro accepts a machine whose names fit
-- together, as those of each machine that was read do, and code is generated from it, its graph is
-- well-formed, and `validate` of the library ends on it and finds no error.
pub generate-validates :
    ⦃vo : Ord Variant⦄ (chars : Chars) (fsm : ParsedFsm) (config : CodegenConfig)
    (show : Variant → Text) (gen : Generated)
    → Validation.validate chars fsm ≡ some (ok tt)
    → IsClosedMachine fsm
    → generate chars fsm config ≡ some gen
    → IsWellFormed (build_graph gen) × (validate show (build_graph gen) ≡ some (ok tt))
generate-validates chars fsm config show gen accepted closed generated =
    subst (λ gen. IsWellFormed (build_graph gen) × (validate show (build_graph gen) ≡ some (ok tt)))
      (generate-quoted chars fsm config gen generated)
      (quoted-validates chars fsm config show accepted closed)
