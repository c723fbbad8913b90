-- ===== src/Parser/Closed.antt =====
-- The states, the final states and the transitions of a diagram that was read fit together
-- (finitomata/src/parser).
use finitomata_rs.Base.{
  ℕ, suc, ◌≤◌, ◌≡◌, ◌⊎◌, inl, inr, refl, sym, subst, true, ◌&&◌, Option, none, some, List, [], ◌∷◌,
  ◌++◌, Memᴰ, length, leb, is_empty, Result, ok, err, arith, Bool-cases, Memᴰ-append, Memᴰ-cons,
  Memᴰ-nil, ⊎_elim,
}
use finitomata_rs.Base.Ord.{same, nat_ord, list_ord}
use finitomata_rs.Base.Text.{Text}
use finitomata_rs.BTree.Sets
use finitomata_rs.BTree.Sets.{IsSorted, insert-IsSorted, mem-insert}
use finitomata_rs.Parser.{
  ParsedFsm, ParsedTransition, ParseError, ParsedLine, transition, initial_transition,
  final_transition, Draft, blank, star, terminal, add_initial, add_final, add_transition, add_line,
  conclude, finish, and_then, each_line,
}
use finitomata_rs.Transition.{EventKind}

-- Every name is one of the states, but for the target of the edges to `[*]`, whose sources are final.
pub record IsClosed (initial : Option Text) (finals states : List Text)
    (transitions : List ParsedTransition) : Type 0 where
  pub initial_lem : (s : Text) → initial ≡ some s → Memᴰ s states
  pub finals_lem : (s : Text) → Memᴰ s finals → Memᴰ s states
  pub from : (t : ParsedTransition) → Memᴰ t transitions → Memᴰ t.from states
  pub to :
      (t : ParsedTransition)
      → Memᴰ t transitions
      → Memᴰ t.to states ⊎ (t.to ≡ terminal) × Memᴰ t.from finals
  pub states_sorted : IsSorted states
  pub finals_sorted : IsSorted finals

abbrev pub IsClosedDraft : Draft → Type 0
IsClosedDraft d = IsClosed d.initial d.finals d.states d.transitions

pub IsClosed-blank : IsClosedDraft blank
IsClosed-blank = record {
  initial_lem = λ s h. cc;
  finals_lem = λ s m. absurd (Memᴰ-nil s m);
  from = λ t m. absurd (Memᴰ-nil t m);
  to = λ t m. absurd (Memᴰ-nil t m);
  states_sorted = tt;
  finals_sorted = tt;
}

-- A further state.
pub IsClosed-insert :
    (initial : Option Text) (finals states : List Text) (transitions : List ParsedTransition)
    (x : Text)
    → IsClosed initial finals states transitions
    → IsClosed initial finals (Sets.insert states x) transitions
IsClosed-insert initial finals states transitions x h =
    let wider : (s : Text) → Memᴰ s states → Memᴰ s (Sets.insert states x) =
      λ s m. (mem-insert states x s).1 (inr m) in
    record {
      initial_lem = λ s e. wider s (h.initial_lem s e);
      finals_lem = λ s m. wider s (h.finals_lem s m);
      from = λ t m. wider t.from (h.from t m);
      to = λ t m. ⊎_elim (λ k. inl (wider t.to k)) (λ k. inr k) (h.to t m);
      states_sorted = insert-IsSorted states x h.states_sorted;
      finals_sorted = h.finals_sorted;
    }

mem-insert_self : (s : List Text) (x : Text) → Memᴰ x (Sets.insert s x)
mem-insert_self s x = (mem-insert s x x).1 (inl refl)

initial-cases :
    (initial : Option Text) (to : Text) (states : List Text) (s : Text)
    → (elim initial as (λ _. Option Text) [ none ↦ some to | some first ↦ some first ]) ≡ some s
    → (initial ≡ some s → Memᴰ s states)
    → Memᴰ to states
    → Memᴰ s states
initial-cases none to states s e k m = subst (λ x. Memᴰ x states) (cc) m
initial-cases (some first) to states s e k m = k e

add_initial-IsClosed : (d : Draft) (to : Text) → IsClosedDraft d → IsClosedDraft (add_initial d to)
unfolding add_initial
add_initial-IsClosed d to h =
    let k = IsClosed-insert d.initial d.finals d.states d.transitions to h in
    record {
      initial_lem =
          λ s e. initial-cases d.initial to _ s e (k.initial_lem s) (mem-insert_self d.states to);
      finals_lem = k.finals_lem;
      from = k.from;
      to = k.to;
      states_sorted = k.states_sorted;
      finals_sorted = k.finals_sorted;
    }

add_final-IsClosed : (d : Draft) (from : Text) → IsClosedDraft d → IsClosedDraft (add_final d from)
unfolding add_final
add_final-IsClosed d from h =
    let k = IsClosed-insert d.initial d.finals d.states d.transitions from h in
    record {
      initial_lem = k.initial_lem;
      finals_lem = λ s m.
          ground (arith, k.finals_lem s, mem-insert d.finals from s, mem-insert_self d.states from);
      from = k.from;
      to = λ t m. ground (arith, k.to t m, mem-insert d.finals from t.from);
      states_sorted = k.states_sorted;
      finals_sorted = insert-IsSorted d.finals from h.finals_sorted;
    }

mem-snoc :
    (x y : ParsedTransition) (xs : List ParsedTransition)
    → Memᴰ x (xs ++ y ∷ [])
    → Memᴰ x xs ⊎ (x ≡ y)
mem-snoc x y xs m = ground (arith, Memᴰ-append x xs (y ∷ []), Memᴰ-cons x y [], Memᴰ-nil x)

add_transition-IsClosed :
    (d : Draft) (from to event : Text) (kind : EventKind)
    → IsClosedDraft d
    → Memᴰ from d.states
    → Memᴰ to d.states ⊎ (to ≡ terminal) × Memᴰ from d.finals
    → IsClosedDraft (add_transition d from to event kind)
unfolding add_transition
add_transition-IsClosed d from to event kind h f t =
    let new : ParsedTransition = record { from = from; to = to; event = event; kind = kind } in
    record {
      initial_lem = h.initial_lem;
      finals_lem = h.finals_lem;
      from = λ x m.
          ⊎_elim (h.from x) (λ e. subst (λ y. Memᴰ y.from d.states) (sym e) f)
            (mem-snoc x new d.transitions m);
      to = λ x m.
          ⊎_elim (h.to x)
            (λ e.
              subst (λ y. Memᴰ y.to d.states ⊎ (y.to ≡ terminal) × Memᴰ y.from d.finals) (sym e) t)
            (mem-snoc x new d.transitions m);
      states_sorted = h.states_sorted;
      finals_sorted = h.finals_sorted;
    }

-- The predicate of a success.
abbrev pub Good {ℓ} : {A E : Type 0} → (A → Type ℓ) → Result A E → Type ℓ
Good P (ok a) = P a
Good P (err e) = Unit

pub add_line-IsClosed :
    (d : Draft) (parsed : ParsedLine) → IsClosedDraft d → IsClosedDraft (add_line d parsed)
unfolding add_line
add_line-IsClosed d (initial_transition to) h = add_initial-IsClosed d to h
add_line-IsClosed d (final_transition from) h = add_final-IsClosed d from h
add_line-IsClosed d (transition from to event) h = elim (Bool-cases (same from star)) [
  | inl e ↦ rw e (add_initial-IsClosed d to h)
  | inr n ↦ rw n (elim (Bool-cases (same to star)) [
    | inl e ↦ rw e (
        add_transition-IsClosed (add_final d from) from terminal _ _ (add_final-IsClosed d from h)
          (mem-insert_self d.states from) (inr (refl, mem-insert_self d.finals from)))
    | inr k ↦ rw k (
        add_transition-IsClosed (record d { states = Sets.insert (Sets.insert d.states from) to })
          from to _ _ (IsClosed-insert _ _ _ _ to (IsClosed-insert _ _ _ _ from h))
          ((mem-insert (Sets.insert d.states from) to from).1 (inr (mem-insert_self d.states from)))
          (inl (mem-insert_self (Sets.insert d.states from) to)))
  ])
]

Good-and_then :
    {A B E : Type 0} (P : A → Type 0) (Q : B → Type 0) (next : A → Result B E) (r : Result A E)
    → Good P r
    → ((a : A) → P a → Good Q (next a))
    → Good Q (and_then r next)
Good-and_then P Q next (ok a) h step = step a h
Good-and_then P Q next (err e) h step = tt

pub IsClosed-each_line :
    {X : Type 0} (read : ℕ → Draft → Text → Result Draft X)
    → ((n : ℕ) (d : Draft) (line : Text) → IsClosedDraft d → Good IsClosedDraft (read n d line))
    → (n : ℕ) (d : Draft) (lines : List Text) → IsClosedDraft d
    → Good IsClosedDraft (each_line read n d lines)
unfolding each_line
IsClosed-each_line read step n d [] h = h
IsClosed-each_line read step n d (line ∷ lines) h =
    Good-and_then IsClosedDraft IsClosedDraft _ (read n d line) (step n d line h)
      λ d' k. IsClosed-each_line read step (suc n) d' lines k

-- A parsed diagram is closed, its initial state is one of its states, and it has a transition or two
-- states.
abbrev pub IsClosedFsm : ParsedFsm → Type 0
IsClosedFsm fsm =
    IsClosed (some fsm.initial) fsm.finals fsm.states fsm.transitions
    × ((is_empty fsm.transitions ≡ true) → 2 ≤ length fsm.states)

IsClosed-conclude :
    (d : Draft) (initial : Option Text)
    → d.initial ≡ initial
    → IsClosedDraft d
    → Good IsClosedFsm (conclude d initial)
unfolding conclude
IsClosed-conclude d none e h = tt
IsClosed-conclude d (some initial) e h =
    elim (Bool-cases (is_empty d.transitions && leb (length d.states) 1)) [
      | inl b ↦ rw b tt
      | inr n ↦
          rw n (subst (λ i. IsClosed i d.finals d.states d.transitions) e h, λ t. ground arith)
    ]

pub IsClosed-finish :
    (r : Result Draft ParseError) → Good IsClosedDraft r → Good IsClosedFsm (finish r)
unfolding finish
IsClosed-finish (ok d) h = IsClosed-conclude d d.initial refl h
IsClosed-finish (err e) h = tt
