-- ===== src/Transition/Index.antt =====
-- The index that `new` builds (finitomata/src/transition.rs): every lookup through it answers as a
-- scan of the whole list of transitions would.
use mathlib.Core.List.{append-nil, append_assoc}
use mathlib.Core.List.Memᴰ
use finitomata_rs.Base.{
  ℕ, suc, ◌+◌, ◌<◌, ◌≡◌, refl, sym, ap, ◌∙◌, ◌↔◌, inl, inr, Option, some, List, [], ◌∷◌, ◌++◌, Memᴰ,
  arith, get_elem?, length, find, ◌&&◌, if◌then◌else◌, unwrap_or, subst, Bool-cases, Memᴰ-cons,
}
use mathlib.Core.Option
use finitomata_rs.Base.Ord.{Ord, same, same_iff}
use finitomata_rs.BTree.Sets.{BTreeSet}
use finitomata_rs.BTree.Maps
use finitomata_rs.BTree.Maps.{BTreeMap}
use finitomata_rs.Transition.{
  Transition, TransitionGraph, index_from, new, pick, rows, first_row, allowed,
}

-- The indices that the index holds for a state.
unfoldable pub entry : {S : Type 0} ⦃so : Ord S⦄ → BTreeMap S (List ℕ) → S → List ℕ
entry index s = unwrap_or (Maps.get index s) []

module _ {S E : Type 0} ⦃so : Ord S⦄ where
  -- The transitions out of a state, in the order of the list.
  unfoldable pub outgoing : List (Transition S E) → S → List (Transition S E)
  outgoing [] s = []
  outgoing (t ∷ ts) s = if same t.from s then t ∷ outgoing ts s else outgoing ts s

  -- Their positions, counted from `i`.
  positions : ℕ → List (Transition S E) → S → List ℕ
  positions i [] s = []
  positions i (t ∷ ts) s =
      if same t.from s then i ∷ positions (suc i) ts s else positions (suc i) ts s

  index_from-IsSorted :
      (i : ℕ) (index : BTreeMap S (List ℕ)) (ts : List (Transition S E))
      → Maps.IsSorted index
      → Maps.IsSorted (index_from i index ts)
  unfolding index_from
  index_from-IsSorted i index [] h = h
  index_from-IsSorted i index (t ∷ ts) h =
      index_from-IsSorted (suc i) _ ts (Maps.alter-IsSorted index t.from [] _ h)

  -- One round of the loop, as the entry of `s` sees it.
  entry_step :
      (i : ℕ) (index : BTreeMap S (List ℕ)) (t : Transition S E) (ts : List (Transition S E))
      (s : S)
      → Maps.IsSorted index
      → entry (Maps.alter index t.from [] (λ is. is ++ i ∷ [])) s ++ positions (suc i) ts s
        ≡ entry index s ++ positions i (t ∷ ts) s
  unfolding positions entry
  entry_step i index t ts s h =
      rw (Maps.get-alter index t.from s [] (λ is. is ++ i ∷ []) h)
        (elim (Bool-cases (same t.from s)) [
          | inl e ↦ rw (e, (same_iff t.from s).0 e, append_assoc) refl
          | inr n ↦ rw n refl
        ])

  entry-index_from :
      (i : ℕ) (index : BTreeMap S (List ℕ)) (ts : List (Transition S E)) (s : S)
      → Maps.IsSorted index
      → entry (index_from i index ts) s ≡ entry index s ++ positions i ts s
  unfolding index_from positions
  entry-index_from i index [] s h = sym (append-nil _)
  entry-index_from i index (t ∷ ts) s h =
      entry-index_from (suc i) (Maps.alter index t.from [] (λ is. is ++ i ∷ [])) ts s
        (Maps.alter-IsSorted index t.from [] _ h)
      ∙ entry_step i index t ts s h

  pick-positions :
      (all : List (Transition S E)) (k : ℕ) (ts : List (Transition S E)) (s : S)
      → ((j : ℕ) → get_elem? all (k + j) ≡ get_elem? ts j)
      → pick all (positions k ts s) ≡ outgoing ts s
  unfolding pick positions outgoing
  pick-positions all k [] s h = refl
  pick-positions all k (t ∷ ts) s h =
      let here : get_elem? all k ≡ some t = ap (get_elem? all) (omega arith) ∙ h 0 in
      let next =
        pick-positions all (suc k) ts s (λ j. ap (get_elem? all) (omega arith) ∙ h (suc j)) in
      elim (Bool-cases (same t.from s)) [ inl e ↦ rw (e, here, next, pick) | inr n ↦ rw (n, next) ]

  positions-lt :
      (i : ℕ) (ts : List (Transition S E)) (s : S) (k : ℕ)
      → Memᴰ k (positions i ts s)
      → k < i + length ts
  unfolding positions
  positions-lt i [] s k m = absurd (Memᴰ.not-nil m)
  positions-lt i (t ∷ ts) s k m =
      ground (arith, Memᴰ-cons k i (positions (suc i) ts s), positions-lt (suc i) ts s k)

-- What every lookup through the index relies on, and what `new` establishes.
pub record IsWellFormed {S E : Type 0} ⦃so : Ord S⦄ (g : TransitionGraph S E) : Type 0 where
  pub rows_lem : (s : S) → rows g s ≡ outgoing g.transitions s
  pub in_bounds : (s : S) (i : ℕ) → Memᴰ i (entry g.index s) → i < length g.transitions

module _ {S E : Type 0} ⦃so : Ord S⦄ where
  rows-entry : (g : TransitionGraph S E) (s : S) → rows g s ≡ pick g.transitions (entry g.index s)
  unfolding rows entry
  rows-entry g s = ground arith

  entry-new :
      (initial : S) (finals : BTreeSet S) (ts : List (Transition S E)) (s : S)
      → entry (new initial finals ts).index s ≡ positions 0 ts s
  unfolding new entry positions Maps.get
  entry-new initial finals ts s = entry-index_from 0 [] ts s tt

  -- The index of a new graph sends every state to the transitions out of it, all of them and in the
  -- order in which they were given, and every position that it holds is one of the list, so no
  -- lookup is out of bounds.
  pub new-IsWellFormed :
      (initial : S) (finals : BTreeSet S) (ts : List (Transition S E))
      → IsWellFormed (new initial finals ts)
  unfolding new
  new-IsWellFormed initial finals ts = record {
    rows_lem = λ s.
        rows-entry _ s
        ∙ ap (pick ts) (entry-new initial finals ts s)
        ∙ pick-positions ts 0 ts s (λ j. ap (get_elem? ts) (omega arith));
    in_bounds = λ s i m.
        let bound = positions-lt 0 ts s i (subst (Memᴰ i) (entry-new initial finals ts s) m) in
        omega arith;
  }

  pub mem-outgoing :
      (ts : List (Transition S E)) (s : S) (t : Transition S E)
      → Memᴰ t (outgoing ts s) ↔ (Memᴰ t ts × (t.from ≡ s))
  unfolding outgoing
  mem-outgoing [] s t = (λ m. absurd (Memᴰ.not-nil m), λ m. absurd (Memᴰ.not-nil m.0))
  mem-outgoing (x ∷ ts) s t = ground (
    arith,
    same_iff x.from s,
    mem-outgoing ts s t,
    Memᴰ-cons t x ts,
    Memᴰ-cons t x (outgoing ts s),
  )

  pub mem-rows :
      (g : TransitionGraph S E) (s : S) (t : Transition S E)
      → IsWellFormed g
      → Memᴰ t (rows g s) ↔ (Memᴰ t g.transitions × (t.from ≡ s))
  mem-rows g s t w = rw (w.rows_lem s) (mem-outgoing g.transitions s t)

module _ {S E : Type 0} ⦃so : Ord S⦄ ⦃eo : Ord E⦄ where
  -- The first transition of the list with the state and the event.
  abbrev pub first_match : List (Transition S E) → S → E → Option (Transition S E)
  first_match ts s e = find (λ t. same t.from s && same t.event e) ts

  first_row-outgoing :
      (ts : List (Transition S E)) (s : S) (e : E)
      → first_row e (outgoing ts s) ≡ Option.map (λ t. (t.to, t.kind)) (first_match ts s e)
  unfolding first_row outgoing
  first_row-outgoing [] s e = refl
  first_row-outgoing (t ∷ ts) s e = ground (arith, first_row-outgoing ts s e)

  -- In a graph of `new`, `allowed` answers with the targets and the kind of the first transition of
  -- the list that has this source state and this event, and with nothing if there is none.
  pub allowed-new :
      (initial : S) (finals : BTreeSet S) (ts : List (Transition S E)) (s : S) (e : E)
      → allowed (new initial finals ts) s e ≡ Option.map (λ t. (t.to, t.kind)) (first_match ts s e)
  unfolding allowed
  allowed-new initial finals ts s e =
      let w = new-IsWellFormed initial finals ts in
      ap (first_row e) (w.rows_lem s) ∙ unfold new in first_row-outgoing ts s e
