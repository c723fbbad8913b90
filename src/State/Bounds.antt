-- ===== src/State/Bounds.antt =====
-- The bounds of the history (finitomata/src/state.rs), which every `transit` (finitomata/src/engine.rs)
-- keeps.
use finitomata_rs.Base.{
  ℕ, suc, ◌≤◌, ◌<◌, ◌^◌, ◌≡◌, refl, inl, inr, List, [], ◌∷◌, ◌++◌, length, leb, length-append,
  arith, Bool-cases,
}
use finitomata_rs.Base.Ord.{Ord}
use finitomata_rs.Base.Text.{Text}
use finitomata_rs.State.Window.{capacity, capacity_cases}
use finitomata_rs.State.{
  HistoryEntry, BoundedHistory, pop_front, bump_back, new_state, history_size, repeats,
  append_entry, push, new_history,
}

-- Every count is a `usize`.
abbrev pub AreCounts : {S : Type 0} → List (HistoryEntry S) → Type 0
AreCounts [] = Unit
AreCounts (e ∷ es) = (e.count < 2 ^ 64) × AreCounts es

pub record IsBounded {S : Type 0} (h : BoundedHistory S) : Type 0 where
  pub length_lem : length h.entries ≤ capacity h.max_size
  pub counts : AreCounts h.entries

module _ {S : Type 0} where
  length-bump_back : (es : List (HistoryEntry S)) → length (bump_back es) ≡ length es
  length-bump_back [] = refl
  length-bump_back (x ∷ []) = refl
  length-bump_back (x ∷ y ∷ es) = omega (arith, length-bump_back (y ∷ es))

  AreCounts-bump_back : (es : List (HistoryEntry S)) → AreCounts es → AreCounts (bump_back es)
  AreCounts-bump_back [] h = tt
  AreCounts-bump_back (x ∷ []) h = (omega arith, tt)
  AreCounts-bump_back (x ∷ y ∷ es) h = (h.0, AreCounts-bump_back (y ∷ es) h.1)

  AreCounts-pop_front : (es : List (HistoryEntry S)) → AreCounts es → AreCounts (pop_front es)
  AreCounts-pop_front [] h = tt
  AreCounts-pop_front (x ∷ es) h = h.1

  AreCounts-append :
      (es : List (HistoryEntry S)) (e : HistoryEntry S)
      → AreCounts es
      → e.count < 2 ^ 64
      → AreCounts (es ++ e ∷ [])
  AreCounts-append [] e h k = (k, tt)
  AreCounts-append (x ∷ es) e h k = (h.0, AreCounts-append es e h.1 k)

  length-pop_front :
      (es : List (HistoryEntry S)) → suc (length (pop_front es)) ≡ capacity (length es)
  length-pop_front [] = refl
  length-pop_front (x ∷ es) = refl

  append-IsBounded :
      (entries room : List (HistoryEntry S)) (max_size : ℕ) (state : S)
      → AreCounts room
      → suc (length room) ≤ capacity max_size
      → IsBounded (record {
        entries = room ++ record { state = state; count = 1 } ∷ [];
        max_size = max_size;
      })
  append-IsBounded entries room max_size state c l = record {
    length_lem = rw (length-append room (record { state = state; count = 1 } ∷ [])) (omega arith);
    counts = AreCounts-append room _ c (omega arith);
  }

module _ {S : Type 0} ⦃so : Ord S⦄ where
  append_entry-IsBounded :
      (h : BoundedHistory S) (state : S) → IsBounded h → IsBounded (append_entry h state)
  unfolding append_entry
  append_entry-IsBounded h state b = elim (Bool-cases (leb h.max_size (length h.entries))) [
    | inl e ↦ rw e (
        append-IsBounded h.entries (pop_front h.entries) h.max_size state
          (AreCounts-pop_front h.entries b.counts)
          (ground (
            arith,
            length-pop_front h.entries,
            b.length_lem,
            capacity_cases (length h.entries),
            capacity_cases h.max_size,
          )))
    | inr e ↦ rw e (
        append-IsBounded h.entries h.entries h.max_size state b.counts
          (ground (arith, e, capacity_cases h.max_size)))
  ]

  pub push-IsBounded : (h : BoundedHistory S) (state : S) → IsBounded h → IsBounded (push h state)
  unfolding push
  push-IsBounded h state b = elim (Bool-cases (repeats h.entries state)) [
    | inl e ↦ rw e (record {
      length_lem = rw (length-bump_back h.entries) b.length_lem;
      counts = AreCounts-bump_back h.entries b.counts;
    })
    | inr e ↦ rw e (append_entry-IsBounded h state b)
  ]

  pub new_state-IsBounded :
      {P : Type 0} (name : Text) (state : S) (payload : P)
      → IsBounded (new_state name state payload).history
  unfolding new_state new_history
  new_state-IsBounded name state payload =
      push-IsBounded (new_history history_size) state
        (record { length_lem = omega arith; counts = tt })
