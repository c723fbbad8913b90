-- ===== src/State/History.antt =====
-- The bounded history (finitomata/src/state.rs) against the list of all visits: its entries are the
-- last runs of that list.
use mathlib.Core.List.{append-nil, append_assoc}
use mathlib.Core.Bool.{true≢false}
use finitomata_rs.Base.{
  ℕ, ◌-◌, ◌<◌, ◌≡◌, refl, sym, ap, ◌∙◌, inl, inr, true, false, some, List, [], ◌∷◌, ◌++◌, map,
  arith, length, Bool-cases, subst,
}
use finitomata_rs.Base.Ord.{Ord, same, same_iff}
use finitomata_rs.State.{HistoryEntry, BoundedHistory, back, bump_back, new_history, repeats, push}
use finitomata_rs.State.Runs.{
  drop-nil, back-drop, back-append, take_last, expand, IsRuns, wrap, bumped, snoc_cases,
  expand-append, expand-bumped, IsRuns-bumped, IsRuns-snoc,
}
use finitomata_rs.State.Window.{
  capacity, capacity_cases, map-wrap-append, length-map-wrap_snoc, shown_bumped, room_in,
  shown_appended,
}

-- The history shows the last runs of the visits.
pub record Tracks {S : Type 0} (h : BoundedHistory S) (visits : List S) : Type 0 where
  pub runs : List (HistoryEntry S)
  pub are_runs : IsRuns runs
  pub covers : expand runs ≡ visits
  pub shown : h.entries ≡ take_last (capacity h.max_size) (map wrap runs)

module _ {S : Type 0} ⦃so : Ord S⦄ where
  -- One entry of the history for a visit.
  abbrev first_visit : S → HistoryEntry S
  first_visit state = record { state = state; count = 1 }

  push_repeat :
      (h : BoundedHistory S) (state : S)
      → repeats h.entries state ≡ true
      → push h state ≡ record h { entries = bump_back h.entries }
  unfolding push
  push_repeat h state e = rw e refl

  push_change :
      (h : BoundedHistory S) (state : S)
      → repeats h.entries state ≡ false
      → push h state ≡ record h { entries = room_in h.max_size h.entries ++ first_visit state ∷ [] }
  unfolding push
  push_change h state e = rw e refl

  -- `push` looks at the state of the last run.
  repeats_shown :
      (c : ℕ) (init : List (HistoryEntry S)) (r : HistoryEntry S) (state : S)
      → 0 < c
      → repeats (take_last c (map wrap (init ++ r ∷ []))) state ≡ same r.state state
  unfolding repeats
  repeats_shown c init r state h =
      let es = map wrap (init ++ r ∷ []) in
      let size = length-map-wrap_snoc init r in
      let e : back (take_last c es) ≡ some (wrap r) =
        back-drop (length es - c) es (omega arith)
        ∙ ap back (map-wrap-append init (r ∷ []))
        ∙ back-append (map wrap init) (wrap r) in
      rw (e, repeats) refl

  repeats_none : (c : ℕ) (state : S) → repeats (take_last c []) state ≡ false
  unfolding repeats
  repeats_none c state = rw (drop-nil (0 - c), repeats) refl

  module _ (h : BoundedHistory S) (visits : List S) (state : S) (t : Tracks h visits) where
    cap : 0 < capacity h.max_size
    cap = (capacity_cases h.max_size).0

    track_repeat :
        (init : List (HistoryEntry S)) (r : HistoryEntry S)
        → t.runs ≡ init ++ r ∷ []
        → same r.state state ≡ true
        → Tracks (push h state) (visits ++ state ∷ [])
    track_repeat init r e is_same =
        let shown = t.shown ∙ ap (λ z. take_last (capacity h.max_size) (map wrap z)) e in
        let is_repeat =
          ap (λ z. repeats z state) shown
          ∙ repeats_shown (capacity h.max_size) init r state cap
          ∙ is_same in
        let this : r.state ≡ state = (same_iff r.state state).0 is_same in
        subst (λ x. Tracks x (visits ++ state ∷ [])) (sym (push_repeat h state is_repeat))
          (record {
            runs = init ++ bumped r ∷ [];
            are_runs = IsRuns-bumped init r (subst IsRuns e t.are_runs);
            covers =
                expand-append init (bumped r ∷ [])
                ∙ ap (λ z. expand init ++ z) (expand-bumped r)
                ∙ sym (append_assoc (expand init) (expand (r ∷ [])) (r.state ∷ []))
                ∙ ap (λ z. z ++ r.state ∷ [])
                    (sym (expand-append init (r ∷ [])) ∙ ap expand (sym e) ∙ t.covers)
                ∙ ap (λ z. visits ++ z ∷ []) this;
            shown = ap bump_back shown ∙ shown_bumped (capacity h.max_size) init r cap;
          })

    -- The record of a push that starts a new run, whatever runs stand before it.
    track_new :
        repeats h.entries state ≡ false
        → IsRuns (t.runs ++ first_visit state ∷ [])
        → Tracks (push h state) (visits ++ state ∷ [])
    track_new is_new runs =
        subst (λ x. Tracks x (visits ++ state ∷ [])) (sym (push_change h state is_new))
          (record {
            runs = t.runs ++ first_visit state ∷ [];
            are_runs = runs;
            covers =
                expand-append t.runs (first_visit state ∷ []) ∙ ap (λ z. z ++ state ∷ []) t.covers;
            shown =
                ap (λ z. room_in h.max_size z ++ first_visit state ∷ []) t.shown
                ∙ shown_appended h.max_size (map wrap t.runs) (first_visit state)
                ∙ ap (take_last (capacity h.max_size))
                    (sym (map-wrap-append t.runs (first_visit state ∷ [])));
          })

    -- A visit keeps the history in step with the list of all visits.
    pub push-Tracks : Tracks (push h state) (visits ++ state ∷ [])
    push-Tracks = elim (snoc_cases t.runs) [
      | inl e ↦
          track_new
            (ap (λ z. repeats z state)
                (t.shown ∙ ap (λ z. take_last (capacity h.max_size) (map wrap z)) e)
              ∙ repeats_none (capacity h.max_size) state)
            (rw e (omega arith))
      | inr (init, r, e) ↦ elim (Bool-cases (same r.state state)) [
        | inl is_same ↦ track_repeat init r e is_same
        | inr differs ↦
            let shown = t.shown ∙ ap (λ z. take_last (capacity h.max_size) (map wrap z)) e in
            track_new
              (ap (λ z. repeats z state) shown
                ∙ repeats_shown (capacity h.max_size) init r state cap
                ∙ differs)
              (rw (e, append_assoc init (r ∷ []) (first_visit state ∷ []))
                (IsRuns-snoc init r (first_visit state) (subst IsRuns e t.are_runs)
                  (λ same_state. true≢false (sym ((same_iff r.state state).1 same_state) ∙ differs))
                  (omega arith)))
      ]
    ]

  max_size-push : (h : BoundedHistory S) (v : S) → (push h v).max_size ≡ h.max_size
  unfolding push
  max_size-push h v = ground arith

  -- The history after a row of visits.
  abbrev pub push_all : BoundedHistory S → List S → BoundedHistory S
  push_all h [] = h
  push_all h (v ∷ vs) = push_all (push h v) vs

  push_all-Tracks :
      (h : BoundedHistory S) (before vs : List S)
      → Tracks h before
      → Tracks (push_all h vs) (before ++ vs)
  push_all-Tracks h before [] t = rw append-nil t
  push_all-Tracks h before (v ∷ vs) t =
      rw (← append_assoc before (v ∷ []) vs)
        (push_all-Tracks (push h v) (before ++ v ∷ []) vs (push-Tracks h before v t))

  max_size-push_all : (h : BoundedHistory S) (vs : List S) → (push_all h vs).max_size ≡ h.max_size
  max_size-push_all h [] = refl
  max_size-push_all h (v ∷ vs) = max_size-push_all (push h v) vs ∙ max_size-push h v

  -- After any visits the entries are the last runs of equal visits, in order, with the length of each
  -- run modulo 2 ^ 64; they are `max_size` runs at most, or one where `max_size` is 0.
  pub push_all-new :
      (max_size : ℕ) (visits : List S)
      → (runs : List (HistoryEntry S)) × IsRuns runs
        × (expand runs ≡ visits)
        × ((push_all (new_history max_size) visits).entries
            ≡ take_last (capacity max_size) (map wrap runs))
  unfolding new_history
  push_all-new max_size visits =
      let t =
        push_all-Tracks (new_history max_size) [] visits
          (record { runs = []; are_runs = tt; covers = refl; shown = sym (drop-nil _) }) in
      (
        t.runs,
        t.are_runs,
        t.covers,
        t.shown ∙ ap (λ n. take_last (capacity n) (map wrap t.runs)) (max_size-push_all _ visits),
      )
