-- ===== src/State/Window.antt =====
-- The window of the last entries of the history (finitomata/src/state.rs), and how it moves: what the
-- two branches of `push` make of it.
use finitomata_rs.Base.{
  ℕ, zero, suc, ◌+◌, ◌-◌, ◌≤◌, ◌<◌, ◌≡◌, refl, sym, ap, ◌∙◌, ◌⊎◌, inl, inr, List, [], ◌∷◌, ◌++◌,
  map, arith, length, leb, length-append, Bool-cases, if◌then◌else◌, leb→le, lt_of_leb-false,
}
use finitomata_rs.State.{HistoryEntry, pop_front, bump_back}
use finitomata_rs.State.Runs.{
  drop, pop_front-drop, drop-append, length-drop, take_last, wrap, bumped, bump_back-wrap,
  drop-bump_back,
}

-- The entries that a history holds at most. A `max_size` of 0 still leaves room for one.
abbrev pub capacity : ℕ → ℕ
capacity zero = 1
capacity (suc n) = suc n

pub capacity_cases : (n : ℕ) → (0 < capacity n) × ((n ≡ 0) × (capacity n ≡ 1) ⊎ (capacity n ≡ n))
capacity_cases zero = (omega arith, inl (refl, refl))
capacity_cases (suc n) = (omega arith, inr refl)

pub length-map-wrap : {S : Type 0} (rs : List (HistoryEntry S)) → length (map wrap rs) ≡ length rs
length-map-wrap [] = refl
length-map-wrap (r ∷ rs) = ap suc (length-map-wrap rs)

module _ {S : Type 0} where
  pub map-wrap-append :
      (xs ys : List (HistoryEntry S)) → map wrap (xs ++ ys) ≡ map wrap xs ++ map wrap ys
  map-wrap-append [] ys = refl
  map-wrap-append (x ∷ xs) ys = ap (◌∷◌ (wrap x)) (map-wrap-append xs ys)

  pub length-map-wrap_snoc :
      (init : List (HistoryEntry S)) (r : HistoryEntry S)
      → length (map wrap (init ++ r ∷ [])) ≡ suc (length init)
  length-map-wrap_snoc init r =
      omega (arith, length-map-wrap (init ++ r ∷ []), length-append init (r ∷ []))

  -- Where the last run is of this state, its count grows.
  pub shown_bumped :
      (c : ℕ) (init : List (HistoryEntry S)) (r : HistoryEntry S)
      → 0 < c
      → bump_back (take_last c (map wrap (init ++ r ∷ [])))
        ≡ take_last c (map wrap (init ++ bumped r ∷ []))
  shown_bumped c init r h =
      let es = map wrap (init ++ r ∷ []) in
      let es' = map wrap (init ++ bumped r ∷ []) in
      let size = length-map-wrap_snoc init r in
      let size' = length-map-wrap_snoc init (bumped r) in
      let same_size : length es ≡ length es' = omega arith in
      sym (drop-bump_back (length es - c) es (omega arith))
      ∙ ap (drop (length es - c)) (bump_back-wrap init r)
      ∙ ap (λ k. drop (k - c) es') same_size

  evict :
      (c : ℕ) (ws : List (HistoryEntry S)) (w : HistoryEntry S)
      → 0 < c
      → c ≤ length ws
      → pop_front (take_last c ws) ++ w ∷ [] ≡ take_last c (ws ++ w ∷ [])
  evict c ws w pos full =
      let k = length ws - c in
      let k' : suc k ≡ length (ws ++ w ∷ []) - c = omega (arith, length-append ws (w ∷ [])) in
      ap (λ z. z ++ w ∷ []) (pop_front-drop k ws)
      ∙ sym (drop-append (suc k) ws (w ∷ []) (omega arith))
      ∙ ap (λ z. drop z (ws ++ w ∷ [])) k'

  stay :
      (c : ℕ) (ws : List (HistoryEntry S)) (w : HistoryEntry S)
      → length ws < c
      → take_last c ws ++ w ∷ [] ≡ take_last c (ws ++ w ∷ [])
  stay c ws w room =
      let k' : length ws - c ≡ length (ws ++ w ∷ []) - c =
        omega (arith, length-append ws (w ∷ [])) in
      sym (drop-append (length ws - c) ws (w ∷ []) (omega arith))
      ∙ ap (λ z. drop z (ws ++ w ∷ [])) k'

  -- The entries that `append_entry` keeps.
  abbrev pub room_in : ℕ → List (HistoryEntry S) → List (HistoryEntry S)
  room_in n es = if leb n (length es) then pop_front es else es

  appended_some :
      (n : ℕ) (ws : List (HistoryEntry S)) (w : HistoryEntry S)
      → 0 < n + length ws
      → room_in n (take_last (capacity n) ws) ++ w ∷ [] ≡ take_last (capacity n) (ws ++ w ∷ [])
  appended_some n ws w some_room =
      let c = capacity_cases n in
      let size = length-drop (length ws - capacity n) ws in
      elim (Bool-cases (leb n (length (take_last (capacity n) ws)))) [
        | inl full ↦
            let le = leb→le n (length (take_last (capacity n) ws)) full in
            rw full (evict (capacity n) ws w c.0 (omega arith))
        | inr room ↦
            let gt = lt_of_leb-false n (length (take_last (capacity n) ws)) room in
            rw room (stay (capacity n) ws w (omega arith))
      ]

  -- Where it is not, a new run follows, and the oldest entry leaves if there is no room.
  pub shown_appended :
      (n : ℕ) (ws : List (HistoryEntry S)) (w : HistoryEntry S)
      → room_in n (take_last (capacity n) ws) ++ w ∷ [] ≡ take_last (capacity n) (ws ++ w ∷ [])
  shown_appended zero [] w = refl
  shown_appended (suc n) [] w = appended_some (suc n) [] w (omega arith)
  shown_appended n (v ∷ vs) w = appended_some n (v ∷ vs) w (omega arith)
