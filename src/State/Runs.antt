-- ===== src/State/Runs.antt =====
-- Runs of equal visits, the abstract view of the history of finitomata/src/state.rs: what a list of
-- runs stands for, how a visit changes it, and what of it the last entries show.
use finitomata_rs.Base.{
  ℕ, zero, suc, ◌+◌, ◌-◌, ◌%◌, ◌≤◌, ◌<◌, ◌≡◌, ◌≢◌, refl, sym, ap, ◌∙◌, ◌⊎◌, inl, inr, ⊎_elim, some,
  List, [], ◌∷◌, ◌++◌, map, arith, length,
}
use mathlib.Core.List.{append-nil, append_assoc}
use finitomata_rs.State.{HistoryEntry, back, pop_front, bump_back, usize_mod}

module _ {ℓ} {A : Type ℓ} where
  abbrev pub drop : ℕ → List A → List A
  drop zero xs = xs
  drop (suc n) [] = []
  drop (suc n) (x ∷ xs) = drop n xs

  pub drop-nil : (k : ℕ) → drop k [] ≡ []
  drop-nil zero = refl
  drop-nil (suc k) = refl

  pub pop_front-drop : (k : ℕ) (xs : List A) → pop_front (drop k xs) ≡ drop (suc k) xs
  pop_front-drop zero [] = refl
  pop_front-drop zero (x ∷ xs) = refl
  pop_front-drop (suc k) [] = refl
  pop_front-drop (suc k) (x ∷ xs) = pop_front-drop k xs

  pub drop-append : (k : ℕ) (xs ys : List A) → k ≤ length xs → drop k (xs ++ ys) ≡ drop k xs ++ ys
  drop-append zero xs ys h = refl
  drop-append (suc k) [] ys h = absurd (omega arith)
  drop-append (suc k) (x ∷ xs) ys h = drop-append k xs ys (omega arith)

  pub back-drop : (k : ℕ) (xs : List A) → k < length xs → back (drop k xs) ≡ back xs
  back-drop zero xs h = refl
  back-drop (suc k) [] h = absurd (omega arith)
  back-drop (suc k) (x ∷ []) h = absurd (omega arith)
  back-drop (suc k) (x ∷ y ∷ xs) h = back-drop k (y ∷ xs) (omega arith)

  pub length-drop : (k : ℕ) (xs : List A) → length (drop k xs) ≡ length xs - k
  length-drop zero xs = omega arith
  length-drop (suc k) [] = omega arith
  length-drop (suc k) (x ∷ xs) = omega (arith, length-drop k xs)

  pub back-append : (xs : List A) (a : A) → back (xs ++ a ∷ []) ≡ some a
  back-append [] a = refl
  back-append (x ∷ []) a = refl
  back-append (x ∷ y ∷ xs) a = back-append (y ∷ xs) a

  abbrev pub replicate : ℕ → A → List A
  replicate zero a = []
  replicate (suc n) a = a ∷ replicate n a

  replicate-append : (n : ℕ) (a : A) → replicate n a ++ a ∷ [] ≡ a ∷ replicate n a
  replicate-append zero a = refl
  replicate-append (suc n) a = ap (◌∷◌ a) (replicate-append n a)

-- The last `n` elements.
abbrev pub take_last {ℓ} : {A : Type ℓ} → ℕ → List A → List A
take_last n xs = drop (length xs - n) xs

module _ {S : Type 0} where
  -- The visits that a list of runs stands for.
  abbrev pub expand : List (HistoryEntry S) → List S
  expand [] = []
  expand (r ∷ rs) = replicate r.count r.state ++ expand rs

  -- Neighbours have different states, and every run is of one visit at least.
  abbrev pub IsRuns : List (HistoryEntry S) → Type 0
  IsRuns [] = Unit
  IsRuns (r ∷ []) = 0 < r.count
  IsRuns (r ∷ q ∷ rs) = (0 < r.count) × (r.state ≢ q.state) × IsRuns (q ∷ rs)

  -- A count as the field of 64 bits holds it.
  abbrev pub wrap : HistoryEntry S → HistoryEntry S
  wrap r = record r { count = r.count % usize_mod }

  unfoldable pub bumped : HistoryEntry S → HistoryEntry S
  bumped r = record r { count = suc r.count }

  pub snoc_cases :
      (rs : List (HistoryEntry S))
      → (rs ≡ []) ⊎ ((init : List (HistoryEntry S)) × (r : HistoryEntry S) × (rs ≡ init ++ r ∷ []))
  snoc_cases [] = inl refl
  snoc_cases (r ∷ rs) =
      ⊎_elim (λ e. inr ([], r, ap (◌∷◌ r) e)) (λ w. inr (r ∷ w.0, w.1, ap (◌∷◌ r) w.2))
        (snoc_cases rs)

  pub expand-append : (xs ys : List (HistoryEntry S)) → expand (xs ++ ys) ≡ expand xs ++ expand ys
  expand-append [] ys = refl
  expand-append (r ∷ rs) ys =
      ap (λ z. replicate r.count r.state ++ z) (expand-append rs ys)
      ∙ sym (append_assoc (replicate r.count r.state) (expand rs) (expand ys))

  pub expand-bumped :
      (r : HistoryEntry S) → expand (bumped r ∷ []) ≡ expand (r ∷ []) ++ r.state ∷ []
  unfolding bumped
  expand-bumped r = simp (append-nil, replicate-append)

  pub IsRuns-bumped :
      (init : List (HistoryEntry S)) (r : HistoryEntry S)
      → IsRuns (init ++ r ∷ [])
      → IsRuns (init ++ bumped r ∷ [])
  unfolding bumped
  IsRuns-bumped [] r h = omega arith
  IsRuns-bumped (x ∷ []) r h = (h.0, h.1, omega arith)
  IsRuns-bumped (x ∷ y ∷ init) r h = (h.0, h.1, IsRuns-bumped (y ∷ init) r h.2)

  pub IsRuns-snoc :
      (init : List (HistoryEntry S)) (r q : HistoryEntry S)
      → IsRuns (init ++ r ∷ [])
      → r.state ≢ q.state
      → 0 < q.count
      → IsRuns (init ++ r ∷ q ∷ [])
  IsRuns-snoc [] r q h ne k = (h, ne, k)
  IsRuns-snoc (x ∷ []) r q h ne k = (h.0, h.1, (h.2, ne, k))
  IsRuns-snoc (x ∷ y ∷ init) r q h ne k = (h.0, h.1, IsRuns-snoc (y ∷ init) r q h.2 ne k)

  wrap-bumped : (r : HistoryEntry S) → bump_back (wrap r ∷ []) ≡ wrap (bumped r) ∷ []
  unfolding bumped
  wrap-bumped r =
      let e : (r.count % usize_mod + 1) % usize_mod ≡ suc r.count % usize_mod = omega arith in
      ap (λ n. record r { count = n } ∷ []) e

  pub bump_back-wrap :
      (init : List (HistoryEntry S)) (r : HistoryEntry S)
      → bump_back (map wrap (init ++ r ∷ [])) ≡ map wrap (init ++ bumped r ∷ [])
  bump_back-wrap [] r = wrap-bumped r
  bump_back-wrap (x ∷ []) r = ap (◌∷◌ (wrap x)) (wrap-bumped r)
  bump_back-wrap (x ∷ y ∷ init) r = ap (◌∷◌ (wrap x)) (bump_back-wrap (y ∷ init) r)

  pub drop-bump_back :
      (k : ℕ) (es : List (HistoryEntry S))
      → k < length es
      → drop k (bump_back es) ≡ bump_back (drop k es)
  drop-bump_back zero es h = refl
  drop-bump_back (suc k) [] h = absurd (omega arith)
  drop-bump_back (suc k) (x ∷ []) h = absurd (omega arith)
  drop-bump_back (suc k) (x ∷ y ∷ es) h = drop-bump_back k (y ∷ es) (omega arith)
