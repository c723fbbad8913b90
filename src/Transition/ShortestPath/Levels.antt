-- ===== src/Transition/ShortestPath/Levels.antt =====
-- The order of the queue of `shortest_path` (finitomata/src/transition.rs): paths of one length come
-- first, and then paths that are longer by one.
use mathlib.Core.List.Memᴰ
use finitomata_rs.Base.{
  ℕ, suc, ◌≡◌, refl, ap, ◌∙◌, ◌⊎◌, inl, inr, ⊎_elim, List, [], ◌∷◌, ◌++◌, Memᴰ, length,
}
use finitomata_rs.Transition.{PathSteps}

module _ {S E : Type 0} where
  -- Every path has the length `n`.
  abbrev pub AllAt : ℕ → List (S × PathSteps S E) → Type 0
  AllAt n [] = Unit
  AllAt n ((v, q) ∷ r) = (length q ≡ n) × AllAt n r

  abbrev pub Levels : ℕ → List (S × PathSteps S E) → Type 0
  Levels d [] = Unit
  Levels d ((v, q) ∷ r) = ((length q ≡ d) × Levels d r) ⊎ AllAt (suc d) ((v, q) ∷ r)

  AllAt-append :
      (n : ℕ) (r fresh : List (S × PathSteps S E))
      → AllAt n r
      → AllAt n fresh
      → AllAt n (r ++ fresh)
  AllAt-append n [] fresh h k = k
  AllAt-append n ((v, q) ∷ r) fresh h k = (h.0, AllAt-append n r fresh h.1 k)

  pub AllAt-of_mem :
      (n : ℕ) (r : List (S × PathSteps S E))
      → ((v : S) (q : PathSteps S E) → Memᴰ (v, q) r → length q ≡ n)
      → AllAt n r
  AllAt-of_mem n [] h = tt
  AllAt-of_mem n ((v, q) ∷ r) h =
      (h v q (Memᴰ.head refl), AllAt-of_mem n r (λ w p m. h w p (Memᴰ.tail m)))

  pub length_of_AllAt :
      (n : ℕ) (r : List (S × PathSteps S E)) (v : S) (q : PathSteps S E)
      → AllAt n r
      → Memᴰ (v, q) r
      → length q ≡ n
  length_of_AllAt n [] v q h m = absurd (Memᴰ.not-nil m)
  length_of_AllAt n ((w, p) ∷ r) v q h m =
      ⊎_elim (λ e. ap (λ x. length x.1) e ∙ h.0) (λ k. length_of_AllAt n r v q h.1 k)
        (Memᴰ.cases_cons m)

  pub Levels_of_AllAt : (d : ℕ) (r : List (S × PathSteps S E)) → AllAt d r → Levels d r
  Levels_of_AllAt d [] h = tt
  Levels_of_AllAt d ((v, q) ∷ r) h = inl (h.0, Levels_of_AllAt d r h.1)

  Levels_of_next : (d : ℕ) (r : List (S × PathSteps S E)) → AllAt (suc d) r → Levels d r
  Levels_of_next d [] h = tt
  Levels_of_next d ((v, q) ∷ r) h = inr h

  pub Levels-append :
      (d : ℕ) (r fresh : List (S × PathSteps S E))
      → Levels d r
      → AllAt (suc d) fresh
      → Levels d (r ++ fresh)
  Levels-append d [] fresh h k = Levels_of_next d fresh k
  Levels-append d ((v, q) ∷ r) fresh h k =
      ⊎_elim (λ x. inl (x.0, Levels-append d r fresh x.1 k))
        (λ x. inr (x.0, AllAt-append (suc d) r fresh x.1 k)) h
