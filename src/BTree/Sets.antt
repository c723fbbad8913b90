-- ===== src/BTree/Sets.antt =====
-- `BTreeSet`: the elements in ascending order, with the operations that the program calls.
use Prim.Native.Nat.Ordering.{lt, eq, gt}
use mathlib.Core.List.Memᴰ
use finitomata_rs.Base.{
  ◌≡◌, ◌↔◌, ◌⊎◌, Bool, true, false, ◌||◌, List, [], ◌∷◌, Memᴰ, arith, Memᴰ-cons,
}
use finitomata_rs.Base.Ord.{Ord, same, same_iff}

abbrev pub BTreeSet {ℓ} : Type ℓ → Type ℓ
BTreeSet A = List A

module _ {ℓ} {A : Type ℓ} ⦃o : Ord A⦄ where
  unfoldable pub contains : BTreeSet A → A → Bool
  contains [] a = false
  contains (x ∷ xs) a = same x a || contains xs a

  -- The set, with `a` at its place. An equal element that is there stays.
  unfoldable pub insert : BTreeSet A → A → BTreeSet A
  insert [] a = a ∷ []
  insert (x ∷ xs) a = elim (o.cmp a x) [ lt ↦ a ∷ x ∷ xs | eq ↦ x ∷ xs | gt ↦ x ∷ insert xs a ]

  pub contains_iff : (s : BTreeSet A) (a : A) → (contains s a ≡ true) ↔ Memᴰ a s
  unfolding contains
  contains_iff [] a = (λ h. cc, λ m. absurd (Memᴰ.not-nil m))
  contains_iff (x ∷ xs) a = ground (arith, same_iff x a, contains_iff xs a, Memᴰ-cons a x xs)

  pub mem-insert : (s : BTreeSet A) (a b : A) → Memᴰ b (insert s a) ↔ ((b ≡ a) ⊎ Memᴰ b s)
  unfolding insert
  mem-insert [] a b = Memᴰ-cons b a []
  mem-insert (x ∷ xs) a b = ground (
    arith,
    o.eq_of_cmp a x,
    mem-insert xs a b,
    Memᴰ-cons b x xs,
    Memᴰ-cons b a (x ∷ xs),
    Memᴰ-cons b x (insert xs a),
  )

  pub contains-insert :
      (s : BTreeSet A) (a b : A)
      → (contains (insert s a) b ≡ true) ↔ ((b ≡ a) ⊎ (contains s b ≡ true))
  contains-insert s a b =
      ground (arith, contains_iff (insert s a) b, contains_iff s b, mem-insert s a b)

  -- Every element of the list is above `a`.
  abbrev pub IsAbove : A → BTreeSet A → Type 0
  IsAbove a [] = Unit
  IsAbove a (x ∷ xs) = (o.cmp a x ≡ lt) × IsAbove a xs

  abbrev pub IsSorted : BTreeSet A → Type 0
  IsSorted [] = Unit
  IsSorted (x ∷ xs) = IsAbove x xs × IsSorted xs

  IsAbove-trans : (a b : A) (s : BTreeSet A) → o.cmp a b ≡ lt → IsAbove b s → IsAbove a s
  IsAbove-trans a b [] h k = tt
  IsAbove-trans a b (x ∷ xs) h k = (o.lt_trans a b x h k.0, IsAbove-trans a b xs h k.1)

  IsAbove-insert :
      (a b : A) (s : BTreeSet A) → o.cmp a b ≡ lt → IsAbove a s → IsAbove a (insert s b)
  unfolding insert
  IsAbove-insert a b [] h k = (h, tt)
  IsAbove-insert a b (x ∷ xs) h k = ground (arith, IsAbove-insert a b xs h k.1)

  pub insert-IsSorted : (s : BTreeSet A) (a : A) → IsSorted s → IsSorted (insert s a)
  unfolding insert
  insert-IsSorted [] a h = (tt, tt)
  insert-IsSorted (x ∷ xs) a h =
      ground (
        arith,
        o.lt_of_gt a x,
        IsAbove-trans a x xs,
        IsAbove-insert x a xs,
        insert-IsSorted xs a h.1,
      )

  lt_of_IsAbove : (a b : A) (s : BTreeSet A) → IsAbove a s → Memᴰ b s → o.cmp a b ≡ lt
  lt_of_IsAbove a b [] h m = absurd (Memᴰ.not-nil m)
  lt_of_IsAbove a b (x ∷ xs) h m = ground (arith, Memᴰ.cases_cons m, lt_of_IsAbove a b xs h.1)
