-- ===== src/Base/Ord.antt =====
-- Rust's `Ord`, with the laws that its documentation asks of an implementation. `==` is the test
-- that `cmp` answers `Equal`, which the documentation asks of `Eq`.
use Prim.Native.Nat.{ℕ, compare, Ordering}
use Prim.Native.Nat.Ordering.{lt, eq, gt}
use mathlib.Core.Path.{◌≡◌, refl}
use mathlib.Core.Logic.{◌↔◌}
use mathlib.Core.Bool.{Bool, true, false}
use mathlib.Core.List.{List, [], ◌∷◌}
use native.Mathlib.Omega.{arith}

pub record Ord {ℓ} (A : Type ℓ) : Type ℓ where
  pub cmp : A → A → Ordering
  pub cmp_refl : (a : A) → cmp a a ≡ eq
  pub eq_of_cmp : (a b : A) → cmp a b ≡ eq → a ≡ b
  pub lt_of_gt : (a b : A) → cmp a b ≡ gt → cmp b a ≡ lt
  pub lt_trans : (a b c : A) → cmp a b ≡ lt → cmp b c ≡ lt → cmp a c ≡ lt

abbrev pub is_eq : Ordering → Bool
is_eq eq = true
is_eq _ = false

module _ {ℓ} {A : Type ℓ} ⦃o : Ord A⦄ where
  -- `a == b`
  unfoldable pub same : A → A → Bool
  same a b = is_eq (o.cmp a b)

  pub same_iff : (a b : A) → (same a b ≡ true) ↔ (a ≡ b)
  unfolding same
  same_iff a b = (λ h. o.eq_of_cmp a b (ground arith), λ e. rw e (rw (o.cmp_refl b) refl))

  pub same_refl : (a : A) → same a a ≡ true
  same_refl a = (same_iff a a).1 refl

pub compare_refl : (a : ℕ) → compare a a ≡ eq
compare_refl a = ground arith

pub eq_of_compare : (a b : ℕ) → compare a b ≡ eq → a ≡ b
eq_of_compare a b h = ground arith

pub lt_of_compare : (a b : ℕ) → compare a b ≡ gt → compare b a ≡ lt
lt_of_compare a b h = ground arith

pub compare_trans : (a b c : ℕ) → compare a b ≡ lt → compare b c ≡ lt → compare a c ≡ lt
compare_trans a b c h k = ground arith

instance abbrev pub nat_ord : Ord ℕ
nat_ord = record {
  cmp = compare;
  cmp_refl = compare_refl;
  eq_of_cmp = eq_of_compare;
  lt_of_gt = lt_of_compare;
  lt_trans = compare_trans;
}

abbrev pub then : Ordering → Ordering → Ordering
then eq second = second
then first _ = first

module _ {ℓ} {A : Type ℓ} ⦃o : Ord A⦄ where
  -- Slices and texts compare lexicographically.
  unfoldable pub list_cmp : List A → List A → Ordering
  list_cmp [] [] = eq
  list_cmp [] (y ∷ ys) = lt
  list_cmp (x ∷ xs) [] = gt
  list_cmp (x ∷ xs) (y ∷ ys) = then (o.cmp x y) (list_cmp xs ys)

  pub list_cmp_refl : (xs : List A) → list_cmp xs xs ≡ eq
  unfolding list_cmp
  list_cmp_refl [] = refl
  list_cmp_refl (x ∷ xs) = rw (o.cmp_refl x) (list_cmp_refl xs)

  pub eq_of_list_cmp : (xs ys : List A) → list_cmp xs ys ≡ eq → xs ≡ ys
  unfolding list_cmp
  eq_of_list_cmp [] [] h = refl
  eq_of_list_cmp [] (y ∷ ys) h = cc
  eq_of_list_cmp (x ∷ xs) [] h = cc
  eq_of_list_cmp (x ∷ xs) (y ∷ ys) h = ground (arith, o.eq_of_cmp x y, eq_of_list_cmp xs ys)

  pub lt_of_list_cmp : (xs ys : List A) → list_cmp xs ys ≡ gt → list_cmp ys xs ≡ lt
  unfolding list_cmp
  lt_of_list_cmp [] [] h = cc
  lt_of_list_cmp [] (y ∷ ys) h = cc
  lt_of_list_cmp (x ∷ xs) [] h = refl
  lt_of_list_cmp (x ∷ xs) (y ∷ ys) h =
      ground (arith, o.eq_of_cmp x y, o.cmp_refl y, o.lt_of_gt x y, lt_of_list_cmp xs ys)

  pub list_cmp_trans :
      (xs ys zs : List A) → list_cmp xs ys ≡ lt → list_cmp ys zs ≡ lt → list_cmp xs zs ≡ lt
  unfolding list_cmp
  list_cmp_trans [] [] zs h k = cc
  list_cmp_trans [] (y ∷ ys) [] h k = cc
  list_cmp_trans [] (y ∷ ys) (z ∷ zs) h k = refl
  list_cmp_trans (x ∷ xs) [] zs h k = cc
  list_cmp_trans (x ∷ xs) (y ∷ ys) [] h k = cc
  list_cmp_trans (x ∷ xs) (y ∷ ys) (z ∷ zs) h k =
      ground (arith, o.eq_of_cmp x y, o.eq_of_cmp y z, o.lt_trans x y z, list_cmp_trans xs ys zs)

  instance abbrev pub list_ord : Ord (List A)
  list_ord = record {
    cmp = list_cmp;
    cmp_refl = list_cmp_refl;
    eq_of_cmp = eq_of_list_cmp;
    lt_of_gt = lt_of_list_cmp;
    lt_trans = list_cmp_trans;
  }

-- Tuples of two compare by the first and then by the second.
module _ {A B : Type 0} ⦃ao : Ord A⦄ ⦃bo : Ord B⦄ where
  unfoldable pub pair_cmp : A × B → A × B → Ordering
  pair_cmp (a, b) (c, d) = then (ao.cmp a c) (bo.cmp b d)

  pub pair_cmp_refl : (p : A × B) → pair_cmp p p ≡ eq
  unfolding pair_cmp
  pair_cmp_refl (a, b) = rw (ao.cmp_refl a) (bo.cmp_refl b)

  pub eq_of_pair_cmp : (p q : A × B) → pair_cmp p q ≡ eq → p ≡ q
  unfolding pair_cmp
  eq_of_pair_cmp (a, b) (c, d) h = ground (arith, ao.eq_of_cmp a c, bo.eq_of_cmp b d)

  pub lt_of_pair_cmp : (p q : A × B) → pair_cmp p q ≡ gt → pair_cmp q p ≡ lt
  unfolding pair_cmp
  lt_of_pair_cmp (a, b) (c, d) h =
      ground (arith, ao.eq_of_cmp a c, ao.cmp_refl c, ao.lt_of_gt a c, bo.lt_of_gt b d)

  pub pair_cmp_trans : (p q r : A × B) → pair_cmp p q ≡ lt → pair_cmp q r ≡ lt → pair_cmp p r ≡ lt
  unfolding pair_cmp
  pair_cmp_trans (a, b) (c, d) (e, f) h k =
      ground (arith, ao.eq_of_cmp a c, ao.eq_of_cmp c e, ao.lt_trans a c e, bo.lt_trans b d f)

  instance abbrev pub pair_ord : Ord (A × B)
  pair_ord = record {
    cmp = pair_cmp;
    cmp_refl = pair_cmp_refl;
    eq_of_cmp = eq_of_pair_cmp;
    lt_of_gt = lt_of_pair_cmp;
    lt_trans = pair_cmp_trans;
  }
