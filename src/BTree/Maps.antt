-- ===== src/BTree/Maps.antt =====
-- `BTreeMap`: the entries in ascending order of their keys, with the operations that the program
-- calls.
use Prim.Native.Nat.Ordering.{lt, eq, gt}
use finitomata_rs.Base.{
  ◌≡◌, refl, Option, none, some, List, [], ◌∷◌, arith, if◌then◌else◌, unwrap_or,
}
use finitomata_rs.Base.Ord.{Ord, same, same_iff}

abbrev pub BTreeMap {ℓ κ} : Type ℓ → Type κ → Type (ℓ ⊔ κ)
BTreeMap K V = List (K × V)

module _ {ℓ κ} {K : Type ℓ} {V : Type κ} ⦃o : Ord K⦄ where
  unfoldable pub get : BTreeMap K V → K → Option V
  get [] k = none
  get ((j, v) ∷ m) k = if same j k then some v else get m k

  -- `*m.entry(k).or_insert(d) = f(…)`: a missing key gets the default at its place, and then the
  -- value is changed by `f`.
  unfoldable pub alter : BTreeMap K V → K → V → (V → V) → BTreeMap K V
  alter [] k d f = (k, f d) ∷ []
  alter ((j, v) ∷ m) k d f = elim (o.cmp k j) [
    | lt ↦ (k, f d) ∷ (j, v) ∷ m
    | eq ↦ (j, f v) ∷ m
    | gt ↦ (j, v) ∷ alter m k d f
  ]

  abbrev pub IsAbove : K → BTreeMap K V → Type 0
  IsAbove k [] = Unit
  IsAbove k ((j, v) ∷ m) = (o.cmp k j ≡ lt) × IsAbove k m

  abbrev pub IsSorted : BTreeMap K V → Type 0
  IsSorted [] = Unit
  IsSorted ((j, v) ∷ m) = IsAbove j m × IsSorted m

  IsAbove-trans : (a b : K) (m : BTreeMap K V) → o.cmp a b ≡ lt → IsAbove b m → IsAbove a m
  IsAbove-trans a b [] h k = tt
  IsAbove-trans a b ((j, v) ∷ m) h k = (o.lt_trans a b j h k.0, IsAbove-trans a b m h k.1)

  IsAbove-alter :
      (a k : K) (m : BTreeMap K V) (d : V) (f : V → V)
      → o.cmp a k ≡ lt
      → IsAbove a m
      → IsAbove a (alter m k d f)
  unfolding alter
  IsAbove-alter a k [] d f h above = (h, tt)
  IsAbove-alter a k ((j, v) ∷ m) d f h above = ground (arith, IsAbove-alter a k m d f h above.1)

  pub alter-IsSorted :
      (m : BTreeMap K V) (k : K) (d : V) (f : V → V) → IsSorted m → IsSorted (alter m k d f)
  unfolding alter
  alter-IsSorted [] k d f h = (tt, tt)
  alter-IsSorted ((j, v) ∷ m) k d f h = ground (
    arith,
    o.lt_of_gt k j,
    IsAbove-trans k j m,
    IsAbove-alter j k m d f,
    alter-IsSorted m k d f h.1,
  )

  get_above : (m : BTreeMap K V) (k : K) → IsAbove k m → get m k ≡ none
  unfolding get
  get_above [] k h = refl
  get_above ((j, v) ∷ m) k h = ground (arith, same_iff j k, o.cmp_refl k, get_above m k h.1)

  pub get-alter :
      (m : BTreeMap K V) (k q : K) (d : V) (f : V → V)
      → IsSorted m
      → get (alter m k d f) q ≡ (if same k q then some (f (unwrap_or (get m k) d)) else get m q)
  unfolding alter get
  get-alter [] k q d f h = refl
  get-alter ((j, v) ∷ m) k q d f h = ground (
    arith,
    same_iff j q,
    same_iff k q,
    same_iff j k,
    o.cmp_refl k,
    o.eq_of_cmp k j,
    get_above m k,
    IsAbove-trans k j m,
    get-alter m k q d f h.1,
  )
