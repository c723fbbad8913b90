-- ===== src/DashMap.antt =====
-- The concurrent map of the crate `dashmap`, which the cache and the in-memory backend keep: its
-- operations, and the laws that its documentation states of them. It is a parameter of the
-- development; the crate's code is not part of this repository.
use finitomata_rs.Base.{ℕ, ◌≡◌, Bool, Option, none, some, List, is_some, if◌then◌else◌}
use finitomata_rs.Base.Ord.{Ord, same}

pub record DashMap (M K V : Type 0) : Type 0 where
  pub new : M
  pub get : M → K → Option V
  pub insert : M → K → V → M
  pub remove : M → K → M × Option (K × V)
  pub contains_key : M → K → Bool
  pub len : M → ℕ
  pub is_empty : M → Bool
  pub iter : M → List (K × V)

pub record IsLawful {M K V : Type 0} ⦃ko : Ord K⦄ (d : DashMap M K V) : Type 0 where
  pub get-new : (k : K) → d.get d.new k ≡ none
  pub get-insert :
      (m : M) (k j : K) (v : V)
      → d.get (d.insert m k v) j ≡ (if same k j then some v else d.get m j)
  pub get-remove :
      (m : M) (k j : K) → d.get (d.remove m k).0 j ≡ (if same k j then none else d.get m j)
  pub removed :
      (m : M) (k : K) → (d.remove m k).1 ≡ elim (d.get m k) [ none ↦ none | some v ↦ some (k, v) ]
  pub contains_key_lem : (m : M) (k : K) → d.contains_key m k ≡ is_some (d.get m k)
