-- ===== src/Tests/Dash.antt =====
-- An association list with one entry to a key, as the map that the cache is given.
use finitomata_rs.Base.{
  ◌≡◌, refl, Option, none, some, List, [], ◌∷◌, length, is_some, is_empty, arith, if◌then◌else◌,
}
use finitomata_rs.Base.Ord.{Ord, same, same_iff}
use finitomata_rs.DashMap.{DashMap, IsLawful}

module _ {K V : Type 0} ⦃ko : Ord K⦄ where
  abbrev lookup : List (K × V) → K → Option V
  lookup [] k = none
  lookup ((j, v) ∷ m) k = if same j k then some v else lookup m k

  abbrev without : List (K × V) → K → List (K × V)
  without [] k = []
  without ((j, v) ∷ m) k = let rest = without m k in if same j k then rest else (j, v) ∷ rest

  abbrev taken : Option V → K → Option (K × V)
  taken none k = none
  taken (some v) k = some (k, v)

  abbrev pub assoc : DashMap (List (K × V)) K V
  assoc = record {
    new = [];
    get = lookup;
    insert = λ m k v. (k, v) ∷ without m k;
    remove = λ m k. (without m k, taken (lookup m k) k);
    contains_key = λ m k. is_some (lookup m k);
    len = length;
    is_empty = is_empty;
    iter = λ m. m;
  }

  lookup-without :
      (m : List (K × V)) (k j : K)
      → lookup (without m k) j ≡ (if same k j then none else lookup m j)
  lookup-without [] k j = ground arith
  lookup-without ((i, v) ∷ m) k j =
      ground (arith, lookup-without m k j, same_iff i k, same_iff i j, same_iff k j)

  removed-lookup :
      (o : Option V) (k : K)
      → taken o k ≡ elim o as (λ _. Option (K × V)) [ none ↦ none | some v ↦ some (k, v) ]
  removed-lookup none k = refl
  removed-lookup (some v) k = refl

  pub assoc-IsLawful : IsLawful assoc
  assoc-IsLawful = record {
    get-new = λ k. refl;
    get-insert = λ m k j v. ground (arith, lookup-without m k j);
    get-remove = lookup-without;
    removed = λ m k. removed-lookup (lookup m k) k;
    contains_key_lem = λ m k. refl;
  }
