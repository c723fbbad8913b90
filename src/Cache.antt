-- ===== src/Cache.antt =====
-- The state cache (finitomata/src/cache.rs), over the `DashMap` that it keeps.
use mathlib.Core.Option
use finitomata_rs.Base.{ℕ, ◌≡◌, Bool, Option, some, List, arith, if◌then◌else◌}
use finitomata_rs.Base.Ord.{same, same_refl, nat_ord, list_ord}
use finitomata_rs.Base.Text.{Text}
use finitomata_rs.DashMap.{DashMap, IsLawful}
use finitomata_rs.State.{FsmState}

module _ {M S P : Type 0} (dash : DashMap M Text (FsmState S P)) where
  unfoldable pub new_cache : M
  new_cache = dash.new

  unfoldable pub get : M → Text → Option (FsmState S P)
  get cache name = dash.get cache name

  unfoldable pub get_state : M → Text → Option S
  get_state cache name = Option.map (λ s. s.current) (dash.get cache name)

  unfoldable pub get_payload : M → Text → Option P
  get_payload cache name = Option.map (λ s. s.payload) (dash.get cache name)

  unfoldable pub update : M → FsmState S P → M
  update cache state = dash.insert cache state.name state

  unfoldable pub remove : M → Text → M
  remove cache name = (dash.remove cache name).0

  unfoldable pub contains : M → Text → Bool
  contains cache name = dash.contains_key cache name

  unfoldable pub all : M → List (Text × FsmState S P)
  all cache = dash.iter cache

  unfoldable pub len : M → ℕ
  len cache = dash.len cache

  unfoldable pub is_empty : M → Bool
  is_empty cache = dash.is_empty cache

  module _ (laws : IsLawful dash) where
    pub get-update :
        (cache : M) (state : FsmState S P) (name : Text)
        → get (update cache state) name
          ≡ (if same state.name name then some state else get cache name)
    unfolding get update
    get-update cache state name = laws.get-insert cache state.name name state

    pub get-update_self :
        (cache : M) (state : FsmState S P) → get (update cache state) state.name ≡ some state
    get-update_self cache state =
        ground (arith, get-update cache state state.name, same_refl state.name)
