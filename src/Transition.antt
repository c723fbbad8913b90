-- ===== src/Transition.antt =====
-- The transition graph (finitomata/src/transition.rs): the types, the lookups and the two searches.
-- `TransitionGraph`'s fields are private in Rust, so each graph of the program comes from `new`.
pub mod Index
pub mod Reachable
pub mod ShortestPath
pub mod Validate
pub mod Walks
use finitomata_rs.Base.{
  ℕ, suc, ◌+◌, Bool, true, false, Option, none, some, List, [], ◌∷◌, ◌++◌, map, get_elem?, length,
  is_some,
}
use finitomata_rs.Base.Ord.{Ord, same}
use finitomata_rs.BTree.Sets
use finitomata_rs.BTree.Sets.{BTreeSet}
use finitomata_rs.BTree.Maps
use finitomata_rs.BTree.Maps.{BTreeMap}

pub data EventKind : Type 0 where
  normal hard soft : EventKind

-- The derived `==` at the two kinds that the program compares with.
abbrev pub is_hard : EventKind → Bool
is_hard hard = true
is_hard _ = false

abbrev pub is_soft : EventKind → Bool
is_soft soft = true
is_soft _ = false

pub record Transition (S E : Type 0) : Type 0 where
  pub from : S
  pub to : List S
  pub event : E
  pub kind : EventKind

pub record TransitionGraph (S E : Type 0) : Type 0 where
  pub initial : S
  pub finals : BTreeSet S
  pub transitions : List (Transition S E)
  pub index : BTreeMap S (List ℕ)

-- The steps of a path: each event, with the state that it leads to.
abbrev pub PathSteps : Type 0 → Type 0 → Type 0
PathSteps S E = List (E × S)

module _ {S : Type 0} ⦃so : Ord S⦄ where
  insert_all : BTreeSet S → List S → BTreeSet S
  insert_all states [] = states
  insert_all states (s ∷ ss) = insert_all (Sets.insert states s) ss

-- `self.transitions[i]` for each index. An index out of bounds would panic; `Index.rows_lem` shows
-- that a graph of `new` has none, so the case `none` never arises.
pick : {S E : Type 0} → List (Transition S E) → List ℕ → List (Transition S E)
pick ts [] = []
pick ts (i ∷ is) = elim (get_elem? ts i) [ none ↦ pick ts is | some t ↦ t ∷ pick ts is ]

module _ {S E : Type 0} ⦃so : Ord S⦄ where
  -- The loop of `new`: `i` is the counter of `enumerate`.
  index_from : ℕ → BTreeMap S (List ℕ) → List (Transition S E) → BTreeMap S (List ℕ)
  index_from i index [] = index
  index_from i index (t ∷ ts) =
      index_from (suc i) (Maps.alter index t.from [] (λ is. is ++ i ∷ [])) ts

  unfoldable pub new : S → BTreeSet S → List (Transition S E) → TransitionGraph S E
  unfolding index_from
  new initial finals transitions = record {
    initial = initial;
    finals = finals;
    transitions = transitions;
    index = index_from 0 [] transitions;
  }

  unfoldable pub is_final : TransitionGraph S E → S → Bool
  is_final g state = Sets.contains g.finals state

  -- `self.index.get(state)`, with the transitions that the indices stand for.
  unfoldable pub rows : TransitionGraph S E → S → List (Transition S E)
  unfolding pick
  rows g state = elim (Maps.get g.index state) [ none ↦ [] | some is ↦ pick g.transitions is ]

  unfoldable pub events_for : TransitionGraph S E → S → List (E × EventKind)
  events_for g state = map (λ t. (t.event, t.kind)) (rows g state)

  -- The last loop of `all_states`.
  insert_ends : BTreeSet S → List (Transition S E) → BTreeSet S
  insert_ends states [] = states
  insert_ends states (t ∷ ts) = insert_ends (insert_all (Sets.insert states t.from) t.to) ts

  unfoldable pub all_states : TransitionGraph S E → BTreeSet S
  unfolding insert_all insert_ends
  all_states g = insert_ends (insert_all (Sets.insert [] g.initial) g.finals) g.transitions

-- The number of targets that the graph lists: the searches pop one more entry at most.
unfoldable pub target_count : {S E : Type 0} → List (Transition S E) → ℕ
target_count [] = 0
target_count (t ∷ ts) = length t.to + target_count ts

module _ {S E : Type 0} ⦃eo : Ord E⦄ where
  -- The `find_map` of `allowed`.
  first_row : E → List (Transition S E) → Option (List S × EventKind)
  first_row event [] = none
  first_row event (t ∷ ts) = elim (same t.event event) [
    | true ↦ some (t.to, t.kind)
    | false ↦ first_row event ts
  ]

  collect_events : BTreeSet E → List (Transition S E) → BTreeSet E
  collect_events events [] = events
  collect_events events (t ∷ ts) = collect_events (Sets.insert events t.event) ts

  unfoldable pub all_events : TransitionGraph S E → BTreeSet E
  unfolding collect_events
  all_events g = collect_events [] g.transitions

module _ {S E : Type 0} ⦃so : Ord S⦄ ⦃eo : Ord E⦄ where
  unfoldable pub allowed : TransitionGraph S E → S → E → Option (List S × EventKind)
  unfolding first_row
  allowed g from event = first_row event (rows g from)

  unfoldable pub responds : TransitionGraph S E → S → E → Bool
  responds g state event = is_some (allowed g state event)
