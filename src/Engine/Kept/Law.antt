-- ===== src/Engine/Kept/Law.antt =====
-- What the callbacks have to keep, and what the backend has to answer, for an invariant of the user's data
-- to hold (finitomata/src/callbacks.rs, as finitomata/src/engine.rs calls it).
use finitomata_rs.Base.{some_inj, ◌≡◌, subst, Option, none, some, List, any, ok, if◌then◌else◌}
use finitomata_rs.Base.Ord.{Ord, same}
use finitomata_rs.Base.Text.{Text}
use finitomata_rs.Callbacks.{TransitionResult, Finitomata}
use finitomata_rs.Error.{FinitomataError}
use finitomata_rs.Persistency.{Persistency}
use finitomata_rs.Transition.{EventKind, TransitionGraph, allowed}

-- The backend, if there is one, takes every write.
abbrev pub Accepts : {D S P : Type 0} → Option (Persistency D S P) → Type 0
Accepts none = Unit {0}
Accepts {D} {S} {P} (some backend) =
    (store : D) (name : Text) (target : S) (payload : P)
    → (backend.store store name target payload).1 ≡ ok tt

module _ {F S P : Type 0} ⦃so : Ord S⦄ where
  -- What `on_transition` has to leave: the invariant of the target where that is allowed, and else that
  -- of the state that it was called in.
  abbrev pub Answered : (S → F → P → Type 0) → S → List S → F → P → TransitionResult S P → Type 0
  Answered inv from targets fsm payload (TransitionResult.ok target) =
      if any (λ t. same t target) targets then inv target fsm payload else inv from fsm payload
  Answered inv from targets fsm payload (TransitionResult.ok_with_payload target payload') =
      if any (λ t. same t target) targets then inv target fsm payload' else inv from fsm payload'
  Answered inv from targets fsm payload (TransitionResult.error reason) = inv from fsm payload

module _ {F S P : Type 0} ⦃so : Ord S⦄ (inv : S → F → P → Type 0) (from : S) (fsm : F) (payload : P)
    (result : TransitionResult S P) where
  -- The same for a row of the graph that is known.
  pub Answered-row :
      (row : List S × EventKind) {targets : List S} {kind : EventKind}
      → some row ≡ some (targets, kind)
      → Answered inv from row.0 fsm payload result
      → Answered inv from targets fsm payload result
  Answered-row row e h =
      subst (λ (r : List S × EventKind). Answered inv from r.0 fsm payload result) (some_inj e) h

module _ {F S E P : Type 0} ⦃so : Ord S⦄ where
  -- Every callback keeps an invariant of the state, the user's `fsm` and the payload, which
  -- `on_transition` takes from `before` to `after`.
  pub record IsKept ⦃eo : Ord E⦄ (callbacks : Finitomata F S E P) (graph : TransitionGraph S E)
      (before after : S → F → P → Type 0) : Type 0 where
    pub weaker : (s : S) (fsm : F) (payload : P) → before s fsm payload → after s fsm payload
    pub on_exit :
        (s : S) (fsm : F) (payload : P)
        → before s fsm payload
        → before s (callbacks.on_exit fsm s payload).0 (callbacks.on_exit fsm s payload).1
    pub answer :
        (from : S) (fsm : F) (event : E) (event_payload payload : P) (targets : List S)
        (kind : EventKind)
        → allowed graph from event ≡ some (targets, kind)
        → before from fsm payload
        → let (fsm', payload', result) =
            callbacks.on_transition fsm from event event_payload payload in
          Answered after from targets fsm' payload' result
    pub on_enter :
        (s : S) (fsm : F) (payload : P)
        → after s fsm payload
        → after s (callbacks.on_enter fsm s payload).0 (callbacks.on_enter fsm s payload).1
    pub on_failure :
        (s : S) (fsm : F) (event : E) (reason : FinitomataError) (payload : P)
        → after s fsm payload
        → after s
            (callbacks.on_failure fsm event reason payload).0
            (callbacks.on_failure fsm event reason payload).1
    pub on_terminate :
        (s : S) (fsm : F) (payload : P)
        → after s fsm payload
        → after s (callbacks.on_terminate fsm payload).0 (callbacks.on_terminate fsm payload).1
