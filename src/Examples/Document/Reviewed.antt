-- ===== src/Examples/Document/Reviewed.antt =====
-- Which documents of the workflow (finitomata/examples/persistent_fsm.rs) have a reviewer.
use finitomata_rs.Base.{ℕ, suc, ◌+◌, ◌%◌, ◌^◌, ◌≡◌, refl, Option, none, some, List, [], ◌∷◌}
use finitomata_rs.Base.Ord.{same, nat_ord, list_ord}
use finitomata_rs.Base.Text.{Text}
use finitomata_rs.BTree.Maps
use finitomata_rs.Callbacks.{TransitionResult}
use finitomata_rs.DashMap.{DashMap}
use finitomata_rs.Engine.{Machine}
use finitomata_rs.Engine.Bounded.{transit_all}
use finitomata_rs.Engine.Kept.{Answered, Answered-row, IsKept, transit_all-Remains}
use finitomata_rs.Examples.Document.{
  DocumentState, DocumentEvent, archived, deleted, draft, published, review, approve, archive,
  confirm, delete, reject, restore, submit, state_ord, event_ord, build_graph, Document, DocPayload,
  editor, on_transition, callbacks, main_context,
}
use finitomata_rs.Persistency.Memory.{in_memory}
use finitomata_rs.State.{Lifecycle}
use finitomata_rs.Transition.{EventKind, normal, new, rows, allowed}

-- Who reviewed the documents in each state.
abbrev pub reviewer_of : DocumentState → Option Text
reviewer_of archived = some editor
reviewer_of deleted = none
reviewer_of draft = none
reviewer_of published = some editor
reviewer_of review = none

abbrev IsReviewed : ℕ → DocumentState → Document → DocPayload → Type 0
IsReviewed left s fsm payload = payload.reviewer ≡ reviewer_of s

-- The callback, by the one row of the graph that the state and the event have.
answer-IsReviewed :
    (from : DocumentState) (fsm : Document) (event : DocumentEvent)
    (event_payload payload : DocPayload) (targets : List DocumentState) (kind : EventKind)
    → allowed build_graph from event ≡ some (targets, kind)
    → payload.reviewer ≡ reviewer_of from
    → let (fsm', payload', result) = on_transition fsm from event event_payload payload in
      Answered (IsReviewed 0) from targets fsm' payload' result
unfolding on_transition allowed rows new same Maps.get Maps.alter
answer-IsReviewed draft fsm submit ep p targets kind e h =
    Answered-row (IsReviewed 0) draft fsm (record p { version = (p.version + 1) % 2 ^ 32 })
      (TransitionResult.ok review) (review ∷ [], normal) e h
answer-IsReviewed draft fsm delete ep p targets kind e h =
    Answered-row (IsReviewed 0) draft fsm p (TransitionResult.ok deleted) (deleted ∷ [], normal) e h
answer-IsReviewed review fsm approve ep p targets kind e h =
    Answered-row (IsReviewed 0) review fsm (record p { reviewer = some editor })
      (TransitionResult.ok published) (published ∷ [], normal) e refl
answer-IsReviewed review fsm reject ep p targets kind e h =
    Answered-row (IsReviewed 0) review fsm p (TransitionResult.ok draft) (draft ∷ [], normal) e h
answer-IsReviewed published fsm archive ep p targets kind e h =
    Answered-row (IsReviewed 0) published fsm p (TransitionResult.ok archived)
      (archived ∷ [], normal) e h
answer-IsReviewed archived fsm restore ep p targets kind e h =
    Answered-row (IsReviewed 0) archived fsm (record p { reviewer = none })
      (TransitionResult.ok draft) (draft ∷ [], normal) e refl
answer-IsReviewed deleted fsm confirm ep p targets kind e h =
    Answered-row (IsReviewed 0) deleted fsm p (TransitionResult.ok deleted) (deleted ∷ [], normal) e
      h
answer-IsReviewed draft fsm event ep p targets kind e h = cc
answer-IsReviewed review fsm event ep p targets kind e h = cc
answer-IsReviewed published fsm event ep p targets kind e h = cc
answer-IsReviewed archived fsm event ep p targets kind e h = cc
answer-IsReviewed deleted fsm event ep p targets kind e h = cc

callbacks-IsKept :
    (left : ℕ) → IsKept callbacks build_graph (IsReviewed (suc left)) (IsReviewed left)
unfolding callbacks
callbacks-IsKept left = record {
  weaker = λ s fsm payload h. h;
  on_exit = λ s fsm payload h. h;
  answer = answer-IsReviewed;
  on_enter = λ s fsm payload h. h;
  on_failure = λ s fsm event reason payload h. h;
  on_terminate = λ s fsm payload h. h;
}

module _ {D L : Type 0} (dash : DashMap D Text (Lifecycle × DocumentState × DocPayload))
    (show_state : DocumentState → Text) (show_event : DocumentEvent → Text) where
  -- The reviewer of a document of the example is known from its state: the editor where it is published
  -- or archived, and nobody where it is a draft, in review or deleted. Where this holds of a machine,
  -- as it does of the draft that `main` starts with, it holds after any row of events, whether they
  -- succeed or fail, with the in-memory backend.
  pub transit_all-IsReviewed :
      (m : Machine Document D L DocumentState DocPayload)
      (events : List (DocumentEvent × DocPayload))
      → m.state.payload.reviewer ≡ reviewer_of m.state.current
      → let m' =
          transit_all callbacks show_state show_event build_graph (main_context dash) m events in
        m'.state.payload.reviewer ≡ reviewer_of m'.state.current
  unfolding in_memory
  transit_all-IsReviewed m events h =
      transit_all-Remains callbacks show_state show_event build_graph (main_context dash) IsReviewed
        m events callbacks-IsKept (λ store name target payload. refl) h
