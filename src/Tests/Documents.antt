-- ===== src/Tests/Documents.antt =====
-- The document of the examples, over the events that its `main` sends.
use finitomata_rs.Base.{ℕ, ◌≡◌, refl, List, [], ◌∷◌}
use finitomata_rs.Base.Ord.{nat_ord, list_ord}
use finitomata_rs.Base.Text.{Text, text}
use finitomata_rs.Engine.{Machine}
use finitomata_rs.Engine.Bounded.{transit_all}
use finitomata_rs.Examples.Document.{
  DocumentState, DocumentEvent, DocPayload, Document, document, draft, submit, reject, approve,
  archive, state_ord, event_ord, build_graph, callbacks, main_context, first_payload,
}
use finitomata_rs.Examples.Document.Reviewed.{reviewer_of, transit_all-IsReviewed}
use finitomata_rs.State.{Lifecycle, new_state}
use finitomata_rs.Tests.Dash.{assoc}

abbrev rfc :
    Machine Document
      (List (Text × (Lifecycle × DocumentState × DocPayload)))
      ℕ
      DocumentState
      DocPayload
rfc = record {
  fsm = document;
  state = new_state (text "doc_1") draft first_payload;
  store = [];
  log = 0;
}

-- The events that `main` sends.
abbrev edits : List (DocumentEvent × DocPayload)
edits =
    (submit, first_payload)
    ∷ (reject, first_payload)
    ∷ (submit, first_payload)
    ∷ (approve, first_payload)
    ∷ (archive, first_payload)
    ∷ []

abbrev doc_state_text : DocumentState → Text
doc_state_text s = text "state"

abbrev doc_event_text : DocumentEvent → Text
doc_event_text e = text "event"

transit_all-IsReviewed_example :
    let m' =
      transit_all callbacks doc_state_text doc_event_text build_graph
        (main_context assoc)
        rfc
        edits in
    m'.state.payload.reviewer ≡ reviewer_of m'.state.current
unfolding new_state
transit_all-IsReviewed_example =
    transit_all-IsReviewed assoc doc_state_text doc_event_text rfc edits refl
