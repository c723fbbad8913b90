-- ===== src/Tests/Orders.antt =====
-- The order workflow of the examples, with its diagram read by the macro.
use finitomata_rs.Base.{ℕ, ◌≡◌, refl, true, none, some, [], ◌∷◌, ◌++◌, ok, err}
use finitomata_rs.Base.Ord.{nat_ord, list_ord, same, list_cmp}
use finitomata_rs.Base.Text.{Text, text}
use finitomata_rs.BTree.Sets
use finitomata_rs.BTree.Maps
use finitomata_rs.Engine.{TransitContext, Machine, transit}
use finitomata_rs.Engine.Bounded.{transit_all}
use finitomata_rs.Engine.Outcome.{Stays}
use finitomata_rs.Engine.Refused.{transit-refused}
use finitomata_rs.Error.{not_allowed}
use finitomata_rs.Examples.OrderWorkflow.{
  OrderWorkflowState, OrderWorkflowEvent, OrderWorkflow, OrderPayload, cancelled, close, ship,
  display_state, debug_event, state_ord, event_ord, build_graph, target_of, on_transition,
  callbacks,
}
use finitomata_rs.Examples.OrderWorkflow.Closing.{transit_all-IsCancelled}
use finitomata_rs.Macro.Parser.{parse_mermaid}
use finitomata_rs.Parser.{ParsedTransition, terminal}
use finitomata_rs.State.{new_state}
use finitomata_rs.Transition.{EventKind, normal, hard, allowed, new, rows}

abbrev line : Text → Text
line s = text "        " ++ s ++ 10 ∷ []

-- The diagram of the attribute.
abbrev diagram : Text
diagram =
    10 ∷ line (text "[*] --> pending")
    ++ line (text "pending --> |confirm!| confirmed")
    ++ line (text "confirmed --> |ship| shipped")
    ++ line (text "shipped --> |deliver| delivered")
    ++ line (text "delivered --> |close| [*]")
    ++ line (text "pending --> |cancel| cancelled")
    ++ line (text "confirmed --> |cancel| cancelled")
    ++ line (text "cancelled --> |close| [*]")
    ++ text "    "

abbrev edge : Text → Text → EventKind → Text → ParsedTransition
edge from event kind to = record { from = from; to = to; event = event; kind = kind }

-- Its states in the order of the enum, and its edges in the order of the table.
diagram-read :
    parse_mermaid diagram
    ≡ ok (record {
      initial = text "pending";
      finals = text "cancelled" ∷ text "delivered" ∷ [];
      transitions =
          edge (text "pending") (text "confirm") hard (text "confirmed")
          ∷ edge (text "confirmed") (text "ship") normal (text "shipped")
          ∷ edge (text "shipped") (text "deliver") normal (text "delivered")
          ∷ edge (text "delivered") (text "close") normal terminal
          ∷ edge (text "pending") (text "cancel") normal (text "cancelled")
          ∷ edge (text "confirmed") (text "cancel") normal (text "cancelled")
          ∷ edge (text "cancelled") (text "close") normal terminal
          ∷ [];
      states =
          text "cancelled"
          ∷ text "confirmed"
          ∷ text "delivered"
          ∷ text "pending"
          ∷ text "shipped"
          ∷ [];
    })
unfolding parse_mermaid same list_cmp Sets.insert
diagram-read = refl

abbrev payload : OrderPayload ℕ
payload = record { order_id = text "A"; customer = text "B"; amount = 7; notes = [] }

abbrev ctx : TransitContext ℕ ℕ OrderWorkflowState OrderWorkflowEvent (OrderPayload ℕ)
ctx = record { persistency = none; listener = none; auto_terminate = true }

abbrev order : Machine OrderWorkflow ℕ ℕ OrderWorkflowState (OrderPayload ℕ)
order = record {
  fsm = record { retry_count = 0 };
  state = new_state (text "order") cancelled payload;
  store = 0;
  log = 0;
}

transit_all-IsCancelled_example :
    let m =
      transit_all callbacks display_state debug_event build_graph ctx order
        ((close, payload) ∷ (ship, payload) ∷ []) in
    (m.state.current ≡ cancelled) × (m.state.lifecycle ≡ order.state.lifecycle)
unfolding new_state
transit_all-IsCancelled_example =
    transit_all-IsCancelled display_state debug_event ctx order
      ((close, payload) ∷ (ship, payload) ∷ []) refl

transit-refused_example :
    let (m, r) = transit callbacks display_state debug_event build_graph order close payload ctx in
    (r ≡ err (not_allowed (text "cancelled") (text "delivered") (text "Close")))
    × Stays order m
    × (m.state.last_error ≡ some (not_allowed (text "cancelled") (text "delivered") (text "Close")))
unfolding new_state callbacks on_transition target_of allowed rows new same Maps.get Maps.alter
transit-refused_example =
    transit-refused callbacks display_state debug_event build_graph ctx order close payload
      (cancelled ∷ []) normal (not_allowed (text "cancelled") (text "delivered") (text "Close"))
      refl refl
