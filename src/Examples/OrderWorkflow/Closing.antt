-- ===== src/Examples/OrderWorkflow/Closing.antt =====
-- What the order workflow (finitomata/examples/order_workflow.rs) answers to its events, and what
-- becomes of an order that is cancelled.
use finitomata_rs.Base.{
  ◌≡◌, refl, subst, ap, ◌∙◌, Bool, true, any, Option, none, some, List, [], ◌∷◌, err,
}
use finitomata_rs.Base.Ord.{same}
use finitomata_rs.Base.Text.{Text}
use finitomata_rs.BTree.Maps
use finitomata_rs.Engine.{TransitContext, Machine, transit}
use finitomata_rs.Engine.Bounded.{transit_all}
use finitomata_rs.Engine.Outcome.{Transited, transit-Transited}
use finitomata_rs.Engine.Refused.{transit-refused}
use finitomata_rs.Error.{not_allowed}
use finitomata_rs.Examples.OrderWorkflow.{
  OrderWorkflowState, OrderWorkflowEvent, cancelled, confirmed, delivered, pending, shipped, cancel,
  close, confirm, deliver, ship, state_ord, event_ord, build_graph, OrderWorkflow, OrderPayload,
  target_of, on_transition, callbacks,
}
use finitomata_rs.Transition.{EventKind, normal, new, rows, allowed}

-- The target is one of the allowed, where there are some.
abbrev pub fits : Option (List OrderWorkflowState × EventKind) → OrderWorkflowState → Bool
fits none target = true
fits (some (targets, kind)) target = any (λ t. same t target) targets

-- The callback answers every event that the graph allows with an allowed target, except the closing of
-- a cancelled order.
pub target_of-fits :
    (state : OrderWorkflowState) (event : OrderWorkflowEvent)
    → ¬ ((state ≡ cancelled) × (event ≡ close))
    → fits (allowed build_graph state event) (target_of event) ≡ true
unfolding allowed rows new target_of same Maps.get Maps.alter
target_of-fits cancelled close h = absurd (h (refl, refl))
target_of-fits cancelled cancel h = refl
target_of-fits cancelled confirm h = refl
target_of-fits cancelled deliver h = refl
target_of-fits cancelled ship h = refl
target_of-fits confirmed cancel h = refl
target_of-fits confirmed close h = refl
target_of-fits confirmed confirm h = refl
target_of-fits confirmed deliver h = refl
target_of-fits confirmed ship h = refl
target_of-fits delivered cancel h = refl
target_of-fits delivered close h = refl
target_of-fits delivered confirm h = refl
target_of-fits delivered deliver h = refl
target_of-fits delivered ship h = refl
target_of-fits pending cancel h = refl
target_of-fits pending close h = refl
target_of-fits pending confirm h = refl
target_of-fits pending deliver h = refl
target_of-fits pending ship h = refl
target_of-fits shipped cancel h = refl
target_of-fits shipped close h = refl
target_of-fits shipped confirm h = refl
target_of-fits shipped deliver h = refl
target_of-fits shipped ship h = refl

module _ {A D L : Type 0} (show_state : OrderWorkflowState → Text)
    (show_event : OrderWorkflowEvent → Text)
    (ctx : TransitContext D L OrderWorkflowState OrderWorkflowEvent (OrderPayload A)) where
  -- The machine is in that state, with the lifecycle of `m`.
  abbrev IsCancelled :
      Machine OrderWorkflow D L OrderWorkflowState (OrderPayload A)
      → Machine OrderWorkflow D L OrderWorkflowState (OrderPayload A)
      → Type 0
  IsCancelled m m' = (m'.state.current ≡ cancelled) × (m'.state.lifecycle ≡ m.state.lifecycle)

  -- Closing a cancelled order fails: the callback answers `Delivered`, and the graph has `Cancelled`.
  close-fails :
      (m : Machine OrderWorkflow D L OrderWorkflowState (OrderPayload A)) (p : OrderPayload A)
      → m.state.current ≡ cancelled
      → let (m', r) = transit callbacks show_state show_event build_graph m close p ctx in
        (r ≡ err (not_allowed (show_state cancelled) (show_state delivered) (show_event close)))
        × IsCancelled m m'
  unfolding callbacks on_transition target_of allowed rows new same Maps.get Maps.alter
  close-fails m p e =
      let (fails, stays, recorded) =
        transit-refused callbacks show_state show_event build_graph ctx m close p (cancelled ∷ [])
          normal (not_allowed (show_state cancelled) (show_state delivered) (show_event close))
          (rw e refl) (rw e refl) in
      (fails, (stays.current ∙ e, stays.lifecycle))

  other-IsCancelled :
      (m : Machine OrderWorkflow D L OrderWorkflowState (OrderPayload A))
      (event : OrderWorkflowEvent) (p : OrderPayload A)
      → m.state.current ≡ cancelled
      → allowed build_graph cancelled event ≡ none
      → IsCancelled m (transit callbacks show_state show_event build_graph m event p ctx).0
  other-IsCancelled m event p e absent =
      let r = transit callbacks show_state show_event build_graph m event p ctx in
      let unchanged : r.0 ≡ m =
        (subst (λ row. Transited callbacks show_state show_event build_graph ctx event m row r)
          (ap (λ s. allowed build_graph s event) e ∙ absent)
          (transit-Transited callbacks show_state show_event build_graph ctx event p m)).0 in
      (ap (λ x. x.state.current) unchanged ∙ e, ap (λ x. x.state.lifecycle) unchanged)

  step-IsCancelled :
      (m : Machine OrderWorkflow D L OrderWorkflowState (OrderPayload A))
      (event : OrderWorkflowEvent) (p : OrderPayload A)
      → m.state.current ≡ cancelled
      → IsCancelled m (transit callbacks show_state show_event build_graph m event p ctx).0
  unfolding allowed rows new same Maps.get Maps.alter
  step-IsCancelled m close p e = (close-fails m p e).1
  step-IsCancelled m cancel p e = other-IsCancelled m cancel p e refl
  step-IsCancelled m confirm p e = other-IsCancelled m confirm p e refl
  step-IsCancelled m deliver p e = other-IsCancelled m deliver p e refl
  step-IsCancelled m ship p e = other-IsCancelled m ship p e refl

  -- An order that is cancelled stays cancelled and keeps its lifecycle over any row of events, so
  -- no event terminates it, although `Cancelled` is final in the graph and its edge leads to `[*]`.
  pub transit_all-IsCancelled :
      (m : Machine OrderWorkflow D L OrderWorkflowState (OrderPayload A))
      (events : List (OrderWorkflowEvent × OrderPayload A))
      → m.state.current ≡ cancelled
      → let m' = transit_all callbacks show_state show_event build_graph ctx m events in
        (m'.state.current ≡ cancelled) × (m'.state.lifecycle ≡ m.state.lifecycle)
  transit_all-IsCancelled m [] e = (e, refl)
  transit_all-IsCancelled m ((event, p) ∷ rest) e =
      let (still, kept) = step-IsCancelled m event p e in
      let (ends, lifecycle) =
        transit_all-IsCancelled
          (transit callbacks show_state show_event build_graph m event p ctx).0 rest still in
      (ends, lifecycle ∙ kept)
