-- ===== src/Tests/Messages.antt =====
-- An event for a machine that was just started, with an actor system that hands out numbers.
use finitomata_rs.Base.{◌≡◌, ◌↔◌, inr, refl, ◌∙◌, ok}
use finitomata_rs.Base.Ord.{same_refl, nat_ord, list_ord}
use finitomata_rs.Base.Text.{text}
use finitomata_rs.Actor.{transition}
use finitomata_rs.Supervisor.{spawned, start_fsm, new_supervisor}
use finitomata_rs.Supervisor.Messages.{transition_fsm}
use finitomata_rs.Supervisor.Messages.Sent.{IsRegistry, transition_fsm-start_fsm}
use finitomata_rs.Tests.Actor.{numbers, supervisor}
use finitomata_rs.Tests.Dash.{assoc, assoc-IsLawful}
use finitomata_rs.Tests.Sample.{callbacks, finish}

numbers-IsRegistry : IsRegistry numbers
numbers-IsRegistry = record {
  whereis-spawn = λ y a name. refl;
  whereis-register = λ y name pid free.
      inr (assoc-IsLawful.get-insert y.1 name name pid ∙ rw (same_refl name) refl);
}

transition_fsm-start_fsm_example :
    let (v1, started) = start_fsm numbers callbacks assoc supervisor (text "a") 0 5 in
    let (v2, answer) = transition_fsm numbers v1 (text "a") finish 7 in
    let pid =
      (numbers.spawn supervisor.system
        (spawned numbers callbacks assoc supervisor (text "a") 0 5)).1 in
    (v2.system ≡ (numbers.send v1.system pid (transition finish 7)).0)
    × ((answer ≡ ok tt) ↔ ((numbers.send v1.system pid (transition finish 7)).1 ≡ ok tt))
unfolding new_supervisor
transition_fsm-start_fsm_example =
    transition_fsm-start_fsm numbers numbers-IsRegistry callbacks assoc supervisor (text "a") 0 5
      finish 7 refl tt
