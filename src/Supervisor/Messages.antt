-- ===== src/Supervisor/Messages.antt =====
-- The messages that the supervisor sends (`transition`, `shutdown` and `resolve_pid` of
-- finitomata/src/supervisor.rs).
pub mod Sent
use mathlib.Core.Option
use finitomata_rs.Base.{Option, none, some, ◌++◌, Result, ok, err}
use finitomata_rs.Base.Ord.{nat_ord, list_ord}
use finitomata_rs.Base.Text.{Text, text}
use finitomata_rs.Actor.{Message, shutdown, transition}
use finitomata_rs.BTree.Maps
use finitomata_rs.Cache.{get}
use finitomata_rs.Callbacks.{Finitomata}
use finitomata_rs.Error.{FinitomataError, validation}
use finitomata_rs.Supervisor.{System, FinitomataSupervisor}

module _ {Y Pid R F D L S E P M : Type 0} (sys : System Y Pid R F D L S E P M) where
  -- `ok_or_else` of `resolve_pid`
  unfoldable pub known : Text → Option Pid → Result Pid FinitomataError
  unfolding validation
  known name (some pid) = ok pid
  known name none = err (validation (text "FSM `" ++ (name ++ text "` not found")))

  unfoldable pub resolve_pid :
      FinitomataSupervisor Y Pid D L S E P M → Text → Result Pid FinitomataError
  unfolding known
  resolve_pid v name = elim (sys.whereis v.system name) [
    | some pid ↦ ok pid
    | none ↦ known name (Maps.get v.actors name)
  ]

  -- `map_err` of a message that was not sent.
  unfoldable pub sent : Text → Result (Unit {0}) Text → Result (Unit {0}) FinitomataError
  unfolding validation
  sent name (ok _) = ok tt
  sent name (err e) = err (validation (text "failed to send to `" ++ (name ++ (text "`: " ++ e))))

  -- What `transition` and `shutdown` do with their message.
  unfoldable pub post :
      FinitomataSupervisor Y Pid D L S E P M
      → Text
      → Message E P
      → Result Pid FinitomataError
      → FinitomataSupervisor Y Pid D L S E P M × Result (Unit {0}) FinitomataError
  unfolding sent
  post v name message (err e) = (v, err e)
  post v name message (ok pid) =
      let (system, answer) = sys.send v.system pid message in
      (record v { system = system }, sent name answer)

  unfoldable pub transition_fsm :
      FinitomataSupervisor Y Pid D L S E P M
      → Text
      → E
      → P
      → FinitomataSupervisor Y Pid D L S E P M × Result (Unit {0}) FinitomataError
  unfolding post resolve_pid
  transition_fsm v name event payload = post v name (transition event payload) (resolve_pid v name)

  unfoldable pub shutdown_fsm :
      FinitomataSupervisor Y Pid D L S E P M
      → Text
      → FinitomataSupervisor Y Pid D L S E P M × Result (Unit {0}) FinitomataError
  unfolding post resolve_pid
  shutdown_fsm v name = post v name shutdown (resolve_pid v name)
