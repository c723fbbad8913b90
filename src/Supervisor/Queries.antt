-- ===== src/Supervisor/Queries.antt =====
-- What the supervisor answers from its cache: `state`, `current_state`, `alive` and `all_fsms` of
-- `FinitomataSupervisor` (finitomata/src/supervisor.rs).
use finitomata_rs.Base.{Bool, false, Option, none, some, List}
use finitomata_rs.Base.Text.{Text}
use finitomata_rs.Cache.{get, get_state, all}
use finitomata_rs.DashMap.{DashMap}
use finitomata_rs.State.{FsmState, is_running}
use finitomata_rs.Supervisor.{FinitomataSupervisor}

module _ {Y Pid D L S E P M : Type 0} (dash : DashMap M Text (FsmState S P)) where
  unfoldable pub state_of : FinitomataSupervisor Y Pid D L S E P M → Text → Option (FsmState S P)
  unfolding get
  state_of v name = get dash v.cache name

  unfoldable pub current_state : FinitomataSupervisor Y Pid D L S E P M → Text → Option S
  unfolding get_state
  current_state v name = get_state dash v.cache name

  unfoldable pub alive : FinitomataSupervisor Y Pid D L S E P M → Text → Bool
  unfolding get
  alive v name = elim (get dash v.cache name) [ none ↦ false | some s ↦ is_running s.lifecycle ]

  all_fsms : FinitomataSupervisor Y Pid D L S E P M → List (Text × FsmState S P)
  unfolding all
  all_fsms v = all dash v.cache
