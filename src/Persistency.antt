-- ===== src/Persistency.antt =====
-- The persistence trait (finitomata/src/persistency/mod.rs). `D` stands for the state of the backend:
-- the methods take `&self` and change it from within.
pub mod Memory
use finitomata_rs.Base.{Option, Result}
use finitomata_rs.Base.Text.{Text}
use finitomata_rs.Error.{FinitomataError, PersistencyError}
use finitomata_rs.State.{Lifecycle}

pub record Persistency (D S P : Type 0) : Type 0 where
  pub load : D → Text → D × Result (Option (Lifecycle × S × P)) PersistencyError
  pub store : D → Text → S → P → D × Result (Unit {0}) PersistencyError
  pub store_error : D → Text → FinitomataError → D × Result (Unit {0}) PersistencyError
