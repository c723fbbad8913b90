-- ===== src/Supervisor/Started.antt =====
-- A machine that was started (`start_fsm` of finitomata/src/supervisor.rs).
use mathlib.Core.Option
use finitomata_rs.Base.{
  ◌≡◌, ◌≢◌, refl, sym, ap, subst, ◌∙◌, Bool, true, false, Option, none, some, Result, ok, err,
  arith,
}
use finitomata_rs.Base.Ord.{Ord, same_iff, nat_ord, list_ord}
use finitomata_rs.Base.Text.{Text}
use finitomata_rs.Cache.{get, get_state, update, get-update}
use finitomata_rs.Callbacks.{Finitomata}
use finitomata_rs.DashMap.{DashMap, IsLawful}
use finitomata_rs.Engine.{enter}
use finitomata_rs.Error.{PersistencyError}
use finitomata_rs.Persistency.{Persistency}
use finitomata_rs.State.{FsmState, Lifecycle, is_running, running, new_state}
use finitomata_rs.Supervisor.{
  System, FinitomataSupervisor, first_state, prepare, greet, launch, spawned, start_fsm,
}
use finitomata_rs.Supervisor.Queries.{state_of, current_state, alive}

-- What was loaded, if there is a record in it.
abbrev pub loaded_record :
    {S P : Type 0} → Result (Option (Lifecycle × S × P)) PersistencyError → Option (S × P)
loaded_record (ok (some (lc, state, payload))) = some (state, payload)
loaded_record (ok none) = none
loaded_record (err e) = none

-- The record that a backend has under a name.
abbrev pub record_of : {D S P : Type 0} → Option (Persistency D S P) → D → Text → Option (S × P)
record_of none store name = none
record_of (some backend) store name = loaded_record (backend.load store name).1

-- The record if there is one, and else what the machine is given.
abbrev pub or_given : {S P : Type 0} → S → P → Option (S × P) → S × P
or_given initial payload none = (initial, payload)
or_given initial payload (some stored) = stored

module _ {Y Pid R F D L S E P M : Type 0} ⦃so : Ord S⦄ (sys : System Y Pid R F D L S E P M)
    (callbacks : Finitomata F S E P) (dash : DashMap M Text (FsmState S P))
    (laws : IsLawful dash) where
  first_state-record :
      (v : FinitomataSupervisor Y Pid D L S E P M) (payload : P)
      (found : Result (Option (Lifecycle × S × P)) PersistencyError)
      → let first = first_state v payload found in
        (first.0, first.1) ≡ or_given v.graph.initial payload (loaded_record found)
  unfolding first_state
  first_state-record v payload (ok (some (lc, state, stored))) = refl
  first_state-record v payload (ok none) = refl
  first_state-record v payload (err e) = refl

  prepare-record :
      (v : FinitomataSupervisor Y Pid D L S E P M) (name : Text) (payload : P)
      (backend : Option (Persistency D S P))
      → let first = prepare v name payload backend in
        (first.1, first.2) ≡ or_given v.graph.initial payload (record_of backend v.store name)
  unfolding prepare
  prepare-record v name payload none = refl
  prepare-record v name payload (some backend) =
      first_state-record v payload (backend.load v.store name).1

  -- The state of a machine that begins there: `on_start` and then `on_enter` have the payload.
  abbrev pub Begun : F → S × P → FsmState S P → Type 0
  Begun fsm (state, payload) s =
      let (fsm', payload') = callbacks.on_start fsm payload in
      (s.current ≡ state) × (s.payload ≡ (callbacks.on_enter fsm' state payload').1)

  launch-running :
      (v : FinitomataSupervisor Y Pid D L S E P M) (name : Text) (fsm : F) (payload : P)
      → let s = (launch sys callbacks dash v name fsm payload).state in
        (s.name ≡ name)
        × (s.lifecycle ≡ running)
        × Begun fsm
            (or_given v.graph.initial payload (record_of v.context.persistency v.store name))
            s
  unfolding launch greet enter new_state
  launch-running v name fsm payload = (
    refl,
    refl,
    subst (λ (first : S × P). Begun fsm first (launch sys callbacks dash v name fsm payload).state)
        (prepare-record v name payload v.context.persistency) (refl, refl),
  )

  get-other :
      (cache : M) (s : FsmState S P) (name other : Text)
      → s.name ≡ name
      → other ≢ name
      → get dash (update dash cache s) other ≡ get dash cache other
  get-other cache s name other n h =
      ground (arith, get-update dash laws cache s other, same_iff s.name other, n, sym n)

  -- A started machine is there at once, before its actor has run: it is alive, and its state is the one
  -- of the record that the backend has under its name, or the initial state of the graph where there is
  -- no backend, no record, or an error of the load. Its payload is that of the record, or else the given
  -- one, after `on_start` and then `on_enter`. What the supervisor says of all other names is as it was.
  pub start_fsm-alive :
      (v : FinitomataSupervisor Y Pid D L S E P M) (name other : Text) (fsm : F) (payload : P)
      → let (v', answer) = start_fsm sys callbacks dash v name fsm payload in
        let (state, begins) =
          or_given v.graph.initial payload (record_of v.context.persistency v.store name) in
        let (fsm', started) = callbacks.on_start fsm begins in
        (answer ≡ ok tt)
        × (alive dash v' name ≡ true)
        × (current_state dash v' name ≡ some state)
        × (Option.map (λ s. s.payload) (state_of dash v' name)
            ≡ some (callbacks.on_enter fsm' state started).1)
        × (other ≢ name → state_of dash v' other ≡ state_of dash v other)
  unfolding start_fsm spawned alive current_state state_of get_state get
  start_fsm-alive v name other fsm payload =
      let s = (launch sys callbacks dash v name fsm payload).state in
      let (n, l, (c, p)) = launch-running v name fsm payload in
      let self : get dash (update dash v.cache s) name ≡ some s =
        ground (arith, get-update dash laws v.cache s name, same_iff s.name name) in
      (
        refl,
        ap (λ o. elim o as (λ _. Bool) [ none ↦ false | some s ↦ is_running s.lifecycle ]) self
            ∙ ap is_running l,
        ap (Option.map (λ s. s.current)) self ∙ ap some c,
        ap (Option.map (λ s. s.payload)) self ∙ ap some p,
        λ h. get-other v.cache s name other n h,
      )
