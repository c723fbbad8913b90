-- ===== src/Supervisor/Messages/Sent.antt =====
-- An event for a machine that was just started (`start_fsm` and `transition` of
-- finitomata/src/supervisor.rs).
use finitomata_rs.Base.{◌≡◌, ◌⊎◌, ◌↔◌, inl, inr, refl, ◌∙◌, none, some, Result, ok, err}
use finitomata_rs.Base.Ord.{Ord, same_refl, nat_ord, list_ord}
use finitomata_rs.Base.Text.{Text}
use finitomata_rs.Actor.{FsmActor, transition}
use finitomata_rs.BTree.Maps
use finitomata_rs.BTree.Maps.{get-alter}
use finitomata_rs.Callbacks.{Finitomata}
use finitomata_rs.DashMap.{DashMap}
use finitomata_rs.State.{FsmState}
use finitomata_rs.Supervisor.{System, FinitomataSupervisor, spawned, start_fsm}
use finitomata_rs.Supervisor.Messages.{known, resolve_pid, sent, post, transition_fsm}

-- What the supervisor relies on: to spawn an actor registers no name, and a name that is not taken is
-- registered for the given actor, if at all.
pub record IsRegistry {Y Pid R F D L S E P M : Type 0} (sys : System Y Pid R F D L S E P M)
    : Type 0 where
  pub whereis-spawn :
      (y : Y) (a : FsmActor F D L S E P M) (name : Text)
      → sys.whereis (sys.spawn y a).0 name ≡ sys.whereis y name
  pub whereis-register :
      (y : Y) (name : Text) (pid : Pid)
      → sys.whereis y name ≡ none
      → (sys.whereis (sys.register y name pid) name ≡ none)
        ⊎ (sys.whereis (sys.register y name pid) name ≡ some pid)

module _ {Y Pid R F D L S E P M : Type 0} (sys : System Y Pid R F D L S E P M) where
  sent_iff : (name : Text) (r : Result (Unit {0}) Text) → (sent sys name r ≡ ok tt) ↔ (r ≡ ok tt)
  unfolding sent
  sent_iff name (ok _) = (λ h. refl, λ h. refl)
  sent_iff name (err e) = (λ h. cc, λ h. cc)

  resolve-found :
      (v : FinitomataSupervisor Y Pid D L S E P M) (name : Text) (pid : Pid)
      → Maps.get v.actors name ≡ some pid
      → (sys.whereis v.system name ≡ none) ⊎ (sys.whereis v.system name ≡ some pid)
      → resolve_pid sys v name ≡ ok pid
  unfolding resolve_pid known
  resolve-found v name pid listed (inl e) = rw (e, resolve_pid, listed) refl
  resolve-found v name pid listed (inr e) = rw (resolve_pid, e) refl

  module _ ⦃so : Ord S⦄ (registry : IsRegistry sys) (callbacks : Finitomata F S E P)
      (dash : DashMap M Text (FsmState S P)) where
    -- Where the name was not taken, an event that is sent to a machine right after its start goes to
    -- the actor that was spawned for it, and to no other, whether or not the name could be registered. `transition` succeeds exactly if the message is sent.
    pub transition_fsm-start_fsm :
        (v : FinitomataSupervisor Y Pid D L S E P M) (name : Text) (fsm : F) (payload : P)
        (event : E) (event_payload : P)
        → sys.whereis v.system name ≡ none
        → Maps.IsSorted v.actors
        → let (v1, started) = start_fsm sys callbacks dash v name fsm payload in
          let (v2, answer) = transition_fsm sys v1 name event event_payload in
          let pid = (sys.spawn v.system (spawned sys callbacks dash v name fsm payload)).1 in
          (v2.system ≡ (sys.send v1.system pid (transition event event_payload)).0)
          × ((answer ≡ ok tt)
              ↔ ((sys.send v1.system pid (transition event event_payload)).1 ≡ ok tt))
    unfolding start_fsm transition_fsm post
    transition_fsm-start_fsm v name fsm payload event event_payload free sorted =
        let (v1, started) = start_fsm sys callbacks dash v name fsm payload in
        let (system, pid) = sys.spawn v.system (spawned sys callbacks dash v name fsm payload) in
        let listed : Maps.get v1.actors name ≡ some pid =
          get-alter v.actors name name pid (λ _. pid) sorted ∙ rw (same_refl name) refl in
        let found = resolve-found v1 name pid listed (
          registry.whereis-register system name pid (
            registry.whereis-spawn v.system (spawned sys callbacks dash v name fsm payload) name
            ∙ free)) in
        (rw found refl, rw found (sent_iff name _))
