-- ===== src/State.antt =====
-- The runtime state of a machine (finitomata/src/state.rs): the bounded history, the lifecycle and the
-- record that carries them. A `VecDeque` is the list of its elements, the oldest first.
pub mod Bounds
pub mod Runs
pub mod Window
pub mod History
use finitomata_rs.Base.{
  ℕ, ◌+◌, ◌%◌, ◌^◌, Bool, true, false, Option, none, some, List, [], ◌∷◌, ◌++◌, length, leb,
  is_empty, if◌then◌else◌,
}
use finitomata_rs.Base.Ord.{Ord, same}
use finitomata_rs.Base.Text.{Text}
use finitomata_rs.Error.{FinitomataError}

pub data Lifecycle : Type 0 where
  created loaded running terminating terminated : Lifecycle

-- `matches!(lifecycle, Lifecycle::Running)`
abbrev pub is_running : Lifecycle → Bool
is_running running = true
is_running _ = false

pub record HistoryEntry (S : Type 0) : Type 0 where
  pub state : S
  pub count : ℕ

pub record BoundedHistory (S : Type 0) : Type 0 where
  pub entries : List (HistoryEntry S)
  pub max_size : ℕ

-- `VecDeque::back`
abbrev pub back {ℓ} : {A : Type ℓ} → List A → Option A
back [] = none
back (x ∷ []) = some x
back (x ∷ y ∷ xs) = back (y ∷ xs)

-- `VecDeque::pop_front`, the element left aside.
abbrev pub pop_front {ℓ} : {A : Type ℓ} → List A → List A
pop_front [] = []
pop_front (x ∷ xs) = xs

-- `usize` has 64 bits, and its sum wraps as in a release build.
abbrev pub usize_mod : ℕ
usize_mod = 2 ^ 64

-- `last.count += 1` through `back_mut`.
abbrev pub bump_back : {S : Type 0} → List (HistoryEntry S) → List (HistoryEntry S)
bump_back [] = []
bump_back (x ∷ []) = record x { count = (x.count + 1) % usize_mod } ∷ []
bump_back (x ∷ y ∷ xs) = x ∷ bump_back (y ∷ xs)

module _ {S : Type 0} where
  unfoldable pub new_history : ℕ → BoundedHistory S
  new_history max_size = record { entries = []; max_size = max_size }

  unfoldable pub last : BoundedHistory S → Option (HistoryEntry S)
  last h = back h.entries

  unfoldable pub len : BoundedHistory S → ℕ
  len h = length h.entries

  unfoldable pub history_is_empty : BoundedHistory S → Bool
  history_is_empty h = is_empty h.entries

module _ {S : Type 0} ⦃so : Ord S⦄ where
  -- The first `if` of `push`: is the last entry one of this state?
  repeats : List (HistoryEntry S) → S → Bool
  repeats entries state = elim (back entries) [ none ↦ false | some last ↦ same last.state state ]

  -- `push` without the repeat: the oldest entry makes room.
  append_entry : BoundedHistory S → S → BoundedHistory S
  append_entry h state =
      let room = if leb h.max_size (length h.entries) then pop_front h.entries else h.entries in
      record h { entries = room ++ record { state = state; count = 1 } ∷ [] }

  unfoldable pub push : BoundedHistory S → S → BoundedHistory S
  unfolding repeats append_entry
  push h state =
      if repeats h.entries state
      then record h { entries = bump_back h.entries }
      else append_entry h state

pub record FsmState (S P : Type 0) : Type 0 where
  pub name : Text
  pub current : S
  pub payload : P
  pub history : BoundedHistory S
  pub lifecycle : Lifecycle
  pub last_error : Option FinitomataError

abbrev pub history_size : ℕ
history_size = 32

module _ {S P : Type 0} where
  unfoldable pub set_payload : FsmState S P → P → FsmState S P
  set_payload s payload = record s { payload = payload }

  unfoldable pub set_error : FsmState S P → FinitomataError → FsmState S P
  set_error s error = record s { last_error = some error }

  unfoldable pub clear_error : FsmState S P → FsmState S P
  clear_error s = record s { last_error = none }

module _ {S P : Type 0} ⦃so : Ord S⦄ where
  unfoldable pub new_state : Text → S → P → FsmState S P
  unfolding new_history push
  new_state name initial_state payload = record {
    name = name;
    current = initial_state;
    payload = payload;
    history = push (new_history history_size) initial_state;
    lifecycle = created;
    last_error = none;
  }

  unfoldable pub transition_to : FsmState S P → S → FsmState S P
  unfolding push
  transition_to s new_state = record s { current = new_state; history = push s.history new_state }
