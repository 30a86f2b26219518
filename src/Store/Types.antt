-- ===== src/Store/Types.antt =====
-- The values that internal/store hands out: events (event.go) and state maps (state.go).
use synapse_gopro_worker.Prelude.{
  ℕ, Bool, true, false, List, Option, none, some, Bytes, bytes_discrete, ℕ_discrete, is_yes, not,
}

pub record Event : Type 0 where
  pub event_id : Bytes
  pub room_id : Bytes
  pub event_type : Bytes
  pub state_key : Option Bytes
  pub room_version : Bytes
  pub json : Bytes
  pub internal_metadata : Bytes
  pub stream_ordering : ℕ
  pub outlier : Bool
  pub format_version : ℕ
  pub rejected_reason : Bytes
  pub redacted_by : Bytes

pub record StateKey : Type 0 where
  pub event_type : Bytes
  pub state_key : Bytes

unfoldable pub StateKey-discrete : Discrete StateKey
unfolding bytes_discrete
StateKey-discrete = hlevel bytes_discrete

-- A state map: the events of a room's state, one for each key.
abbrev pub StateMap : Type 0
StateMap = List (StateKey × Bytes)

-- The key of a filtered view of a state group: the group, and a canonical string for the filter.
pub record FilteredStateKey : Type 0 where
  pub group : ℕ
  pub filter : Bytes

unfoldable pub FilteredStateKey-discrete : Discrete FilteredStateKey
unfolding bytes_discrete ℕ_discrete
FilteredStateKey-discrete = hlevel (bytes_discrete, ℕ_discrete)

-- `s == ""`
unfoldable pub is_empty : Bytes → Bool
unfolding bytes_discrete
is_empty s = is_yes (bytes_discrete s List.[])

unfoldable pub is_redacted : Event → Bool
unfolding is_empty
is_redacted e = not (is_empty e.redacted_by)

unfoldable pub is_state_event : Event → Bool
is_state_event e = elim e.state_key [ none ↦ false | some k ↦ true ]
