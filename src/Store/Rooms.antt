-- ===== src/Store/Rooms.antt =====
-- The reads about a room of internal/store/room.go, and those of one event: GetEvent of event.go and
-- GetStateGroupForEvent and GetStateForGroup of state.go, which go through a cache.
--
-- A table is the list of its rows, in the order in which the database gives them; a row of `events` is
-- what the join of eventQuery and applyRedactions make of it. Errors of the connection are not
-- modelled.
use synapse_gopro_worker.Prelude.{
  ℕ, Bool, true, false, ◌&&◌, List, [], ◌∷◌, ◌++◌, Option, none, some, if◌then◌else◌, ◌==◌, Bytes,
  bytes, bytes_discrete, is_yes, mentions,
}
use synapse_gopro_worker.Store.Types.{Event, StateMap}
use synapse_gopro_worker.Store.StateGroups.{GroupTables, state_for_group}
use synapse_gopro_worker.Store.Filtered.{has_suffix, has_wildcard}

-- A row of current_state_events, with the membership of its event.
pub record CurrentRow : Type 0 where
  pub room_id : Bytes
  pub event_type : Bytes
  pub state_key : Bytes
  pub membership : Option Bytes
  pub event_id : Bytes

pub record Database : Type 0 where
  pub current_state_events : List CurrentRow
  pub partial_state_rooms : List Bytes
  pub events : List Event
  pub event_to_state_groups : List (Bytes × Option ℕ)
  pub groups : GroupTables
  pub erased_users : List Bytes

abbrev pub same : Bytes → Bytes → Bool
same a b = is_yes (bytes_discrete a b)

-- `domainFromID`: what stands behind the first colon.
unfoldable pub domain_from_id : Bytes → Bytes
domain_from_id [] = []
domain_from_id (c ∷ s) = if c == 58 then s else domain_from_id s

unfoldable pub is_joined : Option Bytes → Bool
is_joined none = false
is_joined (some m) = same m (bytes "join")

-- The query for a joined member: `state_key LIKE '%:host' LIMIT 1`.
unfoldable pub joined_member : Bytes → Bytes → List CurrentRow → Option Bytes
unfolding has_suffix is_joined
joined_member room host [] = none
joined_member room host (r ∷ rows) =
    if is_joined r.membership
      && (same r.event_type (bytes "m.room.member")
          && (same r.room_id room && has_suffix (bytes ":" ++ host) r.state_key))
    then some r.state_key
    else joined_member room host rows

-- `none` is an error: a host with a wildcard, or a member whose domain is not the host.
unfoldable pub is_host_in_room : Database → Bytes → Bytes → Option Bool
unfolding joined_member domain_from_id has_wildcard
is_host_in_room db room host =
    if has_wildcard host then none else elim (joined_member room host db.current_state_events) [
      | none ↦ some false
      | some user ↦ if same (domain_from_id user) host then some true else none
    ]

unfoldable pub is_partial_state_room : Database → Bytes → Bool
is_partial_state_room db room = mentions room db.partial_state_rooms

unfoldable pub find_event : Bytes → List Event → Option Event
find_event id [] = none
find_event id (e ∷ events) = if same e.event_id id then some e else find_event id events

-- `none` is `ErrNotFound`.
unfoldable pub get_event : Database → Bytes → Option Event
unfolding find_event
get_event db id = find_event id db.events

-- The current event of a state key, with its JSON, if both are held.
unfoldable pub current_event :
    Bytes → Bytes → Bytes → List Event → List CurrentRow → Option (Bytes × Bytes)
unfolding find_event
current_event room event_type state_key events [] = none
current_event room event_type state_key events (r ∷ rows) =
    let rest = current_event room event_type state_key events rows in
    if same r.room_id room && (same r.event_type event_type && same r.state_key state_key)
    then elim (find_event r.event_id events) [ none ↦ rest | some e ↦ some (r.event_id, e.json) ]
    else rest

unfoldable pub get_current_state_event : Database → Bytes → Bytes → Bytes → Option (Bytes × Bytes)
unfolding current_event
get_current_state_event db room event_type state_key =
    current_event room event_type state_key db.events db.current_state_events

-- A row without a group is an outlier's, and counts as none.
unfoldable pub state_group_of : Bytes → List (Bytes × Option ℕ) → Option ℕ
state_group_of id [] = none
state_group_of id ((e, g) ∷ rows) = if same e id then g else state_group_of id rows

unfoldable pub get_state_group_for_event : Database → Bytes → Option ℕ
unfolding state_group_of
get_state_group_for_event db id = state_group_of id db.event_to_state_groups

unfoldable pub get_state_for_group : Database → ℕ → Option StateMap
unfolding state_for_group
get_state_for_group db g = state_for_group db.groups g
