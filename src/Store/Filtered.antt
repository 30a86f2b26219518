-- ===== src/Store/Filtered.antt =====
-- Filtered views of the state at a group: GetFilteredStateForGroup, GetServerMembershipStateForGroup
-- and cachedFilteredState of internal/store/state.go.
--
-- A server name holds no `%` and no `_` when the query is made, nor a backslash, so `LIKE '%:name'` is
-- a test on the end of the text. Database errors are not modelled, so that a query answers `none` only
-- if it runs out of fuel.
use synapse_gopro_worker.Prelude.{
  ℕ, Bool, false, ◌&&◌, ◌||◌, List, [], ◌∷◌, ◌++◌, Option, none, some, if◌then◌else◌, ◌==◌, Bytes,
  bytes, bytes_discrete, is_yes, mentions, ℕ_discrete,
}
use synapse_gopro_worker.Cache.Lru.{get, add}
use synapse_gopro_worker.Store.Types.{
  StateKey, StateMap, FilteredStateKey, FilteredStateKey-discrete,
}
use synapse_gopro_worker.Store.Caches.{Caches, size_of_state_map}
use synapse_gopro_worker.Store.StateGroups.{GroupTables, state_where}

-- `strings.HasSuffix`
unfoldable pub has_suffix : Bytes → Bytes → Bool
unfolding bytes_discrete
has_suffix suffix [] = is_yes (bytes_discrete suffix [])
has_suffix suffix (c ∷ s) = is_yes (bytes_discrete suffix (c ∷ s)) || has_suffix suffix s

-- `strings.ContainsAny(s, "%_")`
unfoldable pub has_wildcard : Bytes → Bool
has_wildcard [] = false
has_wildcard (c ∷ s) = (c == 37) || ((c == 95) || has_wildcard s)

-- The two filters, as tests on the key of a row.
unfoldable pub of_types : List Bytes → StateKey → Bool
of_types types k = mentions k.event_type types

unfoldable pub of_server : Bytes → StateKey → Bool
unfolding has_suffix
of_server server k =
    is_yes (bytes_discrete k.event_type (bytes "m.room.member"))
    && has_suffix (bytes ":" ++ server) k.state_key

-- filterByTypes and filterMembersForServer
unfoldable pub filter_state : (StateKey → Bool) → StateMap → StateMap
filter_state test [] = []
filter_state test ((k, id) ∷ m) =
    if test k then (k, id) ∷ filter_state test m else filter_state test m

-- A filtered walk.
unfoldable pub filtered_state : (StateKey → Bool) → GroupTables → ℕ → Option StateMap
unfolding state_where
filtered_state test = state_where (λ r. test r.key)

-- What is added to the cache of filtered views, and answered.
unfoldable pub keep_filtered : FilteredStateKey → StateMap → Caches → Caches × Option StateMap
keep_filtered key m c = (
  record c {
    filtered_state = add FilteredStateKey-discrete size_of_state_map key m c.filtered_state;
  },
  some m,
)

unfoldable pub from_database :
    FilteredStateKey → Option StateMap → Caches → Caches × Option StateMap
unfolding keep_filtered
from_database key none c = (c, none)
from_database key (some m) c = keep_filtered key m c

-- The second source: the whole map, if it is cached.
unfoldable pub from_whole :
    (StateKey → Bool)
    → GroupTables
    → FilteredStateKey
    → Option StateMap
    → Caches
    → Caches × Option StateMap
unfolding keep_filtered from_database
from_whole test t key none c = from_database key (filtered_state test t key.group) c
from_whole test t key (some whole) c = keep_filtered key (filter_state test whole) c

-- The first source: the filtered view itself.
unfoldable pub from_view :
    (StateKey → Bool)
    → GroupTables
    → FilteredStateKey
    → Option StateMap
    → Caches
    → Caches × Option StateMap
unfolding from_whole
from_view test t key (some m) c = (c, some m)
from_view test t key none c =
    let (groups, whole) = get ℕ_discrete key.group c.state_groups in
    from_whole test t key whole (record c { state_groups = groups })

unfoldable pub cached_filtered_state :
    (StateKey → Bool) → GroupTables → FilteredStateKey → Caches → Caches × Option StateMap
unfolding from_view
cached_filtered_state test t key c =
    let (views, m) = get FilteredStateKey-discrete key c.filtered_state in
    from_view test t key m (record c { filtered_state = views })

-- The filter of a key: "types:" and the sorted types, joined by commas.
unfoldable pub join_types : List Bytes → Bytes
join_types [] = []
join_types (t ∷ []) = t
join_types (t ∷ u ∷ types) = t ++ bytes "," ++ join_types (u ∷ types)

module _ (sort : List Bytes → List Bytes) where
  unfoldable pub types_key : ℕ → List Bytes → FilteredStateKey
  unfolding join_types
  types_key group types = record {
    group = group;
    filter = bytes "types:" ++ join_types (sort types);
  }

  unfoldable pub get_filtered_state_for_group :
      GroupTables → ℕ → List Bytes → Caches → Caches × Option StateMap
  unfolding cached_filtered_state types_key of_types
  get_filtered_state_for_group t group types =
      cached_filtered_state (of_types types) t (types_key group types)

unfoldable pub members_key : ℕ → Bytes → FilteredStateKey
members_key group server = record { group = group; filter = bytes "members:" ++ server }

-- `none` stands for the error too: a server name with a wildcard is refused.
unfoldable pub get_server_membership_state_for_group :
    GroupTables → ℕ → Bytes → Caches → Caches × Option StateMap
unfolding cached_filtered_state members_key of_server has_wildcard
get_server_membership_state_for_group t group server c =
    if has_wildcard server
    then (c, none)
    else cached_filtered_state (of_server server) t (members_key group server) c
