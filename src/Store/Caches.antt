-- ===== src/Store/Caches.antt =====
-- The five caches of internal/store/cache.go, and what is done to all of them at once.
use synapse_gopro_worker.Prelude.{
  ℕ, ◌+◌, ◌*◌, Bool, List, [], ◌∷◌, Bytes, length, bytes_discrete, ◌^◌,
}
use synapse_gopro_worker.Cache.Lru.{Lru, new_lru, purge, set_armed, remove}
use synapse_gopro_worker.Store.Types.{Event, StateMap, FilteredStateKey}

pub record Caches : Type 0 where
  pub state_groups : Lru ℕ StateMap
  pub events : Lru Bytes Event
  pub event_state_group : Lru Bytes ℕ
  pub auth_chains : Lru Bytes (List Bytes)
  pub filtered_state : Lru FilteredStateKey StateMap

unfoldable pub size_of_state_map : StateMap → ℕ
size_of_state_map [] = 0
size_of_state_map ((k, v) ∷ m) =
    length k.event_type + length k.state_key + length v + 64 + size_of_state_map m

unfoldable pub size_of_event : Event → ℕ
size_of_event e =
    length e.json
    + length e.internal_metadata
    + length e.event_id
    + length e.room_id
    + length e.event_type
    + length e.room_version
    + 128

unfoldable pub size_of_ids : List Bytes → ℕ
size_of_ids [] = 0
size_of_ids (id ∷ ids) = length id + 16 + size_of_ids ids

-- The sizes in megabytes; zero where a cache is switched off.
pub record Settings : Type 0 where
  pub state_groups_mb : ℕ
  pub events_mb : ℕ
  pub event_state_groups_mb : ℕ
  pub auth_chains_mb : ℕ
  pub filtered_state_mb : ℕ

-- `MB`
unfoldable pub mb : ℕ → ℕ
mb n = n * 2 ^ 20

unfoldable pub new_caches : Settings → Caches
unfolding mb
new_caches s = record {
  state_groups = new_lru (mb s.state_groups_mb);
  events = new_lru (mb s.events_mb);
  event_state_group = new_lru (mb s.event_state_groups_mb);
  auth_chains = new_lru (mb s.auth_chains_mb);
  filtered_state = new_lru (mb s.filtered_state_mb);
}

unfoldable pub set_caches_armed : Bool → Caches → Caches
set_caches_armed armed c = record {
  state_groups = set_armed armed c.state_groups;
  events = set_armed armed c.events;
  event_state_group = set_armed armed c.event_state_group;
  auth_chains = set_armed armed c.auth_chains;
  filtered_state = set_armed armed c.filtered_state;
}

unfoldable pub purge_caches : Caches → Caches
purge_caches c = record {
  state_groups = purge c.state_groups;
  events = purge c.events;
  event_state_group = purge c.event_state_group;
  auth_chains = purge c.auth_chains;
  filtered_state = purge c.filtered_state;
}

unfoldable pub drop_event : Bytes → Caches → Caches
drop_event event_id c = record c {
  events = remove bytes_discrete event_id c.events;
  event_state_group = remove bytes_discrete event_id c.event_state_group;
}
