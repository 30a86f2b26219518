-- ===== src/Store/Reads.antt =====
-- GetStateGroupForEvent and GetStateForGroup of internal/store/state.go, with their caches.
use synapse_gopro_worker.Prelude.{ℕ, Bytes, Option, bytes_discrete, ℕ_discrete}
use synapse_gopro_worker.Cache.Lru.{Lru}
use synapse_gopro_worker.Store.Types.{StateMap}
use synapse_gopro_worker.Store.Caches.{size_of_state_map}
use synapse_gopro_worker.Store.Rooms.{Database, get_state_group_for_event, get_state_for_group}
use synapse_gopro_worker.Store.ReadThrough.{read_through}

unfoldable pub cached_state_group_for_event :
    Database → Bytes → Lru Bytes ℕ → Lru Bytes ℕ × Option ℕ
unfolding read_through get_state_group_for_event
cached_state_group_for_event db =
    read_through bytes_discrete (λ _. 64) (get_state_group_for_event db)

unfoldable pub cached_state_for_group :
    Database → ℕ → Lru ℕ StateMap → Lru ℕ StateMap × Option StateMap
unfolding read_through get_state_for_group
cached_state_for_group db = read_through ℕ_discrete size_of_state_map (get_state_for_group db)
