-- ===== src/Store/Tests.antt =====
-- Reads of a small database, and the theorems there.
use synapse_gopro_worker.Prelude.{
  ◌≡◌, refl, Bool, true, [], ◌∷◌, some, bytes, bytes_discrete, ℕ_discrete, arith, lookup, insert,
  delete,
}
use synapse_gopro_worker.Cache.Lru.{new_lru}
use synapse_gopro_worker.Store.Types.{
  StateKey, StateKey-discrete, StateMap, FilteredStateKey, FilteredStateKey-discrete,
}
use synapse_gopro_worker.Store.Caches.{Caches, size_of_state_map}
use synapse_gopro_worker.Store.StateGroups.{GroupTables, state_where, state_for_group}
use synapse_gopro_worker.Store.Newest.{IsNewest, state_where-IsNewest}
use synapse_gopro_worker.Store.ReadThrough.{
  read_through, IsHonest, read_through-IsHonest, new_lru-Holds,
}
use synapse_gopro_worker.Store.Filtered.{of_types, cached_filtered_state}
use synapse_gopro_worker.Store.CachedViews.{
  Answers, cached_filtered_state-Answers, AreSound, IsView,
}

abbrev topic : StateKey
topic = record { event_type = bytes "topic"; state_key = [] }

abbrev name : StateKey
name = record { event_type = bytes "name"; state_key = [] }

-- Group 7 is a delta on group 3.
abbrev tables : GroupTables
tables = record {
  state_group_edges = record { state_group = 7; prev_state_group = 3 } ∷ [];
  state_groups_state =
      record { state_group = 3; key = topic; event_id = bytes "$a" }
      ∷ record { state_group = 7; key = topic; event_id = bytes "$b" }
      ∷ record { state_group = 3; key = name; event_id = bytes "$c" }
      ∷ [];
}

newer_wins : state_for_group tables 7 ≡ some ((topic, bytes "$b") ∷ (name, bytes "$c") ∷ [])
unfolding state_for_group StateKey-discrete ℕ_discrete bytes_discrete lookup insert delete
newer_wins = refl

state_where-IsNewest_example :
    (m : StateMap) × (state_where (λ r. true) tables 7 ≡ some m)
    × ((k : StateKey) → IsNewest (λ r. true) tables 7 k (lookup StateKey-discrete k m))
state_where-IsNewest_example = state_where-IsNewest (λ r. true) tables 7 (omega arith)

read_through-IsHonest_example :
    ((read_through ℕ_discrete size_of_state_map (state_for_group tables) 7 (new_lru 1000)).1
      ≡ state_for_group tables 7)
    × IsHonest ℕ_discrete size_of_state_map
        (state_for_group tables)
        (read_through ℕ_discrete size_of_state_map (state_for_group tables) 7 (new_lru 1000)).0
read_through-IsHonest_example =
    read_through-IsHonest ℕ_discrete size_of_state_map (state_for_group tables) 7 (new_lru 1000)
      (new_lru-Holds ℕ_discrete size_of_state_map (λ g m. state_for_group tables g ≡ some m) 1000)

abbrev topics : FilteredStateKey → StateKey → Bool
topics key = of_types (bytes "topic" ∷ [])

abbrev topic_key : FilteredStateKey
topic_key = record { group = 7; filter = bytes "types:topic" }

abbrev caches : Caches
caches = record {
  state_groups = new_lru 1000;
  events = new_lru 1000;
  event_state_group = new_lru 1000;
  auth_chains = new_lru 1000;
  filtered_state = new_lru 1000;
}

caches-AreSound : AreSound tables topics caches
caches-AreSound = record {
  groups =
      new_lru-Holds ℕ_discrete size_of_state_map (λ g m. state_for_group tables g ≡ some m) 1000;
  views = new_lru-Holds FilteredStateKey-discrete size_of_state_map (IsView tables topics) 1000;
}

cached_filtered_state-Answers_example :
    Answers tables topics topic_key
      (cached_filtered_state (of_types (bytes "topic" ∷ [])) tables topic_key caches)
cached_filtered_state-Answers_example =
    cached_filtered_state-Answers tables topics (omega arith) topic_key
      (of_types (bytes "topic" ∷ [])) caches refl caches-AreSound
