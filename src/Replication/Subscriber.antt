-- ===== src/Replication/Subscriber.antt =====
-- Run, session, arm and disarm of the subscriber, as a step function on what it receives.
--
-- What the requests do to the caches at the same time stands among the signals. Redis is the source
-- of the signals, and a session ends by `closed`. The gauge `connected` is kept, other metrics are not.
use synapse_gopro_worker.Prelude.{
  ℕ, ◌*◌, Bool, true, false, List, [], ◌∷◌, Option, if◌then◌else◌, ltb, Bytes, bytes,
  bytes_discrete, ℕ_discrete,
}
use synapse_gopro_worker.Cache.Lru.{get, add}
use synapse_gopro_worker.Store.Types.{Event, StateMap, FilteredStateKey, FilteredStateKey-discrete}
use synapse_gopro_worker.Store.Caches.{
  Caches, Settings, new_caches, set_caches_armed, purge_caches, drop_event, size_of_event,
  size_of_state_map, size_of_ids,
}
use synapse_gopro_worker.Replication.Commands.{
  CachesCall, arm_all, purge_all, drop_one, Part, is_text, handle,
}

pub data Phase : Type 0 where
  listening waiting stopped : Phase

-- What a request does to a cache.
pub data Use : Type 0 where
  gets_state_group : ℕ → Use
  adds_state_group : ℕ → StateMap → Use
  gets_event : Bytes → Use
  adds_event : Bytes → Event → Use
  gets_event_state_group : Bytes → Use
  adds_event_state_group : Bytes → ℕ → Use
  gets_auth_chain : Bytes → Use
  adds_auth_chain : Bytes → List Bytes → Use
  gets_filtered_state : FilteredStateKey → Use
  adds_filtered_state : FilteredStateKey → StateMap → Use

pub data Signal : Type 0 where
  subscription message : Bytes → Signal
  pong closed cancelled woke : Signal
  request : Use → Signal

pub record Worker : Type 0 where
  pub phase : Phase
  pub connected : Bool
  -- In seconds.
  pub backoff : ℕ
  pub caches : Caches

unfoldable pub use_caches : Use → Caches → Caches
use_caches (gets_state_group k) c = record c { state_groups = (get ℕ_discrete k c.state_groups).0 }
use_caches (adds_state_group k v) c = record c {
  state_groups = add ℕ_discrete size_of_state_map k v c.state_groups;
}
use_caches (gets_event k) c = record c { events = (get bytes_discrete k c.events).0 }
use_caches (adds_event k v) c = record c { events = add bytes_discrete size_of_event k v c.events }
use_caches (gets_event_state_group k) c = record c {
  event_state_group = (get bytes_discrete k c.event_state_group).0;
}
use_caches (adds_event_state_group k v) c = record c {
  event_state_group = add bytes_discrete (λ _. 64) k v c.event_state_group;
}
use_caches (gets_auth_chain k) c = record c { auth_chains = (get bytes_discrete k c.auth_chains).0 }
use_caches (adds_auth_chain k v) c = record c {
  auth_chains = add bytes_discrete size_of_ids k v c.auth_chains;
}
use_caches (gets_filtered_state k) c = record c {
  filtered_state = (get FilteredStateKey-discrete k c.filtered_state).0;
}
use_caches (adds_filtered_state k v) c = record c {
  filtered_state = add FilteredStateKey-discrete size_of_state_map k v c.filtered_state;
}

unfoldable pub apply_call : CachesCall → Caches → Caches
apply_call (arm_all b) c = set_caches_armed b c
apply_call purge_all c = purge_caches c
apply_call (drop_one id) c = drop_event id c

unfoldable pub apply_calls : List CachesCall → Caches → Caches
unfolding apply_call
apply_calls [] c = c
apply_calls (x ∷ xs) c = apply_calls xs (apply_call x c)

unfoldable pub arm : Worker → Worker
unfolding apply_calls
arm w = record w {
  caches = apply_calls (arm_all false ∷ arm_all true ∷ []) w.caches;
  connected = true;
}

unfoldable pub disarm : Worker → Worker
unfolding apply_calls
disarm w = record w { caches = apply_calls (arm_all false ∷ []) w.caches; connected = false }

-- `if backoff *= 2; backoff > maxBackoff { backoff = maxBackoff }`
unfoldable pub next_backoff : ℕ → ℕ
next_backoff b = let b' = b * 2 in if ltb 30 b' then 30 else b'

abbrev pub unstarted : Settings → Worker
unstarted settings = record {
  phase = listening;
  connected = true;
  backoff = 1;
  caches = new_caches settings;
}

-- `s.disarm("startup")`
unfoldable pub start : Settings → Worker
unfolding disarm
start settings = disarm (unstarted settings)

module _ (decode_row : Bytes → Option (List Part)) where
  -- What a session does with an event of its channel, and when it ends.
  unfoldable pub listen : Signal → Worker → Worker
  unfolding arm disarm apply_calls
  listen (subscription kind) w = if is_text kind (bytes "subscribe") then arm w else w
  listen (message payload) w = record w {
    caches = apply_calls (handle decode_row payload) w.caches;
  }
  listen closed w = record (disarm w) { phase = waiting }
  listen cancelled w = record (disarm w) { phase = stopped }
  listen (request u) w = record w { caches = use_caches u w.caches }
  listen pong w = w
  listen woke w = w

  -- The wait between two sessions.
  unfoldable pub wait : Signal → Worker → Worker
  unfolding disarm next_backoff
  wait woke w = record w { phase = listening; backoff = next_backoff w.backoff }
  wait cancelled w = record (disarm w) { phase = stopped; backoff = next_backoff w.backoff }
  wait (request u) w = record w { caches = use_caches u w.caches }
  wait _ w = w

  unfoldable pub idle : Signal → Worker → Worker
  idle (request u) w = record w { caches = use_caches u w.caches }
  idle _ w = w

  unfoldable pub step_in : Phase → Signal → Worker → Worker
  unfolding listen wait idle
  step_in listening s w = listen s w
  step_in waiting s w = wait s w
  step_in stopped s w = idle s w

  unfoldable pub step : Signal → Worker → Worker
  unfolding step_in
  step s w = step_in w.phase s w

  -- The worker after the signals, the latest first.
  unfoldable pub after : Settings → List Signal → Worker
  unfolding step start
  after settings [] = start settings
  after settings (s ∷ history) = step s (after settings history)
