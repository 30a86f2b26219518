-- ===== src/Replication/Events.antt =====
-- What the subscriber and the requests do to the cache of events, as calls on that cache alone.
use synapse_gopro_worker.Prelude.{
  ◌≡◌, refl, ap, ◌∙◌, sym, true, false, List, [], ◌∷◌, ◌++◌, map, Option, if◌then◌else◌, Bytes,
  bytes, bytes_discrete, inl, inr, Bool-cases,
}
use synapse_gopro_worker.Cache.Lru.{Lru, new_lru}
use synapse_gopro_worker.Cache.Spec.{Call, gets, adds, removes, arms, purges, step as step_lru, run}
use synapse_gopro_worker.Store.Types.{Event}
use synapse_gopro_worker.Store.Caches.{
  Caches, Settings, mb, new_caches, set_caches_armed, purge_caches, drop_event, size_of_event,
}
use synapse_gopro_worker.Replication.Commands.{
  CachesCall, arm_all, purge_all, drop_one, Part, is_text, handle,
}
use synapse_gopro_worker.Replication.Subscriber.{
  Phase, listening, waiting, stopped, listen, wait, idle, Use, gets_event, adds_event, Signal,
  subscription, message, pong, closed, cancelled, woke, request, Worker, use_caches, apply_call,
  apply_calls, disarm, step_in, step, start, after,
}

abbrev pub EventCall : Type 0
EventCall = Call Bytes Event

abbrev pub run_events : List EventCall → Lru Bytes Event → Lru Bytes Event
run_events = run bytes_discrete size_of_event

unfoldable pub call_of_use : Use → List EventCall
call_of_use (gets_event id) = gets id ∷ []
call_of_use (adds_event id e) = adds id e ∷ []
call_of_use _ = []

unfoldable pub event_call : CachesCall → EventCall
event_call (arm_all b) = arms b
event_call purge_all = purges
event_call (drop_one id) = removes id

run_events-append :
    (xs ys : List EventCall) (c : Lru Bytes Event)
    → run_events (xs ++ ys) c ≡ run_events ys (run_events xs c)
unfolding run
run_events-append [] ys c = refl
run_events-append (x ∷ xs) ys c =
    run_events-append xs ys (step_lru bytes_discrete size_of_event x c)

use_caches-events :
    (u : Use) (c : Caches) → (use_caches u c).events ≡ run_events (call_of_use u) c.events
unfolding use_caches call_of_use run step_lru
use_caches-events (gets_event id) c = refl
use_caches-events (adds_event id e) c = refl
use_caches-events _ c = refl

apply_calls-events :
    (xs : List CachesCall) (c : Caches)
    → (apply_calls xs c).events ≡ run_events (map event_call xs) c.events
unfolding apply_calls apply_call event_call run step_lru set_caches_armed purge_caches drop_event
apply_calls-events [] c = refl
apply_calls-events (arm_all b ∷ xs) c = apply_calls-events xs (set_caches_armed b c)
apply_calls-events (purge_all ∷ xs) c = apply_calls-events xs (purge_caches c)
apply_calls-events (drop_one id ∷ xs) c = apply_calls-events xs (drop_event id c)

module _ (decode_row : Bytes → Option (List Part)) where
  unfoldable pub calls_listening : Signal → List EventCall
  unfolding call_of_use event_call
  calls_listening (subscription kind) =
      if is_text kind (bytes "subscribe") then arms false ∷ arms true ∷ [] else []
  calls_listening (message payload) = map event_call (handle decode_row payload)
  calls_listening closed = arms false ∷ []
  calls_listening cancelled = arms false ∷ []
  calls_listening (request u) = call_of_use u
  calls_listening pong = []
  calls_listening woke = []

  unfoldable pub calls_waiting : Signal → List EventCall
  unfolding call_of_use
  calls_waiting cancelled = arms false ∷ []
  calls_waiting (request u) = call_of_use u
  calls_waiting s = []

  unfoldable pub calls_idle : Signal → List EventCall
  unfolding call_of_use
  calls_idle (request u) = call_of_use u
  calls_idle s = []

  unfoldable pub calls_in : Phase → Signal → List EventCall
  unfolding calls_listening calls_waiting calls_idle
  calls_in listening s = calls_listening s
  calls_in waiting s = calls_waiting s
  calls_in stopped s = calls_idle s

  listen-events :
      (s : Signal) (w : Worker)
      → (listen decode_row s w).caches.events ≡ run_events (calls_listening s) w.caches.events
  unfolding listen calls_listening run step_lru set_caches_armed
  listen-events (subscription kind) w = elim (Bool-cases (is_text kind (bytes "subscribe"))) [
    | inl e ↦ rw e refl
    | inr e ↦ rw e refl
  ]
  listen-events (message payload) w = apply_calls-events (handle decode_row payload) w.caches
  listen-events closed w = refl
  listen-events cancelled w = refl
  listen-events (request u) w = use_caches-events u w.caches
  listen-events pong w = refl
  listen-events woke w = refl

  wait-events :
      (s : Signal) (w : Worker)
      → (wait decode_row s w).caches.events ≡ run_events (calls_waiting s) w.caches.events
  unfolding wait calls_waiting run step_lru set_caches_armed
  wait-events cancelled w = refl
  wait-events (request u) w = use_caches-events u w.caches
  wait-events s w = refl

  idle-events :
      (s : Signal) (w : Worker)
      → (idle decode_row s w).caches.events ≡ run_events (calls_idle s) w.caches.events
  unfolding idle calls_idle run
  idle-events (request u) w = use_caches-events u w.caches
  idle-events s w = refl

  step_in-events :
      (p : Phase) (s : Signal) (w : Worker)
      → (step_in decode_row p s w).caches.events ≡ run_events (calls_in p s) w.caches.events
  unfolding step_in calls_in
  step_in-events listening s w = listen-events s w
  step_in-events waiting s w = wait-events s w
  step_in-events stopped s w = idle-events s w

  -- The calls that the cache of events has seen.
  unfoldable pub calls_after : Settings → List Signal → List EventCall
  calls_after settings [] = arms false ∷ []
  calls_after settings (s ∷ history) =
      calls_after settings history ++ calls_in (after decode_row settings history).phase s

  pub after-events :
      (settings : Settings) (history : List Signal)
      → (after decode_row settings history).caches.events
        ≡ run_events (calls_after settings history) (new_lru (mb settings.events_mb))
  unfolding calls_after after step start disarm new_caches run step_lru apply_calls set_caches_armed
  after-events settings [] = refl
  after-events settings (s ∷ history) =
      let w = after decode_row settings history in
      step_in-events w.phase s w
      ∙ ap (run_events (calls_in w.phase s)) (after-events settings history)
      ∙ sym (run_events-append (calls_after settings history) _ _)
