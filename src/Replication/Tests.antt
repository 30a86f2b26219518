-- ===== src/Replication/Tests.antt =====
-- The subscriber at concrete signals, and the theorems there.
use synapse_gopro_worker.Prelude.{
  ◌≡◌, refl, false, List, [], ◌∷◌, Option, none, some, Bytes, bytes, bytes_discrete, arith,
  if◌then◌else◌, lookup, insert, delete, ◌↔◌,
}
use synapse_gopro_worker.Replication.Commands.{
  Key, Part, handle, handle_cache_row, purge_all, drop_one, is_text,
}
use synapse_gopro_worker.Replication.Lines.{
  PassedOver, rdata_line, handle-rdata_line, handle_cache_row-nil,
}
use synapse_gopro_worker.Store.Types.{Event}
use synapse_gopro_worker.Replication.Subscriber.{
  after, Signal, message, request, adds_event, subscription, use_caches,
}
use synapse_gopro_worker.Store.Caches.{Settings, set_caches_armed, mb, size_of_event, new_caches}
use synapse_gopro_worker.Replication.Armed.{IsGuarded, after-IsGuarded}
use synapse_gopro_worker.Cache.Lru.{
  get, add_locked, evict_loop, get_locked, add, new_lru, set_armed,
}
use synapse_gopro_worker.Replication.Fresh.{IsFresh}
use synapse_gopro_worker.Replication.Answers.{limit, get-after-IsFresh}

-- One row that drops an event, and one that purges a room; nothing else can be read.
abbrev decode : Bytes → Option (List Part)
decode row =
    if is_text row (bytes "drop e")
    then some (
        Part.text (bytes "have_seen_event")
        ∷ Part.array (Key.text (bytes "!r") ∷ Key.text (bytes "$e") ∷ [])
        ∷ [])
    else if is_text row (bytes "presence")
    then some (Part.text (bytes "user_presence") ∷ Part.null ∷ [])
    else none

drops_event : handle decode (bytes "RDATA caches main 7 drop e") ≡ drop_one (bytes "$e") ∷ []
unfolding handle bytes_discrete
drops_event = refl

purges_on_nonsense : handle decode (bytes "RDATA caches main") ≡ purge_all ∷ []
unfolding handle bytes_discrete
purges_on_nonsense = refl

ignores_others : handle decode (bytes "POSITION caches main") ≡ []
unfolding handle bytes_discrete
ignores_others = refl

handle-rdata_line_example :
    handle decode (rdata_line (bytes "caches") (bytes "main") (bytes "7") (bytes "drop e")) ≡ (
      if is_text (bytes "caches") (bytes "caches")
      then handle_cache_row decode (bytes "drop e")
      else [])
handle-rdata_line_example =
    handle-rdata_line decode (bytes "caches") (bytes "main") (bytes "7") (bytes "drop e")
      (omega arith) (omega arith) (omega arith)

handle_cache_row-nil_example :
    (handle_cache_row decode (bytes "presence") ≡ [])
    ↔ PassedOver decode (decode (bytes "presence"))
handle_cache_row-nil_example = handle_cache_row-nil decode (bytes "presence")

abbrev settings : Settings
settings = record {
  state_groups_mb = 1;
  events_mb = 1;
  event_state_groups_mb = 1;
  auth_chains_mb = 1;
  filtered_state_mb = 1;
}

abbrev event : Event
event = record {
  event_id = bytes "$e";
  room_id = bytes "!r";
  event_type = bytes "m.room.message";
  state_key = none;
  room_version = bytes "10";
  json = bytes "{}";
  internal_metadata = [];
  stream_ordering = 1;
  outlier = false;
  format_version = 3;
  rejected_reason = [];
  redacted_by = [];
}

-- The latest comes first.
abbrev signals : List Signal
signals =
    message (bytes "RDATA caches main 7 presence")
    ∷ request (adds_event (bytes "$e") event)
    ∷ subscription (bytes "subscribe")
    ∷ []

program : Unit {0}
unfolding after use_caches new_caches handle bytes_discrete get add_locked evict_loop get_locked add
    new_lru set_caches_armed set_armed mb size_of_event lookup insert delete
program = tt

answered :
    (get bytes_discrete (bytes "$e") (after decode settings signals).caches.events).1 ≡ some event
unfolding program
answered = refl

after-IsGuarded_example : IsGuarded decode (after decode settings signals)
after-IsGuarded_example = after-IsGuarded decode settings signals

get-after-IsFresh_example : IsFresh (limit decode settings) decode (bytes "$e") event signals
get-after-IsFresh_example = get-after-IsFresh decode settings signals (bytes "$e") event answered
