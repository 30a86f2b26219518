-- ===== src/MatrixState/EventTests.antt =====
-- /event against a small database, and the theorems there.
use synapse_gopro_worker.Prelude.{
  ℕ, ◌≡◌, ◌↔◌, refl, true, false, [], ◌∷◌, Option, none, some, Bytes, bytes, bytes_discrete,
  ℕ_discrete, lookup, insert, delete, mentions, length, List, Bool,
}
use synapse_gopro_worker.Store.Types.{Event, StateKey, StateKey-discrete}
use synapse_gopro_worker.Store.Rooms.{Database, get_event}
use synapse_gopro_worker.MatrixState.Errors.{ok}
use synapse_gopro_worker.MatrixState.Visibility.{event_visible_in_room}
use synapse_gopro_worker.MatrixState.Serving.{TransactionResponse, answer_event}
use synapse_gopro_worker.MatrixState.Seen.{MaySee, event_visible_in_room_iff}
use mathlib.Core.List.{Perm}
use mathlib.Core.List.Perm
use synapse_gopro_worker.MatrixState.Digest.{digest, add_events, new_accumulator, add_events-perm}
use synapse_gopro_worker.Cache.Lru.{new_lru}
use synapse_gopro_worker.Acl.Rules.{AclContent, ServerAcl, allowed}
use synapse_gopro_worker.Store.ReadThrough.{new_lru-Holds}
use synapse_gopro_worker.Store.Rooms.{is_host_in_room, get_current_state_event}
use synapse_gopro_worker.MissingEvents.Walk.{Tables, get_missing_events}
use synapse_gopro_worker.MatrixState.Access.{AclCache}
use synapse_gopro_worker.MatrixState.RoomAcl.{AreParsed, IsParsed, room_acl}
use synapse_gopro_worker.MatrixState.MissingEvents.{MissingEventsResponse, answer_missing_events}
use synapse_gopro_worker.MatrixState.Found.{ShowsFound, answer_missing_events-ShowsFound}
use synapse_gopro_worker.MatrixState.Shown.{Shows, answer_event-Shows}

abbrev event : Bytes → Bytes → Option Bytes → Bytes → Event
event id event_type key json = record {
  event_id = id;
  room_id = bytes "!r";
  event_type = event_type;
  state_key = key;
  room_version = bytes "10";
  json = json;
  internal_metadata = [];
  stream_ordering = 1;
  outlier = false;
  format_version = 3;
  rejected_reason = [];
  redacted_by = [];
}

abbrev visibility : StateKey
visibility = record { event_type = bytes "m.room.history_visibility"; state_key = [] }

abbrev member_of : Bytes → StateKey
member_of user = record { event_type = bytes "m.room.member"; state_key = user }

-- The JSON of an event stands for what is read from it. One server has joined since the message.
abbrev db : Database
db = record {
  current_state_events =
      record {
        room_id = bytes "!r";
        event_type = bytes "m.room.member";
        state_key = bytes "@u:h.org";
        membership = some (bytes "join");
        event_id = bytes "$m";
      }
      ∷ record {
        room_id = bytes "!r";
        event_type = bytes "m.room.member";
        state_key = bytes "@v:late.org";
        membership = some (bytes "join");
        event_id = bytes "$n";
      }
      ∷ [];
  partial_state_rooms = [];
  events =
      event (bytes "$t") (bytes "m.room.message") none (bytes "text")
      ∷ event (bytes "$v") (bytes "m.room.history_visibility") (some []) (bytes "joined")
      ∷ event (bytes "$m") (bytes "m.room.member") (some (bytes "@u:h.org")) (bytes "join")
      ∷ [];
  event_to_state_groups = (bytes "$t", some 2) ∷ [];
  groups = record {
    state_group_edges = [];
    state_groups_state =
        record { state_group = 2; key = visibility; event_id = bytes "$v" }
        ∷ record { state_group = 2; key = member_of (bytes "@u:h.org"); event_id = bytes "$m" }
        ∷ [];
  };
  erased_users = [];
}

abbrev sender : Bytes → Option Bytes
sender json = some (bytes "@u:h.org")

abbrev whole : Bytes → Bytes
whole json = json

abbrev pruned : Event → Option Bytes
pruned ev = some (bytes "pruned")

abbrev unchanged : ℕ → Bytes → Option Bytes
unchanged now body = some body

abbrev message : Event
message = event (bytes "$t") (bytes "m.room.message") none (bytes "text")

abbrev response : Bytes → TransactionResponse
response body = record { origin = bytes "here.org"; origin_server_ts = 5; pdus = body ∷ [] }

program : Unit {0}
unfolding answer_event answer_missing_events get_missing_events get_current_state_event allowed
    mentions bytes_discrete ℕ_discrete StateKey-discrete lookup insert delete
program = tt

-- A server that was in the room sees the message, and one that came later does not.
shown :
    answer_event sender whole whole pruned unchanged db
      (bytes "h.org")
      (bytes "here.org")
      5
      (bytes "$t")
    ≡ some (ok (response (bytes "text")))
unfolding program
shown = refl

redacted :
    answer_event sender whole whole pruned unchanged db
      (bytes "late.org")
      (bytes "here.org")
      5
      (bytes "$t")
    ≡ some (ok (response (bytes "pruned")))
unfolding program
redacted = refl

hidden :
    event_visible_in_room sender whole whole db message (bytes "late.org") (bytes "here.org") false
    ≡ ok false
unfolding program
hidden = refl

event_visible_in_room_iff_example :
    (false ≡ true)
    ↔ MaySee sender whole whole db (bytes "late.org") message (bytes "here.org") false
event_visible_in_room_iff_example =
    event_visible_in_room_iff sender whole whole db (bytes "late.org") message (bytes "here.org")
      false false hidden

answer_event-Shows_example :
    (ev : Event) × (get_event db (bytes "$t") ≡ some ev)
    × Shows sender whole whole pruned unchanged db
        (bytes "h.org")
        (bytes "here.org")
        5
        ev
        (response (bytes "text"))
answer_event-Shows_example =
    answer_event-Shows sender whole whole pruned unchanged db (bytes "h.org") (bytes "here.org") 5
      (bytes "$t") (response (bytes "text")) shown

abbrev graph : Tables
graph = record {
  events =
      record { event_id = bytes "$t"; room_id = bytes "!r" }
      ∷ record { event_id = bytes "$x"; room_id = bytes "!r" }
      ∷ [];
  event_edges = record { event_id = bytes "$x"; prev_event_id = bytes "$t"; is_state = false } ∷ [];
}

abbrev as_is : List Bytes → List Bytes
as_is ids = ids

abbrev nothing : Bytes → Bool
nothing id = false

abbrev everything : Bytes → Bool
everything body = true

abbrev unread : Bytes → Option AclContent
unread json = none

abbrev unit_size : Option ServerAcl → ℕ
unit_size acl = 1

abbrev no_ipv4 : Bytes → Bool
no_ipv4 name = false

abbrev acls : AclCache
acls = new_lru 1000

acls-AreParsed : AreParsed unread unit_size db acls
acls-AreParsed = new_lru-Holds bytes_discrete unit_size (IsParsed unread unit_size db) 1000

abbrev filled : MissingEventsResponse
filled = record { events = bytes "text" ∷ []; walk_truncated = false }

found_message :
    (answer_missing_events sender whole whole pruned unchanged nothing everything graph as_is as_is
      unread unit_size no_ipv4 db
      (bytes "h.org")
      (bytes "here.org")
      5
      (bytes "!r")
      []
      (bytes "$x" ∷ [])
      10
      acls).1
    ≡ ok filled
unfolding program
found_message = refl

answer_missing_events-ShowsFound_example :
    (allowed no_ipv4 (room_acl unread unit_size db (bytes "!r")) (bytes "h.org") ≡ true)
    × (is_host_in_room db (bytes "!r") (bytes "h.org") ≡ some true)
    × ShowsFound sender whole whole pruned unchanged nothing everything db
        (bytes "h.org")
        (bytes "here.org")
        5
        graph
        as_is
        as_is
        (bytes "!r")
        []
        (bytes "$x" ∷ [])
        10
        filled
answer_missing_events-ShowsFound_example =
    answer_missing_events-ShowsFound sender whole whole pruned unchanged nothing everything db
      (bytes "h.org") (bytes "here.org") 5 graph as_is as_is (bytes "!r") [] (bytes "$x" ∷ []) 10
      unread unit_size no_ipv4 acls filled acls-AreParsed found_message

abbrev one_then_two : List Bytes
one_then_two = bytes "one" ∷ bytes "two" ∷ []

abbrev two_then_one : List Bytes
two_then_one = bytes "two" ∷ bytes "one" ∷ []

turned_round : Perm one_then_two two_then_one
turned_round = Perm.swap (bytes "two") (bytes "one") []

add_events-perm_example :
    (digest (add_events length one_then_two (new_accumulator length))
      ≡ digest (add_events length two_then_one (new_accumulator length)))
    × ((add_events length one_then_two (new_accumulator length)).count
        ≡ (add_events length two_then_one (new_accumulator length)).count)
add_events-perm_example = add_events-perm length one_then_two two_then_one turned_round
