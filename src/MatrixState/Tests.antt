-- ===== src/MatrixState/Tests.antt =====
-- Requests against a small database, and the theorems there.
use synapse_gopro_worker.Prelude.{
  ℕ, ◌≡◌, ◌↔◌, refl, Bool, false, List, [], ◌∷◌, Option, none, some, Bytes, bytes, bytes_discrete,
  ℕ_discrete, arith, lookup, insert, delete, In, mentions, true,
}
use synapse_gopro_worker.Cache.Lru.{new_lru, get, add_locked, add, get_locked}
use synapse_gopro_worker.Acl.Rules.{AclContent, ServerAcl, Field, Item, allowed, parse_server_acl}
use synapse_gopro_worker.Store.Types.{Event, StateKey, StateKey-discrete, StateMap, is_empty}
use synapse_gopro_worker.Store.ReadThrough.{new_lru-Holds}
use synapse_gopro_worker.Store.Rooms.{
  CurrentRow, Database, get_state_for_group, is_host_in_room, is_partial_state_room,
  get_state_group_for_event, get_event, get_current_state_event,
}
use synapse_gopro_worker.MatrixState.Access.{check_access, AclCache, parse_acl}
use synapse_gopro_worker.MatrixState.StateIds.{
  state_ids_for_event, state_ids, StateIdsResponse, AuthDatabase, own_key,
}
use synapse_gopro_worker.MatrixState.StateBefore.{
  Continues, state_ids_for_event-before, IsAnswerable,
}
use synapse_gopro_worker.MatrixState.Gate.{IsGate, check_access-IsGate, MayRead}
use synapse_gopro_worker.MatrixState.RoomAcl.{AreParsed, IsParsed}
use synapse_gopro_worker.MatrixState.Errors.{ok, refused, err_host_not_in_room}
use synapse_gopro_worker.Acl.Glob.{glob_to_regex, match_string}
use synapse_gopro_worker.MatrixState.Served.{state_ids_authorised}
use synapse_gopro_worker.AuthChain.Walk.{
  auth_chain_ids_with_fallback, auth_chain_ids_recursive, walk, absorb, query_batches,
}
use synapse_gopro_worker.AuthChain.Query.{compute_auth_chain, covers, positions_of}

abbrev no_ipv4 : Bytes → Bool
no_ipv4 name = false

abbrev unit_size : Option ServerAcl → ℕ
unit_size acl = 1

-- Everybody but one server is let in.
abbrev open_acl : Bytes → Option AclContent
open_acl json = some (record {
  allow_ip_literals = none;
  allow = some (Field.array (Item.text (bytes "*") ∷ []));
  deny = some (Field.array (Item.text (bytes "evil.org") ∷ []));
})

abbrev event : Bytes → Bytes → Option Bytes → Event
event id event_type key = record {
  event_id = id;
  room_id = bytes "!r";
  event_type = event_type;
  state_key = key;
  room_version = bytes "10";
  json = bytes "{}";
  internal_metadata = [];
  stream_ordering = 1;
  outlier = false;
  format_version = 3;
  rejected_reason = [];
  redacted_by = [];
}

abbrev topic : StateKey
topic = record { event_type = bytes "topic"; state_key = [] }

abbrev name : StateKey
name = record { event_type = bytes "name"; state_key = [] }

abbrev db : Database
db = record {
  current_state_events =
      record {
        room_id = bytes "!r";
        event_type = bytes "m.room.member";
        state_key = bytes "@u:h.org";
        membership = some (bytes "join");
        event_id = bytes "$m";
      }
      ∷ record {
        room_id = bytes "!r";
        event_type = bytes "m.room.server_acl";
        state_key = [];
        membership = none;
        event_id = bytes "$acl";
      }
      ∷ [];
  partial_state_rooms = [];
  events =
      event (bytes "$b") (bytes "topic") (some [])
      ∷ event (bytes "$acl") (bytes "m.room.server_acl") (some [])
      ∷ [];
  event_to_state_groups = (bytes "$b", some 7) ∷ [];
  groups = record {
    state_group_edges = record { state_group = 7; prev_state_group = 3 } ∷ [];
    state_groups_state =
        record { state_group = 3; key = topic; event_id = bytes "$a" }
        ∷ record { state_group = 7; key = topic; event_id = bytes "$b" }
        ∷ record { state_group = 3; key = name; event_id = bytes "$c" }
        ∷ [];
  };
  erased_users = [];
}

abbrev replaced : Bytes → Bytes
replaced json = bytes "$a"

abbrev before : StateMap
before = (topic, bytes "$a") ∷ (name, bytes "$c") ∷ []

abbrev acls : AclCache
acls = new_lru 1000

program : Unit {0}
unfolding mentions get_current_state_event get_locked state_ids auth_chain_ids_with_fallback
    compute_auth_chain covers positions_of auth_chain_ids_recursive walk absorb query_batches
    check_access allowed parse_server_acl glob_to_regex match_string bytes_discrete get add_locked
    add state_ids_for_event get_state_for_group ℕ_discrete StateKey-discrete lookup insert delete
    own_key is_host_in_room is_partial_state_room get_state_group_for_event get_event new_lru
program = tt

let_in : (check_access open_acl unit_size no_ipv4 db (bytes "h.org") (bytes "!r") acls).1 ≡ ok tt
unfolding program
let_in = refl

not_in_room :
    (check_access open_acl unit_size no_ipv4 db (bytes "evil.org") (bytes "!r") acls).1
    ≡ refused err_host_not_in_room
unfolding program
not_in_room = refl

abbrev joins : Bytes → CurrentRow
joins user = record {
  room_id = bytes "!r";
  event_type = bytes "m.room.member";
  state_key = user;
  membership = some (bytes "join");
  event_id = bytes "$j";
}

-- One malformed member in front of the others makes the check fail.
malformed_first :
    is_host_in_room
      (record db {
        current_state_events = joins (bytes "@a:b:h.org") ∷ joins (bytes "@u:h.org") ∷ [];
      })
      (bytes "!r")
      (bytes "h.org")
    ≡ none
unfolding program
malformed_first = refl

-- The port is not stripped from the origin: the deny entry of a server does not match it then.
denied : allowed no_ipv4 (parse_acl open_acl []) (bytes "evil.org") ≡ false
unfolding program parse_acl
denied = refl

port_evades : allowed no_ipv4 (parse_acl open_acl []) (bytes "evil.org:8448") ≡ true
unfolding program parse_acl
port_evades = refl

acls-AreParsed : AreParsed open_acl unit_size db acls
acls-AreParsed = new_lru-Holds bytes_discrete unit_size (IsParsed open_acl unit_size db) 1000

check_access-IsGate_example :
    IsGate open_acl unit_size db no_ipv4
      (bytes "h.org")
      (bytes "!r")
      (check_access open_acl unit_size no_ipv4 db (bytes "h.org") (bytes "!r") acls)
check_access-IsGate_example =
    check_access-IsGate open_acl unit_size db no_ipv4 (bytes "h.org") (bytes "!r") acls
      acls-AreParsed

state_before :
    state_ids_for_event replaced db (bytes "!r") (bytes "$b") ≡ ok (bytes "$a" ∷ bytes "$c" ∷ [])
unfolding program
state_before = refl

abbrev after : StateMap
after = (topic, bytes "$b") ∷ (name, bytes "$c") ∷ []

after-Continues : Continues replaced (some topic) (bytes "$a") (bytes "$b") after before
unfolding lookup StateKey-discrete bytes_discrete is_empty
after-Continues = (λ k. ground arith, refl)

state_ids_for_event-before_example :
    (ids : List Bytes) × (state_ids_for_event replaced db (bytes "!r") (bytes "$b") ≡ ok ids)
    × ((x : Bytes) → In x ids ↔ ((k : StateKey) × (lookup StateKey-discrete k before ≡ some x)))
unfolding program
state_ids_for_event-before_example =
    state_ids_for_event-before replaced db (bytes "!r") (bytes "$b")
      (event (bytes "$b") (bytes "topic") (some [])) 7 after before refl refl refl refl refl refl
      after-Continues

abbrev auth : AuthDatabase
auth = record { links = []; positions = []; tables = record { event_auth = []; events = [] } }

abbrev response : StateIdsResponse
response = record { pdu_ids = bytes "$a" ∷ bytes "$c" ∷ []; auth_chain_ids = [] }

answered :
    (state_ids replaced open_acl unit_size no_ipv4 db auth
      (bytes "h.org")
      (bytes "!r")
      (bytes "$b")
      acls).1
    ≡ ok response
unfolding program
answered = refl

state_ids_authorised_example :
    MayRead open_acl unit_size db no_ipv4 (bytes "h.org") (bytes "!r")
    × IsAnswerable replaced db (bytes "!r") (bytes "$b")
    × (state_ids_for_event replaced db (bytes "!r") (bytes "$b")
        ≡ ok (bytes "$a" ∷ bytes "$c" ∷ []))
state_ids_authorised_example =
    state_ids_authorised replaced open_acl unit_size no_ipv4 db auth (bytes "h.org") (bytes "!r")
      (bytes "$b") acls response acls-AreParsed answered
