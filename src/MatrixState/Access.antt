-- ===== src/MatrixState/Access.antt =====
-- checkAccess and serverACL of internal/matrixstate/stateids.go.
--
-- What package json makes of an ACL event is a parameter: nothing if it cannot be read. So is the size
-- that a parsed ACL counts for, and whether `net.ParseIP` reads a name as an IPv4 address.
use synapse_gopro_worker.Prelude.{
  ℕ, Bool, true, false, [], Option, none, some, if◌then◌else◌, Bytes, bytes, bytes_discrete,
}
use synapse_gopro_worker.Cache.Lru.{Lru, get, add}
use synapse_gopro_worker.Acl.Rules.{AclContent, ServerAcl, parse_server_acl, allowed}
use synapse_gopro_worker.Store.Rooms.{
  Database, is_partial_state_room, is_host_in_room, get_current_state_event,
}
use synapse_gopro_worker.MatrixState.Errors.{
  Outcome, ok, refused, failed, err_partial_state, err_host_not_in_room, err_server_banned,
}

-- Parsed ACLs by the event that holds them; an event that cannot be read has none.
abbrev pub AclCache : Type 0
AclCache = Lru Bytes (Option ServerAcl)

module _ (decode_acl : Bytes → Option AclContent) where
  unfoldable pub parse_acl : Bytes → Option ServerAcl
  parse_acl raw = elim (decode_acl raw) [
    | none ↦ none
    | some content ↦ some (parse_server_acl content)
  ]

  module _ (size_of_acl : Option ServerAcl → ℕ) where
    -- The end of `serverACL`, from what the cache answered.
    unfoldable pub parse_if_missing :
        Bytes → Bytes → AclCache → Option (Option ServerAcl) → AclCache × Option ServerAcl
    unfolding parse_acl
    parse_if_missing id raw acls (some acl) = (acls, acl)
    parse_if_missing id raw acls none =
        (add bytes_discrete size_of_acl id (parse_acl raw) acls, parse_acl raw)

    unfoldable pub acl_of_event : Option (Bytes × Bytes) → AclCache → AclCache × Option ServerAcl
    unfolding parse_if_missing
    acl_of_event none acls = (acls, none)
    acl_of_event (some (id, raw)) acls =
        parse_if_missing id raw (get bytes_discrete id acls).0 (get bytes_discrete id acls).1

    unfoldable pub server_acl : Database → Bytes → AclCache → AclCache × Option ServerAcl
    unfolding acl_of_event
    server_acl db room =
        acl_of_event (get_current_state_event db room (bytes "m.room.server_acl") [])

    module _ (parses_as_ipv4 : Bytes → Bool) where
      -- The last step: a server that is in the room.
      unfoldable pub check_acl : Bytes → AclCache × Option ServerAcl → AclCache × Outcome (Unit {0})
      check_acl origin (acls, acl) =
          (acls, if allowed parses_as_ipv4 acl origin then ok tt else refused err_server_banned)

      unfoldable pub check_membership :
          Database → Bytes → Bytes → AclCache → Option Bool → AclCache × Outcome (Unit {0})
      unfolding check_acl server_acl
      check_membership db origin room acls none = (acls, failed)
      check_membership db origin room acls (some false) = (acls, refused err_host_not_in_room)
      check_membership db origin room acls (some true) = check_acl origin (server_acl db room acls)

      unfoldable pub check_access :
          Database → Bytes → Bytes → AclCache → AclCache × Outcome (Unit {0})
      unfolding check_membership
      check_access db origin room acls =
          if is_partial_state_room db room
          then (acls, refused err_partial_state)
          else check_membership db origin room acls (is_host_in_room db room origin)
