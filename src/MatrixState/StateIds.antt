-- ===== src/MatrixState/StateIds.antt =====
-- stateIDsForEvent, computeStateIDs and StateIDs of internal/matrixstate/stateids.go.
--
-- What package json reads as unsigned.replaces_state is a parameter, the empty text if there is none.
-- The two empty lists of a response are arrays here, as on the wire. Identical requests in flight are
-- answered apart.
use synapse_gopro_worker.Prelude.{
  ℕ, Bool, false, List, [], ◌∷◌, Option, none, some, if◌then◌else◌, Bytes, not, is_yes,
}
use synapse_gopro_worker.Acl.Rules.{AclContent, ServerAcl}
use synapse_gopro_worker.AuthChain.Cover.{Link, Position}
use synapse_gopro_worker.AuthChain.Walk.{AuthTables, auth_chain_ids_with_fallback}
use synapse_gopro_worker.Store.Types.{Event, StateKey, StateKey-discrete, StateMap, is_empty}
use synapse_gopro_worker.Store.Rooms.{
  Database, same, get_event, get_state_group_for_event, get_state_for_group,
}
use synapse_gopro_worker.MatrixState.Errors.{
  Outcome, ok, refused, failed, ◌>>=◌, err_event_not_found, err_event_not_in_room,
  err_state_not_known,
}
use synapse_gopro_worker.MatrixState.Access.{AclCache, check_access}

pub record StateIdsResponse : Type 0 where
  pub pdu_ids : List Bytes
  pub auth_chain_ids : List Bytes

-- What getting an auth chain reads.
pub record AuthDatabase : Type 0 where
  pub links : List Link
  pub positions : List Position
  pub tables : AuthTables

-- The key to skip: the event's own, if it is a state event.
unfoldable pub own_key : Event → Option StateKey
own_key ev = elim ev.state_key [
  | none ↦ none
  | some k ↦ some (record { event_type = ev.event_type; state_key = k })
]

unfoldable pub is_skipped : Option StateKey → StateKey → Bool
is_skipped none key = false
is_skipped (some own) key = is_yes (StateKey-discrete key own)

-- The loop that builds the result.
unfoldable pub collect_ids : Option StateKey → Bytes → StateMap → List Bytes
unfolding is_skipped is_empty
collect_ids skip replacement [] = []
collect_ids skip replacement ((key, id) ∷ state) =
    let rest = collect_ids skip replacement state in
    if is_skipped skip key
    then if is_empty replacement then rest else replacement ∷ rest
    else id ∷ rest

module _ (replaces_state : Bytes → Bytes) where
  unfoldable pub ids_of_state : Event → Option StateMap → Outcome (List Bytes)
  unfolding collect_ids own_key
  ids_of_state ev none = failed
  ids_of_state ev (some state) = ok (collect_ids (own_key ev) (replaces_state ev.json) state)

  unfoldable pub ids_of_group : Database → Event → Bytes → Option ℕ → Outcome (List Bytes)
  unfolding ids_of_state
  ids_of_group db ev id none = refused (err_state_not_known id)
  ids_of_group db ev id (some g) = ids_of_state ev (get_state_for_group db g)

  -- What is done with an event that is held.
  unfoldable pub ids_of_event : Database → Bytes → Bytes → Event → Outcome (List Bytes)
  unfolding ids_of_group is_empty
  ids_of_event db room id ev =
      if not (same ev.room_id room)
      then refused (err_event_not_in_room id room)
      else if not (is_empty ev.rejected_reason)
      then refused (err_event_not_found id)
      else if ev.outlier
      then refused (err_state_not_known id)
      else ids_of_group db ev id (get_state_group_for_event db id)

  unfoldable pub state_ids_for_event : Database → Bytes → Bytes → Outcome (List Bytes)
  unfolding ids_of_event
  state_ids_for_event db room id = elim (get_event db id) [
    | none ↦ refused (err_event_not_found id)
    | some ev ↦ ids_of_event db room id ev
  ]

  unfoldable pub with_auth_chain : AuthDatabase → Bytes → List Bytes → Outcome StateIdsResponse
  with_auth_chain a room ids =
      elim (auth_chain_ids_with_fallback a.links a.positions a.tables room ids) [
        | none ↦ failed
        | some (chain, used_fallback) ↦ ok (record { pdu_ids = ids; auth_chain_ids = chain })
      ]

  unfoldable pub compute_state_ids :
      Database → AuthDatabase → Bytes → Bytes → Outcome StateIdsResponse
  unfolding state_ids_for_event with_auth_chain
  compute_state_ids db a room id = do
    ids ← state_ids_for_event db room id
    with_auth_chain a room ids

  module _ (decode_acl : Bytes → Option AclContent) (size_of_acl : Option ServerAcl → ℕ)
      (parses_as_ipv4 : Bytes → Bool) where
    -- What follows the check: the cache of ACLs, and the response.
    unfoldable pub after_check :
        Outcome StateIdsResponse
        → AclCache × Outcome (Unit {0})
        → AclCache × Outcome StateIdsResponse
    after_check response (acls, check) = (acls, check >>= λ _. response)

    unfoldable pub state_ids :
        Database
        → AuthDatabase
        → Bytes
        → Bytes
        → Bytes
        → AclCache
        → AclCache × Outcome StateIdsResponse
    unfolding after_check compute_state_ids
    state_ids db a origin room id acls =
        after_check (compute_state_ids db a room id)
          (check_access decode_acl size_of_acl parses_as_ipv4 db origin room acls)
