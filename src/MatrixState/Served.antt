-- ===== src/MatrixState/Served.antt =====
-- To whom, and for which events, /state_ids is answered.
use synapse_gopro_worker.Prelude.{
  ℕ, ◌≡◌, sym, ap, ◌∙◌, Bool, List, Option, arith, Bytes, Option-cases, inl, inr,
}
use synapse_gopro_worker.Acl.Rules.{AclContent, ServerAcl}
use synapse_gopro_worker.Store.Rooms.{Database}
use synapse_gopro_worker.MatrixState.Errors.{>>=-eq-ok, Outcome, ok}
use synapse_gopro_worker.MatrixState.Access.{AclCache, check_access}
use synapse_gopro_worker.MatrixState.Gate.{MayRead, check_access-IsGate}
use synapse_gopro_worker.MatrixState.RoomAcl.{AreParsed}
use synapse_gopro_worker.MatrixState.StateIds.{
  AuthDatabase, StateIdsResponse, state_ids_for_event, with_auth_chain, compute_state_ids,
  after_check, state_ids,
}
use synapse_gopro_worker.MatrixState.StateBefore.{IsAnswerable, state_ids_for_event-IsAnswerable}
use synapse_gopro_worker.AuthChain.Walk.{auth_chain_ids_with_fallback}

module _ (replaces_state : Bytes → Bytes) (decode_acl : Bytes → Option AclContent)
    (size_of_acl : Option ServerAcl → ℕ) (parses_as_ipv4 : Bytes → Bool) where
  after_check-ok :
      (response : Outcome StateIdsResponse) (p : AclCache × Outcome (Unit {0}))
      (r : StateIdsResponse)
      → (after_check replaces_state decode_acl size_of_acl parses_as_ipv4 response p).1 ≡ ok r
      → (p.1 ≡ ok tt) × (response ≡ ok r)
  unfolding after_check
  after_check-ok response (acls, check) r h =
      let (u, passed, e) = >>=-eq-ok check (λ _. response) r h in (passed, e)

  with_auth_chain-ids :
      (a : AuthDatabase) (room : Bytes) (ids : List Bytes) (r : StateIdsResponse)
      → with_auth_chain replaces_state a room ids ≡ ok r
      → r.pdu_ids ≡ ids
  unfolding with_auth_chain
  with_auth_chain-ids a room ids r h =
      elim (Option-cases (auth_chain_ids_with_fallback a.links a.positions a.tables room ids)) [
        | inl none_found ↦ absurd (ground (arith, none_found))
        | inr ((chain, used), found) ↦ ground (arith, found)
      ]

  compute_state_ids-ok :
      (db : Database) (a : AuthDatabase) (room id : Bytes) (r : StateIdsResponse)
      → compute_state_ids replaces_state db a room id ≡ ok r
      → state_ids_for_event replaces_state db room id ≡ ok r.pdu_ids
  unfolding compute_state_ids
  compute_state_ids-ok db a room id r h =
      let (ids, found, rest) =
        >>=-eq-ok (state_ids_for_event replaces_state db room id)
          (with_auth_chain replaces_state a room) r h in
      found ∙ ap ok (sym (with_auth_chain-ids a room ids r rest))

  -- If every cached ACL is that of its event, a response is given only to a server that may read the
  -- room, and only for an event that is held, in the room, neither rejected nor an outlier, and whose
  -- state group is known.
  pub state_ids_authorised :
      (db : Database) (a : AuthDatabase) (origin room id : Bytes) (acls : AclCache)
      (r : StateIdsResponse)
      → AreParsed decode_acl size_of_acl db acls
      → (state_ids replaces_state decode_acl size_of_acl parses_as_ipv4 db a origin room id acls).1
        ≡ ok r
      → MayRead decode_acl size_of_acl db parses_as_ipv4 origin room
        × IsAnswerable replaces_state db room id
        × (state_ids_for_event replaces_state db room id ≡ ok r.pdu_ids)
  unfolding state_ids
  state_ids_authorised db a origin room id acls r s h =
      let (passed, computed) =
        after_check-ok (compute_state_ids replaces_state db a room id)
          (check_access decode_acl size_of_acl parses_as_ipv4 db origin room acls) r h in
      let gate = check_access-IsGate decode_acl size_of_acl db parses_as_ipv4 origin room acls s in
      let found = compute_state_ids-ok db a room id r computed in
      (
        gate.lets_in.0 passed,
        state_ids_for_event-IsAnswerable replaces_state db room id r.pdu_ids found,
        found,
      )
