-- ===== src/MatrixState/Found.antt =====
-- To whom /get_missing_events shows what.
use synapse_gopro_worker.Prelude.{
  ℕ, ◌≡◌, refl, subst, Bool, true, false, List, Option, none, some, Bytes, arith, Bool-cases, inr,
  inl,
}
use synapse_gopro_worker.Acl.Rules.{AclContent, ServerAcl, allowed}
use synapse_gopro_worker.Store.Types.{Event}
use synapse_gopro_worker.Store.Rooms.{Database, is_partial_state_room, is_host_in_room}
use synapse_gopro_worker.MissingEvents.Walk.{Tables, get_missing_events}
use synapse_gopro_worker.MatrixState.Errors.{Outcome, ok, >>=-eq-ok}
use synapse_gopro_worker.MatrixState.Access.{AclCache, server_acl}
use synapse_gopro_worker.MatrixState.RoomAcl.{AreParsed, Reads, room_acl, server_acl-Reads}
use synapse_gopro_worker.MatrixState.MissingEvents.{
  MissingEventsResponse, respond, walk_for, if_allowed, answer_missing_events,
}
use synapse_gopro_worker.MatrixState.Rendered.{AreRendered, render_ids, render_all-AreRendered}

module _ (sender_of : Bytes → Option Bytes) (history_visibility_of : Bytes → Bytes)
    (membership_of : Bytes → Bytes) (redact_event : Event → Option Bytes)
    (apply_pdu_json_rules : ℕ → Bytes → Option Bytes) (withheld : Bytes → Bool)
    (depth_in_canonical_range : Bytes → Bool) (db : Database) (origin local : Bytes) (now : ℕ)
    (t : Tables) (order_by sort : List Bytes → List Bytes) (room : Bytes)
    (earliest latest : List Bytes) (limit : ℕ) where
  -- A response that shows events that the walk found.
  pub record ShowsFound (r : MissingEventsResponse) : Type 0 where
    pub ids : List Bytes
    pub walked :
        get_missing_events t room order_by sort earliest latest limit ≡ some (ids, r.walk_truncated)
    pub rendered :
        AreRendered sender_of history_visibility_of membership_of redact_event apply_pdu_json_rules
          withheld depth_in_canonical_range db origin local now ids
          (is_partial_state_room db room)
          r.events

  respond-ShowsFound :
      (o : Option (List Bytes × Bool)) (r : MissingEventsResponse)
      → get_missing_events t room order_by sort earliest latest limit ≡ o
      → respond sender_of history_visibility_of membership_of redact_event apply_pdu_json_rules
          withheld depth_in_canonical_range db origin local
          (is_partial_state_room db room)
          now
          o
        ≡ ok r
      → ShowsFound r
  unfolding respond
  respond-ShowsFound none r walked h = absurd (ground arith)
  respond-ShowsFound (some (ids, truncated)) r walked h =
      let (bs, made, e) =
        >>=-eq-ok
          (render_ids sender_of history_visibility_of membership_of redact_event
            apply_pdu_json_rules withheld depth_in_canonical_range db origin local now
            (is_partial_state_room db room) ids)
          (λ bs. ok (record { events = bs; walk_truncated = truncated })) r h in
      let same_response : record { events = bs; walk_truncated = truncated } ≡ r =
        ground (arith, e) in
      subst ShowsFound same_response (record {
        ids = ids;
        walked = walked;
        rendered =
            render_all-AreRendered sender_of history_visibility_of membership_of redact_event
              apply_pdu_json_rules withheld depth_in_canonical_range db origin local now
              (is_partial_state_room db room) ids bs made;
      })

  walk_for-ShowsFound :
      (o : Option Bool) (r : MissingEventsResponse)
      → walk_for sender_of history_visibility_of membership_of redact_event apply_pdu_json_rules
          withheld depth_in_canonical_range t order_by sort db origin local now room earliest latest
          limit o
        ≡ ok r
      → (o ≡ some true) × ShowsFound r
  unfolding walk_for
  walk_for-ShowsFound none r h = absurd (ground arith)
  walk_for-ShowsFound (some false) r h = absurd (ground arith)
  walk_for-ShowsFound (some true) r h = (
    refl,
    respond-ShowsFound (get_missing_events t room order_by sort earliest latest limit) r refl h,
  )

  module _ (decode_acl : Bytes → Option AclContent) (size_of_acl : Option ServerAcl → ℕ)
      (parses_as_ipv4 : Bytes → Bool) where
    if_allowed-ok :
        (response : Outcome MissingEventsResponse) (a : AclCache × Option ServerAcl)
        (r : MissingEventsResponse)
        → Reads decode_acl size_of_acl db (room_acl decode_acl size_of_acl db room) a
        → (if_allowed sender_of history_visibility_of membership_of redact_event
            apply_pdu_json_rules withheld depth_in_canonical_range t order_by sort decode_acl
            size_of_acl parses_as_ipv4 origin response a).1
          ≡ ok r
        → (allowed parses_as_ipv4 (room_acl decode_acl size_of_acl db room) origin ≡ true)
          × (response ≡ ok r)
    unfolding if_allowed
    if_allowed-ok response (acls, acl) r (parsed, e) h =
        elim (Bool-cases (allowed parses_as_ipv4 acl origin)) [
          | inr banned ↦ absurd (ground (arith, banned, h))
          | inl yes_allowed ↦ (
            subst (λ x. allowed parses_as_ipv4 x origin ≡ true) e yes_allowed,
            ground (arith, yes_allowed, h),
          )
        ]

    -- If every cached ACL is that of its event, a response of /get_missing_events is given only to a
    -- server that the room's current ACL allows and that is in the room; and it shows only events that
    -- the walk found and that are held, neither rejected nor withheld, with a depth in range, each
    -- redacted unless it is not redacted and the server may see it.
    pub answer_missing_events-ShowsFound :
        (acls : AclCache) (r : MissingEventsResponse)
        → AreParsed decode_acl size_of_acl db acls
        → (answer_missing_events sender_of history_visibility_of membership_of redact_event
            apply_pdu_json_rules withheld depth_in_canonical_range t order_by sort decode_acl
            size_of_acl parses_as_ipv4 db origin local now room earliest latest limit acls).1
          ≡ ok r
        → (allowed parses_as_ipv4 (room_acl decode_acl size_of_acl db room) origin ≡ true)
          × (is_host_in_room db room origin ≡ some true)
          × ShowsFound r
    unfolding answer_missing_events
    answer_missing_events-ShowsFound acls r s h =
        let (let_in, response) =
          if_allowed-ok
            (walk_for sender_of history_visibility_of membership_of redact_event
              apply_pdu_json_rules withheld depth_in_canonical_range t order_by sort db origin local
              now room earliest latest limit (is_host_in_room db room origin))
            (server_acl decode_acl size_of_acl db room acls) r
            (server_acl-Reads decode_acl size_of_acl db room acls s) h in
        let (member, found) = walk_for-ShowsFound (is_host_in_room db room origin) r response in
        (let_in, member, found)
