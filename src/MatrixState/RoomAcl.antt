-- ===== src/MatrixState/RoomAcl.antt =====
-- The ACL of a room, and that reading it through the cache gives it: serverACL of
-- internal/matrixstate/stateids.go.
use synapse_gopro_worker.Prelude.{
  ◌⊎◌, ℕ, ◌≡◌, inl, inr, refl, sym, ap, subst, ◌∙◌, ◌&&◌, List, [], ◌∷◌, Option, none, some, Bytes,
  bytes, bytes_discrete, arith, Bool-cases, Option-cases,
}
use synapse_gopro_worker.Cache.Lru.{get}
use synapse_gopro_worker.Acl.Rules.{parse_server_acl, AclContent, ServerAcl}
use synapse_gopro_worker.Store.Types.{Event}
use synapse_gopro_worker.Store.Current.{
  IsFirstHeld, current_event-IsFirstHeld, IsFirstHeld-current_event,
}
use synapse_gopro_worker.Store.ReadThrough.{Holds, get-hit, get-Holds, add-Holds}
use synapse_gopro_worker.Store.Rooms.{
  Database, CurrentRow, same, find_event, current_event, get_current_state_event,
}
use synapse_gopro_worker.MatrixState.Access.{
  AclCache, parse_acl, parse_if_missing, acl_of_event, server_acl,
}

current_event-held :
    (room event_type state_key : Bytes) (events : List Event) (rows : List CurrentRow)
    (id raw : Bytes)
    → current_event room event_type state_key events rows ≡ some (id, raw)
    → (e : Event) × (find_event id events ≡ some e) × (e.json ≡ raw)
unfolding current_event
current_event-held room ty key events [] id raw h = absurd (ground arith)
current_event-held room ty key events (r ∷ rows) id raw h =
    let rest = current_event-held room ty key events rows id raw in
    elim (Bool-cases (same r.room_id room && (same r.event_type ty && same r.state_key key))) [
      | inr other ↦ rest (ground (arith, other))
      | inl here ↦ elim (Option-cases (find_event r.event_id events)) [
        | inl gone ↦ rest (ground (arith, here, gone))
        | inr (e, found) ↦
            let named : r.event_id ≡ id = ground (arith, here, found) in
            let told : e.json ≡ raw = ground (arith, here, found) in
            (e, subst (λ x. find_event x events ≡ some e) named found, told)
      ]
    ]

module _ (decode_acl : Bytes → Option AclContent) (size_of_acl : Option ServerAcl → ℕ)
    (db : Database) where
  -- The room's ACL, read afresh.
  abbrev parsed : Option (Bytes × Bytes) → Option ServerAcl
  parsed none = none
  parsed (some (id, raw)) = parse_acl decode_acl raw

  unfoldable pub room_acl : Bytes → Option ServerAcl
  unfolding get_current_state_event
  room_acl room = parsed (get_current_state_event db room (bytes "m.room.server_acl") [])

  -- The ACL that an event says, and that of the current event of the room: none if there is no event,
  -- or if its JSON cannot be read.
  abbrev pub IsAclOf : Option (Bytes × Bytes) → Option ServerAcl → Type 0
  IsAclOf none acl = acl ≡ none
  IsAclOf (some (id, raw)) acl =
      ((decode_acl raw ≡ none) × (acl ≡ none))
      ⊎ ((content : AclContent) × (decode_acl raw ≡ some content)
          × (acl ≡ some (parse_server_acl content)))

  abbrev pub IsRoomAcl : Bytes → Option ServerAcl → Type 0
  IsRoomAcl room acl =
      (o : Option (Bytes × Bytes)) × IsFirstHeld room (bytes "m.room.server_acl") [] db.events
        db.current_state_events o
      × IsAclOf o acl

  parsed-IsAclOf : (o : Option (Bytes × Bytes)) → IsAclOf o (parsed o)
  unfolding parse_acl
  parsed-IsAclOf none = refl
  parsed-IsAclOf (some (id, raw)) = elim (Option-cases (decode_acl raw)) [
    | inl bad ↦ inl (bad, rw (bad, parse_acl) refl)
    | inr (content, good) ↦ inr (content, good, rw (good, parse_acl) refl)
  ]

  IsAclOf-parsed :
      (o : Option (Bytes × Bytes)) (acl : Option ServerAcl) → IsAclOf o acl → acl ≡ parsed o
  unfolding parse_acl
  IsAclOf-parsed none acl e = e
  IsAclOf-parsed (some (id, raw)) acl (inl (bad, e)) = rw (bad, parse_acl) e
  IsAclOf-parsed (some (id, raw)) acl (inr (content, good, e)) = rw (good, parse_acl) e

  pub room_acl-IsRoomAcl : (room : Bytes) → IsRoomAcl room (room_acl room)
  unfolding room_acl get_current_state_event
  room_acl-IsRoomAcl room =
      let ty = bytes "m.room.server_acl" in
      (
        current_event room ty [] db.events db.current_state_events,
        current_event-IsFirstHeld room ty [] db.events db.current_state_events,
        parsed-IsAclOf (current_event room ty [] db.events db.current_state_events),
      )

  pub IsRoomAcl-room_acl :
      (room : Bytes) (acl : Option ServerAcl) → IsRoomAcl room acl → acl ≡ room_acl room
  unfolding room_acl get_current_state_event
  IsRoomAcl-room_acl room acl (o, current, says) =
      IsAclOf-parsed o acl says
      ∙ ap parsed (
          IsFirstHeld-current_event room (bytes "m.room.server_acl") [] db.events
            db.current_state_events o current)

  -- A cached ACL is that of its event.
  abbrev pub IsParsed : Bytes → Option ServerAcl → Type 0
  IsParsed id acl =
      (e : Event) → find_event id db.events ≡ some e → acl ≡ parse_acl decode_acl e.json

  abbrev pub AreParsed : AclCache → Type 0
  AreParsed = Holds bytes_discrete size_of_acl IsParsed

  -- An ACL that is read from an event, and the cache behind it.
  abbrev pub Reads : Option ServerAcl → AclCache × Option ServerAcl → Type 0
  Reads acl r = AreParsed r.0 × (r.1 ≡ acl)

  parse_if_missing-Reads :
      (id raw : Bytes) (acls : AclCache) (hit : Option (Option ServerAcl)) (e : Event)
      → AreParsed acls
      → find_event id db.events ≡ some e
      → e.json ≡ raw
      → ((acl : Option ServerAcl) → hit ≡ some acl → IsParsed id acl)
      → Reads (parse_acl decode_acl raw) (parse_if_missing decode_acl size_of_acl id raw acls hit)
  unfolding parse_if_missing
  parse_if_missing-Reads id raw acls (some acl) e s found json right =
      (s, right acl refl e found ∙ ap (parse_acl decode_acl) json)
  parse_if_missing-Reads id raw acls none e s found json right = (
    add-Holds bytes_discrete size_of_acl IsParsed id (parse_acl decode_acl raw) acls s (λ f at_f.
        let as_held : e.json ≡ f.json = ground (arith, found, at_f) in
        ap (parse_acl decode_acl) (sym json ∙ as_held)),
    refl,
  )

  acl_of_event-Reads :
      (o : Option (Bytes × Bytes)) (acls : AclCache)
      → AreParsed acls
      → ((id raw : Bytes)
          → o ≡ some (id, raw)
          → (e : Event) × (find_event id db.events ≡ some e) × (e.json ≡ raw))
      → Reads (parsed o) (acl_of_event decode_acl size_of_acl o acls)
  unfolding acl_of_event
  acl_of_event-Reads none acls s held = (s, refl)
  acl_of_event-Reads (some (id, raw)) acls s held =
      let (e, found, json) = held id raw refl in
      parse_if_missing-Reads id raw (get bytes_discrete id acls).0 (get bytes_discrete id acls).1 e
        (get-Holds bytes_discrete size_of_acl IsParsed id acls s) found json
        (λ acl hit. get-hit bytes_discrete size_of_acl IsParsed id acl acls s hit)

  pub server_acl-Reads :
      (room : Bytes) (acls : AclCache)
      → AreParsed acls
      → Reads (room_acl room) (server_acl decode_acl size_of_acl db room acls)
  unfolding server_acl room_acl get_current_state_event
  server_acl-Reads room acls s =
      acl_of_event-Reads (get_current_state_event db room (bytes "m.room.server_acl") []) acls s
        (current_event-held room (bytes "m.room.server_acl") [] db.events db.current_state_events)
