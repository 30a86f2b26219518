-- ===== src/MatrixState/Gate.antt =====
-- Who passes checkAccess of internal/matrixstate/stateids.go.
use synapse_gopro_worker.Prelude.{
  In, ℕ, ◌≡◌, ◌↔◌, inl, inr, refl, sym, ap, ◌∙◌, Bool, true, false, Option, none, some,
  if◌then◌else◌, Bytes, arith, Bool-cases,
}
use synapse_gopro_worker.Acl.Rules.{AclContent, ServerAcl, allowed}
use synapse_gopro_worker.Store.Standing.{
  IsInRoom, is_host_in_room-IsInRoom, is_partial_state_room-In,
}
use synapse_gopro_worker.Store.Rooms.{Database, is_partial_state_room, is_host_in_room}
use synapse_gopro_worker.MatrixState.RoomAcl.{
  AreParsed, Reads, room_acl, IsRoomAcl, room_acl-IsRoomAcl, IsRoomAcl-room_acl, server_acl-Reads,
}
use synapse_gopro_worker.MatrixState.Errors.{
  Outcome, ok, refused, failed, err_partial_state, err_host_not_in_room, err_server_banned,
}
use synapse_gopro_worker.MatrixState.Access.{
  AclCache, server_acl, check_acl, check_membership, check_access,
}

module _ (decode_acl : Bytes → Option AclContent) (size_of_acl : Option ServerAcl → ℕ)
    (db : Database) (parses_as_ipv4 : Bytes → Bool) where
  -- The conditions of the code.
  abbrev Passes : Bool → Bytes → Bytes → Type 0
  Passes lets_in origin room =
      (is_partial_state_room db room ≡ false)
      × (is_host_in_room db room origin ≡ some true)
      × (allowed parses_as_ipv4 (room_acl decode_acl size_of_acl db room) origin ≡ lets_in)

  -- A server that is in a room whose state is whole, and what the room's current ACL says of it.
  abbrev pub IsMember : Bytes → Bytes → Type 0
  IsMember origin room = (In room db.partial_state_rooms → ⊥) × IsInRoom room origin db

  abbrev pub Rules : Bytes → Bytes → Bool → Type 0
  Rules origin room lets_in =
      (acl : Option ServerAcl) × IsRoomAcl decode_acl size_of_acl db room acl
      × (allowed parses_as_ipv4 acl origin ≡ lets_in)

  -- A server that may read a room: it is in the room, whose state is whole, and the room's current
  -- ACL lets it in.
  abbrev pub MayRead : Bytes → Bytes → Type 0
  MayRead origin room = IsMember origin room × Rules origin room true

  Passes-Rules :
      (origin room : Bytes) (lets_in : Bool)
      → Passes lets_in origin room ↔ (IsMember origin room × Rules origin room lets_in)
  Passes-Rules origin room lets_in =
      let (whole, whole') = is_partial_state_room-In db room in
      let (member, member') = is_host_in_room-IsInRoom room origin db in
      (
        λ (p, m, a). (
          (whole p, member m),
          (
            room_acl decode_acl size_of_acl db room,
            room_acl-IsRoomAcl decode_acl size_of_acl db room,
            a,
          ),
        ),
        λ ((p, m), (acl, is_acl, a)). (
          whole' p,
          member' m,
          ap (λ x. allowed parses_as_ipv4 x origin)
                (sym (IsRoomAcl-room_acl decode_acl size_of_acl db room acl is_acl))
              ∙ a,
        ),
      )

  -- Whether the ACL lets a server in that is in the room.
  abbrev ruling : Bytes → Bytes → Outcome (Unit {0})
  ruling origin room =
      if allowed parses_as_ipv4 (room_acl decode_acl size_of_acl db room) origin
      then ok tt
      else refused err_server_banned

  check_acl-ruling :
      (origin room : Bytes) (r : AclCache × Option ServerAcl)
      → Reads decode_acl size_of_acl db (room_acl decode_acl size_of_acl db room) r
      → AreParsed decode_acl size_of_acl db
          (check_acl decode_acl size_of_acl parses_as_ipv4 origin r).0
        × ((check_acl decode_acl size_of_acl parses_as_ipv4 origin r).1 ≡ ruling origin room)
  unfolding check_acl
  check_acl-ruling origin room (acls, acl) (s, e) =
      (s, ap (λ x. if allowed parses_as_ipv4 x origin then ok tt else refused err_server_banned) e)

  -- What is answered to a server of which the database says whether it is in the room.
  abbrev standing : Bytes → Bytes → Option Bool → Outcome (Unit {0})
  standing origin room none = failed
  standing origin room (some false) = refused err_host_not_in_room
  standing origin room (some true) = ruling origin room

  check_membership-standing :
      (origin room : Bytes) (acls : AclCache) (o : Option Bool)
      → AreParsed decode_acl size_of_acl db acls
      → AreParsed decode_acl size_of_acl db
          (check_membership decode_acl size_of_acl parses_as_ipv4 db origin room acls o).0
        × ((check_membership decode_acl size_of_acl parses_as_ipv4 db origin room acls o).1
            ≡ standing origin room o)
  unfolding check_membership
  check_membership-standing origin room acls none s = (s, refl)
  check_membership-standing origin room acls (some false) s = (s, refl)
  check_membership-standing origin room acls (some true) s =
      check_acl-ruling origin room (server_acl decode_acl size_of_acl db room acls)
        (server_acl-Reads decode_acl size_of_acl db room acls s)

  abbrev gate : Bytes → Bytes → AclCache → AclCache × Outcome (Unit {0})
  gate = check_access decode_acl size_of_acl parses_as_ipv4 db

  check_access-standing :
      (origin room : Bytes) (acls : AclCache)
      → AreParsed decode_acl size_of_acl db acls
      → AreParsed decode_acl size_of_acl db (gate origin room acls).0
        × ((gate origin room acls).1 ≡ (
            if is_partial_state_room db room
            then refused err_partial_state
            else standing origin room (is_host_in_room db room origin)))
  unfolding check_access
  check_access-standing origin room acls s = elim (Bool-cases (is_partial_state_room db room)) [
    | inl partial ↦ rw partial (s, refl)
    | inr whole ↦
        rw whole (check_membership-standing origin room acls (is_host_in_room db room origin) s)
  ]

  -- The answer of `checkAccess`, from what it depends on.
  pub record IsGate (origin room : Bytes) (r : AclCache × Outcome (Unit {0})) : Type 0 where
    pub parsed_still : AreParsed decode_acl size_of_acl db r.0
    pub lets_in : (r.1 ≡ ok tt) ↔ MayRead origin room
    pub bans : (r.1 ≡ refused err_server_banned) ↔ (IsMember origin room × Rules origin room false)

  standing-ok :
      (origin room : Bytes) (partial : Bool) (o : Option Bool)
      → ((if partial then refused err_partial_state else standing origin room o) ≡ ok tt) ↔ (
          (partial ≡ false)
          × (o ≡ some true)
          × (allowed parses_as_ipv4 (room_acl decode_acl size_of_acl db room) origin ≡ true))
  standing-ok origin room true o = (λ h. ground arith, λ h. ground arith)
  standing-ok origin room false none = (λ h. ground arith, λ h. ground arith)
  standing-ok origin room false (some false) = (λ h. ground arith, λ h. ground arith)
  standing-ok origin room false (some true) = (λ h. ground arith, λ h. ground arith)

  standing-banned :
      (origin room : Bytes) (partial : Bool) (o : Option Bool)
      → ((if partial then refused err_partial_state else standing origin room o)
          ≡ refused err_server_banned)
        ↔ ((partial ≡ false)
            × (o ≡ some true)
            × (allowed parses_as_ipv4 (room_acl decode_acl size_of_acl db room) origin ≡ false))
  standing-banned origin room true o = (λ h. ground arith, λ h. ground arith)
  standing-banned origin room false none = (λ h. ground arith, λ h. ground arith)
  standing-banned origin room false (some false) = (λ h. ground arith, λ h. ground arith)
  standing-banned origin room false (some true) = (λ h. ground arith, λ h. ground arith)

  -- If every cached ACL is that of its event, a server is let in just if the room's state is whole,
  -- the server is in the room and the room's current ACL allows it; that it is banned is said just
  -- to a server that is in such a room and that the ACL does not allow; and the cache stays so. In the
  -- room is a server whose name holds no wildcard, if of the members who have joined and whose IDs end
  -- in its name, the first is a user of it.
  pub check_access-IsGate :
      (origin room : Bytes) (acls : AclCache)
      → AreParsed decode_acl size_of_acl db acls
      → IsGate origin room (gate origin room acls)
  check_access-IsGate origin room acls s =
      let (still, e) = check_access-standing origin room acls s in
      let ok_iff =
        standing-ok origin room (is_partial_state_room db room) (is_host_in_room db room origin) in
      let ban_iff =
        standing-banned origin room (is_partial_state_room db room)
          (is_host_in_room db room origin) in
      let passes = Passes-Rules origin room true in
      let barred = Passes-Rules origin room false in
      record {
        parsed_still = still;
        lets_in = (λ h. passes.0 (ok_iff.0 (sym e ∙ h)), λ h. e ∙ ok_iff.1 (passes.1 h));
        bans = (λ h. barred.0 (ban_iff.0 (sym e ∙ h)), λ h. e ∙ ban_iff.1 (barred.1 h));
      }
