-- ===== src/Store/Standing.antt =====
-- That the reads about a room of internal/store/room.go answer what they are asked: whether a server is
-- in it, whether its state is partial, and which event is current.
use synapse_gopro_worker.Prelude.{
  ◌≡◌, ◌⊎◌, ◌↔◌, inl, inr, refl, sym, ap, ◌∙◌, Bool, true, false, ◌&&◌, List, [], ◌∷◌, ◌++◌, Option,
  none, some, if◌then◌else◌, Bytes, bytes, mentions, mentions-In, In-mentions, In, arith,
  Bool-cases, Option-cases,
}
use synapse_gopro_worker.Store.Filtered.{has_suffix, has_wildcard}
use synapse_gopro_worker.Store.Presence.{
  EndsIn, IsUserOf, same-yes, yes-same, IsUserOf-domain, domain-IsUserOf, of_server_end,
  HasNoWildcard, has_wildcard-none,
}
use synapse_gopro_worker.Store.Rooms.{
  CurrentRow, Database, same, domain_from_id, is_joined, joined_member, is_host_in_room,
  is_partial_state_room,
}

module _ (room host : Bytes) where
  -- The row of a member who has joined the room, and whose ID ends in the host.
  abbrev pub IsJoinedRow : CurrentRow → Type 0
  IsJoinedRow r =
      (r.membership ≡ some (bytes "join"))
      × (r.event_type ≡ bytes "m.room.member")
      × (r.room_id ≡ room)
      × EndsIn host r.state_key

  -- There is such a row, and the first one is that of a user of the host.
  abbrev pub FirstJoined : List CurrentRow → Type 0
  FirstJoined [] = ⊥
  FirstJoined (r ∷ rows) =
      (IsJoinedRow r × IsUserOf host r.state_key) ⊎ ((IsJoinedRow r → ⊥) × FirstJoined rows)

  abbrev pub IsInRoom : Database → Type 0
  IsInRoom db = HasNoWildcard host × FirstJoined db.current_state_events

  abbrev chosen : CurrentRow → Bool
  chosen r =
      is_joined r.membership
      && (same r.event_type (bytes "m.room.member")
          && (same r.room_id room && has_suffix (bytes ":" ++ host) r.state_key))

  is_joined-yes : (o : Option Bytes) → (is_joined o ≡ true) ↔ (o ≡ some (bytes "join"))
  unfolding is_joined
  is_joined-yes none = (λ h. ground arith, λ h. ground arith)
  is_joined-yes (some m) = (
    λ h. ap some (same-yes m (bytes "join") h),
    λ h. let e : m ≡ bytes "join" = ground (arith, h) in yes-same m (bytes "join") e,
  )

  chosen-IsJoinedRow : (r : CurrentRow) → (chosen r ≡ true) ↔ IsJoinedRow r
  chosen-IsJoinedRow r =
      let (j, j') = is_joined-yes r.membership in
      let (d, d') = of_server_end host r.state_key in
      (
        λ h. (
          j (ground (arith, h)),
          same-yes r.event_type (bytes "m.room.member") (ground (arith, h)),
          same-yes r.room_id room (ground (arith, h)),
          d (ground (arith, h)),
        ),
        λ (a, b, c, e).
            let a' = j' a in
            let b' = yes-same r.event_type (bytes "m.room.member") b in
            let c' = yes-same r.room_id room c in let e' = d' e in ground (arith, a', b', c', e'),
      )

  -- The query and the test after it.
  abbrev confirmed : Option Bytes → Option Bool
  confirmed none = some false
  confirmed (some user) = if same (domain_from_id user) host then some true else none

  here :
      (r : CurrentRow) (rows : List CurrentRow)
      → chosen r ≡ true
      → joined_member room host (r ∷ rows) ≡ some r.state_key
  unfolding joined_member
  here r rows c = rw c refl

  further :
      (r : CurrentRow) (rows : List CurrentRow)
      → chosen r ≡ false
      → joined_member room host (r ∷ rows) ≡ joined_member room host rows
  unfolding joined_member
  further r rows c = rw c refl

  confirmed-IsUserOf :
      (user : Bytes) → EndsIn host user → (confirmed (some user) ≡ some true) ↔ IsUserOf host user
  confirmed-IsUserOf user end = (
    λ h. domain-IsUserOf host user (same-yes (domain_from_id user) host (ground (arith, h))) end,
    λ u. let e = yes-same (domain_from_id user) host (IsUserOf-domain host user u) in rw e refl,
  )

  confirmed-FirstJoined :
      (rows : List CurrentRow)
      → (confirmed (joined_member room host rows) ≡ some true) ↔ FirstJoined rows
  unfolding joined_member
  confirmed-FirstJoined [] = (λ h. ground arith, λ h. absurd h)
  confirmed-FirstJoined (r ∷ rows) =
      let (there, back) = chosen-IsJoinedRow r in
      let (ih, ih') = confirmed-FirstJoined rows in
      elim (Bool-cases (chosen r)) [
        | inl c ↦
            let row = there c in
            let (to, from) = confirmed-IsUserOf r.state_key row.3 in
            (
              λ h. inl (row, to (sym (ap confirmed (here r rows c)) ∙ h)),
              λ f. elim f [
                | inl (j, u) ↦ ap confirmed (here r rows c) ∙ from u
                | inr (n, g) ↦ absurd (n row)
              ],
            )
        | inr c ↦ (
          λ h. inr (λ j. ground (arith, c, back j), ih (sym (ap confirmed (further r rows c)) ∙ h)),
          λ f. elim f [
            | inl (j, u) ↦ absurd (ground (arith, c, back j))
            | inr (n, g) ↦ ap confirmed (further r rows c) ∙ ih' g
          ],
        )
      ]

  pub is_host_in_room-IsInRoom :
      (db : Database) → (is_host_in_room db room host ≡ some true) ↔ IsInRoom db
  unfolding is_host_in_room
  is_host_in_room-IsInRoom db =
      let (plain, plain') = has_wildcard-none host in
      let (there, back) = confirmed-FirstJoined db.current_state_events in
      elim (Bool-cases (has_wildcard host)) [
        | inl wild ↦ (
          λ h. absurd (ground (arith, wild, h)),
          λ (n, f). absurd (ground (arith, wild, plain' n)),
        )
        | inr none_there ↦ (
          λ h. (plain none_there, there (asked db none_there ∙ h)),
          λ (n, f). sym (asked db none_there) ∙ back f,
        )
      ]
    where
      asked :
          (db : Database)
          → has_wildcard host ≡ false
          → confirmed (joined_member room host db.current_state_events)
            ≡ is_host_in_room db room host
      asked db n = elim (Option-cases (joined_member room host db.current_state_events)) [
        | inl e ↦ rw (n, e, is_host_in_room) refl
        | inr (user, e) ↦ rw (n, e, is_host_in_room) refl
      ]

pub is_partial_state_room-In :
    (db : Database) (room : Bytes)
    → (is_partial_state_room db room ≡ false) ↔ (In room db.partial_state_rooms → ⊥)
unfolding is_partial_state_room
is_partial_state_room-In db room = (
  λ h m. ground (arith, h, In-mentions room db.partial_state_rooms m),
  λ n. elim (Bool-cases (mentions room db.partial_state_rooms)) [
    | inl e ↦ absurd (n (mentions-In room db.partial_state_rooms e))
    | inr e ↦ e
  ],
)
