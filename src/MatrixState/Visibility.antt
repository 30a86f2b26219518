-- ===== src/MatrixState/Visibility.antt =====
-- Whether a server may see an event: internal/matrixstate/visibility.go, and visibilityAt and
-- eventVisibleInRoom of event.go.
--
-- What is read from the JSON of an event is a parameter: its sender, a history visibility, and a
-- membership. The events of a state are read in the order of the state, which the answer does not
-- depend on.
use synapse_gopro_worker.Prelude.{
  ℕ, Bool, true, false, ◌&&◌, ◌||◌, not, List, [], ◌∷◌, Option, none, some, if◌then◌else◌, Bytes,
  bytes, lookup, mentions,
}
use synapse_gopro_worker.Store.Types.{Event, StateKey, StateKey-discrete, StateMap, is_empty}
use synapse_gopro_worker.Store.Filtered.{of_types, of_server, filtered_state, has_wildcard}
use synapse_gopro_worker.Store.Rooms.{
  Database, same, domain_from_id, find_event, get_state_group_for_event,
}
use synapse_gopro_worker.MatrixState.Errors.{Outcome, ok, failed, ◌>>=◌}

abbrev pub shared : Bytes
shared = bytes "shared"

abbrev pub invited : Bytes
invited = bytes "invited"

abbrev pub joined : Bytes
joined = bytes "joined"

abbrev pub history_visibility_type : Bytes
history_visibility_type = bytes "m.room.history_visibility"

pub record Membership : Type 0 where
  pub user_id : Bytes
  pub membership : Bytes

unfoldable pub is_restricted : Bytes → Bool
is_restricted vis = same vis invited || same vis joined

-- Whether a membership opens an event under a setting.
unfoldable pub opens : Bytes → Bytes → Bool
opens vis m = same m (bytes "join") || (same m (bytes "invite") && same vis invited)

-- The loop over the memberships.
unfoldable pub any_opens : Bytes → List Membership → Bool
unfolding opens
any_opens vis [] = false
any_opens vis (m ∷ ms) = if opens vis m.membership then true else any_opens vis ms

-- `eventVisibleToServer`; the users that are erased are a list.
unfoldable pub event_visible_to_server : Bytes → Bytes → List Bytes → Bool → List Membership → Bool
unfolding any_opens is_restricted
event_visible_to_server sender vis erased partial_state_invisible ms =
    if mentions sender erased
    then false
    else if partial_state_invisible
    then false
    else if not (is_restricted vis)
    then true
    else any_opens vis ms

module _ (sender_of : Bytes → Option Bytes) (history_visibility_of : Bytes → Bytes)
    (membership_of : Bytes → Bytes) where
  abbrev pub visibility_key : StateKey
  visibility_key = record { event_type = history_visibility_type; state_key = [] }

  unfoldable pub setting_of : Option Event → Bytes
  unfolding is_empty
  setting_of none = shared
  setting_of (some e) =
      if is_empty (history_visibility_of e.json) then shared else history_visibility_of e.json

  -- The setting in a state.
  unfoldable pub setting_in : List Event → StateMap → Bytes
  unfolding setting_of
  setting_in events m = elim (lookup StateKey-discrete visibility_key m) [
    | none ↦ shared
    | some id ↦ setting_of (find_event id events)
  ]

  unfoldable pub membership_at : StateKey → Option Event → List Membership → List Membership
  membership_at k none rest = rest
  membership_at k (some e) rest =
      record { user_id = k.state_key; membership = membership_of e.json } ∷ rest

  -- The memberships of the users whose domain is the server's.
  unfoldable pub memberships : Bytes → List Event → StateMap → List Membership
  unfolding membership_at domain_from_id
  memberships server events [] = []
  memberships server events ((k, id) ∷ m) =
      let rest = memberships server events m in
      if same (domain_from_id k.state_key) server
      then membership_at k (find_event id events) rest
      else rest

  unfoldable pub members_at :
      Bytes → List Event → Bytes → Option StateMap → Outcome (Bytes × List Membership)
  unfolding memberships
  members_at server events vis none = failed
  members_at server events vis (some m) = ok (vis, memberships server events m)

  unfoldable pub with_setting : Database → ℕ → Bytes → Bytes → Outcome (Bytes × List Membership)
  unfolding members_at filtered_state of_server has_wildcard is_restricted
  with_setting db g server vis =
      if not (is_restricted vis)
      then ok (vis, [])
      else if has_wildcard server
      then failed
      else members_at server db.events vis (filtered_state (of_server server) db.groups g)

  unfoldable pub at_state :
      Database → ℕ → Bytes → Option StateMap → Outcome (Bytes × List Membership)
  unfolding with_setting setting_in
  at_state db g server none = failed
  at_state db g server (some m) = with_setting db g server (setting_in db.events m)

  unfoldable pub at_group : Database → Bytes → Option ℕ → Outcome (Bytes × List Membership)
  unfolding at_state filtered_state of_types
  at_group db server none = ok (shared, [])
  at_group db server (some g) =
      at_state db g server (filtered_state (of_types (history_visibility_type ∷ [])) db.groups g)

  unfoldable pub visibility_at : Database → Event → Bytes → Outcome (Bytes × List Membership)
  unfolding at_group get_state_group_for_event
  visibility_at db ev server =
      if ev.outlier
      then ok (shared, [])
      else at_group db server (get_state_group_for_event db ev.event_id)

  unfoldable pub visible_from :
      Database → Event → Bytes → Bytes → Bool → Option Bytes → Outcome Bool
  unfolding visibility_at event_visible_to_server domain_from_id
  visible_from db ev target local partial none = failed
  visible_from db ev target local partial (some sender) = do
    (vis, ms) ← visibility_at db ev target
    ok (
        event_visible_to_server sender vis db.erased_users
          (partial && not (same (domain_from_id sender) local)) ms)

  unfoldable pub event_visible_in_room : Database → Event → Bytes → Bytes → Bool → Outcome Bool
  unfolding visible_from
  event_visible_in_room db ev target local partial =
      visible_from db ev target local partial (sender_of ev.json)
