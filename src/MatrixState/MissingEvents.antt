-- ===== src/MatrixState/MissingEvents.antt =====
-- GetMissingEvents of internal/matrixstate/missingevents.go.
--
-- Which redactions cannot be authorised (WithheldRedactions of internal/store), and whether the depth
-- of a rendered event is in range (depthInCanonicalRange), are parameters.
use synapse_gopro_worker.Prelude.{
  ℕ, Bool, false, true, not, List, [], ◌∷◌, Option, none, some, if◌then◌else◌, Bytes,
}
use synapse_gopro_worker.Store.Types.{Event, is_empty}
use synapse_gopro_worker.Store.Rooms.{Database, find_event, is_partial_state_room, is_host_in_room}
use synapse_gopro_worker.MatrixState.Errors.{
  Outcome, ok, ◌>>=◌, failed, refused, err_host_not_in_room, err_server_banned,
}
use synapse_gopro_worker.MatrixState.Visibility.{event_visible_in_room}
use synapse_gopro_worker.MatrixState.Serving.{body_of, or_failed}
use synapse_gopro_worker.MissingEvents.Walk.{Tables, get_missing_events}
use synapse_gopro_worker.Acl.Rules.{AclContent, ServerAcl, allowed}
use synapse_gopro_worker.MatrixState.Access.{AclCache, server_acl}

pub record MissingEventsResponse : Type 0 where
  pub events : List Bytes
  pub walk_truncated : Bool

module _ (sender_of : Bytes → Option Bytes) (history_visibility_of : Bytes → Bytes)
    (membership_of : Bytes → Bytes) (redact_event : Event → Option Bytes)
    (apply_pdu_json_rules : ℕ → Bytes → Option Bytes) where
  unfoldable pub missing_event_body : Database → Event → Bytes → Bytes → Bool → ℕ → Outcome Bytes
  unfolding body_of or_failed event_visible_in_room
  missing_event_body db ev origin local partial now = do
    visible ←
        event_visible_in_room sender_of history_visibility_of membership_of db ev origin local
          partial
    body ←
        body_of sender_of history_visibility_of membership_of redact_event apply_pdu_json_rules ev
          visible
    or_failed (apply_pdu_json_rules now body)

  module _ (withheld : Bytes → Bool) (depth_in_canonical_range : Bytes → Bool) where
    -- A rendered event, in front of the others.
    unfoldable pub put : Bytes → List Bytes → List Bytes
    put body rest = if depth_in_canonical_range body then body ∷ rest else rest

    unfoldable pub render :
        Bytes → Event → Outcome Bytes → Outcome (List Bytes) → Outcome (List Bytes)
    unfolding put is_empty
    render id ev body rest =
        if not (is_empty ev.rejected_reason)
        then rest
        else if withheld id
        then rest
        else (body >>= λ b. rest >>= λ bs. ok (put b bs))

    unfoldable pub render_held :
        Database
        → Bytes
        → Bytes
        → Bool
        → ℕ
        → Bytes
        → Option Event
        → Outcome (List Bytes)
        → Outcome (List Bytes)
    unfolding render missing_event_body
    render_held db origin local partial now id none rest = rest
    render_held db origin local partial now id (some ev) rest =
        render id ev (missing_event_body db ev origin local partial now) rest

    -- The loop over the events found.
    unfoldable pub render_all :
        Database → Bytes → Bytes → Bool → ℕ → List Bytes → Outcome (List Bytes)
    unfolding render_held
    render_all db origin local partial now [] = ok []
    render_all db origin local partial now (id ∷ ids) =
        let rest = render_all db origin local partial now ids in
        render_held db origin local partial now id (find_event id db.events) rest

    unfoldable pub respond :
        Database
        → Bytes
        → Bytes
        → Bool
        → ℕ
        → Option (List Bytes × Bool)
        → Outcome MissingEventsResponse
    unfolding render_all
    respond db origin local partial now none = failed
    respond db origin local partial now (some (ids, truncated)) =
        render_all db origin local partial now ids >>= λ bodies.
        ok (record { events = bodies; walk_truncated = truncated })

    module _ (t : Tables) (order_by sort : List Bytes → List Bytes) where
      unfoldable pub walk_for :
          Database
          → Bytes
          → Bytes
          → ℕ
          → Bytes
          → List Bytes
          → List Bytes
          → ℕ
          → Option Bool
          → Outcome MissingEventsResponse
      unfolding respond is_partial_state_room
      walk_for db origin local now room earliest latest limit none = failed
      walk_for db origin local now room earliest latest limit (some false) =
          refused err_host_not_in_room
      walk_for db origin local now room earliest latest limit (some true) =
          respond db origin local (is_partial_state_room db room) now
            (get_missing_events t room order_by sort earliest latest limit)

      module _ (decode_acl : Bytes → Option AclContent) (size_of_acl : Option ServerAcl → ℕ)
          (parses_as_ipv4 : Bytes → Bool) where
        unfoldable pub if_allowed :
            Bytes
            → Outcome MissingEventsResponse
            → AclCache × Option ServerAcl
            → AclCache × Outcome MissingEventsResponse
        if_allowed origin response (acls, acl) = (
          acls,
          if allowed parses_as_ipv4 acl origin then response else refused err_server_banned,
        )

        -- The ACL is checked first.
        unfoldable pub answer_missing_events :
            Database
            → Bytes
            → Bytes
            → ℕ
            → Bytes
            → List Bytes
            → List Bytes
            → ℕ
            → AclCache
            → AclCache × Outcome MissingEventsResponse
        unfolding if_allowed walk_for is_host_in_room server_acl
        answer_missing_events db origin local now room earliest latest limit acls =
            if_allowed origin
              (walk_for db origin local now room earliest latest limit
                (is_host_in_room db room origin))
              (server_acl decode_acl size_of_acl db room acls)
