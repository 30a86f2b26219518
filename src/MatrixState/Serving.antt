-- ===== src/MatrixState/Serving.antt =====
-- Event of internal/matrixstate/event.go.
--
-- Redaction, which is package mautrix's with the hashes put back, and the rules of applyPDUJSONRules
-- are parameters: nothing if the JSON cannot be read or written.
use synapse_gopro_worker.Prelude.{
  ℕ, Bool, true, false, ◌||◌, not, List, [], ◌∷◌, Option, none, some, if◌then◌else◌, Bytes,
}
use synapse_gopro_worker.Store.Types.{Event, is_redacted}
use synapse_gopro_worker.Store.Rooms.{Database, get_event, is_partial_state_room, is_host_in_room}
use synapse_gopro_worker.MatrixState.Errors.{
  Outcome, ok, refused, failed, ◌>>=◌, err_partial_state, err_host_not_in_room,
}
use synapse_gopro_worker.MatrixState.Visibility.{event_visible_in_room}

pub record TransactionResponse : Type 0 where
  pub origin : Bytes
  pub origin_server_ts : ℕ
  pub pdus : List Bytes

unfoldable pub or_failed : Option Bytes → Outcome Bytes
or_failed none = failed
or_failed (some body) = ok body

module _ (sender_of : Bytes → Option Bytes) (history_visibility_of : Bytes → Bytes)
    (membership_of : Bytes → Bytes) (redact_event : Event → Option Bytes)
    (apply_pdu_json_rules : ℕ → Bytes → Option Bytes) where
  unfoldable pub body_of : Event → Bool → Outcome Bytes
  unfolding is_redacted or_failed
  body_of ev visible =
      if is_redacted ev || not visible then or_failed (redact_event ev) else ok ev.json

  unfoldable pub transaction : Bytes → ℕ → Event → Bool → Outcome TransactionResponse
  unfolding body_of or_failed
  transaction local now ev visible = do
    body ← body_of ev visible
    prepared ← or_failed (apply_pdu_json_rules now body)
    ok (record { origin = local; origin_server_ts = now; pdus = prepared ∷ [] })

  unfoldable pub serve_member :
      Database → Bytes → Bytes → ℕ → Event → Option Bool → Outcome TransactionResponse
  unfolding transaction event_visible_in_room
  serve_member db origin local now ev none = failed
  serve_member db origin local now ev (some false) = refused err_host_not_in_room
  serve_member db origin local now ev (some true) = do
    visible ←
        event_visible_in_room sender_of history_visibility_of membership_of db ev origin local false
    transaction local now ev visible

  unfoldable pub serve_event : Database → Bytes → Bytes → ℕ → Event → Outcome TransactionResponse
  unfolding serve_member is_partial_state_room is_host_in_room
  serve_event db origin local now ev =
      if is_partial_state_room db ev.room_id
      then refused err_partial_state
      else serve_member db origin local now ev (is_host_in_room db ev.room_id origin)

  -- `none` is `ErrEventNotFound`, which is answered by a 404 with an empty body.
  unfoldable pub answer_event :
      Database → Bytes → Bytes → ℕ → Bytes → Option (Outcome TransactionResponse)
  unfolding serve_event get_event
  answer_event db origin local now id = elim (get_event db id) [
    | none ↦ none
    | some ev ↦ some (serve_event db origin local now ev)
  ]
