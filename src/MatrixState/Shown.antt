-- ===== src/MatrixState/Shown.antt =====
-- That /event shows the content of an event only to a server that may see it.
use synapse_gopro_worker.Prelude.{
  ℕ, ◌≡◌, ◌⊎◌, inl, inr, refl, Bool, true, false, [], ◌∷◌, Option, none, some, Bytes, arith,
  Bool-cases, Option-cases,
}
use synapse_gopro_worker.Store.Types.{Event, is_redacted}
use synapse_gopro_worker.Store.Rooms.{Database, get_event, is_partial_state_room, is_host_in_room}
use synapse_gopro_worker.MatrixState.Errors.{ok, ◌>>=◌, >>=-eq-ok}
use synapse_gopro_worker.MatrixState.Visibility.{event_visible_in_room}
use synapse_gopro_worker.MatrixState.Serving.{
  TransactionResponse, or_failed, body_of, transaction, serve_member, serve_event, answer_event,
}
use synapse_gopro_worker.MatrixState.Seen.{MaySee, event_visible_in_room_iff}

pub or_failed-ok : (o : Option Bytes) (b : Bytes) → or_failed o ≡ ok b → o ≡ some b
unfolding or_failed
or_failed-ok none b h = absurd (ground arith)
or_failed-ok (some c) b h = ground (arith, h)

module _ (sender_of : Bytes → Option Bytes) (history_visibility_of : Bytes → Bytes)
    (membership_of : Bytes → Bytes) (redact_event : Event → Option Bytes)
    (apply_pdu_json_rules : ℕ → Bytes → Option Bytes) (db : Database) (origin local : Bytes) where
  -- What is shown of an event: its redacted form, or its content if it is not redacted and the server
  -- may see it.
  abbrev pub MayShow : Event → Bool → Bytes → Type 0
  MayShow ev partial body =
      (redact_event ev ≡ some body)
      ⊎ ((body ≡ ev.json)
          × (is_redacted ev ≡ false)
          × MaySee sender_of history_visibility_of membership_of db origin ev local partial)

  -- A response that serves an event.
  pub record Shows (now : ℕ) (ev : Event) (r : TransactionResponse) : Type 0 where
    pub whole_state : is_partial_state_room db ev.room_id ≡ false
    pub in_room : is_host_in_room db ev.room_id origin ≡ some true
    pub shown :
        (body : Bytes) × (prepared : Bytes) × MayShow ev false body
        × (apply_pdu_json_rules now body ≡ some prepared)
        × (r.pdus ≡ prepared ∷ [])

  pub body_of-MayShow :
      (ev : Event) (partial visible : Bool) (body : Bytes)
      → (visible ≡ true
          → MaySee sender_of history_visibility_of membership_of db origin ev local partial)
      → body_of sender_of history_visibility_of membership_of redact_event apply_pdu_json_rules ev
          visible
        ≡ ok body
      → MayShow ev partial body
  unfolding body_of
  body_of-MayShow ev partial visible body see h = elim (Bool-cases (is_redacted ev)) [
    | inl gone ↦ inl (or_failed-ok (redact_event ev) body (ground (arith, gone, h)))
    | inr there ↦ elim (Bool-cases visible) [
      | inl v ↦ inr (ground (arith, there, v, h), there, see v)
      | inr v ↦ inl (or_failed-ok (redact_event ev) body (ground (arith, there, v, h)))
    ]
  ]

  serve_member-ok :
      (now : ℕ) (ev : Event) (o : Option Bool) (r : TransactionResponse)
      → serve_member sender_of history_visibility_of membership_of redact_event apply_pdu_json_rules
          db origin local now ev o
        ≡ ok r
      → (o ≡ some true)
        × ((body : Bytes) × (prepared : Bytes) × MayShow ev false body
            × (apply_pdu_json_rules now body ≡ some prepared)
            × (r.pdus ≡ prepared ∷ []))
  unfolding serve_member transaction
  serve_member-ok now ev none r h = absurd (ground arith)
  serve_member-ok now ev (some false) r h = absurd (ground arith)
  serve_member-ok now ev (some true) r h =
      let (visible, seen, rest) =
        >>=-eq-ok
          (event_visible_in_room sender_of history_visibility_of membership_of db ev origin local
            false)
          (transaction sender_of history_visibility_of membership_of redact_event
            apply_pdu_json_rules local now ev)
          r h in
      let (body, made, last) =
        >>=-eq-ok
          (body_of sender_of history_visibility_of membership_of redact_event apply_pdu_json_rules
            ev visible)
          (λ body. or_failed (apply_pdu_json_rules now body) >>= λ prepared.
            ok (record { origin = local; origin_server_ts = now; pdus = prepared ∷ [] }))
          r rest in
      let (prepared, ruled, end) =
        >>=-eq-ok (or_failed (apply_pdu_json_rules now body))
          (λ prepared. ok (record { origin = local; origin_server_ts = now; pdus = prepared ∷ [] }))
          r last in
      (
        refl,
        (
          body,
          prepared,
          body_of-MayShow ev false visible body
              (event_visible_in_room_iff sender_of history_visibility_of membership_of db origin ev
                local false visible seen).0
              made,
          or_failed-ok (apply_pdu_json_rules now body) prepared ruled,
          ground (arith, end),
        ),
      )

  serve_event-Shows :
      (now : ℕ) (ev : Event) (r : TransactionResponse)
      → serve_event sender_of history_visibility_of membership_of redact_event apply_pdu_json_rules
          db origin local now ev
        ≡ ok r
      → Shows now ev r
  unfolding serve_event
  serve_event-Shows now ev r h = elim (Bool-cases (is_partial_state_room db ev.room_id)) [
    | inl partial ↦ absurd (ground (arith, partial, h))
    | inr whole ↦
        let (member, shown) =
          serve_member-ok now ev (is_host_in_room db ev.room_id origin) r
            (ground (arith, whole, h)) in
        record { whole_state = whole; in_room = member; shown = shown }
  ]

  -- A response of /event serves an event that is held, of a room whose state is whole and that the
  -- server is in; and what it shows of it, after the rules for the unsigned part, is the redacted
  -- form, or the content, and that only if the event is not redacted and the server may see it.
  pub answer_event-Shows :
      (now : ℕ) (id : Bytes) (r : TransactionResponse)
      → answer_event sender_of history_visibility_of membership_of redact_event apply_pdu_json_rules
          db origin local now id
        ≡ some (ok r)
      → (ev : Event) × (get_event db id ≡ some ev) × Shows now ev r
  unfolding answer_event
  answer_event-Shows now id r h = elim (Option-cases (get_event db id)) [
    | inl gone ↦ absurd (ground (arith, gone, h))
    | inr (ev, found) ↦ (ev, found, serve_event-Shows now ev r (ground (arith, found, h)))
  ]
