-- ===== src/Store/Current.antt =====
-- Which event GetCurrentStateEvent of internal/store/room.go answers.
use synapse_gopro_worker.Prelude.{
  ◌≡◌, ◌⊎◌, ◌↔◌, inl, inr, refl, sym, ◌∙◌, Bool, true, false, ◌&&◌, List, [], ◌∷◌, Option, none,
  some, Bytes, arith, Bool-cases, Option-cases,
}
use synapse_gopro_worker.Store.Types.{Event}
use synapse_gopro_worker.Store.Presence.{same-yes, yes-same}
use synapse_gopro_worker.Store.Rooms.{CurrentRow, same, find_event, current_event}

module _ (room event_type state_key : Bytes) (events : List Event) where
  -- The row of a state key of the room.
  abbrev pub IsRowOf : CurrentRow → Type 0
  IsRowOf r = (r.room_id ≡ room) × (r.event_type ≡ event_type) × (r.state_key ≡ state_key)

  -- The first row of the state key whose event is held, with the event's JSON; or none if there is no
  -- such row.
  abbrev pub IsFirstHeld : List CurrentRow → Option (Bytes × Bytes) → Type 0
  IsFirstHeld [] o = o ≡ none
  IsFirstHeld (r ∷ rows) o =
      (IsRowOf r
        × ((e : Event) × (find_event r.event_id events ≡ some e) × (o ≡ some (r.event_id, e.json))))
      ⊎ ((IsRowOf r → find_event r.event_id events ≡ none) × IsFirstHeld rows o)

  abbrev matches : CurrentRow → Bool
  matches r = same r.room_id room && (same r.event_type event_type && same r.state_key state_key)

  matches-IsRowOf : (r : CurrentRow) → (matches r ≡ true) ↔ IsRowOf r
  matches-IsRowOf r = (
    λ h. (
      same-yes r.room_id room (ground (arith, h)),
      same-yes r.event_type event_type (ground (arith, h)),
      same-yes r.state_key state_key (ground (arith, h)),
    ),
    λ (a, b, c).
        let a' = yes-same r.room_id room a in
        let b' = yes-same r.event_type event_type b in
        let c' = yes-same r.state_key state_key c in ground (arith, a', b', c'),
  )

  abbrev answered : List CurrentRow → Option (Bytes × Bytes)
  answered = current_event room event_type state_key events

  passed :
      (r : CurrentRow) (rows : List CurrentRow)
      → (matches r ≡ false) ⊎ (find_event r.event_id events ≡ none)
      → answered (r ∷ rows) ≡ answered rows
  unfolding current_event
  passed r rows (inl other) = rw other refl
  passed r rows (inr gone) = elim (Bool-cases (matches r)) [
    | inl m ↦ rw (m, gone) refl
    | inr m ↦ rw m refl
  ]

  taken :
      (r : CurrentRow) (rows : List CurrentRow) (e : Event)
      → matches r ≡ true
      → find_event r.event_id events ≡ some e
      → answered (r ∷ rows) ≡ some (r.event_id, e.json)
  unfolding current_event
  taken r rows e m found = rw (m, found) refl

  pub current_event-IsFirstHeld : (rows : List CurrentRow) → IsFirstHeld rows (answered rows)
  unfolding current_event
  current_event-IsFirstHeld [] = refl
  current_event-IsFirstHeld (r ∷ rows) =
      let (there, back) = matches-IsRowOf r in
      let rest = current_event-IsFirstHeld rows in
      elim (Bool-cases (matches r)) [
        | inr m ↦ rw (passed r rows (inl m)) (inr (λ q. absurd (ground (arith, m, back q)), rest))
        | inl m ↦ elim (Option-cases (find_event r.event_id events)) [
          | inl gone ↦ rw (passed r rows (inr gone)) (inr (λ q. gone, rest))
          | inr (e, found) ↦ inl (there m, (e, found, taken r rows e m found))
        ]
      ]

  pub IsFirstHeld-current_event :
      (rows : List CurrentRow) (o : Option (Bytes × Bytes)) → IsFirstHeld rows o → o ≡ answered rows
  unfolding current_event
  IsFirstHeld-current_event [] o c = c
  IsFirstHeld-current_event (r ∷ rows) o (inl (q, (e, found, told))) =
      told ∙ sym (taken r rows e ((matches-IsRowOf r).1 q) found)
  IsFirstHeld-current_event (r ∷ rows) o (inr (other, c)) =
      let rest = IsFirstHeld-current_event rows o c in
      elim (Bool-cases (matches r)) [
        | inr m ↦ rest ∙ sym (passed r rows (inl m))
        | inl m ↦ rest ∙ sym (passed r rows (inr (other ((matches-IsRowOf r).0 m))))
      ]
