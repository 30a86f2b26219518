-- ===== src/MissingEvents/Walk.antt =====
-- GetMissingEvents and prevEvents of internal/store/missingevents.go.
--
-- A table is the list of its rows. How `ORDER BY` orders the events before one, and how
-- `sort.Strings` orders a frontier, are parameters: the two orders need not be the same.
use synapse_gopro_worker.Prelude.{
  ℕ, zero, suc, ◌-◌, Bool, true, false, ◌&&◌, not, List, [], ◌∷◌, ◌++◌, map, Option, none, some,
  if◌then◌else◌, leb, min, Bytes, bytes_discrete, is_yes, mentions, keep_if, length, take,
}

-- A row of events, and one of event_edges.
pub record EventRow : Type 0 where
  pub event_id : Bytes
  pub room_id : Bytes

pub record EdgeRow : Type 0 where
  pub event_id : Bytes
  pub prev_event_id : Bytes
  pub is_state : Bool

pub record Tables : Type 0 where
  pub events : List EventRow
  pub event_edges : List EdgeRow

abbrev pub max_missing_events : ℕ
max_missing_events = 20

-- The IDs of the events of a room.
unfoldable pub in_room : Bytes → List EventRow → List Bytes
in_room room rows =
    map (λ e. e.event_id) (keep_if (λ e. is_yes (bytes_discrete room e.room_id)) rows)

-- What the loops change. The results are held last first, which is the order of the answer.
pub record Progress : Type 0 where
  pub seen : List Bytes
  pub next : List Bytes
  pub results : List Bytes

-- The loop over the events before one.
unfoldable pub keep : Bytes → Progress → Progress
keep e p =
    if mentions e p.seen
    then p
    else record { seen = e ∷ p.seen; next = p.next ++ e ∷ []; results = e ∷ p.results }

unfoldable pub collect : List Bytes → Progress → Progress
unfolding keep
collect [] p = p
collect (e ∷ prev) p = collect prev (keep e p)

-- What is answered, and whether it is `truncated`.
abbrev pub answer : ℕ → Option (List Bytes) → Option (List Bytes × Bool)
answer limit none = none
answer limit (some results) = some (results, leb limit (length results))

module _ (t : Tables) (room : Bytes) where
  -- `wanted`, and the rows of the query for it.
  unfoldable pub start_events : List Bytes → List Bytes → List Bytes
  unfolding in_room
  start_events earliest latest =
      let wanted = keep_if (λ id. not (mentions id earliest)) latest in
      keep_if (λ id. mentions id wanted) (in_room room t.events)

  -- The edges that the query for an event joins with the events of the room.
  unfoldable pub is_prev : Bytes → EdgeRow → Bool
  unfolding in_room
  is_prev id e =
      is_yes (bytes_discrete e.event_id id)
      && (mentions e.prev_event_id (in_room room t.events) && not e.is_state)

  -- The events before one, without `LIMIT`.
  unfoldable pub all_prev : Bytes → List Bytes
  unfolding is_prev
  all_prev id = map (λ e. e.prev_event_id) (keep_if (is_prev id) t.event_edges)

  module _ (order_by : List Bytes → List Bytes) where
    unfoldable pub prev_events : Bytes → ℕ → List Bytes
    unfolding all_prev
    prev_events id limit = take limit (order_by (all_prev id))

    -- The loop over the frontier.
    unfoldable pub visit : ℕ → List Bytes → Progress → Progress
    unfolding collect prev_events
    visit limit [] p = p
    visit limit (id ∷ front) p = elim (leb limit (length p.results)) [
      | true ↦ p
      | false ↦ visit limit front (collect (prev_events id (limit - length p.results)) p)
    ]

    module _ (sort : List Bytes → List Bytes) where
      -- The outer loop, on fuel: `none` means that the fuel ran out.
      unfoldable pub walk_back : ℕ → ℕ → List Bytes → List Bytes → List Bytes → Option (List Bytes)
      unfolding visit
      walk_back zero limit front seen results = none
      walk_back (suc n) limit [] seen results = some results
      walk_back (suc n) limit (id ∷ front) seen results = elim (leb limit (length results)) [
        | true ↦ some results
        | false ↦
            let p =
              visit limit (sort (id ∷ front))
                (record { seen = seen; next = []; results = results }) in
            walk_back n limit p.next p.seen p.results
      ]

      -- A round with a next frontier has found an event, so a round for each that may be answered, and
      -- two more, are enough.
      unfoldable pub missing_up_to : ℕ → List Bytes → List Bytes → Option (List Bytes × Bool)
      unfolding walk_back start_events
      missing_up_to zero earliest latest = some ([], false)
      missing_up_to (suc k) earliest latest =
          answer (suc k)
            (walk_back (suc (suc (suc k))) (suc k) (start_events earliest latest) earliest [])

      unfoldable pub get_missing_events : List Bytes → List Bytes → ℕ → Option (List Bytes × Bool)
      unfolding missing_up_to
      get_missing_events earliest latest limit =
          missing_up_to (min limit max_missing_events) earliest latest
