-- ===== src/MissingEvents/Tests.antt =====
-- Walks over a small room, and the theorems there.
use synapse_gopro_worker.Prelude.{
  ◌+◌, ◌≤◌, ◌≡◌, refl, Bool, false, List, [], ◌∷◌, map, some, arith, length, length-keep_if-le,
  keep_if, In, min, Bytes, bytes, bytes_discrete, mentions, inl, inr,
}
use synapse_gopro_worker.MissingEvents.Walk.{
  EventRow, EdgeRow, Tables, all_prev, is_prev, start_events, get_missing_events,
  max_missing_events, in_room,
}
use synapse_gopro_worker.MissingEvents.Sound.{Missing, before_start}
use synapse_gopro_worker.MissingEvents.Loops.{IsSorting}
use synapse_gopro_worker.MissingEvents.Answers.{IsAnswer, get_missing_events-IsAnswer}
use synapse_gopro_worker.MissingEvents.Complete.{get_missing_events-complete}

abbrev room : Bytes
room = bytes "!r"

abbrev row : Bytes → EventRow
row id = record { event_id = id; room_id = room }

abbrev edge : Bytes → Bytes → EdgeRow
edge id prev = record { event_id = id; prev_event_id = prev; is_state = false }

-- The last event stands on two, and one of those on the event that is held.
abbrev tables : Tables
tables = record {
  events = row (bytes "$a") ∷ row (bytes "$b") ∷ row (bytes "$c") ∷ row (bytes "$d") ∷ [];
  event_edges =
      edge (bytes "$d") (bytes "$a")
      ∷ edge (bytes "$d") (bytes "$c")
      ∷ edge (bytes "$c") (bytes "$b")
      ∷ [];
}

abbrev unsorted : List Bytes → List Bytes
unsorted ids = ids

unsorted-IsSorting : IsSorting unsorted
unsorted-IsSorting = record { elements = λ x xs. (λ m. m, λ m. m); as_long = λ xs. refl }

abbrev held : List Bytes
held = bytes "$a" ∷ []

abbrev asked : List Bytes
asked = bytes "$d" ∷ []

found :
    get_missing_events tables room unsorted unsorted held asked 10
    ≡ some (bytes "$b" ∷ bytes "$c" ∷ [], false)
unfolding get_missing_events mentions bytes_discrete
found = refl

-- `LIMIT` counts an event that is held: the other one is not found, and nothing says so.
cut_short : get_missing_events tables room unsorted unsorted held asked 1 ≡ some ([], false)
unfolding get_missing_events mentions bytes_discrete
cut_short = refl

get_missing_events-IsAnswer_example :
    (r : List Bytes × Bool) × (get_missing_events tables room unsorted unsorted held asked 10
      ≡ some r)
    × IsAnswer tables room unsorted unsorted unsorted-IsSorting unsorted-IsSorting held asked
        (min 10 max_missing_events)
        r
get_missing_events-IsAnswer_example =
    get_missing_events-IsAnswer tables room unsorted unsorted unsorted-IsSorting unsorted-IsSorting
      held asked 10

length-map : {A B : Type 0} (f : A → B) (xs : List A) → length (map f xs) ≡ length xs
length-map f [] = refl
length-map f (x ∷ xs) = omega (arith, length-map f xs)

few_before : (y : Bytes) → 2 + length (all_prev tables room y) ≤ min 10 max_missing_events
unfolding all_prev
few_before y = omega (
  arith,
  length-keep_if-le (is_prev tables room y) tables.event_edges,
  length-map (λ e. e.prev_event_id) (keep_if (is_prev tables room y) tables.event_edges),
)

behind : Missing tables room held (start_events tables room held asked) (bytes "$c")
unfolding start_events in_room mentions bytes_discrete all_prev
behind = before_start (bytes "$d") (inl refl) (inr (inl refl)) (λ m. ground arith)

get_missing_events-complete_example : In (bytes "$c") (bytes "$b" ∷ bytes "$c" ∷ [])
get_missing_events-complete_example =
    get_missing_events-complete tables room unsorted unsorted unsorted-IsSorting unsorted-IsSorting
      held asked 10 (bytes "$b" ∷ bytes "$c" ∷ []) (omega arith) found few_before (bytes "$c")
      behind
