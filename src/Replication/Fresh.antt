-- ===== src/Replication/Fresh.antt =====
-- What the cache of events may answer, against the history of the stream.
use synapse_gopro_worker.Prelude.{
  ℕ, ◌≡◌, ◌⊎◌, inl, inr, refl, ap, Bool, true, false, ◌&&◌, ◌||◌, not, List, [], ◌∷◌, ◌++◌, map,
  Option, none, some, ltb, Bytes, bytes, bytes_discrete, Bool-cases, arith,
}
use synapse_gopro_worker.Cache.Spec.{gets, adds, removes, arms, purges}
use synapse_gopro_worker.Cache.History.{Memory, note, note_all}
use synapse_gopro_worker.Store.Types.{Event}
use synapse_gopro_worker.Store.Caches.{size_of_event}
use synapse_gopro_worker.Replication.Commands.{
  CachesCall, arm_all, purge_all, drop_one, Part, is_text, handle,
}
use synapse_gopro_worker.Replication.Subscriber.{
  Phase, listening, waiting, stopped, Use, gets_event, adds_event, Signal, subscription, message,
  pong, closed, cancelled, woke, request, Worker, listen, wait, idle, step_in, disarm, arm,
}
use synapse_gopro_worker.Replication.Events.{
  EventCall, call_of_use, event_call, calls_listening, calls_waiting, calls_idle, calls_in,
}

-- Whether calls of the interface drop an event.
unfoldable pub drops : Bytes → List CachesCall → Bool
drops id [] = false
drops id (purge_all ∷ xs) = true
drops id (drop_one other ∷ xs) = is_text id other || drops id xs
drops id (arm_all on ∷ xs) = not on || drops id xs

module _ (max_bytes : ℕ) where
  abbrev pub note_events : List EventCall → Memory Bytes Event → Memory Bytes Event
  note_events = note_all bytes_discrete size_of_event max_bytes

  pub note_events-append :
      (xs ys : List EventCall) (m : Memory Bytes Event)
      → note_events (xs ++ ys) m ≡ note_events ys (note_events xs m)
  unfolding note_all
  note_events-append [] ys m = refl
  note_events-append (x ∷ xs) ys m =
      note_events-append xs ys (note bytes_discrete size_of_event max_bytes x m)

  -- A memory that is off is empty.
  abbrev pub IsQuiet : Memory Bytes Event → Type 0
  IsQuiet m = m.armed ≡ false → (id : Bytes) → m.value id ≡ none

  note-IsQuiet :
      (x : EventCall) (m : Memory Bytes Event)
      → IsQuiet m
      → IsQuiet (note bytes_discrete size_of_event max_bytes x m)
  unfolding note
  note-IsQuiet (gets k) m q off id = q off id
  note-IsQuiet (adds k v) m q off id = elim (Bool-cases m.armed) [
    | inl on ↦ absurd (ground (arith, on))
    | inr o ↦ ground (arith, o, q o id)
  ]
  note-IsQuiet (removes k) m q off id = ground (arith, q off id)
  note-IsQuiet (arms true) m q off id = ground arith
  note-IsQuiet (arms false) m q off id = refl
  note-IsQuiet purges m q off id = refl

  pub note_events-IsQuiet :
      (xs : List EventCall) (m : Memory Bytes Event) → IsQuiet m → IsQuiet (note_events xs m)
  unfolding note_all
  note_events-IsQuiet [] m q = q
  note_events-IsQuiet (x ∷ xs) m q = note_events-IsQuiet xs _ (note-IsQuiet x m q)

  -- What survives the calls of a command was there before, and is not dropped by them.
  note_events-drops :
      (id : Bytes) (e : Event) (xs : List CachesCall) (m : Memory Bytes Event)
      → (note_events (map event_call xs) m).value id ≡ some e
      → (m.value id ≡ some e) × (drops id xs ≡ false)
  unfolding note_all note event_call drops
  note_events-drops id e [] m h = (h, refl)
  note_events-drops id e (purge_all ∷ xs) m h =
      absurd (ground (arith, note_events-drops id e xs _ h))
  note_events-drops id e (drop_one other ∷ xs) m h = ground (arith, note_events-drops id e xs _ h)
  note_events-drops id e (arm_all true ∷ xs) m h = note_events-drops id e xs _ h
  note_events-drops id e (arm_all false ∷ xs) m h =
      absurd (ground (arith, note_events-drops id e xs _ h))

  -- Whether a request puts another event in the place of one.
  unfoldable pub overwrites : Bytes → Use → Bool
  overwrites id (adds_event k e) =
      ltb 0 max_bytes && (not (ltb max_bytes (size_of_event e)) && is_text id k)
  overwrites id u = false

  note_add :
      (id k : Bytes) (e v : Event) (m : Memory Bytes Event)
      → IsQuiet m
      → (note bytes_discrete size_of_event max_bytes (adds k v) m).value id ≡ some e
      → (adds_event k v ≡ adds_event id e)
        ⊎ ((m.value id ≡ some e) × (overwrites id (adds_event k v) ≡ false))
  unfolding note overwrites
  note_add id k e v m q h = elim (Bool-cases m.armed) [
    | inr off ↦ absurd (ground (arith, off, q off id))
    | inl on ↦ elim (Bool-cases (ltb 0 max_bytes && not (ltb max_bytes (size_of_event v)))) [
      | inr refused ↦ inr (ground arith, ground arith)
      | inl kept ↦ elim (bytes_discrete id k) [
        | yes same ↦ inl (ground arith)
        | no other ↦ inr (ground arith, ground arith)
      ]
    ]
  ]

  note_use :
      (id : Bytes) (e : Event) (u : Use) (m : Memory Bytes Event)
      → IsQuiet m
      → (note_events (call_of_use u) m).value id ≡ some e
      → (u ≡ adds_event id e) ⊎ ((m.value id ≡ some e) × (overwrites id u ≡ false))
  unfolding note_all note call_of_use overwrites
  note_use id e (gets_event k) m q h = inr (h, refl)
  note_use id e (adds_event k v) m q h = note_add id k e v m q h
  note_use id e u m q h = inr (h, refl)

  note_use-armed :
      (u : Use) (m : Memory Bytes Event)
      → m.armed ≡ false
      → (note_events (call_of_use u) m).armed ≡ false
  unfolding note_all note call_of_use
  note_use-armed (gets_event k) m off = off
  note_use-armed (adds_event k v) m off = ground arith
  note_use-armed u m off = off

  module _ (decode_row : Bytes → Option (List Part)) where
    -- Whether a signal drops an event that was added before it: a gap in the stream, a command that
    -- drops it, or a request that replaces it.
    unfoldable pub outdates : Bytes → Signal → Bool
    unfolding drops overwrites
    outdates id (subscription kind) = is_text kind (bytes "subscribe")
    outdates id (message payload) = drops id (handle decode_row payload)
    outdates id (request u) = overwrites id u
    outdates id closed = true
    outdates id cancelled = true
    outdates id pong = false
    outdates id woke = false

    -- An event was added, and nothing since has outdated it. The latest signal comes first.
    abbrev pub IsFresh : Bytes → Event → List Signal → Type 0
    IsFresh id e [] = ⊥
    IsFresh id e (s ∷ history) =
        (s ≡ request (adds_event id e)) ⊎ ((outdates id s ≡ false) × IsFresh id e history)

    abbrev pub Kept : Bytes → Event → Signal → Memory Bytes Event → Type 0
    Kept id e s m =
        (s ≡ request (adds_event id e)) ⊎ ((m.value id ≡ some e) × (outdates id s ≡ false))

    request-Kept :
        (id : Bytes) (e : Event) (u : Use) (m : Memory Bytes Event)
        → IsQuiet m
        → (note_events (call_of_use u) m).value id ≡ some e
        → Kept id e (request u) m
    unfolding outdates
    request-Kept id e u m q h = elim (note_use id e u m q h) [
      | inl p ↦ inl (ap request p)
      | inr (v, o) ↦ inr (v, o)
    ]

    listening-Kept :
        (id : Bytes) (e : Event) (s : Signal) (m : Memory Bytes Event)
        → IsQuiet m
        → (note_events (calls_listening decode_row s) m).value id ≡ some e
        → Kept id e s m
    unfolding calls_listening outdates note_all note
    listening-Kept id e (subscription kind) m q h =
        elim (Bool-cases (is_text kind (bytes "subscribe"))) [
          | inl on ↦ absurd (ground (arith, on))
          | inr no_subscription ↦ inr (ground (arith, no_subscription), no_subscription)
        ]
    listening-Kept id e (message payload) m q h =
        inr (note_events-drops id e (handle decode_row payload) m h)
    listening-Kept id e closed m q h = absurd (ground arith)
    listening-Kept id e cancelled m q h = absurd (ground arith)
    listening-Kept id e (request u) m q h = request-Kept id e u m q h
    listening-Kept id e pong m q h = inr (h, refl)
    listening-Kept id e woke m q h = inr (h, refl)

    -- While no session is on, the cache is off, and only requests are looked at.
    waiting-Kept :
        (id : Bytes) (e : Event) (s : Signal) (m : Memory Bytes Event)
        → IsQuiet m
        → m.armed ≡ false
        → (note_events (calls_waiting decode_row s) m).value id ≡ some e
        → Kept id e s m
    unfolding calls_waiting note_all note
    waiting-Kept id e cancelled m q off h = absurd (ground arith)
    waiting-Kept id e (request u) m q off h = request-Kept id e u m q h
    waiting-Kept id e s m q off h = absurd (ground (arith, q off id))

    idle-Kept :
        (id : Bytes) (e : Event) (s : Signal) (m : Memory Bytes Event)
        → IsQuiet m
        → m.armed ≡ false
        → (note_events (calls_idle decode_row s) m).value id ≡ some e
        → Kept id e s m
    unfolding calls_idle note_all
    idle-Kept id e (request u) m q off h = request-Kept id e u m q h
    idle-Kept id e s m q off h = absurd (ground (arith, q off id))

    abbrev pub IsOn : Phase → Memory Bytes Event → Type 0
    IsOn p m = (p ≡ listening) ⊎ (m.armed ≡ false)

    pub step-Kept :
        (id : Bytes) (e : Event) (p : Phase) (s : Signal) (m : Memory Bytes Event)
        → IsQuiet m
        → IsOn p m
        → (note_events (calls_in decode_row p s) m).value id ≡ some e
        → Kept id e s m
    unfolding calls_in
    step-Kept id e listening s m q on h = listening-Kept id e s m q h
    step-Kept id e waiting s m q (inr off) h = waiting-Kept id e s m q off h
    step-Kept id e waiting s m q (inl on) h = absurd (ground arith)
    step-Kept id e stopped s m q (inr off) h = idle-Kept id e s m q off h
    step-Kept id e stopped s m q (inl on) h = absurd (ground arith)

    listen-IsOn :
        (s : Signal) (w : Worker) (m : Memory Bytes Event)
        → w.phase ≡ listening
        → IsOn (listen decode_row s w).phase (note_events (calls_listening decode_row s) m)
    unfolding listen calls_listening note_all note disarm arm
    listen-IsOn (subscription kind) w m on =
        inl (elim (Bool-cases (is_text kind (bytes "subscribe"))) [
          | inl e ↦ ground (arith, e)
          | inr e ↦ ground (arith, e)
        ])
    listen-IsOn (message payload) w m on = inl on
    listen-IsOn closed w m on = inr refl
    listen-IsOn cancelled w m on = inr refl
    listen-IsOn (request u) w m on = inl on
    listen-IsOn pong w m on = inl on
    listen-IsOn woke w m on = inl on

    wait-IsOn :
        (s : Signal) (w : Worker) (m : Memory Bytes Event)
        → m.armed ≡ false
        → IsOn (wait decode_row s w).phase (note_events (calls_waiting decode_row s) m)
    unfolding wait calls_waiting note_all note
    wait-IsOn woke w m off = inl refl
    wait-IsOn cancelled w m off = inr refl
    wait-IsOn (request u) w m off = inr (note_use-armed u m off)
    wait-IsOn s w m off = inr off

    idle-IsOn :
        (s : Signal) (w : Worker) (m : Memory Bytes Event)
        → m.armed ≡ false
        → IsOn (idle decode_row s w).phase (note_events (calls_idle decode_row s) m)
    unfolding idle calls_idle note_all
    idle-IsOn (request u) w m off = inr (note_use-armed u m off)
    idle-IsOn s w m off = inr off

    pub step_in-IsOn :
        (p : Phase) (s : Signal) (w : Worker) (m : Memory Bytes Event)
        → w.phase ≡ p
        → IsOn p m
        → IsOn (step_in decode_row p s w).phase (note_events (calls_in decode_row p s) m)
    unfolding step_in calls_in
    step_in-IsOn listening s w m e on = listen-IsOn s w m e
    step_in-IsOn waiting s w m e (inr off) = wait-IsOn s w m off
    step_in-IsOn waiting s w m e (inl on) = absurd (ground arith)
    step_in-IsOn stopped s w m e (inr off) = idle-IsOn s w m off
    step_in-IsOn stopped s w m e (inl on) = absurd (ground arith)
