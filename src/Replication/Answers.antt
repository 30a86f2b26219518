-- ===== src/Replication/Answers.antt =====
-- That the cache of events answers nothing that the stream has outdated.
use synapse_gopro_worker.Prelude.{
  ℕ, ◌≡◌, inl, inr, refl, ap, ◌∙◌, sym, List, [], ◌∷◌, Option, some, Bytes, bytes_discrete, subst,
  arith,
}
use synapse_gopro_worker.Cache.Lru.{get}
use synapse_gopro_worker.Cache.History.{Memory, note, note_all, blank, get-run}
use synapse_gopro_worker.Store.Types.{Event}
use synapse_gopro_worker.Store.Caches.{Settings, mb, size_of_event}
use synapse_gopro_worker.Replication.Commands.{Part}
use synapse_gopro_worker.Replication.Subscriber.{Signal, after, step}
use synapse_gopro_worker.Replication.Events.{calls_in, calls_after, after-events}
use synapse_gopro_worker.Replication.Fresh.{
  IsFresh, Kept, IsQuiet, IsOn, note_events, note_events-append, note_events-IsQuiet, step-Kept,
  step_in-IsOn,
}

module _ (decode_row : Bytes → Option (List Part)) (settings : Settings) where
  abbrev pub limit : ℕ
  limit = mb settings.events_mb

  -- What was added last for each event and not dropped since.
  memory : List Signal → Memory Bytes Event
  memory history = note_events limit (calls_after decode_row settings history) blank

  record Traced (history : List Signal) : Type 0 where
    quiet : IsQuiet limit (memory history)
    on : IsOn limit decode_row (after decode_row settings history).phase (memory history)
    fresh :
        (id : Bytes) (e : Event)
        → (memory history).value id ≡ some e
        → IsFresh limit decode_row id e history

  memory-step :
      (s : Signal) (history : List Signal)
      → memory (s ∷ history)
        ≡ note_events limit
            (calls_in decode_row (after decode_row settings history).phase s)
            (memory history)
  unfolding memory calls_after
  memory-step s history = note_events-append limit (calls_after decode_row settings history) _ blank

  -- What a signal does to the memory.
  told : Signal → List Signal → Memory Bytes Event
  told s history =
      note_events limit (calls_in decode_row (after decode_row settings history).phase s)
        (memory history)

  Kept-IsFresh :
      (id : Bytes) (e : Event) (s : Signal) (history : List Signal)
      → Traced history
      → Kept limit decode_row id e s (memory history)
      → IsFresh limit decode_row id e (s ∷ history)
  Kept-IsFresh id e s history t (inl p) = inl p
  Kept-IsFresh id e s history t (inr (v, o)) = inr (o, t.fresh id e v)

  told-IsFresh :
      (id : Bytes) (e : Event) (s : Signal) (history : List Signal)
      → Traced history
      → (told s history).value id ≡ some e
      → IsFresh limit decode_row id e (s ∷ history)
  unfolding told
  told-IsFresh id e s history t h = Kept-IsFresh id e s history t (
      step-Kept limit decode_row id e (after decode_row settings history).phase s (memory history)
        t.quiet t.on h)

  after-IsOn :
      (s : Signal) (history : List Signal)
      → Traced history
      → IsOn limit decode_row (after decode_row settings (s ∷ history)).phase (told s history)
  unfolding told after step
  after-IsOn s history t =
      let w = after decode_row settings history in
      step_in-IsOn limit decode_row w.phase s w (memory history) refl t.on

  told-IsQuiet :
      (s : Signal) (history : List Signal) → Traced history → IsQuiet limit (told s history)
  unfolding told
  told-IsQuiet s history t =
      let calls = calls_in decode_row (after decode_row settings history).phase s in
      note_events-IsQuiet limit calls (memory history) t.quiet

  told-memory : (s : Signal) (history : List Signal) → told s history ≡ memory (s ∷ history)
  unfolding told
  told-memory s history = sym (memory-step s history)

  after-Traced : (history : List Signal) → Traced history
  unfolding memory calls_after note_all note
  after-Traced [] = record {
    quiet = λ off id. refl;
    on = inr refl;
    fresh = λ id e h. absurd (ground arith);
  }
  after-Traced (s ∷ history) =
      let t = after-Traced history in
      let same : told s history ≡ memory (s ∷ history) =
        unfold told in sym (memory-step s history) in
      record {
        quiet = subst (IsQuiet limit) same (told-IsQuiet s history t);
        on =
            subst (IsOn limit decode_row (after decode_row settings (s ∷ history)).phase) same
              (after-IsOn s history t);
        fresh = λ id e h. told-IsFresh id e s history t (ap (λ m. m.value id) same ∙ h);
      }

  -- Whatever the stream and the requests did, an event that the cache answers was added by a
  -- request, and nothing since outdated it: no gap in the stream, no command that drops it or empties
  -- the caches, and no later event in its place.
  pub get-after-IsFresh :
      (history : List Signal) (id : Bytes) (e : Event)
      → (get bytes_discrete id (after decode_row settings history).caches.events).1 ≡ some e
      → IsFresh limit decode_row id e history
  unfolding memory
  get-after-IsFresh history id e h = (after-Traced history).fresh id e (
      get-run bytes_discrete size_of_event limit (calls_after decode_row settings history) id e (
        ap (λ c. (get bytes_discrete id c).1) (sym (after-events decode_row settings history)) ∙ h))
