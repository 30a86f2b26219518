-- ===== src/RateLimit/Window.antt =====
-- The arrival times that a host keeps are those of the admitted requests still in the window.
use synapse_gopro_worker.Prelude.{
  ℕ, suc, ◌+◌, ◌≤◌, ◌≡◌, refl, sym, ap, ◌∙◌, Bool, true, false, List, [], ◌∷◌, ◌++◌, Option, some,
  if◌then◌else◌, arith, length, ltb, keep_if, length-append,
}
use mathlib.Core.List.{append_assoc, append-nil}
use synapse_gopro_worker.RateLimit.Settings.{FederationSettings}
use synapse_gopro_worker.RateLimit.Host.{
  HostLimiter, Verdict, rejected, should_sleep, may_run, in_window, arrive, wake, take_slot,
  release, abandon,
}
use synapse_gopro_worker.RateLimit.Threads.{
  Phase, asleep, ready, waiting, granted, running, World, Event, arrives, wakes, sleep_fails, takes,
  proceeds, cancels, releases, phase_of, finish, act, subject, step, run, idle_world,
}
use synapse_gopro_worker.RateLimit.Counting.{count}
use synapse_gopro_worker.RateLimit.Accounts.{run-idle_world-Accounts}

keep_if-append {ℓ} :
    {A : Type ℓ} (p : A → Bool) (xs ys : List A)
    → keep_if p (xs ++ ys) ≡ keep_if p xs ++ keep_if p ys
keep_if-append p [] ys = refl
keep_if-append p (x ∷ xs) ys = ground (arith, keep_if-append p xs ys)

-- What has left the window at one time is not in it later.
keep_if-in_window :
    (now t window : ℕ) (l : List ℕ)
    → t ≤ now
    → keep_if (in_window now window) (keep_if (in_window t window) l)
      ≡ keep_if (in_window now window) l
keep_if-in_window now t window [] h = refl
keep_if-in_window now t window (x ∷ l) h = ground (arith, keep_if-in_window now t window l h)

module _ (s : FederationSettings) where
  abbrev admitted_at : ℕ → Verdict → List ℕ
  admitted_at now rejected = []
  admitted_at now should_sleep = now ∷ []
  admitted_at now may_run = now ∷ []

  abbrev admitted : Event → World → List ℕ
  admitted (arrives now) w = admitted_at now (arrive s now w.host).1
  admitted _ w = []

  -- The times of the requests that a schedule admits, oldest first.
  unfoldable pub admissions : List Event → World → List ℕ
  admissions [] w = []
  admissions (e ∷ es) w = admitted e w ++ admissions es (step s e w)

  -- The clock does not run backwards.
  abbrev pub Ordered : ℕ → List Event → ℕ → Type 0
  Ordered t [] now = t ≤ now
  Ordered t (arrives t' ∷ es) now = (t ≤ t') × Ordered t' es now
  Ordered t (wakes i ∷ es) now = Ordered t es now
  Ordered t (sleep_fails i ∷ es) now = Ordered t es now
  Ordered t (takes i ∷ es) now = Ordered t es now
  Ordered t (proceeds i ∷ es) now = Ordered t es now
  Ordered t (cancels i ∷ es) now = Ordered t es now
  Ordered t (releases i ∷ es) now = Ordered t es now

  Ordered-le : (t : ℕ) (es : List Event) (now : ℕ) → Ordered t es now → t ≤ now
  Ordered-le t [] now o = o
  Ordered-le t (arrives t' ∷ es) now o = omega (arith, o.0, Ordered-le t' es now o.1)
  Ordered-le t (wakes i ∷ es) now o = Ordered-le t es now o
  Ordered-le t (sleep_fails i ∷ es) now o = Ordered-le t es now o
  Ordered-le t (takes i ∷ es) now o = Ordered-le t es now o
  Ordered-le t (proceeds i ∷ es) now o = Ordered-le t es now o
  Ordered-le t (cancels i ∷ es) now o = Ordered-le t es now o
  Ordered-le t (releases i ∷ es) now o = Ordered-le t es now o

  -- The clock after the first event, and before the end.
  Ordered-cons :
      (e : Event) (es : List Event) (t now : ℕ)
      → Ordered t (e ∷ es) now
      → ((t' : ℕ) × Ordered t' es now) × Ordered 0 (e ∷ []) now
  Ordered-cons (arrives t') es t now o = ((t', o.1), (omega arith, Ordered-le t' es now o.1))
  Ordered-cons (wakes i) es t now o = ((t, o), omega arith)
  Ordered-cons (sleep_fails i) es t now o = ((t, o), omega arith)
  Ordered-cons (takes i) es t now o = ((t, o), omega arith)
  Ordered-cons (proceeds i) es t now o = ((t, o), omega arith)
  Ordered-cons (cancels i) es t now o = ((t, o), omega arith)
  Ordered-cons (releases i) es t now o = ((t, o), omega arith)

  arrive-times :
      (t : ℕ) (h : HostLimiter)
      → (arrive s t h).0.request_times
        ≡ keep_if (in_window t s.window_size) h.request_times ++ admitted_at t (arrive s t h).1
  unfolding arrive
  arrive-times t h =
      ground (arith, append-nil (keep_if (in_window t s.window_size) h.request_times))

  release-times : (h : HostLimiter) → (release h).0.request_times ≡ h.request_times
  unfolding release
  release-times h = ground arith

  abandon-times :
      (i : ℕ) (b : Bool) (h : HostLimiter) → (abandon i b h).0.request_times ≡ h.request_times
  unfolding abandon
  abandon-times i b h = ground (arith, release-times h)

  -- Only an arrival touches the times.
  abbrev Quiet : Event → Type 0
  Quiet (arrives t) = ⊥
  Quiet _ = Unit

  act-times :
      (e : Event) (p : Option Phase) (w : World)
      → Quiet e
      → (act s e p w).host.request_times ≡ w.host.request_times
  unfolding act wake take_slot finish
  act-times (arrives t) p w q = absurd q
  act-times (wakes i) (some asleep) w q = refl
  act-times (sleep_fails i) (some asleep) w q = refl
  act-times (takes i) (some ready) w q = ground arith
  act-times (cancels i) (some waiting) w q = abandon-times i false w.host
  act-times (cancels i) (some granted) w q = abandon-times i true w.host
  act-times (releases i) (some running) w q = release-times w.host
  act-times (wakes i) _ w q = refl
  act-times (sleep_fails i) _ w q = refl
  act-times (takes i) _ w q = refl
  act-times (proceeds i) (some granted) w q = refl
  act-times (proceeds i) _ w q = refl
  act-times (cancels i) _ w q = refl
  act-times (releases i) _ w q = refl

  abbrev recent : ℕ → List ℕ → List ℕ
  recent now = keep_if (in_window now s.window_size)

  Quiet-times :
      (e : Event) (w : World) (now : ℕ)
      → Quiet e
      → recent now (step s e w).host.request_times ≡ recent now (w.host.request_times ++ [])
  unfolding step
  Quiet-times e w now q =
      ap (recent now)
        (act-times e (phase_of (subject e) w.threads) w q ∙ sym (append-nil w.host.request_times))

  step_times :
      (e : Event) (w : World) (now : ℕ)
      → Ordered 0 (e ∷ []) now
      → recent now (step s e w).host.request_times
        ≡ recent now (w.host.request_times ++ admitted e w)
  unfolding step
  step_times (arrives t) w now o =
      unfold act in
      ap (recent now) (arrive-times t w.host)
      ∙ keep_if-append (in_window now s.window_size) _ _
      ∙ ap (λ l. l ++ recent now (admitted_at t (arrive s t w.host).1))
          (keep_if-in_window now t s.window_size w.host.request_times o.1)
      ∙ sym (keep_if-append (in_window now s.window_size) w.host.request_times _)
  step_times (wakes i) w now o = Quiet-times (wakes i) w now tt
  step_times (sleep_fails i) w now o = Quiet-times (sleep_fails i) w now tt
  step_times (takes i) w now o = Quiet-times (takes i) w now tt
  step_times (proceeds i) w now o = Quiet-times (proceeds i) w now tt
  step_times (cancels i) w now o = Quiet-times (cancels i) w now tt
  step_times (releases i) w now o = Quiet-times (releases i) w now tt

  -- At any later time, what the host keeps of the window is what a schedule admitted into it.
  run_times :
      (es : List Event) (w : World) (t now : ℕ)
      → Ordered t es now
      → recent now (run s es w).host.request_times
        ≡ recent now (w.host.request_times ++ admissions es w)
  unfolding run admissions
  run_times [] w t now o = ap (recent now) (sym (append-nil w.host.request_times))
  run_times (e ∷ es) w t now o =
      let (rest, here) = Ordered-cons e es t now o in
      let keep = in_window now s.window_size in
      let times = w.host.request_times in
      let later = admissions es (step s e w) in
      run_times es (step s e w) rest.0 now rest.1
      ∙ keep_if-append keep _ later
      ∙ ap (λ l. l ++ keep_if keep later) (step_times e w now here)
      ∙ sym (keep_if-append keep (times ++ admitted e w) later)
      ∙ ap (keep_if keep) (append_assoc times (admitted e w) later)

  -- What becomes of a request that arrives after any schedule in order of time: it is refused if more than
  -- `reject_limit` requests sleep or wait, delayed if with it more than `sleep_limit` were admitted
  -- within the window, and goes on otherwise. A refused request does not count.
  pub arrive-verdict :
      (start : ℕ) (es : List Event) (now : ℕ)
      → Ordered start es now
      → let w = run s es (idle_world start) in
        (arrive s now w.host).1 ≡ (
          if ltb s.reject_limit (count asleep w.threads + count waiting w.threads)
          then rejected
          else if ltb s.sleep_limit (suc (length (recent now (admissions es (idle_world start)))))
          then should_sleep
          else may_run)
  unfolding arrive idle_world
  arrive-verdict start es now o =
      let w = run s es (idle_world start) in
      let a = (run-idle_world-Accounts s start es).counts in
      let waiting_sum : w.host.sleeping + w.host.queued
          ≡ count asleep w.threads + count waiting w.threads =
        omega (arith, a.sleeps, a.queue, a.waits) in
      let kept : recent now w.host.request_times ≡ recent now (admissions es (idle_world start)) =
        run_times es (idle_world start) start now o in
      let size = length-append (recent now w.host.request_times) (now ∷ []) in
      ground (arith, waiting_sum, size, ap length kept)
