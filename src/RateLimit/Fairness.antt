-- ===== src/RateLimit/Fairness.antt =====
-- Who gets a slot that comes back: the request that has waited longest.
use synapse_gopro_worker.Prelude.{
  ℕ, ◌≡◌, ◌⊎◌, inl, inr, refl, sym, ap, ◌∙◌, Bool, true, false, not, ◌&&◌, List, [], ◌∷◌, ◌++◌,
  Option, none, some, arith, Bool-cases, keep_if, if◌then◌else◌, ◌==◌, ltb, suc, ◌≢◌, subst,
}
use mathlib.Core.List.{append-nil}
use synapse_gopro_worker.RateLimit.Settings.{FederationSettings}
use synapse_gopro_worker.RateLimit.Host.{
  HostLimiter, arrive, wake, take_slot, release, abandon, has_waiter, drop_waiter, prune,
}
use synapse_gopro_worker.RateLimit.Threads.{
  Phase, asleep, ready, waiting, granted, running, done, World, Event, arrives, wakes, sleep_fails,
  takes, proceeds, cancels, releases, phase_of, finish, act, step, grant, run, subject, idle_world,
  set_phase,
}
use synapse_gopro_worker.RateLimit.Counting.{
  Queues, Unique, has_waiter-append, has_waiter-drop_waiter, count-set_phase, phase_of-set_phase,
}
use synapse_gopro_worker.RateLimit.Accounts.{Accounts, step-Accounts, run-idle_world-Accounts}

abbrev pub is_waiting : Option Phase → Bool
is_waiting (some waiting) = true
is_waiting _ = false

-- Whether a request waits.
abbrev pub waits_in : World → ℕ → Bool
waits_in w i = is_waiting (phase_of i w.threads)

-- The request that an event makes wait, if it did not wait before.
abbrev pub joins : Event → World → World → List ℕ
joins (takes i) before after = if not (waits_in before i) && waits_in after i then i ∷ [] else []
joins _ before after = []

module _ (s : FederationSettings) where
  -- The requests that wait after a schedule, in the order in which they began to: an event adds the one
  -- that begins to wait at the end, and those that no longer wait are gone.
  abbrev pub line : List Event → World → List ℕ → List ℕ
  line [] w l = l
  line (e ∷ es) w l =
      line es (step s e w) (keep_if (waits_in (step s e w)) l ++ joins e w (step s e w))

is_waiting-eq : (o : Option Phase) → is_waiting o ≡ true → o ≡ some waiting
is_waiting-eq none h = absurd (ground arith)
is_waiting-eq (some asleep) h = absurd (ground arith)
is_waiting-eq (some ready) h = absurd (ground arith)
is_waiting-eq (some waiting) h = refl
is_waiting-eq (some granted) h = absurd (ground arith)
is_waiting-eq (some running) h = absurd (ground arith)
is_waiting-eq (some done) h = absurd (ground arith)

has_waiter-waits :
    (w : World)
    → Queues w.host.waiters w.threads
    → (i : ℕ) → has_waiter i w.host.waiters ≡ waits_in w i
has_waiter-waits w q i = elim (Bool-cases (has_waiter i w.host.waiters)) [
  | inl held ↦ held ∙ sym (ap is_waiting (q.waits i held))
  | inr gone ↦ elim (Bool-cases (waits_in w i)) [
    | inl waits ↦ absurd (ground (arith, gone, q.held i (is_waiting-eq _ waits)))
    | inr other ↦ gone ∙ sym other
  ]
]

keep_all :
    (p : ℕ → Bool) (ws : List ℕ)
    → ((j : ℕ) → has_waiter j ws ≡ true → p j ≡ true)
    → keep_if p ws ≡ ws
unfolding has_waiter
keep_all p [] h = refl
keep_all p (x ∷ ws) h =
    let first : p x ≡ true = h x (ground arith) in
    let rest = keep_all p ws (λ j m. h j (ground (arith, m))) in ground (arith, first, rest)

keep_others :
    (p : ℕ → Bool) (i : ℕ) (ws : List ℕ)
    → Unique ws
    → ((j : ℕ) → has_waiter j ws ≡ true → p j ≡ (if j == i then false else true))
    → keep_if p ws ≡ drop_waiter i ws
unfolding has_waiter drop_waiter
keep_others p i [] u h = refl
keep_others p i (x ∷ ws) u h =
    let first : p x ≡ (if x == i then false else true) = h x (ground arith) in
    elim (Bool-cases (x == i)) [
      | inl here ↦
          let others = keep_all p ws (λ j m. ground (arith, here, m, u.0, h j)) in
          ground (arith, here, first, others)
      | inr there ↦
          let rest = keep_others p i ws u.1 (λ j m. h j (ground (arith, m))) in
          ground (arith, there, first, rest)
    ]

-- What an event does to the queue.
abbrev Shape : Event → List ℕ → List ℕ → Type 0
Shape e ws ws' =
    (ws' ≡ ws)
    ⊎ ((i : ℕ) × (ws' ≡ drop_waiter i ws))
    ⊎ ((i : ℕ) × (e ≡ takes i) × (ws' ≡ ws ++ i ∷ []))

release-Shape :
    (e : Event) (h : HostLimiter) (ws : List ℕ)
    → h.waiters ≡ ws
    → Shape e h.waiters (release h).0.waiters
unfolding release drop_waiter
release-Shape e h [] q = inl (rw (q, release) q)
release-Shape e h (x ∷ ws) q = inr (inl (x, rw (q, release, drop_waiter) (ground arith)))

abandon-Shape :
    (e : Event) (i : ℕ) (closed : Bool) (h : HostLimiter)
    → Shape e h.waiters (abandon i closed h).0.waiters
unfolding abandon
abandon-Shape e i closed h = elim (Bool-cases (has_waiter i h.waiters)) [
  | inl held ↦ inr (inl (i, rw (held, abandon) refl))
  | inr gone ↦ elim (Bool-cases closed) [
    | inl c ↦ rw (gone, c, abandon) (release-Shape e h h.waiters refl)
    | inr o ↦ inl (rw (gone, o, abandon) refl)
  ]
]

module _ (s : FederationSettings) where
  act-Shape :
      (e : Event) (p : Option Phase) (w : World) → Shape e w.host.waiters (act s e p w).host.waiters
  unfolding act arrive wake take_slot finish prune
  act-Shape (arrives now) p w = inl (ground arith)
  act-Shape (wakes i) (some asleep) w = inl refl
  act-Shape (sleep_fails i) (some asleep) w = inl refl
  act-Shape (takes i) (some ready) w = elim (Bool-cases (ltb w.host.processing s.concurrent)) [
    | inl free ↦ inl (rw (free, act, take_slot) refl)
    | inr full ↦ inr (inr (i, refl, rw (full, act, take_slot) refl))
  ]
  act-Shape (proceeds i) (some granted) w = inl refl
  act-Shape (cancels i) (some waiting) w = abandon-Shape (cancels i) i false w.host
  act-Shape (cancels i) (some granted) w = abandon-Shape (cancels i) i true w.host
  act-Shape (releases i) (some running) w = release-Shape (releases i) w.host w.host.waiters refl
  act-Shape _ _ w = inl refl

unjoined :
    (e : Event) (w w' : World)
    → ((i : ℕ) → e ≡ takes i → waits_in w' i ≡ true → waits_in w i ≡ true)
    → joins e w w' ≡ []
unjoined (takes i) w w' h = elim (Bool-cases (waits_in w' i)) [
  | inl now ↦ ground (arith, now, h i refl now)
  | inr other ↦ ground (arith, other)
]
unjoined (arrives now) w w' h = refl
unjoined (wakes i) w w' h = refl
unjoined (sleep_fails i) w w' h = refl
unjoined (proceeds i) w w' h = refl
unjoined (cancels i) w w' h = refl
unjoined (releases i) w w' h = refl

last_is_new : (i : ℕ) (ws : List ℕ) → Unique (ws ++ i ∷ []) → has_waiter i ws ≡ false
unfolding has_waiter
last_is_new i [] u = refl
last_is_new i (x ∷ ws) u = ground (arith, u.0, has_waiter-append x i ws, last_is_new i ws u.1)

-- The queue after an event, from the queue before it and what the requests do.
shaped :
    (e : Event) (w w' : World) (ws ws' : List ℕ)
    → Unique ws
    → Unique ws'
    → ((i : ℕ) → has_waiter i ws ≡ waits_in w i)
    → ((i : ℕ) → has_waiter i ws' ≡ waits_in w' i)
    → Shape e ws ws'
    → ws' ≡ keep_if (waits_in w') ws ++ joins e w w'
shaped e w w' ws ws' u u' h h' (inl same) =
    let kept = keep_all (waits_in w') ws (λ j m. sym (h' j) ∙ ap (has_waiter j) same ∙ m) in
    let none_joins =
      unjoined e w w' (λ i q m. sym (h i) ∙ sym (ap (has_waiter i) same) ∙ h' i ∙ m) in
    rw (kept, none_joins) (same ∙ sym (append-nil ws))
shaped e w w' ws ws' u u' h h' (inr (inl (i, dropped))) =
    let left = λ (j : ℕ). ap (has_waiter j) dropped ∙ has_waiter-drop_waiter j i ws u in
    let kept = keep_others (waits_in w') i ws u (λ j m. ground (arith, h' j, left j, m)) in
    let none_joins = unjoined e w w' (λ j q m. ground (arith, h' j, left j, m, h j)) in
    rw (kept, none_joins) (dropped ∙ sym (append-nil (drop_waiter i ws)))
shaped e w w' ws ws' u u' h h' (inr (inr (i, taken, longer))) =
    let held = λ (j : ℕ). ap (has_waiter j) longer ∙ has_waiter-append j i ws in
    let kept = keep_all (waits_in w') ws (λ j m. ground (arith, h' j, held j, m)) in
    let new : has_waiter i ws ≡ false = last_is_new i ws (subst Unique longer u') in
    let joined : joins (takes i) w w' ≡ i ∷ [] = ground (arith, h i, new, h' i, held i) in
    let told : joins e w w' ≡ i ∷ [] = subst (λ x. joins x w w' ≡ i ∷ []) (sym taken) joined in
    rw (kept, told) longer

module _ (s : FederationSettings) where
  step-line :
      (e : Event) (w : World)
      → Accounts s.concurrent w
      → (step s e w).host.waiters
        ≡ keep_if (waits_in (step s e w)) w.host.waiters ++ joins e w (step s e w)
  step-line e w a =
      let a' = step-Accounts s e w a in
      shaped e w (step s e w) w.host.waiters (step s e w).host.waiters a.queues.once a'.queues.once
        (has_waiter-waits w a.queues) (has_waiter-waits (step s e w) a'.queues)
        (unfold step in act-Shape s e (phase_of (subject e) w.threads) w)

  line-run :
      (es : List Event) (w : World)
      → Accounts s.concurrent w
      → line s es w w.host.waiters ≡ (run s es w).host.waiters
  unfolding run
  line-run [] w a = refl
  line-run (e ∷ es) w a = rw (← step-line e w a) (line-run es (step s e w) (step-Accounts s e w a))

  -- What becomes of the slot: nobody else is touched but the request at the front of the line.
  abbrev pub HandsOver : ℕ → World → World → List ℕ → Type 0
  HandsOver i w w' [] =
      (suc w'.host.processing ≡ w.host.processing)
      × ((j : ℕ) → j ≢ i → phase_of j w'.threads ≡ phase_of j w.threads)
  HandsOver i w w' (next ∷ rest) =
      (w'.host.processing ≡ w.host.processing)
      × (phase_of next w'.threads ≡ some granted)
      × ((j : ℕ) → j ≢ i → j ≢ next → phase_of j w'.threads ≡ phase_of j w.threads)

  released :
      (i : ℕ) (w : World) (ws : List ℕ)
      → Accounts s.concurrent w
      → phase_of i w.threads ≡ some running
      → w.host.waiters ≡ ws
      → HandsOver i w (step s (releases i) w) ws
  unfolding step act finish release grant
  released i w [] a e none_waits =
      let moved = count-set_phase running i running done w.threads e in
      rw (e, step, act, finish, none_waits, release)
        (
          omega (arith, a.counts.slots, moved),
          λ j other. ground (arith, other, phase_of-set_phase i j running done w.threads e),
        )
  released i w (next ∷ rest) a e first =
      let ts = set_phase i done w.threads in
      let waits : phase_of next w.threads ≡ some waiting =
        a.queues.waits next (unfold has_waiter in rw first (ground arith)) in
      let waits' : phase_of next ts ≡ some waiting =
        ground (arith, phase_of-set_phase i next running done w.threads e) in
      rw (e, step, act, finish, first, release)
        (
          refl,
          ground (arith, phase_of-set_phase next next waiting granted ts waits'),
          λ j other further. ground (
            arith,
            other,
            further,
            phase_of-set_phase next j waiting granted ts waits',
            phase_of-set_phase i j running done w.threads e,
          ),
        )

  -- After any schedule, a running request that releases its slot hands it to the request that has
  -- waited longest: of those that wait, in the order in which they began to, the first is granted and
  -- the slot stays taken. If none waits, the slot is free. No other request is touched.
  pub releases-oldest :
      (now : ℕ) (es : List Event) (i : ℕ)
      → phase_of i (run s es (idle_world now)).threads ≡ some running
      → let w = run s es (idle_world now) in
        HandsOver i w (step s (releases i) w) (line s es (idle_world now) [])
  unfolding idle_world
  releases-oldest now es i e =
      let w = run s es (idle_world now) in
      let start = run-idle_world-Accounts s now [] in
      released i w (line s es (idle_world now) []) (run-idle_world-Accounts s now es) e
        (sym (line-run es (idle_world now) (unfold run in start)))
