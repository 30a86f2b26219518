-- ===== src/RateLimit/Accounts.antt =====
-- The counters of a host say how many of its requests sleep, wait and run, in every interleaving.
use synapse_gopro_worker.Prelude.{
  ℕ, suc, ◌+◌, ◌-◌, ◌≤◌, ◌<◌, ◌≡◌, ◌≢◌, inl, inr, refl, ap, Bool, true, false, List, [], ◌∷◌,
  Option, none, some, arith, length, Bool-cases, length-append, ltb, subst,
}
use synapse_gopro_worker.RateLimit.Settings.{FederationSettings}
use synapse_gopro_worker.RateLimit.Host.{
  HostLimiter, arrive, wake, take_slot, release, abandon, has_waiter, drop_waiter, prune,
}
use synapse_gopro_worker.RateLimit.Threads.{
  Phase, asleep, ready, waiting, granted, running, done, Thread, World, Event, arrives, wakes,
  sleep_fails, takes, proceeds, cancels, releases, phase_of, set_phase, grant, after_arrival,
  finish, act, subject, step, run, idle_world,
}
use synapse_gopro_worker.RateLimit.Counting.{
  count, count-set_phase, phase_of-set_phase, Queues, Queues-move, Queues-join, Queues-leave,
  length-drop_waiter, one_if, is_phase,
}

-- The counters agree with the requests, given the queue.
pub record Counts (concurrent : ℕ) (h : HostLimiter) (ts : List Thread) : Type 0 where
  pub sleeps : h.sleeping ≡ count asleep ts
  pub queue : h.queued ≡ length h.waiters
  pub waits : count waiting ts ≡ length h.waiters
  pub slots : h.processing ≡ count running ts + count granted ts
  pub limited : h.processing ≤ concurrent
  -- A request waits only while every slot is taken.
  pub busy : 0 < length h.waiters → h.processing ≡ concurrent

pub record Accounts (concurrent : ℕ) (w : World) : Type 0 where
  pub counts : Counts concurrent w.host w.threads
  pub queues : Queues w.host.waiters w.threads
  pub fresh : (i : ℕ) → w.next_id ≤ i → phase_of i w.threads ≡ none

-- A phase in which a request holds a slot.
abbrev HoldsSlot : Phase → Type 0
HoldsSlot q =
    (one_if (is_phase q asleep) + one_if (is_phase q waiting) ≡ 0)
    × (one_if (is_phase q running) + one_if (is_phase q granted) ≡ 1)
    × (q ≢ waiting)

module _ (s : FederationSettings) where
  abbrev pub Holds : World → Type 0
  Holds = Accounts s.concurrent

  arrives-Accounts : (now : ℕ) (w : World) → Holds w → Holds (act s (arrives now) none w)
  unfolding act arrive after_arrival prune count phase_of
  arrives-Accounts now w a = record {
    counts = ground (arith, a.counts);
    queues = record {
      once = ground (arith, a.queues);
      waits = λ i m. ground (arith, a.queues.waits i, a.fresh i);
      held = λ i m. ground (arith, a.queues.held i);
    };
    fresh = λ i h. ground (arith, a.fresh i);
  }

  module _ (i : ℕ) (w : World) (a : Holds w) where
    fresh-set_phase :
        (q r : Phase)
        → phase_of i w.threads ≡ some q
        → (j : ℕ) → w.next_id ≤ j
        → phase_of j (set_phase i r w.threads) ≡ none
    fresh-set_phase q r e j h =
        ground (arith, phase_of-set_phase i j q r w.threads e, a.fresh i, a.fresh j h)

    wakes-Accounts : phase_of i w.threads ≡ some asleep → Holds (act s (wakes i) (some asleep) w)
    unfolding act wake
    wakes-Accounts e = record {
      counts =
          let moved = λ (p : Phase). count-set_phase p i asleep ready w.threads e in
          ground (arith, a.counts, moved asleep, moved waiting, moved running, moved granted);
      queues = Queues-move _ _ a.queues i asleep ready e (λ p. ground arith) (λ p. ground arith);
      fresh = fresh-set_phase asleep ready e;
    }

    sleep_fails-Accounts :
        phase_of i w.threads ≡ some asleep → Holds (act s (sleep_fails i) (some asleep) w)
    unfolding act wake
    sleep_fails-Accounts e = record {
      counts =
          let moved = λ (p : Phase). count-set_phase p i asleep done w.threads e in
          ground (arith, a.counts, moved asleep, moved waiting, moved running, moved granted);
      queues = Queues-move _ _ a.queues i asleep done e (λ p. ground arith) (λ p. ground arith);
      fresh = fresh-set_phase asleep done e;
    }

    proceeds-Accounts :
        phase_of i w.threads ≡ some granted → Holds (act s (proceeds i) (some granted) w)
    unfolding act
    proceeds-Accounts e = record {
      counts =
          let moved = λ (p : Phase). count-set_phase p i granted running w.threads e in
          ground (arith, a.counts, moved asleep, moved waiting, moved running, moved granted);
      queues = Queues-move _ _ a.queues i granted running e (λ p. ground arith) (λ p. ground arith);
      fresh = fresh-set_phase granted running e;
    }

    takes-Accounts : phase_of i w.threads ≡ some ready → Holds (act s (takes i) (some ready) w)
    unfolding act take_slot
    takes-Accounts e = elim (Bool-cases (ltb w.host.processing s.concurrent)) [
      | inl free ↦
          rw (free, act, take_slot)
            (record {
              counts =
                  let moved = λ (p : Phase). count-set_phase p i ready running w.threads e in
                  ground
                    (arith, a.counts, moved asleep, moved waiting, moved running, moved granted);
              queues =
                  Queues-move _ _ a.queues i ready running e (λ p. ground arith)
                    (λ p. ground arith);
              fresh = fresh-set_phase ready running e;
            })
      | inr full ↦
          rw (full, act, take_slot)
            (record {
              counts =
                  let moved = λ (p : Phase). count-set_phase p i ready waiting w.threads e in
                  ground (
                    arith,
                    a.counts,
                    moved asleep,
                    moved waiting,
                    moved running,
                    moved granted,
                    length-append w.host.waiters (i ∷ []),
                  );
              queues = Queues-join _ _ a.queues i ready e (λ p. ground arith);
              fresh = fresh-set_phase ready waiting e;
            })
    ]

    -- A waiting request leaves the queue.
    leaves-Accounts :
        phase_of i w.threads ≡ some waiting → Holds (act s (cancels i) (some waiting) w)
    unfolding act abandon grant
    leaves-Accounts e =
        let held = a.queues.held i e in
        rw (held, act, abandon, finish)
          (record {
            counts =
                let moved = λ (p : Phase). count-set_phase p i waiting done w.threads e in
                ground (
                  arith,
                  a.counts,
                  moved asleep,
                  moved waiting,
                  moved running,
                  moved granted,
                  length-drop_waiter i w.host.waiters held,
                );
            queues = Queues-leave _ _ a.queues i done e (λ p. ground arith);
            fresh = fresh-set_phase waiting done e;
          })

    module _ (q : Phase) (slot : HoldsSlot q) (e : phase_of i w.threads ≡ some q) where
      moved_out :
          (p : Phase)
          → count p (set_phase i done w.threads) + one_if (is_phase q p)
            ≡ count p w.threads + one_if (is_phase done p)
      moved_out p = count-set_phase p i q done w.threads e

      stopped : Queues w.host.waiters (set_phase i done w.threads)
      stopped = Queues-move _ _ a.queues i q done e slot.2 (λ p. ground arith)

      -- Nobody waits: the slot is free again.
      frees-Accounts :
          w.host.waiters ≡ []
          → Holds (record w {
            host = record w.host { processing = w.host.processing - 1 };
            threads = set_phase i done w.threads;
          })
      frees-Accounts none_waits = record {
        counts = ground (
          arith,
          a.counts,
          slot.0,
          slot.1,
          moved_out asleep,
          moved_out waiting,
          moved_out running,
          moved_out granted,
        );
        queues = stopped;
        fresh = fresh-set_phase q done e;
      }

      -- The first waiter gets the slot.
      hands_over-Accounts :
          (next : ℕ) (rest : List ℕ)
          → w.host.waiters ≡ next ∷ rest
          → Holds (record w {
            host = record w.host { waiters = rest; queued = w.host.queued - 1 };
            threads = set_phase next granted (set_phase i done w.threads);
          })
      hands_over-Accounts next rest first =
          let ts = set_phase i done w.threads in
          let head : has_waiter next w.host.waiters ≡ true =
            unfold has_waiter in rw first (ground arith) in
          let waits = stopped.waits next head in
          let left : drop_waiter next w.host.waiters ≡ rest =
            unfold drop_waiter in rw first (ground arith) in
          let moved = λ (p : Phase). count-set_phase p next waiting granted ts waits in
          let sizes : length w.host.waiters ≡ suc (length rest) = ap length first in
          record {
            counts = ground (
              arith,
              a.counts,
              slot.0,
              slot.1,
              sizes,
              moved_out asleep,
              moved_out waiting,
              moved_out running,
              moved_out granted,
              moved asleep,
              moved waiting,
              moved running,
              moved granted,
            );
            queues =
                subst (λ ws. Queues ws (set_phase next granted ts)) left
                  (Queues-leave _ _ stopped next granted waits (λ p. ground arith));
            fresh = λ j h. ground (
              arith,
              phase_of-set_phase next j waiting granted ts waits,
              fresh-set_phase q done e j h,
              fresh-set_phase q done e next,
            );
          }

      gives_back-Accounts : Holds (finish i (release w.host) w)
      unfolding finish release grant
      gives_back-Accounts = go w.host.waiters refl
        where
          go : (ws : List ℕ) → w.host.waiters ≡ ws → Holds (finish i (release w.host) w)
          go [] none_waits = rw (none_waits, finish, release) (frees-Accounts none_waits)
          go (next ∷ rest) first = rw (first, finish, release) (hands_over-Accounts next rest first)

    releases-Accounts :
        phase_of i w.threads ≡ some running → Holds (act s (releases i) (some running) w)
    unfolding act
    releases-Accounts e =
        gives_back-Accounts running (ground arith, ground arith, λ p. ground arith) e

    -- A request that was granted its slot and cancelled gives the slot back.
    returns-Accounts :
        phase_of i w.threads ≡ some granted → Holds (act s (cancels i) (some granted) w)
    unfolding act abandon
    returns-Accounts e =
        let absent : has_waiter i w.host.waiters ≡ false =
          not_held (has_waiter i w.host.waiters) refl in
        rw (absent, act, abandon)
          (gives_back-Accounts granted (ground arith, ground arith, λ p. ground arith) e)
      where
        not_held :
            (b : Bool) → has_waiter i w.host.waiters ≡ b → has_waiter i w.host.waiters ≡ false
        not_held true m = absurd (ground (arith, a.queues.waits i m))
        not_held false m = m

  pub act-Accounts :
      (e : Event) (p : Option Phase) (w : World)
      → phase_of (subject e) w.threads ≡ p
      → Holds w
      → Holds (act s e p w)
  unfolding act
  act-Accounts (arrives now) p w e a = arrives-Accounts now w a
  act-Accounts (wakes i) (some asleep) w e a = wakes-Accounts i w a e
  act-Accounts (sleep_fails i) (some asleep) w e a = sleep_fails-Accounts i w a e
  act-Accounts (takes i) (some ready) w e a = takes-Accounts i w a e
  act-Accounts (proceeds i) (some granted) w e a = proceeds-Accounts i w a e
  act-Accounts (cancels i) (some waiting) w e a = leaves-Accounts i w a e
  act-Accounts (cancels i) (some granted) w e a = returns-Accounts i w a e
  act-Accounts (releases i) (some running) w e a = releases-Accounts i w a e
  act-Accounts _ _ w e a = a

  pub step-Accounts : (e : Event) (w : World) → Holds w → Holds (step s e w)
  unfolding step
  step-Accounts e w a = act-Accounts e (phase_of (subject e) w.threads) w refl a

  run-Accounts : (es : List Event) (w : World) → Holds w → Holds (run s es w)
  unfolding run
  run-Accounts [] w a = a
  run-Accounts (e ∷ es) w a = run-Accounts es (step s e w) (step-Accounts e w a)

  -- In every interleaving of the requests of one host the counters say what the requests do: how
  -- many sleep, wait and hold a slot; the queue holds just the requests that wait, each once; no
  -- more than `concurrent` hold a slot, and a request waits only while all slots are taken.
  pub run-idle_world-Accounts : (now : ℕ) (es : List Event) → Holds (run s es (idle_world now))
  unfolding idle_world count phase_of has_waiter
  run-idle_world-Accounts now es = run-Accounts es (idle_world now) (record {
    counts = ground arith;
    queues = record { once = tt; waits = λ i m. ground arith; held = λ i m. ground arith };
    fresh = λ i h. refl;
  })
