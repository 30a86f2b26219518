-- ===== src/RateLimit/Cleanup.antt =====
-- Which hosts `Cleanup` of internal/ratelimit/limiter.go discards: those that nothing is left of.
use synapse_gopro_worker.Prelude.{ℕ, ◌+◌, ◌≡◌, ◌⊎◌, List, [], ◌∷◌, All, ◌<◌}
use synapse_gopro_worker.RateLimit.Settings.{FederationSettings}
use synapse_gopro_worker.RateLimit.Threads.{
  asleep, ready, waiting, granted, running, done, Thread, Event, arrives, run, idle_world,
}
use synapse_gopro_worker.RateLimit.Counting.{count}
use synapse_gopro_worker.RateLimit.Limiter.{Limiter}

-- When the last request came in, and when the host was made before there was one.
abbrev pub last_arrival : List Event → ℕ → ℕ
last_arrival [] t = t
last_arrival (arrives now ∷ es) t = last_arrival es now
last_arrival (_ ∷ es) t = last_arrival es t

-- A request that neither sleeps nor waits nor holds a slot: one that has finished, or one that is
-- about to take a slot.
abbrev pub IsAway : Thread → Type 0
IsAway t = (t.phase ≡ ready) ⊎ (t.phase ≡ done)

-- Nobody is counted.
abbrev Uncounted : List Thread → Type 0
Uncounted ts =
    (count asleep ts ≡ 0) × (count waiting ts ≡ 0) × (count granted ts ≡ 0) × (count running ts ≡ 0)

module _ (s : FederationSettings) where
  -- A host that nothing is left of: its last request came in long enough ago, and none sleeps, waits or
  -- holds a slot.
  abbrev pub IsLeft : ℕ → ℕ → ℕ → List Event → Type 0
  IsLeft now max_idle made es =
      (last_arrival es made + max_idle < now) × All IsAway (run s es (idle_world made)).threads
