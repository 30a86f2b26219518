-- ===== src/RateLimit/Limiter.antt =====
-- Limiter of internal/ratelimit/limiter.go: the hosts that have state, and their cleanup.
use synapse_gopro_worker.Prelude.{
  ℕ, ◌+◌, ◌≡◌, Bool, ◌&&◌, List, [], ◌∷◌, none, some, if◌then◌else◌, ltb, ◌==◌, lookup, insert,
  Bytes, bytes_discrete,
}
use synapse_gopro_worker.RateLimit.Settings.{FederationSettings, with_defaults}
use synapse_gopro_worker.RateLimit.Host.{HostLimiter, new_host}

pub record Limiter : Type 0 where
  pub settings : FederationSettings
  pub hosts : List (Bytes × HostLimiter)

unfoldable pub new_limiter : FederationSettings → Limiter
new_limiter s = record { settings = with_defaults s; hosts = [] }

-- `hostLimiter`: the state of a host, made on its first request.
unfoldable pub host_limiter : ℕ → Bytes → Limiter → Limiter × HostLimiter
host_limiter now host l = elim (lookup bytes_discrete host l.hosts) [
  | some h ↦ (l, h)
  | none ↦ (record l { hosts = insert bytes_discrete host (new_host now) l.hosts }, new_host now)
]

-- `h.lastUsed.Before(now.Add(-maxIdle))`, and nothing sleeps, waits or runs.
unfoldable pub is_idle : ℕ → ℕ → HostLimiter → Bool
is_idle now max_idle h =
    ltb (h.last_used + max_idle) now && (h.processing == 0 && (h.queued == 0 && h.sleeping == 0))

-- The loop of `Cleanup` over the hosts: those that stay, and how many were removed.
unfoldable pub sweep : ℕ → ℕ → List (Bytes × HostLimiter) → List (Bytes × HostLimiter) × ℕ
sweep now max_idle [] = ([], 0)
sweep now max_idle ((host, h) ∷ rest) =
    let (kept, removed) = sweep now max_idle rest in
    if is_idle now max_idle h then (kept, removed + 1) else ((host, h) ∷ kept, removed)

unfoldable pub cleanup : ℕ → ℕ → Limiter → Limiter × ℕ
unfolding sweep
cleanup now max_idle l =
    let (kept, removed) = sweep now max_idle l.hosts in (record l { hosts = kept }, removed)

-- Hosts stand once.
abbrev pub HostsOnce : List (Bytes × HostLimiter) → Type 0
HostsOnce [] = Unit
HostsOnce ((host, h) ∷ rest) = (lookup bytes_discrete host rest ≡ none) × HostsOnce rest
