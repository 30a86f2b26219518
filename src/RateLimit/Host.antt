-- ===== src/RateLimit/Host.antt =====
-- hostLimiter of internal/ratelimit/limiter.go: its critical sections, each under the host's lock.
--
-- A time is a number of milliseconds. A channel is the number of the request that waits on it; a
-- section that closes a channel returns its number.
use synapse_gopro_worker.Prelude.{
  ℕ, ◌+◌, ◌-◌, Bool, true, false, List, [], ◌∷◌, ◌++◌, Option, none, some, if◌then◌else◌, ltb, ◌==◌,
  length, keep_if,
}
use synapse_gopro_worker.RateLimit.Settings.{FederationSettings}

pub record HostLimiter : Type 0 where
  pub request_times : List ℕ
  pub sleeping : ℕ
  pub queued : ℕ
  pub processing : ℕ
  pub waiters : List ℕ
  pub last_used : ℕ

unfoldable pub new_host : ℕ → HostLimiter
new_host now = record {
  request_times = [];
  sleeping = 0;
  queued = 0;
  processing = 0;
  waiters = [];
  last_used = now;
}

-- `t.After(now.Add(-window))`
abbrev pub in_window : ℕ → ℕ → ℕ → Bool
in_window now window t = ltb now (t + window)

unfoldable pub prune : ℕ → ℕ → HostLimiter → HostLimiter
prune now window h = record h { request_times = keep_if (in_window now window) h.request_times }

pub data Verdict : Type 0 where
  rejected should_sleep may_run : Verdict

-- The first section of `Acquire`, up to the sleep.
unfoldable pub arrive : FederationSettings → ℕ → HostLimiter → HostLimiter × Verdict
unfolding prune
arrive s now h =
    let h' = prune now s.window_size (record h { last_used = now }) in
    if ltb s.reject_limit (h'.sleeping + h'.queued)
    then (h', rejected)
    else let times = h'.request_times ++ now ∷ [] in
      if ltb s.sleep_limit (length times)
      then (record h' { request_times = times; sleeping = h'.sleeping + 1 }, should_sleep)
      else (record h' { request_times = times }, may_run)

-- The section after the sleep.
unfoldable pub wake : HostLimiter → HostLimiter
wake h = record h { sleeping = h.sleeping - 1 }

-- The last section of `Acquire`: whether the request runs at once; if not, it waits on `wait`.
unfoldable pub take_slot : FederationSettings → ℕ → HostLimiter → HostLimiter × Bool
take_slot s wait h =
    if ltb h.processing s.concurrent
    then (record h { processing = h.processing + 1 }, true)
    else (record h { waiters = h.waiters ++ wait ∷ []; queued = h.queued + 1 }, false)

unfoldable pub release : HostLimiter → HostLimiter × Option ℕ
release h = elim h.waiters [
  | [] ↦ (record h { processing = h.processing - 1 }, none)
  | next ∷ rest ↦ (record h { waiters = rest; queued = h.queued - 1 }, some next)
]

unfoldable pub has_waiter : ℕ → List ℕ → Bool
has_waiter w [] = false
has_waiter w (x ∷ xs) = if x == w then true else has_waiter w xs

unfoldable pub drop_waiter : ℕ → List ℕ → List ℕ
drop_waiter w [] = []
drop_waiter w (x ∷ xs) = if x == w then xs else x ∷ drop_waiter w xs

-- `closed` tells whether the channel of the cancelled request has been closed.
unfoldable pub abandon : ℕ → Bool → HostLimiter → HostLimiter × Option ℕ
unfolding has_waiter drop_waiter release
abandon wait closed h =
    if has_waiter wait h.waiters
    then (record h { waiters = drop_waiter wait h.waiters; queued = h.queued - 1 }, none)
    else if closed
    then release h
    else (h, none)
