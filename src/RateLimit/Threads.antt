-- ===== src/RateLimit/Threads.antt =====
-- The requests of one host, each a goroutine in `Acquire`, and their interleavings: an event runs
-- one critical section of one request. Any list of events is a schedule.
use synapse_gopro_worker.Prelude.{
  ℕ, ◌+◌, true, false, List, [], ◌∷◌, Option, none, some, if◌then◌else◌, ◌==◌,
}
use synapse_gopro_worker.RateLimit.Settings.{FederationSettings}
use synapse_gopro_worker.RateLimit.Host.{
  HostLimiter, Verdict, rejected, should_sleep, may_run, new_host, arrive, wake, take_slot, release,
  abandon,
}

-- `granted`: in the select, and the channel is closed.
pub data Phase : Type 0 where
  asleep ready waiting granted running done : Phase

pub Phase-discrete : Discrete Phase
Phase-discrete = hlevel

pub record Thread : Type 0 where
  pub id : ℕ
  pub phase : Phase

pub record World : Type 0 where
  pub host : HostLimiter
  pub threads : List Thread
  pub next_id : ℕ

pub data Event : Type 0 where
  -- A request comes in at a time.
  arrives : ℕ → Event
  -- `Sleep` returns, without an error or with the context's.
  wakes : ℕ → Event
  sleep_fails : ℕ → Event
  -- The section that takes a slot or queues.
  takes : ℕ → Event
  -- The select takes the closed channel, or the cancelled context.
  proceeds : ℕ → Event
  cancels : ℕ → Event
  -- The release function is called.
  releases : ℕ → Event

unfoldable pub phase_of : ℕ → List Thread → Option Phase
phase_of i [] = none
phase_of i (t ∷ ts) = if t.id == i then some t.phase else phase_of i ts

unfoldable pub set_phase : ℕ → Phase → List Thread → List Thread
set_phase i p [] = []
set_phase i p (t ∷ ts) = if t.id == i then record t { phase = p } ∷ ts else t ∷ set_phase i p ts

-- The goroutine whose channel was closed, if one was.
unfoldable pub grant : Option ℕ → List Thread → List Thread
grant none ts = ts
grant (some i) ts = set_phase i granted ts

unfoldable pub after_arrival : Verdict → Phase
after_arrival rejected = done
after_arrival should_sleep = asleep
after_arrival may_run = ready

-- A request that has finished, having given a slot back or not.
unfoldable pub finish : ℕ → HostLimiter × Option ℕ → World → World
unfolding grant
finish i (h, closed) w = record w { host = h; threads = grant closed (set_phase i done w.threads) }

-- The request that an event is about; an arrival is a new one.
abbrev pub subject : Event → ℕ
subject (arrives now) = 0
subject (wakes i) = i
subject (sleep_fails i) = i
subject (takes i) = i
subject (proceeds i) = i
subject (cancels i) = i
subject (releases i) = i

module _ (s : FederationSettings) where
  -- What the event does to the request in the given phase; an event that does not fit is no step.
  unfoldable pub act : Event → Option Phase → World → World
  unfolding finish after_arrival
  act (arrives now) _ w =
      let (h, verdict) = arrive s now w.host in
      record {
        host = h;
        threads = record { id = w.next_id; phase = after_arrival verdict } ∷ w.threads;
        next_id = w.next_id + 1;
      }
  act (wakes i) (some asleep) w = record w {
    host = wake w.host;
    threads = set_phase i ready w.threads;
  }
  act (sleep_fails i) (some asleep) w = record w {
    host = wake w.host;
    threads = set_phase i done w.threads;
  }
  act (takes i) (some ready) w =
      let (h, runs) = take_slot s i w.host in
      record w { host = h; threads = set_phase i (if runs then running else waiting) w.threads }
  act (proceeds i) (some granted) w = record w { threads = set_phase i running w.threads }
  act (cancels i) (some waiting) w = finish i (abandon i false w.host) w
  act (cancels i) (some granted) w = finish i (abandon i true w.host) w
  act (releases i) (some running) w = finish i (release w.host) w
  act _ _ w = w

  unfoldable pub step : Event → World → World
  unfolding act
  step e w = act e (phase_of (subject e) w.threads) w

  unfoldable pub run : List Event → World → World
  run [] w = w
  run (e ∷ es) w = run es (step e w)

unfoldable pub idle_world : ℕ → World
unfolding new_host
idle_world now = record { host = new_host now; threads = []; next_id = 0 }
