-- ===== src/RateLimit/Tests.antt =====
-- Schedules of a rate-limited host, and the theorems there.
use synapse_gopro_worker.Prelude.{
  ◌<◌, ◌≡◌, refl, List, [], ◌∷◌, some, arith, bytes, lookup, bytes_discrete,
}
use synapse_gopro_worker.RateLimit.Settings.{FederationSettings, with_defaults, with_defaults_pos}
use synapse_gopro_worker.RateLimit.Accounts.{Accounts, run-idle_world-Accounts}
use synapse_gopro_worker.RateLimit.Limiter.{Limiter, cleanup, is_idle}
use synapse_gopro_worker.RateLimit.Fairness.{line, HandsOver, releases-oldest}
use synapse_gopro_worker.RateLimit.Host.{should_sleep, new_host, arrive, release, take_slot}
use synapse_gopro_worker.RateLimit.Threads.{
  granted, Event, arrives, takes, releases, phase_of, set_phase, act, step, run, idle_world,
}
use synapse_gopro_worker.RateLimit.Counting.{count}
use synapse_gopro_worker.RateLimit.Window.{admissions, arrive-verdict}

program : Unit {0}
unfolding lookup bytes_discrete cleanup is_idle take_slot set_phase arrive release act step run
    idle_world phase_of new_host admissions count
program = tt

abbrev tight : FederationSettings
tight = record {
  window_size = 1000;
  sleep_limit = 2;
  sleep_delay = 500;
  reject_limit = 1;
  concurrent = 1;
}

-- Two requests run into the limit of one at a time; the first one finishes.
abbrev schedule : List Event
schedule = arrives 10 ∷ arrives 20 ∷ takes 0 ∷ takes 1 ∷ releases 0 ∷ []

second_is_granted : phase_of 1 (run tight schedule (idle_world 5)).threads ≡ some granted
unfolding program
second_is_granted = refl

run-idle_world-Accounts_example : Accounts 1 (run tight schedule (idle_world 5))
run-idle_world-Accounts_example = run-idle_world-Accounts tight 5 schedule

abbrev roomy : FederationSettings
roomy = record tight { sleep_limit = 9; reject_limit = 9 }

-- The third request begins to wait before the second one.
abbrev out_of_turn : List Event
out_of_turn = arrives 10 ∷ arrives 20 ∷ arrives 30 ∷ takes 0 ∷ takes 2 ∷ takes 1 ∷ []

in_line : line roomy out_of_turn (idle_world 5) [] ≡ 2 ∷ 1 ∷ []
unfolding program
in_line = refl

releases-oldest_example :
    HandsOver roomy 0
      (run roomy out_of_turn (idle_world 5))
      (step roomy (releases 0) (run roomy out_of_turn (idle_world 5)))
      (line roomy out_of_turn (idle_world 5) [])
unfolding program
releases-oldest_example = releases-oldest roomy 5 out_of_turn 0 refl

abbrev finished : List Event
finished = arrives 10 ∷ takes 0 ∷ releases 0 ∷ []

abbrev crowded : Limiter
crowded = record {
  settings = tight;
  hosts =
      (bytes "a", (run tight finished (idle_world 5)).host)
      ∷ (bytes "b", (run tight schedule (idle_world 5)).host)
      ∷ [];
}

-- One host has finished, and the other one has a request that was granted a slot.
one_goes : (cleanup 900 100 crowded).1 ≡ 1
unfolding program
one_goes = refl

arrive-verdict_example : (arrive tight 30 (run tight schedule (idle_world 5)).host).1 ≡ should_sleep
unfolding program
arrive-verdict_example = arrive-verdict tight 5 schedule 30 (omega arith)

abbrev unset : FederationSettings
unset = record {
  window_size = 0;
  sleep_limit = 0;
  sleep_delay = 0;
  reject_limit = 0;
  concurrent = 0;
}

with_defaults_pos_example :
    (0 < (with_defaults unset).window_size)
    × (0 < (with_defaults unset).sleep_limit)
    × (0 < (with_defaults unset).sleep_delay)
    × (0 < (with_defaults unset).reject_limit)
    × (0 < (with_defaults unset).concurrent)
with_defaults_pos_example = with_defaults_pos unset
