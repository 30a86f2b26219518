-- ===== src/RateLimit/Settings.antt =====
-- internal/ratelimit/config.go. A setting is a natural number: `Validate` refuses the negative.
use synapse_gopro_worker.Prelude.{ℕ, ◌/◌, ◌<◌, ◌≡◌, if◌then◌else◌, ◌==◌, arith}

pub record FederationSettings : Type 0 where
  pub window_size : ℕ
  pub sleep_limit : ℕ
  pub sleep_delay : ℕ
  pub reject_limit : ℕ
  pub concurrent : ℕ

abbrev pub default_federation_settings : FederationSettings
default_federation_settings = record {
  window_size = 1000;
  sleep_limit = 10;
  sleep_delay = 500;
  reject_limit = 50;
  concurrent = 3;
}

-- A field that is unset takes its default.
unfoldable pub default_to : ℕ → ℕ → ℕ
default_to n d = if n == 0 then d else n

unfoldable pub with_defaults : FederationSettings → FederationSettings
unfolding default_to
with_defaults s =
    let d = default_federation_settings in
    record {
      window_size = default_to s.window_size d.window_size;
      sleep_limit = default_to s.sleep_limit d.sleep_limit;
      sleep_delay = default_to s.sleep_delay d.sleep_delay;
      reject_limit = default_to s.reject_limit d.reject_limit;
      concurrent = default_to s.concurrent d.concurrent;
    }

unfoldable pub retry_after_ms : FederationSettings → ℕ
unfolding with_defaults
retry_after_ms s =
    let s' = with_defaults s in
    if s'.sleep_limit == 0 then s'.window_size else s'.window_size / s'.sleep_limit

-- A limit of zero is no way to switch a stage off: it takes the default, so no setting is zero.
pub with_defaults_pos :
    (s : FederationSettings)
    → let s' = with_defaults s in
      (0 < s'.window_size)
      × (0 < s'.sleep_limit)
      × (0 < s'.sleep_delay)
      × (0 < s'.reject_limit)
      × (0 < s'.concurrent)
unfolding with_defaults
with_defaults_pos s = ground arith

-- Applying the defaults again changes nothing.
pub with_defaults_idem :
    (s : FederationSettings) → with_defaults (with_defaults s) ≡ with_defaults s
unfolding with_defaults
with_defaults_idem s = ground arith
