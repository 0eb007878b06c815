-- ===== src/Poll/Schedule.antt =====
-- internal/poll/config.go: the knobs, and the waits after success and failure. The durations of
-- the configuration are not negative; those that a publisher sends are any int64.
use fcfeeds.Prelude.{ℕ, zero, suc, ◌*◌, ◌/◌, ◌&&◌, ◌||◌, leb, ◌==◌, if◌then◌else◌}
use fcfeeds.Prelude.Int.{ℤ, pos, lt_int, double}
use fcfeeds.Time.{Duration, second, minute, hour}

pub record Config : Type 0 where
  pub min_interval : Duration
  pub default_interval : Duration
  pub max_interval : Duration
  pub quiet_polls_per_double : ℕ
  pub max_backoff : Duration
  pub gone_after_failures : ℕ
  pub workers : ℕ
  pub tick : Duration
  pub claim_batch : ℕ
  pub lock_for : Duration
  pub host_gap : Duration
  pub keep_items : ℕ
  pub keep_for : Duration
  pub evict_after : Duration
  pub evict_every : Duration

abbrev pub day : Duration
day = 24 * hour

abbrev pub default_config : Config
default_config = record {
  min_interval = 5 * minute;
  default_interval = 15 * minute;
  max_interval = 2 * hour;
  quiet_polls_per_double = 6;
  max_backoff = 6 * hour;
  gone_after_failures = 5;
  workers = 4;
  tick = 5 * second;
  claim_batch = 32;
  lock_for = 60 * second;
  host_gap = 2 * second;
  keep_items = 300;
  keep_for = 14 * day;
  evict_after = 14 * day;
  evict_every = day;
}

-- if base <= 0 { base = other }
abbrev pub positive_or : Duration → ℤ → ℤ
positive_or other base = if lt_int (pos 0) base then base else pos other

abbrev pub at_least : Duration → ℤ → ℤ
at_least low base = if lt_int base (pos low) then pos low else base

abbrev pub at_most : Duration → ℤ → ℤ
at_most high base = if lt_int (pos high) base then pos high else base

-- Both loops: n doublings, as long as the value is below the cap.
unfoldable pub grow : ℕ → Duration → ℤ → ℤ
unfolding double
grow zero cap base = base
grow (suc n) cap base =
    let rest = grow n cap (double base) in if lt_int base (pos cap) then rest else base

-- quietPolls / QuietPollsPerDouble, under its guard
abbrev pub doublings : ℕ → ℕ → ℕ
doublings zero quiet_polls = 0
doublings (suc q) quiet_polls = quiet_polls / suc q

unfoldable pub next_interval : ℤ → ℕ → Config → ℤ
unfolding grow
next_interval publisher_ttl quiet_polls c = at_most c.max_interval (
    grow (doublings c.quiet_polls_per_double quiet_polls) c.max_interval
      (at_least c.min_interval (positive_or c.default_interval publisher_ttl)))

abbrev pub larger : ℤ → ℤ → ℤ
larger retry_after d = if lt_int d retry_after then retry_after else d

-- `jitter` is time.Duration(float64(d) * (0.9 + 0.2*rnd())).
unfoldable pub backoff : (ℤ → ℤ) → ℤ → ℕ → ℤ → ℕ → Config → ℤ
unfolding grow
backoff jitter base fail_count retry_after status c =
    if (status == 404 || status == 410) && leb c.gone_after_failures fail_count
    then pos day
    else jitter (
        larger retry_after (
          at_most c.max_backoff
            (grow fail_count c.max_backoff (positive_or c.default_interval base))))
