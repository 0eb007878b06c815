-- ===== src/Config/Wiring.antt =====
-- cmd/feeds/main.go: the poller's configuration as `run` derives it from the service's.
use fcfeeds.Prelude.{ℕ, ◌*◌, ◌^◌, ◌≤◌, max, min, ◌≡◌, ◌⊎◌, false, Option, none, arith}
use fcfeeds.Prelude.Int.{ℤ, pos, negsuc, lt_int, clamp_int}
use fcfeeds.Text.{Text}
use fcfeeds.Time.{minute, hour}
use fcfeeds.Config.Load.{ServiceConfig, load}
use fcfeeds.Config.Loads.{Loads, load_iff}
use fcfeeds.Poll.Schedule.{Config, default_config, next_interval, doublings}
use fcfeeds.Poll.Bounds.{base_of, le_pow, next_interval_lem}

-- pc := poll.DefaultConfig(); pc.MinInterval = cfg.MinPoll; ... A negative eviction age, which
-- `Load` lets pass, has no counterpart in the poller's configuration here.
unfoldable pub poll_config : ServiceConfig → Config
poll_config cfg = record default_config {
  min_interval = clamp_int cfg.min_poll;
  workers = clamp_int cfg.workers;
  evict_after = clamp_int cfg.evict_after;
}

long_enough : (n : ℤ) → lt_int n (pos minute) ≡ false → minute ≤ clamp_int n
long_enough (pos n) h = ground arith
long_enough (negsuc n) h = ground arith

-- A number that is at least the floor, raised and capped.
capped :
    (m b n high : ℕ)
    → (min m high ≤ min (max m b * 2 ^ n) high) × (min (max m b * 2 ^ n) high ≤ high)
capped m b n high = ground (arith, le_pow (max m b) n)

module _ (getenv : Text → Text) (parse_duration atoi : Text → Text ⊎ ℤ)
    (parse_int : Text → Option ℤ) where
  -- With the configuration that `run` loads, the interval after a successful fetch is at least a
  -- minute, at least the shortest poll of the environment or two hours, whichever is less, and at
  -- most two hours, whatever the publisher sends: a shortest poll beyond two hours is not kept.
  pub configured_interval :
      (c : ServiceConfig) (ttl : ℤ) (quiet : ℕ)
      → load getenv parse_duration atoi parse_int ≡ (c, none)
      → (n : ℕ) × (next_interval ttl quiet (poll_config c) ≡ pos n)
        × (minute ≤ n)
        × (min (clamp_int c.min_poll) (2 * hour) ≤ n)
        × (n ≤ 2 * hour)
  configured_interval c ttl quiet h =
      let l : Loads getenv parse_duration atoi parse_int c =
        (load_iff getenv parse_duration atoi parse_int c).0 h in
      let m = long_enough c.min_poll l.polite in
      let b = base_of default_config.default_interval ttl in
      let d = doublings 6 quiet in
      let (low, high) = capped (clamp_int c.min_poll) b d (2 * hour) in
      (
        min (max (clamp_int c.min_poll) b * 2 ^ d) (2 * hour),
        unfold poll_config in next_interval_lem (poll_config c) (ground arith) ttl quiet,
        omega arith,
        low,
        high,
      )
