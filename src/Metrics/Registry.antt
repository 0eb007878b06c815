-- ===== src/Metrics/Registry.antt =====
-- The registry of internal/metrics/metrics.go and its updates. Each holds the mutex from its start to
-- its end, so that any use of the registry is a sequence of them. A duration and the bounds of the
-- buckets are compared in nanoseconds; the sum of the durations is exact here, where the program
-- adds floating-point seconds.
use fcfeeds.Prelude.{ℕ, suc, ◌+◌, ◌*◌, ◌/◌, ◌%◌, ◌^◌, List, [], ◌∷◌, ◌++◌, leb, if◌then◌else◌, map}
use fcfeeds.Text.{Text, text_eq}
use fcfeeds.Time.{Duration, second}
use fcfeeds.Poll.Fetch.{digits}

pub record Gauges : Type 0 where
  pub feeds : ℕ
  pub due : ℕ
  pub items : ℕ

-- 0.1, 0.25, 0.5, 1, 2.5, 5, 10, 15 and 30 seconds
abbrev pub buckets : List Duration
buckets =
    second / 10
    ∷ second / 4
    ∷ second / 2
    ∷ second
    ∷ 5 * second / 2
    ∷ 5 * second
    ∷ 10 * second
    ∷ 15 * second
    ∷ 30 * second
    ∷ []

-- a map of counters by key
abbrev pub Counters : Type 0
Counters = List (Text × ℕ)

pub record Registry : Type 0 where
  pub fetch : Counters
  pub http : Counters
  pub stale : ℕ
  pub hist_counts : List ℕ
  pub hist_sum : ℕ
  pub hist_count : ℕ
  pub gauges : Gauges

abbrev pub no_gauges : Gauges
no_gauges = record { feeds = 0; due = 0; items = 0 }

abbrev pub new_registry : Registry
new_registry = record {
  fetch = [];
  http = [];
  stale = 0;
  hist_counts = map (λ (b : Duration). 0) buckets;
  hist_sum = 0;
  hist_count = 0;
  gauges = no_gauges;
}

-- n++ on a uint64
abbrev pub increment : ℕ → ℕ
increment n = (n + 1) % 2 ^ 64

-- m[key]++
unfoldable pub bump : Text → Counters → Counters
bump key [] = (key, 1) ∷ []
bump key ((k, n) ∷ m) =
    let rest = bump key m in if text_eq k key then (k, increment n) ∷ m else (k, n) ∷ rest

abbrev pub inc_fetch : Text → Registry → Registry
inc_fetch result r = record r { fetch = bump result r.fetch }

-- for i, b := range buckets { if s <= b { r.histCounts[i]++ } }
unfoldable pub observe_buckets : Duration → List Duration → List ℕ → List ℕ
observe_buckets d [] counts = counts
observe_buckets d (b ∷ bs) [] = []
observe_buckets d (b ∷ bs) (c ∷ cs) = (if leb d b then increment c else c) ∷ observe_buckets d bs cs

unfoldable pub observe_fetch_duration : Duration → Registry → Registry
unfolding observe_buckets
observe_fetch_duration d r = record r {
  hist_counts = observe_buckets d buckets r.hist_counts;
  hist_sum = r.hist_sum + d;
  hist_count = increment r.hist_count;
}

-- strconv.Itoa(code)
unfoldable pub itoa : ℕ → Text
itoa n = digits (suc n) n

-- route + "\x00" + strconv.Itoa(code)
unfoldable pub http_key : Text → ℕ → Text
unfolding itoa
http_key route code = route ++ 0 ∷ itoa code

abbrev pub inc_http : Text → ℕ → Registry → Registry
inc_http route code r = record r { http = bump (http_key route code) r.http }

abbrev pub inc_stale_serve : Registry → Registry
inc_stale_serve r = record r { stale = increment r.stale }

abbrev pub set_gauges : Gauges → Registry → Registry
set_gauges g r = record r { gauges = g }

-- An update of the registry.
pub data Update : Type 0 where
  fetched : Text → Update
  observed : Duration → Update
  served : Text → ℕ → Update
  served_stale : Update
  gauged : Gauges → Update

unfoldable pub update : Registry → Update → Registry
unfolding bump observe_fetch_duration http_key
update r (fetched result) = inc_fetch result r
update r (observed d) = observe_fetch_duration d r
update r (served route code) = inc_http route code r
update r served_stale = inc_stale_serve r
update r (gauged g) = set_gauges g r

-- The registry after a sequence of updates.
unfoldable pub update_all : List Update → Registry → Registry
unfolding update
update_all [] r = r
update_all (e ∷ es) r = update_all es (update r e)
