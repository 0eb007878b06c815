-- ===== src/Metrics/Counts.antt =====
-- The registry against the sequence of its updates.
use fcfeeds.Prelude.{
  ℕ, ◌+◌, ◌%◌, ◌^◌, ◌<◌, ◌≡◌, refl, ◌∙◌, ap, Bool, true, false, List, [], ◌∷◌, arith, leb,
  if◌then◌else◌, map,
}
use fcfeeds.Text.{Text, text_eq, text_eq_iff}
use fcfeeds.Time.{Duration}
use fcfeeds.Metrics.Registry.{
  Gauges, Counters, Registry, Update, fetched, observed, served, served_stale, gauged, buckets,
  no_gauges, new_registry, increment, bump, observe_buckets, observe_fetch_duration, http_key,
  update, update_all,
}
use fcfeeds.Metrics.Exposition.{count_of}

-- How many of the updates pass a test.
unfoldable pub tally : (Update → Bool) → List Update → ℕ
tally p [] = 0
tally p (e ∷ es) = (if p e then 1 else 0) + tally p es

abbrev pub is_fetch : Text → Update → Bool
is_fetch k (fetched result) = text_eq result k
is_fetch k e = false

abbrev pub is_served : Text → Update → Bool
is_served k (served route code) = text_eq (http_key route code) k
is_served k e = false

abbrev pub is_stale_serve : Update → Bool
is_stale_serve served_stale = true
is_stale_serve e = false

abbrev pub is_observed : Update → Bool
is_observed (observed d) = true
is_observed e = false

-- an observed duration within the bound
abbrev pub is_within : Duration → Update → Bool
is_within b (observed d) = leb d b
is_within b e = false

abbrev pub duration_of : Update → ℕ
duration_of (observed d) = d
duration_of e = 0

pub total : List Update → ℕ
total [] = 0
total (e ∷ es) = duration_of e + total es

abbrev pub last_gauges : List Update → Gauges → Gauges
last_gauges [] g = g
last_gauges (gauged h ∷ es) g = last_gauges es h
last_gauges (e ∷ es) g = last_gauges es g

count_of-bump :
    (j k : Text) (m : Counters)
    → count_of j (bump k m) ≡ (if text_eq k j then increment (count_of j m) else count_of j m)
unfolding count_of bump
count_of-bump j k [] = ground arith
count_of-bump j k ((i, n) ∷ m) =
    ground (arith, count_of-bump j k m, text_eq_iff i k, text_eq_iff i j, text_eq_iff k j)

-- A counter that an update increments exactly where it passes a test.
counted :
    (f : Registry → ℕ) (p : Update → Bool)
    → ((r : Registry) (e : Update) → f (update r e) ≡ (if p e then increment (f r) else f r))
    → (es : List Update) (r : Registry) → f r < 2 ^ 64
    → f (update_all es r) ≡ (f r + tally p es) % 2 ^ 64
unfolding update_all tally
counted f p step [] r h = omega arith
counted f p step (e ∷ es) r h =
    let small : f (update r e) < 2 ^ 64 = ground (arith, step r e) in
    ground (arith, step r e, counted f p step es (update r e) small)

counted_new :
    (f : Registry → ℕ) (p : Update → Bool)
    → ((r : Registry) (e : Update) → f (update r e) ≡ (if p e then increment (f r) else f r))
    → f new_registry ≡ 0
    → (es : List Update) → f (update_all es new_registry) ≡ tally p es % 2 ^ 64
counted_new f p step zeroed es =
    omega (arith, counted f p step es new_registry (omega arith), zeroed)

module _ (r : Registry) where
  fetch_step :
      (k : Text) (e : Update)
      → count_of k (update r e).fetch
        ≡ (if is_fetch k e then increment (count_of k r.fetch) else count_of k r.fetch)
  unfolding update observe_fetch_duration
  fetch_step k (fetched result) = count_of-bump k result r.fetch
  fetch_step k (observed d) = refl
  fetch_step k (served route code) = refl
  fetch_step k served_stale = refl
  fetch_step k (gauged g) = refl

  http_step :
      (k : Text) (e : Update)
      → count_of k (update r e).http
        ≡ (if is_served k e then increment (count_of k r.http) else count_of k r.http)
  unfolding update observe_fetch_duration
  http_step k (fetched result) = refl
  http_step k (observed d) = refl
  http_step k (served route code) = count_of-bump k (http_key route code) r.http
  http_step k served_stale = refl
  http_step k (gauged g) = refl

  stale_step :
      (e : Update) → (update r e).stale ≡ (if is_stale_serve e then increment r.stale else r.stale)
  unfolding update observe_fetch_duration
  stale_step (fetched result) = refl
  stale_step (observed d) = refl
  stale_step (served route code) = refl
  stale_step served_stale = refl
  stale_step (gauged g) = refl

  observed_step :
      (e : Update)
      → (update r e).hist_count ≡ (if is_observed e then increment r.hist_count else r.hist_count)
  unfolding update observe_fetch_duration
  observed_step (fetched result) = refl
  observed_step (observed d) = refl
  observed_step (served route code) = refl
  observed_step served_stale = refl
  observed_step (gauged g) = refl

  sum_step : (e : Update) → (update r e).hist_sum ≡ r.hist_sum + duration_of e
  unfolding update observe_fetch_duration
  sum_step (fetched result) = omega arith
  sum_step (observed d) = omega arith
  sum_step (served route code) = omega arith
  sum_step served_stale = omega arith
  sum_step (gauged g) = omega arith

  gauges_step :
      (e : Update) (es : List Update)
      → last_gauges es (update r e).gauges ≡ last_gauges (e ∷ es) r.gauges
  unfolding update observe_fetch_duration
  gauges_step (fetched result) es = refl
  gauges_step (observed d) es = refl
  gauges_step (served route code) es = refl
  gauges_step served_stale es = refl
  gauges_step (gauged g) es = refl

-- Counts of buckets, of so many durations within each bound.
abbrev counts_of : (Duration → ℕ) → List Duration → List ℕ
counts_of f bs = map (λ b. f b % 2 ^ 64) bs

observe_buckets_lem :
    (d : Duration) (f : Duration → ℕ) (bs : List Duration)
    → observe_buckets d bs (counts_of f bs) ≡ counts_of (λ b. f b + (if leb d b then 1 else 0)) bs
unfolding observe_buckets
observe_buckets_lem d f [] = refl
observe_buckets_lem d f (b ∷ bs) =
    let head : (if leb d b then increment (f b % 2 ^ 64) else f b % 2 ^ 64)
        ≡ (f b + (if leb d b then 1 else 0)) % 2 ^ 64 =
      ground arith in
    cc (head, observe_buckets_lem d f bs)

counts_same :
    (f g : Duration → ℕ)
    → ((b : Duration) → f b ≡ g b)
    → (bs : List Duration) → counts_of f bs ≡ counts_of g bs
counts_same f g h [] = refl
counts_same f g h (b ∷ bs) = cc (h b, counts_same f g h bs)

hist_step :
    (r : Registry) (f : Duration → ℕ) (e : Update)
    → r.hist_counts ≡ counts_of f buckets
    → (update r e).hist_counts ≡ counts_of (λ b. f b + (if is_within b e then 1 else 0)) buckets
unfolding update observe_fetch_duration
hist_step r f (observed d) h = ap (observe_buckets d buckets) h ∙ observe_buckets_lem d f buckets
hist_step r f (fetched result) h = h ∙ counts_same f (λ b. f b + 0) (λ b. omega arith) buckets
hist_step r f (served route code) h = h ∙ counts_same f (λ b. f b + 0) (λ b. omega arith) buckets
hist_step r f served_stale h = h ∙ counts_same f (λ b. f b + 0) (λ b. omega arith) buckets
hist_step r f (gauged g) h = h ∙ counts_same f (λ b. f b + 0) (λ b. omega arith) buckets

hist_all :
    (es : List Update) (r : Registry) (f : Duration → ℕ)
    → r.hist_counts ≡ counts_of f buckets
    → (update_all es r).hist_counts ≡ counts_of (λ b. f b + tally (is_within b) es) buckets
unfolding update_all tally
hist_all [] r f h = h ∙ counts_same f (λ b. f b + 0) (λ b. omega arith) buckets
hist_all (e ∷ es) r f h =
    hist_all es (update r e) (λ b. f b + (if is_within b e then 1 else 0)) (hist_step r f e h)
    ∙ counts_same (λ b. f b + (if is_within b e then 1 else 0) + tally (is_within b) es)
        (λ b. f b + ((if is_within b e then 1 else 0) + tally (is_within b) es)) (λ b. omega arith)
        buckets

sum_all : (es : List Update) (r : Registry) → (update_all es r).hist_sum ≡ r.hist_sum + total es
unfolding update_all total
sum_all [] r = omega arith
sum_all (e ∷ es) r = omega (arith, sum_all es (update r e), sum_step r e)

gauges_all : (es : List Update) (r : Registry) → (update_all es r).gauges ≡ last_gauges es r.gauges
unfolding update_all
gauges_all [] r = refl
gauges_all (e ∷ es) r = gauges_all es (update r e) ∙ gauges_step r e es

-- What the registry stands for: how often each update came, modulo the width of a counter.
pub record Counts (es : List Update) (r : Registry) : Type 0 where
  pub fetches : (k : Text) → count_of k r.fetch ≡ tally (is_fetch k) es % 2 ^ 64
  pub requests : (k : Text) → count_of k r.http ≡ tally (is_served k) es % 2 ^ 64
  pub stale_serves : r.stale ≡ tally is_stale_serve es % 2 ^ 64
  pub within : r.hist_counts ≡ map (λ b. tally (is_within b) es % 2 ^ 64) buckets
  pub observations : r.hist_count ≡ tally is_observed es % 2 ^ 64
  pub seconds : r.hist_sum ≡ total es
  pub latest : r.gauges ≡ last_gauges es no_gauges

-- After any updates of a new registry each counter is the number of the updates that it counts,
-- modulo 2 ^ 64: the fetches with a result, the requests with a key, the stale answers, the durations
-- and, for each bucket, the durations within its bound; the sum is that of the durations, and the
-- gauges are the last ones set, or 0.
pub update_all-Counts : (es : List Update) → Counts es (update_all es new_registry)
update_all-Counts es = record {
  fetches = λ k.
      counted_new (λ r. count_of k r.fetch) (is_fetch k) (λ r e. fetch_step r k e)
        (unfold count_of in refl) es;
  requests = λ k.
      counted_new (λ r. count_of k r.http) (is_served k) (λ r e. http_step r k e)
        (unfold count_of in refl) es;
  stale_serves = counted_new (λ r. r.stale) is_stale_serve stale_step refl es;
  within =
      hist_all es new_registry (λ b. 0) refl
      ∙ counts_same (λ b. 0 + tally (is_within b) es) (λ b. tally (is_within b) es)
          (λ b. omega arith) buckets;
  observations = counted_new (λ r. r.hist_count) is_observed observed_step refl es;
  seconds = omega (arith, sum_all es new_registry);
  latest = gauges_all es new_registry;
}
