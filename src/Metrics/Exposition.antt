-- ===== src/Metrics/Exposition.antt =====
-- ServeHTTP, sortedKeys and indexNul of internal/metrics/metrics.go: the lines of the exposition.
-- strconv.Quote and strconv.FormatFloat, of a number of nanoseconds in seconds, are parameters.
use fcfeeds.Prelude.{
  ℕ, suc, ◌+◌, Option, none, some, List, [], ◌∷◌, ◌++◌, ◌==◌, if◌then◌else◌, take, drop, map,
}
use fcfeeds.Prelude.Sort.{sort}
use fcfeeds.Text.{Text, codes, text_eq}
use fcfeeds.Text.Order.{text_le}
use fcfeeds.Time.{Duration}
use fcfeeds.Metrics.Registry.{Gauges, Counters, Registry, buckets, itoa, set_gauges}

-- m[key]
unfoldable pub count_of : Text → Counters → ℕ
count_of key [] = 0
count_of key ((k, n) ∷ m) = let rest = count_of key m in if text_eq k key then n else rest

unfoldable pub sorted_keys : Counters → List Text
sorted_keys m = sort text_le (map (λ (e : Text × ℕ). e.0) m)

unfoldable pub index_nul : Text → ℕ
index_nul [] = 0
index_nul (c ∷ s) = let rest = index_nul s in if c == 0 then 0 else suc rest

-- k[:indexNul(k)], k[indexNul(k)+1:]
unfoldable pub split_key : Text → Text × Text
unfolding index_nul
split_key k = (take (index_nul k) k, drop (index_nul k + 1) k)

-- the gauges are refreshed first, where there is a source of them
abbrev pub refreshed : Option Gauges → Registry → Registry
refreshed none r = r
refreshed (some g) r = set_gauges g r

module _ (quote : Text → Text) (format_seconds : ℕ → Text) where
  abbrev pub fetch_line : Counters → Text → Text
  fetch_line m k = codes "feeds_fetch_total{result=" ++ quote k ++ codes "} " ++ itoa (count_of k m)

  abbrev pub bucket_line : Text → ℕ → Text
  bucket_line le n =
      codes "feeds_fetch_duration_seconds_bucket{le=" ++ quote le ++ codes "} " ++ itoa n

  abbrev pub bucket_lines : List Duration → List ℕ → List Text
  bucket_lines [] cs = []
  bucket_lines (b ∷ bs) [] = []
  bucket_lines (b ∷ bs) (c ∷ cs) = bucket_line (format_seconds b) c ∷ bucket_lines bs cs

  unfoldable pub http_line : Counters → Text → Text
  unfolding split_key count_of itoa
  http_line m k =
      let (route, code) = split_key k in
      codes "feeds_http_requests_total{route="
      ++ quote route
      ++ codes ",code="
      ++ quote code
      ++ codes "} "
      ++ itoa (count_of k m)

  abbrev pub number_line : Text → ℕ → Text
  number_line name n = name ++ itoa n

  -- what is written for a registry
  unfoldable pub exposition : Registry → List Text
  unfolding sorted_keys http_line
  exposition r =
      codes "# HELP feeds_fetch_total Feed fetch attempts by outcome."
      ∷ codes "# TYPE feeds_fetch_total counter"
      ∷ (map (fetch_line r.fetch) (sorted_keys r.fetch)
          ++ (codes "# HELP feeds_fetch_duration_seconds Feed fetch latency."
              ∷ codes "# TYPE feeds_fetch_duration_seconds histogram"
              ∷ (bucket_lines buckets r.hist_counts
                  ++ (number_line (codes "feeds_fetch_duration_seconds_bucket{le=\"+Inf\"} ")
                        r.hist_count
                      ∷ (codes "feeds_fetch_duration_seconds_sum " ++ format_seconds r.hist_sum)
                      ∷ number_line (codes "feeds_fetch_duration_seconds_count ") r.hist_count
                      ∷ codes
                          "# HELP feeds_http_requests_total Served requests by route and status."
                      ∷ codes "# TYPE feeds_http_requests_total counter"
                      ∷ (map (http_line r.http) (sorted_keys r.http)
                          ++ (codes
                                "# HELP feeds_stale_serves_total Responses that served cached items after a failed fetch."
                              ∷ codes "# TYPE feeds_stale_serves_total counter"
                              ∷ number_line (codes "feeds_stale_serves_total ") r.stale
                              ∷ codes "# TYPE feeds_feeds_total gauge"
                              ∷ number_line (codes "feeds_feeds_total ") r.gauges.feeds
                              ∷ codes "# TYPE feeds_due_backlog gauge"
                              ∷ number_line (codes "feeds_due_backlog ") r.gauges.due
                              ∷ codes "# TYPE feeds_items_total gauge"
                              ∷ number_line (codes "feeds_items_total ") r.gauges.items
                              ∷ []))))))

  -- ServeHTTP: the registry afterwards, and the lines
  unfoldable pub serve_http : Option Gauges → Registry → Registry × List Text
  unfolding exposition
  serve_http source r = (refreshed source r, exposition (refreshed source r))
