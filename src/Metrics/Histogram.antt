-- ===== src/Metrics/Histogram.antt =====
-- The histogram of the registry is cumulative.
use fcfeeds.Prelude.{
  ℕ, ◌%◌, ◌^◌, ◌≤◌, ◌<◌, ◌≡◌, sym, subst, Bool, true, List, [], ◌∷◌, arith, leb, length, map, All,
}
use fcfeeds.Prelude.Sort.{Sorted}
use fcfeeds.Time.{Duration}
use fcfeeds.Metrics.Registry.{
  Update, fetched, observed, served, served_stale, gauged, buckets, new_registry, update_all,
}
use fcfeeds.Metrics.Counts.{tally, is_within, is_observed, update_all-Counts}

within-le :
    (b c : Duration) → b ≤ c → (es : List Update) → tally (is_within b) es ≤ tally (is_within c) es
unfolding tally
within-le b c h [] = omega arith
within-le b c h (observed d ∷ es) = ground (arith, within-le b c h es)
within-le b c h (fetched result ∷ es) = omega (arith, within-le b c h es)
within-le b c h (served route code ∷ es) = omega (arith, within-le b c h es)
within-le b c h (served_stale ∷ es) = omega (arith, within-le b c h es)
within-le b c h (gauged g ∷ es) = omega (arith, within-le b c h es)

within-le-observed :
    (b : Duration) (es : List Update) → tally (is_within b) es ≤ tally is_observed es
unfolding tally
within-le-observed b [] = omega arith
within-le-observed b (observed d ∷ es) = ground (arith, within-le-observed b es)
within-le-observed b (fetched result ∷ es) = omega (arith, within-le-observed b es)
within-le-observed b (served route code ∷ es) = omega (arith, within-le-observed b es)
within-le-observed b (served_stale ∷ es) = omega (arith, within-le-observed b es)
within-le-observed b (gauged g ∷ es) = omega (arith, within-le-observed b es)

tally-le : (p : Update → Bool) (es : List Update) → tally p es ≤ length es
unfolding tally
tally-le p [] = omega arith
tally-le p (e ∷ es) = ground (arith, tally-le p es)

module _ (es : List Update) (few : length es < 2 ^ 64) where
  abbrev within : Duration → ℕ
  within b = tally (is_within b) es % 2 ^ 64

  within_mono : (b c : Duration) → b ≤ c → within b ≤ within c
  within_mono b c h =
      omega (arith, within-le b c h es, tally-le (is_within b) es, tally-le (is_within c) es, few)

  module _ (b : Duration) where
    within_all :
        (bs : List Duration)
        → All (λ c. leb b c ≡ true) bs
        → All (λ n. leb (within b) n ≡ true) (map within bs)
    within_all [] _ = tt
    within_all (c ∷ bs) (h, hs) = (ground (arith, within_mono b c, h), within_all bs hs)

  within-Sorted : (bs : List Duration) → Sorted leb bs → Sorted leb (map within bs)
  within-Sorted [] _ = tt
  within-Sorted (b ∷ bs) (h, hs) = (within_all b bs h, within-Sorted bs hs)

  within-le_all :
      (bs : List Duration) → All (λ n. n ≤ tally is_observed es % 2 ^ 64) (map within bs)
  within-le_all [] = tt
  within-le_all (b ∷ bs) = (
    omega (arith, within-le-observed b es, tally-le (is_within b) es, tally-le is_observed es, few),
    within-le_all bs,
  )

  -- After fewer than 2 ^ 64 updates of a new registry the counts of the buckets do not decrease from
  -- one bound to the next, and none is above the count of all observations.
  pub histogram_cumulative :
      Sorted leb (update_all es new_registry).hist_counts
      × All
          (λ n. n ≤ (update_all es new_registry).hist_count)
          (update_all es new_registry).hist_counts
  histogram_cumulative =
      let c = update_all-Counts es in
      (
        subst (Sorted leb) (sym c.within) (within-Sorted buckets (ground arith)),
        rw (c.within, c.observations) (within-le_all buckets),
      )
