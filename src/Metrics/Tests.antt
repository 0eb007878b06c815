-- ===== src/Metrics/Tests.antt =====
-- The registry after two fetches and a request.
use fcfeeds.Prelude.{ℕ, ◌*◌, ◌/◌, ◌≤◌, ◌≡◌, refl, List, [], ◌∷◌, leb, arith, In, All}
use fcfeeds.Prelude.Sort.{Sorted}
use fcfeeds.Text.{Text, codes, text_eq}
use fcfeeds.Time.{second}
use fcfeeds.Metrics.Registry.{
  Update, fetched, observed, served, new_registry, http_key, itoa, update_all,
}
use fcfeeds.Metrics.Exposition.{count_of, sorted_keys, split_key}
use fcfeeds.Metrics.Counts.{Counts, update_all-Counts}
use fcfeeds.Metrics.Histogram.{histogram_cumulative}
use fcfeeds.Metrics.Keys.{http_keys_split}

abbrev five_updates : List Update
five_updates =
    fetched (codes "ok")
    ∷ observed (second / 2)
    ∷ fetched (codes "ok")
    ∷ observed (40 * second)
    ∷ served (codes "items") 200
    ∷ []

ok_twice : count_of (codes "ok") (update_all five_updates new_registry).fetch ≡ 2
unfolding count_of update_all text_eq
ok_twice = refl

update_all-Counts_example : Counts five_updates (update_all five_updates new_registry)
update_all-Counts_example = update_all-Counts five_updates

histogram_cumulative_example :
    Sorted leb (update_all five_updates new_registry).hist_counts
    × All
        (λ n. n ≤ (update_all five_updates new_registry).hist_count)
        (update_all five_updates new_registry).hist_counts
histogram_cumulative_example = histogram_cumulative five_updates (omega arith)

http_keys_split_example :
    ((k : Text)
      → In k (sorted_keys (update_all five_updates new_registry).http)
      → (route : Text) × (code : ℕ) × In (served route code) five_updates
        × (split_key k ≡ (route, itoa code)))
    × ((route : Text) (code : ℕ)
        → In (served route code) five_updates
        → In (http_key route code) (sorted_keys (update_all five_updates new_registry).http))
http_keys_split_example = http_keys_split five_updates (omega arith)
