-- ===== src/Poll/Ticks.antt =====
-- A tick of Run in internal/poll/poller.go: every feed that it claims is given back.
use fcfeeds.Prelude.{ℕ, ◌≤◌, ◌<◌, ◌^◌, ◌≡◌, ◌≢◌, ◌⊎◌, true, none, some, List, map, find_row, All}
use fcfeeds.Prelude.Int.{ℤ}
use fcfeeds.Text.{Text}
use fcfeeds.Time.{Time, unix}
use fcfeeds.Store.Rows.{StateRow, Db, Due}
use fcfeeds.Store.Feeds.{of_feed, has_feed}
use fcfeeds.Store.Runs.{Runs}
use fcfeeds.Store.Claimed.{due_ids}
use fcfeeds.Fetch.Types.{Validators, Got}
use fcfeeds.Parse.Types.{ParsedFeed}
use fcfeeds.Poll.Schedule.{Config}
use fcfeeds.Poll.Fetch.{Outcome}
use fcfeeds.Poll.Run.{Clock}
use fcfeeds.Poll.Spares.{Spares}

module _ (hash_string : Text → Text) (get : Text → Validators → Got)
    (parse : Text → Text → Time → Text ⊎ ParsedFeed) (jitter : ℤ → ℤ) (cfg : Config) where
  module _ (cap_small : cfg.max_interval < 2 ^ 62) (ordered : cfg.min_interval ≤ cfg.max_interval)
      (clock : Due → Clock) where
    -- A feed with its state in the tables.
    abbrev Present : Db → Due → Type 0
    Present db d =
        (s : StateRow) × (find_row (of_feed d.feed.id) db.states ≡ some s)
        × (has_feed db.feeds d.feed.id ≡ true)

    -- The feed's state after its fetch: unlocked, and fetched at the time of this fetch.
    abbrev pub GivenBack : Db → Due → Type 0
    GivenBack db d =
        (s : StateRow) × (find_row (of_feed d.feed.id) db.states ≡ some s)
        × (s.locked_until ≡ none)
        × (s.last_fetch_at ≡ some (unix (clock d).now))

    -- After the fetches of all these feeds; every other feed is as it was.
    abbrev pub Fetched : Db → List Due → List Outcome → Db → Type 0
    Fetched db ds outs db' =
        (map (λ (o : Outcome). o.feed_id) outs ≡ due_ids ds)
        × All (GivenBack db') ds
        × ((j : ℕ)
            → All (λ d. j ≢ d.feed.id) ds
            → find_row (of_feed j) db'.states ≡ find_row (of_feed j) db.states)
