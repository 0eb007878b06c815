-- ===== src/Poll/Tests.antt =====
-- The poller's theorems at a concrete configuration and feed.
use fcfeeds.Prelude.{
  ℕ, ◌+◌, ◌*◌, ◌≤◌, ◌≡◌, ◌⊎◌, inl, refl, false, none, some, [], ◌∷◌, arith, find_row,
}
use fcfeeds.Prelude.Int.{ℤ, pos}
use fcfeeds.Text.{Text, codes}
use fcfeeds.Time.{Time, second, minute, hour}
use fcfeeds.Store.Rows.{FeedRow, StateRow, Db, Due, scan_feed, scan_state}
use fcfeeds.Store.Runs.{Runs}
use fcfeeds.Fetch.Types.{Validators, Got, got}
use fcfeeds.Parse.Types.{ParsedFeed}
use fcfeeds.Poll.Schedule.{default_config, day, next_interval, backoff}
use fcfeeds.Poll.Bounds.{
  IsGone, Near, wait_of, next_interval_lem, next_interval_bounds, backoff_waits,
}
use fcfeeds.Poll.Fetch.{fetch_claimed}
use fcfeeds.Poll.Run.{Clock}
use fcfeeds.Poll.Run.{Clock}
use fcfeeds.Poll.Reschedules.{ByAnswer, Rescheduled, fetch_reschedules}

next_interval_lem_example : next_interval (pos 0) 12 default_config ≡ pos (60 * minute)
next_interval_lem_example = next_interval_lem default_config (ground arith) (pos 0) 12

next_interval_bounds_example :
    (n m : ℕ) × (next_interval (pos 1) 0 default_config ≡ pos n)
    × (next_interval (pos 1) (0 + 7) default_config ≡ pos m)
    × (5 * minute ≤ n)
    × (n ≤ m)
    × (m ≤ 2 * hour)
next_interval_bounds_example =
    next_interval_bounds default_config (ground arith) (pos 1) 0 7 (ground arith)

-- no jitter at all
abbrev steady : ℤ → ℤ
steady d = d

steady-Near : (n : ℕ) → Near n (steady (pos n))
steady-Near n = (n, refl, omega arith, omega arith)

backoff_waits_example :
    (IsGone default_config 2 503
      × (backoff steady (pos (15 * minute)) 2 (pos (2 * hour)) 503 default_config ≡ pos day))
    ⊎ ((¬ IsGone default_config 2 503)
        × Near
            (wait_of default_config (pos (15 * minute)) 2 (pos (2 * hour)))
            (backoff steady (pos (15 * minute)) 2 (pos (2 * hour)) 503 default_config))
backoff_waits_example =
    backoff_waits steady default_config (ground arith) (pos (15 * minute)) 2 (pos (2 * hour)) 503
      steady-Near

abbrev now : Time
now = 1000 * second

abbrev feed_a : FeedRow
feed_a = record {
  id = 1;
  url = codes "http://a";
  kind = [];
  title = [];
  site_url = [];
  poll_interval_s = 900;
  created_at = 900;
  last_requested_at = 900;
}

abbrev state_a : StateRow
state_a = record {
  feed_id = 1;
  etag = [];
  last_modified = [];
  next_poll_at = 900;
  locked_until = some 1060;
  last_fetch_at = none;
  last_ok_at = none;
  last_status = 0;
  fail_count = 0;
  last_error = [];
  quiet_polls = 0;
}

abbrev one_feed : Db
one_feed = record { feeds = feed_a ∷ []; states = state_a ∷ []; items = [] }

abbrev due_a : Due
unfolding scan_feed scan_state
due_a = record { feed = scan_feed feed_a; state = scan_state state_a }

abbrev no_hash : Text → Text
no_hash t = t

-- the publisher answers 503 and asks for two minutes
abbrev busy : Text → Validators → Got
busy url v = got (record {
  status = 503;
  body = [];
  etag = [];
  last_modified = [];
  content_type = [];
  retry_after = pos (2 * minute);
  not_modified = false;
  final_url = url;
})

abbrev no_parser : Text → Text → Time → Text ⊎ ParsedFeed
no_parser body url at = inl []

fetch_reschedules_example :
    Runs (fetch_claimed no_hash busy no_parser steady default_config due_a now) one_feed (
      Rescheduled steady default_config due_a now state_a (
        ByAnswer steady default_config due_a now state_a no_parser (
          busy due_a.feed.url
            (record { etag = due_a.state.etag; last_modified = due_a.state.last_modified }))))
unfolding find_row scan_feed scan_state
fetch_reschedules_example =
    fetch_reschedules no_hash busy no_parser steady default_config (ground arith) (ground arith)
      due_a now state_a one_feed refl refl

abbrev clock : Due → Clock
clock d = record { start = now; now = now; finish = now }

-- the feed before it is claimed
abbrev free_feed : Db
free_feed = record {
  feeds = feed_a ∷ [];
  states = record state_a { locked_until = none } ∷ [];
  items = [];
}
