-- ===== src/Poll/Fetch.antt =====
-- internal/poll/poller.go: the fetch of one feed. The clock, the client's Get, the parser, the hash
-- of a URL and the jitter are parameters; waiting for the host's turn changes no state of the store.
use fcfeeds.Prelude.{
  ℕ, zero, suc, ◌+◌, ◌-◌, ◌/◌, ◌%◌, ◌⊎◌, inl, inr, Bool, ◌||◌, Option, none, some, [], ◌∷◌, ◌++◌,
  ltb, if◌then◌else◌, map,
}
use fcfeeds.Prelude.Int.{ℤ, pos, negsuc, clamp_int}
use fcfeeds.Text.{Text}
use fcfeeds.Time.{Time, Duration}
use fcfeeds.Store.Rows.{Feed, Due, FetchOk, Item}
use fcfeeds.Store.Conn.{Error, Result, ok, err, Exec, pure, ◌>>=◌, attempt}
use fcfeeds.Store.Claims.{claim_feed, record_fetch_ok, record_fetch_error}
use fcfeeds.Store.Items.{upsert_items, prune_items}
use fcfeeds.Fetch.Types.{
  Validators, FetchResult, FetchError, blocked, too_large, failed, Got, got, refused,
}
use fcfeeds.Parse.Types.{Kind, kind_rss, kind_atom, kind_json, ParsedItem, ParsedFeed}
use fcfeeds.Poll.Schedule.{Config, next_interval, backoff}

pub data PollResult : Type 0 where
  result_ok : PollResult
  result_not_modified : PollResult
  result_error : PollResult
  result_parse_error : PollResult
  result_blocked : PollResult
  result_too_large : PollResult
  result_in_flight : PollResult

-- the Err of an outcome: a cause, an error of the store, or both joined
pub data Trouble : Type 0 where
  cause : Text → Trouble
  store_error : Error → Trouble
  joined : Text → Error → Trouble
  in_flight : Trouble

pub record Outcome : Type 0 where
  pub feed_id : ℕ
  pub result : PollResult
  pub status : ℕ
  pub new_items : ℕ
  pub duration : Duration
  pub trouble : Option Trouble

-- t.Add(d)
abbrev pub after : Time → ℤ → Time
after t (pos n) = t + n
after t (negsuc n) = t - suc n

-- fmt.Sprint(n)
abbrev pub digits : ℕ → ℕ → Text
digits zero n = []
digits (suc fuel) n =
    let front = digits fuel (n / 10) in
    if ltb n 10 then (48 + n) ∷ [] else front ++ (48 + n % 10) ∷ []

-- fmt.Errorf("http %d", status)
abbrev pub http_message : ℕ → Text
http_message status = 104 ∷ 116 ∷ 116 ∷ 112 ∷ 32 ∷ digits (suc status) status

-- string(feed.Kind)
abbrev pub kind_text : Kind → Text
kind_text kind_rss = 114 ∷ 115 ∷ 115 ∷ []
kind_text kind_atom = 97 ∷ 116 ∷ 111 ∷ 109 ∷ []
kind_text kind_json = 106 ∷ 115 ∷ 111 ∷ 110 ∷ []

-- The store assigns the id, the feed and the times of the fields that are not set.
unfoldable pub to_store_item : ParsedItem → Item
to_store_item it = record {
  id = 0;
  feed_id = 0;
  feed_url = [];
  key = it.key;
  url = it.url;
  canonical_url = it.canonical_url;
  url_hash = [];
  title = it.title;
  source_name = it.source;
  source_url = it.source_url;
  image_url = it.image;
  published_at = it.published;
  first_seen_at = 0;
  date_estimated = it.date_estimated;
}

abbrev pub classify : FetchError → PollResult
classify (blocked msg) = result_blocked
classify (too_large msg) = result_too_large
classify (failed msg) = result_error

abbrev pub message : FetchError → Text
message (blocked msg) = msg
message (too_large msg) = msg
message (failed msg) = msg

-- errors.Join(cause, err) if the store failed too
abbrev pub join : Text → Result (Unit {0}) → Trouble
join msg (ok u) = cause msg
join msg (err e) = joined msg e

abbrev pub trouble_of : Result (Unit {0}) → Option Trouble
trouble_of (ok u) = none
trouble_of (err e) = some (store_error e)

abbrev pub outcome : PollResult → ℕ → ℕ → Option Trouble → Outcome
outcome r status n t = record {
  feed_id = 0;
  result = r;
  status = status;
  new_items = n;
  duration = 0;
  trouble = t;
}

-- resp.StatusCode < 200 || > 299
abbrev pub is_failure : ℕ → Bool
is_failure status = ltb status 200 || ltb 299 status

-- quiet, after newItems
abbrev pub quiet_after : ℕ → ℕ → ℕ
quiet_after zero quiet = quiet + 1
quiet_after (suc n) quiet = 0

module _ (hash_string : Text → Text) (get : Text → Validators → Got)
    (parse : Text → Text → Time → Text ⊎ ParsedFeed) (jitter : ℤ → ℤ) (cfg : Config) where
  unfoldable pub record_error : Due → ℕ → ℤ → Text → PollResult → Time → Exec Outcome
  unfolding backoff record_fetch_error attempt ◌>>=◌ pure
  record_error d status retry_after msg result now =
      let wait =
        backoff jitter (pos d.feed.poll_interval) (d.state.fail_count + 1) retry_after status cfg in
      do
        r ← attempt (record_fetch_error d.feed.id status msg now (after now wait))
        pure (outcome result status 0 (some (join msg r)))

  -- FetchOK after a 304
  unfoldable pub not_modified_ok : Due → ℕ → Time → FetchOk
  unfolding next_interval
  not_modified_ok d status now = record {
    etag = [];
    last_modified = [];
    status = status;
    fetched_at = now;
    next_poll_at =
        after now (next_interval (pos d.feed.poll_interval) (d.state.quiet_polls + 1) cfg);
    kind = [];
    title = [];
    site_url = [];
    poll_interval = d.feed.poll_interval;
    new_items = 0;
  }

  unfoldable pub record_not_modified : Due → ℕ → Time → Exec Outcome
  unfolding not_modified_ok record_fetch_ok attempt ◌>>=◌ pure
  record_not_modified d status now = do
    r ← attempt (record_fetch_ok d.feed.id (not_modified_ok d status now))
    pure (outcome result_not_modified status 0 (trouble_of r))

  -- FetchOK after a 200; a negative interval is stored like 0
  unfoldable pub fetch_ok_of : Due → FetchResult → ParsedFeed → ℕ → Time → FetchOk
  unfolding next_interval
  fetch_ok_of d res feed new_items now = record {
    etag = res.etag;
    last_modified = res.last_modified;
    status = res.status;
    fetched_at = now;
    next_poll_at =
        after now (next_interval feed.ttl (quiet_after new_items d.state.quiet_polls) cfg);
    kind = kind_text feed.kind;
    title = feed.title;
    site_url = feed.site_url;
    poll_interval = clamp_int (next_interval feed.ttl 0 cfg);
    new_items = new_items;
  }

  -- after RecordFetchOK; an error of PruneItems is only logged
  unfoldable pub pruned : Due → ℕ → ℕ → Time → Result (Unit {0}) → Exec Outcome
  unfolding prune_items attempt ◌>>=◌ pure
  pruned d status new_items now (err e) =
      pure (outcome result_error status 0 (some (store_error e)))
  pruned d status new_items now (ok u) = do
    _ ← attempt (prune_items d.feed.id cfg.keep_items (now - cfg.keep_for))
    pure (outcome result_ok status new_items none)

  -- after UpsertItems
  unfoldable pub upserted : Due → FetchResult → ParsedFeed → Time → Result ℕ → Exec Outcome
  unfolding fetch_ok_of record_fetch_ok pruned attempt ◌>>=◌ pure
  upserted d res feed now (err e) = pure (outcome result_error res.status 0 (some (store_error e)))
  upserted d res feed now (ok n) = do
    r ← attempt (record_fetch_ok d.feed.id (fetch_ok_of d res feed n now))
    pruned d res.status n now r

  unfoldable pub parsed : Due → FetchResult → Time → Text ⊎ ParsedFeed → Exec Outcome
  unfolding record_error to_store_item upsert_items upserted attempt ◌>>=◌
  parsed d res now (inl msg) = record_error d res.status (pos 0) msg result_parse_error now
  parsed d res now (inr feed) = do
    r ← attempt (upsert_items hash_string d.feed.id (map to_store_item feed.items) now)
    upserted d res feed now r

  unfoldable pub fetched : Due → Time → Got → Exec Outcome
  unfolding record_error record_not_modified parsed
  fetched d now (refused e) = record_error d 0 (pos 0) (message e) (classify e) now
  fetched d now (got res) =
      if res.not_modified
      then record_not_modified d res.status now
      else if is_failure res.status
      then record_error d res.status res.retry_after (http_message res.status) result_error now
      else parsed d res now (parse res.body d.feed.url now)

  -- fetchOne
  unfoldable pub fetch_claimed : Due → Time → Exec Outcome
  unfolding fetched
  fetch_claimed d now =
      fetched d now
        (get d.feed.url (record { etag = d.state.etag; last_modified = d.state.last_modified }))

  -- FetchOne, with the three readings of the clock
  unfoldable pub fetch_one : Due → Time → Time → Time → Exec Outcome
  unfolding fetch_claimed ◌>>=◌ pure
  fetch_one d start now finish = do
    out ← fetch_claimed d now
    pure (record out { feed_id = d.feed.id; duration = finish - start })

  abbrev pub claimed_now : Feed → Time → Time → Time → Result (Option Due) → Exec Outcome
  claimed_now f start now finish (err e) =
      pure (record (outcome result_error 0 0 (some (store_error e))) { feed_id = f.id })
  claimed_now f start now finish (ok none) =
      pure (record (outcome result_in_flight 0 0 (some in_flight)) { feed_id = f.id })
  claimed_now f start now finish (ok (some d)) = fetch_one d start now finish

  -- FetchNow
  unfoldable pub fetch_now : Feed → Time → Time → Time → Time → Exec Outcome
  unfolding claim_feed fetch_one attempt ◌>>=◌ pure
  fetch_now f at start now finish = do
    r ← attempt (claim_feed f.id at cfg.lock_for)
    claimed_now f start now finish r
