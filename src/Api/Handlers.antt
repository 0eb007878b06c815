-- ===== src/Api/Handlers.antt =====
-- The handlers of internal/api/server.go. A handler is a computation on the store that gives its
-- reply and what it counts in the metrics; the parameters of the request are its arguments, empty
-- where they are missing. The deadline of a cold fetch is not modelled.
use fcfeeds.Prelude.{
  ℕ, ◌*◌, ◌⊎◌, Bool, true, false, not, Option, none, some, List, [], ◌∷◌, ◌++◌, ◌==◌, if◌then◌else◌,
  map, find_row,
}
use fcfeeds.Prelude.Int.{ℤ}
use fcfeeds.Text.{Text, codes, is_empty}
use fcfeeds.Time.{Time, Duration, second}
use fcfeeds.Store.Rows.{Feed, FetchState, Item}
use fcfeeds.Store.Conn.{Error, Result, ok, err, Exec, pure, ◌>>=◌, attempt}
use fcfeeds.Store.Feeds.{ensure_feed, feed_by_url}
use fcfeeds.Store.Claims.{fetch_state}
use fcfeeds.Store.Items.{list_items}
use fcfeeds.Fetch.Types.{Validators, Got}
use fcfeeds.Parse.Types.{ParsedFeed}
use fcfeeds.Parse.Library.{UrlParts}
use fcfeeds.Poll.Schedule.{Config}
use fcfeeds.Poll.Fetch.{
  PollResult, result_ok, result_not_modified, result_in_flight, Trouble, Outcome, fetch_now,
}
use fcfeeds.Metrics.Registry.{Update, served, served_stale}
use fcfeeds.Discover.Search.{DiscoverError}
use fcfeeds.Api.Query.{has_time, is_stale, Timeline}
use fcfeeds.Api.Response.{
  JsonHeadline, JsonFeed, json_feed_version, to_json_item, Reply, Headers, fail, write_feed,
}

pub record Options : Type 0 where
  pub cold_fetch_budget : Duration
  pub max_feeds_per_call : ℕ
  pub default_limit : ℕ
  pub max_limit : ℕ

abbrev default_to : ℕ → ℕ → ℕ
default_to n other = if n == 0 then other else n

-- New: the options that are 0 get their defaults
abbrev pub with_defaults : Options → Options
with_defaults o = record {
  cold_fetch_budget = default_to o.cold_fetch_budget (8 * second);
  max_feeds_per_call = default_to o.max_feeds_per_call 25;
  default_limit = default_to o.default_limit 50;
  max_limit = default_to o.max_limit 200;
}

-- A request's reply, and the updates of the metrics.
abbrev pub Answer : Type 0
Answer = Reply × List Update

-- http.ResponseWriter's and the metrics' side of instrument: one request of the route is counted,
-- under the status that was written
unfoldable pub instrument : Text → Exec Answer → Exec Answer
unfolding ◌>>=◌ pure
instrument route h = do a ← h; pure (a.0, a.1 ++ served route a.0.status ∷ [])

-- The values of a request's headers.
pub record Client : Type 0 where
  pub if_none_match : Text
  pub accept_encoding : Text

-- What the writers take from Go's library: json.Marshal, the digest, gzip, RFC 3339, url.Parse, and
-- the messages of errors.
pub record Writer : Type 0 where
  pub marshal : JsonFeed → Text ⊎ Text
  pub digest : Text → Text
  pub gzip : Text → Text
  pub format : Time → Text
  pub parse_url : Text → Option UrlParts
  pub error_text : Error → Text
  pub trouble_text : Option Trouble → Text
  pub discover_text : DiscoverError → Text

-- The feed with its state and items, or why a first fetch gave none.
pub data Page : Type 0 where
  could_not : Option Trouble → Page
  page : Feed → FetchState → List Item → Page

abbrev pub is_answered : PollResult → Bool
is_answered result_ok = true
is_answered result_not_modified = true
is_answered result_in_flight = true
is_answered _ = false

module _ (w : Writer) (o : Options) where
  abbrev pub headline : Feed → Item → JsonHeadline
  headline feed it = to_json_item w.parse_url it feed

  abbrev pub stale_header : Headers
  stale_header = (codes "X-Feeds-Stale", codes "true") ∷ []

  abbrev pub fetched_header : Option Time → Headers
  fetched_header none = []
  fetched_header (some t) = (codes "X-Feeds-Fetched-At", w.format t) ∷ []

  abbrev only_if : {A : Type 0} → Bool → A → List A
  only_if b a = if b then a ∷ [] else []

  -- the response of getFeed
  unfoldable pub feed_json : Time → Feed → FetchState → List Item → JsonFeed
  unfolding to_json_item
  feed_json now feed st items = record {
    version = json_feed_version;
    title = feed.title;
    home_page_url = feed.site_url;
    feed_url = feed.url;
    items = map (headline feed) items;
    ext = some (record {
      warming = only_if (not (has_time st.last_ok_at)) feed.url;
      stale = only_if (is_stale st) feed.url;
      generated_at = now;
    });
  }

  unfoldable pub page_reply : Client → Time → Feed → FetchState → List Item → Answer
  unfolding feed_json write_feed
  page_reply c now feed st items = (
    write_feed w.marshal w.digest w.gzip
        ((if is_stale st then stale_header else []) ++ fetched_header st.last_ok_at) c.if_none_match
        c.accept_encoding (feed_json now feed st items),
    only_if (is_stale st) served_stale,
  )

  unfoldable pub feed_reply : Client → Time → Result Page → Answer
  unfolding page_reply
  feed_reply c now (err e) = (fail [] 500 (w.error_text e), [])
  feed_reply c now (ok (could_not t)) =
      (fail [] 502 (codes "could not fetch feed: " ++ w.trouble_text t), [])
  feed_reply c now (ok (page feed st items)) = page_reply c now feed st items

  -- byID[it.FeedID]; the zero Feed for an id that is missing
  abbrev zero_feed : Feed
  zero_feed = record {
    id = 0;
    url = [];
    kind = [];
    title = [];
    site_url = [];
    poll_interval = 0;
    created_at = 0;
    last_requested_at = 0;
  }

  abbrev or_zero : Option Feed → Feed
  or_zero none = zero_feed
  or_zero (some f) = f

  unfoldable pub feed_of : List Feed → Item → Feed
  unfolding find_row
  feed_of feeds it = or_zero (find_row (λ f. f.id == it.feed_id) feeds)

  -- the response of getItems
  unfoldable pub items_json : Time → Timeline → JsonFeed
  unfolding to_json_item feed_of
  items_json now t = record {
    version = json_feed_version;
    title = codes "Merged timeline";
    home_page_url = [];
    feed_url = [];
    items = map (λ (it : Item). headline (feed_of t.feeds it) it) t.items;
    ext = some (record { warming = t.warming; stale = t.stale; generated_at = now });
  }

  abbrev pub is_any : List Text → Bool
  is_any [] = false
  is_any (u ∷ us) = true

  unfoldable pub items_reply : Client → Time → Result Timeline → Answer
  unfolding items_json write_feed
  items_reply c now (err e) = (fail [] 500 (w.error_text e), [])
  items_reply c now (ok t) = (
    write_feed w.marshal w.digest w.gzip (if is_any t.stale then stale_header else [])
        c.if_none_match c.accept_encoding (items_json now t),
    only_if (is_any t.stale) served_stale,
  )

  module _ (hash_string : Text → Text) (get : Text → Validators → Got)
      (parse : Text → Text → Time → Text ⊎ ParsedFeed) (jitter : ℤ → ℤ) (cfg : Config) where
    unfoldable pub list_page : Feed → FetchState → Exec Page
    unfolding list_items ◌>>=◌ pure
    list_page feed st = do
      items ← list_items (feed.id ∷ []) none o.max_limit
      pure (page feed st items)

    -- after the fetch of a cold feed
    unfoldable pub after_fetch : Text → Outcome → Exec Page
    unfolding feed_by_url fetch_state list_page ◌>>=◌ pure
    after_fetch raw out =
        if is_answered out.result
        then (do feed ← feed_by_url raw; st ← fetch_state feed.id; list_page feed st)
        else pure (could_not out.trouble)

    unfoldable pub warm_or_cold : Text → Feed → FetchState → Time → Time → Time → Time → Exec Page
    unfolding list_page after_fetch fetch_now ◌>>=◌
    warm_or_cold raw feed st at start fetch_at finish =
        if has_time st.last_ok_at then list_page feed st else (do
          out ← fetch_now hash_string get parse jitter cfg feed at start fetch_at finish
          after_fetch raw out)

    -- getFeed from EnsureFeed to the items; the clock is read once by the handler, and, for a cold
    -- feed, by FetchNow and FetchOne
    unfoldable pub feed_page : Text → Time → Time → Time → Time → Time → Exec Page
    unfolding ensure_feed fetch_state warm_or_cold ◌>>=◌
    feed_page raw now at start fetch_at finish = do
      (feed, _) ← ensure_feed raw now
      st ← fetch_state feed.id
      warm_or_cold raw feed st at start fetch_at finish

    module _ (check : Text → Option Text) where
      abbrev pub feed_checked :
          Client → Text → Time → Time → Time → Time → Time → Option Text → Exec Answer
      feed_checked c raw now at start fetch_at finish (some msg) = pure (fail [] 400 msg, [])
      feed_checked c raw now at start fetch_at finish none = do
        r ← attempt (feed_page raw now at start fetch_at finish)
        pure (feed_reply c now r)

      unfoldable pub get_feed : Client → Text → Time → Time → Time → Time → Time → Exec Answer
      unfolding feed_page feed_reply attempt ◌>>=◌ pure
      get_feed c raw now at start fetch_at finish =
          if is_empty raw
          then pure (fail [] 400 (codes "url is required"), [])
          else feed_checked c raw now at start fetch_at finish (check raw)
