-- ===== src/Store/Rows.antt =====
-- The tables of internal/store/schema.go, and the Go structs that their rows are read into.
-- Times in rows are Unix seconds.
use fcfeeds.Prelude.{ℕ, ◌*◌, Bool, Option, none, some, List, [], ◌==◌}
use fcfeeds.Text.{Text}
use fcfeeds.Time.{Time, Duration, second, from_unix}

-- CREATE TABLE feeds
pub record FeedRow : Type 0 where
  pub id : ℕ
  pub url : Text
  pub kind : Text
  pub title : Text
  pub site_url : Text
  pub poll_interval_s : ℕ
  pub created_at : ℕ
  pub last_requested_at : ℕ

-- CREATE TABLE fetch_state; `none` is NULL
pub record StateRow : Type 0 where
  pub feed_id : ℕ
  pub etag : Text
  pub last_modified : Text
  pub next_poll_at : ℕ
  pub locked_until : Option ℕ
  pub last_fetch_at : Option ℕ
  pub last_ok_at : Option ℕ
  pub last_status : ℕ
  pub fail_count : ℕ
  pub last_error : Text
  pub quiet_polls : ℕ

-- CREATE TABLE items
pub record ItemRow : Type 0 where
  pub id : ℕ
  pub feed_id : ℕ
  pub item_key : Text
  pub url : Text
  pub canonical_url : Text
  pub url_hash : Text
  pub title : Text
  pub source_name : Text
  pub source_url : Text
  pub image_url : Text
  pub published_at : ℕ
  pub first_seen_at : ℕ
  pub date_estimated : ℕ

pub record Db : Type 0 where
  pub feeds : List FeedRow
  pub states : List StateRow
  pub items : List ItemRow

abbrev pub empty_db : Db
empty_db = record { feeds = []; states = []; items = [] }

pub record Feed : Type 0 where
  pub id : ℕ
  pub url : Text
  pub kind : Text
  pub title : Text
  pub site_url : Text
  pub poll_interval : Duration
  pub created_at : Time
  pub last_requested_at : Time

pub record FetchState : Type 0 where
  pub feed_id : ℕ
  pub etag : Text
  pub last_modified : Text
  pub next_poll_at : Time
  pub locked_until : Option Time
  pub last_fetch_at : Option Time
  pub last_ok_at : Option Time
  pub last_status : ℕ
  pub fail_count : ℕ
  pub last_error : Text
  pub quiet_polls : ℕ

pub record Due : Type 0 where
  pub feed : Feed
  pub state : FetchState

pub record FetchOk : Type 0 where
  pub etag : Text
  pub last_modified : Text
  pub status : ℕ
  pub fetched_at : Time
  pub next_poll_at : Time
  pub kind : Text
  pub title : Text
  pub site_url : Text
  pub poll_interval : Duration
  pub new_items : ℕ

pub record Item : Type 0 where
  pub id : ℕ
  pub feed_id : ℕ
  pub feed_url : Text
  pub key : Text
  pub url : Text
  pub canonical_url : Text
  pub url_hash : Text
  pub title : Text
  pub source_name : Text
  pub source_url : Text
  pub image_url : Text
  pub published_at : Time
  pub first_seen_at : Time
  pub date_estimated : Bool

pub record Stats : Type 0 where
  pub feeds : ℕ
  pub due : ℕ
  pub items : ℕ
  pub oldest_due_age : Duration

unfoldable pub scan_feed : FeedRow → Feed
scan_feed r = record {
  id = r.id;
  url = r.url;
  kind = r.kind;
  title = r.title;
  site_url = r.site_url;
  poll_interval = r.poll_interval_s * second;
  created_at = from_unix r.created_at;
  last_requested_at = from_unix r.last_requested_at;
}

unfoldable pub null_time : Option ℕ → Option Time
null_time none = none
null_time (some n) = some (from_unix n)

unfoldable pub scan_state : StateRow → FetchState
unfolding null_time
scan_state r = record {
  feed_id = r.feed_id;
  etag = r.etag;
  last_modified = r.last_modified;
  next_poll_at = from_unix r.next_poll_at;
  locked_until = null_time r.locked_until;
  last_fetch_at = null_time r.last_fetch_at;
  last_ok_at = null_time r.last_ok_at;
  last_status = r.last_status;
  fail_count = r.fail_count;
  last_error = r.last_error;
  quiet_polls = r.quiet_polls;
}

-- The row of a joined query over `items` and `feeds`, whose url is given.
unfoldable pub scan_item : Text → ItemRow → Item
scan_item feed_url r = record {
  id = r.id;
  feed_id = r.feed_id;
  feed_url = feed_url;
  key = r.item_key;
  url = r.url;
  canonical_url = r.canonical_url;
  url_hash = r.url_hash;
  title = r.title;
  source_name = r.source_name;
  source_url = r.source_url;
  image_url = r.image_url;
  published_at = from_unix r.published_at;
  first_seen_at = from_unix r.first_seen_at;
  date_estimated = r.date_estimated == 1;
}
