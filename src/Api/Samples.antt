-- ===== src/Api/Samples.antt =====
-- The handlers' theorems at a service that knows no feed yet.
use fcfeeds.Prelude.{◌*◌, refl, ◌⊎◌, inr, false, Option, none, some, [], ◌∷◌, arith}
use fcfeeds.Prelude.Int.{ℤ, pos}
use fcfeeds.Text.{Text, codes}
use fcfeeds.Time.{Time, second}
use fcfeeds.Store.Rows.{empty_db, Feed, FetchState}
use fcfeeds.Store.Conn.{ok, Conn}
use fcfeeds.Store.Runs.{quiet}
use fcfeeds.Fetch.Types.{Validators, Got, got}
use fcfeeds.Parse.Sample.{body, noon}
use fcfeeds.Api.Query.{Timeline}
use fcfeeds.Api.Response.{JsonFeed}
use fcfeeds.Api.Handlers.{
  Options, Client, Writer, with_defaults, feed_json, page_reply, items_json, items_reply,
}
use fcfeeds.Api.Requests.{serve_items}
use fcfeeds.Api.Items.{Rejected, Read, serve_items_answers}
use fcfeeds.Api.Revalidate.{Revalidates, answers_revalidate}

abbrev plain_text : JsonFeed → Text ⊎ Text
plain_text f = inr f.title

abbrev writer : Writer
writer = record {
  marshal = plain_text;
  digest = λ s. s;
  gzip = λ s. s;
  format = λ t. [];
  parse_url = λ s. none;
  error_text = λ e. codes "error";
  trouble_text = λ t. codes "trouble";
  discover_text = λ e. codes "discover";
}

-- the options of main, with the defaults of New
abbrev options : Options
options = with_defaults (record {
  cold_fetch_budget = 8 * second;
  max_feeds_per_call = 0;
  default_limit = 0;
  max_limit = 0;
})

abbrev client : Client
client = record { if_none_match = []; accept_encoding = codes "gzip" }

abbrev served : Text → Validators → Got
served url v = got (record {
  status = 200;
  body = body;
  etag = [];
  last_modified = [];
  content_type = [];
  retry_after = pos 0;
  not_modified = false;
  final_url = url;
})

abbrev same_text : Text → Text
same_text s = s

abbrev steady : ℤ → ℤ
steady d = d

abbrev all_pass : Text → Option Text
all_pass u = none

abbrev no_time : Text → Option Time
no_time v = none

abbrev big_number : Text → Option ℤ
big_number v = some (pos 1000)

abbrev start : Conn
start = quiet empty_db

abbrev asked : Text
asked = codes "http://a"

serve_items_answers_example :
    Rejected no_time big_number options
      (omega arith)
      (omega arith)
      writer
      same_text
      same_text
      all_pass
      client
      noon
      start
      asked
      []
      (codes "1000")
      (serve_items no_time big_number options writer same_text same_text all_pass client noon asked
        []
        (codes "1000")
        start)
    ⊎ Read no_time big_number options
        (omega arith)
        (omega arith)
        writer
        same_text
        same_text
        all_pass
        client
        noon
        start
        asked
        []
        (codes "1000")
        (serve_items no_time big_number options writer same_text same_text all_pass client noon
          asked []
          (codes "1000")
          start)
serve_items_answers_example =
    serve_items_answers no_time big_number options (omega arith) (omega arith) writer same_text
      same_text all_pass client noon start asked [] (codes "1000")

abbrev some_feed : Feed
some_feed = record {
  id = 1;
  url = asked;
  kind = codes "rss";
  title = codes "Site";
  site_url = asked;
  poll_interval = 900 * second;
  created_at = 0;
  last_requested_at = 0;
}

abbrev some_state : FetchState
some_state = record {
  feed_id = 1;
  etag = [];
  last_modified = [];
  next_poll_at = noon;
  locked_until = none;
  last_fetch_at = some noon;
  last_ok_at = some noon;
  last_status = 200;
  fail_count = 0;
  last_error = [];
  quiet_polls = 0;
}

abbrev no_stories : Timeline
no_stories = record { feeds = some_feed ∷ []; items = []; warming = []; stale = [] }

answers_revalidate_example :
    Revalidates plain_text same_text same_text
      (page_reply writer options client noon some_feed some_state []).0
      (feed_json writer options (2 * noon) some_feed some_state [])
    × Revalidates plain_text same_text same_text
        (items_reply writer options client noon (ok no_stories)).0
        (items_json writer options (2 * noon) no_stories)
unfolding feed_json items_json
answers_revalidate_example =
    answers_revalidate writer options client noon (2 * noon) some_feed some_state [] no_stories
      (codes "Site") (codes "Site") (codes "Merged timeline") (codes "Merged timeline") refl refl
      refl refl
