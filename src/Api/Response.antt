-- ===== src/Api/Response.antt =====
-- internal/api/jsonfeed.go, and the writers at the end of internal/api/server.go. json.Marshal, the
-- hexadecimal digest and gzip are parameters.
use fcfeeds.Prelude.{
  ℕ, ◌⊎◌, inl, inr, Bool, ◌&&◌, Option, none, some, List, [], ◌∷◌, ◌++◌, ltb, if◌then◌else◌, length,
}
use fcfeeds.Text.{Text, codes, is_empty, contains}
use fcfeeds.Time.{Time}
use fcfeeds.Store.Rows.{Feed, Item, Stats}
use fcfeeds.Parse.Library.{UrlParts}
use fcfeeds.Discover.Search.{Candidate}

pub record ItemExt : Type 0 where
  pub source_name : Text
  pub source_url : Text
  pub feed_url : Text
  pub date_estimated : Bool

-- JSONItem
pub record JsonHeadline : Type 0 where
  pub id : Text
  pub url : Text
  pub title : Text
  pub date_published : Time
  pub image : Text
  pub ext : ItemExt

pub record FeedsExt : Type 0 where
  pub warming : List Text
  pub stale : List Text
  pub generated_at : Time

pub record JsonFeed : Type 0 where
  pub version : Text
  pub title : Text
  pub home_page_url : Text
  pub feed_url : Text
  pub items : List JsonHeadline
  pub ext : Option FeedsExt

abbrev pub json_feed_version : Text
json_feed_version = codes "https://jsonfeed.org/version/1.1"

-- the host of a URL, or the URL where it does not parse; the parameter is url.Parse
abbrev host_of_parsed : Text → Option UrlParts → Text
host_of_parsed raw none = raw
host_of_parsed raw (some u) = u.host

unfoldable pub host_of : (Text → Option UrlParts) → Text → Text
host_of parse_url raw = host_of_parsed raw (parse_url raw)

abbrev or_text : Text → Text → Text
or_text s other = if is_empty s then other else s

unfoldable pub to_json_item : (Text → Option UrlParts) → Item → Feed → JsonHeadline
unfolding host_of
to_json_item parse_url it feed = record {
  id = it.key;
  url = it.url;
  title = it.title;
  date_published = it.published_at;
  image = it.image_url;
  ext = record {
    source_name = or_text (or_text it.source_name feed.title) (host_of parse_url feed.url);
    source_url = or_text it.source_url feed.site_url;
    feed_url = feed.url;
    date_estimated = it.date_estimated;
  };
}

-- What a handler writes as JSON, or the bytes of a feed.
pub data Body : Type 0 where
  no_body : Body
  feed_bytes : Text → Body
  zipped : Text → Body
  error_body : Text → Body
  candidates_body : List Candidate → Body
  unhealthy : Text → Body
  healthy : Stats → Body

pub record Reply : Type 0 where
  pub status : ℕ
  pub headers : List (Text × Text)
  pub body : Body

-- w.Header().Set for a name that is not set yet, and Add
abbrev pub Headers : Type 0
Headers = List (Text × Text)

abbrev pub write_json : Headers → ℕ → Body → Reply
write_json headers code body = record {
  status = code;
  headers = headers ++ (codes "Content-Type", codes "application/json; charset=utf-8") ∷ [];
  body = body;
}

abbrev pub fail : Headers → ℕ → Text → Reply
fail headers code msg = write_json headers code (error_body msg)

-- f.Ext, with GeneratedAt at the zero time
abbrev pub without_time : Option FeedsExt → Option FeedsExt
without_time none = none
without_time (some ext) = some (record ext { generated_at = 0 })

-- the bytes, or nil beside an error
abbrev pub marshalled : Text ⊎ Text → Text
marshalled (inl e) = []
marshalled (inr body) = body

module _ (marshal : JsonFeed → Text ⊎ Text) (digest gzip : Text → Text) where
  unfoldable pub weak_etag : JsonFeed → Text
  weak_etag f =
      let body = marshalled (marshal (record f { ext = without_time f.ext })) in
      codes "W/\"" ++ digest body ++ codes "\""

  abbrev pub cached : Headers → Text → Headers
  cached headers etag =
      headers ++ (codes "ETag", etag) ∷ (codes "Cache-Control", codes "public, max-age=60") ∷ []

  abbrev pub feed_type : Headers
  feed_type = (codes "Content-Type", codes "application/feed+json; charset=utf-8") ∷ []

  abbrev pub zipped_headers : Headers
  zipped_headers =
      (codes "Content-Encoding", codes "gzip") ∷ (codes "Vary", codes "Accept-Encoding") ∷ []

  -- the rest of writeFeed, after json.Marshal
  unfoldable pub write_bytes : Headers → Text → Text → Text → Text → Reply
  unfolding contains
  write_bytes headers if_none_match accept_encoding etag body =
      let h = cached headers etag in
      if contains if_none_match etag
      then record { status = 304; headers = h; body = no_body }
      else if ltb 256 (length body) && contains accept_encoding (codes "gzip")
      then record {
        status = 200;
        headers = h ++ feed_type ++ zipped_headers;
        body = zipped (gzip body);
      }
      else record { status = 200; headers = h ++ feed_type; body = feed_bytes body }

  abbrev pub written : Headers → Text → Text → JsonFeed → Text ⊎ Text → Reply
  written headers if_none_match accept_encoding f (inl e) = fail headers 500 e
  written headers if_none_match accept_encoding f (inr body) =
      write_bytes headers if_none_match accept_encoding (weak_etag f) body

  unfoldable pub write_feed : Headers → Text → Text → JsonFeed → Reply
  unfolding write_bytes weak_etag
  write_feed headers if_none_match accept_encoding f =
      written headers if_none_match accept_encoding f (marshal f)
