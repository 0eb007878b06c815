-- ===== src/Parse/Library.antt =====
-- What internal/parse takes from Go's packages html, regexp, strings, strconv, net/url, time,
-- crypto/sha256, encoding/xml and encoding/json: a record of functions. The decoders are given by
-- the structures into which the program decodes (rssDoc, atomDoc, jsonDoc).
use fcfeeds.Prelude.{◌⊎◌, Bool, Option, List}
use fcfeeds.Prelude.Int.{ℤ}
use fcfeeds.Text.{Text}
use fcfeeds.Time.{Time}

-- url.URL: `opaque` holds what the program neither reads nor changes, the path and the user included
pub record UrlParts : Type 0 where
  pub scheme : Text
  pub host : Text
  pub raw_query : Text
  pub fragment : Text
  pub raw_fragment : Text
  pub opaque : Text

pub record Enclosure : Type 0 where
  pub url : Text
  pub mime : Text

pub record Media : Type 0 where
  pub url : Text
  pub mime : Text
  pub medium : Text

pub record RssItem : Type 0 where
  pub title : Text
  pub link : Text
  pub guid : Text
  pub pub_date : Text
  pub dc_date : Text
  pub author : Text
  pub creator : Text
  pub source_url : Text
  pub source_name : Text
  pub enclosures : List Enclosure
  pub media_content : List Media
  pub media_thumbnail : List Text

pub record RssDoc : Type 0 where
  pub title : Text
  pub link : Text
  pub ttl : Text
  pub update_period : Text
  pub update_frequency : Text
  pub items : List RssItem
  pub rdf_items : List RssItem

pub record AtomLink : Type 0 where
  pub rel : Text
  pub mime : Text
  pub href : Text

pub record AtomEntry : Type 0 where
  pub id : Text
  pub title : Text
  pub links : List AtomLink
  pub published : Text
  pub updated : Text
  pub authors : List Text
  pub media_thumbnail : List Text

pub record AtomDoc : Type 0 where
  pub base : Text
  pub title : Text
  pub links : List AtomLink
  pub entries : List AtomEntry

pub record JsonItem : Type 0 where
  pub id : Text
  pub url : Text
  pub external_url : Text
  pub title : Text
  pub date_published : Text
  pub date_modified : Text
  pub image : Text
  pub banner_image : Text
  pub authors : List Text
  pub author : Option Text

pub record JsonDoc : Type 0 where
  pub title : Text
  pub home_page_url : Text
  pub items : List JsonItem

pub record Library : Type 0 where
  -- html.UnescapeString, strings.TrimSpace, strings.ToLower, strconv.Atoi
  pub unescape : Text → Text
  pub trim : Text → Text
  pub to_lower : Text → Text
  pub atoi : Text → Option ℤ
  -- regexp.MustCompile(pattern).Match(body)
  pub matches : Text → Text → Bool
  -- url.Parse, u.String(), b.ResolveReference(r)
  pub parse_url : Text → Option UrlParts
  pub print_url : UrlParts → Text
  pub resolve : UrlParts → UrlParts → UrlParts
  -- url.ParseQuery as the pairs in the order in which they stand, url.QueryEscape
  pub parse_query : Text → List (Text × Text)
  pub query_escape : Text → Text
  -- the SHA-256 digest in hexadecimal digits
  pub hash : Text → Text
  -- t.Format(time.RFC3339), and time.Parse(layout, s).UTC()
  pub format : Time → Text
  pub parse_time : Text → Text → Option Time
  -- the decoders, or their error
  pub decode_rss : Text → Text ⊎ RssDoc
  pub decode_atom : Text → Text ⊎ AtomDoc
  pub decode_json : Text → Text ⊎ JsonDoc
