-- ===== src/Parse/Sample.antt =====
-- A document, two URLs and the packages' functions on them, for the examples.
use fcfeeds.Prelude.{
  ℕ, ◌+◌, ◌*◌, inl, inr, ◌&&◌, none, some, [], ◌∷◌, ◌++◌, leb, if◌then◌else◌, map,
}
use fcfeeds.Prelude.Int.{pos}
use fcfeeds.Text.{Text, codes, text_eq, is_empty, contains, has_prefix}
use fcfeeds.Time.{Time, hour}
use fcfeeds.Parse.Library.{Library, UrlParts, RssItem, RssDoc}

abbrev pub lower_byte : ℕ → ℕ
lower_byte c = if leb 65 c && leb c 90 then c + 32 else c

abbrev pub plain : UrlParts
plain = record {
  scheme = codes "http";
  host = codes "a.org";
  raw_query = codes "id=7";
  fragment = [];
  raw_fragment = [];
  opaque = codes "/x";
}

abbrev pub tracked : UrlParts
tracked = record {
  scheme = codes "http";
  host = codes "A.org:80";
  raw_query = codes "utm_source=n&id=7";
  fragment = codes "top";
  raw_fragment = codes "top";
  opaque = codes "/x";
}

abbrev pub entry : Text → RssItem
entry title = record {
  title = title;
  link = [];
  guid = [];
  pub_date = [];
  dc_date = [];
  author = codes "ann";
  creator = [];
  source_url = [];
  source_name = [];
  enclosures = [];
  media_content = [];
  media_thumbnail = [];
}

abbrev pub doc : RssDoc
doc = record {
  title = codes "Site";
  link = codes "http://a.org";
  ttl = codes "60";
  update_period = [];
  update_frequency = [];
  items = entry (codes "<b>One</b>") ∷ entry (codes "<br>") ∷ entry (codes "Two  words") ∷ [];
  rdf_items = [];
}

-- The two URLs above, the query of each, and the document above for every body.
abbrev pub toy : Library
toy = record {
  unescape = λ s. s;
  trim = λ s. s;
  to_lower = map lower_byte;
  atoi = λ s. some (pos 60);
  matches = λ p s. has_prefix s (codes "<rss") && contains p (codes "rdf");
  parse_url = λ s. if text_eq s (codes "u") then some tracked else some plain;
  print_url = λ u. u.scheme ++ u.host ++ u.opaque ++ u.raw_query;
  resolve = λ b r. r;
  parse_query = λ q.
      if is_empty q
      then []
      else if contains q (codes "utm")
      then (codes "utm_source", codes "n") ∷ (codes "id", codes "7") ∷ []
      else (codes "id", codes "7") ∷ [];
  query_escape = λ s. s;
  hash = λ s. b'#' ∷ s;
  format = λ t. [];
  parse_time = λ l s. none;
  decode_rss = λ s. inr doc;
  decode_atom = λ s. inl s;
  decode_json = λ s. inl s;
}

abbrev pub noon : Time
noon = 12 * hour

abbrev pub body : Text
body = codes "<rss version='2.0'>"
