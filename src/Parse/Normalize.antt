-- ===== src/Parse/Normalize.antt =====
-- internal/parse/normalize.go.
use fcfeeds.Prelude.{
  ℕ, ◌+◌, ◌*◌, Bool, true, false, not, ◌&&◌, ◌||◌, Option, none, some, List, [], ◌∷◌, ◌++◌, ltb,
  ◌==◌, if◌then◌else◌, length, take, keep,
}
use fcfeeds.Prelude.Sort.{sort}
use fcfeeds.Text.{Text, codes, text_eq, is_empty, has_prefix, has_suffix, has_text}
use fcfeeds.Text.Order.{text_le}
use fcfeeds.Time.{Time, hour}
use fcfeeds.Parse.Types.{ParsedItem}
use fcfeeds.Parse.Runes.{runes, string_of}
use fcfeeds.Parse.Library.{Library, UrlParts}

abbrev pub max_title_runes : ℕ
max_title_runes = 300

abbrev pub has_byte : ℕ → Text → Bool
has_byte b [] = false
has_byte b (c ∷ s) = c == b || has_byte b s

-- reTags.ReplaceAllString(s, ""): a tag runs from `<` to the next `>`, where there is one; the flag
-- says that the walk is inside a tag
unfoldable strip_tags : Bool → Text → Text
strip_tags inside [] = []
strip_tags true (c ∷ s) = strip_tags (not (c == b'>')) s
strip_tags false (c ∷ s) =
    let opens = c == b'<' && has_byte b'>' s in
    let rest = strip_tags opens s in if opens then rest else c ∷ rest

-- \s
abbrev is_space : ℕ → Bool
is_space c = (c == 9 || c == 10) || (c == 12 || (c == 13 || c == 32))

-- reWhitespace.ReplaceAllString(s, " "); the flag says that the byte before was white space
unfoldable collapse : Bool → Text → Text
collapse after [] = []
collapse after (c ∷ s) =
    let rest = collapse (is_space c) s in
    if not (is_space c) then c ∷ rest else if after then rest else 32 ∷ rest

-- if utf8.RuneCountInString(s) > maxTitleRunes { ... }
unfoldable pub cap_title : Text → Text
cap_title s =
    if ltb max_title_runes (length (runes s)) then string_of (take max_title_runes (runes s)) else s

abbrev tracking_params : List Text
tracking_params =
    codes "fbclid" ∷ codes "gclid" ∷ codes "mc_cid" ∷ codes "mc_eid" ∷ codes "ref" ∷ []

-- trackingParams[k] || strings.HasPrefix(k, "utm_")
unfoldable pub is_tracking : Text → Bool
is_tracking k = has_text tracking_params k || has_prefix k (codes "utm_")

abbrev pub is_kept : Text × Text → Bool
is_kept (k, v) = not (is_tracking k)

-- the keys of a url.Values
unfoldable pub keys : List (Text × Text) → List Text
keys [] = []
keys ((k, v) ∷ ps) = let rest = keys ps in if has_text rest k then rest else k ∷ rest

-- q[k]
unfoldable pub values : Text → List (Text × Text) → List Text
values k [] = []
values k ((j, v) ∷ ps) = let rest = values k ps in if text_eq j k then v ∷ rest else rest

-- s[:strings.LastIndex(s, b)], of a string that has the byte
abbrev pub before_last : ℕ → Text → Text
before_last b [] = []
before_last b (c ∷ s) = let rest = before_last b s in if has_byte b s then c ∷ rest else []

-- the default port of the scheme, after the colon
abbrev pub has_default_port : Text → Text → Bool
has_default_port scheme host =
    (text_eq scheme (codes "http") && has_suffix host (codes ":80"))
    || (text_eq scheme (codes "https") && has_suffix host (codes ":443"))

unfoldable pub canonical_host : Text → Text → Text
canonical_host scheme host = if has_default_port scheme host then before_last b':' host else host

module _ (lib : Library) where
  unfoldable pub clean_title : Text → Text
  unfolding strip_tags collapse cap_title
  clean_title s =
      let s1 = lib.unescape (strip_tags false (lib.unescape s)) in
      cap_title (lib.trim (collapse false s1))

  -- for _, v := range q[k] { ... }, of what the builder holds
  unfoldable pub write_values : Text → Text → List Text → Text
  write_values b k [] = b
  write_values b k (v ∷ vs) =
      let b1 = if is_empty b then b else b ++ b'&' ∷ [] in
      write_values (b1 ++ lib.query_escape k ++ b'=' ∷ lib.query_escape v) k vs

  -- for _, k := range keys { ... }
  unfoldable pub write_keys : Text → List (Text × Text) → List Text → Text
  write_keys b q [] = b
  write_keys b q (k ∷ ks) = write_keys (write_values b k (values k q)) q ks

  -- u.RawQuery without the tracking parameters, its keys in order
  unfoldable pub canonical_query : Text → Text
  canonical_query raw =
      if is_empty raw
      then raw
      else let q = keep is_kept (lib.parse_query raw) in write_keys [] q (sort text_le (keys q))

  unfoldable pub canonical_parts : UrlParts → UrlParts
  canonical_parts u = record {
    scheme = lib.to_lower u.scheme;
    host = canonical_host (lib.to_lower u.scheme) (lib.to_lower u.host);
    raw_query = canonical_query u.raw_query;
    fragment = [];
    raw_fragment = [];
    opaque = u.opaque;
  }

  abbrev pub canonical_of : Text → Option UrlParts → Text
  canonical_of raw none = raw
  canonical_of raw (some u) = if is_empty u.host then raw else lib.print_url (canonical_parts u)

  unfoldable pub canonical_url : Text → Text
  canonical_url raw = canonical_of raw (lib.parse_url (lib.trim raw))

  -- KeyForURL
  unfoldable pub key_for_url : Text → Text
  key_for_url raw = lib.hash (canonical_url raw)

  unfoldable pub key_for_title : Text → Text → Time → Text
  key_for_title feed_url title published =
      lib.hash (feed_url ++ b'|' ∷ title ++ b'|' ∷ lib.format published)

  unfoldable pub clamp_date : Time → Time → Time
  clamp_date t now = if ltb (now + 24 * hour) t then now else t

  abbrev resolved : Text → Text → Option UrlParts → Option UrlParts → Text
  resolved base ref none r = ref
  resolved base ref (some b) none = ref
  resolved base ref (some b) (some r) =
      if is_empty base then ref else lib.print_url (lib.resolve b r)

  unfoldable pub resolve_ref : Text → Text → Text
  resolve_ref base ref0 =
      let ref = lib.trim ref0 in
      if is_empty ref then [] else resolved base ref (lib.parse_url base) (lib.parse_url ref)

  -- the switch over the key
  abbrev pub key_of : Text → Text → Text → Text → Time → Text
  key_of key canonical feed_url title published =
      if not (is_empty key)
      then key
      else if not (is_empty canonical)
      then lib.hash canonical
      else key_for_title feed_url title published

  -- it.CanonicalURL, and it.Published of an item; the zero time is instant 0
  abbrev pub canonical_or : Text → Text → Text
  canonical_or url old = if is_empty url then old else canonical_url url

  abbrev pub published_or : Time → Time → Time
  published_or t now = if t == 0 then now else clamp_date t now

  -- the item with its derived fields
  unfoldable pub finished : ParsedItem → Text → Time → ParsedItem
  unfolding clean_title canonical_url clamp_date key_for_title
  finished it feed_url now =
      let title = clean_title it.title in
      let url = lib.trim it.url in
      let canonical = canonical_or url it.canonical_url in
      let published = published_or it.published now in
      record it {
        title = title;
        url = url;
        canonical_url = canonical;
        published = published;
        date_estimated = if it.published == 0 then true else it.date_estimated;
        key = key_of (lib.trim it.key) canonical feed_url title published;
      }

  -- finish: the item, if it is keepable
  unfoldable pub finish : ParsedItem → Text → Time → Option ParsedItem
  unfolding finished
  finish it feed_url now =
      if is_empty (clean_title it.title) then none else some (finished it feed_url now)
