-- ===== src/Parse/Documents.antt =====
-- internal/parse/rss.go, atom.go, jsonfeed.go and dates.go: the documents as normalized feeds.
use fcfeeds.Prelude.{◌*◌, ◌⊎◌, not, ◌&&◌, Option, none, List, [], ◌∷◌, if◌then◌else◌, keep, map}
use fcfeeds.Prelude.Int.{ℤ, pos}
use fcfeeds.Text.{Text, codes, text_eq, is_empty}
use fcfeeds.Time.{Time, hour}
use fcfeeds.Parse.Types.{kind_rss, kind_atom, kind_json, ParsedItem, ParsedFeed}
use fcfeeds.Parse.Library.{
  Library, RssItem, RssDoc, AtomLink, AtomEntry, AtomDoc, JsonItem, JsonDoc,
}
use fcfeeds.Parse.Normalize.{clean_title, resolve_ref, finish}
use fcfeeds.Parse.Fields.{
  date_layouts, or_else, time_or_zero, is_image, rss_image, alternate_href, per, is_positive,
  minutes, the_item, kept_item, first_of, single, rss_items, decoded,
}

module _ (lib : Library) where
  abbrev first_date : List Text → Text → Option Time
  first_date [] s = none
  first_date (l ∷ ls) s = or_else (lib.parse_time l s) (first_date ls s)

  unfoldable pub parse_date : Text → Option Time
  parse_date s0 = let s = lib.trim s0 in if is_empty s then none else first_date date_layouts s

  -- if t, ok := ParseDate(a); ok { ... } else if t, ok := ParseDate(b); ok { ... }
  unfoldable pub dated : Text → Text → Time
  unfolding parse_date
  dated a b = time_or_zero (or_else (parse_date a) (parse_date b))

  -- firstNonEmpty(a, b)
  abbrev pub first_non_empty : Text → Text → Text
  first_non_empty a b =
      if not (is_empty (lib.trim a)) then a else if not (is_empty (lib.trim b)) then b else []

  -- for _, it := range items { if finish(&it, feedURL, now) { f.Items = append(f.Items, it) } }
  unfoldable pub finish_all : List ParsedItem → Text → Time → List ParsedItem
  unfolding finish
  finish_all [] feed_url now = []
  finish_all (it ∷ its) feed_url now =
      kept_item (finish lib it feed_url now) (finish_all its feed_url now)

  -- the names that are not empty once cleaned
  abbrev pub clean_names : List Text → List Text
  clean_names ns = keep (λ n. not (is_empty n)) (map (clean_title lib) ns)

  unfoldable pub rss_ttl : Text → Text → Text → ℤ
  rss_ttl ttl period freq =
      let n = lib.atoi (lib.trim ttl) in
      let unit = lib.to_lower (lib.trim period) in
      let times = lib.atoi (lib.trim freq) in
      if is_positive n
      then minutes n
      else if text_eq unit (codes "hourly")
      then per hour times
      else if text_eq unit (codes "daily")
      then per (24 * hour) times
      else if text_eq unit (codes "weekly")
      then per (7 * 24 * hour) times
      else pos 0

  unfoldable pub rss_draft : Text → RssItem → ParsedItem
  rss_draft site_url ri =
      the_item ri.guid (resolve_ref lib site_url ri.link) ri.title (dated ri.pub_date ri.dc_date)
        (clean_title lib ri.source_name) (lib.trim ri.source_url) (rss_image ri)
        (clean_names (first_non_empty ri.creator ri.author ∷ []))

  unfoldable pub rss_feed : RssDoc → Text → Time → ParsedFeed
  rss_feed doc feed_url now =
      let site_url = lib.trim doc.link in
      record {
        kind = kind_rss;
        title = clean_title lib doc.title;
        site_url = site_url;
        ttl = rss_ttl doc.ttl doc.update_period doc.update_frequency;
        items = finish_all (map (rss_draft site_url) (rss_items doc)) feed_url now;
      }

  unfoldable pub parse_rss : Text → Text → Time → Text ⊎ ParsedFeed
  unfolding rss_feed
  parse_rss body feed_url now = decoded (λ doc. rss_feed doc feed_url now) (lib.decode_rss body)

  -- the image of the first enclosure that is one
  abbrev enclosed_image : Text → List AtomLink → Text
  enclosed_image base [] = []
  enclosed_image base (l ∷ ls) =
      let rest = enclosed_image base ls in
      if text_eq l.rel (codes "enclosure") && is_image l.mime
      then resolve_ref lib base l.href
      else rest

  unfoldable pub atom_image : Text → AtomEntry → Text
  atom_image base e =
      let image = enclosed_image base e.links in
      if is_empty image then first_of e.media_thumbnail else image

  unfoldable pub atom_draft : Text → AtomEntry → ParsedItem
  atom_draft base e =
      the_item e.id (resolve_ref lib base (alternate_href e.links)) e.title
        (dated e.published e.updated) [] [] (atom_image base e) (clean_names e.authors)

  unfoldable pub atom_feed : AtomDoc → Text → Time → ParsedFeed
  atom_feed doc feed_url now =
      let base = first_non_empty doc.base feed_url in
      record {
        kind = kind_atom;
        title = clean_title lib doc.title;
        site_url = resolve_ref lib base (alternate_href doc.links);
        ttl = pos 0;
        items = finish_all (map (atom_draft base) doc.entries) feed_url now;
      }

  unfoldable pub parse_atom : Text → Text → Time → Text ⊎ ParsedFeed
  unfolding atom_feed
  parse_atom body feed_url now = decoded (λ doc. atom_feed doc feed_url now) (lib.decode_atom body)

  unfoldable pub json_authors : JsonItem → List Text
  json_authors ji = elim (clean_names ji.authors) [
    | [] ↦ clean_names (single ji.author)
    | n ∷ ns ↦ n ∷ ns
  ]

  unfoldable pub json_draft : JsonItem → ParsedItem
  json_draft ji =
      the_item ji.id (first_non_empty ji.url ji.external_url) ji.title
        (dated ji.date_published ji.date_modified) [] [] (first_non_empty ji.image ji.banner_image)
        (json_authors ji)

  unfoldable pub json_feed : JsonDoc → Text → Time → ParsedFeed
  json_feed doc feed_url now = record {
    kind = kind_json;
    title = clean_title lib doc.title;
    site_url = lib.trim doc.home_page_url;
    ttl = pos 0;
    items = finish_all (map json_draft doc.items) feed_url now;
  }

  unfoldable pub parse_json_feed : Text → Text → Time → Text ⊎ ParsedFeed
  unfolding json_feed
  parse_json_feed body feed_url now =
      decoded (λ doc. json_feed doc feed_url now) (lib.decode_json body)
