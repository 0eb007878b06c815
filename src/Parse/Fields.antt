-- ===== src/Parse/Fields.antt =====
-- internal/parse/rss.go, atom.go, jsonfeed.go and dates.go: what they take from a decoded document
-- without calling another package.
use fcfeeds.Prelude.{
  ◌*◌, ◌/◌, ◌%◌, ◌^◌, ◌≡◌, arith, ◌⊎◌, inl, inr, Bool, false, not, ◌&&◌, ◌||◌, Option, none, some,
  List, [], ◌∷◌, if◌then◌else◌,
}
use fcfeeds.Prelude.Int.{ℤ, pos, lt_int, to_int64, clamp_int}
use fcfeeds.Text.{Text, codes, text_eq, is_empty, has_prefix}
use fcfeeds.Time.{Time, Duration, minute}
use fcfeeds.Parse.Types.{ParsedItem, ParsedFeed}
use fcfeeds.Parse.Library.{Enclosure, Media, RssItem, RssDoc, AtomLink}

abbrev pub date_layouts : List Text
date_layouts =
    codes "Mon, 02 Jan 2006 15:04:05 -0700"
    ∷ codes "Mon, 02 Jan 2006 15:04:05 MST"
    ∷ codes "02 Jan 06 15:04 -0700"
    ∷ codes "02 Jan 06 15:04 MST"
    ∷ codes "Monday, 02-Jan-06 15:04:05 MST"
    ∷ codes "2006-01-02T15:04:05.999999999Z07:00"
    ∷ codes "2006-01-02T15:04:05Z07:00"
    ∷ codes "Mon, 2 Jan 2006 15:04:05 -0700"
    ∷ codes "Mon, 2 Jan 2006 15:04:05 MST"
    ∷ codes "Mon, 02 Jan 2006 15:04 -0700"
    ∷ codes "Mon, 02 Jan 2006 15:04 MST"
    ∷ codes "2 Jan 2006 15:04:05 -0700"
    ∷ codes "2 Jan 2006 15:04:05 MST"
    ∷ codes "2006-01-02T15:04:05"
    ∷ codes "2006-01-02 15:04:05 -0700"
    ∷ codes "2006-01-02 15:04:05"
    ∷ codes "2006-01-02"
    ∷ []

abbrev pub or_else : Option Time → Option Time → Option Time
or_else (some t) o = some t
or_else none o = o

abbrev pub time_or_zero : Option Time → Time
time_or_zero none = 0
time_or_zero (some t) = t

-- `image/` followed by anything
abbrev pub is_image : Text → Bool
is_image mime = has_prefix mime (codes "image/")

abbrev pub enclosure_image : List Enclosure → Text
enclosure_image [] = []
enclosure_image (e ∷ es) =
    let rest = enclosure_image es in if is_image e.mime && not (is_empty e.url) then e.url else rest

abbrev pub media_image : List Media → Text
media_image [] = []
media_image (m ∷ ms) =
    let rest = media_image ms in
    if (is_image m.mime || text_eq m.medium (codes "image")) && not (is_empty m.url)
    then m.url
    else rest

abbrev pub thumbnail_image : List Text → Text
thumbnail_image [] = []
thumbnail_image (t ∷ ts) = let rest = thumbnail_image ts in if not (is_empty t) then t else rest

unfoldable pub rss_image : RssItem → Text
rss_image ri =
    let e = enclosure_image ri.enclosures in
    let m = media_image ri.media_content in
    if not (is_empty e)
    then e
    else if not (is_empty m)
    then m
    else thumbnail_image ri.media_thumbnail

-- the first link with this rel that has an href
abbrev pub href_of : Text → List AtomLink → Text
href_of rel [] = []
href_of rel (l ∷ ls) =
    let rest = href_of rel ls in if text_eq l.rel rel && not (is_empty l.href) then l.href else rest

unfoldable pub alternate_href : List AtomLink → Text
alternate_href links =
    let alternate = href_of (codes "alternate") links in
    if not (is_empty alternate) then alternate else href_of [] links

-- unit / time.Duration(n), with n = 1 for what is no positive number
abbrev pub per : Duration → Option ℤ → ℤ
per unit none = pos unit
per unit (some n) = if lt_int (pos 0) n then pos (unit / clamp_int n) else pos unit

abbrev pub is_positive : Option ℤ → Bool
is_positive none = false
is_positive (some n) = lt_int (pos 0) n

abbrev pub minutes : Option ℤ → ℤ
minutes none = pos 0
minutes (some n) = to_int64 ((clamp_int n * minute) % 2 ^ 64)

abbrev pub the_item : Text → Text → Text → Time → Text → Text → Text → List Text → ParsedItem
the_item key url title published source source_url image authors = record {
  key = key;
  url = url;
  canonical_url = [];
  title = title;
  published = published;
  date_estimated = false;
  source = source;
  source_url = source_url;
  image = image;
  authors = authors;
}

abbrev pub kept_item : Option ParsedItem → List ParsedItem → List ParsedItem
kept_item none rest = rest
kept_item (some it) rest = it ∷ rest

abbrev pub first_of : List Text → Text
first_of [] = []
first_of (t ∷ ts) = t

abbrev pub single : Option Text → List Text
single none = []
single (some n) = n ∷ []

-- ch.Items, or doc.RDFItems where there is none
abbrev pub rss_items : RssDoc → List RssItem
rss_items doc = elim doc.items [ [] ↦ doc.rdf_items | x ∷ xs ↦ x ∷ xs ]

-- if err := dec.Decode(&doc); err != nil { return nil, err }
abbrev pub decoded : {D : Type 0} → (D → ParsedFeed) → Text ⊎ D → Text ⊎ ParsedFeed
decoded f (inl e) = inl e
decoded f (inr doc) = inr (f doc)

pub decoded-inr :
    {D : Type 0} (f : D → ParsedFeed) (r : Text ⊎ D) (feed : ParsedFeed)
    → decoded f r ≡ inr feed
    → (doc : D) × (f doc ≡ feed)
decoded-inr f (inl e) feed h = ground (arith, h)
decoded-inr f (inr doc) feed h = (doc, ground (arith, h))
