-- ===== src/Discover/Tests.antt =====
-- Discovery on a page that declares two links, of which one is a feed.
use fcfeeds.Prelude.{◌≤◌, ◌≡◌, refl, inr, false, Option, none, some, [], ◌∷◌, if◌then◌else◌, arith}
use fcfeeds.Prelude.Int.{pos}
use fcfeeds.Text.{Text, codes, text_eq, contains}
use fcfeeds.Fetch.Types.{Validators, FetchResult, Got, got}
use fcfeeds.Parse.Library.{Library}
use fcfeeds.Parse.Sample.{toy, noon, plain}
use fcfeeds.Parse.Runes.{runes}
use fcfeeds.Parse.Normalize.{clean_title}
use fcfeeds.Parse.Documents.{parse_rss}
use fcfeeds.Parse.Detect.{parse}
use fcfeeds.Discover.Links.{Node, nil, cons, element, other, Attr, declared_feeds}
use fcfeeds.Discover.Search.{Search, default_discoverer, no_validators, discover}
use fcfeeds.Discover.Results.{
  elements, declarations, declared_feeds_lem, Discovered, discover-Discovered,
}

-- The toy of the parser, with URLs that are a path on one host.
abbrev web : Library
web = record toy { parse_url = λ s. some (record plain { opaque = s }); print_url = λ u. u.opaque }

abbrev attr : Text → Text → Attr
attr k v = record { key = k; val = v }

abbrev declared : Text → Node
declared href =
    element (codes "link")
      (attr (codes "rel") (codes "alternate")
        ∷ attr (codes "type") (codes "application/rss+xml")
        ∷ attr (codes "href") href
        ∷ [])
      nil

abbrev page : Node
page = other (
    cons (element (codes "head") [] (cons (declared (codes "/a")) nil))
      (cons (declared (codes "/b")) nil))

abbrev read_page : Text → Option Node
read_page s = some page

abbrev answer : Text → Text → FetchResult
answer url body = record {
  status = 200;
  body = body;
  etag = [];
  last_modified = [];
  content_type = [];
  retry_after = pos 0;
  not_modified = false;
  final_url = url;
}

abbrev served : Text → Validators → Got
served url v =
    got (answer url (if text_eq url (codes "/b") then codes "<rss rdf" else codes "<html>"))

abbrev found_b : Search
found_b = record {
  out = record { url = codes "/b"; kind = codes "rss"; title = codes "Site" } ∷ [];
  seen = codes "/a" ∷ codes "/b" ∷ [];
}

discover_runs : discover web served noon default_discoverer read_page (codes "/") ≡ inr found_b
unfolding discover parse parse_rss clean_title runes contains text_eq
discover_runs = refl

declared_feeds_lem_example :
    ((read_page [] ≡ some page)
      → declared_feeds web read_page [] plain ≡ declarations web plain (elements page))
    × ((read_page [] ≡ none) → declared_feeds web read_page [] plain ≡ [])
declared_feeds_lem_example = declared_feeds_lem web plain read_page [] page

discover-Discovered_example :
    (res : FetchResult) × (served (codes "/") no_validators ≡ got res)
    × (200 ≤ res.status)
    × (res.status ≤ 299)
    × Discovered web served noon default_discoverer read_page (omega arith) res found_b
discover-Discovered_example =
    discover-Discovered web served noon default_discoverer read_page (omega arith) (codes "/")
      found_b discover_runs
